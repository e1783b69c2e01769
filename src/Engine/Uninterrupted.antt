-- ===== src/Engine/Uninterrupted.antt =====
-- src/core/scheduler.c under a policy that has neither an arrival nor a tick hook, as FCFS and SJF.
use cpu_scheduler_simulator.Base.{
  ℕ, zero, suc, ◌+◌, ◌-◌, ◌<◌, List, ◌≡◌, refl, ap, ◌∙◌, false, Option, none, some, arith,
  Bool-cases, Option-cases, inl, inr, ◌==◌, if◌then◌else◌, not, ◌||◌, pos, eqb_ℤ,
}
use cpu_scheduler_simulator.State.{SchedulerState, SchedulerPolicy}
use cpu_scheduler_simulator.Gantt.{append_gantt_entry, append_gantt_entry_lem, idle_entry}
use cpu_scheduler_simulator.Process.{process_tick}
use cpu_scheduler_simulator.Engine.{
  handle_completions, finish_running, arrive, arrivals_loop, arrival_due, handle_arrivals,
  handle_tick, handle_dispatch, redispatch, mark_previous, call_next_process, start_next, switch_to,
  count_switch, resume, modify_process, is_some, before_execution, finish_unit, unit_end, execute,
  advance_clock, step_simulation, set_running, run_simulation,
}
use cpu_scheduler_simulator.Engine.View.{view}
use cpu_scheduler_simulator.Engine.Contract.{PolicyContract}
use cpu_scheduler_simulator.Engine.Quiet.{work}
use cpu_scheduler_simulator.Engine.Unit.{ArrivesBy}
use cpu_scheduler_simulator.Engine.Keeps.{run_simulation-keeps}
use cpu_scheduler_simulator.Engine.Total.{Fresh}

handle_completions-switches :
    (s : SchedulerState) (c : ℕ)
    → ((handle_completions s c).0.context_switches ≡ s.context_switches)
      × ((handle_completions s c).0.preempt_requested ≡ s.preempt_requested)
unfolding handle_completions finish_running
handle_completions-switches s c = ground arith

switch_to-idle :
    (s : SchedulerState) (next : Option ℕ)
    → (switch_to s none next).context_switches ≡ s.context_switches
unfolding switch_to start_next count_switch resume
switch_to-idle s next = ground arith

append_gantt_entry-switches :
    (s : SchedulerState) (e : List ℕ)
    → (append_gantt_entry s e).context_switches ≡ s.context_switches
append_gantt_entry-switches s e = ap (λ t. t.context_switches) (append_gantt_entry_lem s e)

unit_end-switches :
    (s : SchedulerState) (c : ℕ) (run : Option ℕ)
    → (unit_end s c run).0.context_switches ≡ s.context_switches
unfolding unit_end execute advance_clock finish_running
unit_end-switches s c none = append_gantt_entry-switches s idle_entry
unit_end-switches s c (some r) = elim (Bool-cases (eqb_ℤ (s.processes r).remaining_time (pos 0))) [
  | inl e ↦ rw e (append_gantt_entry-switches (finish_running s r) idle_entry)
  | inr e ↦ rw e (append_gantt_entry-switches (modify_process s r process_tick) (s.processes r).pid)
]

module _ {policy : SchedulerPolicy} (K : PolicyContract policy)
    (no_arrival : policy.on_arrival ≡ none) (no_tick : policy.on_tick ≡ none) where
  arrive-switches :
      (s : SchedulerState) (i : ℕ)
      → ((arrive policy s i).context_switches ≡ s.context_switches)
        × ((arrive policy s i).preempt_requested ≡ s.preempt_requested)
  unfolding arrive
  arrive-switches s i = rw no_arrival (refl, refl)

  arrivals_loop-switches :
      (rounds : ℕ) (s : SchedulerState)
      → ((arrivals_loop rounds policy s).context_switches ≡ s.context_switches)
        × ((arrivals_loop rounds policy s).preempt_requested ≡ s.preempt_requested)
  unfolding arrivals_loop
  arrivals_loop-switches zero s = (refl, refl)
  arrivals_loop-switches (suc rounds) s = elim (Bool-cases (arrival_due s)) [
    | inl due ↦
        let (a, b) = arrivals_loop-switches rounds (arrive policy s s.next_arrival_idx) in
        let (c, d) = arrive-switches s s.next_arrival_idx in rw (due, arrivals_loop) (a ∙ c, b ∙ d)
    | inr e ↦ rw (e, arrivals_loop) (refl, refl)
  ]

  handle_tick-none : (s : SchedulerState) → handle_tick s policy ≡ s
  unfolding handle_tick
  handle_tick-none s = rw no_tick refl

  redispatch-idle :
      (s : SchedulerState)
      → s.running_process ≡ none
      → (redispatch s policy).context_switches ≡ s.context_switches
  unfolding redispatch mark_previous
  redispatch-idle s e =
      let t = mark_previous s s.running_process in
      ap
        (λ p.
          (switch_to (call_next_process policy t).1 p
            (call_next_process policy t).0).context_switches)
        e
      ∙ switch_to-idle (call_next_process policy t).1 (call_next_process policy t).0
      ∙ ap (λ v. v.context_switches) (K.next_view t)
      ∙ ap (λ p. (mark_previous s p).context_switches) e

  handle_dispatch-calm :
      (s : SchedulerState)
      → s.preempt_requested ≡ false
      → (handle_dispatch s policy).context_switches ≡ s.context_switches
  unfolding handle_dispatch
  handle_dispatch-calm s calm = elim (Option-cases s.running_process) [
    | inl idle ↦
        ap
          (λ o.
            (if not (is_some o) || s.preempt_requested
              then redispatch s policy
              else s).context_switches)
          idle
        ∙ redispatch-idle s idle
    | inr (r, run) ↦
        ap
          (λ o.
            (if not (is_some o) || s.preempt_requested
              then redispatch s policy
              else s).context_switches)
          run
        ∙ ap (λ b. (if b then redispatch s policy else s).context_switches) calm
  ]

  before_execution-switches :
      (s : SchedulerState)
      → s.preempt_requested ≡ false
      → (before_execution s policy).context_switches ≡ s.context_switches
  unfolding before_execution handle_arrivals
  before_execution-switches s calm =
      let (a, b) = arrivals_loop-switches (s.num_processes - s.next_arrival_idx) s in
      ap (λ t. (handle_dispatch t policy).context_switches)
        (handle_tick-none (handle_arrivals s policy))
      ∙ handle_dispatch-calm (handle_arrivals s policy) (b ∙ calm)
      ∙ a

  step_simulation-switches :
      (s : SchedulerState) (c : ℕ)
      → s.preempt_requested ≡ false
      → (step_simulation s policy c).0.context_switches ≡ s.context_switches
  unfolding step_simulation finish_unit
  step_simulation-switches s c calm =
      let u = (handle_completions s c).0 in
      let d = (handle_completions s c).1 in
      let (a, b) = handle_completions-switches s c in
      elim (Bool-cases (d == s.num_processes)) [
        | inl all ↦ rw all a
        | inr more ↦ rw more (
            unit_end-switches (before_execution u policy) d
              (before_execution u policy).running_process
            ∙ before_execution-switches u (b ∙ calm)
            ∙ a)
      ]

  pub run_simulation-switches :
      (fuel latest : ℕ) (s : SchedulerState)
      → Fresh s
      → K.Suits (set_running s none)
      → ArrivesBy latest (view s)
      → work (view s) + latest < fuel
      → (t : SchedulerState) × (run_simulation fuel s policy ≡ some t)
        × (t.context_switches ≡ s.context_switches)
  run_simulation-switches fuel latest s f suits by lt =
      run_simulation-keeps K latest (λ v. v.context_switches ≡ s.context_switches)
        (λ t c inv more arrives h. step_simulation-switches t c inv.calm ∙ h) fuel s f suits by lt
        refl
