-- ===== src/Engine/Log.antt =====
-- The log of the CPU in src/core/scheduler.c: which stages leave it as it is, and what a time unit
-- adds to it.
use cpu_scheduler_simulator.Base.{
  ℕ, zero, suc, ◌+◌, ◌-◌, ◌<◌, ◌≡◌, ◌⊎◌, refl, ap, ◌∙◌, Option, none, some, List, [], ◌∷◌, arith,
  Bool-cases, Option-cases, inl, inr, eqb_ℤ, pos,
}
use cpu_scheduler_simulator.Process.{process_tick}
use cpu_scheduler_simulator.State.{SchedulerState, SchedulerPolicy}
use cpu_scheduler_simulator.Gantt.{
  append_entry, append_gantt_entry, append_gantt_entry_lem, idle_entry,
}
use cpu_scheduler_simulator.Engine.{
  handle_completions, finish_running, arrive, arrivals_loop, arrival_due, handle_arrivals,
  handle_tick, handle_dispatch, redispatch, mark_previous, call_next_process, start_next, switch_to,
  count_switch, resume, modify_process, mark_ready, unit_end, execute, advance_clock,
}
use cpu_scheduler_simulator.Engine.View.{View, view}
use cpu_scheduler_simulator.Engine.Contract.{PolicyContract}
use cpu_scheduler_simulator.Engine.Sound.{Sound}
use cpu_scheduler_simulator.Engine.Step.{handle_tick-idle}
use cpu_scheduler_simulator.Engine.Stages.{running_in_range, running_is_running}

pub handle_completions-log :
    (s : SchedulerState) (c : ℕ) → (handle_completions s c).0.gantt_log ≡ s.gantt_log
unfolding handle_completions finish_running
handle_completions-log s c = ground arith

switch_to-log :
    (s : SchedulerState) (previous next : Option ℕ)
    → (switch_to s previous next).gantt_log ≡ s.gantt_log
unfolding switch_to start_next count_switch resume
switch_to-log s previous next = ground arith

mark_previous-log :
    (s : SchedulerState) (r : Option ℕ) → (mark_previous s r).gantt_log ≡ s.gantt_log
unfolding mark_previous
mark_previous-log s r = ground arith

module _ {policy : SchedulerPolicy} (K : PolicyContract policy) where
  arrive-log : (s : SchedulerState) (i : ℕ) → (arrive policy s i).gantt_log ≡ s.gantt_log
  unfolding arrive
  arrive-log s i = ap (λ v. v.gantt_log) (K.arrive_view (modify_process s i mark_ready) i)

  arrivals_loop-log :
      (rounds : ℕ) (s : SchedulerState) → (arrivals_loop rounds policy s).gantt_log ≡ s.gantt_log
  unfolding arrivals_loop
  arrivals_loop-log zero s = refl
  arrivals_loop-log (suc rounds) s = elim (Bool-cases (arrival_due s)) [
    | inl due ↦
        rw (due, arrivals_loop)
          (arrivals_loop-log rounds (arrive policy s s.next_arrival_idx)
            ∙ arrive-log s s.next_arrival_idx)
    | inr e ↦ rw (e, arrivals_loop) refl
  ]

  pub handle_arrivals-log :
      (s : SchedulerState) → (handle_arrivals s policy).gantt_log ≡ s.gantt_log
  unfolding handle_arrivals
  handle_arrivals-log s = arrivals_loop-log (s.num_processes - s.next_arrival_idx) s

  redispatch-log : (s : SchedulerState) → (redispatch s policy).gantt_log ≡ s.gantt_log
  unfolding redispatch
  redispatch-log s =
      let t = mark_previous s s.running_process in
      switch_to-log (call_next_process policy t).1 s.running_process (call_next_process policy t).0
      ∙ ap (λ v. v.gantt_log) (K.next_view t)
      ∙ mark_previous-log s s.running_process

  pub handle_dispatch-log :
      (s : SchedulerState) → (handle_dispatch s policy).gantt_log ≡ s.gantt_log
  unfolding handle_dispatch
  handle_dispatch-log s = ground (arith, redispatch-log s)

  pub handle_tick-log :
      (s : SchedulerState) (c : ℕ)
      → Sound (view s) c
      → K.Tracks s
      → K.Calm s
      → (handle_tick s policy).gantt_log ≡ s.gantt_log
  handle_tick-log s c ok tracked calm = elim (Option-cases s.running_process) [
    | inr (r, run) ↦
        ap (λ v. v.gantt_log)
          (K.tick_view s r (running_in_range s c r run ok) run (running_is_running s c r run ok)
            calm tracked)
    | inl idle ↦ ap (λ t. t.gantt_log) (handle_tick-idle K s idle)
  ]

-- The entries of the log, newest first, as the text they make.
abbrev pub log_of : List (List ℕ) → List ℕ
log_of [] = []
log_of (e ∷ earlier) = append_entry (log_of earlier) e

-- An entry is the mark of an idle CPU or the name of a process.
abbrev pub IsEntry : View → List ℕ → Type 0
IsEntry v e = (e ≡ idle_entry) ⊎ ((i : ℕ) × (i < v.num_processes) × (e ≡ (v.processes i).pid))

-- What the end of a time unit adds to the log of `v`.
abbrev pub Adds : View → SchedulerState → Type 0
Adds v t =
    (e : List ℕ) × IsEntry v e
    × (t.current_time ≡ v.current_time + 1)
    × ((log : List ℕ) → v.gantt_log ≡ some log → t.gantt_log ≡ some (append_entry log e))

append_gantt_entry-time :
    (s : SchedulerState) (e : List ℕ) → (append_gantt_entry s e).current_time ≡ s.current_time
append_gantt_entry-time s e = ap (λ t. t.current_time) (append_gantt_entry_lem s e)

pub unit_end-Adds :
    (s : SchedulerState) (c : ℕ) (run : Option ℕ)
    → ((r : ℕ) → run ≡ some r → r < s.num_processes)
    → Adds (view s) (unit_end s c run).0
unfolding unit_end execute advance_clock append_gantt_entry finish_running
unit_end-Adds s c none h =
    (idle_entry, inl refl, omega (arith, append_gantt_entry-time s idle_entry), λ log e. rw e refl)
unit_end-Adds s c (some r) h = elim (Bool-cases (eqb_ℤ (s.processes r).remaining_time (pos 0))) [
  | inl e ↦ rw e (
    idle_entry,
    inl refl,
    omega (arith, append_gantt_entry-time (finish_running s r) idle_entry),
    λ log k. rw k refl,
  )
  | inr e ↦ rw e (
    (s.processes r).pid,
    inr (r, h r refl, refl),
    omega (arith, append_gantt_entry-time (modify_process s r process_tick) (s.processes r).pid),
    λ log k. rw k refl,
  )
]
