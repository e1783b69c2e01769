-- ===== src/Engine/Aside.antt =====
-- What src/core/scheduler.c leaves to the policy: its private state, and of each process the priority
-- and the allotment used. Only the policy's hooks write them.
use cpu_scheduler_simulator.Base.{
  ℕ, ◌≡◌, refl, sym, ap, ◌∙◌, subst, fun_ext, Bool, true, false, not, ◌||◌, Option, none, some,
  List, pos, eqb_ℤ, ◌==◌, if◌then◌else◌, Bool-cases, inl, inr, arith,
}
use cpu_scheduler_simulator.Process.{Process, running, process_start, process_tick, process_finish}
use cpu_scheduler_simulator.State.{SchedulerState, SchedulerPolicy, PolicyState}
use cpu_scheduler_simulator.Gantt.{append_gantt_entry, append_gantt_entry_lem, idle_entry}
use cpu_scheduler_simulator.Engine.{
  modify_process, mark_ready, is_some, finish_running, handle_completions, complete,
  call_on_arrival, arrive, handle_arrivals, handle_tick, mark_previous, call_next_process,
  start_next, count_switch, resume, switch_to, redispatch, handle_dispatch, advance_clock, execute,
  unit_end, before_execution, finish_unit, step_simulation,
}
use cpu_scheduler_simulator.Engine.Reach.{handle_arrivals-keeps, step_simulation-stages}

abbrev pub own : Process → ℕ × ℕ
own p = (p.priority, p.allotment_used)

pub record Aside : Type 0 where
  pub policy_state : PolicyState
  pub owns : ℕ → ℕ × ℕ

abbrev pub aside : SchedulerState → Aside
aside s = record { policy_state = s.policy_state; owns = λ i. own (s.processes i) }

modify-aside :
    (s : SchedulerState) (r : ℕ) (f : Process → Process)
    → ((p : Process) → own (f p) ≡ own p)
    → aside (modify_process s r f) ≡ aside s
modify-aside s r f same = ap (λ g. record (aside s) { owns = g }) (fun_ext (λ i. at_index i))
  where
    at_index : (i : ℕ) → own ((modify_process s r f).processes i) ≡ own (s.processes i)
    at_index i = elim (Bool-cases (i == r)) [
      | inl e ↦ rw e (same (s.processes i))
      | inr e ↦ rw e refl
    ]

process_start-own : (t : ℕ) (p : Process) → own (process_start t p) ≡ own p
unfolding process_start
process_start-own t p = ground arith

process_tick-own : (p : Process) → own (process_tick p) ≡ own p
unfolding process_tick
process_tick-own p = ground arith

finish_running-aside : (s : SchedulerState) (r : ℕ) → aside (finish_running s r) ≡ aside s
unfolding finish_running process_finish
finish_running-aside s r = modify-aside s r (process_finish s.current_time) (λ p. refl)

complete-aside :
    (s : SchedulerState) (c : ℕ) (run : Option ℕ) → aside (complete s c run).0 ≡ aside s
unfolding complete
complete-aside s c none = refl
complete-aside s c (some r) = elim (Bool-cases (eqb_ℤ (s.processes r).remaining_time (pos 0))) [
  | inl e ↦ rw e (finish_running-aside s r)
  | inr e ↦ rw e refl
]

start_next-aside : (s : SchedulerState) (next : Option ℕ) → aside (start_next s next) ≡ aside s
unfolding start_next
start_next-aside s none = refl
start_next-aside s (some k) =
    modify-aside s k (process_start s.current_time) (process_start-own s.current_time)

switch_to-aside :
    (s : SchedulerState) (previous next : Option ℕ) → aside (switch_to s previous next) ≡ aside s
unfolding switch_to count_switch resume
switch_to-aside s none none = refl
switch_to-aside s none (some k) = start_next-aside s (some k)
switch_to-aside s (some q) none = start_next-aside (count_switch s (some q)) none
switch_to-aside s (some q) (some k) = elim (Bool-cases (k == q)) [
  | inl e ↦ rw e (modify-aside s q (λ p. record p { state = running }) (λ p. refl))
  | inr e ↦ rw e (start_next-aside (count_switch s (some q)) (some k))
]

log-aside :
    (s : SchedulerState) (e : List ℕ) → aside (advance_clock (append_gantt_entry s e)) ≡ aside s
unfolding advance_clock
log-aside s e = rw (append_gantt_entry_lem s e) refl

unit_end-aside :
    (s : SchedulerState) (c : ℕ) (run : Option ℕ) → aside (unit_end s c run).0 ≡ aside s
unfolding unit_end execute
unit_end-aside s c none = log-aside s idle_entry
unit_end-aside s c (some r) = elim (Bool-cases (eqb_ℤ (s.processes r).remaining_time (pos 0))) [
  | inl e ↦ rw e (log-aside (finish_running s r) idle_entry ∙ finish_running-aside s r)
  | inr e ↦ rw e (
      log-aside (modify_process s r process_tick) (s.processes r).pid
      ∙ modify-aside s r process_tick process_tick-own)
]

module _ {ℓ} (policy : SchedulerPolicy) (P : Aside → Type ℓ)
    (arrival : (s : SchedulerState) (i : ℕ) → P (aside s) → P (aside (call_on_arrival policy s i)))
    (tick : (s : SchedulerState) → P (aside s) → P (aside (handle_tick s policy)))
    (choice : (s : SchedulerState) → P (aside s) → P (aside (call_next_process policy s).1)) where
  arrive-keeps : (s : SchedulerState) (i : ℕ) → P (aside s) → P (aside (arrive policy s i))
  unfolding arrive
  arrive-keeps s i h =
      arrival (modify_process s i mark_ready) i
        (subst P (sym (modify-aside s i mark_ready (λ p. refl))) h)

  mark_previous-keeps :
      (s : SchedulerState) (previous : Option ℕ)
      → P (aside s)
      → P (aside (mark_previous s previous))
  unfolding mark_previous
  mark_previous-keeps s none h = h
  mark_previous-keeps s (some r) h = subst P (sym (modify-aside s r mark_ready (λ p. refl))) h

  handle_dispatch-keeps : (s : SchedulerState) → P (aside s) → P (aside (handle_dispatch s policy))
  unfolding handle_dispatch redispatch
  handle_dispatch-keeps s h = go (not (is_some s.running_process) || s.preempt_requested)
    where
      chosen : Option ℕ × SchedulerState
      chosen = call_next_process policy (mark_previous s s.running_process)

      go : (b : Bool) → P (aside (if b then redispatch s policy else s))
      go true =
          subst P (sym (switch_to-aside chosen.1 s.running_process chosen.0))
            (choice (mark_previous s s.running_process) (mark_previous-keeps s s.running_process h))
      go false = h

  -- What the three hooks keep, a time unit keeps.
  pub step_simulation-keeps :
      (s : SchedulerState) (c : ℕ) → P (aside s) → P (aside (step_simulation s policy c).0)
  unfolding handle_completions before_execution finish_unit
  step_simulation-keeps s c h =
      let u = (handle_completions s c).0 in
      let done = subst P (sym (complete-aside s c s.running_process)) h in
      let arrived =
        handle_arrivals-keeps (λ v. P (aside v)) policy (λ v due. arrive-keeps v v.next_arrival_idx)
          u done in
      let before =
        handle_dispatch-keeps (handle_tick (handle_arrivals u policy) policy)
          (tick (handle_arrivals u policy) arrived) in
      step_simulation-stages (λ v d. P (aside v)) policy s c done
        (λ more.
          subst P
            (sym (
              unit_end-aside (before_execution u policy) (handle_completions s c).1
                (before_execution u policy).running_process))
            before)
