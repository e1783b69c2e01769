-- ===== src/Policy/TimeSlice/Run.antt =====
-- The time units of src/core/scheduler.c under src/algorithms/rr.c, and a whole run.
use cpu_scheduler_simulator.Base.{
  ℕ, ◌≡◌, refl, sym, ◌∙◌, subst, Bool, true, false, not, ◌||◌, Option, none, some, List, arith, ℤ,
  pos, ◌<ℤ◌, ◌≤ℤ◌, ltb_ℤ, eqb_ℤ, if◌then◌else◌, Bool-cases, Option-cases, inl, inr,
}
use cpu_scheduler_simulator.Process.{process_tick}
use cpu_scheduler_simulator.State.{SchedulerState, PolicyState, RrState, null, rr, mlfq}
use cpu_scheduler_simulator.Gantt.{append_gantt_entry, append_gantt_entry_lem, idle_entry}
use cpu_scheduler_simulator.Engine.{
  modify_process, call_hook, is_some, finish_running, handle_completions, handle_arrivals,
  handle_tick, mark_previous, call_next_process, redispatch, handle_dispatch, advance_clock,
  execute, unit_end, before_execution, finish_unit, step_simulation,
}
use cpu_scheduler_simulator.Engine.View.{view}
use cpu_scheduler_simulator.Engine.Sound.{Sound}
use cpu_scheduler_simulator.Engine.Stages.{running_in_range}
use cpu_scheduler_simulator.Engine.Unit.{Inv, ArrivesBy, handle_completions-Completed}
use cpu_scheduler_simulator.Engine.Step.{handle_arrivals-Arrived, handle_tick-idle}
use cpu_scheduler_simulator.Engine.Total.{Fresh}
use cpu_scheduler_simulator.Engine.Reach.{
  Reached, Reached-keeps, Underway, begin-Underway, unit-Underway, handle_arrivals-keeps,
  step_simulation-stages,
}
use cpu_scheduler_simulator.Policy.Rr.{
  rr_policy, rr_on_init, rr_next_process, rr_next, rr_on_tick, rr_tick,
}
use cpu_scheduler_simulator.Policy.RoundRobin.{rr_contract, rr_suits}
use cpu_scheduler_simulator.Policy.LeastRuns.{mark_previous-running}
use cpu_scheduler_simulator.Policy.TimeSlice.{
  Slice, InSlice, Awake, handle_completions-InSlice, arrive-InSlice, tick-InSlice, rr_next-Filled,
  switch_to-Slice,
}

mark_previous-quantum :
    (s : SchedulerState) (previous : Option ℕ) → (mark_previous s previous).quantum ≡ s.quantum
unfolding mark_previous
mark_previous-quantum s none = refl
mark_previous-quantum s (some r) = refl

redispatch-InSlice :
    (q : ℤ) (s : SchedulerState) → pos 0 <ℤ q → s.quantum ≡ q → InSlice q (redispatch s rr_policy)
unfolding redispatch call_next_process rr_next_process
redispatch-InSlice q s some_time e =
    let u = mark_previous s s.running_process in
    let (filled, e', run) =
      rr_next-Filled q u u.policy_state (mark_previous-quantum s s.running_process ∙ e) in
    switch_to-Slice q (rr_next u u.policy_state).1 s.running_process (rr_next u u.policy_state).0
      some_time e' (run ∙ mark_previous-running s s.running_process) filled

handle_dispatch-InSlice :
    (q : ℤ) (s : SchedulerState)
    → pos 0 <ℤ q
    → s.quantum ≡ q
    → (s.preempt_requested ≡ false → InSlice q s)
    → InSlice q (handle_dispatch s rr_policy)
unfolding handle_dispatch
handle_dispatch-InSlice q s some_time e h =
    go (not (is_some s.running_process) || s.preempt_requested) refl
  where
    go :
        (b : Bool)
        → (not (is_some s.running_process) || s.preempt_requested) ≡ b
        → InSlice q (if b then redispatch s rr_policy else s)
    go true ask = redispatch-InSlice q s some_time e
    go false on = h (ground arith)

tick_dispatch-InSlice :
    (q : ℤ) (s : SchedulerState) (c : ℕ)
    → pos 0 <ℤ q
    → Sound (view s) c
    → InSlice q s
    → Awake s
    → InSlice q (handle_dispatch (handle_tick s rr_policy) rr_policy)
unfolding handle_tick rr_on_tick
tick_dispatch-InSlice q s c some_time ok h awake = elim (Option-cases s.running_process) [
  | inl idle ↦
      subst (λ t. InSlice q (handle_dispatch t rr_policy))
        (sym (handle_tick-idle rr_contract s idle))
        (handle_dispatch-InSlice q s some_time h.quantum_same (λ off. h))
  | inr (r, run) ↦
      let g = ok.each r (running_in_range s c r run ok) in
      let more : ltb_ℤ (pos 0) (s.processes r).remaining_time ≡ true =
        ground (arith, awake r run, g.remaining_nonneg) in
      let (e, run', left) =
        tick-InSlice q s r s.policy_state h.quantum_same h.calm run more refl
          (subst (λ o. Slice q o s.policy_state) run h.slice) in
      subst
        (λ o.
          InSlice q
            (handle_dispatch (if is_some o then rr_tick s o s.policy_state else s) rr_policy))
        (sym run) (handle_dispatch-InSlice q (rr_tick s (some r) s.policy_state) some_time e left)
]

log-InSlice :
    (q : ℤ) (s : SchedulerState) (e : List ℕ)
    → InSlice q s
    → InSlice q (advance_clock (append_gantt_entry s e))
unfolding advance_clock
log-InSlice q s e h =
    rw (append_gantt_entry_lem s e)
      (record { quantum_same = h.quantum_same; calm = h.calm; slice = h.slice })

unit_end-InSlice :
    (q : ℤ) (s : SchedulerState) (c : ℕ)
    → InSlice q s
    → InSlice q (unit_end s c s.running_process).0
unfolding unit_end execute finish_running
unit_end-InSlice q s c h = elim (Option-cases s.running_process) [
  | inl idle ↦ rw (idle, unit_end) (log-InSlice q s idle_entry h)
  | inr (r, run) ↦ elim (Bool-cases (eqb_ℤ (s.processes r).remaining_time (pos 0))) [
    | inl done ↦
        rw (run, unit_end, done)
          (log-InSlice q (finish_running s r) idle_entry
            (record { quantum_same = h.quantum_same; calm = h.calm; slice = tt }))
    | inr more ↦
        rw (run, unit_end, more)
          (log-InSlice q (modify_process s r process_tick) (s.processes r).pid
            (record { quantum_same = h.quantum_same; calm = h.calm; slice = h.slice }))
  ]
]

step_simulation-InSlice :
    (q : ℤ) (s : SchedulerState) (c : ℕ)
    → pos 0 <ℤ q
    → Inv rr_policy rr_contract s c
    → InSlice q s
    → InSlice q (step_simulation s rr_policy c).0
unfolding finish_unit before_execution
step_simulation-InSlice q s c some_time inv h =
    let u = (handle_completions s c).0 in
    let d = (handle_completions s c).1 in
    let inv' = (handle_completions-Completed rr_contract s c inv).inv in
    let done = handle_completions-InSlice q s c h in
    let ar = handle_arrivals-Arrived rr_contract u d inv'.sound inv'.tracks inv'.calm in
    let arrived =
      handle_arrivals-keeps (λ v. InSlice q v × Awake v) rr_policy
        (λ v due. arrive-InSlice q v v.next_arrival_idx) u done in
    step_simulation-stages (λ v e. InSlice q v) rr_policy s c done.0
      (λ more. unit_end-InSlice q (before_execution u rr_policy) d (
        tick_dispatch-InSlice q (handle_arrivals u rr_policy) d some_time ar.sound arrived.0
          arrived.1))

-- The process on the CPU, if there is one, has some of its slice left, and no more than the quantum.
abbrev pub WithinSlice : ℤ → SchedulerState → Type 0
WithinSlice q s =
    (r : ℕ)
    → s.running_process ≡ some r
    → (x : RrState) × (s.policy_state ≡ rr x)
      × (pos 0 <ℤ x.current_quantum)
      × (x.current_quantum ≤ℤ q)

Slice-WithinSlice :
    (q : ℤ) (s : SchedulerState) (ps : PolicyState)
    → s.policy_state ≡ ps
    → Slice q s.running_process ps
    → WithinSlice q s
Slice-WithinSlice q s (rr x) e h r run =
    let (a, b) = subst (λ o. Slice q o (rr x)) run h in (x, e, a, b)
Slice-WithinSlice q s null e h r run = absurd (subst (λ o. Slice q o null) run h)
Slice-WithinSlice q s (mlfq m) e h r run = absurd (subst (λ o. Slice q o (mlfq m)) run h)

-- In every state of a run of round robin between two time units, from a fresh state with a positive
-- quantum: the process on the CPU has some of its time slice left, and no more than the quantum.
pub Reached-WithinSlice :
    (latest : ℕ) (s t : SchedulerState) (c : ℕ)
    → Fresh s
    → ArrivesBy latest (view s)
    → pos 0 <ℤ s.quantum
    → Reached rr_policy s t c
    → WithinSlice s.quantum t
unfolding call_hook rr_on_init
Reached-WithinSlice latest s t c f by some_time reached =
    Slice-WithinSlice s.quantum t t.policy_state refl
      (Reached-keeps (λ u d. Underway rr_policy rr_contract latest s u d × InSlice s.quantum u)
        (
          begin-Underway rr_contract latest s f (rr_suits _) by,
          record { quantum_same = refl; calm = f.calm; slice = tt },
        )
        (λ u d lt h. (
          unit-Underway rr_contract latest s f (rr_suits _) by u d lt h.0,
          step_simulation-InSlice s.quantum u d some_time h.0.inv h.1,
        ))
        reached).1.slice
