-- ===== src/Policy/HighestRuns.antt =====
-- A whole run under src/algorithms/mlfq.c: no ready process is of a higher priority than the process
-- on the CPU. A higher priority is a smaller number.
pub mod Run
use cpu_scheduler_simulator.Base.{
  ℕ, zero, suc, ◌+◌, ◌≤◌, ◌<◌, ◌≡◌, refl, sym, ap, ◌∙◌, subst, Bool, true, false, not, ◌||◌, Option,
  none, some, arith, pos, ltb, leb_ℤ, ◌+ℤ◌, ◌-ℤ◌, ==_refl, ◌==◌, if◌then◌else◌, Bool-cases,
  Option-cases, inl, inr, none≢some, some-inj,
}
use cpu_scheduler_simulator.Process.{Process, running, is_ready, process_start, process_tick}
use cpu_scheduler_simulator.State.{SchedulerState, PolicyState, MlfqState, null, rr, mlfq}
use cpu_scheduler_simulator.Engine.{
  modify_process, mark_ready, set_preempt, set_running, call_hook, handle_completions, arrive,
  handle_arrivals, handle_tick, handle_dispatch, redispatch, mark_previous, call_next_process,
  switch_to, is_some, before_execution, finish_unit, step_simulation,
}
use cpu_scheduler_simulator.Engine.View.{View, view}
use cpu_scheduler_simulator.Policy.Mlfq.{
  mlfq_policy, mlfq_on_arrival, mlfq_next_process, mlfq_arrival, mlfq_next, mlfq_tick, use_tick,
  demote, boost, boost_running, set_mlfq, enqueue_at, reset_priority, outranks_running, pick_from,
}
use cpu_scheduler_simulator.Policy.MultiLevel.{Holds}
use cpu_scheduler_simulator.Policy.OwnLevel.{Leveled}
use cpu_scheduler_simulator.Policy.Outranks.{Outranks, mlfq_next-Outranks}
use cpu_scheduler_simulator.Policy.LeveledContract.{LeveledTracks}
use cpu_scheduler_simulator.Policy.LeastRuns.{
  Measure, Least, LeastRuns, TakesLeast, Settled, mark_previous-running, switch_to-LeastRuns,
}

pub process_start-priority : (t : ℕ) (p : Process) → (process_start t p).priority ≡ p.priority
unfolding process_start
process_start-priority t p = ground arith

pub process_tick-priority : (p : Process) → (process_tick p).priority ≡ p.priority
unfolding process_tick
process_tick-priority p = ground arith

abbrev pub rank : Measure
rank = record {
  key = λ p. pos p.priority;
  key_state = λ p st. refl;
  key_start = λ t p. ap pos (process_start-priority t p);
  key_tick = λ p. omega (arith, process_tick-priority p);
}

abbrev pub Unasked : SchedulerState → Type 0
Unasked s = s.preempt_requested ≡ false → LeastRuns rank s

abbrev pub IsMlfq : PolicyState → Type 0
IsMlfq (mlfq m) = Unit {0}
IsMlfq null = ⊥
IsMlfq (rr r) = ⊥

-- A process that does not outrank the one on the CPU: that one is on the first level.
zero_priority :
    (s : SchedulerState) (p r : ℕ)
    → outranks_running (modify_process s p reset_priority) p (some r) ≡ false
    → ((modify_process s p reset_priority).processes r).priority ≡ 0
zero_priority s p r h = ground (arith, h, ==_refl p)

arrival-Unasked :
    (s : SchedulerState) (p : ℕ) (ps : PolicyState)
    → IsMlfq ps
    → IsMlfq (mlfq_arrival s p ps).policy_state × Unasked (mlfq_arrival s p ps)
unfolding mlfq_arrival
arrival-Unasked s p null is = absurd is
arrival-Unasked s p (rr r) is = absurd is
arrival-Unasked s p (mlfq m) is = go (outranks_running s' p s'.running_process) refl
  where
    s' : SchedulerState
    s' = set_mlfq (modify_process s p reset_priority) (enqueue_at m 0 p)

    go :
        (b : Bool)
        → outranks_running s' p s'.running_process ≡ b
        → IsMlfq (if b then set_preempt s' true else s').policy_state
          × Unasked (if b then set_preempt s' true else s')
    go true asked = (tt, λ calm. cc calm)
    go false not_asked =
        (tt, λ calm r on_cpu i lt rd. omega (arith, zero_priority s p r (rw on_cpu at not_asked)))

pub arrive-Unasked :
    (s : SchedulerState) (p : ℕ)
    → IsMlfq s.policy_state × Unasked s
    → IsMlfq (arrive mlfq_policy s p).policy_state × Unasked (arrive mlfq_policy s p)
unfolding arrive mlfq_on_arrival
arrive-Unasked s p (is, h) = arrival-Unasked (modify_process s p mark_ready) p s.policy_state is

-- What a tick leaves that does not ask for the CPU.
pub record Left (s t : SchedulerState) : Type 0 where
  pub calm : s.preempt_requested ≡ false
  pub priority_same : (i : ℕ) → (t.processes i).priority ≡ (s.processes i).priority

use_tick-Left :
    (s : SchedulerState) (m0 : MlfqState) (p : ℕ)
    → (use_tick s m0 p).preempt_requested ≡ false
    → Left s (use_tick s m0 p)
unfolding use_tick demote
use_tick-Left s m0 p =
    choose (leb_ℤ (m.queues q.priority).allotment (pos q.allotment_used))
      (leb_ℤ m.current_quantum (pos 0)) s.preempt_requested refl
  where
    m : MlfqState
    m = record m0 { current_quantum = m0.current_quantum -ℤ pos 1 }

    s' : SchedulerState
    s' = modify_process s p (λ r. record r { allotment_used = r.allotment_used + 1 })

    q : Process
    q = s'.processes p

    same_priority : (i : ℕ) → (s'.processes i).priority ≡ (s.processes i).priority
    same_priority i = ground arith

    choose :
        (a b c : Bool)
        → s.preempt_requested ≡ c
        → let t =
            (if a
              then demote s' m p
              else if b
              then set_preempt (set_mlfq s' (enqueue_at m q.priority p)) true
              else if c
              then set_mlfq s' (enqueue_at m q.priority p)
              else set_mlfq s' m) in
          t.preempt_requested ≡ false → Left s t
    choose true b c e off = cc (off)
    choose false true c e off = cc (off)
    choose false false true e off = cc (e, off)
    choose false false false e off = record { calm = e; priority_same = same_priority }

pub tick-Left :
    (s : SchedulerState) (p : ℕ) (m0 : MlfqState)
    → (mlfq_tick s (some p) (mlfq m0)).preempt_requested ≡ false
    → Left s (mlfq_tick s (some p) (mlfq m0))
unfolding mlfq_tick boost_running
tick-Left s p m0 off = elim (Bool-cases (leb_ℤ m0.boost_period (m0.boost_timer +ℤ pos 1))) [
  | inl due ↦ cc (rw (due, mlfq_tick) at off)
  | inr early ↦
      rw (early, mlfq_tick)
        (use_tick-Left s (record m0 { boost_timer = m0.boost_timer +ℤ pos 1 }) p
          (rw (early, mlfq_tick) at off))
]

-- The same processes, as far as the choice is concerned.
pub same-LeastRuns :
    (s t : SchedulerState)
    → view t ≡ view s
    → ((i : ℕ) → (t.processes i).priority ≡ (s.processes i).priority)
    → LeastRuns rank s
    → LeastRuns rank t
same-LeastRuns s t e same h r on_cpu i lt rd = omega (
  arith,
  same r,
  same i,
  h r (sym (ap (λ v. v.running_process) e) ∙ on_cpu) i
      (omega (arith, lt, ap (λ v. v.num_processes) e))
      (sym (ap (λ (v : View). is_ready (v.processes i).state) e) ∙ rd),
)

Outranks-TakesLeast :
    (s : SchedulerState) (next : Option ℕ) → Outranks s next → TakesLeast rank s next
Outranks-TakesLeast s none h = λ k e. absurd (none≢some k e)
Outranks-TakesLeast s (some m) (_, least) = λ k e i lt rd.
    omega (arith, ap (λ j. (s.processes j).priority) (some-inj m k e), least i (lt, rd))

-- What the choice leaves: the same processes, and the same one on the CPU.
mlfq_next-TakesLeast :
    (s : SchedulerState) (ps : PolicyState)
    → Holds s ps
    → Leveled s ps
    → ((mlfq_next s ps).1.running_process ≡ s.running_process)
      × TakesLeast rank (mlfq_next s ps).1 (mlfq_next s ps).0
unfolding mlfq_next
mlfq_next-TakesLeast s (mlfq m) ok own =
    (refl, Outranks-TakesLeast s (pick_from m.num_queues 0 m).0 (mlfq_next-Outranks s m ok own))
mlfq_next-TakesLeast s null ok own = absurd ok
mlfq_next-TakesLeast s (rr r) ok own = absurd ok

redispatch-Settled :
    (s : SchedulerState)
    → LeveledTracks (mark_previous s s.running_process)
    → Settled rank (redispatch s mlfq_policy)
unfolding redispatch call_next_process mlfq_next_process
redispatch-Settled s (ok, own) =
    let u = mark_previous s s.running_process in
    let (run_same, takes) = mlfq_next-TakesLeast u u.policy_state ok own in
    (
      refl,
      switch_to-LeastRuns rank (mlfq_next u u.policy_state).1 s.running_process
          (mlfq_next u u.policy_state).0 (run_same ∙ mark_previous-running s s.running_process)
          takes,
    )

pub handle_dispatch-Settled :
    (s : SchedulerState)
    → ((not (is_some s.running_process) || s.preempt_requested) ≡ true
        → LeveledTracks (mark_previous s s.running_process))
    → Unasked s
    → Settled rank (handle_dispatch s mlfq_policy)
unfolding handle_dispatch
handle_dispatch-Settled s tracked h =
    go (not (is_some s.running_process) || s.preempt_requested) refl
  where
    go :
        (b : Bool)
        → (not (is_some s.running_process) || s.preempt_requested) ≡ b
        → Settled rank (if b then redispatch s mlfq_policy else s)
    go true ask = redispatch-Settled s (tracked ask)
    go false on = let calm : s.preempt_requested ≡ false = ground arith in (calm, h calm)
