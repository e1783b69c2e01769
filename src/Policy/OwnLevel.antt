-- ===== src/Policy/OwnLevel.antt =====
-- In src/algorithms/mlfq.c a process stands in the queue of its priority.
use cpu_scheduler_simulator.Base.{
  ℕ, zero, suc, ◌+◌, ◌<◌, ◌≡◌, refl, ap, ◌∙◌, subst, fun_ext, Bool, true, false, Option, none, some,
  arith, if◌then◌else◌, ltb, pos, ◌+ℤ◌, ◌-ℤ◌, leb_ℤ,
}
use cpu_scheduler_simulator.Process.{Process}
use cpu_scheduler_simulator.State.{SchedulerState, PolicyState, MlfqState, mlfq, null, rr}
use cpu_scheduler_simulator.Engine.{modify_process, set_preempt}
use cpu_scheduler_simulator.Policy.Mlfq.{
  enqueue_at, set_mlfq, reset_priority, outranks_running, mlfq_arrival, mlfq_next, pick_from, boost,
  boost_running, demote, use_tick, mlfq_tick,
}
use cpu_scheduler_simulator.Policy.Rules.{Highest, pick_from-Highest}
use cpu_scheduler_simulator.Policy.Placement.{OwnLevel, Absent, place-OwnLevel, Highest-OwnLevel}
use cpu_scheduler_simulator.Policy.Boost.{boost-OwnLevel, boost-Absent}

-- What every hook is to keep.
abbrev pub Leveled : SchedulerState → PolicyState → Type 0
Leveled s (mlfq m) = OwnLevel s m
Leveled s null = ⊥
Leveled s (rr r) = ⊥

pick_from-num : (rounds i : ℕ) (m : MlfqState) → (pick_from rounds i m).1.num_queues ≡ m.num_queues
unfolding pick_from
pick_from-num zero i m = refl
pick_from-num (suc rounds) i m = ground (arith, pick_from-num rounds (i + 1) m)

pub mlfq_next-Leveled :
    (s : SchedulerState) (m : MlfqState)
    → OwnLevel s m
    → Leveled (mlfq_next s (mlfq m)).1 (mlfq_next s (mlfq m)).1.policy_state
unfolding mlfq_next
mlfq_next-Leveled s m own =
    Highest-OwnLevel s m m.num_queues (pick_from m.num_queues 0 m) refl
      (subst (λ n. Highest 0 n m (pick_from m.num_queues 0 m)) (omega arith)
        (pick_from-Highest m.num_queues 0 m))
      (pick_from-num m.num_queues 0 m) own

pub mlfq_arrival-Leveled :
    (s : SchedulerState) (m : MlfqState) (p : ℕ)
    → Absent m p
    → OwnLevel s m
    → Leveled (mlfq_arrival s p (mlfq m)) (mlfq_arrival s p (mlfq m)).policy_state
unfolding mlfq_arrival
mlfq_arrival-Leveled s m p absent own =
    if_same (outranks_running s' p s'.running_process)
      (place-OwnLevel s m p 0 reset_priority refl absent own)
  where
    s' : SchedulerState
    s' = set_mlfq (modify_process s p reset_priority) (enqueue_at m 0 p)

    if_same :
        (b : Bool)
        → OwnLevel (modify_process s p reset_priority) (enqueue_at m 0 p)
        → Leveled
            (if b then set_preempt s' true else s')
            (if b then set_preempt s' true else s').policy_state
    if_same true h = h
    if_same false h = h

demote-OwnLevel :
    (s : SchedulerState) (m : MlfqState) (p : ℕ)
    → Absent m p
    → OwnLevel s m
    → Leveled (demote s m p) (demote s m p).policy_state
unfolding demote
demote-OwnLevel s m p absent own =
    place-OwnLevel s m p level (λ q. record q { priority = level; allotment_used = 0 }) refl absent
      own
  where
    old : ℕ
    old = (s.processes p).priority

    level : ℕ
    level = if ltb (old + 1) m.num_queues then old + 1 else old

-- A process that stands in no queue goes to the end of the queue of its priority.
requeue-OwnLevel :
    (s : SchedulerState) (m : MlfqState) (p : ℕ)
    → Absent m p
    → OwnLevel s m
    → OwnLevel s (enqueue_at m (s.processes p).priority p)
requeue-OwnLevel s m p absent own l i lt h =
    ap (λ a. (a i).priority) (unchanged s p)
    ∙ place-OwnLevel s m p (s.processes p).priority (λ q. q) refl absent own l i lt h
  where
    unchanged : (t : SchedulerState) (k : ℕ) → t.processes ≡ (modify_process t k (λ q. q)).processes
    unchanged t k = fun_ext λ j. ground arith

use_tick-OwnLevel :
    (s : SchedulerState) (m0 : MlfqState) (p : ℕ)
    → Absent m0 p
    → OwnLevel s m0
    → Leveled (use_tick s m0 p) (use_tick s m0 p).policy_state
unfolding use_tick
use_tick-OwnLevel s m0 p absent own =
    choose (leb_ℤ (m.queues q.priority).allotment (pos q.allotment_used))
      (leb_ℤ m.current_quantum (pos 0)) s.preempt_requested
  where
    m : MlfqState
    m = record m0 { current_quantum = m0.current_quantum -ℤ pos 1 }

    s' : SchedulerState
    s' = modify_process s p (λ r. record r { allotment_used = r.allotment_used + 1 })

    q : Process
    q = s'.processes p

    counted : OwnLevel s' m
    counted l i lt h = ground (arith, own l i lt h)

    choose :
        (a b c : Bool)
        → let t =
            (if a
              then demote s' m p
              else if b
              then set_preempt (set_mlfq s' (enqueue_at m q.priority p)) true
              else if c
              then set_mlfq s' (enqueue_at m q.priority p)
              else set_mlfq s' m) in
          Leveled t t.policy_state
    choose true b c = demote-OwnLevel s' m p absent counted
    choose false true c = requeue-OwnLevel s' m p absent counted
    choose false false true = requeue-OwnLevel s' m p absent counted
    choose false false false = counted

pub mlfq_tick-Leveled :
    (s : SchedulerState) (m : MlfqState) (current : Option ℕ)
    → 0 < m.num_queues
    → ((p : ℕ) → current ≡ some p → Absent m p)
    → OwnLevel s m
    → Leveled (mlfq_tick s current (mlfq m)) (mlfq_tick s current (mlfq m)).policy_state
unfolding mlfq_tick boost_running
mlfq_tick-Leveled s m0 current some_level absent own =
    choose current (leb_ℤ m.boost_period m.boost_timer) absent
  where
    m : MlfqState
    m = record m0 { boost_timer = m0.boost_timer +ℤ pos 1 }

    choose :
        (o : Option ℕ) (due : Bool)
        → ((p : ℕ) → o ≡ some p → Absent m0 p)
        → let t =
            (if due
              then elim o [
                | none ↦ set_mlfq (boost s m).0 (boost s m).1
                | some p ↦ boost_running (boost s m).0 (boost s m).1 p
              ]
              else elim o [ none ↦ set_mlfq s m | some p ↦ use_tick s m p ]) in
          Leveled t t.policy_state
    choose none true h = boost-OwnLevel s m some_level own
    choose (some p) true h =
        place-OwnLevel (boost s m).0 (boost s m).1 p 0 reset_priority refl
          (boost-Absent s m p some_level (h p refl)) (boost-OwnLevel s m some_level own)
    choose none false h = own
    choose (some p) false h = use_tick-OwnLevel s m p (h p refl) own

-- In the multi-level policy, with at least one level, every process in a queue has the priority of
-- that queue's level, if this was so before: after the arrival of a process that stands in no
-- queue, after a process was taken, and after a tick, whether the process on the CPU, which stands
-- in no queue, is demoted, put back, boosted with the others or left alone.
pub mlfq_hooks-Leveled :
    (s : SchedulerState) (m : MlfqState) (arriving : ℕ) (current : Option ℕ)
    → 0 < m.num_queues
    → OwnLevel s m
    → Absent m arriving
    → ((p : ℕ) → current ≡ some p → Absent m p)
    → Leveled (mlfq_arrival s arriving (mlfq m)) (mlfq_arrival s arriving (mlfq m)).policy_state
      × Leveled (mlfq_next s (mlfq m)).1 (mlfq_next s (mlfq m)).1.policy_state
      × Leveled (mlfq_tick s current (mlfq m)) (mlfq_tick s current (mlfq m)).policy_state
mlfq_hooks-Leveled s m arriving current some_level own absent running-Absent = (
  mlfq_arrival-Leveled s m arriving absent own,
  mlfq_next-Leveled s m own,
  mlfq_tick-Leveled s m current some_level running-Absent own,
)
