-- ===== src/Policy/Allotment/Hooks.antt =====
-- The hooks of src/algorithms/mlfq.c and the allotments.
use cpu_scheduler_simulator.Base.{
  ℕ, zero, suc, ◌+◌, ◌<◌, ◌≡◌, ◌≢◌, refl, sym, ap, ◌∙◌, Bool, true, false, Option, none, some,
  arith, pos, ◌<ℤ◌, ltb, leb_ℤ, ◌+ℤ◌, ◌-ℤ◌, ==_refl, ==_false, ◌==◌, if◌then◌else◌, Bool-cases,
  Option-cases, inl, inr,
}
use cpu_scheduler_simulator.Process.{Process}
use cpu_scheduler_simulator.State.{SchedulerState, PolicyState, MlfqState, null, rr, mlfq}
use cpu_scheduler_simulator.Engine.{modify_process, set_preempt, handle_tick, is_some}
use cpu_scheduler_simulator.Engine.Aside.{own, aside}
use cpu_scheduler_simulator.Policy.Mlfq.{
  mlfq_policy, mlfq_on_tick, mlfq_arrival, mlfq_next, mlfq_tick, pick_from, dequeue, enqueue_at,
  set_mlfq, reset_priority, outranks_running, boost, boost_running, demote, use_tick,
}
use cpu_scheduler_simulator.Policy.Allotment.{
  Within, WithinIn, SameLevels, SameLevels-Within, enqueue_at-SameLevels, write-Within,
  modify-Within, reset-Within, boost-Within,
}

asking :
    (n : ℕ) (s : SchedulerState) (b : Bool)
    → WithinIn n (aside s)
    → WithinIn n (aside (if b then set_preempt s true else s))
asking n s true h = h
asking n s false h = h

pub mlfq_arrival-WithinIn :
    (n : ℕ) (s : SchedulerState) (p : ℕ) (ps : PolicyState)
    → WithinIn n (record (aside s) { policy_state = ps })
    → WithinIn n (aside (mlfq_arrival s p ps))
unfolding mlfq_arrival
mlfq_arrival-WithinIn n s p null h = absurd h
mlfq_arrival-WithinIn n s p (rr r) h = absurd h
mlfq_arrival-WithinIn n s p (mlfq m) h =
    let s' = set_mlfq (modify_process s p reset_priority) (enqueue_at m 0 p) in
    asking n s' (outranks_running s' p s'.running_process) (reset-Within n p m s h)

dequeue-allotment :
    (m : MlfqState) (l : ℕ) → (dequeue (m.queues l)).1.allotment ≡ (m.queues l).allotment
unfolding dequeue
dequeue-allotment m l = ground arith

pick_from-SameLevels :
    (rounds level : ℕ) (m : MlfqState) → SameLevels m (pick_from rounds level m).1
unfolding pick_from
pick_from-SameLevels zero level m = record { num_same = refl; allotment_same = λ l. refl }
pick_from-SameLevels (suc rounds) level m = elim (Option-cases (dequeue (m.queues level)).0) [
  | inl e ↦ rw (e, pick_from) (pick_from-SameLevels rounds (level + 1) m)
  | inr (k, e) ↦
      rw (e, pick_from)
        (record {
          num_same = refl;
          allotment_same = λ l. elim (Bool-cases (l == level)) [
            | inl at ↦
                let here : l ≡ level = ground (arith, at) in
                rw at (dequeue-allotment m level ∙ ap (λ j. (m.queues j).allotment) (sym here))
            | inr off ↦ rw off refl
          ];
        })
]

pub mlfq_next-WithinIn :
    (n : ℕ) (s : SchedulerState) (ps : PolicyState)
    → WithinIn n (record (aside s) { policy_state = ps })
    → WithinIn n (aside (mlfq_next s ps).1)
unfolding mlfq_next
mlfq_next-WithinIn n s null h = absurd h
mlfq_next-WithinIn n s (rr r) h = absurd h
mlfq_next-WithinIn n s (mlfq m) h =
    SameLevels-Within n m (pick_from m.num_queues 0 m).1 _ (pick_from-SameLevels m.num_queues 0 m) h

-- A process that used up its allotment starts anew one level below, or on the last level.
demote-WithinIn :
    (n : ℕ) (s t : SchedulerState) (m : MlfqState) (p : ℕ)
    → ((i : ℕ) → i ≢ p → own (t.processes i) ≡ own (s.processes i))
    → (t.processes p).priority ≡ (s.processes p).priority
    → Within n m (λ i. own (s.processes i))
    → WithinIn n (aside (demote t m p))
unfolding demote
demote-WithinIn n s t m p others same h =
    SameLevels-Within n m (enqueue_at m level p) _ (enqueue_at-SameLevels m level p) (
      write-Within n p m (λ i. own (s.processes i)) (λ i. own ((modify_process t p f).processes i))
        (λ i ne. rw (==_false i p ne) (others i ne))
        (λ lt. rw (==_refl p) (positive (ltb (old + 1) m.num_queues) refl lt)) h)
  where
    old : ℕ
    old = (t.processes p).priority

    level : ℕ
    level = if ltb (old + 1) m.num_queues then old + 1 else old

    f : Process → Process
    f q = record q { priority = level; allotment_used = 0 }

    positive :
        (b : Bool)
        → ltb (old + 1) m.num_queues ≡ b
        → p < n
        → pos 0 <ℤ (m.queues (if b then old + 1 else old)).allotment
    positive true e lt = h.some_allotment (old + 1) (ground (arith, e))
    positive false e lt = rw same (omega (arith, h.each p lt))

use_tick-WithinIn :
    (n : ℕ) (s : SchedulerState) (m0 : MlfqState) (p : ℕ)
    → Within n m0 (λ i. own (s.processes i))
    → WithinIn n (aside (use_tick s m0 p))
unfolding use_tick
use_tick-WithinIn n s m0 p h =
    choose (leb_ℤ (m.queues q.priority).allotment (pos q.allotment_used)) refl
      (leb_ℤ m.current_quantum (pos 0)) s.preempt_requested
  where
    m : MlfqState
    m = record m0 { current_quantum = m0.current_quantum -ℤ pos 1 }

    f : Process → Process
    f r = record r { allotment_used = r.allotment_used + 1 }

    s' : SchedulerState
    s' = modify_process s p f

    q : Process
    q = s'.processes p

    here : Within n m (λ i. own (s.processes i))
    here = record { some_level = h.some_level; some_allotment = h.some_allotment; each = h.each }

    counted :
        leb_ℤ (m.queues q.priority).allotment (pos q.allotment_used) ≡ false
        → Within n m (λ i. own (s'.processes i))
    counted left = modify-Within n p m s f (λ lt. ground (arith, rw (==_refl p) at left)) here

    queued :
        leb_ℤ (m.queues q.priority).allotment (pos q.allotment_used) ≡ false
        → Within n (enqueue_at m q.priority p) (λ i. own (s'.processes i))
    queued left =
        SameLevels-Within n m (enqueue_at m q.priority p) _ (enqueue_at-SameLevels m q.priority p)
          (counted left)

    choose :
        (a : Bool)
        → leb_ℤ (m.queues q.priority).allotment (pos q.allotment_used) ≡ a
        → (b c : Bool)
        → WithinIn n (
            aside (
              if a
              then demote s' m p
              else if b
              then set_preempt (set_mlfq s' (enqueue_at m q.priority p)) true
              else if c
              then set_mlfq s' (enqueue_at m q.priority p)
              else set_mlfq s' m))
    choose true e b c =
        demote-WithinIn n s s' m p (λ i ne. rw (==_false i p ne) refl) (rw (==_refl p) refl) here
    choose false e true c = queued e
    choose false e false true = queued e
    choose false e false false = counted e

mlfq_tick-WithinIn :
    (n : ℕ) (s : SchedulerState) (current : Option ℕ) (ps : PolicyState)
    → WithinIn n (record (aside s) { policy_state = ps })
    → WithinIn n (aside (mlfq_tick s current ps))
unfolding mlfq_tick boost_running
mlfq_tick-WithinIn n s current null h = absurd h
mlfq_tick-WithinIn n s current (rr r) h = absurd h
mlfq_tick-WithinIn n s current (mlfq m0) h = choose current (leb_ℤ m.boost_period m.boost_timer)
  where
    m : MlfqState
    m = record m0 { boost_timer = m0.boost_timer +ℤ pos 1 }

    here : Within n m (λ i. own (s.processes i))
    here = record { some_level = h.some_level; some_allotment = h.some_allotment; each = h.each }

    choose :
        (o : Option ℕ) (due : Bool)
        → WithinIn n (
            aside (
              if due
              then elim o [
                | none ↦ set_mlfq (boost s m).0 (boost s m).1
                | some p ↦ boost_running (boost s m).0 (boost s m).1 p
              ]
              else elim o [ none ↦ set_mlfq s m | some p ↦ use_tick s m p ]))
    choose none true = boost-Within n s m here
    choose (some p) true = reset-Within n p (boost s m).1 (boost s m).0 (boost-Within n s m here)
    choose none false = here
    choose (some p) false = use_tick-WithinIn n s m p here

pub handle_tick-WithinIn :
    (n : ℕ) (s : SchedulerState)
    → WithinIn n (aside s)
    → WithinIn n (aside (handle_tick s mlfq_policy))
unfolding handle_tick mlfq_on_tick
handle_tick-WithinIn n s h = choose (is_some s.running_process)
  where
    choose :
        (b : Bool)
        → WithinIn n (aside (if b then mlfq_tick s s.running_process s.policy_state else s))
    choose true = mlfq_tick-WithinIn n s s.running_process s.policy_state h
    choose false = h
