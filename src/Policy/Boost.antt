-- ===== src/Policy/Boost.antt =====
-- The boost of src/algorithms/mlfq.c and the priorities.
use cpu_scheduler_simulator.Base.{
  ℕ, zero, suc, ◌+◌, ◌-◌, ◌<◌, ◌≡◌, refl, sym, ap, ◌∙◌, List, [], ◌∷◌, arith, ==_refl, ==_false,
  count, count-append, sum_to, modify,
}
use native.Mathlib.Decide.{ℕ_discrete}
use cpu_scheduler_simulator.State.{SchedulerState, MlfqState}
use cpu_scheduler_simulator.Engine.{modify_process}
use cpu_scheduler_simulator.Policy.Mlfq.{
  enqueue, enqueue_at, set_nodes, reset_priority, boost_nodes, boost_levels, reset_allotments,
  boost,
}
use cpu_scheduler_simulator.Policy.MultiLevel.{boost-Shuffled}
use cpu_scheduler_simulator.Policy.Rules.{boost-raises}
use cpu_scheduler_simulator.Policy.Placement.{OwnLevel, Absent}

-- The processes of the first level have the first priority.
abbrev FirstFirst : SchedulerState → MlfqState → Type 0
FirstFirst s m = (i : ℕ) → 0 < count i (m.queues 0).nodes → (s.processes i).priority ≡ 0

boost_nodes-FirstFirst :
    (nodes : List ℕ) (s : SchedulerState) (m : MlfqState)
    → FirstFirst s m
    → FirstFirst (boost_nodes nodes s m).0 (boost_nodes nodes s m).1
unfolding boost_nodes enqueue
boost_nodes-FirstFirst [] s m h = h
boost_nodes-FirstFirst (p ∷ rest) s m h =
    boost_nodes-FirstFirst rest (modify_process s p reset_priority) (enqueue_at m 0 p) step
  where
    step : FirstFirst (modify_process s p reset_priority) (enqueue_at m 0 p)
    step i k = elim (ℕ_discrete i p) [
      | yes e ↦ rw (e, ==_refl p) refl
      | no ne ↦ rw (==_false i p ne) (
          h i (
            ground (
              arith,
              k,
              ==_false p i (λ e. ne (sym e)),
              count-append i (m.queues 0).nodes (p ∷ []),
            )))
    ]

boost_levels-FirstFirst :
    (rounds i : ℕ) (s : SchedulerState) (m : MlfqState)
    → 0 < i
    → FirstFirst s m
    → FirstFirst (boost_levels rounds i s m).0 (boost_levels rounds i s m).1
unfolding boost_levels
boost_levels-FirstFirst zero i s m lt h = h
boost_levels-FirstFirst (suc rounds) i s m lt h =
    boost_levels-FirstFirst rounds (i + 1) _ _ (omega arith) (
      boost_nodes-FirstFirst (m.queues i).nodes s
        (record m { queues = modify m.queues i (set_nodes []) })
        (λ j k. h j (rw (==_false 0 i (λ e. omega (arith, e))) at k)))

reset_allotments-priority :
    (nodes : List ℕ) (s : SchedulerState) (i : ℕ)
    → ((reset_allotments nodes s).processes i).priority ≡ (s.processes i).priority
unfolding reset_allotments
reset_allotments-priority [] s i = refl
reset_allotments-priority (p ∷ rest) s i =
    reset_allotments-priority rest (modify_process s p (λ q. record q { allotment_used = 0 })) i
    ∙ ground arith

-- After a boost only the first level holds processes.
pub boost-OwnLevel :
    (s : SchedulerState) (m : MlfqState)
    → 0 < m.num_queues
    → OwnLevel s m
    → OwnLevel (boost s m).0 (boost s m).1
unfolding boost
boost-OwnLevel s m some_level own l i lt h = elim (ℕ_discrete l 0) [
  | yes first ↦ rw first (
      reset_allotments-priority (r.1.queues 0).nodes r.0 i
      ∙ boost_levels-FirstFirst (m.num_queues - 1) 1 s m (omega arith) (λ j k. own 0 j some_level k)
          i (rw first at h))
  | no other ↦ absurd (
      omega (
        arith,
        h,
        ap (count i) ((boost-raises s m some_level).0 l (omega (arith, other)) (boost-num l lt)),
      ))
]
  where
    r : SchedulerState × MlfqState
    r = boost_levels (m.num_queues - 1) 1 s m

    boost-num : (k : ℕ) → k < r.1.num_queues → k < m.num_queues
    boost-num k below = omega (arith, below, (boost-Shuffled s m some_level).0.num_same)

sum_to-none : (n : ℕ) (f : ℕ → ℕ) → ((l : ℕ) → l < n → f l ≡ 0) → sum_to n f ≡ 0
sum_to-none zero f h = refl
sum_to-none (suc n) f h =
    omega (arith, h n (omega arith), sum_to-none n f (λ l lt. h l (omega arith)))

pub boost-Absent :
    (s : SchedulerState) (m : MlfqState) (p : ℕ)
    → 0 < m.num_queues
    → Absent m p
    → Absent (boost s m).1 p
boost-Absent s m p some_level absent l lt =
    let (empty, first, _, _) = boost-raises s m some_level in
    elim (ℕ_discrete l 0) [
      | yes e ↦ rw e (first p ∙ sum_to-none m.num_queues (λ q. count p (m.queues q).nodes) absent)
      | no ne ↦ ap (count p) (
          empty l (omega (arith, ne))
            (omega (arith, lt, (boost-Shuffled s m some_level).0.num_same)))
    ]
