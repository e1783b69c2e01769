-- ===== src/Policy/Levels.antt =====
-- The queues of src/algorithms/mlfq.c as one bag of processes: how often a process stands in any of
-- them, and what each operation on the queues does to that.
use cpu_scheduler_simulator.Base.{
  ℕ, zero, suc, ◌+◌, ◌≤◌, ◌<◌, ◌≡◌, refl, ◌∙◌, arith, ◌==◌, ==_refl, if◌then◌else◌, List, [], ◌∷◌,
  count, count-append, sum_to, sum_to_one, modify,
}
use cpu_scheduler_simulator.State.{SchedulerState, MlfqState}
use cpu_scheduler_simulator.Engine.{modify_process}
use cpu_scheduler_simulator.Engine.View.{view, view-modify_process}
use cpu_scheduler_simulator.Policy.Mlfq.{
  enqueue, enqueue_at, set_nodes, reset_priority, boost_nodes, boost_levels,
}

abbrev pub held : MlfqState → ℕ → ℕ
held m i = sum_to m.num_queues (λ q. count i (m.queues q).nodes)

pub held-enqueue_at :
    (m : MlfqState) (level p i : ℕ)
    → level < m.num_queues
    → held (enqueue_at m level p) i ≡ held m i + (if p == i then 1 else 0)
unfolding enqueue
held-enqueue_at m level p i h = omega (
  arith,
  sum_to_one m.num_queues (λ q. count i (m.queues q).nodes)
      (λ q. count i ((enqueue_at m level p).queues q).nodes) level h (λ q ne. ground arith),
  at_level,
)
  where
    at_level :
        count i ((enqueue_at m level p).queues level).nodes
        ≡ count i (m.queues level).nodes + (if p == i then 1 else 0)
    at_level = rw (==_refl level) (omega (arith, count-append i (m.queues level).nodes (p ∷ [])))

-- The level emptied.
abbrev pub without_level : MlfqState → ℕ → MlfqState
without_level m level = record m { queues = modify m.queues level (set_nodes []) }

pub held-without_level :
    (m : MlfqState) (level i : ℕ)
    → level < m.num_queues
    → held (without_level m level) i + count i (m.queues level).nodes ≡ held m i
held-without_level m level i h = omega (
  arith,
  sum_to_one m.num_queues (λ q. count i (m.queues q).nodes)
      (λ q. count i ((without_level m level).queues q).nodes) level h (λ q ne. ground arith),
  at_level,
)
  where
    at_level : count i ((without_level m level).queues level).nodes ≡ 0
    at_level = rw (==_refl level) refl

-- The processes of the array are on levels below `n`.
abbrev pub OnLevels : SchedulerState → ℕ → Type 0
OnLevels s n = (i : ℕ) → i < s.num_processes → (s.processes i).priority < n

-- What the boost may change: the priorities, within the levels, and the order in the queues.
pub record Shuffled (s : SchedulerState) (m : MlfqState) (r : SchedulerState × MlfqState)
    : Type 0 where
  pub view_same : view r.0 ≡ view s
  pub preempt_same : r.0.preempt_requested ≡ s.preempt_requested
  pub num_same : r.1.num_queues ≡ m.num_queues
  pub levels_kept : OnLevels s m.num_queues → OnLevels r.0 m.num_queues

reset-view : (s : SchedulerState) (p : ℕ) → view (modify_process s p reset_priority) ≡ view s
reset-view s p = view-modify_process s p reset_priority (λ q. refl)

reset-levels :
    (s : SchedulerState) (p n : ℕ)
    → 0 < n
    → OnLevels s n
    → OnLevels (modify_process s p reset_priority) n
reset-levels s p n h lv i lt = ground (arith, lv i lt)

pub boost_nodes-Shuffled :
    (nodes : List ℕ) (s : SchedulerState) (m : MlfqState)
    → 0 < m.num_queues
    → Shuffled s m (boost_nodes nodes s m)
      × ((i : ℕ) → held (boost_nodes nodes s m).1 i ≡ held m i + count i nodes)
unfolding boost_nodes
boost_nodes-Shuffled [] s m h = (
  record { view_same = refl; preempt_same = refl; num_same = refl; levels_kept = λ lv. lv },
  λ i. omega arith,
)
boost_nodes-Shuffled (p ∷ rest) s m h =
    let (sh, e) =
      boost_nodes-Shuffled rest (modify_process s p reset_priority) (enqueue_at m 0 p) h in
    (
      record {
        view_same = sh.view_same ∙ reset-view s p;
        preempt_same = sh.preempt_same;
        num_same = sh.num_same;
        levels_kept = λ lv. sh.levels_kept (reset-levels s p m.num_queues h lv);
      },
      λ i. omega (arith, e i, held-enqueue_at m 0 p i h),
    )

pub boost_levels-Shuffled :
    (rounds level : ℕ) (s : SchedulerState) (m : MlfqState)
    → 0 < m.num_queues
    → level + rounds ≤ m.num_queues
    → Shuffled s m (boost_levels rounds level s m)
      × ((i : ℕ) → held (boost_levels rounds level s m).1 i ≡ held m i)
unfolding boost_levels
boost_levels-Shuffled zero level s m h lt = (
  record { view_same = refl; preempt_same = refl; num_same = refl; levels_kept = λ lv. lv },
  λ i. refl,
)
boost_levels-Shuffled (suc rounds) level s m h lt =
    let nodes = (m.queues level).nodes in
    let r = boost_nodes nodes s (without_level m level) in
    let (sh, e) = boost_nodes-Shuffled nodes s (without_level m level) h in
    let (sh', e') =
      boost_levels-Shuffled rounds (level + 1) r.0 r.1 (rw sh.num_same h)
        (omega (arith, sh.num_same)) in
    (
      record {
        view_same = sh'.view_same ∙ sh.view_same;
        preempt_same = sh'.preempt_same ∙ sh.preempt_same;
        num_same = sh'.num_same ∙ sh.num_same;
        levels_kept = λ lv i lt.
            rw sh.num_same at (sh'.levels_kept (rw sh.num_same (sh.levels_kept lv)) i lt);
      },
      λ i. omega (arith, e' i, e i, held-without_level m level i (omega arith)),
    )
