-- ===== src/Policy/Outranks.antt =====
-- Rules 1 and 2 of src/algorithms/mlfq.c: the process that is taken is of the highest priority.
use cpu_scheduler_simulator.Base.{
  ℕ, zero, suc, ◌≤◌, ◌<◌, ◌≡◌, ◌⊎◌, inl, inr, ap, true, Option, none, some, arith, ==_refl, count,
  sum_to, sum_to-at_least, lt→ltb,
}
use cpu_scheduler_simulator.Process.{is_ready}
use cpu_scheduler_simulator.State.{SchedulerState, MlfqState, mlfq}
use cpu_scheduler_simulator.Policy.Mlfq.{mlfq_next}
use cpu_scheduler_simulator.Policy.Expected.{expected}
use cpu_scheduler_simulator.Policy.MultiLevel.{Matches}
use cpu_scheduler_simulator.Policy.Rules.{Highest, mlfq_next-TakesHighest}
use cpu_scheduler_simulator.Policy.Placement.{OwnLevel}

sum_to-some : (n : ℕ) (f : ℕ → ℕ) → 0 < sum_to n f → (l : ℕ) × (l < n) × (0 < f l)
sum_to-some zero f h = absurd (omega (arith, h))
sum_to-some (suc n) f h = elim (some_or_none (f n)) [
  | inl p ↦ (n, omega arith, p)
  | inr z ↦ let (l, lt, p) = sum_to-some n f (omega (arith, h, z)) in (l, omega (arith, lt), p)
]
  where
    some_or_none : (k : ℕ) → (0 < k) ⊎ (k ≡ 0)
    some_or_none k = omega arith

-- A process of the array that is ready.
abbrev pub Ready : SchedulerState → ℕ → Type 0
Ready s i = (i < s.num_processes) × (is_ready (s.processes i).state ≡ true)

expected-Ready : (s : SchedulerState) (i : ℕ) → 0 < expected s i → Ready s i
expected-Ready s i h = (ground (arith, h), ground (arith, h))

Ready-expected : (s : SchedulerState) (i : ℕ) → Ready s i → 0 < expected s i
Ready-expected s i (lt, r) = rw (lt→ltb i s.num_processes lt, r) (omega arith)

-- No process only if none is ready; otherwise a ready one whose priority no ready one is above.
abbrev pub Outranks : SchedulerState → Option ℕ → Type 0
Outranks s none = (i : ℕ) → Ready s i → ⊥
Outranks s (some k) =
    Ready s k × ((i : ℕ) → Ready s i → (s.processes k).priority ≤ (s.processes i).priority)

-- The level that a ready process stands on.
level_of :
    (s : SchedulerState) (m : MlfqState) (i : ℕ)
    → Matches s m
    → Ready s i
    → (l : ℕ) × (l < m.num_queues) × (0 < count i (m.queues l).nodes)
level_of s m i ok r =
    sum_to-some m.num_queues (λ l. count i (m.queues l).nodes)
      (omega (arith, ok.queued i, Ready-expected s i r))

Highest-Outranks :
    (s : SchedulerState) (m m' : MlfqState) (o : Option ℕ)
    → Matches s m
    → OwnLevel s m
    → Highest 0 m.num_queues m (o, m')
    → Outranks s o
Highest-Outranks s m m' none ok own (empty, _) = λ i r.
    let (l, lt, h) = level_of s m i ok r in
    omega (arith, h, ap (count i) (empty l (omega arith) lt))
Highest-Outranks s m m' (some k) ok own (level, _, below, empty, head, _, _) = (
  expected-Ready s k (
      omega (
        arith,
        ok.queued k,
        stands,
        sum_to-at_least m.num_queues (λ l. count k (m.queues l).nodes) level below,
      )),
  λ i r.
      let (l, lt, h) = level_of s m i ok r in
      elim (before_or_not l level) [
        | inl less ↦ absurd (omega (arith, h, ap (count i) (empty l (omega arith) less)))
        | inr le ↦ omega (arith, own level k below stands, own l i lt h, le)
      ],
)
  where
    stands : 0 < count k (m.queues level).nodes
    stands = rw head (ground (arith, ==_refl k))

    before_or_not : (a b : ℕ) → (a < b) ⊎ (b ≤ a)
    before_or_not a b = omega arith

-- When the queues hold exactly the ready processes, each in the queue of its priority, the
-- multi-level policy takes no process only if none is ready, and otherwise a ready one such that
-- the priority of no ready process is a smaller number.
pub mlfq_next-Outranks :
    (s : SchedulerState) (m : MlfqState)
    → Matches s m
    → OwnLevel s m
    → Outranks s (mlfq_next s (mlfq m)).0
mlfq_next-Outranks s m ok own =
    let (m', _, h) = mlfq_next-TakesHighest s m in
    Highest-Outranks s m m' (mlfq_next s (mlfq m)).0 ok own h
