-- ===== src/Policy/Rules.antt =====
-- The rules of the multi-level feedback queue: src/algorithms/mlfq.c.
use cpu_scheduler_simulator.Base.{
  ℕ, zero, suc, ◌+◌, ◌-◌, ◌≤◌, ◌<◌, ◌≡◌, ◌≢◌, ◌⊎◌, inl, inr, refl, sym, ap, ◌∙◌, subst, Option,
  none, some, List, [], ◌∷◌, arith, ==_refl, count, sum_to, pos, modify,
}
use native.Mathlib.Decide.{ℕ_discrete}
use cpu_scheduler_simulator.State.{SchedulerState, MlfqState, mlfq}
use cpu_scheduler_simulator.Engine.{modify_process}
use cpu_scheduler_simulator.Policy.Mlfq.{
  dequeue, take_head, enqueue_at, pick_from, mlfq_next, boost_nodes, boost_levels, reset_allotments,
  boost, set_nodes, reset_priority, set_mlfq,
}
use cpu_scheduler_simulator.Policy.Levels.{held, boost_levels-Shuffled}

-- What a choice among the levels from `i` to `n` is: the head of the first of them that is not
-- empty, which it leaves, with the quantum of its level.
abbrev pub Highest : ℕ → ℕ → MlfqState → Option ℕ × MlfqState → Type 0
Highest i n m (none, m') = ((j : ℕ) → i ≤ j → j < n → (m.queues j).nodes ≡ []) × (m' ≡ m)
Highest i n m (some k, m') =
    (level : ℕ) × (i ≤ level)
    × (level < n)
    × ((j : ℕ) → i ≤ j → j < level → (m.queues j).nodes ≡ [])
    × ((m.queues level).nodes ≡ k ∷ (m'.queues level).nodes)
    × ((j : ℕ) → j ≢ level → m'.queues j ≡ m.queues j)
    × (m'.current_quantum ≡ (m.queues level).quantum)

list-cases : (xs : List ℕ) → (xs ≡ []) ⊎ ((k : ℕ) × (rest : List ℕ) × (xs ≡ k ∷ rest))
list-cases [] = inl refl
list-cases (k ∷ rest) = inr (k, rest, refl)

first_or_next : (i j : ℕ) → i ≤ j → (i ≡ j) ⊎ (i + 1 ≤ j)
first_or_next i j h = omega arith

Highest-next :
    (i n : ℕ) (m : MlfqState) (r : Option ℕ × MlfqState)
    → (m.queues i).nodes ≡ []
    → Highest (i + 1) n m r
    → Highest i n m r
Highest-next i n m (none, m') e (empty, same) = (
  λ j le lt. elim (first_or_next i j le) [
    | inl p ↦ ap (λ q. (m.queues q).nodes) (sym p) ∙ e
    | inr p ↦ empty j p lt
  ],
  same,
)
Highest-next i n m (some k, m') e (level, le, lt, empty, head, others, quantum) = (
  level,
  omega (arith, le),
  lt,
  λ j le' lt'. elim (first_or_next i j le') [
    | inl p ↦ ap (λ q. (m.queues q).nodes) (sym p) ∙ e
    | inr p ↦ empty j p lt'
  ],
  head,
  others,
  quantum,
)

pub pick_from-Highest :
    (rounds i : ℕ) (m : MlfqState) → Highest i (i + rounds) m (pick_from rounds i m)
unfolding pick_from dequeue
pick_from-Highest zero i m = (λ j le lt. absurd (omega arith), refl)
pick_from-Highest (suc rounds) i m = elim (list-cases (m.queues i).nodes) [
  | inl e ↦
      rw (e, pick_from)
        (Highest-next i (i + suc rounds) m _ e (
          subst (λ n. Highest (i + 1) n m (pick_from rounds (i + 1) m)) (omega arith)
            (pick_from-Highest rounds (i + 1) m)))
  | inr (k, rest, e) ↦
      rw (e, pick_from)
        (
          i,
          omega arith,
          omega arith,
          λ j le lt. absurd (omega arith),
          e ∙ ap (k ∷◌) (sym (rw (==_refl i) (ap (λ xs. (take_head (m.queues i) xs).1.nodes) e))),
          λ j ne. ground arith,
          refl,
        )
]

-- What `mlfq_next_process` returns: the head of the highest level that is not empty.
abbrev pub TakesHighest : SchedulerState → MlfqState → Option ℕ × SchedulerState → Type 0
TakesHighest s m (o, t) = (m' : MlfqState) × (t ≡ set_mlfq s m') × Highest 0 m.num_queues m (o, m')

-- The multi-level policy takes no process, and leaves its queues, only if all levels are empty.
-- Otherwise it takes the head of the first level that is not empty off that level, leaves the other
-- levels alone and gives the process the quantum of its level.
pub mlfq_next-TakesHighest :
    (s : SchedulerState) (m : MlfqState) → TakesHighest s m (mlfq_next s (mlfq m))
unfolding mlfq_next
mlfq_next-TakesHighest s m = (
  (pick_from m.num_queues 0 m).1,
  refl,
  subst (λ n. Highest 0 n m (pick_from m.num_queues 0 m)) (omega arith)
      (pick_from-Highest m.num_queues 0 m),
)

-- The levels from `i` to `n` are empty.
abbrev pub EmptyFrom : ℕ → ℕ → MlfqState → Type 0
EmptyFrom i n m = (j : ℕ) → i ≤ j → j < n → (m.queues j).nodes ≡ []

boost_nodes-others :
    (nodes : List ℕ) (s : SchedulerState) (m : MlfqState) (j : ℕ)
    → j ≢ 0
    → ((boost_nodes nodes s m).1.queues j).nodes ≡ (m.queues j).nodes
unfolding boost_nodes
boost_nodes-others [] s m j ne = refl
boost_nodes-others (p ∷ rest) s m j ne =
    boost_nodes-others rest (modify_process s p reset_priority) (enqueue_at m 0 p) j ne
    ∙ ground arith

boost_levels-passed :
    (rounds i : ℕ) (s : SchedulerState) (m : MlfqState) (j : ℕ)
    → j ≢ 0
    → j < i
    → ((boost_levels rounds i s m).1.queues j).nodes ≡ (m.queues j).nodes
unfolding boost_levels
boost_levels-passed zero i s m j ne lt = refl
boost_levels-passed (suc rounds) i s m j ne lt =
    boost_levels-passed rounds (i + 1) _ _ j ne (omega arith)
    ∙ boost_nodes-others (m.queues i).nodes s
        (record m { queues = modify m.queues i (set_nodes []) }) j ne
    ∙ ground arith

boost_levels-empty :
    (rounds i : ℕ) (s : SchedulerState) (m : MlfqState)
    → 0 < i
    → EmptyFrom i (i + rounds) (boost_levels rounds i s m).1
unfolding boost_levels
boost_levels-empty zero i s m h j le lt = absurd (omega arith)
boost_levels-empty (suc rounds) i s m h j le lt = elim (first_or_next i j le) [
  | inl p ↦
      boost_levels-passed rounds (i + 1) _ _ j (omega arith) (omega arith)
      ∙ boost_nodes-others (m.queues i).nodes s
          (record m { queues = modify m.queues i (set_nodes []) }) j (omega arith)
      ∙ ground arith
  | inr p ↦ boost_levels-empty rounds (i + 1) _ _ (omega arith) j p (omega arith)
]

reset_allotments-keeps :
    (nodes : List ℕ) (s : SchedulerState) (i : ℕ)
    → (s.processes i).allotment_used ≡ 0
    → ((reset_allotments nodes s).processes i).allotment_used ≡ 0
unfolding reset_allotments
reset_allotments-keeps [] s i e = e
reset_allotments-keeps (p ∷ rest) s i e =
    reset_allotments-keeps rest (modify_process s p (λ q. record q { allotment_used = 0 })) i
      (ground (arith, e))

reset_allotments-resets :
    (nodes : List ℕ) (s : SchedulerState) (i : ℕ)
    → count i nodes ≢ 0
    → ((reset_allotments nodes s).processes i).allotment_used ≡ 0
unfolding reset_allotments
reset_allotments-resets [] s i h = absurd (h refl)
reset_allotments-resets (p ∷ rest) s i h =
    let t = modify_process s p (λ q. record q { allotment_used = 0 }) in
    elim (ℕ_discrete i p) [
      | yes e ↦ reset_allotments-keeps rest t i (ground (arith, e))
      | no ne ↦ reset_allotments-resets rest t i (ground (arith, h, ne))
    ]

sum_to-first : (n : ℕ) (f : ℕ → ℕ) → 0 < n → ((j : ℕ) → 1 ≤ j → j < n → f j ≡ 0) → sum_to n f ≡ f 0
sum_to-first zero f h z = absurd (omega arith)
sum_to-first (suc zero) f h z = omega arith
sum_to-first (suc (suc n)) f h z = omega (
  arith,
  z (suc n) (omega arith) (omega arith),
  sum_to-first (suc n) f (omega arith) (λ j le lt. z j le (omega arith)),
)

-- A boost, with at least one level, empties every level below the first and puts each process that
-- stood in a queue into the first level as often as it stood in any, with its allotment unused; the
-- timer starts anew.
pub boost-raises :
    (s : SchedulerState) (m : MlfqState)
    → 0 < m.num_queues
    → EmptyFrom 1 m.num_queues (boost s m).1
      × ((i : ℕ) → count i ((boost s m).1.queues 0).nodes ≡ held m i)
      × ((i : ℕ) → held m i ≢ 0 → ((boost s m).0.processes i).allotment_used ≡ 0)
      × ((boost s m).1.boost_timer ≡ pos 0)
unfolding boost
boost-raises s m h = (
  empty,
  first,
  λ i ne. reset_allotments-resets (r.1.queues 0).nodes r.0 i (λ e. ne (sym (first i) ∙ e)),
  refl,
)
  where
    r : SchedulerState × MlfqState
    r = boost_levels (m.num_queues - 1) 1 s m

    empty : EmptyFrom 1 m.num_queues r.1
    empty =
        subst (λ n. EmptyFrom 1 n r.1) (omega arith)
          (boost_levels-empty (m.num_queues - 1) 1 s m (omega arith))

    first : (i : ℕ) → count i (r.1.queues 0).nodes ≡ held m i
    first i =
        let (sh, same) = boost_levels-Shuffled (m.num_queues - 1) 1 s m h (omega arith) in
        sym (
          sum_to-first r.1.num_queues (λ q. count i (r.1.queues q).nodes) (rw sh.num_same h)
            (λ j le lt. ap (count i) (empty j le (rw sh.num_same at lt))))
        ∙ same i
