-- ===== src/Policy/Picked.antt =====
-- What the walk over the levels in src/algorithms/mlfq.c takes.
use native.Mathlib.Decide.{ℕ_discrete}
use cpu_scheduler_simulator.Base.{
  ℕ, zero, suc, ◌+◌, ◌≤◌, ◌<◌, ◌≡◌, refl, ap, Option, none, some, arith, inl, inr, ◌⊎◌,
  if◌then◌else◌, List, [], ◌∷◌, count, sum_to, sum_to_one, ==_refl, ◌==◌, modify,
}
use cpu_scheduler_simulator.State.{MlfqState, MlfqQueue}
use cpu_scheduler_simulator.Policy.Levels.{held}
use cpu_scheduler_simulator.Policy.Mlfq.{pick_from, dequeue}

-- One if the walk took the process `i`.
abbrev pub took : Option ℕ → ℕ → ℕ
took none i = 0
took (some k) i = if k == i then 1 else 0

List-cases : (l : List ℕ) → (l ≡ []) ⊎ ((k : ℕ) × (rest : List ℕ) × (l ≡ k ∷ rest))
List-cases [] = inl refl
List-cases (k ∷ rest) = inr (k, rest, refl)

-- What the walk over the levels takes: the head of a queue, or nothing where all are empty.
pub record PickOk (rounds level : ℕ) (m : MlfqState) (r : Option ℕ × MlfqState) : Type 0 where
  pub num_same : r.1.num_queues ≡ m.num_queues
  pub taken : (i : ℕ) → took r.0 i + held r.1 i ≡ held m i
  pub empty : r.0 ≡ none → (q : ℕ) → level ≤ q → q < level + rounds → (m.queues q).nodes ≡ []

some≢none : (k : ℕ) → ◌≡◌ {A = Option ℕ} (some k) none → ⊥
some≢none k e = cc

dequeue-nodes :
    (q : MlfqQueue) (k : ℕ) (rest : List ℕ) → q.nodes ≡ k ∷ rest → (dequeue q).1.nodes ≡ rest
unfolding dequeue
dequeue-nodes q k rest e = rw (e, dequeue) refl

-- The head of a queue that is not empty leaves the bag.
popped-held :
    (m : MlfqState) (level k : ℕ) (rest : List ℕ) (i : ℕ)
    → (m.queues level).nodes ≡ k ∷ rest
    → level < m.num_queues
    → (if k == i then 1 else 0)
        + sum_to m.num_queues
            (λ q. count i (modify m.queues level (λ _. (dequeue (m.queues level)).1) q).nodes)
      ≡ held m i
popped-held m level k rest i e h = omega (
  arith,
  sum_to_one m.num_queues (λ q. count i (m.queues q).nodes)
      (λ q. count i (modify m.queues level (λ _. (dequeue (m.queues level)).1) q).nodes) level h
      (λ q ne. ground arith),
  ap (count i) e,
  at_level,
)
  where
    at_level :
        count i (modify m.queues level (λ _. (dequeue (m.queues level)).1) level).nodes
        ≡ count i rest
    at_level = rw (==_refl level) (ap (count i) (dequeue-nodes (m.queues level) k rest e))

pub pick_from-PickOk :
    (rounds level : ℕ) (m : MlfqState)
    → level + rounds ≤ m.num_queues
    → PickOk rounds level m (pick_from rounds level m)
unfolding pick_from
pick_from-PickOk zero level m h = record {
  num_same = refl;
  taken = λ i. omega arith;
  empty = λ e q a b. absurd (omega arith);
}
pick_from-PickOk (suc rounds) level m h = elim (List-cases (m.queues level).nodes) [
  | inl e ↦
      let rest = pick_from-PickOk rounds (level + 1) m (omega arith) in
      rw (e, pick_from, dequeue)
        (record {
          num_same = rest.num_same;
          taken = rest.taken;
          empty = λ none_left q a b. elim (ℕ_discrete q level) [
            | yes same ↦ rw same e
            | no other ↦ rest.empty none_left q (omega arith) (omega arith)
          ];
        })
  | inr (k, nodes, e) ↦
      rw (e, pick_from, dequeue)
        (record {
          num_same = refl;
          taken = λ i. popped-held m level k nodes i e (omega arith);
          empty = λ bad q a b. absurd (some≢none k bad);
        })
]

pub all_empty :
    (n : ℕ) (m : MlfqState) (i : ℕ)
    → ((q : ℕ) → q < n → (m.queues q).nodes ≡ [])
    → sum_to n (λ q. count i (m.queues q).nodes) ≡ 0
all_empty zero m i h = refl
all_empty (suc n) m i h =
    omega (arith, ap (count i) (h n (omega arith)), all_empty n m i (λ q p. h q (omega arith)))

pub one_taken : (k n : ℕ) → (if k == k then 1 else 0) + n ≡ 0 → ⊥
one_taken k n e = ground arith
