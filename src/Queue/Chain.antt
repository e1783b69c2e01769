-- ===== src/Queue/Chain.antt =====
-- The chain of nodes of src/utils/queue.c in memory, and the list that it holds.
use cpu_scheduler_simulator.Base.{
  ℕ, ◌<◌, ◌≡◌, ◌≢◌, refl, sym, ap, ◌∙◌, subst, Option, none, some, List, [], ◌∷◌, ◌++◌, arith,
  ==_refl, ==_false, count, count-append, modify,
}
use native.Mathlib.Decide.{ℕ_discrete}
use cpu_scheduler_simulator.Queue.{Queue}
use cpu_scheduler_simulator.Queue.Linked.{QueueNode, Memory, LinkedQueue, new_node, link}

-- From `from` on the nodes stand at the addresses, which differ, and hold the processes; the last
-- one ends the chain.
abbrev pub Chain : Memory → Option ℕ → List ℕ → List ℕ → Type 0
Chain h from [] [] = from ≡ none
Chain h from (a ∷ addresses) (p ∷ processes) =
    (from ≡ some a)
    × (next : Option ℕ) × (h a ≡ some (record { process = p; next = next }))
    × (count a addresses ≡ 0)
    × Chain h next addresses processes
Chain h from [] (p ∷ processes) = ⊥
Chain h from (a ∷ addresses) [] = ⊥

abbrev pub last_of : List ℕ → Option ℕ
last_of [] = none
last_of (a ∷ []) = some a
last_of (a ∷ b ∷ rest) = last_of (b ∷ rest)

-- The nodes in memory are the queue `q`.
pub record Represents (h : Memory) (l : LinkedQueue) (q : Queue) (addresses : List ℕ) : Type 0 where
  pub chain : Chain h l.head addresses q.nodes
  pub tail_last : l.tail ≡ last_of addresses
  pub size_same : l.size ≡ q.size

-- A chain does not see a change at another address.
pub Chain-elsewhere :
    (h h' : Memory) (b : ℕ) (from : Option ℕ) (nodes ps : List ℕ)
    → ((x : ℕ) → x ≢ b → h' x ≡ h x)
    → count b nodes ≡ 0
    → Chain h from nodes ps
    → Chain h' from nodes ps
Chain-elsewhere h h' b from [] [] same out c = c
Chain-elsewhere h h' b from [] (p ∷ ps) same out c = c
Chain-elsewhere h h' b from (a ∷ nodes) [] same out c = c
Chain-elsewhere h h' b from (a ∷ nodes) (p ∷ ps) same out (e, next, at, one, c) = (
  e,
  next,
  same a (λ d. absurd (omega (arith, rw (d, ==_refl b) at out))) ∙ at,
  one,
  Chain-elsewhere h h' b next nodes ps same (omega (arith, out)) c,
)

-- No node of a chain stands where no memory is allocated.
pub unallocated_out :
    (h : Memory) (b : ℕ) (from : Option ℕ) (nodes ps : List ℕ)
    → h b ≡ none
    → Chain h from nodes ps
    → count b nodes ≡ 0
unallocated_out h b from [] ps e c = refl
unallocated_out h b from (a ∷ nodes) [] e c = absurd c
unallocated_out h b from (a ∷ nodes) (p ∷ ps) e (f, next, at, one, c) = elim (ℕ_discrete a b) [
  | yes same ↦ cc (e, rw same at at)
  | no ne ↦ rw (==_false a b ne) (omega (arith, unallocated_out h b next nodes ps e c))
]

some-inj : (a b : ℕ) → some a ≡ some b → a ≡ b
some-inj a b e = cc e

pub last_of-stands : (nodes : List ℕ) (t : ℕ) → last_of nodes ≡ some t → 0 < count t nodes
last_of-stands [] t e = cc e
last_of-stands (a ∷ []) t e =
    subst (λ x. 0 < count x (a ∷ [])) (some-inj a t e) (rw (==_refl a) (omega arith))
last_of-stands (a ∷ b ∷ rest) t e = omega (arith, last_of-stands (b ∷ rest) t e)

pub last_of-append : (nodes : List ℕ) (node : ℕ) → last_of (nodes ++ node ∷ []) ≡ some node
last_of-append [] node = refl
last_of-append (a ∷ []) node = refl
last_of-append (a ∷ b ∷ rest) node = last_of-append (b ∷ rest) node

-- A new node behind the last one.
module _ (h h' : Memory) (node p t : ℕ) (written : h' node ≡ some (new_node p))
    (linked : (last : QueueNode) → h t ≡ some last → h' t ≡ some (link node last))
    (kept : (x : ℕ) → x ≢ node → x ≢ t → h' x ≡ h x) where
  pub Chain-append :
      (from : Option ℕ) (nodes ps : List ℕ)
      → count node nodes ≡ 0
      → last_of nodes ≡ some t
      → Chain h from nodes ps
      → Chain h' from (nodes ++ node ∷ []) (ps ++ p ∷ [])
  Chain-append from [] ps out last c = cc last
  Chain-append from (a ∷ nodes) [] out last c = absurd c
  Chain-append from (a ∷ []) (q ∷ []) out last (e, next, at, one, c) = (
    e,
    some node,
    subst (λ x. h' x ≡ some (record { process = q; next = some node })) (sym (some-inj a t last))
        (linked (record { process = q; next = next })
          (subst (λ x. h x ≡ some (record { process = q; next = next })) (some-inj a t last) at)),
    ground (arith, out),
    (refl, none, written, refl, refl),
  )
  Chain-append from (a ∷ []) (q ∷ r ∷ ps) out last (e, next, at, one, c) = absurd c
  Chain-append from (a ∷ b ∷ nodes) (q ∷ ps) out last (e, next, at, one, c) = (
    e,
    next,
    kept a a≢node a≢t ∙ at,
    ground (arith, out, one, count-append a (b ∷ nodes) (node ∷ [])),
    Chain-append next (b ∷ nodes) ps (omega (arith, out)) last c,
  )
    where
      a≢node : a ≢ node
      a≢node d = absurd (omega (arith, rw (d, ==_refl node) at out))

      stands : a ≡ t → 0 < count a (b ∷ nodes)
      stands d = subst (λ x. 0 < count x (b ∷ nodes)) (sym d) (last_of-stands (b ∷ nodes) t last)

      a≢t : a ≢ t
      a≢t d = absurd (omega (arith, one, stands d))

pub first-Chain :
    (h : Memory) (from : Option ℕ) (node p : ℕ) (ps : List ℕ)
    → Chain h from [] ps
    → Chain (modify h node (λ _. some (new_node p))) (some node) (node ∷ []) (ps ++ p ∷ [])
first-Chain h from node p [] c = (refl, none, rw (==_refl node) refl, refl, refl)
first-Chain h from node p (q ∷ ps) c = absurd c

pub last_exists : (a : ℕ) (nodes : List ℕ) → (t : ℕ) × (last_of (a ∷ nodes) ≡ some t)
last_exists a [] = (a, refl)
last_exists a (b ∷ nodes) = last_exists b nodes

-- A node of a chain is allocated.
pub allocated :
    (h : Memory) (from : Option ℕ) (nodes ps : List ℕ) (t : ℕ)
    → Chain h from nodes ps
    → 0 < count t nodes
    → (node : QueueNode) × (h t ≡ some node)
allocated h from [] ps t c lt = absurd (omega (arith, lt))
allocated h from (a ∷ nodes) [] t c lt = absurd c
allocated h from (a ∷ nodes) (p ∷ ps) t (e, next, at, one, c) lt = elim (ℕ_discrete a t) [
  | yes same ↦ (record { process = p; next = next }, ap h (sym same) ∙ at)
  | no ne ↦ allocated h next nodes ps t c (ground (arith, lt, ==_false a t ne))
]
