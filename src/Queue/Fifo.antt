-- ===== src/Queue/Fifo.antt =====
-- src/utils/queue.c: the order in which processes leave a queue.
use cpu_scheduler_simulator.Base.{
  ℕ, zero, suc, ◌+◌, ◌-◌, ◌==◌, ◌<◌, ◌≡◌, refl, ap, ◌∙◌, false, none, some, List, [], ◌∷◌, ◌++◌,
  length, length-append, arith,
}
use cpu_scheduler_simulator.Queue.{Queue, queue_init, enqueue, dequeue, is_empty, queue_free}

-- The field `size` counts the nodes.
abbrev pub Sized : Queue → Type 0
Sized q = q.size ≡ length q.nodes

abbrev pub enqueue_all : Queue → List ℕ → Queue
enqueue_all q [] = q
enqueue_all q (p ∷ ps) = enqueue_all (enqueue q p) ps

-- What up to `n` calls of `dequeue` return, and the queue they leave.
unfoldable pub dequeue_all : ℕ → Queue → List ℕ × Queue
unfolding dequeue
dequeue_all zero q = ([], q)
dequeue_all (suc n) q =
    let (o, q') = dequeue q in
    let (rest, q'') = dequeue_all n q' in elim o [ none ↦ ([], q') | some p ↦ (p ∷ rest, q'') ]

pub enqueue-Sized : (q : Queue) (p : ℕ) → Sized q → Sized (enqueue q p)
unfolding enqueue
enqueue-Sized q p h = omega (arith, h, length-append q.nodes (p ∷ []))

append_nil : (xs : List ℕ) → xs ++ [] ≡ xs
append_nil [] = refl
append_nil (x ∷ xs) = ap (x ∷◌) (append_nil xs)

append_assoc : (xs : List ℕ) (p : ℕ) (ps : List ℕ) → (xs ++ p ∷ []) ++ ps ≡ xs ++ p ∷ ps
append_assoc [] p ps = refl
append_assoc (x ∷ xs) p ps = ap (x ∷◌) (append_assoc xs p ps)

enqueue_all-nodes : (q : Queue) (ps : List ℕ) → (enqueue_all q ps).nodes ≡ q.nodes ++ ps
unfolding enqueue
enqueue_all-nodes q [] = rw (append_nil q.nodes) refl
enqueue_all-nodes q (p ∷ ps) = enqueue_all-nodes (enqueue q p) ps ∙ append_assoc q.nodes p ps

enqueue_all-size : (q : Queue) (ps : List ℕ) → (enqueue_all q ps).size ≡ q.size + length ps
unfolding enqueue
enqueue_all-size q [] = omega arith
enqueue_all-size q (p ∷ ps) = omega (arith, enqueue_all-size (enqueue q p) ps)

take_all :
    (nodes : List ℕ) (size : ℕ)
    → size ≡ length nodes
    → dequeue_all (length nodes) (record { nodes = nodes; size = size })
      ≡ (nodes, record { nodes = []; size = 0 })
unfolding dequeue_all dequeue
take_all [] size h = rw h refl
take_all (p ∷ rest) size h =
    ap (λ (r : List ℕ × Queue). (p ∷ r.0, r.1)) (take_all rest (size - 1) (omega (arith, h)))

take-Sized : (q : Queue) → Sized q → dequeue_all (length q.nodes) q ≡ (q.nodes, queue_init)
unfolding queue_init
take-Sized q h = take_all q.nodes q.size h

-- After any entries were added to a queue whose size is its number of nodes, as many dequeues as
-- the size says return what stood in it, then the entries in the order in which they came, and
-- leave the empty queue.
pub dequeue_all-enqueue_all :
    (q : Queue) (ps : List ℕ)
    → Sized q
    → dequeue_all (enqueue_all q ps).size (enqueue_all q ps) ≡ (q.nodes ++ ps, queue_init)
dequeue_all-enqueue_all q ps h =
    ap (λ n. dequeue_all n (enqueue_all q ps)) sized
    ∙ take-Sized (enqueue_all q ps) sized
    ∙ ap (λ xs. (xs, queue_init)) (enqueue_all-nodes q ps)
  where
    sized : Sized (enqueue_all q ps)
    sized = omega (
      arith,
      h,
      enqueue_all-size q ps,
      ap (length {A = ℕ}) (enqueue_all-nodes q ps),
      length-append q.nodes ps,
    )

free_nodes :
    (nodes : List ℕ) (size fuel : ℕ)
    → size ≡ length nodes
    → length nodes < fuel
    → queue_free fuel (record { nodes = nodes; size = size }) ≡ some queue_init
unfolding queue_free dequeue is_empty queue_init
free_nodes nodes size zero h lt = absurd (omega arith)
free_nodes [] size (suc fuel) h lt = rw h refl
free_nodes (p ∷ rest) size (suc fuel) h lt =
    rw (nonempty) (free_nodes rest (size - 1) fuel (omega (arith, h)) (omega arith))
  where
    nonempty : (size == 0) ≡ false
    nonempty = ground (arith, h)

-- With more fuel than entries, the loop of `queue_free` ends and leaves the empty queue.
pub queue_free-empties :
    (q : Queue) (fuel : ℕ) → Sized q → q.size < fuel → queue_free fuel q ≡ some queue_init
queue_free-empties q fuel h lt = free_nodes q.nodes q.size fuel h (omega (arith, h, lt))
