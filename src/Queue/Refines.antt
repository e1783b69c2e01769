-- ===== src/Queue/Refines.antt =====
-- The nodes of src/utils/queue.c in memory against the queue as a list.
use cpu_scheduler_simulator.Base.{
  ℕ, ◌+◌, ◌-◌, ◌≡◌, ◌≢◌, refl, sym, ap, ◌∙◌, Option, none, some, List, [], ◌∷◌, ◌++◌, arith,
  ==_refl, ==_false, modify,
}
use cpu_scheduler_simulator.Queue.{Queue, enqueue, dequeue, take_head}
use cpu_scheduler_simulator.Queue.Linked.{
  QueueNode, Memory, LinkedQueue, new_node, link, enqueue_node, dequeue_node, append_node,
  link_tail, tail_after, take_node, remove_node,
}
use cpu_scheduler_simulator.Queue.Chain.{
  Chain, last_of, Represents, Chain-elsewhere, unallocated_out, last_of-stands, last_of-append,
  first-Chain, last_exists, allocated, Chain-append,
}

-- What an operation is to return: some memory and queue, in which the nodes are the queue `q`.
abbrev pub Yields : {A : Type 0} → (Memory → LinkedQueue → A) → Option A → Queue → Type 0
Yields result o q =
    (h : Memory) × (l : LinkedQueue) × (addresses : List ℕ) × (o ≡ some (result h l))
    × Represents h l q addresses

enqueue_node-behind :
    (node : ℕ) (h : Memory) (l : LinkedQueue) (q : Queue) (p a : ℕ) (nodes : List ℕ)
    → h node ≡ none
    → Represents h l q (a ∷ nodes)
    → Yields (λ h' l'. (h', l')) (enqueue_node node h l p) (enqueue q p)
unfolding enqueue_node enqueue
enqueue_node-behind node h l q p a nodes free r =
    let (t, is_last) = last_exists a nodes in
    let (last, at) =
      allocated h l.head (a ∷ nodes) q.nodes t r.chain (last_of-stands (a ∷ nodes) t is_last) in
    let h1 = modify h node (λ _. some (new_node p)) in
    (
      modify h1 t (λ _. some (link node last)),
      record l { tail = some node; size = l.size + 1 },
      (a ∷ nodes) ++ node ∷ [],
      ap (λ o. append_node node o h1 l) (r.tail_last ∙ is_last)
          ∙ ap (λ o. link_tail node t o h1 l) (found t last at),
      record {
        chain =
            Chain-append h (modify h1 t (λ _. some (link node last))) node p t
              (rw (==_false node t (λ d. apart t last at (sym d)), ==_refl node) refl)
              (λ other e.
                rw (==_refl t) (ap (λ c. some (link node c)) (some_inj last other (sym at ∙ e))))
              (λ x out other. rw (==_false x t other, ==_false x node out) refl) l.head (a ∷ nodes)
              q.nodes (unallocated_out h node l.head (a ∷ nodes) q.nodes free r.chain) is_last
              r.chain;
        tail_last = sym (last_of-append (a ∷ nodes) node);
        size_same = omega (arith, r.size_same);
      },
    )
  where
    apart : (t : ℕ) (last : QueueNode) → h t ≡ some last → t ≢ node
    apart t last at d = cc (at, free, ap h d)

    found :
        (t : ℕ) (last : QueueNode)
        → h t ≡ some last
        → modify h node (λ _. some (new_node p)) t ≡ some last
    found t last at = rw (==_false t node (apart t last at)) at

    some_inj : (x y : QueueNode) → some x ≡ some y → x ≡ y
    some_inj x y e = cc e

enqueue_node-Yields :
    (node : ℕ) (h : Memory) (l : LinkedQueue) (q : Queue) (p : ℕ) (addresses : List ℕ)
    → h node ≡ none
    → Represents h l q addresses
    → Yields (λ h' l'. (h', l')) (enqueue_node node h l p) (enqueue q p)
unfolding enqueue_node enqueue
enqueue_node-Yields node h l q p [] free r = (
  modify h node (λ _. some (new_node p)),
  record { head = some node; tail = some node; size = l.size + 1 },
  node ∷ [],
  ap (λ o. append_node node o (modify h node (λ _. some (new_node p))) l) r.tail_last,
  record {
    chain = first-Chain h l.head node p q.nodes r.chain;
    tail_last = refl;
    size_same = omega (arith, r.size_same);
  },
)
enqueue_node-Yields node h l q p (a ∷ nodes) free r =
    enqueue_node-behind node h l q p a nodes free r

tail_after-last :
    (h : Memory) (next tail : Option ℕ) (a : ℕ) (nodes ps : List ℕ)
    → Chain h next nodes ps
    → tail ≡ last_of (a ∷ nodes)
    → tail_after next tail ≡ last_of nodes
tail_after-last h next tail a [] [] c e = ap (λ o. tail_after o tail) c
tail_after-last h next tail a [] (p ∷ ps) c e = absurd c
tail_after-last h next tail a (b ∷ nodes) [] c e = absurd c
tail_after-last h next tail a (b ∷ nodes) (p ∷ ps) c e = ap (λ o. tail_after o tail) c.0 ∙ e

-- The queue without its head, as a list.
dequeue_node-cases :
    (h : Memory) (l : LinkedQueue) (ps addresses : List ℕ) (size : ℕ)
    → Represents h l (record { nodes = ps; size = size }) addresses
    → Yields (λ h' l'. ((take_head ps size).0, h', l')) (dequeue_node h l) (take_head ps size).1
unfolding dequeue_node
dequeue_node-cases h l [] [] size r = (h, l, [], ap (λ o. take_node o h l) r.chain, r)
dequeue_node-cases h l [] (a ∷ nodes) size r = absurd r.chain
dequeue_node-cases h l (p ∷ ps) [] size r = absurd r.chain
dequeue_node-cases h l (p ∷ ps) (a ∷ nodes) size r =
    let (e, next, at, one, c) = r.chain in
    (
      modify h a (λ _. none),
      record { head = next; tail = tail_after next l.tail; size = l.size - 1 },
      nodes,
      ap (λ o. take_node o h l) e ∙ ap (λ o. remove_node a o h l) at,
      record {
        chain =
            Chain-elsewhere h (modify h a (λ _. none)) a next nodes ps
              (λ x ne. rw (==_false x a ne) refl) one c;
        tail_last = tail_after-last h next l.tail a nodes ps c r.tail_last;
        size_same = omega (arith, r.size_same);
      },
    )

-- When the nodes in memory are a queue and malloc returns an address without a node, `enqueue`
-- reads no node that is not allocated, and leaves nodes that are the queue with the process at its
-- end; and `dequeue` reads none that is not allocated either, returns the process that the queue as
-- a list returns, NULL included, and leaves nodes that are the rest of the queue.
pub nodes_refine :
    (node : ℕ) (h : Memory) (l : LinkedQueue) (q : Queue) (p : ℕ) (addresses : List ℕ)
    → h node ≡ none
    → Represents h l q addresses
    → Yields (λ h' l'. (h', l')) (enqueue_node node h l p) (enqueue q p)
      × Yields (λ h' l'. ((dequeue q).0, h', l')) (dequeue_node h l) (dequeue q).1
unfolding dequeue
nodes_refine node h l q p addresses free r = (
  enqueue_node-Yields node h l q p addresses free r,
  dequeue_node-cases h l q.nodes addresses q.size r,
)
