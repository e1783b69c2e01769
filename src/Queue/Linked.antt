-- ===== src/Queue/Linked.antt =====
-- src/utils/queue.c with its nodes in memory: an address is a number, and `none` is NULL. An
-- operation that reads a node where there is none returns `none`.
use cpu_scheduler_simulator.Base.{ℕ, ◌+◌, ◌-◌, Option, none, some, modify}

pub record QueueNode : Type 0 where
  pub process : ℕ
  pub next : Option ℕ

-- The nodes that are allocated.
abbrev pub Memory : Type 0
Memory = ℕ → Option QueueNode

pub record LinkedQueue : Type 0 where
  pub head : Option ℕ
  pub tail : Option ℕ
  pub size : ℕ

abbrev pub linked_init : LinkedQueue
linked_init = record { head = none; tail = none; size = 0 }

abbrev pub new_node : ℕ → QueueNode
new_node p = record { process = p; next = none }

abbrev pub link : ℕ → QueueNode → QueueNode
link node last = record last { next = some node }

-- `q->tail->next = node; q->tail = node;`
abbrev pub link_tail :
    ℕ → ℕ → Option QueueNode → Memory → LinkedQueue → Option (Memory × LinkedQueue)
link_tail node t none h q = none
link_tail node t (some last) h q =
    some (modify h t (λ _. some (link node last)), record q { tail = some node; size = q.size + 1 })

abbrev pub append_node : ℕ → Option ℕ → Memory → LinkedQueue → Option (Memory × LinkedQueue)
append_node node none h q =
    some (h, record { head = some node; tail = some node; size = q.size + 1 })
append_node node (some t) h q = link_tail node t (h t) h q

-- `node` is the address that malloc returns.
unfoldable pub enqueue_node : ℕ → Memory → LinkedQueue → ℕ → Option (Memory × LinkedQueue)
enqueue_node node h q p = append_node node q.tail (modify h node (λ _. some (new_node p))) q

-- `if (q->head == NULL) q->tail = NULL;`
abbrev pub tail_after : Option ℕ → Option ℕ → Option ℕ
tail_after none tail = none
tail_after (some a) tail = tail

-- The process, the memory without the node, and the queue.
abbrev pub remove_node :
    ℕ → Option QueueNode → Memory → LinkedQueue → Option (Option ℕ × Memory × LinkedQueue)
remove_node a none h q = none
remove_node a (some node) h q = some (
  some node.process,
  modify h a (λ _. none),
  record { head = node.next; tail = tail_after node.next q.tail; size = q.size - 1 },
)

abbrev pub take_node : Option ℕ → Memory → LinkedQueue → Option (Option ℕ × Memory × LinkedQueue)
take_node none h q = some (none, h, q)
take_node (some a) h q = remove_node a (h a) h q

unfoldable pub dequeue_node : Memory → LinkedQueue → Option (Option ℕ × Memory × LinkedQueue)
dequeue_node h q = take_node q.head h q
