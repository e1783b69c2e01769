-- ===== src/Queue.antt =====
-- src/utils/queue.c: the first-in first-out queue of process indices. The chain of nodes from
-- `head` to `tail` is the list `nodes`; `tail` is its last node, so an append at `tail` is an
-- append to the list. Linked has the nodes themselves.
pub mod Fifo
pub mod Linked
pub mod Chain
pub mod Refines
use cpu_scheduler_simulator.Base.{
  ℕ, zero, suc, if◌then◌else◌, ◌+◌, ◌-◌, Bool, Option, none, some, List, [], ◌∷◌, ◌++◌, ◌==◌,
}

pub record Queue : Type 0 where
  pub nodes : List ℕ
  pub size : ℕ

unfoldable pub queue_init : Queue
queue_init = record { nodes = []; size = 0 }

unfoldable pub enqueue : Queue → ℕ → Queue
enqueue q p = record { nodes = q.nodes ++ p ∷ []; size = q.size + 1 }

abbrev pub take_head : List ℕ → ℕ → Option ℕ × Queue
take_head [] size = (none, record { nodes = []; size = size })
take_head (p ∷ rest) size = (some p, record { nodes = rest; size = size - 1 })

unfoldable pub dequeue : Queue → Option ℕ × Queue
dequeue q = take_head q.nodes q.size

unfoldable pub is_empty : Queue → Bool
is_empty q = q.size == 0

-- `while (!is_empty(q)) dequeue(q)`; `none` means that the fuel ran out.
unfoldable pub queue_free : ℕ → Queue → Option Queue
unfolding dequeue is_empty
queue_free zero q = none
queue_free (suc fuel) q =
    let rest = queue_free fuel (dequeue q).1 in if is_empty q then some q else rest
