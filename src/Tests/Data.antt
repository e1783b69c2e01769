-- ===== src/Tests/Data.antt =====
-- The theorems about the queue and the metrics at concrete inputs.
use cpu_scheduler_simulator.Base.{
  ℕ, ◌≡◌, ◌<◌, ◌≤◌, refl, none, some, [], ◌∷◌, ◌++◌, pos, ◌==◌, if◌then◌else◌,
}
use cpu_scheduler_simulator.Process.{Process, init_process, finished}
use cpu_scheduler_simulator.Queue.{Queue, queue_init, enqueue, dequeue}
use cpu_scheduler_simulator.Queue.Linked.{
  Memory, LinkedQueue, linked_init, enqueue_node, dequeue_node,
}
use cpu_scheduler_simulator.Queue.Chain.{Represents}
use cpu_scheduler_simulator.Queue.Refines.{Yields, nodes_refine}
use cpu_scheduler_simulator.Queue.Fifo.{enqueue_all, dequeue_all, dequeue_all-enqueue_all}
use cpu_scheduler_simulator.Metrics.{calculate_metrics, find_convoy}
use cpu_scheduler_simulator.Metrics.Table.{
  calculate_metrics-IsMeasured, IsMeasured, FirstConvoy, find_convoy-FirstConvoy,
}

abbrev two : Queue
two = record { nodes = 5 ∷ 3 ∷ []; size = 2 }

dequeue_all-enqueue_all_example :
    dequeue_all (enqueue_all two (4 ∷ 6 ∷ [])).size (enqueue_all two (4 ∷ 6 ∷ []))
    ≡ (two.nodes ++ 4 ∷ 6 ∷ [], queue_init)
dequeue_all-enqueue_all_example = dequeue_all-enqueue_all two (4 ∷ 6 ∷ []) refl

-- `queue_init`: no memory is allocated yet.
init-Represents : Represents (λ a. none) linked_init queue_init []
unfolding queue_init
init-Represents = record { chain = refl; tail_last = refl; size_same = refl }

-- The nodes of `two`, at the addresses 7 and 9.
abbrev memory_of_two : Memory
memory_of_two a =
    if a == 7
    then some (record { process = 5; next = some 9 })
    else if a == 9
    then some (record { process = 3; next = none })
    else none

abbrev linked_two : LinkedQueue
linked_two = record { head = some 7; tail = some 9; size = 2 }

two-Represents : Represents memory_of_two linked_two two (7 ∷ 9 ∷ [])
two-Represents = record {
  chain = (refl, some 9, refl, refl, (refl, none, refl, refl, refl));
  tail_last = refl;
  size_same = refl;
}

nodes_refine_example :
    Yields (λ h' l'. (h', l')) (enqueue_node 4 memory_of_two linked_two 6) (enqueue two 6)
    × Yields
        (λ h' l'. ((dequeue two).0, h', l'))
        (dequeue_node memory_of_two linked_two)
        (dequeue two).1
nodes_refine_example =
    nodes_refine 4 memory_of_two linked_two two 6 (7 ∷ 9 ∷ []) refl two-Represents

-- Processes that ran one after the other, five time units each.
abbrev ran : ℕ → Process
unfolding init_process
ran i = record (init_process (b'A' ∷ []) (pos 0) (pos 5)) {
  remaining_time = pos 0;
  start_time = if i == 0 then pos 0 else pos 5;
  finish_time = if i == 0 then pos 5 else pos 10;
  turnaround_time = if i == 0 then pos 5 else pos 10;
  waiting_time = if i == 0 then pos 0 else pos 5;
  response_time = if i == 0 then pos 0 else pos 5;
  state = finished;
}

abbrev late : ℕ → Process
late i = record (ran i) { waiting_time = if i == 0 then pos 100 else pos 101 }

calculate_metrics-IsMeasured_example :
    ((i : ℕ) → i < 1 → IsMeasured (late i) (calculate_metrics late 1 i))
    × ((i : ℕ) → 1 ≤ i → calculate_metrics late 1 i ≡ late i)
calculate_metrics-IsMeasured_example = calculate_metrics-IsMeasured late 1

-- The second one waited longer than 100 time units and its burst.
warned : find_convoy 2 0 late ≡ some 1
unfolding find_convoy ran
warned = refl

find_convoy-FirstConvoy_example : FirstConvoy 2 0 late (find_convoy 2 0 late)
find_convoy-FirstConvoy_example = find_convoy-FirstConvoy 2 0 late
