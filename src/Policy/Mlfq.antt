-- ===== src/Policy/Mlfq.antt =====
-- src/algorithms/mlfq.c. A hook that reads `policy_state` as another policy's changes nothing.
use cpu_scheduler_simulator.Base.{
  ℕ, zero, suc, ◌+◌, ◌-◌, Bool, true, false, Option, none, some, List, [], ◌∷◌, ◌++◌, pos, ◌+ℤ◌,
  ◌-ℤ◌, leb_ℤ, ltb, if◌then◌else◌, modify,
}
use cpu_scheduler_simulator.Process.{Process}
use cpu_scheduler_simulator.State.{
  SchedulerState, SchedulerPolicy, PolicyState, null, mlfq, MlfqState, MlfqQueue,
}
use cpu_scheduler_simulator.Engine.{set_preempt, modify_process}

abbrev pub set_mlfq : SchedulerState → MlfqState → SchedulerState
set_mlfq s m = record s { policy_state = mlfq m }

abbrev pub set_nodes : List ℕ → MlfqQueue → MlfqQueue
set_nodes nodes q = record q { nodes = nodes }

unfoldable pub enqueue : MlfqQueue → ℕ → MlfqQueue
enqueue q p = record q { nodes = q.nodes ++ p ∷ [] }

abbrev pub take_head : MlfqQueue → List ℕ → Option ℕ × MlfqQueue
take_head q [] = (none, q)
take_head q (p ∷ rest) = (some p, record q { nodes = rest })

unfoldable pub dequeue : MlfqQueue → Option ℕ × MlfqQueue
dequeue q = take_head q q.nodes

-- `enqueue(&mlfq->queues[level], p)`
abbrev pub enqueue_at : MlfqState → ℕ → ℕ → MlfqState
enqueue_at m level p = record m { queues = modify m.queues level (λ q. enqueue q p) }

unfoldable pub mlfq_on_init : SchedulerState → SchedulerState
mlfq_on_init s = set_mlfq s (record {
  queues = λ i. record {
    nodes = [];
    quantum = s.mlfq_config.quantums i;
    allotment = s.mlfq_config.allotments i;
  };
  num_queues = s.mlfq_config.num_queues;
  boost_timer = pos 0;
  boost_period = s.mlfq_config.boost_period;
  current_quantum = pos 0;
})

-- `p->priority = 0; p->allotment_used = 0;`
abbrev pub reset_priority : Process → Process
reset_priority p = record p { priority = 0; allotment_used = 0 }

abbrev pub outranks_running : SchedulerState → ℕ → Option ℕ → Bool
outranks_running s p none = false
outranks_running s p (some r) = ltb (s.processes p).priority (s.processes r).priority

unfoldable pub mlfq_arrival : SchedulerState → ℕ → PolicyState → SchedulerState
mlfq_arrival s p (mlfq m) =
    let s' = set_mlfq (modify_process s p reset_priority) (enqueue_at m 0 p) in
    if outranks_running s' p s'.running_process then set_preempt s' true else s'
mlfq_arrival s p _ = s

unfoldable pub mlfq_on_arrival : SchedulerState → ℕ → SchedulerState
unfolding mlfq_arrival enqueue
mlfq_on_arrival s p = mlfq_arrival s p s.policy_state

-- The loop of `mlfq_next_process` with `rounds` levels left, at level `i`.
unfoldable pub pick_from : ℕ → ℕ → MlfqState → Option ℕ × MlfqState
unfolding dequeue
pick_from zero i m = (none, m)
pick_from (suc rounds) i m =
    let (p, q) = dequeue (m.queues i) in
    elim p [
      | none ↦ pick_from rounds (i + 1) m
      | some k ↦ (
        some k,
        record m { queues = modify m.queues i (λ _. q); current_quantum = (m.queues i).quantum },
      )
    ]

unfoldable pub mlfq_next : SchedulerState → PolicyState → Option ℕ × SchedulerState
unfolding pick_from
mlfq_next s (mlfq m) = let (next, m') = pick_from m.num_queues 0 m in (next, set_mlfq s m')
mlfq_next s _ = (none, s)

unfoldable pub mlfq_next_process : SchedulerState → Option ℕ × SchedulerState
unfolding mlfq_next
mlfq_next_process s = mlfq_next s s.policy_state

-- The inner loop of the boost: the processes of one level go to the end of level 0, each with its
-- priority and its allotment reset. The level, which is not 0, is left empty.
unfoldable pub boost_nodes : List ℕ → SchedulerState → MlfqState → SchedulerState × MlfqState
boost_nodes [] s m = (s, m)
boost_nodes (p ∷ rest) s m = boost_nodes rest (modify_process s p reset_priority) (enqueue_at m 0 p)

-- The outer loop, with `rounds` levels left, at level `i`.
unfoldable pub boost_levels : ℕ → ℕ → SchedulerState → MlfqState → SchedulerState × MlfqState
unfolding boost_nodes
boost_levels zero i s m = (s, m)
boost_levels (suc rounds) i s m =
    let (s', m') =
      boost_nodes (m.queues i).nodes s (record m { queues = modify m.queues i (set_nodes []) }) in
    boost_levels rounds (i + 1) s' m'

unfoldable pub reset_allotments : List ℕ → SchedulerState → SchedulerState
reset_allotments [] s = s
reset_allotments (p ∷ rest) s =
    reset_allotments rest (modify_process s p (λ q. record q { allotment_used = 0 }))

-- Rule 5 without the running process.
unfoldable pub boost : SchedulerState → MlfqState → SchedulerState × MlfqState
unfolding boost_levels reset_allotments
boost s m =
    let (s', m') = boost_levels (m.num_queues - 1) 1 s m in
    (reset_allotments (m'.queues 0).nodes s', record m' { boost_timer = pos 0 })

-- Rule 5 for the running process.
unfoldable pub boost_running : SchedulerState → MlfqState → ℕ → SchedulerState
boost_running s m p =
    set_preempt (set_mlfq (modify_process s p reset_priority) (enqueue_at m 0 p)) true

-- Rule 4: the allotment of the level is used up.
unfoldable pub demote : SchedulerState → MlfqState → ℕ → SchedulerState
demote s m p =
    let old = (s.processes p).priority in
    let level = (if ltb (old + 1) m.num_queues then old + 1 else old) in
    set_preempt
      (set_mlfq (modify_process s p (λ q. record q { priority = level; allotment_used = 0 }))
        (enqueue_at m level p))
      true

-- One tick of CPU was used: rules 4 and 2, and the preemption that an arrival asked for.
unfoldable pub use_tick : SchedulerState → MlfqState → ℕ → SchedulerState
unfolding demote
use_tick s m0 p =
    let m = record m0 { current_quantum = m0.current_quantum -ℤ pos 1 } in
    let s' = modify_process s p (λ q. record q { allotment_used = q.allotment_used + 1 }) in
    let q = s'.processes p in
    if leb_ℤ (m.queues q.priority).allotment (pos q.allotment_used)
    then demote s' m p
    else if leb_ℤ m.current_quantum (pos 0)
    then set_preempt (set_mlfq s' (enqueue_at m q.priority p)) true
    else if s.preempt_requested
    then set_mlfq s' (enqueue_at m q.priority p)
    else set_mlfq s' m

unfoldable pub mlfq_tick : SchedulerState → Option ℕ → PolicyState → SchedulerState
unfolding boost boost_running use_tick enqueue
mlfq_tick s current (mlfq m0) =
    let m = record m0 { boost_timer = m0.boost_timer +ℤ pos 1 } in
    let boosted = boost s m in
    if leb_ℤ m.boost_period m.boost_timer
    then elim current [
      | none ↦ set_mlfq boosted.0 boosted.1
      | some p ↦ boost_running boosted.0 boosted.1 p
    ]
    else elim current [ none ↦ set_mlfq s m | some p ↦ use_tick s m p ]
mlfq_tick s current _ = s

unfoldable pub mlfq_on_tick : SchedulerState → Option ℕ → SchedulerState
unfolding mlfq_tick
mlfq_on_tick s current = mlfq_tick s current s.policy_state

-- `while ((p = dequeue(...)) != NULL)`; `none` means that the fuel ran out.
unfoldable pub drain : ℕ → MlfqQueue → Option MlfqQueue
unfolding dequeue
drain zero q = none
drain (suc fuel) q =
    let (p, rest) = dequeue q in
    let end = drain fuel rest in elim p [ none ↦ some q | some k ↦ end ]

-- The loop over the levels, with `rounds` of them left, at level `i`.
unfoldable pub drain_levels : ℕ → ℕ → ℕ → MlfqState → Option MlfqState
unfolding drain
drain_levels fuel zero i m = some m
drain_levels fuel (suc rounds) i m = elim (drain fuel (m.queues i)) [
  | none ↦ none
  | some q ↦ drain_levels fuel rounds (i + 1) (record m { queues = modify m.queues i (λ _. q) })
]

unfoldable pub mlfq_finish : ℕ → SchedulerState → PolicyState → Option SchedulerState
unfolding drain_levels
mlfq_finish fuel s (mlfq m) = elim (drain_levels fuel m.num_queues 0 m) [
  | none ↦ none
  | some drained ↦ some (record s { policy_state = null })
]
mlfq_finish fuel s _ = some s

unfoldable pub mlfq_on_finish : ℕ → SchedulerState → Option SchedulerState
unfolding mlfq_finish
mlfq_on_finish fuel s = mlfq_finish fuel s s.policy_state

abbrev pub mlfq_policy : SchedulerPolicy
mlfq_policy = record {
  name = "mlfq";
  on_init = some mlfq_on_init;
  on_arrival = some mlfq_on_arrival;
  next_process = some mlfq_next_process;
  on_tick = some mlfq_on_tick;
  on_finish = some mlfq_on_finish;
}
