-- ===== src/Policy/Rr.antt =====
-- src/algorithms/rr.c. A hook that reads `policy_state` as another policy's changes nothing.
use cpu_scheduler_simulator.Base.{
  ℕ, true, ◌&&◌, Option, none, some, ℤ, pos, ◌-ℤ◌, ltb_ℤ, leb_ℤ, if◌then◌else◌,
}
use cpu_scheduler_simulator.Queue.{queue_init, queue_free, enqueue, dequeue}
use cpu_scheduler_simulator.State.{SchedulerState, SchedulerPolicy, PolicyState, null, rr, RrState}
use cpu_scheduler_simulator.Engine.{set_preempt}

abbrev pub set_rr : SchedulerState → RrState → SchedulerState
set_rr s r = record s { policy_state = rr r }

unfoldable pub rr_on_init : SchedulerState → SchedulerState
unfolding queue_init
rr_on_init s = set_rr s (record { ready_queue = queue_init; current_quantum = s.quantum })

unfoldable pub rr_arrival : SchedulerState → ℕ → PolicyState → SchedulerState
unfolding enqueue
rr_arrival s p (rr r) = set_rr s (record r { ready_queue = enqueue r.ready_queue p })
rr_arrival s p _ = s

unfoldable pub rr_on_arrival : SchedulerState → ℕ → SchedulerState
unfolding rr_arrival
rr_on_arrival s p = rr_arrival s p s.policy_state

-- A full time slice for the process that was taken off the queue, if there was one.
abbrev pub refill : ℤ → Option ℕ → ℤ → ℤ
refill quantum none current = current
refill quantum (some p) current = quantum

unfoldable pub rr_next : SchedulerState → PolicyState → Option ℕ × SchedulerState
unfolding dequeue
rr_next s (rr r) =
    let (next, q) = dequeue r.ready_queue in
    (
      next,
      set_rr s
          (record { ready_queue = q; current_quantum = refill s.quantum next r.current_quantum }),
    )
rr_next s _ = (none, s)

unfoldable pub rr_next_process : SchedulerState → Option ℕ × SchedulerState
unfolding rr_next
rr_next_process s = rr_next s s.policy_state

unfoldable pub rr_tick : SchedulerState → Option ℕ → PolicyState → SchedulerState
unfolding enqueue
rr_tick s (some p) (rr r) =
    let left = r.current_quantum -ℤ pos 1 in
    if leb_ℤ left (pos 0) && ltb_ℤ (pos 0) (s.processes p).remaining_time
    then set_preempt
        (set_rr s (record { ready_queue = enqueue r.ready_queue p; current_quantum = left })) true
    else set_rr s (record r { current_quantum = left })
rr_tick s _ _ = s

unfoldable pub rr_on_tick : SchedulerState → Option ℕ → SchedulerState
unfolding rr_tick
rr_on_tick s current = rr_tick s current s.policy_state

-- `queue_free` is a loop: `none` means that its fuel ran out.
unfoldable pub rr_finish : ℕ → SchedulerState → PolicyState → Option SchedulerState
unfolding queue_free
rr_finish fuel s (rr r) = elim (queue_free fuel r.ready_queue) [
  | none ↦ none
  | some q ↦ some (record s { policy_state = null })
]
rr_finish fuel s _ = some s

unfoldable pub rr_on_finish : ℕ → SchedulerState → Option SchedulerState
unfolding rr_finish
rr_on_finish fuel s = rr_finish fuel s s.policy_state

abbrev pub rr_policy : SchedulerPolicy
rr_policy = record {
  name = "RR";
  on_init = some rr_on_init;
  on_arrival = some rr_on_arrival;
  next_process = some rr_next_process;
  on_tick = some rr_on_tick;
  on_finish = some rr_on_finish;
}
