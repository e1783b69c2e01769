-- ===== src/State.antt =====
-- include/scheduler.h: the simulation's state and the interface of a scheduling policy, with the
-- two kinds of private state behind `policy_state` (RRState of src/algorithms/rr.c, MLFQState of
-- src/algorithms/mlfq.c). The process array is a function of the index, and a `Process *` into it
-- is that index.
use Prim.Native.String.{String}
use cpu_scheduler_simulator.Base.{ℕ, Bool, Option, List, ℤ}
use cpu_scheduler_simulator.Process.{Process}
use cpu_scheduler_simulator.Queue.{Queue}

pub record MlfqConfig : Type 0 where
  pub num_queues : ℕ
  pub quantums : ℕ → ℤ
  pub allotments : ℕ → ℤ
  pub boost_period : ℤ

pub record SchedulerConfig : Type 0 where
  pub processes : ℕ → Process
  pub num_processes : ℕ
  pub quantum : ℤ
  pub mlfq_config : MlfqConfig

pub record SchedulerEngine : Type 0 where
  pub current_time : ℕ
  pub next_arrival_idx : ℕ
  pub running_process : Option ℕ
  pub preempt_requested : Bool

pub record SchedulerMetrics : Type 0 where
  pub context_switches : ℕ
  pub gantt_log : Option (List ℕ)

pub record RrState : Type 0 where
  pub ready_queue : Queue
  pub current_quantum : ℤ

-- The chain of nodes of one level is a list, as in the queue of src/utils/queue.c.
pub record MlfqQueue : Type 0 where
  pub nodes : List ℕ
  pub quantum : ℤ
  pub allotment : ℤ

pub record MlfqState : Type 0 where
  pub queues : ℕ → MlfqQueue
  pub num_queues : ℕ
  pub boost_timer : ℤ
  pub boost_period : ℤ
  pub current_quantum : ℤ

-- What the `void *policy_state` points to.
pub data PolicyState : Type 0 where
  null : PolicyState
  rr : RrState → PolicyState
  mlfq : MlfqState → PolicyState

pub record SchedulerState : Type 0 where
  pub config : SchedulerConfig
  pub open config use *
  pub engine : SchedulerEngine
  pub open engine use *
  pub metrics : SchedulerMetrics
  pub open metrics use *
  pub policy_state : PolicyState

-- `none` is a NULL hook. `on_tick` is given `*current`, the running process.
pub record SchedulerPolicy : Type 0 where
  pub name : String
  pub on_init : Option (SchedulerState → SchedulerState)
  pub on_arrival : Option (SchedulerState → ℕ → SchedulerState)
  pub next_process : Option (SchedulerState → Option ℕ × SchedulerState)
  pub on_tick : Option (SchedulerState → Option ℕ → SchedulerState)
  pub on_finish : Option (ℕ → SchedulerState → Option SchedulerState)
