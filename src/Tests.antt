-- ===== src/Tests.antt =====
-- Runs on concrete workloads, and the theorems at concrete inputs.
mod Stages
mod Policies
mod Data
mod Chart
mod Parsing
mod Program
mod Schedules
use cpu_scheduler_simulator.Base.{
  ℕ, ◌<◌, ◌≡◌, refl, Option, none, some, List, [], ◌∷◌, ℤ, pos, ◌==◌, if◌then◌else◌, false, map,
  arith, ◌-ℤ◌,
}
use cpu_scheduler_simulator.Policy.Scan.{scan}
use cpu_scheduler_simulator.Policy.Fcfs.{fcfs_next_process}
use mathlib.Core.Option
use cpu_scheduler_simulator.Process.{Process, init_process}
use cpu_scheduler_simulator.State.{SchedulerState, MlfqConfig, null}
use cpu_scheduler_simulator.Engine.{run_simulation}
use cpu_scheduler_simulator.Engine.Unit.{ArrivesBy}
use cpu_scheduler_simulator.Engine.View.{view}
use cpu_scheduler_simulator.Engine.Total.{Untouched, Fresh}
use cpu_scheduler_simulator.Policy.Levels.{OnLevels}
use cpu_scheduler_simulator.Policy.Registry.{
  schedule_fcfs, schedule_sjf, schedule_stcf, schedule_rr, schedule_mlfq,
}
use cpu_scheduler_simulator.Policy.Runs.{
  Ends, Uninterrupted, schedule_fcfs-Uninterrupted, schedule_sjf-Uninterrupted, schedule_fcfs-Ends,
  schedule_sjf-Ends, schedule_stcf-Ends, schedule_rr-Ends, schedule_mlfq-Ends,
}

-- "A:0:24,B:10:18,C:20:15"
abbrev pub three : ℕ → Process
unfolding init_process
three i =
    if i == 0
    then init_process (b'A' ∷ []) (pos 0) (pos 24)
    else if i == 1
    then init_process (b'B' ∷ []) (pos 10) (pos 18)
    else init_process (b'C' ∷ []) (pos 20) (pos 15)

-- The defaults of `parse_mlfq_config`.
abbrev pub default_mlfq : MlfqConfig
default_mlfq = record {
  num_queues = 3;
  quantums = λ i. if i == 0 then pos 2 else if i == 1 then pos 4 else pos 8;
  allotments = λ i. if i == 0 then pos 2 else if i == 1 then pos 4 else pos 8;
  boost_period = pos 50;
}

abbrev pub start : SchedulerState
start = record {
  config = record {
    processes = three;
    num_processes = 3;
    quantum = pos 3;
    mlfq_config = default_mlfq;
  };
  engine = record {
    current_time = 0;
    next_arrival_idx = 0;
    running_process = none;
    preempt_requested = false;
  };
  metrics = record { context_switches = 0; gantt_log = some [] };
  policy_state = null;
}

pub three-Untouched : (i : ℕ) → Untouched (three i)
unfolding init_process
three-Untouched i = ground arith

pub start-Fresh : Fresh start
start-Fresh = record {
  at_zero = refl;
  none_arrived = refl;
  calm = refl;
  untouched = λ i h. three-Untouched i;
}

pub start-ArrivesBy : ArrivesBy 20 (view start)
unfolding init_process
start-ArrivesBy i h = ground arith

-- The finish times, and the number of context switches.
summary : Option SchedulerState → Option (List ℤ × ℕ)
summary =
    Option.map λ s. (map (λ i. (s.processes i).finish_time) (0 ∷ 1 ∷ 2 ∷ []), s.context_switches)

fcfs_summary : summary (schedule_fcfs 81 start) ≡ some (pos 24 ∷ pos 42 ∷ pos 57 ∷ [], 0)
unfolding init_process summary schedule_fcfs run_simulation fcfs_next_process scan ◌-ℤ◌
fcfs_summary = refl

schedule_stcf-Ends_example : Ends start 20 (schedule_stcf 81 start)
unfolding init_process
schedule_stcf-Ends_example =
    schedule_stcf-Ends 81 20 start start-Fresh start-ArrivesBy (omega arith)

schedule_rr-Ends_example : Ends start 20 (schedule_rr 81 start (pos 3))
unfolding init_process
schedule_rr-Ends_example =
    schedule_rr-Ends 81 20 start start-Fresh start-ArrivesBy (omega arith) (pos 3)

three_on_level : OnLevels start 3
unfolding init_process
three_on_level i lt = ground arith

schedule_mlfq-Ends_example : Ends start 20 (schedule_mlfq 81 start default_mlfq)
unfolding init_process
schedule_mlfq-Ends_example =
    schedule_mlfq-Ends 81 20 start start-Fresh start-ArrivesBy (omega arith) default_mlfq
      (omega arith) three_on_level
