-- ===== src/Tests/Schedules.antt =====
-- The theorems about runs under the policies that walk over the array, at concrete inputs.
use cpu_scheduler_simulator.Base.{
  ℕ, ◌-◌, ◌≤◌, ◌<◌, ◌≡◌, refl, none, ℤ, ◌-ℤ◌, [], ◌∷◌, pos, arith, map,
}
use cpu_scheduler_simulator.Process.{Process, init_process}
use cpu_scheduler_simulator.State.{SchedulerState}
use cpu_scheduler_simulator.Engine.{
  set_running, call_hook, step_simulation, compare_arrival_time, init_scheduler_state,
}
use cpu_scheduler_simulator.Engine.Total.{Fresh}
use cpu_scheduler_simulator.Engine.Startup.{ByArrival}
use cpu_scheduler_simulator.Engine.Reach.{Reached, begin, unit}
use cpu_scheduler_simulator.Engine.Range.{Fits, Reached-Fits}
use cpu_scheduler_simulator.Policy.Stcf.{stcf_policy}
use cpu_scheduler_simulator.Policy.Scanning.{stcf_contract, stcf_suits}
use cpu_scheduler_simulator.Policy.ShortestRuns.{ShortestRuns, Reached-ShortestRuns}
use cpu_scheduler_simulator.Engine.Unit.{ArrivesBy}
use cpu_scheduler_simulator.Engine.View.{view}
use cpu_scheduler_simulator.Policy.Mlfq.{mlfq_policy, mlfq_on_init}
use cpu_scheduler_simulator.Policy.MultiLevelContract.{MlfqSuits}
use cpu_scheduler_simulator.Policy.Rr.{rr_policy, rr_on_init}
use cpu_scheduler_simulator.Policy.TimeSlice.Run.{WithinSlice, Reached-WithinSlice}
use cpu_scheduler_simulator.Policy.Allotment.Run.{WithinAllotment, Reached-WithinAllotment}
use cpu_scheduler_simulator.Policy.HighestRuns.Run.{HighestRuns, Reached-HighestRuns}
use cpu_scheduler_simulator.Policy.Registry.{schedule_fcfs, schedule_sjf}
use cpu_scheduler_simulator.Policy.ShortestFirst.Run.{
  RunsShortestFirst, schedule_sjf-RunsShortestFirst,
}
use cpu_scheduler_simulator.Policy.InTurn.{starts_at, ends_at}
use cpu_scheduler_simulator.Policy.InTurn.Sorted.{LeavesInOrder, schedule_fcfs-init_scheduler_state}
use cpu_scheduler_simulator.Policy.InTurn.Run.{FollowsPlan, schedule_fcfs-FollowsPlan}
use cpu_scheduler_simulator.Tests.{three, three-Untouched, start, start-Fresh, start-ArrivesBy}

start-ByArrival : ByArrival start
unfolding init_process
start-ByArrival i j le lt = ground arith

-- The times of the schedule for "A:0:24,B:10:18,C:20:15".
planned_starts : map (starts_at start.processes) (0 ∷ 1 ∷ 2 ∷ []) ≡ 0 ∷ 24 ∷ 42 ∷ []
unfolding init_process
planned_starts = refl

planned_ends : map (ends_at start.processes) (0 ∷ 1 ∷ 2 ∷ []) ≡ 24 ∷ 42 ∷ 57 ∷ []
unfolding init_process
planned_ends = refl

schedule_fcfs-FollowsPlan_example : FollowsPlan start (schedule_fcfs 81 start)
unfolding init_process
schedule_fcfs-FollowsPlan_example =
    schedule_fcfs-FollowsPlan 81 20 start start-Fresh start-ByArrival start-ArrivesBy (omega arith)

-- The three processes in the other order, and a sort that turns an array round.
abbrev last_first : ℕ → Process
last_first i = three (2 - i)

abbrev turn_round : (Process → Process → ℤ) → ℕ → (ℕ → Process) → ℕ → Process
turn_round compare n procs i = procs (n - 1 - i)

turn_round-LeavesInOrder : LeavesInOrder turn_round last_first 3
unfolding init_process compare_arrival_time ◌-ℤ◌
turn_round-LeavesInOrder i j le lt = ground arith

schedule_fcfs-init_scheduler_state_example :
    FollowsPlan
      (init_scheduler_state turn_round start last_first 3)
      (schedule_fcfs 81 (init_scheduler_state turn_round start last_first 3))
unfolding init_process init_scheduler_state
schedule_fcfs-init_scheduler_state_example =
    schedule_fcfs-init_scheduler_state turn_round start last_first 3 81 20
      (λ compare n procs i lt. (n - 1 - i, omega (arith, lt), refl)) turn_round-LeavesInOrder
      (λ i lt. three-Untouched (2 - i)) (λ i lt. ground arith) (omega arith)

-- The three processes, all of them there at the start.
abbrev at_once : SchedulerState
at_once = record start {
  config = record start.config {
    processes = λ i. record (start.processes i) { arrival_time = pos 0 };
  };
}

-- After one time unit of STCF.
abbrev first_unit : SchedulerState × ℕ
first_unit =
    step_simulation (call_hook stcf_policy.on_init (set_running at_once none)) stcf_policy 0

first_unit-Reached : Reached stcf_policy at_once first_unit.0 first_unit.1
unfolding call_hook
first_unit-Reached = unit begin (omega arith) refl

Reached-ShortestRuns_example : ShortestRuns first_unit.0
Reached-ShortestRuns_example = Reached-ShortestRuns refl first_unit-Reached

at_once-Fresh : Fresh at_once
at_once-Fresh = record {
  at_zero = refl;
  none_arrived = refl;
  calm = refl;
  untouched = λ i lt.
      let u = start-Fresh.untouched i lt in
      record {
        burst_nonneg = u.burst_nonneg;
        all_left = u.all_left;
        no_start = u.no_start;
        waits = u.waits;
      };
}

Reached-Fits_example :
    (first_unit.0.current_time ≤ 2147483647)
    × ((i : ℕ) → i < first_unit.0.num_processes → Fits (first_unit.0.processes i))
unfolding init_process
Reached-Fits_example =
    Reached-Fits stcf_contract 0 at_once first_unit.0 first_unit.1 at_once-Fresh
      (stcf_suits (set_running at_once none)) (λ i lt. ground arith) (λ i lt. ground arith)
      (omega arith) first_unit-Reached

-- After one time unit of the multi-level policy.
abbrev first_level_unit : SchedulerState × ℕ
first_level_unit =
    step_simulation (call_hook mlfq_policy.on_init (set_running at_once none)) mlfq_policy 0

first_level_unit-Reached : Reached mlfq_policy at_once first_level_unit.0 first_level_unit.1
unfolding call_hook mlfq_on_init
first_level_unit-Reached = unit begin (omega arith) refl

at_once-MlfqSuits : MlfqSuits (set_running at_once none)
unfolding init_process
at_once-MlfqSuits = record { some_level = omega arith; on_level = λ i lt. ground arith }

at_once-ArrivesBy : ArrivesBy 0 (view at_once)
at_once-ArrivesBy i lt = omega arith

Reached-HighestRuns_example : HighestRuns first_level_unit.0
Reached-HighestRuns_example =
    Reached-HighestRuns 0 at_once first_level_unit.0 first_level_unit.1 at_once-Fresh
      at_once-MlfqSuits at_once-ArrivesBy first_level_unit-Reached

schedule_sjf-RunsShortestFirst_example : RunsShortestFirst at_once (schedule_sjf 61 at_once)
unfolding init_process
schedule_sjf-RunsShortestFirst_example =
    schedule_sjf-RunsShortestFirst 61 0 at_once at_once-Fresh (λ i j le lt. omega arith)
      at_once-ArrivesBy (omega arith)

Reached-WithinAllotment_example : WithinAllotment 3 first_level_unit.0
unfolding init_process
Reached-WithinAllotment_example =
    Reached-WithinAllotment at_once first_level_unit.0 first_level_unit.1 (omega arith)
      (λ l lt. ground arith) (λ i lt. ground arith) first_level_unit-Reached

-- After one time unit of round robin with a quantum of 3.
abbrev first_slice : SchedulerState × ℕ
first_slice = step_simulation (call_hook rr_policy.on_init (set_running at_once none)) rr_policy 0

first_slice-Reached : Reached rr_policy at_once first_slice.0 first_slice.1
unfolding call_hook rr_on_init
first_slice-Reached = unit begin (omega arith) refl

Reached-WithinSlice_example : WithinSlice (pos 3) first_slice.0
Reached-WithinSlice_example =
    Reached-WithinSlice 0 at_once first_slice.0 first_slice.1 at_once-Fresh at_once-ArrivesBy
      (omega arith) first_slice-Reached
