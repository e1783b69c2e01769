-- ===== src/Main.antt =====
-- src/core/main.c. `exit(1)` and a return of 1 are `exited`; what the program prints is the value
-- that it prints from. `qsort`, the files and the content of fresh memory are parameters.
pub mod Reset
pub mod Algorithm
pub mod Comparison
pub mod Program
use cpu_scheduler_simulator.Base.{
  ℕ, zero, suc, Bool, true, false, Option, none, some, List, [], ◌∷◌, ℤ, pos, negsuc, eqb_ℤ,
  if◌then◌else◌, modify, take,
}
use cpu_scheduler_simulator.Process.{Process, not_arrived}
use cpu_scheduler_simulator.State.{SchedulerState, MlfqConfig}
use cpu_scheduler_simulator.Engine.{init_scheduler_state, cleanup_scheduler_state}
use cpu_scheduler_simulator.Policy.Registry.{
  schedule_fcfs, schedule_sjf, schedule_stcf, schedule_rr, schedule_mlfq,
}
use cpu_scheduler_simulator.Metrics.{total, MetricsTable, print_metrics_table}
use cpu_scheduler_simulator.Gantt.Render.{render_gantt_chart}
use cpu_scheduler_simulator.Clib.{strcasecmp, strcmp}
use cpu_scheduler_simulator.Parser.{Args, Opt, parse_args, parse_mlfq_config}
use cpu_scheduler_simulator.Clib.{codes}
use cpu_scheduler_simulator.Workload.{parse_workload_string, parse_workload_file}

-- `(float)total / count`, and the -1 of a run that failed.
pub data Average : Type 0 where
  ratio : ℤ → ℕ → Average
  minus_one : Average

pub record CompareResult : Type 0 where
  pub algorithm : List ℕ
  pub avg_tt : Average
  pub avg_wt : Average
  pub avg_rt : Average
  pub context_switches : ℤ

-- How a part of the program ends. `no_fuel` stands for a loop that ran out of fuel.
pub data Outcome {ℓ} (A : Type ℓ) : Type ℓ where
  exited : Outcome A
  no_fuel : Outcome A
  done : A → Outcome A

abbrev pub and_then {ℓ κ} : {A : Type ℓ} {B : Type κ} → Outcome A → (A → Outcome B) → Outcome B
and_then exited f = exited
and_then no_fuel f = no_fuel
and_then (done a) f = f a

-- Fuel that ran out, and an exit.
abbrev pub of_run {ℓ} : {A : Type ℓ} → Option A → Outcome A
of_run none = no_fuel
of_run (some a) = done a

abbrev pub of_exit {ℓ} : {A : Type ℓ} → Option A → Outcome A
of_exit none = exited
of_exit (some a) = done a

-- `strcasecmp(name, literal) == 0`
abbrev pub same_name : List ℕ → List ℕ → Bool
same_name a b = eqb_ℤ (strcasecmp a b) (pos 0)

-- The chain of tests on the name; `none` is the last branch, an unknown algorithm.
unfoldable pub schedule_by_name : ℕ → List ℕ → SchedulerState → Option (Option SchedulerState)
unfolding strcasecmp schedule_fcfs schedule_sjf schedule_stcf schedule_rr schedule_mlfq
schedule_by_name fuel name s =
    if same_name name (codes "fcfs")
    then some (schedule_fcfs fuel s)
    else if same_name name (codes "sjf")
    then some (schedule_sjf fuel s)
    else if same_name name (codes "stcf")
    then some (schedule_stcf fuel s)
    else if same_name name (codes "rr")
    then some (schedule_rr fuel s s.quantum)
    else if same_name name (codes "mlfq")
    then some (schedule_mlfq fuel s s.mlfq_config)
    else none

abbrev pub failed_result : List ℕ → CompareResult
failed_result name = record {
  algorithm = take 15 name;
  avg_tt = minus_one;
  avg_wt = minus_one;
  avg_rt = minus_one;
  context_switches = negsuc 0;
}

unfoldable pub averages : List ℕ → ℕ → SchedulerState → CompareResult
unfolding total
averages name n t = record {
  algorithm = take 15 name;
  avg_tt = ratio (total (λ p. p.turnaround_time) t.processes n) n;
  avg_wt = ratio (total (λ p. p.waiting_time) t.processes n) n;
  avg_rt = ratio (total (λ p. p.response_time) t.processes n) n;
  context_switches = pos t.context_switches;
}

abbrev pub Qsort : Type 0
Qsort = (Process → Process → ℤ) → ℕ → (ℕ → Process) → ℕ → Process

-- `state.config.quantum = ...; parse_mlfq_config(..., &state.config.mlfq_config);`
unfoldable pub configure :
    (List ℕ → Option (List ℕ)) → Args → SchedulerState → Outcome SchedulerState
unfolding parse_mlfq_config
configure files args s =
    and_then (of_exit (parse_mlfq_config files args.mlfq_config s.mlfq_config)) λ config.
      done (record s { config = record s.config { quantum = args.quantum; mlfq_config = config } })

-- `memcpy(copy, procs, n * sizeof(Process))`, where `memory` is what `malloc` returned.
unfoldable pub memcpy : (ℕ → Process) → (ℕ → Process) → ℕ → ℕ → Process
memcpy memory procs zero = memory
memcpy memory procs (suc n) = modify (memcpy memory procs n) n (λ _. procs n)

-- The result, and the caller's array, which a run on a copy leaves as it was.
abbrev pub collect :
    List ℕ
    → ℕ
    → (ℕ → Process)
    → Option (Option SchedulerState)
    → Outcome (CompareResult × (ℕ → Process))
collect name n procs none = done (failed_result name, procs)
collect name n procs (some r) = and_then (of_run r) λ t. done (averages name n t, procs)

-- What the loop over the array resets before each run.
abbrev pub reset_process : Process → Process
reset_process p = record p {
  remaining_time = p.burst_time;
  start_time = negsuc 0;
  finish_time = pos 0;
  turnaround_time = pos 0;
  waiting_time = pos 0;
  response_time = pos 0;
  state = not_arrived;
  priority = 0;
  allotment_used = 0;
}

unfoldable pub reset_processes : (ℕ → Process) → ℕ → ℕ → Process
reset_processes procs zero = procs
reset_processes procs (suc n) = modify (reset_processes procs n) n reset_process

unfoldable pub load_processes :
    (List ℕ → Option (List ℕ)) → (ℕ → Process) → Args → Option ((ℕ → Process) × ℕ)
unfolding parse_workload_string parse_workload_file
load_processes files memory args = load args.processes_str args.input_file
  where
    load : Option (List ℕ) → Option (List ℕ) → Option ((ℕ → Process) × ℕ)
    load (some text) file = some (parse_workload_string memory text)
    load none (some file) = parse_workload_file files memory file
    load none none = none

abbrev pub algorithms : List (List ℕ)
algorithms = codes "FCFS" ∷ codes "SJF" ∷ codes "STCF" ∷ codes "RR" ∷ codes "MLFQ" ∷ []

-- What `main` shows: the comparison table, or the state at the end with the text of the chart and
-- the values of the table of metrics. Both return 0.
pub data Shown : Type 0 where
  comparison : List CompareResult → Shown
  report : SchedulerState → List ℕ → Option MetricsTable → Shown

module _ (qsort : Qsort) (files : List ℕ → Option (List ℕ)) (stack : SchedulerState)
    (fuel : ℕ) where
  -- The run sorts and changes its own copy, in `memory`. The state is cleaned up after the averages
  -- were taken.
  unfoldable pub run_algorithm :
      (ℕ → Process) → Args → (ℕ → Process) → ℕ → List ℕ → Outcome (CompareResult × (ℕ → Process))
  unfolding configure schedule_by_name averages init_scheduler_state memcpy
  run_algorithm memory args procs num_procs algorithm_name =
      let copy = memcpy memory procs num_procs in
      and_then (configure files args (init_scheduler_state qsort stack copy num_procs))
        λ s. collect algorithm_name num_procs procs (schedule_by_name fuel algorithm_name s)

  -- The loop over the names: reset, run, collect.
  unfoldable pub compare_loop :
      (ℕ → Process) → Args → List (List ℕ) → (ℕ → Process) → ℕ → Outcome (List CompareResult)
  unfolding reset_processes run_algorithm
  compare_loop memory args [] procs num_procs = done []
  compare_loop memory args (name ∷ names) procs num_procs =
      let fresh = reset_processes procs num_procs in
      and_then (run_algorithm memory args fresh num_procs name) λ (result, kept).
        and_then (compare_loop memory args names kept num_procs) λ results. done (result ∷ results)

  -- The last branch of `main`, with `procs` sorted in place.
  abbrev pub report_run : ℕ → Option (Option SchedulerState) → Outcome Shown
  report_run num_procs none = exited
  report_run num_procs (some r) =
      and_then (of_run r)
        λ t. done (report t (render_gantt_chart t) (print_metrics_table t.processes num_procs))

  unfoldable pub single_run : Args → (ℕ → Process) → ℕ → Outcome Shown
  unfolding configure schedule_by_name init_scheduler_state print_metrics_table render_gantt_chart
  single_run args procs num_procs =
      and_then (configure files args (init_scheduler_state qsort stack procs num_procs))
        λ s. report_run num_procs (schedule_by_name fuel args.algorithm s)

  unfoldable pub run_args : (ℕ → Process) → Args → (ℕ → Process) × ℕ → Outcome Shown
  unfolding compare_loop single_run
  run_args memory args (procs, num_procs) =
      if args.compare_mode
      then and_then (compare_loop memory args algorithms procs num_procs)
          (λ results. done (comparison results))
      else single_run args procs num_procs

  unfoldable pub main_program : (ℕ → Process) → List Opt → Outcome Shown
  unfolding parse_args load_processes run_args
  main_program memory argv = and_then (of_exit (parse_args argv)) λ args.
      and_then (of_exit (load_processes files memory args)) λ loaded. run_args memory args loaded
