-- ===== src/Tests/Program.antt =====
-- The program on a concrete command line, and the theorems about it at concrete inputs.
use cpu_scheduler_simulator.Base.{
  ℕ, ◌+◌, ◌<◌, ◌≡◌, refl, Option, none, some, List, [], ◌∷◌, ℤ, map, arith, ◌-ℤ◌, inr,
}
use cpu_scheduler_simulator.Process.{Process, init_process}
use cpu_scheduler_simulator.State.{SchedulerState}
use cpu_scheduler_simulator.Engine.{init_scheduler_state}
use cpu_scheduler_simulator.Engine.Total.{Finished}
use cpu_scheduler_simulator.Engine.Range.{Fits}
use cpu_scheduler_simulator.Metrics.{print_metrics_table}
use cpu_scheduler_simulator.Gantt.Render.{render_gantt_chart}
use cpu_scheduler_simulator.Policy.Runs.{retuned}
use cpu_scheduler_simulator.Clib.{strcasecmp, print_int}
use cpu_scheduler_simulator.Clib.Tokens.{join}
use cpu_scheduler_simulator.Parser.{
  Args, Opt, opt_algorithm, opt_processes, no_args, set_defaults, parse_args, parse_mlfq_config,
}
use cpu_scheduler_simulator.Clib.{codes}
use cpu_scheduler_simulator.Workload.{parse_workload_string}
use cpu_scheduler_simulator.Workload.RoundTrip.{write_token}
use cpu_scheduler_simulator.Main.{
  CompareResult, exited, done, report, reset_processes, algorithms, compare_loop, memcpy,
  single_run, main_program,
}
use cpu_scheduler_simulator.Main.Algorithm.{
  Permutes, IsWorkload, IsKnown, RunBy, RunsByName, workload, single_run-RunsByName,
}
use cpu_scheduler_simulator.Main.Comparison.{HasInputs, EachOf, copied, compare_loop-EachOf}
use cpu_scheduler_simulator.Main.Program.{Due, job_work, main_program-Finished}
use cpu_scheduler_simulator.Tests.{three, start, three-Untouched}
use cpu_scheduler_simulator.Tests.Parsing.{memory, jobs, jobs-AllWritable}

-- A sort that has nothing to do on an array that is in order.
abbrev no_sort : (Process → Process → ℤ) → ℕ → (ℕ → Process) → ℕ → Process
no_sort compare n procs = procs

no_sort-Permutes : Permutes no_sort
no_sort-Permutes = record {
  rearranges = λ compare n procs i h. (i, h, refl);
  sums = λ compare n procs f. refl;
}

abbrev no_files : List ℕ → Option (List ℕ)
no_files filename = none

abbrev line : List Opt
line = opt_algorithm (codes "Mlfq") ∷ opt_processes (codes "P1:0:24,P2:10:18") ∷ []

abbrev args : Args
args = record no_args { algorithm = codes "Mlfq"; processes_str = some (codes "P1:0:24,P2:10:18") }

three-IsWorkload : IsWorkload 20 3 three
unfolding init_process
three-IsWorkload = record {
  untouched = λ i h. three-Untouched i;
  top_level = λ i h. ground arith;
  arrives = λ i h. ground arith;
}

three-HasInputs : HasInputs 20 3 three
unfolding init_process
three-HasInputs = record { burst_nonneg = λ i h. ground arith; arrives = λ i h. ground arith }

three_work : workload 3 three + 20 < 81
unfolding init_process
three_work = omega arith

single_run-RunsByName_example :
    RunsByName no_sort no_sort-Permutes no_files start 81 20 3 args three three-IsWorkload
      three_work
      (λ t. report t (render_gantt_chart t) (print_metrics_table t.processes 3))
      (parse_mlfq_config no_files none start.mlfq_config)
      (codes "Mlfq")
      exited
      (single_run no_sort no_files start 81 args three 3)
single_run-RunsByName_example =
    single_run-RunsByName no_sort no_sort-Permutes no_files start 81 20 3 args three
      three-IsWorkload three_work

reset_work : workload 3 (copied memory three 3) + 20 < 81
unfolding init_process reset_processes memcpy
reset_work = omega arith

defaults_read :
    parse_mlfq_config no_files none start.mlfq_config ≡ some (set_defaults start.mlfq_config)
unfolding parse_mlfq_config
defaults_read = refl

compare_loop-EachOf_example :
    (results : List CompareResult) × (compare_loop no_sort no_files start 81 memory args algorithms
        three 3
      ≡ done results)
    × EachOf no_sort no_sort-Permutes no_files start 81 20 3 memory args three three-HasInputs
        reset_work
        (set_defaults start.mlfq_config)
        (codes "FCFS" ∷ codes "SJF" ∷ codes "STCF" ∷ codes "RR" ∷ codes "MLFQ" ∷ [])
        results
compare_loop-EachOf_example =
    compare_loop-EachOf no_sort no_sort-Permutes no_files start 81 20 3 memory args three
      three-HasInputs reset_work (set_defaults start.mlfq_config) defaults_read

line_accepted : parse_args line ≡ some args
unfolding parse_args
line_accepted = refl

text_written : args.processes_str ≡ some (join b',' (map write_token jobs))
unfolding print_int
text_written = refl

mlfq-IsKnown : IsKnown args.algorithm
unfolding strcasecmp ◌-ℤ◌
mlfq-IsKnown = inr (inr (inr (inr refl)))

jobs-Due : Due 10 jobs
jobs-Due = (refl, refl, omega arith, (refl, refl, omega arith, tt))

main_program-Finished_example :
    (t : SchedulerState) × (main_program no_sort no_files start 55 memory line
      ≡ done (report t (render_gantt_chart t) (print_metrics_table t.processes 2)))
    × RunBy 55 args.algorithm
        (retuned
          (init_scheduler_state no_sort start
            (parse_workload_string memory (join b',' (map write_token jobs))).0
            2)
          args.quantum
          (set_defaults start.mlfq_config))
        (some t)
    × Finished
        (job_work jobs + 10)
        (retuned
          (init_scheduler_state no_sort start
            (parse_workload_string memory (join b',' (map write_token jobs))).0
            2)
          args.quantum
          (set_defaults start.mlfq_config))
        t
    × ((i : ℕ) → i < 2 → Fits (t.processes i))
main_program-Finished_example =
    main_program-Finished no_sort no_sort-Permutes no_files start 55 10 memory line args jobs
      (set_defaults start.mlfq_config) line_accepted text_written refl mlfq-IsKnown defaults_read
      jobs-AllWritable jobs-Due (omega arith) (omega arith)
