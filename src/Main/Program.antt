-- ===== src/Main/Program.antt =====
-- `main` of src/core/main.c from the command line to what it shows.
use cpu_scheduler_simulator.Base.{
  ℤ, ℕ, zero, suc, ◌+◌, ◌≤◌, ◌<◌, ◌≡◌, refl, sym, ap, ◌∙◌, subst, inl, inr, List, [], ◌∷◌, map,
  length, arith, false, Option, some, pos, pos_part, neg_part, ◌≤ℤ◌, sum_to, sum_to_ext,
}
use native.Mathlib.Decide.{ℕ_discrete}
use cpu_scheduler_simulator.Process.{Process, init_process}
use cpu_scheduler_simulator.State.{SchedulerState, MlfqConfig}
use cpu_scheduler_simulator.Engine.{init_scheduler_state, compare_arrival_time}
use cpu_scheduler_simulator.Engine.Range.{Fits, Finished-Fits}
use cpu_scheduler_simulator.Clib.{int_max}
use cpu_scheduler_simulator.Engine.View.{core}
use cpu_scheduler_simulator.Engine.Quiet.{weight, stamp}
use cpu_scheduler_simulator.Engine.Total.{Untouched, Finished}
use cpu_scheduler_simulator.Metrics.{print_metrics_table}
use cpu_scheduler_simulator.Gantt.Render.{render_gantt_chart}
use cpu_scheduler_simulator.Clib.Tokens.{join}
use cpu_scheduler_simulator.Parser.{Args, Opt, parse_args, parse_mlfq_config}
use cpu_scheduler_simulator.Policy.Runs.{retuned}
use cpu_scheduler_simulator.Workload.{parse_workload_string}
use cpu_scheduler_simulator.Workload.RoundTrip.{
  Job, job_process, write_token, AllWritable, Holds, parse_workload_string-join,
}
use cpu_scheduler_simulator.Main.{
  Qsort, exited, done, and_then, of_exit, load_processes, single_run, run_args, main_program,
  report,
}
use cpu_scheduler_simulator.Main.Algorithm.{
  Permutes, IsWorkload, workload, IsKnown, RunBy, RunsByName, single_run-RunsByName,
}

-- Jobs whose bursts and arrivals are not negative and that arrive by `latest`.
abbrev pub Due : ℕ → List Job → Type 0
Due latest [] = Unit {0}
Due latest (j ∷ jobs) =
    (neg_part j.burst ≡ 0) × (neg_part j.arrival ≡ 0) × (j.arrival ≤ℤ pos latest) × Due latest jobs

-- One time unit for each unit of the bursts, and one for each job.
abbrev pub job_work : List Job → ℕ
job_work [] = 0
job_work (j ∷ jobs) = pos_part j.burst + 1 + job_work jobs

-- An entry of the array is the process of a job that is due.
record Entry (latest : ℕ) (p : Process) : Type 0 where
  untouched : Untouched p
  top_level : p.priority ≡ 0
  arrival_nonneg : neg_part p.arrival_time ≡ 0
  arrives : p.arrival_time ≤ℤ pos latest

job-Entry :
    (latest : ℕ) (j : Job)
    → neg_part j.burst ≡ 0
    → neg_part j.arrival ≡ 0
    → j.arrival ≤ℤ pos latest
    → Entry latest (job_process j)
unfolding init_process
job-Entry latest j b z a = record {
  untouched = record { burst_nonneg = b; all_left = refl; no_start = refl; waits = refl };
  top_level = refl;
  arrival_nonneg = z;
  arrives = a;
}

Holds-Entry :
    (latest : ℕ) (procs : ℕ → Process) (i : ℕ) (jobs : List Job)
    → Holds procs i jobs
    → Due latest jobs
    → (k : ℕ) → i ≤ k
    → k < i + length jobs
    → Entry latest (procs k)
Holds-Entry latest procs i [] h d k le lt = absurd (omega arith)
Holds-Entry latest procs i (j ∷ jobs) (e, h) (b, z, a, d) k le lt = elim (ℕ_discrete i k) [
  | yes p ↦
      subst (λ n. Entry latest (procs n)) p
        (subst (Entry latest) (sym e) (job-Entry latest j b z a))
  | no ne ↦ Holds-Entry latest procs (i + 1) jobs h d k (omega (arith, le, ne)) (omega (arith, lt))
]

Holds-IsWorkload :
    (latest : ℕ) (procs : ℕ → Process) (jobs : List Job)
    → Holds procs 0 jobs
    → Due latest jobs
    → IsWorkload latest (length jobs) procs
Holds-IsWorkload latest procs jobs h d = record {
  untouched = λ i lt. (entry i lt).untouched;
  top_level = λ i lt. (entry i lt).top_level;
  arrives = λ i lt. (entry i lt).arrives;
}
  where
    entry : (i : ℕ) → i < length jobs → Entry latest (procs i)
    entry i lt = Holds-Entry latest procs 0 jobs h d i (omega arith) (omega (arith, lt))

abbrev NonnegInputs : SchedulerState → ℕ → Type 0
NonnegInputs s n =
    (i : ℕ)
    → i < n
    → (neg_part (s.processes i).burst_time ≡ 0) × (neg_part (s.processes i).arrival_time ≡ 0)

-- The array that a run starts from has the inputs in the order of the sort.
sorted_inputs :
    (qsort : Qsort) (permutes : Permutes qsort) (stack : SchedulerState) (latest : ℕ)
    (procs : ℕ → Process) (jobs : List Job) (quantum : ℤ) (config : MlfqConfig)
    → Holds procs 0 jobs
    → Due latest jobs
    → NonnegInputs
        (retuned (init_scheduler_state qsort stack procs (length jobs)) quantum config)
        (length jobs)
unfolding init_scheduler_state
sorted_inputs qsort permutes stack latest procs jobs quantum config h d i lt =
    let (j, below, e) = permutes.rearranges compare_arrival_time (length jobs) procs i lt in
    let entry = Holds-Entry latest procs 0 jobs h d j (omega arith) (omega (arith, below)) in
    subst (λ (p : Process). (neg_part p.burst_time ≡ 0) × (neg_part p.arrival_time ≡ 0)) (sym e)
      (entry.untouched.burst_nonneg, entry.arrival_nonneg)

init_scheduler_state-num_processes :
    (qsort : Qsort) (stack : SchedulerState) (procs : ℕ → Process) (n : ℕ)
    → (init_scheduler_state qsort stack procs n).num_processes ≡ n
unfolding init_scheduler_state
init_scheduler_state-num_processes qsort stack procs n = refl

sum_to-suc : (n : ℕ) (f : ℕ → ℕ) → sum_to (suc n) f ≡ f 0 + sum_to n (λ i. f (i + 1))
sum_to-suc zero f = omega arith
sum_to-suc (suc n) f = omega (arith, sum_to-suc n f, ap f (plus_one n))
  where
    plus_one : (k : ℕ) → suc k ≡ k + 1
    plus_one k = omega arith

job-weight : (j : Job) → weight (stamp (core (job_process j))) ≡ pos_part j.burst + 1
unfolding init_process
job-weight j = omega arith

workload-Holds :
    (procs : ℕ → Process) (i : ℕ) (jobs : List Job)
    → Holds procs i jobs
    → sum_to (length jobs) (λ k. weight (stamp (core (procs (i + k))))) ≡ job_work jobs
workload-Holds procs i [] h = refl
workload-Holds procs i (j ∷ jobs) (e, h) = omega (
  arith,
  sum_to-suc (length jobs) (λ k. weight (stamp (core (procs (i + k))))),
  ap (λ n. weight (stamp (core (procs n)))) (plus_zero i),
  ap (λ (p : Process). weight (stamp (core p))) e,
  job-weight j,
  sum_to_ext (length jobs) (λ k. weight (stamp (core (procs (i + (k + 1))))))
      (λ k. weight (stamp (core (procs (i + 1 + k)))))
      (λ k lt. ap (λ n. weight (stamp (core (procs n)))) (shift i k)),
  workload-Holds procs (i + 1) jobs h,
)
  where
    plus_zero : (k : ℕ) → k + 0 ≡ k
    plus_zero k = omega arith

    shift : (m k : ℕ) → m + (k + 1) ≡ m + 1 + k
    shift m k = omega arith

module _ (qsort : Qsort) (permutes : Permutes qsort) (files : List ℕ → Option (List ℕ))
    (stack : SchedulerState) (fuel latest : ℕ) (memory : ℕ → Process) (argv : List Opt)
    (args : Args) (jobs : List Job) (config : MlfqConfig) where
  abbrev text : List ℕ
  text = join b',' (map write_token jobs)

  loaded :
      (args.processes_str ≡ some text)
      → load_processes files memory args ≡ some (parse_workload_string memory text)
  unfolding load_processes
  loaded e = rw e refl

  main_program-single :
      parse_args argv ≡ some args
      → args.processes_str ≡ some text
      → args.compare_mode ≡ false
      → main_program qsort files stack fuel memory argv
        ≡ single_run qsort files stack fuel args
            (parse_workload_string memory text).0
            (parse_workload_string memory text).1
  unfolding main_program run_args
  main_program-single ea ep single =
      ap
        (λ o. and_then (of_exit o) (λ a.
          and_then (of_exit (load_processes files memory a))
            (run_args qsort files stack fuel memory a)))
        ea
      ∙ ap (λ o. and_then (of_exit o) (run_args qsort files stack fuel memory args)) (loaded ep)
      ∙ rw single refl

  -- The program on a command line that is accepted, without the comparison mode, with the name of
  -- an algorithm in any case, a configuration that does not exit, and an inline workload written
  -- from jobs with names of 1 to 15 characters without colon and comma, with arrivals and bursts that
  -- fit an `int` and are not negative, the work of the jobs and the last arrival together being at
  -- most INT_MAX: with more fuel than these it shows the state at the end of the run of the scheduler
  -- with that name on the processes of the jobs, in which each has finished with its own metrics and
  -- its times fit an `int`, the chart of its log, and the table of the metrics.
  pub main_program-Finished :
      parse_args argv ≡ some args
      → args.processes_str ≡ some (join b',' (map write_token jobs))
      → args.compare_mode ≡ false
      → IsKnown args.algorithm
      → parse_mlfq_config files args.mlfq_config stack.mlfq_config ≡ some config
      → AllWritable jobs
      → Due latest jobs
      → job_work jobs + latest ≤ int_max
      → job_work jobs + latest < fuel
      → (t : SchedulerState) × (main_program qsort files stack fuel memory argv
          ≡ done (report t (render_gantt_chart t) (print_metrics_table t.processes (length jobs))))
        × RunBy fuel args.algorithm
            (retuned
              (init_scheduler_state qsort stack
                (parse_workload_string memory (join b',' (map write_token jobs))).0
                (length jobs))
              args.quantum
              config)
            (some t)
        × Finished
            (job_work jobs + latest)
            (retuned
              (init_scheduler_state qsort stack
                (parse_workload_string memory (join b',' (map write_token jobs))).0
                (length jobs))
              args.quantum
              config)
            t
        × ((i : ℕ) → i < length jobs → Fits (t.processes i))
  main_program-Finished ea ep single known ec writable due small enough =
      elim (subst
        (λ c.
          RunsByName qsort permutes files stack fuel latest (length jobs) args procs ready fits
            (λ t. report t (render_gantt_chart t) (print_metrics_table t.processes (length jobs))) c
            args.algorithm exited (single_run qsort files stack fuel args procs (length jobs)))
        ec
        (single_run-RunsByName qsort permutes files stack fuel latest (length jobs) args procs ready
          fits)) [
            | inl (t, chosen, p, f) ↦ (
              t,
              main_program-single ea ep single
                  ∙ ap (single_run qsort files stack fuel args procs) held.1
                  ∙ p,
              chosen,
              subst
                  (λ w.
                    Finished (w + latest)
                      (retuned (init_scheduler_state qsort stack procs (length jobs)) args.quantum
                        config)
                      t)
                  same_work f,
              each t f,
            )
            | inr (unknown, _) ↦ absurd (unknown known)
          ]
    where
      procs : ℕ → Process
      procs = (parse_workload_string memory text).0

      held : Holds procs 0 jobs × ((parse_workload_string memory text).1 ≡ length jobs)
      held = parse_workload_string-join memory jobs writable

      ready : IsWorkload latest (length jobs) procs
      ready = Holds-IsWorkload latest procs jobs held.0 due

      zero_plus : (k : ℕ) → k ≡ 0 + k
      zero_plus k = omega arith

      same_work : workload (length jobs) procs ≡ job_work jobs
      same_work =
          sum_to_ext (length jobs) (λ k. weight (stamp (core (procs k))))
            (λ k. weight (stamp (core (procs (0 + k)))))
            (λ k lt. ap (λ n. weight (stamp (core (procs n)))) (zero_plus k))
          ∙ workload-Holds procs 0 jobs held.0

      each :
          (t : SchedulerState)
          → Finished
              (workload (length jobs) procs + latest)
              (retuned (init_scheduler_state qsort stack procs (length jobs)) args.quantum config)
              t
          → (i : ℕ) → i < length jobs
          → Fits (t.processes i)
      each t f i lt =
          let same = init_scheduler_state-num_processes qsort stack procs (length jobs) in
          Finished-Fits (workload (length jobs) procs + latest)
            (retuned (init_scheduler_state qsort stack procs (length jobs)) args.quantum config) t
            (omega (arith, same_work, small))
            (λ j h.
              sorted_inputs qsort permutes stack latest procs jobs args.quantum config held.0 due j
                (omega (arith, h, same)))
            f i (omega (arith, lt, same, f.labels.num_same))

      fits : workload (length jobs) procs + latest < fuel
      fits = omega (arith, same_work, enough)
