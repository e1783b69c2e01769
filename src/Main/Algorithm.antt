-- ===== src/Main/Algorithm.antt =====
-- `run_algorithm` and the single run of src/core/main.c: a run by the name of its algorithm.
use cpu_scheduler_simulator.Base.{
  ℕ, ◌+◌, ◌<◌, ◌≡◌, ◌⊎◌, refl, sym, ap, ◌∙◌, subst, inl, inr, List, arith, Bool, true, false,
  Option, none, some, ℤ, pos, ◌≤ℤ◌, sum_to, if◌then◌else◌,
}
use cpu_scheduler_simulator.Process.{Process}
use cpu_scheduler_simulator.State.{SchedulerState, MlfqConfig}
use cpu_scheduler_simulator.Engine.{init_scheduler_state, compare_arrival_time}
use cpu_scheduler_simulator.Engine.View.{view, core}
use cpu_scheduler_simulator.Engine.Quiet.{work, weight, stamp}
use cpu_scheduler_simulator.Engine.Unit.{ArrivesBy}
use cpu_scheduler_simulator.Engine.Startup.{Rearranges, init_scheduler_state-Fresh}
use cpu_scheduler_simulator.Engine.Total.{Untouched, Fresh, Finished}
use cpu_scheduler_simulator.Policy.Levels.{OnLevels}
use cpu_scheduler_simulator.Policy.Registry.{
  schedule_fcfs, schedule_sjf, schedule_stcf, schedule_rr, schedule_mlfq,
}
use cpu_scheduler_simulator.Policy.Runs.{
  Ends, retuned, retuned-Fresh, schedule_fcfs-Ends, schedule_sjf-Ends, schedule_stcf-Ends,
  schedule_rr-Ends, schedule_mlfq-Ends,
}
use cpu_scheduler_simulator.Parser.{Args, parse_mlfq_config}
use cpu_scheduler_simulator.Clib.{codes}
use cpu_scheduler_simulator.Parser.Settings.{
  ConfigOutcome, source_lines, parse_mlfq_config-ConfigOutcome,
}
use cpu_scheduler_simulator.Metrics.{print_metrics_table}
use cpu_scheduler_simulator.Gantt.Render.{render_gantt_chart}
use cpu_scheduler_simulator.Main.{
  Qsort, Outcome, exited, done, and_then, of_exit, same_name, schedule_by_name, averages,
  failed_result, configure, collect, run_algorithm, memcpy, single_run, report, report_run,
}

-- What `qsort` is relied on for: it rearranges the array, so it keeps the sum of any measure.
pub record Permutes (qsort : Qsort) : Type 0 where
  pub rearranges : Rearranges qsort
  pub sums :
      (compare : Process → Process → ℤ) (n : ℕ) (procs : ℕ → Process) (f : Process → ℕ)
      → sum_to n (λ i. f (qsort compare n procs i)) ≡ sum_to n (λ i. f (procs i))

-- A workload: processes that have not run, with bursts that are not negative, that arrive by
-- `latest`.
pub record IsWorkload (latest n : ℕ) (procs : ℕ → Process) : Type 0 where
  pub untouched : (i : ℕ) → i < n → Untouched (procs i)
  pub top_level : (i : ℕ) → i < n → (procs i).priority ≡ 0
  pub arrives : (i : ℕ) → i < n → (procs i).arrival_time ≤ℤ pos latest

-- One time unit for each unit of the bursts, and one for each process.
abbrev pub workload : ℕ → (ℕ → Process) → ℕ
workload n procs = sum_to n (λ i. weight (stamp (core (procs i))))

-- One of five tests holds.
abbrev pub OneOf : Bool → Bool → Bool → Bool → Bool → Type 0
OneOf a b c d e = (a ≡ true) ⊎ ((b ≡ true) ⊎ ((c ≡ true) ⊎ ((d ≡ true) ⊎ (e ≡ true))))

-- The name, in any case, is that of one of the five algorithms.
abbrev pub IsKnown : List ℕ → Type 0
IsKnown name =
    OneOf (same_name name (codes "fcfs")) (same_name name (codes "sjf"))
      (same_name name (codes "stcf")) (same_name name (codes "rr")) (same_name name (codes "mlfq"))

-- The run that belongs to the test that holds.
abbrev pub RunOf :
    Bool → Bool → Bool → Bool → Bool → ℕ → SchedulerState → Option SchedulerState → Type 0
RunOf a b c d e fuel s r =
    ((a ≡ true) × (r ≡ schedule_fcfs fuel s))
    ⊎ (((b ≡ true) × (r ≡ schedule_sjf fuel s))
        ⊎ (((c ≡ true) × (r ≡ schedule_stcf fuel s))
            ⊎ (((d ≡ true) × (r ≡ schedule_rr fuel s s.quantum))
                ⊎ ((e ≡ true) × (r ≡ schedule_mlfq fuel s s.mlfq_config)))))

-- The run of the scheduler that has the name, in any case.
abbrev pub RunBy : ℕ → List ℕ → SchedulerState → Option SchedulerState → Type 0
RunBy fuel name s r =
    RunOf (same_name name (codes "fcfs")) (same_name name (codes "sjf"))
      (same_name name (codes "stcf")) (same_name name (codes "rr")) (same_name name (codes "mlfq"))
      fuel s r

-- A run by name: none for an unknown name, otherwise the one of the name, which ends.
abbrev ByName :
    Type 0
    → (Option SchedulerState → Type 0)
    → SchedulerState
    → ℕ
    → Option (Option SchedulerState)
    → Type 0
ByName Known Chosen s latest none = Known → ⊥
ByName Known Chosen s latest (some r) = Chosen r × Ends s latest r

module _ (fuel latest : ℕ) (s : SchedulerState) (fresh : Fresh s) (by : ArrivesBy latest (view s))
    (enough : work (view s) + latest < fuel) (some_level : 0 < s.mlfq_config.num_queues)
    (on_level : OnLevels s s.mlfq_config.num_queues) where
  chain :
      (a b c d e : Bool)
      → ByName (OneOf a b c d e) (RunOf a b c d e fuel s) s latest (
          if a
          then some (schedule_fcfs fuel s)
          else if b
          then some (schedule_sjf fuel s)
          else if c
          then some (schedule_stcf fuel s)
          else if d
          then some (schedule_rr fuel s s.quantum)
          else if e
          then some (schedule_mlfq fuel s s.mlfq_config)
          else none)
  chain true b c d e = (inl (refl, refl), schedule_fcfs-Ends fuel latest s fresh by enough)
  chain false true c d e = (inr (inl (refl, refl)), schedule_sjf-Ends fuel latest s fresh by enough)
  chain false false true d e =
      (inr (inr (inl (refl, refl))), schedule_stcf-Ends fuel latest s fresh by enough)
  chain false false false true e =
      (inr (inr (inr (inl (refl, refl)))), schedule_rr-Ends fuel latest s fresh by enough s.quantum)
  chain false false false false true = (
    inr (inr (inr (inr (refl, refl)))),
    schedule_mlfq-Ends fuel latest s fresh by enough s.mlfq_config some_level on_level,
  )
  chain false false false false false = λ h. ground (arith, h)

  schedule_by_name-ByName :
      (name : List ℕ)
      → ByName (IsKnown name) (RunBy fuel name s) s latest (schedule_by_name fuel name s)
  unfolding schedule_by_name
  schedule_by_name-ByName name =
      chain (same_name name (codes "fcfs")) (same_name name (codes "sjf"))
        (same_name name (codes "stcf")) (same_name name (codes "rr"))
        (same_name name (codes "mlfq"))

module _ (qsort : Qsort) (permutes : Permutes qsort) (files : List ℕ → Option (List ℕ))
    (stack : SchedulerState) (fuel latest n : ℕ) (args : Args) (procs : ℕ → Process)
    (ready : IsWorkload latest n procs) (enough : workload n procs + latest < fuel) where
  -- The state that the run starts from.
  abbrev pub start_state : MlfqConfig → SchedulerState
  start_state config = retuned (init_scheduler_state qsort stack procs n) args.quantum config

  -- How a run by `name` ends, where the second argument is what became of the configuration.
  abbrev pub RunsByName :
      {A : Type 0}
      → (SchedulerState → A)
      → Option MlfqConfig
      → List ℕ
      → Outcome A
      → Outcome A
      → Type 0
  RunsByName show none name fallback o = o ≡ exited
  RunsByName show (some config) name fallback o =
      ((t : SchedulerState) × RunBy fuel name (start_state config) (some t)
        × (o ≡ done (show t))
        × Finished (workload n procs + latest) (start_state config) t)
      ⊎ ((IsKnown name → ⊥) × (o ≡ fallback))

  start-Fresh : (config : MlfqConfig) → Fresh (start_state config)
  start-Fresh config =
      retuned-Fresh (init_scheduler_state qsort stack procs n) args.quantum config
        (init_scheduler_state-Fresh qsort stack procs n permutes.rearranges ready.untouched).0

  start-ArrivesBy : (config : MlfqConfig) → ArrivesBy latest (view (start_state config))
  unfolding init_scheduler_state
  start-ArrivesBy config i h =
      let (j, lt, e) = permutes.rearranges compare_arrival_time n procs i h in
      subst (λ (p : Process). p.arrival_time ≤ℤ pos latest) (sym e) (ready.arrives j lt)

  start-OnLevels :
      (config : MlfqConfig)
      → 0 < config.num_queues
      → OnLevels (start_state config) config.num_queues
  unfolding init_scheduler_state
  start-OnLevels config pos_levels i h =
      let (j, lt, e) = permutes.rearranges compare_arrival_time n procs i h in
      subst (λ (p : Process). p.priority < config.num_queues) (sym e)
        (rw (ready.top_level j lt) pos_levels)

  start-work : (config : MlfqConfig) → work (view (start_state config)) ≡ workload n procs
  unfolding init_scheduler_state
  start-work config = permutes.sums compare_arrival_time n procs (λ p. weight (stamp (core p)))

  by_name :
      (config : MlfqConfig) (name : List ℕ)
      → 0 < config.num_queues
      → ByName
          (IsKnown name)
          (RunBy fuel name (start_state config))
          (start_state config)
          latest
          (schedule_by_name fuel name (start_state config))
  by_name config name some_level =
      schedule_by_name-ByName fuel latest (start_state config) (start-Fresh config)
        (start-ArrivesBy config) (omega (arith, enough, start-work config)) some_level
        (start-OnLevels config some_level) name

  module _ {A : Type 0} (show : SchedulerState → A) (fallback : Outcome A)
      (collected : Option (Option SchedulerState) → Outcome A) (name : List ℕ)
      (fails : collected none ≡ fallback)
      (shows : (t : SchedulerState) → collected (some (some t)) ≡ done (show t)) where
    finish :
        (config : MlfqConfig) (r : Option (Option SchedulerState))
        → ByName (IsKnown name) (RunBy fuel name (start_state config)) (start_state config) latest r
        → RunsByName show (some config) name fallback (collected r)
    finish config none unknown = inr (unknown, fails)
    finish config (some r) (chosen, (t, p, f)) = inl (
      t,
      subst (RunBy fuel name (start_state config)) p chosen,
      ap (λ o. collected (some o)) p ∙ shows t,
      subst (λ w. Finished (w + latest) (start_state config) t) (start-work config) f,
    )

    configured :
        (lines : List (List ℕ)) (c : Option MlfqConfig)
        → ConfigOutcome lines c
        → RunsByName show c name fallback (
            and_then
              (and_then (of_exit c) (λ config. done (start_state config)))
              (λ s. collected (schedule_by_name fuel name s)))
    configured lines none bad = refl
    configured lines (some config) ok = finish config _ (by_name config name ok.some_queue)

  -- `run_algorithm` on an array whose copy is a workload, with more fuel than the work and the last
  -- arrival: it exits if the configuration exits; otherwise, for the name of an algorithm in any case,
  -- it returns the averages of the run that has the name, in which every process has finished with
  -- its own metrics, and for any other name the result of a failed run. The caller's array is kept.
  pub run_algorithm-RunsByName :
      (memory caller : ℕ → Process)
      → memcpy memory caller n ≡ procs
      → (name : List ℕ)
      → RunsByName
          (λ t. (averages name n t, caller))
          (parse_mlfq_config files args.mlfq_config stack.mlfq_config)
          name
          (done (failed_result name, caller))
          (run_algorithm qsort files stack fuel memory args caller n name)
  unfolding run_algorithm configure init_scheduler_state
  run_algorithm-RunsByName memory caller copied name =
      subst
        (λ copy.
          RunsByName (λ t. (averages name n t, caller))
            (parse_mlfq_config files args.mlfq_config stack.mlfq_config) name
            (done (failed_result name, caller))
            (and_then (configure files args (init_scheduler_state qsort stack copy n))
              (λ s. collect name n caller (schedule_by_name fuel name s))))
        (sym copied)
        (configured (λ t. (averages name n t, caller)) (done (failed_result name, caller))
          (collect name n caller) name refl (λ t. refl) (source_lines files args.mlfq_config) _
          (parse_mlfq_config-ConfigOutcome files args.mlfq_config stack.mlfq_config))

  -- The single run on a workload, with more fuel than the work and the last arrival: it exits if the
  -- configuration exits or the name is not that of an algorithm; otherwise it shows the state at the
  -- end of the run of the scheduler with that name, in any case, in which every process has finished
  -- with its own metrics, the chart of its log, and the table of the metrics.
  pub single_run-RunsByName :
      RunsByName
        (λ t. report t (render_gantt_chart t) (print_metrics_table t.processes n))
        (parse_mlfq_config files args.mlfq_config stack.mlfq_config)
        args.algorithm
        exited
        (single_run qsort files stack fuel args procs n)
  unfolding single_run configure init_scheduler_state
  single_run-RunsByName =
      configured (λ t. report t (render_gantt_chart t) (print_metrics_table t.processes n)) exited
        (report_run qsort files stack fuel n) args.algorithm refl (λ t. refl)
        (source_lines files args.mlfq_config) _
        (parse_mlfq_config-ConfigOutcome files args.mlfq_config stack.mlfq_config)
