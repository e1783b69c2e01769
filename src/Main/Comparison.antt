-- ===== src/Main/Comparison.antt =====
-- The comparison mode of src/core/main.c: all five algorithms on one workload.
use cpu_scheduler_simulator.Base.{
  ℕ, ◌+◌, ◌<◌, ◌≡◌, refl, sym, ap, ◌∙◌, subst, inl, inr, List, [], ◌∷◌, arith, Option, some, pos,
  neg_part, ◌≤ℤ◌, ◌-ℤ◌, take, wrap_int,
}
use cpu_scheduler_simulator.Engine.View.{core}
use cpu_scheduler_simulator.Engine.Sound.{Done}
use cpu_scheduler_simulator.Metrics.Table.{sum_ℤ, total-sum_ℤ}
use cpu_scheduler_simulator.Process.{Process}
use cpu_scheduler_simulator.State.{SchedulerState, MlfqConfig}
use cpu_scheduler_simulator.Engine.{init_scheduler_state}
use cpu_scheduler_simulator.Policy.Runs.{retuned}
use cpu_scheduler_simulator.Engine.Total.{Untouched, Finished}
use cpu_scheduler_simulator.Parser.{Args, parse_mlfq_config}
use cpu_scheduler_simulator.Clib.{strcasecmp, strcmp, codes}
use cpu_scheduler_simulator.Main.{
  Qsort, CompareResult, done, and_then, averages, reset_process, reset_processes, run_algorithm,
  compare_loop, algorithms, failed_result, memcpy, ratio,
}
use cpu_scheduler_simulator.Main.Reset.{reset_processes-each, reset_processes_idem, memcpy-below}
use cpu_scheduler_simulator.Main.Algorithm.{
  Permutes, IsWorkload, workload, IsKnown, RunBy, RunsByName, run_algorithm-RunsByName,
}

-- The inputs of the processes make a workload, whatever their other fields hold.
pub record HasInputs (latest n : ℕ) (procs : ℕ → Process) : Type 0 where
  pub burst_nonneg : (i : ℕ) → i < n → neg_part (procs i).burst_time ≡ 0
  pub arrives : (i : ℕ) → i < n → (procs i).arrival_time ≤ℤ pos latest

reset-Untouched : (p : Process) → neg_part p.burst_time ≡ 0 → Untouched (reset_process p)
reset-Untouched p h = record { burst_nonneg = h; all_left = refl; no_start = refl; waits = refl }

below :
    (memory procs : ℕ → Process) (n i : ℕ)
    → i < n
    → memcpy memory (reset_processes procs n) n i ≡ reset_process (procs i)
below memory procs n i h =
    memcpy-below memory (reset_processes procs n) n i h
    ∙ elim (reset_processes-each procs n i) [ inl (_, e) ↦ e | inr (le, _) ↦ absurd (omega arith) ]

-- What a run is given: the copy of the array after a reset.
abbrev pub copied : (ℕ → Process) → (ℕ → Process) → ℕ → ℕ → Process
copied memory procs n = memcpy memory (reset_processes procs n) n

-- The reset makes a workload of any array with the inputs of one.
copied-IsWorkload :
    (latest n : ℕ) (memory procs : ℕ → Process)
    → HasInputs latest n procs
    → IsWorkload latest n (copied memory procs n)
copied-IsWorkload latest n memory procs h = record {
  untouched = λ i lt.
      subst Untouched (sym (below memory procs n i lt))
        (reset-Untouched (procs i) (h.burst_nonneg i lt));
  top_level = λ i lt. ap (λ (p : Process). p.priority) (below memory procs n i lt);
  arrives = λ i lt.
      subst (λ (p : Process). p.arrival_time ≤ℤ pos latest) (sym (below memory procs n i lt))
        (h.arrives i lt);
}

-- Every name is that of an algorithm.
abbrev AllKnown : List (List ℕ) → Type 0
AllKnown [] = Unit {0}
AllKnown (name ∷ names) = IsKnown name × AllKnown names

algorithms-AllKnown : AllKnown algorithms
unfolding strcasecmp strcmp ◌-ℤ◌
algorithms-AllKnown = (
  inl refl,
  (
    inr (inl refl),
    (inr (inr (inl refl)), (inr (inr (inr (inl refl))), (inr (inr (inr (inr refl))), tt))),
  ),
)

-- The averages of a state: the low 32 bits of the exact sums of its times, over the number of
-- processes.
pub record IsAverages (name : List ℕ) (n : ℕ) (t : SchedulerState) (r : CompareResult)
    : Type 0 where
  pub named : r.algorithm ≡ take 15 name
  pub turnaround :
      r.avg_tt
      ≡ ratio
          (wrap_int (sum_ℤ n (λ i. (t.processes i).finish_time -ℤ (t.processes i).arrival_time)))
          n
  pub waiting :
      r.avg_wt
      ≡ ratio
          (wrap_int (
            sum_ℤ n (λ i.
              ((t.processes i).finish_time -ℤ (t.processes i).arrival_time)
              -ℤ (t.processes i).burst_time)))
          n
  pub response :
      r.avg_rt
      ≡ ratio
          (wrap_int (sum_ℤ n (λ i. (t.processes i).start_time -ℤ (t.processes i).arrival_time)))
          n
  pub switches : r.context_switches ≡ pos t.context_switches

averages-IsAverages :
    (name : List ℕ) (bound n : ℕ) (s t : SchedulerState)
    → s.num_processes ≡ n
    → Finished bound s t
    → IsAverages name n t (averages name n t)
unfolding averages
averages-IsAverages name bound n s t e f = record {
  named = refl;
  turnaround =
      ap (λ z. ratio z n)
        (total-sum_ℤ (λ p. p.turnaround_time) t.processes n
          (λ i. (t.processes i).finish_time -ℤ (t.processes i).arrival_time)
          (λ i h. (own i h).turnaround));
  waiting =
      ap (λ z. ratio z n)
        (total-sum_ℤ (λ p. p.waiting_time) t.processes n
          (λ i.
            ((t.processes i).finish_time -ℤ (t.processes i).arrival_time)
            -ℤ (t.processes i).burst_time)
          (λ i h.
            (own i h).waiting ∙ ap (λ z. z -ℤ (t.processes i).burst_time) (own i h).turnaround));
  response =
      ap (λ z. ratio z n)
        (total-sum_ℤ (λ p. p.response_time) t.processes n
          (λ i. (t.processes i).start_time -ℤ (t.processes i).arrival_time)
          (λ i h. (own i h).response));
  switches = refl;
}
  where
    own : (i : ℕ) → i < n → Done t.current_time (core (t.processes i))
    own i h = f.all_done i (omega (arith, h, e, f.labels.num_same))

module _ (qsort : Qsort) (permutes : Permutes qsort) (files : List ℕ → Option (List ℕ))
    (stack : SchedulerState) (fuel latest n : ℕ) (memory : ℕ → Process) (args : Args)
    (procs : ℕ → Process) (inputs : HasInputs latest n procs)
    (enough : workload n (copied memory procs n) + latest < fuel) where
  -- The state that every run starts from.
  abbrev pub copy_state : MlfqConfig → SchedulerState
  copy_state config =
      retuned (init_scheduler_state qsort stack (copied memory procs n) n) args.quantum config

  -- The averages of the run that has the name, in which every process finished with its own metrics.
  abbrev pub AveragesOf : MlfqConfig → List ℕ → CompareResult → Type 0
  AveragesOf config name r =
      (t : SchedulerState) × RunBy fuel name (copy_state config) (some t)
      × IsAverages name n t r
      × Finished (workload n (copied memory procs n) + latest) (copy_state config) t

  abbrev pub EachOf : MlfqConfig → List (List ℕ) → List CompareResult → Type 0
  EachOf config [] [] = Unit {0}
  EachOf config (name ∷ names) (r ∷ results) =
      AveragesOf config name r × EachOf config names results
  EachOf config [] (r ∷ results) = ⊥
  EachOf config (name ∷ names) [] = ⊥

  ready : IsWorkload latest n (copied memory procs n)
  ready = copied-IsWorkload latest n memory procs inputs

  copy_state-num_processes : (config : MlfqConfig) → (copy_state config).num_processes ≡ n
  unfolding init_scheduler_state
  copy_state-num_processes config = refl

  run_known :
      (config : MlfqConfig) (name : List ℕ)
      → parse_mlfq_config files args.mlfq_config stack.mlfq_config ≡ some config
      → IsKnown name
      → (r : CompareResult) × (run_algorithm qsort files stack fuel memory args
            (reset_processes procs n)
            n
            name
          ≡ done (r, reset_processes procs n))
        × AveragesOf config name r
  run_known config name e known =
      elim (subst
        (λ c.
          RunsByName qsort permutes files stack fuel latest n args (copied memory procs n) ready
            enough (λ t. (averages name n t, reset_processes procs n)) c name
            (done (failed_result name, reset_processes procs n))
            (run_algorithm qsort files stack fuel memory args (reset_processes procs n) n name))
        e
        (run_algorithm-RunsByName qsort permutes files stack fuel latest n args
          (copied memory procs n) ready enough memory (reset_processes procs n) refl name)) [
            | inl (t, chosen, p, f) ↦ (
              averages name n t,
              p,
              (
                t,
                chosen,
                averages-IsAverages name _ n (copy_state config) t (copy_state-num_processes config)
                    f,
                f,
              ),
            )
            | inr (unknown, _) ↦ absurd (unknown known)
          ]

  -- The loop on an array that the reset turns into the same one.
  each_known :
      (config : MlfqConfig) (names : List (List ℕ)) (given : ℕ → Process)
      → reset_processes given n ≡ reset_processes procs n
      → parse_mlfq_config files args.mlfq_config stack.mlfq_config ≡ some config
      → AllKnown names
      → (results : List CompareResult) × (compare_loop qsort files stack fuel memory args names
            given n
          ≡ done results)
        × EachOf config names results
  unfolding compare_loop
  each_known config [] given same e known = ([], refl, tt)
  each_known config (name ∷ names) given same e (known, more) =
      let (r, p, a) = run_known config name e known in
      let (results, q, b) =
        each_known config names (reset_processes procs n) (reset_processes_idem procs n) e more in
      (
        r ∷ results,
        ap
              (λ fresh.
                and_then (run_algorithm qsort files stack fuel memory args fresh n name)
                  λ (result, kept).
                    and_then (compare_loop qsort files stack fuel memory args names kept n)
                      λ rs. done (result ∷ rs))
              same
            ∙ ap
                (λ o. and_then o λ (result, kept).
                  and_then (compare_loop qsort files stack fuel memory args names kept n)
                    λ rs. done (result ∷ rs))
                p
            ∙ ap (λ o. and_then o (λ rs. done (r ∷ rs))) q,
        (a, b),
      )

  -- The comparison mode, on processes whose bursts are not negative, whatever state they are in,
  -- with a configuration that does not exit and more fuel than the work and the last arrival: it
  -- returns five results, for FCFS, SJF, STCF, RR and MLFQ in this order. Each run is the one of the
  -- scheduler with that name and starts from a copy of the reset processes in the order given, so no
  -- run sees what an earlier one did; every process has finished in it with its own metrics. The
  -- averages are the exact sums of the turnaround, waiting and response times, worked out from
  -- arrival, burst, start and finish and kept in 32 bits, over the number of processes.
  pub compare_loop-EachOf :
      (config : MlfqConfig)
      → parse_mlfq_config files args.mlfq_config stack.mlfq_config ≡ some config
      → (results : List CompareResult) × (compare_loop qsort files stack fuel memory args algorithms
            procs n
          ≡ done results)
        × EachOf config
            (codes "FCFS" ∷ codes "SJF" ∷ codes "STCF" ∷ codes "RR" ∷ codes "MLFQ" ∷ [])
            results
  compare_loop-EachOf config e = each_known config algorithms procs refl e algorithms-AllKnown
