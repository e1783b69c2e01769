-- ===== src/Engine/Logged.antt =====
-- The log of a whole run of src/core/scheduler.c.
use cpu_scheduler_simulator.Base.{
  ℕ, ◌+◌, ◌<◌, ◌≡◌, ◌⊎◌, refl, sym, ap, ◌∙◌, subst, none, some, List, [], ◌∷◌, ◌==◌, length, arith,
  Bool-cases, inl, inr,
}
use cpu_scheduler_simulator.State.{SchedulerState, SchedulerPolicy}
use cpu_scheduler_simulator.Engine.{
  handle_completions, handle_arrivals, handle_tick, handle_dispatch, before_execution, finish_unit,
  step_simulation, set_running, run_simulation,
}
use cpu_scheduler_simulator.Engine.View.{View, view}
use cpu_scheduler_simulator.Engine.Contract.{PolicyContract}
use cpu_scheduler_simulator.Engine.Quiet.{
  Label, SameLabels, Quiet-SameLabels, SameLabels-trans, work,
}
use cpu_scheduler_simulator.Engine.Stages.{running_in_range}
use cpu_scheduler_simulator.Engine.Dispatch.{Dispatched}
use cpu_scheduler_simulator.Engine.Step.{Arrived, handle_arrivals-Arrived, tick_dispatch-Dispatched}
use cpu_scheduler_simulator.Engine.Unit.{Inv, ArrivesBy, handle_completions-Completed}
use cpu_scheduler_simulator.Engine.Log.{
  log_of, IsEntry, Adds, unit_end-Adds, handle_completions-log, handle_arrivals-log,
  handle_tick-log, handle_dispatch-log,
}
use cpu_scheduler_simulator.Engine.Run.{step_simulation-Advanced}
use cpu_scheduler_simulator.Engine.Keeps.{run_simulation-keeps}
use cpu_scheduler_simulator.Engine.Total.{Fresh}

IsEntry-SameLabels : (v w : View) (e : List ℕ) → SameLabels v w → IsEntry w e → IsEntry v e
IsEntry-SameLabels v w e l (inl p) = inl p
IsEntry-SameLabels v w e l (inr (i, h, p)) =
    inr (i, rw l.num_same at h, p ∙ ap (λ (k : Label). k.pid) (l.label_same i))

abbrev pub All : View → List (List ℕ) → Type 0
All v [] = Unit {0}
All v (e ∷ es) = IsEntry v e × All v es

-- The log is made of one entry for each time unit that has passed.
abbrev pub Logged : View → Type 0
Logged v =
    (entries : List (List ℕ)) × (length entries ≡ v.current_time)
    × (v.gantt_log ≡ some (log_of entries))
    × All v entries

pub All-SameLabels : (v w : View) (es : List (List ℕ)) → SameLabels w v → All v es → All w es
All-SameLabels v w [] l h = tt
All-SameLabels v w (e ∷ es) l (a, b) = (IsEntry-SameLabels w v e l a, All-SameLabels v w es l b)

pub SameLabels-sym : (v w : View) → SameLabels v w → SameLabels w v
SameLabels-sym v w l = record { num_same = sym l.num_same; label_same = λ i. sym (l.label_same i) }

Logged-Adds :
    (v : View) (t : SchedulerState) → SameLabels v (view t) → Adds v t → Logged v → Logged (view t)
Logged-Adds v t l (e, is, clock, log) (entries, len, same, all) = (
  e ∷ entries,
  omega (arith, len, clock),
  log (log_of entries) same,
  All-SameLabels v (view t) (e ∷ entries) (SameLabels-sym v (view t) l) (is, all),
)

module _ {policy : SchedulerPolicy} (K : PolicyContract policy) where
  -- The log and the clock when stages 2 to 6 have run.
  unit-Adds :
      (s : SchedulerState) (c : ℕ)
      → Inv policy K s c
      → Adds (view s) (finish_unit (before_execution s policy) c).0
  unfolding before_execution finish_unit
  unit-Adds s c inv =
      let (e, is, clock, log) =
        unit_end-Adds t c t.running_process (λ r run. running_in_range t c r run d.sound) in
      (
        e,
        IsEntry-SameLabels (view s) (view t) e
            (SameLabels-trans (view s) (view a) (view t) (Quiet-SameLabels _ _ ar.quiet)
              (Quiet-SameLabels _ _ d.quiet))
            is,
        omega (arith, clock, ar.quiet.time_same, d.quiet.time_same),
        λ l h. log l (same_log ∙ h),
      )
    where
      a : SchedulerState
      a = handle_arrivals s policy

      b : SchedulerState
      b = handle_tick a policy

      t : SchedulerState
      t = handle_dispatch b policy

      ar : Arrived policy K (view s) c a
      ar = handle_arrivals-Arrived K s c inv.sound inv.tracks inv.calm

      d : Dispatched policy K (view a) c t
      d = tick_dispatch-Dispatched K a c ar.sound ar.tracks ar.calm

      same_log : t.gantt_log ≡ s.gantt_log
      same_log =
          handle_dispatch-log K b
          ∙ handle_tick-log K a c ar.sound ar.tracks ar.calm
          ∙ handle_arrivals-log K s

  Logged-unit :
      (s u t : SchedulerState)
      → SameLabels (view s) (view u)
      → u.gantt_log ≡ s.gantt_log
      → u.current_time ≡ s.current_time
      → SameLabels (view s) (view t)
      → (u ≡ t) ⊎ Adds (view u) t
      → Logged (view s)
      → Logged (view t)
  Logged-unit s u t l log clock all same (entries, len, text, ok) = elim same [
    | inl e ↦ subst (λ o. Logged (view o)) e now
    | inr adds ↦
        Logged-Adds (view u) t
          (SameLabels-trans (view u) (view s) (view t) (SameLabels-sym (view s) (view u) l) all)
          adds now
  ]
    where
      now : Logged (view u)
      now = (
        entries,
        len ∙ sym clock,
        log ∙ text,
        All-SameLabels (view s) (view u) entries (SameLabels-sym (view s) (view u) l) ok,
      )

  step_simulation-Adds :
      (s : SchedulerState) (c : ℕ)
      → Inv policy K s c
      → let u = (handle_completions s c).0 in
        (u ≡ (step_simulation s policy c).0) ⊎ Adds (view u) (step_simulation s policy c).0
  unfolding step_simulation
  step_simulation-Adds s c inv =
      let u = (handle_completions s c).0 in
      let d = (handle_completions s c).1 in
      elim (Bool-cases (d == s.num_processes)) [
        | inl all ↦ rw all (inl refl)
        | inr more ↦ rw more (inr (unit-Adds u d (handle_completions-Completed K s c inv).inv))
      ]

  -- From a fresh state with an empty log, under any policy that keeps its contract and with more
  -- fuel than the work and the last arrival take, the run returns a state whose log is made of one
  -- entry for each time unit that passed, each of them the mark of an idle CPU or a process's name.
  pub run_simulation-Logged :
      (fuel latest : ℕ) (s : SchedulerState)
      → Fresh s
      → K.Suits (set_running s none)
      → ArrivesBy latest (view s)
      → work (view s) + latest < fuel
      → s.gantt_log ≡ some []
      → (t : SchedulerState) × (run_simulation fuel s policy ≡ some t) × Logged (view t)
  run_simulation-Logged fuel latest s f suits by lt empty =
      run_simulation-keeps K latest Logged
        (λ t c inv more arrives h.
          let done = handle_completions-Completed K t c inv in
          Logged-unit t (handle_completions t c).0 (step_simulation t policy c).0 done.labels
            (handle_completions-log t c) done.time_same
            (step_simulation-Advanced K latest t c inv more arrives).labels
            (step_simulation-Adds t c inv) h)
        fuel s f suits by lt ([], sym f.at_zero, empty, tt)
