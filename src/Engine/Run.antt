-- ===== src/Engine/Run.antt =====
-- `step_simulation` and the loop of `run_simulation` in src/core/scheduler.c, under a policy with a
-- contract.
use cpu_scheduler_simulator.Base.{
  ℕ, zero, suc, ◌+◌, ◌≤◌, ◌<◌, ◌≡◌, ◌≢◌, refl, ap, ◌∙◌, false, some, ◌==◌, ==_iff, arith,
  Bool-cases, inl, inr, ltb, ltb→lt, ltb→le,
}
use cpu_scheduler_simulator.State.{SchedulerState, SchedulerPolicy}
use cpu_scheduler_simulator.Engine.{
  handle_completions, before_execution, finish_unit, step_simulation, simulation_loop,
  handle_arrivals, handle_tick, handle_dispatch,
}
use cpu_scheduler_simulator.Engine.View.{View, view}
use cpu_scheduler_simulator.Engine.Contract.{PolicyContract}
use cpu_scheduler_simulator.Engine.Quiet.{
  Quiet, Label, SameLabels, SameLabels-refl, SameLabels-trans, Quiet-work, Quiet-trans,
  Quiet-SameLabels,
}
use cpu_scheduler_simulator.Engine.Dispatch.{Dispatched}
use cpu_scheduler_simulator.Engine.Step.{Arrived, handle_arrivals-Arrived, tick_dispatch-Dispatched}
use cpu_scheduler_simulator.Engine.Unit.{
  Inv, ArrivesBy, Advanced, Completed, measure, handle_completions-Completed,
}
use cpu_scheduler_simulator.Engine.Finish.{unit_end-Advanced}

pub ArrivesBy-SameLabels :
    (latest : ℕ) (v w : View) → SameLabels v w → ArrivesBy latest v → ArrivesBy latest w
ArrivesBy-SameLabels latest v w l by i h =
    rw (ap (λ (k : Label). k.arrival_time) (l.label_same i)) (by i (rw l.num_same at h))

==-false : (a b : ℕ) → (a == b) ≡ false → a ≢ b
==-false a b h e = ground arith

completions_le : (s : SchedulerState) (c : ℕ) → c ≤ (handle_completions s c).1
unfolding handle_completions
completions_le s c = ground arith

module _ {policy : SchedulerPolicy} (K : PolicyContract policy) (latest : ℕ) where
  unit-Advanced :
      (s : SchedulerState) (c : ℕ)
      → Inv policy K s c
      → c ≢ s.num_processes
      → ArrivesBy latest (view s)
      → Advanced policy K latest s (finish_unit (before_execution s policy) c)
  unfolding before_execution finish_unit
  unit-Advanced s c inv ne by = record {
    inv = end.inv;
    labels = SameLabels-trans (view s) (view t) _ (Quiet-SameLabels _ _ quiet) end.labels;
    less = omega (arith, end.less, Quiet-work (view s) (view t) quiet, quiet.time_same);
    clock = omega (arith, end.clock, quiet.time_same);
  }
    where
      a : SchedulerState
      a = handle_arrivals s policy

      t : SchedulerState
      t = handle_dispatch (handle_tick a policy) policy

      ar : Arrived policy K (view s) c a
      ar = handle_arrivals-Arrived K s c inv.sound inv.tracks inv.calm

      d : Dispatched policy K (view a) c t
      d = tick_dispatch-Dispatched K a c ar.sound ar.tracks ar.calm

      quiet : Quiet (view s) (view t)
      quiet = Quiet-trans (view s) (view a) (view t) ar.quiet d.quiet

      end : Advanced policy K latest t (finish_unit t c)
      end =
          unit_end-Advanced K latest a t c ar.none_due ar.sound d (λ e. ne (e ∙ quiet.num_same))
            (ArrivesBy-SameLabels latest (view s) (view a) (Quiet-SameLabels _ _ ar.quiet) by)
            t.running_process refl

  -- Under a policy with a contract, from a state with the invariant, an unfinished simulation and no
  -- arrival after `latest`, a time unit keeps the invariant of the processes, of what the policy
  -- tracks and of the completion counter, changes no process's name, arrival or burst, lowers the
  -- measure of work left and time to the last arrival, and moves the clock by at most one.
  pub step_simulation-Advanced :
      (s : SchedulerState) (c : ℕ)
      → Inv policy K s c
      → c < s.num_processes
      → ArrivesBy latest (view s)
      → Advanced policy K latest s (step_simulation s policy c)
  unfolding step_simulation
  step_simulation-Advanced s c inv lt by = elim (Bool-cases (d == s.num_processes)) [
    | inl all ↦ rw all (record {
      inv = done.inv;
      labels = done.labels;
      less = omega (arith, done.work_done, done.time_same, (==_iff d s.num_processes).0 all);
      clock = omega (arith, done.time_same);
    })
    | inr more ↦ rw more (onward (λ e. ==-false d s.num_processes more (e ∙ done.labels.num_same)))
  ]
    where
      u : SchedulerState
      u = (handle_completions s c).0

      d : ℕ
      d = (handle_completions s c).1

      done : Completed policy K s c (u, d)
      done = handle_completions-Completed K s c inv

      onward :
          d ≢ u.num_processes
          → Advanced policy K latest s (finish_unit (before_execution u policy) d)
      onward ne =
          let by' = ArrivesBy-SameLabels latest (view s) (view u) done.labels by in
          let rest = unit-Advanced u d done.inv ne by' in
          record {
            inv = rest.inv;
            labels = SameLabels-trans (view s) (view u) _ done.labels rest.labels;
            less = omega (arith, rest.less, done.work_done, done.time_same, completed_grows);
            clock = omega (arith, rest.clock, done.time_same);
          }
        where
          completed_grows : c ≤ d
          completed_grows = completions_le s c

  pub simulation_loop-finishes :
      (fuel : ℕ) (s : SchedulerState) (c : ℕ)
      → Inv policy K s c
      → ArrivesBy latest (view s)
      → measure latest s < fuel
      → (t : SchedulerState) × (d : ℕ) × (simulation_loop fuel policy s c ≡ some t)
        × Inv policy K t d
        × (t.num_processes ≤ d)
        × SameLabels (view s) (view t)
        × (t.current_time ≤ s.current_time + measure latest s)
  unfolding simulation_loop
  simulation_loop-finishes zero s c inv by lt = absurd (omega arith)
  simulation_loop-finishes (suc fuel) s c inv by lt = elim (Bool-cases (ltb c s.num_processes)) [
    | inl more ↦
        let st = step_simulation-Advanced s c inv (ltb→lt c s.num_processes more) by in
        let (t, d, e, end, all, labels, clock) =
          simulation_loop-finishes fuel (step_simulation s policy c).0
            (step_simulation s policy c).1 st.inv
            (ArrivesBy-SameLabels latest (view s) _ st.labels by) (omega (arith, st.less)) in
        (
          t,
          d,
          rw (more, simulation_loop) e,
          end,
          all,
          SameLabels-trans (view s) _ (view t) st.labels labels,
          omega (arith, clock, st.clock, st.less),
        )
    | inr over ↦ (
      s,
      c,
      rw (over, simulation_loop) refl,
      inv,
      ltb→le c s.num_processes over,
      SameLabels-refl (view s),
      omega arith,
    )
  ]
