-- ===== src/Engine/Keeps.antt =====
-- A predicate carried along the loop of `run_simulation` in src/core/scheduler.c.
use cpu_scheduler_simulator.Base.{
  ℕ, zero, suc, ◌+◌, ◌<◌, ◌≡◌, sym, ap, ◌∙◌, subst, none, some, arith, Bool-cases, inl, inr, ltb,
  ltb→lt,
}
use cpu_scheduler_simulator.State.{SchedulerState, SchedulerPolicy}
use cpu_scheduler_simulator.Engine.{
  set_running, call_hook, finish_run, step_simulation, simulation_loop, run_simulation,
}
use cpu_scheduler_simulator.Engine.View.{View, view}
use cpu_scheduler_simulator.Engine.Contract.{PolicyContract}
use cpu_scheduler_simulator.Engine.Quiet.{work}
use cpu_scheduler_simulator.Engine.Unit.{Inv, ArrivesBy}
use cpu_scheduler_simulator.Engine.Run.{
  step_simulation-Advanced, simulation_loop-finishes, ArrivesBy-SameLabels,
}
use cpu_scheduler_simulator.Engine.Total.{Fresh, Fresh-Inv, finish_run-ends}

module _ {ℓ} {policy : SchedulerPolicy} (K : PolicyContract policy) (latest : ℕ) (P : View → Type ℓ)
    (keep : (s : SchedulerState) (c : ℕ)
      → Inv policy K s c
      → c < s.num_processes
      → ArrivesBy latest (view s)
      → P (view s)
      → P (view (step_simulation s policy c).0)) where
  simulation_loop-keeps :
      (fuel : ℕ) (s t : SchedulerState) (c : ℕ)
      → Inv policy K s c
      → ArrivesBy latest (view s)
      → simulation_loop fuel policy s c ≡ some t
      → P (view s)
      → P (view t)
  unfolding simulation_loop
  simulation_loop-keeps zero s t c inv by e h = cc e
  simulation_loop-keeps (suc fuel) s t c inv by e h = elim (Bool-cases (ltb c s.num_processes)) [
    | inl more ↦
        let lt = ltb→lt c s.num_processes more in
        let st = step_simulation-Advanced K latest s c inv lt by in
        simulation_loop-keeps fuel (step_simulation s policy c).0 t (step_simulation s policy c).1
          st.inv (ArrivesBy-SameLabels latest (view s) _ st.labels by)
          (rw (more, simulation_loop) at e) (keep s c inv lt by h)
    | inr over ↦ subst (λ o. P (view o)) (some-inj (rw (over, simulation_loop) at e)) h
  ]
    where
      some-inj : {a b : SchedulerState} → some a ≡ some b → a ≡ b
      some-inj p = cc p

  pub run_simulation-keeps :
      (fuel : ℕ) (s : SchedulerState)
      → Fresh s
      → K.Suits (set_running s none)
      → ArrivesBy latest (view s)
      → work (view s) + latest < fuel
      → P (view (set_running s none))
      → (t : SchedulerState) × (run_simulation fuel s policy ≡ some t) × P (view t)
  unfolding run_simulation
  run_simulation-keeps fuel s f suits by lt h =
      let u = set_running s none in
      let e = K.init_view u in
      let inv = Fresh-Inv K s f suits in
      let by' = subst (ArrivesBy latest) (sym e) by in
      let (t, d, r, done, all, labels, clock) =
        simulation_loop-finishes K latest fuel (call_hook policy.on_init u) 0 inv by'
          (omega (arith, ap work e, ap (λ v. v.current_time) e, f.at_zero)) in
      let (end, finishes, seen) = finish_run-ends K fuel t d (omega (arith, lt)) done all in
      (
        end,
        ap (finish_run fuel policy.on_finish) r ∙ finishes,
        subst P (sym seen) (
            simulation_loop-keeps fuel (call_hook policy.on_init u) t 0 inv by' r
              (subst P (sym e) h)),
      )
