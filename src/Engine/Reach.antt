-- ===== src/Engine/Reach.antt =====
-- The runs of src/core/scheduler.c as a state machine: the states between two time units, one step
-- for each time unit.
use mathlib.Core.Option
use cpu_scheduler_simulator.Base.{
  ℕ, zero, suc, ◌+◌, ◌-◌, ◌≤◌, ◌<◌, ◌≡◌, refl, sym, ap, subst, none, some, arith, Bool-cases,
  some-inj, inl, inr, ltb, ltb→lt, ltb→le, ◌==◌, true, false,
}
use cpu_scheduler_simulator.State.{SchedulerState, SchedulerPolicy}
use cpu_scheduler_simulator.Engine.{
  set_running, call_hook, call_finish, finish_run, handle_completions, arrival_due, arrive,
  arrivals_loop, handle_arrivals, before_execution, finish_unit, step_simulation, simulation_loop,
  run_simulation,
}
use cpu_scheduler_simulator.Engine.View.{view}
use cpu_scheduler_simulator.Engine.Contract.{PolicyContract}
use cpu_scheduler_simulator.Engine.Quiet.{work, SameLabels, SameLabels-trans}
use cpu_scheduler_simulator.Engine.Unit.{Inv, ArrivesBy, measure}
use cpu_scheduler_simulator.Engine.Run.{step_simulation-Advanced, ArrivesBy-SameLabels}
use cpu_scheduler_simulator.Engine.Total.{Fresh, Fresh-Inv}

-- From `s`, the run is in the state `t` between two time units, with `c` processes completed.
pub data Reached (policy : SchedulerPolicy) (s : SchedulerState) : SchedulerState → ℕ → Type 0 where
  begin : Reached policy s (call_hook policy.on_init (set_running s none)) 0
  unit :
      {t u : SchedulerState} {c d : ℕ}
      → Reached policy s t c
      → c < t.num_processes
      → step_simulation t policy c ≡ (u, d)
      → Reached policy s u d

-- What is kept by every time unit holds in every state.
pub Reached-keeps {ℓ} :
    {policy : SchedulerPolicy} {s t : SchedulerState} {c : ℕ} (P : SchedulerState → ℕ → Type ℓ)
    → P (call_hook policy.on_init (set_running s none)) 0
    → ((u : SchedulerState) (d : ℕ)
        → d < u.num_processes
        → P u d
        → P (step_simulation u policy d).0 (step_simulation u policy d).1)
    → Reached policy s t c
    → P t c
Reached-keeps P h keep begin = h
Reached-keeps P h keep (unit {t} {u} {c} {d} r lt e) =
    subst (λ p. P p.0 p.1) e (keep t c lt (Reached-keeps P h keep r))

-- A time unit ends after its first stage if that completes the last process.
pub step_simulation-stages {ℓ} :
    (P : SchedulerState → ℕ → Type ℓ) (policy : SchedulerPolicy) (s : SchedulerState) (c : ℕ)
    → P (handle_completions s c).0 (handle_completions s c).1
    → (((handle_completions s c).1 == s.num_processes) ≡ false
        → P
            (finish_unit
              (before_execution (handle_completions s c).0 policy)
              (handle_completions s c).1).0
            (finish_unit
              (before_execution (handle_completions s c).0 policy)
              (handle_completions s c).1).1)
    → P (step_simulation s policy c).0 (step_simulation s policy c).1
unfolding step_simulation
step_simulation-stages P policy s c early late =
    elim (Bool-cases ((handle_completions s c).1 == s.num_processes)) [
      | inl all ↦ rw all early
      | inr more ↦ rw more (late more)
    ]

arrivals_loop-keeps {ℓ} :
    (P : SchedulerState → Type ℓ) (policy : SchedulerPolicy)
    → ((u : SchedulerState) → arrival_due u ≡ true → P u → P (arrive policy u u.next_arrival_idx))
    → (rounds : ℕ) (s : SchedulerState) → P s
    → P (arrivals_loop rounds policy s)
unfolding arrivals_loop
arrivals_loop-keeps P policy keep zero s h = h
arrivals_loop-keeps P policy keep (suc rounds) s h = elim (Bool-cases (arrival_due s)) [
  | inl due ↦
      rw (due, arrivals_loop)
        (arrivals_loop-keeps P policy keep rounds (arrive policy s s.next_arrival_idx)
          (keep s due h))
  | inr over ↦ rw (over, arrivals_loop) h
]

-- What is kept by the arrival of a process that is due.
pub handle_arrivals-keeps {ℓ} :
    (P : SchedulerState → Type ℓ) (policy : SchedulerPolicy)
    → ((u : SchedulerState) → arrival_due u ≡ true → P u → P (arrive policy u u.next_arrival_idx))
    → (s : SchedulerState) → P s
    → P (handle_arrivals s policy)
unfolding handle_arrivals
handle_arrivals-keeps P policy keep s h =
    arrivals_loop-keeps P policy keep (s.num_processes - s.next_arrival_idx) s h

-- The state that the loop returns is one of the run.
simulation_loop-Reached :
    {policy : SchedulerPolicy} {s : SchedulerState} (fuel : ℕ) (t u : SchedulerState) (c : ℕ)
    → Reached policy s t c
    → simulation_loop fuel policy t c ≡ some u
    → (d : ℕ) × Reached policy s u d × (u.num_processes ≤ d)
unfolding simulation_loop
simulation_loop-Reached zero t u c r e = cc e
simulation_loop-Reached {policy} {s} (suc fuel) t u c r e =
    elim (Bool-cases (ltb c t.num_processes)) [
      | inl more ↦
          simulation_loop-Reached fuel (step_simulation t policy c).0 u
            (step_simulation t policy c).1 (unit r (ltb→lt c t.num_processes more) refl)
            (rw (more, simulation_loop) at e)
      | inr over ↦
          let same = some-inj t u (rw (over, simulation_loop) at e) in
          (
            c,
            subst (λ v. Reached policy s v c) same r,
            subst (λ (v : SchedulerState). v.num_processes ≤ c) same
                (ltb→le c t.num_processes over),
          )
    ]

-- What a run returns is the end of its last time unit, after the policy's last hook.
pub run_simulation-Reached :
    (policy : SchedulerPolicy) (fuel : ℕ) (s u : SchedulerState)
    → run_simulation fuel s policy ≡ some u
    → (t : SchedulerState) × (d : ℕ) × Reached policy s t d
      × (t.num_processes ≤ d)
      × (call_finish fuel policy.on_finish t ≡ some u)
unfolding run_simulation
run_simulation-Reached policy fuel s u e =
    finish (simulation_loop fuel policy (call_hook policy.on_init (set_running s none)) 0) refl e
  where
    finish :
        (o : Option.Option SchedulerState)
        → simulation_loop fuel policy (call_hook policy.on_init (set_running s none)) 0 ≡ o
        → finish_run fuel policy.on_finish o ≡ some u
        → (t : SchedulerState) × (d : ℕ) × Reached policy s t d
          × (t.num_processes ≤ d)
          × (call_finish fuel policy.on_finish t ≡ some u)
    finish none p q = cc q
    finish (some t) p q =
        let (d, r, all) =
          simulation_loop-Reached fuel (call_hook policy.on_init (set_running s none)) t 0 begin
            p in
        (t, d, r, all, q)

-- What holds in every state of a run: the invariant, the same inputs as at the start, and a clock
-- that leaves time for what is still to do.
pub record Underway (policy : SchedulerPolicy) (K : PolicyContract policy) (latest : ℕ)
    (s t : SchedulerState) (c : ℕ) : Type 0 where
  pub inv : Inv policy K t c
  pub labels : SameLabels (view s) (view t)
  pub by : ArrivesBy latest (view t)
  pub in_time : t.current_time + measure latest t ≤ work (view s) + latest

module _ {policy : SchedulerPolicy} (K : PolicyContract policy) (latest : ℕ) (s : SchedulerState)
    (f : Fresh s) (suits : K.Suits (set_running s none)) (by : ArrivesBy latest (view s)) where
  pub begin-Underway : Underway policy K latest s (call_hook policy.on_init (set_running s none)) 0
  begin-Underway =
      let e = K.init_view (set_running s none) in
      record {
        inv = Fresh-Inv K s f suits;
        labels =
            subst (SameLabels (view s)) (sym e)
              (record { num_same = refl; label_same = λ i. refl });
        by = subst (ArrivesBy latest) (sym e) by;
        in_time = omega (arith, ap work e, ap (λ v. v.current_time) e, f.at_zero);
      }

  pub unit-Underway :
      (t : SchedulerState) (c : ℕ)
      → c < t.num_processes
      → Underway policy K latest s t c
      → Underway policy K latest s (step_simulation t policy c).0 (step_simulation t policy c).1
  unit-Underway t c lt w =
      let st = step_simulation-Advanced K latest t c w.inv lt w.by in
      record {
        inv = st.inv;
        labels = SameLabels-trans (view s) (view t) _ w.labels st.labels;
        by = ArrivesBy-SameLabels latest (view t) _ st.labels w.by;
        in_time = omega (arith, w.in_time, st.less, st.clock);
      }

  pub Reached-Underway :
      (t : SchedulerState) (c : ℕ) → Reached policy s t c → Underway policy K latest s t c
  Reached-Underway t c r = Reached-keeps (Underway policy K latest s) begin-Underway unit-Underway r
