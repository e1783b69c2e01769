-- ===== src/Engine/Total.antt =====
-- `run_simulation` of src/core/scheduler.c as a whole, from a fresh state.
use native.Mathlib.Decide.{ℕ_discrete}
use cpu_scheduler_simulator.Base.{
  ℕ, zero, suc, ◌+◌, ◌≤◌, ◌<◌, ◌≡◌, refl, sym, ap, ◌∙◌, subst, false, Option, none, some, arith,
  negsuc, neg_part, sum_to,
}
use cpu_scheduler_simulator.Process.{Process, not_arrived, finished, is_ready}
use cpu_scheduler_simulator.State.{SchedulerState, SchedulerPolicy}
use cpu_scheduler_simulator.Engine.{set_running, call_hook, finish_run, run_simulation}
use cpu_scheduler_simulator.Engine.View.{view, core}
use cpu_scheduler_simulator.Engine.Contract.{PolicyContract}
use cpu_scheduler_simulator.Engine.Sound.{Sound, Good, Done, finished_bit}
use cpu_scheduler_simulator.Engine.Quiet.{work, SameLabels}
use cpu_scheduler_simulator.Engine.Unit.{Inv, ArrivesBy}
use cpu_scheduler_simulator.Engine.Run.{simulation_loop-finishes}

-- A process as the parsers and the reset of the comparison mode leave it, with a burst that is not
-- negative.
pub record Untouched (p : Process) : Type 0 where
  pub burst_nonneg : neg_part p.burst_time ≡ 0
  pub all_left : p.remaining_time ≡ p.burst_time
  pub no_start : p.start_time ≡ negsuc 0
  pub waits : p.state ≡ not_arrived

-- A state that is ready for `run_simulation`.
pub record Fresh (s : SchedulerState) : Type 0 where
  pub at_zero : s.current_time ≡ 0
  pub none_arrived : s.next_arrival_idx ≡ 0
  pub calm : s.preempt_requested ≡ false
  pub untouched : (i : ℕ) → i < s.num_processes → Untouched (s.processes i)

-- From `s` to `t` every process ran to its end, its metrics are right, and the clock took no more
-- than `bound` time units.
pub record Finished (bound : ℕ) (s t : SchedulerState) : Type 0 where
  pub in_time : t.current_time ≤ bound
  pub labels : SameLabels (view s) (view t)
  pub all_finished : (i : ℕ) → i < t.num_processes → (t.processes i).state ≡ finished
  pub all_done : (i : ℕ) → i < t.num_processes → Done t.current_time (core (t.processes i))

sum_to-le : (n : ℕ) (f : ℕ → ℕ) → ((i : ℕ) → f i ≤ 1) → sum_to n f ≤ n
sum_to-le zero f le = omega arith
sum_to-le (suc n) f le = omega (arith, le n, sum_to-le n f le)

all_ones : (n : ℕ) (f : ℕ → ℕ) → ((i : ℕ) → f i ≤ 1) → n ≤ sum_to n f → (i : ℕ) → i < n → f i ≡ 1
all_ones zero f le h i lt = absurd (omega arith)
all_ones (suc n) f le h i lt = elim (ℕ_discrete i n) [
  | yes e ↦ rw e (omega (arith, le n, sum_to-le n f le))
  | no ne ↦ all_ones n f le (omega (arith, le n)) i (omega arith)
]

sum_to-zeros : (n : ℕ) (f : ℕ → ℕ) → ((i : ℕ) → i < n → f i ≡ 0) → sum_to n f ≡ 0
sum_to-zeros zero f h = refl
sum_to-zeros (suc n) f h =
    omega (arith, h n (omega arith), sum_to-zeros n f (λ i p. h i (omega arith)))

Untouched-Good : (i : ℕ) (p : Process) → Untouched p → Good 0 0 none i (core p)
Untouched-Good i p u = ground arith

Good-finished :
    (t idx : ℕ) (run : Option ℕ) (i : ℕ) (p : Process)
    → Good t idx run i p
    → p.state ≡ finished
    → Done t p
Good-finished t idx run i p g e = ground arith

finished_bit-le : (p : Process) → finished_bit p.state ≤ 1
finished_bit-le p = ground arith

finished_bit-one : (p : Process) → finished_bit p.state ≡ 1 → p.state ≡ finished
finished_bit-one p h = ground arith

module _ {policy : SchedulerPolicy} (K : PolicyContract policy) where
  pub Fresh-Inv :
      (s : SchedulerState)
      → Fresh s
      → K.Suits (set_running s none)
      → Inv policy K (call_hook policy.on_init (set_running s none)) 0
  Fresh-Inv s f suits = record {
    sound =
        subst (λ v. Sound v 0) (sym (K.init_view (set_running s none)))
          (record {
            idx_le = rw f.none_arrived (omega arith);
            running_in = tt;
            each = λ i h.
                rw (f.at_zero, f.none_arrived) (Untouched-Good i (s.processes i) (f.untouched i h));
            counted =
                sym (sum_to-zeros s.num_processes _ λ i h. ground (arith, (f.untouched i h).waits));
          });
    tracks =
        K.init_tracks (set_running s none) suits λ i h. ground (arith, (f.untouched i h).waits);
    calm = K.init_preempt (set_running s none) ∙ f.calm;
  }

  all_over :
      (t : SchedulerState) (d : ℕ)
      → Inv policy K t d
      → t.num_processes ≤ d
      → (i : ℕ) → i < t.num_processes
      → (t.processes i).state ≡ finished
  all_over t d inv all i h = finished_bit-one (t.processes i) (
      all_ones t.num_processes _ (λ j. finished_bit-le (t.processes j))
        (omega (arith, all, inv.sound.counted)) i h)

  Inv-Finished :
      (s t : SchedulerState) (d : ℕ)
      → Inv policy K t d
      → t.num_processes ≤ d
      → SameLabels (view s) (view t)
      → (bound : ℕ) → t.current_time ≤ bound
      → Finished bound s t
  Inv-Finished s t d inv all labels bound clock = record {
    in_time = clock;
    labels = labels;
    all_finished = all_over t d inv all;
    all_done = λ i h.
        Good-finished t.current_time t.next_arrival_idx t.running_process i (core (t.processes i))
          (inv.sound.each i h) (all_over t d inv all i h);
  }

  -- The last hook ends, since no process is ready any more.
  pub finish_run-ends :
      (fuel : ℕ) (t : SchedulerState) (d : ℕ)
      → 0 < fuel
      → Inv policy K t d
      → t.num_processes ≤ d
      → (u : SchedulerState) × (finish_run fuel policy.on_finish (some t) ≡ some u)
        × (view u ≡ view t)
  finish_run-ends fuel t d some_fuel inv all =
      K.finish fuel t some_fuel inv.tracks λ i h. ap is_ready (all_over t d inv all i h)

  Finished-view :
      (bound : ℕ) (s t u : SchedulerState)
      → view u ≡ view t
      → Finished bound s t
      → Finished bound s u
  Finished-view bound s t u e f = record {
    in_time = rw (ap (λ v. v.current_time) e) f.in_time;
    labels = subst (SameLabels (view s)) (sym e) f.labels;
    all_finished = λ i h.
        ap (λ v. (v.processes i).state) e
        ∙ f.all_finished i (rw (ap (λ v. v.num_processes) e) at h);
    all_done = λ i h.
        subst (λ v. Done v.current_time (v.processes i)) (sym e)
          (f.all_done i (rw (ap (λ v. v.num_processes) e) at h));
  }

  -- Under a lawful policy, from a fresh state, with more fuel than the work and the last arrival
  -- take: `run_simulation` returns, all its processes have finished, and their metrics are right.
  pub run_simulation-Finished :
      (fuel latest : ℕ) (s : SchedulerState)
      → Fresh s
      → K.Suits (set_running s none)
      → ArrivesBy latest (view s)
      → work (view s) + latest < fuel
      → (t : SchedulerState) × (run_simulation fuel s policy ≡ some t)
        × Finished (work (view s) + latest) s t
  unfolding run_simulation
  run_simulation-Finished fuel latest s f suits by lt =
      let u = set_running s none in
      let e = K.init_view u in
      let (t, d, r, inv, all, labels, clock) =
        simulation_loop-finishes K latest fuel (call_hook policy.on_init u) 0 (Fresh-Inv s f suits)
          (subst (ArrivesBy latest) (sym e) by)
          (omega (arith, ap work e, ap (λ v. v.current_time) e, f.at_zero)) in
      let same = subst (λ v. SameLabels v (view t)) e labels in
      let (end, finishes, seen) = finish_run-ends fuel t d (omega (arith, lt)) inv all in
      (
        end,
        ap (finish_run fuel policy.on_finish) r ∙ finishes,
        Finished-view (work (view s) + latest) s t end seen (
            Inv-Finished s t d inv all
              (record { num_same = same.num_same; label_same = same.label_same })
              (work (view s) + latest)
              (omega (arith, clock, ap work e, ap (λ v. v.current_time) e, f.at_zero))),
      )
