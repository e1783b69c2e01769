-- ===== src/Engine/Unit.antt =====
-- The invariant between two time units of src/core/scheduler.c, the measure of the loop, and stage 1.
use cpu_scheduler_simulator.Base.{
  ℕ, ◌+◌, ◌-◌, ◌≤◌, ◌<◌, ◌≡◌, refl, ◌∙◌, false, Option, none, some, arith, pos, Bool-cases, inl,
  inr, ◌≤ℤ◌, eqb_ℤ,
}
use cpu_scheduler_simulator.Process.{process_finish}
use cpu_scheduler_simulator.State.{SchedulerState, SchedulerPolicy}
use cpu_scheduler_simulator.Engine.{handle_completions, complete, finish_running}
use cpu_scheduler_simulator.Engine.View.{View, view}
use cpu_scheduler_simulator.Engine.Contract.{PolicyContract}
use cpu_scheduler_simulator.Engine.Sound.{Sound}
use cpu_scheduler_simulator.Engine.Quiet.{work, SameLabels, SameLabels-refl}
use cpu_scheduler_simulator.Engine.Stages.{finish_running-Sound, running_is_running}
use cpu_scheduler_simulator.Engine.Progress.{finish_running-work, finish_running-SameLabels}

-- The invariant between two time units.
pub record Inv (policy : SchedulerPolicy) (K : PolicyContract policy) (s : SchedulerState)
    (completed : ℕ) : Type 0 where
  pub sound : Sound (view s) completed
  pub tracks : K.Tracks s
  pub calm : s.preempt_requested ≡ false

-- No process arrives after `latest`.
abbrev pub ArrivesBy : ℕ → View → Type 0
ArrivesBy latest v = (i : ℕ) → i < v.num_processes → (v.processes i).arrival_time ≤ℤ pos latest

-- The work left, and the time until the last arrival.
abbrev pub measure : ℕ → SchedulerState → ℕ
measure latest s = work (view s) + (latest - s.current_time)

pub record Advanced (policy : SchedulerPolicy) (K : PolicyContract policy) (latest : ℕ)
    (s : SchedulerState) (r : SchedulerState × ℕ) : Type 0 where
  pub inv : Inv policy K r.0 r.1
  pub labels : SameLabels (view s) (view r.0)
  pub less : measure latest r.0 < measure latest s
  pub clock : r.0.current_time ≤ s.current_time + 1

-- The counter goes up by the work that a completion is.
pub record Completed (policy : SchedulerPolicy) (K : PolicyContract policy) (s : SchedulerState)
    (c : ℕ) (r : SchedulerState × ℕ) : Type 0 where
  pub inv : Inv policy K r.0 r.1
  pub labels : SameLabels (view s) (view r.0)
  pub time_same : r.0.current_time ≡ s.current_time
  pub work_done : work (view r.0) + r.1 ≡ work (view s) + c

module _ {policy : SchedulerPolicy} (K : PolicyContract policy) where
  pub finish_running-Tracks :
      (s : SchedulerState) (c r : ℕ)
      → s.running_process ≡ some r
      → Sound (view s) c
      → K.Tracks s
      → K.Tracks (finish_running s r)
  unfolding finish_running process_finish
  finish_running-Tracks s c r run ok tracked =
      K.stable s _
        (record {
          policy_same = refl;
          num_same = refl;
          priority_same = λ i. ground arith;
          ready_same = λ i h. ground (arith, running_is_running s c r run ok);
        })
        tracked

  pub finish_running-calm :
      (s : SchedulerState) (r : ℕ) → (finish_running s r).preempt_requested ≡ s.preempt_requested
  unfolding finish_running
  finish_running-calm s r = refl

  finish_running-time :
      (s : SchedulerState) (r : ℕ) → (finish_running s r).current_time ≡ s.current_time
  unfolding finish_running
  finish_running-time s r = refl

  pub finish_running-Completed :
      (s : SchedulerState) (c r : ℕ)
      → s.running_process ≡ some r
      → (s.processes r).remaining_time ≡ pos 0
      → Inv policy K s c
      → Completed policy K s c (finish_running s r, c + 1)
  finish_running-Completed s c r run done inv = record {
    inv = record {
      sound = finish_running-Sound s c r run inv.sound done;
      tracks = finish_running-Tracks s c r run inv.sound inv.tracks;
      calm = finish_running-calm s r ∙ inv.calm;
    };
    labels = finish_running-SameLabels s c r run inv.sound;
    time_same = finish_running-time s r;
    work_done = omega (arith, finish_running-work s c r run inv.sound done);
  }

  complete-Completed :
      (s : SchedulerState) (c : ℕ) (run : Option ℕ)
      → s.running_process ≡ run
      → Inv policy K s c
      → Completed policy K s c (complete s c run)
  unfolding complete
  complete-Completed s c none run inv = record {
    inv = inv;
    labels = SameLabels-refl (view s);
    time_same = refl;
    work_done = refl;
  }
  complete-Completed s c (some r) run inv =
      elim (Bool-cases (eqb_ℤ (s.processes r).remaining_time (pos 0))) [
        | inl done ↦ rw (done, complete) (finish_running-Completed s c r run (ground arith) inv)
        | inr more ↦ rw (more, complete) (complete-Completed_none inv)
      ]
    where
      complete-Completed_none : Inv policy K s c → Completed policy K s c (s, c)
      complete-Completed_none v = record {
        inv = v;
        labels = SameLabels-refl (view s);
        time_same = refl;
        work_done = refl;
      }

  pub handle_completions-Completed :
      (s : SchedulerState) (c : ℕ)
      → Inv policy K s c
      → Completed policy K s c (handle_completions s c)
  unfolding handle_completions
  handle_completions-Completed s c inv = complete-Completed s c s.running_process refl inv
