-- ===== src/Engine/Contract.antt =====
-- The interface between src/core/scheduler.c and a policy of src/algorithms: what the engine's proofs
-- ask of a policy. `Tracks s` is meant to say that the policy's own structures hold exactly the ready
-- processes of `s`; `Calm` is what is asked while processes arrive.
use cpu_scheduler_simulator.Base.{ℕ, ◌<◌, ◌≡◌, true, false, Option, none, some}
use cpu_scheduler_simulator.Process.{Process, running, not_arrived, is_ready}
use cpu_scheduler_simulator.State.{SchedulerState, SchedulerPolicy}
use cpu_scheduler_simulator.Engine.{
  modify_process, mark_ready, call_on_arrival, arrive, handle_tick, call_next_process, call_hook,
  call_finish,
}
use cpu_scheduler_simulator.Engine.View.{view}

abbrev pub mark_running : Process → Process
mark_running p = record p { state = running }

-- The two states agree on what a policy tracks.
pub record SameReady (s t : SchedulerState) : Type 0 where
  pub policy_same : t.policy_state ≡ s.policy_state
  pub num_same : t.num_processes ≡ s.num_processes
  pub priority_same : (i : ℕ) → (t.processes i).priority ≡ (s.processes i).priority
  pub ready_same :
      (i : ℕ)
      → i < s.num_processes
      → is_ready (t.processes i).state ≡ is_ready (s.processes i).state

-- The choice is a ready process, or there is none.
abbrev pub Picks : (SchedulerState → Type 0) → SchedulerState → Option ℕ × SchedulerState → Type 0
Picks Tracks s (none, t) =
    ((i : ℕ) → i < s.num_processes → is_ready (s.processes i).state ≡ false) × Tracks t
Picks Tracks s (some k, t) =
    (k < s.num_processes)
    × (is_ready (s.processes k).state ≡ true)
    × Tracks (modify_process t k mark_running)

pub record PolicyContract (policy : SchedulerPolicy) : Type 1 where
  pub Suits : SchedulerState → Type 0
  pub Tracks : SchedulerState → Type 0
  pub Calm : SchedulerState → Type 0
  pub stable : (s t : SchedulerState) → SameReady s t → Tracks s → Tracks t
  pub calm_start : (s : SchedulerState) → s.preempt_requested ≡ false → Calm s
  pub init_view : (s : SchedulerState) → view (call_hook policy.on_init s) ≡ view s
  pub init_preempt :
      (s : SchedulerState) → (call_hook policy.on_init s).preempt_requested ≡ s.preempt_requested
  pub init_tracks :
      (s : SchedulerState)
      → Suits s
      → ((i : ℕ) → i < s.num_processes → is_ready (s.processes i).state ≡ false)
      → Tracks (call_hook policy.on_init s)
  pub arrive_view : (s : SchedulerState) (i : ℕ) → view (call_on_arrival policy s i) ≡ view s
  pub arrive_calm : (s : SchedulerState) (i : ℕ) → Calm s → Calm (arrive policy s i)
  pub arrive_tracks :
      (s : SchedulerState) (i : ℕ)
      → i < s.num_processes
      → (s.processes i).state ≡ not_arrived
      → Tracks s
      → Tracks (call_on_arrival policy (modify_process s i mark_ready) i)
  pub tick_view :
      (s : SchedulerState) (r : ℕ)
      → r < s.num_processes
      → s.running_process ≡ some r
      → (s.processes r).state ≡ running
      → Calm s
      → Tracks s
      → view (handle_tick s policy) ≡ view s
  pub tick_keeps :
      (s : SchedulerState) (r : ℕ)
      → r < s.num_processes
      → s.running_process ≡ some r
      → (s.processes r).state ≡ running
      → Calm s
      → Tracks s
      → (handle_tick s policy).preempt_requested ≡ false
      → Tracks (handle_tick s policy)
  pub tick_yields :
      (s : SchedulerState) (r : ℕ)
      → r < s.num_processes
      → s.running_process ≡ some r
      → (s.processes r).state ≡ running
      → Calm s
      → Tracks s
      → (handle_tick s policy).preempt_requested ≡ true
      → Tracks (modify_process (handle_tick s policy) r mark_ready)
  pub next_view : (s : SchedulerState) → view (call_next_process policy s).1 ≡ view s
  pub next_picks : (s : SchedulerState) → Tracks s → Picks Tracks s (call_next_process policy s)
  pub finish :
      (fuel : ℕ) (s : SchedulerState)
      → 0 < fuel
      → Tracks s
      → ((i : ℕ) → i < s.num_processes → is_ready (s.processes i).state ≡ false)
      → (t : SchedulerState) × (call_finish fuel policy.on_finish s ≡ some t) × (view t ≡ view s)
