-- ===== src/Policy/Runs.antt =====
-- The five entry points of src/core/policy.c, each from its own policy's contract.
use cpu_scheduler_simulator.Base.{ℕ, ◌+◌, ◌<◌, ◌≡◌, refl, Option, some, ℤ}
use cpu_scheduler_simulator.State.{SchedulerState, MlfqConfig}
use cpu_scheduler_simulator.Engine.View.{view}
use cpu_scheduler_simulator.Engine.Quiet.{work}
use cpu_scheduler_simulator.Engine.Unit.{ArrivesBy}
use cpu_scheduler_simulator.Engine.Total.{Fresh, Finished, run_simulation-Finished}
use cpu_scheduler_simulator.Engine.Uninterrupted.{run_simulation-switches}
use cpu_scheduler_simulator.Policy.Registry.{
  schedule_fcfs, schedule_sjf, schedule_stcf, schedule_rr, schedule_mlfq,
}
use cpu_scheduler_simulator.Policy.Levels.{OnLevels}
use cpu_scheduler_simulator.Policy.Scanning.{
  fcfs_contract, sjf_contract, stcf_contract, fcfs_suits, sjf_suits, stcf_suits,
}
use cpu_scheduler_simulator.Policy.RoundRobin.{rr_contract, rr_suits}
use cpu_scheduler_simulator.Policy.MultiLevelContract.{mlfq_contract, mlfq_suits}

-- The run returns a state in which all is finished, within the work and the last arrival.
abbrev pub Ends : SchedulerState → ℕ → Option SchedulerState → Type 0
Ends s latest r = (t : SchedulerState) × (r ≡ some t) × Finished (work (view s) + latest) s t

-- The run returns a state with as many context switches counted as at the start.
abbrev pub Uninterrupted : SchedulerState → Option SchedulerState → Type 0
Uninterrupted s r = (t : SchedulerState) × (r ≡ some t) × (t.context_switches ≡ s.context_switches)

-- The state with the two fields of the configuration that the last two entry points write.
abbrev pub retuned : SchedulerState → ℤ → MlfqConfig → SchedulerState
retuned s quantum config = record s {
  config = record s.config { quantum = quantum; mlfq_config = config };
}

pub retuned-Fresh :
    (s : SchedulerState) (quantum : ℤ) (config : MlfqConfig)
    → Fresh s
    → Fresh (retuned s quantum config)
retuned-Fresh s quantum config f = record {
  at_zero = f.at_zero;
  none_arrived = f.none_arrived;
  calm = f.calm;
  untouched = f.untouched;
}

retuned-Ends :
    (s : SchedulerState) (quantum : ℤ) (config : MlfqConfig) (latest : ℕ)
    (r : Option SchedulerState)
    → Ends (retuned s quantum config) latest r
    → Ends s latest r
retuned-Ends s quantum config latest r (t, e, f) = (
  t,
  e,
  record {
    in_time = f.in_time;
    labels = record { num_same = f.labels.num_same; label_same = f.labels.label_same };
    all_finished = f.all_finished;
    all_done = f.all_done;
  },
)

module _ (fuel latest : ℕ) (s : SchedulerState) (fresh : Fresh s) (by : ArrivesBy latest (view s))
    (enough : work (view s) + latest < fuel) where
  -- First come, first served, from a fresh state and with more fuel than the work and the last
  -- arrival: the run returns, every process has finished with its own metrics, in that time.
  pub schedule_fcfs-Ends : Ends s latest (schedule_fcfs fuel s)
  unfolding schedule_fcfs
  schedule_fcfs-Ends =
      run_simulation-Finished fcfs_contract fuel latest s fresh (fcfs_suits _) by enough

  -- Shortest job first, from a fresh state and with more fuel than the work and the last arrival:
  -- the run returns, every process has finished with its own metrics, in that time.
  pub schedule_sjf-Ends : Ends s latest (schedule_sjf fuel s)
  unfolding schedule_sjf
  schedule_sjf-Ends =
      run_simulation-Finished sjf_contract fuel latest s fresh (sjf_suits _) by enough

  -- Shortest time to completion first, from a fresh state and with more fuel than the work and the
  -- last arrival: the run returns, every process has finished with its own metrics, in that time.
  pub schedule_stcf-Ends : Ends s latest (schedule_stcf fuel s)
  unfolding schedule_stcf
  schedule_stcf-Ends =
      run_simulation-Finished stcf_contract fuel latest s fresh (stcf_suits _) by enough

  -- First come, first served, from a fresh state and with more fuel than the work and the last
  -- arrival, returns without a context switch: it takes the CPU from no process.
  pub schedule_fcfs-Uninterrupted : Uninterrupted s (schedule_fcfs fuel s)
  unfolding schedule_fcfs
  schedule_fcfs-Uninterrupted =
      run_simulation-switches fcfs_contract refl refl fuel latest s fresh (fcfs_suits _) by enough

  -- Shortest job first, from a fresh state and with more fuel than the work and the last arrival,
  -- returns without a context switch: it takes the CPU from no process.
  pub schedule_sjf-Uninterrupted : Uninterrupted s (schedule_sjf fuel s)
  unfolding schedule_sjf
  schedule_sjf-Uninterrupted =
      run_simulation-switches sjf_contract refl refl fuel latest s fresh (sjf_suits _) by enough

  -- Round robin with any quantum, from a fresh state and with more fuel than the work and the last
  -- arrival: the run returns, every process has finished with its own metrics, in that time.
  pub schedule_rr-Ends : (quantum : ℤ) → Ends s latest (schedule_rr fuel s quantum)
  unfolding schedule_rr
  schedule_rr-Ends quantum = retuned-Ends s quantum s.mlfq_config latest _ (
      run_simulation-Finished rr_contract fuel latest (retuned s quantum s.mlfq_config)
        (retuned-Fresh s quantum s.mlfq_config fresh) (rr_suits _) by enough)

  -- The multi-level feedback queue with at least one level, from a fresh state in which the
  -- processes are on the levels, and with more fuel than the work and the last arrival: the run
  -- returns, every process has finished with its own metrics, in that time.
  pub schedule_mlfq-Ends :
      (config : MlfqConfig)
      → 0 < config.num_queues
      → OnLevels s config.num_queues
      → Ends s latest (schedule_mlfq fuel s config)
  unfolding schedule_mlfq
  schedule_mlfq-Ends config some_level on_level = retuned-Ends s s.quantum config latest _ (
      run_simulation-Finished mlfq_contract fuel latest (retuned s s.quantum config)
        (retuned-Fresh s s.quantum config fresh)
        (mlfq_suits _ (record { some_level = some_level; on_level = on_level })) by enough)
