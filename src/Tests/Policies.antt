-- ===== src/Tests/Policies.antt =====
-- The theorems about the policies at concrete inputs.
use cpu_scheduler_simulator.Base.{
  ℕ, ◌≡◌, ◌≢◌, ◌⊎◌, refl, true, some, [], ◌∷◌, pos, ◌==◌, if◌then◌else◌, arith, count,
}
use cpu_scheduler_simulator.Process.{init_process, running, ready}
use cpu_scheduler_simulator.Queue.{enqueue}
use cpu_scheduler_simulator.State.{SchedulerState, RrState, mlfq, MlfqState}
use cpu_scheduler_simulator.Engine.{set_preempt}
use cpu_scheduler_simulator.Policy.Fcfs.{fcfs_next_process}
use cpu_scheduler_simulator.Policy.Sjf.{sjf_next_process}
use cpu_scheduler_simulator.Policy.Stcf.{stcf_next_process}
use cpu_scheduler_simulator.Policy.Selection.{
  Selects, Earliest, Shortest, fcfs_next_process-Selects, sjf_next_process-Selects,
  stcf_next_process-Selects,
}
use cpu_scheduler_simulator.Policy.Rr.{set_rr}
use cpu_scheduler_simulator.Policy.Slice.{ticks, ticks-slice}
use cpu_scheduler_simulator.Policy.Mlfq.{mlfq_next, mlfq_arrival, mlfq_tick, boost}
use cpu_scheduler_simulator.Policy.Levels.{held}
use cpu_scheduler_simulator.Policy.MultiLevel.{Matches}
use cpu_scheduler_simulator.Policy.MultiLevelTick.{Yields, Keeps, mlfq_tick-Outcome}
use cpu_scheduler_simulator.Policy.Rules.{EmptyFrom, boost-raises}
use cpu_scheduler_simulator.Policy.Placement.{OwnLevel, Absent}
use cpu_scheduler_simulator.Policy.OwnLevel.{Leveled, mlfq_hooks-Leveled}
use cpu_scheduler_simulator.Policy.Outranks.{Outranks, mlfq_next-Outranks}
use cpu_scheduler_simulator.Tests.{start}

-- The first process runs, the other two are ready, the second one on the second level.
abbrev busy : SchedulerState
unfolding init_process
busy = record start {
  config = record start.config {
    processes = λ i. record (start.processes i) {
      state = if i == 0 then running else ready;
      priority = if i == 1 then 1 else 0;
    };
  };
}

abbrev levels : MlfqState
levels = record {
  queues = λ q. record {
    nodes = if q == 0 then 2 ∷ [] else if q == 1 then 1 ∷ [] else [];
    quantum = pos 2;
    allotment = pos 2;
  };
  num_queues = 3;
  boost_timer = pos 0;
  boost_period = pos 50;
  current_quantum = pos 2;
}

abbrev one_waits : RrState
one_waits = record { ready_queue = record { nodes = 1 ∷ []; size = 1 }; current_quantum = pos 3 }

abbrev slicing : SchedulerState
slicing = set_rr busy one_waits

fcfs_next_process-Selects_example : Selects Earliest busy (fcfs_next_process busy).0
fcfs_next_process-Selects_example = fcfs_next_process-Selects busy

sjf_next_process-Selects_example :
    Selects (Shortest (λ p. p.burst_time)) busy (sjf_next_process busy).0
sjf_next_process-Selects_example = sjf_next_process-Selects busy

stcf_next_process-Selects_example :
    Selects (Shortest (λ p. p.remaining_time)) busy (stcf_next_process busy).0
stcf_next_process-Selects_example = stcf_next_process-Selects busy

ticks-slice_example :
    (ticks 2 slicing 0 ≡ set_rr slicing (record one_waits { current_quantum = pos 1 }))
    × (ticks 3 slicing 0
        ≡ set_preempt
            (set_rr slicing
              (record { ready_queue = enqueue one_waits.ready_queue 0; current_quantum = pos 0 }))
            true)
unfolding init_process
ticks-slice_example = ticks-slice 2 slicing 0 one_waits refl refl (omega arith)

boost-raises_example :
    EmptyFrom 1 3 (boost busy levels).1
    × ((i : ℕ) → count i ((boost busy levels).1.queues 0).nodes ≡ held levels i)
    × ((i : ℕ) → held levels i ≢ 0 → ((boost busy levels).0.processes i).allotment_used ≡ 0)
    × ((boost busy levels).1.boost_timer ≡ pos 0)
boost-raises_example = boost-raises busy levels (omega arith)

levels-Matches : Matches busy levels
unfolding init_process
levels-Matches = record {
  some_level = omega arith;
  on_level = λ i lt. ground arith;
  queued = λ i. ground arith;
}

mlfq_tick-Outcome_example :
    Yields busy 0 (mlfq_tick busy (some 0) (mlfq levels))
    ⊎ Keeps busy (mlfq_tick busy (some 0) (mlfq levels))
unfolding init_process
mlfq_tick-Outcome_example = mlfq_tick-Outcome busy 0 (omega arith) refl (mlfq levels) levels-Matches

levels-OwnLevel : OwnLevel busy levels
unfolding init_process
levels-OwnLevel l i lt h = ground (arith, h, lt)

running-Absent : (p : ℕ) → some 0 ≡ some p → Absent levels p
running-Absent p e l lt = rw (some-inj p e) (ground arith)
  where
    some-inj : (q : ℕ) → some 0 ≡ some q → q ≡ 0
    some-inj q d = cc d

mlfq_hooks-Leveled_example :
    Leveled (mlfq_arrival busy 0 (mlfq levels)) (mlfq_arrival busy 0 (mlfq levels)).policy_state
    × Leveled (mlfq_next busy (mlfq levels)).1 (mlfq_next busy (mlfq levels)).1.policy_state
    × Leveled
        (mlfq_tick busy (some 0) (mlfq levels))
        (mlfq_tick busy (some 0) (mlfq levels)).policy_state
mlfq_hooks-Leveled_example =
    mlfq_hooks-Leveled busy levels 0 (some 0) (omega arith) levels-OwnLevel (running-Absent 0 refl)
      running-Absent

mlfq_next-Outranks_example : Outranks busy (mlfq_next busy (mlfq levels)).0
mlfq_next-Outranks_example = mlfq_next-Outranks busy levels levels-Matches levels-OwnLevel
