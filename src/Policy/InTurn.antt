-- ===== src/Policy/InTurn.antt =====
-- The schedule that src/algorithms/fcfs.c is to follow on an array in the order of arrival, written
-- down without the simulation, and what a state of the simulation says that is on this schedule.
pub mod Stages
pub mod UnitEnd
pub mod Dispatch
pub mod Run
pub mod Sorted
use cpu_scheduler_simulator.Base.{
  ℕ, zero, suc, ◌+◌, ◌≤◌, ◌<◌, ◌≡◌, ◌⊎◌, false, Option, none, some, pos, negsuc, pos_part, neg_part,
  ltb, if◌then◌else◌,
}
use cpu_scheduler_simulator.Process.{Process, not_arrived, ready, running, finished}
use cpu_scheduler_simulator.State.{SchedulerState}

abbrev pub later : ℕ → ℕ → ℕ
later a b = if ltb a b then b else a

-- When the CPU is free for the process at index `k`: after the process before it, which has the CPU
-- for its burst and for at least one time unit.
abbrev pub free_at : (ℕ → Process) → ℕ → ℕ
free_at procs zero = 0
free_at procs (suc k) =
    later (free_at procs k) (pos_part (procs k).arrival_time)
    + later 1 (pos_part (procs k).burst_time)

-- A process starts once it is there and the CPU is free, and runs to its end.
abbrev pub starts_at : (ℕ → Process) → ℕ → ℕ
starts_at procs k = later (free_at procs k) (pos_part (procs k).arrival_time)

abbrev pub ends_at : (ℕ → Process) → ℕ → ℕ
ends_at procs k = starts_at procs k + pos_part (procs k).burst_time

-- The process `p`, `q` at the start, has not had the CPU at time `t`.
pub record Waits (t : ℕ) (q p : Process) : Type 0 where
  pub outside : (p.state ≡ not_arrived) ⊎ ((p.state ≡ ready) × (pos_part q.arrival_time ≤ t))
  pub no_start : p.start_time ≡ negsuc 0
  pub all_left : p.remaining_time ≡ q.burst_time
  pub arrival : p.arrival_time ≡ q.arrival_time

-- The process `p` at index `k` has been served on schedule.
pub record Served (procs : ℕ → Process) (k : ℕ) (p : Process) : Type 0 where
  pub over : p.state ≡ finished
  pub start : p.start_time ≡ pos (starts_at procs k)
  pub finish : p.finish_time ≡ pos (ends_at procs k)

-- The processes below `k` are served, those from `from` on wait.
pub record Split (procs : ℕ → Process) (n : ℕ) (s : SchedulerState) (k from : ℕ) : Type 0 where
  pub num : s.num_processes ≡ n
  pub calm : s.preempt_requested ≡ false
  pub served : (i : ℕ) → i < k → Served procs i (s.processes i)
  pub waits : (i : ℕ) → from ≤ i → i < n → Waits s.current_time (procs i) (s.processes i)

-- No process is on the CPU, and the next one is not late.
pub record Idle (procs : ℕ → Process) (n : ℕ) (s : SchedulerState) (k : ℕ) : Type 0 where
  pub split : Split procs n s k k
  pub le : k ≤ n
  pub free : free_at procs k ≤ s.current_time
  pub on_time : k < n → s.current_time ≤ starts_at procs k
  pub nobody : s.running_process ≡ none

-- The process at `r` is on the CPU, on schedule.
pub record Busy (procs : ℕ → Process) (n : ℕ) (s : SchedulerState) (r : ℕ) : Type 0 where
  pub split : Split procs n s r (suc r)
  pub lt : r < n
  pub on_cpu : s.running_process ≡ some r
  pub runs : (s.processes r).state ≡ running
  pub start : (s.processes r).start_time ≡ pos (starts_at procs r)
  pub left_nonneg : neg_part (s.processes r).remaining_time ≡ 0
  pub started : starts_at procs r ≤ s.current_time
  pub on_schedule : ends_at procs r ≡ s.current_time + pos_part (s.processes r).remaining_time

-- Between two time units.
abbrev pub Boundary : (ℕ → Process) → ℕ → SchedulerState → Type 0
Boundary procs n s =
    ((k : ℕ) × Idle procs n s k)
    ⊎ ((r : ℕ) × Busy procs n s r × (starts_at procs r < s.current_time))

-- Within a time unit, before the process on the CPU runs.
abbrev pub Between : (ℕ → Process) → ℕ → SchedulerState → Type 0
Between procs n s =
    ((k : ℕ) × Idle procs n s k)
    ⊎ ((r : ℕ) × Busy procs n s r
        × ((s.processes r).remaining_time ≡ pos 0 → starts_at procs r ≡ s.current_time))

-- After the dispatch, by which the next process has the CPU unless it is later than now.
abbrev pub Assigned : (ℕ → Process) → ℕ → SchedulerState → Type 0
Assigned procs n s =
    ((k : ℕ) × Idle procs n s k × (k < n → s.current_time < starts_at procs k))
    ⊎ ((r : ℕ) × Busy procs n s r
        × ((s.processes r).remaining_time ≡ pos 0 → starts_at procs r ≡ s.current_time))
