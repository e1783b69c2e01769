-- ===== src/Engine/Sound.antt =====
-- The invariant of the simulation in src/core/scheduler.c: what the fields of each process say in
-- each of its four states, and that the counter of the loop counts the finished ones.
use cpu_scheduler_simulator.Base.{
  ℕ, ◌+◌, ◌≤◌, ◌<◌, ◌≡◌, ◌⊎◌, Bool, true, false, Option, none, some, pos, negsuc, pos_part,
  neg_part, ◌-ℤ◌, ◌≤ℤ◌, ◌==◌, sum_to,
}
use cpu_scheduler_simulator.Process.{Process, ProcessState, not_arrived, ready, running, finished}
use cpu_scheduler_simulator.Engine.View.{View}

-- `i` is the process on the CPU.
abbrev pub runs : Option ℕ → ℕ → Bool
runs none i = false
runs (some r) i = r == i

-- A process that has been on the CPU: it started at or after its arrival, its response time was
-- taken then, and it got no more than one time unit of work for each time unit since.
pub record Started (t : ℕ) (p : Process) : Type 0 where
  pub start_nonneg : neg_part p.start_time ≡ 0
  pub start_after_arrival : p.arrival_time ≤ℤ p.start_time
  pub work_fits : pos_part p.start_time + pos_part p.burst_time ≤ t + pos_part p.remaining_time
  pub response : p.response_time ≡ p.start_time -ℤ p.arrival_time

pub record Unstarted (p : Process) : Type 0 where
  pub no_start : p.start_time ≡ negsuc 0
  pub all_left : p.remaining_time ≡ p.burst_time

-- A process that has left the CPU for good by time `t`, with its metrics.
pub record Done (t : ℕ) (p : Process) : Type 0 where
  pub nothing_left : p.remaining_time ≡ pos 0
  pub start_nonneg : neg_part p.start_time ≡ 0
  pub finish_nonneg : neg_part p.finish_time ≡ 0
  pub start_after_arrival : p.arrival_time ≤ℤ p.start_time
  pub work_fits : pos_part p.start_time + pos_part p.burst_time ≤ pos_part p.finish_time
  pub finish_le : pos_part p.finish_time ≤ t
  pub turnaround : p.turnaround_time ≡ p.finish_time -ℤ p.arrival_time
  pub waiting : p.waiting_time ≡ p.turnaround_time -ℤ p.burst_time
  pub response : p.response_time ≡ p.start_time -ℤ p.arrival_time

-- What holds of the process at index `i` in the given state, at time `t`, when the first `idx`
-- processes have arrived and `run` is on the CPU.
abbrev pub StateOk : ℕ → ℕ → Option ℕ → ℕ → Process → ProcessState → Type 0
StateOk t idx run i p not_arrived = (idx ≤ i) × (runs run i ≡ false) × Unstarted p
StateOk t idx run i p ready =
    (i < idx) × (runs run i ≡ false) × (p.arrival_time ≤ℤ pos t) × (Unstarted p ⊎ Started t p)
StateOk t idx run i p running =
    (i < idx) × (runs run i ≡ true) × (p.arrival_time ≤ℤ pos t) × Started t p
StateOk t idx run i p finished = (i < idx) × (runs run i ≡ false) × Done t p

pub record Good (t idx : ℕ) (run : Option ℕ) (i : ℕ) (p : Process) : Type 0 where
  pub burst_nonneg : neg_part p.burst_time ≡ 0
  pub remaining_nonneg : neg_part p.remaining_time ≡ 0
  pub remaining_le : pos_part p.remaining_time ≤ pos_part p.burst_time
  pub state_ok : StateOk t idx run i p p.state

abbrev pub finished_bit : ProcessState → ℕ
finished_bit finished = 1
finished_bit _ = 0

abbrev pub count_finished : View → ℕ
count_finished v = sum_to v.num_processes (λ i. finished_bit (v.processes i).state)

abbrev pub RunningIn : ℕ → Option ℕ → Type 0
RunningIn n none = Unit {0}
RunningIn n (some r) = r < n

pub record Sound (v : View) (completed : ℕ) : Type 0 where
  pub idx_le : v.next_arrival_idx ≤ v.num_processes
  pub running_in : RunningIn v.num_processes v.running_process
  pub each :
      (i : ℕ)
      → i < v.num_processes
      → Good v.current_time v.next_arrival_idx v.running_process i (v.processes i)
  pub counted : completed ≡ count_finished v
