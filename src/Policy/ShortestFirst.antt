-- ===== src/Policy/ShortestFirst.antt =====
-- What the times of a run under src/algorithms/sjf.c are to be, and what a state of the simulation
-- says that is on the way to them.
pub mod Stages
pub mod UnitEnd
pub mod Dispatch
pub mod Run
use cpu_scheduler_simulator.Base.{
  ℕ, ◌+◌, ◌≤◌, ◌<◌, ◌≡◌, ◌⊎◌, false, true, Option, none, some, ℤ, pos, negsuc, pos_part, neg_part,
  ◌≤ℤ◌, ◌<ℤ◌,
}
use cpu_scheduler_simulator.Process.{Process, not_arrived, ready, running, finished}
use cpu_scheduler_simulator.State.{SchedulerState}

-- What the order is about.
pub record Times : Type 0 where
  pub start : ℤ
  pub arrival : ℤ
  pub burst : ℤ

abbrev pub times : Process → Times
times p = record { start = p.start_time; arrival = p.arrival_time; burst = p.burst_time }

-- If the first started, and the second had arrived by then and had not started, the first has a
-- burst no longer than the second.
abbrev pub NoLonger : Times → Times → Type 0
NoLonger a b =
    neg_part a.start ≡ 0
    → b.arrival ≤ℤ a.start
    → (b.start ≡ negsuc 0) ⊎ (a.start <ℤ b.start)
    → a.burst ≤ℤ b.burst

abbrev pub Ordered : (ℕ → Times) → ℕ → Type 0
Ordered k n = (i j : ℕ) → i < n → j < n → NoLonger (k i) (k j)

-- A process before its time on the CPU, during it, and after it.
pub record Waiting (p : Process) : Type 0 where
  pub outside : (p.state ≡ not_arrived) ⊎ (p.state ≡ ready)
  pub no_start : p.start_time ≡ negsuc 0
  pub all_left : p.remaining_time ≡ p.burst_time
  pub burst_nonneg : neg_part p.burst_time ≡ 0

pub record OnCpu (t : ℕ) (run : Option ℕ) (i : ℕ) (p : Process) : Type 0 where
  pub runs : p.state ≡ running
  pub is_it : run ≡ some i
  pub started : neg_part p.start_time ≡ 0
  pub started_by : pos_part p.start_time ≤ t
  pub left_nonneg : neg_part p.remaining_time ≡ 0
  pub straight : pos_part p.start_time + pos_part p.burst_time ≡ t + pos_part p.remaining_time

pub record Over (t : ℕ) (p : Process) : Type 0 where
  pub over : p.state ≡ finished
  pub started : neg_part p.start_time ≡ 0
  pub started_by : pos_part p.start_time ≤ t
  pub finish : p.finish_time ≡ pos (pos_part p.start_time + pos_part p.burst_time)

abbrev pub Straight : ℕ → Option ℕ → ℕ → Process → Type 0
Straight t run i p = Waiting p ⊎ (OnCpu t run i p ⊎ Over t p)

pub record Line (n : ℕ) (s : SchedulerState) : Type 0 where
  pub num : s.num_processes ≡ n
  pub calm : s.preempt_requested ≡ false
  pub each : (i : ℕ) → i < n → Straight s.current_time s.running_process i (s.processes i)
  pub ordered : Ordered (λ i. times (s.processes i)) n
  pub in_range : (r : ℕ) → s.running_process ≡ some r → (r < n) × ((s.processes r).state ≡ running)
