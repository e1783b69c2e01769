-- ===== src/Policy/Fcfs.antt =====
-- src/algorithms/fcfs.c
use cpu_scheduler_simulator.Base.{ℕ, Bool, Option, none, some, ltb_ℤ}
use cpu_scheduler_simulator.Process.{Process}
use cpu_scheduler_simulator.State.{SchedulerState, SchedulerPolicy}
use cpu_scheduler_simulator.Policy.Scan.{scan}

abbrev pub fcfs_before : Process → Process → Bool
fcfs_before p next = ltb_ℤ p.arrival_time next.arrival_time

unfoldable pub fcfs_next_process : SchedulerState → Option ℕ × SchedulerState
fcfs_next_process s = (scan fcfs_before s.processes s.num_processes, s)

abbrev pub fcfs_policy : SchedulerPolicy
fcfs_policy = record {
  name = "FCFS";
  on_init = none;
  on_arrival = none;
  next_process = some fcfs_next_process;
  on_tick = none;
  on_finish = none;
}
