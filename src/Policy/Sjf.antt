-- ===== src/Policy/Sjf.antt =====
-- src/algorithms/sjf.c
use cpu_scheduler_simulator.Base.{
  ℕ, Bool, true, false, Option, none, some, pos, ltb_ℤ, eqb_ℤ, if◌then◌else◌,
}
use cpu_scheduler_simulator.Process.{Process}
use cpu_scheduler_simulator.State.{SchedulerState, SchedulerPolicy}
use cpu_scheduler_simulator.Clib.{strcmp}
use cpu_scheduler_simulator.Policy.Scan.{scan}

abbrev pub sjf_before : Process → Process → Bool
sjf_before p next =
    if ltb_ℤ p.burst_time next.burst_time
    then true
    else if eqb_ℤ p.burst_time next.burst_time
    then (if ltb_ℤ p.arrival_time next.arrival_time
        then true
        else if eqb_ℤ p.arrival_time next.arrival_time
        then ltb_ℤ (strcmp p.pid next.pid) (pos 0)
        else false)
    else false

unfoldable pub sjf_next_process : SchedulerState → Option ℕ × SchedulerState
sjf_next_process s = (scan sjf_before s.processes s.num_processes, s)

abbrev pub sjf_policy : SchedulerPolicy
sjf_policy = record {
  name = "SJF";
  on_init = none;
  on_arrival = none;
  next_process = some sjf_next_process;
  on_tick = none;
  on_finish = none;
}
