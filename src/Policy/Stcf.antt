-- ===== src/Policy/Stcf.antt =====
-- src/algorithms/stcf.c
use cpu_scheduler_simulator.Base.{
  ℕ, Bool, true, false, Option, none, some, pos, ltb_ℤ, eqb_ℤ, if◌then◌else◌,
}
use cpu_scheduler_simulator.Process.{Process}
use cpu_scheduler_simulator.State.{SchedulerState, SchedulerPolicy}
use cpu_scheduler_simulator.Clib.{strcmp}
use cpu_scheduler_simulator.Policy.Scan.{scan}
use cpu_scheduler_simulator.Engine.{set_preempt}

abbrev pub stcf_before : Process → Process → Bool
stcf_before p next =
    if ltb_ℤ p.remaining_time next.remaining_time
    then true
    else if eqb_ℤ p.remaining_time next.remaining_time
    then (if ltb_ℤ p.arrival_time next.arrival_time
        then true
        else if eqb_ℤ p.arrival_time next.arrival_time
        then ltb_ℤ (strcmp p.pid next.pid) (pos 0)
        else false)
    else false

unfoldable pub stcf_next_process : SchedulerState → Option ℕ × SchedulerState
stcf_next_process s = (scan stcf_before s.processes s.num_processes, s)

-- The arrival of `p` while `r`, if any, is on the CPU.
unfoldable pub stcf_arrival : SchedulerState → ℕ → Option ℕ → SchedulerState
stcf_arrival s p none = s
stcf_arrival s p (some r) =
    if ltb_ℤ (s.processes p).remaining_time (s.processes r).remaining_time
    then set_preempt s true
    else s

unfoldable pub stcf_on_arrival : SchedulerState → ℕ → SchedulerState
unfolding stcf_arrival
stcf_on_arrival s p = stcf_arrival s p s.running_process

abbrev pub stcf_policy : SchedulerPolicy
stcf_policy = record {
  name = "STCF";
  on_init = none;
  on_arrival = some stcf_on_arrival;
  next_process = some stcf_next_process;
  on_tick = none;
  on_finish = none;
}
