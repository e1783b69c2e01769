-- ===== src/Policy/Registry.antt =====
-- src/core/policy.c: the policies by name, and one entry point for each.
use Prim.Native.String.{String}
use text.Mathlib.Text.{◌==◌ as str_eq}
use cpu_scheduler_simulator.Base.{ℕ, ◌||◌, Option, none, some, ℤ, if◌then◌else◌}
use cpu_scheduler_simulator.State.{SchedulerState, SchedulerPolicy, MlfqConfig}
use cpu_scheduler_simulator.Engine.{run_simulation}
use cpu_scheduler_simulator.Policy.Fcfs.{fcfs_policy}
use cpu_scheduler_simulator.Policy.Sjf.{sjf_policy}
use cpu_scheduler_simulator.Policy.Stcf.{stcf_policy}
use cpu_scheduler_simulator.Policy.Rr.{rr_policy}
use cpu_scheduler_simulator.Policy.Mlfq.{mlfq_policy}

unfoldable pub get_policy_by_name : String → Option SchedulerPolicy
get_policy_by_name name =
    if str_eq name "FCFS"
    then some fcfs_policy
    else if str_eq name "SJF"
    then some sjf_policy
    else if str_eq name "STCF"
    then some stcf_policy
    else if str_eq name "RR"
    then some rr_policy
    else if str_eq name "mlfq" || str_eq name "MLFQ"
    then some mlfq_policy
    else none

unfoldable pub schedule_fcfs : ℕ → SchedulerState → Option SchedulerState
schedule_fcfs fuel s = run_simulation fuel s fcfs_policy

unfoldable pub schedule_sjf : ℕ → SchedulerState → Option SchedulerState
schedule_sjf fuel s = run_simulation fuel s sjf_policy

unfoldable pub schedule_stcf : ℕ → SchedulerState → Option SchedulerState
schedule_stcf fuel s = run_simulation fuel s stcf_policy

unfoldable pub schedule_rr : ℕ → SchedulerState → ℤ → Option SchedulerState
schedule_rr fuel s quantum =
    run_simulation fuel (record s { config = record s.config { quantum = quantum } }) rr_policy

unfoldable pub schedule_mlfq : ℕ → SchedulerState → MlfqConfig → Option SchedulerState
schedule_mlfq fuel s config =
    run_simulation fuel (record s { config = record s.config { mlfq_config = config } }) mlfq_policy
