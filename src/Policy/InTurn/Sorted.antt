-- ===== src/Policy/InTurn/Sorted.antt =====
-- `init_scheduler_state` of src/core/scheduler.c, and then a run of src/algorithms/fcfs.c.
use cpu_scheduler_simulator.Base.{
  ℕ, ◌+◌, ◌≤◌, ◌<◌, ap, arith, ℤ, pos, pos_part, neg_part, ◌≤ℤ◌, -ℤ_parts,
}
use cpu_scheduler_simulator.Process.{Process}
use cpu_scheduler_simulator.State.{SchedulerState}
use cpu_scheduler_simulator.Engine.{compare_arrival_time, init_scheduler_state}
use cpu_scheduler_simulator.Engine.View.{view}
use cpu_scheduler_simulator.Engine.Quiet.{work}
use cpu_scheduler_simulator.Engine.Unit.{ArrivesBy}
use cpu_scheduler_simulator.Engine.Total.{Untouched}
use cpu_scheduler_simulator.Engine.Startup.{Rearranges, ByArrival, init_scheduler_state-Fresh}
use cpu_scheduler_simulator.Policy.Registry.{schedule_fcfs}
use cpu_scheduler_simulator.Policy.InTurn.Run.{FollowsPlan, schedule_fcfs-FollowsPlan}

-- What `qsort` is relied on for, of the array at hand: no entry compares as greater than a later
-- one.
abbrev pub LeavesInOrder :
    ((Process → Process → ℤ) → ℕ → (ℕ → Process) → ℕ → Process) → (ℕ → Process) → ℕ → Type 0
LeavesInOrder qsort procs n =
    (i j : ℕ)
    → i ≤ j
    → j < n
    → compare_arrival_time (qsort compare_arrival_time n procs i)
        (qsort compare_arrival_time n procs j)
      ≤ℤ pos 0

compare_arrival_time-arrival :
    (p q : Process) → compare_arrival_time p q ≤ℤ pos 0 → p.arrival_time ≤ℤ q.arrival_time
unfolding compare_arrival_time
compare_arrival_time-arrival p q h = ground (arith, h, -ℤ_parts p.arrival_time q.arrival_time)

init_scheduler_state-ByArrival :
    (qsort : (Process → Process → ℤ) → ℕ → (ℕ → Process) → ℕ → Process) (s : SchedulerState)
    (procs : ℕ → Process) (n : ℕ)
    → LeavesInOrder qsort procs n
    → ByArrival (init_scheduler_state qsort s procs n)
unfolding init_scheduler_state
init_scheduler_state-ByArrival qsort s procs n order i j le lt =
    compare_arrival_time-arrival _ _ (order i j le lt)

init_scheduler_state-ArrivesBy :
    (qsort : (Process → Process → ℤ) → ℕ → (ℕ → Process) → ℕ → Process) (s : SchedulerState)
    (procs : ℕ → Process) (n latest : ℕ)
    → Rearranges qsort
    → ((i : ℕ) → i < n → (procs i).arrival_time ≤ℤ pos latest)
    → ArrivesBy latest (view (init_scheduler_state qsort s procs n))
unfolding init_scheduler_state
init_scheduler_state-ArrivesBy qsort s procs n latest re by i lt =
    let (j, j_lt, e) = re compare_arrival_time n procs i lt in
    omega (
      arith,
      by j j_lt,
      ap (λ (p : Process). pos_part p.arrival_time) e,
      ap (λ (p : Process). neg_part p.arrival_time) e,
    )

-- From untouched processes in any order, if qsort rearranges the array and leaves it in the order of
-- the comparison, and with more fuel than the work and the last arrival: what init_scheduler_state
-- and then first come, first served, return has each process of the sorted array started and
-- finished when the schedule of that array says.
pub schedule_fcfs-init_scheduler_state :
    (qsort : (Process → Process → ℤ) → ℕ → (ℕ → Process) → ℕ → Process) (s : SchedulerState)
    (procs : ℕ → Process) (n fuel latest : ℕ)
    → Rearranges qsort
    → LeavesInOrder qsort procs n
    → ((i : ℕ) → i < n → Untouched (procs i))
    → ((i : ℕ) → i < n → (procs i).arrival_time ≤ℤ pos latest)
    → work (view (init_scheduler_state qsort s procs n)) + latest < fuel
    → FollowsPlan
        (init_scheduler_state qsort s procs n)
        (schedule_fcfs fuel (init_scheduler_state qsort s procs n))
schedule_fcfs-init_scheduler_state qsort s procs n fuel latest re order untouched by enough =
    schedule_fcfs-FollowsPlan fuel latest (init_scheduler_state qsort s procs n)
      (init_scheduler_state-Fresh qsort s procs n re untouched).0
      (init_scheduler_state-ByArrival qsort s procs n order)
      (init_scheduler_state-ArrivesBy qsort s procs n latest re by) enough
