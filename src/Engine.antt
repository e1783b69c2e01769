-- ===== src/Engine.antt =====
-- src/core/scheduler.c: the stages of one time unit and the loop over them. The counter
-- `int *completed` is passed in and returned.
pub mod View
pub mod Contract
pub mod Sound
pub mod Moves
pub mod Stages
pub mod Quiet
pub mod Dispatch
pub mod Redispatch
pub mod Progress
pub mod Step
pub mod Unit
pub mod Finish
pub mod Run
pub mod Total
pub mod Startup
pub mod Log
pub mod Keeps
pub mod Logged
pub mod Charted
pub mod Uninterrupted
pub mod Reach
pub mod Range
pub mod Aside
use mathlib.Core.Option
use cpu_scheduler_simulator.Base.{
  ℕ, zero, suc, ◌+◌, ◌-◌, Bool, true, false, ◌&&◌, ◌||◌, not, Option, none, some, List, ℤ, pos, ltb,
  ◌==◌, leb_ℤ, eqb_ℤ, ◌-ℤ◌, if◌then◌else◌, modify,
}
use cpu_scheduler_simulator.Process.{
  Process, ready, running, is_not_arrived, process_start, process_tick, process_finish,
}
use cpu_scheduler_simulator.State.{SchedulerState, SchedulerPolicy, null}
use cpu_scheduler_simulator.Gantt.{
  init_gantt_log, append_gantt_entry, cleanup_gantt_log, idle_entry,
}

-- Writes through a `Process *` and to the fields of the engine.
abbrev pub modify_process : SchedulerState → ℕ → (Process → Process) → SchedulerState
modify_process s i f = record s { config = record s.config { processes = modify s.processes i f } }

abbrev pub set_running : SchedulerState → Option ℕ → SchedulerState
set_running s r = record s { engine = record s.engine { running_process = r } }

abbrev pub set_preempt : SchedulerState → Bool → SchedulerState
set_preempt s b = record s { engine = record s.engine { preempt_requested = b } }

abbrev pub mark_ready : Process → Process
mark_ready p = record p { state = ready }

-- `==` on `Process *`.
abbrev pub same_process : Option ℕ → Option ℕ → Bool
same_process none none = true
same_process none (some j) = false
same_process (some i) none = false
same_process (some i) (some j) = i == j

abbrev pub is_some {ℓ} : {A : Type ℓ} → Option A → Bool
is_some none = false
is_some (some a) = true

unfoldable pub compare_arrival_time : Process → Process → ℤ
compare_arrival_time p1 p2 =
    if not (eqb_ℤ p1.arrival_time p2.arrival_time)
    then p1.arrival_time -ℤ p2.arrival_time
    else pos (first_char p1.pid) -ℤ pos (first_char p2.pid)
  where
    first_char : List ℕ → ℕ
    first_char = elim [ List.[] ↦ 0 | List.◌∷◌ c cs ↦ c ]

-- `qsort` is the C library's: it is given the comparison, the count and the array.
unfoldable pub init_scheduler_state :
    ((Process → Process → ℤ) → ℕ → (ℕ → Process) → ℕ → Process)
    → SchedulerState
    → (ℕ → Process)
    → ℕ
    → SchedulerState
unfolding init_gantt_log
init_scheduler_state qsort s procs num_procs = init_gantt_log (record {
  config = record s.config {
    processes = qsort compare_arrival_time num_procs procs;
    num_processes = num_procs;
    quantum = pos 0;
  };
  engine = record {
    current_time = 0;
    next_arrival_idx = 0;
    running_process = none;
    preempt_requested = false;
  };
  metrics = record { context_switches = 0; gantt_log = none };
  policy_state = null;
})

-- The three writes with which a process leaves the CPU for good.
unfoldable pub finish_running : SchedulerState → ℕ → SchedulerState
unfolding process_finish
finish_running s r = set_running (modify_process s r (process_finish s.current_time)) none

-- The test of stages 1 and 4b, for the process on the CPU.
unfoldable pub complete : SchedulerState → ℕ → Option ℕ → SchedulerState × ℕ
unfolding finish_running
complete s completed none = (s, completed)
complete s completed (some r) =
    if eqb_ℤ (s.processes r).remaining_time (pos 0)
    then (finish_running s r, completed + 1)
    else (s, completed)

unfoldable pub handle_completions : SchedulerState → ℕ → SchedulerState × ℕ
unfolding complete
handle_completions s completed = complete s completed s.running_process

-- The body of the loop of `handle_arrivals` for the process at index `i`.
abbrev pub call_on_arrival : SchedulerPolicy → SchedulerState → ℕ → SchedulerState
call_on_arrival policy s i = elim policy.on_arrival [ none ↦ s | some hook ↦ hook s i ]

unfoldable pub arrive : SchedulerPolicy → SchedulerState → ℕ → SchedulerState
arrive policy s i =
    let s' = call_on_arrival policy (modify_process s i mark_ready) i in
    record s' { engine = record s'.engine { next_arrival_idx = s'.next_arrival_idx + 1 } }

-- The loop's condition and its test: the next process is there, due, and not yet arrived.
abbrev pub arrival_due : SchedulerState → Bool
arrival_due s =
    ltb s.next_arrival_idx s.num_processes
    && (leb_ℤ (s.processes s.next_arrival_idx).arrival_time (pos s.current_time)
        && is_not_arrived (s.processes s.next_arrival_idx).state)

-- Each round moves `next_arrival_idx` on, so `num_processes` rounds are enough.
unfoldable pub arrivals_loop : ℕ → SchedulerPolicy → SchedulerState → SchedulerState
arrivals_loop zero policy s = s
arrivals_loop (suc rounds) policy s = elim (arrival_due s) [
  | true ↦ arrivals_loop rounds policy (arrive policy s s.next_arrival_idx)
  | false ↦ s
]

unfoldable pub handle_arrivals : SchedulerState → SchedulerPolicy → SchedulerState
unfolding arrivals_loop arrive
handle_arrivals s policy = arrivals_loop (s.num_processes - s.next_arrival_idx) policy s

-- The tick hook is called while a process runs.
unfoldable pub handle_tick : SchedulerState → SchedulerPolicy → SchedulerState
handle_tick s policy = elim policy.on_tick [
  | none ↦ s
  | some hook ↦ if is_some s.running_process then hook s s.running_process else s
]

unfoldable pub mark_previous : SchedulerState → Option ℕ → SchedulerState
mark_previous s none = s
mark_previous s (some r) = modify_process s r mark_ready

unfoldable pub call_next_process : SchedulerPolicy → SchedulerState → Option ℕ × SchedulerState
call_next_process policy s = elim policy.next_process [ none ↦ (none, s) | some hook ↦ hook s ]

unfoldable pub start_next : SchedulerState → Option ℕ → SchedulerState
unfolding process_start
start_next s none = set_running s none
start_next s (some i) = modify_process (set_running s (some i)) i (process_start s.current_time)

unfoldable pub count_switch : SchedulerState → Option ℕ → SchedulerState
count_switch s none = s
count_switch s (some r) = record s {
  metrics = record s.metrics { context_switches = s.context_switches + 1 };
}

unfoldable pub resume : SchedulerState → Option ℕ → SchedulerState
resume s none = s
resume s (some r) = modify_process s r (λ p. record p { state = running })

unfoldable pub switch_to : SchedulerState → Option ℕ → Option ℕ → SchedulerState
unfolding start_next count_switch resume
switch_to s previous next =
    if same_process next previous
    then resume s previous
    else start_next (count_switch s previous) next

unfoldable pub redispatch : SchedulerState → SchedulerPolicy → SchedulerState
unfolding mark_previous call_next_process switch_to
redispatch s policy =
    let (next, s') = call_next_process policy (mark_previous s s.running_process) in
    set_preempt (switch_to s' s.running_process next) false

unfoldable pub handle_dispatch : SchedulerState → SchedulerPolicy → SchedulerState
unfolding redispatch
handle_dispatch s policy =
    if not (is_some s.running_process) || s.preempt_requested then redispatch s policy else s

unfoldable pub advance_clock : SchedulerState → SchedulerState
advance_clock s = record s { engine = record s.engine { current_time = s.current_time + 1 } }

unfoldable pub execute : SchedulerState → Option ℕ → SchedulerState
unfolding process_tick append_gantt_entry
execute s none = append_gantt_entry s idle_entry
execute s (some r) = append_gantt_entry (modify_process s r process_tick) (s.processes r).pid

-- Stages 4b to 6, after the dispatch, with the process on the CPU.
unfoldable pub unit_end : SchedulerState → ℕ → Option ℕ → SchedulerState × ℕ
unfolding finish_running execute advance_clock append_gantt_entry
unit_end s completed none = (advance_clock (execute s none), completed)
unit_end s completed (some r) =
    if eqb_ℤ (s.processes r).remaining_time (pos 0)
    then (advance_clock (append_gantt_entry (finish_running s r) idle_entry), completed + 1)
    else (advance_clock (execute s (some r)), completed)

unfoldable pub finish_unit : SchedulerState → ℕ → SchedulerState × ℕ
unfolding unit_end
finish_unit s completed = unit_end s completed s.running_process

-- Stages 2 to 4: what `finish_unit` starts from.
unfoldable pub before_execution : SchedulerState → SchedulerPolicy → SchedulerState
unfolding handle_arrivals handle_tick handle_dispatch
before_execution s policy = handle_dispatch (handle_tick (handle_arrivals s policy) policy) policy

unfoldable pub step_simulation : SchedulerState → SchedulerPolicy → ℕ → SchedulerState × ℕ
unfolding handle_completions before_execution finish_unit
step_simulation s policy completed =
    let (s', completed') = handle_completions s completed in
    if completed' == s.num_processes
    then (s', completed')
    else finish_unit (before_execution s' policy) completed'

-- `while (completed < num_processes)`; `none` means that the fuel ran out.
unfoldable pub simulation_loop : ℕ → SchedulerPolicy → SchedulerState → ℕ → Option SchedulerState
unfolding step_simulation
simulation_loop zero policy s completed = none
simulation_loop (suc fuel) policy s completed = elim (ltb completed s.num_processes) [
  | true ↦
      let (s', completed') = step_simulation s policy completed in
      simulation_loop fuel policy s' completed'
  | false ↦ some s
]

unfoldable pub call_hook :
    Option (SchedulerState → SchedulerState) → SchedulerState → SchedulerState
call_hook none s = s
call_hook (some hook) s = hook s

-- The hook that has loops of its own gets the fuel for them.
unfoldable pub call_finish :
    ℕ → Option (ℕ → SchedulerState → Option SchedulerState) → SchedulerState → Option SchedulerState
call_finish fuel none s = some s
call_finish fuel (some hook) s = hook fuel s

abbrev pub finish_run :
    ℕ
    → Option (ℕ → SchedulerState → Option SchedulerState)
    → Option SchedulerState
    → Option SchedulerState
finish_run fuel hook none = none
finish_run fuel hook (some s) = call_finish fuel hook s

unfoldable pub run_simulation : ℕ → SchedulerState → SchedulerPolicy → Option SchedulerState
unfolding simulation_loop call_hook call_finish
run_simulation fuel s policy =
    finish_run fuel policy.on_finish
      (simulation_loop fuel policy (call_hook policy.on_init (set_running s none)) 0)

unfoldable pub cleanup_scheduler_state : SchedulerState → SchedulerState
unfolding cleanup_gantt_log
cleanup_scheduler_state s =
    let s' = cleanup_gantt_log s in
    record s' {
      policy_state = null;
      engine = record s'.engine { running_process = none };
      metrics = record s'.metrics { context_switches = 0 };
    }
