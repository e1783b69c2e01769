-- ===== src/Process.antt =====
-- include/process.h and the life cycle functions of src/core/process.c.
-- A C string is the list of its character codes, without the closing NUL. An `int` is an integer
-- without a bound, but for the two counters that start at 0 and only grow.
use cpu_scheduler_simulator.Base.{
  ℕ, Bool, true, false, List, ℤ, pos, negsuc, ◌-ℤ◌, ltb_ℤ, eqb_ℤ, if◌then◌else◌, take,
}

pub data ProcessState : Type 0 where
  not_arrived ready running finished : ProcessState

pub record Process : Type 0 where
  pub pid : List ℕ
  pub arrival_time : ℤ
  pub burst_time : ℤ
  pub remaining_time : ℤ
  pub start_time : ℤ
  pub finish_time : ℤ
  pub priority : ℕ
  pub allotment_used : ℕ
  pub turnaround_time : ℤ
  pub waiting_time : ℤ
  pub response_time : ℤ
  pub state : ProcessState

-- `state == STATE_READY`, `state == STATE_NOT_ARRIVED`
abbrev pub is_ready : ProcessState → Bool
is_ready ready = true
is_ready _ = false

abbrev pub is_not_arrived : ProcessState → Bool
is_not_arrived not_arrived = true
is_not_arrived _ = false

-- MAX_PID_LEN - 1: the length at which `strncpy` cuts the name.
abbrev pub max_pid_chars : ℕ
max_pid_chars = 15

unfoldable pub calculate_turnaround_time : ℤ → ℤ → ℤ
calculate_turnaround_time finish_time arrival_time = finish_time -ℤ arrival_time

unfoldable pub calculate_waiting_time : ℤ → ℤ → ℤ
calculate_waiting_time turnaround_time burst_time = turnaround_time -ℤ burst_time

unfoldable pub calculate_response_time : ℤ → ℤ → ℤ
calculate_response_time start_time arrival_time = start_time -ℤ arrival_time

unfoldable pub init_process : List ℕ → ℤ → ℤ → Process
init_process pid at bt = record {
  pid = take max_pid_chars pid;
  arrival_time = at;
  burst_time = bt;
  remaining_time = bt;
  start_time = negsuc 0;
  finish_time = pos 0;
  priority = 0;
  allotment_used = 0;
  turnaround_time = pos 0;
  waiting_time = pos 0;
  response_time = pos 0;
  state = not_arrived;
}

unfoldable pub process_start : ℕ → Process → Process
unfolding calculate_response_time
process_start current_time p =
    if eqb_ℤ p.start_time (negsuc 0)
    then record p {
      start_time = pos current_time;
      response_time = calculate_response_time (pos current_time) p.arrival_time;
      state = running;
    }
    else record p { state = running }

unfoldable pub process_tick : Process → Process
process_tick p =
    if ltb_ℤ (pos 0) p.remaining_time
    then record p { remaining_time = p.remaining_time -ℤ pos 1 }
    else p

unfoldable pub process_finish : ℕ → Process → Process
unfolding calculate_turnaround_time calculate_waiting_time
process_finish current_time p = record p {
  state = finished;
  finish_time = pos current_time;
  turnaround_time = turnaround;
  waiting_time = calculate_waiting_time turnaround p.burst_time;
}
  where
    turnaround : ℤ
    turnaround = calculate_turnaround_time (pos current_time) p.arrival_time
