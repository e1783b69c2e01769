-- ===== src/Policy/Scan.antt =====
-- The loop that `fcfs_next_process`, `sjf_next_process` and `stcf_next_process` of src/algorithms
-- share: walk the array from index 0, keep the best ready process seen. The policies differ in when
-- a process takes the place of the best so far.
use cpu_scheduler_simulator.Base.{ℕ, zero, suc, Bool, Option, none, some, if◌then◌else◌}
use cpu_scheduler_simulator.Process.{Process, is_ready}

-- The body of the loop at index `i`, with the best so far.
abbrev pub choose : (Process → Process → Bool) → (ℕ → Process) → ℕ → Option ℕ → Option ℕ
choose better procs i none = if is_ready (procs i).state then some i else none
choose better procs i (some k) =
    if is_ready (procs i).state
    then (if better (procs i) (procs k) then some i else some k)
    else some k

unfoldable pub scan : (Process → Process → Bool) → (ℕ → Process) → ℕ → Option ℕ
scan better procs zero = none
scan better procs (suc n) = choose better procs n (scan better procs n)
