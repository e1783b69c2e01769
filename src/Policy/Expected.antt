-- ===== src/Policy/Expected.antt =====
-- How often a policy of src/algorithms that keeps queues should hold each process.
use cpu_scheduler_simulator.Base.{
  ℕ, ◌<◌, ◌≡◌, true, false, ◌&&◌, arith, ltb, ◌==◌, ◌+◌, if◌then◌else◌, ◌≢◌,
}
use cpu_scheduler_simulator.Process.{is_ready}
use cpu_scheduler_simulator.State.{SchedulerState}
use cpu_scheduler_simulator.Engine.{modify_process, mark_ready}
use cpu_scheduler_simulator.Engine.Contract.{SameReady, mark_running}

abbrev pub expected : SchedulerState → ℕ → ℕ
expected s i = if ltb i s.num_processes && is_ready (s.processes i).state then 1 else 0

pub expected-same : (s t : SchedulerState) → SameReady s t → (i : ℕ) → expected t i ≡ expected s i
expected-same s t h i = ground (arith, h.num_same, h.ready_same i)

-- A process that becomes ready, and one that stops being so.
pub expected-mark_ready :
    (s : SchedulerState) (k i : ℕ)
    → k < s.num_processes
    → is_ready (s.processes k).state ≡ false
    → expected (modify_process s k mark_ready) i ≡ (if k == i then 1 else 0) + expected s i
expected-mark_ready s k i h st = ground arith

pub expected-mark_running :
    (s : SchedulerState) (k i : ℕ)
    → k < s.num_processes
    → is_ready (s.processes k).state ≡ true
    → (if k == i then 1 else 0) + expected (modify_process s k mark_running) i ≡ expected s i
expected-mark_running s k i h st = ground arith

pub expected-one :
    (s : SchedulerState) (i : ℕ)
    → expected s i ≢ 0
    → (i < s.num_processes) × (is_ready (s.processes i).state ≡ true)
expected-one s i h = ground arith

pub expected-zero :
    (s : SchedulerState) (i : ℕ)
    → i < s.num_processes
    → expected s i ≡ 0
    → is_ready (s.processes i).state ≡ false
expected-zero s i h e = ground arith

pub none_expected :
    (s : SchedulerState)
    → ((i : ℕ) → i < s.num_processes → is_ready (s.processes i).state ≡ false)
    → (i : ℕ) → 0 ≡ expected s i
none_expected s h i = ground (arith, h i)
