-- ===== src/Gantt.antt =====
-- src/core/gantt.c: the log of the CPU, one entry for each time unit, entries separated by `|`.
-- Memory is never short: `malloc` and `realloc` succeed.
pub mod Render
pub mod Split
pub mod Blocks
pub mod Capacity
use mathlib.Core.Option
use native.Mathlib.Omega.{arith}
use cpu_scheduler_simulator.Base.{◌≡◌, none, some, ℕ, List, [], ◌∷◌, ◌++◌}
use cpu_scheduler_simulator.State.{SchedulerState}

unfoldable pub init_gantt_log : SchedulerState → SchedulerState
init_gantt_log s = record s { metrics = record s.metrics { gantt_log = some [] } }

-- The text after an entry was added: a separator goes before it unless the text is empty.
abbrev pub append_entry : List ℕ → List ℕ → List ℕ
append_entry [] entry = entry
append_entry (c ∷ log) entry = (c ∷ log) ++ (b'|' ∷ entry)

unfoldable pub append_gantt_entry : SchedulerState → List ℕ → SchedulerState
append_gantt_entry s entry = elim s.gantt_log [
  | none ↦ s
  | some log ↦ record s { metrics = record s.metrics { gantt_log = some (append_entry log entry) } }
]

unfoldable pub cleanup_gantt_log : SchedulerState → SchedulerState
cleanup_gantt_log s = record s { metrics = record s.metrics { gantt_log = none } }

-- The entry of an idle time unit, "-".
abbrev pub idle_entry : List ℕ
idle_entry = b'-' ∷ []

-- The log alone changes.
pub append_gantt_entry_lem :
    (s : SchedulerState) (entry : List ℕ)
    → append_gantt_entry s entry ≡ record s {
      metrics = record s.metrics {
        gantt_log = Option.map (λ log. append_entry log entry) s.gantt_log;
      };
    }
unfolding append_gantt_entry
append_gantt_entry_lem s entry = ground arith
