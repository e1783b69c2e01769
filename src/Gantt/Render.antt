-- ===== src/Gantt/Render.antt =====
-- The chart of src/core/gantt.c, as the text that is printed. A subtraction of widths stops at 0,
-- where the source sets a negative result to 0, or prints nothing for it.
use cpu_scheduler_simulator.Base.{
  ℕ, zero, suc, ◌+◌, ◌-◌, ◌*◌, ◌/◌, Bool, true, false, ◌||◌, Option, none, some, List, [], ◌∷◌,
  ◌++◌, ltb, ◌==◌, if◌then◌else◌, length, take, map,
}
use cpu_scheduler_simulator.Process.{max_pid_chars}
use cpu_scheduler_simulator.State.{SchedulerState}
use cpu_scheduler_simulator.Clib.{codes, strtok, same_text, strcmp, print_nat}

abbrev pub is_bar : ℕ → Bool
is_bar c = c == b'|'

-- The loop that counts: an entry begins at the front of the text, and behind each `|` that is not
-- its end.
abbrev pub count_entries : Bool → List ℕ → ℕ
count_entries begins [] = 0
count_entries begins (c ∷ s) = (if begins then 1 else 0) + count_entries (is_bar c) s

-- `while (token != NULL && idx < count)`
unfoldable pub split_gantt_log : List ℕ → List (List ℕ)
unfolding strtok
split_gantt_log log = take (count_entries true log) (strtok is_bar log)

pub record Block : Type 0 where
  pub pid : List ℕ
  pub start : ℕ
  pub end : ℕ
  pub duration : ℕ

-- `strncpy` keeps 15 characters.
abbrev pub make_block : List ℕ → ℕ → ℕ → Block
make_block pid start duration = record {
  pid = take max_pid_chars pid;
  start = start;
  end = start + duration;
  duration = duration;
}

-- The loop `for (int i = 0; i <= total_time; i++)`, on the entries from index `i` on.
unfoldable pub merge : List (List ℕ) → ℕ → List ℕ → ℕ → ℕ → List Block
unfolding strcmp
merge [] i pid start duration = make_block pid start duration ∷ []
merge (e ∷ es) i pid start duration = elim (same_text e pid) [
  | true ↦ merge es (i + 1) pid start (duration + 1)
  | false ↦ make_block pid start duration ∷ merge es (i + 1) e i 1
]

-- From the first entry, `current_pid` is its name and the duration is 0.
unfoldable pub blocks_of : List (List ℕ) → List Block
unfolding merge
blocks_of [] = []
blocks_of (e ∷ es) = merge (e ∷ es) 0 e 0 0

abbrev pub at_least : ℕ → ℕ → ℕ
at_least low n = if ltb n low then low else n

abbrev pub block_width : ℕ → Block → ℕ
block_width total_time b = at_least 3 (b.duration * 60 / total_time)

-- A loop that prints the same character.
abbrev pub repeat : ℕ → ℕ → List ℕ
repeat c zero = []
repeat c (suc n) = c ∷ repeat c n

abbrev pub bar : ℕ → List Block → List ℕ
bar total_time [] = codes "\n"
bar total_time (b ∷ blocks) = repeat b'-' (block_width total_time b) ++ b' ' ∷ bar total_time blocks

-- A name in the middle of `width` places.
abbrev pub centred : ℕ → List ℕ → List ℕ
centred width label =
    let left_pad = (width - length label) / 2 in
    repeat b' ' left_pad ++ label ++ repeat b' ' (width - length label - left_pad)

abbrev pub middle_bar : ℕ → List Block → List ℕ
middle_bar total_time [] = codes "\n"
middle_bar total_time (b ∷ blocks) =
    centred (block_width total_time b) b.pid ++ b'|' ∷ middle_bar total_time blocks

abbrev pub time_bar : ℕ → List Block → ℕ → ℕ → List ℕ
time_bar total_time [] next_pipe_pos cursor = codes "\n"
time_bar total_time (b ∷ blocks) next_pipe_pos cursor =
    let pipe = next_pipe_pos + block_width total_time b + 1 in
    let spaces_needed = at_least 1 (pipe - cursor) in
    let time_str = print_nat b.end in
    repeat b' ' spaces_needed
    ++ time_str
    ++ time_bar total_time blocks pipe (cursor + spaces_needed + length time_str)

-- The chart of at most 50 time units.
unfoldable pub render_blocks : List (List ℕ) → List ℕ
unfolding blocks_of print_nat
render_blocks entries =
    let total_time = length entries in
    let blocks = blocks_of entries in
    (b' ' ∷ bar total_time blocks)
    ++ (b'|' ∷ middle_bar total_time blocks)
    ++ (b' ' ∷ bar total_time blocks)
    ++ (b'0' ∷ time_bar total_time blocks 0 1)

-- The indices 0, 10, 20, ... below the length, with their entries: `wait` entries are passed over.
unfoldable pub every_tenth : ℕ → ℕ → List (List ℕ) → List (ℕ × List ℕ)
every_tenth wait i [] = []
every_tenth zero i (e ∷ es) = (i, e) ∷ every_tenth 9 (i + 1) es
every_tenth (suc wait) i (e ∷ es) = every_tenth wait (i + 1) es

-- `start_times`, `block_widths` and `block_pids` at one index.
pub record Chunk : Type 0 where
  pub start : ℕ
  pub width : ℕ
  pub pid : List ℕ

-- The loop `for (int i = 0; i < total_time; i += chunk_size)`, and the last block behind it.
unfoldable pub group : List (ℕ × List ℕ) → ℕ → ℕ → List ℕ → List Chunk
unfolding strcmp
group [] start width pid = record { start = start; width = width; pid = pid } ∷ []
group ((i, e) ∷ chunks) start width pid = elim ((i == 0) || same_text e pid) [
  | true ↦ group chunks start (width + 1) pid
  | false ↦ record { start = start; width = width; pid = pid } ∷ group chunks i 1 e
]

unfoldable pub chunks_of : List (List ℕ) → List Chunk
unfolding every_tenth group
chunks_of [] = []
chunks_of (e ∷ es) = group (every_tenth 0 0 (e ∷ es)) 0 0 e

-- The cap on the widths.
abbrev pub cap : Chunk → Chunk
cap c = record c { width = if ltb 8 c.width then 8 else at_least 1 c.width }

-- A label that is longer than its block has no space beside it.
abbrev pub labels : List Chunk → List ℕ
labels [] = codes "\n"
labels (c ∷ chunks) = b'[' ∷ (centred c.width c.pid ++ b']' ∷ labels chunks)

-- Where a chunk ends.
abbrev pub end_time : ℕ → List Chunk → ℕ
end_time total_time [] = total_time
end_time total_time (next ∷ chunks) = next.start

abbrev pub time_marks : ℕ → List Chunk → ℕ → ℕ → List ℕ
time_marks total_time [] time_cursor chart_cursor = codes "\n"
time_marks total_time (c ∷ chunks) time_cursor chart_cursor =
    let chart = chart_cursor + c.width + 2 in
    let time_str = print_nat (end_time total_time chunks) in
    let target_cursor = at_least (time_cursor + 1) (chart + 1 - length time_str / 2) in
    repeat b' ' (target_cursor - time_cursor)
    ++ time_str
    ++ time_marks total_time chunks (target_cursor + length time_str) chart

-- The chart of more than 50 time units.
unfoldable pub render_chunks : List (List ℕ) → List ℕ
unfolding chunks_of print_nat
render_chunks entries =
    let chunks = map cap (chunks_of entries) in
    codes "Each block = 10 time units (aggregated):\n"
    ++ labels chunks
    ++ codes "Time: 0"
    ++ time_marks (length entries) chunks 6 0

abbrev pub no_data : List ℕ
no_data = codes "No Gantt chart data available.\n"

abbrev pub render_entries : List (List ℕ) → List ℕ
render_entries [] = no_data
render_entries (e ∷ es) =
    if ltb 50 (length (e ∷ es)) then render_chunks (e ∷ es) else render_blocks (e ∷ es)

abbrev pub render_log : Option (List ℕ) → List ℕ
render_log none = no_data
render_log (some []) = no_data
render_log (some (c ∷ log)) =
    codes "\n=== Gantt Chart ===\n" ++ render_entries (split_gantt_log (c ∷ log))

unfoldable pub render_gantt_chart : SchedulerState → List ℕ
unfolding split_gantt_log render_blocks render_chunks
render_gantt_chart s = render_log s.gantt_log
