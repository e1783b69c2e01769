-- ===== src/Workload.antt =====
-- The workload parsers of src/core/process.c. `malloc` returns memory with unknown content, which
-- is the argument `memory`; a file is its content, and the files are a function of the name.
pub mod Shape
pub mod RoundTrip
pub mod Files
use cpu_scheduler_simulator.Base.{
  ℕ, zero, suc, ◌+◌, ◌/◌, Bool, true, false, ◌||◌, not, Option, none, some, List, [], ◌∷◌, ℤ, count,
  ltb, ◌==◌, if◌then◌else◌, modify,
}
use cpu_scheduler_simulator.Process.{Process, init_process, max_pid_chars}
use cpu_scheduler_simulator.Clib.{
  scan_text, scan_char, scan_d, skip_spaces, strtok, fgets_lines, is_space, ◌>>=◌,
}

unfoldable pub count_processes : List ℕ → ℕ
count_processes input = count b':' input / 2

abbrev pub not_colon : ℕ → Bool
not_colon c = not (c == b':')

-- `sscanf(token, "%15[^:]:%d:%d", pid, &at, &bt) != 3` is `none`.
unfoldable pub parse_process_token : List ℕ → Option Process
unfolding scan_text scan_d init_process
parse_process_token token = do
  (pid, s1) ← scan_text not_colon max_pid_chars token
  s2 ← scan_char b':' s1
  (at, s3) ← scan_d s2
  s4 ← scan_char b':' s3
  (bt, s5) ← scan_d s4
  some (init_process pid at bt)

-- `line[0] == '#' || line[0] == '\n' || line[0] == '\r'`; a line of fgets is not empty.
abbrev pub is_skipped : List ℕ → Bool
is_skipped [] = true
is_skipped (c ∷ line) = c == b'#' || (c == b'\n' || c == b'\r')

abbrev pub not_space : ℕ → Bool
not_space c = not (is_space c)

-- `sscanf(line, "%15s %d %d", pid, &at, &bt)`
unfoldable pub scan_line : List ℕ → Option Process
unfolding scan_text scan_d init_process skip_spaces
scan_line line = do
  (pid, s1) ← scan_text not_space max_pid_chars (skip_spaces line)
  (at, s2) ← scan_d s1
  (bt, s3) ← scan_d s2
  some (init_process pid at bt)

unfoldable pub parse_process_line : List ℕ → Option Process
unfolding scan_line
parse_process_line line = if is_skipped line then none else scan_line line

-- `if (parse(...)) i++`, and what it writes to `procs[i]`.
abbrev pub next_index : Option Process → ℕ → ℕ
next_index none i = i
next_index (some p) i = i + 1

abbrev pub write_parsed : Option Process → ℕ → (ℕ → Process) → ℕ → Process
write_parsed none i procs = procs
write_parsed (some p) i procs = modify procs i (λ _. p)

-- `while (token != NULL && i < *count)`
unfoldable pub fill_tokens : List (List ℕ) → ℕ → ℕ → (ℕ → Process) → ℕ → Process
unfolding parse_process_token
fill_tokens [] i count procs = procs
fill_tokens (token ∷ tokens) i count procs =
    let parsed = parse_process_token token in
    let rest = fill_tokens tokens (next_index parsed i) count (write_parsed parsed i procs) in
    if ltb i count then rest else procs

abbrev pub is_comma : ℕ → Bool
is_comma c = c == b','

-- The array and `*count`.
unfoldable pub parse_workload_string : (ℕ → Process) → List ℕ → (ℕ → Process) × ℕ
unfolding count_processes fill_tokens strtok
parse_workload_string memory input =
    let count = count_processes input in (fill_tokens (strtok is_comma input) 0 count memory, count)

-- `while (fgets(...))`: the array grows as needed, so every index below `n` has room.
unfoldable pub fill_lines : List (List ℕ) → ℕ → (ℕ → Process) → (ℕ → Process) × ℕ
unfolding parse_process_line
fill_lines [] n procs = (procs, n)
fill_lines (line ∷ lines) n procs =
    let parsed = parse_process_line line in
    fill_lines lines (next_index parsed n) (write_parsed parsed n procs)

-- `none` is the NULL that is returned if the file cannot be opened.
unfoldable pub parse_workload_file :
    (List ℕ → Option (List ℕ)) → (ℕ → Process) → List ℕ → Option ((ℕ → Process) × ℕ)
unfolding fill_lines fgets_lines
parse_workload_file files memory filename = elim (files filename) [
  | none ↦ none
  | some content ↦ some (fill_lines (fgets_lines content) 0 memory)
]
