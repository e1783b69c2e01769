-- ===== src/Workload/Shape.antt =====
-- What src/core/process.c leaves in the array of a workload: which entries it writes, and what they
-- look like.
use cpu_scheduler_simulator.Base.{
  ℕ, ◌+◌, ◌≤◌, ◌<◌, ◌≡◌, refl, ◌∙◌, subst, Option, none, some, List, [], ◌∷◌, ℤ, arith, ltb, ltb→le,
  Bool-cases, inl, inr, ==_refl, ==_false,
}
use native.Mathlib.Decide.{ℕ_discrete}
use cpu_scheduler_simulator.Process.{Process, init_process, max_pid_chars}
use cpu_scheduler_simulator.Clib.{
  ◌>>=◌, scan_text, scan_char, scan_d, skip_spaces, fgets_lines, strtok,
}
use cpu_scheduler_simulator.Workload.{
  parse_process_token, parse_process_line, scan_line, is_skipped, fill_tokens, fill_lines,
  next_index, write_parsed, parse_workload_string, parse_workload_file, not_colon, not_space,
  is_comma, count_processes,
}

-- A process as `init_process` makes it.
abbrev pub Initial : Process → Type 0
Initial p = (pid : List ℕ) × (at : ℤ) × (bt : ℤ) × (p ≡ init_process pid at bt)

-- The result of a conversion, if there is one, is an initialised process.
abbrev AllInitial : Option Process → Type 0
AllInitial none = Unit {0}
AllInitial (some p) = Initial p

bind-AllInitial :
    {A : Type 0} (m : Option A) (f : A → Option Process)
    → ((a : A) → AllInitial (f a))
    → AllInitial (m >>= f)
bind-AllInitial none f h = tt
bind-AllInitial (some a) f h = h a

token-AllInitial : (token : List ℕ) → AllInitial (parse_process_token token)
unfolding parse_process_token
token-AllInitial token = bind-AllInitial (scan_text not_colon max_pid_chars token) _ λ (pid, s1).
    bind-AllInitial (scan_char b':' s1) _ λ s2. bind-AllInitial (scan_d s2) _ λ (at, s3).
      bind-AllInitial (scan_char b':' s3) _
        λ s4. bind-AllInitial (scan_d s4) _ λ (bt, s5). (pid, at, bt, refl)

line-AllInitial : (line : List ℕ) → AllInitial (parse_process_line line)
unfolding parse_process_line scan_line
line-AllInitial line = elim (Bool-cases (is_skipped line)) [
  | inl e ↦ rw e tt
  | inr e ↦ rw e (
      bind-AllInitial (scan_text not_space max_pid_chars (skip_spaces line)) _ λ (pid, s1).
        bind-AllInitial (scan_d s1) _
          λ (at, s2). bind-AllInitial (scan_d s2) _ λ (bt, s3). (pid, at, bt, refl))
]

-- The entries below `n` are initialised processes.
abbrev pub InitialBelow : ℕ → (ℕ → Process) → Type 0
InitialBelow n procs = (i : ℕ) → i < n → Initial (procs i)

write_parsed-InitialBelow :
    (o : Option Process) (n : ℕ) (procs : ℕ → Process)
    → AllInitial o
    → InitialBelow n procs
    → InitialBelow (next_index o n) (write_parsed o n procs)
write_parsed-InitialBelow none n procs a h i lt = h i lt
write_parsed-InitialBelow (some p) n procs a h i lt = elim (ℕ_discrete i n) [
  | yes e ↦ rw (e, ==_refl n) a
  | no ne ↦ rw (==_false i n ne) (h i (omega (arith, lt, ne)))
]

fill_lines-InitialBelow :
    (lines : List (List ℕ)) (n : ℕ) (procs : ℕ → Process)
    → InitialBelow n procs
    → InitialBelow (fill_lines lines n procs).1 (fill_lines lines n procs).0
unfolding fill_lines
fill_lines-InitialBelow [] n procs h = h
fill_lines-InitialBelow (line ∷ lines) n procs h =
    fill_lines-InitialBelow lines _ _
      (write_parsed-InitialBelow (parse_process_line line) n procs (line-AllInitial line) h)

-- Whatever the file holds, if it can be opened, `parse_workload_file` returns an array in which
-- every process that it counts was made by `init_process`.
pub parse_workload_file-InitialBelow :
    (files : List ℕ → Option (List ℕ)) (memory : ℕ → Process) (filename content : List ℕ)
    → files filename ≡ some content
    → (procs : ℕ → Process) × (n : ℕ) × (parse_workload_file files memory filename
        ≡ some (procs, n))
      × InitialBelow n procs
unfolding parse_workload_file
parse_workload_file-InitialBelow files memory filename content e = (
  (fill_lines (fgets_lines content) 0 memory).0,
  (fill_lines (fgets_lines content) 0 memory).1,
  rw (e, parse_workload_file) refl,
  fill_lines-InitialBelow (fgets_lines content) 0 memory (λ i h. absurd (omega arith)),
)

-- How many of the tokens parse.
abbrev pub count_parsed : List (List ℕ) → ℕ
count_parsed [] = 0
count_parsed (token ∷ tokens) = next_index (parse_process_token token) (count_parsed tokens)

next_index-add : (o : Option Process) (i k : ℕ) → next_index o i + k ≡ i + next_index o k
next_index-add none i k = refl
next_index-add (some p) i k = omega arith

write_parsed-others :
    (o : Option Process) (i j : ℕ) (procs : ℕ → Process)
    → i + next_index o 0 ≤ j
    → write_parsed o i procs j ≡ procs j
write_parsed-others none i j procs h = refl
write_parsed-others (some p) i j procs h = rw (==_false j i (omega (arith, h))) refl

-- The first `k` entries, up to `count`, are made by `init_process`; from `k` on nothing is written.
abbrev pub FilledTo : ℕ → ℕ → (ℕ → Process) → (ℕ → Process) → Type 0
FilledTo k count memory procs =
    ((i : ℕ) → i < k → i < count → Initial (procs i)) × ((i : ℕ) → k ≤ i → procs i ≡ memory i)

fill_tokens-FilledTo :
    (tokens : List (List ℕ)) (i count : ℕ) (procs : ℕ → Process)
    → InitialBelow i procs
    → FilledTo (i + count_parsed tokens) count procs (fill_tokens tokens i count procs)
unfolding fill_tokens
fill_tokens-FilledTo [] i count procs h = (λ j lt below. h j (omega arith), λ j le. refl)
fill_tokens-FilledTo (token ∷ tokens) i count procs h = elim (Bool-cases (ltb i count)) [
  | inl more ↦
      let o = parse_process_token token in
      let (written, kept) =
        fill_tokens-FilledTo tokens (next_index o i) count (write_parsed o i procs)
          (write_parsed-InitialBelow o i procs (token-AllInitial token) h) in
      rw more (
        λ j lt below. written j (omega (arith, lt, next_index-add o i (count_parsed tokens))) below,
        λ j le.
            kept j (omega (arith, le, next_index-add o i (count_parsed tokens)))
            ∙ write_parsed-others o i j procs
                (omega (arith, le, next_index-add o 0 (count_parsed tokens))),
      )
  | inr full ↦ rw full (λ j lt below. h j (omega (arith, below, ltb→le i count full)), λ j le. refl)
]

-- Whatever the text, `parse_workload_string` makes one process for each token that parses, up to
-- the count it took from the colons, and leaves every later entry of the array, also of those it
-- counts, as the memory was.
pub parse_workload_string-FilledTo :
    (memory : ℕ → Process) (input : List ℕ)
    → FilledTo
        (count_parsed (strtok is_comma input))
        (count_processes input)
        memory
        (parse_workload_string memory input).0
      × ((parse_workload_string memory input).1 ≡ count_processes input)
unfolding parse_workload_string
parse_workload_string-FilledTo memory input = (
  subst (λ k. FilledTo k (count_processes input) memory (parse_workload_string memory input).0)
      (omega arith)
      (fill_tokens-FilledTo (strtok is_comma input) 0 (count_processes input) memory
        (λ i h. absurd (omega arith))),
  refl,
)
