-- ===== src/Workload/Files.antt =====
-- A workload file written out and read back by src/core/process.c.
use cpu_scheduler_simulator.Base.{
  ℕ, ◌+◌, ◌≤◌, ◌<◌, ◌≡◌, refl, sym, ap, ◌∙◌, subst, true, false, not, Option, some, List, [], ◌∷◌,
  ◌++◌, ℤ, arith, ◌==◌, ==_refl, length, map, modify,
}
use mathlib.Core.List.{append_assoc}
use cpu_scheduler_simulator.Process.{Process, init_process, max_pid_chars}
use cpu_scheduler_simulator.Clib.{IsInt, scan_text, scan_d, scan_int, skip_spaces, print_int}
use cpu_scheduler_simulator.Clib.Decimal.{scan_d-print_int, print_int-Passes}
use cpu_scheduler_simulator.Clib.Tokens.{
  Passes, Passes-append, Passes-weaken, scan_text-append, write_lines, end_lines, Lines,
  fgets_lines-write_lines,
}
use cpu_scheduler_simulator.Workload.{
  not_space, is_skipped, scan_line, parse_process_line, fill_lines, parse_workload_file,
}
use cpu_scheduler_simulator.Workload.RoundTrip.{Job, job_process, Holds}

pub data Line : Type 0 where
  comment : List ℕ → Line
  entry : Job → Line

-- "PID AT BT"
abbrev pub write_entry : Job → List ℕ
write_entry j = j.pid ++ b' ' ∷ (print_int j.arrival ++ b' ' ∷ print_int j.burst)

abbrev pub write_line : Line → List ℕ
write_line (comment text) = b'#' ∷ text
write_line (entry j) = write_entry j

-- A name that a file can carry: 1 to 15 characters, no white space, no `#` in front.
pub data IsName : List ℕ → Type 0 where
  name :
      (c : ℕ) (s : List ℕ)
      → Passes (λ d. not_space d) (c ∷ s)
      → (c == b'#') ≡ false
      → length (c ∷ s) ≤ max_pid_chars
      → IsName (c ∷ s)

-- A line that fgets reads whole, no newline in a comment and at most 254 characters, with values of
-- `int`.
abbrev pub IsLine : Line → Type 0
IsLine (comment text) = Passes (λ c. not (c == b'\n')) text × (length (b'#' ∷ text) ≤ 254)
IsLine (entry j) = IsName j.pid × (length (write_entry j) ≤ 254) × IsInt j.arrival × IsInt j.burst

abbrev pub AllLines : List Line → Type 0
AllLines [] = Unit {0}
AllLines (l ∷ ls) = IsLine l × AllLines ls

-- The jobs of the entries.
abbrev pub jobs_of : List Line → List Job
jobs_of [] = []
jobs_of (comment text ∷ ls) = jobs_of ls
jobs_of (entry j ∷ ls) = j ∷ jobs_of ls

line_steps :
    (line pid s1 s3 s5 : List ℕ) (at bt : ℤ)
    → is_skipped line ≡ false
    → skip_spaces line ≡ line
    → scan_text not_space max_pid_chars line ≡ some (pid, s1)
    → scan_d s1 ≡ some (at, s3)
    → scan_d s3 ≡ some (bt, s5)
    → parse_process_line line ≡ some (init_process pid at bt)
unfolding parse_process_line scan_line
line_steps line pid s1 s3 s5 at bt sk sp a b c = rw (sk, sp, a, b, c) refl

scan_d-space : (s : List ℕ) → scan_d (b' ' ∷ s) ≡ scan_d s
unfolding scan_d scan_int skip_spaces
scan_d-space s = refl

-- An entry, with the newline that fgets leaves.
entry_text :
    (j : Job)
    → write_entry j ++ b'\n' ∷ []
      ≡ j.pid ++ (b' ' ∷ (print_int j.arrival ++ b' ' ∷ (print_int j.burst ++ b'\n' ∷ [])))
entry_text j =
    append_assoc j.pid _ _
    ∙ ap (λ t. j.pid ++ b' ' ∷ t) (append_assoc (print_int j.arrival) (b' ' ∷ print_int j.burst) _)

not_skipped :
    (c : ℕ) (s : List ℕ) → not_space c ≡ true → (c == b'#') ≡ false → is_skipped (c ∷ s) ≡ false
not_skipped c s p h = ground (arith, p, h)

no_space : (c : ℕ) (s : List ℕ) → not_space c ≡ true → skip_spaces (c ∷ s) ≡ c ∷ s
unfolding skip_spaces
no_space c s p = ground (arith, p)

parse_named :
    (pid : List ℕ) (at bt : ℤ)
    → IsName pid
    → IsInt at
    → IsInt bt
    → parse_process_line (pid ++ (b' ' ∷ (print_int at ++ b' ' ∷ (print_int bt ++ b'\n' ∷ []))))
      ≡ some (init_process pid at bt)
parse_named [] at bt h a b = elim h [ ]
parse_named (c ∷ s) at bt (name _ _ p h le) a b =
    let behind = print_int bt ++ b'\n' ∷ [] in
    let numbers = print_int at ++ b' ' ∷ behind in
    line_steps ((c ∷ s) ++ b' ' ∷ numbers) (c ∷ s) (b' ' ∷ numbers) (b' ' ∷ behind) (b'\n' ∷ []) at
      bt (not_skipped c (s ++ b' ' ∷ numbers) p.0 h) (no_space c (s ++ b' ' ∷ numbers) p.0)
      (scan_text-append not_space max_pid_chars c s (b' ' ∷ numbers) p le refl)
      (scan_d-space numbers ∙ scan_d-print_int at (b' ' ∷ behind) a refl)
      (scan_d-space behind ∙ scan_d-print_int bt (b'\n' ∷ []) b refl)

parse-write_entry :
    (j : Job)
    → IsName j.pid
    → IsInt j.arrival
    → IsInt j.burst
    → parse_process_line (write_entry j ++ b'\n' ∷ []) ≡ some (job_process j)
parse-write_entry j n a b =
    ap parse_process_line (entry_text j) ∙ parse_named j.pid j.arrival j.burst n a b

fill_entry :
    (line : List ℕ) (lines : List (List ℕ)) (n : ℕ) (p : Process) (procs : ℕ → Process)
    → parse_process_line line ≡ some p
    → fill_lines (line ∷ lines) n procs ≡ fill_lines lines (n + 1) (modify procs n (λ _. p))
unfolding fill_lines
fill_entry line lines n p procs e = rw e refl

fill_comment :
    (text : List ℕ) (lines : List (List ℕ)) (n : ℕ) (procs : ℕ → Process)
    → fill_lines ((b'#' ∷ text) ∷ lines) n procs ≡ fill_lines lines n procs
unfolding fill_lines parse_process_line
fill_comment text lines n procs = refl

fill_lines-below :
    (ls : List Line) (n k : ℕ) (procs : ℕ → Process)
    → AllLines ls
    → k < n
    → (fill_lines (end_lines (map write_line ls)) n procs).0 k ≡ procs k
unfolding fill_lines
fill_lines-below [] n k procs w lt = refl
fill_lines-below (comment text ∷ ls) n k procs (w, ws) lt =
    ap (λ r. r.0 k) (fill_comment (text ++ b'\n' ∷ []) (end_lines (map write_line ls)) n procs)
    ∙ fill_lines-below ls n k procs ws lt
fill_lines-below (entry j ∷ ls) n k procs (w, ws) lt =
    ap (λ r. r.0 k)
      (fill_entry (write_entry j ++ b'\n' ∷ []) (end_lines (map write_line ls)) n (job_process j)
        procs (parse-write_entry j w.0 w.2 w.3))
    ∙ fill_lines-below ls (n + 1) k _ ws (omega (arith, lt))
    ∙ ground (arith, lt)

fill_lines-Holds :
    (ls : List Line) (n : ℕ) (procs : ℕ → Process)
    → AllLines ls
    → Holds (fill_lines (end_lines (map write_line ls)) n procs).0 n (jobs_of ls)
      × ((fill_lines (end_lines (map write_line ls)) n procs).1 ≡ n + length (jobs_of ls))
unfolding fill_lines
fill_lines-Holds [] n procs w = (tt, omega arith)
fill_lines-Holds (comment text ∷ ls) n procs (w, ws) =
    subst (λ r. Holds r.0 n (jobs_of ls) × (r.1 ≡ n + length (jobs_of ls)))
      (sym (fill_comment (text ++ b'\n' ∷ []) (end_lines (map write_line ls)) n procs))
      (fill_lines-Holds ls n procs ws)
fill_lines-Holds (entry j ∷ ls) n procs (w, ws) =
    let (held, counted) = fill_lines-Holds ls (n + 1) (modify procs n (λ _. job_process j)) ws in
    subst (λ r. Holds r.0 n (j ∷ jobs_of ls) × (r.1 ≡ n + length (j ∷ jobs_of ls)))
      (sym (
        fill_entry (write_entry j ++ b'\n' ∷ []) (end_lines (map write_line ls)) n (job_process j)
          procs (parse-write_entry j w.0 w.2 w.3)))
      (
        (fill_lines-below ls (n + 1) n _ ws (omega arith) ∙ rw (==_refl n) refl, held),
        omega (arith, counted),
      )

name-no_newline : (pid : List ℕ) → IsName pid → Passes (λ c. not (c == b'\n')) pid
name-no_newline [] n = elim n [ ]
name-no_newline (c ∷ s) (name _ _ p h le) = Passes-weaken _ _ (c ∷ s) (λ d e. ground (arith, e)) p

AllLines-Lines : (ls : List Line) → AllLines ls → Lines (map write_line ls)
AllLines-Lines [] w = tt
AllLines-Lines (comment text ∷ ls) ((p, le), ws) = ((refl, p), le, AllLines-Lines ls ws)
AllLines-Lines (entry j ∷ ls) ((n, le, _, _), ws) = (
  Passes-append _ j.pid _ (name-no_newline j.pid n)
      (refl, Passes-append _ (print_int j.arrival) _ (digits j.arrival) (refl, digits j.burst)),
  le,
  AllLines-Lines ls ws,
)
  where
    digits : (z : ℤ) → Passes (λ c. not (c == b'\n')) (print_int z)
    digits z = print_int-Passes (λ c. not (c == b'\n')) z (λ c h. ground (arith, h)) refl

-- A workload file that is written from comment lines and jobs, each line of at most 254 characters
-- each name of 1 to 15 characters without white space and without a `#` in front, and each arrival and
-- burst one that fits an `int`, is read back: the comments are skipped, and there are as many processes as jobs, each the job's initialised
-- process.
pub parse_workload_file-write_lines :
    (files : List ℕ → Option (List ℕ)) (memory : ℕ → Process) (filename : List ℕ) (ls : List Line)
    → AllLines ls
    → files filename ≡ some (write_lines (map write_line ls))
    → (procs : ℕ → Process) × (parse_workload_file files memory filename
        ≡ some (procs, length (jobs_of ls)))
      × Holds procs 0 (jobs_of ls)
unfolding parse_workload_file
parse_workload_file-write_lines files memory filename ls w e =
    let (held, counted) = fill_lines-Holds ls 0 memory w in
    (
      (fill_lines (end_lines (map write_line ls)) 0 memory).0,
      rw (e, parse_workload_file)
          (ap some (
            ap (λ ts. fill_lines ts 0 memory) (fgets_lines-write_lines _ (AllLines-Lines ls w))
            ∙ ap (λ n. ((fill_lines (end_lines (map write_line ls)) 0 memory).0, n))
                (counted ∙ omega arith))),
      held,
    )
