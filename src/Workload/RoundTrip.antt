-- ===== src/Workload/RoundTrip.antt =====
-- A workload written out and read back by src/core/process.c.
use cpu_scheduler_simulator.Base.{
  ℕ, ◌+◌, ◌/◌, ◌*◌, ◌≤◌, ◌<◌, ◌≡◌, ◌≢◌, refl, sym, ap, ◌∙◌, subst, Bool, ◌&&◌, not, some, List, [],
  ◌∷◌, ◌++◌, ℤ, arith, lt→ltb, ==_refl, length, map, modify, count, count-append,
}
use mathlib.Core.List.{append-nil}
use cpu_scheduler_simulator.Process.{Process, init_process, max_pid_chars}
use cpu_scheduler_simulator.Clib.{IsInt, scan_text, scan_d, print_int}
use cpu_scheduler_simulator.Clib.Decimal.{scan_d-print_int, print_int-Passes}
use cpu_scheduler_simulator.Clib.Tokens.{
  Passes, Passes-append, Passes-weaken, count-Passes, Ends, scan_text-append, join, Fields,
  strtok-join,
}
use cpu_scheduler_simulator.Workload.{
  count_processes, not_colon, is_comma, parse_process_token, fill_tokens, parse_workload_string,
}

-- The input of one process.
pub record Job : Type 0 where
  pub pid : List ℕ
  pub arrival : ℤ
  pub burst : ℤ

abbrev pub job_process : Job → Process
job_process j = init_process j.pid j.arrival j.burst

-- "PID:AT:BT"
abbrev pub write_token : Job → List ℕ
write_token j = j.pid ++ b':' ∷ (print_int j.arrival ++ b':' ∷ print_int j.burst)

-- A job that an inline workload can carry: a name of 1 to 15 characters, no colon and no comma, and
-- two values of `int`.
pub record Writable (j : Job) : Type 0 where
  pub nonempty : j.pid ≢ []
  pub short : length j.pid ≤ max_pid_chars
  pub plain : Passes (λ c. not_colon c && not (is_comma c)) j.pid
  pub arrival_fits : IsInt j.arrival
  pub burst_fits : IsInt j.burst

scan_pid :
    (test : ℕ → Bool) (pid rest : List ℕ)
    → pid ≢ []
    → length pid ≤ max_pid_chars
    → Passes test pid
    → Ends test rest
    → scan_text test max_pid_chars (pid ++ rest) ≡ some (pid, rest)
scan_pid test [] rest ne le p e = absurd (ne refl)
scan_pid test (c ∷ s) rest ne le p e = scan_text-append test max_pid_chars c s rest p le e

token_steps :
    (token pid s1 s3 s5 : List ℕ) (at bt : ℤ)
    → scan_text not_colon max_pid_chars token ≡ some (pid, b':' ∷ s1)
    → scan_d s1 ≡ some (at, b':' ∷ s3)
    → scan_d s3 ≡ some (bt, s5)
    → parse_process_token token ≡ some (init_process pid at bt)
unfolding parse_process_token
token_steps token pid s1 s3 s5 at bt a b c = rw (a, b, c) refl

parse_process_token-write_token :
    (j : Job) → Writable j → parse_process_token (write_token j) ≡ some (job_process j)
parse_process_token-write_token j w =
    token_steps (write_token j) j.pid _ (print_int j.burst) [] j.arrival j.burst
      (scan_pid not_colon j.pid _ w.nonempty w.short
        (Passes-weaken _ not_colon j.pid (λ c h. ground (arith, h)) w.plain) refl)
      (scan_d-print_int j.arrival (b':' ∷ print_int j.burst) w.arrival_fits refl)
      (ap scan_d (sym (append-nil (print_int j.burst)))
        ∙ scan_d-print_int j.burst [] w.burst_fits tt)

abbrev pub AllWritable : List Job → Type 0
AllWritable [] = Unit {0}
AllWritable (j ∷ jobs) = Writable j × AllWritable jobs

-- The entries from index `i` on are those of the jobs.
abbrev pub Holds : (ℕ → Process) → ℕ → List Job → Type 0
Holds procs i [] = Unit {0}
Holds procs i (j ∷ jobs) = (procs i ≡ job_process j) × Holds procs (i + 1) jobs

fill_step :
    (token : List ℕ) (p : Process) (tokens : List (List ℕ)) (i count : ℕ) (procs : ℕ → Process)
    → parse_process_token token ≡ some p
    → i < count
    → fill_tokens (token ∷ tokens) i count procs
      ≡ fill_tokens tokens (i + 1) count (modify procs i (λ _. p))
unfolding fill_tokens
fill_step token p tokens i count procs e lt = rw (lt→ltb i count lt, e) refl

fill_tokens-below :
    (jobs : List Job) (i count k : ℕ) (procs : ℕ → Process)
    → AllWritable jobs
    → i + length jobs ≤ count
    → k < i
    → fill_tokens (map write_token jobs) i count procs k ≡ procs k
unfolding fill_tokens
fill_tokens-below [] i count k procs w le lt = refl
fill_tokens-below (j ∷ jobs) i count k procs (w, ws) le lt =
    ap (λ f. f k)
      (fill_step (write_token j) (job_process j) (map write_token jobs) i count procs
        (parse_process_token-write_token j w) (omega (arith, le)))
    ∙ fill_tokens-below jobs (i + 1) count k _ ws (omega (arith, le)) (omega (arith, lt))
    ∙ ground (arith, lt)

fill_tokens-Holds :
    (jobs : List Job) (i count : ℕ) (procs : ℕ → Process)
    → AllWritable jobs
    → i + length jobs ≤ count
    → Holds (fill_tokens (map write_token jobs) i count procs) i jobs
fill_tokens-Holds [] i count procs w le = tt
fill_tokens-Holds (j ∷ jobs) i count procs (w, ws) le =
    let e =
      fill_step (write_token j) (job_process j) (map write_token jobs) i count procs
        (parse_process_token-write_token j w) (omega (arith, le)) in
    subst (λ f. Holds f i (j ∷ jobs)) (sym e)
      (
        fill_tokens-below jobs (i + 1) count i _ ws (omega (arith, le)) (omega arith)
            ∙ rw (==_refl i) refl,
        fill_tokens-Holds jobs (i + 1) count _ ws (omega (arith, le)),
      )

no_colon : (z : ℤ) → count b':' (print_int z) ≡ 0
no_colon z =
    count-Passes not_colon b':' (print_int z) refl
      (print_int-Passes not_colon z (λ c h. ground (arith, h)) refl)

count-write_token : (j : Job) → Writable j → count b':' (write_token j) ≡ 2
count-write_token j w = omega (
  arith,
  count-append b':' j.pid (b':' ∷ (print_int j.arrival ++ b':' ∷ print_int j.burst)),
  count-append b':' (print_int j.arrival) (b':' ∷ print_int j.burst),
  count-Passes not_colon b':' j.pid refl
      (Passes-weaken _ not_colon j.pid (λ c h. ground (arith, h)) w.plain),
  no_colon j.arrival,
  no_colon j.burst,
)

count-join :
    (jobs : List Job)
    → AllWritable jobs
    → count b':' (join b',' (map write_token jobs)) ≡ 2 * length jobs
count-join [] w = refl
count-join (j ∷ []) (w, ws) = omega (arith, count-write_token j w)
count-join (j ∷ k ∷ jobs) (w, ws) = omega (
  arith,
  count-append b':' (write_token j) (b',' ∷ join b',' (map write_token (k ∷ jobs))),
  count-write_token j w,
  count-join (k ∷ jobs) ws,
)

write_token-Passes : (j : Job) → Writable j → Passes (λ c. not (is_comma c)) (write_token j)
write_token-Passes j w =
    Passes-append _ j.pid _ (Passes-weaken _ _ j.pid (λ c h. ground (arith, h)) w.plain)
      (refl, Passes-append _ (print_int j.arrival) _ (digits j.arrival) (refl, digits j.burst))
  where
    digits : (z : ℤ) → Passes (λ c. not (is_comma c)) (print_int z)
    digits z = print_int-Passes (λ c. not (is_comma c)) z (λ c h. ground (arith, h)) refl

Fields-cons :
    (s : List ℕ) (fields : List (List ℕ))
    → s ≢ []
    → Passes (λ c. not (is_comma c)) s
    → Fields is_comma fields
    → Fields is_comma (s ∷ fields)
Fields-cons [] fields ne p f = absurd (ne refl)
Fields-cons (c ∷ s) fields ne p f = (p, f)

append_nonempty : (s t : List ℕ) → s ≢ [] → s ++ t ≢ []
append_nonempty [] t h e = h refl
append_nonempty (c ∷ s) t h e = cc e

write_token-Fields : (jobs : List Job) → AllWritable jobs → Fields is_comma (map write_token jobs)
write_token-Fields [] w = tt
write_token-Fields (j ∷ jobs) (w, ws) =
    Fields-cons (write_token j) (map write_token jobs)
      (append_nonempty j.pid (b':' ∷ (print_int j.arrival ++ b':' ∷ print_int j.burst)) w.nonempty)
      (write_token-Passes j w) (write_token-Fields jobs ws)

-- An inline workload that is written from jobs whose names have 1 to 15 characters and hold neither
-- a colon nor a comma, and whose arrival and burst fit an `int`, is read back: as many processes as jobs, each the job's initialised process.
pub parse_workload_string-join :
    (memory : ℕ → Process) (jobs : List Job)
    → AllWritable jobs
    → Holds (parse_workload_string memory (join b',' (map write_token jobs))).0 0 jobs
      × ((parse_workload_string memory (join b',' (map write_token jobs))).1 ≡ length jobs)
unfolding parse_workload_string count_processes
parse_workload_string-join memory jobs w = (
  subst
      (λ ts.
        Holds (fill_tokens ts 0 (count_processes (join b',' (map write_token jobs))) memory) 0 jobs)
      (sym (strtok-join is_comma b',' (map write_token jobs) refl (write_token-Fields jobs w)))
      (fill_tokens-Holds jobs 0 (count_processes (join b',' (map write_token jobs))) memory w
        (omega (arith, counted))),
  counted,
)
  where
    counted : count b':' (join b',' (map write_token jobs)) / 2 ≡ length jobs
    counted = omega (arith, count-join jobs w)
