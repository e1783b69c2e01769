-- ===== src/Policy/ShortestFirst/Stages.antt =====
-- The stages of src/core/scheduler.c but the dispatch, under src/algorithms/sjf.c.
use native.Mathlib.Decide.{ℕ_discrete}
use cpu_scheduler_simulator.Base.{
  ℕ, ◌<◌, ◌≡◌, ◌≢◌, ◌⊎◌, refl, sym, ap, ◌∙◌, subst, fun_ext, true, Option, none, some, arith, pos,
  pos_part, eqb_ℤ, ==_refl, ==_false, ◌==◌, Bool-cases, Option-cases, inl, inr, none≢some, some-inj,
}
use cpu_scheduler_simulator.Process.{Process, not_arrived, running, process_tick, process_finish}
use cpu_scheduler_simulator.State.{SchedulerState}
use cpu_scheduler_simulator.Engine.{
  modify_process, mark_ready, finish_running, handle_completions, complete, arrive, arrival_due,
}
use cpu_scheduler_simulator.Policy.Sjf.{sjf_policy}
use cpu_scheduler_simulator.Policy.ShortestFirst.{times, Ordered, OnCpu, Straight, Line}

modify-times :
    (s : SchedulerState) (r i : ℕ) (f : Process → Process)
    → ((p : Process) → times (f p) ≡ times p)
    → times ((modify_process s r f).processes i) ≡ times (s.processes i)
modify-times s r i f same = elim (Bool-cases (i == r)) [
  | inl e ↦ rw e (same (s.processes i))
  | inr e ↦ rw e refl
]

-- A write that leaves the times.
pub modify-Ordered :
    (s : SchedulerState) (n r : ℕ) (f : Process → Process)
    → ((p : Process) → times (f p) ≡ times p)
    → Ordered (λ i. times (s.processes i)) n
    → Ordered (λ i. times ((modify_process s r f).processes i)) n
modify-Ordered s n r f same h =
    subst (λ k. Ordered k n) (sym (fun_ext (λ i. modify-times s r i f same))) h

-- The process on the CPU is the only one that is in this state.
pub running-OnCpu :
    (t : ℕ) (run : Option ℕ) (i : ℕ) (p : Process)
    → Straight t run i p
    → p.state ≡ running
    → OnCpu t run i p
running-OnCpu t run i p (inl w) e = elim w.outside [ inl o ↦ cc (o, e) | inr o ↦ cc (o, e) ]
running-OnCpu t run i p (inr (inl o)) e = o
running-OnCpu t run i p (inr (inr o)) e = cc (e, o.over)

-- Another process does not notice who runs.
pub rerun-Straight :
    (t r i : ℕ) (run run' : Option ℕ) (p : Process)
    → ((run ≡ some i) → ⊥)
    → Straight t run i p
    → Straight t run' i p
rerun-Straight t r i run run' p ne (inl w) = inl w
rerun-Straight t r i run run' p ne (inr (inl o)) = absurd (ne o.is_it)
rerun-Straight t r i run run' p ne (inr (inr o)) = inr (inr o)

-- A write to the process at `r`, and what runs after it.
pub change-each :
    (n t : ℕ) (s : SchedulerState) (r : ℕ) (run run' : Option ℕ) (f : Process → Process)
    → ((i : ℕ) → i < n → Straight t run i (s.processes i))
    → ((i : ℕ) → i ≢ r → (run ≡ run') ⊎ ((run ≡ some i) → ⊥))
    → Straight t run' r (f (s.processes r))
    → (i : ℕ) → i < n
    → Straight t run' i ((modify_process s r f).processes i)
change-each n t s r run run' f h other now i lt = elim (ℕ_discrete i r) [
  | yes e ↦ rw (e, ==_refl r) now
  | no ne ↦ rw (==_false i r ne) (elim (other i ne) [
    | inl same ↦ rw (sym same) (h i lt)
    | inr apart ↦ rerun-Straight t r i run run' (s.processes i) apart (h i lt)
  ])
]

process_finish-times : (t : ℕ) (p : Process) → times (process_finish t p) ≡ times p
unfolding process_finish
process_finish-times t p = refl

pub process_tick-times : (p : Process) → times (process_tick p) ≡ times p
unfolding process_tick
process_tick-times p = ground arith

pub finish_running-Line :
    (n : ℕ) (s : SchedulerState) (r : ℕ)
    → Line n s
    → s.running_process ≡ some r
    → (s.processes r).remaining_time ≡ pos 0
    → Line n (finish_running s r)
unfolding finish_running process_finish
finish_running-Line n s r h run done =
    let (lt, st) = h.in_range r run in
    let o = running-OnCpu s.current_time s.running_process r (s.processes r) (h.each r lt) st in
    record {
      num = h.num;
      calm = h.calm;
      each =
          change-each n s.current_time s r s.running_process none (process_finish s.current_time)
            h.each (λ i ne. inr (λ e. ne (some-inj i r (sym e ∙ run))))
            (inr (
              inr (record {
                over = refl;
                started = o.started;
                started_by = o.started_by;
                finish = ap pos (omega (arith, o.straight, ap pos_part done));
              })));
      ordered =
          modify-Ordered s n r (process_finish s.current_time) (process_finish-times s.current_time)
            h.ordered;
      in_range = λ k e. absurd (none≢some k e);
    }

pub handle_completions-Line :
    (n : ℕ) (s : SchedulerState) (c : ℕ) → Line n s → Line n (handle_completions s c).0
unfolding handle_completions complete
handle_completions-Line n s c h = elim (Option-cases s.running_process) [
  | inl idle ↦ rw (idle, complete) h
  | inr (r, run) ↦ elim (Bool-cases (eqb_ℤ (s.processes r).remaining_time (pos 0))) [
    | inl done ↦ rw (run, complete, done) (finish_running-Line n s r h run (ground arith))
    | inr more ↦ rw (run, complete, more) h
  ]
]

due_outside :
    (s : SchedulerState)
    → arrival_due s ≡ true
    → (s.processes s.next_arrival_idx).state ≡ not_arrived
due_outside s due = ground arith

mark_ready-Straight :
    (t : ℕ) (run : Option ℕ) (i : ℕ) (p : Process)
    → Straight t run i p
    → p.state ≡ not_arrived
    → Straight t run i (mark_ready p)
mark_ready-Straight t run i p (inl w) e = inl (record {
  outside = inr refl;
  no_start = w.no_start;
  all_left = w.all_left;
  burst_nonneg = w.burst_nonneg;
})
mark_ready-Straight t run i p (inr (inl o)) e = cc (e, o.runs)
mark_ready-Straight t run i p (inr (inr o)) e = cc (e, o.over)

due_in_range : (s : SchedulerState) → arrival_due s ≡ true → s.next_arrival_idx < s.num_processes
due_in_range s due = ground arith

pub arrive-Line :
    (n : ℕ) (s : SchedulerState)
    → arrival_due s ≡ true
    → Line n s
    → Line n (arrive sjf_policy s s.next_arrival_idx)
unfolding arrive
arrive-Line n s due h =
    let p = s.next_arrival_idx in
    let out = due_outside s due in
    let lt : p < n = omega (arith, due_in_range s due, h.num) in
    record {
      num = h.num;
      calm = h.calm;
      each =
          change-each n s.current_time s p s.running_process s.running_process mark_ready h.each
            (λ i ne. inl refl)
            (mark_ready-Straight s.current_time s.running_process p (s.processes p) (h.each p lt)
              out);
      ordered = modify-Ordered s n p mark_ready (λ q. refl) h.ordered;
      in_range = λ r e.
          let (r_lt, st) = h.in_range r e in
          (r_lt, rw (==_false r p (λ same. cc (same, out, st))) st);
    }
