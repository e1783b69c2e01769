-- ===== src/Policy/ShortestFirst/Dispatch.antt =====
-- The dispatch of src/core/scheduler.c, under src/algorithms/sjf.c.
use native.Mathlib.Decide.{ℕ_discrete}
use cpu_scheduler_simulator.Base.{
  ℕ, ◌<◌, ◌≡◌, ◌≢◌, ◌⊎◌, refl, sym, ap, ◌∙◌, subst, Bool, true, false, not, ◌||◌, Option, none,
  some, arith, pos, negsuc, neg_part, ◌<ℤ◌, ==_refl, ==_false, if◌then◌else◌, inl, inr, none≢some,
  some-inj,
}
use cpu_scheduler_simulator.Process.{Process, not_arrived, running, is_ready, process_start}
use cpu_scheduler_simulator.State.{SchedulerState}
use cpu_scheduler_simulator.Engine.{
  modify_process, is_some, set_preempt, handle_dispatch, redispatch, mark_previous,
  call_next_process, start_next, count_switch, resume, switch_to,
}
use cpu_scheduler_simulator.Policy.Sjf.{sjf_policy, sjf_next_process}
use cpu_scheduler_simulator.Policy.Selection.{Selects, Shortest, sjf_next_process-Selects}
use cpu_scheduler_simulator.Policy.ShortestFirst.{
  Times, times, NoLonger, Ordered, Waiting, OnCpu, Straight, Line,
}
use cpu_scheduler_simulator.Policy.ShortestFirst.Stages.{change-each}

-- Every process that is due has arrived.
abbrev pub AllHere : ℕ → SchedulerState → Type 0
AllHere n s =
    (i : ℕ)
    → i < n
    → (s.processes i).state ≡ not_arrived
    → pos s.current_time <ℤ (s.processes i).arrival_time

-- A process that is ready waits.
ready-Waiting :
    (t : ℕ) (run : Option ℕ) (i : ℕ) (p : Process)
    → Straight t run i p
    → is_ready p.state ≡ true
    → Waiting p
ready-Waiting t run i p (inl w) rd = w
ready-Waiting t run i p (inr (inl o)) rd = cc (rd, o.runs)
ready-Waiting t run i p (inr (inr o)) rd = cc (rd, o.over)

process_start-OnCpu : (t k : ℕ) (p : Process) → Waiting p → OnCpu t (some k) k (process_start t p)
unfolding process_start
process_start-OnCpu t k p w = record {
  runs = ground arith;
  is_it = refl;
  started = ground (arith, w.no_start);
  started_by = ground (arith, w.no_start);
  left_nonneg = ground (arith, w.no_start, w.all_left, w.burst_nonneg);
  straight = ground (arith, w.no_start, w.all_left);
}

process_start-times :
    (t : ℕ) (p : Process)
    → p.start_time ≡ negsuc 0
    → times (process_start t p) ≡ record (times p) { start = pos t }
unfolding process_start
process_start-times t p e = ground (arith, e)

-- A process starts at `t` that has a burst no longer than the others that are there.
start-Ordered :
    (k k' : ℕ → Times) (n t p : ℕ)
    → ((j : ℕ) → j ≢ p → k' j ≡ k j)
    → k' p ≡ record (k p) { start = pos t }
    → (k p).start ≡ negsuc 0
    → p < n
    → ((j : ℕ) → j < n → NoLonger (record (k p) { start = pos t }) (k j))
    → Ordered k n
    → Ordered k' n
start-Ordered k k' n t p off now unstarted p_lt least h i j i_lt j_lt = elim (ℕ_discrete i p) [
  | yes e ↦ elim (ℕ_discrete j p) [
    | yes e' ↦ rw (e, e', now) (λ a b c. omega arith)
    | no ne' ↦ rw (e, now, off j ne') (least j j_lt)
  ]
  | no ne ↦ elim (ℕ_discrete j p) [
    | yes e' ↦ rw (e', now, off i ne) (λ a b c. h i p i_lt p_lt a b (inl unstarted))
    | no ne' ↦ rw (off i ne, off j ne') (h i j i_lt j_lt)
  ]
]

-- With nobody on the CPU, a process that has not started by `t` waits.
late-Waiting :
    (t : ℕ) (run : Option ℕ) (i : ℕ) (p : Process)
    → run ≡ none
    → Straight t run i p
    → (p.start_time ≡ negsuc 0) ⊎ (pos t <ℤ p.start_time)
    → Waiting p
late-Waiting t run i p idle (inl w) late = w
late-Waiting t run i p idle (inr (inl o)) late = absurd (none≢some i (sym idle ∙ o.is_it))
late-Waiting t run i p idle (inr (inr o)) (inl e) = absurd (omega (arith, ap neg_part e, o.started))
late-Waiting t run i p idle (inr (inr o)) (inr lt) = absurd (omega (arith, lt, o.started_by))

start_next-Line :
    (n : ℕ) (s : SchedulerState) (k : ℕ)
    → Line n s
    → AllHere n s
    → s.running_process ≡ none
    → Selects (Shortest (λ p. p.burst_time)) s (some k)
    → Line n (set_preempt (start_next s (some k)) false)
unfolding start_next
start_next-Line n s k h here idle (k_lt, rd, least) =
    let lt : k < n = omega (arith, k_lt, h.num) in
    let w = ready-Waiting s.current_time s.running_process k (s.processes k) (h.each k lt) rd in
    let o = process_start-OnCpu s.current_time k (s.processes k) w in
    record {
      num = h.num;
      calm = refl;
      each =
          change-each n s.current_time s k s.running_process (some k) (process_start s.current_time)
            h.each (λ i ne. inr (λ e. none≢some i (sym idle ∙ e))) (inr (inl o));
      ordered =
          start-Ordered (λ i. times (s.processes i))
            (λ i. times ((modify_process s k (process_start s.current_time)).processes i)) n
            s.current_time k (λ j ne. rw (==_false j k ne) refl)
            (rw (==_refl k) (process_start-times s.current_time (s.processes k) w.no_start))
            w.no_start lt
            (λ j j_lt started due late.
              let w' =
                late-Waiting s.current_time s.running_process j (s.processes j) idle (h.each j j_lt)
                  late in
              elim w'.outside [
                | inl out ↦ absurd (omega (arith, here j j_lt out, due))
                | inr rd' ↦ (least j (rw h.num j_lt) (ap is_ready rd')).0
              ])
            h.ordered;
      in_range = λ r e.
          subst
            (λ j.
              (j < n)
              × (((modify_process s k (process_start s.current_time)).processes j).state ≡ running))
            (some-inj k r e) (lt, rw (==_refl k) o.runs);
    }

switch_to-Line :
    (n : ℕ) (s : SchedulerState) (next : Option ℕ)
    → Line n s
    → AllHere n s
    → s.running_process ≡ none
    → Selects (Shortest (λ p. p.burst_time)) s next
    → Line n (set_preempt (switch_to s none next) false)
unfolding switch_to start_next count_switch resume
switch_to-Line n s none h here idle c = record {
  num = h.num;
  calm = refl;
  each = h.each;
  ordered = h.ordered;
  in_range = h.in_range;
}
switch_to-Line n s (some k) h here idle c = start_next-Line n s k h here idle c

redispatch-Line :
    (n : ℕ) (s : SchedulerState)
    → Line n s
    → AllHere n s
    → s.running_process ≡ none
    → Line n (redispatch s sjf_policy)
unfolding redispatch mark_previous call_next_process sjf_next_process
redispatch-Line n s h here idle =
    subst
      (λ run. Line n (
        set_preempt (switch_to (mark_previous s run) run (sjf_next_process (mark_previous s run)).0)
          false))
      (sym idle)
      (switch_to-Line n s (sjf_next_process s).0 h here idle (sjf_next_process-Selects s))

pub handle_dispatch-Line :
    (n : ℕ) (s : SchedulerState) → Line n s → AllHere n s → Line n (handle_dispatch s sjf_policy)
unfolding handle_dispatch
handle_dispatch-Line n s h here = go (not (is_some s.running_process) || s.preempt_requested) refl
  where
    go :
        (b : Bool)
        → (not (is_some s.running_process) || s.preempt_requested) ≡ b
        → Line n (if b then redispatch s sjf_policy else s)
    go true ask = redispatch-Line n s h here (nobody s.running_process (rw h.calm at ask))
      where
        nobody : (o : Option ℕ) → (not (is_some o) || false) ≡ true → o ≡ none
        nobody none e = refl
        nobody (some r) e = cc e
    go false on = h
