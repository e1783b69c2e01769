-- ===== src/Policy/ShortestFirst/UnitEnd.antt =====
-- The end of the time unit in src/core/scheduler.c, under src/algorithms/sjf.c.
use native.Mathlib.Decide.{ℕ_discrete}
use cpu_scheduler_simulator.Base.{
  ℕ, ◌+◌, ◌<◌, ◌≡◌, refl, sym, ◌∙◌, subst, false, Option, none, some, List, arith, pos, -ℤ_parts,
  eqb_ℤ, ==_refl, ==_false, Bool-cases, Option-cases, inl, inr, none≢some, some-inj,
}
use cpu_scheduler_simulator.Process.{Process, running, process_tick}
use cpu_scheduler_simulator.State.{SchedulerState}
use cpu_scheduler_simulator.Gantt.{append_gantt_entry, append_gantt_entry_lem, idle_entry}
use cpu_scheduler_simulator.Engine.{
  modify_process, finish_running, unit_end, execute, advance_clock,
}
use cpu_scheduler_simulator.Policy.ShortestFirst.{times, Ordered, OnCpu, Straight, Line}
use cpu_scheduler_simulator.Policy.ShortestFirst.Stages.{
  modify-Ordered, running-OnCpu, finish_running-Line, process_tick-times,
}

-- The state at the end of a time unit, before the clock moves: the process on the CPU is one unit
-- ahead of the clock.
record Ahead (n : ℕ) (s : SchedulerState) : Type 0 where
  num : s.num_processes ≡ n
  calm : s.preempt_requested ≡ false
  each : (i : ℕ) → i < n → Straight (s.current_time + 1) s.running_process i (s.processes i)
  ordered : Ordered (λ i. times (s.processes i)) n
  in_range : (r : ℕ) → s.running_process ≡ some r → (r < n) × ((s.processes r).state ≡ running)

log-Line :
    (n : ℕ) (s : SchedulerState) (e : List ℕ)
    → Ahead n s
    → Line n (advance_clock (append_gantt_entry s e))
unfolding advance_clock
log-Line n s e h = rw (append_gantt_entry_lem s e) (record {
  num = h.num;
  calm = h.calm;
  each = h.each;
  ordered = h.ordered;
  in_range = h.in_range;
})

-- With nobody on the CPU, time may pass.
idle-Straight :
    (t i : ℕ) (run : Option ℕ) (p : Process)
    → (run ≡ some i → ⊥)
    → Straight t run i p
    → Straight (t + 1) run i p
idle-Straight t i run p ne (inl w) = inl w
idle-Straight t i run p ne (inr (inl o)) = absurd (ne o.is_it)
idle-Straight t i run p ne (inr (inr o)) = inr (
    inr (record {
      over = o.over;
      started = o.started;
      started_by = omega (arith, o.started_by);
      finish = o.finish;
    }))

idle-Ahead : (n : ℕ) (s : SchedulerState) → s.running_process ≡ none → Line n s → Ahead n s
idle-Ahead n s idle h = record {
  num = h.num;
  calm = h.calm;
  each = λ i lt.
      idle-Straight s.current_time i s.running_process (s.processes i)
        (λ e. none≢some i (sym idle ∙ e)) (h.each i lt);
  ordered = h.ordered;
  in_range = h.in_range;
}

tick-Straight :
    (t r : ℕ) (run : Option ℕ) (p : Process)
    → eqb_ℤ p.remaining_time (pos 0) ≡ false
    → OnCpu t run r p
    → Straight (t + 1) run r (process_tick p)
unfolding process_tick
tick-Straight t r run p more o =
    let less = -ℤ_parts p.remaining_time (pos 1) in
    inr (
      inl (record {
        runs = ground (arith, o.runs);
        is_it = o.is_it;
        started = ground (arith, o.started);
        started_by = ground (arith, o.started_by);
        left_nonneg = ground (arith, less, o.left_nonneg, more);
        straight = ground (arith, less, o.straight, o.left_nonneg, more);
      }))

process_tick-state : (p : Process) → (process_tick p).state ≡ p.state
unfolding process_tick
process_tick-state p = ground arith

tick-Ahead :
    (n : ℕ) (s : SchedulerState) (r : ℕ)
    → s.running_process ≡ some r
    → eqb_ℤ (s.processes r).remaining_time (pos 0) ≡ false
    → Line n s
    → Ahead n (modify_process s r process_tick)
tick-Ahead n s r run more h =
    let (lt, st) = h.in_range r run in
    let o = running-OnCpu s.current_time s.running_process r (s.processes r) (h.each r lt) st in
    record {
      num = h.num;
      calm = h.calm;
      each = λ i i_lt. elim (ℕ_discrete i r) [
        | yes e ↦
            rw (e, ==_refl r)
              (tick-Straight s.current_time r s.running_process (s.processes r) more o)
        | no ne ↦ rw (==_false i r ne) (
            idle-Straight s.current_time i s.running_process (s.processes i)
              (λ e. ne (some-inj i r (sym e ∙ run))) (h.each i i_lt))
      ];
      ordered = modify-Ordered s n r process_tick process_tick-times h.ordered;
      in_range = λ k e.
          subst (λ j. (j < n) × (((modify_process s r process_tick).processes j).state ≡ running))
            (some-inj r k (sym run ∙ e))
            (lt, rw (==_refl r) (process_tick-state (s.processes r) ∙ st));
    }

pub unit_end-Line :
    (n : ℕ) (s : SchedulerState) (c : ℕ) → Line n s → Line n (unit_end s c s.running_process).0
unfolding unit_end execute finish_running
unit_end-Line n s c h = elim (Option-cases s.running_process) [
  | inl idle ↦ rw (idle, unit_end) (log-Line n s idle_entry (idle-Ahead n s idle h))
  | inr (r, run) ↦ elim (Bool-cases (eqb_ℤ (s.processes r).remaining_time (pos 0))) [
    | inl done ↦
        rw (run, unit_end, done)
          (log-Line n (finish_running s r) idle_entry (
            idle-Ahead n (finish_running s r) refl
              (finish_running-Line n s r h run (ground arith))))
    | inr more ↦
        rw (run, unit_end, more)
          (log-Line n (modify_process s r process_tick) (s.processes r).pid
            (tick-Ahead n s r run more h))
  ]
]
