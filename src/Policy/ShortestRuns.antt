-- ===== src/Policy/ShortestRuns.antt =====
-- A whole run under src/algorithms/stcf.c: the process on the CPU has the shortest remaining time.
use cpu_scheduler_simulator.Base.{
  ℕ, ◌+◌, ◌<◌, ◌≡◌, refl, sym, ◌∙◌, Bool, true, false, not, ◌||◌, Option, none, some, arith, pos,
  ◌≤ℤ◌, -ℤ_parts, ltb_ℤ, if◌then◌else◌, Bool-cases, inl, inr, none≢some, some-inj,
}
use cpu_scheduler_simulator.Process.{Process, is_ready, process_start, process_tick}
use cpu_scheduler_simulator.State.{SchedulerState}
use cpu_scheduler_simulator.Engine.{
  modify_process, mark_ready, handle_completions, arrive, handle_arrivals, handle_tick,
  handle_dispatch, redispatch, mark_previous, call_next_process, is_some, before_execution,
  finish_unit, step_simulation, call_hook,
}
use cpu_scheduler_simulator.Engine.Reach.{
  Reached, Reached-keeps, handle_arrivals-keeps, step_simulation-stages,
}
use cpu_scheduler_simulator.Policy.Stcf.{
  stcf_policy, stcf_next_process, stcf_arrival, stcf_on_arrival,
}
use cpu_scheduler_simulator.Policy.Selection.{Selects, Shortest, stcf_next_process-Selects}
use cpu_scheduler_simulator.Policy.LeastRuns.{
  Measure, LeastRuns, TakesLeast, Settled, mark_previous-running, mark_ready-Least,
  switch_to-LeastRuns, handle_completions-Settled, unit_end-Settled,
}

process_start-remaining :
    (now : ℕ) (p : Process) → (process_start now p).remaining_time ≡ p.remaining_time
unfolding process_start
process_start-remaining now p = ground arith

process_tick-lowers : (p : Process) → (process_tick p).remaining_time ≤ℤ p.remaining_time
unfolding process_tick
process_tick-lowers p = ground (arith, -ℤ_parts p.remaining_time (pos 1))

abbrev time_left : Measure
time_left = record {
  key = λ p. p.remaining_time;
  key_state = λ p st. refl;
  key_start = process_start-remaining;
  key_tick = process_tick-lowers;
}

-- The process on the CPU, if there is one, has the least left: no ready process has less.
abbrev pub ShortestRuns : SchedulerState → Type 0
ShortestRuns s =
    (r : ℕ)
    → s.running_process ≡ some r
    → (i : ℕ) → i < s.num_processes
    → is_ready (s.processes i).state ≡ true
    → (s.processes r).remaining_time ≤ℤ (s.processes i).remaining_time

-- So it is unless the CPU was asked for.
abbrev Unasked : SchedulerState → Type 0
Unasked s = s.preempt_requested ≡ false → LeastRuns time_left s

arrive-Unasked : (s : SchedulerState) (p : ℕ) → Unasked s → Unasked (arrive stcf_policy s p)
unfolding arrive stcf_on_arrival stcf_arrival
arrive-Unasked s p h = go s.running_process refl
  where
    t : SchedulerState
    t = modify_process s p mark_ready

    next : SchedulerState → SchedulerState
    next u = record u { engine = record u.engine { next_arrival_idx = u.next_arrival_idx + 1 } }

    go : (run : Option ℕ) → s.running_process ≡ run → Unasked (next (stcf_arrival t p run))
    go none idle = λ calm r e. absurd (none≢some r (sym idle ∙ e))
    go (some q) busy =
        elim (Bool-cases (ltb_ℤ (t.processes p).remaining_time (t.processes q).remaining_time)) [
          | inl less ↦ rw less (λ calm. cc calm)
          | inr more ↦ rw more (λ calm r e.
              mark_ready-Least time_left s p r (ground (arith, more, some-inj q r (sym busy ∙ e)))
                (h calm r e))
        ]

choice-TakesLeast :
    (s : SchedulerState) (next : Option ℕ)
    → Selects (Shortest (λ p. p.remaining_time)) s next
    → TakesLeast time_left s next
choice-TakesLeast s none h = λ k e. absurd (none≢some k e)
choice-TakesLeast s (some m) (_, _, least) =
    λ k e i lt rd. rw (sym (some-inj m k e)) (least i lt rd).0

redispatch-Settled : (s : SchedulerState) → Settled time_left (redispatch s stcf_policy)
unfolding redispatch call_next_process stcf_next_process
redispatch-Settled s = (
  refl,
  switch_to-LeastRuns time_left (mark_previous s s.running_process) s.running_process
      (stcf_next_process (mark_previous s s.running_process)).0
      (mark_previous-running s s.running_process)
      (choice-TakesLeast (mark_previous s s.running_process) _
        (stcf_next_process-Selects (mark_previous s s.running_process))),
)

handle_dispatch-Settled :
    (s : SchedulerState) → Unasked s → Settled time_left (handle_dispatch s stcf_policy)
unfolding handle_dispatch
handle_dispatch-Settled s h = go (not (is_some s.running_process) || s.preempt_requested) refl
  where
    go :
        (b : Bool)
        → (not (is_some s.running_process) || s.preempt_requested) ≡ b
        → Settled time_left (if b then redispatch s stcf_policy else s)
    go true ask = redispatch-Settled s
    go false on = let calm : s.preempt_requested ≡ false = ground arith in (calm, h calm)

before_execution-Settled :
    (s : SchedulerState) → Unasked s → Settled time_left (before_execution s stcf_policy)
unfolding before_execution handle_tick
before_execution-Settled s h =
    handle_dispatch-Settled (handle_arrivals s stcf_policy)
      (handle_arrivals-keeps Unasked stcf_policy (λ u due. arrive-Unasked u u.next_arrival_idx) s h)

step_simulation-Settled :
    (s : SchedulerState) (c : ℕ)
    → Settled time_left s
    → Settled time_left (step_simulation s stcf_policy c).0
unfolding finish_unit
step_simulation-Settled s c h =
    let done = handle_completions-Settled time_left s c h in
    step_simulation-stages (λ u d. Settled time_left u) stcf_policy s c done
      (λ more.
        unit_end-Settled time_left (before_execution (handle_completions s c).0 stcf_policy)
          (handle_completions s c).1
          (before_execution (handle_completions s c).0 stcf_policy).running_process refl
          (before_execution-Settled (handle_completions s c).0 (λ e. done.1)))

module _ {s t : SchedulerState} {c : ℕ} where
  -- In every state of a run of STCF between two time units, if the run starts with no preemption
  -- asked for: no ready process has less time left than the process on the CPU.
  pub Reached-ShortestRuns :
      s.preempt_requested ≡ false → Reached stcf_policy s t c → ShortestRuns t
  unfolding call_hook
  Reached-ShortestRuns calm r =
      (Reached-keeps (λ u d. Settled time_left u) (calm, λ k e. absurd (none≢some k e))
        (λ u d lt. step_simulation-Settled u d) r).1
