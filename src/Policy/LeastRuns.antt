-- ===== src/Policy/LeastRuns.antt =====
-- The stages of src/core/scheduler.c, under a policy that gives the CPU to a process with the least
-- of some measure, such as its remaining time or its priority.
use native.Mathlib.Decide.{ℕ_discrete}
use cpu_scheduler_simulator.Base.{
  ℕ, ◌<◌, ◌≡◌, refl, sym, ◌∙◌, subst, true, false, Option, none, some, List, arith, pos, ℤ, ◌≤ℤ◌,
  eqb_ℤ, ◌==◌, ==_refl, ==_false, Bool-cases, inl, inr, none≢some, some-inj,
}
use cpu_scheduler_simulator.Process.{
  Process, ProcessState, running, ready, is_ready, process_start, process_tick,
}
use cpu_scheduler_simulator.State.{SchedulerState}
use cpu_scheduler_simulator.Gantt.{append_gantt_entry, append_gantt_entry_lem, idle_entry}
use cpu_scheduler_simulator.Engine.{
  modify_process, mark_ready, finish_running, handle_completions, complete, mark_previous,
  start_next, count_switch, resume, switch_to, unit_end, execute, advance_clock,
}

-- A measure of a process that a dispatch does not change, and a unit of work does not raise.
pub record Measure : Type 0 where
  pub key : Process → ℤ
  pub key_state : (p : Process) (st : ProcessState) → key (record p { state = st }) ≡ key p
  pub key_start : (t : ℕ) (p : Process) → key (process_start t p) ≡ key p
  pub key_tick : (p : Process) → key (process_tick p) ≤ℤ key p

process_start-runs : (now : ℕ) (p : Process) → is_ready (process_start now p).state ≡ false
unfolding process_start
process_start-runs now p = ground arith

pub mark_previous-running :
    (s : SchedulerState) (previous : Option ℕ)
    → (mark_previous s previous).running_process ≡ s.running_process
unfolding mark_previous
mark_previous-running s none = refl
mark_previous-running s (some r) = refl

module _ (μ : Measure) where
  -- No ready process has less than the one at `r`.
  abbrev pub Least : SchedulerState → ℕ → Type 0
  Least s r =
      (i : ℕ)
      → i < s.num_processes
      → is_ready (s.processes i).state ≡ true
      → μ.key (s.processes r) ≤ℤ μ.key (s.processes i)

  -- No ready process has less than the process on the CPU, if there is one.
  abbrev pub LeastRuns : SchedulerState → Type 0
  LeastRuns s = (r : ℕ) → s.running_process ≡ some r → Least s r

  -- A choice that is none, or has the least.
  abbrev pub TakesLeast : SchedulerState → Option ℕ → Type 0
  TakesLeast s next = (k : ℕ) → next ≡ some k → Least s k

  -- Between two time units, and after a dispatch.
  abbrev pub Settled : SchedulerState → Type 0
  Settled s = (s.preempt_requested ≡ false) × LeastRuns s

  pub marked-key :
      (s : SchedulerState) (p j : ℕ)
      → μ.key ((modify_process s p mark_ready).processes j) ≡ μ.key (s.processes j)
  marked-key s p j = elim (Bool-cases (j == p)) [
    | inl e ↦ rw e (μ.key_state (s.processes j) ready)
    | inr e ↦ rw e refl
  ]

  -- A process that becomes ready, and has no less than the one that runs.
  pub mark_ready-Least :
      (s : SchedulerState) (p r : ℕ)
      → μ.key (s.processes r) ≤ℤ μ.key (s.processes p)
      → Least s r
      → Least (modify_process s p mark_ready) r
  mark_ready-Least s p r le h i lt rd = elim (ℕ_discrete i p) [
    | yes e ↦ rw (marked-key s p r, marked-key s p i, e) le
    | no ne ↦ rw (marked-key s p r, marked-key s p i) (h i lt (rw (==_false i p ne) at rd))
  ]

  -- A process that leaves the ready ones, and had the least of them.
  taken-Least :
      (t : SchedulerState) (k : ℕ) (f : Process → Process)
      → μ.key (f (t.processes k)) ≡ μ.key (t.processes k)
      → is_ready (f (t.processes k)).state ≡ false
      → Least t k
      → Least (modify_process t k f) k
  taken-Least t k f same busy least i lt rd = elim (ℕ_discrete i k) [
    | yes e ↦ rw (e, ==_refl k) (omega arith)
    | no ne ↦ rw (==_refl k, ==_false i k ne, same) (least i lt (rw (==_false i k ne) at rd))
  ]

  -- The process that runs is known.
  known-LeastRuns :
      (u : SchedulerState) (k : ℕ) → u.running_process ≡ some k → Least u k → LeastRuns u
  known-LeastRuns u k e h r on_cpu = subst (Least u) (some-inj k r (sym e ∙ on_cpu)) h

  start_next-LeastRuns :
      (t : SchedulerState) (k : ℕ) → Least t k → LeastRuns (start_next t (some k))
  unfolding start_next
  start_next-LeastRuns t k least = known-LeastRuns (start_next t (some k)) k refl (
      taken-Least t k (process_start t.current_time) (μ.key_start t.current_time (t.processes k))
        (process_start-runs t.current_time (t.processes k)) least)

  resume-LeastRuns :
      (t : SchedulerState) (k : ℕ)
      → t.running_process ≡ some k
      → Least t k
      → LeastRuns (resume t (some k))
  unfolding resume
  resume-LeastRuns t k e least = known-LeastRuns (resume t (some k)) k e (
      taken-Least t k (λ p. record p { state = running }) (μ.key_state (t.processes k) running) refl
        least)

  pub switch_to-LeastRuns :
      (t : SchedulerState) (previous next : Option ℕ)
      → t.running_process ≡ previous
      → TakesLeast t next
      → LeastRuns (switch_to t previous next)
  unfolding switch_to start_next count_switch resume process_start
  switch_to-LeastRuns t none none idle c = λ r e. absurd (none≢some r (sym idle ∙ e))
  switch_to-LeastRuns t (some q) none busy c = λ r e. absurd (none≢some r e)
  switch_to-LeastRuns t none (some k) idle c = start_next-LeastRuns t k (c k refl)
  switch_to-LeastRuns t (some q) (some k) busy c = elim (Bool-cases (k == q)) [
    | inl same ↦
        let e : k ≡ q = ground arith in
        rw same (resume-LeastRuns t q busy (subst (Least t) e (c k refl)))
    | inr other ↦ rw other (start_next-LeastRuns (count_switch t (some q)) k (c k refl))
  ]

  pub handle_completions-Settled :
      (s : SchedulerState) (c : ℕ) → Settled s → Settled (handle_completions s c).0
  unfolding handle_completions complete finish_running
  handle_completions-Settled s c h = go s.running_process
    where
      go : (run : Option ℕ) → Settled (complete s c run).0
      go none = h
      go (some r) = elim (Bool-cases (eqb_ℤ (s.processes r).remaining_time (pos 0))) [
        | inl done ↦ rw (done, complete) (h.0, λ k e. absurd (none≢some k e))
        | inr more ↦ rw (more, complete) h
      ]

  -- Neither the log nor the clock matters.
  log-Settled :
      (s : SchedulerState) (e : List ℕ)
      → Settled s
      → Settled (advance_clock (append_gantt_entry s e))
  unfolding advance_clock
  log-Settled s e (calm, h) = rw (append_gantt_entry_lem s e) (calm, h)

  -- The process at `r` runs for one unit.
  tick-Least : (s : SchedulerState) (r : ℕ) → Least s r → Least (modify_process s r process_tick) r
  tick-Least s r h i lt rd = elim (ℕ_discrete i r) [
    | yes e ↦ rw (e, ==_refl r) (omega arith)
    | no ne ↦
        rw (==_refl r, ==_false i r ne)
          (omega (arith, μ.key_tick (s.processes r), h i lt (rw (==_false i r ne) at rd)))
  ]

  pub unit_end-Settled :
      (s : SchedulerState) (c : ℕ) (run : Option ℕ)
      → s.running_process ≡ run
      → Settled s
      → Settled (unit_end s c run).0
  unfolding unit_end execute finish_running
  unit_end-Settled s c none idle h = log-Settled s idle_entry h
  unit_end-Settled s c (some r) busy (calm, h) =
      elim (Bool-cases (eqb_ℤ (s.processes r).remaining_time (pos 0))) [
        | inl done ↦
            rw done
              (log-Settled (finish_running s r) idle_entry (calm, λ k e. absurd (none≢some k e)))
        | inr more ↦ rw more (
            log-Settled (modify_process s r process_tick) (s.processes r).pid (
              calm,
              known-LeastRuns (modify_process s r process_tick) r busy (tick-Least s r (h r busy)),
            ))
      ]
