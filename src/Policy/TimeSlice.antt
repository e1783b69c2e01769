-- ===== src/Policy/TimeSlice.antt =====
-- A whole run under src/algorithms/rr.c: the process on the CPU has some of its time slice left.
pub mod Run
use cpu_scheduler_simulator.Base.{
  ℕ, ◌+◌, ◌<◌, ◌≡◌, refl, sym, ap, ◌∙◌, subst, Bool, true, false, not, ◌||◌, ◌&&◌, Option, none,
  some, List, arith, ℤ, pos, neg_part, ◌<ℤ◌, ◌≤ℤ◌, ltb_ℤ, leb_ℤ, eqb_ℤ, ◌-ℤ◌, -ℤ_parts, ◌==◌,
  if◌then◌else◌, Bool-cases, Option-cases, inl, inr, none≢some, some-inj,
}
use cpu_scheduler_simulator.Process.{Process, running, process_tick}
use cpu_scheduler_simulator.State.{SchedulerState, PolicyState, RrState, null, rr, mlfq}
use cpu_scheduler_simulator.Gantt.{append_gantt_entry, append_gantt_entry_lem, idle_entry}
use cpu_scheduler_simulator.Engine.{
  modify_process, mark_ready, set_preempt, is_some, finish_running, handle_completions, complete,
  arrive, handle_arrivals, handle_tick, mark_previous, call_next_process, start_next, count_switch,
  resume, switch_to, redispatch, handle_dispatch, advance_clock, execute, unit_end,
}
use cpu_scheduler_simulator.Queue.{enqueue, dequeue}
use cpu_scheduler_simulator.Policy.Rr.{
  rr_policy, rr_on_arrival, rr_arrival, rr_next_process, rr_next, rr_on_tick, rr_tick, refill,
  set_rr,
}

-- What is left of the slice of `run`, of `q` in all.
abbrev pub Slice : ℤ → Option ℕ → PolicyState → Type 0
Slice q none ps = Unit {0}
Slice q (some r) (rr x) = (pos 0 <ℤ x.current_quantum) × (x.current_quantum ≤ℤ q)
Slice q (some r) null = ⊥
Slice q (some r) (mlfq m) = ⊥

pub record InSlice (q : ℤ) (s : SchedulerState) : Type 0 where
  pub quantum_same : s.quantum ≡ q
  pub calm : s.preempt_requested ≡ false
  pub slice : Slice q s.running_process s.policy_state

-- The process on the CPU is not done.
abbrev pub Awake : SchedulerState → Type 0
Awake s =
    (r : ℕ) → s.running_process ≡ some r → eqb_ℤ (s.processes r).remaining_time (pos 0) ≡ false

pub handle_completions-InSlice :
    (q : ℤ) (s : SchedulerState) (c : ℕ)
    → InSlice q s
    → InSlice q (handle_completions s c).0 × Awake (handle_completions s c).0
unfolding handle_completions complete finish_running
handle_completions-InSlice q s c h = elim (Option-cases s.running_process) [
  | inl idle ↦ rw (idle, complete) (h, λ r e. absurd (none≢some r (sym idle ∙ e)))
  | inr (r, run) ↦ elim (Bool-cases (eqb_ℤ (s.processes r).remaining_time (pos 0))) [
    | inl done ↦
        rw (run, complete, done)
          (
            record { quantum_same = h.quantum_same; calm = h.calm; slice = tt },
            λ k e. absurd (none≢some k e),
          )
    | inr more ↦
        rw (run, complete, more)
          (
            h,
            λ k e.
                subst (λ j. eqb_ℤ (s.processes j).remaining_time (pos 0) ≡ false)
                  (some-inj r k (sym run ∙ e)) more,
          )
  ]
]

same-Slice :
    (q : ℤ) (run : Option ℕ) (x y : RrState)
    → y.current_quantum ≡ x.current_quantum
    → Slice q run (rr x)
    → Slice q run (rr y)
same-Slice q none x y e h = tt
same-Slice q (some r) x y e h = rw e h

arrival-InSlice :
    (q : ℤ) (s : SchedulerState) (p : ℕ) (ps : PolicyState)
    → s.quantum ≡ q
    → s.preempt_requested ≡ false
    → s.policy_state ≡ ps
    → Slice q s.running_process ps
    → InSlice q (rr_arrival s p ps)
      × ((rr_arrival s p ps).processes ≡ s.processes)
      × ((rr_arrival s p ps).running_process ≡ s.running_process)
unfolding rr_arrival
arrival-InSlice q s p (rr x) e calm same h = (
  record { quantum_same = e; calm = calm; slice = same-Slice q s.running_process x _ refl h },
  refl,
  refl,
)
arrival-InSlice q s p null e calm same h =
    (record { quantum_same = e; calm = calm; slice = rw same h }, refl, refl)
arrival-InSlice q s p (mlfq m) e calm same h =
    (record { quantum_same = e; calm = calm; slice = rw same h }, refl, refl)

mark_ready-left :
    (s : SchedulerState) (p r : ℕ)
    → ((modify_process s p mark_ready).processes r).remaining_time ≡ (s.processes r).remaining_time
mark_ready-left s p r = ground arith

pub arrive-InSlice :
    (q : ℤ) (s : SchedulerState) (p : ℕ)
    → InSlice q s × Awake s
    → InSlice q (arrive rr_policy s p) × Awake (arrive rr_policy s p)
unfolding arrive rr_on_arrival
arrive-InSlice q s p (h, awake) =
    let t = modify_process s p mark_ready in
    let (k, procs, run) = arrival-InSlice q t p s.policy_state h.quantum_same h.calm refl h.slice in
    (
      record { quantum_same = k.quantum_same; calm = k.calm; slice = k.slice },
      λ r e.
          rw (ap (λ a. (a r).remaining_time) procs, mark_ready-left s p r) (awake r (sym run ∙ e)),
    )

pub tick-InSlice :
    (q : ℤ) (s : SchedulerState) (r : ℕ) (ps : PolicyState)
    → s.quantum ≡ q
    → s.preempt_requested ≡ false
    → s.running_process ≡ some r
    → ltb_ℤ (pos 0) (s.processes r).remaining_time ≡ true
    → s.policy_state ≡ ps
    → Slice q (some r) ps
    → ((rr_tick s (some r) ps).quantum ≡ q)
      × ((rr_tick s (some r) ps).running_process ≡ some r)
      × ((rr_tick s (some r) ps).preempt_requested ≡ false → InSlice q (rr_tick s (some r) ps))
unfolding rr_tick
tick-InSlice q s r null e calm run more same h = absurd h
tick-InSlice q s r (mlfq m) e calm run more same h = absurd h
tick-InSlice q s r (rr x) e calm run more same (some_left, le) =
    elim (Bool-cases (leb_ℤ (x.current_quantum -ℤ pos 1) (pos 0))) [
      | inl over ↦ rw (over, more) (e, run, λ off. cc (off))
      | inr left ↦ rw left (
        e,
        run,
        λ off. record {
          quantum_same = e;
          calm = calm;
          slice =
              subst
                (λ o. Slice q o (rr (record x { current_quantum = x.current_quantum -ℤ pos 1 })))
                (sym run)
                (ground (arith, left), omega (arith, -ℤ_parts x.current_quantum (pos 1), le));
        },
      )
    ]

-- What the choice leaves for the process that is taken: a full slice.
abbrev pub Filled : ℤ → Option ℕ → PolicyState → Type 0
Filled q none ps = Unit {0}
Filled q (some k) (rr x) = x.current_quantum ≡ q
Filled q (some k) null = ⊥
Filled q (some k) (mlfq m) = ⊥

pub rr_next-Filled :
    (q : ℤ) (s : SchedulerState) (ps : PolicyState)
    → s.quantum ≡ q
    → Filled q (rr_next s ps).0 (rr_next s ps).1.policy_state
      × ((rr_next s ps).1.quantum ≡ q)
      × ((rr_next s ps).1.running_process ≡ s.running_process)
unfolding rr_next
rr_next-Filled q s null e = (tt, e, refl)
rr_next-Filled q s (mlfq m) e = (tt, e, refl)
rr_next-Filled q s (rr x) e = (filled (dequeue x.ready_queue).0, e, refl)
  where
    filled :
        (next : Option ℕ)
        → Filled q next (
            rr (record {
              ready_queue = (dequeue x.ready_queue).1;
              current_quantum = refill s.quantum next x.current_quantum;
            }))
    filled none = tt
    filled (some k) = e

Filled-Slice :
    (q : ℤ) (k : ℕ) (ps : PolicyState) → pos 0 <ℤ q → Filled q (some k) ps → Slice q (some k) ps
Filled-Slice q k (rr x) some_time e = rw e (some_time, omega arith)
Filled-Slice q k null some_time e = e
Filled-Slice q k (mlfq m) some_time e = e

pub switch_to-Slice :
    (q : ℤ) (t : SchedulerState) (previous next : Option ℕ)
    → pos 0 <ℤ q
    → t.quantum ≡ q
    → t.running_process ≡ previous
    → Filled q next t.policy_state
    → InSlice q (set_preempt (switch_to t previous next) false)
unfolding switch_to start_next count_switch resume
switch_to-Slice q t none none some_time e run h = record {
  quantum_same = e;
  calm = refl;
  slice = subst (λ o. Slice q o t.policy_state) (sym run) tt;
}
switch_to-Slice q t (some p) none some_time e run h = record {
  quantum_same = e;
  calm = refl;
  slice = tt;
}
switch_to-Slice q t none (some k) some_time e run h = record {
  quantum_same = e;
  calm = refl;
  slice = Filled-Slice q k t.policy_state some_time h;
}
switch_to-Slice q t (some p) (some k) some_time e run h = elim (Bool-cases (k == p)) [
  | inl same ↦
      let here : k ≡ p = ground (arith, same) in
      rw same (record {
        quantum_same = e;
        calm = refl;
        slice =
            subst (λ o. Slice q o t.policy_state) (sym run)
              (Filled-Slice q p t.policy_state some_time
                (subst (λ j. Filled q (some j) t.policy_state) here h));
      })
  | inr other ↦ rw other (record {
    quantum_same = e;
    calm = refl;
    slice = Filled-Slice q k t.policy_state some_time h;
  })
]
