-- ===== src/Policy/InTurn/Dispatch.antt =====
-- The dispatch of src/core/scheduler.c, under src/algorithms/fcfs.c on schedule.
use cpu_scheduler_simulator.Base.{
  ℕ, suc, ◌≤◌, ◌<◌, ◌≡◌, ◌⊎◌, refl, sym, ap, ◌∙◌, subst, true, false, not, ◌||◌, Option, none, some,
  arith, ℤ, pos, negsuc, pos_part, neg_part, ◌≤ℤ◌, ==_refl, if◌then◌else◌, inl, inr,
}
use cpu_scheduler_simulator.Process.{Process, not_arrived, running, is_ready, process_start}
use cpu_scheduler_simulator.State.{SchedulerState}
use cpu_scheduler_simulator.Engine.{
  is_some, set_preempt, handle_dispatch, redispatch, mark_previous, call_next_process, start_next,
  count_switch, resume, switch_to,
}
use cpu_scheduler_simulator.Policy.Fcfs.{fcfs_policy, fcfs_next_process}
use cpu_scheduler_simulator.Policy.Selection.{Selects, Earliest, fcfs_next_process-Selects}
use cpu_scheduler_simulator.Policy.InTurn.{
  free_at, starts_at, Waits, Split, Idle, Busy, Between, Assigned,
}
use cpu_scheduler_simulator.Policy.InTurn.Stages.{apart-Split}

ready_here :
    (t : ℕ) (q p : Process) → Waits t q p → is_ready p.state ≡ true → pos_part q.arrival_time ≤ t
ready_here t q p w rd = ground (arith, w.outside, rd)

le_parts : (a b : ℤ) → a ≤ℤ b → pos_part a ≤ pos_part b
le_parts a b h = ground arith

before_or_after : (m k : ℕ) → (m ≡ k) ⊎ ((m < k) ⊎ (k < m))
before_or_after m k = omega arith

-- The first dispatch of a process.
record First (t : ℕ) (p q : Process) : Type 0 where
  runs : q.state ≡ running
  start : q.start_time ≡ pos t
  left_same : q.remaining_time ≡ p.remaining_time

process_start-First :
    (t : ℕ) (p : Process) → p.start_time ≡ negsuc 0 → First t p (process_start t p)
unfolding process_start
process_start-First t p e = ground arith

-- Every process that is due has arrived.
abbrev pub AllHere : (ℕ → Process) → ℕ → SchedulerState → Type 0
AllHere procs n s =
    (i : ℕ)
    → i < n
    → (s.processes i).state ≡ not_arrived
    → s.current_time < pos_part (procs i).arrival_time

module _ (procs : ℕ → Process) (n : ℕ)
    (sorted : (i j : ℕ) → i ≤ j → j < n → (procs i).arrival_time ≤ℤ (procs j).arrival_time)
    (nonneg : (i : ℕ) → i < n → neg_part (procs i).burst_time ≡ 0) where
  narrow-Split : (s : SchedulerState) (k : ℕ) → Split procs n s k k → Split procs n s k (suc k)
  narrow-Split s k h = record {
    num = h.num;
    calm = h.calm;
    served = h.served;
    waits = λ i le lt. h.waits i (omega (arith, le)) lt;
  }

  -- The process that is chosen is the next one of the array.
  chosen_next :
      (s : SchedulerState) (k m : ℕ)
      → Split procs n s k k
      → AllHere procs n s
      → Selects Earliest s (some m)
      → m ≡ k
  chosen_next s k m h here (lt, rd, first) = elim (before_or_after m k) [
    | inl same ↦ same
    | inr (inl low) ↦ absurd (cc (rd, (h.served m low).over))
    | inr (inr high) ↦
        let m_lt : m < n = omega (arith, lt, h.num) in
        let k_lt : k < n = omega (arith, high, m_lt) in
        let w_m = h.waits m (omega (arith, high)) m_lt in
        let w_k = h.waits k (omega arith) k_lt in
        let le = sorted k m (omega (arith, high)) m_lt in
        let here_m = ready_here s.current_time (procs m) (s.processes m) w_m rd in
        elim w_k.outside [
          | inl out ↦ absurd (
              omega (
                arith,
                here k k_lt out,
                here_m,
                le_parts (procs k).arrival_time (procs m).arrival_time le,
              ))
          | inr (e, due) ↦ absurd (
              omega (
                arith,
                (first k (rw h.num k_lt) (rw e refl)).1 high,
                le,
                ap pos_part w_m.arrival,
                ap neg_part w_m.arrival,
                ap pos_part w_k.arrival,
                ap neg_part w_k.arrival,
              ))
        ]
  ]

  start_next-Busy :
      (s : SchedulerState) (k : ℕ)
      → Idle procs n s k
      → k < n
      → starts_at procs k ≡ s.current_time
      → Busy procs n (set_preempt (start_next s (some k)) false) k
  unfolding start_next
  start_next-Busy s k h lt now =
      let w = h.split.waits k (omega arith) lt in
      let f = process_start-First s.current_time (s.processes k) w.no_start in
      let sp = apart-Split procs n s k (process_start s.current_time) (narrow-Split s k h.split) in
      record {
        split = record { num = h.split.num; calm = refl; served = sp.served; waits = sp.waits };
        lt = lt;
        on_cpu = refl;
        runs = rw (==_refl k) f.runs;
        start = rw (==_refl k) (f.start ∙ ap pos (sym now));
        left_nonneg = rw (==_refl k) (ap neg_part (f.left_same ∙ w.all_left) ∙ nonneg k lt);
        started = omega (arith, now);
        on_schedule = rw (==_refl k) (omega (arith, now, ap pos_part (f.left_same ∙ w.all_left)));
      }

  starts_now :
      (k t : ℕ)
      → free_at procs k ≤ t
      → pos_part (procs k).arrival_time ≤ t
      → t ≤ starts_at procs k
      → starts_at procs k ≡ t
  starts_now k t free due on_time = ground arith

  starts_after_arrival : (k : ℕ) → pos_part (procs k).arrival_time ≤ starts_at procs k
  starts_after_arrival k = ground arith

  switch_to-Assigned :
      (s : SchedulerState) (k : ℕ) (next : Option ℕ)
      → Idle procs n s k
      → AllHere procs n s
      → Selects Earliest s next
      → Assigned procs n (set_preempt (switch_to s none next) false)
  unfolding switch_to start_next count_switch resume
  switch_to-Assigned s k none h here idle = inl (
    k,
    record {
      split = record {
        num = h.split.num;
        calm = refl;
        served = h.split.served;
        waits = h.split.waits;
      };
      le = h.le;
      free = h.free;
      on_time = h.on_time;
      nobody = h.nobody;
    },
    λ lt. elim (h.split.waits k (omega arith) lt).outside [
      | inl out ↦ omega (arith, here k lt out, starts_after_arrival k)
      | inr (rd, due) ↦ absurd (cc (rd, idle k (rw h.split.num lt)))
    ],
  )
  switch_to-Assigned s k (some m) h here c =
      let e = chosen_next s k m h.split here c in
      let lt : k < n = omega (arith, c.0, h.split.num, e) in
      let due =
        ready_here s.current_time (procs k) (s.processes k) (h.split.waits k (omega arith) lt)
          (subst (λ j. is_ready (s.processes j).state ≡ true) e c.1) in
      let now = starts_now k s.current_time h.free due (h.on_time lt) in
      subst (λ j. Assigned procs n (set_preempt (start_next s (some j)) false)) (sym e)
        (inr (k, start_next-Busy s k h lt now, λ z. now))

  redispatch-Assigned :
      (s : SchedulerState) (k : ℕ)
      → Idle procs n s k
      → AllHere procs n s
      → Assigned procs n (redispatch s fcfs_policy)
  unfolding redispatch mark_previous call_next_process fcfs_next_process
  redispatch-Assigned s k h here =
      subst
        (λ run. Assigned procs n (
          set_preempt
            (switch_to (mark_previous s run) run (fcfs_next_process (mark_previous s run)).0)
            false))
        (sym h.nobody)
        (switch_to-Assigned s k (fcfs_next_process s).0 h here (fcfs_next_process-Selects s))

  pub handle_dispatch-Assigned :
      (s : SchedulerState)
      → Between procs n s
      → AllHere procs n s
      → Assigned procs n (handle_dispatch s fcfs_policy)
  unfolding handle_dispatch
  handle_dispatch-Assigned s (inl (k, h)) here =
      subst
        (λ run.
          Assigned procs n
            (if not (is_some run) || s.preempt_requested then redispatch s fcfs_policy else s))
        (sym h.nobody) (redispatch-Assigned s k h here)
  handle_dispatch-Assigned s (inr (r, h, fresh)) here =
      subst
        (λ run.
          Assigned procs n
            (if not (is_some run) || s.preempt_requested then redispatch s fcfs_policy else s))
        (sym h.on_cpu)
        (subst (λ b. Assigned procs n (if b then redispatch s fcfs_policy else s))
          (sym h.split.calm) (inr (r, h, fresh)))
