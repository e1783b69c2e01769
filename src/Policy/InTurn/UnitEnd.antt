-- ===== src/Policy/InTurn/UnitEnd.antt =====
-- The end of the time unit in src/core/scheduler.c, under src/algorithms/fcfs.c on schedule.
use cpu_scheduler_simulator.Base.{
  ℕ, suc, ◌+◌, ◌≤◌, ◌<◌, ◌≡◌, refl, ap, ◌∙◌, false, none, List, arith, pos, pos_part, neg_part,
  -ℤ_parts, eqb_ℤ, ==_refl, Bool-cases, inl, inr,
}
use cpu_scheduler_simulator.Process.{Process, process_tick}
use cpu_scheduler_simulator.State.{SchedulerState}
use cpu_scheduler_simulator.Gantt.{append_gantt_entry, append_gantt_entry_lem, idle_entry}
use cpu_scheduler_simulator.Engine.{
  modify_process, finish_running, unit_end, execute, advance_clock,
}
use cpu_scheduler_simulator.Policy.InTurn.{
  free_at, starts_at, Waits, Split, Idle, Busy, Boundary, Assigned,
}
use cpu_scheduler_simulator.Policy.InTurn.Stages.{apart-Split, finish_running-Split, free_after}

later_Waits : (t : ℕ) (q p : Process) → Waits t q p → Waits (t + 1) q p
later_Waits t q p w = record {
  outside = elim w.outside [ inl e ↦ inl e | inr (e, le) ↦ inr (e, omega (arith, le)) ];
  no_start = w.no_start;
  all_left = w.all_left;
  arrival = w.arrival;
}

-- A unit of work of a process that has some left.
record Worked (p q : Process) : Type 0 where
  state_same : q.state ≡ p.state
  start_same : q.start_time ≡ p.start_time
  left_nonneg : neg_part q.remaining_time ≡ 0
  one_less : pos_part q.remaining_time + 1 ≡ pos_part p.remaining_time

process_tick-Worked :
    (p : Process)
    → neg_part p.remaining_time ≡ 0
    → eqb_ℤ p.remaining_time (pos 0) ≡ false
    → Worked p (process_tick p)
unfolding process_tick
process_tick-Worked p nonneg more = ground (arith, -ℤ_parts p.remaining_time (pos 1))

module _ (procs : ℕ → Process) (n : ℕ) where
  -- A time unit ends with an entry of the log.
  log-Split :
      (s : SchedulerState) (e : List ℕ) (k from : ℕ)
      → Split procs n s k from
      → Split procs n (advance_clock (append_gantt_entry s e)) k from
  unfolding advance_clock
  log-Split s e k from h = rw (append_gantt_entry_lem s e) (record {
    num = h.num;
    calm = h.calm;
    served = h.served;
    waits = λ i le lt. later_Waits s.current_time (procs i) (s.processes i) (h.waits i le lt);
  })

  log-Idle :
      (s : SchedulerState) (e : List ℕ) (k : ℕ)
      → Split procs n s k k
      → k ≤ n
      → free_at procs k ≤ s.current_time + 1
      → (k < n → s.current_time < starts_at procs k)
      → s.running_process ≡ none
      → Idle procs n (advance_clock (append_gantt_entry s e)) k
  unfolding advance_clock
  log-Idle s e k h le free late nobody = record {
    split = log-Split s e k k h;
    le = le;
    free = rw (append_gantt_entry_lem s e) free;
    on_time = rw (append_gantt_entry_lem s e) (λ lt. omega (arith, late lt));
    nobody = rw (append_gantt_entry_lem s e) nobody;
  }

  -- One unit of work.
  tick-Busy :
      (s : SchedulerState) (r : ℕ) (e : List ℕ)
      → Busy procs n s r
      → (eqb_ℤ (s.processes r).remaining_time (pos 0)) ≡ false
      → Busy procs n (advance_clock (append_gantt_entry (modify_process s r process_tick) e)) r
  unfolding advance_clock
  tick-Busy s r e h more =
      let u = modify_process s r process_tick in
      let w = process_tick-Worked (s.processes r) h.left_nonneg more in
      record {
        split = log-Split u e r (suc r) (apart-Split procs n s r process_tick h.split);
        lt = h.lt;
        on_cpu = rw (append_gantt_entry_lem u e) h.on_cpu;
        runs = rw (append_gantt_entry_lem u e, ==_refl r) (w.state_same ∙ h.runs);
        start = rw (append_gantt_entry_lem u e, ==_refl r) (w.start_same ∙ h.start);
        left_nonneg = rw (append_gantt_entry_lem u e, ==_refl r) w.left_nonneg;
        started = rw (append_gantt_entry_lem u e) (omega (arith, h.started));
        on_schedule =
            rw (append_gantt_entry_lem u e, ==_refl r) (omega (arith, h.on_schedule, w.one_less));
      }

  advance_clock-time :
      (s : SchedulerState) (e : List ℕ)
      → (advance_clock (append_gantt_entry s e)).current_time ≡ s.current_time + 1
  unfolding advance_clock
  advance_clock-time s e = rw (append_gantt_entry_lem s e) refl

  next_starts_later : (k : ℕ) → starts_at procs k < starts_at procs (suc k)
  next_starts_later k = ground arith

  finished_now :
      (s : SchedulerState) (r : ℕ)
      → Busy procs n s r
      → (s.processes r).remaining_time ≡ pos 0
      → starts_at procs r ≡ s.current_time
      → Idle procs n (advance_clock (append_gantt_entry (finish_running s r) idle_entry)) (suc r)
  unfolding finish_running
  finished_now s r h none_left now =
      log-Idle (finish_running s r) idle_entry (suc r)
        (finish_running-Split procs n s r h none_left) h.lt
        (free_after procs n r (s.current_time + 1)
          (omega (arith, h.on_schedule, ap pos_part none_left)) (omega (arith, now)))
        (λ lt. omega (arith, now, next_starts_later r)) refl

  pub unit_end-Boundary :
      (s : SchedulerState) (c : ℕ)
      → Assigned procs n s
      → Boundary procs n (unit_end s c s.running_process).0
  unfolding unit_end execute
  unit_end-Boundary s c (inl (k, h, late)) =
      rw (h.nobody, unit_end)
        (inl (k, log-Idle s idle_entry k h.split h.le (omega (arith, h.free)) late h.nobody))
  unit_end-Boundary s c (inr (r, h, fresh)) =
      elim (Bool-cases (eqb_ℤ (s.processes r).remaining_time (pos 0))) [
        | inl done ↦
            let none_left : (s.processes r).remaining_time ≡ pos 0 = ground arith in
            rw (h.on_cpu, unit_end, done)
              (inl (suc r, finished_now s r h none_left (fresh none_left)))
        | inr more ↦
            let u = modify_process s r process_tick in
            rw (h.on_cpu, unit_end, more)
              (inr (
                r,
                tick-Busy s r (s.processes r).pid h more,
                omega (arith, advance_clock-time u (s.processes r).pid, h.started),
              ))
      ]
