-- ===== src/Policy/InTurn/Stages.antt =====
-- The stages of src/core/scheduler.c but the dispatch, under src/algorithms/fcfs.c on schedule.
use native.Mathlib.Decide.{ℕ_discrete}
use cpu_scheduler_simulator.Base.{
  ℕ, suc, ◌≤◌, ◌<◌, ◌≡◌, refl, sym, ap, subst, true, false, arith, pos, pos_part, eqb_ℤ, ==_refl,
  ==_false, ◌==◌, Bool-cases, inl, inr,
}
use cpu_scheduler_simulator.Process.{Process, not_arrived, process_finish}
use cpu_scheduler_simulator.State.{SchedulerState}
use cpu_scheduler_simulator.Engine.{
  modify_process, mark_ready, finish_running, handle_completions, complete, arrive, arrival_due,
}
use cpu_scheduler_simulator.Policy.Fcfs.{fcfs_policy}
use cpu_scheduler_simulator.Policy.InTurn.{
  free_at, starts_at, ends_at, Waits, Served, Split, Idle, Busy, Boundary, Between,
}

module _ (procs : ℕ → Process) (n : ℕ) where
  -- A write to a process that is neither served nor among those that wait.
  pub apart-Split :
      (s : SchedulerState) (r : ℕ) (f : Process → Process)
      → Split procs n s r (suc r)
      → Split procs n (modify_process s r f) r (suc r)
  apart-Split s r f h = record {
    num = h.num;
    calm = h.calm;
    served = λ i lt. rw (==_false i r (omega (arith, lt))) (h.served i lt);
    waits = λ i le lt. rw (==_false i r (omega (arith, le))) (h.waits i le lt);
  }

  -- One process more is served.
  next-Split :
      (s : SchedulerState) (k : ℕ)
      → Split procs n s k (suc k)
      → Served procs k (s.processes k)
      → Split procs n s (suc k) (suc k)
  next-Split s k h now = record {
    num = h.num;
    calm = h.calm;
    served = λ i lt. elim (ℕ_discrete i k) [
      | yes e ↦ subst (λ j. Served procs j (s.processes j)) (sym e) now
      | no ne ↦ h.served i (omega (arith, lt, ne))
    ];
    waits = h.waits;
  }

  pub finish_running-Split :
      (s : SchedulerState) (r : ℕ)
      → Busy procs n s r
      → (s.processes r).remaining_time ≡ pos 0
      → Split procs n (finish_running s r) (suc r) (suc r)
  unfolding finish_running process_finish
  finish_running-Split s r h done =
      let u = modify_process s r (process_finish s.current_time) in
      let sp = next-Split u r (apart-Split s r (process_finish s.current_time) h.split) (
        rw (==_refl r) (record {
          over = refl;
          start = h.start;
          finish = ap pos (omega (arith, h.on_schedule, ap pos_part done));
        })) in
      record { num = sp.num; calm = sp.calm; served = sp.served; waits = sp.waits }

  pub free_after :
      (k t : ℕ) → ends_at procs k ≤ t → starts_at procs k < t → free_at procs (suc k) ≤ t
  free_after k t le lt = ground arith

  pub after_free : (k t : ℕ) → t ≤ free_at procs k → t ≤ starts_at procs k
  after_free k t le = ground arith

  pub free_late : (k : ℕ) → ends_at procs k ≤ free_at procs (suc k)
  free_late k = ground arith

  pub handle_completions-Between :
      (s : SchedulerState) (c : ℕ)
      → Boundary procs n s
      → Boundary procs n (handle_completions s c).0 × Between procs n (handle_completions s c).0
  unfolding handle_completions complete finish_running
  handle_completions-Between s c (inl (k, h)) = rw (h.nobody, complete) (inl (k, h), inl (k, h))
  handle_completions-Between s c (inr (r, h, before)) =
      elim (Bool-cases (eqb_ℤ (s.processes r).remaining_time (pos 0))) [
        | inl done ↦
            let none_left : (s.processes r).remaining_time ≡ pos 0 = ground arith in
            let ends : ends_at procs r ≡ s.current_time =
              omega (arith, h.on_schedule, ap pos_part none_left) in
            let idle : Idle procs n (finish_running s r) (suc r) = record {
              split = finish_running-Split s r h none_left;
              le = h.lt;
              free = free_after r s.current_time (omega (arith, ends)) before;
              on_time = λ lt. after_free (suc r) s.current_time (omega (arith, ends, free_late r));
              nobody = refl;
            } in
            rw (h.on_cpu, complete, done) (inl (suc r, idle), inl (suc r, idle))
        | inr more ↦
            rw (h.on_cpu, complete, more)
              (inr (r, h, before), inr (r, h, λ e. absurd (ground (arith, e))))
      ]

  due_process :
      (s : SchedulerState)
      → arrival_due s ≡ true
      → ((s.processes s.next_arrival_idx).state ≡ not_arrived)
        × (pos_part (s.processes s.next_arrival_idx).arrival_time ≤ s.current_time)
  due_process s due = ground arith

  arrived_one :
      (s : SchedulerState) (i p : ℕ)
      → (s.processes p).state ≡ not_arrived
      → pos_part (s.processes p).arrival_time ≤ s.current_time
      → Waits s.current_time (procs i) (s.processes i)
      → Waits s.current_time (procs i) ((modify_process s p mark_ready).processes i)
  arrived_one s i p out due w = elim (ℕ_discrete i p) [
    | yes e ↦
        let at_p = subst (λ j. Waits s.current_time (procs j) (s.processes j)) e w in
        rw (e, ==_refl p)
          (record {
            outside = inr (refl, rw (ap pos_part at_p.arrival) at due);
            no_start = at_p.no_start;
            all_left = at_p.all_left;
            arrival = at_p.arrival;
          })
    | no ne ↦ rw (==_false i p ne) w
  ]

  arrive-Split :
      (s : SchedulerState) (k from : ℕ)
      → arrival_due s ≡ true
      → Split procs n s k from
      → Split procs n (arrive fcfs_policy s s.next_arrival_idx) k from
  unfolding arrive
  arrive-Split s k from due h =
      let (out, le) = due_process s due in
      record {
        num = h.num;
        calm = h.calm;
        served = λ i lt.
            rw (==_false i s.next_arrival_idx (λ e. cc (e, out, (h.served i lt).over)))
              (h.served i lt);
        waits = λ i low lt. arrived_one s i s.next_arrival_idx out le (h.waits i low lt);
      }

  pub arrive-Between :
      (s : SchedulerState)
      → arrival_due s ≡ true
      → Between procs n s
      → Between procs n (arrive fcfs_policy s s.next_arrival_idx)
  unfolding arrive
  arrive-Between s due (inl (k, h)) = inl (
    k,
    record {
      split = arrive-Split s k k due h.split;
      le = h.le;
      free = h.free;
      on_time = h.on_time;
      nobody = h.nobody;
    },
  )
  arrive-Between s due (inr (r, h, fresh)) =
      let (out, le) = due_process s due in
      let ne : (r == s.next_arrival_idx) ≡ false =
        ==_false r s.next_arrival_idx (λ e. cc (e, out, h.runs)) in
      inr (
        r,
        record {
          split = arrive-Split s r (suc r) due h.split;
          lt = h.lt;
          on_cpu = h.on_cpu;
          runs = rw ne h.runs;
          start = rw ne h.start;
          left_nonneg = rw ne h.left_nonneg;
          started = h.started;
          on_schedule = rw ne h.on_schedule;
        },
        rw ne fresh,
      )
