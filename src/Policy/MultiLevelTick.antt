-- ===== src/Policy/MultiLevelTick.antt =====
-- The tick hook of src/algorithms/mlfq.c: what it leaves of the running process and the queues.
use cpu_scheduler_simulator.Base.{
  ℕ, ◌+◌, ◌<◌, ◌≡◌, refl, ap, ◌∙◌, Bool, true, false, some, arith, inl, inr, ◌⊎◌, if◌then◌else◌,
  ltb, leb_ℤ, pos, ◌-ℤ◌, ◌+ℤ◌, ℤ, modify, Bool-cases,
}
use cpu_scheduler_simulator.Process.{Process, running}
use cpu_scheduler_simulator.State.{
  SchedulerConfig, SchedulerState, PolicyState, MlfqState, null, rr, mlfq,
}
use cpu_scheduler_simulator.Engine.{modify_process, mark_ready}
use cpu_scheduler_simulator.Engine.View.{view, view-modify_process}
use cpu_scheduler_simulator.Policy.Levels.{OnLevels}
use cpu_scheduler_simulator.Policy.Mlfq.{
  enqueue_at, set_mlfq, reset_priority, boost, boost_running, demote, use_tick, mlfq_tick,
}
use cpu_scheduler_simulator.Policy.MultiLevel.{
  Matches, Matches-config, Holds, MlfqTracks, boost-Shuffled, requeue-Matches,
}

-- What the hook leaves of `s`, where `p` runs.
pub record Yields (s : SchedulerState) (p : ℕ) (t : SchedulerState) : Type 0 where
  pub view_same : view t ≡ view s
  pub asked : t.preempt_requested ≡ true
  pub tracks : MlfqTracks (modify_process t p mark_ready)

pub record Keeps (s t : SchedulerState) : Type 0 where
  pub view_same : view t ≡ view s
  pub not_asked : t.preempt_requested ≡ false
  pub tracks : MlfqTracks t

modify_level :
    (t : SchedulerState) (p i level n : ℕ)
    → level < n
    → (t.processes i).priority < n
    → ((modify_process t p (λ q. record q { priority = level; allotment_used = 0 })).processes
        i).priority
      < n
modify_level t p i level n h k = ground arith

module _ (s : SchedulerState) (p : ℕ) (h : p < s.num_processes)
    (st : (s.processes p).state ≡ running) where
  boost_running-Yields :
      (m : MlfqState) → Matches s m → Yields s p (boost_running (boost s m).0 (boost s m).1 p)
  unfolding boost_running
  boost_running-Yields m ok =
      let (sh, same) = boost-Shuffled s m ok.some_level in
      let e = view-modify_process (boost s m).0 p reset_priority (λ q. refl) ∙ sh.view_same in
      let lv = sh.levels_kept ok.on_level in
      record {
        view_same = e;
        asked = refl;
        tracks =
            Matches-config
              (modify_process (modify_process (boost s m).0 p reset_priority) p mark_ready) _
              (enqueue_at (boost s m).1 0 p) refl
              (requeue-Matches s (modify_process (boost s m).0 p reset_priority) m (boost s m).1 0 p
                e same sh.num_same ok.some_level (λ i lt. ground (arith, lv i lt, ok.some_level)) h
                st ok);
      }

  -- The next level down, if there is one.
  level_below : (level n : ℕ) → level < n → (if ltb (level + 1) n then level + 1 else level) < n
  level_below level n lt = ground arith

  demote-Yields :
      (t : SchedulerState) (m : MlfqState)
      → view t ≡ view s
      → OnLevels t m.num_queues
      → Matches s m
      → Yields s p (demote t m p)
  unfolding demote
  demote-Yields t m e lv ok =
      let old = (t.processes p).priority in
      let level = (if ltb (old + 1) m.num_queues then old + 1 else old) in
      let below = level_below old m.num_queues (lv p (rw (ap (λ v. v.num_processes) e) h)) in
      let f = λ (q : Process). record q { priority = level; allotment_used = 0 } in
      let e' = view-modify_process t p f (λ q. refl) ∙ e in
      record {
        view_same = e';
        asked = refl;
        tracks =
            Matches-config (modify_process (modify_process t p f) p mark_ready) _
              (enqueue_at m level p) refl
              (requeue-Matches s (modify_process t p f) m m level p e' (λ i. refl) refl below
                (λ i lt. modify_level t p i level m.num_queues below (lv i lt)) h st ok);
      }

  spend : SchedulerState
  spend = modify_process s p (λ q. record q { allotment_used = q.allotment_used + 1 })

  spend-view : view spend ≡ view s
  unfolding spend
  spend-view =
      view-modify_process s p (λ q. record q { allotment_used = q.allotment_used + 1 }) (λ q. refl)

  spend-levels : (n : ℕ) → OnLevels s n → OnLevels spend n
  unfolding spend
  spend-levels n lv i lt = ground (arith, lv i lt)

  spend-Matches : (m : MlfqState) → Matches s m → Matches spend m
  unfolding spend
  spend-Matches m ok = record {
    some_level = ok.some_level;
    on_level = spend-levels m.num_queues ok.on_level;
    queued = λ i. ok.queued i ∙ ground arith;
  }

  marked : SchedulerConfig → SchedulerConfig
  marked c = record c { processes = modify c.processes p mark_ready }

  requeue-tracks :
      (m : MlfqState) (u : SchedulerState)
      → Matches s m
      → u.config ≡ spend.config
      → Matches (modify_process u p mark_ready) (enqueue_at m (spend.processes p).priority p)
  unfolding marked
  requeue-tracks m u ok e =
      Matches-config (modify_process spend p mark_ready) _ _
        (ap (λ (c : SchedulerConfig). marked c) e)
        (requeue-Matches s spend m m (spend.processes p).priority p spend-view (λ i. refl) refl
          (spend-levels m.num_queues ok.on_level p (rw (ap (λ v. v.num_processes) spend-view) h))
          (spend-levels m.num_queues ok.on_level) h st ok)

  -- The last two branches: an arrival asked for the CPU, or none did.
  arrival-Outcome :
      (m : MlfqState)
      → Matches s m
      → (b : Bool) → s.preempt_requested ≡ b
      → Yields s p (
          if b
          then set_mlfq spend (enqueue_at m (spend.processes p).priority p)
          else set_mlfq spend m)
        ⊎ Keeps s (
            if b
            then set_mlfq spend (enqueue_at m (spend.processes p).priority p)
            else set_mlfq spend m)
  unfolding spend
  arrival-Outcome m ok true e =
      inl (record { view_same = spend-view; asked = e; tracks = requeue-tracks m _ ok refl })
  arrival-Outcome m ok false e = inr (record {
    view_same = spend-view;
    not_asked = e;
    tracks = Matches-config spend _ m refl (spend-Matches m ok);
  })

  use_tick-Outcome :
      (m0 : MlfqState) → Matches s m0 → Yields s p (use_tick s m0 p) ⊎ Keeps s (use_tick s m0 p)
  unfolding use_tick spend
  use_tick-Outcome m0 ok0 =
      elim (Bool-cases (leb_ℤ (m.queues q.priority).allotment (pos q.allotment_used))) [
        | inl used ↦
            rw (used, use_tick)
              (inl (demote-Yields spend m spend-view (spend-levels m.num_queues ok.on_level) ok))
        | inr left ↦ elim (Bool-cases (leb_ℤ m.current_quantum (pos 0))) [
          | inl over ↦
              rw (left, over, use_tick)
                (inl (record {
                  view_same = spend-view;
                  asked = refl;
                  tracks = requeue-tracks m _ ok refl;
                }))
          | inr more ↦ rw (left, more, use_tick) (arrival-Outcome m ok s.preempt_requested refl)
        ]
      ]
    where
      m : MlfqState
      m = record m0 { current_quantum = m0.current_quantum -ℤ pos 1 }

      q : Process
      q = spend.processes p

      ok : Matches s m
      ok = record { some_level = ok0.some_level; on_level = ok0.on_level; queued = ok0.queued }

  Matches-timer :
      (m : MlfqState) (timer : ℤ) → Matches s m → Matches s (record m { boost_timer = timer })
  Matches-timer m timer ok = record {
    some_level = ok.some_level;
    on_level = ok.on_level;
    queued = ok.queued;
  }

  -- When the queues hold exactly the ready processes and the process at `p` runs, a tick either
  -- asks for the CPU back and has put `p` in a queue, or asks for nothing and the queues still hold
  -- exactly the ready processes.
  pub mlfq_tick-Outcome :
      (ps : PolicyState)
      → Holds s ps
      → Yields s p (mlfq_tick s (some p) ps) ⊎ Keeps s (mlfq_tick s (some p) ps)
  unfolding mlfq_tick
  mlfq_tick-Outcome (mlfq m0) ok0 =
      let timer = m0.boost_timer +ℤ pos 1 in
      let m = record m0 { boost_timer = timer } in
      let ok = Matches-timer m0 timer ok0 in
      elim (Bool-cases (leb_ℤ m0.boost_period timer)) [
        | inl due ↦ rw (due, mlfq_tick) (inl (boost_running-Yields m ok))
        | inr early ↦ rw (early, mlfq_tick) (use_tick-Outcome m ok)
      ]
  mlfq_tick-Outcome null ok = absurd ok
  mlfq_tick-Outcome (rr r) ok = absurd ok
