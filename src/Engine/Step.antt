-- ===== src/Engine/Step.antt =====
-- Stages 2 to 4 of `step_simulation` in src/core/scheduler.c: arrivals, the tick hook, the dispatch.
use cpu_scheduler_simulator.Base.{
  ℕ, zero, suc, ◌+◌, ◌-◌, ◌≤◌, ◌<◌, ◌≡◌, refl, sym, ap, ◌∙◌, subst, true, false, none, some,
  if◌then◌else◌, arith, Bool-cases, Option-cases, inl, inr,
}
use cpu_scheduler_simulator.Process.{running, not_arrived}
use cpu_scheduler_simulator.State.{SchedulerState, SchedulerPolicy}
use cpu_scheduler_simulator.Engine.{
  mark_ready, modify_process, arrive, arrivals_loop, arrival_due, handle_arrivals, handle_tick,
  handle_dispatch, call_on_arrival, is_some,
}
use cpu_scheduler_simulator.Engine.View.{View, view}
use cpu_scheduler_simulator.Engine.Contract.{PolicyContract}
use cpu_scheduler_simulator.Engine.Sound.{Sound}
use cpu_scheduler_simulator.Engine.Quiet.{Quiet, Quiet-trans, Quiet-refl}
use cpu_scheduler_simulator.Engine.Stages.{arrive-Sound, running_in_range, running_is_running}
use cpu_scheduler_simulator.Engine.Dispatch.{Dispatched}
use cpu_scheduler_simulator.Engine.Redispatch.{handle_dispatch-Dispatched}

-- Nothing is left to arrive at this time.
pub record Arrived (policy : SchedulerPolicy) (K : PolicyContract policy) (v : View) (c : ℕ)
    (t : SchedulerState) : Type 0 where
  pub sound : Sound (view t) c
  pub tracks : K.Tracks t
  pub calm : K.Calm t
  pub quiet : Quiet v (view t)
  pub run_same : t.running_process ≡ v.running_process
  pub none_due : arrival_due t ≡ false

module _ {policy : SchedulerPolicy} (K : PolicyContract policy) where
  arrive-view :
      (s : SchedulerState) (i : ℕ)
      → view (arrive policy s i) ≡ record (view (modify_process s i mark_ready)) {
        next_arrival_idx = s.next_arrival_idx + 1;
      }
  unfolding arrive
  arrive-view s i =
      ap (λ (v : View). record v { next_arrival_idx = v.next_arrival_idx + 1 })
        (K.arrive_view (modify_process s i mark_ready) i)

  arrive-Tracks :
      (s : SchedulerState)
      → s.next_arrival_idx < s.num_processes
      → (s.processes s.next_arrival_idx).state ≡ not_arrived
      → K.Tracks s
      → K.Tracks (arrive policy s s.next_arrival_idx)
  unfolding arrive
  arrive-Tracks s h st tracked =
      K.stable
        (call_on_arrival policy (modify_process s s.next_arrival_idx mark_ready) s.next_arrival_idx)
        _
        (record {
          policy_same = refl;
          num_same = refl;
          priority_same = λ i. refl;
          ready_same = λ i p. refl;
        })
        (K.arrive_tracks s s.next_arrival_idx h st tracked)

  due_fresh :
      (s : SchedulerState)
      → arrival_due s ≡ true
      → (s.processes s.next_arrival_idx).state ≡ not_arrived
  due_fresh s h = ground arith

  due_in_range : (s : SchedulerState) → arrival_due s ≡ true → s.next_arrival_idx < s.num_processes
  due_in_range s h = ground arith

  arrive-Quiet :
      (s : SchedulerState)
      → arrival_due s ≡ true
      → Quiet (view s) (view (arrive policy s s.next_arrival_idx))
  arrive-Quiet s h = rw (arrive-view s s.next_arrival_idx) (record {
    num_same = refl;
    time_same = refl;
    stamp_same = λ i. ground (arith, due_fresh s h);
  })

  arrivals_loop-Arrived :
      (rounds : ℕ) (s : SchedulerState) (c : ℕ)
      → s.num_processes ≤ s.next_arrival_idx + rounds
      → Sound (view s) c
      → K.Tracks s
      → K.Calm s
      → Arrived policy K (view s) c (arrivals_loop rounds policy s)
  unfolding arrivals_loop
  arrivals_loop-Arrived zero s c h ok tracked calm = record {
    sound = ok;
    tracks = tracked;
    calm = calm;
    quiet = Quiet-refl (view s);
    run_same = refl;
    none_due = ground arith;
  }
  arrivals_loop-Arrived (suc rounds) s c h ok tracked calm = elim (Bool-cases (arrival_due s)) [
    | inl due ↦
        let t = arrive policy s s.next_arrival_idx in
        let e = arrive-view s s.next_arrival_idx in
        let rest =
          arrivals_loop-Arrived rounds t c
            (omega (arith, ap (λ v. v.num_processes) e, ap (λ v. v.next_arrival_idx) e))
            (subst (λ v. Sound v c) (sym e) (arrive-Sound s c due ok))
            (arrive-Tracks s (due_in_range s due) (due_fresh s due) tracked)
            (K.arrive_calm s s.next_arrival_idx calm) in
        rw (due, arrivals_loop)
          (record {
            sound = rest.sound;
            tracks = rest.tracks;
            calm = rest.calm;
            quiet = Quiet-trans (view s) (view t) _ (arrive-Quiet s due) rest.quiet;
            run_same = rest.run_same ∙ ap (λ v. v.running_process) e;
            none_due = rest.none_due;
          })
    | inr not_due ↦
        rw (not_due, arrivals_loop)
          (record {
            sound = ok;
            tracks = tracked;
            calm = calm;
            quiet = Quiet-refl (view s);
            run_same = refl;
            none_due = not_due;
          })
  ]

  pub handle_arrivals-Arrived :
      (s : SchedulerState) (c : ℕ)
      → Sound (view s) c
      → K.Tracks s
      → s.preempt_requested ≡ false
      → Arrived policy K (view s) c (handle_arrivals s policy)
  unfolding handle_arrivals
  handle_arrivals-Arrived s c ok tracked calm =
      arrivals_loop-Arrived (s.num_processes - s.next_arrival_idx) s c (omega (arith, ok.idx_le)) ok
        tracked (K.calm_start s calm)

  -- The tick hook is not called while nothing runs.
  pub handle_tick-idle : (s : SchedulerState) → s.running_process ≡ none → handle_tick s policy ≡ s
  unfolding handle_tick
  handle_tick-idle s e = elim (Option-cases policy.on_tick) [
    | inl eh ↦ rw (eh, handle_tick) refl
    | inr (hook, eh) ↦
        rw (eh, handle_tick) (ap (λ o. if is_some o then hook s s.running_process else s) e)
  ]

  tick_dispatch-busy :
      (s : SchedulerState) (c r : ℕ)
      → s.running_process ≡ some r
      → Sound (view s) c
      → K.Tracks s
      → K.Calm s
      → Dispatched policy K (view s) c (handle_dispatch (handle_tick s policy) policy)
  tick_dispatch-busy s c r run ok tracked calm =
      subst (λ v. Dispatched policy K v c (handle_dispatch t policy)) same
        (handle_dispatch-Dispatched K t c (subst (λ v. Sound v c) (sym same) ok)
          (λ e. absurd (some≢none (sym (run_same ∙ run) ∙ e)))
          (K.tick_keeps s r h run st calm tracked) yields)
    where
      t : SchedulerState
      t = handle_tick s policy

      h : r < s.num_processes
      h = running_in_range s c r run ok

      st : (s.processes r).state ≡ running
      st = running_is_running s c r run ok

      same : view t ≡ view s
      same = K.tick_view s r h run st calm tracked

      run_same : t.running_process ≡ s.running_process
      run_same = ap (λ v. v.running_process) same

      some≢none : some r ≡ none → ⊥
      some≢none e = cc

      same_index : (i : ℕ) → some i ≡ some r → r ≡ i
      same_index i e = cc

      yields :
          (i : ℕ)
          → t.running_process ≡ some i
          → t.preempt_requested ≡ true
          → K.Tracks (modify_process t i mark_ready)
      yields i er e =
          subst (λ j. K.Tracks (modify_process t j mark_ready))
            (same_index i (sym er ∙ run_same ∙ run)) (K.tick_yields s r h run st calm tracked e)

  -- Stages 3 and 4.
  pub tick_dispatch-Dispatched :
      (s : SchedulerState) (c : ℕ)
      → Sound (view s) c
      → K.Tracks s
      → K.Calm s
      → Dispatched policy K (view s) c (handle_dispatch (handle_tick s policy) policy)
  tick_dispatch-Dispatched s c ok tracked calm = elim (Option-cases s.running_process) [
    | inr (r, run) ↦ tick_dispatch-busy s c r run ok tracked calm
    | inl idle ↦
        subst (λ t. Dispatched policy K (view s) c (handle_dispatch t policy))
          (sym (handle_tick-idle s idle))
          (handle_dispatch-Dispatched K s c ok (λ e. tracked) (λ e. tracked)
            (λ i er e. absurd (some≢none i (sym er ∙ idle))))
  ]
    where
      some≢none : (i : ℕ) → some i ≡ none → ⊥
      some≢none i e = cc
