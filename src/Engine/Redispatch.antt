-- ===== src/Engine/Redispatch.antt =====
-- `handle_dispatch` of src/core/scheduler.c by cases: who was on the CPU, and whom the policy chose.
use native.Mathlib.Decide.{ℕ_discrete}
use cpu_scheduler_simulator.Base.{
  ℕ, ◌≡◌, ◌≢◌, refl, sym, ap, ◌∙◌, subst, Bool, true, false, Option, none, some, ◌==◌, ==_refl,
  ==_iff, if◌then◌else◌, arith, neg_part, Bool-cases, inl, inr, ◌||◌, not,
}
use cpu_scheduler_simulator.Process.{is_ready, process_start}
use cpu_scheduler_simulator.State.{SchedulerState, SchedulerPolicy}
use cpu_scheduler_simulator.Engine.{
  mark_ready, mark_previous, modify_process, set_preempt, start_next, count_switch, resume,
  switch_to, redispatch, handle_dispatch, is_some,
}
use cpu_scheduler_simulator.Engine.View.{View, view, core}
use cpu_scheduler_simulator.Engine.Contract.{PolicyContract, Picks, SameReady, mark_running}
use cpu_scheduler_simulator.Engine.Sound.{Sound}
use cpu_scheduler_simulator.Engine.Moves.{running-has_start}
use cpu_scheduler_simulator.Engine.Quiet.{Quiet, Quiet-trans, Quiet-eq}
use cpu_scheduler_simulator.Engine.Stages.{
  yield-Sound, running_in_range, running_is_running, running-Good,
}
use cpu_scheduler_simulator.Engine.Dispatch.{
  Dispatched, Starts, Starts-Sound, Starts-Quiet, start_next-Starts, resume-Starts,
}

module _ {policy : SchedulerPolicy} (K : PolicyContract policy) where
  -- The chosen process is started from a view in which the CPU is idle.
  started-Dispatched :
      (base : View) (c k : ℕ) (t u : SchedulerState)
      → Sound base c
      → Starts base (view u) k
      → u.preempt_requested ≡ false
      → K.Tracks (modify_process t k mark_running)
      → SameReady (modify_process t k mark_running) u
      → Dispatched policy K base c u
  started-Dispatched base c k t u ok st calm tracked same = record {
    sound = Starts-Sound base (view u) c k st ok;
    tracks = K.stable (modify_process t k mark_running) u same tracked;
    calm = calm;
    busy = λ e. absurd (some≢none (sym st.now_runs ∙ e));
    quiet = Starts-Quiet base (view u) k st;
    idx_same = st.idx_same;
  }
    where
      some≢none : some k ≡ none → ⊥
      some≢none e = cc

  from_Quiet :
      (v w : View) (c : ℕ) (t : SchedulerState)
      → Quiet v w
      → w.next_arrival_idx ≡ v.next_arrival_idx
      → Dispatched policy K w c t
      → Dispatched policy K v c t
  from_Quiet v w c t q e d = record {
    sound = d.sound;
    tracks = d.tracks;
    calm = d.calm;
    busy = d.busy;
    quiet = Quiet-trans v w (view t) q d.quiet;
    idx_same = d.idx_same ∙ e;
  }

  SameReady-start :
      (t : SchedulerState) (run : Option ℕ) (k : ℕ)
      → SameReady
          (modify_process t k mark_running)
          (set_preempt (start_next (count_switch t run) (some k)) false)
  unfolding start_next count_switch process_start
  SameReady-start t none k = record {
    policy_same = refl;
    num_same = refl;
    priority_same = λ i. ground arith;
    ready_same = λ i h. ground arith;
  }
  SameReady-start t (some r) k = record {
    policy_same = refl;
    num_same = refl;
    priority_same = λ i. ground arith;
    ready_same = λ i h. ground arith;
  }

  SameReady-resume :
      (t : SchedulerState) (k : ℕ)
      → SameReady (modify_process t k mark_running) (set_preempt (resume t (some k)) false)
  unfolding resume
  SameReady-resume t k = record {
    policy_same = refl;
    num_same = refl;
    priority_same = λ i. refl;
    ready_same = λ i h. refl;
  }

  module _ (s t : SchedulerState) (c : ℕ) (ok : Sound (view s) c) where
    idle-none :
        s.running_process ≡ none
        → view t ≡ view s
        → Picks K.Tracks s (none, t)
        → Dispatched policy K (view s) c (set_preempt (switch_to t none none) false)
    unfolding switch_to resume
    idle-none run e picks = record {
      sound = subst (λ v. Sound v c) (sym e) ok;
      tracks =
          K.stable t (set_preempt t false)
            (record {
              policy_same = refl;
              num_same = refl;
              priority_same = λ i. refl;
              ready_same = λ i h. refl;
            })
            picks.1;
      calm = refl;
      busy = λ _ i h.
          ap (λ v. is_ready (v.processes i).state) e
          ∙ picks.0 i (rw (sym (ap (λ v. v.num_processes) e)) h);
      quiet = Quiet-eq (view s) (view t) e;
      idx_same = ap (λ v. v.next_arrival_idx) e;
    }

    idle-some :
        (k : ℕ)
        → s.running_process ≡ none
        → view t ≡ view s
        → Picks K.Tracks s (some k, t)
        → Dispatched policy K (view s) c (set_preempt (switch_to t none (some k)) false)
    unfolding switch_to count_switch
    idle-some k run e picks =
        started-Dispatched (view s) c k t _ ok
          (start_next-Starts (view s) (count_switch t none) k (ap (λ v. v.num_processes) e)
            (ap (λ v. v.current_time) e) (ap (λ v. v.next_arrival_idx) e)
            (λ i. ap (λ v. v.processes i) e) run picks.0 picks.1)
          refl picks.2 (SameReady-start t none k)

  module _ (s t : SchedulerState) (c r : ℕ) (run : s.running_process ≡ some r)
      (ok : Sound (view s) c) where
    yielded : View
    yielded = record (view (modify_process s r mark_ready)) { running_process = none }

    yielded-Quiet : Quiet (view s) yielded
    unfolding yielded
    yielded-Quiet = record {
      num_same = refl;
      time_same = refl;
      stamp_same = λ i. ground (arith, running_is_running s c r run ok);
    }

    yielded-ready : is_ready (yielded.processes r).state ≡ true
    unfolding yielded
    yielded-ready = rw (==_refl r) refl

    had_start : neg_part (yielded.processes r).start_time ≡ 0
    unfolding yielded
    had_start = rw (==_refl r) (
        running-has_start s.current_time s.next_arrival_idx (some r) r (core (s.processes r))
          (running-Good s c r run ok) (running_is_running s c r run ok))

    busy-some :
        (k : ℕ)
        → k ≢ r
        → view t ≡ view (modify_process s r mark_ready)
        → Picks K.Tracks (modify_process s r mark_ready) (some k, t)
        → Dispatched policy K (view s) c (set_preempt (switch_to t (some r) (some k)) false)
    unfolding switch_to count_switch yielded
    busy-some k ne e picks = elim (Bool-cases (k == r)) [
      | inl same ↦ absurd (ne ((==_iff k r).0 same))
      | inr other ↦
          rw (other, switch_to)
            (from_Quiet (view s) yielded c _ yielded-Quiet refl (
              started-Dispatched yielded c k t _ (yield-Sound s c r run ok)
                (start_next-Starts yielded (count_switch t (some r)) k (ap (λ v. v.num_processes) e)
                  (ap (λ v. v.current_time) e) (ap (λ v. v.next_arrival_idx) e)
                  (λ i. ap (λ v. v.processes i) e) refl picks.0 picks.1)
                refl picks.2 (SameReady-start t (some r) k)))
    ]

    busy-same :
        view t ≡ view (modify_process s r mark_ready)
        → Picks K.Tracks (modify_process s r mark_ready) (some r, t)
        → Dispatched policy K (view s) c (set_preempt (switch_to t (some r) (some r)) false)
    unfolding switch_to yielded
    busy-same e picks =
        rw (==_refl r, switch_to)
          (from_Quiet (view s) yielded c _ yielded-Quiet refl (
            started-Dispatched yielded c r t _ (yield-Sound s c r run ok)
              (resume-Starts yielded t r (ap (λ v. v.num_processes) e) (ap (λ v. v.current_time) e)
                (ap (λ v. v.next_arrival_idx) e) (λ i. ap (λ v. v.processes i) e) refl
                (ap (λ v. v.running_process) e ∙ run) picks.0 picks.1 had_start)
              refl picks.2 (SameReady-resume t r)))

    busy-none : Picks K.Tracks (modify_process s r mark_ready) (none, t) → ⊥
    unfolding yielded
    busy-none picks = cc (yielded-ready, picks.0 r (running_in_range s c r run ok))

  redispatch_cases :
      (s t : SchedulerState) (c : ℕ) (run next : Option ℕ)
      → s.running_process ≡ run
      → Sound (view s) c
      → view t ≡ view (mark_previous s run)
      → Picks K.Tracks (mark_previous s run) (next, t)
      → Dispatched policy K (view s) c (set_preempt (switch_to t run next) false)
  unfolding mark_previous
  redispatch_cases s t c none none run ok e picks = idle-none s t c ok run e picks
  redispatch_cases s t c none (some k) run ok e picks = idle-some s t c ok k run e picks
  redispatch_cases s t c (some r) none run ok e picks = absurd (busy-none s t c r run ok picks)
  redispatch_cases s t c (some r) (some k) run ok e picks = elim (ℕ_discrete k r) [
    | yes same ↦
        subst
          (λ j. Dispatched policy K (view s) c (set_preempt (switch_to t (some r) (some j)) false))
          (sym same)
          (busy-same s t c r run ok e
            (subst (λ j. Picks K.Tracks (modify_process s r mark_ready) (some j, t)) same picks))
    | no other ↦ busy-some s t c r run ok k other e picks
  ]

  pub redispatch-Dispatched :
      (s : SchedulerState) (c : ℕ)
      → Sound (view s) c
      → K.Tracks (mark_previous s s.running_process)
      → Dispatched policy K (view s) c (redispatch s policy)
  unfolding redispatch
  redispatch-Dispatched s c ok tracked =
      redispatch_cases s _ c s.running_process _ refl ok
        (K.next_view (mark_previous s s.running_process))
        (K.next_picks (mark_previous s s.running_process) tracked)

  dispatched :
      (s : SchedulerState)
      → (not (is_some s.running_process) || s.preempt_requested) ≡ true
      → handle_dispatch s policy ≡ redispatch s policy
  unfolding handle_dispatch
  dispatched s h = ap (λ b. if b then redispatch s policy else s) h

  not_dispatched :
      (s : SchedulerState)
      → (not (is_some s.running_process) || s.preempt_requested) ≡ false
      → handle_dispatch s policy ≡ s
  unfolding handle_dispatch
  not_dispatched s h = ap (λ b. if b then redispatch s policy else s) h

  -- Under a policy with a contract, from a state with the invariant of the processes whose policy
  -- tracks them (once the running process, if it is to be preempted, is marked ready), a dispatch
  -- keeps the invariant and what the policy tracks, leaves no request to preempt, does no work, and
  -- leaves the CPU idle only if no process is ready.
  pub handle_dispatch-Dispatched :
      (s : SchedulerState) (c : ℕ)
      → Sound (view s) c
      → (s.running_process ≡ none → K.Tracks s)
      → (s.preempt_requested ≡ false → K.Tracks s)
      → ((r : ℕ)
          → s.running_process ≡ some r
          → s.preempt_requested ≡ true
          → K.Tracks (modify_process s r mark_ready))
      → Dispatched policy K (view s) c (handle_dispatch s policy)
  unfolding mark_previous
  handle_dispatch-Dispatched s c ok idle kept yields =
      go s.running_process s.preempt_requested refl refl
    where
      go :
          (run : Option ℕ) (asked : Bool)
          → s.running_process ≡ run
          → s.preempt_requested ≡ asked
          → Dispatched policy K (view s) c (handle_dispatch s policy)
      go none asked er ea =
          rw (dispatched s (rw er refl))
            (redispatch-Dispatched s c ok (rw (er, mark_previous) (idle er)))
      go (some r) true er ea =
          rw (dispatched s (rw (er, ea) refl))
            (redispatch-Dispatched s c ok (rw (er, mark_previous) (yields r er ea)))
      go (some r) false er ea = rw (not_dispatched s (rw (er, ea) refl)) (record {
        sound = ok;
        tracks = kept ea;
        calm = ea;
        busy = λ e. absurd (some≢none (sym er ∙ e));
        quiet = Quiet-eq (view s) (view s) refl;
        idx_same = refl;
      })
        where
          some≢none : some r ≡ none → ⊥
          some≢none e = cc
