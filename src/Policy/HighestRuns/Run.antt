-- ===== src/Policy/HighestRuns/Run.antt =====
-- The time units of src/core/scheduler.c under src/algorithms/mlfq.c, and a whole run.
use cpu_scheduler_simulator.Base.{
  ℕ, ◌≤◌, ◌<◌, ◌≡◌, refl, sym, ap, ◌∙◌, subst, Bool, true, false, not, ◌||◌, Option, none, some,
  arith, Option-cases, inl, inr, none≢some,
}
use cpu_scheduler_simulator.Process.{running, is_ready}
use cpu_scheduler_simulator.State.{SchedulerState, PolicyState, null, rr, mlfq}
use cpu_scheduler_simulator.Engine.{
  modify_process, mark_ready, set_running, handle_completions, handle_arrivals, handle_tick,
  handle_dispatch, mark_previous, is_some, before_execution, finish_unit, step_simulation,
}
use cpu_scheduler_simulator.Engine.View.{view}
use cpu_scheduler_simulator.Engine.Sound.{Sound}
use cpu_scheduler_simulator.Engine.Stages.{running_in_range, running_is_running}
use cpu_scheduler_simulator.Engine.Unit.{Inv, ArrivesBy, handle_completions-Completed}
use cpu_scheduler_simulator.Engine.Step.{handle_arrivals-Arrived, handle_tick-idle}
use cpu_scheduler_simulator.Engine.Total.{Fresh}
use cpu_scheduler_simulator.Engine.Reach.{
  Reached, Reached-keeps, Underway, begin-Underway, unit-Underway, handle_arrivals-keeps,
  step_simulation-stages,
}
use cpu_scheduler_simulator.Policy.Mlfq.{mlfq_policy, mlfq_tick}
use cpu_scheduler_simulator.Policy.MultiLevel.{Holds}
use cpu_scheduler_simulator.Policy.MultiLevelContract.{MlfqSuits, tick-some}
use cpu_scheduler_simulator.Policy.LeveledContract.{
  LeveledTracks, leveled_contract, leveled_suits, leveled_tracks,
}
use cpu_scheduler_simulator.Policy.LeastRuns.{
  LeastRuns, Settled, handle_completions-Settled, unit_end-Settled,
}
use cpu_scheduler_simulator.Policy.HighestRuns.{
  rank, Unasked, IsMlfq, Left, arrive-Unasked, tick-Left, same-LeastRuns, handle_dispatch-Settled,
}

-- The priority of no ready process is a smaller number than that of the process on the CPU.
abbrev pub HighestRuns : SchedulerState → Type 0
HighestRuns s =
    (r : ℕ)
    → s.running_process ≡ some r
    → (i : ℕ) → i < s.num_processes
    → is_ready (s.processes i).state ≡ true
    → (s.processes r).priority ≤ (s.processes i).priority

Holds-IsMlfq : (s : SchedulerState) (ps : PolicyState) → Holds s ps → IsMlfq ps
Holds-IsMlfq s (mlfq m) h = tt
Holds-IsMlfq s null h = absurd h
Holds-IsMlfq s (rr r) h = absurd h

mlfq_tick-Left :
    (s : SchedulerState) (r : ℕ) (ps : PolicyState)
    → IsMlfq ps
    → (mlfq_tick s (some r) ps).preempt_requested ≡ false
    → Left s (mlfq_tick s (some r) ps)
mlfq_tick-Left s r (mlfq m) is off = tick-Left s r m off
mlfq_tick-Left s r null is off = absurd is
mlfq_tick-Left s r (rr x) is off = absurd is

-- The CPU is not idle, so it was asked for.
asked_for :
    (b : Bool) (o : Option ℕ) (r : ℕ) → o ≡ some r → (not (is_some o) || b) ≡ true → b ≡ true
asked_for b none r e ask = absurd (none≢some r e)
asked_for b (some k) r e ask = ask

-- Stages 3 and 4, with the process at `r` on the CPU.
tick_dispatch-busy :
    (s : SchedulerState) (c r : ℕ)
    → s.running_process ≡ some r
    → Sound (view s) c
    → leveled_contract.Tracks s
    → leveled_contract.Calm s
    → IsMlfq s.policy_state
    → Unasked s
    → Settled rank (handle_dispatch (handle_tick s mlfq_policy) mlfq_policy)
unfolding mark_previous
tick_dispatch-busy s c r run ok tracked calm is h =
    handle_dispatch-Settled t
      (λ ask.
        subst (λ o. LeveledTracks (mark_previous t o)) (sym run_same)
          (leveled_tracks (modify_process t r mark_ready) (
            leveled_contract.tick_yields s r in_range run st calm tracked
              (asked_for t.preempt_requested t.running_process r run_same ask))))
      (λ off. same-LeastRuns s t same (left off).priority_same (h (left off).calm))
  where
    t : SchedulerState
    t = handle_tick s mlfq_policy

    in_range : r < s.num_processes
    in_range = running_in_range s c r run ok

    st : (s.processes r).state ≡ running
    st = running_is_running s c r run ok

    same : view t ≡ view s
    same = leveled_contract.tick_view s r in_range run st calm tracked

    run_same : t.running_process ≡ some r
    run_same = ap (λ v. v.running_process) same ∙ run

    left : t.preempt_requested ≡ false → Left s t
    left off =
        subst (λ u. Left s u) (sym (tick-some s r run))
          (mlfq_tick-Left s r s.policy_state is
            (ap (λ u. u.preempt_requested) (sym (tick-some s r run)) ∙ off))

tick_dispatch-Settled :
    (s : SchedulerState) (c : ℕ)
    → Sound (view s) c
    → leveled_contract.Tracks s
    → leveled_contract.Calm s
    → IsMlfq s.policy_state
    → Unasked s
    → Settled rank (handle_dispatch (handle_tick s mlfq_policy) mlfq_policy)
unfolding mark_previous
tick_dispatch-Settled s c ok tracked calm is h = elim (Option-cases s.running_process) [
  | inr (r, run) ↦ tick_dispatch-busy s c r run ok tracked calm is h
  | inl idle ↦
      subst (λ t. Settled rank (handle_dispatch t mlfq_policy))
        (sym (handle_tick-idle leveled_contract s idle))
        (handle_dispatch-Settled s
          (λ ask.
            subst (λ o. LeveledTracks (mark_previous s o)) (sym idle) (leveled_tracks s tracked))
          h)
]

before_execution-Settled :
    (s : SchedulerState) (c : ℕ)
    → Inv mlfq_policy leveled_contract s c
    → LeastRuns rank s
    → Settled rank (before_execution s mlfq_policy)
unfolding before_execution
before_execution-Settled s c inv h =
    let ar = handle_arrivals-Arrived leveled_contract s c inv.sound inv.tracks inv.calm in
    let (is, unasked) =
      handle_arrivals-keeps (λ u. IsMlfq u.policy_state × Unasked u) mlfq_policy
        (λ u due. arrive-Unasked u u.next_arrival_idx) s
        (Holds-IsMlfq s s.policy_state (leveled_tracks s inv.tracks).0, λ calm. h) in
    tick_dispatch-Settled (handle_arrivals s mlfq_policy) c ar.sound ar.tracks ar.calm is unasked

step_simulation-Settled :
    (s : SchedulerState) (c : ℕ)
    → Inv mlfq_policy leveled_contract s c
    → Settled rank s
    → Settled rank (step_simulation s mlfq_policy c).0
unfolding finish_unit
step_simulation-Settled s c inv h =
    let done = handle_completions-Settled rank s c h in
    let u = (handle_completions s c).0 in
    let inv' = (handle_completions-Completed leveled_contract s c inv).inv in
    step_simulation-stages (λ v d. Settled rank v) mlfq_policy s c done
      (λ more.
        unit_end-Settled rank (before_execution u mlfq_policy) (handle_completions s c).1
          (before_execution u mlfq_policy).running_process refl
          (before_execution-Settled u (handle_completions s c).1 inv' done.1))

-- In every state of a run of the multi-level policy between two time units, if the run starts in a
-- fresh state with at least one level and every process on a level: the priority of no ready process
-- is a smaller number than that of the process on the CPU.
pub Reached-HighestRuns :
    (latest : ℕ) (s t : SchedulerState) (c : ℕ)
    → Fresh s
    → MlfqSuits (set_running s none)
    → ArrivesBy latest (view s)
    → Reached mlfq_policy s t c
    → HighestRuns t
Reached-HighestRuns latest s t c f suits by reached =
    λ r on_cpu i lt rd. omega (arith, all.1.1 r on_cpu i lt rd)
  where
    all : Underway mlfq_policy leveled_contract latest s t c × Settled rank t
    all =
        Reached-keeps (λ u d. Underway mlfq_policy leveled_contract latest s u d × Settled rank u)
          (
            begin-Underway leveled_contract latest s f (leveled_suits _ suits) by,
            (
              leveled_contract.init_preempt (set_running s none) ∙ f.calm,
              λ k e. absurd (
                  none≢some k (
                    sym (
                      ap (λ v. v.running_process) (leveled_contract.init_view (set_running s none)))
                    ∙ e)),
            ),
          )
          (λ u d lt h. (
            unit-Underway leveled_contract latest s f (leveled_suits _ suits) by u d lt h.0,
            step_simulation-Settled u d h.0.inv h.1,
          ))
          reached
