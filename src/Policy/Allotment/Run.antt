-- ===== src/Policy/Allotment/Run.antt =====
-- A whole run under src/algorithms/mlfq.c and the allotments.
use cpu_scheduler_simulator.Base.{ℕ, ◌<◌, ◌≡◌, refl, pos, ◌<ℤ◌}
use cpu_scheduler_simulator.State.{SchedulerState, PolicyState, MlfqState, null, rr, mlfq}
use cpu_scheduler_simulator.Engine.{call_hook, call_next_process}
use cpu_scheduler_simulator.Engine.Aside.{aside, step_simulation-keeps}
use cpu_scheduler_simulator.Engine.Reach.{Reached, Reached-keeps}
use cpu_scheduler_simulator.Policy.Mlfq.{
  mlfq_policy, mlfq_on_init, mlfq_on_arrival, mlfq_next_process,
}
use cpu_scheduler_simulator.Policy.Allotment.{WithinIn}
use cpu_scheduler_simulator.Policy.Allotment.Hooks.{
  mlfq_arrival-WithinIn, mlfq_next-WithinIn, handle_tick-WithinIn,
}

-- Each of the first `n` processes has used less than the allotment of the level of its priority, in
-- a state of the multi-level policy.
abbrev pub WithinAllotment : ℕ → SchedulerState → Type 0
WithinAllotment n s =
    (m : MlfqState) × (s.policy_state ≡ mlfq m)
    × ((i : ℕ)
        → i < n
        → pos (s.processes i).allotment_used <ℤ (m.queues (s.processes i).priority).allotment)

WithinIn-WithinAllotment :
    (n : ℕ) (s : SchedulerState) (ps : PolicyState)
    → s.policy_state ≡ ps
    → WithinIn n (record (aside s) { policy_state = ps })
    → WithinAllotment n s
WithinIn-WithinAllotment n s (mlfq m) e h = (m, e, h.each)
WithinIn-WithinAllotment n s null e h = absurd h
WithinIn-WithinAllotment n s (rr r) e h = absurd h

-- In every state of a run of the multi-level policy between two time units, if the configuration has
-- a level and every level an allotment, and the run starts with each process below the allotment of
-- its level: each process has used less than the allotment of the level that it is on.
pub Reached-WithinAllotment :
    (s t : SchedulerState) (c : ℕ)
    → 0 < s.mlfq_config.num_queues
    → ((l : ℕ) → l < s.mlfq_config.num_queues → pos 0 <ℤ s.mlfq_config.allotments l)
    → ((i : ℕ)
        → i < s.num_processes
        → pos (s.processes i).allotment_used <ℤ s.mlfq_config.allotments (s.processes i).priority)
    → Reached mlfq_policy s t c
    → WithinAllotment s.num_processes t
unfolding call_hook mlfq_on_init mlfq_on_arrival call_next_process mlfq_next_process
Reached-WithinAllotment s t c some_level some_allotment below reached =
    WithinIn-WithinAllotment n t t.policy_state refl (
      Reached-keeps (λ u d. WithinIn n (aside u))
        (record { some_level = some_level; some_allotment = some_allotment; each = below })
        (λ u d lt.
          step_simulation-keeps mlfq_policy (WithinIn n)
            (λ v i. mlfq_arrival-WithinIn n v i v.policy_state) (handle_tick-WithinIn n)
            (λ v. mlfq_next-WithinIn n v v.policy_state) u d)
        reached)
  where
    n : ℕ
    n = s.num_processes
