-- ===== src/Policy/LeveledContract.antt =====
-- The engine's contract for src/algorithms/mlfq.c with the priorities: each process in a queue is in
-- the queue of its priority.
use cpu_scheduler_simulator.Base.{
  ℕ, ◌<◌, ◌≡◌, refl, sym, ap, ◌∙◌, subst, false, Option, none, some, arith, count, sum_to-at_least,
  inl, inr, Bool-cases, some-inj, ◌==◌,
}
use cpu_scheduler_simulator.Process.{Process, is_ready, not_arrived, running}
use cpu_scheduler_simulator.State.{SchedulerState, PolicyState, MlfqState, null, rr, mlfq}
use cpu_scheduler_simulator.Engine.{
  modify_process, mark_ready, handle_tick, call_next_process, call_hook, call_finish,
}
use cpu_scheduler_simulator.Engine.Contract.{PolicyContract, Picks, mark_running}
use cpu_scheduler_simulator.Policy.Expected.{expected}
use cpu_scheduler_simulator.Policy.Mlfq.{
  mlfq_policy, mlfq_on_init, mlfq_on_arrival, mlfq_next_process, mlfq_on_finish, mlfq_arrival,
  mlfq_next, mlfq_tick,
}
use cpu_scheduler_simulator.Policy.MultiLevel.{Matches, Holds, MlfqTracks, mlfq_stable}
use cpu_scheduler_simulator.Policy.Placement.{Absent}
use cpu_scheduler_simulator.Policy.OwnLevel.{
  Leveled, mlfq_arrival-Leveled, mlfq_next-Leveled, mlfq_tick-Leveled,
}
use cpu_scheduler_simulator.Policy.MultiLevelContract.{
  MlfqSuits, arrival-view, arrival-Holds, next-view, next-Picks, finish-ends, tick-some,
  init-Matches, tick-view, tick-keeps, tick-yields,
}

abbrev pub LeveledTracks : SchedulerState → Type 0
LeveledTracks s = MlfqTracks s × Leveled s s.policy_state

expected-not_ready :
    (s : SchedulerState) (i : ℕ) → is_ready (s.processes i).state ≡ false → expected s i ≡ 0
expected-not_ready s i h = ground arith

-- A process that is not ready stands in no queue.
not_ready-Absent :
    (s : SchedulerState) (m : MlfqState) (i : ℕ)
    → Matches s m
    → is_ready (s.processes i).state ≡ false
    → Absent m i
not_ready-Absent s m i ok h l lt = omega (
  arith,
  sum_to-at_least m.num_queues (λ q. count i (m.queues q).nodes) l lt,
  ok.queued i,
  expected-not_ready s i h,
)

-- Only the priorities matter.
Leveled-priorities :
    (s t : SchedulerState) (ps : PolicyState)
    → ((i : ℕ) → (t.processes i).priority ≡ (s.processes i).priority)
    → Leveled s ps
    → Leveled t ps
Leveled-priorities s t (mlfq m) same own = λ l i lt h. same i ∙ own l i lt h
Leveled-priorities s t null same own = own
Leveled-priorities s t (rr r) same own = own

priority-marked :
    (s : SchedulerState) (k i : ℕ) (f : Process → Process)
    → ((p : Process) → (f p).priority ≡ p.priority)
    → ((modify_process s k f).processes i).priority ≡ (s.processes i).priority
priority-marked s k i f same = elim (Bool-cases (i == k)) [
  | inl e ↦ rw e (same (s.processes i))
  | inr e ↦ rw e refl
]

arrival-Tracks :
    (s : SchedulerState) (k : ℕ) (ps : PolicyState)
    → k < s.num_processes
    → (s.processes k).state ≡ not_arrived
    → Holds s ps
    → Leveled s ps
    → LeveledTracks (mlfq_arrival (modify_process s k mark_ready) k ps)
arrival-Tracks s k (mlfq m) h st ok own = (
  arrival-Holds s k (mlfq m) h st ok,
  mlfq_arrival-Leveled (modify_process s k mark_ready) m k
      (not_ready-Absent s m k ok (ap is_ready st))
      (λ l i lt c. priority-marked s k i mark_ready (λ p. refl) ∙ own l i lt c),
)
arrival-Tracks s k null h st ok own = absurd ok
arrival-Tracks s k (rr r) h st ok own = absurd ok

next-Leveled :
    (s : SchedulerState) (ps : PolicyState)
    → Leveled s ps
    → Leveled (mlfq_next s ps).1 (mlfq_next s ps).1.policy_state
next-Leveled s (mlfq m) own = mlfq_next-Leveled s m own
next-Leveled s null own = absurd own
next-Leveled s (rr r) own = absurd own

both-Picks :
    (s : SchedulerState) (r : Option ℕ × SchedulerState)
    → Picks MlfqTracks s r
    → Leveled r.1 r.1.policy_state
    → Picks LeveledTracks s r
both-Picks s (none, t) (idle, ok) own = (idle, (ok, own))
both-Picks s (some k, t) (lt, rd, ok) own = (
  lt,
  rd,
  (
    ok,
    Leveled-priorities t (modify_process t k mark_running) t.policy_state
        (λ i. priority-marked t k i mark_running (λ p. refl)) own,
  ),
)

tick-Leveled :
    (s : SchedulerState) (r : ℕ) (ps : PolicyState)
    → (s.processes r).state ≡ running
    → Holds s ps
    → Leveled s ps
    → Leveled (mlfq_tick s (some r) ps) (mlfq_tick s (some r) ps).policy_state
tick-Leveled s r (mlfq m) st ok own =
    mlfq_tick-Leveled s m (some r) ok.some_level
      (λ p e.
        not_ready-Absent s m p ok
          (subst (λ j. is_ready (s.processes j).state ≡ false) (some-inj r p e) (ap is_ready st)))
      own
tick-Leveled s r null st ok own = absurd ok
tick-Leveled s r (rr x) st ok own = absurd ok

handle_tick-Leveled :
    (s : SchedulerState) (r : ℕ)
    → s.running_process ≡ some r
    → (s.processes r).state ≡ running
    → LeveledTracks s
    → Leveled (handle_tick s mlfq_policy) (handle_tick s mlfq_policy).policy_state
handle_tick-Leveled s r e st (ok, own) =
    subst (λ t. Leveled t t.policy_state) (sym (tick-some s r e))
      (tick-Leveled s r s.policy_state st ok own)

pub leveled_contract : PolicyContract mlfq_policy
unfolding call_hook call_finish call_next_process mlfq_on_init mlfq_on_arrival mlfq_next_process
    mlfq_on_finish
leveled_contract = record {
  Suits = MlfqSuits;
  Tracks = LeveledTracks;
  Calm = λ s. Unit {0};
  stable = λ s t same (ok, own). (
    mlfq_stable s t same ok,
    subst (Leveled t) (sym same.policy_same)
        (Leveled-priorities s t s.policy_state same.priority_same own),
  );
  calm_start = λ s h. tt;
  init_view = λ s. refl;
  init_preempt = λ s. refl;
  init_tracks = λ s suits h. (init-Matches s suits h, λ l i lt c. absurd (omega (arith, c)));
  arrive_view = λ s i. arrival-view s i s.policy_state;
  arrive_calm = λ s i h. tt;
  arrive_tracks = λ s i h st (ok, own). arrival-Tracks s i s.policy_state h st ok own;
  tick_view = λ s r h e st calm (ok, own). tick-view s r h e st ok;
  tick_keeps = λ s r h e st calm (ok, own) off.
      (tick-keeps s r h e st ok off, handle_tick-Leveled s r e st (ok, own));
  tick_yields = λ s r h e st calm (ok, own) on. (
    tick-yields s r h e st ok on,
    Leveled-priorities (handle_tick s mlfq_policy)
        (modify_process (handle_tick s mlfq_policy) r mark_ready)
        (handle_tick s mlfq_policy).policy_state
        (λ i. priority-marked (handle_tick s mlfq_policy) r i mark_ready (λ p. refl))
        (handle_tick-Leveled s r e st (ok, own)),
  );
  next_view = λ s. next-view s s.policy_state;
  next_picks = λ s (ok, own).
      both-Picks s (mlfq_next s s.policy_state) (next-Picks s s.policy_state ok)
        (next-Leveled s s.policy_state own);
  finish = λ fuel s some_fuel (ok, own) over. finish-ends fuel s s.policy_state some_fuel ok over;
}

pub leveled_suits : (s : SchedulerState) → MlfqSuits s → leveled_contract.Suits s
unfolding leveled_contract
leveled_suits s h = h

pub leveled_tracks : (s : SchedulerState) → leveled_contract.Tracks s → LeveledTracks s
unfolding leveled_contract
leveled_tracks s h = h
