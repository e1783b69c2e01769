-- ===== src/Policy/MultiLevelContract.antt =====
-- The other hooks of src/algorithms/mlfq.c, and the engine's contract for it.
use cpu_scheduler_simulator.Base.{
  ℕ, zero, suc, ◌<◌, ◌≡◌, refl, sym, ap, ◌∙◌, subst, Bool, true, false, Option, none, some, arith,
  inl, inr, ◌⊎◌, if◌then◌else◌, sum_to, List, [], ◌∷◌, count, sum_to-at_least, ◌+◌, ◌≤◌, ==_false,
  modify,
}
use cpu_scheduler_simulator.Process.{is_ready, not_arrived, running}
use cpu_scheduler_simulator.State.{
  SchedulerState, PolicyState, MlfqState, null, rr, mlfq, MlfqQueue,
}
use cpu_scheduler_simulator.Engine.{
  modify_process, mark_ready, handle_tick, call_next_process, call_hook, call_finish, set_preempt,
  is_some,
}
use cpu_scheduler_simulator.Engine.View.{view, view-modify_process}
use cpu_scheduler_simulator.Engine.Contract.{PolicyContract, Picks}
use cpu_scheduler_simulator.Policy.Expected.{
  expected, expected-mark_ready, expected-mark_running, expected-one, expected-zero, none_expected,
}
use cpu_scheduler_simulator.Policy.Levels.{OnLevels, held, held-enqueue_at}
use cpu_scheduler_simulator.Policy.Mlfq.{
  mlfq_policy, mlfq_on_init, mlfq_on_arrival, mlfq_next_process, mlfq_on_tick, mlfq_on_finish,
  mlfq_arrival, mlfq_next, mlfq_tick, mlfq_finish, enqueue_at, set_mlfq, reset_priority, drain,
  drain_levels, dequeue,
}
use cpu_scheduler_simulator.Policy.MultiLevel.{
  Matches, Matches-config, Holds, MlfqTracks, mlfq_stable,
}
use cpu_scheduler_simulator.Policy.Picked.{PickOk, pick_from-PickOk, all_empty, one_taken}
use cpu_scheduler_simulator.Policy.MultiLevelTick.{Yields, Keeps, mlfq_tick-Outcome}

-- A request to preempt, or none, leaves the rest.
asking-view : (s : SchedulerState) (b : Bool) → view (if b then set_preempt s true else s) ≡ view s
asking-view s true = refl
asking-view s false = refl

asking-Tracks :
    (s : SchedulerState) (m : MlfqState) (b : Bool)
    → Matches s m
    → MlfqTracks (if b then set_preempt (set_mlfq s m) true else set_mlfq s m)
asking-Tracks s m true ok = Matches-config s _ m refl ok
asking-Tracks s m false ok = Matches-config s _ m refl ok

pub arrival-view :
    (s : SchedulerState) (i : ℕ) (ps : PolicyState) → view (mlfq_arrival s i ps) ≡ view s
unfolding mlfq_arrival
arrival-view s i null = refl
arrival-view s i (rr r) = refl
arrival-view s i (mlfq m) = asking-view _ _ ∙ view-modify_process s i reset_priority (λ q. refl)

arrived-Matches :
    (s : SchedulerState) (k : ℕ) (m : MlfqState)
    → k < s.num_processes
    → (s.processes k).state ≡ not_arrived
    → Matches s m
    → Matches (modify_process (modify_process s k mark_ready) k reset_priority) (enqueue_at m 0 k)
arrived-Matches s k m h st ok = record {
  some_level = ok.some_level;
  on_level = λ i lt. ground (arith, ok.on_level i lt, ok.some_level);
  queued = λ i. omega (
    arith,
    held-enqueue_at m 0 k i ok.some_level,
    ok.queued i,
    expected-mark_ready s k i h (ap is_ready st),
    same_ready i,
  );
}
  where
    same_ready :
        (i : ℕ)
        → expected (modify_process (modify_process s k mark_ready) k reset_priority) i
          ≡ expected (modify_process s k mark_ready) i
    same_ready i = ground arith

pub arrival-Holds :
    (s : SchedulerState) (k : ℕ) (ps : PolicyState)
    → k < s.num_processes
    → (s.processes k).state ≡ not_arrived
    → Holds s ps
    → MlfqTracks (mlfq_arrival (modify_process s k mark_ready) k ps)
unfolding mlfq_arrival
arrival-Holds s k (mlfq m) h st ok = asking-Tracks _ _ _ (arrived-Matches s k m h st ok)
arrival-Holds s k null h st ok = absurd ok
arrival-Holds s k (rr r) h st ok = absurd ok

picked-Picks :
    (s : SchedulerState) (m : MlfqState) (next : Option ℕ) (m' : MlfqState)
    → PickOk m.num_queues 0 m (next, m')
    → Matches s m
    → Picks MlfqTracks s (next, set_mlfq s m')
picked-Picks s m none m' pk ok = (
  λ i h. expected-zero s i h (
      sym (ok.queued i)
      ∙ all_empty m.num_queues m i (λ q p. pk.empty refl q (omega arith) (omega arith))),
  record {
    some_level = rw pk.num_same ok.some_level;
    on_level = λ i lt. rw pk.num_same (ok.on_level i lt);
    queued = λ i. omega (arith, pk.taken i, ok.queued i);
  },
)
picked-Picks s m (some k) m' pk ok =
    let now = expected-one s k (λ e. one_taken k (held m' k) (pk.taken k ∙ ok.queued k ∙ e)) in
    (
      now.0,
      now.1,
      record {
        some_level = rw pk.num_same ok.some_level;
        on_level = λ i lt. rw pk.num_same (ground (arith, ok.on_level i lt));
        queued =
            λ i. omega (arith, pk.taken i, ok.queued i, expected-mark_running s k i now.0 now.1);
      },
    )

pub next-Picks :
    (s : SchedulerState) (ps : PolicyState) → Holds s ps → Picks MlfqTracks s (mlfq_next s ps)
unfolding mlfq_next
next-Picks s (mlfq m) ok = picked-Picks s m _ _ (pick_from-PickOk m.num_queues 0 m (omega arith)) ok
next-Picks s null ok = absurd ok
next-Picks s (rr r) ok = absurd ok

pub next-view : (s : SchedulerState) (ps : PolicyState) → view (mlfq_next s ps).1 ≡ view s
unfolding mlfq_next
next-view s null = refl
next-view s (rr r) = refl
next-view s (mlfq m) = refl

drain-empty : (fuel : ℕ) (q : MlfqQueue) → 0 < fuel → q.nodes ≡ [] → drain fuel q ≡ some q
unfolding drain dequeue
drain-empty zero q some_fuel e = absurd (omega arith)
drain-empty (suc fuel) q some_fuel e = rw e refl

drain_levels-ends :
    (fuel rounds level : ℕ) (m : MlfqState)
    → 0 < fuel
    → ((q : ℕ) → level ≤ q → q < level + rounds → (m.queues q).nodes ≡ [])
    → (m' : MlfqState) × (drain_levels fuel rounds level m ≡ some m')
unfolding drain_levels
drain_levels-ends fuel zero level m some_fuel h = (m, refl)
drain_levels-ends fuel (suc rounds) level m some_fuel h =
    rw
      (
        drain-empty fuel (m.queues level) some_fuel (h level (omega arith) (omega arith)),
        drain_levels,
      )
      (drain_levels-ends fuel rounds (level + 1)
        (record m { queues = modify m.queues level (λ _. m.queues level) }) some_fuel
        (λ q a b.
          rw (==_false q level (omega (arith, a))) (h q (omega (arith, a)) (omega (arith, b)))))

no_head : (k : ℕ) (rest : List ℕ) → count k (k ∷ rest) ≡ 0 → ⊥
no_head k rest e = ground arith

uncounted : (nodes : List ℕ) → ((i : ℕ) → count i nodes ≡ 0) → nodes ≡ []
uncounted [] h = refl
uncounted (k ∷ rest) h = absurd (no_head k rest (h k))

-- At the end nobody is ready, so every queue is empty.
pub finish-ends :
    (fuel : ℕ) (s : SchedulerState) (ps : PolicyState)
    → 0 < fuel
    → Holds s ps
    → ((i : ℕ) → i < s.num_processes → is_ready (s.processes i).state ≡ false)
    → (t : SchedulerState) × (mlfq_finish fuel s ps ≡ some t) × (view t ≡ view s)
unfolding mlfq_finish
finish-ends fuel s null some_fuel ok over = absurd ok
finish-ends fuel s (rr r) some_fuel ok over = absurd ok
finish-ends fuel s (mlfq m) some_fuel ok over =
    let (m', e) = drain_levels-ends fuel m.num_queues 0 m some_fuel (λ q a b.
      uncounted (m.queues q).nodes (λ i. omega (
        arith,
        sum_to-at_least m.num_queues (λ l. count i (m.queues l).nodes) q (omega (arith, b)),
        ok.queued i,
        none_expected s over i,
      ))) in
    (
      record s { policy_state = null },
      ap (λ o. elim o [ none ↦ none | some drained ↦ some (record s { policy_state = null }) ]) e,
      refl,
    )

pub tick-some :
    (s : SchedulerState) (r : ℕ)
    → s.running_process ≡ some r
    → handle_tick s mlfq_policy ≡ mlfq_tick s (some r) s.policy_state
unfolding handle_tick mlfq_on_tick
tick-some s r e = ap (λ o. if is_some o then mlfq_tick s o s.policy_state else s) e

module _ (s : SchedulerState) (r : ℕ) (h : r < s.num_processes) (e : s.running_process ≡ some r)
    (st : (s.processes r).state ≡ running) (ok : MlfqTracks s) where
  tick-Outcome : Yields s r (handle_tick s mlfq_policy) ⊎ Keeps s (handle_tick s mlfq_policy)
  tick-Outcome =
      subst (λ t. Yields s r t ⊎ Keeps s t) (sym (tick-some s r e))
        (mlfq_tick-Outcome s r h st s.policy_state ok)

  pub tick-view : view (handle_tick s mlfq_policy) ≡ view s
  tick-view = elim tick-Outcome [ inl y ↦ y.view_same | inr k ↦ k.view_same ]

  pub tick-keeps :
      (handle_tick s mlfq_policy).preempt_requested ≡ false → MlfqTracks (handle_tick s mlfq_policy)
  tick-keeps off = elim tick-Outcome [ inl y ↦ cc (y.asked) | inr k ↦ k.tracks ]

  pub tick-yields :
      (handle_tick s mlfq_policy).preempt_requested ≡ true
      → MlfqTracks (modify_process (handle_tick s mlfq_policy) r mark_ready)
  tick-yields on = elim tick-Outcome [ inl y ↦ y.tracks | inr k ↦ cc (k.not_asked) ]

-- At the start there is a level, and every process is on one.
pub record MlfqSuits (s : SchedulerState) : Type 0 where
  pub some_level : 0 < s.mlfq_config.num_queues
  pub on_level : OnLevels s s.mlfq_config.num_queues

no_nodes : (n i : ℕ) → sum_to n (λ q. 0) ≡ 0
no_nodes zero i = refl
no_nodes (suc n) i = omega (arith, no_nodes n i)

pub init-Matches :
    (s : SchedulerState)
    → MlfqSuits s
    → ((i : ℕ) → i < s.num_processes → is_ready (s.processes i).state ≡ false)
    → MlfqTracks (mlfq_on_init s)
unfolding mlfq_on_init
init-Matches s suits h = record {
  some_level = suits.some_level;
  on_level = suits.on_level;
  queued = λ i. no_nodes s.mlfq_config.num_queues i ∙ none_expected s h i;
}

pub mlfq_contract : PolicyContract mlfq_policy
unfolding call_hook call_finish call_next_process mlfq_on_init mlfq_on_arrival mlfq_next_process
    mlfq_on_finish
mlfq_contract = record {
  Suits = MlfqSuits;
  Tracks = MlfqTracks;
  Calm = λ s. Unit {0};
  stable = mlfq_stable;
  calm_start = λ s h. tt;
  init_view = λ s. refl;
  init_preempt = λ s. refl;
  init_tracks = init-Matches;
  arrive_view = λ s i. arrival-view s i s.policy_state;
  arrive_calm = λ s i h. tt;
  arrive_tracks = λ s i h st ok. arrival-Holds s i s.policy_state h st ok;
  tick_view = λ s r h e st calm ok. tick-view s r h e st ok;
  tick_keeps = λ s r h e st calm ok off. tick-keeps s r h e st ok off;
  tick_yields = λ s r h e st calm ok on. tick-yields s r h e st ok on;
  next_view = λ s. next-view s s.policy_state;
  next_picks = λ s ok. next-Picks s s.policy_state ok;
  finish = λ fuel s some_fuel ok over. finish-ends fuel s s.policy_state some_fuel ok over;
}

pub mlfq_suits : (s : SchedulerState) → MlfqSuits s → mlfq_contract.Suits s
unfolding mlfq_contract
mlfq_suits s h = h
