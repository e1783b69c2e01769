-- ===== src/Policy/RoundRobin.antt =====
-- The engine's contract for src/algorithms/rr.c: what its ready queue is to hold.
use cpu_scheduler_simulator.Base.{
  ℕ, ◌<◌, ◌≡◌, refl, sym, ap, ◌∙◌, subst, Bool, true, false, Option, none, some, arith, inl, inr,
  if◌then◌else◌, ℤ, List, [], ◌∷◌, count, count-append, length, zero, suc, ◌&&◌, ltb_ℤ, leb_ℤ, pos,
  ◌-ℤ◌, Bool-cases,
}
use cpu_scheduler_simulator.Process.{is_ready, not_arrived, running}
use cpu_scheduler_simulator.Queue.{Queue, queue_init, enqueue, dequeue, is_empty, queue_free}
use cpu_scheduler_simulator.Queue.Fifo.{Sized, enqueue-Sized}
use cpu_scheduler_simulator.State.{SchedulerState, PolicyState, RrState, null, rr, mlfq}
use cpu_scheduler_simulator.Engine.{
  modify_process, mark_ready, arrive, handle_tick, call_next_process, call_hook, call_finish,
  set_preempt, is_some,
}
use cpu_scheduler_simulator.Engine.View.{view}
use cpu_scheduler_simulator.Engine.Contract.{PolicyContract, Picks, SameReady}
use cpu_scheduler_simulator.Policy.Expected.{
  expected, expected-same, expected-mark_ready, expected-mark_running, expected-one, expected-zero,
  none_expected,
}
use cpu_scheduler_simulator.Policy.Rr.{
  rr_policy, rr_on_init, rr_on_arrival, rr_next_process, rr_on_tick, rr_on_finish, rr_arrival,
  rr_next, rr_tick, rr_finish, set_rr,
}

abbrev pub Holds : SchedulerState → PolicyState → Type 0
Holds s (rr r) = ((i : ℕ) → count i r.ready_queue.nodes ≡ expected s i) × Sized r.ready_queue
Holds s null = ⊥
Holds s (mlfq m) = ⊥

abbrev pub RrTracks : SchedulerState → Type 0
RrTracks s = Holds s s.policy_state

Holds-same : (s t : SchedulerState) (ps : PolicyState) → SameReady s t → Holds s ps → Holds t ps
Holds-same s t (rr r) same (h, sized) = (λ i. h i ∙ sym (expected-same s t same i), sized)
Holds-same s t null same h = h
Holds-same s t (mlfq m) same h = h

rr_stable : (s t : SchedulerState) → SameReady s t → RrTracks s → RrTracks t
rr_stable s t same h = subst (Holds t) (sym same.policy_same) (Holds-same s t s.policy_state same h)

arrival-Holds :
    (s : SchedulerState) (k : ℕ) (ps : PolicyState)
    → k < s.num_processes
    → (s.processes k).state ≡ not_arrived
    → Holds s ps
    → RrTracks (rr_arrival (modify_process s k mark_ready) k ps)
unfolding rr_arrival enqueue
arrival-Holds s k (rr r) h st (held, sized) = (
  λ i. omega (
    arith,
    count-append i r.ready_queue.nodes (k ∷ []),
    expected-mark_ready s k i h (ap is_ready st),
    held i,
  ),
  enqueue-Sized r.ready_queue k sized,
)
arrival-Holds s k null h st held = absurd held
arrival-Holds s k (mlfq m) h st held = absurd held

tick-some :
    (s : SchedulerState) (r : ℕ)
    → s.running_process ≡ some r
    → handle_tick s rr_policy ≡ rr_tick s (some r) s.policy_state
unfolding handle_tick rr_on_tick
tick-some s r e = ap (λ o. if is_some o then rr_tick s o s.policy_state else s) e

module _ (s : SchedulerState) (k : ℕ) (h : k < s.num_processes)
    (st : (s.processes k).state ≡ running) (calm : s.preempt_requested ≡ false) where
  slice_over : RrState → Bool
  slice_over r =
      leb_ℤ (r.current_quantum -ℤ pos 1) (pos 0) && ltb_ℤ (pos 0) (s.processes k).remaining_time

  tick-keeps :
      (ps : PolicyState)
      → Holds s ps
      → (rr_tick s (some k) ps).preempt_requested ≡ false
      → RrTracks (rr_tick s (some k) ps)
  unfolding rr_tick enqueue slice_over
  tick-keeps (rr r) held off = elim (Bool-cases (slice_over r)) [
    | inl over ↦ cc (rw over at off)
    | inr rest ↦ rw rest held
  ]
  tick-keeps null held off = absurd held
  tick-keeps (mlfq m) held off = absurd held

  tick-yields :
      (ps : PolicyState)
      → Holds s ps
      → (rr_tick s (some k) ps).preempt_requested ≡ true
      → RrTracks (modify_process (rr_tick s (some k) ps) k mark_ready)
  unfolding rr_tick enqueue slice_over
  tick-yields (rr r) held on = elim (Bool-cases (slice_over r)) [
    | inl over ↦ rw over (
      λ i. omega (
        arith,
        count-append i r.ready_queue.nodes (k ∷ []),
        expected-mark_ready s k i h (ap is_ready st),
        held.0 i,
      ),
      enqueue-Sized r.ready_queue k held.1,
    )
    | inr rest ↦ cc (rw rest at on)
  ]
  tick-yields null held off = absurd held
  tick-yields (mlfq m) held off = absurd held

head_counts : (k : ℕ) (rest : List ℕ) → count k (k ∷ rest) ≡ 0 → ⊥
head_counts k rest e = ground arith

next-Picks :
    (s : SchedulerState) (nodes : List ℕ) (size : ℕ) (left : ℤ)
    → ((i : ℕ) → count i nodes ≡ expected s i)
    → size ≡ length nodes
    → Picks RrTracks s (
        rr_next s (
          rr (record {
            ready_queue = record { nodes = nodes; size = size };
            current_quantum = left;
          })))
unfolding rr_next dequeue
next-Picks s [] size left held sized = (λ i h. expected-zero s i h (sym (held i)), (held, sized))
next-Picks s (k ∷ rest) size left held sized =
    let now = expected-one s k (λ e. head_counts k rest (held k ∙ e)) in
    (
      now.0,
      now.1,
      (λ i. omega (arith, held i, expected-mark_running s k i now.0 now.1), omega (arith, sized)),
    )

rr-Picks : (s : SchedulerState) (ps : PolicyState) → Holds s ps → Picks RrTracks s (rr_next s ps)
rr-Picks s (rr r) held =
    next-Picks s r.ready_queue.nodes r.ready_queue.size r.current_quantum held.0 held.1
rr-Picks s null held = absurd held
rr-Picks s (mlfq m) held = absurd held

arrival-view : (s : SchedulerState) (i : ℕ) (ps : PolicyState) → view (rr_arrival s i ps) ≡ view s
unfolding rr_arrival
arrival-view s i null = refl
arrival-view s i (rr r) = refl
arrival-view s i (mlfq m) = refl

arrival-calm :
    (s : SchedulerState) (i : ℕ) (ps : PolicyState)
    → (rr_arrival s i ps).preempt_requested ≡ s.preempt_requested
unfolding rr_arrival
arrival-calm s i null = refl
arrival-calm s i (rr r) = refl
arrival-calm s i (mlfq m) = refl

-- Only the queue, the counter and the request to preempt are written.
slice-view :
    (s : SchedulerState) (b : Bool) (q r : RrState)
    → view (if b then set_preempt (set_rr s q) true else set_rr s r) ≡ view s
slice-view s true q r = refl
slice-view s false q r = refl

tick-view :
    (s : SchedulerState) (run : Option ℕ) (ps : PolicyState) → view (rr_tick s run ps) ≡ view s
unfolding rr_tick
tick-view s (some k) (rr r) = slice-view s _ _ _
tick-view s (some k) null = refl
tick-view s (some k) (mlfq m) = refl
tick-view s none null = refl
tick-view s none (rr r) = refl
tick-view s none (mlfq m) = refl

next-view : (s : SchedulerState) (ps : PolicyState) → view (rr_next s ps).1 ≡ view s
unfolding rr_next
next-view s null = refl
next-view s (rr r) = refl
next-view s (mlfq m) = refl

nothing_counted : (nodes : List ℕ) → ((i : ℕ) → count i nodes ≡ 0) → length nodes ≡ 0
nothing_counted [] h = refl
nothing_counted (k ∷ rest) h = absurd (head_counts k rest (h k))

queue_free-at_once : (fuel : ℕ) (q : Queue) → 0 < fuel → q.size ≡ 0 → queue_free fuel q ≡ some q
unfolding queue_free is_empty
queue_free-at_once zero q some_fuel e = absurd (omega arith)
queue_free-at_once (suc fuel) q some_fuel e = rw e refl

-- At the end nobody is ready, so the queue is empty and its size says so.
finish-ends :
    (fuel : ℕ) (s : SchedulerState) (ps : PolicyState)
    → 0 < fuel
    → Holds s ps
    → ((i : ℕ) → i < s.num_processes → is_ready (s.processes i).state ≡ false)
    → (t : SchedulerState) × (rr_finish fuel s ps ≡ some t) × (view t ≡ view s)
unfolding rr_finish
finish-ends fuel s null some_fuel h over = absurd h
finish-ends fuel s (mlfq m) some_fuel h over = absurd h
finish-ends fuel s (rr r) some_fuel (held, sized) over = (
  record s { policy_state = null },
  ap (λ o. elim o [ none ↦ none | some q ↦ some (record s { policy_state = null }) ])
      (queue_free-at_once fuel r.ready_queue some_fuel
        (sized ∙ nothing_counted r.ready_queue.nodes (λ i. held i ∙ sym (none_expected s over i)))),
  refl,
)

arrive_calm :
    (s : SchedulerState) (i : ℕ)
    → s.preempt_requested ≡ false
    → (arrive rr_policy s i).preempt_requested ≡ false
unfolding arrive rr_on_arrival
arrive_calm s i h = arrival-calm (modify_process s i mark_ready) i s.policy_state ∙ h

init-Holds :
    (s : SchedulerState)
    → ((i : ℕ) → i < s.num_processes → is_ready (s.processes i).state ≡ false)
    → RrTracks (rr_on_init s)
unfolding rr_on_init queue_init
init-Holds s h = (λ i. none_expected s h i, refl)

pub rr_contract : PolicyContract rr_policy
unfolding call_hook call_finish call_next_process rr_on_init rr_on_arrival rr_next_process
    rr_on_finish
rr_contract = record {
  Suits = λ s. Unit {0};
  Tracks = RrTracks;
  Calm = λ s. s.preempt_requested ≡ false;
  stable = rr_stable;
  calm_start = λ s h. h;
  init_view = λ s. refl;
  init_preempt = λ s. refl;
  init_tracks = λ s suits h. init-Holds s h;
  arrive_view = λ s i. arrival-view s i s.policy_state;
  arrive_calm = arrive_calm;
  arrive_tracks = λ s i h st held. arrival-Holds s i s.policy_state h st held;
  tick_view =
      λ s r h e st calm held. ap view (tick-some s r e) ∙ tick-view s (some r) s.policy_state;
  tick_keeps = λ s r h e st calm held off. subst RrTracks (sym (tick-some s r e)) (
      tick-keeps s r h st calm s.policy_state held
        (ap (λ t. t.preempt_requested) (sym (tick-some s r e)) ∙ off));
  tick_yields = λ s r h e st calm held on.
      subst (λ t. RrTracks (modify_process t r mark_ready)) (sym (tick-some s r e))
        (tick-yields s r h st calm s.policy_state held
          (ap (λ t. t.preempt_requested) (sym (tick-some s r e)) ∙ on));
  next_view = λ s. next-view s s.policy_state;
  next_picks = λ s held. rr-Picks s s.policy_state held;
  finish = λ fuel s some_fuel held over. finish-ends fuel s s.policy_state some_fuel held over;
}

-- Any state suits it.
pub rr_suits : (s : SchedulerState) → rr_contract.Suits s
unfolding rr_contract
rr_suits s = tt
