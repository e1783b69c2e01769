-- ===== src/Policy/Allotment.antt =====
-- Rule 4 of src/algorithms/mlfq.c over a whole run: no process uses up the allotment of its level.
pub mod Hooks
pub mod Run
use native.Mathlib.Decide.{ℕ_discrete}
use cpu_scheduler_simulator.Base.{
  ℕ, zero, suc, ◌+◌, ◌-◌, ◌<◌, ◌≡◌, ◌≢◌, refl, sym, ap, ◌∙◌, subst, List, [], ◌∷◌, arith, ℤ, pos,
  ◌<ℤ◌, ==_refl, ==_false, ◌==◌, if◌then◌else◌, Bool-cases, inl, inr, modify,
}
use cpu_scheduler_simulator.Process.{Process}
use cpu_scheduler_simulator.State.{
  SchedulerState, PolicyState, MlfqState, MlfqQueue, null, rr, mlfq,
}
use cpu_scheduler_simulator.Engine.{modify_process}
use cpu_scheduler_simulator.Engine.Aside.{own, Aside}
use cpu_scheduler_simulator.Policy.Mlfq.{
  enqueue, enqueue_at, set_nodes, reset_priority, boost_nodes, boost_levels, reset_allotments,
  boost,
}

-- Of the first `n` processes, each has used less than the allotment of its level. There is a level,
-- and every level has some allotment.
pub record Within (n : ℕ) (m : MlfqState) (owns : ℕ → ℕ × ℕ) : Type 0 where
  pub some_level : 0 < m.num_queues
  pub some_allotment : (l : ℕ) → l < m.num_queues → pos 0 <ℤ (m.queues l).allotment
  pub each : (i : ℕ) → i < n → pos (owns i).1 <ℤ (m.queues (owns i).0).allotment

abbrev pub WithinIn : ℕ → Aside → Type 0
WithinIn n a = elim a.policy_state [ mlfq m ↦ Within n m a.owns | null ↦ ⊥ | rr r ↦ ⊥ ]

-- Two states of the policy with the same levels, whatever stands in the queues.
pub record SameLevels (m m' : MlfqState) : Type 0 where
  pub num_same : m'.num_queues ≡ m.num_queues
  pub allotment_same : (l : ℕ) → (m'.queues l).allotment ≡ (m.queues l).allotment

pub SameLevels-Within :
    (n : ℕ) (m m' : MlfqState) (owns : ℕ → ℕ × ℕ)
    → SameLevels m m'
    → Within n m owns
    → Within n m' owns
SameLevels-Within n m m' owns e h = record {
  some_level = rw e.num_same h.some_level;
  some_allotment = λ l lt. rw (e.allotment_same l) (h.some_allotment l (rw e.num_same at lt));
  each = λ i lt. rw (e.allotment_same (owns i).0) (h.each i lt);
}

pub modify-SameLevels :
    (m : MlfqState) (level : ℕ) (f : MlfqQueue → MlfqQueue)
    → ((q : MlfqQueue) → (f q).allotment ≡ q.allotment)
    → SameLevels m (record m { queues = modify m.queues level f })
modify-SameLevels m level f same = record {
  num_same = refl;
  allotment_same =
      λ l. elim (Bool-cases (l == level)) [ inl e ↦ rw e (same (m.queues l)) | inr e ↦ rw e refl ];
}

pub enqueue_at-SameLevels : (m : MlfqState) (level p : ℕ) → SameLevels m (enqueue_at m level p)
unfolding enqueue
enqueue_at-SameLevels m level p = modify-SameLevels m level (λ q. enqueue q p) (λ q. refl)

-- One process changes.
pub write-Within :
    (n p : ℕ) (m : MlfqState) (a b : ℕ → ℕ × ℕ)
    → ((i : ℕ) → i ≢ p → b i ≡ a i)
    → (p < n → pos (b p).1 <ℤ (m.queues (b p).0).allotment)
    → Within n m a
    → Within n m b
write-Within n p m a b others now h = record {
  some_level = h.some_level;
  some_allotment = h.some_allotment;
  each = λ i lt. elim (ℕ_discrete i p) [
    | yes e ↦ rw e (now (rw e at lt))
    | no ne ↦ rw (others i ne) (h.each i lt)
  ];
}

pub modify-Within :
    (n p : ℕ) (m : MlfqState) (s : SchedulerState) (f : Process → Process)
    → (p < n
        → pos (f (s.processes p)).allotment_used
          <ℤ (m.queues (f (s.processes p)).priority).allotment)
    → Within n m (λ i. own (s.processes i))
    → Within n m (λ i. own ((modify_process s p f).processes i))
modify-Within n p m s f now h =
    write-Within n p m (λ i. own (s.processes i)) (λ i. own ((modify_process s p f).processes i))
      (λ i ne. rw (==_false i p ne) refl) (λ lt. rw (==_refl p) (now lt)) h

pub reset-Within :
    (n p : ℕ) (m : MlfqState) (s : SchedulerState)
    → Within n m (λ i. own (s.processes i))
    → Within n (enqueue_at m 0 p) (λ i. own ((modify_process s p reset_priority).processes i))
reset-Within n p m s h =
    SameLevels-Within n m (enqueue_at m 0 p) _ (enqueue_at-SameLevels m 0 p)
      (modify-Within n p m s reset_priority (λ lt. h.some_allotment 0 h.some_level) h)

boost_nodes-Within :
    (n : ℕ) (nodes : List ℕ) (s : SchedulerState) (m : MlfqState)
    → Within n m (λ i. own (s.processes i))
    → Within n (boost_nodes nodes s m).1 (λ i. own ((boost_nodes nodes s m).0.processes i))
unfolding boost_nodes
boost_nodes-Within n [] s m h = h
boost_nodes-Within n (p ∷ rest) s m h =
    boost_nodes-Within n rest (modify_process s p reset_priority) (enqueue_at m 0 p)
      (reset-Within n p m s h)

boost_levels-Within :
    (n rounds level : ℕ) (s : SchedulerState) (m : MlfqState)
    → Within n m (λ i. own (s.processes i))
    → Within n
        (boost_levels rounds level s m).1
        (λ i. own ((boost_levels rounds level s m).0.processes i))
unfolding boost_levels
boost_levels-Within n zero level s m h = h
boost_levels-Within n (suc rounds) level s m h =
    let m' = record m { queues = modify m.queues level (set_nodes []) } in
    let r = boost_nodes (m.queues level).nodes s m' in
    boost_levels-Within n rounds (level + 1) r.0 r.1 (
      boost_nodes-Within n (m.queues level).nodes s m'
        (SameLevels-Within n m m' _ (modify-SameLevels m level (set_nodes []) (λ q. refl)) h))

reset_allotments-Within :
    (n : ℕ) (nodes : List ℕ) (s : SchedulerState) (m : MlfqState)
    → Within n m (λ i. own (s.processes i))
    → Within n m (λ i. own ((reset_allotments nodes s).processes i))
unfolding reset_allotments
reset_allotments-Within n [] s m h = h
reset_allotments-Within n (p ∷ rest) s m h =
    reset_allotments-Within n rest (modify_process s p (λ q. record q { allotment_used = 0 })) m (
      modify-Within n p m s (λ q. record q { allotment_used = 0 })
        (λ lt. omega (arith, h.each p lt)) h)

pub boost-Within :
    (n : ℕ) (s : SchedulerState) (m : MlfqState)
    → Within n m (λ i. own (s.processes i))
    → Within n (boost s m).1 (λ i. own ((boost s m).0.processes i))
unfolding boost
boost-Within n s m h =
    let r = boost_levels (m.num_queues - 1) 1 s m in
    let w =
      reset_allotments-Within n (r.1.queues 0).nodes r.0 r.1
        (boost_levels-Within n (m.num_queues - 1) 1 s m h) in
    record { some_level = w.some_level; some_allotment = w.some_allotment; each = w.each }
