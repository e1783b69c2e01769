-- ===== src/Policy/MultiLevel.antt =====
-- What the queues of src/algorithms/mlfq.c are to hold: `Matches`, and how it moves along.
use cpu_scheduler_simulator.Base.{
  ℕ, ◌-◌, ◌<◌, ◌≡◌, refl, sym, ap, ◌∙◌, subst, arith, if◌then◌else◌, List, [], ◌∷◌, ltb, ◌&&◌,
}
use cpu_scheduler_simulator.Process.{is_ready, running}
use cpu_scheduler_simulator.State.{
  SchedulerConfig, SchedulerState, PolicyState, MlfqState, null, rr, mlfq,
}
use cpu_scheduler_simulator.Engine.{modify_process, mark_ready}
use cpu_scheduler_simulator.Engine.View.{View, view, view-modify_process}
use cpu_scheduler_simulator.Engine.Contract.{SameReady}
use cpu_scheduler_simulator.Policy.Expected.{expected, expected-same, expected-mark_ready}
use cpu_scheduler_simulator.Policy.Levels.{
  OnLevels, held, held-enqueue_at, Shuffled, boost_levels-Shuffled,
}
use cpu_scheduler_simulator.Policy.Mlfq.{enqueue_at, boost_levels, reset_allotments, boost}

reset_allotments-Shuffled :
    (nodes : List ℕ) (s : SchedulerState) (m : MlfqState)
    → Shuffled s m (reset_allotments nodes s, m)
unfolding reset_allotments
reset_allotments-Shuffled [] s m = record {
  view_same = refl;
  preempt_same = refl;
  num_same = refl;
  levels_kept = λ lv. lv;
}
reset_allotments-Shuffled (p ∷ rest) s m =
    let sh =
      reset_allotments-Shuffled rest (modify_process s p (λ q. record q { allotment_used = 0 }))
        m in
    record {
      view_same =
          sh.view_same ∙ view-modify_process s p (λ q. record q { allotment_used = 0 }) (λ q. refl);
      preempt_same = sh.preempt_same;
      num_same = refl;
      levels_kept = λ lv. sh.levels_kept (λ i lt. ground (arith, lv i lt));
    }

pub boost-Shuffled :
    (s : SchedulerState) (m : MlfqState)
    → 0 < m.num_queues
    → Shuffled s m (boost s m) × ((i : ℕ) → held (boost s m).1 i ≡ held m i)
unfolding boost
boost-Shuffled s m h =
    let (sh, e) = boost_levels-Shuffled (m.num_queues - 1) 1 s m h (omega arith) in
    let r = boost_levels (m.num_queues - 1) 1 s m in
    let sh' = reset_allotments-Shuffled (r.1.queues 0).nodes r.0 m in
    (
      record {
        view_same = sh'.view_same ∙ sh.view_same;
        preempt_same = sh'.preempt_same ∙ sh.preempt_same;
        num_same = sh.num_same;
        levels_kept = λ lv. sh'.levels_kept (sh.levels_kept lv);
      },
      e,
    )

-- The queues of `m` match the processes of `s`.
pub record Matches (s : SchedulerState) (m : MlfqState) : Type 0 where
  pub some_level : 0 < m.num_queues
  pub on_level : OnLevels s m.num_queues
  pub queued : (i : ℕ) → held m i ≡ expected s i

-- It is a matter of the configuration alone, which holds the processes.
pub Matches-config :
    (s t : SchedulerState) (m : MlfqState) → t.config ≡ s.config → Matches s m → Matches t m
Matches-config s t m e ok = record {
  some_level = ok.some_level;
  on_level = λ i lt.
      rw (ap (λ c. (c.processes i).priority) e)
        (ok.on_level i (rw (ap (λ c. c.num_processes) e) at lt));
  queued = λ i.
      ok.queued i
      ∙ ap
          (λ (c : SchedulerConfig).
            if ltb i c.num_processes && is_ready (c.processes i).state then 1 else 0)
          (sym e);
}

abbrev pub Holds : SchedulerState → PolicyState → Type 0
Holds s (mlfq m) = Matches s m
Holds s null = ⊥
Holds s (rr r) = ⊥

abbrev pub MlfqTracks : SchedulerState → Type 0
MlfqTracks s = Holds s s.policy_state

Matches-same : (s t : SchedulerState) (m : MlfqState) → SameReady s t → Matches s m → Matches t m
Matches-same s t m same h = record {
  some_level = h.some_level;
  on_level = λ i lt. rw (same.priority_same i) (h.on_level i (rw same.num_same at lt));
  queued = λ i. h.queued i ∙ sym (expected-same s t same i);
}

Holds-same : (s t : SchedulerState) (ps : PolicyState) → SameReady s t → Holds s ps → Holds t ps
Holds-same s t (mlfq m) same h = Matches-same s t m same h
Holds-same s t null same h = h
Holds-same s t (rr r) same h = h

pub mlfq_stable : (s t : SchedulerState) → SameReady s t → MlfqTracks s → MlfqTracks t
mlfq_stable s t same h =
    subst (Holds t) (sym same.policy_same) (Holds-same s t s.policy_state same h)

expected-view : (s t : SchedulerState) → view t ≡ view s → (i : ℕ) → expected t i ≡ expected s i
expected-view s t e i =
    ap (λ (v : View). if ltb i v.num_processes && is_ready (v.processes i).state then 1 else 0) e

-- The process on the CPU goes back to the ready ones and to the end of a queue.
pub requeue-Matches :
    (s t : SchedulerState) (m m' : MlfqState) (level p : ℕ)
    → view t ≡ view s
    → ((i : ℕ) → held m' i ≡ held m i)
    → m'.num_queues ≡ m.num_queues
    → level < m.num_queues
    → OnLevels t m.num_queues
    → p < s.num_processes
    → (s.processes p).state ≡ running
    → Matches s m
    → Matches (modify_process t p mark_ready) (enqueue_at m' level p)
requeue-Matches s t m m' level p e same en lv on_level h st ok = record {
  some_level = rw en ok.some_level;
  on_level = λ i lt. rw en (ground (arith, on_level i lt));
  queued = λ i. omega (
    arith,
    held-enqueue_at m' level p i (rw en lv),
    same i,
    ok.queued i,
    expected-view s t e i,
    expected-mark_ready t p i (rw (ap (λ v. v.num_processes) e) h)
        (ap (λ v. is_ready (v.processes p).state) e ∙ ap is_ready st),
  );
}
