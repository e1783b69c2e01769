-- ===== src/Policy/Placement.antt =====
-- The queues of src/algorithms/mlfq.c and the priorities: what puts a process into the queue of its
-- priority.
use cpu_scheduler_simulator.Base.{
  ℕ, ◌<◌, ◌≡◌, sym, ◌∙◌, subst, Bool, true, false, Option, none, some, [], ◌∷◌, arith, ◌==◌,
  ==_refl, ==_false, if◌then◌else◌, count, count-append,
}
use native.Mathlib.Decide.{ℕ_discrete}
use cpu_scheduler_simulator.Process.{Process}
use cpu_scheduler_simulator.State.{SchedulerState, MlfqState}
use cpu_scheduler_simulator.Engine.{modify_process}
use cpu_scheduler_simulator.Policy.Mlfq.{enqueue, enqueue_at}
use cpu_scheduler_simulator.Policy.Rules.{Highest}

-- Every process in a queue has the priority of that queue's level.
abbrev pub OwnLevel : SchedulerState → MlfqState → Type 0
OwnLevel s m =
    (l i : ℕ) → l < m.num_queues → 0 < count i (m.queues l).nodes → (s.processes i).priority ≡ l

-- The process stands in no queue.
abbrev pub Absent : MlfqState → ℕ → Type 0
Absent m p = (l : ℕ) → l < m.num_queues → count p (m.queues l).nodes ≡ 0

-- A process that stands in no queue goes to the end of the queue of its new priority.
pub place-OwnLevel :
    (s : SchedulerState) (m : MlfqState) (p level : ℕ) (f : Process → Process)
    → (f (s.processes p)).priority ≡ level
    → Absent m p
    → OwnLevel s m
    → OwnLevel (modify_process s p f) (enqueue_at m level p)
unfolding enqueue
place-OwnLevel s m p level f e absent own l i lt h = elim (ℕ_discrete i p) [
  | yes same ↦ elim (ℕ_discrete l level) [
    | yes at ↦ rw (same, ==_refl p) (e ∙ sym at)
    | no other ↦ absurd (omega (arith, rw (same, ==_false l level other) at h, absent l lt))
  ]
  | no ne ↦
      rw (==_false i p ne) (own l i lt (stood (==_false p i (λ q. ne (sym q))) (l == level) h))
]
  where
    stood :
        (p == i) ≡ false
        → (b : Bool) → 0 < count i (if b then enqueue (m.queues l) p else m.queues l).nodes
        → 0 < count i (m.queues l).nodes
    stood other true k = ground (arith, other, k, count-append i (m.queues l).nodes (p ∷ []))
    stood other false k = k

-- What follows from a choice: the process that is taken is of the level it is taken from, and the
-- others stay where they are.
pub Highest-OwnLevel :
    (s : SchedulerState) (m : MlfqState) (n : ℕ) (r : Option ℕ × MlfqState)
    → n ≡ m.num_queues
    → Highest 0 n m r
    → r.1.num_queues ≡ m.num_queues
    → OwnLevel s m
    → OwnLevel s r.1
Highest-OwnLevel s m n (none, m') en (empty, same) e own l i below h =
    subst (OwnLevel s) (sym same) own l i below h
Highest-OwnLevel s m n (some k, m') en (level, _, lt, empty, head, others, quantum) e own l i below
      h =
    elim (ℕ_discrete l level) [
      | yes at ↦ own l i (omega (arith, below, e)) (rw (at, head) (ground (arith, rw at at h)))
      | no other ↦ own l i (omega (arith, below, e)) (rw (others l other) at h)
    ]
