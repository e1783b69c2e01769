-- ===== src/Policy/Selection.antt =====
-- Which process FCFS, SJF and STCF take: src/algorithms/fcfs.c, sjf.c and stcf.c.
use cpu_scheduler_simulator.Base.{
  ℕ, zero, suc, ◌<◌, ◌≡◌, Bool, true, false, Option, none, some, arith, Bool-cases, inl, inr, ◌⊎◌,
  ℤ, ◌≤ℤ◌, ◌<ℤ◌,
}
use cpu_scheduler_simulator.Process.{Process, is_ready}
use cpu_scheduler_simulator.State.{SchedulerState}
use cpu_scheduler_simulator.Policy.Scan.{choose, scan}
use cpu_scheduler_simulator.Policy.Choice.{Chosen, scan-Chosen}
use cpu_scheduler_simulator.Policy.Fcfs.{fcfs_before, fcfs_next_process}
use cpu_scheduler_simulator.Policy.Sjf.{sjf_before, sjf_next_process}
use cpu_scheduler_simulator.Policy.Stcf.{stcf_before, stcf_next_process}
use cpu_scheduler_simulator.Policy.Orders.{
  text_before, sjf_before_irrefl, sjf_before_trans, stcf_before_irrefl, stcf_before_trans,
}

-- A choice of a process: none if none is ready, otherwise a ready one that is `Best` against every
-- ready process.
abbrev pub Selects : (ℕ → Process → ℕ → Process → Type 0) → SchedulerState → Option ℕ → Type 0
Selects Best s none = (i : ℕ) → i < s.num_processes → is_ready (s.processes i).state ≡ false
Selects Best s (some k) =
    (k < s.num_processes)
    × (is_ready (s.processes k).state ≡ true)
    × ((i : ℕ)
        → i < s.num_processes
        → is_ready (s.processes i).state ≡ true
        → Best k (s.processes k) i (s.processes i))

-- `p` arrived no later than `q`, and earlier if `q` stands before it in the array.
abbrev pub Earliest : ℕ → Process → ℕ → Process → Type 0
Earliest k p i q = (p.arrival_time ≤ℤ q.arrival_time) × (i < k → p.arrival_time <ℤ q.arrival_time)

-- `p` has no more of the measured time than `q`; if they have the same, it arrived no later; if
-- also the arrivals are the same, `q`'s name does not stand before `p`'s.
abbrev pub Shortest : (Process → ℤ) → ℕ → Process → ℕ → Process → Type 0
Shortest time k p i q =
    (time p ≤ℤ time q)
    × (time p ≡ time q → p.arrival_time ≤ℤ q.arrival_time)
    × (time p ≡ time q → p.arrival_time ≡ q.arrival_time → text_before q.pid p.pid ≡ false)

Chosen-Selects :
    (before : Process → Process → Bool) (Best : ℕ → Process → ℕ → Process → Type 0)
    (s : SchedulerState) (o : Option ℕ)
    → ((k i : ℕ) (p q : Process) → before q p ≡ false → Best k p i q)
    → Chosen before s.processes s.num_processes o
    → Selects Best s o
Chosen-Selects before Best s none h c = c
Chosen-Selects before Best s (some k) h (a, b, c) =
    (a, b, λ i lt rd. h k i (s.processes k) (s.processes i) (c i lt rd))

-- SJF takes no process only if none is ready; otherwise a ready one with the shortest burst among
-- the ready ones, of those the first to arrive, of those one whose name no other stands before.
pub sjf_next_process-Selects :
    (s : SchedulerState) → Selects (Shortest (λ p. p.burst_time)) s (sjf_next_process s).0
unfolding sjf_next_process
sjf_next_process-Selects s =
    Chosen-Selects sjf_before (Shortest (λ p. p.burst_time)) s _ (λ k i p q h. ground arith)
      (scan-Chosen sjf_before sjf_before_irrefl sjf_before_trans s.processes s.num_processes)

-- STCF takes no process only if none is ready; otherwise a ready one with the shortest remaining
-- time among the ready ones, of those the first to arrive, of those one whose name no other stands
-- before.
pub stcf_next_process-Selects :
    (s : SchedulerState) → Selects (Shortest (λ p. p.remaining_time)) s (stcf_next_process s).0
unfolding stcf_next_process
stcf_next_process-Selects s =
    Chosen-Selects stcf_before (Shortest (λ p. p.remaining_time)) s _ (λ k i p q h. ground arith)
      (scan-Chosen stcf_before stcf_before_irrefl stcf_before_trans s.processes s.num_processes)

-- Among the first `n` processes.
abbrev First : (ℕ → Process) → ℕ → Option ℕ → Type 0
First procs n none = (i : ℕ) → i < n → is_ready (procs i).state ≡ false
First procs n (some k) =
    (k < n)
    × (is_ready (procs k).state ≡ true)
    × ((i : ℕ) → i < n → is_ready (procs i).state ≡ true → Earliest k (procs k) i (procs i))

below_or_last : (i n : ℕ) → i < suc n → (i < n) ⊎ (i ≡ n)
below_or_last i n h = omega arith

module _ (procs : ℕ → Process) (n : ℕ) where
  last_only :
      ((i : ℕ) → i < n → is_ready (procs i).state ≡ false)
      → is_ready (procs n).state ≡ true
      → First procs (suc n) (some n)
  last_only h rd = (
    omega arith,
    rd,
    λ i lt ri. elim (below_or_last i n lt) [
      | inl low ↦ cc (h i low)
      | inr e ↦ rw e (omega arith, λ l. absurd (omega arith))
    ],
  )

  last_wins :
      (k : ℕ)
      → First procs n (some k)
      → is_ready (procs n).state ≡ true
      → fcfs_before (procs n) (procs k) ≡ true
      → First procs (suc n) (some n)
  last_wins k (a, b, c) rd before = (
    omega arith,
    rd,
    λ i lt ri. elim (below_or_last i n lt) [
      | inl low ↦ ground (arith, (c i low ri).0)
      | inr e ↦ rw e (omega arith, λ l. absurd (omega arith))
    ],
  )

  last_loses :
      (k : ℕ)
      → First procs n (some k)
      → (is_ready (procs n).state ≡ true → fcfs_before (procs n) (procs k) ≡ false)
      → First procs (suc n) (some k)
  last_loses k (a, b, c) not_before = (
    omega arith,
    b,
    λ i lt ri. elim (below_or_last i n lt) [
      | inl low ↦ c i low ri
      | inr e ↦ rw e (ground (arith, not_before (rw e at ri), a), λ l. absurd (omega (arith, l, a)))
    ],
  )

  choose-First :
      (o : Option ℕ) → First procs n o → First procs (suc n) (choose fcfs_before procs n o)
  choose-First none h = elim (Bool-cases (is_ready (procs n).state)) [
    | inl rd ↦ rw rd (last_only h rd)
    | inr not_rd ↦
        rw not_rd (λ i lt. elim (below_or_last i n lt) [ inl low ↦ h i low | inr e ↦ rw e not_rd ])
  ]
  choose-First (some k) h = elim (Bool-cases (is_ready (procs n).state)) [
    | inl rd ↦ elim (Bool-cases (fcfs_before (procs n) (procs k))) [
      | inl b ↦ rw (rd, b) (last_wins k h rd b)
      | inr b ↦ rw (rd, b) (last_loses k h (λ r. b))
    ]
    | inr not_rd ↦ rw not_rd (last_loses k h (λ r. cc (r, not_rd)))
  ]

scan-First : (procs : ℕ → Process) (n : ℕ) → First procs n (scan fcfs_before procs n)
unfolding scan
scan-First procs zero = λ i h. absurd (omega arith)
scan-First procs (suc n) = choose-First procs n (scan fcfs_before procs n) (scan-First procs n)

First-Selects :
    (s : SchedulerState) (o : Option ℕ) → First s.processes s.num_processes o → Selects Earliest s o
First-Selects s none h = h
First-Selects s (some k) h = h

-- FCFS takes no process only if none is ready; otherwise the ready one that arrived first, and of
-- those that arrived at the same time the one that stands first in the array.
pub fcfs_next_process-Selects : (s : SchedulerState) → Selects Earliest s (fcfs_next_process s).0
unfolding fcfs_next_process
fcfs_next_process-Selects s = First-Selects s _ (scan-First s.processes s.num_processes)
