-- ===== src/Engine/Startup.antt =====
-- `init_scheduler_state` and `handle_arrivals` of src/core/scheduler.c on a sorted array.
use cpu_scheduler_simulator.Base.{
  ℕ, ◌≤◌, ◌<◌, ◌≡◌, lt→ltb, leb_ℤ, Option, ◌↔◌, ◌<ℤ◌, refl, subst, sym, ap, false, ◌&&◌, none, some,
  [], arith, pos, pos_part, neg_part, ℤ, ◌≤ℤ◌,
}
use cpu_scheduler_simulator.Process.{Process, not_arrived, is_not_arrived}
use cpu_scheduler_simulator.State.{SchedulerState, SchedulerPolicy}
use cpu_scheduler_simulator.Engine.{
  compare_arrival_time, init_scheduler_state, handle_arrivals, arrival_due,
}
use cpu_scheduler_simulator.Engine.View.{view, core}
use cpu_scheduler_simulator.Engine.Contract.{PolicyContract}
use cpu_scheduler_simulator.Engine.Quiet.{Stamp, Label, SameLabels}
use cpu_scheduler_simulator.Engine.Sound.{Good}
use cpu_scheduler_simulator.Engine.Unit.{Inv}
use cpu_scheduler_simulator.Engine.Step.{Arrived, handle_arrivals-Arrived}
use cpu_scheduler_simulator.Engine.Total.{Untouched, Fresh}

-- What `qsort` is relied on for: each entry of the sorted array is one of the given array.
abbrev pub Rearranges : ((Process → Process → ℤ) → ℕ → (ℕ → Process) → ℕ → Process) → Type 0
Rearranges qsort =
    (compare : Process → Process → ℤ) (n : ℕ) (procs : ℕ → Process) (i : ℕ)
    → i < n
    → (j : ℕ) × (j < n) × (qsort compare n procs i ≡ procs j)

-- If `qsort` only rearranges the array and the processes are untouched, the initialised state is
-- ready for a run: the clock is at 0, no process has arrived, none runs, and the log is empty.
pub init_scheduler_state-Fresh :
    (qsort : (Process → Process → ℤ) → ℕ → (ℕ → Process) → ℕ → Process) (s : SchedulerState)
    (procs : ℕ → Process) (n : ℕ)
    → Rearranges qsort
    → ((i : ℕ) → i < n → Untouched (procs i))
    → Fresh (init_scheduler_state qsort s procs n)
      × ((init_scheduler_state qsort s procs n).gantt_log ≡ some [])
      × ((init_scheduler_state qsort s procs n).running_process ≡ none)
unfolding init_scheduler_state
init_scheduler_state-Fresh qsort s procs n re untouched = (
  record {
    at_zero = refl;
    none_arrived = refl;
    calm = refl;
    untouched = λ i h.
        let (j, lt, e) = re compare_arrival_time n procs i h in
        subst Untouched (sym e) (untouched j lt);
  },
  refl,
  refl,
)

-- The array is in the order of arrival.
abbrev pub ByArrival : SchedulerState → Type 0
ByArrival s =
    (i j : ℕ)
    → i ≤ j
    → j < s.num_processes
    → (s.processes i).arrival_time ≤ℤ (s.processes j).arrival_time

pub SameLabels-arrival :
    (s t : SchedulerState) (i : ℕ)
    → SameLabels (view s) (view t)
    → (t.processes i).arrival_time ≡ (s.processes i).arrival_time
SameLabels-arrival s t i l = ap (λ (k : Label). k.arrival_time) (l.label_same i)

pub ByArrival-SameLabels :
    (s t : SchedulerState) → SameLabels (view s) (view t) → ByArrival s → ByArrival t
ByArrival-SameLabels s t l sorted i j le lt = omega (
  arith,
  sorted i j le (omega (arith, lt, l.num_same)),
  ap pos_part (SameLabels-arrival s t i l),
  ap neg_part (SameLabels-arrival s t i l),
  ap pos_part (SameLabels-arrival s t j l),
  ap neg_part (SameLabels-arrival s t j l),
)

outside_late :
    (t idx : ℕ) (run : Option ℕ) (i : ℕ) (p : Process)
    → Good t idx run i p
    → p.state ≡ not_arrived
    → idx ≤ i
outside_late t idx run i p g e = ground arith

late_outside :
    (t idx : ℕ) (run : Option ℕ) (i : ℕ) (p : Process)
    → Good t idx run i p
    → pos t <ℤ p.arrival_time
    → p.state ≡ not_arrived
late_outside t idx run i p g h = ground arith

-- The process that is next in the array has not arrived, so it is not due.
next_late :
    (t idx : ℕ) (run : Option ℕ) (p : Process)
    → Good t idx run idx p
    → leb_ℤ p.arrival_time (pos t) && is_not_arrived p.state ≡ false
    → pos t <ℤ p.arrival_time
next_late t idx run p g e = ground arith

not_due :
    (s : SchedulerState)
    → arrival_due s ≡ false
    → s.next_arrival_idx < s.num_processes
    → leb_ℤ (s.processes s.next_arrival_idx).arrival_time (pos s.current_time)
        && is_not_arrived (s.processes s.next_arrival_idx).state
      ≡ false
not_due s e h = rw (lt→ltb s.next_arrival_idx s.num_processes h) at e

module _ {policy : SchedulerPolicy} (K : PolicyContract policy) where
  -- On an array in the order of arrival, and in a state between two time units, `handle_arrivals`
  -- leaves no process behind: a process of the array is outside exactly if it arrives later.
  pub handle_arrivals_complete :
      (s : SchedulerState) (c : ℕ)
      → Inv policy K s c
      → ByArrival s
      → (i : ℕ) → i < s.num_processes
      → ((handle_arrivals s policy).processes i).state ≡ not_arrived
        ↔ pos s.current_time <ℤ (s.processes i).arrival_time
  handle_arrivals_complete s c inv sorted i h = (outside, late)
    where
      t : SchedulerState
      t = handle_arrivals s policy

      ar : Arrived policy K (view s) c t
      ar = handle_arrivals-Arrived K s c inv.sound inv.tracks inv.calm

      good :
          (j : ℕ)
          → j < s.num_processes
          → Good t.current_time t.next_arrival_idx t.running_process j (core (t.processes j))
      good j lt = ar.sound.each j (rw ar.quiet.num_same lt)

      same_arrival : (j : ℕ) → (t.processes j).arrival_time ≡ (s.processes j).arrival_time
      same_arrival j = ap (λ (st : Stamp). st.arrival_time) (ar.quiet.stamp_same j)

      outside :
          (t.processes i).state ≡ not_arrived → pos s.current_time <ℤ (s.processes i).arrival_time
      outside e =
          let le =
            outside_late t.current_time t.next_arrival_idx t.running_process i
              (core (t.processes i)) (good i h) e in
          let lt : t.next_arrival_idx < s.num_processes = omega (arith, le, h) in
          let late =
            next_late t.current_time t.next_arrival_idx t.running_process
              (core (t.processes t.next_arrival_idx)) (good t.next_arrival_idx lt)
              (not_due t ar.none_due (rw ar.quiet.num_same lt)) in
          let later = rw (same_arrival t.next_arrival_idx, ar.quiet.time_same) at late in
          omega (arith, later, sorted t.next_arrival_idx i le h)

      late :
          pos s.current_time <ℤ (s.processes i).arrival_time → (t.processes i).state ≡ not_arrived
      late lt =
          late_outside t.current_time t.next_arrival_idx t.running_process i (core (t.processes i))
            (good i h) (rw (same_arrival i, ar.quiet.time_same) lt)

  -- A process that is still outside after the arrivals is late at that time.
  pub handle_arrivals-late :
      (s : SchedulerState) (c : ℕ)
      → Inv policy K s c
      → ByArrival s
      → (i : ℕ) → i < s.num_processes
      → ((handle_arrivals s policy).processes i).state ≡ not_arrived
      → pos (handle_arrivals s policy).current_time
        <ℤ ((handle_arrivals s policy).processes i).arrival_time
  handle_arrivals-late s c inv sorted i lt e =
      let q = (handle_arrivals-Arrived K s c inv.sound inv.tracks inv.calm).quiet in
      let same = ap (λ (st : Stamp). st.arrival_time) (q.stamp_same i) in
      omega (
        arith,
        q.time_same,
        ap pos_part same,
        ap neg_part same,
        (handle_arrivals_complete s c inv sorted i lt).0 e,
      )
