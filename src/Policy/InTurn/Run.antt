-- ===== src/Policy/InTurn/Run.antt =====
-- A whole run of src/algorithms/fcfs.c is on the schedule.
use cpu_scheduler_simulator.Base.{
  ℕ, ◌+◌, ◌≤◌, ◌<◌, ◌≡◌, ◌⊎◌, refl, sym, ap, subst, Option, none, some, some-inj, arith, ℤ, pos,
  pos_part, ◌<ℤ◌, inl, inr,
}
use cpu_scheduler_simulator.Process.{Process, finished}
use cpu_scheduler_simulator.State.{SchedulerState}
use cpu_scheduler_simulator.Engine.{
  set_running, call_hook, call_finish, handle_completions, handle_arrivals, handle_tick,
  before_execution, finish_unit, step_simulation,
}
use cpu_scheduler_simulator.Engine.View.{view}
use cpu_scheduler_simulator.Engine.Quiet.{work, SameLabels, SameLabels-trans}
use cpu_scheduler_simulator.Engine.Unit.{Inv, ArrivesBy, handle_completions-Completed}
use cpu_scheduler_simulator.Engine.Step.{handle_arrivals-Arrived}
use cpu_scheduler_simulator.Engine.Total.{Fresh, run_simulation-Finished}
use cpu_scheduler_simulator.Engine.Startup.{
  ByArrival, handle_arrivals_complete, SameLabels-arrival, ByArrival-SameLabels,
}
use cpu_scheduler_simulator.Engine.Reach.{
  Reached, Reached-keeps, Underway, begin-Underway, unit-Underway, step_simulation-stages,
  handle_arrivals-keeps, run_simulation-Reached,
}
use cpu_scheduler_simulator.Policy.Fcfs.{fcfs_policy}
use cpu_scheduler_simulator.Policy.Scanning.{fcfs_contract, fcfs_suits}
use cpu_scheduler_simulator.Policy.Registry.{schedule_fcfs}
use cpu_scheduler_simulator.Policy.InTurn.{starts_at, ends_at, Served, Boundary, Between}
use cpu_scheduler_simulator.Policy.InTurn.Stages.{handle_completions-Between, arrive-Between}
use cpu_scheduler_simulator.Policy.InTurn.UnitEnd.{unit_end-Boundary}
use cpu_scheduler_simulator.Policy.InTurn.Dispatch.{AllHere, handle_dispatch-Assigned}

-- The run returns, and each process started and finished when the schedule of the array at the
-- start of the run says.
abbrev pub FollowsPlan : SchedulerState → Option SchedulerState → Type 0
FollowsPlan s r =
    (t : SchedulerState) × (r ≡ some t)
    × ((i : ℕ)
        → i < s.num_processes
        → ((t.processes i).start_time ≡ pos (starts_at s.processes i))
          × ((t.processes i).finish_time ≡ pos (ends_at s.processes i)))

late_part : (t : ℕ) (a : ℤ) → pos t <ℤ a → t < pos_part a
late_part t a h = ground arith

handle_arrivals-AllHere :
    (s t : SchedulerState) (c : ℕ)
    → SameLabels (view s) (view t)
    → ByArrival s
    → Inv fcfs_policy fcfs_contract t c
    → AllHere s.processes s.num_processes (handle_arrivals t fcfs_policy)
handle_arrivals-AllHere s t c l sorted inv i lt e =
    let q = (handle_arrivals-Arrived fcfs_contract t c inv.sound inv.tracks inv.calm).quiet in
    let late =
      (handle_arrivals_complete fcfs_contract t c inv (ByArrival-SameLabels s t l sorted) i
          (rw l.num_same lt)).0
        e in
    omega (
      arith,
      q.time_same,
      ap pos_part (SameLabels-arrival s t i l),
      late_part t.current_time (t.processes i).arrival_time late,
    )

module _ (latest : ℕ) (s : SchedulerState) (f : Fresh s) (sorted : ByArrival s)
    (by : ArrivesBy latest (view s)) where
  -- Between two time units.
  abbrev OnSchedule : SchedulerState → ℕ → Type 0
  OnSchedule t c =
      Underway fcfs_policy fcfs_contract latest s t c × Boundary s.processes s.num_processes t

  step_simulation-Boundary :
      (t : SchedulerState) (c : ℕ)
      → Underway fcfs_policy fcfs_contract latest s t c
      → Boundary s.processes s.num_processes t
      → Boundary s.processes s.num_processes (step_simulation t fcfs_policy c).0
  unfolding finish_unit before_execution handle_tick
  step_simulation-Boundary t c w h =
      let procs = s.processes in
      let n = s.num_processes in
      let done = handle_completions-Completed fcfs_contract t c w.inv in
      let u = (handle_completions t c).0 in
      let v = handle_arrivals u fcfs_policy in
      let (early, between) = handle_completions-Between procs n t c h in
      let arrived =
        handle_arrivals-keeps (Between procs n) fcfs_policy (arrive-Between procs n) u between in
      let here =
        handle_arrivals-AllHere s u (handle_completions t c).1
          (SameLabels-trans (view s) (view t) (view u) w.labels done.labels) sorted done.inv in
      step_simulation-stages (λ x d. Boundary procs n x) fcfs_policy t c early
        (λ more.
          unit_end-Boundary procs n (before_execution u fcfs_policy) (handle_completions t c).1 (
            handle_dispatch-Assigned procs n sorted (λ i lt. (f.untouched i lt).burst_nonneg) v
              arrived here))

  begin-Boundary :
      Boundary s.processes s.num_processes (call_hook fcfs_policy.on_init (set_running s none))
  unfolding call_hook
  begin-Boundary = inl (
    0,
    record {
      split = record {
        num = refl;
        calm = f.calm;
        served = λ i lt. absurd (omega (arith, lt));
        waits = λ i le lt.
            let u = f.untouched i lt in
            record {
              outside = inl u.waits;
              no_start = u.no_start;
              all_left = u.all_left;
              arrival = refl;
            };
      };
      le = omega arith;
      free = omega arith;
      on_time = λ lt. omega (arith, f.at_zero);
      nobody = refl;
    },
  )

  Reached-OnSchedule : (t : SchedulerState) (c : ℕ) → Reached fcfs_policy s t c → OnSchedule t c
  Reached-OnSchedule t c r =
      Reached-keeps OnSchedule
        (begin-Underway fcfs_contract latest s f (fcfs_suits _) by, begin-Boundary)
        (λ u d lt h. (
          unit-Underway fcfs_contract latest s f (fcfs_suits _) by u d lt h.0,
          step_simulation-Boundary u d h.0 h.1,
        ))
        r

-- On the schedule, a state in which all processes have finished has served all of them.
all-Served :
    (procs : ℕ → Process) (n : ℕ) (t : SchedulerState) (i : ℕ)
    → Boundary procs n t
    → ((j : ℕ) → j < n → (t.processes j).state ≡ finished)
    → i < n
    → Served procs i (t.processes i)
all-Served procs n t i (inl (k, h)) over lt = elim (i_below_or_next i k n h.le lt) [
  | inl low ↦ h.split.served i low
  | inr more ↦ elim (h.split.waits k (omega arith) more).outside [
    | inl out ↦ absurd (cc (out, over k more))
    | inr (rd, due) ↦ absurd (cc (rd, over k more))
  ]
]
  where
    i_below_or_next : (i k n : ℕ) → k ≤ n → i < n → (i < k) ⊎ (k < n)
    i_below_or_next i k n le lt = omega arith
all-Served procs n t i (inr (r, h, before)) over lt = absurd (cc (h.runs, over r h.lt))

-- First come, first served, from a fresh state on an array in the order of arrival, and with more
-- fuel than the work and the last arrival: the run returns, and each process started when it was
-- there and every process before it in the array had had its burst, and at least one time unit, and
-- finished its burst later without an interruption.
pub schedule_fcfs-FollowsPlan :
    (fuel latest : ℕ) (s : SchedulerState)
    → Fresh s
    → ByArrival s
    → ArrivesBy latest (view s)
    → work (view s) + latest < fuel
    → FollowsPlan s (schedule_fcfs fuel s)
unfolding schedule_fcfs call_hook call_finish
schedule_fcfs-FollowsPlan fuel latest s f sorted by lt =
    let (t, e, fin) = run_simulation-Finished fcfs_contract fuel latest s f (fcfs_suits _) by lt in
    let (u, d, r, all, ends) = run_simulation-Reached fcfs_policy fuel s t e in
    let same : t ≡ u = sym (some-inj u t ends) in
    let h = (Reached-OnSchedule latest s f sorted by u d r).1 in
    (
      t,
      e,
      λ i low.
          let sv =
            all-Served s.processes s.num_processes t i
              (subst (Boundary s.processes s.num_processes) (sym same) h)
              (λ j j_lt. fin.all_finished j (rw fin.labels.num_same j_lt)) low in
          (sv.start, sv.finish),
    )
