-- ===== src/Policy/ShortestFirst/Run.antt =====
-- A whole run of src/algorithms/sjf.c.
use cpu_scheduler_simulator.Base.{
  ℕ, ◌+◌, ◌<◌, ◌≡◌, refl, sym, ap, ◌∙◌, subst, Option, none, some, some-inj, arith, pos, pos_part,
  neg_part, ◌≤ℤ◌, ◌<ℤ◌, inl, inr, none≢some,
}
use cpu_scheduler_simulator.Process.{Process, finished}
use cpu_scheduler_simulator.State.{SchedulerState}
use cpu_scheduler_simulator.Engine.{
  set_running, call_hook, call_finish, handle_completions, handle_arrivals, handle_tick,
  before_execution, finish_unit, step_simulation,
}
use cpu_scheduler_simulator.Engine.View.{view}
use cpu_scheduler_simulator.Engine.Quiet.{work, Label, SameLabels-trans}
use cpu_scheduler_simulator.Engine.Unit.{ArrivesBy, handle_completions-Completed}
use cpu_scheduler_simulator.Engine.Total.{Fresh, run_simulation-Finished}
use cpu_scheduler_simulator.Engine.Startup.{
  ByArrival, ByArrival-SameLabels, SameLabels-arrival, handle_arrivals-late,
}
use cpu_scheduler_simulator.Engine.Reach.{
  Reached, Reached-keeps, Underway, begin-Underway, unit-Underway, step_simulation-stages,
  handle_arrivals-keeps, run_simulation-Reached,
}
use cpu_scheduler_simulator.Policy.Sjf.{sjf_policy}
use cpu_scheduler_simulator.Policy.Scanning.{sjf_contract, sjf_suits}
use cpu_scheduler_simulator.Policy.Registry.{schedule_sjf}
use cpu_scheduler_simulator.Policy.ShortestFirst.{Over, Straight, Line}
use cpu_scheduler_simulator.Policy.ShortestFirst.Stages.{handle_completions-Line, arrive-Line}
use cpu_scheduler_simulator.Policy.ShortestFirst.UnitEnd.{unit_end-Line}
use cpu_scheduler_simulator.Policy.ShortestFirst.Dispatch.{handle_dispatch-Line}

-- The run returns; each process has its burst in one piece; and of two processes the one that
-- starts first has a burst no longer than the other, if the other had arrived by then.
abbrev pub RunsShortestFirst : SchedulerState → Option SchedulerState → Type 0
RunsShortestFirst s r =
    (t : SchedulerState) × (r ≡ some t)
    × ((i : ℕ)
        → i < s.num_processes
        → (neg_part (t.processes i).start_time ≡ 0)
          × ((t.processes i).finish_time
              ≡ pos (pos_part (t.processes i).start_time + pos_part (s.processes i).burst_time)))
    × ((i j : ℕ)
        → i < s.num_processes
        → j < s.num_processes
        → (s.processes j).arrival_time ≤ℤ (t.processes i).start_time
        → (t.processes i).start_time <ℤ (t.processes j).start_time
        → (s.processes i).burst_time ≤ℤ (s.processes j).burst_time)

module _ (latest : ℕ) (s : SchedulerState) (f : Fresh s) (sorted : ByArrival s)
    (by : ArrivesBy latest (view s)) where
  -- Between two time units.
  abbrev InLine : SchedulerState → ℕ → Type 0
  InLine t c = Underway sjf_policy sjf_contract latest s t c × Line s.num_processes t

  step_simulation-Line :
      (t : SchedulerState) (c : ℕ)
      → InLine t c
      → Line s.num_processes (step_simulation t sjf_policy c).0
  unfolding finish_unit before_execution handle_tick
  step_simulation-Line t c (w, h) =
      let n = s.num_processes in
      let done = handle_completions-Completed sjf_contract t c w.inv in
      let u = (handle_completions t c).0 in
      let d = (handle_completions t c).1 in
      let early = handle_completions-Line n t c h in
      let l = SameLabels-trans (view s) (view t) (view u) w.labels done.labels in
      let arrived = handle_arrivals-keeps (Line n) sjf_policy (arrive-Line n) u early in
      step_simulation-stages (λ x e. Line n x) sjf_policy t c early
        (λ more. unit_end-Line n (before_execution u sjf_policy) d (
          handle_dispatch-Line n (handle_arrivals u sjf_policy) arrived (λ i lt out.
            handle_arrivals-late sjf_contract u d done.inv (ByArrival-SameLabels s u l sorted) i
              (omega (arith, lt, l.num_same)) out)))

  begin-Line : Line s.num_processes (call_hook sjf_policy.on_init (set_running s none))
  unfolding call_hook
  begin-Line = record {
    num = refl;
    calm = f.calm;
    each = λ i lt.
        let u = f.untouched i lt in
        inl (record {
          outside = inl u.waits;
          no_start = u.no_start;
          all_left = u.all_left;
          burst_nonneg = u.burst_nonneg;
        });
    ordered = λ i j i_lt j_lt started.
        absurd (omega (arith, started, ap neg_part (f.untouched i i_lt).no_start));
    in_range = λ r e. absurd (none≢some r e);
  }

  Reached-Line : (t : SchedulerState) (c : ℕ) → Reached sjf_policy s t c → InLine t c
  Reached-Line t c r =
      Reached-keeps InLine (begin-Underway sjf_contract latest s f (sjf_suits _) by, begin-Line)
        (λ u d lt h. (
          unit-Underway sjf_contract latest s f (sjf_suits _) by u d lt h.0,
          step_simulation-Line u d h,
        ))
        r

finished-Over :
    (t : ℕ) (run : Option ℕ) (i : ℕ) (p : Process)
    → Straight t run i p
    → p.state ≡ finished
    → Over t p
finished-Over t run i p (inl w) e = elim w.outside [ inl o ↦ cc (o, e) | inr o ↦ cc (o, e) ]
finished-Over t run i p (inr (inl o)) e = cc (o.runs, e)
finished-Over t run i p (inr (inr o)) e = o

-- Shortest job first, from a fresh state on an array in the order of arrival, and with more fuel
-- than the work and the last arrival: the run returns; each process started and finished its burst
-- later, without an interruption; and whenever one process started before another that had already
-- arrived, its burst is no longer than the other's.
pub schedule_sjf-RunsShortestFirst :
    (fuel latest : ℕ) (s : SchedulerState)
    → Fresh s
    → ByArrival s
    → ArrivesBy latest (view s)
    → work (view s) + latest < fuel
    → RunsShortestFirst s (schedule_sjf fuel s)
unfolding schedule_sjf call_hook call_finish
schedule_sjf-RunsShortestFirst fuel latest s f sorted by lt =
    let (t, e, fin) = run_simulation-Finished sjf_contract fuel latest s f (sjf_suits _) by lt in
    let (u, d, r, all, ends) = run_simulation-Reached sjf_policy fuel s t e in
    let same : t ≡ u = sym (some-inj u t ends) in
    let h = subst (Line s.num_processes) (sym same) (Reached-Line latest s f sorted by u d r).1 in
    let burst = λ (i : ℕ). ap (λ (k : Label). k.burst_time) (fin.labels.label_same i) in
    let over = λ (i : ℕ) (low : i < s.num_processes).
      finished-Over t.current_time t.running_process i (t.processes i) (h.each i low)
        (fin.all_finished i (omega (arith, low, fin.labels.num_same))) in
    (
      t,
      e,
      (λ i low. (
        (over i low).started,
        (over i low).finish
            ∙ ap (λ b. pos (pos_part (t.processes i).start_time + pos_part b)) (burst i),
      )),
      λ i j i_lt j_lt due before.
          let arr = SameLabels-arrival s t j fin.labels in
          omega (
            arith,
            h.ordered i j i_lt j_lt (over i i_lt).started
                (omega (arith, due, ap pos_part arr, ap neg_part arr)) (inr before),
            ap pos_part (burst i),
            ap neg_part (burst i),
            ap pos_part (burst j),
            ap neg_part (burst j),
          ),
    )
