-- ===== src/Engine/Dispatch.antt =====
-- Stage 4 of `step_simulation` in src/core/scheduler.c: the start of a process on an idle CPU, and
-- what a dispatch is to leave.
use cpu_scheduler_simulator.Base.{
  ℕ, ◌<◌, ◌≡◌, ◌≢◌, refl, ap, true, false, none, some, ==_refl, arith, neg_part,
}
use cpu_scheduler_simulator.Process.{Process, ready, running, is_ready, process_start}
use cpu_scheduler_simulator.State.{SchedulerState, SchedulerPolicy}
use cpu_scheduler_simulator.Engine.{start_next, resume}
use cpu_scheduler_simulator.Engine.View.{View, view, core}
use cpu_scheduler_simulator.Engine.Contract.{PolicyContract, mark_running}
use cpu_scheduler_simulator.Engine.Sound.{Sound}
use cpu_scheduler_simulator.Engine.Moves.{rerun-Good, start-Good, process_start-again}
use cpu_scheduler_simulator.Engine.Quiet.{stamp, Quiet}
use mathlib.Core.Path.{ap₂}
use native.Mathlib.Decide.{ℕ_discrete}
use cpu_scheduler_simulator.Engine.Stages.{Change-Sound}

pub core-process_start : (t : ℕ) (p : Process) → core (process_start t p) ≡ process_start t (core p)
unfolding process_start
core-process_start t p = ground arith

is_ready-ready : (p : Process) → is_ready p.state ≡ true → p.state ≡ ready
is_ready-ready p h = ground arith

-- `w` is `v`, whose CPU is idle, with the process at `k` started.
pub record Starts (v w : View) (k : ℕ) : Type 0 where
  pub num_same : w.num_processes ≡ v.num_processes
  pub time_same : w.current_time ≡ v.current_time
  pub idx_same : w.next_arrival_idx ≡ v.next_arrival_idx
  pub was_idle : v.running_process ≡ none
  pub now_runs : w.running_process ≡ some k
  pub in_range : k < v.num_processes
  pub was_ready : is_ready (v.processes k).state ≡ true
  pub started : w.processes k ≡ process_start v.current_time (v.processes k)
  pub others : (i : ℕ) → i ≢ k → w.processes i ≡ v.processes i

process_start-state : (t : ℕ) (p : Process) → (process_start t p).state ≡ running
unfolding process_start
process_start-state t p = ground arith

pub Starts-Sound : (v w : View) (c k : ℕ) → Starts v w k → Sound v c → Sound w c
Starts-Sound v w c k st ok =
    Change-Sound v w c c k
      (record {
        num_same = st.num_same;
        in_range = st.in_range;
        idx_le = rw st.idx_same ok.idx_le;
        running_in = rw st.now_runs st.in_range;
        others = st.others;
      })
      ok
      (rw (st.time_same, st.idx_same, st.now_runs, st.started)
        (start-Good v.current_time v.next_arrival_idx k (v.processes k)
          (is_ready-ready (v.processes k) st.was_ready)
          (rw st.was_idle at (ok.each k st.in_range))))
      (λ i ne g.
        rw (st.time_same, st.idx_same)
          (rerun-Good v.current_time v.next_arrival_idx v.running_process w.running_process i
            (v.processes i) (rw (st.was_idle, st.now_runs) (ground arith)) g))
      (rw
        (
          st.started,
          process_start-state v.current_time (v.processes k),
          is_ready-ready (v.processes k) st.was_ready,
        )
        refl)

-- The start of `k` in a state that agrees with the view `base`, whose CPU is idle.
pub start_next-Starts :
    (base : View) (t : SchedulerState) (k : ℕ)
    → t.num_processes ≡ base.num_processes
    → t.current_time ≡ base.current_time
    → t.next_arrival_idx ≡ base.next_arrival_idx
    → ((i : ℕ) → core (t.processes i) ≡ base.processes i)
    → base.running_process ≡ none
    → k < base.num_processes
    → is_ready (base.processes k).state ≡ true
    → Starts base (view (start_next t (some k))) k
unfolding start_next
start_next-Starts base t k en et ei ep idle h rd = record {
  num_same = en;
  time_same = et;
  idx_same = ei;
  was_idle = idle;
  now_runs = refl;
  in_range = h;
  was_ready = rd;
  started =
      rw (==_refl k, core-process_start t.current_time (t.processes k))
        (ap₂ process_start et (ep k));
  others = λ i ne. ground (arith, ep i);
}

pub resume-Starts :
    (base : View) (t : SchedulerState) (r : ℕ)
    → t.num_processes ≡ base.num_processes
    → t.current_time ≡ base.current_time
    → t.next_arrival_idx ≡ base.next_arrival_idx
    → ((i : ℕ) → core (t.processes i) ≡ base.processes i)
    → base.running_process ≡ none
    → t.running_process ≡ some r
    → r < base.num_processes
    → is_ready (base.processes r).state ≡ true
    → neg_part (base.processes r).start_time ≡ 0
    → Starts base (view (resume t (some r))) r
unfolding resume
resume-Starts base t k en et ei ep idle run h rd st = record {
  num_same = en;
  time_same = et;
  idx_same = ei;
  was_idle = idle;
  now_runs = run;
  in_range = h;
  was_ready = rd;
  started =
      rw (==_refl k, process_start-again base.current_time (base.processes k) st)
        (ap mark_running (ep k));
  others = λ i ne. ground (arith, ep i);
}

stamp-start : (t : ℕ) (p : Process) → is_ready p.state ≡ true → stamp (process_start t p) ≡ stamp p
unfolding process_start
stamp-start t p h = ground arith

pub Starts-Quiet : (v w : View) (k : ℕ) → Starts v w k → Quiet v w
Starts-Quiet v w k st = record {
  num_same = st.num_same;
  time_same = st.time_same;
  stamp_same = λ i. elim (ℕ_discrete i k) [
    | yes p ↦ rw (p, st.started) (stamp-start v.current_time (v.processes k) st.was_ready)
    | no p ↦ ap stamp (st.others i p)
  ];
}

-- What a dispatch leaves: the invariant, a policy that tracks the ready processes, no request left
-- to preempt, and an idle CPU only if no process is ready.
pub record Dispatched (policy : SchedulerPolicy) (K : PolicyContract policy) (v : View) (c : ℕ)
    (t : SchedulerState) : Type 0 where
  pub sound : Sound (view t) c
  pub tracks : K.Tracks t
  pub calm : t.preempt_requested ≡ false
  pub busy :
      t.running_process ≡ none
      → (i : ℕ) → i < t.num_processes
      → is_ready (t.processes i).state ≡ false
  pub quiet : Quiet v (view t)
  pub idx_same : t.next_arrival_idx ≡ v.next_arrival_idx
