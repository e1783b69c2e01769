-- ===== src/Engine/Stages.antt =====
-- The invariant under the single stages of src/core/scheduler.c.
use native.Mathlib.Decide.{ℕ_discrete}
use cpu_scheduler_simulator.Base.{
  ℕ, ◌+◌, ◌≤◌, ◌<◌, ◌≡◌, ◌≢◌, refl, ap, true, none, some, pos, ◌≤ℤ◌, arith, sum_to, sum_to_one, sym,
  ==_refl,
}
use cpu_scheduler_simulator.Process.{not_arrived, running, process_finish}
use cpu_scheduler_simulator.State.{SchedulerState}
use cpu_scheduler_simulator.Engine.{mark_ready, modify_process, finish_running, arrival_due}
use cpu_scheduler_simulator.Engine.View.{View, view, core}
use cpu_scheduler_simulator.Engine.Sound.{Good, Sound, RunningIn, finished_bit}
use cpu_scheduler_simulator.Engine.Moves.{
  finish-Good, rerun-Good, arrive-Good, other_arrive-Good, yield-Good, running-state,
}

-- A change to one process and to what surrounds them all.
pub record Change (v w : View) (k : ℕ) : Type 0 where
  pub num_same : w.num_processes ≡ v.num_processes
  pub in_range : k < v.num_processes
  pub idx_le : w.next_arrival_idx ≤ v.num_processes
  pub running_in : RunningIn v.num_processes w.running_process
  pub others : (i : ℕ) → i ≢ k → w.processes i ≡ v.processes i

pub Change-Sound :
    (v w : View) (c d k : ℕ)
    → Change v w k
    → Sound v c
    → Good w.current_time w.next_arrival_idx w.running_process k (w.processes k)
    → ((i : ℕ)
        → i ≢ k
        → Good v.current_time v.next_arrival_idx v.running_process i (v.processes i)
        → Good w.current_time w.next_arrival_idx w.running_process i (v.processes i))
    → d + finished_bit (v.processes k).state ≡ c + finished_bit (w.processes k).state
    → Sound w d
Change-Sound v w c d k ch s g keep e = record {
  idx_le = rw ch.num_same ch.idx_le;
  running_in = rw ch.num_same ch.running_in;
  each = λ i h. elim (ℕ_discrete i k) [
    | yes p ↦ rw p g
    | no p ↦ rw (ch.others i p) (keep i p (s.each i (rw ch.num_same at h)))
  ];
  counted = omega (
    arith,
    e,
    s.counted,
    ap (λ n. sum_to n (λ i. finished_bit (w.processes i).state)) ch.num_same,
    sum_to_one v.num_processes (λ i. finished_bit (v.processes i).state)
        (λ i. finished_bit (w.processes i).state) k ch.in_range
        (λ i p. ap (λ q. finished_bit q.state) (sym (ch.others i p))),
  );
}

module _ (s : SchedulerState) (c r : ℕ) (run : s.running_process ≡ some r)
    (ok : Sound (view s) c) where
  pub running_in_range : r < s.num_processes
  running_in_range = rw run at ok.running_in

  pub running-Good : Good s.current_time s.next_arrival_idx (some r) r (core (s.processes r))
  running-Good = rw run at (ok.each r running_in_range)

  pub running_is_running : (s.processes r).state ≡ running
  running_is_running =
      running-state s.current_time s.next_arrival_idx r (core (s.processes r)) running-Good

  -- Stages 1 and 4b: the process on the CPU has nothing left.
  pub finish_running-Sound :
      (s.processes r).remaining_time ≡ pos 0 → Sound (view (finish_running s r)) (c + 1)
  unfolding finish_running process_finish
  finish_running-Sound done =
      Change-Sound (view s) (view (finish_running s r)) c (c + 1) r
        (record {
          num_same = refl;
          in_range = running_in_range;
          idx_le = ok.idx_le;
          running_in = tt;
          others = λ i ne. ground arith;
        })
        ok
        (rw (==_refl r) (
          finish-Good s.current_time s.next_arrival_idx r (core (s.processes r)) done
            running_is_running running-Good))
        (λ i ne g.
          rerun-Good s.current_time s.next_arrival_idx s.running_process none i
            (core (s.processes i)) (ground arith) g)
        (ground (arith, running_is_running))

-- Stage 2: the next process arrives. The policy's hook is left out.
pub arrive-Sound :
    (s : SchedulerState) (c : ℕ)
    → arrival_due s ≡ true
    → Sound (view s) c
    → Sound
        (record (view (modify_process s s.next_arrival_idx mark_ready)) {
          next_arrival_idx = s.next_arrival_idx + 1;
        })
        c
arrive-Sound s c due ok =
    Change-Sound (view s) _ c c s.next_arrival_idx
      (record {
        num_same = refl;
        in_range = in_range;
        idx_le = omega (arith, in_range);
        running_in = ok.running_in;
        others = λ i ne. ground arith;
      })
      ok
      (rw (==_refl s.next_arrival_idx) (
        arrive-Good s.current_time s.running_process s.next_arrival_idx
          (core (s.processes s.next_arrival_idx)) fresh due_now (ok.each _ in_range)))
      (λ i ne g.
        other_arrive-Good s.current_time s.next_arrival_idx s.running_process i
          (core (s.processes i)) ne g)
      (ground (arith, fresh))
  where
    in_range : s.next_arrival_idx < s.num_processes
    in_range = ground arith

    due_now : (s.processes s.next_arrival_idx).arrival_time ≤ℤ pos s.current_time
    due_now = ground arith

    fresh : (s.processes s.next_arrival_idx).state ≡ not_arrived
    fresh = ground arith

-- Stage 4, first half: the process on the CPU goes back to the ready ones.
pub yield-Sound :
    (s : SchedulerState) (c r : ℕ)
    → s.running_process ≡ some r
    → Sound (view s) c
    → Sound (record (view (modify_process s r mark_ready)) { running_process = none }) c
yield-Sound s c r run ok =
    Change-Sound (view s) _ c c r
      (record {
        num_same = refl;
        in_range = running_in_range s c r run ok;
        idx_le = ok.idx_le;
        running_in = tt;
        others = λ i ne. ground arith;
      })
      ok
      (rw (==_refl r) (
        yield-Good s.current_time s.next_arrival_idx r (core (s.processes r))
          (running-Good s c r run ok) (running_is_running s c r run ok)))
      (λ i ne g.
        rerun-Good s.current_time s.next_arrival_idx s.running_process none i (core (s.processes i))
          (ground arith) g)
      (ground (arith, running_is_running s c r run ok))
