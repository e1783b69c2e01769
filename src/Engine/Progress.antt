-- ===== src/Engine/Progress.antt =====
-- Completion and execution in src/core/scheduler.c: the invariant and the work left at the end of a
-- time unit.
use cpu_scheduler_simulator.Base.{
  ℕ, ◌+◌, ◌≡◌, ◌≢◌, refl, sym, ap, some, ==_refl, arith, neg_part, pos, -ℤ_parts, sum_to_one,
}
use cpu_scheduler_simulator.Process.{Process, running, process_finish, process_tick}
use cpu_scheduler_simulator.State.{SchedulerState}
use cpu_scheduler_simulator.Engine.{modify_process, finish_running, execute, advance_clock}
use mathlib.Core.Option
use cpu_scheduler_simulator.Gantt.{append_entry, append_gantt_entry_lem}
use cpu_scheduler_simulator.Engine.View.{View, view, core}
use cpu_scheduler_simulator.Engine.Sound.{Sound, finished_bit}
use cpu_scheduler_simulator.Engine.Moves.{tick-Good, later-Good}
use cpu_scheduler_simulator.Engine.Quiet.{stamp, weight, work, SameLabels}
use cpu_scheduler_simulator.Engine.Stages.{
  Change-Sound, running_in_range, running-Good, running_is_running,
}

core-process_tick : (p : Process) → core (process_tick p) ≡ process_tick (core p)
unfolding process_tick
core-process_tick p = ground arith

process_tick-state : (p : Process) → (process_tick p).state ≡ p.state
unfolding process_tick
process_tick-state p = ground arith

tick-weight :
    (p : Process)
    → p.state ≡ running
    → neg_part p.remaining_time ≡ 0
    → p.remaining_time ≢ pos 0
    → weight (stamp (process_tick p)) + 1 ≡ weight (stamp p)
unfolding process_tick
tick-weight p st nn ne = ground (arith, -ℤ_parts p.remaining_time (pos 1))

module _ (s : SchedulerState) (c r : ℕ) (run : s.running_process ≡ some r)
    (ok : Sound (view s) c) where
  pub finish_running-work :
      (s.processes r).remaining_time ≡ pos 0 → work (view (finish_running s r)) + 1 ≡ work (view s)
  unfolding finish_running process_finish
  finish_running-work done = omega (
    arith,
    sum_to_one s.num_processes (λ i. weight (stamp ((view s).processes i)))
        (λ i. weight (stamp ((view (finish_running s r)).processes i))) r
        (running_in_range s c r run ok) (λ i ne. ground arith),
    before,
    after,
  )
    where
      before : weight (stamp ((view s).processes r)) ≡ 1
      before = ground (arith, running_is_running s c r run ok)

      after : weight (stamp ((view (finish_running s r)).processes r)) ≡ 0
      after = rw (==_refl r) (ground arith)

  pub finish_running-SameLabels : SameLabels (view s) (view (finish_running s r))
  unfolding finish_running process_finish
  finish_running-SameLabels = record { num_same = refl; label_same = λ i. ground arith }

  -- The view after a time unit of work on `r`.
  abbrev pub ticked : View
  ticked = record (view (modify_process s r process_tick)) {
    current_time = s.current_time + 1;
    gantt_log = Option.map (λ log. append_entry log (s.processes r).pid) s.gantt_log;
  }

  pub ticked-view : view (advance_clock (execute s (some r))) ≡ ticked
  unfolding advance_clock execute
  ticked-view = rw append_gantt_entry_lem refl

  module _ (left : (s.processes r).remaining_time ≢ pos 0) where
    pub ticked-Sound : Sound ticked c
    unfolding process_tick
    ticked-Sound =
        Change-Sound (view s) ticked c c r
          (record {
            num_same = refl;
            in_range = running_in_range s c r run ok;
            idx_le = ok.idx_le;
            running_in = ok.running_in;
            others = λ i ne. ground arith;
          })
          ok
          (rw (==_refl r, core-process_tick (s.processes r), run)
            (tick-Good s.current_time s.next_arrival_idx r (core (s.processes r))
              (running_is_running s c r run ok) left (running-Good s c r run ok)))
          (λ i ne g.
            later-Good s.current_time (s.current_time + 1) s.next_arrival_idx s.running_process i
              (core (s.processes i)) (omega arith) g)
          (rw (==_refl r)
            (ap (λ st. c + finished_bit st) (sym (process_tick-state (s.processes r)))))

    pub ticked-work : work ticked + 1 ≡ work (view s)
    unfolding process_tick
    ticked-work = omega (
      arith,
      sum_to_one s.num_processes (λ i. weight (stamp ((view s).processes i)))
          (λ i. weight (stamp (ticked.processes i))) r (running_in_range s c r run ok)
          (λ i ne. ground arith),
      drop,
    )
      where
        drop : weight (stamp (ticked.processes r)) + 1 ≡ weight (stamp ((view s).processes r))
        drop = rw (==_refl r) (
            tick-weight (s.processes r) (running_is_running s c r run ok)
              (running-Good s c r run ok).remaining_nonneg left)

  pub ticked-SameLabels : SameLabels (view s) ticked
  unfolding process_tick
  ticked-SameLabels = record { num_same = refl; label_same = λ i. ground arith }
