-- ===== src/Engine/View.antt =====
-- The part of the simulation's state that the policies only read: all but `policy_state`, the
-- preemption flag and the two fields of a process that belong to the policy.
use cpu_scheduler_simulator.Base.{
  ℕ, ◌≡◌, refl, Option, List, fun_ext, ap, Bool, ◌==◌, if◌then◌else◌, true, false, ℤ,
}
use cpu_scheduler_simulator.Process.{Process}
use cpu_scheduler_simulator.State.{SchedulerState}
use cpu_scheduler_simulator.Engine.{modify_process}

abbrev pub core : Process → Process
core p = record p { priority = 0; allotment_used = 0 }

pub record View : Type 0 where
  pub processes : ℕ → Process
  pub num_processes : ℕ
  pub quantum : ℤ
  pub current_time : ℕ
  pub next_arrival_idx : ℕ
  pub running_process : Option ℕ
  pub context_switches : ℕ
  pub gantt_log : Option (List ℕ)

abbrev pub view : SchedulerState → View
view s = record {
  processes = λ i. core (s.processes i);
  num_processes = s.num_processes;
  quantum = s.quantum;
  current_time = s.current_time;
  next_arrival_idx = s.next_arrival_idx;
  running_process = s.running_process;
  context_switches = s.context_switches;
  gantt_log = s.gantt_log;
}

core-if : (b : Bool) (p q : Process) → core p ≡ core q → core (if b then p else q) ≡ core q
core-if true p q h = h
core-if false p q h = refl

-- A write to the policy's own fields of a process does not show.
pub view-modify_process :
    (s : SchedulerState) (i : ℕ) (f : Process → Process)
    → ((p : Process) → core (f p) ≡ core p)
    → view (modify_process s i f) ≡ view s
view-modify_process s i f h =
    ap (λ (g : ℕ → Process). record (view s) { processes = g })
      (fun_ext (λ j. core-if (j == i) (f (s.processes j)) (s.processes j) (h (s.processes j))))
