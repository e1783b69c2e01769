-- ===== src/Engine/Finish.antt =====
-- Stages 4b to 6 of `step_simulation` in src/core/scheduler.c: the end of a time unit, idle or busy.
use native.Mathlib.Decide.{dec_lt}
use cpu_scheduler_simulator.Base.{
  ℕ, zero, suc, ◌+◌, ◌<◌, ◌≡◌, ◌≢◌, refl, sym, ap, ◌∙◌, subst, false, Option, none, some, List,
  arith, pos, Bool-cases, inl, inr, eqb_ℤ, sum_to,
}
use cpu_scheduler_simulator.Process.{Process, process_tick, not_arrived, is_ready}
use cpu_scheduler_simulator.State.{SchedulerConfig, SchedulerState, SchedulerPolicy}
use cpu_scheduler_simulator.Gantt.{append_gantt_entry, append_gantt_entry_lem, idle_entry}
use cpu_scheduler_simulator.Engine.{arrival_due, finish_running, execute, advance_clock, unit_end}
use cpu_scheduler_simulator.Engine.View.{view, core}
use cpu_scheduler_simulator.Engine.Contract.{PolicyContract, SameReady}
use cpu_scheduler_simulator.Engine.Sound.{Sound, Good, finished_bit}
use cpu_scheduler_simulator.Engine.Moves.{later-Good}
use cpu_scheduler_simulator.Engine.Quiet.{work, weight, stamp, label, SameLabels, SameLabels-trans}
use cpu_scheduler_simulator.Engine.Dispatch.{Dispatched}
use cpu_scheduler_simulator.Engine.Progress.{
  ticked-view, ticked-Sound, ticked-work, ticked-SameLabels,
}
use cpu_scheduler_simulator.Engine.Unit.{Inv, ArrivesBy, Advanced, finish_running-Completed}

sum_to-ones : (n : ℕ) (f : ℕ → ℕ) → ((i : ℕ) → i < n → f i ≡ 1) → sum_to n f ≡ n
sum_to-ones zero f h = refl
sum_to-ones (suc n) f h =
    omega (arith, h n (omega arith), sum_to-ones n f (λ i p. h i (omega arith)))

arrived-finished :
    (t idx i : ℕ) (p : Process)
    → Good t idx none i p
    → is_ready p.state ≡ false
    → i < idx
    → finished_bit p.state ≡ 1
arrived-finished t idx i p g rd h = ground arith

head-not_arrived :
    (t idx : ℕ) (run : Option ℕ) (p : Process) → Good t idx run idx p → p.state ≡ not_arrived
head-not_arrived t idx run p g = ground arith

head_late :
    (a : SchedulerState) (latest : ℕ)
    → arrival_due a ≡ false
    → a.next_arrival_idx < a.num_processes
    → (a.processes a.next_arrival_idx).state ≡ not_arrived
    → ArrivesBy latest (view a)
    → a.current_time < latest
head_late a latest nd h st by = ground (arith, by a.next_arrival_idx h)

-- The clock goes on and the log grows; nothing else changes.
record Clocked (s t : SchedulerState) : Type 0 where
  config_same : t.config ≡ s.config
  policy_same : t.policy_state ≡ s.policy_state
  time_next : t.current_time ≡ s.current_time + 1
  idx_same : t.next_arrival_idx ≡ s.next_arrival_idx
  run_same : t.running_process ≡ s.running_process
  calm_same : t.preempt_requested ≡ s.preempt_requested

clock-Clocked :
    (s : SchedulerState) (entry : List ℕ) → Clocked s (advance_clock (append_gantt_entry s entry))
unfolding advance_clock
clock-Clocked s entry = rw append_gantt_entry_lem (record {
  config_same = refl;
  policy_same = refl;
  time_next = refl;
  idx_same = refl;
  run_same = refl;
  calm_same = refl;
})

module _ {policy : SchedulerPolicy} (K : PolicyContract policy) (s t : SchedulerState)
    (k : Clocked s t) where
  proc_same : (i : ℕ) → t.processes i ≡ s.processes i
  proc_same i = ap (λ c. c.processes i) k.config_same

  num_eq : t.num_processes ≡ s.num_processes
  num_eq = ap (λ c. c.num_processes) k.config_same

  Clocked-SameLabels : SameLabels (view s) (view t)
  Clocked-SameLabels = record { num_same = num_eq; label_same = λ i. ap label (proc_same i) }

  Clocked-work : work (view t) ≡ work (view s)
  Clocked-work =
      ap (λ (q : SchedulerConfig). sum_to q.num_processes (λ i. weight (stamp (q.processes i))))
        k.config_same

  Clocked-Inv : (c : ℕ) → Inv policy K s c → Inv policy K t c
  Clocked-Inv c inv = record {
    sound = record {
      idx_le = rw (k.idx_same, num_eq) inv.sound.idx_le;
      running_in = rw (k.run_same, num_eq) inv.sound.running_in;
      each = λ i h.
          rw (k.time_next, k.idx_same, k.run_same, proc_same i)
            (later-Good s.current_time (s.current_time + 1) s.next_arrival_idx s.running_process i
              (core (s.processes i)) (omega arith) (inv.sound.each i (rw num_eq at h)));
      counted =
          inv.sound.counted
          ∙ ap
              (λ (q : SchedulerConfig).
                sum_to q.num_processes (λ i. finished_bit (q.processes i).state))
              (sym k.config_same);
    };
    tracks =
        K.stable s t
          (record {
            policy_same = k.policy_same;
            num_same = num_eq;
            priority_same = λ i. ap (λ p. p.priority) (proc_same i);
            ready_same = λ i h. ap (λ p. is_ready p.state) (proc_same i);
          })
          inv.tracks;
    calm = k.calm_same ∙ inv.calm;
  }

module _ {policy : SchedulerPolicy} (K : PolicyContract policy) (latest : ℕ) (a t : SchedulerState)
    (c : ℕ) (nd : arrival_due a ≡ false) (ok : Sound (view a) c)
    (d : Dispatched policy K (view a) c t) (ne : c ≢ t.num_processes)
    (by : ArrivesBy latest (view a)) where
  some_to_come : t.running_process ≡ none → t.next_arrival_idx < t.num_processes
  some_to_come idle = elim (dec_lt t.next_arrival_idx t.num_processes) [
    | yes h ↦ h
    | no h ↦ absurd (
        ne (
          d.sound.counted
          ∙ sum_to-ones t.num_processes _ λ i p.
            arrived-finished t.current_time t.next_arrival_idx i (core (t.processes i))
              (rw idle at (d.sound.each i p)) (d.busy idle i p) (omega arith)))
  ]

  -- An idle CPU after the dispatch, with processes still to finish, waits for an arrival.
  idle_waits : t.running_process ≡ none → t.current_time < latest
  idle_waits idle = rw d.quiet.time_same (
      head_late a latest nd h
        (head-not_arrived a.current_time a.next_arrival_idx a.running_process _
          (ok.each a.next_arrival_idx h))
        by)
    where
      h : a.next_arrival_idx < a.num_processes
      h = omega (arith, some_to_come idle, d.idx_same, d.quiet.num_same)

  dispatched-Inv : Inv policy K t c
  dispatched-Inv = record { sound = d.sound; tracks = d.tracks; calm = d.calm }

  idle-Advanced :
      t.running_process ≡ none
      → Advanced policy K latest t (advance_clock (append_gantt_entry t idle_entry), c)
  idle-Advanced idle =
      let k = clock-Clocked t idle_entry in
      record {
        inv = Clocked-Inv K t _ k c dispatched-Inv;
        labels = Clocked-SameLabels K t _ k;
        less = omega (arith, Clocked-work K t _ k, k.time_next, idle_waits idle);
        clock = omega (arith, k.time_next);
      }

  instant-Advanced :
      (r : ℕ)
      → t.running_process ≡ some r
      → (t.processes r).remaining_time ≡ pos 0
      → Advanced policy K latest t
          (advance_clock (append_gantt_entry (finish_running t r) idle_entry), c + 1)
  instant-Advanced r run done =
      let f = finish_running-Completed K t c r run done dispatched-Inv in
      let k = clock-Clocked (finish_running t r) idle_entry in
      record {
        inv = Clocked-Inv K (finish_running t r) _ k (c + 1) f.inv;
        labels =
            SameLabels-trans (view t) (view (finish_running t r)) _ f.labels
              (Clocked-SameLabels K (finish_running t r) _ k);
        less =
            omega (
              arith,
              Clocked-work K (finish_running t r) _ k,
              k.time_next,
              f.time_same,
              f.work_done,
            );
        clock = omega (arith, k.time_next, f.time_same);
      }

  ticked-SameReady :
      (r : ℕ) → t.running_process ≡ some r → SameReady t (advance_clock (execute t (some r)))
  unfolding advance_clock execute process_tick
  ticked-SameReady r run = rw append_gantt_entry_lem (record {
    policy_same = refl;
    num_same = refl;
    priority_same = λ i. ground arith;
    ready_same = λ i h. ground arith;
  })

  ticked-calm :
      (r : ℕ) → (advance_clock (execute t (some r))).preempt_requested ≡ t.preempt_requested
  unfolding advance_clock execute
  ticked-calm r = rw append_gantt_entry_lem refl

  ticked-Advanced :
      (r : ℕ)
      → t.running_process ≡ some r
      → (t.processes r).remaining_time ≢ pos 0
      → Advanced policy K latest t (advance_clock (execute t (some r)), c)
  ticked-Advanced r run left =
      let e = ticked-view t c r run d.sound in
      record {
        inv = record {
          sound = subst (λ v. Sound v c) (sym e) (ticked-Sound t c r run d.sound left);
          tracks = K.stable t _ (ticked-SameReady r run) d.tracks;
          calm = ticked-calm r ∙ d.calm;
        };
        labels = subst (SameLabels (view t)) (sym e) (ticked-SameLabels t c r run d.sound);
        less =
            omega
              (arith, ticked-work t c r run d.sound left, ap work e, ap (λ v. v.current_time) e);
        clock = omega (arith, ap (λ v. v.current_time) e);
      }

  pub unit_end-Advanced :
      (run : Option ℕ) → t.running_process ≡ run → Advanced policy K latest t (unit_end t c run)
  unfolding unit_end
  unit_end-Advanced none run = idle-Advanced run
  unit_end-Advanced (some r) run =
      elim (Bool-cases (eqb_ℤ (t.processes r).remaining_time (pos 0))) [
        | inl done ↦ rw (done, unit_end) (instant-Advanced r run (ground arith))
        | inr more ↦ rw (more, unit_end) (ticked-Advanced r run (λ e. ground arith))
      ]
