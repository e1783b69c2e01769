-- ===== src/Engine/Range.antt =====
-- The `int`s of src/core/scheduler.c and src/core/process.c stay in their range.
use cpu_scheduler_simulator.Base.{
  ℕ, Option, ◌+◌, ◌≤◌, ◌<◌, ◌≡◌, inl, inr, refl, ap, ◌∙◌, none, arith, pos_part, neg_part, -ℤ_parts,
  -ℤ_bounds, sum_to-at_least,
}
use cpu_scheduler_simulator.Process.{Process, ProcessState, not_arrived, ready, running, finished}
use cpu_scheduler_simulator.State.{SchedulerState, SchedulerPolicy}
use cpu_scheduler_simulator.Clib.{int_max, IsInt}
use cpu_scheduler_simulator.Engine.{set_running}
use cpu_scheduler_simulator.Engine.View.{view, core}
use cpu_scheduler_simulator.Engine.Contract.{PolicyContract}
use cpu_scheduler_simulator.Engine.Sound.{Good, Done, Started, Unstarted, StateOk}
use cpu_scheduler_simulator.Engine.Quiet.{work, weight, stamp, Label}
use cpu_scheduler_simulator.Engine.Unit.{ArrivesBy}
use cpu_scheduler_simulator.Engine.Total.{Finished, Untouched, Fresh}
use cpu_scheduler_simulator.Engine.Reach.{Reached, Underway, Reached-Underway}

-- The numbers of a process that are used in its state: the metrics of the end only once it has
-- finished, the response time once it has started.
pub record Fits (p : Process) : Type 0 where
  pub remaining : IsInt p.remaining_time
  pub start : IsInt p.start_time
  pub response : neg_part p.start_time ≡ 0 → IsInt p.response_time
  pub finish : p.state ≡ finished → IsInt p.finish_time
  pub turnaround : p.state ≡ finished → IsInt p.turnaround_time
  pub waiting : p.state ≡ finished → IsInt p.waiting_time

Started-response :
    (t : ℕ) (p : Process)
    → t ≤ int_max
    → pos_part p.remaining_time ≤ pos_part p.burst_time
    → neg_part p.arrival_time ≡ 0
    → Started t p
    → IsInt p.start_time × IsInt p.response_time
Started-response t p le left arrival h = (
  omega (arith, h.start_nonneg, h.work_fits, left, le),
  rw h.response (
      omega (
        arith,
        -ℤ_parts p.start_time p.arrival_time,
        -ℤ_bounds p.start_time p.arrival_time,
        h.start_nonneg,
        h.start_after_arrival,
        h.work_fits,
        left,
        le,
        arrival,
      )),
)

-- The numbers of a finished process.
Done-Fits :
    (t : ℕ) (p : Process)
    → t ≤ int_max
    → pos_part p.burst_time ≤ int_max
    → neg_part p.burst_time ≡ 0
    → neg_part p.arrival_time ≡ 0
    → Done t p
    → IsInt p.start_time
      × IsInt p.response_time
      × IsInt p.finish_time
      × IsInt p.turnaround_time
      × IsInt p.waiting_time
Done-Fits t p le burst nonneg arrival h =
    let a = -ℤ_parts p.finish_time p.arrival_time in
    let b = -ℤ_bounds p.finish_time p.arrival_time in
    let c = ap pos_part h.turnaround in
    let d = ap neg_part h.turnaround in
    let sr = -ℤ_bounds p.start_time p.arrival_time in
    (
      omega (arith, h.start_nonneg, h.work_fits, h.finish_le, le),
      rw h.response (
          omega (
            arith, sr, h.start_nonneg, h.work_fits, h.finish_le, le, arrival, h.start_after_arrival,
          )),
      omega (arith, h.finish_nonneg, h.finish_le, le),
      omega (
        arith, a, b, c, d, h.finish_nonneg, h.finish_le, le, arrival, h.start_after_arrival,
        h.start_nonneg, h.work_fits,
      ),
      rw h.waiting (
          omega (
            arith,
            -ℤ_bounds p.turnaround_time p.burst_time,
            a,
            b,
            c,
            d,
            h.finish_nonneg,
            h.finish_le,
            le,
            arrival,
            burst,
            nonneg,
            h.start_after_arrival,
            h.start_nonneg,
            h.work_fits,
          )),
    )

-- By the state of the process.
-- A process that has not finished, by what holds of its start and its response time.
unfinished-Fits :
    (p : Process)
    → (p.state ≡ finished → ⊥)
    → IsInt p.remaining_time
    → IsInt p.start_time
    → (neg_part p.start_time ≡ 0 → IsInt p.response_time)
    → Fits p
unfinished-Fits p out remaining start response = record {
  remaining = remaining;
  start = start;
  response = response;
  finish = λ e. absurd (out e);
  turnaround = λ e. absurd (out e);
  waiting = λ e. absurd (out e);
}

Unstarted-Fits :
    (p : Process) → (p.state ≡ finished → ⊥) → IsInt p.remaining_time → Unstarted p → Fits p
Unstarted-Fits p out remaining u =
    unfinished-Fits p out remaining (rw u.no_start (omega arith))
      (λ h. absurd (omega (arith, h, ap neg_part u.no_start)))

Started-Fits :
    (t : ℕ) (p : Process)
    → t ≤ int_max
    → pos_part p.remaining_time ≤ pos_part p.burst_time
    → neg_part p.arrival_time ≡ 0
    → (p.state ≡ finished → ⊥)
    → IsInt p.remaining_time
    → Started t p
    → Fits p
Started-Fits t p le left arrival out remaining u =
    let (start, response) = Started-response t p le left arrival u in
    unfinished-Fits p out remaining start (λ h. response)

StateOk-Fits :
    (t idx : ℕ) (run : Option ℕ) (i : ℕ) (p : Process) (st : ProcessState)
    → p.state ≡ st
    → t ≤ int_max
    → pos_part p.burst_time ≤ int_max
    → neg_part p.arrival_time ≡ 0
    → Good t idx run i p
    → StateOk t idx run i p st
    → Fits p
StateOk-Fits t idx run i p not_arrived e le burst arrival g (_, _, u) =
    Unstarted-Fits p (λ q. cc (e, q)) (omega (arith, g.remaining_le, g.remaining_nonneg, burst)) u
StateOk-Fits t idx run i p ready e le burst arrival g (_, _, _, inl u) =
    Unstarted-Fits p (λ q. cc (e, q)) (omega (arith, g.remaining_le, g.remaining_nonneg, burst)) u
StateOk-Fits t idx run i p ready e le burst arrival g (_, _, _, inr u) =
    Started-Fits t p le g.remaining_le arrival (λ q. cc (e, q))
      (omega (arith, g.remaining_le, g.remaining_nonneg, burst)) u
StateOk-Fits t idx run i p running e le burst arrival g (_, _, _, u) =
    Started-Fits t p le g.remaining_le arrival (λ q. cc (e, q))
      (omega (arith, g.remaining_le, g.remaining_nonneg, burst)) u
StateOk-Fits t idx run i p finished e le burst arrival g (_, _, u) =
    let (start, response, finish, turnaround, waiting) =
      Done-Fits t p le burst g.burst_nonneg arrival u in
    record {
      remaining = omega (arith, g.remaining_le, g.remaining_nonneg, burst);
      start = start;
      response = λ h. response;
      finish = λ h. finish;
      turnaround = λ h. turnaround;
      waiting = λ h. waiting;
    }

core-Fits : (p : Process) → Fits (core p) → Fits p
core-Fits p h = record {
  remaining = h.remaining;
  start = h.start;
  response = h.response;
  finish = h.finish;
  turnaround = h.turnaround;
  waiting = h.waiting;
}

-- At the end of a run that does not take longer than INT_MAX, from processes whose bursts and
-- arrivals are not negative.
pub Finished-Fits :
    (bound : ℕ) (s t : SchedulerState)
    → bound ≤ int_max
    → ((i : ℕ)
        → i < s.num_processes
        → (neg_part (s.processes i).burst_time ≡ 0) × (neg_part (s.processes i).arrival_time ≡ 0))
    → Finished bound s t
    → (i : ℕ) → i < t.num_processes
    → Fits (t.processes i)
Finished-Fits bound s t le inputs f i h =
    let p = core (t.processes i) in
    let d = f.all_done i h in
    let (b, a) = inputs i (omega (arith, h, f.labels.num_same)) in
    let clock : t.current_time ≤ int_max = omega (arith, f.in_time, le) in
    let burst = ap (λ (l : Label). neg_part l.burst_time) (f.labels.label_same i) ∙ b in
    let arrival = ap (λ (l : Label). neg_part l.arrival_time) (f.labels.label_same i) ∙ a in
    let (start, response, finish, turnaround, waiting) =
      Done-Fits t.current_time p clock (omega (arith, d.work_fits, d.finish_le, clock)) burst
        arrival d in
    record {
      remaining = rw d.nothing_left (omega arith, omega arith);
      start = start;
      response = λ e. response;
      finish = λ e. finish;
      turnaround = λ e. turnaround;
      waiting = λ e. waiting;
    }

Untouched-burst : (p : Process) → Untouched p → pos_part p.burst_time ≤ weight (stamp (core p))
Untouched-burst p u = ground (arith, u.all_left, u.waits)

module _ {policy : SchedulerPolicy} (K : PolicyContract policy) where
  -- In every state of a run between two time units, from a fresh state, under a policy with a
  -- contract, with arrivals that are not negative and work and a last arrival that together are at
  -- most INT_MAX: the clock fits an `int`, and of every process the remaining and the start time do,
  -- the response time once it has started, and the finish, turnaround and waiting times once it has
  -- finished.
  pub Reached-Fits :
      (latest : ℕ) (s t : SchedulerState) (c : ℕ)
      → Fresh s
      → K.Suits (set_running s none)
      → ArrivesBy latest (view s)
      → ((i : ℕ) → i < s.num_processes → neg_part (s.processes i).arrival_time ≡ 0)
      → work (view s) + latest ≤ int_max
      → Reached policy s t c
      → (t.current_time ≤ int_max) × ((i : ℕ) → i < t.num_processes → Fits (t.processes i))
  Reached-Fits latest s t c f suits by arrivals le r = (clock, each)
    where
      w : Underway policy K latest s t c
      w = Reached-Underway K latest s f suits by t c r

      clock : t.current_time ≤ int_max
      clock = omega (arith, w.in_time, le)

      each : (i : ℕ) → i < t.num_processes → Fits (t.processes i)
      each i h =
          let lt : i < s.num_processes = omega (arith, h, w.labels.num_same) in
          let b = ap (λ (l : Label). pos_part l.burst_time) (w.labels.label_same i) in
          let a = ap (λ (l : Label). neg_part l.arrival_time) (w.labels.label_same i) in
          core-Fits (t.processes i) (
            StateOk-Fits t.current_time t.next_arrival_idx t.running_process i
              (core (t.processes i)) (t.processes i).state refl clock
              (omega (
                arith,
                b,
                le,
                Untouched-burst (s.processes i) (f.untouched i lt),
                sum_to-at_least s.num_processes (λ j. weight (stamp (core (s.processes j)))) i lt,
              ))
              (a ∙ arrivals i lt) (w.inv.sound.each i h) (w.inv.sound.each i h).state_ok)
