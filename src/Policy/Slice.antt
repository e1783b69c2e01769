-- ===== src/Policy/Slice.antt =====
-- The time slice of round robin: src/algorithms/rr.c.
use cpu_scheduler_simulator.Base.{
  ℕ, zero, suc, ◌≡◌, refl, sym, ap, ◌∙◌, true, false, some, arith, pos, ltb_ℤ, leb_ℤ, ◌-ℤ◌, ◌<ℤ◌,
  -ℤ_parts, eq_of_parts,
}
use cpu_scheduler_simulator.Queue.{enqueue}
use cpu_scheduler_simulator.State.{SchedulerState, RrState, rr}
use cpu_scheduler_simulator.Engine.{set_preempt}
use cpu_scheduler_simulator.Policy.Rr.{rr_on_tick, rr_tick, set_rr}

-- `n` calls of the tick hook while the process at `p` runs.
abbrev pub ticks : ℕ → SchedulerState → ℕ → SchedulerState
ticks zero s p = s
ticks (suc n) s p = ticks n (rr_on_tick s (some p)) p

one_less :
    (r : RrState) (q : ℕ) → r.current_quantum ≡ pos (suc q) → r.current_quantum -ℤ pos 1 ≡ pos q
one_less r q e =
    ap (λ c. c -ℤ pos 1) e
    ∙ eq_of_parts (pos (suc q) -ℤ pos 1) (pos q) (omega (arith, -ℤ_parts (pos (suc q)) (pos 1)))

early_tick :
    (s : SchedulerState) (p : ℕ) (r : RrState) (q : ℕ)
    → r.current_quantum ≡ pos (suc (suc q))
    → rr_tick s (some p) (rr r) ≡ set_rr s (record r { current_quantum = pos (suc q) })
unfolding rr_tick
early_tick s p r q e = rw (one_less r (suc q) e, some_left) refl
  where
    some_left : leb_ℤ (pos (suc q)) (pos 0) ≡ false
    some_left = ground arith

last_tick :
    (s : SchedulerState) (p : ℕ) (r : RrState)
    → r.current_quantum ≡ pos 1
    → pos 0 <ℤ (s.processes p).remaining_time
    → rr_tick s (some p) (rr r)
      ≡ set_preempt
          (set_rr s (record { ready_queue = enqueue r.ready_queue p; current_quantum = pos 0 }))
          true
unfolding rr_tick
last_tick s p r e h = rw (one_less r 0 e, unfinished) refl
  where
    unfinished : ltb_ℤ (pos 0) (s.processes p).remaining_time ≡ true
    unfinished = ground arith

-- With `q + 1` time units left of the slice of a process that has work left, `q` tick hooks only
-- count the slice down, and the next one puts the process at the end of the queue and asks for the
-- CPU back.
pub ticks-slice :
    (q : ℕ) (s : SchedulerState) (p : ℕ) (r : RrState)
    → s.policy_state ≡ rr r
    → r.current_quantum ≡ pos (suc q)
    → pos 0 <ℤ (s.processes p).remaining_time
    → (ticks q s p ≡ set_rr s (record r { current_quantum = pos 1 }))
      × (ticks (suc q) s p
          ≡ set_preempt
              (set_rr s (record { ready_queue = enqueue r.ready_queue p; current_quantum = pos 0 }))
              true)
unfolding rr_on_tick
ticks-slice zero s p r e quantum h = (
  sym (
      ap (λ c. set_rr s (record r { current_quantum = c })) (sym quantum)
      ∙ ap (λ ps. record s { policy_state = ps }) (sym e)),
  ap (λ ps. rr_tick s (some p) ps) e ∙ last_tick s p r quantum h,
)
ticks-slice (suc q) s p r e quantum h =
    let next = set_rr s (record r { current_quantum = pos (suc q) }) in
    let step : rr_on_tick s (some p) ≡ next =
      ap (λ ps. rr_tick s (some p) ps) e ∙ early_tick s p r q quantum in
    let (counted, over) =
      ticks-slice q next p (record r { current_quantum = pos (suc q) }) refl refl h in
    (ap (λ t. ticks q t p) step ∙ counted, ap (λ t. ticks (suc q) t p) step ∙ over)
