-- ===== src/Metrics/Table.antt =====
-- src/core/metrics.c: the metrics of a finished run.
use cpu_scheduler_simulator.Base.{
  ℕ, zero, suc, ◌+◌, ◌≤◌, ◌<◌, ◌⊎◌, sym, ℤ, ◌≡◌, refl, ap, ◌∙◌, false, true, Bool-cases, inl, inr,
  Option, none, some, arith, ◌+ℤ◌, ◌-ℤ◌, wrap_int, wrap_int_absorb, pos, ◌<ℤ◌, subst, ==_refl,
  ==_false,
}
use native.Mathlib.Decide.{ℕ_discrete}
use cpu_scheduler_simulator.Process.{Process}
use cpu_scheduler_simulator.Metrics.{
  calculate_metrics, measure_process, total, is_convoy, find_convoy,
}

-- The exact sum of the first `n` values.
abbrev pub sum_ℤ : ℕ → (ℕ → ℤ) → ℤ
sum_ℤ zero f = pos 0
sum_ℤ (suc n) f = sum_ℤ n f +ℤ f n

-- The sum in an `int` is the low 32 bits of the exact sum.
pub total-sum_ℤ :
    (field : Process → ℤ) (procs : ℕ → Process) (n : ℕ) (f : ℕ → ℤ)
    → ((i : ℕ) → i < n → field (procs i) ≡ f i)
    → total field procs n ≡ wrap_int (sum_ℤ n f)
unfolding total wrap_int
total-sum_ℤ field procs zero f h = refl
total-sum_ℤ field procs (suc n) f h =
    ap (λ z. wrap_int (z +ℤ field (procs n)))
      (total-sum_ℤ field procs n f (λ i lt. h i (omega arith)))
    ∙ wrap_int_absorb (sum_ℤ n f) (field (procs n))
    ∙ ap (λ z. wrap_int (sum_ℤ n f +ℤ z)) (h n (omega arith))

-- The metrics of a process, from its times.
pub record IsMeasured (before after : Process) : Type 0 where
  pub turnaround : after.turnaround_time ≡ before.finish_time -ℤ before.arrival_time
  pub waiting :
      after.waiting_time ≡ (before.finish_time -ℤ before.arrival_time) -ℤ before.burst_time
  pub response : after.response_time ≡ before.start_time -ℤ before.arrival_time
  pub rest : after ≡ record before {
    turnaround_time = after.turnaround_time;
    waiting_time = after.waiting_time;
    response_time = after.response_time;
  }

measure_process-IsMeasured : (p : Process) → IsMeasured p (measure_process p)
measure_process-IsMeasured p = record {
  turnaround = refl;
  waiting = refl;
  response = refl;
  rest = refl;
}

calculate_metrics-above :
    (procs : ℕ → Process) (n i : ℕ) → n ≤ i → calculate_metrics procs n i ≡ procs i
unfolding calculate_metrics
calculate_metrics-above procs zero i h = refl
calculate_metrics-above procs (suc n) i h =
    rw (==_false i n (λ e. omega (arith, h, e)))
      (calculate_metrics-above procs n i (omega (arith, h)))

calculate_metrics-below :
    (procs : ℕ → Process) (n i : ℕ)
    → i < n
    → calculate_metrics procs n i ≡ measure_process (procs i)
unfolding calculate_metrics
calculate_metrics-below procs zero i h = absurd (omega arith)
calculate_metrics-below procs (suc n) i h = elim (ℕ_discrete i n) [
  | yes e ↦ rw (e, ==_refl n) (ap measure_process (calculate_metrics-above procs n n (omega arith)))
  | no ne ↦ rw (==_false i n ne) (calculate_metrics-below procs n i (omega (arith, h, ne)))
]

-- `calculate_metrics`, whatever the processes hold: below the number of processes each entry gets
-- the turnaround, waiting and response time that belong to its own arrival, burst, start and finish
-- times, and keeps the rest; the other entries are kept.
pub calculate_metrics-IsMeasured :
    (procs : ℕ → Process) (n : ℕ)
    → ((i : ℕ) → i < n → IsMeasured (procs i) (calculate_metrics procs n i))
      × ((i : ℕ) → n ≤ i → calculate_metrics procs n i ≡ procs i)
calculate_metrics-IsMeasured procs n = (
  λ i h.
      subst (IsMeasured (procs i)) (sym (calculate_metrics-below procs n i h))
        (measure_process-IsMeasured (procs i)),
  λ i h. calculate_metrics-above procs n i h,
)

-- It waited more than 100 time units and longer than its burst.
abbrev pub WaitedTooLong : Process → Type 0
WaitedTooLong p = (pos 100 <ℤ p.waiting_time) × (p.burst_time <ℤ p.waiting_time)

is_convoy-yes : (p : Process) → is_convoy p ≡ true → WaitedTooLong p
is_convoy-yes p e = ground (arith, e)

is_convoy-no : (p : Process) → is_convoy p ≡ false → WaitedTooLong p → ⊥
is_convoy-no p e (a, b) = ground (arith, e, a, b)

-- What the warning is about among the `n` processes from `i` on: the first one that waited too long.
abbrev pub FirstConvoy : ℕ → ℕ → (ℕ → Process) → Option ℕ → Type 0
FirstConvoy n i procs none = (j : ℕ) → i ≤ j → j < i + n → WaitedTooLong (procs j) → ⊥
FirstConvoy n i procs (some k) =
    (i ≤ k)
    × (k < i + n)
    × WaitedTooLong (procs k)
    × ((j : ℕ) → i ≤ j → j < k → WaitedTooLong (procs j) → ⊥)

split_first : (i j : ℕ) → i ≤ j → (i ≡ j) ⊎ (i + 1 ≤ j)
split_first i j h = omega arith

FirstConvoy-next :
    (n i : ℕ) (procs : ℕ → Process) (o : Option ℕ)
    → (WaitedTooLong (procs i) → ⊥)
    → FirstConvoy n (i + 1) procs o
    → FirstConvoy (suc n) i procs o
FirstConvoy-next n i procs none e h = λ j le lt. elim (split_first i j le) [
  | inl p ↦ λ w. e (subst (λ k. WaitedTooLong (procs k)) (sym p) w)
  | inr p ↦ h j p (omega arith)
]
FirstConvoy-next n i procs (some k) e (a, b, c, d) = (
  omega arith,
  omega arith,
  c,
  λ j le lt. elim (split_first i j le) [
    | inl p ↦ λ w. e (subst (λ k. WaitedTooLong (procs k)) (sym p) w)
    | inr p ↦ d j p lt
  ],
)

-- The warning is about the first process of the walk that waited more than 100 time units and
-- longer than its burst, and there is none only if no process did.
pub find_convoy-FirstConvoy :
    (n i : ℕ) (procs : ℕ → Process) → FirstConvoy n i procs (find_convoy n i procs)
unfolding find_convoy
find_convoy-FirstConvoy zero i procs = λ j le lt. absurd (omega arith)
find_convoy-FirstConvoy (suc n) i procs = elim (Bool-cases (is_convoy (procs i))) [
  | inl e ↦
      rw e (omega arith, omega arith, is_convoy-yes (procs i) e, λ j le lt. absurd (omega arith))
  | inr e ↦ rw e (
      FirstConvoy-next n i procs _ (is_convoy-no (procs i) e)
        (find_convoy-FirstConvoy n (i + 1) procs))
]
