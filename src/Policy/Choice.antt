-- ===== src/Policy/Choice.antt =====
-- What the walk over the array in src/algorithms/fcfs.c, sjf.c and stcf.c chooses.
use cpu_scheduler_simulator.Base.{
  ℕ, zero, suc, ◌<◌, ◌≡◌, subst, Bool, true, false, Option, none, some, arith, Bool-cases, inl, inr,
  ◌⊎◌,
}
use cpu_scheduler_simulator.Process.{Process, is_ready}
use cpu_scheduler_simulator.Policy.Scan.{choose, scan}

-- The choice among the first `n` processes.
abbrev pub Chosen : (Process → Process → Bool) → (ℕ → Process) → ℕ → Option ℕ → Type 0
Chosen better procs n none = (i : ℕ) → i < n → is_ready (procs i).state ≡ false
Chosen better procs n (some k) =
    (k < n)
    × (is_ready (procs k).state ≡ true)
    × ((i : ℕ) → i < n → is_ready (procs i).state ≡ true → better (procs i) (procs k) ≡ false)

module _ (better : Process → Process → Bool) (irrefl : (p : Process) → better p p ≡ false)
    (trans : (p q r : Process) → better p q ≡ true → better q r ≡ true → better p r ≡ true)
    (procs : ℕ → Process) where
  not_better :
      (i n k : ℕ)
      → better (procs n) (procs k) ≡ true
      → better (procs i) (procs k) ≡ false
      → better (procs i) (procs n) ≡ false
  not_better i n k h e = elim (Bool-cases (better (procs i) (procs n))) [
    | inl b ↦ cc (trans (procs i) (procs n) (procs k) b h)
    | inr b ↦ b
  ]

  below_or_last : (i n : ℕ) → i < suc n → (i < n) ⊎ (i ≡ n)
  below_or_last i n h = omega arith

  choose-Chosen :
      (n : ℕ) (o : Option ℕ)
      → Chosen better procs n o
      → Chosen better procs (suc n) (choose better procs n o)
  choose-Chosen n none h = elim (Bool-cases (is_ready (procs n).state)) [
    | inl rd ↦ rw rd (
      omega arith,
      rd,
      λ i lt ri. elim (below_or_last i n lt) [
        | inl low ↦ cc (h i low)
        | inr e ↦ rw e (irrefl (procs n))
      ],
    )
    | inr not_rd ↦
        rw not_rd (λ i lt. elim (below_or_last i n lt) [ inl low ↦ h i low | inr e ↦ rw e not_rd ])
  ]
  choose-Chosen n (some k) (low, rk, best) = elim (Bool-cases (is_ready (procs n).state)) [
    | inl rd ↦ elim (Bool-cases (better (procs n) (procs k))) [
      | inl b ↦
          rw (rd, b)
            (
              omega arith,
              rd,
              λ i lt ri. elim (below_or_last i n lt) [
                | inl low' ↦ not_better i n k b (best i low' ri)
                | inr e ↦ rw e (irrefl (procs n))
              ],
            )
      | inr b ↦
          rw (rd, b)
            (
              omega arith,
              rk,
              λ i lt ri. elim (below_or_last i n lt) [ inl low' ↦ best i low' ri | inr e ↦ rw e b ],
            )
    ]
    | inr not_rd ↦ rw not_rd (
      omega arith,
      rk,
      λ i lt ri. elim (below_or_last i n lt) [
        | inl low' ↦ best i low' ri
        | inr e ↦ cc (subst (λ j. is_ready (procs j).state ≡ true) e ri)
      ],
    )
  ]

  pub scan-Chosen : (n : ℕ) → Chosen better procs n (scan better procs n)
  unfolding scan
  scan-Chosen zero = λ i h. absurd (omega arith)
  scan-Chosen (suc n) = choose-Chosen n (scan better procs n) (scan-Chosen n)
