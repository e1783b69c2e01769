-- ===== src/Main/Reset.antt =====
-- The arrays of the comparison mode in src/core/main.c: the reset, and the copy of each run.
use cpu_scheduler_simulator.Base.{
  ℕ, zero, suc, ◌≤◌, ◌<◌, ◌≡◌, ◌⊎◌, refl, sym, ap, ◌∙◌, inl, inr, fun_ext, arith, ==_refl, ==_false,
}
use native.Mathlib.Decide.{ℕ_discrete}
use cpu_scheduler_simulator.Process.{Process}
use cpu_scheduler_simulator.Main.{memcpy, reset_process, reset_processes}

-- The entries below `n` are reset, the others kept.
pub reset_processes-each :
    (procs : ℕ → Process) (n i : ℕ)
    → ((i < n) × (reset_processes procs n i ≡ reset_process (procs i)))
      ⊎ ((n ≤ i) × (reset_processes procs n i ≡ procs i))
unfolding reset_processes
reset_processes-each procs zero i = inr (omega arith, refl)
reset_processes-each procs (suc n) i = elim (ℕ_discrete i n) [
  | yes e ↦
      rw (e, ==_refl n)
        (elim (reset_processes-each procs n n) [
          | inl (lt, p) ↦ absurd (omega arith)
          | inr (le, p) ↦ inl (omega arith, ap reset_process p)
        ])
  | no ne ↦ rw (==_false i n ne) (elim (reset_processes-each procs n i) [
    | inl (lt, p) ↦ inl (omega arith, p)
    | inr (le, p) ↦ inr (omega (arith, le, ne), p)
  ])
]

reset_again : (p : Process) → reset_process (reset_process p) ≡ reset_process p
reset_again p = refl

-- A second reset changes nothing.
pub reset_processes_idem :
    (procs : ℕ → Process) (n : ℕ)
    → reset_processes (reset_processes procs n) n ≡ reset_processes procs n
reset_processes_idem procs n = fun_ext λ i.
    elim (reset_processes-each (reset_processes procs n) n i) [
      | inl (lt, p) ↦ elim (reset_processes-each procs n i) [
        | inl (_, q) ↦ p ∙ ap reset_process q ∙ sym q
        | inr (le, q) ↦ absurd (omega arith)
      ]
      | inr (_, p) ↦ p
    ]

-- The copy has the entries below `n`.
pub memcpy-below :
    (memory procs : ℕ → Process) (n i : ℕ) → i < n → memcpy memory procs n i ≡ procs i
unfolding memcpy
memcpy-below memory procs zero i h = absurd (omega arith)
memcpy-below memory procs (suc n) i h = elim (ℕ_discrete i n) [
  | yes e ↦ rw (e, ==_refl n) refl
  | no ne ↦ rw (==_false i n ne) (memcpy-below memory procs n i (omega (arith, h, ne)))
]
