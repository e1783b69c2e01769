-- ===== src/Clib/Compare.antt =====
-- When strcmp of the C library finds two texts equal.
use cpu_scheduler_simulator.Base.{
  ℕ, ◌≡◌, refl, true, List, [], ◌∷◌, pos, ◌-ℤ◌, -ℤ_parts, eqb_ℤ, ltb, ◌==◌, ==_iff, arith,
  Bool-cases, inl, inr,
}
use cpu_scheduler_simulator.Clib.{strcmp, same_text}
use cpu_scheduler_simulator.Clib.Tokens.{Passes}

pub strcmp_self : (a : List ℕ) → strcmp a a ≡ pos 0
unfolding strcmp
strcmp_self [] = refl
strcmp_self (c ∷ cs) = ground (arith, strcmp_self cs)

pub same_text_self : (a : List ℕ) → same_text a a ≡ true
same_text_self a = rw (strcmp_self a) refl

-- No character is the NUL that ends a text.
abbrev pub NoNul : List ℕ → Type 0
NoNul s = Passes (λ c. ltb 0 c) s

minus_zero : (c d : ℕ) → eqb_ℤ (pos c -ℤ pos d) (pos 0) ≡ true → c ≡ d
minus_zero c d h = ground (arith, h, -ℤ_parts (pos c) (pos d))

-- Texts without a NUL are the same to strcmp only if they are equal.
pub same_text-eq : (a b : List ℕ) → NoNul a → NoNul b → same_text a b ≡ true → a ≡ b
unfolding strcmp
same_text-eq [] [] p q h = refl
same_text-eq [] (d ∷ ds) p (q, qs) h = absurd (ground (arith, q, minus_zero 0 d h))
same_text-eq (c ∷ cs) [] (p, ps) q h = absurd (ground (arith, p, h))
same_text-eq (c ∷ cs) (d ∷ ds) (p, ps) (q, qs) h = elim (Bool-cases (c == d)) [
  | inl e ↦ cc ((==_iff c d).0 e, same_text-eq cs ds ps qs (rw e at h))
  | inr e ↦ absurd (ground (arith, e, minus_zero c d (rw e at h)))
]
