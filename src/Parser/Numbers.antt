-- ===== src/Parser/Numbers.antt =====
-- Which numbers src/core/parser.c accepts.
use cpu_scheduler_simulator.Base.{
  ℕ, ◌≤◌, ◌<◌, ◌≡◌, refl, ap, ◌∙◌, true, false, ◌||◌, none, some, Option, List, [], ◌∷◌, ℤ, pos,
  negsuc, arith, leb_ℤ, ltb_ℤ, if◌then◌else◌,
}
use cpu_scheduler_simulator.Clib.{
  StrtolResult, strtol_result, strtol, scan_int, int_max, long_max, clamp_long,
}
use cpu_scheduler_simulator.Parser.{read_positive, is_refused, is_empty_text}

-- An `int` that is greater than 0.
abbrev pub Positive : ℤ → Type 0
Positive (pos n) = (0 < n) × (n ≤ int_max)
Positive (negsuc n) = ⊥

-- The text is that of a positive `int`: strtol reads it whole, as a value that is one.
abbrev pub IsNumeral : List ℕ → ℤ → Type 0
IsNumeral s v = (scan_int s ≡ some (v, [])) × Positive v

-- The text is that of no positive `int`.
abbrev pub IsNoNumeral : List ℕ → Type 0
IsNoNumeral s = (v : ℤ) → IsNumeral s v → ⊥

abbrev whole_number : ℤ → StrtolResult
whole_number v = record { value = v; out_of_range = false; converted = true; end_text = [] }

strtol-scan_int :
    (s : List ℕ) (v : ℤ)
    → scan_int s ≡ some (v, [])
    → clamp_long v ≡ v
    → ltb_ℤ (pos long_max) v || ltb_ℤ v (negsuc long_max) ≡ false
    → strtol s ≡ whole_number v
unfolding strtol
strtol-scan_int s v e fits small = ap (strtol_result s) e ∙ rw (fits, small) refl

-- The text of a positive `int` is accepted as its value.
read_positive-accepts : (s : List ℕ) (v : ℤ) → IsNumeral s v → read_positive s ≡ some v
unfolding read_positive
read_positive-accepts s (pos n) (e, (lo, hi)) =
    ap (λ r. if is_refused r then none else some r.value)
      (strtol-scan_int s (pos n) e (ground (arith, hi)) (ground (arith, hi)))
    ∙ rw accepted refl
  where
    accepted : leb_ℤ (pos n) (pos 0) || ltb_ℤ (pos int_max) (pos n) ≡ false
    accepted = ground (arith, lo, hi)
read_positive-accepts s (negsuc n) (e, h) = absurd h

empty_text : (rest : List ℕ) → is_empty_text rest ≡ true → rest ≡ []
empty_text [] h = refl
empty_text (c ∷ rest) h = cc h

-- A result that is not refused is that of a positive `int`.
accepted-IsNumeral :
    (s : List ℕ) (o : Option (ℤ × List ℕ)) (v : ℤ)
    → (if is_refused (strtol_result s o) then none else some (strtol_result s o).value) ≡ some v
    → (o ≡ some (v, [])) × Positive v
accepted-IsNumeral s none v e = cc e
accepted-IsNumeral s (some (pos n, c ∷ rest)) v e = ground (arith, e)
accepted-IsNumeral s (some (negsuc n, rest)) v e = ground (arith, e)
accepted-IsNumeral s (some (pos n, [])) v e = ground (arith, e)

pub read_positive-IsNumeral : (s : List ℕ) (v : ℤ) → read_positive s ≡ some v → IsNumeral s v
unfolding read_positive strtol
read_positive-IsNumeral s v e = accepted-IsNumeral s (scan_int s) v e

-- A number that is accepted is a positive `int`.
pub read_positive-Positive : (s : List ℕ) (v : ℤ) → read_positive s ≡ some v → Positive v
read_positive-Positive s v e = (read_positive-IsNumeral s v e).1

-- A text is refused only if it is that of no positive `int`.
pub read_positive-IsNoNumeral : (s : List ℕ) → read_positive s ≡ none → IsNoNumeral s
read_positive-IsNoNumeral s e v h = cc (e, read_positive-accepts s v h)
