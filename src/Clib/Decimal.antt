-- ===== src/Clib/Decimal.antt =====
-- `%d` of sscanf on what `%d` of printf wrote.
use cpu_scheduler_simulator.Base.{
  ℕ, zero, suc, ◌+◌, ◌-◌, ◌*◌, ◌/◌, ◌%◌, ◌<◌, ◌≡◌, refl, ap, ◌∙◌, Bool, true, false, some, List, [],
  ◌∷◌, ◌++◌, ℤ, pos, negsuc, ltb, ◌==◌, arith, Bool-cases, inl, inr, ltb→lt, ltb→le, if◌then◌else◌,
  wrap_int,
}
use cpu_scheduler_simulator.Clib.Tokens.{Passes}
use cpu_scheduler_simulator.Clib.{
  is_digit, is_space, skip_spaces, scan_d, store_int, clamp_long, IsInt, scan_digits, scan_unsigned,
  scan_int, signed, negate, print_digits, print_nat, print_int,
}

-- The text does not go on with a digit.
abbrev pub Stops : List ℕ → Type 0
Stops [] = Unit {0}
Stops (c ∷ s) = is_digit c ≡ false

pub scan_digits-Stops : (s : List ℕ) (n : ℕ) → Stops s → scan_digits s n ≡ (n, s)
unfolding scan_digits
scan_digits-Stops [] n h = refl
scan_digits-Stops (c ∷ s) n h = rw h refl

-- Digits are written in front of what is there.
print_digits-append :
    (fuel n : ℕ) (out rest : List ℕ)
    → print_digits fuel n out ++ rest ≡ print_digits fuel n (out ++ rest)
unfolding print_digits
print_digits-append zero n out rest = refl
print_digits-append (suc fuel) n out rest =
    ground (arith, print_digits-append fuel (n / 10) ((b'0' + n % 10) ∷ out) rest)

scan_digit :
    (d n : ℕ) (out : List ℕ)
    → d < 10
    → scan_digits ((b'0' + d) ∷ out) n ≡ scan_digits out (n * 10 + d)
unfolding scan_digits
scan_digit d n out h = rw (digit, minus) refl
  where
    digit : is_digit (b'0' + d) ≡ true
    digit = ground arith

    minus : b'0' + d - b'0' ≡ d
    minus = omega arith

scan_digits-print_digits :
    (fuel n : ℕ) (out : List ℕ)
    → n < fuel
    → scan_digits (print_digits fuel n out) 0 ≡ scan_digits out n
unfolding print_digits
scan_digits-print_digits zero n out h = absurd (omega arith)
scan_digits-print_digits (suc fuel) n out h = elim (Bool-cases (ltb n 10)) [
  | inl one ↦ rw one (scan_digit n 0 out (ltb→lt n 10 one) ∙ ap (scan_digits out) (omega arith))
  | inr more ↦ rw more (
      scan_digits-print_digits fuel (n / 10) ((b'0' + n % 10) ∷ out)
        (omega (arith, ltb→le n 10 more))
      ∙ scan_digit (n % 10) (n / 10) out (omega arith)
      ∙ ap (scan_digits out) (omega arith))
]

-- The text goes on with a digit.
abbrev pub Digit : List ℕ → Type 0
Digit [] = ⊥
Digit (c ∷ s) = is_digit c ≡ true

print_digits-Digit : (fuel n : ℕ) (out : List ℕ) → Digit out → Digit (print_digits fuel n out)
unfolding print_digits
print_digits-Digit zero n out h = h
print_digits-Digit (suc fuel) n out h = elim (Bool-cases (ltb n 10)) [
  | inl one ↦ rw one (ground arith)
  | inr more ↦ rw more (print_digits-Digit fuel (n / 10) _ (ground arith))
]

pub print_nat-Digit : (n : ℕ) (rest : List ℕ) → Digit (print_nat n ++ rest)
unfolding print_nat print_digits
print_nat-Digit n rest = elim (Bool-cases (ltb n 10)) [
  | inl one ↦ rw one (ground arith)
  | inr more ↦
      rw (more, print_digits-append n (n / 10) ((b'0' + n % 10) ∷ []) rest)
        (print_digits-Digit n (n / 10) _ (ground arith))
]

scan_unsigned-Digit :
    (minus : Bool) (s : List ℕ)
    → Digit s
    → scan_unsigned minus s ≡ some (signed minus (scan_digits s 0))
scan_unsigned-Digit minus [] h = absurd h
scan_unsigned-Digit minus (c ∷ s) h = rw h refl

scan_unsigned-print_nat :
    (minus : Bool) (n : ℕ) (rest : List ℕ)
    → Stops rest
    → scan_unsigned minus (print_nat n ++ rest) ≡ some (if minus then negate n else pos n, rest)
unfolding print_nat
scan_unsigned-print_nat minus n rest h =
    scan_unsigned-Digit minus (print_nat n ++ rest) (print_nat-Digit n rest)
    ∙ ap (λ r. some (signed minus r))
        (ap (λ s. scan_digits s 0) (print_digits-append (suc n) n [] rest)
          ∙ scan_digits-print_digits (suc n) n rest (omega arith)
          ∙ scan_digits-Stops rest n h)

scan_int-Digit : (s : List ℕ) → Digit s → scan_int s ≡ scan_unsigned false s
unfolding scan_int skip_spaces
scan_int-Digit [] h = absurd h
scan_int-Digit (c ∷ s) h = rw (no_space, no_minus, no_plus) refl
  where
    no_space : is_space c ≡ false
    no_space = ground (arith, h)

    no_minus : (c == b'-') ≡ false
    no_minus = ground (arith, h)

    no_plus : (c == b'+') ≡ false
    no_plus = ground (arith, h)

-- What `%d` writes, `%d` reads back, up to the character behind it, which is not a digit.
pub scan_int-print_int :
    (z : ℤ) (rest : List ℕ) → Stops rest → scan_int (print_int z ++ rest) ≡ some (z, rest)
unfolding print_int scan_int skip_spaces
scan_int-print_int (pos n) rest h =
    scan_int-Digit (print_nat n ++ rest) (print_nat-Digit n rest)
    ∙ scan_unsigned-print_nat false n rest h
scan_int-print_int (negsuc n) rest h = scan_unsigned-print_nat true (suc n) rest h

print_digits-Passes :
    (test : ℕ → Bool) (fuel n : ℕ) (out : List ℕ)
    → ((c : ℕ) → is_digit c ≡ true → test c ≡ true)
    → Passes test out
    → Passes test (print_digits fuel n out)
unfolding print_digits
print_digits-Passes test zero n out h p = p
print_digits-Passes test (suc fuel) n out h p = elim (Bool-cases (ltb n 10)) [
  | inl one ↦ rw one (h (b'0' + n) (ground (arith, one)), p)
  | inr more ↦
      rw more (print_digits-Passes test fuel (n / 10) _ h (h (b'0' + n % 10) (ground arith), p))
]

-- What `%d` writes holds digits and a minus sign only.
pub print_int-Passes :
    (test : ℕ → Bool) (z : ℤ)
    → ((c : ℕ) → is_digit c ≡ true → test c ≡ true)
    → test b'-' ≡ true
    → Passes test (print_int z)
unfolding print_int print_nat
print_int-Passes test (pos n) h m = print_digits-Passes test (suc n) n [] h tt
print_int-Passes test (negsuc n) h m = (m, print_digits-Passes test (suc (suc n)) (suc n) [] h tt)

IsInt-stored : (z : ℤ) → IsInt z → wrap_int (clamp_long z) ≡ z
unfolding wrap_int
IsInt-stored (pos n) h = ground (arith, h)
IsInt-stored (negsuc n) h = ground (arith, h)

-- An `int` that was printed is read back.
pub scan_d-print_int :
    (z : ℤ) (rest : List ℕ) → IsInt z → Stops rest → scan_d (print_int z ++ rest) ≡ some (z, rest)
unfolding scan_d
scan_d-print_int z rest fits h =
    ap store_int (scan_int-print_int z rest h) ∙ ap (λ v. some (v, rest)) (IsInt-stored z fits)
