-- ===== src/Clib.antt =====
-- What src/core/process.c, src/core/parser.c, src/core/gantt.c and src/core/main.c use of the C
-- library, on texts as lists of character codes: strcmp, strcasecmp, strtok, strtol, fgets, and the
-- conversions of sscanf and printf.
pub mod Compare
pub mod Decimal
pub mod Tokens
use Prim.Native.Char.{code}
use Prim.Native.String.{String}
use cpu_scheduler_simulator.Base.{
  ℕ, zero, suc, ◌+◌, ◌-◌, ◌*◌, ◌/◌, ◌%◌, Bool, true, false, ◌&&◌, ◌||◌, not, Option, none, some,
  List, [], ◌∷◌, ◌++◌, map, ℤ, pos, negsuc, ◌-ℤ◌, ltb, leb, ltb_ℤ, eqb_ℤ, ◌==◌, ◌≤◌, pos_part,
  neg_part, wrap_int, if◌then◌else◌,
}

-- The characters of a literal.
abbrev pub codes : String → List ℕ
codes String.[] = []
codes (String.◌∷◌ c s) = code c ∷ codes s

-- The difference at the first place where the texts differ, a text that ends there having a NUL.
unfoldable pub strcmp : List ℕ → List ℕ → ℤ
strcmp [] [] = pos 0
strcmp [] (d ∷ ds) = pos 0 -ℤ pos d
strcmp (c ∷ cs) [] = pos c
strcmp (c ∷ cs) (d ∷ ds) = let rest = strcmp cs ds in if c == d then rest else pos c -ℤ pos d

-- `strcmp(a, b) == 0`
abbrev pub same_text : List ℕ → List ℕ → Bool
same_text a b = eqb_ℤ (strcmp a b) (pos 0)

abbrev pub to_lower : ℕ → ℕ
to_lower c = if leb b'A' c && leb c b'Z' then c + 32 else c

unfoldable pub strcasecmp : List ℕ → List ℕ → ℤ
unfolding strcmp
strcasecmp a b = strcmp (map to_lower a) (map to_lower b)

abbrev pub is_digit : ℕ → Bool
is_digit c = leb b'0' c && leb c b'9'

abbrev pub is_space : ℕ → Bool
is_space c = c == b' ' || (leb 9 c && leb c 13)

unfoldable pub skip_spaces : List ℕ → List ℕ
skip_spaces [] = []
skip_spaces (c ∷ s) = if is_space c then skip_spaces s else c ∷ s

-- The number that the digits at the front make after `n`, and what follows them.
unfoldable pub scan_digits : List ℕ → ℕ → ℕ × List ℕ
scan_digits [] n = (n, [])
scan_digits (c ∷ s) n = if is_digit c then scan_digits s (n * 10 + (c - b'0')) else (n, c ∷ s)

abbrev pub negate : ℕ → ℤ
negate zero = pos 0
negate (suc n) = negsuc n

abbrev pub signed : Bool → ℕ × List ℕ → ℤ × List ℕ
signed minus (n, rest) = (if minus then negate n else pos n, rest)

-- At least one digit.
abbrev pub scan_unsigned : Bool → List ℕ → Option (ℤ × List ℕ)
scan_unsigned minus [] = none
scan_unsigned minus (c ∷ s) =
    if is_digit c then some (signed minus (scan_digits (c ∷ s) 0)) else none

abbrev pub scan_signed : List ℕ → Option (ℤ × List ℕ)
scan_signed [] = none
scan_signed (c ∷ s) =
    if c == b'-'
    then scan_unsigned true s
    else if c == b'+'
    then scan_unsigned false s
    else scan_unsigned false (c ∷ s)

-- The number that strtol and the `%d` of sscanf read: spaces, a sign, digits.
unfoldable pub scan_int : List ℕ → Option (ℤ × List ℕ)
unfolding skip_spaces scan_digits
scan_int s = scan_signed (skip_spaces s)

-- `long` has 64 bits; a number that it does not hold becomes the nearest one that it does.
abbrev pub long_max : ℕ
long_max = 9223372036854775807

abbrev pub clamp_long : ℤ → ℤ
clamp_long (pos n) = if ltb long_max n then pos long_max else pos n
clamp_long (negsuc n) = if ltb long_max n then negsuc long_max else negsuc n

-- A value of the C type `int`.
abbrev pub int_max : ℕ
int_max = 2147483647

abbrev pub IsInt : ℤ → Type 0
IsInt z = (pos_part z ≤ int_max) × (neg_part z ≤ int_max + 1)

abbrev pub store_int : Option (ℤ × List ℕ) → Option (ℤ × List ℕ)
store_int none = none
store_int (some (v, rest)) = some (wrap_int (clamp_long v), rest)

-- `%d` of sscanf, which reads as strtol does, and of which an `int` keeps the low 32 bits.
unfoldable pub scan_d : List ℕ → Option (ℤ × List ℕ)
unfolding scan_int wrap_int
scan_d s = store_int (scan_int s)

-- The longest front of at most `width` characters that pass the test, and the rest.
unfoldable pub span : (ℕ → Bool) → ℕ → List ℕ → List ℕ × List ℕ
span test zero s = ([], s)
span test (suc width) [] = ([], [])
span test (suc width) (c ∷ s) =
    let (front, rest) = span test width s in if test c then (c ∷ front, rest) else ([], c ∷ s)

-- `%15[^:]` and `%15s`: the conversion fails on an empty front.
unfoldable pub scan_text : (ℕ → Bool) → ℕ → List ℕ → Option (List ℕ × List ℕ)
unfolding span
scan_text test width s = nonempty (span test width s)
  where
    nonempty : List ℕ × List ℕ → Option (List ℕ × List ℕ)
    nonempty ([], rest) = none
    nonempty (c ∷ front, rest) = some (c ∷ front, rest)

-- A character of the format that is not a space.
abbrev pub scan_char : ℕ → List ℕ → Option (List ℕ)
scan_char d [] = none
scan_char d (c ∷ s) = if c == d then some s else none

infixl 5 ◌>>=◌
abbrev pub ◌>>=◌ {ℓ κ} : {A : Type ℓ} {B : Type κ} → Option A → (A → Option B) → Option B
none >>= f = none
some a >>= f = f a

-- A text in front of a list of texts, unless it is empty.
abbrev pub flush : List ℕ → List (List ℕ) → List (List ℕ)
flush [] rest = rest
flush (c ∷ text) rest = (c ∷ text) ∷ rest

-- The texts that strtok returns call after call, `text` being the one that is read.
unfoldable pub split_tokens : (ℕ → Bool) → List ℕ → List ℕ → List (List ℕ)
split_tokens delimiter text [] = flush text []
split_tokens delimiter text (c ∷ s) = elim (delimiter c) [
  | true ↦ flush text (split_tokens delimiter [] s)
  | false ↦ split_tokens delimiter (text ++ c ∷ []) s
]

unfoldable pub strtok : (ℕ → Bool) → List ℕ → List (List ℕ)
unfolding split_tokens
strtok delimiter s = split_tokens delimiter [] s

-- The lines that fgets returns call after call with a buffer for `size + 1` characters and a NUL:
-- `room` characters more fit behind `line`.
unfoldable pub split_lines : ℕ → ℕ → List ℕ → List ℕ → List (List ℕ)
split_lines size room line [] = flush line []
split_lines size room line (c ∷ s) = elim (c == b'\n' || room == 0) [
  | true ↦ (line ++ c ∷ []) ∷ split_lines size size [] s
  | false ↦ split_lines size (room - 1) (line ++ c ∷ []) s
]

-- `fgets(line, 256, fp)` until it returns NULL.
unfoldable pub fgets_lines : List ℕ → List (List ℕ)
unfolding split_lines
fgets_lines s = split_lines 254 254 [] s

-- What `strtol(s, &endptr, 10)` leaves in its result, `errno` and `endptr`; `converted` is
-- `endptr != s`.
pub record StrtolResult : Type 0 where
  pub value : ℤ
  pub out_of_range : Bool
  pub converted : Bool
  pub end_text : List ℕ

abbrev pub strtol_result : List ℕ → Option (ℤ × List ℕ) → StrtolResult
strtol_result s none = record {
  value = pos 0;
  out_of_range = false;
  converted = false;
  end_text = s;
}
strtol_result s (some (v, rest)) = record {
  value = clamp_long v;
  out_of_range = ltb_ℤ (pos long_max) v || ltb_ℤ v (negsuc long_max);
  converted = true;
  end_text = rest;
}

unfoldable pub strtol : List ℕ → StrtolResult
unfolding scan_int
strtol s = strtol_result s (scan_int s)

-- `%d` of printf, on a natural number: the last digit first, `out` behind it.
unfoldable pub print_digits : ℕ → ℕ → List ℕ → List ℕ
print_digits zero n out = out
print_digits (suc fuel) n out =
    let more = print_digits fuel (n / 10) ((b'0' + n % 10) ∷ out) in
    if ltb n 10 then (b'0' + n) ∷ out else more

unfoldable pub print_nat : ℕ → List ℕ
unfolding print_digits
print_nat n = print_digits (suc n) n []

unfoldable pub print_int : ℤ → List ℕ
unfolding print_nat
print_int (pos n) = print_nat n
print_int (negsuc n) = b'-' ∷ print_nat (suc n)
