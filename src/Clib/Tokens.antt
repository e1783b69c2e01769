-- ===== src/Clib/Tokens.antt =====
-- strtok, the text conversions of sscanf and fgets on texts that are made of fields.
use cpu_scheduler_simulator.Base.{
  ℕ, zero, suc, ◌-◌, ◌≤◌, ◌≡◌, refl, sym, ap, ◌∙◌, Bool, true, false, ◌||◌, not, some, List, [],
  ◌∷◌, ◌++◌, ◌==◌, arith, length, count, Bool-cases, inl, inr,
}
use mathlib.Core.List.{append_assoc, append-nil}
use cpu_scheduler_simulator.Clib.{span, scan_text, split_tokens, strtok, split_lines, fgets_lines}

-- Every character passes the test.
abbrev pub Passes : (ℕ → Bool) → List ℕ → Type 0
Passes test [] = Unit {0}
Passes test (c ∷ s) = (test c ≡ true) × Passes test s

pub Passes-append :
    (test : ℕ → Bool) (s t : List ℕ) → Passes test s → Passes test t → Passes test (s ++ t)
Passes-append test [] t p q = q
Passes-append test (c ∷ s) t (a, b) q = (a, Passes-append test s t b q)

pub Passes-weaken :
    (p q : ℕ → Bool) (s : List ℕ) → ((c : ℕ) → p c ≡ true → q c ≡ true) → Passes p s → Passes q s
Passes-weaken p q [] h a = tt
Passes-weaken p q (c ∷ s) h (a, b) = (h c a, Passes-weaken p q s h b)

-- A character that does not pass does not stand in the text.
pub count-Passes :
    (test : ℕ → Bool) (d : ℕ) (s : List ℕ) → test d ≡ false → Passes test s → count d s ≡ 0
count-Passes test d [] h p = refl
count-Passes test d (c ∷ s) h (a, b) = ground (arith, ap test, count-Passes test d s h b)

-- The text is empty or goes on with a character that does not pass.
abbrev pub Ends : (ℕ → Bool) → List ℕ → Type 0
Ends test [] = Unit {0}
Ends test (c ∷ s) = test c ≡ false

span-nil :
    (test : ℕ → Bool) (width : ℕ) (rest : List ℕ)
    → Ends test rest
    → span test width rest ≡ ([], rest)
unfolding span
span-nil test zero rest h = refl
span-nil test (suc width) [] h = refl
span-nil test (suc width) (c ∷ rest) h = rw h refl

pub span-append :
    (test : ℕ → Bool) (width : ℕ) (s rest : List ℕ)
    → Passes test s
    → length s ≤ width
    → Ends test rest
    → span test width (s ++ rest) ≡ (s, rest)
unfolding span
span-append test width [] rest p h e = span-nil test width rest e
span-append test zero (c ∷ s) rest p h e = absurd (omega arith)
span-append test (suc width) (c ∷ s) rest (pc, ps) h e =
    rw (pc, span-append test width s rest ps (omega arith) e) refl

-- A conversion reads exactly the field in front.
pub scan_text-append :
    (test : ℕ → Bool) (width c : ℕ) (s rest : List ℕ)
    → Passes test (c ∷ s)
    → length (c ∷ s) ≤ width
    → Ends test rest
    → scan_text test width ((c ∷ s) ++ rest) ≡ some (c ∷ s, rest)
unfolding scan_text
scan_text-append test width c s rest p h e = rw (span-append test width (c ∷ s) rest p h e) refl

-- A field without delimiters goes into the text that is read.
pub split_tokens-append :
    (delimiter : ℕ → Bool) (text s rest : List ℕ)
    → Passes (λ c. not (delimiter c)) s
    → split_tokens delimiter text (s ++ rest) ≡ split_tokens delimiter (text ++ s) rest
unfolding split_tokens
split_tokens-append delimiter text [] rest p = rw (append-nil text) refl
split_tokens-append delimiter text (c ∷ s) rest (pc, ps) = elim (Bool-cases (delimiter c)) [
  | inl e ↦ cc (rw e at pc)
  | inr e ↦ rw e (
      split_tokens-append delimiter (text ++ c ∷ []) s rest ps
      ∙ ap (λ t. split_tokens delimiter t rest) (append_assoc text (c ∷ []) s))
]

-- The fields with the separator between them.
abbrev pub join : ℕ → List (List ℕ) → List ℕ
join separator [] = []
join separator (field ∷ []) = field
join separator (field ∷ next ∷ fields) = field ++ separator ∷ join separator (next ∷ fields)

-- Fields that hold something and no delimiter.
abbrev pub Fields : (ℕ → Bool) → List (List ℕ) → Type 0
Fields delimiter [] = Unit {0}
Fields delimiter ([] ∷ fields) = ⊥
Fields delimiter ((c ∷ s) ∷ fields) =
    Passes (λ d. not (delimiter d)) (c ∷ s) × Fields delimiter fields

split_tokens-field :
    (delimiter : ℕ → Bool) (field rest : List ℕ)
    → Fields delimiter (field ∷ [])
    → split_tokens delimiter [] (field ++ rest) ≡ split_tokens delimiter field rest
split_tokens-field delimiter [] rest f = absurd f
split_tokens-field delimiter (c ∷ s) rest (p, u) = split_tokens-append delimiter [] (c ∷ s) rest p

-- strtok gives back the fields that one delimiter separates.
pub strtok-join :
    (delimiter : ℕ → Bool) (separator : ℕ) (fields : List (List ℕ))
    → delimiter separator ≡ true
    → Fields delimiter fields
    → strtok delimiter (join separator fields) ≡ fields
unfolding strtok split_tokens
strtok-join delimiter separator [] d f = refl
strtok-join delimiter separator ([] ∷ fields) d f = absurd f
strtok-join delimiter separator ((c ∷ s) ∷ []) d f =
    ap (split_tokens delimiter []) (sym (append-nil (c ∷ s)))
    ∙ split_tokens-append delimiter [] (c ∷ s) [] f.0
strtok-join delimiter separator ((c ∷ s) ∷ next ∷ fields) d f =
    split_tokens-append delimiter [] (c ∷ s) (separator ∷ join separator (next ∷ fields)) f.0
    ∙ rw (d, split_tokens) (ap ((c ∷ s) ∷◌) (strtok-join delimiter separator (next ∷ fields) d f.1))

-- A line that fits, up to its newline.
split_lines-append :
    (size room : ℕ) (line s rest : List ℕ)
    → Passes (λ c. not (c == b'\n')) s
    → length s ≤ room
    → split_lines size room line (s ++ b'\n' ∷ rest)
      ≡ (line ++ (s ++ b'\n' ∷ [])) ∷ split_lines size size [] rest
unfolding split_lines
split_lines-append size room line [] rest p h = refl
split_lines-append size room line (c ∷ s) rest (pc, ps) h =
    rw (more, split_lines)
      (split_lines-append size (room - 1) (line ++ c ∷ []) s rest ps (omega arith)
        ∙ ap (λ t. t ∷ split_lines size size [] rest)
            (append_assoc line (c ∷ []) (s ++ b'\n' ∷ [])))
  where
    more : ((c == b'\n') || (room == 0)) ≡ false
    more = ground (arith, pc, h)

-- The lines with a newline behind each.
abbrev pub write_lines : List (List ℕ) → List ℕ
write_lines [] = []
write_lines (line ∷ lines) = line ++ b'\n' ∷ write_lines lines

-- Lines that hold no newline and fit into the buffer of fgets with one.
abbrev pub Lines : List (List ℕ) → Type 0
Lines [] = Unit {0}
Lines (line ∷ lines) = Passes (λ c. not (c == b'\n')) line × (length line ≤ 254) × Lines lines

abbrev pub end_lines : List (List ℕ) → List (List ℕ)
end_lines [] = []
end_lines (line ∷ lines) = (line ++ b'\n' ∷ []) ∷ end_lines lines

-- fgets gives back the lines, each with its newline.
pub fgets_lines-write_lines :
    (lines : List (List ℕ)) → Lines lines → fgets_lines (write_lines lines) ≡ end_lines lines
unfolding fgets_lines split_lines
fgets_lines-write_lines [] h = refl
fgets_lines-write_lines (line ∷ lines) (p, le, h) =
    split_lines-append 254 254 [] line (write_lines lines) p le
    ∙ ap ((line ++ b'\n' ∷ []) ∷◌) (fgets_lines-write_lines lines h)
