-- ===== src/Gantt/Split.antt =====
-- The entries of the log that src/core/gantt.c takes apart again.
use cpu_scheduler_simulator.Base.{
  ℕ, ◌+◌, ◌≡◌, ◌≢◌, refl, sym, ap, ◌∙◌, true, false, not, List, [], ◌∷◌, ◌++◌, arith, length, take,
  Bool-cases, inl, inr,
}
use mathlib.Core.List.{append_assoc, append-nil}
use cpu_scheduler_simulator.Clib.{strtok}
use cpu_scheduler_simulator.Clib.Tokens.{Passes, join, Fields, strtok-join}
use cpu_scheduler_simulator.Gantt.{append_entry}
use cpu_scheduler_simulator.Gantt.Render.{is_bar, count_entries, split_gantt_log}

count_entries-field :
    (s rest : List ℕ)
    → Passes (λ c. not (is_bar c)) s
    → count_entries false (s ++ rest) ≡ count_entries false rest
count_entries-field [] rest p = refl
count_entries-field (c ∷ s) rest (pc, ps) = elim (Bool-cases (is_bar c)) [
  | inl e ↦ cc (rw e at pc)
  | inr e ↦ rw e (omega (arith, count_entries-field s rest ps))
]

-- The count begins with 1 for a field.
count_entries-first :
    (c : ℕ) (s rest : List ℕ)
    → Passes (λ d. not (is_bar d)) (c ∷ s)
    → count_entries true ((c ∷ s) ++ rest) ≡ 1 + count_entries false rest
count_entries-first c s rest (pc, ps) = elim (Bool-cases (is_bar c)) [
  | inl e ↦ cc (rw e at pc)
  | inr e ↦ rw e (omega (arith, count_entries-field s rest ps))
]

count_entries-join :
    (fields : List (List ℕ))
    → Fields is_bar fields
    → count_entries true (join b'|' fields) ≡ length fields
count_entries-join [] f = refl
count_entries-join ([] ∷ fields) f = absurd f
count_entries-join ((c ∷ s) ∷ []) (p, f) =
    ap (count_entries true) (sym (append-nil (c ∷ s))) ∙ count_entries-first c s [] p
count_entries-join ((c ∷ s) ∷ next ∷ fields) (p, f) =
    count_entries-first c s (b'|' ∷ join b'|' (next ∷ fields)) p
    ∙ omega (arith, count_entries-join (next ∷ fields) f)

take-length : (xs : List (List ℕ)) → take (length xs) xs ≡ xs
take-length [] = refl
take-length (x ∷ xs) = ap (x ∷◌) (take-length xs)

-- The log of fields, put together with the separator, is taken apart into them.
pub split_gantt_log-join :
    (fields : List (List ℕ)) → Fields is_bar fields → split_gantt_log (join b'|' fields) ≡ fields
unfolding split_gantt_log
split_gantt_log-join fields f =
    ap (λ n. take n (strtok is_bar (join b'|' fields))) (count_entries-join fields f)
    ∙ ap (take (length fields)) (strtok-join is_bar b'|' fields refl f)
    ∙ take-length fields

append_entry-nonempty :
    (log entry : List ℕ) → log ≢ [] → append_entry log entry ≡ log ++ b'|' ∷ entry
append_entry-nonempty [] entry ne = absurd (ne refl)
append_entry-nonempty (c ∷ log) entry ne = refl

join-nonempty :
    (field : List ℕ) (fields : List (List ℕ))
    → Fields is_bar (field ∷ fields)
    → join b'|' (field ∷ fields) ≢ []
join-nonempty [] fields f e = f
join-nonempty (c ∷ s) [] f e = cc e
join-nonempty (c ∷ s) (next ∷ fields) f e = cc e

-- An entry that is added to the log is the last field.
pub join-append_entry :
    (fields : List (List ℕ)) (entry : List ℕ)
    → Fields is_bar fields
    → join b'|' (fields ++ entry ∷ []) ≡ append_entry (join b'|' fields) entry
join-append_entry [] entry f = refl
join-append_entry ([] ∷ fields) entry f = absurd f
join-append_entry ((c ∷ s) ∷ []) entry f = refl
join-append_entry ((c ∷ s) ∷ next ∷ fields) entry (p, f) =
    ap (λ t. (c ∷ s) ++ b'|' ∷ t)
      (join-append_entry (next ∷ fields) entry f
        ∙ append_entry-nonempty (join b'|' (next ∷ fields)) entry (join-nonempty next fields f))
    ∙ sym (append_assoc (c ∷ s) (b'|' ∷ join b'|' (next ∷ fields)) (b'|' ∷ entry))

pub Fields-append :
    (xs ys : List (List ℕ)) → Fields is_bar xs → Fields is_bar ys → Fields is_bar (xs ++ ys)
Fields-append [] ys f g = g
Fields-append ([] ∷ xs) ys f g = absurd f
Fields-append ((c ∷ s) ∷ xs) ys (p, f) g = (p, Fields-append xs ys f g)
