-- ===== src/Parser/Reading.antt =====
-- What holds while src/core/parser.c reads the lines of a configuration.
use cpu_scheduler_simulator.Base.{
  ℕ, ◌+◌, ◌≤◌, ◌<◌, ◌≡◌, ◌⊎◌, Bool, true, false, ◌&&◌, Bool-cases, Option-cases, inl, inr, Option,
  none, some, List, [], ◌∷◌, take, ℤ, arith, ltb, ◌==◌, ==_refl, if◌then◌else◌,
}
use cpu_scheduler_simulator.State.{MlfqConfig}
use cpu_scheduler_simulator.Clib.{◌>>=◌, same_text, strtok}
use cpu_scheduler_simulator.Workload.{is_skipped}
use cpu_scheduler_simulator.Parser.{
  read_positive, starts_with_q, queue_line, boost_line, config_tokens, config_line, config_lines,
  is_blank, max_mlfq_queues,
}
use cpu_scheduler_simulator.Clib.{codes}
use cpu_scheduler_simulator.Parser.Numbers.{
  Positive, IsNoNumeral, read_positive-Positive, read_positive-IsNoNumeral,
}

-- What holds while the lines are read: the entries that are set, and the three defaults.
abbrev pub Set : ℕ → ℕ → Type 0
Set queue_idx i = (i < queue_idx) ⊎ (i < 3)

pub record Reading (st : MlfqConfig × ℕ) : Type 0 where
  pub fits : st.1 ≤ max_mlfq_queues
  pub quantum_ok : (i : ℕ) → Set st.1 i → Positive (st.0.quantums i)
  pub allotment_ok : (i : ℕ) → Set st.1 i → Positive (st.0.allotments i)
  pub period_ok : Positive st.0.boost_period

-- One of the tokens is not the text of a value from 1 to INT_MAX.
abbrev pub HasBad : List (List ℕ) → Type 0
HasBad [] = ⊥
HasBad (t ∷ toks) = IsNoNumeral t ⊎ HasBad toks

-- One of the two tokens behind the first one.
abbrev pub HasBehind : List (List ℕ) → Type 0
HasBehind [] = ⊥
HasBehind (t ∷ toks) = HasBad (take 2 toks)

abbrev pub HasBadLine : List (List ℕ) → Type 0
HasBadLine [] = ⊥
HasBadLine (line ∷ lines) = HasBehind (strtok is_blank line) ⊎ HasBadLine lines

-- A step exits only for the reason `Bad`, and otherwise leaves what holds while reading.
abbrev pub ReadOr : Type 0 → Option (MlfqConfig × ℕ) → Type 0
ReadOr Bad none = Bad
ReadOr Bad (some st) = Reading st

set_one : (queue_idx i : ℕ) → Set (queue_idx + 1) i → (i ≡ queue_idx) ⊎ Set queue_idx i
set_one queue_idx i (inl h) = elim (split_last queue_idx i h) [
  | inl e ↦ inl e
  | inr l ↦ inr (inl l)
]
  where
    split_last : (n j : ℕ) → j < n + 1 → (j ≡ n) ⊎ (j < n)
    split_last n j lt = omega arith
set_one queue_idx i (inr h) = inr (inr h)

modify-Positive :
    (a : ℕ → ℤ) (k : ℕ) (v : ℤ) (i : ℕ)
    → Positive v
    → (i ≡ k) ⊎ Positive (a i)
    → Positive (if i == k then v else a i)
modify-Positive a k v i p (inl e) = rw (e, ==_refl k) p
modify-Positive a k v i p (inr q) = pick (i == k)
  where
    pick : (b : Bool) → Positive (if b then v else a i)
    pick true = p
    pick false = q

right : {A B C : Type 0} → (B → C) → A ⊎ B → A ⊎ C
right f (inl a) = inl a
right f (inr b) = inr (f b)

queue_line-Reading :
    (toks : List (List ℕ)) (st : MlfqConfig × ℕ)
    → st.1 < max_mlfq_queues
    → Reading st
    → ReadOr (HasBad (take 2 toks)) (queue_line toks st)
unfolding queue_line
queue_line-Reading [] st lt r = r
queue_line-Reading (q ∷ []) st lt r = r
queue_line-Reading (q ∷ a ∷ more) (config, queue_idx) lt r = elim (Option-cases (read_positive q)) [
  | inl e ↦ rw e (inl (read_positive-IsNoNumeral q e))
  | inr (v, ev) ↦ elim (Option-cases (read_positive a)) [
    | inl e ↦ rw (ev, e) (inr (inl (read_positive-IsNoNumeral a e)))
    | inr (w, ew) ↦
        rw (ev, ew)
          (record {
            fits = omega (arith, lt);
            quantum_ok = λ i h.
                modify-Positive config.quantums queue_idx v i (read_positive-Positive q v ev)
                  (right (r.quantum_ok i) (set_one queue_idx i h));
            allotment_ok = λ i h.
                modify-Positive config.allotments queue_idx w i (read_positive-Positive a w ew)
                  (right (r.allotment_ok i) (set_one queue_idx i h));
            period_ok = r.period_ok;
          })
  ]
]

boost_line-Reading :
    (toks : List (List ℕ)) (st : MlfqConfig × ℕ)
    → Reading st
    → ReadOr (HasBad (take 2 toks)) (boost_line toks st)
unfolding boost_line
boost_line-Reading [] st r = r
boost_line-Reading (t ∷ more) (config, queue_idx) r = elim (Option-cases (read_positive t)) [
  | inl e ↦ rw e (inl (read_positive-IsNoNumeral t e))
  | inr (v, ev) ↦ rw ev (record {
    fits = r.fits;
    quantum_ok = r.quantum_ok;
    allotment_ok = r.allotment_ok;
    period_ok = read_positive-Positive t v ev;
  })
]

config_tokens-Reading :
    (toks : List (List ℕ)) (st : MlfqConfig × ℕ)
    → Reading st
    → ReadOr (HasBehind toks) (config_tokens toks st)
unfolding config_tokens
config_tokens-Reading [] st r = r
config_tokens-Reading (t ∷ more) st r =
    elim (Bool-cases (starts_with_q t && ltb st.1 max_mlfq_queues)) [
      | inl e ↦ rw e (queue_line-Reading more st (second (starts_with_q t) e) r)
      | inr e ↦ rw e (pick (same_text t (codes "BOOST_PERIOD")))
    ]
  where
    second : (b : Bool) → b && ltb st.1 max_mlfq_queues ≡ true → st.1 < max_mlfq_queues
    second b h = ground (arith, h)

    pick : (b : Bool) → ReadOr (HasBehind (t ∷ more)) (if b then boost_line more st else some st)
    pick true = boost_line-Reading more st r
    pick false = r

config_line-Reading :
    (line : List ℕ) (st : MlfqConfig × ℕ)
    → Reading st
    → ReadOr (HasBehind (strtok is_blank line)) (config_line line st)
unfolding config_line
config_line-Reading line st r = pick (is_skipped line)
  where
    pick :
        (b : Bool)
        → ReadOr
            (HasBehind (strtok is_blank line))
            (if b then some st else config_tokens (strtok is_blank line) st)
    pick true = r
    pick false = config_tokens-Reading (strtok is_blank line) st r

bind-Reading :
    (line : List ℕ) (lines : List (List ℕ)) (o : Option (MlfqConfig × ℕ))
    → ReadOr (HasBehind (strtok is_blank line)) o
    → ((st : MlfqConfig × ℕ) → Reading st → ReadOr (HasBadLine lines) (config_lines lines st))
    → ReadOr (HasBadLine (line ∷ lines)) (o >>= config_lines lines)
bind-Reading line lines none h k = inl h
bind-Reading line lines (some st) h k = widen (config_lines lines st) (k st h)
  where
    widen :
        (r : Option (MlfqConfig × ℕ))
        → ReadOr (HasBadLine lines) r
        → ReadOr (HasBadLine (line ∷ lines)) r
    widen none bad = inr bad
    widen (some u) ok = ok

pub config_lines-Reading :
    (lines : List (List ℕ)) (st : MlfqConfig × ℕ)
    → Reading st
    → ReadOr (HasBadLine lines) (config_lines lines st)
unfolding config_lines
config_lines-Reading [] st r = r
config_lines-Reading (line ∷ lines) st r =
    bind-Reading line lines (config_line line st) (config_line-Reading line st r)
      (config_lines-Reading lines)
