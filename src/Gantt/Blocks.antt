-- ===== src/Gantt/Blocks.antt =====
-- The blocks of the chart in src/core/gantt.c against the entries they stand for.
use cpu_scheduler_simulator.Base.{
  ℕ, zero, suc, ◌+◌, ◌≤◌, ◌<◌, ◌≡◌, ◌≢◌, refl, sym, ap, ◌∙◌, subst, false, List, [], ◌∷◌, ◌++◌,
  arith, length, take, Bool-cases, inl, inr,
}
use cpu_scheduler_simulator.Process.{max_pid_chars}
use cpu_scheduler_simulator.Clib.{same_text}
use cpu_scheduler_simulator.Clib.Compare.{NoNul, same_text-eq, same_text_self}
use cpu_scheduler_simulator.Gantt.Render.{Block, make_block, merge, blocks_of}

-- An entry that a block can hold: at most 15 characters, and no NUL.
abbrev pub IsLabel : List ℕ → Type 0
IsLabel e = (length e ≤ max_pid_chars) × NoNul e

abbrev pub AllLabels : List (List ℕ) → Type 0
AllLabels [] = Unit {0}
AllLabels (e ∷ es) = IsLabel e × AllLabels es

abbrev copies : ℕ → List ℕ → List (List ℕ)
copies zero e = []
copies (suc n) e = e ∷ copies n e

-- One entry for each time unit of each block.
abbrev pub expand : List Block → List (List ℕ)
expand [] = []
expand (b ∷ blocks) = copies b.duration b.pid ++ expand blocks

-- The blocks follow one another from one time to another, and none is empty.
abbrev pub Tiles : ℕ → ℕ → List Block → Type 0
Tiles from to [] = from ≡ to
Tiles from to (b ∷ blocks) =
    (b.start ≡ from) × (b.end ≡ from + b.duration) × (0 < b.duration) × Tiles b.end to blocks

-- Neighbours have different names.
abbrev pub Changes : List Block → Type 0
Changes [] = Unit {0}
Changes (b ∷ []) = Unit {0}
Changes (b ∷ next ∷ blocks) = (b.pid ≢ next.pid) × Changes (next ∷ blocks)

abbrev StartsWith : List ℕ → List Block → Type 0
StartsWith pid [] = ⊥
StartsWith pid (b ∷ blocks) = b.pid ≡ pid

take-short : (n : ℕ) (s : List ℕ) → length s ≤ n → take n s ≡ s
take-short zero [] h = refl
take-short zero (c ∷ s) h = absurd (omega arith)
take-short (suc n) [] h = refl
take-short (suc n) (c ∷ s) h = ap (c ∷◌) (take-short n s (omega arith))

copies-next :
    (n : ℕ) (e : List ℕ) (es : List (List ℕ)) → copies (n + 1) e ++ es ≡ copies n e ++ (e ∷ es)
copies-next n e es = ap (λ k. copies k e ++ es) (plus_one n) ∙ move n
  where
    plus_one : (k : ℕ) → k + 1 ≡ suc k
    plus_one k = omega arith

    move : (k : ℕ) → copies (suc k) e ++ es ≡ copies k e ++ (e ∷ es)
    move zero = refl
    move (suc k) = ap (e ∷◌) (move k)

-- The blocks of the entries `es` and of `duration` copies of `pid` in front of them.
record Merged (pid : List ℕ) (start duration to : ℕ) (es : List (List ℕ)) (blocks : List Block)
    : Type 0 where
  expands : expand blocks ≡ copies duration pid ++ es
  tiles : Tiles start to blocks
  changes : Changes blocks
  starts : StartsWith pid blocks

Changes-cons :
    (b : Block) (pid : List ℕ) (blocks : List Block)
    → b.pid ≢ pid
    → StartsWith pid blocks
    → Changes blocks
    → Changes (b ∷ blocks)
Changes-cons b pid [] ne st ch = tt
Changes-cons b pid (next ∷ blocks) ne st ch = (λ e. ne (e ∙ st), ch)

expand-make_block :
    (pid : List ℕ) (start duration : ℕ) (blocks : List Block)
    → IsLabel pid
    → expand (make_block pid start duration ∷ blocks) ≡ copies duration pid ++ expand blocks
expand-make_block pid start duration blocks ok =
    ap (λ p. copies duration p ++ expand blocks) (take-short max_pid_chars pid ok.0)

merge-Merged :
    (es : List (List ℕ)) (i : ℕ) (pid : List ℕ) (start duration : ℕ)
    → AllLabels es
    → IsLabel pid
    → i ≡ start + duration
    → 0 < duration
    → Merged pid start duration (i + length es) es (merge es i pid start duration)
unfolding merge
merge-Merged [] i pid start duration all ok at some_time = record {
  expands = expand-make_block pid start duration [] ok;
  tiles = (refl, refl, some_time, omega (arith, at));
  changes = tt;
  starts = take-short max_pid_chars pid ok.0;
}
merge-Merged (e ∷ es) i pid start duration (is, all) ok at some_time =
    elim (Bool-cases (same_text e pid)) [
      | inl same ↦
          let m =
            merge-Merged es (i + 1) pid start (duration + 1) all ok (omega (arith, at))
              (omega arith) in
          let e≡pid = same_text-eq e pid is.1 ok.1 same in
          rw (same, merge)
            (record {
              expands =
                  m.expands
                  ∙ copies-next duration pid es
                  ∙ ap (λ x. copies duration pid ++ (x ∷ es)) (sym e≡pid);
              tiles =
                  subst (λ n. Tiles start n (merge es (i + 1) pid start (duration + 1)))
                    (shift i es) m.tiles;
              changes = m.changes;
              starts = m.starts;
            })
      | inr differs ↦
          let m = merge-Merged es (i + 1) e i 1 all is refl (omega arith) in
          rw (differs, merge)
            (record {
              expands =
                  expand-make_block pid start duration (merge es (i + 1) e i 1) ok
                  ∙ ap (λ x. copies duration pid ++ x) m.expands;
              tiles = (
                refl,
                refl,
                some_time,
                subst (λ n. Tiles n (i + suc (length es)) (merge es (i + 1) e i 1)) at
                    (subst (λ n. Tiles i n (merge es (i + 1) e i 1)) (shift i es) m.tiles),
              );
              changes =
                  Changes-cons (make_block pid start duration) e (merge es (i + 1) e i 1)
                    (λ p. apart e pid differs (sym p ∙ take-short max_pid_chars pid ok.0)) m.starts
                    m.changes;
              starts = take-short max_pid_chars pid ok.0;
            })
    ]
  where
    shift : (n : ℕ) (xs : List (List ℕ)) → n + 1 + length xs ≡ n + suc (length xs)
    shift n xs = omega arith

    apart : (a b : List ℕ) → same_text a b ≡ false → a ≢ b
    apart a b h p = cc (h, sym (same_text_self b) ∙ ap (λ x. same_text x b) (sym p))

-- The blocks stand for the entries: one entry for each time unit of each block gives them back, the
-- blocks follow one another without a gap from 0 to the number of entries, none is empty, and
-- neighbours have different names.
pub record Stands (es : List (List ℕ)) (blocks : List Block) : Type 0 where
  pub expands : expand blocks ≡ es
  pub tiles : Tiles 0 (length es) blocks
  pub changes : Changes blocks

-- If every entry has at most 15 characters and no NUL, the blocks of the chart stand for the
-- entries: a block's name for each of its time units gives the entries back, the blocks follow one
-- another without a gap from 0 to the number of entries, none is empty, and neighbours have
-- different names.
pub blocks_of-Stands : (es : List (List ℕ)) → AllLabels es → Stands es (blocks_of es)
unfolding blocks_of merge
blocks_of-Stands [] all = record { expands = refl; tiles = refl; changes = tt }
blocks_of-Stands (e ∷ es) (is, all) =
    let m = merge-Merged es 1 e 0 1 all is refl (omega arith) in
    rw (same_text_self e, merge)
      (record {
        expands = m.expands;
        tiles = subst (λ n. Tiles 0 n (merge es 1 e 0 1)) (one_more es) m.tiles;
        changes = m.changes;
      })
  where
    one_more : (xs : List (List ℕ)) → 1 + length xs ≡ suc (length xs)
    one_more xs = omega arith
