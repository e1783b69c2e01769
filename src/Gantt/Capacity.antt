-- ===== src/Gantt/Capacity.antt =====
-- The arrays of src/core/gantt.c have room for what is written to them.
use cpu_scheduler_simulator.Base.{
  ℕ, zero, suc, ◌+◌, ◌*◌, ◌/◌, ◌≤◌, ◌||◌, List, [], ◌∷◌, arith, ◌==◌, length, Bool-cases, inl, inr,
}
use cpu_scheduler_simulator.Clib.{same_text}
use cpu_scheduler_simulator.Clib.Compare.{same_text_self}
use cpu_scheduler_simulator.Gantt.Render.{merge, blocks_of, every_tenth, group, chunks_of}

length-merge :
    (es : List (List ℕ)) (i : ℕ) (pid : List ℕ) (start duration : ℕ)
    → length (merge es i pid start duration) ≤ 1 + length es
unfolding merge
length-merge [] i pid start duration = omega arith
length-merge (e ∷ es) i pid start duration = elim (Bool-cases (same_text e pid)) [
  | inl same ↦ rw (same, merge) (omega (arith, length-merge es (i + 1) pid start (duration + 1)))
  | inr differs ↦ rw (differs, merge) (omega (arith, length-merge es (i + 1) e i 1))
]

length-blocks_of : (es : List (List ℕ)) → length (blocks_of es) ≤ length es
unfolding blocks_of merge
length-blocks_of [] = omega arith
length-blocks_of (e ∷ es) = rw (same_text_self e, merge) (omega (arith, length-merge es 1 e 0 1))

length-every_tenth :
    (wait i : ℕ) (es : List (List ℕ))
    → wait ≤ 9
    → 10 * length (every_tenth wait i es) + wait ≤ length es + 9
unfolding every_tenth
length-every_tenth wait i [] h = omega arith
length-every_tenth zero i (e ∷ es) h = omega (arith, length-every_tenth 9 (i + 1) es (omega arith))
length-every_tenth (suc wait) i (e ∷ es) h =
    omega (arith, length-every_tenth wait (i + 1) es (omega arith))

length-group :
    (chunks : List (ℕ × List ℕ)) (start width : ℕ) (pid : List ℕ)
    → length (group chunks start width pid) ≤ 1 + length chunks
unfolding group
length-group [] start width pid = omega arith
length-group ((i, e) ∷ chunks) start width pid = elim (Bool-cases ((i == 0) || same_text e pid)) [
  | inl same ↦ rw (same, group) (omega (arith, length-group chunks start (width + 1) pid))
  | inr differs ↦ rw (differs, group) (omega (arith, length-group chunks i 1 e))
]

length-chunks_of : (es : List (List ℕ)) → length (chunks_of es) ≤ length es / 10 + 2
unfolding chunks_of
length-chunks_of [] = omega arith
length-chunks_of (e ∷ es) = omega (
  arith,
  length-group (every_tenth 0 0 (e ∷ es)) 0 0 e,
  length-every_tenth 0 0 (e ∷ es) (omega arith),
)

-- For every list of entries, the chart has at most as many blocks as the array for them has room
-- for: `total_time` of them up to 50 time units, and `total_time / 10 + 2` above.
pub blocks_fit :
    (es : List (List ℕ))
    → (length (blocks_of es) ≤ length es) × (length (chunks_of es) ≤ length es / 10 + 2)
blocks_fit es = (length-blocks_of es, length-chunks_of es)
