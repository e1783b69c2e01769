-- ===== src/Policy/Orders.antt =====
-- The three tests by which a process takes the place of the best so far, in src/algorithms/fcfs.c,
-- sjf.c and stcf.c, as orders.
use cpu_scheduler_simulator.Base.{
  ℕ, ◌≡◌, Bool, true, false, List, [], ◌∷◌, pos, ltb_ℤ, arith, -ℤ_parts,
}
use cpu_scheduler_simulator.Process.{Process}
use cpu_scheduler_simulator.Clib.{strcmp}
use cpu_scheduler_simulator.Clib.Compare.{strcmp_self}
use cpu_scheduler_simulator.Policy.Fcfs.{fcfs_before}
use cpu_scheduler_simulator.Policy.Sjf.{sjf_before}
use cpu_scheduler_simulator.Policy.Stcf.{stcf_before}

-- The first text stands before the second one.
abbrev pub text_before : List ℕ → List ℕ → Bool
text_before a b = ltb_ℤ (strcmp a b) (pos 0)

pub text_before_trans :
    (a b c : List ℕ) → text_before a b ≡ true → text_before b c ≡ true → text_before a c ≡ true
unfolding strcmp
text_before_trans [] [] c p q = q
text_before_trans [] (y ∷ b) [] p q = ground (arith, -ℤ_parts (pos y) (pos 0))
text_before_trans [] (y ∷ b) (z ∷ c) p q =
    ground (arith, -ℤ_parts (pos 0) (pos y), -ℤ_parts (pos 0) (pos z), -ℤ_parts (pos y) (pos z))
text_before_trans (x ∷ a) [] c p q = ground (arith)
text_before_trans (x ∷ a) (y ∷ b) [] p q = ground (arith)
text_before_trans (x ∷ a) (y ∷ b) (z ∷ c) p q = ground (
  arith,
  text_before_trans a b c,
  -ℤ_parts (pos x) (pos y),
  -ℤ_parts (pos y) (pos z),
  -ℤ_parts (pos x) (pos z),
)

module _ (p q r : Process) where
  pub fcfs_before_trans : fcfs_before p q ≡ true → fcfs_before q r ≡ true → fcfs_before p r ≡ true
  fcfs_before_trans h k = ground arith

  pub sjf_before_trans : sjf_before p q ≡ true → sjf_before q r ≡ true → sjf_before p r ≡ true
  sjf_before_trans h k = ground (arith, text_before_trans p.pid q.pid r.pid)

  pub stcf_before_trans : stcf_before p q ≡ true → stcf_before q r ≡ true → stcf_before p r ≡ true
  stcf_before_trans h k = ground (arith, text_before_trans p.pid q.pid r.pid)

pub fcfs_before_irrefl : (p : Process) → fcfs_before p p ≡ false
fcfs_before_irrefl p = ground arith

pub sjf_before_irrefl : (p : Process) → sjf_before p p ≡ false
sjf_before_irrefl p = ground (arith, strcmp_self p.pid)

pub stcf_before_irrefl : (p : Process) → stcf_before p p ≡ false
stcf_before_irrefl p = ground (arith, strcmp_self p.pid)
