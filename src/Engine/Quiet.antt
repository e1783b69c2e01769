-- ===== src/Engine/Quiet.antt =====
-- What the stages of src/core/scheduler.c that do no work leave alone: names, times and work left.
use cpu_scheduler_simulator.Base.{
  ℕ, ◌+◌, ◌≡◌, ◌-◌, refl, ap, ◌∙◌, List, ℤ, pos_part, sum_to, sum_to_ext,
}
use cpu_scheduler_simulator.Process.{Process}
use cpu_scheduler_simulator.Engine.View.{View}
use cpu_scheduler_simulator.Engine.Sound.{finished_bit}

pub record Stamp : Type 0 where
  pub pid : List ℕ
  pub arrival_time : ℤ
  pub burst_time : ℤ
  pub remaining_time : ℤ
  pub done : ℕ

abbrev pub stamp : Process → Stamp
stamp p = record {
  pid = p.pid;
  arrival_time = p.arrival_time;
  burst_time = p.burst_time;
  remaining_time = p.remaining_time;
  done = finished_bit p.state;
}

pub record Quiet (v w : View) : Type 0 where
  pub num_same : w.num_processes ≡ v.num_processes
  pub time_same : w.current_time ≡ v.current_time
  pub stamp_same : (i : ℕ) → stamp (w.processes i) ≡ stamp (v.processes i)

pub Quiet-refl : (v : View) → Quiet v v
Quiet-refl v = record { num_same = refl; time_same = refl; stamp_same = λ i. refl }

pub Quiet-trans : (u v w : View) → Quiet u v → Quiet v w → Quiet u w
Quiet-trans u v w p q = record {
  num_same = q.num_same ∙ p.num_same;
  time_same = q.time_same ∙ p.time_same;
  stamp_same = λ i. q.stamp_same i ∙ p.stamp_same i;
}

pub Quiet-eq : (v w : View) → w ≡ v → Quiet v w
Quiet-eq v w e = record {
  num_same = ap (λ u. u.num_processes) e;
  time_same = ap (λ u. u.current_time) e;
  stamp_same = λ i. ap (λ u. stamp (u.processes i)) e;
}

-- The work that a process still needs, one unit of it being its completion.
abbrev pub weight : Stamp → ℕ
weight p = pos_part p.remaining_time + 1 - p.done

abbrev pub work : View → ℕ
work v = sum_to v.num_processes (λ i. weight (stamp (v.processes i)))

pub Quiet-work : (v w : View) → Quiet v w → work w ≡ work v
Quiet-work v w q =
    ap (λ n. sum_to n (λ i. weight (stamp (w.processes i)))) q.num_same
    ∙ sum_to_ext v.num_processes _ _ (λ i h. ap weight (q.stamp_same i))

-- What never changes of a process.
pub record Label : Type 0 where
  pub pid : List ℕ
  pub arrival_time : ℤ
  pub burst_time : ℤ

abbrev pub label : Process → Label
label p = record { pid = p.pid; arrival_time = p.arrival_time; burst_time = p.burst_time }

pub record SameLabels (v w : View) : Type 0 where
  pub num_same : w.num_processes ≡ v.num_processes
  pub label_same : (i : ℕ) → label (w.processes i) ≡ label (v.processes i)

pub SameLabels-refl : (v : View) → SameLabels v v
SameLabels-refl v = record { num_same = refl; label_same = λ i. refl }

pub SameLabels-trans : (u v w : View) → SameLabels u v → SameLabels v w → SameLabels u w
SameLabels-trans u v w p q = record {
  num_same = q.num_same ∙ p.num_same;
  label_same = λ i. q.label_same i ∙ p.label_same i;
}

stamp_label : Stamp → Label
stamp_label st = record { pid = st.pid; arrival_time = st.arrival_time; burst_time = st.burst_time }

pub Quiet-SameLabels : (v w : View) → Quiet v w → SameLabels v w
unfolding stamp_label
Quiet-SameLabels v w q = record {
  num_same = q.num_same;
  label_same = λ i. ap stamp_label (q.stamp_same i);
}
