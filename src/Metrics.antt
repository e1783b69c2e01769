-- ===== src/Metrics.antt =====
-- src/core/metrics.c: the metrics recomputed from the times, and the table's averages and warning.
-- What the table prints is the value of `print_metrics_table`.
pub mod Table
use cpu_scheduler_simulator.Base.{
  ℕ, zero, suc, ◌+◌, ◌&&◌, Bool, Option, none, some, ℤ, pos, negsuc, ◌+ℤ◌, ◌-ℤ◌, ◌/◌, ltb_ℤ,
  if◌then◌else◌, modify, wrap_int,
}
use cpu_scheduler_simulator.Process.{Process}

-- The body of the loop of `calculate_metrics`.
abbrev pub measure_process : Process → Process
measure_process p =
    let turnaround = p.finish_time -ℤ p.arrival_time in
    record p {
      turnaround_time = turnaround;
      waiting_time = turnaround -ℤ p.burst_time;
      response_time = p.start_time -ℤ p.arrival_time;
    }

unfoldable pub calculate_metrics : (ℕ → Process) → ℕ → ℕ → Process
calculate_metrics processes zero = processes
calculate_metrics processes (suc n) = modify (calculate_metrics processes n) n measure_process

-- A field summed in an `int` over the first `n` processes, from the first one on.
unfoldable pub total : (Process → ℤ) → (ℕ → Process) → ℕ → ℤ
unfolding wrap_int
total field procs zero = pos 0
total field procs (suc n) = wrap_int (total field procs n +ℤ field (procs n))

-- The division of `int`s by a count that is not 0: towards zero.
abbrev pub div_int : ℤ → ℕ → ℤ
div_int (pos a) n = pos (a / n)
div_int (negsuc a) n = pos 0 -ℤ pos (suc a / n)

-- `p->waiting_time > 100 && p->waiting_time > p->burst_time`
abbrev pub is_convoy : Process → Bool
is_convoy p = ltb_ℤ (pos 100) p.waiting_time && ltb_ℤ p.burst_time p.waiting_time

-- The loop that warns: `rounds` processes are left, from index `i` on.
unfoldable pub find_convoy : ℕ → ℕ → (ℕ → Process) → Option ℕ
find_convoy zero i procs = none
find_convoy (suc rounds) i procs =
    let later = find_convoy rounds (i + 1) procs in if is_convoy (procs i) then some i else later

-- The last row of the table and the process that the warning names, if there is one.
pub record MetricsTable : Type 0 where
  pub avg_tt : ℤ
  pub avg_wt : ℤ
  pub avg_rt : ℤ
  pub convoy : Option ℕ

unfoldable pub print_metrics_table : (ℕ → Process) → ℕ → Option MetricsTable
unfolding total find_convoy
print_metrics_table procs zero = none
print_metrics_table procs (suc n) = some (record {
  avg_tt = div_int (total (λ p. p.turnaround_time) procs (suc n)) (suc n);
  avg_wt = div_int (total (λ p. p.waiting_time) procs (suc n)) (suc n);
  avg_rt = div_int (total (λ p. p.response_time) procs (suc n)) (suc n);
  convoy = find_convoy (suc n) 0 procs;
})
