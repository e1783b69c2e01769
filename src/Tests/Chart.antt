-- ===== src/Tests/Chart.antt =====
-- The chart of src/core/gantt.c on concrete logs, and the theorems about it at concrete inputs.
use cpu_scheduler_simulator.Base.{
  ℕ, ◌/◌, ◌+◌, ◌≤◌, ◌≡◌, refl, none, some, List, [], ◌∷◌, ◌++◌, ◌-ℤ◌, length, arith,
}
use cpu_scheduler_simulator.Process.{init_process}
use cpu_scheduler_simulator.State.{SchedulerState}
use cpu_scheduler_simulator.Clib.{codes}
use cpu_scheduler_simulator.Gantt.Render.{
  render_log, split_gantt_log, blocks_of, chunks_of, render_blocks, render_chunks,
}
use cpu_scheduler_simulator.Gantt.Blocks.{Stands, blocks_of-Stands}
use cpu_scheduler_simulator.Gantt.Capacity.{blocks_fit}
use cpu_scheduler_simulator.Engine.{run_simulation, set_running}
use cpu_scheduler_simulator.Engine.View.{view}
use cpu_scheduler_simulator.Engine.Charted.{NamesFit, Charted, run_simulation-Charted}
use cpu_scheduler_simulator.Policy.Rr.{rr_policy}
use cpu_scheduler_simulator.Policy.RoundRobin.{rr_contract, rr_suits}
use cpu_scheduler_simulator.Tests.{start, start-Fresh, start-ArrivesBy}

short_chart :
    render_log (some (codes "A|A|-|B|B|B|B|B|B|B"))
    ≡ codes
        "\n=== Gantt Chart ===\n ------------ ------ ------------------------------------------ \n|     A      |  -   |                    B                     |\n ------------ ------ ------------------------------------------ \n0            2      3                                          10\n"
unfolding split_gantt_log render_blocks ◌-ℤ◌
short_chart = refl

abbrev log_60 : List ℕ
log_60 =
    codes "A|A|A|A|A|A|A|A|A|A|A|A|A|A|A|A|A|A|A|A|A|A|A|A|A|"
    ++ codes "P1|P1|P1|P1|P1|P1|P1|P1|P1|P1|P1|P1|P1|P1|P1|P1|P1|P1|"
    ++ codes "P1|P1|P1|P1|P1|P1|P1|P1|P1|P1|P1|P1|P1|P1|P1|P1|P1"

long_chart :
    render_log (some log_60)
    ≡ codes
        "\n=== Gantt Chart ===\nEach block = 10 time units (aggregated):\n[ A ][P1 ]\nTime: 0 30 60\n"
unfolding split_gantt_log render_chunks ◌-ℤ◌
long_chart = refl

abbrev entries : List (List ℕ)
entries = codes "A" ∷ codes "A" ∷ codes "-" ∷ codes "B" ∷ []

blocks_of-Stands_example : Stands entries (blocks_of entries)
blocks_of-Stands_example = blocks_of-Stands entries (
  (omega arith, (refl, tt)),
  ((omega arith, (refl, tt)), ((omega arith, (refl, tt)), ((omega arith, (refl, tt)), tt))),
)

blocks_fit_example :
    (length (blocks_of entries) ≤ length entries)
    × (length (chunks_of entries) ≤ length entries / 10 + 2)
blocks_fit_example = blocks_fit entries

start-NamesFit : NamesFit (view start)
unfolding init_process
start-NamesFit i h = ground arith

run_simulation-Charted_example :
    (t : SchedulerState) × (run_simulation 81 start rr_policy ≡ some t) × Charted (view start) t
unfolding init_process
run_simulation-Charted_example =
    run_simulation-Charted rr_contract 81 20 start start-Fresh (rr_suits (set_running start none))
      start-ArrivesBy (omega arith) refl start-NamesFit
