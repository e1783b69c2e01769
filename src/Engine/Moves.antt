-- ===== src/Engine/Moves.antt =====
-- The moves of a process between its states in src/core/process.c and src/core/scheduler.c: the
-- process that moves, and every other.
use cpu_scheduler_simulator.Base.{
  ℕ, ◌+◌, ◌≤◌, ◌≡◌, ◌≢◌, Option, none, some, pos, neg_part, ◌≤ℤ◌, -ℤ_parts, arith,
}
use cpu_scheduler_simulator.Process.{
  Process, not_arrived, ready, running, process_start, process_tick, process_finish,
}
use cpu_scheduler_simulator.Engine.{mark_ready}
use cpu_scheduler_simulator.Engine.Contract.{mark_running}
use cpu_scheduler_simulator.Engine.Sound.{Good, runs}

-- The process on the CPU has no work left and leaves.
pub finish-Good :
    (t idx r : ℕ) (p : Process)
    → p.remaining_time ≡ pos 0
    → p.state ≡ running
    → Good t idx (some r) r p
    → Good t idx none r (process_finish t p)
unfolding process_finish
finish-Good t idx r p e st g = ground arith

-- What is on the CPU matters only to the process that it is.
pub rerun-Good :
    (t idx : ℕ) (run run' : Option ℕ) (i : ℕ) (p : Process)
    → runs run i ≡ runs run' i
    → Good t idx run i p
    → Good t idx run' i p
rerun-Good t idx run run' i p e g = ground arith

pub later-Good :
    (t u idx : ℕ) (run : Option ℕ) (i : ℕ) (p : Process)
    → t ≤ u
    → Good t idx run i p
    → Good u idx run i p
later-Good t u idx run i p h g = ground arith

pub arrive-Good :
    (t : ℕ) (run : Option ℕ) (i : ℕ) (p : Process)
    → p.state ≡ not_arrived
    → p.arrival_time ≤ℤ pos t
    → Good t i run i p
    → Good t (i + 1) run i (mark_ready p)
arrive-Good t run i p st h g = ground arith

pub other_arrive-Good :
    (t idx : ℕ) (run : Option ℕ) (i : ℕ) (p : Process)
    → i ≢ idx
    → Good t idx run i p
    → Good t (idx + 1) run i p
other_arrive-Good t idx run i p ne g = ground arith

-- The process on the CPU goes back to the ready ones.
pub yield-Good :
    (t idx r : ℕ) (p : Process)
    → Good t idx (some r) r p
    → p.state ≡ running
    → Good t idx none r (mark_ready p)
yield-Good t idx r p g st = ground arith

pub start-Good :
    (t idx i : ℕ) (p : Process)
    → p.state ≡ ready
    → Good t idx none i p
    → Good t idx (some i) i (process_start t p)
unfolding process_start
start-Good t idx i p st g = ground arith

-- A process that has been on the CPU before goes on where it was.
pub process_start-again :
    (t : ℕ) (p : Process) → neg_part p.start_time ≡ 0 → process_start t p ≡ mark_running p
unfolding process_start
process_start-again t p h = ground arith

pub running-has_start :
    (t idx : ℕ) (run : Option ℕ) (i : ℕ) (p : Process)
    → Good t idx run i p
    → p.state ≡ running
    → neg_part p.start_time ≡ 0
running-has_start t idx run i p g st = ground arith

pub tick-Good :
    (t idx r : ℕ) (p : Process)
    → p.state ≡ running
    → p.remaining_time ≢ pos 0
    → Good t idx (some r) r p
    → Good (t + 1) idx (some r) r (process_tick p)
unfolding process_tick
tick-Good t idx r p st ne g = ground (arith, -ℤ_parts p.remaining_time (pos 1))

pub running-state : (t idx r : ℕ) (p : Process) → Good t idx (some r) r p → p.state ≡ running
running-state t idx r p g = ground arith

-- Only a process on the CPU is in the state `running`.
pub state-running :
    (t idx : ℕ) (run : Option ℕ) (i : ℕ) (p : Process)
    → Good t idx run i p
    → p.state ≡ running
    → run ≡ some i
state-running t idx run i p g st = ground arith
