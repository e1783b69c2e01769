-- ===== src/Tests/Stages.antt =====
-- The theorems about the engine at concrete inputs.
use cpu_scheduler_simulator.Base.{ℕ, ◌+◌, ◌≡◌, ◌↔◌, sym, ◌∙◌, none, some, pos, arith, ◌<ℤ◌}
use cpu_scheduler_simulator.Process.{init_process, not_arrived}
use cpu_scheduler_simulator.State.{SchedulerState}
use cpu_scheduler_simulator.Engine.{
  set_running, call_hook, step_simulation, run_simulation, handle_arrivals, handle_dispatch,
}
use cpu_scheduler_simulator.Engine.View.{view}
use cpu_scheduler_simulator.Engine.Quiet.{work}
use cpu_scheduler_simulator.Engine.Unit.{Inv, ArrivesBy, Advanced}
use cpu_scheduler_simulator.Engine.Step.{Arrived, handle_arrivals-Arrived}
use cpu_scheduler_simulator.Engine.Dispatch.{Dispatched}
use cpu_scheduler_simulator.Engine.Redispatch.{handle_dispatch-Dispatched}
use cpu_scheduler_simulator.Engine.Run.{step_simulation-Advanced}
use cpu_scheduler_simulator.Engine.Total.{Fresh-Inv, Finished, run_simulation-Finished}
use cpu_scheduler_simulator.Engine.Startup.{ByArrival, handle_arrivals_complete}
use cpu_scheduler_simulator.Policy.Rr.{rr_policy, rr_on_init}
use cpu_scheduler_simulator.Policy.RoundRobin.{rr_contract, rr_suits}
use cpu_scheduler_simulator.Tests.{start, start-Fresh, start-ArrivesBy}

run_simulation-Finished_example :
    (t : SchedulerState) × (run_simulation 81 start rr_policy ≡ some t)
    × Finished (work (view start) + 20) start t
unfolding init_process
run_simulation-Finished_example =
    run_simulation-Finished rr_contract 81 20 start start-Fresh (rr_suits (set_running start none))
      start-ArrivesBy (omega arith)

-- The state in which the loop starts.
abbrev booted : SchedulerState
booted = call_hook rr_policy.on_init (set_running start none)

booted-Inv : Inv rr_policy rr_contract booted 0
booted-Inv = Fresh-Inv rr_contract start start-Fresh (rr_suits (set_running start none))

booted-ArrivesBy : ArrivesBy 20 (view booted)
unfolding call_hook rr_on_init init_process
booted-ArrivesBy i h = ground arith

step_simulation-Advanced_example :
    Advanced rr_policy rr_contract 20 booted (step_simulation booted rr_policy 0)
unfolding call_hook rr_on_init
step_simulation-Advanced_example =
    step_simulation-Advanced rr_contract 20 booted 0 booted-Inv (omega arith) booted-ArrivesBy

booted-ByArrival : ByArrival booted
unfolding call_hook rr_on_init init_process
booted-ByArrival i j le lt = ground arith

handle_arrivals_complete_example :
    ((handle_arrivals booted rr_policy).processes 1).state ≡ not_arrived
    ↔ pos booted.current_time <ℤ (booted.processes 1).arrival_time
unfolding call_hook rr_on_init
handle_arrivals_complete_example =
    handle_arrivals_complete rr_contract booted 0 booted-Inv booted-ByArrival 1 (omega arith)

-- The first process is in the ready queue.
abbrev arrived : SchedulerState
arrived = handle_arrivals booted rr_policy

arrived-Arrived : Arrived rr_policy rr_contract (view booted) 0 arrived
arrived-Arrived =
    handle_arrivals-Arrived rr_contract booted 0 booted-Inv.sound booted-Inv.tracks booted-Inv.calm

arrived-idle : arrived.running_process ≡ none
unfolding call_hook rr_on_init
arrived-idle = arrived-Arrived.run_same

some≢none : (r : ℕ) → some r ≡ none → ⊥
some≢none r e = cc

handle_dispatch-Dispatched_example :
    Dispatched rr_policy rr_contract (view arrived) 0 (handle_dispatch arrived rr_policy)
handle_dispatch-Dispatched_example =
    handle_dispatch-Dispatched rr_contract arrived 0 arrived-Arrived.sound
      (λ e. arrived-Arrived.tracks) (λ e. arrived-Arrived.tracks)
      (λ r run e. absurd (some≢none r (sym run ∙ arrived-idle)))
