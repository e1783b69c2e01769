-- ===== src/Policy/Scanning.antt =====
-- The engine's contract for src/algorithms/fcfs.c, sjf.c and stcf.c, which keep no structure.
use cpu_scheduler_simulator.Base.{
  ℕ, ◌≡◌, refl, Bool, true, false, Option, none, some, if◌then◌else◌,
}
use cpu_scheduler_simulator.Process.{Process}
use cpu_scheduler_simulator.State.{SchedulerState}
use cpu_scheduler_simulator.Engine.{
  arrive, handle_tick, call_next_process, call_hook, call_finish, set_preempt,
}
use cpu_scheduler_simulator.Engine.View.{view}
use cpu_scheduler_simulator.Engine.Contract.{PolicyContract, Picks}
use cpu_scheduler_simulator.Policy.Choice.{Chosen, scan-Chosen}
use cpu_scheduler_simulator.Policy.Fcfs.{fcfs_before, fcfs_next_process, fcfs_policy}
use cpu_scheduler_simulator.Policy.Sjf.{sjf_before, sjf_next_process, sjf_policy}
use cpu_scheduler_simulator.Policy.Stcf.{
  stcf_before, stcf_next_process, stcf_arrival, stcf_on_arrival, stcf_policy,
}
use cpu_scheduler_simulator.Policy.Orders.{
  fcfs_before_irrefl, fcfs_before_trans, sjf_before_irrefl, sjf_before_trans, stcf_before_irrefl,
  stcf_before_trans,
}

abbrev NoTrack : SchedulerState → Type 0
NoTrack s = Unit {0}

Chosen-Picks :
    (better : Process → Process → Bool) (s : SchedulerState) (o : Option ℕ)
    → Chosen better s.processes s.num_processes o
    → Picks NoTrack s (o, s)
Chosen-Picks better s none h = (h, tt)
Chosen-Picks better s (some k) h = (h.0, h.1, tt)

fcfs-Picks : (s : SchedulerState) → Picks NoTrack s (fcfs_next_process s)
unfolding fcfs_next_process
fcfs-Picks s =
    Chosen-Picks fcfs_before s _
      (scan-Chosen fcfs_before fcfs_before_irrefl fcfs_before_trans s.processes s.num_processes)

sjf-Picks : (s : SchedulerState) → Picks NoTrack s (sjf_next_process s)
unfolding sjf_next_process
sjf-Picks s =
    Chosen-Picks sjf_before s _
      (scan-Chosen sjf_before sjf_before_irrefl sjf_before_trans s.processes s.num_processes)

stcf-Picks : (s : SchedulerState) → Picks NoTrack s (stcf_next_process s)
unfolding stcf_next_process
stcf-Picks s =
    Chosen-Picks stcf_before s _
      (scan-Chosen stcf_before stcf_before_irrefl stcf_before_trans s.processes s.num_processes)

pub fcfs_contract : PolicyContract fcfs_policy
unfolding call_hook call_finish handle_tick call_next_process fcfs_next_process arrive
fcfs_contract = record {
  Suits = λ s. Unit {0};
  Tracks = NoTrack;
  Calm = λ s. s.preempt_requested ≡ false;
  stable = λ s t h k. tt;
  calm_start = λ s h. h;
  init_view = λ s. refl;
  init_preempt = λ s. refl;
  init_tracks = λ s h k. tt;
  arrive_view = λ s i. refl;
  arrive_calm = λ s i h. h;
  arrive_tracks = λ s i h k l. tt;
  tick_view = λ s r a b c d e. refl;
  tick_keeps = λ s r a b c d e f. tt;
  tick_yields = λ s r a b c d e f. tt;
  next_view = λ s. refl;
  next_picks = λ s t. fcfs-Picks s;
  finish = λ fuel s some_fuel tracked over. (s, refl, refl);
}

pub sjf_contract : PolicyContract sjf_policy
unfolding call_hook call_finish handle_tick call_next_process sjf_next_process arrive
sjf_contract = record {
  Suits = λ s. Unit {0};
  Tracks = NoTrack;
  Calm = λ s. s.preempt_requested ≡ false;
  stable = λ s t h k. tt;
  calm_start = λ s h. h;
  init_view = λ s. refl;
  init_preempt = λ s. refl;
  init_tracks = λ s h k. tt;
  arrive_view = λ s i. refl;
  arrive_calm = λ s i h. h;
  arrive_tracks = λ s i h k l. tt;
  tick_view = λ s r a b c d e. refl;
  tick_keeps = λ s r a b c d e f. tt;
  tick_yields = λ s r a b c d e f. tt;
  next_view = λ s. refl;
  next_picks = λ s t. sjf-Picks s;
  finish = λ fuel s some_fuel tracked over. (s, refl, refl);
}

preempt_if-view :
    (s : SchedulerState) (b : Bool) → view (if b then set_preempt s true else s) ≡ view s
preempt_if-view s true = refl
preempt_if-view s false = refl

stcf_arrival-view :
    (s : SchedulerState) (i : ℕ) (run : Option ℕ) → view (stcf_arrival s i run) ≡ view s
unfolding stcf_arrival
stcf_arrival-view s i none = refl
stcf_arrival-view s i (some r) = preempt_if-view s _

stcf_on_arrival-view : (s : SchedulerState) (i : ℕ) → view (stcf_on_arrival s i) ≡ view s
unfolding stcf_on_arrival
stcf_on_arrival-view s i = stcf_arrival-view s i s.running_process

pub stcf_contract : PolicyContract stcf_policy
unfolding call_hook call_finish handle_tick call_next_process stcf_next_process
stcf_contract = record {
  Suits = λ s. Unit {0};
  Tracks = NoTrack;
  Calm = λ s. Unit {0};
  stable = λ s t h k. tt;
  calm_start = λ s h. tt;
  init_view = λ s. refl;
  init_preempt = λ s. refl;
  init_tracks = λ s h k. tt;
  arrive_view = λ s i. stcf_on_arrival-view s i;
  arrive_calm = λ s i h. tt;
  arrive_tracks = λ s i h k l. tt;
  tick_view = λ s r a b c d e. refl;
  tick_keeps = λ s r a b c d e f. tt;
  tick_yields = λ s r a b c d e f. tt;
  next_view = λ s. refl;
  next_picks = λ s t. stcf-Picks s;
  finish = λ fuel s some_fuel tracked over. (s, refl, refl);
}

-- Any state suits them.
pub fcfs_suits : (s : SchedulerState) → fcfs_contract.Suits s
unfolding fcfs_contract
fcfs_suits s = tt

pub sjf_suits : (s : SchedulerState) → sjf_contract.Suits s
unfolding sjf_contract
sjf_suits s = tt

pub stcf_suits : (s : SchedulerState) → stcf_contract.Suits s
unfolding stcf_contract
stcf_suits s = tt
