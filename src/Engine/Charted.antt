-- ===== src/Engine/Charted.antt =====
-- The log of a run of src/core/scheduler.c, as the chart of src/core/gantt.c reads it.
use cpu_scheduler_simulator.Base.{
  ℕ, ◌+◌, ◌<◌, ◌≡◌, refl, sym, ap, ◌∙◌, subst, none, some, List, [], ◌∷◌, ◌++◌, length,
  length-append, arith, inl, inr,
}
use mathlib.Core.List.{reverse, reverse-cons}
use cpu_scheduler_simulator.State.{SchedulerState, SchedulerPolicy}
use cpu_scheduler_simulator.Clib.Tokens.{Fields, join}
use cpu_scheduler_simulator.Gantt.{append_entry}
use cpu_scheduler_simulator.Gantt.Render.{is_bar, split_gantt_log}
use cpu_scheduler_simulator.Gantt.Split.{split_gantt_log-join, join-append_entry, Fields-append}
use cpu_scheduler_simulator.Engine.{run_simulation, set_running}
use cpu_scheduler_simulator.Engine.View.{View, view}
use cpu_scheduler_simulator.Engine.Contract.{PolicyContract}
use cpu_scheduler_simulator.Engine.Quiet.{SameLabels, work}
use cpu_scheduler_simulator.Engine.Unit.{ArrivesBy}
use cpu_scheduler_simulator.Engine.Total.{Fresh, run_simulation-Finished}
use cpu_scheduler_simulator.Engine.Log.{log_of, IsEntry}
use cpu_scheduler_simulator.Engine.Logged.{All, All-SameLabels, Logged, run_simulation-Logged}

-- The names of the processes can stand in the log: they are not empty, and hold no `|`.
abbrev pub NamesFit : View → Type 0
NamesFit v = (i : ℕ) → i < v.num_processes → Fields is_bar ((v.processes i).pid ∷ [])

entry-Fields : (v : View) (e : List ℕ) → NamesFit v → IsEntry v e → Fields is_bar (e ∷ [])
entry-Fields v e fit (inl p) = subst (λ x. Fields is_bar (x ∷ [])) (sym p) ((refl, tt), tt)
entry-Fields v e fit (inr (i, h, p)) = subst (λ x. Fields is_bar (x ∷ [])) (sym p) (fit i h)

All-append : (v : View) (xs ys : List (List ℕ)) → All v xs → All v ys → All v (xs ++ ys)
All-append v [] ys a b = b
All-append v (x ∷ xs) ys (h, a) b = (h, All-append v xs ys a b)

-- The log of entries, newest first, is the text of the entries in the order of time.
record InOrder (v : View) (entries ordered : List (List ℕ)) : Type 0 where
  fields : Fields is_bar ordered
  text : log_of entries ≡ join b'|' ordered
  entry_each : All v ordered
  as_many : length ordered ≡ length entries

entries-InOrder :
    (v : View) (entries : List (List ℕ))
    → NamesFit v
    → All v entries
    → InOrder v entries (reverse entries)
entries-InOrder v [] fit all = record { fields = tt; text = refl; entry_each = tt; as_many = refl }
entries-InOrder v (e ∷ earlier) fit (h, all) =
    let before = entries-InOrder v earlier fit all in
    subst (InOrder v (e ∷ earlier)) (sym (reverse-cons e earlier)) (record {
      fields = Fields-append (reverse earlier) (e ∷ []) before.fields (entry-Fields v e fit h);
      text =
          ap (λ log. append_entry log e) before.text
          ∙ sym (join-append_entry (reverse earlier) e before.fields);
      entry_each = All-append v (reverse earlier) (e ∷ []) before.entry_each (h, tt);
      as_many = omega (arith, length-append (reverse earlier) (e ∷ []), before.as_many);
    })

-- What the chart reads from the log: one entry for each time unit that passed, each the mark of an
-- idle CPU or the name of a process of `v`.
abbrev pub Charted : View → SchedulerState → Type 0
Charted v t =
    (log : List ℕ) × (t.gantt_log ≡ some log)
    × (length (split_gantt_log log) ≡ t.current_time)
    × All v (split_gantt_log log)

Logged-Charted :
    (v : View) (t : SchedulerState)
    → SameLabels v (view t)
    → NamesFit v
    → Logged (view t)
    → Charted v t
Logged-Charted v t l fit (entries, len, same, all) =
    let all_v = All-SameLabels (view t) v entries l all in
    let o = entries-InOrder v entries fit all_v in
    let split = ap split_gantt_log o.text ∙ split_gantt_log-join (reverse entries) o.fields in
    (
      log_of entries,
      same,
      ap length split ∙ o.as_many ∙ len,
      subst (All v) (sym split) o.entry_each,
    )

some-inj : {x y : SchedulerState} → some x ≡ some y → x ≡ y
some-inj p = cc p

module _ {policy : SchedulerPolicy} (K : PolicyContract policy) where
  -- From a fresh state with an empty log, under any policy that keeps its contract, with more fuel
  -- than the work and the last arrival take, and with names that are not empty and hold no `|`: the
  -- run returns a state whose log is taken apart for the chart into one entry for each time unit
  -- that passed, each of them the mark of an idle CPU or a process's name.
  pub run_simulation-Charted :
      (fuel latest : ℕ) (s : SchedulerState)
      → Fresh s
      → K.Suits (set_running s none)
      → ArrivesBy latest (view s)
      → work (view s) + latest < fuel
      → s.gantt_log ≡ some []
      → NamesFit (view s)
      → (t : SchedulerState) × (run_simulation fuel s policy ≡ some t) × Charted (view s) t
  run_simulation-Charted fuel latest s f suits by lt empty fit =
      let (t, run, logged) = run_simulation-Logged K fuel latest s f suits by lt empty in
      let (u, run', finished) = run_simulation-Finished K fuel latest s f suits by lt in
      (
        t,
        run,
        Logged-Charted (view s) t
            (subst (λ w. SameLabels (view s) (view w)) (some-inj (sym run' ∙ run)) finished.labels)
            fit logged,
      )
