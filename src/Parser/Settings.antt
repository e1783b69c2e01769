-- ===== src/Parser/Settings.antt =====
-- The configuration of the multi-level policy that src/core/parser.c leaves.
use cpu_scheduler_simulator.Base.{
  ℕ, ◌≤◌, ◌<◌, inl, inr, Option, none, some, List, [], ℤ, pos, arith, ltb, ◌==◌, if◌then◌else◌,
}
use cpu_scheduler_simulator.State.{MlfqConfig}
use cpu_scheduler_simulator.Clib.{◌>>=◌, fgets_lines}
use cpu_scheduler_simulator.Parser.{
  set_defaults, set_num_queues, read_config, parse_mlfq_config, max_mlfq_queues,
}
use cpu_scheduler_simulator.Parser.Numbers.{Positive}
use cpu_scheduler_simulator.Parser.Reading.{Set, Reading, HasBadLine, ReadOr, config_lines-Reading}

-- A configuration for the multi-level policy: 1 to 10 levels, each with a quantum and an allotment
-- that are positive `int`s, and a positive boost period.
pub record IsConfig (c : MlfqConfig) : Type 0 where
  pub some_queue : 1 ≤ c.num_queues
  pub queues_fit : c.num_queues ≤ max_mlfq_queues
  pub quantum_ok : (i : ℕ) → i < c.num_queues → Positive (c.quantums i)
  pub allotment_ok : (i : ℕ) → i < c.num_queues → Positive (c.allotments i)
  pub period_ok : Positive c.boost_period

defaults-Reading : (config : MlfqConfig) → Reading (set_defaults config, 0)
defaults-Reading config = record {
  fits = omega arith;
  quantum_ok = λ i h. default_ok i (config.quantums i) (below i h);
  allotment_ok = λ i h. default_ok i (config.allotments i) (below i h);
  period_ok = (omega arith, omega arith);
}
  where
    below : (i : ℕ) → Set 0 i → i < 3
    below i (inl h) = absurd (omega arith)
    below i (inr h) = h

    default_ok :
        (i : ℕ) (other : ℤ)
        → i < 3
        → Positive
            (if i == 0 then pos 2 else if i == 1 then pos 4 else if i == 2 then pos 8 else other)
    default_ok i other h = ground arith

defaults-IsConfig : (config : MlfqConfig) → IsConfig (set_defaults config)
defaults-IsConfig config =
    let r = defaults-Reading config in
    record {
      some_queue = omega arith;
      queues_fit = omega arith;
      quantum_ok = λ i h. r.quantum_ok i (inr h);
      allotment_ok = λ i h. r.allotment_ok i (inr h);
      period_ok = r.period_ok;
    }

read-IsConfig : (st : MlfqConfig × ℕ) → Reading st → IsConfig (set_num_queues st)
read-IsConfig st r = record {
  some_queue = ground arith;
  queues_fit = ground (arith, r.fits);
  quantum_ok = λ i h. r.quantum_ok i (covered i h);
  allotment_ok = λ i h. r.allotment_ok i (covered i h);
  period_ok = r.period_ok;
}
  where
    covered : (i : ℕ) → i < (if ltb 0 st.1 then st.1 else 3) → Set st.1 i
    covered i h = ground (arith, h)

-- The lines that the configuration is read from.
abbrev pub lines_of : Option (List ℕ) → List (List ℕ)
lines_of none = []
lines_of (some content) = fgets_lines content

abbrev pub source_lines : (List ℕ → Option (List ℕ)) → Option (List ℕ) → List (List ℕ)
source_lines files none = []
source_lines files (some config_str) = lines_of (files config_str)

abbrev pub ConfigOutcome : List (List ℕ) → Option MlfqConfig → Type 0
ConfigOutcome lines none = HasBadLine lines
ConfigOutcome lines (some c) = IsConfig c

outcome :
    (lines : List (List ℕ)) (o : Option (MlfqConfig × ℕ))
    → ReadOr (HasBadLine lines) o
    → ConfigOutcome lines (o >>= (λ st. some (set_num_queues st)))
outcome lines none bad = bad
outcome lines (some st) r = read-IsConfig st r

read_config-ConfigOutcome :
    (file : Option (List ℕ)) (config : MlfqConfig)
    → ConfigOutcome (lines_of file) (read_config file config)
unfolding read_config
read_config-ConfigOutcome none config = defaults-IsConfig config
read_config-ConfigOutcome (some content) config =
    outcome (fgets_lines content) _ (
      config_lines-Reading (fgets_lines content) (set_defaults config, 0) (defaults-Reading config))

-- `parse_mlfq_config`, whatever the file holds and whatever the configuration was: it exits only
-- if one of the two tokens behind the first one of a line is not the text of a value from 1 to
-- INT_MAX, one that strtol reads whole, and otherwise leaves 1 to 10 levels, each with a quantum and
-- an allotment of at least 1 that fit an `int`, and a boost period that is one.
pub parse_mlfq_config-ConfigOutcome :
    (files : List ℕ → Option (List ℕ)) (config_str : Option (List ℕ)) (config : MlfqConfig)
    → ConfigOutcome (source_lines files config_str) (parse_mlfq_config files config_str config)
unfolding parse_mlfq_config
parse_mlfq_config-ConfigOutcome files none config = defaults-IsConfig config
parse_mlfq_config-ConfigOutcome files (some config_str) config =
    read_config-ConfigOutcome (files config_str) config
