-- ===== src/Parser.antt =====
-- src/core/parser.c: the command line and the configuration of the multi-level policy. What
-- `getopt_long` returns call after call is the list of options; `exit(1)` and a return of 1 are
-- `none`.
pub mod Numbers
pub mod Options
pub mod Reading
pub mod Settings
use cpu_scheduler_simulator.Base.{
  ℕ, zero, suc, ◌+◌, Bool, true, false, ◌&&◌, ◌||◌, not, Option, none, some, List, [], ◌∷◌, ℤ, pos,
  ltb, ltb_ℤ, leb_ℤ, ◌==◌, if◌then◌else◌, modify, take,
}
use cpu_scheduler_simulator.State.{MlfqConfig}
use cpu_scheduler_simulator.Workload.{is_skipped}
use cpu_scheduler_simulator.Clib.{
  codes, StrtolResult, strtol, strtok, fgets_lines, same_text, strcmp, int_max, ◌>>=◌,
}

abbrev pub is_empty_text : List ℕ → Bool
is_empty_text [] = true
is_empty_text (c ∷ s) = false

-- The five reasons for which a number is refused.
abbrev pub is_refused : StrtolResult → Bool
is_refused r =
    r.out_of_range
    || (not r.converted
        || (not (is_empty_text r.end_text)
            || (leb_ℤ r.value (pos 0) || ltb_ℤ (pos int_max) r.value)))

unfoldable pub read_positive : List ℕ → Option ℤ
unfolding strtol
read_positive s = let r = strtol s in if is_refused r then none else some r.value

pub record Args : Type 0 where
  pub algorithm : List ℕ
  pub processes_str : Option (List ℕ)
  pub input_file : Option (List ℕ)
  pub mlfq_config : Option (List ℕ)
  pub quantum : ℤ
  pub compare_mode : Bool

-- The option and its `optarg`; `unknown` is any other value, such as `'?'`.
pub data Opt : Type 0 where
  opt_algorithm opt_processes opt_input opt_quantum opt_mlfq_config : List ℕ → Opt
  opt_compare unknown : Opt

-- `memset(args, 0, sizeof(*args))`
abbrev pub no_args : Args
no_args = record {
  algorithm = [];
  processes_str = none;
  input_file = none;
  mlfq_config = none;
  quantum = pos 0;
  compare_mode = false;
}

-- The switch. `strncpy` keeps 15 characters.
unfoldable pub parse_option : Opt → Args → Option Args
unfolding read_positive
parse_option (opt_algorithm optarg) args = some (record args { algorithm = take 15 optarg })
parse_option (opt_processes optarg) args = some (record args { processes_str = some optarg })
parse_option (opt_input optarg) args = some (record args { input_file = some optarg })
parse_option (opt_quantum optarg) args = do
  val ← read_positive optarg
  some (record args { quantum = val })
parse_option opt_compare args = some (record args { compare_mode = true })
parse_option (opt_mlfq_config optarg) args = some (record args { mlfq_config = some optarg })
parse_option unknown args = none

unfoldable pub parse_options : List Opt → Args → Option Args
unfolding parse_option
parse_options [] args = some args
parse_options (o ∷ opts) args = parse_option o args >>= parse_options opts

unfoldable pub parse_args : List Opt → Option Args
unfolding parse_options
parse_args opts = parse_options opts no_args

abbrev pub max_mlfq_queues : ℕ
max_mlfq_queues = 10

-- The delimiters " \t\n\r".
abbrev pub is_blank : ℕ → Bool
is_blank c = c == b' ' || (c == b'\t' || (c == b'\n' || c == b'\r'))

-- The default values; the entries from index 3 on stay what they were.
abbrev pub set_defaults : MlfqConfig → MlfqConfig
set_defaults config = record {
  num_queues = 3;
  quantums = λ i.
      if i == 0
      then pos 2
      else if i == 1
      then pos 4
      else if i == 2
      then pos 8
      else config.quantums i;
  allotments = λ i.
      if i == 0
      then pos 2
      else if i == 1
      then pos 4
      else if i == 2
      then pos 8
      else config.allotments i;
  boost_period = pos 50;
}

-- `strncmp(token, "Q", 1) == 0`
abbrev pub starts_with_q : List ℕ → Bool
starts_with_q [] = false
starts_with_q (c ∷ s) = c == b'Q'

-- The configuration and `queue_idx`, changed by the tokens behind "Q".
unfoldable pub queue_line : List (List ℕ) → MlfqConfig × ℕ → Option (MlfqConfig × ℕ)
unfolding read_positive
queue_line (quantum_tok ∷ allot_tok ∷ more) (config, queue_idx) = do
  quantum ← read_positive quantum_tok
  allotment ← read_positive allot_tok
  some (
    record config {
      quantums = modify config.quantums queue_idx (λ _. quantum);
      allotments = modify config.allotments queue_idx (λ _. allotment);
    },
    queue_idx + 1,
  )
queue_line _ st = some st

unfoldable pub boost_line : List (List ℕ) → MlfqConfig × ℕ → Option (MlfqConfig × ℕ)
unfolding read_positive
boost_line [] st = some st
boost_line (boost_tok ∷ more) (config, queue_idx) = do
  period ← read_positive boost_tok
  some (record config { boost_period = period }, queue_idx)

unfoldable pub config_tokens : List (List ℕ) → MlfqConfig × ℕ → Option (MlfqConfig × ℕ)
unfolding queue_line boost_line strcmp
config_tokens [] st = some st
config_tokens (token ∷ more) st =
    if starts_with_q token && ltb st.1 max_mlfq_queues
    then queue_line more st
    else if same_text token (codes "BOOST_PERIOD")
    then boost_line more st
    else some st

unfoldable pub config_line : List ℕ → MlfqConfig × ℕ → Option (MlfqConfig × ℕ)
unfolding config_tokens strtok
config_line line st = if is_skipped line then some st else config_tokens (strtok is_blank line) st

unfoldable pub config_lines : List (List ℕ) → MlfqConfig × ℕ → Option (MlfqConfig × ℕ)
unfolding config_line
config_lines [] st = some st
config_lines (line ∷ lines) st = config_line line st >>= config_lines lines

-- `config->num_queues = queue_idx > 0 ? queue_idx : 3`
abbrev pub set_num_queues : MlfqConfig × ℕ → MlfqConfig
set_num_queues (config, queue_idx) = record config {
  num_queues = if ltb 0 queue_idx then queue_idx else 3;
}

-- What is done with the file, `none` if it cannot be opened.
unfoldable pub read_config : Option (List ℕ) → MlfqConfig → Option MlfqConfig
unfolding config_lines fgets_lines
read_config none config = some (set_defaults config)
read_config (some content) config = do
  st ← config_lines (fgets_lines content) (set_defaults config, 0)
  some (set_num_queues st)

-- `config_str` is the name of a file.
unfoldable pub parse_mlfq_config :
    (List ℕ → Option (List ℕ)) → Option (List ℕ) → MlfqConfig → Option MlfqConfig
unfolding read_config
parse_mlfq_config files none config = some (set_defaults config)
parse_mlfq_config files (some config_str) config = read_config (files config_str) config
