-- ===== src/Tests/Parsing.antt =====
-- The parsers on concrete texts, and their theorems at concrete inputs.
use cpu_scheduler_simulator.Base.{
  ℕ, ◌≡◌, refl, Option, none, some, List, [], ◌∷◌, pos, negsuc, map, length, arith,
}
use mathlib.Core.Option
use cpu_scheduler_simulator.Process.{Process, init_process}
use cpu_scheduler_simulator.State.{MlfqConfig}
use cpu_scheduler_simulator.Clib.{print_int, strtok}
use cpu_scheduler_simulator.Clib.Tokens.{join, write_lines}
use cpu_scheduler_simulator.Workload.{
  parse_workload_string, parse_workload_file, parse_process_token, is_comma, count_processes,
}
use cpu_scheduler_simulator.Workload.Shape.{FilledTo, count_parsed, parse_workload_string-FilledTo}
use cpu_scheduler_simulator.Workload.RoundTrip.{
  Job, Holds, AllWritable, write_token, parse_workload_string-join,
}
use cpu_scheduler_simulator.Workload.Files.{
  Line, comment, entry, name, AllLines, write_line, jobs_of, parse_workload_file-write_lines,
}
use cpu_scheduler_simulator.Parser.{
  Opt, opt_algorithm, opt_quantum, read_positive, parse_args, parse_mlfq_config,
}
use cpu_scheduler_simulator.Clib.{codes}
use cpu_scheduler_simulator.Parser.Options.{ArgsOutcome, parse_args-Outcome}
use cpu_scheduler_simulator.Parser.Settings.{
  ConfigOutcome, source_lines, parse_mlfq_config-ConfigOutcome,
}
use cpu_scheduler_simulator.Tests.{default_mlfq}

-- Memory as `malloc` might leave it.
abbrev pub memory : ℕ → Process
unfolding init_process
memory i = init_process [] (pos i) (negsuc 6)

abbrev pub jobs : List Job
jobs =
    record { pid = codes "P1"; arrival = pos 0; burst = pos 24 }
    ∷ record { pid = codes "P2"; arrival = pos 10; burst = pos 18 }
    ∷ []

jobs_text : join b',' (map write_token jobs) ≡ codes "P1:0:24,P2:10:18"
unfolding print_int
jobs_text = refl

pub jobs-AllWritable : AllWritable jobs
jobs-AllWritable = (
  record {
    nonempty = λ e. cc e;
    short = omega arith;
    plain = (refl, (refl, tt));
    arrival_fits = (omega arith, omega arith);
    burst_fits = (omega arith, omega arith);
  },
  (
    record {
      nonempty = λ e. cc e;
      short = omega arith;
      plain = (refl, (refl, tt));
      arrival_fits = (omega arith, omega arith);
      burst_fits = (omega arith, omega arith);
    },
    tt,
  ),
)

parse_workload_string-join_example :
    Holds (parse_workload_string memory (join b',' (map write_token jobs))).0 0 jobs
    × ((parse_workload_string memory (join b',' (map write_token jobs))).1 ≡ length jobs)
parse_workload_string-join_example = parse_workload_string-join memory jobs jobs-AllWritable

-- The second token does not parse: one process is made, and two are counted.
abbrev broken : List ℕ
broken = codes "A:0:24,B:x:18"

broken_made : count_parsed (strtok is_comma broken) ≡ 1
unfolding strtok parse_process_token
broken_made = refl

broken_counted : count_processes broken ≡ 2
unfolding count_processes
broken_counted = refl

parse_workload_string-FilledTo_example :
    FilledTo
      (count_parsed (strtok is_comma broken))
      (count_processes broken)
      memory
      (parse_workload_string memory broken).0
    × ((parse_workload_string memory broken).1 ≡ count_processes broken)
parse_workload_string-FilledTo_example = parse_workload_string-FilledTo memory broken

abbrev lines : List Line
lines =
    comment []
    ∷ entry record { pid = codes "P1"; arrival = pos 0; burst = pos 24 }
    ∷ entry record { pid = codes "P2"; arrival = pos 10; burst = pos 18 }
    ∷ []

abbrev disk : List ℕ → Option (List ℕ)
disk filename = some (write_lines (map write_line lines))

lines-AllLines : AllLines lines
unfolding print_int
lines-AllLines = (
  (tt, omega arith),
  (
    (
      name b'P' (b'1' ∷ []) (refl, (refl, tt)) refl (omega arith),
      omega arith,
      (omega arith, omega arith),
      (omega arith, omega arith),
    ),
    (
      (
        name b'P' (b'2' ∷ []) (refl, (refl, tt)) refl (omega arith),
        omega arith,
        (omega arith, omega arith),
        (omega arith, omega arith),
      ),
      tt,
    ),
  ),
)

parse_workload_file-write_lines_example :
    (procs : ℕ → Process) × (parse_workload_file disk memory []
      ≡ some (procs, length (jobs_of lines)))
    × Holds procs 0 (jobs_of lines)
parse_workload_file-write_lines_example =
    parse_workload_file-write_lines disk memory [] lines lines-AllLines refl

accepted : read_positive (codes "42") ≡ some (pos 42)
unfolding read_positive
accepted = refl

abbrev refused : List Opt
refused = opt_algorithm (codes "rr") ∷ opt_quantum (codes "0") ∷ []

zero_refused : parse_args refused ≡ none
unfolding parse_args
zero_refused = refl

parse_args-Outcome_example : ArgsOutcome refused (parse_args refused)
parse_args-Outcome_example = parse_args-Outcome refused

abbrev config_disk : List ℕ → Option (List ℕ)
config_disk filename = some (codes "Q1 4 16\nQ2 8 16\nBOOST_PERIOD 100\n")

-- Two levels are read, in place of the three defaults.
config_read :
    Option.map
      (λ (c : MlfqConfig). c.quantums 1 ∷ c.allotments 1 ∷ pos c.num_queues ∷ [])
      (parse_mlfq_config config_disk (some []) default_mlfq)
    ≡ some (pos 8 ∷ pos 16 ∷ pos 2 ∷ [])
unfolding parse_mlfq_config
config_read = refl

parse_mlfq_config-ConfigOutcome_example :
    ConfigOutcome
      (source_lines config_disk (some []))
      (parse_mlfq_config config_disk (some []) default_mlfq)
parse_mlfq_config-ConfigOutcome_example =
    parse_mlfq_config-ConfigOutcome config_disk (some []) default_mlfq
