-- ===== src/Parser/Options.antt =====
-- The command line of src/core/parser.c: when it is refused, and what an accepted one sets.
use cpu_scheduler_simulator.Base.{
  ◌≡◌, ◌⊎◌, refl, Option-cases, inl, inr, Option, none, some, List, [], ◌∷◌, ℤ, pos,
}
use cpu_scheduler_simulator.Clib.{◌>>=◌}
use cpu_scheduler_simulator.Parser.{
  Args, Opt, opt_algorithm, opt_processes, opt_input, opt_quantum, opt_mlfq_config, opt_compare,
  unknown, no_args, read_positive, parse_option, parse_options, parse_args,
}
use cpu_scheduler_simulator.Parser.Numbers.{
  IsNumeral, IsNoNumeral, read_positive-IsNumeral, read_positive-IsNoNumeral,
}

-- An option that cannot be accepted: an unknown one, or a quantum whose text strtol does not read
-- whole as a value from 1 to INT_MAX.
abbrev pub Refused : Opt → Type 0
Refused unknown = Unit {0}
Refused (opt_quantum optarg) = IsNoNumeral optarg
Refused _ = ⊥

abbrev pub SomeRefused : List Opt → Type 0
SomeRefused [] = ⊥
SomeRefused (o ∷ opts) = Refused o ⊎ SomeRefused opts

-- The quantum behind one option: the value of its text if it is the option for it, else the one
-- before it.
abbrev pub OneQuantum : Opt → ℤ → ℤ → Type 0
OneQuantum (opt_quantum optarg) before v = IsNumeral optarg v
OneQuantum _ before v = v ≡ before

-- The quantum behind all of them: that of the last option for it.
abbrev pub LastQuantum : List Opt → ℤ → ℤ → Type 0
LastQuantum [] before v = v ≡ before
LastQuantum (o ∷ opts) before v = (w : ℤ) × OneQuantum o before w × LastQuantum opts w v

-- What one option does: it is refused, or it leaves the quantum that it is to leave.
abbrev OptionOutcome : Opt → Args → Option Args → Type 0
OptionOutcome o args none = Refused o
OptionOutcome o args (some args') = (Refused o → ⊥) × OneQuantum o args.quantum args'.quantum

parse_option-Outcome : (o : Opt) (args : Args) → OptionOutcome o args (parse_option o args)
unfolding parse_option
parse_option-Outcome (opt_algorithm optarg) args = (λ r. r, refl)
parse_option-Outcome (opt_processes optarg) args = (λ r. r, refl)
parse_option-Outcome (opt_input optarg) args = (λ r. r, refl)
parse_option-Outcome (opt_quantum optarg) args = elim (Option-cases (read_positive optarg)) [
  | inl e ↦ rw e (read_positive-IsNoNumeral optarg e)
  | inr (v, e) ↦
      rw e ((λ r. r v (read_positive-IsNumeral optarg v e)), read_positive-IsNumeral optarg v e)
]
parse_option-Outcome opt_compare args = (λ r. r, refl)
parse_option-Outcome (opt_mlfq_config optarg) args = (λ r. r, refl)
parse_option-Outcome unknown args = tt

abbrev OptionsOutcome : List Opt → Args → Option Args → Type 0
OptionsOutcome opts args none = SomeRefused opts
OptionsOutcome opts args (some args') =
    (SomeRefused opts → ⊥) × LastQuantum opts args.quantum args'.quantum

neither : {A B : Type 0} → (A → ⊥) → (B → ⊥) → A ⊎ B → ⊥
neither f g (inl a) = f a
neither f g (inr b) = g b

bind-Outcome :
    (o : Opt) (opts : List Opt) (args : Args) (first : Option Args)
    → OptionOutcome o args first
    → ((next : Args) → OptionsOutcome opts next (parse_options opts next))
    → OptionsOutcome (o ∷ opts) args (first >>= parse_options opts)
bind-Outcome o opts args none h rest = inl h
bind-Outcome o opts args (some next) (ok, one) rest = go (parse_options opts next) (rest next)
  where
    go : (r : Option Args) → OptionsOutcome opts next r → OptionsOutcome (o ∷ opts) args r
    go none bad = inr bad
    go (some args') (good, last) = (neither ok good, (next.quantum, one, last))

parse_options-Outcome :
    (opts : List Opt) (args : Args) → OptionsOutcome opts args (parse_options opts args)
unfolding parse_options
parse_options-Outcome [] args = (λ r. r, refl)
parse_options-Outcome (o ∷ opts) args =
    bind-Outcome o opts args (parse_option o args) (parse_option-Outcome o args)
      (parse_options-Outcome opts)

-- A command line is either refused, and then it has an option that cannot be accepted; or accepted,
-- and then it has none, and the quantum is that of the last option for it, or 0.
abbrev pub ArgsOutcome : List Opt → Option Args → Type 0
ArgsOutcome opts none = SomeRefused opts
ArgsOutcome opts (some args) = (SomeRefused opts → ⊥) × LastQuantum opts (pos 0) args.quantum

from_start :
    (opts : List Opt) (r : Option Args) → OptionsOutcome opts no_args r → ArgsOutcome opts r
from_start opts none bad = bad
from_start opts (some args) ok = ok

-- `parse_args` refuses a command line exactly if it has an unknown option or a quantum whose
-- text strtol does not read whole as a value from 1 to INT_MAX, and otherwise leaves as the
-- quantum the value of the last option for it, or 0 if there is none.
pub parse_args-Outcome : (opts : List Opt) → ArgsOutcome opts (parse_args opts)
unfolding parse_args
parse_args-Outcome opts = from_start opts _ (parse_options-Outcome opts no_args)
