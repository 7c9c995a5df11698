-- ===== src/Api/CommandLine.antt =====
-- The options of the command line (src/main/main.cpp).
use Prim.Native.String.{String}
use mathlib.Core.Path.{subst}
use text.Mathlib.Text.{◌==◌ as str_eq}
use text.Mathlib.TextEquality.{eq_iff}
use smtstabilizer.Common.{
  Bool, true, false, not, ◌||◌, ◌&&◌, if◌then◌else◌, List, [], ◌∷◌, Option, none, some, ◌≡◌, refl,
  sym, Bool-cases, inl, inr,
}

-- The two variables that the loop writes.
pub record Flags : Type 0 where
  pub context_propagation : Bool
  pub symmetry_breaking_perturbation : Bool

-- The loop over `argv[2]` and later: `none` is the exit with status 1.
unfoldable pub read_flags : List String → Flags → Option Flags
read_flags [] flags = some flags
read_flags (arg ∷ args) flags =
    let without_cp = read_flags args (record flags { context_propagation = false }) in
    let without_sbp = read_flags args (record flags { symmetry_breaking_perturbation = false }) in
    if str_eq arg "--no-cp" then without_cp else if str_eq arg "--no-sbp" then without_sbp else none

abbrev pub start_flags : Flags
start_flags = record { context_propagation = true; symmetry_breaking_perturbation = true }

-- `main` up to the parse: the path that is parsed and the flags. `argv[0]` is not in the list.
unfoldable pub read_arguments : List String → Option (String × Flags)
unfolding read_flags
read_arguments [] = some ("", start_flags)
read_arguments (path ∷ args) = elim (read_flags args start_flags) [
  | none ↦ none
  | some flags ↦ some (path, flags)
]

abbrev pub is_option : String → Bool
is_option arg = str_eq arg "--no-cp" || str_eq arg "--no-sbp"

abbrev pub all_options : List String → Bool
all_options [] = true
all_options (arg ∷ args) = is_option arg && all_options args

abbrev pub has_option : String → List String → Bool
has_option o [] = false
has_option o (arg ∷ args) = str_eq arg o || has_option o args

and_true : (b : Bool) → (b && true) ≡ b
and_true true = refl
and_true false = refl

and_false : (b : Bool) → (b && false) ≡ false
and_false true = refl
and_false false = refl

-- What the flags are when every argument is an option.
abbrev pub flags_of : List String → Flags → Flags
flags_of args flags = record {
  context_propagation = flags.context_propagation && not (has_option "--no-cp" args);
  symmetry_breaking_perturbation =
      flags.symmetry_breaking_perturbation && not (has_option "--no-sbp" args);
}

abbrev pub FlagsRead : String → List String → Flags → Type 0
FlagsRead arg args flags =
    read_flags (arg ∷ args) flags
    ≡ (if all_options (arg ∷ args) then some (flags_of (arg ∷ args) flags) else none)

-- The loop accepts the arguments exactly if each of them is one of the two options, and then a flag
-- is on just when it was on and its option does not stand among them, in any order and however often.
pub read_flags_lem :
    (args : List String) (flags : Flags)
    → read_flags args flags ≡ (if all_options args then some (flags_of args flags) else none)
unfolding read_flags
read_flags_lem [] flags =
    rw (and_true flags.context_propagation, and_true flags.symmetry_breaking_perturbation) refl
read_flags_lem (arg ∷ args) flags = elim (Bool-cases (str_eq arg "--no-cp")) [
  | inl cp ↦
      subst (λ a. FlagsRead a args flags) (sym ((eq_iff arg "--no-cp").0 cp))
        (rw (and_false flags.context_propagation)
          (read_flags_lem args (record flags { context_propagation = false })))
  | inr not_cp ↦ elim (Bool-cases (str_eq arg "--no-sbp")) [
    | inl sbp ↦
        subst (λ a. FlagsRead a args flags) (sym ((eq_iff arg "--no-sbp").0 sbp))
          (rw (and_false flags.symmetry_breaking_perturbation)
            (read_flags_lem args (record flags { symmetry_breaking_perturbation = false })))
    | inr not_sbp ↦ rw (not_cp, not_sbp) refl
  ]
]
