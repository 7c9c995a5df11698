-- ===== src/Api/Capi.antt =====
-- The C interface (src/api/c_api.cpp). A pointer that may be null is an `Option`; `char **output`
-- is null, or a cell that holds null or a text.
use Prim.Native.String.{String}
use smtstabilizer.Common.{Bool, false, if◌then◌else◌, Option, none, some}
use smtstabilizer.Api.{
  SmtStabilizerOptions, default_options, set_rewrite, set_context_propagation, set_subgraph_pruning,
  Result, returned, thrown, invalid_argument, standard, other, Engine, apply_file, apply_text,
}

pub record StabilizerHandle : Type 0 where
  pub stabilizer : SmtStabilizerOptions
  pub last_error : String

pub data StabilizerStatus : Type 0 where
  status_ok status_invalid_argument status_runtime_error : StabilizerStatus

abbrev pub Cell : Type 0
Cell = Option (Option String)

-- What a call leaves behind: its status, the handle and the cell.
pub record Call : Type 0 where
  pub status : StabilizerStatus
  pub handle : Option StabilizerHandle
  pub output : Cell

abbrev pub failed : StabilizerHandle → StabilizerStatus → String → Call
failed handle status message = record {
  status = status;
  handle = some (record handle { last_error = message });
  output = some none;
}

-- `capture`: `malloc` says whether the buffer is given, and `bad_alloc` is `what()` of the exception
-- that is thrown where it is not.
module _ (malloc : String → Bool) (bad_alloc : String) where
  unfoldable pub capture : Option StabilizerHandle → Cell → Result String → Call
  capture none none r = record { status = status_invalid_argument; handle = none; output = none }
  capture none (some old) r = record {
    status = status_invalid_argument;
    handle = none;
    output = some none;
  }
  capture (some handle) none r = record {
    status = status_invalid_argument;
    handle = some (record handle { last_error = "invalid argument" });
    output = none;
  }
  capture (some handle) (some old) (returned text) =
      if malloc text
      then (record {
        status = status_ok;
        handle = some (record handle { last_error = "" });
        output = some (some text);
      })
      else failed handle status_runtime_error bad_alloc
  capture (some handle) (some old) (thrown (invalid_argument what)) =
      failed handle status_invalid_argument what
  capture (some handle) (some old) (thrown (standard what)) =
      failed handle status_runtime_error what
  capture (some handle) (some old) (thrown other) =
      failed handle status_runtime_error "unknown error"

  -- The common shape of the two entry points: `file_path` or `smt2_text` may be null too.
  abbrev pub refused : Option StabilizerHandle → Cell → Call
  refused handle output = record {
    status = status_invalid_argument;
    handle = elim handle [
      | none ↦ none
      | some h ↦ some (record h { last_error = "invalid argument" })
    ];
    output = elim output [ none ↦ none | some old ↦ some none ];
  }

  module _ (engine : Engine) where
    unfoldable pub stabilizer_apply_file : Option StabilizerHandle → Option String → Cell → Call
    unfolding capture apply_file
    stabilizer_apply_file (some h) (some file_path) (some old) =
        capture (some h) (some old) (apply_file engine h.stabilizer file_path)
    stabilizer_apply_file handle _ output = refused handle output

    unfoldable pub stabilizer_apply_text : Option StabilizerHandle → Option String → Cell → Call
    unfolding capture apply_text
    stabilizer_apply_text (some h) (some smt2_text) (some old) =
        capture (some h) (some old) (apply_text engine h.stabilizer smt2_text)
    stabilizer_apply_text handle _ output = refused handle output

unfoldable pub stabilizer_create : Option SmtStabilizerOptions → StabilizerHandle
stabilizer_create none = record { stabilizer = default_options; last_error = "" }
stabilizer_create (some options) = record { stabilizer = options; last_error = "" }

-- The shape of the setters and of the getters of a handle, which do nothing and answer false on null.
abbrev pub with_options :
    (SmtStabilizerOptions → Bool → SmtStabilizerOptions)
    → Option StabilizerHandle
    → Bool
    → Option StabilizerHandle
with_options set none value = none
with_options set (some h) value = some (record h { stabilizer = set h.stabilizer value })

abbrev pub of_options : (SmtStabilizerOptions → Bool) → Option StabilizerHandle → Bool
of_options get none = false
of_options get (some h) = get h.stabilizer

unfoldable pub stabilizer_set_rewrite : Option StabilizerHandle → Bool → Option StabilizerHandle
stabilizer_set_rewrite = with_options set_rewrite

unfoldable pub stabilizer_get_rewrite : Option StabilizerHandle → Bool
stabilizer_get_rewrite = of_options (λ o. o.d_rewrite)

unfoldable pub stabilizer_set_context_propagation :
    Option StabilizerHandle → Bool → Option StabilizerHandle
stabilizer_set_context_propagation = with_options set_context_propagation

unfoldable pub stabilizer_get_context_propagation : Option StabilizerHandle → Bool
stabilizer_get_context_propagation = of_options (λ o. o.d_context_propagation)

unfoldable pub stabilizer_set_subgraph_pruning :
    Option StabilizerHandle → Bool → Option StabilizerHandle
stabilizer_set_subgraph_pruning = with_options set_subgraph_pruning

unfoldable pub stabilizer_get_subgraph_pruning : Option StabilizerHandle → Bool
stabilizer_get_subgraph_pruning = of_options (λ o. o.d_subgraph_pruning)

unfoldable pub stabilizer_last_error : Option StabilizerHandle → String
stabilizer_last_error none = "invalid handle"
stabilizer_last_error (some h) = h.last_error

unfoldable pub stabilizer_options_create : SmtStabilizerOptions
stabilizer_options_create = default_options

unfoldable pub stabilizer_options_set_rewrite :
    Option SmtStabilizerOptions → Bool → Option SmtStabilizerOptions
stabilizer_options_set_rewrite none value = none
stabilizer_options_set_rewrite (some o) value = some (set_rewrite o value)

unfoldable pub stabilizer_options_get_rewrite : Option SmtStabilizerOptions → Bool
stabilizer_options_get_rewrite none = false
stabilizer_options_get_rewrite (some o) = o.d_rewrite

unfoldable pub stabilizer_options_set_context_propagation :
    Option SmtStabilizerOptions → Bool → Option SmtStabilizerOptions
stabilizer_options_set_context_propagation none value = none
stabilizer_options_set_context_propagation (some o) value = some (set_context_propagation o value)

unfoldable pub stabilizer_options_get_context_propagation : Option SmtStabilizerOptions → Bool
stabilizer_options_get_context_propagation none = false
stabilizer_options_get_context_propagation (some o) = o.d_context_propagation

unfoldable pub stabilizer_options_set_subgraph_pruning :
    Option SmtStabilizerOptions → Bool → Option SmtStabilizerOptions
stabilizer_options_set_subgraph_pruning none value = none
stabilizer_options_set_subgraph_pruning (some o) value = some (set_subgraph_pruning o value)

unfoldable pub stabilizer_options_get_subgraph_pruning : Option SmtStabilizerOptions → Bool
stabilizer_options_get_subgraph_pruning none = false
stabilizer_options_get_subgraph_pruning (some o) = o.d_subgraph_pruning
