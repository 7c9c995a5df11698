-- ===== src/Api.antt =====
-- The facade `SMTStabilizer` (src/api/stabilizer_api.h, src/api/stabilizer_api.cpp): options, input
-- checks, and the call of the pipeline.
pub mod Capi
pub mod Calls
pub mod CommandLine
use Prim.Native.String.{String}
use text.Mathlib.Text.{◌==◌ as str_eq}
use smtstabilizer.Common.{Bool, true, false, if◌then◌else◌}

pub record SmtStabilizerOptions : Type 0 where
  pub d_rewrite : Bool
  pub d_context_propagation : Bool
  pub d_subgraph_pruning : Bool

abbrev pub default_options : SmtStabilizerOptions
default_options = record {
  d_rewrite = true;
  d_context_propagation = true;
  d_subgraph_pruning = true;
}

abbrev pub set_rewrite : SmtStabilizerOptions → Bool → SmtStabilizerOptions
set_rewrite o value = record o { d_rewrite = value }

abbrev pub set_context_propagation : SmtStabilizerOptions → Bool → SmtStabilizerOptions
set_context_propagation o value = record o { d_context_propagation = value }

abbrev pub set_subgraph_pruning : SmtStabilizerOptions → Bool → SmtStabilizerOptions
set_subgraph_pruning o value = record o { d_subgraph_pruning = value }

-- What a call throws, with the text of `what()`: `std::invalid_argument`, another
-- `std::exception`, or anything else.
pub data Thrown : Type 0 where
  invalid_argument standard : String → Thrown
  other : Thrown

pub data Result {ℓ} (A : Type ℓ) : Type ℓ where
  returned : A → Result A
  thrown : Thrown → Result A

infixl 5 ◌then◌
abbrev pub ◌then◌ {ℓ κ} : {A : Type ℓ} {B : Type κ} → Result A → (A → Result B) → Result B
returned a then f = f a
thrown e then f = thrown e

-- What the facade calls of the parser, the node manager and the kernel: `Parser` is the state of
-- `parser::Parser`, which `parse` and `parseStr` fill (their own result is ignored),
-- `configured keep_let expand rewrite p` sets three of the global options, `simplified` runs
-- `NodeManager::simplify_assertions`, `stabilized cp sbp` builds a kernel and applies it, and
-- `to_string` is the dump.
pub record Engine : Type 1 where
  pub Parser : Type 0
  pub parse : String → Result Parser
  pub parse_str : String → Result Parser
  pub configured : Bool → Bool → Bool → Parser → Parser
  pub simplified : Parser → Result Parser
  pub stabilized : Bool → Bool → Parser → Result Parser
  pub to_string : Parser → Result String

module _ (engine : Engine) where
  unfoldable pub configure_parser : engine.Parser → SmtStabilizerOptions → engine.Parser
  configure_parser parser options = engine.configured false false options.d_rewrite parser

  unfoldable pub run_pipeline : engine.Parser → SmtStabilizerOptions → Result String
  unfolding configure_parser
  run_pipeline parser options = engine.simplified (configure_parser parser options) then λ p.
      engine.stabilized options.d_context_propagation options.d_subgraph_pruning p then λ q.
      engine.to_string q

  unfoldable pub apply_file : SmtStabilizerOptions → String → Result String
  unfolding run_pipeline
  apply_file options file_path =
      if str_eq file_path ""
      then thrown (invalid_argument "file_path must not be empty")
      else (engine.parse file_path then λ p. run_pipeline p options)

  unfoldable pub apply_text : SmtStabilizerOptions → String → Result String
  unfolding run_pipeline
  apply_text options smt2_text =
      if str_eq smt2_text ""
      then thrown (invalid_argument "smt2_text must not be empty")
      else (engine.parse_str smt2_text then λ p. run_pipeline p options)
