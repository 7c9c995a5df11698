-- ===== src/Api/Calls.antt =====
-- What a caller of the C interface (src/api/c_api.cpp) may rely on.
use Prim.Native.String.{String}
use smtstabilizer.Common.{Bool, Option, none, some, ◌≡◌, ◌≢◌, ◌⊎◌, inl, inr, refl, Bool-cases}
use smtstabilizer.Api.{
  SmtStabilizerOptions, Result, returned, thrown, invalid_argument, standard, other, Engine,
  apply_file, apply_text,
}
use smtstabilizer.Api.Capi.{
  StabilizerHandle, status_ok, Cell, Call, capture, stabilizer_apply_file, stabilizer_apply_text,
}

-- The call succeeded with `text`: the cell holds it, the error is cleared, the options are kept.
abbrev pub Succeeded : StabilizerHandle → String → Call → Type 0
Succeeded h text call = call ≡ record {
  status = status_ok;
  handle = some (record h { last_error = "" });
  output = some (some text);
}

abbrev pub options_of : Option StabilizerHandle → Option SmtStabilizerOptions
options_of none = none
options_of (some h) = some h.stabilizer

-- The call failed: it says so, no text is handed out, and the options of the handle are kept.
abbrev pub Failed : Option StabilizerHandle → Call → Type 0
Failed handle call =
    (call.status ≢ status_ok)
    × ((text : String) → call.output ≢ some (some text))
    × (options_of call.handle ≡ options_of handle)

-- All three pointers are given, the facade returned a text for the path or the script, and the call
-- succeeded with it.
abbrev pub Delivered :
    (SmtStabilizerOptions → String → Result String)
    → Option StabilizerHandle
    → Option String
    → Cell
    → Call
    → Type 0
Delivered apply handle source output call =
    (h : StabilizerHandle) × (input text : String) × (old : Option String) × (handle ≡ some h)
    × (source ≡ some input)
    × (output ≡ some old)
    × (apply h.stabilizer input ≡ returned text)
    × Succeeded h text call

module _ (malloc : String → Bool) (bad_alloc : String) where
  capture-contract :
      (h : StabilizerHandle) (old : Option String) (r : Result String)
      → ((text : String) × (r ≡ returned text)
          × Succeeded h text (capture malloc bad_alloc (some h) (some old) r))
        ⊎ Failed (some h) (capture malloc bad_alloc (some h) (some old) r)
  unfolding capture
  capture-contract h old (returned text) = elim (Bool-cases (malloc text)) [
    | inl y ↦ inl (text, refl, rw y refl)
    | inr n ↦ inr (rw n ((λ e. cc), (λ t e. cc), refl))
  ]
  capture-contract h old (thrown (invalid_argument what)) = inr ((λ e. cc), (λ t e. cc), refl)
  capture-contract h old (thrown (standard what)) = inr ((λ e. cc), (λ t e. cc), refl)
  capture-contract h old (thrown other) = inr ((λ e. cc), (λ t e. cc), refl)

  module _ (engine : Engine) where
    -- For every combination of null and other pointers, every path, and every outcome of the pipeline
    -- and of `malloc`: either all pointers are given, the facade returned a text, and the call answers
    -- OK, hands it out, clears the error and keeps the options; or the call does not answer OK, hands
    -- out no text, and keeps the options.
    pub stabilizer_apply_file-contract :
        (handle : Option StabilizerHandle) (file_path : Option String) (output : Cell)
        → let call = stabilizer_apply_file malloc bad_alloc engine handle file_path output in
          Delivered (apply_file engine) handle file_path output call ⊎ Failed handle call
    unfolding stabilizer_apply_file
    stabilizer_apply_file-contract none p none = inr ((λ e. cc), (λ t e. cc), refl)
    stabilizer_apply_file-contract none p (some o) = inr ((λ e. cc), (λ t e. cc), refl)
    stabilizer_apply_file-contract (some h) none none = inr ((λ e. cc), (λ t e. cc), refl)
    stabilizer_apply_file-contract (some h) none (some o) = inr ((λ e. cc), (λ t e. cc), refl)
    stabilizer_apply_file-contract (some h) (some p) none = inr ((λ e. cc), (λ t e. cc), refl)
    stabilizer_apply_file-contract (some h) (some p) (some o) =
        elim (capture-contract h o (apply_file engine h.stabilizer p)) [
          | inl (text, r, done) ↦ inl (h, p, text, o, refl, refl, refl, r, done)
          | inr f ↦ inr f
        ]

    -- For every combination of null and other pointers, every script, and every outcome of the
    -- pipeline and of `malloc`: either all pointers are given, the facade returned a text, and the
    -- call answers OK, hands it out, clears the error and keeps the options; or the call does not
    -- answer OK, hands out no text, and keeps the options.
    pub stabilizer_apply_text-contract :
        (handle : Option StabilizerHandle) (smt2_text : Option String) (output : Cell)
        → let call = stabilizer_apply_text malloc bad_alloc engine handle smt2_text output in
          Delivered (apply_text engine) handle smt2_text output call ⊎ Failed handle call
    unfolding stabilizer_apply_text
    stabilizer_apply_text-contract none p none = inr ((λ e. cc), (λ t e. cc), refl)
    stabilizer_apply_text-contract none p (some o) = inr ((λ e. cc), (λ t e. cc), refl)
    stabilizer_apply_text-contract (some h) none none = inr ((λ e. cc), (λ t e. cc), refl)
    stabilizer_apply_text-contract (some h) none (some o) = inr ((λ e. cc), (λ t e. cc), refl)
    stabilizer_apply_text-contract (some h) (some p) none = inr ((λ e. cc), (λ t e. cc), refl)
    stabilizer_apply_text-contract (some h) (some p) (some o) =
        elim (capture-contract h o (apply_text engine h.stabilizer p)) [
          | inl (text, r, done) ↦ inl (h, p, text, o, refl, refl, refl, r, done)
          | inr f ↦ inr f
        ]
