-- ===== src/Rewrite/OperSound.antt =====
-- `mkOper` keeps the truth of the application.
use smtstabilizer.Common.{ℕ, Bool, true, false, List, ◌≡◌}
use smtstabilizer.Kind.{NodeKind}
use smtstabilizer.Rewrite.{Terms, Model}
use smtstabilizer.Rewrite.Meaning.{meaning}
use smtstabilizer.Rewrite.Dispatch.{Overloads}
use smtstabilizer.Node.{is_func_def}
use smtstabilizer.Rewrite.Oper.{Created, node}
use smtstabilizer.Rewrite.OperOrder.{is_logical}

module _ {tm : Terms} (m : Model tm) where
  -- No operand is a defined function.
  abbrev pub IsPlain : ℕ → Type 0
  IsPlain x = is_func_def (tm.node x).kind ≡ false

  module _ (others : Overloads) (hash_code : ℕ → ℕ) (create : NodeKind → List ℕ → ℕ)
      (created : (t : NodeKind) (q : List ℕ)
        → is_logical t ≡ true
        → m.truth (create t q) ≡ meaning m t q)
      (is_on : Bool) where
    abbrev Makes : Created → Bool → Type 0
    Makes c holds = (y : ℕ) × (c ≡ node y) × (m.truth y ≡ holds)
