-- ===== src/Kind/Printing.antt =====
-- Reading an operator's name (`getOperKind`) and printing the kind (`kindToString`).
use Prim.Native.String.{String}
use text.Mathlib.Text.{◌==◌ as str_eq}
use smtstabilizer.Common.{◌==◌, ==_iff, Bool, ◌||◌, ◌≡◌, true, false, refl, arith}
use smtstabilizer.Common.Text.{find_or-all, all_entries}
use smtstabilizer.Kind.{NodeKind, kind_code, nt_unknown}
use smtstabilizer.Kind.Names.{kind_to_string}
use smtstabilizer.Kind.Operators.{oper_key_map, get_oper_kind}

-- The names whose kind is printed under a name that is read as another kind.
abbrev pub is_reprinted_otherwise : String → Bool
is_reprinted_otherwise s =
    str_eq s "bv2int"
    || str_eq s "str.indexof_re"
    || str_eq s "root-obj"
    || str_eq s "root-of-with-interval"

-- Reading the printed name of `k` gives `k`, or `s` is one of those names.
unfoldable pub reprints : String → NodeKind → Bool
unfolding kind_to_string get_oper_kind
reprints s k =
    kind_code (get_oper_kind (kind_to_string k)) == kind_code k || is_reprinted_otherwise s

left : (a b : Bool) → b ≡ false → (a || b) ≡ true → a ≡ true
left a b none_left h = ground arith

all-reprint : all_entries reprints oper_key_map ≡ true
unfolding reprints kind_code
all-reprint = refl

get_oper_kind-reprints : (s : String) → reprints s (get_oper_kind s) ≡ true
unfolding get_oper_kind reprints kind_code
get_oper_kind-reprints s = find_or-all reprints s oper_key_map nt_unknown all-reprint refl

-- For every text but bv2int, str.indexof_re, root-obj and root-of-with-interval, unknown names
-- included: the kind that it is read as prints to a name that is read as the same kind again.
pub get_oper_kind-kind_to_string :
    (s : String)
    → is_reprinted_otherwise s ≡ false
    → kind_code (get_oper_kind (kind_to_string (get_oper_kind s))) ≡ kind_code (get_oper_kind s)
unfolding reprints
get_oper_kind-kind_to_string s plain =
    (==_iff _ _).0 (left _ (is_reprinted_otherwise s) plain (get_oper_kind-reprints s))
