-- ===== src/Live/Values.antt =====
-- Building, copying and comparing live values: core/model/worktree.go.
pub mod Laws
use zsh_pro.Prelude.{
  Bool, true, false, not, ◌||◌, Option, none, some, List, [], ◌∷◌, Eq, ◌==◌, nat_eq, length,
  if◌then◌else◌, ok, err, Result,
}
use mathlib.Core.Bool.{Bool-discrete}
use zsh_pro.Data.Bytes.{Bytes, bytes_eq}
use zsh_pro.Live.Types.{LiveKind, LiveValue}
use zsh_pro.Live.Validate.{validate_live_value, elements}

unfoldable pub scalar_live_value : Bytes → LiveValue
scalar_live_value s = record { present = true; scalar = some s; list = none; option = none }

-- `append([]string(nil), xs...)` is nil if there is nothing to append.
unfoldable pub copy_list : List Bytes → Option (List Bytes)
copy_list [] = none
copy_list (x ∷ xs) = some (x ∷ xs)

unfoldable pub list_live_value : List Bytes → LiveValue
unfolding copy_list
list_live_value xs = record { present = true; scalar = none; list = copy_list xs; option = none }

unfoldable pub option_live_value : Bool → LiveValue
option_live_value b = record { present = true; scalar = none; list = none; option = some b }

unfoldable pub removed_live_value : LiveValue
removed_live_value = record { present = false; scalar = none; list = none; option = none }

clone_list : Option (List Bytes) → Option (List Bytes)
unfolding copy_list
clone_list none = none
clone_list (some xs) = copy_list xs

-- Values are copied in depth, so a copied pointer or slice is its content; only an empty slice
-- that is not nil comes out as nil.
unfoldable pub clone_live_value : LiveValue → LiveValue
unfolding clone_list
clone_live_value v = record v { list = clone_list v.list }

unfoldable pub is_ok {ℓ κ} : {E : Type κ} {A : Type ℓ} → Result E A → Bool
is_ok (ok a) = true
is_ok (err e) = false

-- `*left == *right`; the checks before it rule out the nil pointers.
deref_eq {ℓ} : {A : Type ℓ} ⦃e : Eq A⦄ → Option A → Option A → Bool
deref_eq (some a) (some b) = a == b
deref_eq _ _ = false

-- The loop over the indexes of two lists of one length.
same_elements : List Bytes → List Bytes → Bool
same_elements [] ys = true
same_elements (x ∷ xs) [] = true
same_elements (x ∷ xs) (y ∷ ys) = let rest = same_elements xs ys in if x == y then rest else false

lists_equal : List Bytes → List Bytes → Bool
unfolding same_elements
lists_equal xs ys = if length xs == length ys then same_elements xs ys else false

instance unfoldable pub bool_eq : Eq Bool
bool_eq = record { dec = Bool-discrete }

payload_equal : LiveKind → LiveValue → LiveValue → Bool
unfolding deref_eq lists_equal bool_eq
payload_equal LiveKind.env v w = deref_eq v.scalar w.scalar
payload_equal LiveKind.alias v w = deref_eq v.scalar w.scalar
payload_equal LiveKind.function v w = deref_eq v.scalar w.scalar
payload_equal LiveKind.path v w = lists_equal (elements v.list) (elements w.list)
payload_equal LiveKind.fpath v w = lists_equal (elements v.list) (elements w.list)
payload_equal LiveKind.option v w = deref_eq v.option w.option
payload_equal (LiveKind.unsupported kind) v w = false

unfoldable pub equal_live_value : LiveKind → LiveValue → LiveValue → Bool
unfolding payload_equal is_ok
equal_live_value kind v w =
    if not (is_ok (validate_live_value kind v)) || not (is_ok (validate_live_value kind w))
    then false
    else if not (v.present == w.present)
    then false
    else if not v.present
    then true
    else payload_equal kind v w
