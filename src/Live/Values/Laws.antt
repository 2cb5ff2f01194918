-- ===== src/Live/Values/Laws.antt =====
-- Comparing live values is comparing their copies.
use zsh_pro.Prelude.{◌≡◌, ◌↔◌, true, Option, none, some, List, [], ◌∷◌, arith, ok}
use zsh_pro.Data.Bytes.{Bytes, bytes_eq}
use zsh_pro.Live.Types.{LiveKind, LiveValue}
use zsh_pro.Live.Validate.{validate_live_value, elements}
use zsh_pro.Live.Values.{clone_live_value, clone_list, equal_live_value, lists_equal}

pub clone_live_value_idem :
    (v : LiveValue) → clone_live_value (clone_live_value v) ≡ clone_live_value v
unfolding clone_live_value
clone_live_value_idem v = ground arith

pub validate-clone :
    (k : LiveKind) (v : LiveValue)
    → validate_live_value k v ≡ ok tt
    → validate_live_value k (clone_live_value v) ≡ ok tt
unfolding clone_live_value validate_live_value
validate-clone k v h = ground arith

lists_equal_iff : (xs ys : List Bytes) → (lists_equal xs ys ≡ true) ↔ (xs ≡ ys)
unfolding lists_equal
lists_equal_iff [] [] = ground arith
lists_equal_iff [] (y ∷ ys) = ground arith
lists_equal_iff (x ∷ xs) [] = ground arith
lists_equal_iff (x ∷ xs) (y ∷ ys) = ground (arith, lists_equal_iff xs ys)

abbrev IsValid : LiveKind → LiveValue → Type 0
IsValid k v = validate_live_value k v ≡ ok tt

elements-clone_list :
    (l m : Option (List Bytes)) → (elements l ≡ elements m) ↔ (clone_list l ≡ clone_list m)
unfolding clone_list
elements-clone_list none none = ground arith
elements-clone_list none (some []) = ground arith
elements-clone_list none (some (x ∷ xs)) = ground arith
elements-clone_list (some []) none = ground arith
elements-clone_list (some []) (some []) = ground arith
elements-clone_list (some []) (some (x ∷ xs)) = ground arith
elements-clone_list (some (x ∷ xs)) none = ground arith
elements-clone_list (some (x ∷ xs)) (some []) = ground arith
elements-clone_list (some (x ∷ xs)) (some (y ∷ ys)) = ground arith

-- What is equal is valid on both sides.
equal-IsValid :
    (k : LiveKind) (v w : LiveValue) → equal_live_value k v w ≡ true → IsValid k v × IsValid k w
unfolding equal_live_value
equal-IsValid k v w h = ground arith

pub equal-clone_live_value :
    (k : LiveKind) (v w : LiveValue)
    → equal_live_value k v w ≡ true
    → clone_live_value v ≡ clone_live_value w
unfolding equal_live_value clone_live_value validate_live_value
equal-clone_live_value LiveKind.env v w h = ground arith
equal-clone_live_value LiveKind.alias v w h = ground arith
equal-clone_live_value LiveKind.function v w h = ground arith
equal-clone_live_value LiveKind.option v w h = ground arith
equal-clone_live_value LiveKind.path v w h =
    ground (
      arith,
      lists_equal_iff (elements v.list) (elements w.list),
      elements-clone_list v.list w.list,
    )
equal-clone_live_value LiveKind.fpath v w h =
    ground (
      arith,
      lists_equal_iff (elements v.list) (elements w.list),
      elements-clone_list v.list w.list,
    )
equal-clone_live_value (LiveKind.unsupported t) v w h = ground arith

pub equal_of_clone :
    (k : LiveKind) (v w : LiveValue)
    → IsValid k v
    → IsValid k w
    → clone_live_value v ≡ clone_live_value w
    → equal_live_value k v w ≡ true
unfolding equal_live_value clone_live_value validate_live_value
equal_of_clone LiveKind.env v w h = ground arith
equal_of_clone LiveKind.alias v w h = ground arith
equal_of_clone LiveKind.function v w h = ground arith
equal_of_clone LiveKind.option v w h = ground arith
equal_of_clone LiveKind.path v w h =
    ground (
      arith,
      lists_equal_iff (elements v.list) (elements w.list),
      elements-clone_list v.list w.list,
    )
equal_of_clone LiveKind.fpath v w h =
    ground (
      arith,
      lists_equal_iff (elements v.list) (elements w.list),
      elements-clone_list v.list w.list,
    )
equal_of_clone (LiveKind.unsupported t) v w h = ground arith

-- Two values are equal exactly if both are valid for the kind and their copies are the same.
pub equal_live_value_iff :
    (k : LiveKind) (v w : LiveValue)
    → (equal_live_value k v w ≡ true)
      ↔ (IsValid k v × IsValid k w × (clone_live_value v ≡ clone_live_value w))
equal_live_value_iff k v w = (
  λ h. ((equal-IsValid k v w h).0, (equal-IsValid k v w h).1, equal-clone_live_value k v w h),
  λ h. equal_of_clone k v w h.0 h.1 h.2,
)
