-- ===== src/Data/Ordered.antt =====
-- A slice that holds each key once, in the order of last occurrence, with a map from each key to
-- its index: a key that comes again is cut out, the later indexes move down, and it is appended.
pub mod Laws
pub mod Exact
use zsh_pro.Prelude.{
  ℕ, zero, suc, ◌+◌, ◌-◌, Option, none, some, List, [], ◌∷◌, ◌++◌, Eq, ltb, if◌then◌else◌, length,
}
use zsh_pro.Data.Dict.{Dict, lookup, insert}

-- `append(xs[:i], xs[i+1:]...)`
unfoldable pub remove_at {ℓ} : {A : Type ℓ} → List A → ℕ → List A
remove_at [] i = []
remove_at (x ∷ xs) zero = xs
remove_at (x ∷ xs) (suc i) = x ∷ remove_at xs i

-- `for key, index := range indexes { if index > p { indexes[key] = index - 1 } }`
unfoldable pub shift_after {ℓ} : {K : Type ℓ} → ℕ → Dict K ℕ → Dict K ℕ
shift_after p [] = []
shift_after p ((k, i) ∷ d) = (k, (if ltb p i then i - 1 else i)) ∷ shift_after p d

pub record Ordered {ℓ κ} (A : Type ℓ) (K : Type κ) : Type (ℓ ⊔ κ) where
  pub items : List A
  pub indexes : Dict K ℕ

abbrev pub no_items {ℓ κ} : {A : Type ℓ} {K : Type κ} → Ordered A K
no_items = record { items = []; indexes = [] }

module _ {ℓ κ} {A : Type ℓ} {K : Type κ} ⦃e : Eq K⦄ (key : A → K) where
  unfoldable pub cut : Ordered A K → Option ℕ → Ordered A K
  cut t none = t
  cut t (some p) = record { items = remove_at t.items p; indexes = shift_after p t.indexes }

  unfoldable pub append_item : Ordered A K → A → Ordered A K
  append_item t a = record {
    items = t.items ++ a ∷ [];
    indexes = insert (key a) (length t.items) t.indexes;
  }

  unfoldable pub move_to_end : Ordered A K → A → Ordered A K
  unfolding cut append_item
  move_to_end t a = append_item (cut t (lookup (key a) t.indexes)) a

  unfoldable pub move_all : Ordered A K → List A → Ordered A K
  move_all t [] = t
  move_all t (x ∷ xs) = move_all (move_to_end t x) xs
