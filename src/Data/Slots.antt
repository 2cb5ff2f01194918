-- ===== src/Data/Slots.antt =====
-- A slice of slots with a map from each key to its index, the way the program overlays changes on
-- a sequence: an existing slot is overwritten or deactivated in place, a new one is appended.
pub mod Laws
pub mod Ops
pub mod Seed
use zsh_pro.Prelude.{
  ℕ, zero, suc, ◌≡◌, Bool, true, false, Option, none, some, List, [], ◌∷◌, ◌++◌, Eq, ◌==◌,
  if◌then◌else◌, map, length,
}
use zsh_pro.Data.Dict.{Dict, lookup, insert, IsDistinct}

pub record Slot {ℓ} (A : Type ℓ) : Type ℓ where
  pub item : A
  pub active : Bool

-- `slots[i] = s`
unfoldable pub set {ℓ} : {A : Type ℓ} → List A → ℕ → A → List A
set [] i v = []
set (x ∷ xs) zero v = v ∷ xs
set (x ∷ xs) (suc i) v = x ∷ set xs i v

-- `slots[i].active = false`
unfoldable pub deactivate {ℓ} : {A : Type ℓ} → List (Slot A) → ℕ → List (Slot A)
deactivate [] i = []
deactivate (x ∷ xs) zero = record x { active = false } ∷ xs
deactivate (x ∷ xs) (suc i) = x ∷ deactivate xs i

-- The items of the slots that are still active.
unfoldable pub active_items {ℓ} : {A : Type ℓ} → List (Slot A) → List A
active_items [] = []
active_items (s ∷ ss) = let rest = active_items ss in if s.active then s.item ∷ rest else rest

-- Where a key stands.
unfoldable pub index_of {ℓ} : {K : Type ℓ} ⦃e : Eq K⦄ → K → ℕ → List K → Option ℕ
index_of k i [] = none
index_of k i (j ∷ ks) = if j == k then some i else index_of k (suc i) ks

pub record Slots {ℓ κ} (A : Type ℓ) (K : Type κ) : Type (ℓ ⊔ κ) where
  pub index : Dict K ℕ
  pub slots : List (Slot A)

module _ {ℓ κ} {A : Type ℓ} {K : Type κ} ⦃e : Eq K⦄ (key : A → K) where
  unfoldable pub append_slot : Slots A K → A → Bool → Slots A K
  append_slot t a on = record {
    index = insert (key a) (length t.slots) t.index;
    slots = t.slots ++ record { item = a; active = on } ∷ [];
  }

  -- The initial slots: one for each element, `on` telling which are active.
  unfoldable pub append_all : (A → Bool) → Slots A K → List A → Slots A K
  append_all on t [] = t
  append_all on t (x ∷ xs) = append_all on (append_slot t x (on x)) xs

  unfoldable pub put : Slots A K → A → Slots A K
  unfolding append_slot
  put t a = elim (lookup (key a) t.index) [
    | some i ↦ record t { slots = set t.slots i (record { item = a; active = true }) }
    | none ↦ append_slot t a true
  ]

  unfoldable pub drop : Slots A K → K → Slots A K
  drop t k = elim (lookup k t.index) [
    | some i ↦ record t { slots = deactivate t.slots i }
    | none ↦ t
  ]

  -- What a key holds: the item of its slot, if that is active.
  unfoldable pub value : K → List (Slot A) → Option A
  value k [] = none
  value k (s ∷ ss) =
      if key s.item == k then (if s.active then some s.item else none) else value k ss

  abbrev pub slot_keys : List (Slot A) → List K
  slot_keys = map (λ s. key s.item)

  -- The index map is exact, and no two slots have one key.
  pub record IsIndexed (t : Slots A K) : Type (ℓ ⊔ κ) where
    pub exact : (k : K) → lookup k t.index ≡ index_of k 0 (slot_keys t.slots)
    pub distinct : IsDistinct (slot_keys t.slots)
