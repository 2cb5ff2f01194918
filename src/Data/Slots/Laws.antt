-- ===== src/Data/Slots/Laws.antt =====
-- The index map stays exact, and each operation changes what its own key holds and nothing else.
use zsh_pro.Prelude.{
  ℕ, zero, suc, ◌+◌, ◌≤◌, ◌≡◌, refl, true, false, none, some, List, [], ◌∷◌, ◌++◌, arith, Eq, ◌==◌,
  ◌||◌, if◌then◌else◌, contains, length, map,
}
use zsh_pro.Data.Dict.{IsDistinct, is_some}
use zsh_pro.Data.LastWins.{first_of_key}
use zsh_pro.Data.Slots.{Slot, set, deactivate, active_items, index_of, value, slot_keys}

module _ {ℓ} {K : Type ℓ} ⦃e : Eq K⦄ where
  pub index_of-ge : (k : K) (i : ℕ) (ks : List K) (j : ℕ) → index_of k i ks ≡ some j → i ≤ j
  unfolding index_of
  index_of-ge k i [] j h = ground arith
  index_of-ge k i (x ∷ ks) j h = ground (arith, index_of-ge k (suc i) ks j)

  pub index_of-contains : (k : K) (i : ℕ) (ks : List K) → is_some (index_of k i ks) ≡ contains k ks
  unfolding index_of contains
  index_of-contains k i [] = refl
  index_of-contains k i (x ∷ ks) = ground (arith, index_of-contains k (suc i) ks)

  pub contains-snoc :
      (k x : K) (ks : List K) → contains k (ks ++ x ∷ []) ≡ (x == k || contains k ks)
  unfolding contains
  contains-snoc k x [] = refl
  contains-snoc k x (y ∷ ks) = ground (arith, contains-snoc k x ks)

  pub snoc-IsDistinct :
      (x : K) (ks : List K) → contains x ks ≡ false → IsDistinct ks → IsDistinct (ks ++ x ∷ [])
  unfolding contains
  snoc-IsDistinct x [] h u = (refl, tt)
  snoc-IsDistinct x (y ∷ ks) h (f, u) = ground (arith, snoc-IsDistinct x ks, contains-snoc y x ks)

  pub index_of-snoc :
      (k x : K) (i : ℕ) (ks : List K)
      → contains x ks ≡ false
      → index_of k i (ks ++ x ∷ []) ≡ (if x == k then some (i + length ks) else index_of k i ks)
  unfolding index_of contains
  index_of-snoc k x i [] h = ground arith
  index_of-snoc k x i (y ∷ ks) h = ground (arith, index_of-snoc k x (suc i) ks)

module _ {ℓ κ} {A : Type ℓ} {K : Type κ} ⦃e : Eq K⦄ (key : A → K) where
  pub slot_keys-set :
      (i j : ℕ) (ss : List (Slot A)) (v : Slot A)
      → index_of (key v.item) i (slot_keys key ss) ≡ some (i + j)
      → slot_keys key (set ss j v) ≡ slot_keys key ss
  unfolding index_of set
  slot_keys-set i j [] v h = refl
  slot_keys-set i zero (s ∷ ss) v h =
      ground (arith, index_of-ge (key v.item) (suc i) (slot_keys key ss) i)
  slot_keys-set i (suc j) (s ∷ ss) v h = ground (arith, slot_keys-set (suc i) j ss v)

  pub value-set :
      (k : K) (i j : ℕ) (ss : List (Slot A)) (v : Slot A)
      → v.active ≡ true
      → index_of (key v.item) i (slot_keys key ss) ≡ some (i + j)
      → value key k (set ss j v) ≡ (if key v.item == k then some v.item else value key k ss)
  unfolding index_of set value
  value-set k i j [] v on h = ground arith
  value-set k i zero (s ∷ ss) v on h =
      ground (arith, index_of-ge (key v.item) (suc i) (slot_keys key ss) i)
  value-set k i (suc j) (s ∷ ss) v on h = ground (arith, value-set k (suc i) j ss v on)

  pub slot_keys-deactivate :
      (j : ℕ) (ss : List (Slot A)) → slot_keys key (deactivate ss j) ≡ slot_keys key ss
  unfolding deactivate
  slot_keys-deactivate j [] = refl
  slot_keys-deactivate zero (s ∷ ss) = refl
  slot_keys-deactivate (suc j) (s ∷ ss) = ground (arith, slot_keys-deactivate j ss)

  pub value-deactivate :
      (k k' : K) (i j : ℕ) (ss : List (Slot A))
      → index_of k' i (slot_keys key ss) ≡ some (i + j)
      → value key k (deactivate ss j) ≡ (if k' == k then none else value key k ss)
  unfolding index_of deactivate value
  value-deactivate k k' i j [] h = ground arith
  value-deactivate k k' i zero (s ∷ ss) h =
      ground (arith, index_of-ge k' (suc i) (slot_keys key ss) i)
  value-deactivate k k' i (suc j) (s ∷ ss) h = ground (arith, value-deactivate k k' (suc i) j ss)

  pub value-snoc :
      (k : K) (ss : List (Slot A)) (v : Slot A)
      → contains (key v.item) (slot_keys key ss) ≡ false
      → value key k (ss ++ v ∷ [])
        ≡ (if key v.item == k then (if v.active then some v.item else none) else value key k ss)
  unfolding contains value
  value-snoc k [] v h = ground arith
  value-snoc k (s ∷ ss) v h = ground (arith, value-snoc k ss v)

  pub slot_keys-snoc :
      (ss : List (Slot A)) (v : Slot A)
      → slot_keys key (ss ++ v ∷ []) ≡ slot_keys key ss ++ key v.item ∷ []
  slot_keys-snoc [] v = refl
  slot_keys-snoc (s ∷ ss) v = ground (arith, slot_keys-snoc ss v)

  pub length-slot_keys : (ss : List (Slot A)) → length (slot_keys key ss) ≡ length ss
  length-slot_keys [] = refl
  length-slot_keys (s ∷ ss) = ground (arith, length-slot_keys ss)

  pub value-absent :
      (k : K) (ss : List (Slot A)) → contains k (slot_keys key ss) ≡ false → value key k ss ≡ none
  unfolding contains value
  value-absent k [] h = refl
  value-absent k (s ∷ ss) h = ground (arith, value-absent k ss)

  first_of_key-absent :
      (k : K) (ss : List (Slot A))
      → contains k (slot_keys key ss) ≡ false
      → first_of_key key k (active_items ss) ≡ none
  unfolding contains active_items first_of_key
  first_of_key-absent k [] h = refl
  first_of_key-absent k (s ∷ ss) h = ground (arith, first_of_key-absent k ss)

  -- What is collected in the end holds each key's value.
  pub first_of_key-active_items :
      (k : K) (ss : List (Slot A))
      → IsDistinct (slot_keys key ss)
      → first_of_key key k (active_items ss) ≡ value key k ss
  unfolding active_items first_of_key value
  first_of_key-active_items k [] u = refl
  first_of_key-active_items k (s ∷ ss) (fresh, u) =
      ground (arith, first_of_key-active_items k ss u, first_of_key-absent k ss)

  contains-active_items :
      (k : K) (ss : List (Slot A))
      → contains k (slot_keys key ss) ≡ false
      → contains k (map key (active_items ss)) ≡ false
  unfolding contains active_items
  contains-active_items k [] h = refl
  contains-active_items k (s ∷ ss) h = ground (arith, contains-active_items k ss)

  pub active_items-IsDistinct :
      (ss : List (Slot A)) → IsDistinct (slot_keys key ss) → IsDistinct (map key (active_items ss))
  unfolding active_items
  active_items-IsDistinct [] u = tt
  active_items-IsDistinct (s ∷ ss) (new, u) =
      ground (arith, active_items-IsDistinct ss u, contains-active_items (key s.item) ss new)
