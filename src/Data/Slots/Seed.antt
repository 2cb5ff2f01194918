-- ===== src/Data/Slots/Seed.antt =====
-- The initial slots of a sequence whose keys are distinct.
use zsh_pro.Prelude.{
  ◌≡◌, refl, Bool, false, Option, none, some, List, [], ◌∷◌, arith, Eq, if◌then◌else◌, contains,
  All, map, length,
}
use zsh_pro.Data.Dict.{lookup, lookup-insert, IsDistinct}
use zsh_pro.Data.LastWins.{first_of_key, first_of_key-absent}
use zsh_pro.Data.Slots.{Slots, append_slot, append_all, value, IsIndexed}
use zsh_pro.Data.Slots.Ops.{append_slot-IsIndexed, value-append_slot, empty, empty-IsIndexed}

abbrev pub found {ℓ} : {A : Type ℓ} → (A → Bool) → Option A → Option A → Option A
found on (some x) old = if on x then some x else none
found on none old = old

module _ {ℓ κ} {A : Type ℓ} {K : Type κ} ⦃e : Eq K⦄ (key : A → K) (on : A → Bool) where
  abbrev Fresh : Slots A K → List A → Type 0
  Fresh t = All (λ x. lookup (key x) t.index ≡ none)

  Fresh-step :
      (t : Slots A K) (a : A) (xs : List A)
      → Fresh t xs
      → contains (key a) (map key xs) ≡ false
      → Fresh (append_slot key t a (on a)) xs
  unfolding append_slot contains
  Fresh-step t a [] h new = tt
  Fresh-step t a (x ∷ xs) h new =
      ground (arith, Fresh-step t a xs, lookup-insert (key a) (key x) (length t.slots) t.index)

  pub append_all-IsIndexed :
      (t : Slots A K) (xs : List A)
      → IsIndexed key t
      → Fresh t xs
      → IsDistinct (map key xs)
      → IsIndexed key (append_all key on t xs)
  unfolding append_all
  append_all-IsIndexed t [] h f u = h
  append_all-IsIndexed t (x ∷ xs) h (fx, f) (new, u) =
      append_all-IsIndexed (append_slot key t x (on x)) xs
        (append_slot-IsIndexed key t x (on x) h fx) (Fresh-step t x xs f new) u

  pub value-append_all :
      (t : Slots A K) (xs : List A) (k : K)
      → IsIndexed key t
      → Fresh t xs
      → IsDistinct (map key xs)
      → value key k (append_all key on t xs).slots
        ≡ found on (first_of_key key k xs) (value key k t.slots)
  unfolding append_all first_of_key
  value-append_all t [] k h f u = refl
  value-append_all t (x ∷ xs) k h (fx, f) (new, u) = ground (
    arith,
    value-append_all (append_slot key t x (on x)) xs k (append_slot-IsIndexed key t x (on x) h fx)
        (Fresh-step t x xs f new) u,
    value-append_slot key t x (on x) k h fx,
    first_of_key-absent key (key x) xs new,
  )

  Fresh-empty : (xs : List A) → Fresh (empty key) xs
  unfolding lookup
  Fresh-empty [] = tt
  Fresh-empty (x ∷ xs) = (refl, Fresh-empty xs)

  -- From no slots.
  pub seeded-IsIndexed :
      (xs : List A) → IsDistinct (map key xs) → IsIndexed key (append_all key on (empty key) xs)
  seeded-IsIndexed xs u =
      append_all-IsIndexed (empty key) xs (empty-IsIndexed key) (Fresh-empty xs) u

  pub value-seeded :
      (xs : List A) (k : K)
      → IsDistinct (map key xs)
      → value key k (append_all key on (empty key) xs).slots ≡ found on (first_of_key key k xs) none
  unfolding value
  value-seeded xs k u = value-append_all (empty key) xs k (empty-IsIndexed key) (Fresh-empty xs) u
