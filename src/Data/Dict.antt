-- ===== src/Data/Dict.antt =====
-- Go maps, as association lists. Proofs elsewhere go by the laws.
use zsh_pro.Prelude.{
  ◌≡◌, refl, Bool, true, false, ◌||◌, Option, none, some, List, [], ◌∷◌, arith, Eq, ◌==◌,
  if◌then◌else◌, contains, select, contains-select, contains-append, ◌++◌,
}

abbrev pub Dict {ℓ κ} : Type ℓ → Type κ → Type (ℓ ⊔ κ)
Dict K V = List (K × V)

-- The keys in an order that nothing may depend on: Go's `range` over a map has none.
unfoldable pub keys {ℓ κ} : {K : Type ℓ} {V : Type κ} → Dict K V → List K
keys [] = []
keys ((k, v) ∷ d) = k ∷ keys d

abbrev pub is_some {ℓ} : {A : Type ℓ} → Option A → Bool
is_some none = false
is_some (some a) = true

-- Each key occurs once.
abbrev pub IsDistinct {ℓ} : {K : Type ℓ} ⦃e : Eq K⦄ → List K → Type 0
IsDistinct [] = Unit {0}
IsDistinct (k ∷ ks) = (contains k ks ≡ false) × IsDistinct ks

module _ {ℓ κ} {K : Type ℓ} {V : Type κ} ⦃e : Eq K⦄ where
  unfoldable pub lookup : K → Dict K V → Option V
  lookup k [] = none
  lookup k ((j, v) ∷ d) = if j == k then some v else lookup k d

  unfoldable pub insert : K → V → Dict K V → Dict K V
  insert k v [] = (k, v) ∷ []
  insert k v ((j, w) ∷ d) = let rest = insert k v d in if j == k then (k, v) ∷ d else (j, w) ∷ rest

  pub lookup-insert :
      (k j : K) (v : V) (d : Dict K V)
      → lookup j (insert k v d) ≡ (if k == j then some v else lookup j d)
  unfolding lookup insert
  lookup-insert k j v [] = refl
  lookup-insert k j v ((i, w) ∷ d) = ground (arith, lookup-insert k j v d)

  pub contains-keys : (k : K) (d : Dict K V) → contains k (keys d) ≡ is_some (lookup k d)
  unfolding lookup keys contains
  contains-keys k [] = refl
  contains-keys k ((j, v) ∷ d) = ground (arith, contains-keys k d)

  keys-insert :
      (k j : K) (v : V) (d : Dict K V)
      → contains j (keys (insert k v d)) ≡ (k == j || contains j (keys d))
  unfolding insert keys contains
  keys-insert k j v [] = refl
  keys-insert k j v ((i, w) ∷ d) = ground (arith, keys-insert k j v d)

  pub insert-IsDistinct :
      (k : K) (v : V) (d : Dict K V) → IsDistinct (keys d) → IsDistinct (keys (insert k v d))
  unfolding insert keys contains
  insert-IsDistinct k v [] u = (refl, tt)
  insert-IsDistinct k v ((j, w) ∷ d) (fresh, u) =
      ground (arith, insert-IsDistinct k v d u, keys-insert k j v d)

module _ {ℓ} {K : Type ℓ} ⦃e : Eq K⦄ where
  pub select-IsDistinct : (p : K → Bool) (ks : List K) → IsDistinct ks → IsDistinct (select p ks)
  unfolding select
  select-IsDistinct p [] u = tt
  select-IsDistinct p (k ∷ ks) (new, u) =
      ground (arith, select-IsDistinct p ks u, contains-select p k ks)

  pub append-IsDistinct :
      (xs ys : List K)
      → IsDistinct xs
      → IsDistinct ys
      → ((k : K) → contains k xs ≡ true → contains k ys ≡ false)
      → IsDistinct (xs ++ ys)
  unfolding contains
  append-IsDistinct [] ys u w apart = w
  append-IsDistinct (x ∷ xs) ys (new, u) w apart = (
    ground (arith, contains-append x xs ys, apart x),
    append-IsDistinct xs ys u w (λ k h. ground (arith, apart k)),
  )
