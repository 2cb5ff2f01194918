-- ===== src/Data/LastWins.antt =====
-- The two passes by which the program keeps the last occurrence of each key: a map from each key
-- to its last index, then a scan that keeps the elements that stand at their key's index.
use zsh_pro.Prelude.{
  ℕ, suc, ◌≤◌, ◌≡◌, refl, true, false, Option, none, some, List, [], ◌∷◌, arith, Eq, ◌==◌, nat_eq,
  if◌then◌else◌, map, contains, length, All, ◌≢◌,
}
use zsh_pro.Data.Dict.{Dict, lookup, insert, lookup-insert, IsDistinct}

-- Reading a Go map gives 0 for a key that is absent.
abbrev pub or_zero : Option ℕ → ℕ
or_zero none = 0
or_zero (some n) = n

module _ {ℓ κ} {A : Type ℓ} {K : Type κ} ⦃e : Eq K⦄ (key : A → K) where
  unfoldable pub last_indexes : ℕ → List A → Dict K ℕ → Dict K ℕ
  last_indexes i [] m = m
  last_indexes i (x ∷ xs) m = last_indexes (suc i) xs (insert (key x) i m)

  unfoldable pub keep_last : Dict K ℕ → ℕ → List A → List A
  keep_last m i [] = []
  keep_last m i (x ∷ xs) =
      let rest = keep_last m (suc i) xs in
      if or_zero (lookup (key x) m) == i then x ∷ rest else rest

  unfoldable pub last_wins : List A → List A
  unfolding last_indexes keep_last
  last_wins xs = keep_last (last_indexes 0 xs []) 0 xs

  -- What the two passes are for: an element stays if its key does not occur behind it.
  unfoldable pub finals : List A → List A
  finals [] = []
  finals (x ∷ xs) = let rest = finals xs in if contains (key x) (map key xs) then rest else x ∷ rest

  -- The element that the last occurrence of a key holds.
  unfoldable pub last_of : K → List A → Option A
  last_of k [] = none
  last_of k (x ∷ xs) = elim (last_of k xs) [
    | some y ↦ some y
    | none ↦ if key x == k then some x else none
  ]

  -- The first element with a key.
  unfoldable pub first_of_key : K → List A → Option A
  first_of_key k [] = none
  first_of_key k (x ∷ xs) = if key x == k then some x else first_of_key k xs

  last_indexes-absent :
      (k : K) (i : ℕ) (xs : List A) (m : Dict K ℕ)
      → contains k (map key xs) ≡ false
      → lookup k (last_indexes i xs m) ≡ lookup k m
  unfolding last_indexes contains
  last_indexes-absent k i [] m h = refl
  last_indexes-absent k i (x ∷ xs) m h =
      ground
        (arith, last_indexes-absent k (suc i) xs (insert (key x) i m), lookup-insert (key x) k i m)

  last_indexes-present :
      (k : K) (i : ℕ) (xs : List A) (m : Dict K ℕ)
      → contains k (map key xs) ≡ true
      → i ≤ or_zero (lookup k (last_indexes i xs m))
  unfolding last_indexes contains
  last_indexes-present k i [] m h = ground arith
  last_indexes-present k i (x ∷ xs) m h = ground (
    arith,
    last_indexes-present k (suc i) xs (insert (key x) i m),
    last_indexes-absent k (suc i) xs (insert (key x) i m),
    lookup-insert (key x) k i m,
  )

  pub keep_last-finals :
      (i : ℕ) (xs : List A) (m : Dict K ℕ) → keep_last (last_indexes i xs m) i xs ≡ finals xs
  unfolding last_indexes keep_last finals
  keep_last-finals i [] m = refl
  keep_last-finals i (x ∷ xs) m = ground (
    arith,
    keep_last-finals (suc i) xs (insert (key x) i m),
    last_indexes-present (key x) (suc i) xs (insert (key x) i m),
    last_indexes-absent (key x) (suc i) xs (insert (key x) i m),
    lookup-insert (key x) (key x) i m,
  )

  -- The two passes keep exactly the last occurrences, in their order.
  pub last_wins-finals : (xs : List A) → last_wins xs ≡ finals xs
  unfolding last_wins
  last_wins-finals xs = keep_last-finals 0 xs []

  -- The same keys are left.
  pub contains-finals :
      (k : K) (xs : List A) → contains k (map key (finals xs)) ≡ contains k (map key xs)
  unfolding finals contains
  contains-finals k [] = refl
  contains-finals k (x ∷ xs) = ground (arith, contains-finals k xs)

  pub finals-IsDistinct : (xs : List A) → IsDistinct (map key (finals xs))
  unfolding finals contains
  finals-IsDistinct [] = tt
  finals-IsDistinct (x ∷ xs) = ground (arith, finals-IsDistinct xs, contains-finals (key x) xs)

  last_of-absent : (k : K) (xs : List A) → contains k (map key xs) ≡ false → last_of k xs ≡ none
  unfolding last_of contains
  last_of-absent k [] h = refl
  last_of-absent k (x ∷ xs) h = ground (arith, last_of-absent k xs)

  last_of-present : (k : K) (xs : List A) → contains k (map key xs) ≡ true → last_of k xs ≢ none
  unfolding last_of contains
  last_of-present k [] h = ground arith
  last_of-present k (x ∷ xs) h = ground (arith, last_of-present k xs)

  -- A lookup in what is left finds the last occurrence.
  pub first_of_key-finals : (k : K) (xs : List A) → first_of_key k (finals xs) ≡ last_of k xs
  unfolding first_of_key finals last_of
  first_of_key-finals k [] = refl
  first_of_key-finals k (x ∷ xs) =
      ground (arith, first_of_key-finals k xs, last_of-absent k xs, last_of-present k xs)

  -- Where no key is repeated nothing is dropped.
  pub finals_of_IsDistinct : (xs : List A) → IsDistinct (map key xs) → finals xs ≡ xs
  unfolding finals contains
  finals_of_IsDistinct [] u = refl
  finals_of_IsDistinct (x ∷ xs) u = ground (arith, finals_of_IsDistinct xs)

  pub finals-All : (P : A → Type 0) (xs : List A) → All P xs → All P (finals xs)
  unfolding finals
  finals-All P [] h = tt
  finals-All P (x ∷ xs) h = ground (arith, finals-All P xs)

  -- Nor does it matter which occurrence is taken.
  pub last_of-first_of_key :
      (k : K) (xs : List A) → IsDistinct (map key xs) → last_of k xs ≡ first_of_key k xs
  last_of-first_of_key k xs u = rw (← first_of_key-finals, finals_of_IsDistinct xs u)

  pub first_of_key-absent :
      (k : K) (xs : List A) → contains k (map key xs) ≡ false → first_of_key k xs ≡ none
  unfolding first_of_key contains
  first_of_key-absent k [] h = refl
  first_of_key-absent k (x ∷ xs) h = ground (arith, first_of_key-absent k xs)

  length-finals-le : (xs : List A) → length (finals xs) ≤ length xs
  unfolding finals
  length-finals-le [] = omega arith
  length-finals-le (x ∷ xs) = ground (arith, length-finals-le xs)

  -- If nothing is dropped, no key is repeated.
  pub IsDistinct-of_length :
      (xs : List A) → length (finals xs) ≡ length xs → IsDistinct (map key xs)
  unfolding finals
  IsDistinct-of_length [] h = tt
  IsDistinct-of_length (x ∷ xs) h = ground (arith, length-finals-le xs, IsDistinct-of_length xs)
