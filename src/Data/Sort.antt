-- ===== src/Data/Sort.antt =====
-- `sort.Slice` and `sort.Strings` by insertion. Under a strict total order the sorted sequence of
-- distinct elements is unique (`ascending_unique`), so any sorting algorithm returns this one.
use zsh_pro.Prelude.{
  ◌≡◌, refl, Bool, true, false, ◌||◌, List, [], ◌∷◌, arith, Eq, ◌==◌, if◌then◌else◌, contains, All,
}
use zsh_pro.Data.Dict.{IsDistinct}

-- What `less` has to be, on the elements that satisfy `P`, for the result to be determined.
pub record IsStrictOrder {ℓ} {A : Type ℓ} (P : A → Type 0) (less : A → A → Bool) : Type ℓ where
  pub irrefl : (a : A) → less a a ≡ false
  pub trans : (a b c : A) → less a b ≡ true → less b c ≡ true → less a c ≡ true
  pub total : (a b : A) → P a → P b → less a b ≡ false → less b a ≡ false → a ≡ b

module _ {ℓ} {A : Type ℓ} (less : A → A → Bool) where
  unfoldable pub insert_sorted : A → List A → List A
  insert_sorted a [] = a ∷ []
  insert_sorted a (x ∷ xs) =
      let rest = insert_sorted a xs in if less a x then a ∷ x ∷ xs else x ∷ rest

  unfoldable pub sort : List A → List A
  unfolding insert_sorted
  sort [] = []
  sort (x ∷ xs) = insert_sorted x (sort xs)

  -- Each element is before all that follow it.
  abbrev pub IsAscending : List A → Type 0
  IsAscending [] = Unit {0}
  IsAscending (x ∷ xs) = All (λ y. less x y ≡ true) xs × IsAscending xs

module _ {ℓ} {A : Type ℓ} ⦃e : Eq A⦄ (less : A → A → Bool) where
  contains-insert_sorted :
      (k a : A) (xs : List A) → contains k (insert_sorted less a xs) ≡ (a == k || contains k xs)
  unfolding insert_sorted contains
  contains-insert_sorted k a [] = refl
  contains-insert_sorted k a (x ∷ xs) = ground (arith, contains-insert_sorted k a xs)

  pub contains-sort : (k : A) (xs : List A) → contains k (sort less xs) ≡ contains k xs
  unfolding sort contains
  contains-sort k [] = refl
  contains-sort k (x ∷ xs) =
      ground (arith, contains-insert_sorted k x (sort less xs), contains-sort k xs)

module _ {ℓ} {A : Type ℓ} (P : A → Type 0) (less : A → A → Bool) where
  P-insert_sorted : (a : A) (xs : List A) → P a → All P xs → All P (insert_sorted less a xs)
  unfolding insert_sorted
  P-insert_sorted a [] p h = (p, tt)
  P-insert_sorted a (x ∷ xs) p h = ground (arith, P-insert_sorted a xs)

  pub All-sort : (xs : List A) → All P xs → All P (sort less xs)
  unfolding sort
  All-sort [] h = tt
  All-sort (x ∷ xs) (p, h) = P-insert_sorted x (sort less xs) p (All-sort xs h)

module _ {ℓ} {A : Type ℓ} ⦃e : Eq A⦄ {P : A → Type 0} (less : A → A → Bool)
    (o : IsStrictOrder P less) where
  All-less :
      (a b : A) (xs : List A)
      → less a b ≡ true
      → All (λ y. less b y ≡ true) xs
      → All (λ y. less a y ≡ true) xs
  All-less a b [] h all = tt
  All-less a b (x ∷ xs) h (p, all) = (o.trans a b x h p, All-less a b xs h all)

  All-insert_sorted :
      (b a : A) (xs : List A)
      → less b a ≡ true
      → All (λ y. less b y ≡ true) xs
      → All (λ y. less b y ≡ true) (insert_sorted less a xs)
  unfolding insert_sorted
  All-insert_sorted b a [] h all = (h, tt)
  All-insert_sorted b a (x ∷ xs) h (p, all) = ground (arith, All-insert_sorted b a xs h all)

  insert_sorted-IsAscending :
      (a : A) (xs : List A)
      → P a
      → All P xs
      → contains a xs ≡ false
      → IsAscending less xs
      → IsAscending less (insert_sorted less a xs)
  unfolding insert_sorted contains
  insert_sorted-IsAscending a [] pa ps fresh h = (tt, tt)
  insert_sorted-IsAscending a (x ∷ xs) pa (px, ps) fresh (p, h) = ground (
    arith,
    insert_sorted-IsAscending a xs pa ps,
    All-insert_sorted x a xs,
    All-less a x xs,
    o.total a x pa px,
  )

  pub sort-IsAscending : (xs : List A) → All P xs → IsDistinct xs → IsAscending less (sort less xs)
  unfolding sort
  sort-IsAscending [] ps u = tt
  sort-IsAscending (x ∷ xs) (px, ps) (fresh, u) = ground (
    arith,
    insert_sorted-IsAscending x (sort less xs) px (All-sort P less xs ps),
    sort-IsAscending xs ps u,
    contains-sort less x xs,
  )

  less_of_contains :
      (a k : A) (xs : List A)
      → All (λ y. less a y ≡ true) xs
      → contains k xs ≡ true
      → less a k ≡ true
  unfolding contains
  less_of_contains a k [] all h = ground arith
  less_of_contains a k (x ∷ xs) (p, all) h = ground (arith, less_of_contains a k xs all)

  absent_of_All : (a : A) (xs : List A) → All (λ y. less a y ≡ true) xs → contains a xs ≡ false
  unfolding contains
  absent_of_All a [] all = refl
  absent_of_All a (x ∷ xs) (p, all) = ground (arith, absent_of_All a xs all, o.irrefl a)

  pub IsDistinct-of_IsAscending : (xs : List A) → IsAscending less xs → IsDistinct xs
  IsDistinct-of_IsAscending [] h = tt
  IsDistinct-of_IsAscending (x ∷ xs) (p, h) = (absent_of_All x xs p, IsDistinct-of_IsAscending xs h)

  heads_agree :
      (x y : A) (xs ys : List A)
      → All (λ z. less x z ≡ true) xs
      → All (λ z. less y z ≡ true) ys
      → contains y (x ∷ xs) ≡ true
      → contains x (y ∷ ys) ≡ true
      → x ≡ y
  unfolding contains
  heads_agree x y xs ys p q hy hx =
      ground
        (arith, less_of_contains x y xs p, less_of_contains y x ys q, o.trans x y x, o.irrefl x)

  tails_agree :
      (k x y : A) (xs ys : List A)
      → x ≡ y
      → contains x xs ≡ false
      → contains y ys ≡ false
      → contains k (x ∷ xs) ≡ contains k (y ∷ ys)
      → contains k xs ≡ contains k ys
  unfolding contains
  tails_agree k x y xs ys xy fx fy h = ground arith

  -- Ascending sequences with the same elements are equal.
  pub ascending_unique :
      (xs ys : List A)
      → IsAscending less xs
      → IsAscending less ys
      → ((k : A) → contains k xs ≡ contains k ys)
      → xs ≡ ys
  unfolding contains
  ascending_unique [] [] p q h = refl
  ascending_unique [] (y ∷ ys) p q h = ground (arith, h y)
  ascending_unique (x ∷ xs) [] p q h = ground (arith, h x)
  ascending_unique (x ∷ xs) (y ∷ ys) (px, p) (qy, q) h =
      let xy : x ≡ y = heads_agree x y xs ys px qy (ground (arith, h y)) (ground (arith, h x)) in
      let same : xs ≡ ys =
        ascending_unique xs ys p q
          (λ k. tails_agree k x y xs ys xy (absent_of_All x xs px) (absent_of_All y ys qy) (h k)) in
      cc
