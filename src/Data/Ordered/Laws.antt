-- ===== src/Data/Ordered/Laws.antt =====
-- Cutting an element out of a sequence without repeated keys, and shifting the later indexes.
use mathlib.Core.Option
use zsh_pro.Prelude.{
  ℕ, zero, suc, ◌+◌, ◌-◌, ◌≤◌, ◌≡◌, refl, false, not, ◌||◌, ◌&&◌, some, List, [], ◌∷◌, ◌++◌, arith,
  Eq, ◌==◌, nat_eq, ltb, if◌then◌else◌, contains, length, map, select,
}
use zsh_pro.Data.Dict.{Dict, lookup, IsDistinct}
use zsh_pro.Data.LastWins.{finals}
use zsh_pro.Data.Slots.{index_of}
use zsh_pro.Data.Slots.Laws.{index_of-ge}
use zsh_pro.Data.Ordered.{remove_at, shift_after}

abbrev shift : ℕ → ℕ → ℕ
shift p i = if ltb p i then i - 1 else i

pub lookup-shift_after {ℓ} :
    {K : Type ℓ} ⦃e : Eq K⦄ (k : K) (p : ℕ) (d : Dict K ℕ)
    → lookup k (shift_after p d) ≡ Option.map (shift p) (lookup k d)
unfolding lookup shift_after
lookup-shift_after k p [] = refl
lookup-shift_after k p ((j, i) ∷ d) = ground (arith, lookup-shift_after k p d)

index_of-suc {ℓ} :
    {K : Type ℓ} ⦃e : Eq K⦄ (k : K) (p i : ℕ) (ks : List K)
    → p ≤ i
    → Option.map (shift p) (index_of k (suc i) ks) ≡ index_of k i ks
unfolding index_of
index_of-suc k p i [] h = refl
index_of-suc k p i (j ∷ ks) h = ground (arith, index_of-suc k p (suc i) ks)

pub append_nil {ℓ} : {A : Type ℓ} (xs : List A) → xs ++ [] ≡ xs
append_nil [] = refl
append_nil (x ∷ xs) = ground (arith, append_nil xs)

pub append_snoc {ℓ} :
    {A : Type ℓ} (xs : List A) (x : A) (ys : List A) → (xs ++ x ∷ []) ++ ys ≡ xs ++ x ∷ ys
append_snoc [] x ys = refl
append_snoc (y ∷ xs) x ys = ground (arith, append_snoc xs x ys)

module _ {ℓ κ} {A : Type ℓ} {K : Type κ} ⦃e : Eq K⦄ (key : A → K) where
  -- All elements but those with a key.
  abbrev pub without : K → List A → List A
  without k = select (λ x. not (key x == k))

  pub without-absent : (k : K) (xs : List A) → contains k (map key xs) ≡ false → without k xs ≡ xs
  unfolding contains select
  without-absent k [] h = refl
  without-absent k (x ∷ xs) h = ground (arith, without-absent k xs)

  pub remove_at-without :
      (k : K) (i p : ℕ) (xs : List A)
      → index_of k i (map key xs) ≡ some (i + p)
      → IsDistinct (map key xs)
      → remove_at xs p ≡ without k xs
  unfolding index_of remove_at select
  remove_at-without k i p [] h u = ground arith
  remove_at-without k i zero (x ∷ xs) h u =
      ground (arith, index_of-ge k (suc i) (map key xs) i, without-absent k xs)
  remove_at-without k i (suc p) (x ∷ xs) h u = ground (arith, remove_at-without k (suc i) p xs)

  pub index_of-without :
      (k j : K) (i p : ℕ) (xs : List A)
      → index_of k i (map key xs) ≡ some (i + p)
      → IsDistinct (map key xs)
      → (k == j) ≡ false
      → index_of j i (map key (without k xs))
        ≡ Option.map (shift (i + p)) (index_of j i (map key xs))
  unfolding index_of select
  index_of-without k j i p [] h u ne = refl
  index_of-without k j i zero (x ∷ xs) h u ne = ground (
    arith,
    index_of-ge k (suc i) (map key xs) i,
    without-absent k xs,
    index_of-suc j i i (map key xs),
  )
  index_of-without k j i (suc p) (x ∷ xs) h u ne = ground (arith, index_of-without k j (suc i) p xs)

  pub contains-without :
      (k j : K) (xs : List A)
      → contains j (map key (without k xs)) ≡ (not (k == j) && contains j (map key xs))
  unfolding contains select
  contains-without k j [] = ground arith
  contains-without k j (x ∷ xs) = ground (arith, contains-without k j xs)

  pub without-IsDistinct :
      (k : K) (xs : List A) → IsDistinct (map key xs) → IsDistinct (map key (without k xs))
  unfolding select
  without-IsDistinct k [] u = tt
  without-IsDistinct k (x ∷ xs) (new, u) =
      ground (arith, without-IsDistinct k xs u, contains-without k (key x) xs)

  pub keys-snoc : (xs : List A) (a : A) → map key (xs ++ a ∷ []) ≡ map key xs ++ key a ∷ []
  keys-snoc [] a = refl
  keys-snoc (x ∷ xs) a = ground (arith, keys-snoc xs a)

  pub length-keys : (xs : List A) → length (map key xs) ≡ length xs
  length-keys [] = refl
  length-keys (x ∷ xs) = ground (arith, length-keys xs)

  pub contains-keys-snoc :
      (k : K) (xs : List A) (a : A)
      → contains k (map key (xs ++ a ∷ [])) ≡ (key a == k || contains k (map key xs))
  unfolding contains
  contains-keys-snoc k [] a = refl
  contains-keys-snoc k (x ∷ xs) a = ground (arith, contains-keys-snoc k xs a)

  -- The last occurrences of a sequence with one more element.
  pub finals-snoc :
      (xs : List A) (a : A) → finals key (xs ++ a ∷ []) ≡ without (key a) (finals key xs) ++ a ∷ []
  unfolding finals contains select
  finals-snoc [] a = refl
  finals-snoc (x ∷ xs) a = ground (arith, finals-snoc xs a, contains-keys-snoc (key x) xs a)
