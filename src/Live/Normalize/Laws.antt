-- ===== src/Live/Normalize/Laws.antt =====
-- Normalisation keeps the last occurrence of each identity, and fails just where a check does.
use mathlib.Core.Option
use zsh_pro.Prelude.{
  ℕ, suc, ◌≡◌, refl, ap, ◌∙◌, List, [], ◌∷◌, arith, map, ok, ◌>>=◌, ◌>>◌, All, length,
}
use zsh_pro.Data.Dict.{Dict, insert, IsDistinct}
use zsh_pro.Data.LastWins.{
  keep_last-finals, last_indexes, finals, first_of_key, last_of, finals-IsDistinct,
  first_of_key-finals, finals_of_IsDistinct, finals-All, IsDistinct-of_length,
}
use zsh_pro.Live.Types.{Identity, identity_eq}
use zsh_pro.Live.Validate.{Checked}
use zsh_pro.Live.Normalize.{note_checked, normalize}

abbrev pub Passes : {A : Type 0} → (A → Checked) → List A → Type 0
Passes check = All (λ x. check x ≡ ok tt)

module _ {A : Type 0} (check : A → Checked) (key : A → Identity) (copy : A → A) where
  -- The checks alone, in their order.
  pub check_all : List A → Checked
  check_all [] = ok tt
  check_all (x ∷ xs) = do check x; check_all xs

  -- What is kept.
  pub kept : List A → List A
  kept xs = map copy (finals key xs)

  note_checked_lem :
      (i : ℕ) (xs : List A) (m : Dict Identity ℕ)
      → note_checked check key copy i xs m ≡ (check_all xs >>= λ _. ok (last_indexes key i xs m))
  unfolding note_checked check_all last_indexes
  note_checked_lem i [] m = refl
  note_checked_lem i (x ∷ xs) m = ground (arith, note_checked_lem (suc i) xs (insert (key x) i m))

  pub normalize-kept :
      (xs : List A) → normalize check key copy xs ≡ (check_all xs >>= λ _. ok (kept xs))
  unfolding normalize kept
  normalize-kept xs = ground (arith, note_checked_lem 0 xs [], keep_last-finals key 0 xs [])

  pub check_all-Passes : (xs : List A) → check_all xs ≡ ok tt → Passes check xs
  unfolding check_all
  check_all-Passes [] h = tt
  check_all-Passes (x ∷ xs) h = ground (arith, check_all-Passes xs)

  pub Passes-check_all : (xs : List A) → Passes check xs → check_all xs ≡ ok tt
  unfolding check_all
  Passes-check_all [] h = refl
  Passes-check_all (x ∷ xs) h = ground (arith, Passes-check_all xs)

  ok_parts :
      (xs ys : List A)
      → (check_all xs >>= λ _. ok (kept xs)) ≡ ok ys
      → (check_all xs ≡ ok tt) × (kept xs ≡ ys)
  ok_parts xs ys h = ground arith

  length-map : (xs : List A) → length (map copy xs) ≡ length xs
  length-map [] = refl
  length-map (x ∷ xs) = omega (arith, length-map xs)

  -- A normalisation that keeps the length has dropped nothing.
  pub normalize-length :
      (xs ys : List A)
      → normalize check key copy xs ≡ ok ys
      → length ys ≡ length xs
      → IsDistinct (map key xs)
  unfolding kept
  normalize-length xs ys h e =
      let (_, same) = ok_parts xs ys (rw normalize-kept at h) in
      IsDistinct-of_length key xs (ground (arith, length-map (finals key xs), same))

  module _ (copy_key : (x : A) → key (copy x) ≡ key x) where
    keys-map : (xs : List A) → map key (map copy xs) ≡ map key xs
    keys-map [] = refl
    keys-map (x ∷ xs) = ground (arith, copy_key x, keys-map xs)

    -- No identity is left twice.
    pub kept-IsDistinct : (xs : List A) → IsDistinct (map key (kept xs))
    unfolding kept
    kept-IsDistinct xs = rw keys-map (finals-IsDistinct key xs)

    first_of_key-map :
        (k : Identity) (xs : List A)
        → first_of_key key k (map copy xs) ≡ Option.map copy (first_of_key key k xs)
    unfolding first_of_key
    first_of_key-map k [] = refl
    first_of_key-map k (x ∷ xs) = ground (arith, copy_key x, first_of_key-map k xs)

    -- What is left of an identity is a copy of its last occurrence.
    pub first_of_key-kept :
        (k : Identity) (xs : List A)
        → first_of_key key k (kept xs) ≡ Option.map copy (last_of key k xs)
    unfolding kept
    first_of_key-kept k xs =
        first_of_key-map k (finals key xs) ∙ ap (Option.map copy) (first_of_key-finals key k xs)

    module _ (copy_check : (x : A) → check x ≡ ok tt → check (copy x) ≡ ok tt) where
      Passes-map : (xs : List A) → Passes check xs → Passes check (map copy xs)
      Passes-map [] h = tt
      Passes-map (x ∷ xs) (p, h) = (copy_check x p, Passes-map xs h)

      pub kept-Passes : (xs : List A) → Passes check xs → Passes check (kept xs)
      unfolding kept
      kept-Passes xs h = Passes-map (finals key xs) (finals-All key (λ x. check x ≡ ok tt) xs h)

      module _ (copy_idem : (x : A) → copy (copy x) ≡ copy x) where
        map_idem : (xs : List A) → map copy (map copy xs) ≡ map copy xs
        map_idem [] = refl
        map_idem (x ∷ xs) = ground (arith, copy_idem x, map_idem xs)

        kept-kept : (xs : List A) → kept (kept xs) ≡ kept xs
        unfolding kept
        kept-kept xs =
            rw
              (finals_of_IsDistinct key (map copy (finals key xs))
                (rw keys-map (finals-IsDistinct key xs)))
              (map_idem (finals key xs))

        -- The whole of what a successful normalisation gives.
        pub normalize_ok :
            (xs ys : List A)
            → normalize check key copy xs ≡ ok ys
            → Passes check xs
              × Passes check ys
              × IsDistinct (map key ys)
              × ((k : Identity) → first_of_key key k ys ≡ Option.map copy (last_of key k xs))
              × (normalize check key copy ys ≡ ok ys)
        normalize_ok xs ys h =
            let (checked, same) = ok_parts xs ys (rw normalize-kept at h) in
            let passed = check_all-Passes xs checked in
            let passed' = kept-Passes xs passed in
            rw (← same) (
              passed,
              passed',
              kept-IsDistinct xs,
              (λ k. first_of_key-kept k xs),
              rw (normalize-kept, Passes-check_all (kept xs) passed') (ap ok (kept-kept xs)),
            )
