-- ===== src/Data/Ordered/Exact.antt =====
-- The index map stays exact, and what is left is the last occurrence of each key, in order.
use zsh_pro.Prelude.{
  ◌+◌, ◌≡◌, refl, sym, ◌∙◌, ap, false, ◌||◌, some, List, [], ◌∷◌, ◌++◌, arith, Eq, ◌==◌, nat_eq,
  contains, length, map, Option-cases, inl, inr,
}
use zsh_pro.Data.Dict.{lookup, lookup-insert, IsDistinct}
use zsh_pro.Data.LastWins.{finals}
use zsh_pro.Data.Slots.{index_of}
use zsh_pro.Data.Slots.Laws.{index_of-contains, index_of-snoc, snoc-IsDistinct}
use zsh_pro.Data.Ordered.{
  remove_at, shift_after, Ordered, no_items, cut, append_item, move_to_end, move_all,
}
use zsh_pro.Data.Ordered.Laws.{
  append_nil, append_snoc, lookup-shift_after, without, without-absent, remove_at-without,
  index_of-without, contains-without, without-IsDistinct, keys-snoc, length-keys,
  contains-keys-snoc, finals-snoc,
}

module _ {ℓ κ} {A : Type ℓ} {K : Type κ} ⦃e : Eq K⦄ (key : A → K) where
  -- The index map is exact, and no key is held twice.
  pub record IsExact (t : Ordered A K) : Type (ℓ ⊔ κ) where
    pub exact : (k : K) → lookup k t.indexes ≡ index_of k 0 (map key t.items)
    pub distinct : IsDistinct (map key t.items)

  pub no_items-IsExact : IsExact no_items
  unfolding lookup index_of
  no_items-IsExact = record { exact = λ k. refl; distinct = tt }

  append_item-IsExact :
      (t : Ordered A K) (a : A)
      → ((k : K) → (key a == k) ≡ false → lookup k t.indexes ≡ index_of k 0 (map key t.items))
      → contains (key a) (map key t.items) ≡ false
      → IsDistinct (map key t.items)
      → IsExact (append_item key t a)
  unfolding append_item
  append_item-IsExact t a h new u = record {
    exact = λ k. rw (keys-snoc key t.items a) (
        ground (
          arith,
          h k,
          lookup-insert (key a) k (length t.items) t.indexes,
          index_of-snoc k (key a) 0 (map key t.items) new,
          length-keys key t.items,
        ));
    distinct = rw (keys-snoc key t.items a) (snoc-IsDistinct (key a) (map key t.items) new u);
  }

  -- One step: the key goes to the end, and the map stays exact.
  pub move_to_end-IsExact :
      (t : Ordered A K) (a : A)
      → IsExact t
      → IsExact (move_to_end key t a)
        × ((move_to_end key t a).items ≡ without key (key a) t.items ++ a ∷ [])
  unfolding move_to_end cut
  move_to_end-IsExact t a h = elim (Option-cases (lookup (key a) t.indexes)) [
    | inl none_yet ↦
        let new : contains (key a) (map key t.items) ≡ false =
          ground (arith, h.exact (key a), index_of-contains (key a) 0 (map key t.items)) in
        rw (none_yet, cut, move_to_end)
          (
            append_item-IsExact t a (λ k ne. h.exact k) new h.distinct,
            ap (λ xs. xs ++ a ∷ []) (sym (without-absent key (key a) t.items new)),
          )
    | inr (p, old) ↦
        let at : index_of (key a) 0 (map key t.items) ≡ some (0 + p) =
          ground (arith, h.exact (key a)) in
        let same = remove_at-without key (key a) 0 p t.items at h.distinct in
        rw (old, cut, move_to_end)
          (
            append_item-IsExact
                (record { items = remove_at t.items p; indexes = shift_after p t.indexes }) a
                (λ k ne. rw same (
                  ground (
                    arith,
                    lookup-shift_after k p t.indexes,
                    h.exact k,
                    index_of-without key (key a) k 0 p t.items at h.distinct ne,
                  )))
                (rw same (ground (arith, contains-without key (key a) (key a) t.items)))
                (rw same (without-IsDistinct key (key a) t.items h.distinct)),
            ap (λ xs. xs ++ a ∷ []) same,
          )
  ]

  -- A sequence of steps, from what the last occurrences of an earlier one have left.
  move_all-from :
      (before xs : List A) (t : Ordered A K)
      → IsExact t
      → t.items ≡ finals key before
      → IsExact (move_all key t xs) × ((move_all key t xs).items ≡ finals key (before ++ xs))
  unfolding move_all
  move_all-from before [] t h e = (h, e ∙ ap (finals key) (sym (append_nil before)))
  move_all-from before (x ∷ xs) t h e =
      let (h', e') = move_to_end-IsExact t x h in
      let (done, all) =
        move_all-from (before ++ x ∷ []) xs (move_to_end key t x) h'
          (e' ∙ ap (λ ys. without key (key x) ys ++ x ∷ []) e ∙ sym (finals-snoc key before x)) in
      (done, all ∙ ap (finals key) (append_snoc before x xs))

  -- From nothing, the last occurrences are left, in order, each under its index.
  pub move_all-finals :
      (xs : List A)
      → IsExact (move_all key no_items xs) × ((move_all key no_items xs).items ≡ finals key xs)
  unfolding finals
  move_all-finals xs = move_all-from [] xs no_items no_items-IsExact refl

  -- The keys that are held after a step.
  pub contains-move_to_end :
      (k : K) (t : Ordered A K) (a : A)
      → IsExact t
      → contains k (map key (move_to_end key t a).items)
        ≡ (key a == k || contains k (map key t.items))
  contains-move_to_end k t a h =
      let (_, same) = move_to_end-IsExact t a h in
      ap (λ xs. contains k (map key xs)) same
      ∙ ground (
        arith,
        contains-keys-snoc key k (without key (key a) t.items) a,
        contains-without key (key a) k t.items,
      )

  pub move_all-IsExact : (t : Ordered A K) (xs : List A) → IsExact t → IsExact (move_all key t xs)
  unfolding move_all
  move_all-IsExact t [] h = h
  move_all-IsExact t (x ∷ xs) h =
      move_all-IsExact (move_to_end key t x) xs (move_to_end-IsExact t x h).0

  pub contains-move_all :
      (k : K) (t : Ordered A K) (xs : List A)
      → IsExact t
      → contains k (map key (move_all key t xs).items)
        ≡ (contains k (map key xs) || contains k (map key t.items))
  unfolding move_all contains
  contains-move_all k t [] h = refl
  contains-move_all k t (x ∷ xs) h = ground (
    arith,
    contains-move_all k (move_to_end key t x) xs (move_to_end-IsExact t x h).0,
    contains-move_to_end k t x h,
  )

  pub move_all-append :
      (t : Ordered A K) (xs ys : List A)
      → move_all key t (xs ++ ys) ≡ move_all key (move_all key t xs) ys
  unfolding move_all
  move_all-append t [] ys = refl
  move_all-append t (x ∷ xs) ys = move_all-append (move_to_end key t x) xs ys
