-- ===== src/Data/Slots/Ops.antt =====
-- `append_slot`, `put` and `drop` keep the index map exact, and change what one key holds.
use zsh_pro.Prelude.{
  ◌+◌, ◌≡◌, refl, Bool, true, false, none, some, [], arith, Eq, ◌==◌, if◌then◌else◌, contains,
  length, Option-cases, inl, inr,
}
use zsh_pro.Data.Dict.{lookup, lookup-insert, is_some}
use zsh_pro.Data.Slots.{Slots, index_of, append_slot, put, drop, value, slot_keys, IsIndexed}
use zsh_pro.Data.Slots.Laws.{
  index_of-contains, index_of-snoc, snoc-IsDistinct, slot_keys-set, slot_keys-deactivate,
  slot_keys-snoc, length-slot_keys, value-set, value-deactivate, value-snoc, value-absent,
}

module _ {ℓ κ} {A : Type ℓ} {K : Type κ} ⦃e : Eq K⦄ (key : A → K) where
  abbrev pub empty : Slots A K
  empty = record { index = []; slots = [] }

  pub empty-IsIndexed : IsIndexed key empty
  unfolding lookup index_of
  empty-IsIndexed = record { exact = λ k. refl; distinct = tt }

  contains_of_lookup :
      (t : Slots A K) (k : K)
      → IsIndexed key t
      → contains k (slot_keys key t.slots) ≡ is_some (lookup k t.index)
  contains_of_lookup t k h =
      ground (arith, h.exact k, index_of-contains k 0 (slot_keys key t.slots))

  pub append_slot-IsIndexed :
      (t : Slots A K) (a : A) (on : Bool)
      → IsIndexed key t
      → lookup (key a) t.index ≡ none
      → IsIndexed key (append_slot key t a on)
  unfolding append_slot
  append_slot-IsIndexed t a on h new =
      let fresh : contains (key a) (slot_keys key t.slots) ≡ false =
        rw (contains_of_lookup t (key a) h, new) in
      record {
        exact = λ k. rw (slot_keys-snoc key t.slots) (
            ground (
              arith,
              lookup-insert (key a) k (length t.slots) t.index,
              h.exact k,
              index_of-snoc k (key a) 0 (slot_keys key t.slots) fresh,
              length-slot_keys key t.slots,
            ));
        distinct =
            rw (slot_keys-snoc key t.slots)
              (snoc-IsDistinct (key a) (slot_keys key t.slots) fresh h.distinct);
      }

  pub value-append_slot :
      (t : Slots A K) (a : A) (on : Bool) (k : K)
      → IsIndexed key t
      → lookup (key a) t.index ≡ none
      → value key k (append_slot key t a on).slots
        ≡ (if key a == k then (if on then some a else none) else value key k t.slots)
  unfolding append_slot
  value-append_slot t a on k h new =
      value-snoc key k t.slots (record { item = a; active = on })
        (rw (contains_of_lookup t (key a) h, new))

  pub put-IsIndexed : (t : Slots A K) (a : A) → IsIndexed key t → IsIndexed key (put key t a)
  unfolding put
  put-IsIndexed t a h = elim (Option-cases (lookup (key a) t.index)) [
    | inl new ↦ rw (new, put) (append_slot-IsIndexed t a true h new)
    | inr (i, old) ↦
        let at : index_of (key a) 0 (slot_keys key t.slots) ≡ some (0 + i) =
          ground (arith, h.exact (key a)) in
        let same = slot_keys-set key 0 i t.slots (record { item = a; active = true }) at in
        rw (old, put) (record { exact = λ k. rw same (h.exact k); distinct = rw same h.distinct })
  ]

  pub drop-IsIndexed : (t : Slots A K) (k : K) → IsIndexed key t → IsIndexed key (drop key t k)
  unfolding drop
  drop-IsIndexed t k h = elim (Option-cases (lookup k t.index)) [
    | inl new ↦ rw (new, drop) h
    | inr (i, old) ↦
        let same = slot_keys-deactivate key i t.slots in
        rw (old, drop) (record { exact = λ j. rw same (h.exact j); distinct = rw same h.distinct })
  ]

  -- A put key holds the new item, and every other key what it held.
  pub value-put :
      (t : Slots A K) (a : A) (k : K)
      → IsIndexed key t
      → value key k (put key t a).slots ≡ (if key a == k then some a else value key k t.slots)
  unfolding put append_slot
  value-put t a k h = elim (Option-cases (lookup (key a) t.index)) [
    | inl new ↦
        let fresh : contains (key a) (slot_keys key t.slots) ≡ false =
          rw (contains_of_lookup t (key a) h, new) in
        rw (new, put) (value-snoc key k t.slots (record { item = a; active = true }) fresh)
    | inr (i, old) ↦
        let at : index_of (key a) 0 (slot_keys key t.slots) ≡ some (0 + i) =
          ground (arith, h.exact (key a)) in
        rw (old, put) (value-set key k 0 i t.slots (record { item = a; active = true }) refl at)
  ]

  -- A dropped key holds nothing, and every other key what it held.
  pub value-drop :
      (t : Slots A K) (k' k : K)
      → IsIndexed key t
      → value key k (drop key t k').slots ≡ (if k' == k then none else value key k t.slots)
  unfolding drop
  value-drop t k' k h = elim (Option-cases (lookup k' t.index)) [
    | inl new ↦
        let fresh : contains k' (slot_keys key t.slots) ≡ false =
          rw (contains_of_lookup t k' h, new) in
        rw (new, drop) (ground (arith, value-absent key k' t.slots fresh))
    | inr (i, old) ↦
        let at : index_of k' 0 (slot_keys key t.slots) ≡ some (0 + i) =
          ground (arith, h.exact k') in
        rw (old, drop) (value-deactivate key k k' 0 i t.slots at)
  ]
