-- ===== src/Activate/Patch/RoundTrip.antt =====
-- A live patch takes a shell forward, and its replacement reverse takes it back.
use zsh_pro.Prelude.{
  ◌≡◌, sym, ◌∙◌, Bool, true, Option, some, [], arith, ok, if◌then◌else◌, contains, List, ◌||◌, All,
}
use zsh_pro.Data.Dict.{lookup, keys, IsDistinct, is_some}
use zsh_pro.Data.Sort.{sort, contains-sort, sort-IsAscending, IsDistinct-of_IsAscending}
use zsh_pro.Live.Types.{Identity, identity_eq, LiveValue, LiveIdentityState}
use zsh_pro.Live.Normalize.{normalize_live_states}
use zsh_pro.Live.Normalize.States.{normalize_live_states_ok}
use zsh_pro.Live.Observed.{observed, observed_again, held-observed, IsSound}
use zsh_pro.Worktree.Order.{identity_less, identity_less-IsStrictOrder, IsValidIdentity}
use zsh_pro.Worktree.Diff.{present_state_map, all_identities}
use zsh_pro.Worktree.Diff.Changes.{
  lookup-present_state_map, contains-all_identities, all_identities-IsDistinct,
  all_identities-valid, present_states-IsDistinct, present_states-valid,
}
use zsh_pro.Worktree.Diff.Laws.{IsCanonical, observed-IsCanonical, observed-IsSound}
use zsh_pro.Activate.Plan.{Op, LivePatch}
use zsh_pro.Activate.Patch.{
  live_state_values, diff_live_states, live_changes_to_ops, build_live_patch,
}
use zsh_pro.Activate.Patch.Agree.{
  keys-clone_dict, lookup-clone_dict, live_state_values-clone_dict, same_order,
}
use zsh_pro.Activate.Patch.Run.{Shell, run}
use zsh_pro.Activate.Patch.Steps.{Planned, collect_changes-Planned}

-- The identities that two captures say something of.
abbrev pub managed : List LiveIdentityState → List LiveIdentityState → Identity → Bool
managed before after k = is_some (observed k before) || is_some (observed k after)

module _ (before xs : List LiveIdentityState) (hx : normalize_live_states before ≡ ok xs) where
  lookup-live_state_values : (k : Identity) → lookup k (live_state_values xs) ≡ observed k before
  lookup-live_state_values k =
      let n = normalize_live_states_ok before xs hx in
      rw
        (
          live_state_values-clone_dict xs,
          lookup-clone_dict,
          lookup-present_state_map k xs n.2,
          held-observed k before xs hx,
        )
        (observed_again k before)

  values-sound :
      (k : Identity) (v : LiveValue)
      → lookup k (live_state_values xs) ≡ some v
      → IsSound k v × IsCanonical v
  values-sound k v h =
      let e = sym (lookup-live_state_values k) ∙ h in
      (observed-IsSound k before xs v hx e, observed-IsCanonical k before v e)

  values-IsDistinct : IsDistinct (keys (live_state_values xs))
  unfolding present_state_map keys
  values-IsDistinct =
      rw (live_state_values-clone_dict xs, keys-clone_dict) (present_states-IsDistinct xs [] tt)

  values-valid : All IsValidIdentity (keys (live_state_values xs))
  unfolding present_state_map keys
  values-valid =
      rw (live_state_values-clone_dict xs, keys-clone_dict)
        (present_states-valid xs [] (normalize_live_states_ok before xs hx).1 tt)

-- What one direction of a patch does: its operations exist, and take any shell that holds the
-- values before to one that holds the values after, leaving all other identities alone.
abbrev pub Moves : List Op → List LiveIdentityState → List LiveIdentityState → Type 0
Moves ops before after =
    (sh : Shell)
    → ((k : Identity) → managed before after k ≡ true → sh k ≡ observed k before)
    → (j : Identity) → run ops sh j ≡ (if managed before after j then observed j after else sh j)

module _ (before xs after ys : List LiveIdentityState) (hx : normalize_live_states before ≡ ok xs)
    (hy : normalize_live_states after ≡ ok ys) where
  abbrev identities : List Identity
  identities = sort identity_less (all_identities (live_state_values xs) (live_state_values ys))

  contains-identities : (k : Identity) → contains k identities ≡ managed before after k
  contains-identities k =
      contains-sort identity_less k (all_identities (live_state_values xs) (live_state_values ys))
      ∙ contains-all_identities k (live_state_values xs) (live_state_values ys)
      ∙ rw (lookup-live_state_values before xs hx k, lookup-live_state_values after ys hy k)

  identities-IsDistinct : IsDistinct identities
  identities-IsDistinct =
      let all = all_identities (live_state_values xs) (live_state_values ys) in
      IsDistinct-of_IsAscending identity_less identity_less-IsStrictOrder identities (
        sort-IsAscending identity_less identity_less-IsStrictOrder all
          (all_identities-valid _ _ (values-valid before xs hx) (values-valid after ys hy))
          (all_identities-IsDistinct _ _ (values-IsDistinct before xs hx)
            (values-IsDistinct after ys hy)))

  planned :
      Planned
        (live_state_values xs)
        (live_state_values ys)
        (values-sound before xs hx)
        (values-sound after ys hy)
        identities
  planned =
      collect_changes-Planned (live_state_values xs) (live_state_values ys)
        (values-sound before xs hx) (values-sound after ys hy) identities identities-IsDistinct

  pub one_way :
      (ops : List Op) × (live_changes_to_ops (diff_live_states xs ys) xs ys ≡ ok ops)
      × Moves ops before after
  unfolding live_changes_to_ops diff_live_states all_identities Planned
  one_way =
      let (ops, made, moves) = planned in
      (
        ops,
        rw same_order made,
        λ sh start j.
            moves sh
              (λ k m.
                start k (sym (contains-identities k) ∙ m)
                ∙ sym (lookup-live_state_values before xs hx k))
              j
            ∙ rw (contains-identities j, lookup-live_state_values after ys hy j),
      )

-- Where both captures normalise, BuildLivePatch succeeds. Its forward operations take any shell
-- that holds the values before to one that holds the values after, its reverse operations do the
-- opposite, and neither touches an identity that no capture speaks of.
pub build_live_patch-Moves :
    (before xs after ys : List LiveIdentityState)
    → normalize_live_states before ≡ ok xs
    → normalize_live_states after ≡ ok ys
    → (p : LivePatch) × (build_live_patch before after ≡ ok p)
      × Moves p.forward before after
      × Moves p.replacement_reverse after before
unfolding build_live_patch
build_live_patch-Moves before xs after ys hx hy =
    let (f, made_f, moves_f) = one_way before xs after ys hx hy in
    let (r, made_r, moves_r) = one_way after ys before xs hy hx in
    (record { forward = f; replacement_reverse = r }, rw (hx, hy, made_f, made_r), moves_f, moves_r)

is_managed :
    (before after : List LiveIdentityState) (k : Identity) (v : Option LiveValue)
    → managed after before k ≡ true
    → (if managed before after k then observed k after else v) ≡ observed k after
is_managed before after k v m = ground arith

unmanaged :
    (before after : List LiveIdentityState) (k : Identity) (v : Option LiveValue)
    → (managed before after k ≡ true → v ≡ observed k before)
    → (if managed after before k
        then observed k before
        else if managed before after k
        then observed k after
        else v)
      ≡ v
unmanaged before after k v h = ground arith

-- Running the forward operations of a patch and then its replacement reverse gives back the shell.
pub build_live_patch_undo :
    (before xs after ys : List LiveIdentityState) (p : LivePatch) (sh : Shell)
    → normalize_live_states before ≡ ok xs
    → normalize_live_states after ≡ ok ys
    → build_live_patch before after ≡ ok p
    → ((k : Identity) → managed before after k ≡ true → sh k ≡ observed k before)
    → (j : Identity) → run p.replacement_reverse (run p.forward sh) j ≡ sh j
build_live_patch_undo before xs after ys p sh hx hy h start j =
    let (q, made, f, r) = build_live_patch-Moves before xs after ys hx hy in
    let same : q ≡ p = ground (arith, made) in
    let forward : Moves p.forward before after = rw (← same) f in
    let back : Moves p.replacement_reverse after before = rw (← same) r in
    back (run p.forward sh) (λ k m. forward sh start k ∙ is_managed before after k (sh k) m) j
    ∙ rw (forward sh start j) (unmanaged before after j (sh j) (start j))
