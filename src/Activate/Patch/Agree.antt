-- ===== src/Activate/Patch/Agree.antt =====
-- The planner's own diff agrees with DiffSnapshot's: copying the values first changes nothing.
use mathlib.Core.Option
use zsh_pro.Prelude.{
  ◌≡◌, refl, sym, ◌∙◌, Option, none, some, List, [], ◌∷◌, arith, map, ok, fun_ext,
}
use zsh_pro.Data.Dict.{Dict, insert, lookup, keys, IsDistinct}
use zsh_pro.Live.Types.{
  LiveKind, Identity, identity_eq, LiveValue, LiveIdentityState, LiveSnapshot, LiveChange,
}
use zsh_pro.Live.Validate.{validate_live_value, validate_live_identity_state}
use zsh_pro.Live.Values.{clone_live_value, equal_live_value}
use zsh_pro.Live.Values.Laws.{
  equal-clone_live_value, equal_of_clone, clone_live_value_idem, validate-clone,
}
use zsh_pro.Live.Normalize.{state_key, normalize_live_states}
use zsh_pro.Live.Normalize.Laws.{Passes}
use zsh_pro.Live.Normalize.States.{normalize_live_states_ok}
use zsh_pro.Live.Observed.{held-IsSound}
use zsh_pro.Worktree.Order.{identity_less, live_kind_rank, sort_identities}
use zsh_pro.Worktree.Diff.{
  present_states, present_state_map, all_identities, change_of, collect_changes, diff_states,
  diff_snapshot,
}
use zsh_pro.Worktree.Diff.Changes.{lookup-present_state_map}
use zsh_pro.Worktree.Diff.Laws.{diff_snapshot-IsDiff}
use zsh_pro.Activate.Patch.{
  live_values, live_state_values, live_identity_rank, live_identity_less, diff_live_states,
}

pub clone_dict : Dict Identity LiveValue → Dict Identity LiveValue
clone_dict [] = []
clone_dict ((k, v) ∷ d) = (k, clone_live_value v) ∷ clone_dict d

insert-clone_dict :
    (k : Identity) (v : LiveValue) (d : Dict Identity LiveValue)
    → insert k (clone_live_value v) (clone_dict d) ≡ clone_dict (insert k v d)
unfolding insert clone_dict
insert-clone_dict k v [] = refl
insert-clone_dict k v ((j, w) ∷ d) = ground (arith, insert-clone_dict k v d)

pub keys-clone_dict : (d : Dict Identity LiveValue) → keys (clone_dict d) ≡ keys d
unfolding keys clone_dict
keys-clone_dict [] = refl
keys-clone_dict ((j, w) ∷ d) = ground (arith, keys-clone_dict d)

pub lookup-clone_dict :
    (k : Identity) (d : Dict Identity LiveValue)
    → lookup k (clone_dict d) ≡ Option.map clone_live_value (lookup k d)
unfolding lookup clone_dict
lookup-clone_dict k [] = refl
lookup-clone_dict k ((j, w) ∷ d) = ground (arith, lookup-clone_dict k d)

live_values-clone_dict :
    (xs : List LiveIdentityState) (d : Dict Identity LiveValue)
    → live_values xs (clone_dict d) ≡ clone_dict (present_states xs d)
unfolding live_values present_states
live_values-clone_dict [] d = refl
live_values-clone_dict (x ∷ xs) d = ground (
  arith,
  live_values-clone_dict xs d,
  live_values-clone_dict xs (insert x.identity x.value d),
  insert-clone_dict x.identity x.value d,
)

pub live_state_values-clone_dict :
    (xs : List LiveIdentityState) → live_state_values xs ≡ clone_dict (present_state_map xs)
unfolding live_state_values present_state_map clone_dict
live_state_values-clone_dict xs = live_values-clone_dict xs []

same_rank : (k : LiveKind) → live_identity_rank k ≡ live_kind_rank k
unfolding live_identity_rank live_kind_rank
same_rank LiveKind.env = refl
same_rank k = refl

pub same_order : live_identity_less ≡ identity_less
unfolding live_identity_less identity_less
same_order = fun_ext λ i. fun_ext λ j. ground (arith, same_rank i.kind, same_rank j.kind)

equal-clones :
    (k : LiveKind) (v w : LiveValue)
    → validate_live_value k v ≡ ok tt
    → validate_live_value k w ≡ ok tt
    → equal_live_value k (clone_live_value v) (clone_live_value w) ≡ equal_live_value k v w
equal-clones k v w hv hw = ground (
  arith,
  equal_of_clone k (clone_live_value v) (clone_live_value w) (validate-clone k v hv)
      (validate-clone k w hw),
  equal-clone_live_value k (clone_live_value v) (clone_live_value w),
  equal_of_clone k v w hv hw,
  equal-clone_live_value k v w,
  clone_live_value_idem v,
  clone_live_value_idem w,
)

change_of-clones :
    (k : Identity) (o p : Option LiveValue)
    → ((v : LiveValue) → o ≡ some v → validate_live_value k.kind v ≡ ok tt)
    → ((v : LiveValue) → p ≡ some v → validate_live_value k.kind v ≡ ok tt)
    → change_of k (Option.map clone_live_value o) (Option.map clone_live_value p) ≡ change_of k o p
unfolding change_of
change_of-clones k none none ho hp = refl
change_of-clones k none (some w) ho hp = ground (arith, clone_live_value_idem w)
change_of-clones k (some v) none ho hp = refl
change_of-clones k (some v) (some w) ho hp =
    ground (arith, clone_live_value_idem w, equal-clones k.kind v w (ho v refl) (hp w refl))

collect_changes-clones :
    (b a : Dict Identity LiveValue) (is : List Identity)
    → ((k : Identity) (v : LiveValue) → lookup k b ≡ some v → validate_live_value k.kind v ≡ ok tt)
    → ((k : Identity) (v : LiveValue) → lookup k a ≡ some v → validate_live_value k.kind v ≡ ok tt)
    → collect_changes (clone_dict b) (clone_dict a) is ≡ collect_changes b a is
unfolding collect_changes
collect_changes-clones b a [] hb ha = refl
collect_changes-clones b a (i ∷ is) hb ha = rw (
  lookup-clone_dict i b,
  lookup-clone_dict i a,
  change_of-clones i (lookup i b) (lookup i a) (hb i) (ha i),
  collect_changes-clones b a is hb ha,
)

valid_present :
    (xs : List LiveIdentityState) (k : Identity) (v : LiveValue)
    → Passes validate_live_identity_state xs
    → IsDistinct (map state_key xs)
    → lookup k (present_state_map xs) ≡ some v
    → validate_live_value k.kind v ≡ ok tt
valid_present xs k v p u h =
    (held-IsSound k xs v p (sym (lookup-present_state_map k xs u) ∙ h)).value

-- On normalised states the planner's diff is the diff of DiffSnapshot.
pub diff_live_states-diff_states :
    (xs ys : List LiveIdentityState)
    → Passes validate_live_identity_state xs × IsDistinct (map state_key xs)
    → Passes validate_live_identity_state ys × IsDistinct (map state_key ys)
    → diff_live_states xs ys ≡ diff_states xs ys
unfolding diff_live_states diff_states sort_identities all_identities
diff_live_states-diff_states xs ys (px, ux) (py, uy) =
    rw
      (
        live_state_values-clone_dict xs,
        live_state_values-clone_dict ys,
        keys-clone_dict,
        keys-clone_dict,
        same_order,
      )
      (collect_changes-clones (present_state_map xs) (present_state_map ys) _
        (λ k v. valid_present xs k v px ux) (λ k v. valid_present ys k v py uy))

-- Whatever DiffSnapshot returns for two snapshots, the planner's diff of their normalised states
-- is the same list of changes.
pub diff_live_states-diff_snapshot :
    (p q : LiveSnapshot) (xs ys : List LiveIdentityState) (cs : List LiveChange)
    → normalize_live_states p.states ≡ ok xs
    → normalize_live_states q.states ≡ ok ys
    → diff_snapshot p q ≡ ok cs
    → diff_live_states xs ys ≡ cs
diff_live_states-diff_snapshot p q xs ys cs hx hy h =
    let d = diff_snapshot-IsDiff p q cs h in
    let ex : d.before ≡ xs = ground (arith, d.before_ok) in
    let ey : d.after ≡ ys = ground (arith, d.after_ok) in
    let nx = normalize_live_states_ok p.states xs hx in
    let ny = normalize_live_states_ok q.states ys hy in
    diff_live_states-diff_states xs ys (nx.1, nx.2) (ny.1, ny.2) ∙ rw (← ex, ← ey) d.changes
