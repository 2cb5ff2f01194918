-- ===== src/Worktree/Apply/RoundTrip.antt =====
-- Applying the difference of two snapshots to the first gives the second.
use mathlib.Core.Option
use zsh_pro.Prelude.{◌≡◌, refl, ◌∙◌, ap, false, Option, none, some, List, arith, map, ok, All}
use zsh_pro.Data.Dict.{IsDistinct}
use zsh_pro.Data.Sort.{IsDistinct-of_IsAscending}
use zsh_pro.Live.Types.{
  Identity, identity_eq, LiveValue, LiveIdentityState, LiveSnapshot, LiveChange, LiveChangeKind,
}
use zsh_pro.Live.Validate.{validate_live_value}
use zsh_pro.Live.Values.{clone_live_value, removed_live_value}
use zsh_pro.Live.Values.Laws.{equal-clone_live_value, validate-clone}
use zsh_pro.Live.Normalize.{normalize_live_states}
use zsh_pro.Live.Normalize.States.{normalize_live_states_ok}
use zsh_pro.Live.Observed.{
  observed, observed_again, observed-held, held, held-observed, IsSound, held-IsSound, SameState,
}
use zsh_pro.Worktree.Order.{identity_less, identity_less-IsStrictOrder}
use zsh_pro.Worktree.Diff.{change_of, diff_snapshot, validate_live_change}
use zsh_pro.Worktree.Diff.Changes.{change_key, diff_states-Passes}
use zsh_pro.Worktree.Diff.Laws.{
  IsCanonical, observed-IsCanonical, observed-IsSound, diff_snapshot-IsDiff, diff_snapshot_exact,
}
use zsh_pro.Worktree.Apply.{apply_state_changes}
use zsh_pro.Worktree.Apply.Laws.{
  validate_changes_ok, effect, applied, applied-IsDistinct, held-applied,
}

present-clone : (v : LiveValue) → (clone_live_value v).present ≡ v.present
unfolding clone_live_value
present-clone v = refl

-- The change between two values, applied to the first, gives the second.
effect-change_of :
    (k : Identity) (o p : Option LiveValue)
    → ((v : LiveValue) → o ≡ some v → IsSound k v × IsCanonical v)
    → ((v : LiveValue) → p ≡ some v → IsSound k v × IsCanonical v)
    → effect (change_of k o p) o ≡ p
unfolding change_of
effect-change_of k none none ho hp = refl
effect-change_of k none (some w) ho hp =
    ground (arith, (hp w refl).0.present, (hp w refl).1, present-clone w)
effect-change_of k (some v) none ho hp = refl
effect-change_of k (some v) (some w) ho hp = ground (
  arith,
  (hp w refl).0.present,
  (hp w refl).1,
  (ho v refl).1,
  present-clone w,
  equal-clone_live_value k.kind v w,
)

removed-valid : (k : Identity) → validate_live_value k.kind removed_live_value ≡ ok tt
unfolding removed_live_value validate_live_value
removed-valid k = refl

removed-absent : removed_live_value.present ≡ false
unfolding removed_live_value
removed-absent = refl

module _ (k : Identity) (v : LiveValue) (s : IsSound k v) where
  add-valid :
      validate_live_change
        (record { kind = LiveChangeKind.add; identity = k; value = clone_live_value v })
      ≡ ok tt
  unfolding validate_live_change
  add-valid =
      ground (arith, s.identity, validate-clone k.kind v s.value, present-clone v, s.present)

  update-valid :
      validate_live_change
        (record { kind = LiveChangeKind.update; identity = k; value = clone_live_value v })
      ≡ ok tt
  unfolding validate_live_change
  update-valid =
      ground (arith, s.identity, validate-clone k.kind v s.value, present-clone v, s.present)

  remove-valid :
      validate_live_change
        (record { kind = LiveChangeKind.remove; identity = k; value = removed_live_value })
      ≡ ok tt
  unfolding validate_live_change
  remove-valid = ground (arith, s.identity, removed-valid k, removed-absent)

change_of-valid :
    (k : Identity) (o p : Option LiveValue) (c : LiveChange)
    → ((v : LiveValue) → o ≡ some v → IsSound k v)
    → ((v : LiveValue) → p ≡ some v → IsSound k v)
    → change_of k o p ≡ some c
    → validate_live_change c ≡ ok tt
unfolding change_of
change_of-valid k none none c ho hp h = ground arith
change_of-valid k none (some w) c ho hp h = ground (arith, add-valid k w (hp w refl))
change_of-valid k (some v) none c ho hp h = ground (arith, remove-valid k v (ho v refl))
change_of-valid k (some v) (some w) c ho hp h = ground (arith, update-valid k w (hp w refl))

-- The identities of a successful diff are distinct.
pub diff_snapshot-IsDistinct :
    (p q : LiveSnapshot) (cs : List LiveChange)
    → diff_snapshot p q ≡ ok cs
    → IsDistinct (map change_key cs)
diff_snapshot-IsDistinct p q cs h =
    IsDistinct-of_IsAscending identity_less identity_less-IsStrictOrder (map change_key cs)
      (diff_snapshot_exact p q cs h).0

module _ (p q : LiveSnapshot) (cs : List LiveChange) (h : diff_snapshot p q ≡ ok cs) where
  sound_before :
      (k : Identity) (v : LiveValue) → observed k p.states ≡ some v → IsSound k v × IsCanonical v
  sound_before k v e =
      let d = diff_snapshot-IsDiff p q cs h in
      (observed-IsSound k p.states d.before v d.before_ok e, observed-IsCanonical k p.states v e)

  sound_after :
      (k : Identity) (v : LiveValue) → observed k q.states ≡ some v → IsSound k v × IsCanonical v
  sound_after k v e =
      let d = diff_snapshot-IsDiff p q cs h in
      (observed-IsSound k q.states d.after v d.after_ok e, observed-IsCanonical k q.states v e)

  changes-valid : All (λ c. validate_live_change c ≡ ok tt) cs
  changes-valid =
      let d = diff_snapshot-IsDiff p q cs h in
      let b = normalize_live_states_ok p.states d.before d.before_ok in
      let a = normalize_live_states_ok q.states d.after d.after_ok in
      rw (← d.changes) (
        diff_states-Passes d.before d.after (λ c. validate_live_change c ≡ ok tt) b.2 a.2
          (λ i c e.
            change_of-valid i (held i d.before) (held i d.after) c
              (λ v f. held-IsSound i d.before v b.1 f) (λ v f. held-IsSound i d.after v a.1 f) e))

  module _ (current : List LiveIdentityState)
      (n : normalize_live_states p.states ≡ ok current) where
    held-applied_diff : (k : Identity) → held k (applied current cs) ≡ observed k q.states
    held-applied_diff k =
        held-applied current cs (normalize_live_states_ok p.states current n).2 k
          (diff_snapshot-IsDistinct p q cs h)
        ∙ rw (held-observed k p.states current n, (diff_snapshot_exact p q cs h).1 k)
            (effect-change_of k (observed k p.states) (observed k q.states) (sound_before k)
              (sound_after k))

    applied-SameState : SameState (applied current cs) q.states
    applied-SameState k =
        observed-held k (applied current cs)
          (applied-IsDistinct current cs (normalize_live_states_ok p.states current n).2)
        ∙ ap (Option.map clone_live_value) (held-applied_diff k)
        ∙ observed_again k q.states

-- Where DiffSnapshot succeeds, applyStateChanges accepts the changes on the first snapshot's
-- states, and what it returns shows every identity as the second snapshot does.
pub apply_state_changes-diff_snapshot :
    (p q : LiveSnapshot) (cs : List LiveChange)
    → diff_snapshot p q ≡ ok cs
    → (out : List LiveIdentityState) × (apply_state_changes p.states cs ≡ ok out)
      × SameState out q.states
unfolding apply_state_changes
apply_state_changes-diff_snapshot p q cs h =
    let d = diff_snapshot-IsDiff p q cs h in
    (
      applied d.before cs,
      rw (
        validate_changes_ok cs (changes-valid p q cs h) (diff_snapshot-IsDistinct p q cs h),
        d.before_ok,
      ),
      applied-SameState p q cs h d.before d.before_ok,
    )
