-- ===== src/Worktree/Diff/Laws.antt =====
-- DiffSnapshot as a whole: exact, ordered, and empty just where the snapshots agree.
use mathlib.Core.Option
use zsh_pro.Prelude.{
  ◌≡◌, refl, sym, ◌∙◌, ap, ◌↔◌, Option, none, some, List, [], ◌∷◌, arith, map, ok, check-returns,
  step-returns,
}
use zsh_pro.Data.LastWins.{first_of_key, last_of}
use zsh_pro.Data.Sort.{IsAscending}
use zsh_pro.Live.Types.{
  Identity, identity_eq, LiveValue, LiveIdentityState, LiveSnapshot, LiveChange,
}
use zsh_pro.Live.Validate.{validate_live_snapshot}
use zsh_pro.Live.Values.{clone_live_value}
use zsh_pro.Live.Values.Laws.{clone_live_value_idem, equal-clone_live_value, equal_of_clone}
use zsh_pro.Live.Normalize.{normalize_live_states}
use zsh_pro.Live.Normalize.States.{normalize_live_states_ok}
use zsh_pro.Live.Observed.{observed, present_value, held-observed, held-IsSound, IsSound, SameState}
use zsh_pro.Worktree.Order.{identity_less}
use zsh_pro.Worktree.Diff.{change_of, diff_states, diff_snapshot}
use zsh_pro.Worktree.Diff.Changes.{change_key, first_of_key-diff_states, diff_states-IsAscending}

-- A value that a copy leaves alone.
abbrev pub IsCanonical : LiveValue → Type 0
IsCanonical v = clone_live_value v ≡ v

pub observed-IsCanonical :
    (k : Identity) (xs : List LiveIdentityState) (v : LiveValue)
    → observed k xs ≡ some v
    → IsCanonical v
unfolding observed
observed-IsCanonical k xs v h = go (present_value (last_of (λ s. s.identity) k xs)) h
  where
    go : (o : Option LiveValue) → Option.map clone_live_value o ≡ some v → IsCanonical v
    go none e = ground arith
    go (some w) e = ground (arith, clone_live_value_idem w)

pub observed-IsSound :
    (k : Identity) (xs ys : List LiveIdentityState) (v : LiveValue)
    → normalize_live_states xs ≡ ok ys
    → observed k xs ≡ some v
    → IsSound k v
observed-IsSound k xs ys v n h =
    held-IsSound k ys v (normalize_live_states_ok xs ys n).1 (held-observed k xs ys n ∙ h)

-- A change is recorded just where the values differ.
pub change_of-eq-none :
    (k : Identity) (o p : Option LiveValue)
    → ((v : LiveValue) → o ≡ some v → IsSound k v × IsCanonical v)
    → ((v : LiveValue) → p ≡ some v → IsSound k v × IsCanonical v)
    → (change_of k o p ≡ none) ↔ (o ≡ p)
unfolding change_of
change_of-eq-none k none none ho hp = ground arith
change_of-eq-none k none (some w) ho hp = ground arith
change_of-eq-none k (some v) none ho hp = ground arith
change_of-eq-none k (some v) (some w) ho hp =
    ground
      (arith, ho v refl, hp w refl, equal-clone_live_value k.kind v w, equal_of_clone k.kind v w)

-- A successful diff has normalised both sides.
pub record IsDiff (p q : LiveSnapshot) (cs : List LiveChange) : Type 0 where
  pub before : List LiveIdentityState
  pub after : List LiveIdentityState
  pub before_ok : normalize_live_states p.states ≡ ok before
  pub after_ok : normalize_live_states q.states ≡ ok after
  pub changes : diff_states before after ≡ cs

pub diff_snapshot-IsDiff :
    (p q : LiveSnapshot) (cs : List LiveChange) → diff_snapshot p q ≡ ok cs → IsDiff p q cs
unfolding diff_snapshot
diff_snapshot-IsDiff p q cs h =
    let (_, h₁) = check-returns (validate_live_snapshot p) _ h in
    let (_, h₂) = check-returns (validate_live_snapshot q) _ h₁ in
    let (b, hb, h₃) = step-returns (normalize_live_states p.states) _ h₂ in
    let (a, ha, h₄) = step-returns (normalize_live_states q.states) _ h₃ in
    record { before = b; after = a; before_ok = hb; after_ok = ha; changes = ground (arith, h₄) }

-- A successful diff lists its changes strictly in the order of their identities, and for each
-- identity it has just the change between the values observed before and after.
pub diff_snapshot_exact :
    (p q : LiveSnapshot) (cs : List LiveChange)
    → diff_snapshot p q ≡ ok cs
    → IsAscending identity_less (map change_key cs)
      × ((k : Identity)
          → first_of_key change_key k cs ≡ change_of k (observed k p.states) (observed k q.states))
diff_snapshot_exact p q cs h =
    let d = diff_snapshot-IsDiff p q cs h in
    let b = normalize_live_states_ok p.states d.before d.before_ok in
    let a = normalize_live_states_ok q.states d.after d.after_ok in
    rw (← d.changes) (
      diff_states-IsAscending d.before d.after b.1 a.1,
      (λ k.
          rw
            (
              ← held-observed k p.states d.before d.before_ok,
              ← held-observed k q.states d.after d.after_ok,
            )
            (first_of_key-diff_states d.before d.after k b.2 a.2)),
    )

nil_of_none :
    (cs : List LiveChange) → ((k : Identity) → first_of_key change_key k cs ≡ none) → cs ≡ []
unfolding first_of_key
nil_of_none [] h = refl
nil_of_none (c ∷ cs) h = ground (arith, h c.identity)

-- A successful diff is empty exactly if both snapshots show every identity alike.
pub diff_snapshot-eq-nil :
    (p q : LiveSnapshot) (cs : List LiveChange)
    → diff_snapshot p q ≡ ok cs
    → (cs ≡ []) ↔ SameState p.states q.states
unfolding first_of_key
diff_snapshot-eq-nil p q cs h =
    let d = diff_snapshot-IsDiff p q cs h in
    let exact = (diff_snapshot_exact p q cs h).1 in
    let none_iff = λ (k : Identity).
      change_of-eq-none k (observed k p.states) (observed k q.states)
        (λ v e. (
          observed-IsSound k p.states d.before v d.before_ok e,
          observed-IsCanonical k p.states v e,
        ))
        (λ v e. (
          observed-IsSound k q.states d.after v d.after_ok e,
          observed-IsCanonical k q.states v e,
        )) in
    (
      (λ e k. (none_iff k).0 (sym (exact k) ∙ ap (first_of_key change_key k) e)),
      (λ same. nil_of_none cs (λ k. exact k ∙ (none_iff k).1 (same k))),
    )
