-- ===== src/Worktree/Apply/Effect.antt =====
-- What applyStateChanges leaves of the states: core/worktree/state.go.
use mathlib.Core.Option
use zsh_pro.Prelude.{
  ◌≡◌, refl, ap, ◌∙◌, true, false, not, List, [], ◌∷◌, arith, map, contains, ok, guard,
  step-returns, check-returns, ok-injective, subst,
}
use zsh_pro.Data.Dict.{IsDistinct}
use zsh_pro.Data.LastWins.{first_of_key, first_of_key-absent}
use zsh_pro.Live.Types.{Identity, identity_eq, LiveIdentityState, LiveChange}
use zsh_pro.Live.Values.{clone_live_value}
use zsh_pro.Live.Normalize.{normalize_live_states}
use zsh_pro.Live.Normalize.States.{normalize_live_states_ok}
use zsh_pro.Live.Observed.{observed, observed-held, held-observed, observed_again}
use zsh_pro.Worktree.Diff.{validate_live_change}
use zsh_pro.Worktree.Diff.Changes.{change_key}
use zsh_pro.Worktree.Apply.{validate_changes, validate_unseen, apply_state_changes}
use zsh_pro.Worktree.Apply.Laws.{effect, applied, applied-IsDistinct, held-applied}

validate_unseen-IsDistinct :
    (seen : List Identity) (cs : List LiveChange)
    → validate_unseen seen cs ≡ ok tt
    → IsDistinct (map change_key cs)
      × ((k : Identity) → contains k seen ≡ true → contains k (map change_key cs) ≡ false)
unfolding validate_unseen contains
validate_unseen-IsDistinct seen [] h = (tt, λ k e. refl)
validate_unseen-IsDistinct seen (c ∷ cs) h =
    let (new, h₁) = check-returns (guard (not (contains c.identity seen)) _) _ h in
    let (_, h₂) = check-returns (validate_live_change c) _ h₁ in
    let (distinct, apart) = validate_unseen-IsDistinct (c.identity ∷ seen) cs h₂ in
    ((apart c.identity (ground arith), distinct), λ k e. ground (arith, apart k))

-- Accepted changes: each identity shows what its change gives it, or what it showed before.
pub apply_state_changes-observed :
    (ss out : List LiveIdentityState) (cs : List LiveChange) (k : Identity)
    → apply_state_changes ss cs ≡ ok out
    → observed k out
      ≡ Option.map clone_live_value (effect (first_of_key change_key k cs) (observed k ss))
unfolding apply_state_changes validate_changes
apply_state_changes-observed ss out cs k h =
    let (valid, h₁) = check-returns (validate_changes cs) _ h in
    let (current, normal, h₂) = step-returns (normalize_live_states ss) _ h₁ in
    let distinct = (normalize_live_states_ok ss current normal).2 in
    let w = (validate_unseen-IsDistinct [] cs valid).0 in
    subst
      (λ ys.
        observed k ys
        ≡ Option.map clone_live_value (effect (first_of_key change_key k cs) (observed k ss)))
      (ok-injective (applied current cs) out h₂)
      (observed-held k (applied current cs) (applied-IsDistinct current cs distinct)
        ∙ ap (Option.map clone_live_value) (
            held-applied current cs distinct k w
            ∙ ap (effect (first_of_key change_key k cs)) (held-observed k ss current normal)))

-- An identity without a change keeps what it showed.
pub apply_state_changes-keeps :
    (ss out : List LiveIdentityState) (cs : List LiveChange) (k : Identity)
    → apply_state_changes ss cs ≡ ok out
    → contains k (map change_key cs) ≡ false
    → observed k out ≡ observed k ss
apply_state_changes-keeps ss out cs k h absent =
    apply_state_changes-observed ss out cs k h
    ∙ rw (first_of_key-absent change_key k cs absent) (observed_again k ss)
