-- ===== src/Worktree/Apply/Equal.antt =====
-- What equalLiveStates decides.
use zsh_pro.Prelude.{
  ◌≡◌, refl, sym, ◌∙◌, Bool, true, ◌&&◌, [], ◌∷◌, arith, nat_eq, ok, err, Result, List, map, length,
}
use zsh_pro.Data.Dict.{IsDistinct}
use zsh_pro.Live.Types.{identity_eq, LiveIdentityState, LiveChange}
use zsh_pro.Live.Errors.{Error}
use zsh_pro.Live.Validate.{validate_live_identity_state}
use zsh_pro.Live.Normalize.{state_key, normalize_live_states}
use zsh_pro.Live.Normalize.Laws.{Passes}
use zsh_pro.Live.Normalize.States.{normalize_live_states_ok, normalize_live_states-IsDistinct}
use zsh_pro.Live.Observed.{observed-held, held-observed, observed_again, SameState}
use zsh_pro.Worktree.Diff.Laws.{diff_snapshot-eq-nil}
use zsh_pro.Worktree.Apply.{equal_live_states, same_length, compare_normalized, no_changes}

-- A normalised sequence shows what the given one shows.
pub observed-normalize :
    (xs ys : List LiveIdentityState) → normalize_live_states xs ≡ ok ys → SameState ys xs
observed-normalize xs ys h k =
    observed-held k ys (normalize_live_states_ok xs ys h).2
    ∙ rw (held-observed k xs ys h) (observed_again k xs)

no_changes_nil : (r : Result Error (List LiveChange)) → no_changes r ≡ true → r ≡ ok []
unfolding no_changes
no_changes_nil (ok []) h = refl
no_changes_nil (ok (c ∷ cs)) h = ground arith
no_changes_nil (err e) h = ground arith

same_length_of :
    (r : Result Error (List LiveIdentityState)) (xs : List LiveIdentityState)
    → same_length r xs ≡ true
    → (ys : List LiveIdentityState) × (r ≡ ok ys) × (length ys ≡ length xs)
same_length_of (ok ys) xs h = (ys, refl, ground arith)
same_length_of (err e) xs h = absurd (ground arith)

&&-parts : (a b c : Bool) → (a && b && c) ≡ true → (a ≡ true) × (b ≡ true) × (c ≡ true)
&&-parts a b c h = ground arith

-- If the comparison holds, all states on both sides are valid, no identity occurs twice on either
-- side, and both sides show every identity alike.
pub equal_live_states_sound :
    (xs ys : List LiveIdentityState)
    → equal_live_states xs ys ≡ true
    → (Passes validate_live_identity_state xs × Passes validate_live_identity_state ys)
      × IsDistinct (map state_key xs)
      × IsDistinct (map state_key ys)
      × SameState xs ys
unfolding equal_live_states compare_normalized
equal_live_states_sound xs ys h =
    let (hx, hy, hc) = &&-parts _ _ _ h in
    let (xs', nx, lx) = same_length_of (normalize_live_states xs) xs hx in
    let (ys', ny, ly) = same_length_of (normalize_live_states ys) ys hy in
    let compared = no_changes_nil _ (rw (nx, ny, compare_normalized) at hc) in
    let same : SameState xs' ys' = (diff_snapshot-eq-nil _ _ [] compared).0 refl in
    (
      ((normalize_live_states_ok xs xs' nx).0, (normalize_live_states_ok ys ys' ny).0),
      normalize_live_states-IsDistinct xs xs' nx lx,
      normalize_live_states-IsDistinct ys ys' ny ly,
      λ k. sym (observed-normalize xs xs' nx k) ∙ same k ∙ observed-normalize ys ys' ny k,
    )
