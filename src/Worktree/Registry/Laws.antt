-- ===== src/Worktree/Registry/Laws.antt =====
-- No value of an identity that is excluded or not owned passes Attach, Admit or RestoreAdmitted.
use zsh_pro.Prelude.{
  ℕ, suc, ◌≡◌, refl, true, false, not, ◌||◌, Option, none, some, List, [], ◌∷◌, ◌++◌, arith, ◌==◌,
  nat_eq, contains, contains-append, check-returns, ok, All, All-append, Bool-cases, Option-cases,
  inl, inr, ◌↔◌,
}
use zsh_pro.Data.Dict.{Dict, lookup}
use zsh_pro.Data.LastWins.{or_zero, last_indexes}
use zsh_pro.Live.Types.{Identity, identity_eq, LiveIdentityState, LiveSnapshot}
use zsh_pro.Live.Normalize.{clone_state, state_key}
use zsh_pro.Live.Validate.{validate_live_snapshot}
use zsh_pro.Worktree.Registry.{
  AdmissionReason, Registry, AttachmentResult, AdmissionResult, exclusion_reason, allows_live_value,
  owns, attach_state, attach_states, attach_present, attach, admit, admit_safe, refuse,
  restore_admitted, check_admitted, add_exclusion, add_baseline, is_pinned_secret,
}

-- Values are kept of identities that are allowed, and exclusions are of identities that are not.
pub record IsGuarded (r : Registry) (a : AttachmentResult) : Type 0 where
  pub kept : All (λ s. allows_live_value r s.identity ≡ true) a.baseline
  pub excluded : All (λ x. allows_live_value r x.identity ≡ false) a.exclusions

add_baseline-IsGuarded :
    (r : Registry) (a : AttachmentResult) (s : LiveIdentityState)
    → IsGuarded r a
    → allows_live_value r s.identity ≡ true
    → IsGuarded r (add_baseline a s)
unfolding add_baseline clone_state
add_baseline-IsGuarded r a s h p = record {
  kept =
      All-append (λ s. allows_live_value r s.identity ≡ true) a.baseline (clone_state s ∷ []) h.kept
        (p, tt);
  excluded = h.excluded;
}

add_exclusion-IsGuarded :
    (r : Registry) (a : AttachmentResult) (i : Identity) (reason : AdmissionReason)
    → IsGuarded r a
    → allows_live_value r i ≡ false
    → IsGuarded r (add_exclusion a i reason)
unfolding add_exclusion
add_exclusion-IsGuarded r a i reason h p = record {
  kept = h.kept;
  excluded =
      All-append (λ x. allows_live_value r x.identity ≡ false) a.exclusions
        (record { identity = i; reason = reason } ∷ []) h.excluded (p, tt);
}

attach_present-IsGuarded :
    (r : Registry) (a : AttachmentResult) (s : LiveIdentityState) (o : Option AdmissionReason)
    → exclusion_reason r s.identity ≡ o
    → IsGuarded r a
    → IsGuarded r (attach_present r a s o)
unfolding attach_present allows_live_value
attach_present-IsGuarded r a s (some reason) e h =
    add_exclusion-IsGuarded r a s.identity reason h (rw (e, allows_live_value) (ground arith))
attach_present-IsGuarded r a s none e h = ground (
  arith,
  add_baseline-IsGuarded r a s h,
  add_exclusion-IsGuarded r a s.identity AdmissionReason.present_at_attach h,
)

attach_state-IsGuarded :
    (r : Registry) (a : AttachmentResult) (s : LiveIdentityState)
    → IsGuarded r a
    → IsGuarded r (attach_state r a s)
unfolding attach_state
attach_state-IsGuarded r a s h = ground (
  arith,
  add_baseline-IsGuarded r a s h,
  attach_present-IsGuarded r (record a { present_at_attach = s.identity ∷ a.present_at_attach }) s
      (exclusion_reason r s.identity) refl (record { kept = h.kept; excluded = h.excluded }),
)

attach_states-IsGuarded :
    (r : Registry) (last : Dict Identity ℕ) (i : ℕ) (a : AttachmentResult)
    (ss : List LiveIdentityState)
    → IsGuarded r a
    → IsGuarded r (attach_states r last i a ss)
unfolding attach_states
attach_states-IsGuarded r last i a [] h = h
attach_states-IsGuarded r last i a (s ∷ ss) h =
    elim (Bool-cases (not (or_zero (lookup s.identity last) == i))) [
      | inl earlier ↦ rw (earlier, attach_states) (attach_states-IsGuarded r last (suc i) a ss h)
      | inr final ↦
          rw (final, attach_states)
            (attach_states-IsGuarded r last (suc i) (attach_state r a s) ss
              (attach_state-IsGuarded r a s h))
    ]

-- Attach succeeds on every valid snapshot; it keeps values only of identities that the registry
-- owns and does not exclude, and lists as excluded only identities for which that fails.
pub attach-IsGuarded :
    (r : Registry) (snapshot : LiveSnapshot)
    → validate_live_snapshot snapshot ≡ ok tt
    → (a : AttachmentResult) × (attach r snapshot ≡ ok a) × IsGuarded r a
unfolding attach
attach-IsGuarded r snapshot v = rw v (
  _,
  refl,
  attach_states-IsGuarded r (last_indexes state_key 0 snapshot.states []) 0
      (record { baseline = []; exclusions = []; present_at_attach = []; registry = r.address })
      snapshot.states (record { kept = tt; excluded = tt }),
)

-- The exclusions depend on the policy and the pinned secrets alone.
exclusion_reason-owned :
    (r : Registry) (is : List Identity) (i : Identity)
    → exclusion_reason (record r { owned = is }) i ≡ exclusion_reason r i
unfolding exclusion_reason is_pinned_secret
exclusion_reason-owned r is i = refl

allows-owned :
    (r : Registry) (i : Identity)
    → exclusion_reason r i ≡ none
    → allows_live_value (record r { owned = i ∷ r.owned }) i ≡ true
unfolding allows_live_value owns contains
allows-owned r i h = ground (arith, exclusion_reason-owned r (i ∷ r.owned) i)

allows-other :
    (r : Registry) (i j : Identity)
    → (i == j) ≡ false
    → allows_live_value (record r { owned = i ∷ r.owned }) j ≡ allows_live_value r j
unfolding allows_live_value owns contains
allows-other r i j h = ground (arith, exclusion_reason-owned r (i ∷ r.owned) j)

-- What an admission that succeeds under a condition does.
pub Admission : Registry → Identity → Type 0 → Registry × AdmissionResult → Type 0
Admission r i P out =
    ((out.1.admitted ≡ true) ↔ P)
    × (out.1.admitted ≡ true → allows_live_value out.0 i ≡ true)
    × (out.1.admitted ≡ false → out.0 ≡ r)
    × ((j : Identity) → (i == j) ≡ false → allows_live_value out.0 j ≡ allows_live_value r j)

refuse-Admission :
    (r : Registry) (i : Identity) (reason : AdmissionReason) (P : Type 0)
    → ¬ P
    → Admission r i P (refuse r i reason)
unfolding Admission refuse
refuse-Admission r i reason P n = (
  (λ h. absurd (ground arith), λ p. absurd (n p)),
  λ h. absurd (ground arith),
  λ h. refl,
  λ j h. refl,
)

-- Admit admits an identity just where the attachment is the registry's own, nothing excludes the
-- identity, and it was not present at the attachment. Its live values are then allowed, and no
-- other identity is affected; a refusal leaves the registry as it is.
pub admit-Admission :
    (r : Registry) (a : AttachmentResult) (i : Identity)
    → Admission r i
        ((a.registry ≡ r.address)
          × (exclusion_reason r i ≡ none)
          × (contains i a.present_at_attach ≡ false))
        (admit r a i)
unfolding admit admit_safe Admission
admit-Admission r a i = elim (Bool-cases (a.registry == r.address)) [
  | inr foreign ↦
      rw (foreign, admit)
        (refuse-Admission r i AdmissionReason.not_attached _ (λ p. ground (arith, p)))
  | inl own ↦ elim (Option-cases (exclusion_reason r i)) [
    | inr (reason, excluded) ↦
        rw (own, excluded, admit) (refuse-Admission r i reason _ (λ p. ground (arith, p)))
    | inl safe ↦ elim (Bool-cases (contains i a.present_at_attach)) [
      | inl there ↦
          rw (own, safe, there, admit, admit_safe)
            (refuse-Admission r i AdmissionReason.present_at_attach _ (λ p. ground (arith, p)))
      | inr fresh ↦
          rw (own, safe, fresh, admit, admit_safe)
            (
              (λ h. (ground arith, refl, refl), λ p. refl),
              λ h. allows-owned r i safe,
              λ h. absurd (ground arith),
              allows-other r i,
            )
    ]
  ]
]

check_admitted-safe :
    (r : Registry) (seen is : List Identity)
    → check_admitted r seen is ≡ ok tt
    → (i : Identity) → contains i is ≡ true
    → exclusion_reason r i ≡ none
unfolding check_admitted contains
check_admitted-safe r seen [] h i held = absurd (ground arith)
check_admitted-safe r seen (j ∷ is) h i held =
    ground (arith, check_admitted-safe r (j ∷ seen) is _ i)

allows-restored :
    (r : Registry) (is : List Identity) (i : Identity)
    → (contains i is ≡ true → exclusion_reason r i ≡ none)
    → allows_live_value (record r { owned = is ++ r.owned }) i
      ≡ (contains i is || allows_live_value r i)
unfolding allows_live_value owns
allows-restored r is i h =
    ground (arith, contains-append i is r.owned, exclusion_reason-owned r (is ++ r.owned) i)

-- Where RestoreAdmitted succeeds, none of the restored identities is excluded; live values are
-- then allowed of them and of the identities for which they were allowed before, of no others, and
-- the pinned secrets stay as they are.
pub restore_admitted-allows :
    (r r' : Registry) (is : List Identity)
    → restore_admitted r is ≡ ok r'
    → ((i : Identity) → contains i is ≡ true → exclusion_reason r i ≡ none)
      × ((i : Identity) → allows_live_value r' i ≡ (contains i is || allows_live_value r i))
      × (r'.pinned_secret ≡ r.pinned_secret)
unfolding restore_admitted
restore_admitted-allows r r' is h =
    let (checked, same) = check-returns (check_admitted r [] is) _ h in
    let safe = check_admitted-safe r [] is checked in
    let restored : record r { owned = is ++ r.owned } ≡ r' = ground (arith, same) in
    rw (← restored) (safe, λ i. allows-restored r is i (safe i), refl)
