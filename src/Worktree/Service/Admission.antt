-- ===== src/Worktree/Service/Admission.antt =====
-- The registry behind an operation, and what it lets through: core/worktree/service.go.
pub mod Keeps
use zsh_pro.Prelude.{
  Bool, true, false, not, ◌&&◌, ◌||◌, Option, none, some, List, [], ◌∷◌, ◌++◌, ◌==◌, if◌then◌else◌,
  contains, map, select, ok, err, Result, ◌>>=◌, ◌>>◌, guard,
}
use zsh_pro.Data.Dict.{is_some}
use zsh_pro.Data.Sort.{sort}
use zsh_pro.Live.Types.{Identity, identity_eq, LiveIdentityState, LiveSnapshot, LiveChange}
use zsh_pro.Live.Errors.{Error}
use zsh_pro.Live.Validate.{validate_identity}
use zsh_pro.Live.Values.{clone_live_value, is_ok}
use zsh_pro.Live.Normalize.{clone_live_states, clone_state, normalize_live_states}
use zsh_pro.Worktree.Registry.{
  Registry, AttachmentResult, owns, exclusion_reason, allows_live_value, admit, restore_admitted,
}
use zsh_pro.Worktree.Registry.Seed.{seed}
use zsh_pro.Worktree.State.{State, ShellState}
use zsh_pro.Worktree.State.Validate.{validate_admitted_identities, admitted_identity_less}

unfoldable pub present_only : List LiveIdentityState → List LiveIdentityState
present_only ss = map clone_state (select (λ s. s.value.present) ss)

present_of : Result Error (List LiveIdentityState) → List Identity
present_of (err e) = []
present_of (ok normalized) = map (λ s. s.identity) (select (λ s. s.value.present) normalized)

unfoldable pub present_identities : LiveSnapshot → List Identity
unfolding present_of
present_identities snapshot = present_of (normalize_live_states snapshot.states)

-- The states of a document without the field that are neither owned nor excluded.
unfoldable pub unowned : Registry → List LiveIdentityState → List Identity
unowned r ss =
    map (λ s. s.identity)
      (select (λ s. not (owns r s.identity || is_some (exclusion_reason r s.identity))) ss)

migrate_admitted : Registry → State → Result Error (Registry × State)
migrate_admitted r s =
    let admitted = sort admitted_identity_less (unowned r s.shared) in
    do
      validate_admitted_identities admitted
      restored ← restore_admitted r admitted
      ok (
        restored,
        record s { admitted_identities = admitted; admitted_identities_missing = false },
      )

restore_state : Registry → State → Result Error (Registry × State)
restore_state r s = do
  validate_admitted_identities s.admitted_identities
  restored ← restore_admitted r s.admitted_identities
  ok (restored, s)

-- The registry and the state after the call.
unfoldable pub seed_registry_from_state : Registry → State → Result Error (Registry × State)
unfolding migrate_admitted restore_state
seed_registry_from_state r s = do
  seeded ← seed r s.committed.source
  if s.admitted_identities_missing then migrate_admitted seeded s else restore_state seeded s

unfoldable pub append_admitted_identity : State → Identity → Result Error State
append_admitted_identity s i =
    if not (is_ok (validate_identity i))
    then err Error.admitted_identity
    else if contains i s.admitted_identities
    then ok (record s { admitted_identities_missing = false })
    else (do
      validate_admitted_identities (sort admitted_identity_less (s.admitted_identities ++ i ∷ []))
      ok (record s {
        admitted_identities = sort admitted_identity_less (s.admitted_identities ++ i ∷ []);
        admitted_identities_missing = false;
      }))

unfoldable pub attachment_from_shell : Registry → ShellState → AttachmentResult
attachment_from_shell r shell = record {
  baseline = clone_live_states shell.capture_baseline;
  exclusions = shell.exclusions;
  present_at_attach = shell.present_at_attach;
  registry = r.address;
}

-- What the two loops do with one identity: whether it passes, with the registry and the state.
admit_new : Registry → State → AttachmentResult → Identity → Result Error (Bool × Registry × State)
admit_new r s a i =
    let (r', result) = admit r a i in
    if result.admitted
    then (do s' ← append_admitted_identity s i; ok (true, r', s'))
    else ok (false, r', s)

unfoldable pub let_through :
    Registry → State → AttachmentResult → Identity → Result Error (Bool × Registry × State)
unfolding admit_new
let_through r s a i = if allows_live_value r i then ok (true, r, s) else admit_new r s a i

module _ {A : Type 0} (key : A → Identity) (copy : A → A) (a : AttachmentResult) where
  unfoldable pub admit_each : Registry → State → List A → Result Error (State × List A)
  admit_each r s [] = ok (s, [])
  admit_each r s (c ∷ cs) = do
    (passes, r', s') ← let_through r s a (key c)
    (s'', out) ← admit_each r' s' cs
    ok (s'', if passes then copy c ∷ out else out)

copy_change : LiveChange → LiveChange
copy_change c = record c { value = clone_live_value c.value }

unfoldable pub admitted_changes :
    Registry → State → ShellState → List LiveChange → Result Error (State × List LiveChange)
unfolding copy_change
admitted_changes r s shell cs =
    admit_each (λ c. c.identity) copy_change (attachment_from_shell r shell) r s cs

unfoldable pub admitted_snapshot :
    Registry → State → ShellState → LiveSnapshot → Result Error (State × List LiveIdentityState)
admitted_snapshot r s shell snapshot = do
  normalized ← normalize_live_states snapshot.states
  admit_each (λ s. s.identity) clone_state (attachment_from_shell r shell) r s
      (select (λ s. s.value.present) normalized)
