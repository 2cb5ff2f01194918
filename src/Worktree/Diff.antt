-- ===== src/Worktree/Diff.antt =====
-- DiffSnapshot and its helpers: core/worktree/diff.go.
pub mod Changes
pub mod Laws
use zsh_pro.Prelude.{
  ℕ, ◌≡◌, Bool, true, false, not, ◌&&◌, ◌||◌, Option, none, some, List, [], ◌∷◌, ◌++◌, Eq, ◌==◌,
  nat_eq, map, if◌then◌else◌, ok, err, Result, ◌>>=◌, ◌>>◌, guard, select, contains,
}
use zsh_pro.Data.Dict.{Dict, insert, lookup, keys}
use zsh_pro.Live.Types.{
  LiveKind, Identity, identity_eq, LiveValue, LiveIdentityState, LiveSnapshot, LiveChange,
  LiveChangeKind,
}
use zsh_pro.Live.Errors.{Error}
use zsh_pro.Live.Validate.{Checked, validate_identity, validate_live_value, validate_live_snapshot}
use zsh_pro.Live.Values.{clone_live_value, equal_live_value, removed_live_value}
use zsh_pro.Live.Normalize.{normalize_live_states}
use zsh_pro.Worktree.Order.{sort_identities}

unfoldable pub present_states :
    List LiveIdentityState → Dict Identity LiveValue → Dict Identity LiveValue
present_states [] out = out
present_states (s ∷ ss) out =
    present_states ss (if s.value.present then insert s.identity s.value out else out)

unfoldable pub present_state_map : List LiveIdentityState → Dict Identity LiveValue
unfolding present_states
present_state_map states = present_states states []

-- The identities of both maps, each once. `seen` holds exactly the identities of the first.
unfoldable pub all_identities : Dict Identity LiveValue → Dict Identity LiveValue → List Identity
all_identities before after =
    keys before ++ select (λ i. not (contains i (keys before))) (keys after)

-- The cases of the loop: what is recorded for one identity, if anything.
unfoldable pub change_of : Identity → Option LiveValue → Option LiveValue → Option LiveChange
change_of i none none = none
change_of i none (some w) =
    some (record { kind = LiveChangeKind.add; identity = i; value = clone_live_value w })
change_of i (some v) none =
    some (record { kind = LiveChangeKind.remove; identity = i; value = removed_live_value })
change_of i (some v) (some w) =
    if equal_live_value i.kind v w
    then none
    else some (record { kind = LiveChangeKind.update; identity = i; value = clone_live_value w })

abbrev prepend : Option LiveChange → List LiveChange → List LiveChange
prepend none cs = cs
prepend (some c) cs = c ∷ cs

unfoldable pub collect_changes :
    Dict Identity LiveValue → Dict Identity LiveValue → List Identity → List LiveChange
unfolding change_of
collect_changes before after [] = []
collect_changes before after (i ∷ is) =
    prepend (change_of i (lookup i before) (lookup i after)) (collect_changes before after is)

-- The part behind the checks, over normalised states.
unfoldable pub diff_states : List LiveIdentityState → List LiveIdentityState → List LiveChange
unfolding collect_changes
diff_states before after =
    let b = present_state_map before in
    let a = present_state_map after in collect_changes b a (sort_identities (all_identities b a))

unfoldable pub diff_snapshot : LiveSnapshot → LiveSnapshot → Result Error (List LiveChange)
diff_snapshot before after = do
  validate_live_snapshot before
  validate_live_snapshot after
  before_states ← normalize_live_states before.states
  after_states ← normalize_live_states after.states
  ok (diff_states before_states after_states)

validate_change_value : LiveChange → LiveChangeKind → Checked
validate_change_value c LiveChangeKind.add = do
  validate_live_value c.identity.kind c.value
  guard c.value.present Error.change_no_value
validate_change_value c LiveChangeKind.update = do
  validate_live_value c.identity.kind c.value
  guard c.value.present Error.change_no_value
validate_change_value c LiveChangeKind.remove = do
  validate_live_value c.identity.kind c.value
  guard (not c.value.present) Error.change_carries_value
validate_change_value c (LiveChangeKind.unsupported kind) = err Error.change_kind

unfoldable pub validate_live_change : LiveChange → Checked
unfolding validate_change_value
validate_live_change c = do validate_identity c.identity; validate_change_value c c.kind
