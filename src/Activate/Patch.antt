-- ===== src/Activate/Patch.antt =====
-- BuildLivePatch and its helpers: core/activate/diff.go.
pub mod Agree
pub mod Run
pub mod Steps
pub mod RoundTrip
use zsh_pro.Prelude.{
  ℕ, ◌≡◌, Bool, true, false, not, Option, none, some, List, [], ◌∷◌, ◌++◌, Eq, ◌==◌, nat_eq, ltb,
  if◌then◌else◌, ok, err, Result, ◌>>=◌, select, contains,
}
use zsh_pro.Data.Bytes.{Bytes, bytes_lt}
use zsh_pro.Data.Dict.{Dict, insert, lookup, keys, is_some}
use zsh_pro.Data.Sort.{sort}
use zsh_pro.Live.Types.{LiveKind, Identity, identity_eq, LiveValue, LiveIdentityState, LiveChange}
use zsh_pro.Live.Errors.{Error}
use zsh_pro.Live.Validate.{elements}
use zsh_pro.Live.Values.{clone_live_value}
use zsh_pro.Live.Normalize.{normalize_live_states}
use zsh_pro.Worktree.Diff.{collect_changes}
use zsh_pro.Worktree.Apply.{is_remove}
use zsh_pro.Activate.Plan.{Op, LivePatch}

unfoldable pub live_values :
    List LiveIdentityState → Dict Identity LiveValue → Dict Identity LiveValue
live_values [] values = values
live_values (s ∷ ss) values =
    live_values ss
      (if s.value.present then insert s.identity (clone_live_value s.value) values else values)

unfoldable pub live_state_values : List LiveIdentityState → Dict Identity LiveValue
unfolding live_values
live_state_values states = live_values states []

unfoldable pub live_identity_rank : LiveKind → ℕ
live_identity_rank LiveKind.env = 0
live_identity_rank LiveKind.alias = 1
live_identity_rank LiveKind.function = 2
live_identity_rank LiveKind.path = 3
live_identity_rank LiveKind.fpath = 4
live_identity_rank LiveKind.option = 5
live_identity_rank (LiveKind.unsupported kind) = 6

-- The comparison that sorts the identities.
unfoldable pub live_identity_less : Identity → Identity → Bool
unfolding live_identity_rank
live_identity_less i j =
    if live_identity_rank i.kind == live_identity_rank j.kind
    then bytes_lt i.name j.name
    else ltb (live_identity_rank i.kind) (live_identity_rank j.kind)

-- The loops that gather the identities and record the changes are those of DiffSnapshot, in the
-- same words; here they run over the copied values and the order above.
unfoldable pub diff_live_states : List LiveIdentityState → List LiveIdentityState → List LiveChange
diff_live_states before after =
    let b = live_state_values before in
    let a = live_state_values after in
    collect_changes b a
      (sort live_identity_less (keys b ++ select (λ i. not (contains i (keys b))) (keys a)))

list_of : Option LiveValue → List Bytes
list_of none = []
list_of (some v) = elements v.list

-- `if change.Value.Scalar == nil { return error }`
scalar_op : LiveChange → Option Bytes → Result Error Op
scalar_op c none = err Error.scalar_missing
scalar_op c (some s) = ok (Op.set_live_scalar c.identity s)

option_op : LiveChange → Option Bool → Result Error Op
option_op c none = err Error.option_missing
option_op c (some b) = ok (Op.set_live_option_state c.identity b)

scalar_change_op : LiveChange → Result Error Op
unfolding scalar_op
scalar_change_op c =
    if is_remove c.kind then ok (Op.remove_live_scalar c.identity) else scalar_op c c.value.scalar

list_change_op : Dict Identity LiveValue → Dict Identity LiveValue → LiveChange → Result Error Op
unfolding list_of
list_change_op b a c = ok (
    Op.transition_live_list c.identity (is_some (lookup c.identity b))
      (is_some (lookup c.identity a)) (list_of (lookup c.identity b))
      (list_of (lookup c.identity a)))

option_change_op : LiveChange → Result Error Op
unfolding option_op
option_change_op c =
    if is_remove c.kind
    then ok (Op.remove_live_option_state c.identity)
    else option_op c c.value.option

-- The cases of the loop of liveChangesToOps.
unfoldable pub change_op :
    LiveKind → Dict Identity LiveValue → Dict Identity LiveValue → LiveChange → Result Error Op
unfolding scalar_change_op list_change_op option_change_op
change_op LiveKind.env b a c = scalar_change_op c
change_op LiveKind.alias b a c = scalar_change_op c
change_op LiveKind.function b a c = scalar_change_op c
change_op LiveKind.path b a c = list_change_op b a c
change_op LiveKind.fpath b a c = list_change_op b a c
change_op LiveKind.option b a c = option_change_op c
change_op (LiveKind.unsupported kind) b a c = err Error.unsupported_identity

unfoldable pub change_ops :
    Dict Identity LiveValue → Dict Identity LiveValue → List LiveChange → Result Error (List Op)
unfolding change_op
change_ops b a [] = ok []
change_ops b a (c ∷ cs) = do
  op ← change_op c.identity.kind b a c
  ops ← change_ops b a cs
  ok (op ∷ ops)

unfoldable pub live_changes_to_ops :
    List LiveChange → List LiveIdentityState → List LiveIdentityState → Result Error (List Op)
live_changes_to_ops changes before after =
    change_ops (live_state_values before) (live_state_values after) changes

unfoldable pub build_live_patch :
    List LiveIdentityState → List LiveIdentityState → Result Error LivePatch
build_live_patch before after = do
  before' ← normalize_live_states before
  after' ← normalize_live_states after
  forward ← live_changes_to_ops (diff_live_states before' after') before' after'
  replacement_reverse ← live_changes_to_ops (diff_live_states after' before') after' before'
  ok (record { forward = forward; replacement_reverse = replacement_reverse })
