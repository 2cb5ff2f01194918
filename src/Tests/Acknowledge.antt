-- ===== src/Tests/Acknowledge.antt =====
-- The theorems on pulls, acknowledgements and receipts at the inputs of the module for shells.
use zsh_pro.Prelude.{
  ◌≤◌, ◌≡◌, refl, true, false, none, some, List, [], ◌∷◌, ltb, ok, arith, ◌==◌, Result, err,
}
use zsh_pro.Data.Bytes.{Bytes, bytes, bytes_eq}
use zsh_pro.Data.Dict.{lookup}
use zsh_pro.Live.Values.{is_ok}
use zsh_pro.Worktree.State.{
  State, ShellState, PreparePullResult, AcknowledgeResult, OperationReceipt,
}
use zsh_pro.Worktree.State.Receipts.{max_operation_receipts_per_shell}
use zsh_pro.Worktree.Service.Transaction.{Step, stored, recover}
use zsh_pro.Worktree.Service.Receipts.{count_receipts, append_to, receipt_for}
use zsh_pro.Worktree.Service.Receipts.Laws.{receipts_of, append_to-bounds}
use zsh_pro.Worktree.Service.Publish.{publish_receipt, states_of}
use zsh_pro.Worktree.Service.Pull.{prepare_new}
use zsh_pro.Worktree.Service.Pull.Reaches.{IsAtHead, prepare_new-IsAtHead}
use zsh_pro.Worktree.Service.Acknowledge.{AcknowledgeRequest, acknowledge_new, acknowledge_state}
use zsh_pro.Tests.Run.{run}
use zsh_pro.Tests.Samples.{snapshot}
use zsh_pro.Live.Errors.{Error}
use zsh_pro.Live.Types.{LiveIdentityState}
use zsh_pro.Worktree.Registry.{Registry}
use zsh_pro.Worktree.Service.Digest.{authorize_shell, fingerprint_snapshot}
use zsh_pro.Worktree.Service.Attach.{clone_snapshot}
use zsh_pro.Worktree.Service.Admission.{seed_registry_from_state, admitted_snapshot}
use zsh_pro.Tests.Shells.{outside, registry, worktree, pull, credential, shell, returned, result_or}

abbrev prepared : Step PreparePullResult
prepared = prepare_new outside pull (bytes "f") worktree shell

abbrev no_pull : PreparePullResult
no_pull = record { pending_revision = 0; token = []; changes = [] }

abbrev prepared_state : State
prepared_state = stored worktree prepared

abbrev prepared_result : PreparePullResult
prepared_result = result_or no_pull prepared

prepared_ok : is_ok prepared ≡ true
unfolding run
prepared_ok = refl

abbrev acknowledged : AcknowledgeRequest
acknowledged = record {
  operation_id = bytes "acknowledge:1";
  credential = credential;
  revision = prepared_result.pending_revision;
  token = prepared_result.token;
  snapshot = snapshot prepared_state.shared;
}

something_pending : ltb 0 prepared_result.pending_revision ≡ true
unfolding run
something_pending = refl

abbrev authorized : Result Error ShellState
authorized = authorize_shell outside prepared_state acknowledged.credential

abbrev shell_or : Result Error ShellState → ShellState
shell_or (ok s) = s
shell_or (err e) = shell

abbrev prepared_shell : ShellState
prepared_shell = shell_or authorized

prepared_authorized : authorized ≡ ok prepared_shell
unfolding run
prepared_authorized = refl

abbrev seeding : Result Error (Registry × State)
seeding = recover (seed_registry_from_state registry prepared_state)

abbrev seeded_or : Result Error (Registry × State) → Registry × State
seeded_or (ok p) = p
seeded_or (err e) = (registry, prepared_state)

seeds : seeding ≡ ok (seeded_or seeding)
unfolding run
seeds = refl

abbrev admitting : Result Error (State × List LiveIdentityState)
admitting =
    admitted_snapshot (seeded_or seeding).0 (seeded_or seeding).1 prepared_shell
      (clone_snapshot acknowledged.snapshot)

abbrev admitted_or : Result Error (State × List LiveIdentityState) → State × List LiveIdentityState
admitted_or (ok p) = p
admitted_or (err e) = (prepared_state, [])

admits : admitting ≡ ok (admitted_or admitting)
unfolding run
admits = refl

is_new :
    receipt_for (admitted_or admitting).0 acknowledged.credential.shell_id acknowledged.operation_id
    ≡ none
unfolding run
is_new = refl

same_fingerprint :
    fingerprint_snapshot outside (states_of (admitted_or admitting).1)
    ≡ fingerprint_snapshot outside (states_of prepared_state.shared)
unfolding run
same_fingerprint = refl

prepare_new-IsAtHead_example :
    (t : State) × (answer : AcknowledgeResult) × (last : ShellState) × (acknowledge_state outside
        registry acknowledged prepared_state
      ≡ ok (t, answer))
    × (lookup pull.credential.shell_id t.shells ≡ some last)
    × IsAtHead t last
prepare_new-IsAtHead_example =
    prepare_new-IsAtHead outside registry pull (bytes "f") worktree prepared_state
      (seeded_or seeding).1 (admitted_or admitting).0 shell prepared_shell prepared_result
      acknowledged (seeded_or seeding).0 (admitted_or admitting).1
      (returned worktree no_pull prepared prepared_ok) something_pending refl refl refl
      prepared_authorized seeds admits is_new same_fingerprint

abbrev confirmed : Step AcknowledgeResult
confirmed =
    acknowledge_new outside registry acknowledged (bytes "g") prepared_state prepared_shell
      prepared_state.shared

abbrev no_answer : AcknowledgeResult
no_answer = record { applied_revision = 0; acknowledged = false }

-- A receipt of one shell after receipts of two.
abbrev receipt : Bytes → Bytes → OperationReceipt
receipt id operation =
    publish_receipt id operation [] (record { shared_revision = 1; accepted = []; conflicts = [] })

abbrev receipts : List OperationReceipt
receipts = receipt (bytes "one") (bytes "a") ∷ receipt (bytes "two") (bytes "b") ∷ []

within_limit :
    count_receipts (receipt (bytes "one") (bytes "c")).shell_id receipts
    ≤ max_operation_receipts_per_shell
unfolding run
within_limit = omega arith

other_shell : ((receipt (bytes "one") (bytes "c")).shell_id == bytes "two") ≡ false
unfolding run
other_shell = refl

append_to-bounds_example :
    (count_receipts
        (receipt (bytes "one") (bytes "c")).shell_id
        (append_to receipts (receipt (bytes "one") (bytes "c")))
      ≤ max_operation_receipts_per_shell)
    × (receipts_of (bytes "two") (append_to receipts (receipt (bytes "one") (bytes "c")))
        ≡ receipts_of (bytes "two") receipts)
append_to-bounds_example =
    append_to-bounds receipts (receipt (bytes "one") (bytes "c")) (bytes "two") within_limit
      other_shell
