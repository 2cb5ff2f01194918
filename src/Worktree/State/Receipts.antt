-- ===== src/Worktree/State/Receipts.antt =====
-- The validation of operation receipts: core/worktree/state.go.
use zsh_pro.Prelude.{
  ℕ, suc, ◌+◌, Bool, true, false, not, ◌&&◌, List, [], ◌∷◌, ◌++◌, ◌==◌, nat_eq, leb, contains, ok,
  err, ◌>>◌, guard,
}
use zsh_pro.Data.Bytes.{Bytes, bytes_eq}
use zsh_pro.Data.Dict.{Dict, lookup, insert, is_some}
use zsh_pro.Data.LastWins.{or_zero}
use zsh_pro.Live.Errors.{Error}
use zsh_pro.Live.Validate.{Checked}
use zsh_pro.Worktree.History.{valid_state_token}
use zsh_pro.Worktree.State.{OperationReceipt, ReceiptKind, ShellState}

abbrev pub max_operation_receipts_per_shell : ℕ
max_operation_receipts_per_shell = 64

-- The results that a receipt carries.
tally : Bool → ℕ
tally true = 1
tally false = 0

result_count : OperationReceipt → ℕ
unfolding tally
result_count r =
    tally (is_some r.attach)
    + tally (is_some r.publish)
    + tally (is_some r.prepare_pull)
    + tally (is_some r.acknowledge)
    + tally (is_some r.resolve)

validate_receipt_kind : ReceiptKind → OperationReceipt → Checked
validate_receipt_kind ReceiptKind.attach r = guard (is_some r.attach) Error.receipt_result
validate_receipt_kind ReceiptKind.publish r = guard (is_some r.publish) Error.receipt_result
validate_receipt_kind ReceiptKind.prepare_pull r =
    guard (is_some r.prepare_pull) Error.receipt_result
validate_receipt_kind ReceiptKind.acknowledge r = guard (is_some r.acknowledge) Error.receipt_result
validate_receipt_kind ReceiptKind.resolve r = guard (is_some r.resolve) Error.receipt_result
validate_receipt_kind (ReceiptKind.unknown k) r = err Error.receipt_kind

unfoldable pub validate_receipt_union : OperationReceipt → Checked
unfolding result_count validate_receipt_kind
validate_receipt_union r = do
  guard (result_count r == 1) Error.receipt_union
  validate_receipt_kind r.kind r

-- `receipt.ShellID + "\x00" + receipt.OperationID`
abbrev pub receipt_key : OperationReceipt → Bytes
receipt_key r = r.shell_id ++ 0 ∷ r.operation_id

unfoldable pub validate_each :
    Dict Bytes ShellState → Dict Bytes ℕ → List Bytes → List OperationReceipt → Checked
validate_each shells counts seen [] = ok tt
validate_each shells counts seen (r ∷ rs) =
    let count = suc (or_zero (lookup r.shell_id counts)) in
    do
      guard (is_some (lookup r.shell_id shells) && valid_state_token r.operation_id)
          Error.receipt_authority
      guard (not (contains (receipt_key r) seen)) Error.duplicate_receipt
      guard (leb count max_operation_receipts_per_shell) Error.receipt_limit
      validate_receipt_union r
      validate_each shells (insert r.shell_id count counts) (receipt_key r ∷ seen) rs

unfoldable pub validate_receipts : Dict Bytes ShellState → List OperationReceipt → Checked
validate_receipts shells rs = validate_each shells [] [] rs
