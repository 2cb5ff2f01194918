-- ===== src/Worktree/Service/Receipts.antt =====
-- receiptFor and appendReceipt: core/worktree/service.go.
pub mod Laws
use zsh_pro.Prelude.{
  ℕ, zero, suc, ◌+◌, Bool, true, false, not, ◌&&◌, Option, none, some, List, [], ◌∷◌, ◌++◌, ◌==◌,
  nat_eq, leb, if◌then◌else◌, length,
}
use zsh_pro.Data.Bytes.{Bytes, bytes_eq}
use zsh_pro.Worktree.State.{OperationReceipt, State}
use zsh_pro.Worktree.State.Receipts.{max_operation_receipts_per_shell}

abbrev pub matches : Bytes → Bytes → OperationReceipt → Bool
matches shell operation r = r.shell_id == shell && r.operation_id == operation

-- The scan from the end: the last receipt that matches.
unfoldable pub last_receipt : Bytes → Bytes → List OperationReceipt → Option OperationReceipt
last_receipt shell operation [] = none
last_receipt shell operation (r ∷ rs) = elim (last_receipt shell operation rs) [
  | some found ↦ some found
  | none ↦ if matches shell operation r then some r else none
]

unfoldable pub receipt_for : State → Bytes → Bytes → Option OperationReceipt
receipt_for s shell operation = last_receipt shell operation s.operation_receipts

unfoldable pub count_receipts : Bytes → List OperationReceipt → ℕ
count_receipts shell [] = 0
count_receipts shell (r ∷ rs) =
    if r.shell_id == shell then suc (count_receipts shell rs) else count_receipts shell rs

-- The first receipt of the shell is cut out.
unfoldable pub drop_first : Bytes → List OperationReceipt → List OperationReceipt
drop_first shell [] = []
drop_first shell (r ∷ rs) =
    let rest = drop_first shell rs in if r.shell_id == shell then rs else r ∷ rest

unfoldable pub append_to : List OperationReceipt → OperationReceipt → List OperationReceipt
append_to rs r =
    (if leb max_operation_receipts_per_shell (count_receipts r.shell_id rs)
      then drop_first r.shell_id rs
      else rs)
    ++ r ∷ []

unfoldable pub append_receipt : State → OperationReceipt → State
append_receipt s r = record s { operation_receipts = append_to s.operation_receipts r }
