-- ===== src/Worktree/Service/Receipts/Laws.antt =====
-- Receipts are kept, and bounded: core/worktree/service.go.
use zsh_pro.Prelude.{
  suc, ◌-◌, ◌≤◌, ◌≡◌, refl, true, false, some, List, [], ◌∷◌, ◌++◌, ◌==◌, nat_eq, if◌then◌else◌,
  arith,
}
use zsh_pro.Data.Bytes.{Bytes, bytes_eq}
use zsh_pro.Worktree.State.{OperationReceipt, State}
use zsh_pro.Worktree.State.Receipts.{max_operation_receipts_per_shell}
use zsh_pro.Worktree.Service.Receipts.{
  matches, last_receipt, receipt_for, count_receipts, drop_first, append_to, append_receipt,
}

last_receipt-append :
    (shell operation : Bytes) (rs : List OperationReceipt) (r : OperationReceipt)
    → matches shell operation r ≡ true
    → last_receipt shell operation (rs ++ r ∷ []) ≡ some r
unfolding last_receipt
last_receipt-append shell operation [] r h = ground arith
last_receipt-append shell operation (q ∷ rs) r h = rw (last_receipt-append shell operation rs r h)

-- The receipt that was recorded last is found under its own names.
pub receipt_for-append_receipt :
    (s : State) (r : OperationReceipt)
    → receipt_for (append_receipt s r) r.shell_id r.operation_id ≡ some r
unfolding receipt_for append_receipt append_to
receipt_for-append_receipt s r = last_receipt-append r.shell_id r.operation_id _ r (ground arith)

count_receipts-append :
    (shell : Bytes) (rs : List OperationReceipt) (r : OperationReceipt)
    → count_receipts shell (rs ++ r ∷ [])
      ≡ (if r.shell_id == shell then suc (count_receipts shell rs) else count_receipts shell rs)
unfolding count_receipts
count_receipts-append shell [] r = ground arith
count_receipts-append shell (q ∷ rs) r = ground (arith, count_receipts-append shell rs r)

count_receipts-drop_first :
    (shell : Bytes) (rs : List OperationReceipt)
    → count_receipts shell (drop_first shell rs) ≡ count_receipts shell rs - 1
unfolding count_receipts drop_first
count_receipts-drop_first shell [] = refl
count_receipts-drop_first shell (q ∷ rs) = ground (arith, count_receipts-drop_first shell rs)

-- The receipts of one shell.
unfoldable pub receipts_of : Bytes → List OperationReceipt → List OperationReceipt
receipts_of shell [] = []
receipts_of shell (r ∷ rs) =
    let rest = receipts_of shell rs in if r.shell_id == shell then r ∷ rest else rest

receipts_of-append :
    (shell : Bytes) (rs : List OperationReceipt) (r : OperationReceipt)
    → (r.shell_id == shell) ≡ false
    → receipts_of shell (rs ++ r ∷ []) ≡ receipts_of shell rs
unfolding receipts_of
receipts_of-append shell [] r h = ground arith
receipts_of-append shell (q ∷ rs) r h = ground (arith, receipts_of-append shell rs r h)

receipts_of-drop_first :
    (shell other : Bytes) (rs : List OperationReceipt)
    → (shell == other) ≡ false
    → receipts_of other (drop_first shell rs) ≡ receipts_of other rs
unfolding receipts_of drop_first
receipts_of-drop_first shell other [] h = refl
receipts_of-drop_first shell other (q ∷ rs) h =
    ground (arith, receipts_of-drop_first shell other rs h)

-- If the receipts of a shell are within the limit, they still are when a receipt is recorded for
-- it, and the receipts of every other shell stay as they are.
pub append_to-bounds :
    (rs : List OperationReceipt) (r : OperationReceipt) (other : Bytes)
    → count_receipts r.shell_id rs ≤ max_operation_receipts_per_shell
    → (r.shell_id == other) ≡ false
    → (count_receipts r.shell_id (append_to rs r) ≤ max_operation_receipts_per_shell)
      × (receipts_of other (append_to rs r) ≡ receipts_of other rs)
unfolding append_to
append_to-bounds rs r other h apart = (
  ground (
    arith,
    count_receipts-append r.shell_id (drop_first r.shell_id rs) r,
    count_receipts-append r.shell_id rs r,
    count_receipts-drop_first r.shell_id rs,
  ),
  ground (
    arith,
    receipts_of-append other rs r apart,
    receipts_of-append other (drop_first r.shell_id rs) r apart,
    receipts_of-drop_first r.shell_id other rs apart,
  ),
)
