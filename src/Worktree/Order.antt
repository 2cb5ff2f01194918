-- ===== src/Worktree/Order.antt =====
-- The order of identities in diffs: core/worktree/diff.go.
use zsh_pro.Prelude.{
  ℕ, ◌≡◌, refl, Bool, true, false, List, arith, ◌==◌, nat_eq, if◌then◌else◌, ltb, ok,
}
use zsh_pro.Data.Bytes.{Bytes, bytes_lt, bytes_lt_irrefl, bytes_lt_trans, bytes_lt-total}
use zsh_pro.Data.Sort.{sort, IsStrictOrder}
use zsh_pro.Live.Types.{LiveKind, Identity}
use zsh_pro.Live.Validate.{validate_identity}

unfoldable pub live_kind_rank : LiveKind → ℕ
live_kind_rank LiveKind.env = 0
live_kind_rank LiveKind.alias = 1
live_kind_rank LiveKind.function = 2
live_kind_rank LiveKind.path = 3
live_kind_rank LiveKind.fpath = 4
live_kind_rank LiveKind.option = 5
live_kind_rank (LiveKind.unsupported kind) = 6

unfoldable pub identity_less : Identity → Identity → Bool
unfolding live_kind_rank
identity_less i j =
    if live_kind_rank i.kind == live_kind_rank j.kind
    then bytes_lt i.name j.name
    else ltb (live_kind_rank i.kind) (live_kind_rank j.kind)

unfoldable pub sort_identities : List Identity → List Identity
sort_identities = sort identity_less

abbrev pub IsValidIdentity : Identity → Type 0
IsValidIdentity i = validate_identity i ≡ ok tt

abbrev pub supported : LiveKind → Bool
supported (LiveKind.unsupported kind) = false
supported _ = true

pub supported_of :
    (k : LiveKind) (n : Bytes)
    → IsValidIdentity (record { kind = k; name = n })
    → supported k ≡ true
unfolding validate_identity
supported_of (LiveKind.unsupported kind) n h = ground arith
supported_of _ n h = refl

rank_injective :
    (k l : LiveKind)
    → supported k ≡ true
    → supported l ≡ true
    → live_kind_rank k ≡ live_kind_rank l
    → k ≡ l
unfolding live_kind_rank
rank_injective k l hk hl h = ground arith

-- On valid identities the order is strict and total.
pub identity_less-IsStrictOrder : IsStrictOrder IsValidIdentity identity_less
unfolding identity_less
identity_less-IsStrictOrder = record {
  irrefl = λ i. ground (arith, bytes_lt_irrefl i.name);
  trans = λ i j k p q. ground (arith, bytes_lt_trans i.name j.name k.name);
  total = λ i j vi vj p q. ground (
    arith,
    bytes_lt-total i.name j.name,
    rank_injective i.kind j.kind (supported_of i.kind i.name vi) (supported_of j.kind j.name vj),
  );
}
