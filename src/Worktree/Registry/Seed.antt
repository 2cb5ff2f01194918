-- ===== src/Worktree/Registry/Seed.antt =====
-- Registry.Seed: core/worktree/registry.go.
use zsh_pro.Prelude.{
  Bool, true, false, not, ◌&&◌, Option, none, some, List, [], ◌∷◌, ◌==◌, nat_eq, if◌then◌else◌, ok,
  Result, ◌>>=◌, ◌>>◌, guard,
}
use zsh_pro.Data.Bytes.{Bytes, bytes, bytes_eq}
use zsh_pro.Data.Dict.{Dict, insert, is_some}
use zsh_pro.Live.Types.{LiveKind, Identity, identity_eq}
use zsh_pro.Live.Errors.{Error}
use zsh_pro.Live.Validate.{Checked, validate_identity}
use zsh_pro.Live.Values.{is_ok}
use zsh_pro.Model.Profile.{
  BlockKind, Category, SecretRefKind, SecretRef, ValueMode, Entry, Profile, effective_managed,
  representable,
}
use zsh_pro.Worktree.Registry.{Registry}

identity_of : LiveKind → List Bytes → List Identity
identity_of k [] = []
identity_of k (n ∷ ns) = record { kind = k; name = n } ∷ identity_of k ns

assignment_identities : List Bytes → List Identity
assignment_identities [] = []
assignment_identities (n ∷ ns) =
    record {
      kind =
          if n == bytes "PATH"
          then LiveKind.path
          else if n == bytes "FPATH"
          then LiveKind.fpath
          else LiveKind.env;
      name = n;
    }
    ∷ assignment_identities ns

identities_of_kind : Entry → BlockKind → List Identity
unfolding identity_of assignment_identities
identities_of_kind e BlockKind.assignment = assignment_identities e.names
identities_of_kind e BlockKind.alias = identity_of LiveKind.alias e.names
identities_of_kind e BlockKind.func_decl = identity_of LiveKind.function e.names
identities_of_kind e BlockKind.command =
    if not (e.cmd_name == bytes "setopt") && not (e.cmd_name == bytes "unsetopt")
    then []
    else identity_of LiveKind.option e.names
identities_of_kind e _ = []

unfoldable pub registry_entry_identities : Entry → List Identity
unfolding identities_of_kind
registry_entry_identities e = identities_of_kind e e.kind

is_assignment : BlockKind → Bool
is_assignment BlockKind.assignment = true
is_assignment _ = false

is_secrets : Category → Bool
is_secrets Category.secrets = true
is_secrets _ = false

is_stored : SecretRefKind → Bool
is_stored SecretRefKind.keychain = true
is_stored SecretRefKind.file = true
is_stored _ = false

is_unsupported : ValueMode → Bool
is_unsupported ValueMode.unsupported = true
is_unsupported _ = false

-- `len(entry.Names) != 1 || entry.Names[0] == "" || ref.Key != entry.Names[0]`
names_key : Bytes → List Bytes → Bool
names_key key (n ∷ []) = not (n == []) && key == n
names_key key _ = false

-- Called where entry.Secret is not nil.
unfoldable pub validate_registry_secret_ref : Entry → SecretRef → Checked
unfolding is_assignment is_secrets is_stored is_unsupported names_key
validate_registry_secret_ref e ref =
    guard
      (is_assignment e.kind
        && is_secrets e.category
        && names_key ref.key e.names
        && is_stored ref.kind
        && effective_managed e
        && representable e
        && not e.dynamic
        && is_unsupported e.value_mode
        && not (is_some e.runtime_value)
        && is_ok (validate_identity (record { kind = LiveKind.env; name = ref.key })))
      Error.secret_ref

unfoldable pub check_secret : Entry → Option SecretRef → Checked
check_secret e none = ok tt
check_secret e (some ref) = validate_registry_secret_ref e ref

pub record SeedDecision : Type 0 where
  pub owned : Bool
  pub pin : Bool

unfoldable pub decide : Entry → Identity → SeedDecision
decide e i =
    if effective_managed e && representable e && is_ok (validate_identity i)
    then record { owned = true; pin = is_some e.secret }
    else record { owned = false; pin = false }

abbrev pub Decisions : Type 0
Decisions = Dict Identity SeedDecision

unfoldable pub decide_all : Entry → List Identity → Decisions → Decisions
decide_all e [] final = final
decide_all e (i ∷ is) final = decide_all e is (insert i (decide e i) final)

unfoldable pub decide_entries : List Entry → Decisions → Result Error Decisions
unfolding check_secret
decide_entries [] final = ok final
decide_entries (e ∷ es) final = do
  check_secret e e.secret
  decide_entries es (decide_all e (registry_entry_identities e) final)

unfoldable pub owned_of : Decisions → List Identity
owned_of [] = []
owned_of ((i, d) ∷ final) = let rest = owned_of final in if d.owned then i ∷ rest else rest

unfoldable pub pinned_of : Decisions → List Identity
pinned_of [] = []
pinned_of ((i, d) ∷ final) =
    let rest = pinned_of final in if d.owned && d.pin then i ∷ rest else rest

unfoldable pub seed : Registry → Profile → Result Error Registry
seed r p = do
  final ← decide_entries p.entries []
  ok (record r { owned = owned_of final; pinned_secret = pinned_of final })
