-- ===== src/Tests/Registry.antt =====
-- A registry that owns an editor and a pinned token: the theorems at these inputs.
use zsh_pro.Prelude.{◌≡◌, refl, ok, true, false, some, none, [], ◌∷◌, ◌==◌, ◌||◌, ◌&&◌, contains}
use zsh_pro.Data.Bytes.{bytes, bytes_eq}
use zsh_pro.Live.Types.{LiveKind, Identity, identity_eq}
use zsh_pro.Live.Validate.{validate_live_snapshot}
use zsh_pro.Live.Values.{is_ok}
use zsh_pro.Worktree.Registry.{
  Registry, AttachmentResult, attach, admit, restore_admitted, exclusion_reason, allows_live_value,
  check_admitted, is_bookkeeping_identity, is_volatile_identity, is_pinned_secret,
}
use zsh_pro.Worktree.Registry.Laws.{
  IsGuarded, Admission, attach-IsGuarded, admit-Admission, restore_admitted-allows,
}
use zsh_pro.Model.Profile.{
  BlockKind, Category, SecretRefKind, ValueMode, Profile, effective_managed, representable,
}
use zsh_pro.Worktree.Registry.{owns}
use zsh_pro.Worktree.Registry.Seed.{
  seed, decide_entries, check_secret, validate_registry_secret_ref, decide, decide_all,
  registry_entry_identities, owned_of, pinned_of,
}
use zsh_pro.Worktree.Registry.Seeded.{last_decision, decided, seed-last_decision}
use zsh_pro.Tests.Build.{entry}
use zsh_pro.Tests.Samples.{opened, before, snapshot, editor, nomatch}

abbrev token : Identity
token = record { kind = LiveKind.env; name = bytes "TOKEN" }

abbrev registry : Registry
registry = record {
  address = 1;
  policy = some (λ i. i.name == bytes "PASSWORD");
  owned = editor ∷ token ∷ [];
  pinned_secret = token ∷ [];
}

before_valid : validate_live_snapshot (snapshot before) ≡ ok tt
unfolding opened
before_valid = refl

attach-IsGuarded_example :
    (a : AttachmentResult) × (attach registry (snapshot before) ≡ ok a) × IsGuarded registry a
attach-IsGuarded_example = attach-IsGuarded registry (snapshot before) before_valid

abbrev attached : AttachmentResult
attached = record { baseline = []; exclusions = []; present_at_attach = editor ∷ []; registry = 1 }

admit-Admission_example :
    Admission registry nomatch
      ((attached.registry ≡ registry.address)
        × (exclusion_reason registry nomatch ≡ none)
        × (contains nomatch attached.present_at_attach ≡ false))
      (admit registry attached nomatch)
admit-Admission_example = admit-Admission registry attached nomatch

abbrev restored : Registry
restored = record registry { owned = nomatch ∷ editor ∷ token ∷ [] }

restored_sample : restore_admitted registry (nomatch ∷ []) ≡ ok restored
unfolding opened restore_admitted check_admitted exclusion_reason is_bookkeeping_identity
    is_volatile_identity is_pinned_secret is_ok
restored_sample = refl

restore_admitted-allows_example :
    ((i : Identity) → contains i (nomatch ∷ []) ≡ true → exclusion_reason registry i ≡ none)
    × ((i : Identity)
        → allows_live_value restored i
          ≡ (contains i (nomatch ∷ []) || allows_live_value registry i))
    × (restored.pinned_secret ≡ registry.pinned_secret)
restore_admitted-allows_example =
    restore_admitted-allows registry restored (nomatch ∷ []) restored_sample

-- A profile whose token is kept in the keychain.
abbrev vault : Profile
vault = record {
  entries =
      record (entry BlockKind.assignment Category.secrets (bytes "export") (bytes "TOKEN" ∷ [])
        []) {
          secret = some (record { kind = SecretRefKind.keychain; key = bytes "TOKEN" });
          value_mode = ValueMode.unsupported;
        }
      ∷ [];
}

abbrev seeded : Registry
seeded = record registry { owned = token ∷ []; pinned_secret = token ∷ [] }

seeded_sample : seed registry vault ≡ ok seeded
unfolding opened seed decide_entries check_secret validate_registry_secret_ref decide decide_all
    registry_entry_identities owned_of pinned_of effective_managed representable is_ok
seeded_sample = refl

seed-last_decision_example :
    (owns seeded token ≡ decided (λ d. d.owned) (last_decision token vault.entries none))
    × (is_pinned_secret seeded token
        ≡ decided (λ d. d.owned && d.pin) (last_decision token vault.entries none))
seed-last_decision_example = seed-last_decision registry seeded vault seeded_sample token
