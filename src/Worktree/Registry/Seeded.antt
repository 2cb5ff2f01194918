-- ===== src/Worktree/Registry/Seeded.antt =====
-- The last entry that names an identity decides what Registry.Seed makes of it.
use zsh_pro.Prelude.{
  ◌≡◌, refl, ◌∙◌, ap, Bool, false, ◌&&◌, Option, none, some, List, [], ◌∷◌, arith, nat_eq,
  if◌then◌else◌, contains, ok, step-returns, check-returns,
}
use zsh_pro.Data.Bytes.{bytes_eq}
use zsh_pro.Data.Dict.{insert, lookup, lookup-insert, keys, IsDistinct, insert-IsDistinct}
use zsh_pro.Live.Types.{Identity, identity_eq}
use zsh_pro.Model.Profile.{Entry, Profile}
use zsh_pro.Worktree.Registry.{Registry, owns, is_pinned_secret}
use zsh_pro.Worktree.Registry.Seed.{
  registry_entry_identities, SeedDecision, Decisions, decide, decide_all, decide_entries,
  check_secret, owned_of, pinned_of, seed,
}

-- The decision of the last entry that names an identity.
unfoldable pub last_decision : Identity → List Entry → Option SeedDecision → Option SeedDecision
last_decision k [] old = old
last_decision k (e ∷ es) old =
    last_decision k es (if contains k (registry_entry_identities e) then some (decide e k) else old)

abbrev pub decided : (SeedDecision → Bool) → Option SeedDecision → Bool
decided f none = false
decided f (some d) = f d

lookup-decide_all :
    (e : Entry) (k : Identity) (is : List Identity) (final : Decisions)
    → lookup k (decide_all e is final)
      ≡ (if contains k is then some (decide e k) else lookup k final)
unfolding decide_all contains
lookup-decide_all e k [] final = refl
lookup-decide_all e k (i ∷ is) final = ground (
  arith,
  lookup-decide_all e k is (insert i (decide e i) final),
  lookup-insert i k (decide e i) final,
)

decide_all-IsDistinct :
    (e : Entry) (is : List Identity) (final : Decisions)
    → IsDistinct (keys final)
    → IsDistinct (keys (decide_all e is final))
unfolding decide_all
decide_all-IsDistinct e [] final u = u
decide_all-IsDistinct e (i ∷ is) final u =
    decide_all-IsDistinct e is (insert i (decide e i) final)
      (insert-IsDistinct i (decide e i) final u)

decide_entries_ok :
    (es : List Entry) (final out : Decisions)
    → IsDistinct (keys final)
    → decide_entries es final ≡ ok out
    → IsDistinct (keys out) × ((k : Identity) → lookup k out ≡ last_decision k es (lookup k final))
unfolding decide_entries last_decision
decide_entries_ok [] final out u h =
    let same : final ≡ out = ground (arith, h) in rw (← same) (u, λ k. refl)
decide_entries_ok (e ∷ es) final out u h =
    let (_, rest) = check-returns (check_secret e e.secret) _ h in
    let next = decide_all e (registry_entry_identities e) final in
    let (v, looks) =
      decide_entries_ok es next out (decide_all-IsDistinct e (registry_entry_identities e) final u)
        rest in
    (
      v,
      λ k.
          looks k
          ∙ ap (last_decision k es) (lookup-decide_all e k (registry_entry_identities e) final),
    )

owned_of-absent :
    (k : Identity) (d : Decisions) → contains k (keys d) ≡ false → contains k (owned_of d) ≡ false
unfolding owned_of keys contains
owned_of-absent k [] h = refl
owned_of-absent k ((i, d) ∷ final) h = ground (arith, owned_of-absent k final)

contains-owned_of :
    (k : Identity) (d : Decisions)
    → IsDistinct (keys d)
    → contains k (owned_of d) ≡ decided (λ d. d.owned) (lookup k d)
unfolding owned_of keys contains lookup
contains-owned_of k [] u = refl
contains-owned_of k ((i, d) ∷ final) (new, u) =
    ground (arith, contains-owned_of k final u, owned_of-absent i final new)

pinned_of-absent :
    (k : Identity) (d : Decisions) → contains k (keys d) ≡ false → contains k (pinned_of d) ≡ false
unfolding pinned_of keys contains
pinned_of-absent k [] h = refl
pinned_of-absent k ((i, d) ∷ final) h = ground (arith, pinned_of-absent k final)

contains-pinned_of :
    (k : Identity) (d : Decisions)
    → IsDistinct (keys d)
    → contains k (pinned_of d) ≡ decided (λ d. d.owned && d.pin) (lookup k d)
unfolding pinned_of keys contains lookup
contains-pinned_of k [] u = refl
contains-pinned_of k ((i, d) ∷ final) (new, u) =
    ground (arith, contains-pinned_of k final u, pinned_of-absent i final new)

-- Where Seed succeeds, the last entry that names an identity decides alone whether it is owned and
-- whether it is a pinned secret; what the registry held before does not matter.
pub seed-last_decision :
    (r r' : Registry) (p : Profile)
    → seed r p ≡ ok r'
    → (k : Identity)
    → (owns r' k ≡ decided (λ d. d.owned) (last_decision k p.entries none))
      × (is_pinned_secret r' k ≡ decided (λ d. d.owned && d.pin) (last_decision k p.entries none))
unfolding seed owns is_pinned_secret lookup keys
seed-last_decision r r' p h k =
    let (final, decisions, same) = step-returns (decide_entries p.entries []) _ h in
    let (u, looks) = decide_entries_ok p.entries [] final tt decisions in
    let seeded : record r { owned = owned_of final; pinned_secret = pinned_of final } ≡ r' =
      ground (arith, same) in
    rw (← seeded, ← looks k) (contains-owned_of k final u, contains-pinned_of k final u)
