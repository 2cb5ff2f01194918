-- ===== src/Activate/Build/Accepted.antt =====
-- Diff accepts the manifests that Build makes, and takes them as they are.
use zsh_pro.Prelude.{
  ℕ, ◌≤◌, ◌≡◌, refl, Bool, true, some, List, [], ◌∷◌, ◌++◌, arith, nat_eq, if◌then◌else◌, contains,
  length, length-append, map, ok,
}
use zsh_pro.Data.Bytes.{Bytes, bytes_eq}
use zsh_pro.Data.Dict.{Dict, lookup, is_some}
use zsh_pro.Data.LastWins.{last_wins-finals, finals_of_IsDistinct}
use zsh_pro.Model.Profile.{Profile}
use zsh_pro.Model.Manifest.{schema_v1}
use zsh_pro.Activate.Manifest.{
  normalize_names, normalize_options, normalize_manifest, validate_list_delta, validate_lists,
  validate_bodies, deactivate, activate, diff,
}
use zsh_pro.Activate.Manifest.Scalars.{normalize_scalars_of_IsDistinct}
use zsh_pro.Activate.Build.Lists.{ListToken, delta_parts, list_delta}
use zsh_pro.Activate.Build.Entries.{
  Builder, new_builder, name_key, option_key, add_entries, finish, build,
}
use zsh_pro.Activate.Build.Invariant.{IsBuilt, build-IsBuilt}

-- The base index stays within the additions, and every addition has its mark.
delta_parts-bounds :
    (base : ℕ) (adds : List Bytes) (dynamic : List Bool) (ts : List ListToken)
    → base ≤ length adds
    → length dynamic ≡ length adds
    → ((delta_parts base adds dynamic ts).0 ≤ length (delta_parts base adds dynamic ts).1)
      × (length (delta_parts base adds dynamic ts).2 ≡ length (delta_parts base adds dynamic ts).1)
unfolding delta_parts
delta_parts-bounds base adds dynamic [] h e = (h, e)
delta_parts-bounds base adds dynamic (t ∷ ts) h e =
    delta_parts-bounds (if t.base then length adds else base)
      (if t.base then adds else adds ++ t.value ∷ [])
      (if t.base then dynamic else dynamic ++ t.dynamic ∷ []) ts
      (ground (arith, length-append adds (t.value ∷ [])))
      (ground (arith, length-append adds (t.value ∷ []), length-append dynamic (t.dynamic ∷ [])))

list_delta-valid : (n : Bytes) (ts : List ListToken) → validate_list_delta (list_delta n ts) ≡ ok tt
unfolding validate_list_delta list_delta
list_delta-valid n ts = ground (arith, delta_parts-bounds 0 [] [] ts (omega arith) refl)

list_deltas-valid :
    (tokens : Bytes → List ListToken) (ns : List Bytes)
    → validate_lists (map (λ n. list_delta n (tokens n)) ns) ≡ ok tt
unfolding validate_lists
list_deltas-valid tokens [] = refl
list_deltas-valid tokens (n ∷ ns) =
    ground (arith, list_delta-valid n (tokens n), list_deltas-valid tokens ns)

bodies-valid :
    (bodies : Dict Bytes Bytes) (ns : List Bytes)
    → ((n : Bytes) → contains n (map name_key ns) ≡ true → is_some (lookup n bodies) ≡ true)
    → validate_bodies bodies ns ≡ ok tt
unfolding validate_bodies contains
bodies-valid bodies [] h = refl
bodies-valid bodies (n ∷ ns) h =
    ground (arith, h n, bodies-valid bodies ns (λ m held. ground (arith, h m)))

module _ (b : Builder) (h : IsBuilt b) where
  finish-normal : normalize_manifest (finish b) ≡ finish b
  unfolding normalize_manifest finish normalize_names normalize_options
  finish-normal =
      rw
        (
          normalize_scalars_of_IsDistinct b.env.items h.env.distinct,
          last_wins-finals name_key b.functions.items,
          finals_of_IsDistinct name_key b.functions.items h.functions.distinct,
          last_wins-finals option_key b.options.items,
          finals_of_IsDistinct option_key b.options.items h.options.distinct,
        )
        refl

  finish-valid :
      (validate_lists (finish b).lists ≡ ok tt)
      × (validate_bodies (finish b).functions.bodies (finish b).functions.added ≡ ok tt)
  unfolding finish
  finish-valid =
      (list_deltas-valid _ b.list_order, bodies-valid b.bodies b.functions.items h.has_bodies)

-- A built manifest holds no name twice, so that normalisation leaves it as it is.
pub normalize_manifest-build : (p : Profile) → normalize_manifest (build p) ≡ build p
unfolding build
normalize_manifest-build p =
    finish-normal (add_entries new_builder p.entries) (build-IsBuilt p.entries)

build-valid :
    (p : Profile)
    → ((build p).schema ≡ schema_v1)
      × (validate_lists (build p).lists ≡ ok tt)
      × (validate_bodies (build p).functions.bodies (build p).functions.added ≡ ok tt)
unfolding build finish
build-valid p =
    let (lists, bodies) =
      finish-valid (add_entries new_builder p.entries) (build-IsBuilt p.entries) in
    (refl, lists, bodies)

-- Diff succeeds on every two built manifests: the schemas are supported, the base index of every
-- list is in range with one dynamic mark for each addition, and every function has a body. Its
-- plan deactivates all of the first manifest and then activates all of the second, as built.
pub diff-build :
    (p q : Profile)
    → diff (some (build p)) (some (build q))
      ≡ ok (record { deactivate = deactivate (build p); activate = activate (build q) })
unfolding diff
diff-build p q =
    rw (normalize_manifest-build p, normalize_manifest-build q)
      (ground (arith, build-valid p, build-valid q))
