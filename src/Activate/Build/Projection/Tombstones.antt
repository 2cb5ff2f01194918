-- ===== src/Activate/Build/Projection/Tombstones.antt =====
-- The tombstones that effectiveProjection of core/activate/builder.go collects.
use zsh_pro.Prelude.{
  ℕ, ◌≡◌, refl, sym, ap, ◌∙◌, Bool, true, false, Option, none, some, List, [], ◌∷◌, ◌++◌, map,
  select, if◌then◌else◌, arith,
}
use zsh_pro.Data.Dict.{lookup}
use zsh_pro.Live.Types.{Identity, identity_eq, LiveIdentityState, OverlayEntry}
use zsh_pro.Live.Values.{clone_live_value}
use zsh_pro.Live.Normalize.{clone_state}
use zsh_pro.Activate.Build.Projection.{
  Projecting, append_projected, project_base, bury, put_projected, project_entry, project_entries,
}

put_projected-tombstones :
    (o : Option ℕ) (p : Projecting) (s : LiveIdentityState)
    → (put_projected o p s).tombstones ≡ p.tombstones
unfolding put_projected append_projected
put_projected-tombstones none p s = refl
put_projected-tombstones (some n) p s = refl

bury-tombstones :
    (o : Option ℕ) (p : Projecting) (i : Identity)
    → (bury o p i).tombstones ≡ p.tombstones ++ i ∷ []
unfolding bury
bury-tombstones none p i = refl
bury-tombstones (some n) p i = refl

append_assoc :
    (xs : List Identity) (i : Identity) (ys : List Identity) → (xs ++ i ∷ []) ++ ys ≡ xs ++ i ∷ ys
append_assoc [] i ys = refl
append_assoc (x ∷ xs) i ys = ap (λ zs. x ∷ zs) (append_assoc xs i ys)

append_nil : (xs : List Identity) → xs ++ [] ≡ xs
append_nil [] = refl
append_nil (x ∷ xs) = ap (λ zs. x ∷ zs) (append_nil xs)

abbrev pub buried : List OverlayEntry → List Identity
buried os = map (λ o. o.identity) (select (λ o. o.tombstone) os)

entry_step-tombstones :
    (b : Bool) (p q r : Projecting) (i : Identity) (rest : List Identity)
    → q.tombstones ≡ p.tombstones ++ i ∷ []
    → r.tombstones ≡ p.tombstones
    → (if b then q else r).tombstones ++ rest ≡ p.tombstones ++ (if b then i ∷ rest else rest)
entry_step-tombstones true p q r i rest h k =
    ap (λ is. is ++ rest) h ∙ append_assoc p.tombstones i rest
entry_step-tombstones false p q r i rest h k = ap (λ is. is ++ rest) k

map_if :
    (b : Bool) (o : OverlayEntry) (os : List OverlayEntry)
    → map (λ e. e.identity) (if b then o ∷ os else os)
      ≡ (if b then o.identity ∷ map (λ e. e.identity) os else map (λ e. e.identity) os)
map_if true o os = refl
map_if false o os = refl

pub project_entries-tombstones :
    (p : Projecting) (os : List OverlayEntry)
    → (project_entries p os).tombstones ≡ p.tombstones ++ buried os
unfolding project_entries project_entry select
project_entries-tombstones p [] = sym (append_nil p.tombstones)
project_entries-tombstones p (o ∷ os) =
    let position = lookup o.identity p.positions in
    project_entries-tombstones (project_entry p o) os
    ∙ entry_step-tombstones o.tombstone p _ _ o.identity (buried os)
        (bury-tombstones position p o.identity)
        (put_projected-tombstones position p
          (record { identity = o.identity; value = clone_live_value o.value }))
    ∙ ap (λ is. p.tombstones ++ is) (sym (map_if o.tombstone o (select (λ e. e.tombstone) os)))

pub project_base-tombstones :
    (p : Projecting) (base : List LiveIdentityState)
    → (project_base p base).tombstones ≡ p.tombstones
unfolding project_base append_projected
project_base-tombstones p [] = refl
project_base-tombstones p (s ∷ ss) =
    project_base-tombstones (if s.value.present then append_projected p (clone_state s) else p) ss
    ∙ ground arith
