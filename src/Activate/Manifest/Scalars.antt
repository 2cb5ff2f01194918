-- ===== src/Activate/Manifest/Scalars.antt =====
-- normalizeScalars keeps the last occurrence of each name and merges the export marks.
use zsh_pro.Prelude.{
  ℕ, suc, ◌≡◌, refl, ◌∙◌, ap, Bool, true, false, ◌||◌, ◌&&◌, some, List, [], ◌∷◌, arith, ◌==◌,
  nat_eq, if◌then◌else◌, contains, map,
}
use zsh_pro.Data.Bytes.{Bytes, bytes_eq}
use zsh_pro.Data.Dict.{lookup, lookup-insert, IsDistinct, is_some}
use zsh_pro.Data.LastWins.{last_indexes, keep_last, keep_last-finals, finals, finals_of_IsDistinct}
use zsh_pro.Model.Manifest.{Scalar}
use zsh_pro.Activate.Manifest.{
  or_false, ScalarMaps, note_scalars, note_scalar, keep_scalars, no_scalars, normalize_scalars,
}

abbrev pub scalar_name : Scalar → Bytes
scalar_name s = s.name

-- Does some occurrence of a name carry an export mark, and does one say exported?
unfoldable pub explicit_in : Bytes → List Scalar → Bool
explicit_in n [] = false
explicit_in n (s ∷ ss) = s.name == n && is_some s.exported || explicit_in n ss

unfoldable pub exported_in : Bytes → List Scalar → Bool
exported_in n [] = false
exported_in n (s ∷ ss) = s.name == n && or_false s.exported || exported_in n ss

-- A scalar with the merged mark of its name.
unfoldable pub merged : List Scalar → Scalar → Scalar
merged ss s =
    if explicit_in s.name ss then record s { exported = some (exported_in s.name ss) } else s

note_scalars-last :
    (i : ℕ) (ss : List Scalar) (t : ScalarMaps)
    → (note_scalars i ss t).last ≡ last_indexes scalar_name i ss t.last
unfolding note_scalars note_scalar last_indexes
note_scalars-last i [] t = refl
note_scalars-last i (s ∷ ss) t =
    ground (arith, note_scalars-last (suc i) ss (note_scalar t i s s.exported))

note_scalars-exported :
    (n : Bytes) (i : ℕ) (ss : List Scalar) (t : ScalarMaps)
    → or_false (lookup n (note_scalars i ss t).exported)
      ≡ (or_false (lookup n t.exported) || exported_in n ss)
unfolding note_scalars note_scalar exported_in
note_scalars-exported n i [] t = ground arith
note_scalars-exported n i (s ∷ ss) t = ground (
  arith,
  note_scalars-exported n (suc i) ss (note_scalar t i s s.exported),
  lookup-insert s.name n (or_false (lookup s.name t.exported) || or_false s.exported) t.exported,
)

note_scalars-explicit :
    (n : Bytes) (i : ℕ) (ss : List Scalar) (t : ScalarMaps)
    → or_false (lookup n (note_scalars i ss t).explicit)
      ≡ (or_false (lookup n t.explicit) || explicit_in n ss)
unfolding note_scalars note_scalar explicit_in
note_scalars-explicit n i [] t = ground arith
note_scalars-explicit n i (s ∷ ss) t = ground (
  arith,
  note_scalars-explicit n (suc i) ss (note_scalar t i s s.exported),
  lookup-insert s.name n true t.explicit,
)

keep_scalars_lem :
    (all : List Scalar) (t : ScalarMaps) (i : ℕ) (ss : List Scalar)
    → ((n : Bytes) → or_false (lookup n t.exported) ≡ exported_in n all)
    → ((n : Bytes) → or_false (lookup n t.explicit) ≡ explicit_in n all)
    → keep_scalars t i ss ≡ map (merged all) (keep_last scalar_name t.last i ss)
unfolding keep_scalars keep_last merged
keep_scalars_lem all t i [] e x = refl
keep_scalars_lem all t i (s ∷ ss) e x =
    ground (arith, keep_scalars_lem all t (suc i) ss e x, e s.name, x s.name)

-- Normalised scalars are the last occurrence of each name, in order; a name that carries an export
-- mark anywhere is exported just when some occurrence says so, and keeps no mark otherwise.
pub normalize_scalars-finals :
    (ss : List Scalar) → normalize_scalars ss ≡ map (merged ss) (finals scalar_name ss)
unfolding normalize_scalars lookup
normalize_scalars-finals ss =
    keep_scalars_lem ss (note_scalars 0 ss no_scalars) 0 ss
      (λ n. note_scalars-exported n 0 ss no_scalars) (λ n. note_scalars-explicit n 0 ss no_scalars)
    ∙ ap (map (merged ss)) (
        ap (λ m. keep_last scalar_name m 0 ss) (note_scalars-last 0 ss no_scalars)
        ∙ keep_last-finals scalar_name 0 ss [])

explicit_in-absent :
    (n : Bytes) (ss : List Scalar)
    → contains n (map scalar_name ss) ≡ false
    → (explicit_in n ss ≡ false) × (exported_in n ss ≡ false)
unfolding explicit_in exported_in contains
explicit_in-absent n [] h = (refl, refl)
explicit_in-absent n (s ∷ ss) h = ground (arith, explicit_in-absent n ss)

merged-other :
    (s : Scalar) (ss xs : List Scalar)
    → contains s.name (map scalar_name xs) ≡ false
    → map (merged (s ∷ ss)) xs ≡ map (merged ss) xs
unfolding merged explicit_in exported_in contains
merged-other s ss [] h = refl
merged-other s ss (x ∷ xs) h = ground (arith, merged-other s ss xs)

merged_self :
    (s : Scalar) (ss : List Scalar)
    → contains s.name (map scalar_name ss) ≡ false
    → merged (s ∷ ss) s ≡ s
unfolding merged explicit_in exported_in
merged_self s ss h = ground (arith, explicit_in-absent s.name ss h)

map-merged : (ss : List Scalar) → IsDistinct (map scalar_name ss) → map (merged ss) ss ≡ ss
map-merged [] u = refl
map-merged (s ∷ ss) (new, u) =
    ground (arith, merged_self s ss new, merged-other s ss ss new, map-merged ss u)

-- Scalars with distinct names are normalised already.
pub normalize_scalars_of_IsDistinct :
    (ss : List Scalar) → IsDistinct (map scalar_name ss) → normalize_scalars ss ≡ ss
normalize_scalars_of_IsDistinct ss u =
    normalize_scalars-finals ss
    ∙ ap (map (merged ss)) (finals_of_IsDistinct scalar_name ss u)
    ∙ map-merged ss u
