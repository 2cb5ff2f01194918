-- ===== src/Activate/Build/Projected.antt =====
-- BuildEffective agrees with the overlay of core/worktree/diff.go, over the states that it reads
-- from the manifest.
use zsh_pro.Prelude.{Result, err, ap, ◌≡◌, refl, List, ok, ◌>>=◌}
use zsh_pro.Data.Bytes.{bytes}
use zsh_pro.Live.Types.{identity_eq, OverlayEntry}
use zsh_pro.Live.Errors.{Error}
use zsh_pro.Live.Normalize.{clone_live_projection, normalize_live_states, normalize_overlay}
use zsh_pro.Model.Profile.{Profile}
use zsh_pro.Worktree.Overlay.{build_projection}
use zsh_pro.Activate.Build.Entries.{build}
use zsh_pro.Activate.Build.Projection.{effective_projection}
use zsh_pro.Activate.Build.Projection.Agree.{effective_projection-apply_normalized_overlay}
use zsh_pro.Activate.Build.Effective.{
  live_states_from_manifest, new_committed_worktree, build_effective,
}

overlay_by :
    {A B C D : Type 0} (f : A → B → Result Error D) (p : A → B → C) (k : C → Result Error D)
    (first : Result Error A) (second : Result Error B)
    → ((a : A) (b : B) → f a b ≡ k (p a b))
    → (first >>= λ a. second >>= λ b. f a b) ≡ ((first >>= λ a. second >>= λ b. ok (p a b)) >>= k)
overlay_by f p k (ok a) (ok b) h = h a b
overlay_by f p k (ok a) (err e) h = refl
overlay_by f p k (err e) second h = refl

-- BuildEffective returns what BuildProjection makes of the manifest's states and the overlay,
-- beside the source profile as it was given, and fails with the error of BuildProjection.
pub build_effective-build_projection :
    (base : Profile) (overlay : List OverlayEntry)
    → build_effective base overlay ≡ (
        build_projection (live_states_from_manifest base (build base)) overlay >>= λ p.
        ok (record { schema = bytes "v1"; source = base; projection = p }))
unfolding build_effective build_projection new_committed_worktree clone_live_projection
build_effective-build_projection base overlay =
    let states = live_states_from_manifest base (build base) in
    overlay_by (λ xs os. ok (new_committed_worktree base (effective_projection xs os))) _ _
      (normalize_live_states states) (normalize_overlay overlay)
      (λ xs os.
        ap (λ p. ok (new_committed_worktree base p))
          (effective_projection-apply_normalized_overlay xs os))
