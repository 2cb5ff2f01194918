-- ===== src/Worktree/Overlay.antt =====
-- ApplyOverlay, BuildProjection and CategorizeDiff: core/worktree/diff.go.
pub mod Laws
pub mod Authority
use zsh_pro.Prelude.{
  ℕ, ◌≡◌, Bool, true, false, not, ◌&&◌, Option, none, some, List, [], ◌∷◌, ◌++◌, Eq, ◌==◌, map,
  if◌then◌else◌, ok, err, Result, ◌>>=◌, ◌>>◌, guard, contains, select,
}
use zsh_pro.Data.Bytes.{bytes}
use zsh_pro.Data.Slots.{append_all, put, drop, active_items}
use zsh_pro.Data.Slots.Ops.{empty}
use zsh_pro.Data.Sort.{sort}
use zsh_pro.Live.Types.{
  LiveKind, Identity, identity_eq, LiveIdentityState, LiveChange, LiveChangeKind, OverlayEntry,
  LiveProjection,
}
use zsh_pro.Live.Errors.{Error}
use zsh_pro.Live.Validate.{Checked}
use zsh_pro.Live.Values.{clone_live_value}
use zsh_pro.Live.Normalize.{
  state_key, clone_state, clone_live_states, normalize_live_states, normalize_overlay,
}
use zsh_pro.Worktree.Order.{identity_less}
use zsh_pro.Worktree.Diff.{validate_live_change}
use zsh_pro.Worktree.Apply.{StateSlots}

unfoldable pub apply_entry : StateSlots → OverlayEntry → StateSlots
apply_entry t o =
    if o.tombstone
    then drop state_key t o.identity
    else put state_key t (record { identity = o.identity; value = clone_live_value o.value })

unfoldable pub apply_entries : StateSlots → List OverlayEntry → StateSlots
apply_entries t [] = t
apply_entries t (o ∷ os) = apply_entries (apply_entry t o) os

unfoldable pub apply_normalized_overlay :
    List LiveIdentityState → List OverlayEntry → List LiveIdentityState
apply_normalized_overlay base overlay =
    let present = map clone_state (select (λ s. s.value.present) base) in
    active_items
      (apply_entries (append_all state_key (λ _. true) (empty state_key) present) overlay).slots

unfoldable pub apply_overlay :
    List LiveIdentityState → List OverlayEntry → Result Error (List LiveIdentityState)
apply_overlay base overlay = do
  normalized_base ← normalize_live_states base
  normalized_overlay ← normalize_overlay overlay
  ok (apply_normalized_overlay normalized_base normalized_overlay)

unfoldable pub build_projection :
    List LiveIdentityState → List OverlayEntry → Result Error LiveProjection
build_projection base overlay = do
  normalized_base ← normalize_live_states base
  normalized_overlay ← normalize_overlay overlay
  ok (record {
    schema = bytes "v1";
    states = clone_live_states (apply_normalized_overlay normalized_base normalized_overlay);
    tombstones = map (λ o. o.identity) (select (λ o. o.tombstone) normalized_overlay);
  })

pub record DiffEntry : Type 0 where
  pub kind : LiveChangeKind
  pub identity : Identity

pub record CategorizedDiff : Type 0 where
  pub environment : List DiffEntry
  pub aliases : List DiffEntry
  pub functions : List DiffEntry
  pub path : List DiffEntry
  pub fpath : List DiffEntry
  pub options : List DiffEntry

-- The first loop of CategorizeDiff.
unfoldable pub diff_entries : List Identity → List LiveChange → Result Error (List DiffEntry)
diff_entries seen [] = ok []
diff_entries seen (c ∷ cs) = do
  validate_live_change c
  guard (not (contains c.identity seen)) Error.duplicate_change
  entries ← diff_entries (c.identity ∷ seen) cs
  ok (record { kind = c.kind; identity = c.identity } ∷ entries)

abbrev entry_less : DiffEntry → DiffEntry → Bool
entry_less e f = identity_less e.identity f.identity

-- `out.Field = append(out.Field, entry)`, the field chosen by the identity's kind.
append_entry : CategorizedDiff → LiveKind → DiffEntry → CategorizedDiff
append_entry out LiveKind.env e = record out { environment = out.environment ++ e ∷ [] }
append_entry out LiveKind.alias e = record out { aliases = out.aliases ++ e ∷ [] }
append_entry out LiveKind.function e = record out { functions = out.functions ++ e ∷ [] }
append_entry out LiveKind.path e = record out { path = out.path ++ e ∷ [] }
append_entry out LiveKind.fpath e = record out { fpath = out.fpath ++ e ∷ [] }
append_entry out LiveKind.option e = record out { options = out.options ++ e ∷ [] }
append_entry out (LiveKind.unsupported kind) e = out

unfoldable pub group_entries : CategorizedDiff → List DiffEntry → CategorizedDiff
unfolding append_entry
group_entries out [] = out
group_entries out (e ∷ es) = group_entries (append_entry out e.identity.kind e) es

abbrev pub no_entries : CategorizedDiff
no_entries = record {
  environment = [];
  aliases = [];
  functions = [];
  path = [];
  fpath = [];
  options = [];
}

unfoldable pub categorize_diff : List LiveChange → Result Error CategorizedDiff
categorize_diff changes = do
  entries ← diff_entries [] changes
  ok (group_entries no_entries (sort entry_less entries))
