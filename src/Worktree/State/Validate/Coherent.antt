-- ===== src/Worktree/State/Validate/Coherent.antt =====
-- What ValidateState ensures of a state: core/worktree/state.go.
use zsh_pro.Prelude.{
  ℕ, ◌≤◌, ◌≡◌, refl, Bool, true, false, not, ◌&&◌, ◌||◌, List, [], ◌∷◌, nat_eq, leb, if◌then◌else◌,
  length, ◌⊎◌, inl, inr, ok, guard, All, step-returns, check-returns, guard-returns, choice-gives,
  arith,
}
use zsh_pro.Data.Bytes.{Bytes, bytes_eq}
use zsh_pro.Data.Dict.{Dict, is_some}
use zsh_pro.Live.Types.{LiveIdentityState}
use zsh_pro.Live.Errors.{Error}
use zsh_pro.Live.Normalize.{clone_live_states}
use zsh_pro.Live.Observed.{SameState}
use zsh_pro.Worktree.Apply.{validate_changes}
use zsh_pro.Worktree.Apply.Equal.{equal_live_states_sound}
use zsh_pro.Worktree.History.{
  StateEvent, replay, validate_event_sequence, validate_shared_generation, max_state_events,
}
use zsh_pro.Worktree.State.{State, ShellState, PendingKind, PendingTransition}
use zsh_pro.Worktree.State.Shell.{
  validate_shell_state, validate_present_states, validate_identity_list, validate_exclusions,
  validate_pending, validate_pending_kind, validate_pending_target, validate_resolution,
  is_resolution, is_empty, validate_delta_conflict, validate_attach_state,
}
use zsh_pro.Worktree.State.Validate.{
  validate_state, validate_materialized, validate_unmaterialized, validate_shells,
  validate_committed, validate_admitted_identities, max_shell_records,
}

unfoldable pub is_nothing : PendingKind → Bool
is_nothing PendingKind.nothing = true
is_nothing _ = false

-- The parts of a shell's record agree with each other and with the head revision.
pub record IsCoherent (head : ℕ) (s : ShellState) : Type 0 where
  pub applied : s.applied_revision ≤ head
  pub held_back : is_some s.conflict ≡ not (is_empty s.unpublished_delta)
  pub pending :
      (is_nothing s.pending.kind ≡ true)
      ⊎ ((s.applied_revision ≤ s.pending.revision) × (s.pending.revision ≤ head))
  pub resolves : (not (is_resolution s.pending.kind) || is_some s.conflict) ≡ true

validate_delta_conflict-parts :
    (s : ShellState)
    → validate_delta_conflict s ≡ ok tt
    → is_some s.conflict ≡ not (is_empty s.unpublished_delta)
unfolding validate_delta_conflict
validate_delta_conflict-parts s h = ground arith

validate_pending_target-parts :
    (p : PendingTransition) (s : ShellState) (head : ℕ)
    → validate_pending_target p s head ≡ ok tt
    → (s.applied_revision ≤ p.revision) × (p.revision ≤ head)
unfolding validate_pending_target
validate_pending_target-parts p s head h =
    let (first, _) = check-returns (guard _ Error.pending_target) (validate_changes p.changes) h in
    ground arith

validate_resolution-parts :
    (p : PendingTransition) (s : ShellState)
    → validate_resolution p s ≡ ok tt
    → is_some s.conflict ≡ true
unfolding validate_resolution
validate_resolution-parts p s h = ground arith

-- What is pending, by its kind.
validate_pending_kind-parts :
    (k : PendingKind) (p : PendingTransition) (s : ShellState) (head : ℕ)
    → validate_pending_kind k p s head ≡ ok tt
    → ((is_nothing k ≡ true) ⊎ ((s.applied_revision ≤ p.revision) × (p.revision ≤ head)))
      × ((not (is_resolution k) || is_some s.conflict) ≡ true)
unfolding validate_pending_kind is_nothing is_resolution
validate_pending_kind-parts PendingKind.nothing p s head h = (inl refl, refl)
validate_pending_kind-parts PendingKind.pull p s head h =
    let (target, _) = check-returns (validate_pending_target p s head) _ h in
    (inr (validate_pending_target-parts p s head target), refl)
validate_pending_kind-parts PendingKind.resolution p s head h =
    let (target, backed) = check-returns (validate_pending_target p s head) _ h in
    (inr (validate_pending_target-parts p s head target), validate_resolution-parts p s backed)
validate_pending_kind-parts (PendingKind.unknown k) p s head h = absurd (ground arith)

revisions-parts :
    (s : ShellState) (head : ℕ)
    → (leb s.attached_revision head
        && leb s.applied_revision head
        && leb s.last_active_revision head)
      ≡ true
    → s.applied_revision ≤ head
revisions-parts s head h = ground arith

validate_shell_state-IsCoherent :
    (id : Bytes) (s : ShellState) (head : ℕ)
    → validate_shell_state id s head ≡ ok tt
    → IsCoherent head s
unfolding validate_shell_state validate_pending
validate_shell_state-IsCoherent id s head h =
    let (_, h₁) = check-returns (guard _ Error.shell_state_id) _ h in
    let (_, h₂) = check-returns (guard _ Error.verifier_missing) _ h₁ in
    let (_, h₃) = check-returns (guard _ Error.attach_state) _ h₂ in
    let (revisions, h₄) =
      check-returns
        (guard
          (leb s.attached_revision head
            && leb s.applied_revision head
            && leb s.last_active_revision head)
          Error.shell_revision)
        _ h₃ in
    let (_, h₅) = check-returns (validate_attach_state s.attach_state s) _ h₄ in
    let (_, h₆) = check-returns (validate_present_states s.applied_baseline) _ h₅ in
    let (_, h₇) = check-returns (validate_present_states s.capture_baseline) _ h₆ in
    let (_, h₈) = check-returns (validate_changes s.unpublished_delta) _ h₇ in
    let (_, h₉) = check-returns (validate_identity_list s.present_at_attach) _ h₈ in
    let (_, k₁) = check-returns (validate_exclusions s.exclusions) _ h₉ in
    let (_, k₂) = check-returns (guard _ Error.transition_state) _ k₁ in
    let (pending, k₃) = check-returns (validate_pending s.pending s head) _ k₂ in
    let (_, k₄) = check-returns _ _ k₃ in
    let (delta, _) = check-returns (validate_delta_conflict s) _ k₄ in
    let (target, backed) = validate_pending_kind-parts s.pending.kind s.pending s head pending in
    record {
      applied = revisions-parts s head (guard-returns _ _ revisions);
      held_back = validate_delta_conflict-parts s delta;
      pending = target;
      resolves = backed;
    }

validate_shells-IsCoherent :
    (head : ℕ) (d : Dict Bytes ShellState)
    → validate_shells head d ≡ ok tt
    → All (λ e. IsCoherent head e.1) d
unfolding validate_shells
validate_shells-IsCoherent head [] h = tt
validate_shells-IsCoherent head ((id, s) ∷ d) h =
    let (first, rest) = check-returns (validate_shell_state id s head) _ h in
    (validate_shell_state-IsCoherent id s head first, validate_shells-IsCoherent head d rest)

-- The parts of a state agree with each other.
pub record AgreesWithHistory (s : State) : Type 0 where
  pub replayed : List LiveIdentityState
  pub replays : replay (clone_live_states s.compaction_baseline) s.events ≡ ok replayed
  pub same : SameState replayed s.shared
  pub few_events : length s.events ≤ max_state_events
  pub few_shells : length s.shells ≤ max_shell_records
  pub coherent : All (λ e. IsCoherent s.head_revision e.1) s.shells

within : (n m : ℕ) (e : Error) → guard (leb n m) e ≡ ok tt → n ≤ m
within n m e h = ground arith

validate_shared_generation-replay :
    (baseline shared : List LiveIdentityState) (es : List StateEvent)
    → validate_shared_generation baseline es shared ≡ ok tt
    → (out : List LiveIdentityState) × (replay (clone_live_states baseline) es ≡ ok out)
      × SameState out shared
unfolding validate_shared_generation
validate_shared_generation-replay baseline shared es h =
    let (out, replays, h₁) = step-returns (replay (clone_live_states baseline) es) _ h in
    (out, replays, (equal_live_states_sound out shared (guard-returns _ _ h₁)).3)

validate_materialized-AgreesWithHistory :
    (s : State) → validate_materialized s ≡ ok tt → AgreesWithHistory s
unfolding validate_materialized
validate_materialized-AgreesWithHistory s h =
    let (_, h₁) = check-returns (guard _ Error.branch_or_base) _ h in
    let (_, h₂) = check-returns (guard _ Error.revision_bounds) _ h₁ in
    let (_, h₃) = check-returns (validate_committed s.committed) _ h₂ in
    let (_, h₄) = check-returns (validate_admitted_identities s.admitted_identities) _ h₃ in
    let (_, h₅) = check-returns (validate_present_states s.shared) _ h₄ in
    let (_, h₆) = check-returns (validate_present_states s.compaction_baseline) _ h₅ in
    let (events, h₇) =
      check-returns (guard (leb (length s.events) max_state_events) Error.event_count) _ h₆ in
    let (_, h₈) =
      check-returns (validate_event_sequence s.compaction_floor s.head_revision s.events) _ h₇ in
    let (generation, h₉) =
      check-returns (validate_shared_generation s.compaction_baseline s.events s.shared) _ h₈ in
    let (shells, k₁) =
      check-returns (guard (leb (length s.shells) max_shell_records) Error.shell_count) _ h₉ in
    let (records, _) = check-returns (validate_shells s.head_revision s.shells) _ k₁ in
    let (out, replays, same) =
      validate_shared_generation-replay s.compaction_baseline s.shared s.events generation in
    record {
      replayed = out;
      replays = replays;
      same = same;
      few_events = within _ _ _ events;
      few_shells = within _ _ _ shells;
      coherent = validate_shells-IsCoherent s.head_revision s.shells records;
    }

materialized-part :
    (s : State)
    → s.materialized ≡ true
    → (if s.materialized then validate_materialized s else validate_unmaterialized s) ≡ ok tt
    → validate_materialized s ≡ ok tt
materialized-part s m h =
    elim (choice-gives s.materialized (validate_materialized s) (validate_unmaterialized s) h) [
      | inl (_, v) ↦ v
      | inr (bad, _) ↦ absurd (ground (arith, m, bad))
    ]

pub validate_state-AgreesWithHistory :
    (s : State) → validate_state s ≡ ok tt → s.materialized ≡ true → AgreesWithHistory s
unfolding validate_state
validate_state-AgreesWithHistory s h m =
    let (_, h₁) = check-returns (guard _ Error.schema_version) _ h in
    validate_materialized-AgreesWithHistory s (materialized-part s m h₁)
