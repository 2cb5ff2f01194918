-- ===== src/Worktree/History/Head.antt =====
-- How the head revision moves, and that CompactStateHistory keeps it: core/worktree/state.go.
use zsh_pro.Prelude.{
  ℕ, suc, ◌≡◌, List, [], ◌∷◌, ltb, leb, length, ok, guard, step-returns, check-returns, arith,
  Bool-cases, inl, inr,
}
use zsh_pro.Live.Types.{LiveIdentityState}
use zsh_pro.Live.Normalize.{next_revision}
use zsh_pro.Worktree.Apply.{apply_state_changes}
use zsh_pro.Worktree.History.{
  History, StateEvent, max_state_events, drop_events, compact_state_history,
  validate_event_sequence,
}

pub next_revision-suc : (n m : ℕ) → next_revision n ≡ ok m → m ≡ suc n
unfolding next_revision
next_revision-suc n m h = ground arith

drop_events-head :
    (head floor : ℕ) (baseline : List LiveIdentityState) (es : List StateEvent) (h : History)
    → drop_events head floor baseline es ≡ ok h
    → h.head_revision ≡ head
unfolding drop_events
drop_events-head head floor baseline [] h e = ground arith
drop_events-head head floor baseline (f ∷ es) h e =
    elim (Bool-cases (ltb max_state_events (suc (length es)))) [
      | inl over ↦
          let (next, _, rest) =
            step-returns (apply_state_changes baseline f.changes)
              (λ next. drop_events head f.revision next es) (rw (over, drop_events) at e) in
          drop_events-head head f.revision next es h rest
      | inr within ↦ let same = rw (within, drop_events) at e in ground arith
    ]

pub compact_state_history-head :
    (g h : History) → compact_state_history g ≡ ok h → h.head_revision ≡ g.head_revision
unfolding compact_state_history
compact_state_history-head g h e =
    let (_, e₁) = check-returns (guard (leb g.compaction_floor g.head_revision) _) _ e in
    let (_, e₂) =
      check-returns (validate_event_sequence g.compaction_floor g.head_revision g.events) _ e₁ in
    drop_events-head g.head_revision g.compaction_floor g.compaction_baseline g.events h e₂
