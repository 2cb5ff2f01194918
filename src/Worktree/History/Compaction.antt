-- ===== src/Worktree/History/Compaction.antt =====
-- Compaction keeps the history valid, bounded, and with the same outcome.
use zsh_pro.Prelude.{
  ℕ, suc, ◌≤◌, ◌≡◌, refl, true, List, [], ◌∷◌, arith, nat_eq, ltb, leb, length, ok, step-returns,
  check-returns, Bool-cases, inl, inr,
}
use zsh_pro.Live.Types.{LiveIdentityState}
use zsh_pro.Worktree.Apply.{apply_state_changes}
use zsh_pro.Worktree.History.{
  StateEvent, History, max_state_events, next_expected, validate_event, validate_events,
  validate_event_sequence, replay, drop_events, compact_state_history,
}

event-revision :
    (expected : ℕ) (e : StateEvent) → validate_event expected e ≡ ok tt → e.revision ≡ expected
unfolding validate_event
event-revision expected e h = ground arith

-- A sequence of two or more events is valid from its first event on.
later-valid :
    (floor head : ℕ) (e f : StateEvent) (es : List StateEvent)
    → validate_event_sequence floor head (e ∷ f ∷ es) ≡ ok tt
    → validate_event_sequence e.revision head (f ∷ es) ≡ ok tt
unfolding validate_event_sequence validate_events
later-valid floor head e f es h =
    let (first, rest) = check-returns (validate_event (next_expected floor) e) _ h in
    rw (event-revision (next_expected floor) e first) rest

replay-step :
    (baseline out : List LiveIdentityState) (e : StateEvent) (es : List StateEvent)
    → replay baseline (e ∷ es) ≡ ok out
    → (next : List LiveIdentityState) × (apply_state_changes baseline e.changes ≡ ok next)
      × (replay next es ≡ ok out)
unfolding replay
replay-step baseline out e es h =
    step-returns (apply_state_changes baseline e.changes) (λ next. replay next es) h

-- A compacted history has at most the greatest number of events, is valid up to the same head, and
-- replays to the same states.
pub record IsCompaction (head : ℕ) (out : List LiveIdentityState) (h : History) : Type 0 where
  pub same_head : h.head_revision ≡ head
  pub bounded : length h.events ≤ max_state_events
  pub valid : validate_event_sequence h.compaction_floor h.head_revision h.events ≡ ok tt
  pub replays : replay h.compaction_baseline h.events ≡ ok out

drop_events-IsCompaction :
    (head floor : ℕ) (baseline out : List LiveIdentityState) (es : List StateEvent)
    → validate_event_sequence floor head es ≡ ok tt
    → replay baseline es ≡ ok out
    → (h : History) × (drop_events head floor baseline es ≡ ok h) × IsCompaction head out h
unfolding drop_events
drop_events-IsCompaction head floor baseline out [] v r = (
  record {
    head_revision = head;
    compaction_floor = floor;
    compaction_baseline = baseline;
    events = [];
  },
  refl,
  record { same_head = refl; bounded = omega arith; valid = v; replays = r },
)
drop_events-IsCompaction head floor baseline out (e ∷ []) v r = (
  record {
    head_revision = head;
    compaction_floor = floor;
    compaction_baseline = baseline;
    events = e ∷ [];
  },
  refl,
  record { same_head = refl; bounded = omega arith; valid = v; replays = r },
)
drop_events-IsCompaction head floor baseline out (e ∷ f ∷ es) v r =
    elim (Bool-cases (ltb max_state_events (suc (suc (length es))))) [
      | inl over ↦
          let (next, applied, rest) = replay-step baseline out e (f ∷ es) r in
          rw (over, drop_events, applied)
            (drop_events-IsCompaction head e.revision next out (f ∷ es)
              (later-valid floor head e f es v) rest)
      | inr within ↦
          rw (within, drop_events)
            (
              record {
                head_revision = head;
                compaction_floor = floor;
                compaction_baseline = baseline;
                events = e ∷ f ∷ es;
              },
              refl,
              record { same_head = refl; bounded = ground (arith, within); valid = v; replays = r },
            )
    ]

-- A valid history that replays is always compacted: the result keeps the head revision, has at
-- most 128 events, is a valid sequence from its new floor to that head, and replays to the same
-- states as before.
pub compact_state_history-IsCompaction :
    (h : History) (out : List LiveIdentityState)
    → h.compaction_floor ≤ h.head_revision
    → validate_event_sequence h.compaction_floor h.head_revision h.events ≡ ok tt
    → replay h.compaction_baseline h.events ≡ ok out
    → (h' : History) × (compact_state_history h ≡ ok h') × IsCompaction h.head_revision out h'
unfolding compact_state_history
compact_state_history-IsCompaction h out le v r =
    let below : leb h.compaction_floor h.head_revision ≡ true = ground arith in
    rw (below, v)
      (drop_events-IsCompaction h.head_revision h.compaction_floor h.compaction_baseline out
        h.events v r)
