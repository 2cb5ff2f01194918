-- ===== src/Worktree/Service/Acknowledge/Confirms.antt =====
-- What Acknowledge of core/worktree/service.go confirms.
use zsh_pro.Prelude.{
  ℕ, ◌≡◌, refl, sym, ap, ◌∙◌, Bool, true, false, not, ◌||◌, ◌&&◌, ltb, if◌then◌else◌, Option, none,
  some, ◌⊎◌, inl, inr, Bool-cases, List, [], ◌==◌, nat_eq, ok, guard, step-returns, check-returns,
  guard-returns, ok-injective, arith, ==_iff,
}
use zsh_pro.Data.Bytes.{Bytes, bytes_eq}
use zsh_pro.Data.Dict.{insert, is_some}
use zsh_pro.Live.Types.{Identity, identity_eq, LiveIdentityState}
use zsh_pro.Live.Normalize.{clone_live_states}
use zsh_pro.Worktree.State.Shell.{is_resolution}
use zsh_pro.Live.Errors.{Error}
use zsh_pro.Worktree.Registry.{Registry}
use zsh_pro.Worktree.State.{State, ShellState, Conflict, AcknowledgeResult}
use zsh_pro.Worktree.Service.Digest.{External, fingerprint_snapshot}
use zsh_pro.Worktree.Service.Receipts.{append_receipt}
use zsh_pro.Worktree.Service.Transaction.{or_else}
use zsh_pro.Worktree.Service.Transaction.Laws.{or_else-returns}
use zsh_pro.Worktree.Service.Publish.{states_of, no_pending_kind}
use zsh_pro.Worktree.Service.Acknowledge.{
  AcknowledgeRequest, same_target, backs, still_backed, settle, acknowledged_shell,
  record_acknowledge, acknowledge_new, acknowledge_result,
}

both_true : (a b : Bool) → (a && b) ≡ true → (a ≡ true) × (b ≡ true)
both_true a b h = ground arith

module _ (x : External) (registry : Registry) (request : AcknowledgeRequest) where
  abbrev id : Bytes
  id = request.credential.shell_id

  -- What a pending transition stands on: a resolution is of the conflict that the shell has.
  abbrev Backed : ShellState → Type 0
  Backed shell =
      (is_resolution shell.pending.kind ≡ false)
      ⊎ ((c : Conflict) × (shell.conflict ≡ some c)
          × (shell.pending.conflict ≡ some c.identity)
          × (shell.pending.token ≡ c.token))

  -- The record of a shell that has confirmed a transition.
  pub record IsConfirmed (head : ℕ) (shell : ShellState) (observed : List LiveIdentityState)
      (next : ShellState) : Type 0 where
    pub applied_revision : next.applied_revision ≡ request.revision
    pub baselines :
        (next.applied_baseline ≡ clone_live_states observed)
        × (next.capture_baseline ≡ clone_live_states observed)
    pub nothing_pending : no_pending_kind next.pending.kind ≡ true
    pub conflict :
        next.conflict ≡ (if is_resolution shell.pending.kind then none else shell.conflict)
    pub held_back :
        next.unpublished_delta
        ≡ (if is_resolution shell.pending.kind then [] else shell.unpublished_delta)
    pub behind : next.behind ≡ (ltb request.revision head || is_some next.conflict)
    pub verifier : next.capability_verifier ≡ shell.capability_verifier

  -- The shell has confirmed the transition that is pending for it, and no other.
  pub record Confirmed (s : State) (shell : ShellState) (observed : List LiveIdentityState)
      (s' : State) (r : AcknowledgeResult) : Type 0 where
    pub requested :
        (no_pending_kind shell.pending.kind ≡ false)
        × (shell.pending.revision ≡ request.revision)
        × (shell.pending.token ≡ request.token)
    pub backed : Backed shell
    pub shows : fingerprint_snapshot x (states_of observed) ≡ ok shell.pending.fingerprint
    pub answer : r.applied_revision ≡ request.revision
    pub recorded :
        (next : ShellState) × (s'.shells ≡ insert id next s.shells)
        × IsConfirmed s.head_revision shell observed next
    pub same_shared : (s'.shared ≡ s.shared) × (s'.history ≡ s.history)

  backed-parts :
      (shell : ShellState) (i : Option Identity) (c : Option Conflict)
      → backs i shell.pending.token c ≡ true
      → (d : Conflict) × (c ≡ some d) × (i ≡ some d.identity) × (shell.pending.token ≡ d.token)
  unfolding backs
  backed-parts shell none c h = absurd (ground arith)
  backed-parts shell (some i) none h = absurd (ground arith)
  backed-parts shell (some i) (some c) h =
      let (same_identity, same_token) =
        both_true (i == c.identity) (shell.pending.token == c.token) h in
      (
        c,
        refl,
        ap some ((==_iff i c.identity).0 same_identity),
        (==_iff shell.pending.token c.token).0 same_token,
      )

  still_backed-Backed :
      (shell : ShellState) → still_backed shell.pending shell ≡ true → Backed shell
  unfolding still_backed
  still_backed-Backed shell h = elim (Bool-cases (is_resolution shell.pending.kind)) [
    | inl resolving ↦ inr (
        backed-parts shell shell.pending.conflict shell.conflict (
          ap (λ b. not b || backs shell.pending.conflict shell.pending.token shell.conflict)
            (sym resolving)
          ∙ h))
    | inr other ↦ inl other
  ]

  settled :
      (b : Bool) (shell : ShellState)
      → ((settle b shell).conflict ≡ (if b then none else shell.conflict))
        × ((settle b shell).unpublished_delta ≡ (if b then [] else shell.unpublished_delta))
        × ((settle b shell).capability_verifier ≡ shell.capability_verifier)
  unfolding settle
  settled true shell = (refl, refl, refl)
  settled false shell = (refl, refl, refl)

  acknowledged_shell-IsConfirmed :
      (head : ℕ) (shell : ShellState) (observed : List LiveIdentityState)
      → shell.pending.revision ≡ request.revision
      → IsConfirmed head shell observed (acknowledged_shell shell head observed)
  unfolding acknowledged_shell no_pending_kind
  acknowledged_shell-IsConfirmed head shell observed same =
      let (conflict, held_back, verifier) = settled (is_resolution shell.pending.kind) shell in
      record {
        applied_revision = same;
        baselines = (refl, refl);
        nothing_pending = refl;
        conflict = conflict;
        held_back = held_back;
        behind =
            ap (λ n. ltb n head || is_some (acknowledged_shell shell head observed).conflict) same;
        verifier = verifier;
      }

  same_target-parts :
      (shell : ShellState)
      → same_target shell.pending request ≡ true
      → (no_pending_kind shell.pending.kind ≡ false)
        × (shell.pending.revision ≡ request.revision)
        × (shell.pending.token ≡ request.token)
  unfolding same_target
  same_target-parts shell h = ground arith

  pub acknowledge_new-Confirmed :
      (fingerprint : Bytes) (s s' : State) (shell : ShellState) (observed : List LiveIdentityState)
      (r : AcknowledgeResult)
      → acknowledge_new x registry request fingerprint s shell observed ≡ ok (s', r)
      → Confirmed s shell observed s' r
  unfolding acknowledge_new record_acknowledge acknowledge_result append_receipt
  acknowledge_new-Confirmed fingerprint s s' shell observed r h =
      let (target, h₁) = check-returns (guard (same_target shell.pending request) _) _ h in
      let (still, h₂) = check-returns (guard (still_backed shell.pending shell) _) _ h₁ in
      let (seen, digest, h₃) =
        step-returns
          (or_else Error.acknowledge_mismatch (fingerprint_snapshot x (states_of observed))) _ h₂ in
      let (same, h₄) = check-returns (guard (seen == shell.pending.fingerprint) _) _ h₃ in
      let records = ok-injective _ (s', r) h₄ in
      let parts = same_target-parts shell (guard-returns _ _ target) in
      let seen_is : seen ≡ shell.pending.fingerprint =
        (==_iff seen shell.pending.fingerprint).0 (guard-returns _ _ same) in
      record {
        requested = parts;
        shows = or_else-returns _ _ digest ∙ ap ok seen_is;
        answer = ap (λ out. out.1.applied_revision) (sym records) ∙ parts.1;
        backed = still_backed-Backed shell (guard-returns _ _ still);
        recorded = (
          acknowledged_shell shell s.head_revision observed,
          ap (λ out. out.0.shells) (sym records),
          acknowledged_shell-IsConfirmed s.head_revision shell observed parts.1,
        );
        same_shared =
            (ap (λ out. out.0.shared) (sym records), ap (λ out. out.0.history) (sym records));
      }
