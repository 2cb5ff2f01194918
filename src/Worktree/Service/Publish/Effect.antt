-- ===== src/Worktree/Service/Publish/Effect.antt =====
-- What a publication does to the shared state: Publish of core/worktree/service.go.
use zsh_pro.Prelude.{
  Bool, subst, suc, ◌≡◌, refl, sym, ap, ◌∙◌, subst, Bool, true, false, ◌||◌, Option, none, some,
  List, [], ◌∷◌, ◌⊎◌, inl, inr, ok, step-returns, check-returns, ok-injective, arith, ltb, nat_eq,
  contains, map, select,
}
use zsh_pro.Data.Bytes.{Bytes, bytes_eq}
use zsh_pro.Live.Types.{Identity, identity_eq, LiveIdentityState, LiveChange}
use zsh_pro.Live.Normalize.{next_revision}
use zsh_pro.Live.Observed.{observed}
use zsh_pro.Worktree.Diff.Changes.{change_key}
use zsh_pro.Worktree.Apply.{apply_state_changes, validate_changes}
use zsh_pro.Worktree.Apply.Effect.{apply_state_changes-keeps}
use zsh_pro.Worktree.History.{compact_state_history}
use zsh_pro.Worktree.History.Head.{compact_state_history-head, next_revision-suc}
use zsh_pro.Worktree.Registry.{Registry}
use zsh_pro.Worktree.State.{State, ShellState, PublishResult, OperationReceipt}
use zsh_pro.Worktree.Service.Digest.{External, authorize_shell, validate_private_request}
use zsh_pro.Worktree.Service.Receipts.{append_receipt}
use zsh_pro.Worktree.Service.Transaction.{recovered}
use zsh_pro.Worktree.Service.Transaction.Laws.{with_transaction-returns}
use zsh_pro.Worktree.Service.Publish.{
  PublishRequest, changed_identities_after, accepted_of, publish_accepted, record_publish,
  publish_known, publish_state, publish, publish_fingerprint,
}
use zsh_pro.Worktree.Service.Publish.Replay.{
  Published, publish_new-Published, publish_again-keeps, accepted_in,
}

-- Nothing is accepted that follows a gap, or that another event has changed.
accepted_of-apart :
    (gap : Bool) (remote : List Identity) (shared : List LiveIdentityState) (cs : List LiveChange)
    (k : Identity)
    → (gap || contains k remote) ≡ true
    → contains k (map change_key (accepted_of gap remote shared cs)) ≡ false
unfolding accepted_of contains select
accepted_of-apart gap remote shared [] k h = refl
accepted_of-apart gap remote shared (c ∷ cs) k h =
    ground (arith, accepted_of-apart gap remote shared cs k h)

-- The head revision moves by one if something is accepted, and not otherwise.
pub record IsShared (s : State) (cs : List LiveChange) (t : State) : Type 0 where
  pub head :
      ((t.head_revision ≡ s.head_revision) × (t.shared ≡ s.shared))
      ⊎ (t.head_revision ≡ suc s.head_revision)
  pub keeps :
      (k : Identity)
      → contains k (map change_key cs) ≡ false
      → observed k t.shared ≡ observed k s.shared

publish_accepted-IsShared :
    (s : State) (request : PublishRequest) (cs : List LiveChange) (t : State)
    → publish_accepted s request cs ≡ ok t
    → IsShared s cs t
unfolding publish_accepted
publish_accepted-IsShared s request [] t h =
    let same = ok-injective s t h in
    record {
      head = inl (ap (λ u. u.head_revision) (sym same), ap (λ u. u.shared) (sym same));
      keeps = λ k e. ap (λ u. observed k u.shared) (sym same);
    }
publish_accepted-IsShared s request (c ∷ cs) t h =
    let (next, moved, h₁) = step-returns (next_revision s.head_revision) _ h in
    let (shared, changed, h₂) = step-returns (apply_state_changes s.shared (c ∷ cs)) _ h₁ in
    let (history, compacted, h₃) = step-returns (compact_state_history _) _ h₂ in
    let same = ok-injective (record s { shared = shared; history = history }) t h₃ in
    record {
      head = inr (
          ap (λ u. u.head_revision) (sym same)
          ∙ compact_state_history-head _ history compacted
          ∙ next_revision-suc s.head_revision next moved);
      keeps = λ k e.
          ap (λ u. observed k u.shared) (sym same)
          ∙ apply_state_changes-keeps s.shared shared (c ∷ cs) k changed e;
    }

module _ (x : External) (registry : Registry) (request : PublishRequest) where
  -- What publication does to the shared generation.
  pub record Sharing (s s' : State) : Type 0 where
    pub head :
        ((s'.head_revision ≡ s.head_revision) × (s'.shared ≡ s.shared))
        ⊎ (s'.head_revision ≡ suc s.head_revision)
    pub keeps :
        (k : Identity)
        → (ltb request.acknowledged_revision s.compaction_floor
            || contains k (changed_identities_after s.events request.acknowledged_revision))
          ≡ true
        → observed k s'.shared ≡ observed k s.shared

  Published-Sharing :
      (fingerprint : Bytes) (s s' : State) (shell : ShellState) (r : PublishResult)
      → Published x registry request fingerprint s shell s' r
      → Sharing s s'
  unfolding record_publish append_receipt
  Published-Sharing fingerprint s s' shell r p =
      let shares =
        publish_accepted-IsShared p.admitting request
          (accepted_in x registry request p.admitting p.semantic) p.sharing p.accepts in
      let history : s'.history ≡ p.sharing.history = ap (λ out. out.0.history) (sym p.records) in
      let shared : s'.shared ≡ p.sharing.shared = ap (λ out. out.0.shared) (sym p.records) in
      let admits : p.admitting.history ≡ s.history = ap (λ u. u.history) p.admits in
      let admits_shared : p.admitting.shared ≡ s.shared = ap (λ u. u.shared) p.admits in
      record {
        head = elim shares.head [
          | inl (h, e) ↦ inl (
            ap (λ u. u.head_revision) history ∙ h ∙ ap (λ u. u.head_revision) admits,
            shared ∙ e ∙ admits_shared,
          )
          | inr h ↦
              inr (ap (λ u. u.head_revision) history ∙ h ∙ ap (λ u. suc u.head_revision) admits)
        ];
        keeps = λ k e.
            ap (observed k) shared
            ∙ shares.keeps k (
                accepted_of-apart _ _ _ p.semantic k (
                  subst
                    (λ u.
                      (ltb request.acknowledged_revision u.compaction_floor
                        || contains k
                            (changed_identities_after u.events request.acknowledged_revision))
                      ≡ true)
                    (sym admits) e))
            ∙ ap (observed k) admits_shared;
      }

  publish_known-Sharing :
      (s s' : State) (shell : ShellState) (r : PublishResult) (o : Option OperationReceipt)
      → publish_known x registry request s shell o ≡ ok (s', r)
      → Sharing s s'
  unfolding publish_known
  publish_known-Sharing s s' shell r (some q) h =
      let same : s' ≡ s =
        publish_again-keeps x registry request (publish_fingerprint x registry request) s s' q r
          h in
      record {
        head = inl (ap (λ u. u.head_revision) same, ap (λ u. u.shared) same);
        keeps = λ k e. ap (λ u. observed k u.shared) same;
      }
  publish_known-Sharing s s' shell r none h = Published-Sharing _ s s' shell r (
      publish_new-Published x registry request (publish_fingerprint x registry request) s s' shell r
        h)

  publish-Sharing :
      (marked : Bool) (s s' : State) (r : PublishResult)
      → publish x registry request marked s ≡ ok (s', r)
      → Sharing s s'
  unfolding publish publish_state
  publish-Sharing marked s s' r h =
      let (_, h₁) =
        check-returns (validate_private_request request.operation_id request.credential) _ h in
      let (_, h₂) = check-returns (validate_changes request.delta) _ h₁ in
      let (t, run, end, _) =
        with_transaction-returns x marked (publish_state x registry request) s s' r h₂ in
      let (shell, _, h₃) =
        step-returns (authorize_shell x (recovered marked s) request.credential) _ run in
      let shares = publish_known-Sharing (recovered marked s) t shell r _ h₃ in
      subst (Sharing s) end (record { head = shares.head; keeps = shares.keeps })

  -- A publication loses no update: it leaves an identity as it is that an event behind the
  -- acknowledged revision has changed, and every identity if events behind that revision are
  -- compacted already.
  pub publish-keeps :
      (marked : Bool) (s s' : State) (r : PublishResult) (k : Identity)
      → publish x registry request marked s ≡ ok (s', r)
      → (ltb request.acknowledged_revision s.compaction_floor
          || contains k (changed_identities_after s.events request.acknowledged_revision))
        ≡ true
      → observed k s'.shared ≡ observed k s.shared
  publish-keeps marked s s' r k h e = (publish-Sharing marked s s' r h).keeps k e
