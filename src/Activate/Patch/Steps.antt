-- ===== src/Activate/Patch/Steps.antt =====
-- The operations planned for a list of identities, and what they leave in the shell.
use zsh_pro.Prelude.{
  ◌≡◌, refl, ◌∙◌, ap, true, false, Option, none, some, [], ◌∷◌, arith, ok, if◌then◌else◌, contains,
  List, Option-cases, inl, inr,
}
use zsh_pro.Data.Dict.{Dict, lookup, IsDistinct}
use zsh_pro.Live.Types.{Identity, identity_eq, LiveValue, LiveChange}
use zsh_pro.Live.Observed.{IsSound}
use zsh_pro.Worktree.Order.{supported, supported_of}
use zsh_pro.Worktree.Diff.{change_of, collect_changes}
use zsh_pro.Worktree.Diff.Laws.{IsCanonical, change_of-eq-none}
use zsh_pro.Activate.Plan.{Op}
use zsh_pro.Activate.Patch.{change_op, change_ops}
use zsh_pro.Activate.Patch.Run.{
  Shell, write, run_op, run, Fits, op_for, run_op-op_for, change_of-some, change_op-op_for,
}

Fits-of :
    (k : Identity) (o : Option LiveValue)
    → ((v : LiveValue) → o ≡ some v → IsSound k v × IsCanonical v)
    → Fits k.kind o
Fits-of k none h = tt
Fits-of k (some v) h =
    let (s, c) = h v refl in record { valid = s.value; present = s.present; canonical = c }

supported_at :
    (k : Identity) (o p : Option LiveValue) (c : LiveChange)
    → ((v : LiveValue) → o ≡ some v → IsSound k v × IsCanonical v)
    → ((v : LiveValue) → p ≡ some v → IsSound k v × IsCanonical v)
    → change_of k o p ≡ some c
    → supported k.kind ≡ true
unfolding change_of
supported_at k none none c ho hp h = ground arith
supported_at k o (some w) c ho hp h = supported_of k.kind k.name (hp w refl).0.identity
supported_at k (some v) none c ho hp h = supported_of k.kind k.name (ho v refl).0.identity

module _ (b a : Dict Identity LiveValue)
    (hb : (k : Identity) (v : LiveValue) → lookup k b ≡ some v → IsSound k v × IsCanonical v)
    (ha : (k : Identity) (v : LiveValue) → lookup k a ≡ some v → IsSound k v × IsCanonical v) where
  -- The operations planned for the identities exist, and take a shell in which those identities
  -- hold the values before to one in which they hold the values after; the rest stays.
  unfoldable pub Planned : List Identity → Type 0
  Planned is =
      (ops : List Op) × (change_ops b a (collect_changes b a is) ≡ ok ops)
      × ((sh : Shell)
          → ((k : Identity) → contains k is ≡ true → sh k ≡ lookup k b)
          → (j : Identity) → run ops sh j ≡ (if contains j is then lookup j a else sh j))

  unchanged :
      (i : Identity) (is : List Identity)
      → contains i is ≡ false
      → change_of i (lookup i b) (lookup i a) ≡ none
      → Planned is
      → Planned (i ∷ is)
  unfolding Planned collect_changes contains
  unchanged i is new e (ops, h, r) = (
    ops,
    rw e h,
    λ sh start j.
        let same = (change_of-eq-none i (lookup i b) (lookup i a) (hb i) (ha i)).0 e in
        ground (arith, r sh (λ k m. start k (ground arith)) j, start i),
  )

  untouched :
      (i k : Identity) (is : List Identity) (sh : Shell)
      → contains i is ≡ false
      → contains k is ≡ true
      → write sh i (lookup i a) k ≡ sh k
  untouched i k is sh new m = ground arith

  changed :
      (i : Identity) (is : List Identity) (c : LiveChange)
      → contains i is ≡ false
      → change_of i (lookup i b) (lookup i a) ≡ some c
      → Planned is
      → Planned (i ∷ is)
  unfolding Planned collect_changes change_ops run contains
  changed i is c new e (ops, h, r) =
      let (hi, hv, hr) = change_of-some i (lookup i b) (lookup i a) c e in
      let fits = Fits-of i (lookup i a) (ha i) in
      let op = op_for i.kind i (lookup i b) (lookup i a) in
      let made : change_op i.kind b a c ≡ ok op =
        change_op-op_for i.kind i b a (lookup i a) c refl fits hi hv hr
          (supported_at i (lookup i b) (lookup i a) c (hb i) (ha i) e) in
      let made' : change_op c.identity.kind b a c ≡ ok op =
        ap (λ k. change_op k.kind b a c) hi ∙ made in
      (
        op ∷ ops,
        rw e (rw (made', h)),
        λ sh start j.
            let wrote =
              λ (k : Identity). run_op-op_for i.kind i (lookup i b) (lookup i a) sh k fits in
            let rest : (k : Identity) → contains k is ≡ true → run_op op sh k ≡ lookup k b =
              λ k m. wrote k ∙ untouched i k is sh new m ∙ start k (ground arith) in
            ground (arith, r (run_op op sh) rest j, wrote j),
      )

  pub collect_changes-Planned : (is : List Identity) → IsDistinct is → Planned is
  unfolding Planned collect_changes change_ops run contains
  collect_changes-Planned [] u = ([], refl, λ sh start j. refl)
  collect_changes-Planned (i ∷ is) (new, u) =
      elim (Option-cases (change_of i (lookup i b) (lookup i a))) [
        | inl e ↦ unchanged i is new e (collect_changes-Planned is u)
        | inr (c, e) ↦ changed i is c new e (collect_changes-Planned is u)
      ]
