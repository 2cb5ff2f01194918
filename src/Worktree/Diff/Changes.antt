-- ===== src/Worktree/Diff/Changes.antt =====
-- What the loop of DiffSnapshot records: for each identity, once and in order, the change between
-- the values that it holds.
use zsh_pro.Prelude.{
  ◌≡◌, refl, true, not, ◌||◌, Option, none, some, List, [], ◌∷◌, arith, map, if◌then◌else◌, All,
  contains, select, contains-append, contains-select, All-append, All-select,
}
use zsh_pro.Data.Dict.{
  Dict, keys, lookup, insert, is_some, lookup-insert, contains-keys, insert-IsDistinct, IsDistinct,
  select-IsDistinct, append-IsDistinct,
}
use zsh_pro.Data.LastWins.{first_of_key, first_of_key-absent}
use zsh_pro.Data.Sort.{sort, IsAscending, contains-sort, sort-IsAscending}
use zsh_pro.Live.Types.{Identity, identity_eq, LiveValue, LiveIdentityState, LiveChange}
use zsh_pro.Live.Validate.{validate_live_identity_state}
use zsh_pro.Live.Normalize.{state_key}
use zsh_pro.Live.Normalize.Laws.{Passes}
use zsh_pro.Live.Observed.{held}
use zsh_pro.Worktree.Order.{
  identity_less, identity_less-IsStrictOrder, IsValidIdentity, sort_identities,
}
use zsh_pro.Worktree.Diff.{
  present_states, present_state_map, all_identities, change_of, prepend, collect_changes,
  diff_states,
}

abbrev pub change_key : LiveChange → Identity
change_key c = c.identity

abbrev or_else : Option LiveValue → Option LiveValue → Option LiveValue
or_else none old = old
or_else (some v) old = some v

lookup-present_states :
    (k : Identity) (xs : List LiveIdentityState) (m : Dict Identity LiveValue)
    → IsDistinct (map state_key xs)
    → lookup k (present_states xs m) ≡ or_else (held k xs) (lookup k m)
unfolding present_states held first_of_key
lookup-present_states k [] m u = refl
lookup-present_states k (x ∷ xs) m (new, u) = ground (
  arith,
  lookup-present_states k xs m u,
  lookup-present_states k xs (insert x.identity x.value m) u,
  lookup-insert x.identity k x.value m,
  first_of_key-absent state_key x.identity xs new,
)

pub lookup-present_state_map :
    (k : Identity) (xs : List LiveIdentityState)
    → IsDistinct (map state_key xs)
    → lookup k (present_state_map xs) ≡ held k xs
unfolding present_state_map lookup
lookup-present_state_map k xs u = ground (arith, lookup-present_states k xs [] u)

pub present_states-IsDistinct :
    (xs : List LiveIdentityState) (m : Dict Identity LiveValue)
    → IsDistinct (keys m)
    → IsDistinct (keys (present_states xs m))
unfolding present_states
present_states-IsDistinct [] m u = u
present_states-IsDistinct (x ∷ xs) m u =
    present_states-IsDistinct xs _ (ground (arith, insert-IsDistinct x.identity x.value m u))

All-keys-insert :
    (k : Identity) (v : LiveValue) (m : Dict Identity LiveValue)
    → IsValidIdentity k
    → All IsValidIdentity (keys m)
    → All IsValidIdentity (keys (insert k v m))
unfolding insert keys
All-keys-insert k v [] p h = (p, tt)
All-keys-insert k v ((j, w) ∷ m) p h = ground (arith, All-keys-insert k v m)

pub present_states-valid :
    (xs : List LiveIdentityState) (m : Dict Identity LiveValue)
    → Passes validate_live_identity_state xs
    → All IsValidIdentity (keys m)
    → All IsValidIdentity (keys (present_states xs m))
unfolding present_states validate_live_identity_state
present_states-valid [] m p h = h
present_states-valid (x ∷ xs) m (px, p) h =
    present_states-valid xs _ p (ground (arith, All-keys-insert x.identity x.value m))

pub all_identities-IsDistinct :
    (b a : Dict Identity LiveValue)
    → IsDistinct (keys b)
    → IsDistinct (keys a)
    → IsDistinct (all_identities b a)
unfolding all_identities
all_identities-IsDistinct b a u w =
    append-IsDistinct (keys b) (select (λ i. not (contains i (keys b))) (keys a)) u
      (select-IsDistinct (λ i. not (contains i (keys b))) (keys a) w)
      (λ k h. ground (arith, contains-select (λ i. not (contains i (keys b))) k (keys a)))

pub all_identities-valid :
    (b a : Dict Identity LiveValue)
    → All IsValidIdentity (keys b)
    → All IsValidIdentity (keys a)
    → All IsValidIdentity (all_identities b a)
unfolding all_identities
all_identities-valid b a p q =
    All-append IsValidIdentity (keys b) _ p
      (All-select IsValidIdentity (λ i. not (contains i (keys b))) (keys a) q)

pub contains-all_identities :
    (k : Identity) (b a : Dict Identity LiveValue)
    → contains k (all_identities b a) ≡ (is_some (lookup k b) || is_some (lookup k a))
unfolding all_identities
contains-all_identities k b a = ground (
  arith,
  contains-append k (keys b) (select (λ i. not (contains i (keys b))) (keys a)),
  contains-select (λ i. not (contains i (keys b))) k (keys a),
  contains-keys k b,
  contains-keys k a,
)

pub first_of_key-collect_changes :
    (k : Identity) (b a : Dict Identity LiveValue) (is : List Identity)
    → first_of_key change_key k (collect_changes b a is)
      ≡ (if contains k is then change_of k (lookup k b) (lookup k a) else none)
unfolding collect_changes first_of_key contains
first_of_key-collect_changes k b a [] = refl
first_of_key-collect_changes k b a (i ∷ is) = ground (arith, first_of_key-collect_changes k b a is)

collect_changes-All :
    (i : Identity) (b a : Dict Identity LiveValue) (is : List Identity)
    → All (λ j. identity_less i j ≡ true) is
    → All (λ j. identity_less i j ≡ true) (map change_key (collect_changes b a is))
unfolding collect_changes
collect_changes-All i b a [] h = tt
collect_changes-All i b a (j ∷ is) (p, h) = ground (arith, collect_changes-All i b a is h)

pub collect_changes-IsAscending :
    (b a : Dict Identity LiveValue) (is : List Identity)
    → IsAscending identity_less is
    → IsAscending identity_less (map change_key (collect_changes b a is))
unfolding collect_changes
collect_changes-IsAscending b a [] h = tt
collect_changes-IsAscending b a (i ∷ is) (p, h) =
    ground (arith, collect_changes-IsAscending b a is h, collect_changes-All i b a is p)

-- What holds of every recorded change.
pub collect_changes-Passes :
    (P : LiveChange → Type 0) (b a : Dict Identity LiveValue) (is : List Identity)
    → ((i : Identity) (c : LiveChange) → change_of i (lookup i b) (lookup i a) ≡ some c → P c)
    → All P (collect_changes b a is)
unfolding collect_changes
collect_changes-Passes P b a [] h = tt
collect_changes-Passes P b a (i ∷ is) h =
    go (change_of i (lookup i b) (lookup i a)) (h i) (collect_changes-Passes P b a is h)
  where
    go :
        (o : Option LiveChange)
        → ((c : LiveChange) → o ≡ some c → P c)
        → All P (collect_changes b a is)
        → All P (prepend o (collect_changes b a is))
    go none f r = r
    go (some c) f r = (f c refl, r)

module _ (before after : List LiveIdentityState) where
  -- One change at most for an identity, and just the change between what it holds.
  pub first_of_key-diff_states :
      (k : Identity)
      → IsDistinct (map state_key before)
      → IsDistinct (map state_key after)
      → first_of_key change_key k (diff_states before after)
        ≡ change_of k (held k before) (held k after)
  unfolding diff_states sort_identities change_of
  first_of_key-diff_states k u w =
      let b = present_state_map before in
      let a = present_state_map after in
      ground (
        arith,
        first_of_key-collect_changes k b a (sort identity_less (all_identities b a)),
        contains-sort identity_less k (all_identities b a),
        contains-all_identities k b a,
        lookup-present_state_map k before u,
        lookup-present_state_map k after w,
      )

  -- The changes stand in the order of their identities.
  pub diff_states-IsAscending :
      Passes validate_live_identity_state before
      → Passes validate_live_identity_state after
      → IsAscending identity_less (map change_key (diff_states before after))
  unfolding diff_states sort_identities present_state_map keys
  diff_states-IsAscending p q =
      let b = present_state_map before in
      let a = present_state_map after in
      collect_changes-IsAscending b a (sort identity_less (all_identities b a)) (
        sort-IsAscending identity_less identity_less-IsStrictOrder (all_identities b a)
          (all_identities-valid b a (present_states-valid before [] p tt)
            (present_states-valid after [] q tt))
          (all_identities-IsDistinct b a (present_states-IsDistinct before [] tt)
            (present_states-IsDistinct after [] tt)))

  pub diff_states-Passes :
      (P : LiveChange → Type 0)
      → IsDistinct (map state_key before)
      → IsDistinct (map state_key after)
      → ((i : Identity) (c : LiveChange)
          → change_of i (held i before) (held i after) ≡ some c
          → P c)
      → All P (diff_states before after)
  unfolding diff_states
  diff_states-Passes P u w h =
      collect_changes-Passes P (present_state_map before) (present_state_map after) _ λ i c e.
        h i c (rw (← lookup-present_state_map i before u, ← lookup-present_state_map i after w) e)
