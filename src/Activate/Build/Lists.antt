-- ===== src/Activate/Build/Lists.antt =====
-- The list part of core/activate/builder.go: PATH and FPATH as streams of tokens.
use zsh_pro.Prelude.{
  ℕ, Bool, true, false, ◌||◌, Option, none, some, List, [], ◌∷◌, ◌++◌, ◌==◌, nat_eq, if◌then◌else◌,
  length,
}
use zsh_pro.Data.Bytes.{Bytes, bytes, bytes_eq}
use zsh_pro.Data.Dict.{Dict, lookup}
use zsh_pro.Model.Profile.{ListSegment, ListValue, valid_list}
use zsh_pro.Model.Manifest.{ListDelta, pos}

pub record ListToken : Type 0 where
  pub value : Bytes
  pub dynamic : Bool
  pub base : Bool

abbrev pub base_token : ListToken
base_token = record { value = []; dynamic = false; base = true }

unfoldable pub canonical_list : Bytes → Bytes
canonical_list name =
    if name == bytes "PATH" || name == bytes "path"
    then bytes "PATH"
    else if name == bytes "FPATH" || name == bytes "fpath"
    then bytes "FPATH"
    else []

-- `current := prior[name]`, or the base alone.
unfoldable pub current_tokens : Dict Bytes (List ListToken) → Bytes → List ListToken
current_tokens prior name = elim (lookup name prior) [
  | some tokens ↦ tokens
  | none ↦ base_token ∷ []
]

segment_tokens : List ListToken → ListSegment → List ListToken
segment_tokens current s =
    if s.is_self
    then current
    else if s.dynamic
    then record { value = s.source; dynamic = true; base = false } ∷ []
    else record { value = s.value; dynamic = false; base = false } ∷ []

unfoldable pub compose_segments : List ListToken → List ListSegment → List ListToken
unfolding segment_tokens
compose_segments current [] = []
compose_segments current (s ∷ ss) = segment_tokens current s ++ compose_segments current ss

composed : Bytes → List ListToken → Option (Bytes × List ListToken)
composed name tokens = if name == [] then none else some (name, tokens)

unfoldable pub compose_list :
    Bytes → Option ListValue → Dict Bytes (List ListToken) → Option (Bytes × List ListToken)
unfolding composed
compose_list raw none prior = none
compose_list raw (some v) prior =
    let name = canonical_list raw in
    if valid_list v
    then composed name (compose_segments (current_tokens prior name) v.segments)
    else none

-- The loop over the tokens of one list: the base index, the additions and their marks.
unfoldable pub delta_parts :
    ℕ → List Bytes → List Bool → List ListToken → ℕ × List Bytes × List Bool
delta_parts base adds dynamic [] = (base, adds, dynamic)
delta_parts base adds dynamic (t ∷ ts) =
    delta_parts (if t.base then length adds else base)
      (if t.base then adds else adds ++ t.value ∷ [])
      (if t.base then dynamic else dynamic ++ t.dynamic ∷ []) ts

unfoldable pub list_delta : Bytes → List ListToken → ListDelta
list_delta name tokens =
    let parts = delta_parts 0 [] [] tokens in
    record {
      name = name;
      additions = parts.1;
      deletions = [];
      base_index = some (pos parts.0);
      addition_dynamic = parts.2;
    }
