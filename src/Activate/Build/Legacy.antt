-- ===== src/Activate/Build/Legacy.antt =====
-- The historical form of PATH and FPATH, as text: the legacy part of core/activate/builder.go.
use zsh_pro.Prelude.{
  ℕ, suc, ◌-◌, Bool, true, false, not, ◌&&◌, ◌||◌, Option, none, some, List, [], ◌∷◌, ◌++◌, ◌==◌,
  nat_eq, if◌then◌else◌, contains, length,
}
use zsh_pro.Data.Bytes.{Bytes, bytes, bytes_eq}
use zsh_pro.Data.Dict.{Dict}
use zsh_pro.Live.Validate.{is_letter, is_digit}
use zsh_pro.Model.Manifest.{ListDelta, pos}
use zsh_pro.Activate.Build.Lists.{ListToken, canonical_list, current_tokens}

-- `strings.Split(value, ":")`
add_char : ℕ → List Bytes → List Bytes
add_char c [] = (c ∷ []) ∷ []
add_char c (p ∷ ps) = (c ∷ p) ∷ ps

unfoldable pub split : ℕ → Bytes → List Bytes
unfolding add_char
split sep [] = [] ∷ []
split sep (c ∷ s) = let rest = split sep s in if c == sep then [] ∷ rest else add_char c rest

path_byte : ℕ → Bool
unfolding is_letter is_digit
path_byte c = is_letter c || is_digit c || contains c (bytes "_@%+=,.-")

word_byte : ℕ → Bool
unfolding is_letter is_digit
word_byte c = is_letter c || is_digit c || c == b'_'

-- `(?:/[A-Za-z0-9_@%+=,.-]+)*$`; the flag tells whether the segment has a byte yet.
path_tail : Bool → Bytes → Bool
unfolding path_byte
path_tail filled [] = filled
path_tail filled (c ∷ s) =
    let next = path_tail (path_byte c) s in
    if path_byte c then next else c == b'/' && filled && next

-- Behind a plain name: the name goes on, or a path follows.
after_name : Bytes → Bool
unfolding word_byte path_tail
after_name [] = true
after_name (c ∷ s) =
    let rest = after_name s in if word_byte c then rest else c == b'/' && path_tail false s

after_brace : Bytes → Bool
unfolding path_tail
after_brace [] = true
after_brace (c ∷ s) = c == b'/' && path_tail false s

in_braces : Bytes → Bool
unfolding word_byte after_brace
in_braces [] = false
in_braces (c ∷ s) =
    let rest = in_braces s in if word_byte c then rest else c == b'}' && after_brace s

name_start : ℕ → Bool
unfolding is_letter
name_start c = is_letter c || c == b'_'

starts_name : (Bytes → Bool) → Bytes → Bool
unfolding name_start
starts_name follows [] = false
starts_name follows (c ∷ s) = name_start c && follows s

-- `^\$(?:[A-Za-z_][A-Za-z0-9_]*|\{[A-Za-z_][A-Za-z0-9_]*\})(?:/[A-Za-z0-9_@%+=,.-]+)*$`
unfoldable pub legacy_dynamic_path_re : Bytes → Bool
unfolding starts_name after_name in_braces
legacy_dynamic_path_re [] = false
legacy_dynamic_path_re (c ∷ []) = false
legacy_dynamic_path_re (c ∷ d ∷ s) =
    c == b'$' && (if d == b'{' then starts_name in_braces s else starts_name after_name (d ∷ s))

-- `$(` holds a byte of the set, so the first test of the source adds nothing but is kept.
has_pair : ℕ → ℕ → Bytes → Bool
has_pair a b [] = false
has_pair a b (c ∷ []) = false
has_pair a b (c ∷ d ∷ s) = c == a && d == b || has_pair a b (d ∷ s)

any_in : Bytes → Bytes → Bool
any_in set [] = false
any_in set (c ∷ s) = contains c set || any_in set s

unfoldable pub unsafe_static : Bytes → Bool
unfolding has_pair any_in
unsafe_static s = has_pair b'$' b'(' s || any_in (10 ∷ bytes ";&|`()< >") s

-- Whether a part is dynamic, if it is accepted.
unfoldable pub legacy_dynamic_path : Bytes → Option Bool
legacy_dynamic_path value =
    if legacy_dynamic_path_re value
    then some true
    else if contains b'$' value || unsafe_static value
    then none
    else some false

-- The bytes before the first `stop`, and whether there is one.
before : ℕ → Bytes → Bytes
before stop [] = []
before stop (c ∷ s) = let rest = before stop s in if c == stop then [] else c ∷ rest

without_dollar : Bytes → Bytes
without_dollar [] = []
without_dollar (c ∷ s) = if c == b'$' then s else c ∷ s

is_list_name : Bytes → Bool
is_list_name name =
    name == bytes "PATH" || name == bytes "path" || name == bytes "FPATH" || name == bytes "fpath"

reference_name : Bytes → Bool
unfolding before is_list_name
reference_name [] = false
reference_name (c ∷ s) =
    if c == b'{'
    then not (contains b'}' s) || is_list_name (before b'}' s)
    else is_list_name (before b'/' (c ∷ s))

unfoldable pub legacy_list_reference : Bytes → Bool
unfolding reference_name without_dollar
legacy_list_reference value = reference_name (without_dollar value)

unfoldable pub is_base_reference : Bytes → Bytes → Bool
is_base_reference canonical p =
    if canonical == bytes "PATH"
    then p == bytes "$PATH" || p == bytes "$path" || p == bytes "${PATH}"
    else p == bytes "$FPATH" || p == bytes "$fpath" || p == bytes "${FPATH}"

-- The loop that looks for the base among the parts: outside `none` for a second one, inside `none`
-- for the -1 of the source.
unfoldable pub find_base : Bytes → ℕ → List Bytes → Option ℕ → Option (Option ℕ)
find_base canonical i [] idx = some idx
find_base canonical i (p ∷ ps) idx =
    let rest =
      find_base canonical (suc i) ps (if is_base_reference canonical p then some i else idx) in
    if is_base_reference canonical p then elim idx [ some j ↦ none | none ↦ rest ] else rest

tail : List Bytes → List Bytes
tail [] = []
tail (p ∷ ps) = ps

-- `parts[:len(parts)-1]`
init : List Bytes → List Bytes
init [] = []
init (p ∷ []) = []
init (p ∷ q ∷ ps) = p ∷ init (q ∷ ps)

accept_addition : Bytes → Option Bool
accept_addition a = elim (legacy_dynamic_path a) [
  | some d ↦ if d && legacy_list_reference a then none else some d
  | none ↦ none
]

join_marks : Option Bool → Option (List Bool) → Option (List Bool)
join_marks (some d) (some ds) = some (d ∷ ds)
join_marks _ _ = none

unfoldable pub accept_additions : List Bytes → Option (List Bool)
unfolding accept_addition join_marks
accept_additions [] = some []
accept_additions (a ∷ rest) = join_marks (accept_addition a) (accept_additions rest)

delta_of : Bytes → List Bytes → ℕ → Option (List Bool) → Option ListDelta
delta_of canonical adds base none = none
delta_of canonical adds base (some dynamic) = some (record {
  name = canonical;
  additions = adds;
  deletions = [];
  base_index = some (pos base);
  addition_dynamic = dynamic;
})

-- What follows once the base's index is known. `idx == len(parts)-1` sets the base index to the
-- number of additions, also where the base is the only part.
place_base : Bytes → List Bytes → Option (Option ℕ) → Option ListDelta
unfolding tail init delta_of
place_base canonical parts none = none
place_base canonical parts (some none) = none
place_base canonical parts (some (some idx)) =
    let adds = if idx == 0 then tail parts else init parts in
    if not (idx == 0) && not (idx == length parts - 1)
    then none
    else delta_of canonical adds (if idx == length parts - 1 then length adds else idx)
        (accept_additions adds)

unfoldable pub path_delta : Bytes → Bytes → Option ListDelta
unfolding place_base
path_delta name value =
    let canonical = canonical_list name in
    let parts = split b':' value in
    if canonical == [] then none else place_base canonical parts (find_base canonical 0 parts none)

-- The loop of composeLegacyList: the current tokens stand at the base index.
unfoldable pub legacy_tokens : List ListToken → ℕ → ℕ → List Bytes → List Bool → List ListToken
legacy_tokens current base i [] ds = if i == base then current else []
legacy_tokens current base i (a ∷ adds) [] = if i == base then current else []
legacy_tokens current base i (a ∷ adds) (d ∷ ds) =
    (if i == base then current else [])
    ++ record { value = a; dynamic = d; base = false } ∷ legacy_tokens current base (suc i) adds ds

from_delta : Dict Bytes (List ListToken) → Option ListDelta → Option (Bytes × List ListToken)
from_delta prior none = none
from_delta prior (some l) = elim l.base_index [
  | some (pos b) ↦
      some (l.name, legacy_tokens (current_tokens prior l.name) b 0 l.additions l.addition_dynamic)
  | _ ↦ none
]

unfoldable pub compose_legacy_list :
    Bytes → Bytes → Dict Bytes (List ListToken) → Option (Bytes × List ListToken)
unfolding from_delta
compose_legacy_list raw value prior = from_delta prior (path_delta raw value)
