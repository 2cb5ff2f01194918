-- ===== src/Analyze.antt =====
-- The analysis of a configuration. Here are issues, core/model/issue.go and analysis.go, and
-- duplicateNames and duplicatePaths of core/analyze/reconciler.go.
pub mod Duplicates
pub mod Report
pub mod Shadows
use zsh_pro.Prelude.{
  ℕ, suc, ◌+◌, Bool, true, false, not, ◌&&◌, ◌||◌, Option, none, some, List, [], ◌∷◌, ◌++◌, ◌==◌,
  nat_eq, ltb, if◌then◌else◌, length, contains, select, map,
}
use zsh_pro.Data.Bytes.{Bytes, bytes, bytes_eq, bytes_lt}
use zsh_pro.Data.Dict.{Dict, lookup, insert, is_some}
use zsh_pro.Data.Sort.{sort}
use zsh_pro.Model.Profile.{BlockKind, Category}
use zsh_pro.Model.Block.{Block}

pub data IssueKind : Type 0 where
  duplicate_alias reassigned_env duplicate_path shadowed : IssueKind

-- `unknown` is any other number, which nothing looks at.
pub data Severity : Type 0 where
  actionable advisory : Severity
  unknown : ℕ → Severity

pub record Issue : Type 0 where
  pub kind : IssueKind
  pub name : Bytes
  pub lines : List ℕ
  pub note : Bytes
  pub severity : Severity

unfoldable pub is_actionable : Severity → Bool
is_actionable Severity.advisory = false
is_actionable _ = true

unfoldable pub has_actionable_issues : List Issue → Bool
has_actionable_issues [] = false
has_actionable_issues (i ∷ is) = is_actionable i.severity || has_actionable_issues is

-- ExitActionable and ExitClean
unfoldable pub exit_code : List Issue → ℕ
exit_code is = if has_actionable_issues is then 3 else 0

abbrev pub lines_or_nil : Option (List ℕ) → List ℕ
lines_or_nil none = []
lines_or_nil (some ls) = ls

-- `lines` and `order` of the two loops.
pub record Found : Type 0 where
  pub lines : Dict Bytes (List ℕ)
  pub order : List Bytes

unfoldable pub note_name : Found → Bytes → ℕ → Found
note_name f n line = record {
  lines = insert n (lines_or_nil (lookup n f.lines) ++ line ∷ []) f.lines;
  order = if is_some (lookup n f.lines) then f.order else f.order ++ n ∷ [];
}

unfoldable pub note_names : Found → List Bytes → ℕ → Found
note_names f [] line = f
note_names f (n ∷ ns) line = note_names (note_name f n line) ns line

module _ (names_of : Block → List Bytes) where
  unfoldable pub note_blocks : Found → List Block → Found
  note_blocks f [] = f
  note_blocks f (b ∷ bs) = note_blocks (note_names f (names_of b) b.start_line) bs

abbrev pub nothing_found : Found
nothing_found = record { lines = []; order = [] }

unfoldable pub issue_of : IssueKind → Bytes → Bytes → List ℕ → Issue
issue_of kind note name ls = record {
  kind = kind;
  name = name;
  lines = sort ltb ls;
  note = note;
  severity = Severity.actionable;
}

-- The loop over the names in their order.
unfoldable pub repeated : IssueKind → Bytes → Dict Bytes (List ℕ) → List Bytes → List Issue
repeated kind note lines [] = []
repeated kind note lines (n ∷ ns) =
    let rest = repeated kind note lines ns in
    let ls = lines_or_nil (lookup n lines) in
    if ltb 1 (length ls) then issue_of kind note n ls ∷ rest else rest

abbrev pub last_wins_note : Bytes
last_wins_note = bytes "last definition wins"

unfoldable pub duplicate_names : List Block → IssueKind → List Issue
duplicate_names blocks kind =
    let found = note_blocks (λ b. b.names) nothing_found blocks in
    repeated kind last_wins_note found.lines found.order

-- `[^:"'\s)]`
in_segment : ℕ → Bool
in_segment c = not (contains c (58 ∷ 34 ∷ 39 ∷ 9 ∷ 10 ∷ 12 ∷ 13 ∷ 32 ∷ 41 ∷ []))

next_in_segment : Bytes → Bool
unfolding in_segment
next_in_segment [] = false
next_in_segment (c ∷ s) = in_segment c

after_prefix : Bytes → Bytes → Option Bytes
after_prefix [] s = some s
after_prefix (p ∷ ps) [] = none
after_prefix (p ∷ ps) (c ∷ s) = let rest = after_prefix ps s in if p == c then rest else none

followed : Option Bytes → Bool
unfolding next_in_segment
followed none = false
followed (some s) = next_in_segment s

-- A match of `(?:\$HOME|~|/)[^:"'\s)]+` starts here.
starts_segment : Bytes → Bool
unfolding followed after_prefix
starts_segment s =
    followed (after_prefix (bytes "$HOME") s)
    || followed (after_prefix (bytes "~") s)
    || followed (after_prefix (bytes "/") s)

-- FindAllString: the match that is open, if any, goes along. The bytes that end a match start none.
find_segments : Option Bytes → Bytes → List Bytes
unfolding starts_segment in_segment
find_segments none [] = []
find_segments (some segment) [] = segment ∷ []
find_segments none (c ∷ s) =
    let opened = find_segments (some (c ∷ [])) s in
    let rest = find_segments none s in if starts_segment (c ∷ s) then opened else rest
find_segments (some segment) (c ∷ s) =
    let longer = find_segments (some (segment ++ c ∷ [])) s in
    let rest = find_segments none s in if in_segment c then longer else segment ∷ rest

unfoldable pub path_segments : Bytes → List Bytes
unfolding find_segments
path_segments text = find_segments none text

unfoldable pub duplicate_paths : List Block → List Issue
duplicate_paths blocks =
    let found = note_blocks (λ b. path_segments b.text) nothing_found blocks in
    repeated IssueKind.duplicate_path [] found.lines found.order
