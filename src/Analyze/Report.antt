-- ===== src/Analyze/Report.antt =====
-- The report on a configuration: Analyze of core/analyze/analyzer.go, primaryName of reconciler.go
-- and Analysis of core/model/analysis.go. The provider of the shell and strings.TrimSpace are
-- parameters.
use zsh_pro.Prelude.{
  ℕ, zero, suc, ◌≡◌, refl, ap, ◌∙◌, Bool, ◌&&◌, ◌||◌, List, [], ◌∷◌, ◌++◌, ◌==◌, nat_eq, ltb,
  length, contains, select, map, if◌then◌else◌, arith,
}
use zsh_pro.Data.Bytes.{Bytes, bytes, bytes_eq, bytes_lt}
use zsh_pro.Data.Sort.{insert_sorted, sort}
use zsh_pro.Model.Profile.{Category}
use zsh_pro.Model.Block.{Block, Confidence}
use zsh_pro.Analyze.{IssueKind, Issue, duplicate_names, duplicate_paths, path_segments}
use zsh_pro.Analyze.Duplicates.{issue_name, total, contains-duplicates}
use zsh_pro.Analyze.Shadows.{shadows, declares_alias, declares_function, contains-shadows}

-- `introspects` is false on an error and where the set is not available.
pub record Provider : Type 0 where
  pub parse : Bytes → List Block
  pub classify : Block → Category × Confidence
  pub categories : List Category
  pub introspects : Bytes → Bool
  pub trim_space : Bytes → Bytes

pub record CategorySummary : Type 0 where
  pub category : Category
  pub count : ℕ
  pub items : List Bytes

pub record Analysis : Type 0 where
  pub path : Bytes
  pub lines : ℕ
  pub block_count : ℕ
  pub opaque_blocks : ℕ
  pub categories : List CategorySummary
  pub issues : List Issue
  pub has_secrets : Bool
  pub introspected : Bool
  pub notes : List Bytes

-- The text of a category.
unfoldable pub category_text : Category → Bytes
category_text Category.environment = bytes "environment"
category_text Category.path = bytes "path"
category_text Category.secrets = bytes "secrets"
category_text Category.plugins = bytes "plugins"
category_text Category.options = bytes "options"
category_text Category.keybindings = bytes "keybindings"
category_text Category.functions = bytes "functions"
category_text Category.aliases = bytes "aliases"
category_text Category.local = bytes "local"
category_text Category.misc = bytes "misc"
category_text (Category.unknown text) = text

unfoldable pub bucket : Category → List Block → List Block
bucket c bs = select (λ b. category_text b.category == category_text c) bs

unfoldable pub classified : Provider → List Block → List Block
classified p [] = []
classified p (b ∷ bs) =
    record b { category = (p.classify b).0; confidence = (p.classify b).1 } ∷ classified p bs

unfoldable pub count_opaque : List Block → ℕ
count_opaque [] = 0
count_opaque (b ∷ bs) = let rest = count_opaque bs in if b.opaque then suc rest else rest

first_line : Bytes → Bytes
first_line [] = []
first_line (c ∷ s) = let rest = first_line s in if c == 10 then [] else c ∷ rest

first_bytes : ℕ → Bytes → Bytes
first_bytes zero s = []
first_bytes (suc n) [] = []
first_bytes (suc n) (c ∷ s) = c ∷ first_bytes n s

unfoldable pub text_label : Bytes → Bytes
unfolding first_bytes
text_label first =
    if ltb 48 (length first) then first_bytes 48 first ++ 226 ∷ 128 ∷ 166 ∷ [] else first

unfoldable pub primary_name : Provider → Bytes → List Bytes → Bytes
unfolding first_line
primary_name p text [] = text_label (p.trim_space (first_line text))
primary_name p text (n ∷ ns) = n

unfoldable pub summaries : Provider → List Category → List Block → List CategorySummary
summaries p [] bs = []
summaries p (c ∷ cs) bs =
    let rest = summaries p cs bs in
    let found = bucket c bs in
    if length found == 0
    then rest
    else record {
      category = c;
      count = length found;
      items = map (λ b. primary_name p b.text b.names) found;
    }
      ∷ rest

count_newlines : Bytes → ℕ
count_newlines [] = 0
count_newlines (c ∷ s) = let rest = count_newlines s in if c == 10 then suc rest else rest

last_of : ℕ → Bytes → ℕ
last_of c [] = c
last_of c (d ∷ s) = last_of d s

unfoldable pub count_lines : Bytes → ℕ
unfolding count_newlines last_of
count_lines [] = 0
count_lines (c ∷ s) = let n = count_newlines (c ∷ s) in if last_of c s == 10 then n else suc n

unfoldable pub issue_kind_text : IssueKind → Bytes
issue_kind_text IssueKind.duplicate_alias = bytes "duplicate_alias"
issue_kind_text IssueKind.reassigned_env = bytes "reassigned_env"
issue_kind_text IssueKind.duplicate_path = bytes "duplicate_path"
issue_kind_text IssueKind.shadowed = bytes "shadowed"

unfoldable pub issue_before : Issue → Issue → Bool
issue_before i j =
    if issue_kind_text i.kind == issue_kind_text j.kind
    then bytes_lt i.name j.name
    else bytes_lt (issue_kind_text i.kind) (issue_kind_text j.kind)

abbrev pub env_blocks : List Block → List Block
env_blocks bs = bucket Category.environment bs ++ bucket Category.secrets bs

unfoldable pub issues_of : List Block → List Issue
issues_of bs =
    duplicate_names (bucket Category.aliases bs) IssueKind.duplicate_alias
    ++ duplicate_names (env_blocks bs) IssueKind.reassigned_env
    ++ duplicate_paths (bucket Category.path bs)
    ++ shadows bs

-- The dash is in UTF-8.
abbrev pub unavailable_note : Bytes
unavailable_note =
    bytes "introspection unavailable " ++ 226 ∷ 128 ∷ 148 ∷ bytes " showing static analysis only"

unfoldable pub analyze : Provider → Bytes → Bytes → Analysis
analyze p source path =
    let blocks = classified p (p.parse source) in
    record {
      path = path;
      lines = count_lines source;
      block_count = length blocks;
      opaque_blocks = count_opaque blocks;
      categories = summaries p p.categories blocks;
      issues = sort issue_before (issues_of blocks);
      has_secrets = ltb 0 (length (bucket Category.secrets blocks));
      introspected = p.introspects path;
      notes = if p.introspects path then [] else unavailable_note ∷ [];
    }

-- Sorting, concatenation and names.
module _ (less : Issue → Issue → Bool) where
  names-insert_sorted :
      (k : Bytes) (a : Issue) (is : List Issue)
      → contains k (map issue_name (insert_sorted less a is))
        ≡ (a.name == k || contains k (map issue_name is))
  unfolding insert_sorted contains
  names-insert_sorted k a [] = refl
  names-insert_sorted k a (i ∷ is) = ground (arith, names-insert_sorted k a is)

  names-sort :
      (k : Bytes) (is : List Issue)
      → contains k (map issue_name (sort less is)) ≡ contains k (map issue_name is)
  unfolding sort contains
  names-sort k [] = refl
  names-sort k (i ∷ is) =
      names-insert_sorted k i (sort less is) ∙ ap (λ c. i.name == k || c) (names-sort k is)

names-append :
    (k : Bytes) (is js : List Issue)
    → contains k (map issue_name (is ++ js))
      ≡ (contains k (map issue_name is) || contains k (map issue_name js))
unfolding contains
names-append k [] js = refl
names-append k (i ∷ is) js = ground (arith, names-append k is js)

-- What the blocks of a file make a report name.
unfoldable pub is_reported : Bytes → List Block → Bool
is_reported k bs =
    ltb 1 (total (λ b. b.names) k (bucket Category.aliases bs))
    || ltb 1 (total (λ b. b.names) k (env_blocks bs))
    || ltb 1 (total (λ b. path_segments b.text) k (bucket Category.path bs))
    || declares_alias k bs && declares_function k bs

either : (a b c d : Bool) → a ≡ b → c ≡ d → (a || c) ≡ (b || d)
either a b c d h k = ap (λ x. x || c) h ∙ ap (λ x. b || x) k

names-appended :
    (k : Bytes) (is js : List Issue) (b c : Bool)
    → contains k (map issue_name is) ≡ b
    → contains k (map issue_name js) ≡ c
    → contains k (map issue_name (is ++ js)) ≡ (b || c)
names-appended k is js b c h g =
    names-append k is js
    ∙ either (contains k (map issue_name is)) b (contains k (map issue_name js)) c h g

names-issues_of :
    (k : Bytes) (bs : List Block) → contains k (map issue_name (issues_of bs)) ≡ is_reported k bs
unfolding issues_of is_reported
names-issues_of k bs =
    let alias = bucket Category.aliases bs in
    let paths = duplicate_paths (bucket Category.path bs) in
    let env = duplicate_names (env_blocks bs) IssueKind.reassigned_env in
    let twice = duplicate_names alias IssueKind.duplicate_alias in
    names-appended k (twice ++ env ++ paths) (shadows bs) _ _
      (names-appended k (twice ++ env) paths _ _
        (names-appended k twice env _ _ (contains-duplicates alias IssueKind.duplicate_alias k).0
          (contains-duplicates (env_blocks bs) IssueKind.reassigned_env k).0)
        (contains-duplicates (bucket Category.path bs) IssueKind.duplicate_path k).1)
      (contains-shadows bs k)

-- The issues of a report name just what is defined more than once by the blocks classified as
-- aliases, or by those classified as environment or secrets; the path segments that occur more
-- than once in the blocks classified as path; and what one block defines as an alias and one as a
-- function.
pub analyze-issues :
    (p : Provider) (source path k : Bytes)
    → contains k (map issue_name (analyze p source path).issues)
      ≡ is_reported k (classified p (p.parse source))
unfolding analyze
analyze-issues p source path k =
    let blocks = classified p (p.parse source) in
    names-sort issue_before k (issues_of blocks) ∙ names-issues_of k blocks
