-- ===== src/Tests/Analyze.antt =====
-- Duplicates of two small files of blocks, and an alias that is not regenerated.
use zsh_pro.Prelude.{
  ℕ, select, Bool, true, false, none, List, [], ◌∷◌, ◌++◌, ◌≡◌, refl, contains, map, if◌then◌else◌,
  ◌&&◌, ℕ_discrete,
}
use zsh_pro.Data.Bytes.{Bytes, bytes, bytes_eq}
use zsh_pro.Model.Profile.{BlockKind, Category, ValueMode, Entry}
use zsh_pro.Model.Block.{Block, Confidence}
use zsh_pro.Ir.{route_kind, route_managed, entry_of, regenerate_line}
use zsh_pro.Ir.Gates.{shape_left, plain, regenerate_line-gates}
use zsh_pro.Analyze.{path_segments, exit_code}
use zsh_pro.Analyze.Duplicates.{issue_name, occurrences, total}
use zsh_pro.Analyze.Report.{Provider, Analysis, analyze, classified, is_reported, analyze-issues}
use zsh_pro.Analyze.{
  is_actionable, has_actionable_issues, note_name, note_names, note_blocks, issue_of, repeated,
  duplicate_names, duplicate_paths,
}
use zsh_pro.Analyze.Shadows.{
  note_first, note_kind, first_lines, is_shadowed, shadowed_names, shadowed_blocks, shadow, shadows,
  declares, declares_alias, declares_function,
}
use zsh_pro.Analyze.Report.{
  category_text, bucket, count_opaque, text_label, primary_name, summaries, count_lines,
  issue_kind_text, issue_before, issues_of,
}
use zsh_pro.Data.Bytes.{bytes_lt}
use zsh_pro.Data.Sort.{sort, insert_sorted}
use zsh_pro.Data.Dict.{lookup, insert}

-- What a report has to see through.
unfoldable run_analysis : ℕ
unfolding ℕ_discrete contains bytes_eq bytes_lt sort insert_sorted lookup insert select
    path_segments exit_code analyze classified is_actionable has_actionable_issues note_name
    note_names note_blocks issue_of repeated duplicate_names duplicate_paths note_first note_kind
    first_lines is_shadowed shadowed_names shadowed_blocks shadow shadows declares declares_alias
    declares_function category_text bucket count_opaque text_label primary_name summaries
    count_lines issue_kind_text issue_before issues_of
run_analysis = 0

abbrev block : BlockKind → ℕ → List Bytes → Bytes → Bool → Block
block kind line names text defines = record {
  text = text;
  start_line = line;
  kind = kind;
  cmd_name = bytes "alias";
  names = names;
  exported = false;
  opaque = false;
  category = Category.aliases;
  confidence = Confidence.high;
  value = [];
  dynamic = false;
  append = false;
  flagged = false;
  array = false;
  indexed = false;
  alias_assignment = defines;
  declaration_flags = [];
  option_flags = [];
  value_mode = ValueMode.legacy;
  runtime_value = none;
  function_body = none;
  list_value = none;
}

abbrev gs : Bytes
gs = bytes "gs"

-- An alias, the same alias again, and another one.
abbrev aliases : List Block
aliases =
    block BlockKind.alias 7 (gs ∷ []) (bytes "alias gs=/bin/git") true
    ∷ block BlockKind.alias 3 (gs ∷ []) (bytes "alias gs=~/bin:/bin/git") true
    ∷ block BlockKind.alias 9 (bytes "ll" ∷ []) (bytes "alias ll=ls") true
    ∷ []

segments :
    path_segments (bytes "a=$HOME/bin:/usr/bin)~ /") ≡ bytes "$HOME/bin" ∷ bytes "/usr/bin" ∷ []
unfolding path_segments ℕ_discrete contains
segments = refl

-- A provider that parses every source to these blocks and a function, and takes all for aliases.
abbrev provider : Provider
provider = record {
  parse =
      λ s. aliases ++ block BlockKind.func_decl 12 (bytes "ll" ∷ []) (bytes "ll() ls") false ∷ [];
  classify = λ b. (Category.aliases, Confidence.high);
  categories = Category.aliases ∷ [];
  introspects = λ path. false;
  trim_space = λ s. s;
}

abbrev report : Analysis
report = analyze provider (bytes "x") (bytes "f")

analyze-issues_example :
    contains gs (map issue_name report.issues)
    ≡ is_reported gs (classified provider (provider.parse (bytes "x")))
analyze-issues_example = analyze-issues provider (bytes "x") (bytes "f") gs

report_names : map issue_name report.issues ≡ gs ∷ bytes "ll" ∷ bytes "ll" ∷ []
unfolding run_analysis
report_names = refl

report_fails : exit_code report.issues ≡ 3
unfolding run_analysis
report_fails = refl

twice : total (λ b. b.names) gs aliases ≡ 2
unfolding total occurrences bytes_eq
twice = refl

-- `alias gs` prints an alias: routing takes it for a definition, and its text is kept.
abbrev query : Block
query = block BlockKind.alias 1 (gs ∷ []) (bytes "alias gs") false

query_managed : route_managed query Category.aliases ≡ true
unfolding route_managed route_kind ℕ_discrete
query_managed = refl

query_kept :
    (render : Entry → Bytes) → regenerate_line render (entry_of query Category.aliases) ≡ query.text
unfolding plain shape_left route_managed route_kind ℕ_discrete
query_kept render = regenerate_line-gates render query Category.aliases

regenerate_line-gates_example : regenerate_line (λ e. e.value) (entry_of query Category.aliases) ≡ (
    if route_managed query Category.aliases && plain query
    then (entry_of query Category.aliases).value
    else query.text)
regenerate_line-gates_example = regenerate_line-gates (λ e. e.value) query Category.aliases
