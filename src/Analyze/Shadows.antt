-- ===== src/Analyze/Shadows.antt =====
-- Names that are an alias and a function: shadows of core/analyze/reconciler.go.
use zsh_pro.Prelude.{
  ℕ, ◌≡◌, refl, ap, ◌∙◌, Bool, true, false, not, ◌&&◌, ◌||◌, Option, none, some, List, [], ◌∷◌,
  ◌++◌, ◌==◌, nat_eq, ltb, contains, map, if◌then◌else◌, arith, contains-append,
}
use zsh_pro.Data.Bytes.{Bytes, bytes, bytes_eq}
use zsh_pro.Data.Dict.{Dict, lookup, insert, is_some, lookup-insert}
use zsh_pro.Data.Sort.{sort}
use zsh_pro.Model.Profile.{BlockKind}
use zsh_pro.Model.Block.{Block}
use zsh_pro.Analyze.{IssueKind, Issue, Severity}

unfoldable pub note_first : Dict Bytes ℕ → List Bytes → ℕ → Dict Bytes ℕ
note_first d [] line = d
note_first d (n ∷ ns) line =
    note_first (if is_some (lookup n d) then d else insert n line d) ns line

-- `aliasLines` and `funcLines`.
pub record FirstLines : Type 0 where
  pub aliases : Dict Bytes ℕ
  pub functions : Dict Bytes ℕ

unfoldable pub note_kind : FirstLines → Block → BlockKind → FirstLines
note_kind f b BlockKind.alias = record f { aliases = note_first f.aliases b.names b.start_line }
note_kind f b BlockKind.func_decl = record f {
  functions = note_first f.functions b.names b.start_line;
}
note_kind f b _ = f

unfoldable pub first_lines : FirstLines → List Block → FirstLines
first_lines f [] = f
first_lines f (b ∷ bs) = first_lines (note_kind f b b.kind) bs

unfoldable pub is_shadowed : FirstLines → Bytes → Bool
is_shadowed f n = is_some (lookup n f.aliases) && is_some (lookup n f.functions)

-- `seen` holds just the names that are listed already.
unfoldable pub shadowed_names : FirstLines → List Bytes → List Bytes → List Bytes
shadowed_names f seen [] = seen
shadowed_names f seen (n ∷ ns) =
    shadowed_names f (if is_shadowed f n && not (contains n seen) then seen ++ n ∷ [] else seen) ns

unfoldable pub shadowed_blocks : FirstLines → List Bytes → List Block → List Bytes
shadowed_blocks f seen [] = seen
shadowed_blocks f seen (b ∷ bs) = shadowed_blocks f (shadowed_names f seen b.names) bs

abbrev pub line_or_zero : Option ℕ → ℕ
line_or_zero none = 0
line_or_zero (some line) = line

unfoldable pub shadow : FirstLines → Bytes → Issue
shadow f n = record {
  kind = IssueKind.shadowed;
  name = n;
  lines = sort ltb (line_or_zero (lookup n f.aliases) ∷ line_or_zero (lookup n f.functions) ∷ []);
  note = bytes "defined as both an alias and a function";
  severity = Severity.actionable;
}

abbrev pub no_lines : FirstLines
no_lines = record { aliases = []; functions = [] }

unfoldable pub shadows : List Block → List Issue
shadows blocks = let f = first_lines no_lines blocks in map (shadow f) (shadowed_blocks f [] blocks)

is_alias : BlockKind → Bool
is_alias BlockKind.alias = true
is_alias _ = false

is_func_decl : BlockKind → Bool
is_func_decl BlockKind.func_decl = true
is_func_decl _ = false

-- Some block of a kind has the name.
unfoldable pub declares : (BlockKind → Bool) → Bytes → List Block → Bool
declares of_kind n [] = false
declares of_kind n (b ∷ bs) = of_kind b.kind && contains n b.names || declares of_kind n bs

unfoldable pub declares_alias : Bytes → List Block → Bool
unfolding is_alias
declares_alias n bs = declares is_alias n bs

unfoldable pub declares_function : Bytes → List Block → Bool
unfolding is_func_decl
declares_function n bs = declares is_func_decl n bs

known-note_first :
    (d : Dict Bytes ℕ) (ns : List Bytes) (line : ℕ) (k : Bytes)
    → is_some (lookup k (note_first d ns line)) ≡ (is_some (lookup k d) || contains k ns)
unfolding note_first contains
known-note_first d [] line k = ground arith
known-note_first d (n ∷ ns) line k =
    known-note_first (if is_some (lookup n d) then d else insert n line d) ns line k
    ∙ ground (arith, lookup-insert n k line d)

known-note_kind :
    (f : FirstLines) (b : Block) (t : BlockKind) (k : Bytes)
    → (is_some (lookup k (note_kind f b t).aliases)
        ≡ (is_some (lookup k f.aliases) || is_alias t && contains k b.names))
      × (is_some (lookup k (note_kind f b t).functions)
          ≡ (is_some (lookup k f.functions) || is_func_decl t && contains k b.names))
unfolding note_kind is_alias is_func_decl
known-note_kind f b BlockKind.alias k =
    (known-note_first f.aliases b.names b.start_line k, ground arith)
known-note_kind f b BlockKind.func_decl k =
    (ground arith, known-note_first f.functions b.names b.start_line k)
known-note_kind f b BlockKind.assignment k = (ground arith, ground arith)
known-note_kind f b BlockKind.command k = (ground arith, ground arith)
known-note_kind f b BlockKind.compound k = (ground arith, ground arith)
known-note_kind f b BlockKind.other k = (ground arith, ground arith)
known-note_kind f b (BlockKind.unknown t) k = (ground arith, ground arith)

known-first_lines :
    (f : FirstLines) (bs : List Block) (k : Bytes)
    → (is_some (lookup k (first_lines f bs).aliases)
        ≡ (is_some (lookup k f.aliases) || declares is_alias k bs))
      × (is_some (lookup k (first_lines f bs).functions)
          ≡ (is_some (lookup k f.functions) || declares is_func_decl k bs))
unfolding first_lines declares
known-first_lines f [] k = (ground arith, ground arith)
known-first_lines f (b ∷ bs) k =
    let (alias_here, function_here) = known-note_kind f b b.kind k in
    let (alias_rest, function_rest) = known-first_lines (note_kind f b b.kind) bs k in
    (ground (arith, alias_here, alias_rest), ground (arith, function_here, function_rest))

contains-shadowed_names :
    (f : FirstLines) (seen ns : List Bytes) (k : Bytes)
    → contains k (shadowed_names f seen ns) ≡ (contains k seen || is_shadowed f k && contains k ns)
unfolding shadowed_names contains
contains-shadowed_names f seen [] k = ground arith
contains-shadowed_names f seen (n ∷ ns) k =
    contains-shadowed_names f
      (if is_shadowed f n && not (contains n seen) then seen ++ n ∷ [] else seen) ns k
    ∙ ground (arith, contains-append k seen (n ∷ []))

-- Some block has the name.
unfoldable has_name : Bytes → List Block → Bool
has_name n [] = false
has_name n (b ∷ bs) = contains n b.names || has_name n bs

contains-shadowed_blocks :
    (f : FirstLines) (seen : List Bytes) (bs : List Block) (k : Bytes)
    → contains k (shadowed_blocks f seen bs) ≡ (contains k seen || is_shadowed f k && has_name k bs)
unfolding shadowed_blocks has_name
contains-shadowed_blocks f seen [] k = ground arith
contains-shadowed_blocks f seen (b ∷ bs) k = ground (
  arith,
  contains-shadowed_names f seen b.names k,
  contains-shadowed_blocks f (shadowed_names f seen b.names) bs k,
)

declared-has_name :
    (of_kind : BlockKind → Bool) (n : Bytes) (bs : List Block)
    → declares of_kind n bs ≡ true
    → has_name n bs ≡ true
unfolding declares has_name
declared-has_name of_kind n [] h = h
declared-has_name of_kind n (b ∷ bs) h = ground (arith, declared-has_name of_kind n bs)

names-shadow :
    (f : FirstLines) (ns : List Bytes) (k : Bytes)
    → contains k (map (λ i. i.name) (map (shadow f) ns)) ≡ contains k ns
unfolding shadow contains
names-shadow f [] k = refl
names-shadow f (n ∷ ns) k = ap (λ c. n == k || c) (names-shadow f ns k)

-- Just the names that one block defines as an alias and one as a function are reported as
-- shadowed.
pub contains-shadows :
    (blocks : List Block) (k : Bytes)
    → contains k (map (λ i. i.name) (shadows blocks))
      ≡ (declares_alias k blocks && declares_function k blocks)
unfolding shadows declares_alias declares_function is_shadowed contains lookup
contains-shadows blocks k =
    let f = first_lines no_lines blocks in
    let (alias_known, function_known) = known-first_lines no_lines blocks k in
    names-shadow f (shadowed_blocks f [] blocks) k
    ∙ contains-shadowed_blocks f [] blocks k
    ∙ ground (arith, alias_known, function_known, declared-has_name is_alias k blocks)
