-- ===== src/Analyze/Duplicates.antt =====
-- Which names and path segments are reported: duplicateNames and duplicatePaths of
-- core/analyze/reconciler.go.
use zsh_pro.Prelude.{
  ℕ, suc, ◌+◌, ◌≡◌, refl, sym, ap, ◌∙◌, Bool, true, false, ◌&&◌, Option, none, some, List, [], ◌∷◌,
  ◌++◌, ◌==◌, nat_eq, ltb, length, contains, map, if◌then◌else◌, arith, contains-append,
}
use zsh_pro.Data.Bytes.{Bytes, bytes_eq}
use zsh_pro.Data.Dict.{Dict, lookup, is_some, lookup-insert}
use zsh_pro.Model.Block.{Block}
use zsh_pro.Analyze.{
  IssueKind, Issue, Found, lines_or_nil, note_name, note_names, note_blocks, nothing_found,
  issue_of, repeated, duplicate_names, duplicate_paths, path_segments, last_wins_note,
}

-- How often a name stands in a list.
unfoldable pub occurrences : Bytes → List Bytes → ℕ
occurrences n [] = 0
occurrences n (m ∷ ms) = let rest = occurrences n ms in if m == n then suc rest else rest

-- How often the blocks have a name.
unfoldable pub total : (Block → List Bytes) → Bytes → List Block → ℕ
total names_of n [] = 0
total names_of n (b ∷ bs) = occurrences n (names_of b) + total names_of n bs

-- The lines of each name are known exactly if it stands in the order.
record IsFound (f : Found) : Type 0 where
  known : (n : Bytes) → contains n f.order ≡ is_some (lookup n f.lines)

abbrev count : Found → Bytes → ℕ
count f n = length (lines_or_nil (lookup n f.lines))

length-snoc : (ls : List ℕ) (l : ℕ) → length (ls ++ l ∷ []) ≡ suc (length ls)
length-snoc [] l = refl
length-snoc (k ∷ ls) l = ap suc (length-snoc ls l)

note_name-IsFound : (f : Found) (n : Bytes) (line : ℕ) → IsFound f → IsFound (note_name f n line)
unfolding note_name contains
note_name-IsFound f n line h = record {
  known = λ k. ground (
    arith,
    h.known k,
    h.known n,
    contains-append k f.order (n ∷ []),
    lookup-insert n k (lines_or_nil (lookup n f.lines) ++ line ∷ []) f.lines,
  );
}

count-note_name :
    (f : Found) (n k : Bytes) (line : ℕ)
    → count (note_name f n line) k ≡ (if n == k then suc (count f k) else count f k)
unfolding note_name
count-note_name f n k line =
    ap (λ o. length (lines_or_nil o))
      (lookup-insert n k (lines_or_nil (lookup n f.lines) ++ line ∷ []) f.lines)
    ∙ ground (arith, length-snoc (lines_or_nil (lookup n f.lines)) line)

note_names-IsFound :
    (f : Found) (ns : List Bytes) (line : ℕ) → IsFound f → IsFound (note_names f ns line)
unfolding note_names
note_names-IsFound f [] line h = h
note_names-IsFound f (n ∷ ns) line h =
    note_names-IsFound (note_name f n line) ns line (note_name-IsFound f n line h)

count-note_names :
    (f : Found) (ns : List Bytes) (k : Bytes) (line : ℕ)
    → count (note_names f ns line) k ≡ count f k + occurrences k ns
unfolding note_names occurrences
count-note_names f [] k line = omega arith
count-note_names f (n ∷ ns) k line =
    count-note_names (note_name f n line) ns k line ∙ ground (arith, count-note_name f n k line)

module _ (names_of : Block → List Bytes) where
  note_blocks-IsFound :
      (f : Found) (bs : List Block) → IsFound f → IsFound (note_blocks names_of f bs)
  unfolding note_blocks
  note_blocks-IsFound f [] h = h
  note_blocks-IsFound f (b ∷ bs) h =
      note_blocks-IsFound (note_names f (names_of b) b.start_line) bs
        (note_names-IsFound f (names_of b) b.start_line h)

  count-note_blocks :
      (f : Found) (bs : List Block) (k : Bytes)
      → count (note_blocks names_of f bs) k ≡ count f k + total names_of k bs
  unfolding note_blocks total
  count-note_blocks f [] k = omega arith
  count-note_blocks f (b ∷ bs) k =
      count-note_blocks (note_names f (names_of b) b.start_line) bs k
      ∙ omega (arith, count-note_names f (names_of b) k b.start_line)

abbrev pub issue_name : Issue → Bytes
issue_name i = i.name

contains-repeated :
    (kind : IssueKind) (note : Bytes) (lines : Dict Bytes (List ℕ)) (order : List Bytes) (k : Bytes)
    → contains k (map issue_name (repeated kind note lines order))
      ≡ (contains k order && ltb 1 (length (lines_or_nil (lookup k lines))))
unfolding repeated contains issue_of
contains-repeated kind note lines [] k = refl
contains-repeated kind note lines (n ∷ ns) k =
    ground (arith, contains-repeated kind note lines ns k)

nothing-IsFound : IsFound nothing_found
unfolding contains lookup
nothing-IsFound = record { known = λ n. refl }

reported : (b : Bool) (n : ℕ) → (b ≡ false → n ≡ 0) → (b && ltb 1 n) ≡ ltb 1 n
reported true n h = refl
reported false n h = ap (ltb 1) (sym (h refl))

unknown-count : (o : Option (List ℕ)) → is_some o ≡ false → length (lines_or_nil o) ≡ 0
unknown-count none h = refl
unknown-count (some ls) h = absurd (ground arith)

nothing_counted : (k : Bytes) (n : ℕ) → count nothing_found k + n ≡ n
unfolding lookup
nothing_counted k n = omega arith

contains-repeated-note_blocks :
    (names_of : Block → List Bytes) (kind : IssueKind) (note : Bytes) (bs : List Block) (k : Bytes)
    → (let found = note_blocks names_of nothing_found bs in
        contains k (map issue_name (repeated kind note found.lines found.order)))
      ≡ ltb 1 (total names_of k bs)
contains-repeated-note_blocks names_of kind note bs k =
    let found = note_blocks names_of nothing_found bs in
    let h = note_blocks-IsFound names_of nothing_found bs nothing-IsFound in
    contains-repeated kind note found.lines found.order k
    ∙ reported (contains k found.order) (count found k)
        (λ absent. unknown-count (lookup k found.lines) (sym (h.known k) ∙ absent))
    ∙ ap (ltb 1)
        (count-note_blocks names_of nothing_found bs k ∙ nothing_counted k (total names_of k bs))

-- Just the names that the blocks define more than once are reported as duplicates, repetitions in
-- one block included, and just the path segments that occur more than once in their texts.
pub contains-duplicates :
    (blocks : List Block) (kind : IssueKind) (k : Bytes)
    → (contains k (map issue_name (duplicate_names blocks kind))
        ≡ ltb 1 (total (λ b. b.names) k blocks))
      × (contains k (map issue_name (duplicate_paths blocks))
          ≡ ltb 1 (total (λ b. path_segments b.text) k blocks))
unfolding duplicate_names duplicate_paths
contains-duplicates blocks kind k = (
  contains-repeated-note_blocks (λ b. b.names) kind last_wins_note blocks k,
  contains-repeated-note_blocks (λ b. path_segments b.text) IssueKind.duplicate_path [] blocks k,
)
