-- ===== src/Anchor.antt =====
-- Anchoring findings to lines by the code they quote: internal/engine/anchor/resolver.go.
pub mod Match
pub mod Sides
pub mod Points
pub mod Lines
use miu_cr.Base.{
  ℕ, zero, suc, ◌+◌, ◌-◌, Bool, true, false, not, ◌||◌, ◌&&◌, Option, none, some, List, [], ◌∷◌,
  ◌++◌, map, Text, codes, text_eq, trim_space, trim_prefix, trim_cr, split_lines, length, get_elem?,
  drop, keep, ltb, ◌==◌, if◌then◌else◌,
}
use miu_cr.Finding.{Finding, Diff}
use miu_cr.Hunk.{HunkLineType, hunk_context, hunk_added, hunk_deleted, HunkLine, Hunk, parse_hunks}

unfoldable pub normalize_line : Text → Text
unfolding trim_space trim_prefix
normalize_line s = trim_space (trim_prefix (trim_prefix (trim_space s) (codes "+")) (codes "-"))

-- line != ""
abbrev pub is_text : Text → Bool
is_text [] = false
is_text (c ∷ s) = true

unfoldable pub split_and_normalize : Text → List Text
unfolding split_lines normalize_line
split_and_normalize code = keep is_text (map normalize_line (split_lines code))

pub record IndexedLine : Type 0 where
  pub line_num : ℕ
  pub content : Text

-- The closure `add` of `extractSideLines`, in front of the lines that come later.
unfoldable pub add_indexed : ℕ → Text → List IndexedLine → List IndexedLine
add_indexed num content later =
    let n = normalize_line content in
    if is_text n then record { line_num = num; content = n } ∷ later else later

-- The `switch` of `extractSideLines`: whether a line stands on the side, and the counters after it.
unfoldable pub on_side : Bool → HunkLineType → Bool
on_side new_side hunk_context = true
on_side new_side hunk_added = new_side
on_side new_side hunk_deleted = not new_side

unfoldable pub old_after : HunkLineType → ℕ → ℕ
old_after hunk_added old_line = old_line
old_after _ old_line = suc old_line

unfoldable pub new_after : HunkLineType → ℕ → ℕ
new_after hunk_deleted new_line = new_line
new_after _ new_line = suc new_line

unfoldable pub side_loop : Bool → ℕ → ℕ → List HunkLine → List IndexedLine
unfolding on_side old_after new_after add_indexed
side_loop new_side old_line new_line [] = []
side_loop new_side old_line new_line (l ∷ ls) =
    let later = side_loop new_side (old_after l.kind old_line) (new_after l.kind new_line) ls in
    if on_side new_side l.kind
    then add_indexed (if new_side then new_line else old_line) l.content later
    else later

unfoldable pub extract_side_lines : Hunk → Bool → List IndexedLine
unfolding side_loop
extract_side_lines hunk new_side = side_loop new_side hunk.old_start hunk.new_start hunk.lines

-- The inner loop of `matchConsecutive`, at the start of the given lines.
unfoldable pub match_at : List IndexedLine → List Text → Bool
match_at side [] = true
match_at [] (t ∷ ts) = false
match_at (l ∷ side) (t ∷ ts) = text_eq l.content t && match_at side ts

-- sideLines[i].lineNum, read at indices in range only.
abbrev pub line_num_at : List IndexedLine → ℕ → ℕ
line_num_at side i = elim (get_elem? side i) [ none ↦ 0 | some l ↦ l.line_num ]

-- The outer loop, over the rounds that are left and the lines from the index on.
unfoldable pub match_loop : ℕ → List IndexedLine → List Text → Option (ℕ × ℕ)
match_loop zero side target = none
match_loop (suc k) side target =
    let later = match_loop k (drop 1 side) target in
    if match_at side target
    then some (line_num_at side 0, line_num_at side (length target - 1))
    else later

unfoldable pub match_consecutive : List IndexedLine → List Text → Option (ℕ × ℕ)
unfolding match_loop match_at
match_consecutive side target =
    if length target == 0 || ltb (length side) (length target)
    then none
    else match_loop (length side - length target + 1) side target

-- One of the two loops of `resolveFromHunk`.
unfoldable pub match_hunks : Bool → List Text → List Hunk → Option (ℕ × ℕ)
match_hunks new_side target [] = none
match_hunks new_side target (h ∷ hs) =
    let later = match_hunks new_side target hs in
    elim (match_consecutive (extract_side_lines h new_side) target) [
      | some r ↦ some r
      | none ↦ later
    ]

-- The range that `resolveFromHunk` writes to the finding.
unfoldable pub resolve_from_hunk : Diff → List Text → Option (ℕ × ℕ)
unfolding match_hunks
resolve_from_hunk d target =
    let hunks = parse_hunks d.diff in
    elim (match_hunks true target hunks) [ some r ↦ some r | none ↦ match_hunks false target hunks ]

-- The lines that `resolveFromFileContent` collects, numbered from `i + 1`.
unfoldable pub file_lines : ℕ → List Text → List IndexedLine
unfolding add_indexed
file_lines i [] = []
file_lines i (raw ∷ raws) = add_indexed (i + 1) (trim_cr raw) (file_lines (suc i) raws)

unfoldable pub resolve_from_file_content : Diff → List Text → Option (ℕ × ℕ)
unfolding file_lines split_lines
resolve_from_file_content d target =
    if is_text d.new_file_content
    then match_consecutive (file_lines 0 (split_lines d.new_file_content)) target
    else none

abbrev set_range : Finding → Option (ℕ × ℕ) → Finding × Bool
set_range f none = (record f { line = 0; end_line = 0 }, false)
set_range f (some (s, e)) = (record f { line = s; end_line = e }, true)

abbrev is_nil : List Text → Bool
is_nil [] = true
is_nil (t ∷ ts) = false

unfoldable pub find_range : List Text → Diff → Option (ℕ × ℕ)
unfolding resolve_from_hunk resolve_from_file_content
find_range target d = if is_nil target then none else elim (resolve_from_hunk d target) [
  | some r ↦ some r
  | none ↦ resolve_from_file_content d target
]

unfoldable pub resolve_finding : Finding → Diff → Finding × Bool
unfolding find_range split_and_normalize
resolve_finding f d =
    set_range f
      (if is_text f.quoted_code then find_range (split_and_normalize f.quoted_code) d else none)

-- A Go map from paths.
abbrev pub PathMap : Type 0
PathMap = Text → Option Diff

abbrev put_path : Text → Diff → PathMap → PathMap
put_path p d m q =
    if not (text_eq p (codes "/dev/null")) && is_text p && text_eq p q then some d else m q

unfoldable pub by_path : PathMap → List Diff → PathMap
by_path m [] = m
by_path m (d ∷ ds) = by_path (put_path d.old_path d (put_path d.new_path d m)) ds

unfoldable pub clear_lines : Finding → Finding
clear_lines f = record f { line = 0; end_line = 0 }

-- A finding at what the map holds for its file; the flag of `ResolveFinding` is dropped.
unfoldable pub resolve_with : Option Diff → Finding → Finding
unfolding resolve_finding clear_lines
resolve_with none f = clear_lines f
resolve_with (some d) f = (resolve_finding f d).0

-- The body of the loop of `ResolveLineNumbers`.
unfoldable pub resolve_one : PathMap → Finding → Finding
unfolding resolve_with clear_lines
resolve_one paths f = if is_text f.quoted_code then resolve_with (paths f.file) f else clear_lines f

unfoldable pub resolve_line_numbers : List Finding → List Diff → List Finding
unfolding resolve_one by_path
resolve_line_numbers [] diffs = []
resolve_line_numbers (f ∷ fs) [] = f ∷ fs
resolve_line_numbers (f ∷ fs) (d ∷ ds) = map (resolve_one (by_path (λ q. none) (d ∷ ds))) (f ∷ fs)
