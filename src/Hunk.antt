-- ===== src/Hunk.antt =====
-- The hunks of one file's unified diff: internal/engine/diff/hunk.go.
pub mod Render
pub mod RoundTrip
use Prim.Native.Nat.{min}
use miu_cr.Base.{
  ◌>>=◌, ℕ, ◌-◌, ◌^◌, Bool, true, false, Option, none, some, List, [], ◌∷◌, ◌++◌, Text, codes,
  cut_prefix, has_prefix, split_lines, scan_digits, digits_value, ◌==◌, if◌then◌else◌,
}

pub data HunkLineType : Type 0 where
  hunk_context hunk_added hunk_deleted : HunkLineType

pub record HunkLine : Type 0 where
  pub kind : HunkLineType
  pub content : Text

pub record Hunk : Type 0 where
  pub old_start : ℕ
  pub old_count : ℕ
  pub new_start : ℕ
  pub new_count : ℕ
  pub lines : List HunkLine

abbrev pub max_int : ℕ
max_int = 2 ^ 63 - 1

-- strconv.Atoi on a text of digits, its error dropped: what is out of range reads as the largest
-- int.
unfoldable pub atoi_digits : Text → ℕ
unfolding digits_value
atoi_digits ds = min (digits_value 0 ds) max_int

abbrev at_least_one : Text × Text → Option (Text × Text)
at_least_one ([], rest) = none
at_least_one (d ∷ ds, rest) = some (d ∷ ds, rest)

-- (\d+)
pub number : Text → Option (Text × Text)
unfolding scan_digits
number s = at_least_one (scan_digits s)

-- (?:,(\d+))?, where the group that does not take part counts as 1.
pub count_of : Text → Option (ℕ × Text)
unfolding cut_prefix
count_of s = elim (cut_prefix (codes ",") s) [
  | none ↦ some (1, s)
  | some r ↦ elim (number r) [ none ↦ some (1, s) | some (ds, rest) ↦ some (atoi_digits ds, rest) ]
]

-- hunkHeaderRe and the reads of its groups: `^@@ -(\d+)(?:,(\d+))? \+(\d+)(?:,(\d+))? @@`.
unfoldable pub parse_header : Text → Option Hunk
unfolding cut_prefix
parse_header line = do
  s ← cut_prefix (codes "@@ -") line
  (old, s) ← number s
  (old_count, s) ← count_of s
  s ← cut_prefix (codes " +") s
  (new, s) ← number s
  (new_count, s) ← count_of s
  s ← cut_prefix (codes " @@") s
  some (record {
    old_start = atoi_digits old;
    old_count = old_count;
    new_start = atoi_digits new;
    new_count = new_count;
    lines = [];
  })

-- The `switch` on a line's marker.
unfoldable pub read_line : Text → HunkLine
read_line [] = record { kind = hunk_context; content = [] }
read_line (c ∷ s) =
    if c == b'+'
    then record { kind = hunk_added; content = s }
    else if c == b'-'
    then record { kind = hunk_deleted; content = s }
    else if c == b' '
    then record { kind = hunk_context; content = s }
    else record { kind = hunk_context; content = c ∷ s }

-- The closure `flush`; the caller sets or drops `current`.
unfoldable pub flush : List Hunk → Option Hunk → List Hunk
flush hunks none = hunks
flush hunks (some h) = hunks ++ h ∷ []

unfoldable pub add_line : Hunk → HunkLine → Hunk
add_line h l = record h { lines = h.lines ++ l ∷ [] }

-- One round of the loop that does not meet a header; `none` is the `break`.
unfoldable pub body_line : Text → Option Hunk → Option (Option Hunk)
unfolding has_prefix read_line add_line
body_line line none = some none
body_line line (some h) =
    if has_prefix line (codes "\\ No newline at end of file")
    then some (some h)
    else if has_prefix line (codes "diff --git ")
    then none
    else some (some (add_line h (read_line line)))

unfoldable pub parse_loop : List Text → List Hunk → Option Hunk → List Hunk
parse_loop [] hunks current = flush hunks current
parse_loop (line ∷ rest) hunks current = elim (parse_header line) [
  | some h ↦ parse_loop rest (flush hunks current) (some h)
  | none ↦ elim (body_line line current) [
    | none ↦ flush hunks current
    | some c ↦ parse_loop rest hunks c
  ]
]

unfoldable pub parse_hunks : Text → List Hunk
unfolding parse_loop parse_header number count_of atoi_digits body_line flush split_lines
parse_hunks raw_diff_text = parse_loop (split_lines raw_diff_text) [] none
