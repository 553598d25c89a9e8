-- ===== src/Suggestion.antt =====
-- Which patches become one-click suggestions, and their text: internal/github/suggest.go.
pub mod Indent
pub mod Accept
pub mod Safe
use miu_cr.Base.{
  has_suffix, trim_suffix, ◌>>=◌, ℕ, zero, suc, ◌+◌, ◌-◌, ◌≡◌, String, Bool, true, false, not, ◌&&◌,
  ◌||◌, Option, none, some, List, [], ◌∷◌, ◌++◌, map, Text, codes, text_eq, trim_left, trim_right,
  trim_space, trim_prefix, has_prefix, split_lines, join_lines, trim_cr, length, take, drop, ltb,
  ◌==◌, if◌then◌else◌,
}
use miu_cr.Finding.{Finding}
use miu_cr.Severity.{max_severity_rank}

abbrev suggestion_severity_floor : String
suggestion_severity_floor = "medium"

unfoldable pub severity_rank_of : String → ℕ
severity_rank_of sev = max_severity_rank (sev ∷ [])

unfoldable pub meets_suggestion_floor : String → Bool
unfolding severity_rank_of
meets_suggestion_floor sev =
    not (ltb (severity_rank_of sev) (severity_rank_of suggestion_severity_floor))

pub data RepairReason : Type 0 where
  reason_ok reason_no_anchor reason_out_of_range reason_empty reason_no_op : RepairReason
  reason_anchor_mismatch reason_garbled_span reason_length_mismatch reason_indent_mismatch :
      RepairReason

-- RepairReason.String
unfoldable pub reason_string : RepairReason → String
reason_string reason_ok = "ok"
reason_string reason_no_anchor = "no_anchor"
reason_string reason_out_of_range = "out_of_range"
reason_string reason_empty = "empty"
reason_string reason_no_op = "no_op"
reason_string reason_anchor_mismatch = "anchor_mismatch"
reason_string reason_garbled_span = "garbled_span"
reason_string reason_length_mismatch = "length_mismatch"
reason_string reason_indent_mismatch = "indent_mismatch"

unfoldable pub repairable : RepairReason → Bool
repairable reason_empty = true
repairable reason_no_op = true
repairable reason_length_mismatch = true
repairable _ = false

unfoldable pub normalize_line : Text → Text
normalize_line s = trim_space (trim_prefix (trim_prefix (trim_space s) (codes "+")) (codes "-"))

-- strings.ReplaceAll(s, "\r\n", "\n")
unfoldable pub replace_crlf : Text → Text
replace_crlf [] = []
replace_crlf (c ∷ s) =
    let rest = replace_crlf s in if c == 13 && has_prefix s (codes "\n") then rest else c ∷ rest

abbrev pub is_blank : ℕ → Bool
is_blank c = c == 32 || c == 9

abbrev is_blank_or_cr : ℕ → Bool
is_blank_or_cr c = is_blank c || c == 13

unfoldable pub leading_whitespace : Text → Text
unfolding trim_suffix
leading_whitespace line = trim_suffix line (trim_left is_blank line)

unfoldable pub clean_suggested_patch : Text → Text
unfolding replace_crlf
clean_suggested_patch patch =
    let lines = split_lines (replace_crlf patch) in
    trim_right (λ c. c == 10) (join_lines (map (trim_right is_blank_or_cr) lines))

-- The loop that finds the first line that is not blank; "" when there is none.
unfoldable pub first_indent : List Text → Text
unfolding leading_whitespace
first_indent [] = []
first_indent (line ∷ lines) = elim (trim_space line) [
  | [] ↦ first_indent lines
  | c ∷ s ↦ leading_whitespace line
]

-- The body of the second loop, on a line that is not empty.
unfoldable pub rebased_indent : Text → Text → Text → Option Text
unfolding has_suffix trim_suffix
rebased_indent patch_indent anchor_indent indent =
    let removed = trim_prefix patch_indent indent in
    if has_prefix indent patch_indent
    then some (anchor_indent ++ trim_prefix indent patch_indent)
    else if has_prefix patch_indent indent && has_suffix anchor_indent removed
    then some (trim_suffix anchor_indent removed)
    else none

unfoldable pub rebase_line : Text → Text → Text → Option Text
unfolding rebased_indent leading_whitespace
rebase_line patch_indent anchor_indent [] = some []
rebase_line patch_indent anchor_indent (c ∷ s) =
    let indent = leading_whitespace (c ∷ s) in
    do
      rebased ← rebased_indent patch_indent anchor_indent indent
      some (rebased ++ trim_prefix (c ∷ s) indent)

unfoldable pub rebase_lines : Text → Text → List Text → Option (List Text)
unfolding rebase_line
rebase_lines patch_indent anchor_indent [] = some []
rebase_lines patch_indent anchor_indent (line ∷ lines) = do
  l ← rebase_line patch_indent anchor_indent line
  ls ← rebase_lines patch_indent anchor_indent lines
  some (l ∷ ls)

unfoldable pub rebase_patch_indentation : Text → Text → Option Text
unfolding first_indent leading_whitespace rebase_lines
rebase_patch_indentation patch raw_anchor =
    let lines = split_lines patch in
    let patch_indent = first_indent lines in
    let anchor_indent = leading_whitespace raw_anchor in
    if text_eq patch_indent anchor_indent
    then some patch
    else do ls ← rebase_lines patch_indent anchor_indent lines; some (join_lines ls)

-- The loop over `span` against `quoted`, of one length.
unfoldable pub lines_match : List Text → List Text → Bool
unfolding normalize_line
lines_match [] quoted = true
lines_match (line ∷ span) [] = false
lines_match (line ∷ span) (q ∷ quoted) =
    text_eq (normalize_line line) (normalize_line q) && lines_match span quoted

-- lines[from:to], each without its carriage returns
unfoldable pub raw_span : List Text → ℕ → ℕ → List Text
raw_span lines from to = map trim_cr (take (to - from) (drop from lines))

-- The end of both functions: the patch moved to the indentation of the first anchored line.
unfoldable pub rebased_or : Text → Text → Text × RepairReason
unfolding rebase_patch_indentation
rebased_or patch raw_anchor = elim (rebase_patch_indentation patch raw_anchor) [
  | none ↦ ([], reason_indent_mismatch)
  | some rebased ↦ (rebased, reason_ok)
]

-- The span[0] of a span that is not empty.
abbrev pub first_line : List Text → Text
first_line [] = []
first_line (line ∷ span) = line

unfoldable pub classify_multi_line_replacement : Finding → Text → Text × RepairReason
unfolding clean_suggested_patch replace_crlf lines_match raw_span rebased_or
classify_multi_line_replacement f new_file_content =
    let patch = clean_suggested_patch f.suggested_patch in
    let raw = split_lines new_file_content in
    let span = raw_span raw (f.line - 1) f.end_line in
    let quoted = split_lines (replace_crlf f.quoted_code) in
    let trimmed = map trim_space (split_lines (trim_space patch)) in
    if text_eq (trim_space patch) []
    then ([], reason_empty)
    else if ltb (length raw) f.end_line
    then ([], reason_out_of_range)
    else if not (length quoted == length span)
    then ([], reason_length_mismatch)
    else if not (lines_match span quoted)
    then ([], reason_anchor_mismatch)
    else if text_eq (join_lines (map trim_space span)) (join_lines trimmed)
    then ([], reason_no_op)
    else rebased_or patch (first_line span)

-- The part of `classifyReplacement` for one line.
unfoldable pub classify_single_line_replacement : Finding → Text → Text × RepairReason
unfolding clean_suggested_patch normalize_line raw_span rebased_or
classify_single_line_replacement f new_file_content =
    let patch = clean_suggested_patch f.suggested_patch in
    let lines = split_lines new_file_content in
    let raw_line = first_line (raw_span lines (f.line - 1) f.line) in
    if text_eq (trim_space patch) []
    then ([], reason_empty)
    else if ltb (length lines) f.line
    then ([], reason_out_of_range)
    else if not (text_eq (normalize_line raw_line) (normalize_line f.quoted_code))
    then ([], reason_anchor_mismatch)
    else if text_eq (trim_space raw_line) (trim_space patch)
    then ([], reason_no_op)
    else rebased_or patch raw_line

unfoldable pub classify_replacement : Finding → Text → Text × RepairReason
unfolding classify_multi_line_replacement classify_single_line_replacement
classify_replacement f new_file_content =
    if f.line == 0
    then ([], reason_no_anchor)
    else if ltb f.line f.end_line
    then classify_multi_line_replacement f new_file_content
    else if not (f.end_line == 0) && not (f.end_line == f.line)
    then ([], reason_garbled_span)
    else classify_single_line_replacement f new_file_content

abbrev is_ok : RepairReason → Bool
is_ok reason_ok = true
is_ok _ = false

unfoldable pub is_clean_replacement : Finding → Text → Text × Bool
unfolding classify_replacement
is_clean_replacement f new_file_content =
    let (s, r) = classify_replacement f new_file_content in (s, is_ok r)

-- ClassifyReplacement, the form in which the engine gets it.
unfoldable pub classify_replacement_exported : Finding → Text → Text × String × Bool
unfolding classify_replacement reason_string repairable
classify_replacement_exported f new_file_content =
    let (p, r) = classify_replacement f new_file_content in (p, reason_string r, repairable r)
