-- ===== src/DiffText.antt =====
-- Splitting the output of git into the diffs of files: internal/engine/diff/parser.go.
pub mod Complete
pub mod Headers
use miu_cr.Base.{
  ◌>>=◌, ℕ, zero, suc, Bool, true, false, not, ◌&&◌, ◌||◌, Option, none, some, List, [], ◌∷◌, ◌++◌,
  Text, codes, text_eq, cut_prefix, has_prefix, has_suffix, trim_prefix, trim_left, trim_right,
  split_lines, join_lines, any, ◌==◌, if◌then◌else◌,
}
use miu_cr.Finding.{Diff}

abbrev after_char : ℕ → Text × Text → Option (Text × Text)
after_char c (before, after) = some (c ∷ before, after)

-- What follows a separator, unless nothing does.
abbrev pub rest_after : Text → Text → Option Text
rest_after separator s = elim (cut_prefix separator s) [
  | none ↦ none
  | some [] ↦ none
  | some (c ∷ r) ↦ some (c ∷ r)
]

-- (.+?) b/(.+)$
unfoldable pub lazy_split : Text → Option (Text × Text)
unfolding cut_prefix
lazy_split [] = none
lazy_split (c ∷ s) =
    let later = lazy_split s in
    elim (rest_after (codes " b/") s) [ some r ↦ some (c ∷ [], r) | none ↦ later >>= after_char c ]

abbrev pub quote : ℕ
quote = 34

-- `" "b/`, something, `"` at the end: the second group.
unfoldable pub second_quoted : Text → Option Text
unfolding cut_prefix has_suffix
second_quoted s = do
  r ← cut_prefix (quote ∷ codes " ") s
  rest ← rest_after (quote ∷ codes "b/") r
  (if has_suffix rest (quote ∷ []) then some r else none)

-- .*") ("b/.*")$ with the longest first group.
unfoldable pub greedy_split : Text → Option (Text × Text)
unfolding second_quoted
greedy_split [] = none
greedy_split (c ∷ s) =
    let later = greedy_split s >>= after_char c in
    elim later [
      | some m ↦ some m
      | none ↦ elim (second_quoted (c ∷ s)) [ none ↦ none | some r ↦ some (quote ∷ [], r) ]
    ]

-- `unquote` is strconv.Unquote.
module _ (unquote : Text → Option Text) where
  unfoldable pub unquote_git_path : Text → Text
  unquote_git_path quoted = elim (unquote quoted) [
    | some s ↦ s
    | none ↦ trim_right (λ c. c == quote) (trim_left (λ c. c == quote) quoted)
  ]

  -- The quoted form, diffHeaderQuotedRe.
  unfoldable pub parse_quoted_header : Text → Option (Text × Text)
  unfolding greedy_split unquote_git_path
  parse_quoted_header line = do
    s ← cut_prefix (codes "diff --git " ++ (quote ∷ codes "a/")) line
    (old, new) ← greedy_split s
    some (
      trim_prefix (unquote_git_path (quote ∷ (codes "a/" ++ old))) (codes "a/"),
      trim_prefix (unquote_git_path new) (codes "b/"),
    )

  unfoldable pub parse_diff_header : Text → Option (Text × Text)
  unfolding lazy_split parse_quoted_header
  parse_diff_header line = elim (cut_prefix (codes "diff --git a/") line >>= lazy_split) [
    | some m ↦ some m
    | none ↦ parse_quoted_header line
  ]

unfoldable pub is_binary_marker : Text → Bool
unfolding has_prefix has_suffix
is_binary_marker line =
    not (has_prefix line (codes "+") || has_prefix line (codes "-") || has_prefix line (codes " "))
    && has_prefix line (codes "Binary files ")
    && has_suffix line (codes " differ")

-- The `switch` on a line of the current file.
unfoldable pub note_line : Text → Diff → Diff
unfolding is_binary_marker has_prefix trim_prefix text_eq
note_line line d =
    if is_binary_marker line
    then record d { is_binary = true }
    else if has_prefix line (codes "new file mode ")
    then record d { is_new = true }
    else if has_prefix line (codes "deleted file mode ")
    then record d { is_deleted = true }
    else if has_prefix line (codes "rename from ")
    then record d { old_path = trim_prefix line (codes "rename from "); is_renamed = true }
    else if has_prefix line (codes "rename to ")
    then record d { new_path = trim_prefix line (codes "rename to "); is_renamed = true }
    else if text_eq line (codes "--- /dev/null")
    then record d { is_new = true }
    else if text_eq line (codes "+++ /dev/null")
    then record d { is_deleted = true }
    else if has_prefix line (codes "+") && not (has_prefix line (codes "+++"))
    then record d { insertions = suc d.insertions }
    else if has_prefix line (codes "-") && not (has_prefix line (codes "---"))
    then record d { deletions = suc d.deletions }
    else d

unfoldable pub new_diff : Text → Text → Diff
new_diff old new = record {
  old_path = old;
  new_path = new;
  diff = [];
  new_file_content = [];
  ref = [];
  is_binary = false;
  is_new = false;
  is_deleted = false;
  is_renamed = false;
  insertions = 0;
  deletions = 0;
}

abbrev content_or_empty : Option Text → Text
content_or_empty none = []
content_or_empty (some s) = s

-- `show_blob` is the runner's ShowBlob in the repository, `none` for its error.
module _ (unquote : Text → Option Text) (show_blob : Text → Text → Option Text) (ref : Text) where
  unfoldable pub finalize_diff : Diff → Diff
  unfolding text_eq
  finalize_diff d =
      if d.is_deleted || text_eq d.new_path (codes "/dev/null")
      then record d { ref = ref; new_path = codes "/dev/null" }
      else if d.is_binary
      then record d { ref = ref }
      else record d { ref = ref; new_file_content = content_or_empty (show_blob ref d.new_path) }

  -- The closure `flush`; the buffer is the list of its lines, each of which ends in a newline, so
  -- the text without the last newline is the lines joined.
  unfoldable pub flush : Option (Diff × List Text) → List Diff
  unfolding finalize_diff
  flush none = []
  flush (some (d, buf)) = finalize_diff (record d { diff = join_lines buf }) ∷ []

  -- A line of the current file, if there is one.
  unfoldable pub add_to : Text → Option (Diff × List Text) → Option (Diff × List Text)
  unfolding note_line
  add_to line none = none
  add_to line (some (d, buf)) = some (note_line line d, buf ++ line ∷ [])

  unfoldable pub parse_loop : Option (Diff × List Text) → List Text → List Diff
  unfolding flush add_to parse_diff_header new_diff
  parse_loop current [] = flush current
  parse_loop current (line ∷ lines) = elim (parse_diff_header unquote line) [
    | some (old, new) ↦
        flush current ++ parse_loop (add_to line (some (new_diff old new, []))) lines
    | none ↦ parse_loop (add_to line current) lines
  ]

  -- `none` is the error for the diff of a merge.
  unfoldable pub parse_diff_text : Text → Option (List Diff)
  unfolding parse_loop has_prefix
  parse_diff_text diff_text =
      let lines = split_lines diff_text in
      if any
        (λ line. has_prefix line (codes "diff --cc ") || has_prefix line (codes "diff --combined "))
        lines
      then none
      else some (parse_loop none lines)
