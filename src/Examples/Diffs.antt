-- ===== src/Examples/Diffs.antt =====
-- Tests and instances for the parser of diff texts.
use miu_cr.Base.{
  trim_left, trim_right, ◌≡◌, refl, true, false, Option, none, some, [], ◌∷◌, Text, codes, text_eq,
  trim_prefix, split_lines, join_lines,
}
use miu_cr.Finding.{Diff}
use miu_cr.DiffText.{parse_diff_header, parse_diff_text}
use miu_cr.DiffText.Complete.{AreSectionsBehind, parse_diff_text-AreSections}

-- In place of strconv.Unquote and of git.
abbrev no_unquote : Text → Option Text
no_unquote s = none

abbrev blob : Text → Text → Option Text
blob ref path = some (codes "b")

abbrev diff_text : Text
diff_text = join_lines (
    codes "noise"
    ∷ codes "diff --git a/x.go b/y.go"
    ∷ codes "rename from x.go"
    ∷ codes "+b"
    ∷ codes "diff --git a/z.go b/z.go"
    ∷ codes "+++ /dev/null"
    ∷ [])

abbrev first_diff : Diff
first_diff = record {
  old_path = codes "x.go";
  new_path = codes "y.go";
  diff = codes "diff --git a/x.go b/y.go\nrename from x.go\n+b";
  new_file_content = codes "b";
  ref = codes "HEAD";
  is_binary = false;
  is_new = false;
  is_deleted = false;
  is_renamed = true;
  insertions = 1;
  deletions = 0;
}

abbrev second_diff : Diff
second_diff = record {
  old_path = codes "z.go";
  new_path = codes "/dev/null";
  diff = codes "diff --git a/z.go b/z.go\n+++ /dev/null";
  new_file_content = [];
  ref = codes "HEAD";
  is_binary = false;
  is_new = false;
  is_deleted = true;
  is_renamed = false;
  insertions = 0;
  deletions = 0;
}

parse_test :
    parse_diff_text no_unquote blob (codes "HEAD") diff_text ≡ some (first_diff ∷ second_diff ∷ [])
unfolding parse_diff_text split_lines join_lines trim_prefix text_eq
parse_test = refl

-- A header of which git quotes one path only is not recognised.
header_test : parse_diff_header no_unquote (codes "diff --git \"a/\\303\" b/y.go") ≡ none
unfolding parse_diff_header
header_test = refl

-- Both paths are quoted.
quoted_header_test :
    parse_diff_header no_unquote (codes "diff --git \"a/x\" \"b/y\"") ≡ some (codes "x", codes "y")
unfolding parse_diff_header trim_prefix text_eq trim_left trim_right
quoted_header_test = refl

parse_diff_text-AreSections_example :
    AreSectionsBehind no_unquote blob
      (codes "HEAD")
      (first_diff ∷ second_diff ∷ [])
      (split_lines diff_text)
parse_diff_text-AreSections_example =
    parse_diff_text-AreSections no_unquote blob (codes "HEAD") diff_text
      (first_diff ∷ second_diff ∷ []) parse_test
