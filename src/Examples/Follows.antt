-- ===== src/Examples/Follows.antt =====
-- Tests and instances for anchors carried over follow-up commits.
use miu_cr.Base.{List, ◌++◌, ◌≡◌, refl, subst, [], ◌∷◌, codes, join_lines, is_digit}
use miu_cr.Finding.{Diff}
use miu_cr.Hunk.{hunk_context, hunk_added, Hunk, parse_hunks}
use miu_cr.Ledger.{LedgerEntry}
use miu_cr.Shift.Edits.{Edits}
use miu_cr.Stable.{remap_anchor}
use miu_cr.Stable.Remap.{FirstFor, Replaces, Follows, remap_anchor-Follows}
use miu_cr.Examples.{added_line, old_file, new_file}

abbrev row : LedgerEntry
row = record {
  fp = codes "f";
  path = codes "a.go";
  line = 2;
  title = [];
  category = [];
  status = "open";
  sev = "low";
  first_sev = "low";
  open_sha = [];
  res_sha = [];
  res_kind = "";
  note = [];
  first_at = [];
  res_at = [];
  reopens = 0;
}

abbrev the_hunk : Hunk
the_hunk = record {
  old_start = 1;
  old_count = 2;
  new_start = 1;
  new_count = 3;
  lines =
      record { kind = hunk_context; content = codes "a" }
      ∷ record { kind = hunk_added; content = codes "x := 1" }
      ∷ record { kind = hunk_context; content = codes "b" }
      ∷ [];
}

parsed_test : the_hunk ∷ [] ≡ parse_hunks added_line.diff
unfolding parse_hunks join_lines is_digit
parsed_test = refl

added_line-Edits : Edits 0 0 (parse_hunks added_line.diff) old_file new_file
added_line-Edits =
    subst (λ hs. Edits 0 0 hs old_file new_file) parsed_test
      (Edits.hunk 0 0 [] the_hunk [] [] [] refl refl refl refl (Edits.rest 2 3 []))

only_diff :
    (before after : List Diff) (d : Diff) → added_line ∷ [] ≡ before ++ d ∷ after → added_line ≡ d
only_diff [] after d h = cc
only_diff (x ∷ []) after d h = cc
only_diff (x ∷ y ∷ before) after d h = cc

edits :
    (d : Diff)
    → FirstFor row.path (added_line ∷ []) d
    → ¬ Replaces d
    → Edits 0 0 (parse_hunks d.diff) old_file new_file
edits d first stays =
    subst (λ x. Edits 0 0 (parse_hunks x.diff) old_file new_file)
      (only_diff first.before first.after d first.parts) added_line-Edits

remap_anchor-Follows_example :
    Follows row (added_line ∷ []) new_file (codes "b") (remap_anchor row (added_line ∷ []))
remap_anchor-Follows_example =
    remap_anchor-Follows row (added_line ∷ []) old_file new_file 1 (codes "b") refl refl edits
