-- ===== src/Examples/Suggestions.antt =====
-- Tests and instances for suggestions and the repair of patches.
use miu_cr.Base.{
  ◌≡◌, ◌↔◌, refl, true, false, some, List, [], ◌∷◌, Text, codes, length, Pointwise, split_lines,
  join_lines, text_eq, trim_space, trim_prefix, has_prefix,
}
use miu_cr.Finding.{Finding, Diff, no_usage}
use miu_cr.Severity.{rank_of}
use miu_cr.Suggestion.{
  reason_ok, leading_whitespace, first_indent, rebase_patch_indentation, classify_replacement,
  classify_replacement_exported,
}
use miu_cr.Suggestion.Indent.{Rebased, rebase_patch_indentation-Rebased}
use miu_cr.Suggestion.Accept.{Accepted}
use miu_cr.Suggestion.Safe.{classify_replacement_iff}
use miu_cr.Repair.{RepairPatch, Stats, new_file_content, candidates_from, repair_patches}
use miu_cr.Repair.Bounds.{WithinLimit, repair_patches-WithinLimit}
use miu_cr.Repair.Guarantee.{Repaired, repair_patches-Repaired}

abbrev content : Text
content = codes "func f\n\treturn 1\n"

-- A finding on the second line whose patch is blank.
abbrev finding : Finding
finding = record {
  file = codes "a.go";
  line = 2;
  end_line = 0;
  title = [];
  rule = [];
  severity = "high";
  category = [];
  rationale = [];
  suggested_patch = codes "  ";
  quoted_code = codes "return 1";
}

abbrev patched : Finding
patched = record finding { suggested_patch = codes "return 2" }

classify_test : classify_replacement patched content ≡ (codes "\treturn 2", reason_ok)
unfolding classify_replacement text_eq trim_space join_lines split_lines trim_prefix has_prefix
classify_test = refl

classify_replacement_iff_example :
    (classify_replacement patched content ≡ (codes "\treturn 2", reason_ok))
    ↔ Accepted patched content (codes "\treturn 2")
classify_replacement_iff_example = classify_replacement_iff patched content (codes "\treturn 2")

rebase_test :
    rebase_patch_indentation (codes "if a\n  b") (codes "\tc") ≡ some (codes "\tif a\n\t  b")
unfolding rebase_patch_indentation text_eq split_lines trim_space has_prefix join_lines trim_prefix
rebase_test = refl

rebase_patch_indentation-Rebased_example :
    (lines : List Text) × (codes "\tif a\n\t  b" ≡ join_lines lines)
    × Pointwise
        (Rebased
          (first_indent (split_lines (codes "if a\n  b")))
          (leading_whitespace (codes "\tc")))
        (split_lines (codes "if a\n  b"))
        lines
rebase_patch_indentation-Rebased_example =
    rebase_patch_indentation-Rebased (codes "if a\n  b") (codes "\tc") (codes "\tif a\n\t  b")
      rebase_test

abbrev diff : Diff
diff = record {
  old_path = codes "a.go";
  new_path = codes "a.go";
  diff = [];
  new_file_content = content;
  ref = [];
  is_binary = false;
  is_new = false;
  is_deleted = false;
  is_renamed = false;
  insertions = 0;
  deletions = 0;
}

abbrev repair : RepairPatch
repair n r = record { text = codes "return 2"; usage = no_usage; failed = false }

-- The blank patch is replaced by the agent's.
repair_test :
    (repair_patches true
      (some repair)
      (some classify_replacement_exported)
      0
      (finding ∷ [])
      (diff ∷ [])).kept
    ≡ patched ∷ []
unfolding repair_patches classify_replacement_exported rank_of trim_space join_lines has_prefix
    trim_prefix
repair_test = refl

repair_patches-WithinLimit_example :
    let out =
      repair_patches true
        (some repair)
        (some classify_replacement_exported)
        0
        (finding ∷ [])
        (diff ∷ []) in
    let all = new_file_content (λ q. []) (diff ∷ []) in
    (length out.kept ≡ 1)
    × ((s : Stats) × (out.stats ≡ some s)
        × WithinLimit (candidates_from classify_replacement_exported all 0 (finding ∷ [])) 0 s)
repair_patches-WithinLimit_example =
    repair_patches-WithinLimit repair classify_replacement_exported 0 (finding ∷ []) (diff ∷ [])

repair_patches-Repaired_example :
    Pointwise
      (Repaired (new_file_content (λ q. []) (diff ∷ [])))
      (finding ∷ [])
      (repair_patches true
        (some repair)
        (some classify_replacement_exported)
        0
        (finding ∷ [])
        (diff ∷ [])).kept
repair_patches-Repaired_example =
    repair_patches-Repaired true (some repair) 0 (finding ∷ []) (diff ∷ [])
