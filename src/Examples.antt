-- ===== src/Examples.antt =====
-- Concrete inputs on which the properties are applied.
mod Anchors
mod Ledgers
mod Follows
mod Budgets
mod Quotas
mod Approvals
mod Pools
mod Locks
mod Retries
mod Polls
mod Agents
mod Reviews
mod Replies
mod Diffs
mod Clearance
mod Suggestions
mod Gates
use miu_cr.Base.{ℕ, String, Bool, true, false, List, [], ◌∷◌, Text, codes, join_lines}
use miu_cr.Finding.{Finding, Diff}

abbrev finding_of : String → ℕ → String → Finding
finding_of quote line severity = record {
  file = codes "a.go";
  line = line;
  end_line = line;
  title = codes "unused";
  rule = [];
  severity = severity;
  category = codes "bug";
  rationale = codes "unused variable";
  suggested_patch = [];
  quoted_code = codes quote;
}

abbrev old_file : List Text
old_file = codes "a" ∷ codes "b" ∷ []

abbrev new_file : List Text
new_file = codes "a" ∷ codes "x := 1" ∷ codes "b" ∷ []

abbrev added_line : Diff
added_line = record {
  old_path = codes "a.go";
  new_path = codes "a.go";
  diff = join_lines (
      codes "diff --git a/a.go b/a.go"
      ∷ codes "@@ -1,2 +1,3 @@"
      ∷ codes " a"
      ∷ codes "+x := 1"
      ∷ codes " b"
      ∷ []);
  new_file_content = join_lines new_file;
  ref = [];
  is_binary = false;
  is_new = false;
  is_deleted = false;
  is_renamed = false;
  insertions = 1;
  deletions = 0;
}
