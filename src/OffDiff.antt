-- ===== src/OffDiff.antt =====
-- Findings outside the changed lines: internal/github/offdiff.go, and hunkRightSets of
-- internal/github/publish.go.
use miu_cr.Base.{
  ℕ, suc, ◌+◌, ◌-◌, String, Bool, false, not, ◌&&◌, ◌||◌, Option, none, some, List, [], ◌∷◌, ◌++◌,
  Text, text_eq, str_eq, any, modify, ltb, ◌==◌, if◌then◌else◌,
}
use miu_cr.Finding.{Finding, Diff}
use miu_cr.Hunk.{hunk_context, hunk_added, hunk_deleted, HunkLine, Hunk, parse_hunks}
use miu_cr.Anchor.{is_text}
use miu_cr.Ledger.{LedgerEntry, fingerprint, severity_label, index_from}
use miu_cr.Stable.{dev_null}

-- The lines that a hunk shows on the new side, from the line `n` on.
unfoldable pub right_lines : ℕ → List HunkLine → List ℕ
right_lines n [] = []
right_lines n (l ∷ ls) = elim l.kind [
  | hunk_context ↦ n ∷ right_lines (suc n) ls
  | hunk_added ↦ n ∷ right_lines (suc n) ls
  | hunk_deleted ↦ right_lines n ls
]

unfoldable pub hunks_right_lines : List Hunk → List ℕ
unfolding right_lines
hunks_right_lines [] = []
hunks_right_lines (h ∷ hs) = right_lines h.new_start h.lines ++ hunks_right_lines hs

unfoldable pub right_side_lines : Diff → List ℕ
unfolding hunks_right_lines
right_side_lines d = hunks_right_lines (parse_hunks d.diff)

-- Whether some set of `hunkRightSets` for the path holds the line.
unfoldable pub in_right_sets : Text → ℕ → List Diff → Bool
unfolding right_side_lines
in_right_sets path line [] = false
in_right_sets path line (d ∷ ds) =
    (is_text d.new_path
      && not (text_eq d.new_path dev_null)
      && text_eq d.new_path path
      && any (λ n. n == line) (right_side_lines d))
    || in_right_sets path line ds

unfoldable pub finding_on_changed_line : Finding → List Diff → Bool
unfolding in_right_sets
finding_on_changed_line f diffs =
    not (f.line == 0) && is_text f.file && in_right_sets f.file f.line diffs

unfoldable pub file_in_diff : Text → List Diff → Bool
file_in_diff path diffs = is_text path && any (λ d. text_eq d.new_path path) diffs

pub data Disposition : Type 0 where
  off_diff_inline off_diff_thread off_diff_noise : Disposition

abbrev abs_diff : ℕ → ℕ → ℕ
abs_diff a b = (a - b) + (b - a)

-- The loop of `nearestInFile` over its variable `best`.
unfoldable pub nearest_line : ℕ → ℕ → List ℕ → ℕ
nearest_line line best [] = best
nearest_line line best (n ∷ ns) =
    nearest_line line (if ltb (abs_diff n line) (abs_diff best line) then n else best) ns

abbrev nearest_of : ℕ → List ℕ → Option ℕ
nearest_of line [] = none
nearest_of line (n ∷ ns) = some (nearest_line line n ns)

unfoldable pub nearest_in_file : Text → ℕ → List Diff → Option ℕ
unfolding nearest_line right_side_lines
nearest_in_file path line [] = none
nearest_in_file path line (d ∷ ds) =
    let rest = nearest_in_file path line ds in
    if not (text_eq d.new_path path) then rest else nearest_of line (right_side_lines d)

abbrev head_or : List ℕ → Text → Option (Text × ℕ) → Option (Text × ℕ)
head_or [] path rest = rest
head_or (n ∷ ns) path rest = some (path, n)

-- The loop of `NearestAnchor` over the other files.
unfoldable pub first_anchor : Text → List Diff → Option (Text × ℕ)
unfolding right_side_lines
first_anchor file [] = none
first_anchor file (d ∷ ds) =
    let rest = first_anchor file ds in
    if not (is_text d.new_path) || text_eq d.new_path dev_null || text_eq d.new_path file
    then rest
    else head_or (right_side_lines d) d.new_path rest

unfoldable pub nearest_anchor : Finding → List Diff → Option (Text × ℕ)
unfolding nearest_in_file first_anchor
nearest_anchor f diffs = elim (nearest_in_file f.file f.line diffs) [
  | some line ↦ some (f.file, line)
  | none ↦ first_anchor f.file diffs
]

module _ (lower_trim : String → String) where
  unfoldable pub classify_off_diff : Finding → List Diff → Disposition
  unfolding finding_on_changed_line file_in_diff severity_label
  classify_off_diff f diffs =
      if finding_on_changed_line f diffs
      then off_diff_inline
      else if not (file_in_diff f.file diffs)
          && str_eq (severity_label (λ t. t) lower_trim f.severity) "info"
      then off_diff_noise
      else off_diff_thread

-- The `switch` on the disposition, for the row of the finding.
unfoldable pub dispose : Disposition → LedgerEntry → LedgerEntry
dispose d e = if str_eq e.status "deferred" || str_eq e.status "resolved" then e else elim d [
  | off_diff_noise ↦
      if str_eq e.status "open" || str_eq e.status "reopened"
      then record e { status = "irrelevant"; note = [] }
      else e
  | off_diff_inline ↦
      if str_eq e.status "irrelevant" then record e { status = "open"; note = [] } else e
  | off_diff_thread ↦
      if str_eq e.status "irrelevant" then record e { status = "open"; note = [] } else e
]

abbrev dispose_at : Option ℕ → Disposition → List LedgerEntry → List LedgerEntry
dispose_at none d es = es
dispose_at (some i) d es = modify i (dispose d) es

module _ (sha256 : Text → Text) (lower_trim : String → String) where
  -- The loop over the findings; the map of indices stays as it is.
  unfoldable pub dispose_loop :
      (Text → Option ℕ) → List Diff → List LedgerEntry → List Finding → List LedgerEntry
  unfolding dispose classify_off_diff fingerprint
  dispose_loop idx diffs out [] = out
  dispose_loop idx diffs out (f ∷ fs) =
      dispose_loop idx diffs
        (dispose_at (idx (fingerprint sha256 f)) (classify_off_diff lower_trim f diffs) out) fs

  unfoldable pub apply_off_diff_disposition :
      List LedgerEntry → List Finding → List Diff → List LedgerEntry
  unfolding dispose_loop index_from
  apply_off_diff_disposition entries fs diffs =
      dispose_loop (index_from (λ q. none) 0 entries) diffs entries fs
