-- ===== src/Examples/Anchors.antt =====
-- Tests and instances for hunks, anchoring, the second pass and the report.
use miu_cr.Base.{
  any, ◌+◌, ◌≤◌, ◌≡◌, refl, true, false, none, some, List, [], ◌∷◌, ◌++◌, arith, map, codes,
  split_lines, join_lines, is_digit, text_eq, All, Pointwise, length,
}
use miu_cr.Finding.{Finding, no_usage}
use miu_cr.Hunk.{hunk_context, hunk_added, Hunk, parse_header, parse_hunks}
use miu_cr.Hunk.Render.{render_hunks}
use miu_cr.Hunk.RoundTrip.{IsPreamble, IsPrintableWith, hunks_of, parse_hunks-render}
use miu_cr.Anchor.{
  IndexedLine, split_and_normalize, match_consecutive, extract_side_lines, on_side, normalize_line,
  file_lines, resolve_finding, resolve_line_numbers, clear_lines, by_path,
}
use miu_cr.Anchor.Sides.{FitsHunk}
use miu_cr.Anchor.Points.{PointsAtQuote, resolve_finding-PointsAtQuote, resolve_finding_complete}
use miu_cr.Anchor.Lines.{resolve_line_numbers-clear_lines}
use miu_cr.Dedupe.{dedupe}
use miu_cr.Dedupe.Report.{IsPlain, same, SaysOnce, IsInOrder, dedupe-IsReport}
use miu_cr.Recovery.{Relocate, candidates_from, recover_anchors}
use miu_cr.Recovery.Bounds.{recover_anchors-bounds}
use miu_cr.Recovery.Guarantee.{IsExact, recover_anchors-IsExact}
use miu_cr.Recovery.Untouched.{Change, recover_anchors-Change}
use miu_cr.Examples.{finding_of, old_file, added_line}

abbrev added_hunk : Hunk
added_hunk = record {
  old_start = 1;
  old_count = 2;
  new_start = 1;
  new_count = 3;
  lines =
      record { kind = hunk_context; content = codes "a" }
      ∷ record { kind = hunk_added; content = codes "x := 1" }
      ∷ record { kind = hunk_context; content = codes "b" }
      ∷ [];
}

parse_hunks_test : parse_hunks added_line.diff ≡ added_hunk ∷ []
unfolding parse_hunks join_lines is_digit
parse_hunks_test = refl

resolve_finding_test : (resolve_finding (finding_of "x := 1" 9 "high") added_line).0.line ≡ 2
unfolding resolve_finding parse_hunks join_lines is_digit match_consecutive extract_side_lines
    text_eq
resolve_finding_test = refl

is_resolved_test : (resolve_finding (finding_of "x := 1" 9 "high") added_line).1 ≡ true
unfolding resolve_finding parse_hunks join_lines is_digit match_consecutive extract_side_lines
    text_eq
is_resolved_test = refl

is_preamble : All IsPreamble (codes "diff --git a/a.go b/a.go" ∷ [])
unfolding parse_header
is_preamble = ground arith

is_printable : All IsPrintableWith ((added_hunk, codes " f") ∷ [])
is_printable = (
  (
    record {
      old_start_fits = omega arith;
      old_count_fits = omega arith;
      new_start_fits = omega arith;
      new_count_fits = omega arith;
      contents = ground arith;
    },
    ground arith,
  ),
  tt,
)

added_line-FitsHunk :
    All (FitsHunk old_file (split_lines added_line.new_file_content)) (parse_hunks added_line.diff)
unfolding parse_hunks join_lines is_digit on_side split_lines
added_line-FitsHunk =
    (record { new_stands = (refl, (refl, (refl, tt))); old_stands = (refl, (refl, tt)) }, tt)

parse_hunks-render_example :
    parse_hunks (
      join_lines
        (codes "diff --git a/a.go b/a.go" ∷ [] ++ render_hunks ((added_hunk, codes " f") ∷ [])))
    ≡ hunks_of ((added_hunk, codes " f") ∷ [])
parse_hunks-render_example =
    parse_hunks-render (codes "diff --git a/a.go b/a.go") [] ((added_hunk, codes " f") ∷ [])
      is_preamble is_printable

abbrev side : List IndexedLine
side =
    record { line_num = 1; content = codes "a" }
    ∷ record { line_num = 2; content = codes "b" }
    ∷ record { line_num = 3; content = codes "b" }
    ∷ []

match_consecutive_test : match_consecutive side (codes "b" ∷ []) ≡ some (2, 2)
unfolding match_consecutive text_eq
match_consecutive_test = refl

resolve_finding-PointsAtQuote_example :
    PointsAtQuote old_file
      (split_lines added_line.new_file_content)
      (resolve_finding (finding_of "x := 1" 9 "high") added_line).0
resolve_finding-PointsAtQuote_example =
    resolve_finding-PointsAtQuote (finding_of "x := 1" 9 "high") added_line old_file
      added_line-FitsHunk is_resolved_test

file_lines_test :
    file_lines 0 (split_lines added_line.new_file_content)
    ≡ (record { line_num = 1; content = codes "a" } ∷ [])
      ++ ((record { line_num = 2; content = codes "x := 1" } ∷ [])
          ++ (record { line_num = 3; content = codes "b" } ∷ []))
unfolding file_lines join_lines split_lines normalize_line
file_lines_test = refl

quote_test : split_and_normalize (codes "x := 1") ≡ codes "x := 1" ∷ []
unfolding split_and_normalize
quote_test = refl

resolve_finding_complete_example :
    (resolve_finding (finding_of "x := 1" 0 "high") added_line).1 ≡ true
resolve_finding_complete_example =
    resolve_finding_complete (finding_of "x := 1" 0 "high") added_line
      (record { line_num = 1; content = codes "a" } ∷ [])
      (record { line_num = 2; content = codes "x := 1" } ∷ [])
      (record { line_num = 3; content = codes "b" } ∷ []) (codes "x := 1") [] file_lines_test refl
      quote_test

abbrev found : List Finding
found = finding_of "x := 1" 9 "high" ∷ finding_of "y := 2" 4 "critical" ∷ []

resolve_line_numbers-clear_lines_example :
    (resolve_line_numbers (map clear_lines found) (added_line ∷ [])
      ≡ resolve_line_numbers found (added_line ∷ []))
    × (map clear_lines (resolve_line_numbers found (added_line ∷ [])) ≡ map clear_lines found)
resolve_line_numbers-clear_lines_example = resolve_line_numbers-clear_lines found added_line []

-- An agent that finds the line again, at a cost of no tokens.
abbrev relocate : Relocate
relocate n r = record { text = codes "x := 1"; usage = no_usage; failed = false }

recover_anchors-IsExact_example :
    All
      (IsExact (added_line ∷ []))
      (recover_anchors true
        (some relocate)
        (some resolve_line_numbers)
        (resolve_line_numbers found (added_line ∷ []))
        (added_line ∷ [])).anchored
recover_anchors-IsExact_example = recover_anchors-IsExact true (some relocate) found added_line []

recover_anchors-bounds_example :
    let st =
      recover_anchors true (some relocate) (some resolve_line_numbers) found (added_line ∷ []) in
    (st.out.attempted ≤ 3)
    × (st.out.attempted + st.out.skipped_cap
        ≡ length (candidates_from (by_path (λ q. none) (added_line ∷ [])) 0 found))
    × (st.out.recovered ≤ st.out.attempted)
    × (length st.trace ≡ st.out.attempted)
    × (length st.anchored ≡ length found)
recover_anchors-bounds_example =
    recover_anchors-bounds relocate resolve_line_numbers found (added_line ∷ [])

recover_anchors-Change_example :
    Pointwise Change found
      (recover_anchors true
        (some relocate)
        (some resolve_line_numbers)
        found
        (added_line ∷ [])).anchored
recover_anchors-Change_example =
    recover_anchors-Change true (some relocate) (some resolve_line_numbers) found (added_line ∷ [])

abbrev twice : List Finding
twice = finding_of "x := 1" 2 "high" ∷ finding_of "x := 1" 2 "high" ∷ finding_of "b" 1 "low" ∷ []

twice-IsPlain : All IsPlain twice
twice-IsPlain = ((refl, refl), ((refl, refl), ((refl, refl), tt)))

dedupe-IsReport_example :
    (any (same (λ t. t) (finding_of "b" 1 "low")) (dedupe (λ t. t) twice)
      ≡ any (same (λ t. t) (finding_of "b" 1 "low")) twice)
    × SaysOnce (λ t. t) (dedupe (λ t. t) twice)
    × IsInOrder (dedupe (λ t. t) twice)
dedupe-IsReport_example =
    dedupe-IsReport (λ t. t) twice (finding_of "b" 1 "low") twice-IsPlain twice-IsPlain.1.1.0
