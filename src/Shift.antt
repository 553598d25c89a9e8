-- ===== src/Shift.antt =====
-- Where a prior anchor sits after follow-up commits: internal/github/stable_line.go and
-- internal/github/stable_anchor.go.
pub mod Edits
pub mod Follows
use miu_cr.Base.{
  ℕ, zero, suc, ◌+◌, ◌-◌, String, Bool, true, false, ◌&&◌, ◌||◌, not, Option, none, some, List, [],
  ◌∷◌, ◌++◌, str_eq, Text, codes, text_eq, ltb, leb, ◌==◌, if◌then◌else◌,
}
use miu_cr.Finding.{Diff}
use miu_cr.Hunk.{HunkLineType, hunk_context, hunk_added, hunk_deleted, HunkLine, Hunk, parse_hunks}

-- The walk through the hunk that holds the line, over its counters: `none` when it runs out.
unfoldable pub walk_hunk : ℕ → ℕ → ℕ → List HunkLine → Option (ℕ × Bool)
walk_hunk line old_n new_n [] = none
walk_hunk line old_n new_n (l ∷ ls) = elim l.kind [
  | hunk_deleted ↦ elim (old_n == line) [
    | true ↦ some (0, true)
    | false ↦ walk_hunk line (suc old_n) new_n ls
  ]
  | hunk_context ↦ elim (old_n == line) [
    | true ↦ some (new_n, false)
    | false ↦ walk_hunk line (suc old_n) (suc new_n) ls
  ]
  | hunk_added ↦ walk_hunk line old_n (suc new_n) ls
]

abbrev pub found_or : ℕ × Bool → Option (ℕ × Bool) → ℕ × Bool
found_or d none = d
found_or d (some r) = r

-- The loop of `shiftLine`, whose `shift` is `plus - minus`: a sum below 0 reads as 0, and every
-- caller that reads the line treats both alike.
unfoldable pub shift_loop : ℕ → ℕ → ℕ → List Hunk → ℕ × Bool
unfolding walk_hunk
shift_loop line plus minus [] = (line + plus - minus, false)
shift_loop line plus minus (h ∷ hs) =
    let later = shift_loop line (plus + h.new_count) (minus + h.old_count) hs in
    if h.old_count == 0
    then if leb line h.old_start then (line + plus - minus, false) else later
    else if ltb line h.old_start
    then (line + plus - minus, false)
    else if leb (h.old_start + h.old_count) line
    then later
    else found_or (line + plus - minus, false) (walk_hunk line h.old_start h.new_start h.lines)

unfoldable pub shift_line : ℕ → List Hunk → ℕ × Bool
unfolding shift_loop
shift_line line hs = shift_loop line 0 0 hs
