-- ===== src/Dedupe.antt =====
-- Dropping drifted findings and collapsing repeated ones: internal/engine/engine.go.
pub mod Laws
pub mod Report
use miu_cr.Base.{
  ℕ, Bool, true, false, ◌&&◌, ◌||◌, not, List, [], ◌∷◌, ◌++◌, Text, codes, text_eq, text_ltb,
  decimal, keep, any, sort_stable, ltb, ◌==◌, if◌then◌else◌,
}
use miu_cr.Finding.{Finding}

unfoldable pub drop_drift : List Finding → List Finding
drop_drift fs = keep (λ f. not (f.line == 0)) fs

-- Order of the report: by file, then by line.
unfoldable pub report_less : Finding → Finding → Bool
unfolding text_eq text_ltb
report_less a b = if not (text_eq a.file b.file) then text_ltb a.file b.file else ltb a.line b.line

-- `digest` is the hex text of the first six bytes of SHA-256.
module _ (digest : Text → Text) where
  unfoldable pub prose_hash : Finding → Text
  prose_hash f = digest (f.rationale ++ 0 ∷ f.suggested_patch)

  unfoldable pub dedupe_key : Finding → Text
  unfolding prose_hash decimal
  dedupe_key f =
      f.file
      ++ (codes "|"
          ++ (decimal f.line ++ (codes "|" ++ (f.category ++ (codes "|" ++ prose_hash f)))))

  -- The loop, with the keys of `seen`.
  unfoldable pub dedupe_loop : List Text → List Finding → List Finding
  unfolding text_eq
  dedupe_loop seen [] = []
  dedupe_loop seen (f ∷ fs) =
      let skip = dedupe_loop seen fs in
      let add = f ∷ dedupe_loop (dedupe_key f ∷ seen) fs in
      if any (text_eq (dedupe_key f)) seen then skip else add

  unfoldable pub dedupe : List Finding → List Finding
  unfolding dedupe_loop sort_stable report_less
  dedupe fs = sort_stable report_less (dedupe_loop [] fs)
