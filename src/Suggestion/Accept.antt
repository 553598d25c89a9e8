-- ===== src/Suggestion/Accept.antt =====
-- What an accepted patch replaces: internal/github/suggest.go.
use miu_cr.Base.{
  ℕ, suc, ◌-◌, ◌<◌, ◌≤◌, ◌≡◌, ◌≢◌, ◌↔◌, ◌⊎◌, refl, ap, Bool, true, false, not, some, List, [], ◌∷◌,
  map, arith, Text, text_eq, text_eq_iff, trim_space, split_lines, join_lines, length, ==_iff, ltb,
  ◌==◌, Pointwise, Bool-cases, Option-cases, inl, inr, if◌then◌else◌,
}
use miu_cr.Finding.{Finding}
use miu_cr.Suggestion.{
  RepairReason, reason_ok, reason_out_of_range, reason_empty, reason_no_op, reason_anchor_mismatch,
  reason_length_mismatch, normalize_line, replace_crlf, clean_suggested_patch,
  rebase_patch_indentation, lines_match, raw_span, rebased_or, first_line,
  classify_multi_line_replacement, classify_single_line_replacement,
}

-- The lines are those of the quote, up to the blanks around them and a diff marker.
abbrev pub Quotes : List Text → List Text → Type 0
Quotes span quoted = Pointwise (λ line q. normalize_line line ≡ normalize_line q) span quoted

-- The patch can go in place of the lines from `f.line` to `last` of the file, which the quote
-- names, and changes them.
pub record IsSafe (f : Finding) (content : Text) (last : ℕ) (new : Text) : Type 0 where
  pub in_file : last ≤ length (split_lines content)
  pub not_empty : trim_space (clean_suggested_patch f.suggested_patch) ≢ []
  pub rebased :
      rebase_patch_indentation
        (clean_suggested_patch f.suggested_patch)
        (first_line (raw_span (split_lines content) (f.line - 1) last))
      ≡ some new

abbrev pub anchored_line : Finding → Text → Text
anchored_line f content = first_line (raw_span (split_lines content) (f.line - 1) f.line)

abbrev pub anchored_span : Finding → Text → List Text
anchored_span f content = raw_span (split_lines content) (f.line - 1) f.end_line

abbrev pub patch_lines : Finding → List Text
patch_lines f = split_lines (trim_space (clean_suggested_patch f.suggested_patch))

-- The line is the quote, and not the patch.
abbrev pub IsWholeQuote : Finding → Text → Type 0
IsWholeQuote f content =
    (normalize_line (anchored_line f content) ≡ normalize_line f.quoted_code)
    × (trim_space (anchored_line f content) ≢ trim_space (clean_suggested_patch f.suggested_patch))

-- The lines are those of the quote, and not those of the patch.
abbrev pub IsQuotedBlock : Finding → Text → Type 0
IsQuotedBlock f content =
    Quotes (anchored_span f content) (split_lines (replace_crlf f.quoted_code))
    × (join_lines (map trim_space (anchored_span f content))
        ≢ join_lines (map trim_space (patch_lines f)))

-- A patch for one line is accepted when the line is the whole quote, and not the patch already; one
-- for several lines, when they are the lines of the quote one by one.
pub data Accepted (f : Finding) (content new : Text) : Type 0 where
  single :
      0 < f.line
      → (f.end_line ≡ 0) ⊎ (f.end_line ≡ f.line)
      → IsSafe f content f.line new
      → IsWholeQuote f content
      → Accepted f content new
  multi :
      0 < f.line
      → f.line < f.end_line
      → IsSafe f content f.end_line new
      → IsQuotedBlock f content
      → Accepted f content new

length-Quotes : (span quoted : List Text) → Quotes span quoted → length quoted ≡ length span
length-Quotes [] [] h = refl
length-Quotes [] (q ∷ quoted) h = absurd h
length-Quotes (l ∷ span) [] h = absurd h
length-Quotes (l ∷ span) (q ∷ quoted) h = ap suc (length-Quotes span quoted h.1)

lines_match-Quotes :
    (span quoted : List Text)
    → length quoted ≡ length span
    → lines_match span quoted ≡ true
    → Quotes span quoted
unfolding lines_match
lines_match-Quotes [] [] n h = tt
lines_match-Quotes [] (q ∷ quoted) n h = absurd (omega arith)
lines_match-Quotes (l ∷ span) [] n h = cc
lines_match-Quotes (l ∷ span) (q ∷ quoted) n h =
    let parts : (normalize_line l ≡ normalize_line q) × (lines_match span quoted ≡ true) =
      ground (arith, text_eq_iff (normalize_line l) (normalize_line q)) in
    (parts.0, lines_match-Quotes span quoted (omega arith) parts.1)

Quotes-lines_match : (span quoted : List Text) → Quotes span quoted → lines_match span quoted ≡ true
unfolding lines_match
Quotes-lines_match [] quoted h = refl
Quotes-lines_match (l ∷ span) [] h = absurd h
Quotes-lines_match (l ∷ span) (q ∷ quoted) h = ground (
  arith,
  text_eq_iff (normalize_line l) (normalize_line q),
  h.0,
  Quotes-lines_match span quoted h.1,
)

rebased_or_iff :
    (patch raw_anchor new : Text)
    → (rebased_or patch raw_anchor ≡ (new, reason_ok))
      ↔ (rebase_patch_indentation patch raw_anchor ≡ some new)
unfolding rebased_or
rebased_or_iff patch raw_anchor new =
    elim (Option-cases (rebase_patch_indentation patch raw_anchor)) [
      | inl e ↦ ground (arith, e)
      | inr (r, e) ↦ ground (arith, e)
    ]

-- The chains of early returns, each with its reason: the reason is OK when no test stops.
single_chain :
    (is_empty past quotes is_same : Bool) (rest : Text × RepairReason) (new : Text)
    → ((if is_empty
          then ([], reason_empty)
          else if past
          then ([], reason_out_of_range)
          else if not quotes
          then ([], reason_anchor_mismatch)
          else if is_same
          then ([], reason_no_op)
          else rest)
        ≡ (new, reason_ok))
      ↔ ((is_empty ≡ false)
          × (past ≡ false)
          × (quotes ≡ true)
          × (is_same ≡ false)
          × (rest ≡ (new, reason_ok)))
single_chain is_empty past quotes is_same rest new = ground arith

multi_chain :
    (is_empty past even quotes is_same : Bool) (rest : Text × RepairReason) (new : Text)
    → ((if is_empty
          then ([], reason_empty)
          else if past
          then ([], reason_out_of_range)
          else if not even
          then ([], reason_length_mismatch)
          else if not quotes
          then ([], reason_anchor_mismatch)
          else if is_same
          then ([], reason_no_op)
          else rest)
        ≡ (new, reason_ok))
      ↔ ((is_empty ≡ false)
          × (past ≡ false)
          × (even ≡ true)
          × (quotes ≡ true)
          × (is_same ≡ false)
          × (rest ≡ (new, reason_ok)))
multi_chain is_empty past even quotes is_same rest new = ground arith

differs_iff : (s t : Text) → (text_eq s t ≡ false) ↔ (s ≢ t)
differs_iff s t = (
  λ e h. ground (arith, text_eq_iff s t),
  λ n. elim (Bool-cases (text_eq s t)) [ inl e ↦ absurd (n ((text_eq_iff s t).0 e)) | inr e ↦ e ],
)

not_past_iff : (n m : ℕ) → (ltb n m ≡ false) ↔ (m ≤ n)
not_past_iff n m = ground arith

module _ (f : Finding) (content new : Text) where
  abbrev pub patch : Text
  patch = clean_suggested_patch f.suggested_patch

  pub classify_single_line_iff :
      (classify_single_line_replacement f content ≡ (new, reason_ok))
      ↔ (IsSafe f content f.line new × IsWholeQuote f content)
  unfolding classify_single_line_replacement
  classify_single_line_iff =
      let line = anchored_line f content in
      let chain =
        single_chain (text_eq (trim_space patch) []) (ltb (length (split_lines content)) f.line)
          (text_eq (normalize_line line) (normalize_line f.quoted_code))
          (text_eq (trim_space line) (trim_space patch)) (rebased_or patch line) new in
      let empty_iff = differs_iff (trim_space patch) [] in
      let past_iff = not_past_iff (length (split_lines content)) f.line in
      let quote_iff = text_eq_iff (normalize_line line) (normalize_line f.quoted_code) in
      let change_iff = differs_iff (trim_space line) (trim_space patch) in
      let end_iff = rebased_or_iff patch line new in
      (
        λ e.
            let (a, b, c, d, r) = chain.0 e in
            (
              record { in_file = past_iff.0 b; not_empty = empty_iff.0 a; rebased = end_iff.0 r },
              (quote_iff.0 c, change_iff.0 d),
            ),
        λ h. chain.1 (
          empty_iff.1 h.0.not_empty,
          past_iff.1 h.0.in_file,
          quote_iff.1 h.1.0,
          change_iff.1 h.1.1,
          end_iff.1 h.0.rebased,
        ),
      )

  pub classify_multi_line_iff :
      (classify_multi_line_replacement f content ≡ (new, reason_ok))
      ↔ (IsSafe f content f.end_line new × IsQuotedBlock f content)
  unfolding classify_multi_line_replacement
  classify_multi_line_iff =
      let span = anchored_span f content in
      let quoted = split_lines (replace_crlf f.quoted_code) in
      let before = join_lines (map trim_space span) in
      let after = join_lines (map trim_space (patch_lines f)) in
      let chain =
        multi_chain (text_eq (trim_space patch) []) (ltb (length (split_lines content)) f.end_line)
          (length quoted == length span) (lines_match span quoted) (text_eq before after)
          (rebased_or patch (first_line span)) new in
      let empty_iff = differs_iff (trim_space patch) [] in
      let past_iff = not_past_iff (length (split_lines content)) f.end_line in
      let even_iff = ==_iff (length quoted) (length span) in
      let change_iff = differs_iff before after in
      let end_iff = rebased_or_iff patch (first_line span) new in
      (
        λ e.
            let (a, b, n, c, d, r) = chain.0 e in
            (
              record { in_file = past_iff.0 b; not_empty = empty_iff.0 a; rebased = end_iff.0 r },
              (lines_match-Quotes span quoted (even_iff.0 n) c, change_iff.0 d),
            ),
        λ h. chain.1 (
          empty_iff.1 h.0.not_empty,
          past_iff.1 h.0.in_file,
          even_iff.1 (length-Quotes span quoted h.1.0),
          Quotes-lines_match span quoted h.1.0,
          change_iff.1 h.1.1,
          end_iff.1 h.0.rebased,
        ),
      )
