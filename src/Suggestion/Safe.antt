-- ===== src/Suggestion/Safe.antt =====
-- Which patches are accepted: internal/github/suggest.go.
use miu_cr.Base.{
  ◌<◌, ◌≡◌, ◌≢◌, ◌↔◌, ◌⊎◌, ap, sym, ◌∙◌, not, ◌&&◌, [], arith, Text, ltb, ◌==◌, Bool-cases, inl,
  inr,
}
use miu_cr.Finding.{Finding}
use miu_cr.Suggestion.{
  RepairReason, reason_ok, reason_no_anchor, reason_garbled_span, classify_multi_line_replacement,
  classify_single_line_replacement, classify_replacement,
}
use miu_cr.Suggestion.Accept.{Accepted, classify_single_line_iff, classify_multi_line_iff}

abbrev IsOneLine : Finding → Type 0
IsOneLine f = (0 < f.line) × ((f.end_line ≡ 0) ⊎ (f.end_line ≡ f.line))

abbrev IsBlock : Finding → Type 0
IsBlock f = (0 < f.line) × (f.line < f.end_line)

-- The branches of the classifier.
data Branch (f : Finding) (content : Text) : Type 0 where
  at_one :
      IsOneLine f
      → classify_replacement f content ≡ classify_single_line_replacement f content
      → Branch f content
  at_many :
      IsBlock f
      → classify_replacement f content ≡ classify_multi_line_replacement f content
      → Branch f content
  nowhere :
      (r : RepairReason)
      → r ≢ reason_ok
      → (IsOneLine f → ⊥)
      → (IsBlock f → ⊥)
      → classify_replacement f content ≡ ([], r)
      → Branch f content

branch : (f : Finding) (content : Text) → Branch f content
unfolding classify_replacement
branch f content = elim (Bool-cases (f.line == 0)) [
  | inl z ↦
      Branch.nowhere reason_no_anchor (λ e. cc) (λ h. ground arith) (λ h. ground arith)
        (ground arith)
  | inr z ↦ elim (Bool-cases (ltb f.line f.end_line)) [
    | inl m ↦ Branch.at_many (ground arith) (ground arith)
    | inr m ↦ elim (Bool-cases (not (f.end_line == 0) && not (f.end_line == f.line))) [
      | inl g ↦
          Branch.nowhere reason_garbled_span (λ e. cc) (λ h. ground arith) (λ h. ground arith)
            (ground arith)
      | inr g ↦ Branch.at_one (ground arith) (ground arith)
    ]
  ]
]

-- A patch becomes a suggestion exactly when the finding has a line, or a block of lines, that are
-- in the new file and are what the finding quotes, the patch is not blank and differs from them,
-- and its indentation can be moved to theirs; the suggestion is the patch so moved.
pub classify_replacement_iff :
    (f : Finding) (content new : Text)
    → (classify_replacement f content ≡ (new, reason_ok)) ↔ Accepted f content new
classify_replacement_iff f content new =
    (λ e. accept (branch f content) e, λ a. (conclude a (branch f content)))
  where
    accept :
        Branch f content
        → classify_replacement f content ≡ (new, reason_ok)
        → Accepted f content new
    accept (Branch.at_one h b) e =
        let (safe, quote) = (classify_single_line_iff f content new).0 (sym b ∙ e) in
        Accepted.single h.0 h.1 safe quote
    accept (Branch.at_many h b) e =
        let (safe, quote) = (classify_multi_line_iff f content new).0 (sym b ∙ e) in
        Accepted.multi h.0 h.1 safe quote
    accept (Branch.nowhere r n _ _ b) e = absurd (n (ap (λ p. p.1) (sym b ∙ e)))

    conclude :
        Accepted f content new
        → Branch f content
        → classify_replacement f content ≡ (new, reason_ok)
    conclude (Accepted.single p o safe quote) (Branch.at_one h b) =
        b ∙ (classify_single_line_iff f content new).1 (safe, quote)
    conclude (Accepted.single p o safe quote) (Branch.at_many h b) = ground arith
    conclude (Accepted.single p o safe quote) (Branch.nowhere r _ n _ b) = absurd (n (p, o))
    conclude (Accepted.multi p o safe quote) (Branch.at_one h b) = ground arith
    conclude (Accepted.multi p o safe quote) (Branch.at_many h b) =
        b ∙ (classify_multi_line_iff f content new).1 (safe, quote)
    conclude (Accepted.multi p o safe quote) (Branch.nowhere r _ _ n b) = absurd (n (p, o))
