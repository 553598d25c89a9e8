-- ===== src/Dedupe/Report.antt =====
-- What a report holds, in terms of the findings' fields: internal/engine/engine.go.
use miu_cr.Base.{
  ℕ, ◌≡◌, ◌≤◌, ◌⊎◌, ◌∙◌, refl, ap, sym, Bool, true, false, ◌&&◌, List, [], ◌∷◌, ◌++◌, All, All-map,
  arith, Text, text_eq, text_eq_iff, text_ltb, text_ltb-total, decimal, digits_value,
  digits_value-decimal, decimal-IsDigit, IsDigit, is_digit, any, IsOrdered, ◌==◌,
}
use miu_cr.Finding.{Finding}
use miu_cr.Dedupe.{report_less, prose_hash, dedupe_key, dedupe}
use miu_cr.Dedupe.Laws.{has_key, IsDistinct, dedupe_lem, dedupe-All}

-- The character that separates the parts of a key.
abbrev bar : ℕ
bar = 124

abbrev pub HasNoBar : Text → Type 0
HasNoBar s = any (λ c. c == bar) s ≡ false

-- A finding of which neither the file nor the category has the separator.
abbrev pub IsPlain : Finding → Type 0
IsPlain f = HasNoBar f.file × HasNoBar f.category

cancel_bar :
    (a b x y : Text) → HasNoBar a → HasNoBar b → a ++ bar ∷ x ≡ b ++ bar ∷ y → (a ≡ b) × (x ≡ y)
cancel_bar [] [] x y h k e = (refl, cc)
cancel_bar [] (d ∷ b) x y h k e = let head : bar ≡ d = cc in ground (arith, head)
cancel_bar (c ∷ a) [] x y h k e = let head : c ≡ bar = cc in ground (arith, head)
cancel_bar (c ∷ a) (d ∷ b) x y h k e =
    let rest = cancel_bar a b x y (ground arith) (ground arith) cc in (cc rest.0, rest.1)

IsDigit-HasNoBar : (s : Text) → All IsDigit s → HasNoBar s
unfolding is_digit
IsDigit-HasNoBar [] h = refl
IsDigit-HasNoBar (c ∷ s) h = ground (arith, h.0, IsDigit-HasNoBar s h.1)

decimal-HasNoBar : (n : ℕ) → HasNoBar (decimal n)
decimal-HasNoBar n = IsDigit-HasNoBar (decimal n) (decimal-IsDigit n)

decimal-injective : (m n : ℕ) → decimal m ≡ decimal n → m ≡ n
decimal-injective m n e =
    sym (digits_value-decimal m) ∙ ap (digits_value 0) e ∙ digits_value-decimal n

-- In the order of the report: the earlier file, or no later line of the same file.
abbrev pub Precedes : Finding → Finding → Type 0
Precedes a b = (text_ltb a.file b.file ≡ true) ⊎ ((a.file ≡ b.file) × (a.line ≤ b.line))

abbrev pub IsInOrder : List Finding → Type 0
IsInOrder [] = Unit
IsInOrder (f ∷ fs) = All (Precedes f) fs × IsInOrder fs

IsOrdered-IsInOrder : (fs : List Finding) → IsOrdered report_less fs → IsInOrder fs
unfolding report_less
IsOrdered-IsInOrder [] h = tt
IsOrdered-IsInOrder (f ∷ fs) h = (
  All-map (λ g. report_less g f ≡ false) (Precedes f) fs
      (λ g e. ground (
        arith,
        e,
        text_eq_iff g.file f.file,
        text_ltb-total g.file f.file,
        text_ltb-total f.file g.file,
      ))
      h.0,
  IsOrdered-IsInOrder fs h.1,
)

module _ (digest : Text → Text) where
  -- The two findings say the same of one line: they agree on the file, the line and the category,
  -- and on the digest of their rationale and patch.
  abbrev pub same : Finding → Finding → Bool
  same f g =
      text_eq f.file g.file
      && f.line == g.line
      && text_eq f.category g.category
      && text_eq (digest (f.rationale ++ 0 ∷ f.suggested_patch))
          (digest (g.rationale ++ 0 ∷ g.suggested_patch))

  -- No two findings say the same.
  abbrev pub SaysOnce : List Finding → Type 0
  SaysOnce [] = Unit
  SaysOnce (f ∷ fs) = (any (same f) fs ≡ false) × SaysOnce fs

  key_parts :
      (f g : Finding)
      → IsPlain f
      → IsPlain g
      → dedupe_key digest f ≡ dedupe_key digest g
      → (f.file ≡ g.file)
        × (f.line ≡ g.line)
        × (f.category ≡ g.category)
        × (prose_hash digest f ≡ prose_hash digest g)
  unfolding dedupe_key
  key_parts f g p q e =
      let (file, after_file) = cancel_bar f.file g.file _ _ p.0 q.0 e in
      let (line, after_line) =
        cancel_bar (decimal f.line) (decimal g.line) _ _ (decimal-HasNoBar f.line)
          (decimal-HasNoBar g.line) after_file in
      let (category, prose) = cancel_bar f.category g.category _ _ p.1 q.1 after_line in
      (file, decimal-injective f.line g.line line, category, prose)

  key_of_parts :
      (f g : Finding)
      → f.file ≡ g.file
      → f.line ≡ g.line
      → f.category ≡ g.category
      → prose_hash digest f ≡ prose_hash digest g
      → dedupe_key digest f ≡ dedupe_key digest g
  unfolding dedupe_key
  key_of_parts f g file line category prose = cc (file, line, category, prose)

  same-parts : (f g : Finding) → same f g ≡ true → dedupe_key digest f ≡ dedupe_key digest g
  same-parts f g h =
      key_of_parts f g (ground (arith, text_eq_iff f.file g.file)) (ground arith)
        (ground (arith, text_eq_iff f.category g.category))
        (unfold prose_hash in
          ground (
            arith,
            text_eq_iff (digest (f.rationale ++ 0 ∷ f.suggested_patch))
                (digest (g.rationale ++ 0 ∷ g.suggested_patch)),
          ))

  same-key :
      (f g : Finding)
      → IsPlain f
      → IsPlain g
      → text_eq (dedupe_key digest f) (dedupe_key digest g) ≡ same f g
  unfolding prose_hash
  same-key f g p q = ground (
    arith,
    text_eq_iff (dedupe_key digest f) (dedupe_key digest g),
    key_parts f g p q,
    same-parts f g,
    text_eq_iff f.file g.file,
    text_eq_iff f.category g.category,
    text_eq_iff (digest (f.rationale ++ 0 ∷ f.suggested_patch))
        (digest (g.rationale ++ 0 ∷ g.suggested_patch)),
  )

  has_key-same :
      (f : Finding) (fs : List Finding)
      → IsPlain f
      → All IsPlain fs
      → has_key digest (dedupe_key digest f) fs ≡ any (same f) fs
  unfolding has_key
  has_key-same f [] p h = refl
  has_key-same f (g ∷ fs) p h = cc (same-key f g p h.0, has_key-same f fs p h.1)

  IsDistinct-SaysOnce : (fs : List Finding) → All IsPlain fs → IsDistinct digest fs → SaysOnce fs
  IsDistinct-SaysOnce [] p d = tt
  IsDistinct-SaysOnce (f ∷ fs) p d =
      (sym (has_key-same f fs p.0 p.1) ∙ d.0, IsDistinct-SaysOnce fs p.1 d.1)

-- When no file and no category has the separator of the keys: of the findings that agree with a
-- given one on the file, the line, the category and the digest of rationale and patch, the report
-- has some exactly when the input has; no two findings of the report agree on these; and the report
-- is ordered by file, and in a file by line.
pub dedupe-IsReport :
    (digest : Text → Text) (fs : List Finding) (f : Finding)
    → All IsPlain fs
    → IsPlain f
    → (any (same digest f) (dedupe digest fs) ≡ any (same digest f) fs)
      × SaysOnce digest (dedupe digest fs)
      × IsInOrder (dedupe digest fs)
dedupe-IsReport digest fs f plain p =
    let (keys, distinct, ordered) = dedupe_lem digest fs in
    let still = dedupe-All digest IsPlain fs plain in
    (
      sym (has_key-same digest f (dedupe digest fs) p still)
          ∙ keys (dedupe_key digest f)
          ∙ has_key-same digest f fs p plain,
      IsDistinct-SaysOnce digest (dedupe digest fs) still distinct,
      IsOrdered-IsInOrder (dedupe digest fs) ordered,
    )
