-- ===== src/Suggestion/Indent.antt =====
-- Rebasing keeps the code of a patch: internal/github/suggest.go.
use miu_cr.Base.{
  cut_prefix-append, cut_prefix_self, has_suffix-append, has_suffix, ℕ, ◌≡◌, ◌⊎◌, refl, ap, ◌∙◌,
  Bool, true, some, List, [], ◌∷◌, ◌++◌, arith, Text, text_eq, text_eq_iff, cut_prefix, has_prefix,
  trim_prefix, trim_left, split_lines, join_lines, join_lines-split_lines, Pointwise,
  Pointwise-refl, Bool-cases, Option-cases, inl, inr, subst,
}
use miu_cr.Suggestion.{
  is_blank, leading_whitespace, first_indent, rebased_indent, rebase_line, rebase_lines,
  rebase_patch_indentation,
}

-- A prefix and what is left of it make up the text.
has_prefix-append : (s p : Text) → has_prefix s p ≡ true → s ≡ p ++ trim_prefix s p
unfolding has_prefix trim_prefix
has_prefix-append s p h = elim (Option-cases (cut_prefix p s)) [
  | inl e ↦ ground (arith, e)
  | inr (r, e) ↦ ground (arith, e, cut_prefix-append p s r e)
]

has_suffix-trim_left : (p : ℕ → Bool) (s : Text) → has_suffix s (trim_left p s) ≡ true
unfolding has_suffix trim_left
has_suffix-trim_left p [] = ground (arith, text_eq_iff [] [])
has_suffix-trim_left p (c ∷ s) =
    ground (arith, has_suffix-trim_left p s, text_eq_iff (c ∷ s) (c ∷ s))

-- A line is its indentation and its code.
leading_whitespace-append : (s : Text) → s ≡ leading_whitespace s ++ trim_left is_blank s
unfolding leading_whitespace
leading_whitespace-append s =
    has_suffix-append s (trim_left is_blank s) (has_suffix-trim_left is_blank s)

trim_prefix_self : (p r : Text) → trim_prefix (p ++ r) p ≡ r
unfolding trim_prefix
trim_prefix_self p r = rw (cut_prefix_self p r, trim_prefix) refl

trim_prefix-leading_whitespace :
    (s : Text) → trim_prefix s (leading_whitespace s) ≡ trim_left is_blank s
trim_prefix-leading_whitespace s =
    ap (λ t. trim_prefix t (leading_whitespace s)) (leading_whitespace-append s)
    ∙ trim_prefix_self (leading_whitespace s) (trim_left is_blank s)

-- How a line of the patch may change when the patch's indentation becomes the anchor's: its code,
-- what follows its leading blanks, stays; the blanks it has more or less than the patch's first
-- line, it has more or less than the anchored line.
pub data Rebased (patch_indent anchor_indent line new : Text) : Type 0 where
  same : patch_indent ≡ anchor_indent → new ≡ line → Rebased patch_indent anchor_indent line new
  empty : line ≡ [] → new ≡ [] → Rebased patch_indent anchor_indent line new
  deeper :
      (extra : Text)
      → leading_whitespace line ≡ patch_indent ++ extra
      → new ≡ (anchor_indent ++ extra) ++ trim_left is_blank line
      → Rebased patch_indent anchor_indent line new
  shallower :
      (removed base : Text)
      → patch_indent ≡ leading_whitespace line ++ removed
      → anchor_indent ≡ base ++ removed
      → new ≡ base ++ trim_left is_blank line
      → Rebased patch_indent anchor_indent line new

module _ (patch_indent anchor_indent : Text) where
  -- The two ways in which an indentation is rebased.
  rebased_indent-cases :
      (indent new : Text)
      → rebased_indent patch_indent anchor_indent indent ≡ some new
      → ((extra : Text) × (indent ≡ patch_indent ++ extra) × (new ≡ anchor_indent ++ extra))
        ⊎ ((removed : Text) × (patch_indent ≡ indent ++ removed) × (anchor_indent ≡ new ++ removed))
  unfolding rebased_indent
  rebased_indent-cases indent new e = elim (Bool-cases (has_prefix indent patch_indent)) [
    | inl h ↦
        inl (trim_prefix indent patch_indent, has_prefix-append indent patch_indent h, ground arith)
    | inr h ↦
        let removed = trim_prefix patch_indent indent in
        inr (
          removed,
          has_prefix-append patch_indent indent (ground arith),
          ground (arith, has_suffix-append anchor_indent removed),
        )
  ]

  rebase_line-Rebased :
      (line new : Text)
      → rebase_line patch_indent anchor_indent line ≡ some new
      → Rebased patch_indent anchor_indent line new
  unfolding rebase_line
  rebase_line-Rebased [] new e = Rebased.empty refl (ground arith)
  rebase_line-Rebased (c ∷ s) new e =
      elim (Option-cases (rebased_indent patch_indent anchor_indent (leading_whitespace (c ∷ s)))) [
        | inl n ↦ cc
        | inr (i, n) ↦
            let code = trim_prefix-leading_whitespace (c ∷ s) in
            elim (rebased_indent-cases (leading_whitespace (c ∷ s)) i n) [
              | inl (extra, a, b) ↦ Rebased.deeper extra a (ground (arith, code))
              | inr (removed, a, b) ↦ Rebased.shallower removed i a b (ground (arith, code))
            ]
      ]

  rebase_lines-Rebased :
      (lines new : List Text)
      → rebase_lines patch_indent anchor_indent lines ≡ some new
      → Pointwise (Rebased patch_indent anchor_indent) lines new
  unfolding rebase_lines
  rebase_lines-Rebased [] [] e = tt
  rebase_lines-Rebased [] (n ∷ new) e = cc
  rebase_lines-Rebased (l ∷ lines) new e =
      elim (Option-cases (rebase_line patch_indent anchor_indent l)) [
        | inl n ↦ cc
        | inr (l', n) ↦ elim (Option-cases (rebase_lines patch_indent anchor_indent lines)) [
          | inl m ↦ cc
          | inr (ls, m) ↦
              let whole : l' ∷ ls ≡ new = ground (arith, n, m) in
              subst (Pointwise (Rebased patch_indent anchor_indent) (l ∷ lines)) whole
                (rebase_line-Rebased l l' n, rebase_lines-Rebased lines ls m)
        ]
      ]

same_indent-Rebased :
    (patch_indent anchor_indent : Text) (lines : List Text)
    → patch_indent ≡ anchor_indent
    → Pointwise (Rebased patch_indent anchor_indent) lines lines
same_indent-Rebased patch_indent anchor_indent lines e =
    Pointwise-refl (Rebased patch_indent anchor_indent) (λ l. Rebased.same e refl) lines

-- A patch that is moved to the anchored line keeps its lines: each keeps its code, and moves by the
-- blanks between the indentation of the first line that is not blank and the anchor's.
pub rebase_patch_indentation-Rebased :
    (patch raw_anchor new : Text)
    → rebase_patch_indentation patch raw_anchor ≡ some new
    → (lines : List Text) × (new ≡ join_lines lines)
      × Pointwise
          (Rebased (first_indent (split_lines patch)) (leading_whitespace raw_anchor))
          (split_lines patch)
          lines
unfolding rebase_patch_indentation
rebase_patch_indentation-Rebased patch raw_anchor new e =
    let lines = split_lines patch in
    let patch_indent = first_indent lines in
    let anchor_indent = leading_whitespace raw_anchor in
    elim (Bool-cases (text_eq patch_indent anchor_indent)) [
      | inl h ↦ (
        lines,
        ground (arith, join_lines-split_lines patch),
        same_indent-Rebased patch_indent anchor_indent lines
            ((text_eq_iff patch_indent anchor_indent).0 h),
      )
      | inr h ↦ elim (Option-cases (rebase_lines patch_indent anchor_indent lines)) [
        | inl n ↦ cc
        | inr (ls, n) ↦
            (ls, ground (arith, h, n), rebase_lines-Rebased patch_indent anchor_indent lines ls n)
      ]
    ]
