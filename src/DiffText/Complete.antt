-- ===== src/DiffText/Complete.antt =====
-- No line of a diff text is lost or read twice: internal/engine/diff/parser.go.
use miu_cr.Base.{
  ◌≡◌, refl, ap, ◌∙◌, subst, ◌||◌, Option, none, some, List, [], ◌∷◌, ◌++◌, map, arith, All,
  All-append, Text, codes, text_eq, split_lines, join_lines, Bool-cases, Option-cases, inl, inr,
}
use miu_cr.Finding.{Diff}
use miu_cr.DiffText.Headers.{IsHeader, parse_diff_header-some, parse_diff_header-none}
use miu_cr.DiffText.{
  parse_diff_header, note_line, new_diff, finalize_diff, flush, add_to, parse_loop, parse_diff_text,
}

-- The lines of one file: its header, and lines that are no header.
abbrev pub IsSection : List Text → Type 0
IsSection [] = ⊥
IsSection (h ∷ rest) = IsHeader h × All (λ l. ¬ IsHeader l) rest

IsSection-append :
    (buf : List Text) (line : Text) → ¬ IsHeader line → IsSection buf → IsSection (buf ++ line ∷ [])
IsSection-append [] line h s = absurd s
IsSection-append (b ∷ buf) line h s =
    (s.0, All-append (λ l. ¬ IsHeader l) buf (line ∷ []) s.1 (h, tt))

abbrev pub concat : List (List Text) → List Text
concat [] = []
concat (s ∷ ss) = s ++ concat ss

append_assoc : (xs ys zs : List Text) → (xs ++ ys) ++ zs ≡ xs ++ (ys ++ zs)
append_assoc [] ys zs = refl
append_assoc (x ∷ xs) ys zs = ap (λ l. x ∷ l) (append_assoc xs ys zs)

module _ (unquote : Text → Option Text) (show_blob : Text → Text → Option Text) (ref : Text) where
  -- The texts of the diffs are those of sections which make up the lines.
  abbrev pub AreSections : List Diff → List Text → Type 0
  AreSections ds lines =
      (sections : List (List Text)) × (map (λ d. d.diff) ds ≡ map join_lines sections)
      × (concat sections ≡ lines)
      × All IsSection sections

  diff-finalize_diff : (d : Diff) → (finalize_diff unquote show_blob ref d).diff ≡ d.diff
  unfolding finalize_diff
  diff-finalize_diff d =
      elim (Bool-cases (d.is_deleted || text_eq d.new_path (codes "/dev/null"))) [
        | inl h ↦ rw (h, finalize_diff) refl
        | inr h ↦ elim (Bool-cases d.is_binary) [
          | inl b ↦ rw (h, b, finalize_diff) refl
          | inr b ↦ rw (h, b, finalize_diff) refl
        ]
      ]

  flush-AreSections :
      (d : Diff) (buf : List Text) (ds : List Diff) (lines : List Text)
      → IsSection buf
      → AreSections ds lines
      → AreSections (flush unquote show_blob ref (some (d, buf)) ++ ds) (buf ++ lines)
  unfolding flush
  flush-AreSections d buf ds lines s (sections, texts, whole, each) = (
    buf ∷ sections,
    ap (λ t. t ∷ map (λ d. d.diff) ds) (diff-finalize_diff (record d { diff = join_lines buf }))
        ∙ ap (λ ts. join_lines buf ∷ ts) texts,
    ap (λ l. buf ++ l) whole,
    (s, each),
  )

  parse_loop-AreSections :
      (lines : List Text) (d : Diff) (buf : List Text)
      → IsSection buf
      → AreSections (parse_loop unquote show_blob ref (some (d, buf)) lines) (buf ++ lines)
  unfolding parse_loop add_to
  parse_loop-AreSections [] d buf s = flush-AreSections d buf [] [] s ([], refl, refl, tt)
  parse_loop-AreSections (line ∷ lines) d buf s =
      elim (Option-cases (parse_diff_header unquote line)) [
        | inr ((old, new), e) ↦
            rw (e, parse_loop)
              (flush-AreSections d buf _ (line ∷ lines) s (
                parse_loop-AreSections lines (note_line line (new_diff old new)) (line ∷ [])
                  (parse_diff_header-some unquote line (old, new) e, tt)))
        | inl e ↦
            rw (e, parse_loop)
              (subst (AreSections _) (append_assoc buf (line ∷ []) lines) (
                parse_loop-AreSections lines (note_line line d) (buf ++ line ∷ [])
                  (IsSection-append buf line (parse_diff_header-none unquote line e) s)))
      ]

  -- The lines are some before the first header, and then the sections.
  abbrev pub AreSectionsBehind : List Diff → List Text → Type 0
  AreSectionsBehind ds lines =
      (preamble : List Text) × (rest : List Text) × (preamble ++ rest ≡ lines)
      × All (λ l. ¬ IsHeader l) preamble
      × AreSections ds rest

  parse_loop-AreSectionsBehind :
      (lines : List Text) → AreSectionsBehind (parse_loop unquote show_blob ref none lines) lines
  unfolding parse_loop add_to flush
  parse_loop-AreSectionsBehind [] = ([], [], refl, tt, ([], refl, refl, tt))
  parse_loop-AreSectionsBehind (line ∷ lines) =
      elim (Option-cases (parse_diff_header unquote line)) [
        | inr ((old, new), e) ↦
            rw (e, parse_loop)
              (
                [],
                line ∷ lines,
                refl,
                tt,
                parse_loop-AreSections lines (note_line line (new_diff old new)) (line ∷ [])
                    (parse_diff_header-some unquote line (old, new) e, tt),
              )
        | inl e ↦
            let (preamble, rest, whole, none_yet, sections) = parse_loop-AreSectionsBehind lines in
            rw (e, parse_loop)
              (
                line ∷ preamble,
                rest,
                ap (λ l. line ∷ l) whole,
                (parse_diff_header-none unquote line e, none_yet),
                sections,
              )
      ]

-- When a diff text is no merge's: behind lines that are no header, it consists of sections, each a
-- header and lines that are no header, and the texts of the parsed diffs are these sections in
-- their order; so no line behind the first header is lost, read twice or moved. A header is a line of
-- one of git's two forms, with both paths plain or with both quoted. A line that begins with
-- "diff --git " in neither form begins no section, so what follows it stands in the section
-- before, if there is one.
pub parse_diff_text-AreSections :
    (unquote : Text → Option Text) (show_blob : Text → Text → Option Text) (ref : Text)
    (diff_text : Text) (ds : List Diff)
    → parse_diff_text unquote show_blob ref diff_text ≡ some ds
    → AreSectionsBehind unquote show_blob ref ds (split_lines diff_text)
unfolding parse_diff_text
parse_diff_text-AreSections unquote show_blob ref diff_text ds e =
    let lines = split_lines diff_text in
    let parsed : parse_loop unquote show_blob ref none lines ≡ ds = ground arith in
    subst (λ x. AreSectionsBehind unquote show_blob ref x lines) parsed
      (parse_loop-AreSectionsBehind unquote show_blob ref lines)
