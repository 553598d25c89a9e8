-- ===== src/Hunk/RoundTrip.antt =====
-- Parsing what git prints gives the hunks back: internal/engine/diff/hunk.go.
use mathlib.Core.List.{append_assoc, append-nil}
use miu_cr.Base.{
  ◌≢◌, ℕ, ◌≤◌, ◌≡◌, refl, ◌∙◌, ap, false, Option, none, some, List, [], ◌∷◌, ◌++◌, map, Text, codes,
  arith, decimal, digits_value-decimal, decimal-IsDigit, decimal-cons, is_digit, IsDigit,
  scan_digits-append, newline, join_lines, split_lines-join_lines, IsOneLine, IsOneLine-append, All,
  All-append,
}
use miu_cr.Hunk.{
  HunkLineType, hunk_context, hunk_added, hunk_deleted, HunkLine, Hunk, max_int, atoi_digits,
  at_least_one, number, count_of, parse_header, flush, add_line, body_line, parse_loop, parse_hunks,
}
use miu_cr.Hunk.Render.{marker, render_line, render_header, render_hunk, render_hunks, IsPrintable}

atoi_digits-decimal : (n : ℕ) → n ≤ max_int → atoi_digits (decimal n) ≡ n
unfolding atoi_digits
atoi_digits-decimal n h = rw digits_value-decimal (omega arith)

module _ (n c : ℕ) (rest : Text) (stop : is_digit c ≡ false) where
  at_least_one-decimal : at_least_one (decimal n, c ∷ rest) ≡ some (decimal n, c ∷ rest)
  at_least_one-decimal = let (d, r, e) = decimal-cons n in rw e

  number-decimal : number (decimal n ++ c ∷ rest) ≡ some (decimal n, c ∷ rest)
  unfolding number
  number-decimal =
      rw (scan_digits-append (decimal n) c rest (decimal-IsDigit n) stop) at_least_one-decimal

  count_of-decimal :
      n ≤ max_int → count_of (codes "," ++ (decimal n ++ c ∷ rest)) ≡ some (n, c ∷ rest)
  unfolding count_of
  count_of-decimal h = ground (arith, number-decimal, atoi_digits-decimal n h)

parse_header-render_header :
    (h : Hunk) (heading : Text)
    → IsPrintable h
    → parse_header (render_header h heading) ≡ some (record h { lines = [] })
unfolding parse_header render_header
parse_header-render_header h heading p = rw (
  number-decimal h.old_start 44 _ (unfold is_digit in refl),
  count_of-decimal h.old_count 32 _ (unfold is_digit in refl) p.old_count_fits,
  number-decimal h.new_start 44 _ (unfold is_digit in refl),
  count_of-decimal h.new_count 32 _ (unfold is_digit in refl) p.new_count_fits,
  atoi_digits-decimal h.old_start p.old_start_fits,
  atoi_digits-decimal h.new_start p.new_start_fits,
)

parse_header-render_line : (l : HunkLine) → parse_header (render_line l) ≡ none
unfolding parse_header render_line marker
parse_header-render_line l = ground arith

body_line-render_line :
    (l : HunkLine) (h : Hunk) → body_line (render_line l) (some h) ≡ some (some (add_line h l))
unfolding body_line render_line marker
body_line-render_line l h = ground arith

module _ (l : Text) (rest : List Text) (hunks : List Hunk) where
  parse_loop-header :
      (h : Hunk) (current : Option Hunk)
      → parse_header l ≡ some h
      → parse_loop (l ∷ rest) hunks current ≡ parse_loop rest (flush hunks current) (some h)
  unfolding parse_loop
  parse_loop-header h current e = rw (e, parse_loop)

  parse_loop-body :
      (current c : Option Hunk)
      → parse_header l ≡ none
      → body_line l current ≡ some c
      → parse_loop (l ∷ rest) hunks current ≡ parse_loop rest hunks c
  unfolding parse_loop
  parse_loop-body current c e f = rw (e, f, parse_loop)

with_lines : Hunk → List HunkLine → Hunk
with_lines h ls = record h { lines = ls }

parse_loop-lines :
    (ls : List HunkLine) (rest : List Text) (hunks : List Hunk) (h : Hunk)
    → parse_loop (map render_line ls ++ rest) hunks (some h)
      ≡ parse_loop rest hunks (some (with_lines h (h.lines ++ ls)))
unfolding with_lines
parse_loop-lines [] rest hunks h = rw append-nil
parse_loop-lines (l ∷ ls) rest hunks h =
    parse_loop-body (render_line l) (map render_line ls ++ rest) hunks (some h)
      (some (add_line h l)) (parse_header-render_line l) (body_line-render_line l h)
    ∙ (parse_loop-lines ls rest hunks (add_line h l)
        ∙ unfold add_line in
          ap (λ t. parse_loop rest hunks (some (with_lines h t)))
            (append_assoc h.lines (l ∷ []) ls))

parse_loop-render_hunk :
    (h : Hunk) (heading : Text) (rest : List Text) (hunks : List Hunk) (current : Option Hunk)
    → IsPrintable h
    → parse_loop (render_hunk h heading ++ rest) hunks current
      ≡ parse_loop rest (flush hunks current) (some h)
unfolding render_hunk
parse_loop-render_hunk h heading rest hunks current p =
    parse_loop-header (render_header h heading) (map render_line h.lines ++ rest) hunks
      (record h { lines = [] }) current (parse_header-render_header h heading p)
    ∙ (parse_loop-lines h.lines rest (flush hunks current) (record h { lines = [] })
        ∙ unfold with_lines in refl)

abbrev pub IsPrintableWith : Hunk × Text → Type 0
IsPrintableWith (h, heading) = IsPrintable h × IsOneLine heading

abbrev pub hunks_of : List (Hunk × Text) → List Hunk
hunks_of [] = []
hunks_of ((h, heading) ∷ hs) = h ∷ hunks_of hs

parse_loop-render_hunks :
    (hs : List (Hunk × Text)) (hunks : List Hunk) (current : Option Hunk)
    → All IsPrintableWith hs
    → parse_loop (render_hunks hs) hunks current ≡ flush hunks current ++ hunks_of hs
unfolding render_hunks
parse_loop-render_hunks [] hunks current p = unfold parse_loop in rw append-nil
parse_loop-render_hunks ((h, heading) ∷ hs) hunks current p =
    parse_loop-render_hunk h heading (render_hunks hs) hunks current p.0.0
    ∙ parse_loop-render_hunks hs (flush hunks current) (some h) p.1
    ∙ unfold flush in append_assoc (flush hunks current) (h ∷ []) (hunks_of hs)

-- A line in front of the first hunk: one line that is no hunk header.
abbrev pub IsPreamble : Text → Type 0
IsPreamble l = IsOneLine l × (parse_header l ≡ none)

parse_loop-preamble :
    (pre rest : List Text)
    → All IsPreamble pre
    → parse_loop (pre ++ rest) [] none ≡ parse_loop rest [] none
parse_loop-preamble [] rest p = refl
parse_loop-preamble (l ∷ pre) rest p =
    parse_loop-body l (pre ++ rest) [] none none p.0.1 (unfold body_line in refl)
    ∙ parse_loop-preamble pre rest p.1

IsOneLine-decimal : (ds : Text) → All IsDigit ds → IsOneLine ds
unfolding is_digit
IsOneLine-decimal [] h = tt
IsOneLine-decimal (d ∷ ds) h = (ground arith, IsOneLine-decimal ds h.1)

IsOneLine-number : (n : ℕ) → IsOneLine (decimal n)
IsOneLine-number n = IsOneLine-decimal (decimal n) (decimal-IsDigit n)

-- A literal and a numeral in front of one line.
IsOneLine-front :
    (lit : Text) (n : ℕ) (t : Text)
    → IsOneLine lit
    → IsOneLine t
    → IsOneLine (lit ++ (decimal n ++ t))
IsOneLine-front lit n t hl ht =
    IsOneLine-append lit (decimal n ++ t) hl
      (IsOneLine-append (decimal n) t (IsOneLine-number n) ht)

IsOneLine-render_header :
    (h : Hunk) (heading : Text) → IsOneLine heading → IsOneLine (render_header h heading)
unfolding render_header
IsOneLine-render_header h heading p =
    let t5 : Text = codes " @@" ++ heading in
    let t4 : Text = codes "," ++ (decimal h.new_count ++ t5) in
    let t3 : Text = codes " +" ++ (decimal h.new_start ++ t4) in
    let t2 : Text = codes "," ++ (decimal h.old_count ++ t3) in
    let p5 : IsOneLine t5 = (omega arith, (omega arith, (omega arith, p))) in
    let p4 : IsOneLine t4 = IsOneLine-front (codes ",") h.new_count t5 (omega arith, tt) p5 in
    let p3 : IsOneLine t3 =
      IsOneLine-front (codes " +") h.new_start t4 (omega arith, (omega arith, tt)) p4 in
    let p2 : IsOneLine t2 = IsOneLine-front (codes ",") h.old_count t3 (omega arith, tt) p3 in
    IsOneLine-front (codes "@@ -") h.old_start t2
      (omega arith, (omega arith, (omega arith, (omega arith, tt)))) p2

IsOneLine-marker : (k : HunkLineType) → marker k ≢ newline
unfolding marker
IsOneLine-marker hunk_context = omega arith
IsOneLine-marker hunk_added = omega arith
IsOneLine-marker hunk_deleted = omega arith

IsOneLine-render_line :
    (ls : List HunkLine) → All (λ l. IsOneLine l.content) ls → All IsOneLine (map render_line ls)
unfolding render_line
IsOneLine-render_line [] p = tt
IsOneLine-render_line (l ∷ ls) p = ((IsOneLine-marker l.kind, p.0), IsOneLine-render_line ls p.1)

IsOneLine-render_hunks :
    (hs : List (Hunk × Text)) → All IsPrintableWith hs → All IsOneLine (render_hunks hs)
unfolding render_hunks render_hunk
IsOneLine-render_hunks [] p = tt
IsOneLine-render_hunks ((h, heading) ∷ hs) p = (
  IsOneLine-render_header h heading p.0.1,
  All-append IsOneLine (map render_line h.lines) (render_hunks hs)
      (IsOneLine-render_line h.lines p.0.0.contents) (IsOneLine-render_hunks hs p.1),
)

IsOneLine-preamble : (pre : List Text) → All IsPreamble pre → All IsOneLine pre
IsOneLine-preamble [] p = tt
IsOneLine-preamble (l ∷ pre) p = (p.0.0, IsOneLine-preamble pre p.1)

-- Round trip: a diff text that is a non-empty preamble of lines that are no hunk headers, then
-- hunks printed with `@@ -a,b +c,d @@`, a section heading, and the marked lines, parses to exactly
-- those hunks, for all hunks whose numbers fit an int and whose lines hold no newline.
pub parse_hunks-render :
    (first : Text) (pre : List Text) (hs : List (Hunk × Text))
    → All IsPreamble (first ∷ pre)
    → All IsPrintableWith hs
    → parse_hunks (join_lines (first ∷ pre ++ render_hunks hs)) ≡ hunks_of hs
parse_hunks-render first pre hs p q =
    unfold parse_hunks in
    ap (λ ls. parse_loop ls [] none)
      (split_lines-join_lines first (pre ++ render_hunks hs) p.0.0 (
        All-append IsOneLine pre (render_hunks hs) (IsOneLine-preamble pre p.1)
          (IsOneLine-render_hunks hs q)))
    ∙ parse_loop-preamble (first ∷ pre) (render_hunks hs) p
    ∙ parse_loop-render_hunks hs [] none q
    ∙ unfold flush in refl
