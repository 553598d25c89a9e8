-- ===== src/Anchor/Sides.antt =====
-- The lines that are matched stand in the file at the numbers they carry:
-- internal/engine/anchor/resolver.go.
use native.Mathlib.Numerals.{add-one}
use miu_cr.Base.{
  drop-head, sym, ℕ, zero, suc, ◌+◌, ◌≡◌, refl, Bool, true, false, inl, inr, Option, none, some,
  List, [], ◌∷◌, Text, trim_cr, trim_space-trim_cr, get_elem?, All, Bool-cases, if◌then◌else◌, drop,
}
use miu_cr.Hunk.{HunkLineType, hunk_context, hunk_added, hunk_deleted, HunkLine, Hunk}
use miu_cr.Anchor.{
  normalize_line, is_text, IndexedLine, add_indexed, on_side, old_after, new_after, side_loop,
  extract_side_lines, file_lines,
}

-- The line of a file by its number, from 1.
abbrev pub line_of : List Text → ℕ → Option Text
line_of file zero = none
line_of file (suc i) = get_elem? file i

-- The numbered line of the file is, normalised, the text.
pub record Reads (file : List Text) (n : ℕ) (text : Text) : Type 0 where
  pub raw : Text
  pub there : line_of file n ≡ some raw
  pub reads : normalize_line raw ≡ text

abbrev pub PointsAt : List Text → IndexedLine → Type 0
PointsAt file l = Reads file l.line_num l.content

-- The hunk's lines of one side stand in the file from the number `n` on.
abbrev pub StandsAt : Bool → List Text → ℕ → List HunkLine → Type 0
StandsAt new_side file n [] = Unit
StandsAt new_side file n (l ∷ ls) =
    if on_side new_side l.kind
    then (line_of file n ≡ some l.content) × StandsAt new_side file (suc n) ls
    else StandsAt new_side file n ls

add_indexed-PointsAt :
    (file : List Text) (n : ℕ) (content : Text) (later : List IndexedLine) (raw : Text)
    → line_of file n ≡ some raw
    → normalize_line raw ≡ normalize_line content
    → All (PointsAt file) later
    → All (PointsAt file) (add_indexed n content later)
unfolding add_indexed
add_indexed-PointsAt file n content later raw e r h =
    elim (Bool-cases (is_text (normalize_line content))) [
      | inl shown ↦ rw shown (record { raw = raw; there = e; reads = r }, h)
      | inr blank ↦ rw blank h
    ]

-- One line of a side, whatever its kind.
new_step :
    (file : List Text) (k : HunkLineType) (c : Text) (o n : ℕ) (ls : List HunkLine)
    → (if on_side true k
        then (line_of file n ≡ some c) × StandsAt true file (suc n) ls
        else StandsAt true file n ls)
    → (StandsAt true file (new_after k n) ls
        → All (PointsAt file) (side_loop true (old_after k o) (new_after k n) ls))
    → let later = side_loop true (old_after k o) (new_after k n) ls in
      All (PointsAt file) (if on_side true k then add_indexed n c later else later)
unfolding on_side new_after old_after
new_step file hunk_context c o n ls h ih =
    add_indexed-PointsAt file n c (side_loop true (suc o) (suc n) ls) c h.0 refl (ih h.1)
new_step file hunk_added c o n ls h ih =
    add_indexed-PointsAt file n c (side_loop true o (suc n) ls) c h.0 refl (ih h.1)
new_step file hunk_deleted c o n ls h ih = ih h

old_step :
    (file : List Text) (k : HunkLineType) (c : Text) (o n : ℕ) (ls : List HunkLine)
    → (if on_side false k
        then (line_of file o ≡ some c) × StandsAt false file (suc o) ls
        else StandsAt false file o ls)
    → (StandsAt false file (old_after k o) ls
        → All (PointsAt file) (side_loop false (old_after k o) (new_after k n) ls))
    → let later = side_loop false (old_after k o) (new_after k n) ls in
      All (PointsAt file) (if on_side false k then add_indexed o c later else later)
unfolding on_side new_after old_after
old_step file hunk_context c o n ls h ih =
    add_indexed-PointsAt file o c (side_loop false (suc o) (suc n) ls) c h.0 refl (ih h.1)
old_step file hunk_added c o n ls h ih = ih h
old_step file hunk_deleted c o n ls h ih =
    add_indexed-PointsAt file o c (side_loop false (suc o) n ls) c h.0 refl (ih h.1)

new_loop-PointsAt :
    (file : List Text) (ls : List HunkLine) (o n : ℕ)
    → StandsAt true file n ls
    → All (PointsAt file) (side_loop true o n ls)
unfolding side_loop
new_loop-PointsAt file [] o n h = tt
new_loop-PointsAt file (l ∷ ls) o n h =
    new_step file l.kind l.content o n ls h
      (new_loop-PointsAt file ls (old_after l.kind o) (new_after l.kind n))

old_loop-PointsAt :
    (file : List Text) (ls : List HunkLine) (o n : ℕ)
    → StandsAt false file o ls
    → All (PointsAt file) (side_loop false o n ls)
unfolding side_loop
old_loop-PointsAt file [] o n h = tt
old_loop-PointsAt file (l ∷ ls) o n h =
    old_step file l.kind l.content o n ls h
      (old_loop-PointsAt file ls (old_after l.kind o) (new_after l.kind n))

-- The hunk is a hunk of the change from the old to the new file: each side stands in its file. The
-- last hunk of an output of git that ends in a newline is none: the parser reads the empty line at
-- the end as one more line of it.
pub record FitsHunk (old_file new_file : List Text) (h : Hunk) : Type 0 where
  pub new_stands : StandsAt true new_file h.new_start h.lines
  pub old_stands : StandsAt false old_file h.old_start h.lines

-- The file that a side is a part of.
abbrev pub side_file : Bool → List Text → List Text → List Text
side_file new_side old_file new_file = if new_side then new_file else old_file

pub extract_side_lines-PointsAt :
    (old_file new_file : List Text) (h : Hunk) (new_side : Bool)
    → FitsHunk old_file new_file h
    → All (PointsAt (side_file new_side old_file new_file)) (extract_side_lines h new_side)
unfolding extract_side_lines
extract_side_lines-PointsAt old_file new_file h true p =
    new_loop-PointsAt new_file h.lines h.old_start h.new_start p.new_stands
extract_side_lines-PointsAt old_file new_file h false p =
    old_loop-PointsAt old_file h.lines h.old_start h.new_start p.old_stands

normalize_line-trim_cr : (raw : Text) → normalize_line (trim_cr raw) ≡ normalize_line raw
unfolding normalize_line
normalize_line-trim_cr raw = rw (trim_space-trim_cr raw)

file_lines-drop :
    (file : List Text) (i : ℕ) (raws : List Text)
    → drop i file ≡ raws
    → All (PointsAt file) (file_lines i raws)
unfolding file_lines
file_lines-drop file i [] h = tt
file_lines-drop file i (raw ∷ raws) h =
    let (here, next) = drop-head i file raw raws h in
    add_indexed-PointsAt file (i + 1) (trim_cr raw) (file_lines (suc i) raws) raw (rw add-one here)
      (sym (normalize_line-trim_cr raw)) (file_lines-drop file (suc i) raws next)

pub file_lines-PointsAt : (file : List Text) → All (PointsAt file) (file_lines 0 file)
file_lines-PointsAt file = file_lines-drop file 0 file refl
