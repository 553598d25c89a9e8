-- ===== src/Shift/Follows.antt =====
-- The shifted line against what a diff does to a file: internal/github/stable_line.go.
use miu_cr.Base.{
  ℕ, zero, suc, ◌+◌, ◌-◌, ◌<◌, ◌≤◌, ◌≡◌, refl, sym, subst, ◌∙◌, inl, inr, Bool, false, some, List,
  [], ◌∷◌, ◌++◌, arith, Text, length, get_elem?, Bool-cases, ltb, ltb→lt,
}
use miu_cr.Hunk.{Hunk}
use miu_cr.Shift.{walk_hunk, found_or, shift_loop, shift_line}
use miu_cr.Shift.Edits.{
  old_lines, new_lines, start_of, Edits, Deletes, Lands, get_elem?-front, get_elem?-back,
  Walks-walk_hunk,
}

Lands-later :
    (n m : ℕ) (h : Hunk) (hs : List Hunk) (gap lines new : List Text) (t : Text) (r : ℕ × Bool)
    → m ≡ n + length gap + length lines
    → Lands m hs new t r
    → Lands n (h ∷ hs) (gap ++ (lines ++ new)) t r
Lands-later n m h hs gap lines new t r e l = record {
  kept = λ f.
      let (j, at, stands) = l.kept f in
      (
        length gap + (length lines + j),
        omega (arith, at, e),
        get_elem?-back gap (lines ++ new) (length gap + (length lines + j)) (length lines + j) refl
            ∙ get_elem?-back lines new (length lines + j) j refl
            ∙ stands,
      );
  gone = λ f. Deletes.there h hs (l.gone f);
}

-- A line in front of the next hunk.
Lands-gap :
    (o n plus minus i : ℕ) (hs : List Hunk) (gap new : List Text) (t : Text)
    → n + minus ≡ o + plus
    → i < length gap
    → get_elem? gap i ≡ some t
    → Lands n hs (gap ++ new) t (o + suc i + plus - minus, false)
Lands-gap o n plus minus i hs gap new t e b h = record {
  kept = λ f. (i, omega arith, get_elem?-front gap new i b ∙ h);
  gone = λ f. grind arith;
}

start_of-zero : (b c : ℕ) → c ≡ 0 → start_of b c ≡ b
start_of-zero b zero e = refl
start_of-zero b (suc c) e = omega arith

start_of-suc : (b c : ℕ) → 0 < c → start_of b c ≡ suc b
start_of-suc b zero e = omega arith
start_of-suc b (suc c) e = refl

-- The three places of a line against a hunk that starts behind `before` old lines.
module _ (h : Hunk) (hs : List Hunk) (before line plus minus : ℕ) where
  shift_loop-before :
      h.old_start ≡ start_of before h.old_count
      → line ≤ before
      → shift_loop line plus minus (h ∷ hs) ≡ (line + plus - minus, false)
  unfolding shift_loop
  shift_loop-before s b =
      ground (arith, start_of-zero before h.old_count, start_of-suc before h.old_count)

  shift_loop-after :
      h.old_start ≡ start_of before h.old_count
      → before + h.old_count < line
      → shift_loop line plus minus (h ∷ hs)
        ≡ shift_loop line (plus + h.new_count) (minus + h.old_count) hs
  unfolding shift_loop
  shift_loop-after s b =
      ground (arith, start_of-zero before h.old_count, start_of-suc before h.old_count)

  shift_loop-inside :
      h.old_start ≡ start_of before h.old_count
      → before < line
      → line ≤ before + h.old_count
      → shift_loop line plus minus (h ∷ hs)
        ≡ found_or (line + plus - minus, false) (walk_hunk line h.old_start h.new_start h.lines)
  unfolding shift_loop
  shift_loop-inside s b c =
      ground (arith, start_of-zero before h.old_count, start_of-suc before h.old_count)

get_elem?-length : (xs : List Text) (i : ℕ) (t : Text) → get_elem? xs i ≡ some t → i < length xs
get_elem?-length [] i t h = grind arith
get_elem?-length (x ∷ xs) zero t h = omega arith
get_elem?-length (x ∷ xs) (suc i) t h = omega (arith, get_elem?-length xs i t h)

-- A line of the hunk's old side.
Lands-inside :
    (n before plus minus line k : ℕ) (h : Hunk) (hs : List Hunk) (gap new : List Text) (t : Text)
    → h.old_count ≡ length (old_lines h.lines)
    → h.new_count ≡ length (new_lines h.lines)
    → h.old_start ≡ start_of before h.old_count
    → h.new_start ≡ start_of (n + length gap) h.new_count
    → line ≡ suc (before + k)
    → get_elem? (old_lines h.lines) k ≡ some t
    → Lands n (h ∷ hs) (gap ++ (new_lines h.lines ++ new)) t (shift_loop line plus minus (h ∷ hs))
Lands-inside n before plus minus line k h hs gap new t oc nc os ns e at =
    let room = get_elem?-length (old_lines h.lines) k t at in
    let start = start_of-suc before h.old_count (omega arith) in
    let w =
      Walks-walk_hunk h.lines line h.old_start h.new_start k t (omega (arith, start, os, e)) at in
    rw
      (
        shift_loop-inside h hs before line plus minus os (omega arith) (omega (arith, oc, room)),
        w.found,
      )
      (record {
        kept = λ f.
            let (j, place, stands) = w.stays f in
            let inside = get_elem?-length (new_lines h.lines) j t stands in
            let first = start_of-suc (n + length gap) h.new_count (omega (arith, nc, inside)) in
            (
              length gap + j,
              omega (arith, place, ns, first),
              get_elem?-back gap (new_lines h.lines ++ new) (length gap + j) j refl
                  ∙ get_elem?-front (new_lines h.lines) new j inside
                  ∙ stands,
            );
        gone = λ f. Deletes.here h hs (w.goes f);
      })

Lands-shift_loop :
    (hs : List Hunk) (o n plus minus i : ℕ) (old new : List Text) (t : Text)
    → Edits o n hs old new
    → n + minus ≡ o + plus
    → get_elem? old i ≡ some t
    → Lands n hs new t (shift_loop (o + suc i) plus minus hs)
unfolding shift_loop
Lands-shift_loop hs o n plus minus i old new t (Edits.rest a b same) e h = record {
  kept = λ f. (i, omega arith, h);
  gone = λ f. grind arith;
}
Lands-shift_loop hs o n plus minus i old new t
      (Edits.hunk a b gap h later rest_old rest_new oc nc os ns edits) e at =
    elim (Bool-cases (ltb i (length gap))) [
      | inl before ↦
          rw (shift_loop-before h later (o + length gap) (o + suc i) plus minus os (ground arith)) (
            Lands-gap o n plus minus i hs gap _ t e (ltb→lt i (length gap) before)
              (sym (get_elem?-front gap _ i (ltb→lt i (length gap) before)) ∙ at))
      | inr behind ↦ elim (Bool-cases (ltb i (length gap + h.old_count))) [
        | inl inside ↦
            Lands-inside n (o + length gap) plus minus (o + suc i) (i - length gap) h later gap
              rest_new t oc nc os ns (ground arith)
              (sym (
                  get_elem?-back gap (old_lines h.lines ++ rest_old) i (i - length gap)
                    (ground arith)
                  ∙ get_elem?-front (old_lines h.lines) rest_old (i - length gap) (ground arith))
                ∙ at)
        | inr after ↦
            let j = i - length gap - h.old_count in
            let behind_hunk : o + suc i ≡ (o + length gap + h.old_count) + suc j = ground arith in
            rw
              (
                shift_loop-after h later (o + length gap) (o + suc i) plus minus os (ground arith),
                behind_hunk,
              )
              (Lands-later n (n + length gap + h.new_count) h later gap (new_lines h.lines) rest_new
                t _ (omega (arith, nc))
                (Lands-shift_loop later (o + length gap + h.old_count)
                  (n + length gap + h.new_count) (plus + h.new_count) (minus + h.old_count) j
                  rest_old rest_new t edits (omega (arith, e))
                  (sym (
                      get_elem?-back gap (old_lines h.lines ++ rest_old) i (h.old_count + j)
                        (ground arith)
                      ∙ get_elem?-back (old_lines h.lines) rest_old (h.old_count + j) j
                          (omega (arith, oc)))
                    ∙ at)))
      ]
    ]

-- For hunks that lead from the old file to the new one, a line of the old file that the code does
-- not report as removed has its text at the line of the new file that it returns, and a line that
-- it reports as removed has a text that some hunk deletes.
pub shift_line-Lands :
    (hs : List Hunk) (old new : List Text) (i : ℕ) (t : Text)
    → Edits 0 0 hs old new
    → get_elem? old i ≡ some t
    → Lands 0 hs new t (shift_line (suc i) hs)
unfolding shift_line
shift_line-Lands hs old new i t edits at =
    subst (λ n. Lands 0 hs new t (shift_loop n 0 0 hs)) (omega arith)
      (Lands-shift_loop hs 0 0 0 0 i old new t edits (omega arith) at)
