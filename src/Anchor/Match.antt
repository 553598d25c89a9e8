-- ===== src/Anchor/Match.antt =====
-- `matchConsecutive` finds the first run of lines equal to the target, and every target that
-- occurs: internal/engine/anchor/resolver.go.
use mathlib.Core.Path.{subst}
use miu_cr.Base.{
  ℕ, zero, suc, ◌+◌, ◌-◌, ◌<◌, ◌≤◌, ◌≡◌, refl, sym, ap, ◌∙◌, Bool, true, false, ◌&&◌, some, List,
  [], ◌∷◌, ◌++◌, Text, text_eq_iff, length, length-append, drop, arith, Bool-cases, inl, inr,
}
use miu_cr.Anchor.{IndexedLine, match_at, line_num_at, match_loop, match_consecutive}

abbrev pub contents : List IndexedLine → List Text
contents [] = []
contents (l ∷ ls) = l.content ∷ contents ls

-- The target stands in the lines behind `before`; the range is the numbers of its first and last line.
pub record Run (side : List IndexedLine) (target : List Text) (range : ℕ × ℕ) : Type 0 where
  pub before : List IndexedLine
  pub run : List IndexedLine
  pub after : List IndexedLine
  pub split : side ≡ before ++ (run ++ after)
  pub equal : contents run ≡ target
  pub first : range.0 ≡ line_num_at run 0
  pub last : range.1 ≡ line_num_at run (length target - 1)

-- A prefix of the lines that is equal to the target.
record Prefix (side : List IndexedLine) (target : List Text) : Type 0 where
  front : List IndexedLine
  rest : List IndexedLine
  split : side ≡ front ++ rest
  equal : contents front ≡ target

Prefix-cons :
    (l : IndexedLine) {side : List IndexedLine} (t : Text) {ts : List Text}
    → l.content ≡ t
    → Prefix side ts
    → Prefix (l ∷ side) (t ∷ ts)
Prefix-cons l t e p = record {
  front = l ∷ p.front;
  rest = p.rest;
  split = ap (λ x. l ∷ x) p.split;
  equal = cc (e, p.equal);
}

and_left : (a b : Bool) → (a && b) ≡ true → a ≡ true
and_left a b h = ground arith

and_right : (a b : Bool) → (a && b) ≡ true → b ≡ true
and_right a b h = ground arith

match_at-Prefix :
    (side : List IndexedLine) (target : List Text)
    → match_at side target ≡ true
    → Prefix side target
unfolding match_at
match_at-Prefix side [] h = record { front = []; rest = side; split = refl; equal = refl }
match_at-Prefix [] (t ∷ ts) h = cc
match_at-Prefix (l ∷ side) (t ∷ ts) h =
    Prefix-cons l t ((text_eq_iff l.content t).0 (and_left _ _ h))
      (match_at-Prefix side ts (and_right _ _ h))

match_at-append : (run after : List IndexedLine) → match_at (run ++ after) (contents run) ≡ true
unfolding match_at
match_at-append [] after = go after
  where
    go : (after : List IndexedLine) → match_at after [] ≡ true
    go [] = refl
    go (l ∷ ls) = refl
match_at-append (l ∷ run) after =
    rw ((text_eq_iff l.content l.content).1 refl) (match_at-append run after)

line_num_at-append :
    (xs ys : List IndexedLine) (i : ℕ) → i < length xs → line_num_at (xs ++ ys) i ≡ line_num_at xs i
line_num_at-append [] ys i h = elim h [ ]
line_num_at-append (x ∷ xs) ys zero h = refl
line_num_at-append (x ∷ xs) ys (suc i) h = line_num_at-append xs ys i (omega arith)

length-contents : (xs : List IndexedLine) → length (contents xs) ≡ length xs
length-contents [] = refl
length-contents (x ∷ xs) = ap suc (length-contents xs)

-- The range that the loop returns at a match, as numbers of the matched lines.
range_here : List IndexedLine → List Text → ℕ × ℕ
range_here side target = (line_num_at side 0, line_num_at side (length target - 1))

Prefix-Run :
    (side : List IndexedLine) (t : Text) (ts : List Text)
    → Prefix side (t ∷ ts)
    → (q : Run side (t ∷ ts) (range_here side (t ∷ ts))) × (q.before ≡ [])
unfolding range_here
Prefix-Run side t ts p =
    let len : length p.front ≡ suc (length ts) =
      sym (length-contents p.front) ∙ ap length p.equal in
    (
      record {
        before = [];
        run = p.front;
        after = p.rest;
        split = p.split;
        equal = p.equal;
        first =
            ap (λ s. line_num_at s 0) p.split ∙ line_num_at-append p.front p.rest 0 (omega arith);
        last =
            ap (λ s. line_num_at s (length (t ∷ ts) - 1)) p.split
            ∙ line_num_at-append p.front p.rest (length (t ∷ ts) - 1) (omega arith);
      },
      refl,
    )

Run-cons :
    (l : IndexedLine) {side : List IndexedLine} {target : List Text} {r : ℕ × ℕ}
    → Run side target r
    → Run (l ∷ side) target r
Run-cons l q = record {
  before = l ∷ q.before;
  run = q.run;
  after = q.after;
  split = ap (λ s. l ∷ s) q.split;
  equal = q.equal;
  first = q.first;
  last = q.last;
}

Run-drop :
    (side : List IndexedLine) {target : List Text} {r : ℕ × ℕ}
    → Run (drop 1 side) target r
    → Run side target r
Run-drop [] q = q
Run-drop (l ∷ side) q = Run-cons l q

module _ (k : ℕ) (side : List IndexedLine) (t : Text) (ts : List Text) where
  match_loop-here :
      match_at side (t ∷ ts) ≡ true
      → match_loop (suc k) side (t ∷ ts) ≡ some (range_here side (t ∷ ts))
  unfolding match_loop range_here
  match_loop-here h = rw h

  match_loop-later :
      match_at side (t ∷ ts) ≡ false
      → match_loop (suc k) side (t ∷ ts) ≡ match_loop k (drop 1 side) (t ∷ ts)
  unfolding match_loop
  match_loop-later h = rw h

match_loop-Run :
    (k : ℕ) (side : List IndexedLine) (t : Text) (ts : List Text) (r : ℕ × ℕ)
    → match_loop k side (t ∷ ts) ≡ some r
    → Run side (t ∷ ts) r
match_loop-Run zero side t ts r h = unfold match_loop in cc
match_loop-Run (suc k) side t ts r h = elim (Bool-cases (match_at side (t ∷ ts))) [
  | inl here ↦
      subst (Run side (t ∷ ts)) (cc (match_loop-here k side t ts here))
        (Prefix-Run side t ts (match_at-Prefix side (t ∷ ts) here)).0
  | inr later ↦
      Run-drop side
        (match_loop-Run k (drop 1 side) t ts r (sym (match_loop-later k side t ts later) ∙ h))
]

-- A match of the loop that begins no later than after `n` lines.
record First (k : ℕ) (side : List IndexedLine) (t : Text) (ts : List Text) (n : ℕ) : Type 0 where
  range : ℕ × ℕ
  at : Run side (t ∷ ts) range
  early : length at.before ≤ n
  result : match_loop k side (t ∷ ts) ≡ some range

First-here :
    (k : ℕ) (side : List IndexedLine) (t : Text) (ts : List Text) (n : ℕ)
    → match_at side (t ∷ ts) ≡ true
    → First (suc k) side t ts n
First-here k side t ts n h =
    let (q, e) = Prefix-Run side t ts (match_at-Prefix side (t ∷ ts) h) in
    record {
      range = range_here side (t ∷ ts);
      at = q;
      early = rw e (omega arith);
      result = match_loop-here k side t ts h;
    }

match_loop-First :
    (k : ℕ) (before run after : List IndexedLine) (t : Text) (ts : List Text)
    → contents run ≡ t ∷ ts
    → length before < k
    → First k (before ++ (run ++ after)) t ts (length before)
unfolding Run-cons
match_loop-First zero before run after t ts e h = absurd (omega arith)
match_loop-First (suc k) [] run after t ts e h =
    First-here k (run ++ after) t ts 0
      (subst (λ x. match_at (run ++ after) x ≡ true) e (match_at-append run after))
match_loop-First (suc k) (b ∷ bs) run after t ts e h =
    elim (Bool-cases (match_at (b ∷ bs ++ (run ++ after)) (t ∷ ts))) [
      | inl here ↦ First-here k (b ∷ bs ++ (run ++ after)) t ts (length (b ∷ bs)) here
      | inr later ↦
          let ih = match_loop-First k bs run after t ts e (omega arith) in
          record {
            range = ih.range;
            at = Run-cons b ih.at;
            early = omega (arith, ih.early);
            result = match_loop-later k (b ∷ bs ++ (run ++ after)) t ts later ∙ ih.result;
          }
    ]

-- A range that the search returns is the range of a run of lines equal to the target.
pub match_consecutive-Run :
    (side : List IndexedLine) (target : List Text) (r : ℕ × ℕ)
    → match_consecutive side target ≡ some r
    → Run side target r
match_consecutive-Run side [] r h = unfold match_consecutive in cc
match_consecutive-Run side (t ∷ ts) r h =
    match_loop-Run (length side - length (t ∷ ts) + 1) side t ts r
      (unfold match_consecutive in ground arith)

-- Wherever a non-empty target stands in the lines, the search returns the range of a run that
-- begins there or earlier.
pub match_consecutive-first :
    (before run after : List IndexedLine) (t : Text) (ts : List Text)
    → contents run ≡ t ∷ ts
    → let side = before ++ (run ++ after) in
      (r : ℕ × ℕ) × (q : Run side (t ∷ ts) r) × (length q.before ≤ length before)
      × (match_consecutive side (t ∷ ts) ≡ some r)
match_consecutive-first before run after t ts e =
    let side = before ++ (run ++ after) in
    let total : length side ≡ length before + (length run + length after) =
      length-append before (run ++ after) ∙ ap (λ n. length before + n) (length-append run after) in
    let size : length run ≡ suc (length ts) = sym (length-contents run) ∙ ap length e in
    let f =
      match_loop-First (length side - length (t ∷ ts) + 1) before run after t ts e (omega arith) in
    (f.range, f.at, f.early, unfold match_consecutive in ground (arith, f.result))
