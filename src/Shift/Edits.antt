-- ===== src/Shift/Edits.antt =====
-- What the hunks of a diff do to the lines of a file, and the walk through one hunk: internal/github/stable_line.go.
use miu_cr.Base.{
  ℕ, zero, suc, ◌+◌, ◌<◌, ◌≡◌, refl, ap, ◌∙◌, Bool, true, false, Option, some, List, [], ◌∷◌, ◌++◌,
  arith, Text, length, get_elem?,
}
use miu_cr.Hunk.{HunkLineType, hunk_context, hunk_added, hunk_deleted, HunkLine, Hunk}
use miu_cr.Shift.{walk_hunk}

-- The lines of a hunk that stand in the old file, and those in the new one.
abbrev pub old_lines : List HunkLine → List Text
old_lines [] = []
old_lines (l ∷ ls) = elim l.kind [ hunk_added ↦ old_lines ls | _ ↦ l.content ∷ old_lines ls ]

abbrev pub new_lines : List HunkLine → List Text
new_lines [] = []
new_lines (l ∷ ls) = elim l.kind [ hunk_deleted ↦ new_lines ls | _ ↦ l.content ∷ new_lines ls ]

-- The number that a header gives for a side that starts after `before` lines.
abbrev pub start_of : ℕ → ℕ → ℕ
start_of before zero = before
start_of before (suc count) = suc before

-- The hunks lead from the old lines to the new ones, past the first `o` lines of the old file and
-- the first `n` of the new. The last hunk of an output of git that ends in a newline does not fit:
-- the parser reads the empty line at the end as one more line of it.
pub data Edits : ℕ → ℕ → List Hunk → List Text → List Text → Type 0 where
  rest : (o n : ℕ) (same : List Text) → Edits o n [] same same
  hunk :
      (o n : ℕ) (gap : List Text) (h : Hunk) (hs : List Hunk) (old new : List Text)
      → h.old_count ≡ length (old_lines h.lines)
      → h.new_count ≡ length (new_lines h.lines)
      → h.old_start ≡ start_of (o + length gap) h.old_count
      → h.new_start ≡ start_of (n + length gap) h.new_count
      → Edits (o + length gap + h.old_count) (n + length gap + h.new_count) hs old new
      → Edits o n (h ∷ hs) (gap ++ (old_lines h.lines ++ old)) (gap ++ (new_lines h.lines ++ new))

-- Some hunk deletes the text.
pub data DeletesLine (t : Text) : List HunkLine → Type 0 where
  this :
      (l : HunkLine) (ls : List HunkLine)
      → l.kind ≡ hunk_deleted
      → l.content ≡ t
      → DeletesLine t (l ∷ ls)
  that : (l : HunkLine) (ls : List HunkLine) → DeletesLine t ls → DeletesLine t (l ∷ ls)

pub data Deletes (t : Text) : List Hunk → Type 0 where
  here : (h : Hunk) (hs : List Hunk) → DeletesLine t h.lines → Deletes t (h ∷ hs)
  there : (h : Hunk) (hs : List Hunk) → Deletes t hs → Deletes t (h ∷ hs)

-- Behind `n` lines of the new file, the result names the line with the text, or the text is deleted.
pub record Lands (n : ℕ) (hs : List Hunk) (new : List Text) (t : Text) (r : ℕ × Bool) : Type 0 where
  pub kept : r.1 ≡ false → (j : ℕ) × (r.0 ≡ n + suc j) × (get_elem? new j ≡ some t)
  pub gone : r.1 ≡ true → Deletes t hs

pub get_elem?-front :
    (xs ys : List Text) (i : ℕ) → i < length xs → get_elem? (xs ++ ys) i ≡ get_elem? xs i
get_elem?-front [] ys i h = elim h [ ]
get_elem?-front (x ∷ xs) ys zero h = refl
get_elem?-front (x ∷ xs) ys (suc i) h = get_elem?-front xs ys i (omega arith)

pub get_elem?-back :
    (xs ys : List Text) (i j : ℕ) → i ≡ length xs + j → get_elem? (xs ++ ys) i ≡ get_elem? ys j
get_elem?-back [] ys i j e = ap (get_elem? ys) (omega arith)
get_elem?-back (x ∷ xs) ys zero j e = grind arith
get_elem?-back (x ∷ xs) ys (suc i) j e = get_elem?-back xs ys i j (omega arith)

-- What the walk finds for the line at `k` of the hunk's old side.
pub record Walks (new_n : ℕ) (ls : List HunkLine) (t : Text) (r : Option (ℕ × Bool)) : Type 0 where
  pub line : ℕ
  pub removed : Bool
  pub found : r ≡ some (line, removed)
  pub stays : removed ≡ false → (j : ℕ) × (line ≡ new_n + j) × (get_elem? (new_lines ls) j ≡ some t)
  pub goes : removed ≡ true → DeletesLine t ls

module _ (t : Text) (l : HunkLine) (ls : List HunkLine) (new_n : ℕ) (r : Option (ℕ × Bool)) where
  later-Walks :
      new_lines (l ∷ ls) ≡ l.content ∷ new_lines ls
      → Walks (suc new_n) ls t r
      → Walks new_n (l ∷ ls) t r
  later-Walks k w = record {
    line = w.line;
    removed = w.removed;
    found = w.found;
    stays = λ h.
        let (j, at, stands) = w.stays h in
        (suc j, omega (arith, at), ap (λ x. get_elem? x (suc j)) k ∙ stands);
    goes = λ h. DeletesLine.that l ls (w.goes h);
  }

  same-Walks : new_lines (l ∷ ls) ≡ new_lines ls → Walks new_n ls t r → Walks new_n (l ∷ ls) t r
  same-Walks k w = record {
    line = w.line;
    removed = w.removed;
    found = w.found;
    stays = λ h. let (j, at, stands) = w.stays h in (j, at, ap (λ x. get_elem? x j) k ∙ stands);
    goes = λ h. DeletesLine.that l ls (w.goes h);
  }

abbrev line_of_kind : HunkLineType → Text → HunkLine
line_of_kind kind content = record { kind = kind; content = content }

module _ (content : Text) (ls : List HunkLine) (line old_n new_n k : ℕ) where
  walk_hunk-added :
      walk_hunk line old_n new_n (line_of_kind hunk_added content ∷ ls)
      ≡ walk_hunk line old_n (suc new_n) ls
  unfolding walk_hunk
  walk_hunk-added = refl

  walk_hunk-deleted :
      line ≡ old_n + 0
      → walk_hunk line old_n new_n (line_of_kind hunk_deleted content ∷ ls) ≡ some (0, true)
  unfolding walk_hunk
  walk_hunk-deleted e = ground arith

  walk_hunk-deleted_later :
      line ≡ old_n + suc k
      → walk_hunk line old_n new_n (line_of_kind hunk_deleted content ∷ ls)
        ≡ walk_hunk line (suc old_n) new_n ls
  unfolding walk_hunk
  walk_hunk-deleted_later e = ground arith

  walk_hunk-context :
      line ≡ old_n + 0
      → walk_hunk line old_n new_n (line_of_kind hunk_context content ∷ ls) ≡ some (new_n, false)
  unfolding walk_hunk
  walk_hunk-context e = ground arith

  walk_hunk-context_later :
      line ≡ old_n + suc k
      → walk_hunk line old_n new_n (line_of_kind hunk_context content ∷ ls)
        ≡ walk_hunk line (suc old_n) (suc new_n) ls
  unfolding walk_hunk
  walk_hunk-context_later e = ground arith

pub Walks-walk_hunk :
    (ls : List HunkLine) (line old_n new_n k : ℕ) (t : Text)
    → line ≡ old_n + k
    → get_elem? (old_lines ls) k ≡ some t
    → Walks new_n ls t (walk_hunk line old_n new_n ls)
Walks-walk_hunk [] line old_n new_n k t e h = grind arith
Walks-walk_hunk (l ∷ ls) line old_n new_n k t e h =
    go (λ o n j. Walks-walk_hunk ls line o n j t) l.kind l.content k e h
  where
    go :
        ((o n j : ℕ)
          → line ≡ o + j
          → get_elem? (old_lines ls) j ≡ some t
          → Walks n ls t (walk_hunk line o n ls))
        → (kind : HunkLineType) (content : Text) (k : ℕ) → line ≡ old_n + k
        → get_elem? (old_lines (line_of_kind kind content ∷ ls)) k ≡ some t
        → Walks new_n
            (line_of_kind kind content ∷ ls)
            t
            (walk_hunk line old_n new_n (line_of_kind kind content ∷ ls))
    go again hunk_added content k e h =
        rw (walk_hunk-added content ls line old_n new_n k)
          (later-Walks t _ ls new_n _ refl (again old_n (suc new_n) k e h))
    go again hunk_deleted content zero e h =
        rw (walk_hunk-deleted content ls line old_n new_n 0 e) (record {
          line = 0;
          removed = true;
          found = refl;
          stays = λ f. grind arith;
          goes = λ f. DeletesLine.this _ ls refl (grind arith);
        })
    go again hunk_deleted content (suc k) e h =
        rw (walk_hunk-deleted_later content ls line old_n new_n k e)
          (same-Walks t _ ls new_n _ refl (again (suc old_n) new_n k (omega (arith, e)) h))
    go again hunk_context content zero e h =
        rw (walk_hunk-context content ls line old_n new_n 0 e) (record {
          line = new_n;
          removed = false;
          found = refl;
          stays = λ f. (0, omega arith, h);
          goes = λ f. grind arith;
        })
    go again hunk_context content (suc k) e h =
        rw (walk_hunk-context_later content ls line old_n new_n k e)
          (later-Walks t _ ls new_n _ refl (again (suc old_n) (suc new_n) k (omega (arith, e)) h))
