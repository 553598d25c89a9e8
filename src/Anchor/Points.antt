-- ===== src/Anchor/Points.antt =====
-- A finding that is anchored points at the code it quotes: internal/engine/anchor/resolver.go.
use miu_cr.Base.{
  ℕ, ◌-◌, ◌≡◌, refl, sym, ap, ◌∙◌, ◌⊎◌, inl, inr, Bool, true, false, Option, none, some, List, [],
  ◌∷◌, ◌++◌, arith, Text, length, All, split_lines, if◌then◌else◌, Option-cases,
}
use mathlib.Core.Path.{subst}
use miu_cr.Finding.{Finding, Diff}
use miu_cr.Hunk.{Hunk, parse_hunks}
use miu_cr.Anchor.{
  IndexedLine, normalize_line, line_num_at, is_text, is_nil, split_and_normalize,
  extract_side_lines, match_consecutive, match_hunks, resolve_from_hunk, file_lines,
  resolve_from_file_content, set_range, find_range, resolve_finding,
}
use miu_cr.Anchor.Match.{contents, Run, match_consecutive-Run, match_consecutive-first}
use miu_cr.Anchor.Sides.{
  Reads, PointsAt, FitsHunk, side_file, extract_side_lines-PointsAt, file_lines-PointsAt,
}

abbrev pub last_text : Text → List Text → Text
last_text t [] = t
last_text t (u ∷ us) = last_text u us

-- The range begins at a line of the file that is the first line of the target, and ends at one that
-- is the last.
pub record Anchored (file : List Text) (t : Text) (ts : List Text) (range : ℕ × ℕ) : Type 0 where
  pub begins : Reads file range.0 t
  pub ends : Reads file range.1 (last_text t ts)

All-part :
    (P : IndexedLine → Type 0) (before run after : List IndexedLine)
    → All P (before ++ (run ++ after))
    → All P run
All-part P [] [] after h = tt
All-part P [] (x ∷ run) after h = (h.0, All-part P [] run after h.1)
All-part P (b ∷ before) run after h = All-part P before run after h.1

first-Reads :
    (file : List Text) (run : List IndexedLine) (t : Text) (ts : List Text)
    → contents run ≡ t ∷ ts
    → All (PointsAt file) run
    → Reads file (line_num_at run 0) t
first-Reads file [] t ts e h = cc
first-Reads file (x ∷ run) t ts e h = subst (Reads file x.line_num) (cc) h.0

last-Reads :
    (file : List Text) (run : List IndexedLine) (t : Text) (ts : List Text)
    → contents run ≡ t ∷ ts
    → All (PointsAt file) run
    → Reads file (line_num_at run (length ts)) (last_text t ts)
last-Reads file [] t ts e h = cc
last-Reads file (x ∷ run) t [] e h = subst (Reads file x.line_num) (cc) h.0
last-Reads file (x ∷ run) t (u ∷ us) e h = last-Reads file run u us (cc) h.1

Run-Anchored :
    (file : List Text) (side : List IndexedLine) (t : Text) (ts : List Text) (r : ℕ × ℕ)
    → All (PointsAt file) side
    → Run side (t ∷ ts) r
    → Anchored file t ts r
Run-Anchored file side t ts r h q =
    let part : All (PointsAt file) q.run =
      All-part (PointsAt file) q.before q.run q.after (subst (All (PointsAt file)) q.split h) in
    let size : length (t ∷ ts) - 1 ≡ length ts = omega arith in
    record {
      begins = subst (λ n. Reads file n t) (sym q.first) (first-Reads file q.run t ts q.equal part);
      ends =
          subst (λ n. Reads file n (last_text t ts)) (sym (q.last ∙ ap (line_num_at q.run) size))
            (last-Reads file q.run t ts q.equal part);
    }

module _ (old_file new_file : List Text) where
  match_hunks-Anchored :
      (new_side : Bool) (t : Text) (ts : List Text) (hs : List Hunk) (r : ℕ × ℕ)
      → All (FitsHunk old_file new_file) hs
      → match_hunks new_side (t ∷ ts) hs ≡ some r
      → Anchored (side_file new_side old_file new_file) t ts r
  unfolding match_hunks
  match_hunks-Anchored new_side t ts [] r p h = cc
  match_hunks-Anchored new_side t ts (x ∷ hs) r p h =
      elim (Option-cases (match_consecutive (extract_side_lines x new_side) (t ∷ ts))) [
        | inl miss ↦ match_hunks-Anchored new_side t ts hs r p.1 (ground arith)
        | inr (q, hit) ↦
            Run-Anchored (side_file new_side old_file new_file) (extract_side_lines x new_side) t ts
              r (extract_side_lines-PointsAt old_file new_file x new_side p.0)
              (match_consecutive-Run (extract_side_lines x new_side) (t ∷ ts) r (ground arith))
      ]

module _ (d : Diff) (old_file : List Text) where
  find_range-Anchored :
      (t : Text) (ts : List Text) (r : ℕ × ℕ)
      → All (FitsHunk old_file (split_lines d.new_file_content)) (parse_hunks d.diff)
      → find_range (t ∷ ts) d ≡ some r
      → Anchored (split_lines d.new_file_content) t ts r ⊎ Anchored old_file t ts r
  unfolding find_range
  find_range-Anchored t ts r p h =
      let hunks = parse_hunks d.diff in
      let new_file = split_lines d.new_file_content in
      elim (Option-cases (match_hunks true (t ∷ ts) hunks)) [
        | inr (q, new_hit) ↦
            inl (match_hunks-Anchored old_file new_file true t ts hunks r p (ground arith))
        | inl new_miss ↦ elim (Option-cases (match_hunks false (t ∷ ts) hunks)) [
          | inr (q, old_hit) ↦
              inr (match_hunks-Anchored old_file new_file false t ts hunks r p (ground arith))
          | inl old_miss ↦ inl (
              Run-Anchored new_file (file_lines 0 new_file) t ts r (file_lines-PointsAt new_file)
                (match_consecutive-Run (file_lines 0 new_file) (t ∷ ts) r (ground arith)))
        ]
      ]

set_range-some :
    (f : Finding) (o : Option (ℕ × ℕ))
    → (set_range f o).1 ≡ true
    → o ≡ some ((set_range f o).0.line, (set_range f o).0.end_line)
set_range-some f none h = cc
set_range-some f (some (s, e)) h = refl

quoted_range : Finding → Diff → Option (ℕ × ℕ)
quoted_range f d =
    if is_text f.quoted_code then find_range (split_and_normalize f.quoted_code) d else none

resolve_finding-range :
    (f : Finding) (d : Diff) → resolve_finding f d ≡ set_range f (quoted_range f d)
unfolding resolve_finding quoted_range
resolve_finding-range f d = refl

-- What `ResolveFinding` promises of a finding: its quote has lines, and the range that it was given
-- begins and ends, in the new or the old file, at the first and the last of them.
pub record PointsAtQuote (old_file new_file : List Text) (f : Finding) : Type 0 where
  pub t : Text
  pub ts : List Text
  pub quote : split_and_normalize f.quoted_code ≡ t ∷ ts
  pub where_found :
      Anchored new_file t ts (f.line, f.end_line) ⊎ Anchored old_file t ts (f.line, f.end_line)

quoted_range-target :
    (f : Finding) (d : Diff) (r : ℕ × ℕ)
    → quoted_range f d ≡ some r
    → find_range (split_and_normalize f.quoted_code) d ≡ some r
unfolding quoted_range
quoted_range-target f d r h = ground arith

find_range-cons :
    (target : List Text) (d : Diff) (r : ℕ × ℕ)
    → find_range target d ≡ some r
    → (t : Text) × (ts : List Text) × (target ≡ t ∷ ts)
unfolding find_range
find_range-cons [] d r h = cc
find_range-cons (t ∷ ts) d r h = (t, ts, refl)

set_range-PointsAtQuote :
    (old_file new_file : List Text) (f : Finding) (t : Text) (ts : List Text) (r : ℕ × ℕ)
    → split_and_normalize f.quoted_code ≡ t ∷ ts
    → Anchored new_file t ts r ⊎ Anchored old_file t ts r
    → PointsAtQuote old_file new_file (set_range f (some r)).0
set_range-PointsAtQuote old_file new_file f t ts (s, e) q found = record {
  t = t;
  ts = ts;
  quote = q;
  where_found = found;
}

-- When the diff's hunks are hunks of the change from the old file to the new content, a finding
-- that is anchored points, in one of the two files, at lines that read as the first and the last
-- line of its quote, up to surrounding blanks and diff markers.
pub resolve_finding-PointsAtQuote :
    (f : Finding) (d : Diff) (old_file : List Text)
    → All (FitsHunk old_file (split_lines d.new_file_content)) (parse_hunks d.diff)
    → (resolve_finding f d).1 ≡ true
    → PointsAtQuote old_file (split_lines d.new_file_content) (resolve_finding f d).0
resolve_finding-PointsAtQuote f d old_file p h =
    let new_file = split_lines d.new_file_content in
    let resolved = resolve_finding-range f d in
    let o = quoted_range f d in
    let r : ℕ × ℕ = ((set_range f o).0.line, (set_range f o).0.end_line) in
    let e : o ≡ some r = set_range-some f o (rw resolved at h) in
    let found = quoted_range-target f d r e in
    let (t, ts, q) = find_range-cons (split_and_normalize f.quoted_code) d r found in
    subst (λ x. PointsAtQuote old_file new_file x.0) (sym (resolved ∙ ap (set_range f) e))
      (set_range-PointsAtQuote old_file new_file f t ts r q
        (find_range-Anchored d old_file t ts r p (subst (λ x. find_range x d ≡ some r) q found)))

quote-is_text : (q t : Text) (ts : List Text) → split_and_normalize q ≡ t ∷ ts → is_text q ≡ true
unfolding split_and_normalize
quote-is_text [] t ts e = cc
quote-is_text (c ∷ q) t ts e = refl

-- A file without content has no lines to match.
content-is_text :
    (content : Text) (before run after : List IndexedLine) (t : Text) (ts : List Text)
    → file_lines 0 (split_lines content) ≡ before ++ (run ++ after)
    → contents run ≡ t ∷ ts
    → is_text content ≡ true
unfolding file_lines split_lines normalize_line
content-is_text [] [] [] after t ts e f = cc
content-is_text [] [] (x ∷ run) after t ts e f = cc
content-is_text [] (b ∷ before) run after t ts e f = cc
content-is_text (c ∷ content) before run after t ts e f = refl

find_range-some :
    (d : Diff) (target : List Text) (r : ℕ × ℕ)
    → is_nil target ≡ false
    → resolve_from_file_content d target ≡ some r
    → (q : ℕ × ℕ) × (find_range target d ≡ some q)
find_range-some d target r n h = elim (Option-cases (resolve_from_hunk d target)) [
  | inl miss ↦ (r, unfold find_range in ground arith)
  | inr (q, hit) ↦ (q, unfold find_range in ground arith)
]

-- A quote whose lines follow one another in the new file, blank lines left out, is never rejected.
pub resolve_finding_complete :
    (f : Finding) (d : Diff) (before run after : List IndexedLine) (t : Text) (ts : List Text)
    → file_lines 0 (split_lines d.new_file_content) ≡ before ++ (run ++ after)
    → contents run ≡ t ∷ ts
    → split_and_normalize f.quoted_code ≡ t ∷ ts
    → (resolve_finding f d).1 ≡ true
resolve_finding_complete f d before run after t ts lines e q =
    let (r, run_at, early, hit) = match_consecutive-first before run after t ts e in
    let shown = content-is_text d.new_file_content before run after t ts lines e in
    let content : resolve_from_file_content d (t ∷ ts) ≡ some r =
      unfold resolve_from_file_content in rw (shown, lines) hit in
    let (range, found) = find_range-some d (t ∷ ts) r refl content in
    rw (resolve_finding-range f d)
      (unfold quoted_range in rw (quote-is_text f.quoted_code t ts q, q, found))
