-- ===== src/Stable/Remap.antt =====
-- Where the ledger's lines point after follow-up commits: internal/github/stable_line.go.
use miu_cr.Base.{
  ℕ, suc, ◌≡◌, ◌⊎◌, refl, sym, ap, subst, ◌∙◌, true, false, ◌||◌, none, some, List, [], ◌∷◌, ◌++◌,
  All, arith, Text, text_eq, text_eq_iff, get_elem?, Bool-cases, Option-cases, inl, inr,
  if◌then◌else◌,
}
use miu_cr.Finding.{Diff}
use miu_cr.Anchor.{is_text}
use miu_cr.Hunk.{parse_hunks}
use miu_cr.Ledger.{LedgerEntry}
use miu_cr.Shift.{shift_line}
use miu_cr.Shift.Edits.{Edits, Lands}
use miu_cr.Shift.Follows.{shift_line-Lands}
use miu_cr.Stable.{dev_null, match_diff, Remapped, remap_in, remap_anchor}

remap_anchor-remap_in :
    (e : LedgerEntry) (delta : List Diff) (d : Diff) (i : ℕ)
    → match_diff e.path delta ≡ some d
    → (d.is_deleted || text_eq d.new_path dev_null || d.is_new) ≡ false
    → e.line ≡ suc i
    → remap_anchor e delta ≡ remap_in e d
unfolding remap_anchor
remap_anchor-remap_in e delta d i m edited line = ground arith

remap_in-shift_line :
    (e : LedgerEntry) (d : Diff)
    → ((remap_in e d).line, (remap_in e d).removed) ≡ shift_line e.line (parse_hunks d.diff)
unfolding remap_in
remap_in-shift_line e d = refl

path-remap_in :
    (e : LedgerEntry) (d : Diff)
    → (d.is_deleted || text_eq d.new_path dev_null || d.is_new) ≡ false
    → (remap_in e d).path ≡ (if is_text d.new_path then d.new_path else e.path)
unfolding remap_in
path-remap_in e d h = ground arith

-- The diff is about the path, under its old name or its new one.
abbrev pub Names : Text → Diff → Type 0
Names path d = (d.new_path ≡ path) ⊎ (d.old_path ≡ path)

-- The first of the diffs that is about the path.
pub record FirstFor (path : Text) (delta : List Diff) (d : Diff) : Type 0 where
  pub before : List Diff
  pub after : List Diff
  pub parts : delta ≡ before ++ d ∷ after
  pub others : All (λ x. ¬ Names path x) before
  pub named : Names path d

-- The commits delete the file of the diff, or put another in its place.
abbrev pub Replaces : Diff → Type 0
Replaces d = (d.is_deleted ≡ true) ⊎ ((d.new_path ≡ dev_null) ⊎ (d.is_new ≡ true))

-- The path of a file that the commits edit; a diff without a new path keeps the row's.
abbrev pub edited_path : LedgerEntry → Diff → Text
edited_path e d = if is_text d.new_path then d.new_path else e.path

-- What happens to a row at a text `t`: no commit touches its file, which keeps it where it is; the
-- first diff about its file deletes or replaces that, which removes it; or that diff edits the file,
-- and it lands where `t` then stands in `new`, under the file's new path.
pub data Follows (e : LedgerEntry) (delta : List Diff) (new : List Text) (t : Text) (r : Remapped)
    : Type 0 where
  untouched :
      All (λ d. ¬ Names e.path d) delta
      → r ≡ record { path = e.path; line = e.line; removed = false }
      → Follows e delta new t r
  replaced :
      (d : Diff) → FirstFor e.path delta d → Replaces d → r.removed ≡ true → Follows e delta new t r
  moved :
      (d : Diff)
      → FirstFor e.path delta d
      → ¬ Replaces d
      → Lands 0 (parse_hunks d.diff) new t (r.line, r.removed)
      → r.path ≡ edited_path e d
      → Follows e delta new t r

match_diff-none :
    (path : Text) (delta : List Diff)
    → match_diff path delta ≡ none
    → All (λ d. ¬ Names path d) delta
unfolding match_diff
match_diff-none path [] h = tt
match_diff-none path (d ∷ ds) h = (
  λ n. ground (arith, h, n, text_eq_iff d.new_path path, text_eq_iff d.old_path path),
  match_diff-none path ds (ground (arith, h)),
)

match_diff-FirstFor :
    (path : Text) (delta : List Diff) (d : Diff)
    → match_diff path delta ≡ some d
    → FirstFor path delta d
unfolding match_diff
match_diff-FirstFor path [] d h = cc
match_diff-FirstFor path (x ∷ xs) d h =
    elim (Bool-cases (text_eq x.new_path path || text_eq x.old_path path)) [
      | inl hit ↦ record {
        before = [];
        after = xs;
        parts = ground (arith, h, hit);
        others = tt;
        named = ground (arith, h, hit, text_eq_iff x.new_path path, text_eq_iff x.old_path path);
      }
      | inr miss ↦
          let first = match_diff-FirstFor path xs d (ground (arith, h, miss)) in
          record {
            before = x ∷ first.before;
            after = first.after;
            parts = ap (λ l. x ∷ l) first.parts;
            others = (
              λ n.
                  ground (arith, miss, n, text_eq_iff x.new_path path, text_eq_iff x.old_path path),
              first.others,
            );
            named = first.named;
          }
    ]

-- Wherever the follow-up commits lead, provided that the first diff about the row's file, if it
-- edits the file, leads by its hunks from `old`, where the row's line has the text `t`, to `new`: a
-- row whose file no diff is about, under its old or its new name, stays; a row whose file is deleted,
-- or replaced by a new one, is removed; and a row whose file is edited is either remapped to the line
-- where its text now stands, under the file's new path, or removed when a hunk deletes its text.
pub remap_anchor-Follows :
    (e : LedgerEntry) (delta : List Diff) (old new : List Text) (i : ℕ) (t : Text)
    → e.line ≡ suc i
    → get_elem? old i ≡ some t
    → ((d : Diff) → FirstFor e.path delta d → ¬ Replaces d → Edits 0 0 (parse_hunks d.diff) old new)
    → Follows e delta new t (remap_anchor e delta)
unfolding remap_anchor
remap_anchor-Follows e delta old new i t line at edits =
    elim (Option-cases (match_diff e.path delta)) [
      | inl h ↦ Follows.untouched (match_diff-none e.path delta h) (rw (h, remap_anchor) refl)
      | inr (d, h) ↦
          let first = match_diff-FirstFor e.path delta d h in
          elim (Bool-cases (d.is_deleted || text_eq d.new_path dev_null || d.is_new)) [
            | inl gone ↦
                Follows.replaced d first (ground (arith, gone, text_eq_iff d.new_path dev_null))
                  (rw (h, gone, remap_anchor) refl)
            | inr edited ↦
                let stays : ¬ Replaces d =
                  λ x. ground (arith, x, edited, text_eq_iff d.new_path dev_null) in
                let hs = parse_hunks d.diff in
                let same = remap_anchor-remap_in e delta d i h edited line in
                let moved : ((remap_anchor e delta).line, (remap_anchor e delta).removed)
                    ≡ shift_line (suc i) hs =
                  ap (λ (r : Remapped). (r.line, r.removed)) same
                  ∙ remap_in-shift_line e d
                  ∙ ap (λ n. shift_line n hs) line in
                Follows.moved d first stays
                  (subst (Lands 0 hs new t) (sym moved)
                    (shift_line-Lands hs old new i t (edits d first stays) at))
                  (ap (λ (r : Remapped). r.path) same ∙ path-remap_in e d edited)
          ]
    ]
