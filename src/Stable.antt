-- ===== src/Stable.antt =====
-- Carrying the ledger over follow-up commits: internal/github/stable.go,
-- internal/github/stable_line.go and internal/github/stable_anchor.go.
pub mod Remap
use miu_cr.Base.{
  ℕ, zero, suc, ◌+◌, String, Bool, true, false, not, ◌&&◌, ◌||◌, Option, none, some, List, [], ◌∷◌,
  ◌++◌, Text, codes, text_eq, trim_space, split_lines, str_eq, map, keep, any, length, ltb, leb,
  ◌==◌, if◌then◌else◌,
}
use miu_cr.Finding.{Finding, Diff}
use miu_cr.Hunk.{HunkLineType, hunk_context, hunk_added, hunk_deleted, HunkLine, Hunk, parse_hunks}
use miu_cr.Anchor.{is_text}
use miu_cr.Ledger.{LedgerEntry, normalize_for_fingerprint, fingerprint, seen_by}
use miu_cr.Shift.{shift_line}

abbrev pub dev_null : Text
dev_null = codes "/dev/null"

-- The statuses open, reopened and deferred.
unfoldable pub is_active : LedgerEntry → Bool
is_active e = str_eq e.status "open" || str_eq e.status "reopened" || str_eq e.status "deferred"

unfoldable pub is_unsettled : LedgerEntry → Bool
is_unsettled e = str_eq e.status "open" || str_eq e.status "reopened"

unfoldable pub match_diff : Text → List Diff → Option Diff
match_diff path [] = none
match_diff path (d ∷ ds) =
    let rest = match_diff path ds in
    if text_eq d.new_path path || text_eq d.old_path path then some d else rest

pub record Remapped : Type 0 where
  pub path : Text
  pub line : ℕ
  pub removed : Bool

-- The hunks of the diff move the line.
unfoldable pub remap_in : LedgerEntry → Diff → Remapped
unfolding shift_line parse_hunks
remap_in e d =
    let (line, removed) = shift_line e.line (parse_hunks d.diff) in
    record {
      path = if not (is_text d.new_path) || text_eq d.new_path dev_null then e.path else d.new_path;
      line = line;
      removed = removed;
    }

unfoldable pub remap_anchor : LedgerEntry → List Diff → Remapped
unfolding match_diff remap_in
remap_anchor e delta = elim (match_diff e.path delta) [
  | none ↦ record { path = e.path; line = e.line; removed = false }
  | some d ↦
      if d.is_deleted || text_eq d.new_path dev_null || d.is_new
      then record { path = []; line = 0; removed = true }
      else if e.line == 0
      then record { path = e.path; line = e.line; removed = true }
      else remap_in e d
]

pub record AnchorShift : Type 0 where
  pub path : Text
  pub line : ℕ

abbrev pub Shifts : Type 0
Shifts = Text → Option AnchorShift

abbrev put_shift : Shifts → Text → AnchorShift → Shifts
put_shift m fp s q = if text_eq fp q then some s else m q

-- The loop; the result without an entry stands for nil.
unfoldable pub shifted_loop : Shifts → List LedgerEntry → List Diff → Shifts
unfolding is_active remap_anchor
shifted_loop m [] delta = m
shifted_loop m (e ∷ es) delta =
    let r = remap_anchor e delta in
    let skip =
      not (is_active e)
      || not (is_text e.fp)
      || r.removed
      || r.line == 0
      || r.line == e.line && text_eq r.path e.path in
    shifted_loop (if skip then m else put_shift m e.fp (record { path = r.path; line = r.line })) es
      delta

-- `none` is the nil delta.
unfoldable pub shifted_lines : List LedgerEntry → Option (List Diff) → Shifts
unfolding shifted_loop
shifted_lines prior none = λ q. none
shifted_lines prior (some delta) = shifted_loop (λ q. none) prior delta

unfoldable pub apply_shift : Shifts → LedgerEntry → LedgerEntry
unfolding is_active
apply_shift shifted e = elim (shifted e.fp) [
  | none ↦ e
  | some s ↦ if not (is_active e) then e else record e {
    line = if s.line == 0 then e.line else s.line;
    path = if not (is_text s.path) || text_eq s.path dev_null then e.path else s.path;
  }
]

unfoldable pub apply_shifted_lines : List LedgerEntry → Shifts → List LedgerEntry
unfolding apply_shift
apply_shifted_lines es shifted = map (apply_shift shifted) es

-- `none` is the nil delta, and the nil result.
unfoldable pub untouched_anchors : List LedgerEntry → Option (List Diff) → Option (Text → Bool)
unfolding is_active remap_anchor
untouched_anchors prior none = none
untouched_anchors prior (some delta) = some (λ fp.
    any (λ e. text_eq fp e.fp && is_active e && is_text e.fp && not (remap_anchor e delta).removed)
      prior)

-- The last entry of each fingerprint.
unfoldable pub prev_of : (Text → Option LedgerEntry) → List LedgerEntry → Text → Option LedgerEntry
prev_of m [] = m
prev_of m (e ∷ es) = prev_of (λ q. if text_eq e.fp q then some e else m q) es

unfoldable pub restore_with : (LedgerEntry → Bool) → Option LedgerEntry → LedgerEntry → LedgerEntry
unfolding is_active
restore_with keeps none e = e
restore_with keeps (some p) e =
    if not (keeps p)
      || not (is_active p)
      || not (str_eq e.status "resolved")
      || not (str_eq e.res_kind "")
    then e
    else record e {
      status = p.status;
      res_sha = p.res_sha;
      res_kind = p.res_kind;
      res_at = p.res_at;
      note = p.note;
    }

unfoldable pub restore_preserved :
    List LedgerEntry → List LedgerEntry → (LedgerEntry → Bool) → List LedgerEntry
unfolding prev_of restore_with
restore_preserved merged prior keeps =
    map (λ e. restore_with keeps (prev_of (λ q. none) prior e.fp) e) merged

unfoldable pub preserve_untouched_anchors :
    List LedgerEntry → List LedgerEntry → Option (Text → Bool) → List LedgerEntry
unfolding restore_preserved
preserve_untouched_anchors merged prior none = merged
preserve_untouched_anchors merged [] (some untouched) = merged
preserve_untouched_anchors merged (p ∷ ps) (some untouched) =
    restore_preserved merged (p ∷ ps) (λ e. untouched e.fp)

-- Whether the path is one of the two of some changed file.
unfoldable pub is_changed : List Diff → Text → Bool
is_changed delta p =
    is_text p
    && not (text_eq p dev_null)
    && any (λ d. text_eq d.new_path p || text_eq d.old_path p) delta

unfoldable pub stable_paths :
    List Text → List LedgerEntry → Option (List Diff) → Option (Text → Bool)
unfolding is_changed
stable_paths files prior none = none
stable_paths files prior (some delta) = some (λ q.
    is_text q
    && not (is_changed delta q)
    && (any (text_eq q) files || any (λ e. text_eq q e.path) prior))

module _ (sha256 : Text → Text) where
  unfoldable pub resolve_removed :
      List LedgerEntry → (Text → Bool) → List Finding → Text → Text → LedgerEntry → LedgerEntry
  unfolding is_unsettled
  resolve_removed prior untouched current head_sha now e =
      if any (λ f. text_eq (fingerprint sha256 f) e.fp) current
        || untouched e.fp
        || not (any (λ p. text_eq p.fp e.fp && is_text p.fp && is_unsettled p) prior)
        || not (is_unsettled e)
      then e
      else record e {
        status = "resolved";
        res_sha = head_sha;
        res_kind = "";
        res_at = now;
        note = [];
      }

  unfoldable pub resolve_removed_anchors :
      List LedgerEntry
      → List LedgerEntry
      → Option (Text → Bool)
      → List Finding
      → Text
      → Text
      → List LedgerEntry
  unfolding resolve_removed
  resolve_removed_anchors ledger prior none current head_sha now = ledger
  resolve_removed_anchors ledger prior (some untouched) current head_sha now =
      map (resolve_removed prior untouched current head_sha now) ledger

-- The texts of the lines that the hunks of the finding's file change, or show unchanged.
unfoldable pub shows : Bool → Text → List HunkLine → Bool
shows unchanged t [] = false
shows unchanged t (l ∷ ls) =
    let here = text_eq (trim_space l.content) t in
    elim l.kind [
      | hunk_context ↦ unchanged && here || shows unchanged t ls
      | _ ↦ not unchanged && here || shows unchanged t ls
    ]

unfoldable pub file_shows : Bool → Text → Text → List Diff → Bool
unfolding shows parse_hunks
file_shows unchanged file t delta =
    any
      (λ d.
        (text_eq d.new_path file || text_eq d.old_path file)
        && any (λ h. shows unchanged t h.lines) (parse_hunks d.diff))
      delta

-- The loop over the quote's lines, with `matched`.
unfoldable pub quote_loop : Bool → Text → List Text → List Diff → Bool
unfolding file_shows
quote_loop matched file [] delta = matched
quote_loop matched file (l ∷ ls) delta =
    let t = trim_space l in
    let skip = quote_loop matched file ls delta in
    let go = quote_loop true file ls delta in
    if not (is_text t)
    then skip
    else if not (file_shows false file t delta) || file_shows true file t delta
    then false
    else go

-- Without a changed line nothing matches, so the loop's answer is the early return's.
unfoldable pub quote_hits_changed : Finding → List Diff → Bool
unfolding quote_loop
quote_hits_changed f delta =
    quote_loop false f.file (split_lines (normalize_for_fingerprint f.quoted_code)) delta

unfoldable pub added_at : ℕ → ℕ → ℕ → List HunkLine → Bool
added_at line end n [] = false
added_at line end n (l ∷ ls) = elim l.kind [
  | hunk_context ↦ added_at line end (suc n) ls
  | hunk_added ↦ not (line == 0) && leb line n && leb n end || added_at line end (suc n) ls
  | hunk_deleted ↦ added_at line end n ls
]

unfoldable pub finding_on_added_line : Finding → List Diff → Bool
unfolding added_at parse_hunks
finding_on_added_line f delta =
    let end = if ltb f.end_line f.line then f.line else f.end_line in
    is_text f.file
    && any
        (λ d.
          text_eq d.new_path f.file
          && (d.is_new && f.line == 0
              || any (λ h. added_at f.line end h.new_start h.lines) (parse_hunks d.diff)))
        delta

unfoldable pub finding_on_changed_code : Finding → List Diff → Bool
unfolding quote_hits_changed finding_on_added_line
finding_on_changed_code f delta =
    if not (is_text f.file)
    then false
    else if any (λ d. text_eq d.new_path f.file && d.is_new) delta
    then true
    else if quote_hits_changed f delta
    then true
    else if is_text (trim_space f.quoted_code)
    then false
    else finding_on_added_line f delta

module _ (sha256 : Text → Text) where
  -- The findings that are kept, and how many are dropped; `none` is the nil delta.
  unfoldable pub select_stable_findings :
      List Finding → List LedgerEntry → Option (List Diff) → List Finding × ℕ
  unfolding is_active finding_on_changed_code
  select_stable_findings fs prior none = (fs, 0)
  select_stable_findings fs prior (some delta) =
      let kept_of = λ (f : Finding).
        any (λ e. text_eq e.fp (fingerprint sha256 f) && is_active e) prior
        || finding_on_changed_code f delta in
      (keep kept_of fs, length (keep (λ f. not (kept_of f)) fs))
