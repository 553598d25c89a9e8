-- ===== src/Ledger.antt =====
-- The ledger of findings that a pull request carries from review to review:
-- internal/github/ledger.go, and the fingerprints of internal/github/publish.go.
pub mod Cap
pub mod Entries
pub mod Merge
use miu_cr.Base.{
  ℕ, zero, suc, ◌-◌, String, Bool, true, false, not, ◌&&◌, ◌||◌, Option, none, some, List, [], ◌∷◌,
  ◌++◌, Text, codes, text_eq, text_ltb, trim_space, trim_right, split_lines, join_lines, decimal,
  str_eq, map, length, take, modify, keep, any, sort_stable, leb, ltb, ◌==◌, if◌then◌else◌,
}
use miu_cr.Finding.{Finding}

pub record LedgerEntry : Type 0 where
  pub fp : Text
  pub path : Text
  pub line : ℕ
  pub title : Text
  pub category : Text
  pub status : String
  pub sev : String
  pub first_sev : String
  pub open_sha : Text
  pub res_sha : Text
  pub res_kind : String
  pub note : Text
  pub first_at : Text
  pub res_at : Text
  pub reopens : ℕ

abbrev pub max_ledger_entries : ℕ
max_ledger_entries = 100

abbrev starts_line : Text → Bool
starts_line [] = false
starts_line (c ∷ s) = c == 10

-- strings.ReplaceAll of "\r\n" and then of "\r" by "\n".
unfoldable pub replace_crlf : Text → Text
replace_crlf [] = []
replace_crlf (c ∷ s) =
    let rest = replace_crlf s in
    if c == 13 then if starts_line s then rest else 10 ∷ rest else c ∷ rest

abbrev is_blank : ℕ → Bool
is_blank c = c == 32 || c == 9

-- The loop over `isDiff` and `hasMarker`.
unfoldable pub diff_quote : Bool → List Text → Bool
unfolding trim_right
diff_quote has_marker [] = has_marker
diff_quote has_marker (line ∷ lines) = elim (trim_right is_blank line) [
  | [] ↦ diff_quote has_marker lines
  | c ∷ t ↦ elim (c == 43 || c == 45) [
    | true ↦ diff_quote true lines
    | false ↦ elim (c == 32) [ true ↦ diff_quote has_marker lines | false ↦ false ]
  ]
]

abbrev drop_first : Bool → Text → Text
drop_first false t = t
drop_first true [] = []
drop_first true (c ∷ t) = t

unfoldable pub normalize_for_fingerprint : Text → Text
unfolding replace_crlf split_lines join_lines diff_quote trim_right
normalize_for_fingerprint s =
    let lines = split_lines (replace_crlf s) in
    let is_diff = diff_quote false lines in
    join_lines (map (λ l. drop_first is_diff (trim_right is_blank l)) lines)

abbrev is_nothing : Text → Bool
is_nothing [] = true
is_nothing (c ∷ s) = false

unfoldable pub is_resolved : LedgerEntry → Bool
is_resolved e = str_eq e.status "resolved"

-- The indices of the resolved entries that a full ledger keeps go by `ResAt`, the latest first.
abbrev pub Position : Type 0
Position = ℕ × Text

unfoldable pub resolved_from : ℕ → List LedgerEntry → List Position
unfolding is_resolved
resolved_from i [] = []
resolved_from i (e ∷ es) =
    let rest = resolved_from (suc i) es in if is_resolved e then (i, e.res_at) ∷ rest else rest

unfoldable pub later_first : Position → Position → Bool
unfolding text_ltb
later_first a b = text_ltb b.1 a.1

unfoldable pub keep_positions : (ℕ → Bool) → ℕ → List LedgerEntry → List LedgerEntry
keep_positions kept i [] = []
keep_positions kept i (e ∷ es) =
    let rest = keep_positions kept (suc i) es in
    if not (is_resolved e) || kept i then e ∷ rest else rest

-- The subtraction stops at 0, as the budget does.
unfoldable pub resolved_budget : List LedgerEntry → ℕ
unfolding resolved_from
resolved_budget es = max_ledger_entries - (length es - length (resolved_from 0 es))

unfoldable pub cap_ledger : List LedgerEntry → List LedgerEntry
unfolding resolved_budget sort_stable later_first keep_positions
cap_ledger es =
    let resolved = resolved_from 0 es in
    if leb (length es) max_ledger_entries
    then es
    else if leb (length resolved) (resolved_budget es)
    then es
    else let kept = take (resolved_budget es) (sort_stable later_first resolved) in
      keep_positions (λ i. any (λ p. p.0 == i) kept) 0 es

abbrev pub Index : Type 0
Index = Text → Option ℕ

abbrev pub put_index : Index → Text → ℕ → Index
put_index idx fp i q = if text_eq fp q then some i else idx q

-- The loop that fills the map, over what is left of the entries.
unfoldable pub index_from : Index → ℕ → List LedgerEntry → Index
index_from idx i [] = idx
index_from idx i (e ∷ es) = index_from (put_index idx e.fp i) (suc i) es

-- sha256 in hexadecimal.
module _ (sha256 : Text → Text) where
  unfoldable pub fingerprint : Finding → Text
  unfolding normalize_for_fingerprint decimal
  fingerprint f =
      let norm = normalize_for_fingerprint f.quoted_code in
      let code = sha256 (if is_nothing norm then decimal f.line ++ 0 ∷ f.rationale else norm) in
      take 16 (sha256 (f.file ++ codes "|" ++ f.category ++ codes "|" ++ code))

-- Also strings.ToLower after strings.TrimSpace.
module _ (sha256 : Text → Text) (lower_trim : String → String) where
  unfoldable pub severity_label : String → String
  severity_label sev =
      let s = lower_trim sev in
      if str_eq s "critical"
        || str_eq s "high"
        || str_eq s "medium"
        || str_eq s "low"
        || str_eq s "info"
      then s
      else "info"

  -- What a finding does to the entry of its fingerprint.
  unfoldable pub refresh : Finding → LedgerEntry → LedgerEntry
  unfolding is_resolved severity_label
  refresh f e =
      let moved =
        if is_resolved e
        then record e {
          status = "reopened";
          reopens = suc e.reopens;
          res_sha = [];
          res_kind = "";
          res_at = [];
          note = [];
        }
        else if str_eq e.status "deferred"
            || str_eq e.status "irrelevant"
            || str_eq e.status "reopened"
            || str_eq e.status "open"
        then e
        else record e { status = "open" } in
      record moved {
        sev = severity_label f.severity;
        path = f.file;
        line = f.line;
        title = if is_nothing (trim_space f.title) then e.title else trim_space f.title;
        category = if is_nothing (trim_space f.category) then e.category else trim_space f.category;
      }

  unfoldable pub new_entry : Finding → Text → Text → LedgerEntry
  unfolding fingerprint severity_label
  new_entry f head_sha now = record {
    fp = fingerprint sha256 f;
    path = f.file;
    line = f.line;
    title = trim_space f.title;
    category = trim_space f.category;
    status = "open";
    sev = severity_label f.severity;
    first_sev = severity_label f.severity;
    open_sha = head_sha;
    res_sha = [];
    res_kind = "";
    note = [];
    first_at = now;
    res_at = [];
    reopens = 0;
  }

  -- The loop over the findings, with its map and its ledger.
  unfoldable pub merge_findings :
      Text → Text → Index → List LedgerEntry → List Finding → List LedgerEntry
  unfolding refresh new_entry fingerprint
  merge_findings head_sha now idx out [] = out
  merge_findings head_sha now idx out (f ∷ fs) = elim (idx (fingerprint sha256 f)) [
    | some i ↦ merge_findings head_sha now idx (modify i (refresh f) out) fs
    | none ↦
        merge_findings head_sha now (put_index idx (fingerprint sha256 f) (length out))
          (out ++ new_entry f head_sha now ∷ []) fs
  ]

  unfoldable pub seen_by : List Finding → Text → Bool
  unfolding fingerprint
  seen_by fs fp = any (λ f. text_eq (fingerprint sha256 f) fp) fs

  -- What the absence from a review does to an entry.
  unfoldable pub settle : Text → Text → (Text → Bool) → List Finding → LedgerEntry → LedgerEntry
  unfolding seen_by is_resolved
  settle head_sha now diff_paths fs e =
      if seen_by fs e.fp
      then e
      else if not (is_resolved e) && diff_paths e.path
      then record e {
        status = "resolved";
        res_sha = head_sha;
        res_kind = "";
        res_at = now;
        note = [];
      }
      else if is_resolved e && str_eq e.res_kind "conversation" && diff_paths e.path
      then record e { res_sha = head_sha; res_kind = ""; res_at = now }
      else e

  unfoldable pub merge_ledger :
      List LedgerEntry → List Finding → Text → (Text → Bool) → Text → List LedgerEntry
  unfolding index_from merge_findings settle cap_ledger
  merge_ledger prior current head_sha diff_paths now =
      let out = merge_findings head_sha now (index_from (λ q. none) 0 prior) prior current in
      cap_ledger (map (settle head_sha now diff_paths current) out)
