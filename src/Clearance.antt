-- ===== src/Clearance.antt =====
-- Which findings stand in the way of an approval: internal/github/ledger.go,
-- internal/github/stable.go, internal/github/offdiff.go and
-- internal/github/thread_resolution_sync.go.
pub mod Gate
use miu_cr.Base.{
  ℕ, zero, suc, ◌+◌, String, Bool, true, false, not, ◌&&◌, ◌||◌, Option, none, some, List, [], ◌∷◌,
  ◌++◌, Text, text_eq, str_eq, any, keep, map, length, if◌then◌else◌,
}
use miu_cr.Finding.{Finding, Diff}
use miu_cr.Anchor.{is_text}
use miu_cr.Ledger.{LedgerEntry, fingerprint, seen_by, is_resolved, cap_ledger, merge_ledger}
use miu_cr.Stable.{
  dev_null, Shifts, restore_preserved, preserve_untouched_anchors, resolve_removed_anchors,
  apply_shifted_lines,
}
use miu_cr.OffDiff.{classify_off_diff, off_diff_thread, Disposition, apply_off_diff_disposition}

unfoldable pub ledger_blocks_approval : String → Bool
ledger_blocks_approval status =
    not (str_eq status "resolved" || str_eq status "deferred" || str_eq status "irrelevant")

abbrev is_nil : List LedgerEntry → Bool
is_nil [] = true
is_nil (e ∷ es) = false

unfoldable pub ledger_fully_resolved : List LedgerEntry → Bool
unfolding is_resolved
ledger_fully_resolved es = not (is_nil es) && not (any (λ e. not (is_resolved e)) es)

unfoldable pub ledger_clear_for_approval : List LedgerEntry → Bool
unfolding ledger_blocks_approval
ledger_clear_for_approval es =
    not (is_nil es) && not (any (λ e. ledger_blocks_approval e.status) es)

-- The map `status`: the last row of each fingerprint.
unfoldable pub statuses : (Text → Option String) → List LedgerEntry → Text → Option String
statuses m [] = m
statuses m (e ∷ es) = statuses (λ q. if text_eq e.fp q then some e.status else m q) es

-- A read of a missing key of a Go map yields "".
abbrev status_or_empty : Option String → String
status_or_empty none = ""
status_or_empty (some s) = s

module _ (sha256 : Text → Text) where
  unfoldable pub blocking_findings : List Finding → List LedgerEntry → List Finding
  unfolding statuses ledger_blocks_approval fingerprint
  blocking_findings fs ledger =
      keep
        (λ f.
          ledger_blocks_approval
            (status_or_empty (statuses (λ q. none) ledger (fingerprint sha256 f))))
        fs

  -- The rows that the loop of `carriedOpenFindings` does not skip.
  unfoldable pub carried_rows : List LedgerEntry → List Finding → List LedgerEntry
  unfolding ledger_blocks_approval seen_by
  carried_rows ledger current =
      keep
        (λ e. not (seen_by sha256 (λ s. s) current e.fp || not (ledger_blocks_approval e.status)))
        ledger

  unfoldable pub as_finding : LedgerEntry → Finding
  as_finding e = record {
    file = e.path;
    line = e.line;
    end_line = 0;
    title = e.title;
    rule = [];
    severity = e.sev;
    category = e.category;
    rationale = [];
    suggested_patch = [];
    quoted_code = [];
  }

  unfoldable pub carried_open_findings : List LedgerEntry → List Finding → List Finding
  unfolding carried_rows as_finding
  carried_open_findings ledger current = map as_finding (carried_rows ledger current)

  unfoldable pub gate_findings : List Finding → List LedgerEntry → List Finding
  unfolding blocking_findings carried_open_findings
  gate_findings current ledger =
      blocking_findings current ledger ++ carried_open_findings ledger current

abbrev is_thread : Disposition → Bool
is_thread off_diff_thread = true
is_thread _ = false

unfoldable pub preserve_stable_findings :
    List LedgerEntry → List LedgerEntry → (Text → Bool) → List LedgerEntry
unfolding restore_preserved
preserve_stable_findings merged prior stable = restore_preserved merged prior (λ e. stable e.path)

unfoldable pub diff_paths : List Diff → Text → Bool
diff_paths diffs p =
    any (λ d. is_text d.new_path && not (text_eq d.new_path dev_null) && text_eq d.new_path p) diffs

-- The fields of PRInfo that MergeReviewLedger reads.
pub record LedgerInfo : Type 0 where
  pub prior_ledger : List LedgerEntry
  pub head_sha : Text
  pub stable_fps : Option (Text → Bool)
  pub stable_lines : Shifts
  pub stable_paths : Text → Bool

module _ (sha256 : Text → Text) (lower_trim : String → String) where
  unfoldable pub actionable_off_diff_findings :
      List Finding → List Diff → List LedgerEntry → List Finding
  unfolding blocking_findings classify_off_diff
  actionable_off_diff_findings fs diffs ledger =
      keep (λ f. is_thread (classify_off_diff lower_trim f diffs))
        (blocking_findings sha256 fs ledger)

  -- The end of `MergeReviewLedger`, with or without fingerprints that the commits left alone.
  unfoldable pub carry_over :
      LedgerInfo → List Finding → Text → List LedgerEntry → Option (Text → Bool) → List LedgerEntry
  unfolding preserve_stable_findings
  carry_over info fs now ledger none =
      preserve_stable_findings ledger info.prior_ledger info.stable_paths
  carry_over info fs now ledger (some untouched) =
      let kept = preserve_untouched_anchors ledger info.prior_ledger (some untouched) in
      let closed =
        resolve_removed_anchors sha256 kept info.prior_ledger (some untouched) fs info.head_sha
          now in
      apply_shifted_lines closed info.stable_lines

  abbrev disposed : List LedgerEntry → List Finding → List Diff → List LedgerEntry
  disposed ledger fs [] = ledger
  disposed ledger fs (d ∷ ds) = apply_off_diff_disposition sha256 lower_trim ledger fs (d ∷ ds)

  unfoldable pub merge_review_ledger :
      LedgerInfo → List Finding → List Diff → Text → List LedgerEntry
  unfolding carry_over diff_paths apply_off_diff_disposition
  merge_review_ledger info fs diffs now =
      let ledger =
        merge_ledger sha256 lower_trim info.prior_ledger fs info.head_sha (diff_paths diffs) now in
      carry_over info fs now (disposed ledger fs diffs) info.stable_fps

-- What the resolution of its conversation does to a row.
unfoldable pub sync_entry : (Text → Bool) → Text → LedgerEntry → LedgerEntry
sync_entry resolved now e =
    if resolved e.fp
    then (if str_eq e.status "deferred"
          || str_eq e.status "irrelevant"
          || str_eq e.status "resolved"
        then e
        else record e {
          status = "resolved";
          res_sha = e.open_sha;
          res_kind = "conversation";
          res_at = now;
          note = [];
        })
    else if str_eq e.status "resolved" && str_eq e.res_kind "conversation"
    then record e {
      status = "reopened";
      res_sha = [];
      res_kind = "";
      res_at = [];
      reopens = suc e.reopens;
    }
    else e

-- What a row adds to the two counts of the delta.
unfoldable pub counts_resolved : (Text → Bool) → LedgerEntry → Bool
counts_resolved resolved e =
    resolved e.fp
    && not
        (str_eq e.status "deferred" || str_eq e.status "irrelevant" || str_eq e.status "resolved")

unfoldable pub counts_reopened : (Text → Bool) → LedgerEntry → Bool
counts_reopened resolved e =
    not (resolved e.fp) && str_eq e.status "resolved" && str_eq e.res_kind "conversation"

pub record Delta : Type 0 where
  pub resolved : ℕ
  pub reopened : ℕ

unfoldable pub sync_ledger_conversation_resolved :
    List LedgerEntry → (Text → Bool) → Text → List LedgerEntry × Delta
unfolding sync_entry counts_resolved counts_reopened cap_ledger
sync_ledger_conversation_resolved prior resolved now = (
  cap_ledger (map (sync_entry resolved now) prior),
  record {
    resolved = length (keep (counts_resolved resolved) prior);
    reopened = length (keep (counts_reopened resolved) prior);
  },
)
