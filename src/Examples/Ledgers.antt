-- ===== src/Examples/Ledgers.antt =====
-- Tests and instances for the ledger and for shifted anchors.
use miu_cr.Base.{
  ℕ, zero, suc, ◌+◌, ◌-◌, ◌≤◌, ◌≡◌, refl, String, true, false, List, [], ◌∷◌, Text, codes, text_eq,
  any, All, length,
}
use miu_cr.Hunk.{hunk_added, hunk_deleted, Hunk}
use miu_cr.Ledger.{LedgerEntry, cap_ledger, fingerprint, merge_ledger, is_resolved}
use miu_cr.Ledger.Cap.{unresolved, cap_ledger_lem}
use miu_cr.Ledger.Entries.{is_open_at}
use miu_cr.Ledger.Merge.{merge_ledger-open}
use miu_cr.Shift.{shift_line}
use miu_cr.Shift.Edits.{Edits, Lands}
use miu_cr.Shift.Follows.{shift_line-Lands}
use miu_cr.Examples.{finding_of}

-- In place of the digest and of the lower case.
abbrev same : Text → Text
same t = t

abbrev as_is : String → String
as_is s = s

abbrev resolved_row : LedgerEntry
resolved_row = record {
  fp = codes "a.go|bug|x";
  path = codes "a.go";
  line = 1;
  title = [];
  category = [];
  status = "resolved";
  sev = "low";
  first_sev = "low";
  open_sha = [];
  res_sha = codes "abc";
  res_kind = "";
  note = [];
  first_at = [];
  res_at = [];
  reopens = 0;
}

-- A finding that comes back reopens its entry.
merge_ledger_test :
    any
      (λ e. is_resolved e)
      (merge_ledger same as_is
        (resolved_row ∷ [])
        (finding_of "x" 3 "low" ∷ [])
        (codes "def")
        (λ p. true)
        [])
    ≡ false
unfolding merge_ledger text_eq
merge_ledger_test = refl

merge_ledger-open_example :
    All
      (λ f.
        any (is_open_at (fingerprint same f)) (
          merge_ledger same as_is
            (resolved_row ∷ [])
            (finding_of "x" 3 "low" ∷ [])
            (codes "def")
            (λ p. true)
            [])
        ≡ true)
      (finding_of "x" 3 "low" ∷ [])
merge_ledger-open_example =
    merge_ledger-open same as_is (resolved_row ∷ []) (finding_of "x" 3 "low" ∷ []) (codes "def")
      (λ p. true) []

-- One more row than the ledger holds, the last of them open.
abbrev rows : ℕ → List LedgerEntry
rows zero = record resolved_row { status = "open" } ∷ []
rows (suc n) = resolved_row ∷ rows n

cap_ledger_lem_example :
    (unresolved (cap_ledger (rows 100)) ≡ unresolved (rows 100))
    × (length (cap_ledger (rows 100)) ≤ 100 + (length (unresolved (rows 100)) - 100))
cap_ledger_lem_example = cap_ledger_lem (rows 100)

-- Replaces the second of three lines by two.
abbrev replaced : Hunk
replaced = record {
  old_start = 2;
  old_count = 1;
  new_start = 2;
  new_count = 2;
  lines =
      record { kind = hunk_deleted; content = codes "b" }
      ∷ record { kind = hunk_added; content = codes "x" }
      ∷ record { kind = hunk_added; content = codes "y" }
      ∷ [];
}

shift_line_test : shift_line 3 (replaced ∷ []) ≡ (4, false)
unfolding shift_line
shift_line_test = refl

replaced-Edits :
    Edits 0 0
      (replaced ∷ [])
      (codes "a" ∷ codes "b" ∷ codes "c" ∷ [])
      (codes "a" ∷ codes "x" ∷ codes "y" ∷ codes "c" ∷ [])
replaced-Edits =
    Edits.hunk 0 0 (codes "a" ∷ []) replaced [] (codes "c" ∷ []) (codes "c" ∷ []) refl refl refl
      refl (Edits.rest 2 3 (codes "c" ∷ []))

shift_line-Lands_example :
    Lands 0
      (replaced ∷ [])
      (codes "a" ∷ codes "x" ∷ codes "y" ∷ codes "c" ∷ [])
      (codes "c")
      (shift_line 3 (replaced ∷ []))
shift_line-Lands_example =
    shift_line-Lands (replaced ∷ []) (codes "a" ∷ codes "b" ∷ codes "c" ∷ [])
      (codes "a" ∷ codes "x" ∷ codes "y" ∷ codes "c" ∷ []) 2 (codes "c") replaced-Edits refl
