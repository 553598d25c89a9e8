-- ===== src/Examples/Clearance.antt =====
-- Tests and instances for what gates an approval.
use miu_cr.Base.{◌≡◌, ◌↔◌, refl, String, true, List, [], ◌∷◌, All, Text, codes, text_eq}
use miu_cr.Ledger.{LedgerEntry, fingerprint}
use miu_cr.Clearance.{
  statuses, gate_findings, ledger_clear_for_approval, sync_ledger_conversation_resolved,
}
use miu_cr.Clearance.Gate.{IsCoherent, IsSettled, IsAnswered, gate_findings-none_iff}
use miu_cr.Examples.{finding_of}

abbrev same : Text → Text
same t = t

abbrev row : String → LedgerEntry
row status = record {
  fp = fingerprint same (finding_of "x" 3 "low");
  path = codes "a.go";
  line = 3;
  title = [];
  category = [];
  status = status;
  sev = "low";
  first_sev = "low";
  open_sha = codes "abc";
  res_sha = [];
  res_kind = "";
  note = [];
  first_at = [];
  res_at = [];
  reopens = 0;
}

-- The resolution of the conversation clears the ledger, and a second thread would open it again.
sync_test :
    ledger_clear_for_approval
      (sync_ledger_conversation_resolved (row "open" ∷ []) (λ fp. true) (codes "now")).0
    ≡ true
unfolding ledger_clear_for_approval sync_ledger_conversation_resolved
sync_test = refl

abbrev ledger : List LedgerEntry
ledger = row "deferred" ∷ []

coherent : IsCoherent ledger
unfolding statuses text_eq fingerprint
coherent = (refl, tt)

gate_findings-none_iff_example :
    (gate_findings same (finding_of "x" 3 "low" ∷ []) ledger ≡ [])
    ↔ (All IsSettled ledger × All (IsAnswered same ledger) (finding_of "x" 3 "low" ∷ []))
gate_findings-none_iff_example =
    gate_findings-none_iff same (finding_of "x" 3 "low" ∷ []) ledger coherent
