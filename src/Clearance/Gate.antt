-- ===== src/Clearance/Gate.antt =====
-- The findings that gate an approval against the ledger: internal/github/stable.go.
use miu_cr.Base.{
  ◌≡◌, ◌↔◌, refl, ap, sym, ◌∙◌, String, Bool, true, false, not, ◌||◌, Option, none, some, List, [],
  ◌∷◌, ◌++◌, map, arith, All, All-map, keep, Text, text_eq, text_eq_iff, Bool-cases, Option-cases,
  inl, inr,
}
use miu_cr.Finding.{Finding}
use miu_cr.Ledger.{LedgerEntry, fingerprint, seen_by}
use miu_cr.Clearance.{
  ledger_blocks_approval, statuses, status_or_empty, blocking_findings, carried_rows, as_finding,
  carried_open_findings, gate_findings,
}

keep-none : {A : Type 0} (p : A → Bool) (xs : List A) → keep p xs ≡ [] → All (λ x. p x ≡ false) xs
keep-none p [] e = tt
keep-none p (x ∷ xs) e = elim (Bool-cases (p x)) [
  | inl h ↦ ground (arith, h, e)
  | inr h ↦ (h, keep-none p xs (ground (arith, h, e)))
]

none-keep : {A : Type 0} (p : A → Bool) (xs : List A) → All (λ x. p x ≡ false) xs → keep p xs ≡ []
none-keep p [] h = refl
none-keep p (x ∷ xs) h = ground (arith, h.0, none-keep p xs h.1)

append-none : {A : Type 0} (xs ys : List A) → xs ++ ys ≡ [] → (xs ≡ []) × (ys ≡ [])
append-none [] ys e = (refl, e)
append-none (x ∷ xs) ys e = cc

map-none : {A B : Type 0} (f : A → B) (xs : List A) → map f xs ≡ [] → xs ≡ []
map-none f [] e = refl
map-none f (x ∷ xs) e = cc

-- The status that the approval reads for a fingerprint.
abbrev pub status_of : List LedgerEntry → Text → Option String
status_of ledger fp = statuses (λ q. none) ledger fp

-- The rows of one fingerprint have one status.
abbrev pub IsCoherent : List LedgerEntry → Type 0
IsCoherent ledger = All (λ e. status_of ledger e.fp ≡ some e.status) ledger

abbrev pub IsSettled : LedgerEntry → Type 0
IsSettled e = ledger_blocks_approval e.status ≡ false

module _ (sha256 : Text → Text) (ledger : List LedgerEntry) where
  -- The ledger has a row for the finding, and its status does not stand in the way.
  abbrev pub IsAnswered : Finding → Type 0
  IsAnswered f =
      (s : String) × (status_of ledger (fingerprint sha256 f) ≡ some s)
      × (ledger_blocks_approval s ≡ false)

  abbrev blocks : Finding → Bool
  blocks f = ledger_blocks_approval (status_or_empty (status_of ledger (fingerprint sha256 f)))

  blocks_iff : (f : Finding) → (blocks f ≡ false) ↔ IsAnswered f
  unfolding ledger_blocks_approval
  blocks_iff f = elim (Option-cases (status_of ledger (fingerprint sha256 f))) [
    | inl e ↦ ((λ h. absurd (cc (e, h))), (λ (s, there, h). absurd (cc (e, there))))
    | inr (t, e) ↦
        ((λ h. (t, e, ground (arith, e, h))), (λ (s, there, h). ground (arith, e, there, h)))
  ]

  -- A finding of the review that answers for a row, answers for its status.
  seen_by-IsAnswered :
      (current : List Finding) (fp : Text) (t : String)
      → seen_by sha256 (λ s. s) current fp ≡ true
      → status_of ledger fp ≡ some t
      → All (λ f. blocks f ≡ false) current
      → ledger_blocks_approval t ≡ false
  unfolding seen_by
  seen_by-IsAnswered [] fp t s e h = cc
  seen_by-IsAnswered (f ∷ fs) fp t s e h = elim (Bool-cases (text_eq (fingerprint sha256 f) fp)) [
    | inl same ↦
        let found : status_of ledger (fingerprint sha256 f) ≡ some t =
          ap (status_of ledger) ((text_eq_iff (fingerprint sha256 f) fp).0 same) ∙ e in
        ap (λ o. ledger_blocks_approval (status_or_empty o)) (sym found) ∙ h.0
    | inr other ↦ seen_by-IsAnswered fs fp t (ground (arith, other, s)) e h.1
  ]

  -- A row that is not carried either does not block, or a finding answers for it.
  row-IsSettled :
      (current : List Finding) (e : LedgerEntry)
      → All (λ f. blocks f ≡ false) current
      → status_of ledger e.fp ≡ some e.status
      → not (seen_by sha256 (λ s. s) current e.fp || not (ledger_blocks_approval e.status)) ≡ false
      → IsSettled e
  row-IsSettled current e h c n = elim (Bool-cases (seen_by sha256 (λ s. s) current e.fp)) [
    | inl seen ↦ seen_by-IsAnswered current e.fp e.status seen c h
    | inr new ↦ ground (arith, new, n)
  ]

  rows-IsSettled :
      (current : List Finding) (rows : List LedgerEntry)
      → All (λ f. blocks f ≡ false) current
      → All (λ e. status_of ledger e.fp ≡ some e.status) rows
      → All
          (λ e.
            not (seen_by sha256 (λ s. s) current e.fp || not (ledger_blocks_approval e.status))
            ≡ false)
          rows
      → All IsSettled rows
  rows-IsSettled current [] h c n = tt
  rows-IsSettled current (e ∷ rows) h c n =
      (row-IsSettled current e h c.0 n.0, rows-IsSettled current rows h c.1 n.1)

-- When the rows of one fingerprint have one status, no finding gates the approval exactly when no
-- row of the ledger is open, and the ledger has a row for each finding of the review.
pub gate_findings-none_iff :
    (sha256 : Text → Text) (current : List Finding) (ledger : List LedgerEntry)
    → IsCoherent ledger
    → (gate_findings sha256 current ledger ≡ [])
      ↔ (All IsSettled ledger × All (IsAnswered sha256 ledger) current)
unfolding gate_findings blocking_findings carried_open_findings carried_rows
gate_findings-none_iff sha256 current ledger c = (
  λ e.
      let (blocking, carried) = append-none _ _ e in
      let answered = keep-none (blocks sha256 ledger) current blocking in
      let rows =
        keep-none _ ledger
          (map-none (as_finding sha256) (carried_rows sha256 ledger current) carried) in
      (
        rows-IsSettled sha256 ledger current ledger answered c rows,
        All-map (λ f. blocks sha256 ledger f ≡ false) (IsAnswered sha256 ledger) current
            (λ f. (blocks_iff sha256 ledger f).0) answered,
      ),
  λ h.
      let blocking = none-keep (blocks sha256 ledger) current (
        All-map (IsAnswered sha256 ledger) (λ f. blocks sha256 ledger f ≡ false) current
          (λ f. (blocks_iff sha256 ledger f).1) h.1) in
      let rows =
        none-keep
          (λ e. not (seen_by sha256 (λ s. s) current e.fp || not (ledger_blocks_approval e.status)))
          ledger (All-map IsSettled _ ledger (λ e s. ground (arith, s)) h.0) in
      rw (blocking, rows) refl,
)
