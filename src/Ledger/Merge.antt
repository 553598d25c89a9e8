-- ===== src/Ledger/Merge.antt =====
-- What a review does to the ledger: internal/github/ledger.go.
use miu_cr.Base.{
  ℕ, suc, ◌+◌, ◌≡◌, refl, sym, ap, subst, inl, inr, ◌∙◌, String, Bool, true, ◌||◌, Option, none,
  some, List, [], ◌∷◌, ◌++◌, arith, length, map, any, All, modify, get_elem?, Text, text_eq,
  text_eq_iff, Bool-cases, Option-cases, str_eq,
}
use miu_cr.Finding.{Finding}
use miu_cr.Ledger.{
  LedgerEntry, is_resolved, cap_ledger, fingerprint, refresh, new_entry, Index, put_index,
  index_from, merge_findings, seen_by, settle, merge_ledger,
}
use miu_cr.Ledger.Cap.{unresolved-cap_ledger}
use miu_cr.Ledger.Entries.{
  is_open_at, any-unresolved, any-append, get_elem?-append, get_elem?-last, any-get_elem?,
  any-modify, any-map, get_elem?-modify, get_elem?-modified, All-zip,
}

-- The map leads each of its fingerprints to an entry of it.
IsIndex : Index → List LedgerEntry → Type 0
IsIndex idx out =
    (fp : Text) (i : ℕ)
    → idx fp ≡ some i
    → (e : LedgerEntry) × (get_elem? out i ≡ some e) × (e.fp ≡ fp)

index_from-IsIndex :
    (back : List LedgerEntry) (idx : Index) (n : ℕ) (es : List LedgerEntry)
    → ((j : ℕ) → get_elem? es (n + j) ≡ get_elem? back j)
    → IsIndex idx es
    → IsIndex (index_from idx n back) es
unfolding index_from IsIndex
index_from-IsIndex [] idx n es same inv = inv
index_from-IsIndex (e ∷ back) idx n es same inv =
    index_from-IsIndex back (put_index idx e.fp n) (suc n) es
      (λ j. ap (get_elem? es) (omega arith) ∙ same (suc j))
      (λ fp i h. elim (Bool-cases (text_eq e.fp fp)) [
        | inl eq ↦
            let here : n ≡ i = ground arith in
            (e, ap (get_elem? es) (omega (arith, here)) ∙ same 0, (text_eq_iff e.fp fp).0 eq)
        | inr other ↦ inv fp i (ground arith)
      ])

module _ (sha256 : Text → Text) (lower_trim : String → String) where
  refresh-fp : (f : Finding) (e : LedgerEntry) → (refresh sha256 lower_trim f e).fp ≡ e.fp
  unfolding refresh
  refresh-fp f e = ground arith

  refresh-open :
      (fp : Text) (f : Finding) (e : LedgerEntry)
      → is_open_at fp (refresh sha256 lower_trim f e) ≡ text_eq fp e.fp
  unfolding refresh is_resolved
  refresh-open fp f e = elim (Bool-cases (str_eq e.status "resolved")) [
    | inl r ↦ rw r refl
    | inr r ↦
        elim (Bool-cases (
          str_eq e.status "deferred"
          || str_eq e.status "irrelevant"
          || str_eq e.status "reopened"
          || str_eq e.status "open")) [ inl k ↦ rw (r, k, r) refl | inr k ↦ rw (r, k) refl ]
  ]

  new_entry-open :
      (f : Finding) (sha now : Text)
      → is_open_at (fingerprint sha256 f) (new_entry sha256 lower_trim f sha now) ≡ true
  unfolding new_entry is_resolved
  new_entry-open f sha now = (text_eq_iff (fingerprint sha256 f) (fingerprint sha256 f)).1 refl

  refreshed : Finding → List LedgerEntry → ℕ → List LedgerEntry
  refreshed f out i = modify i (refresh sha256 lower_trim f) out

  added : Finding → Text → Text → List LedgerEntry → List LedgerEntry
  added f sha now out = out ++ new_entry sha256 lower_trim f sha now ∷ []

  refreshed-IsIndex :
      (idx : Index) (out : List LedgerEntry) (f : Finding) (i : ℕ)
      → IsIndex idx out
      → IsIndex idx (refreshed f out i)
  unfolding refreshed IsIndex
  refreshed-IsIndex idx out f i inv fp j h =
      let (e, at, same) = inv fp j h in
      let (y, there, kept) =
        get_elem?-modify (refresh sha256 lower_trim f) i j out e (refresh-fp f) at in
      (y, there, kept ∙ same)

  added-IsIndex :
      (idx : Index) (out : List LedgerEntry) (f : Finding) (sha now : Text)
      → IsIndex idx out
      → IsIndex (put_index idx (fingerprint sha256 f) (length out)) (added f sha now out)
  unfolding added IsIndex
  added-IsIndex idx out f sha now inv fp j h =
      let e = new_entry sha256 lower_trim f sha now in
      elim (Bool-cases (text_eq (fingerprint sha256 f) fp)) [
        | inl same ↦
            let last : length out ≡ j = ground arith in
            (
              e,
              ap (get_elem? (added f sha now out)) (sym last) ∙ get_elem?-last out e,
              (unfold new_entry in (text_eq_iff (fingerprint sha256 f) fp).0 same),
            )
        | inr other ↦
            let (x, at, k) = inv fp j (ground arith) in (x, get_elem?-append out (e ∷ []) j x at, k)
      ]

  -- One round of the loop, by what the map holds.
  abbrev merged :
      Finding → List Finding → Text → Text → Index → List LedgerEntry → Option ℕ → List LedgerEntry
  merged f fs sha now idx out o = elim o [
    | some i ↦
        merge_findings sha256 lower_trim sha now idx (modify i (refresh sha256 lower_trim f) out) fs
    | none ↦
        merge_findings sha256 lower_trim sha now (put_index idx (fingerprint sha256 f) (length out))
          (out ++ new_entry sha256 lower_trim f sha now ∷ []) fs
  ]

  merge_findings-added :
      (f : Finding) (fs : List Finding) (sha now : Text) (idx : Index) (out : List LedgerEntry)
      → idx (fingerprint sha256 f) ≡ none
      → merge_findings sha256 lower_trim sha now idx out (f ∷ fs)
        ≡ merge_findings sha256 lower_trim sha now
            (put_index idx (fingerprint sha256 f) (length out))
            (added f sha now out)
            fs
  unfolding merge_findings added
  merge_findings-added f fs sha now idx out e = ap (merged f fs sha now idx out) e

  merge_findings-refreshed :
      (f : Finding) (fs : List Finding) (sha now : Text) (idx : Index) (out : List LedgerEntry)
      (i : ℕ)
      → idx (fingerprint sha256 f) ≡ some i
      → merge_findings sha256 lower_trim sha now idx out (f ∷ fs)
        ≡ merge_findings sha256 lower_trim sha now idx (refreshed f out i) fs
  unfolding merge_findings refreshed
  merge_findings-refreshed f fs sha now idx out i e = ap (merged f fs sha now idx out) e

  merge_findings-keeps :
      (fs : List Finding) (sha now : Text) (idx : Index) (out : List LedgerEntry) (fp : Text)
      → any (is_open_at fp) out ≡ true
      → any (is_open_at fp) (merge_findings sha256 lower_trim sha now idx out fs) ≡ true
  unfolding refreshed added
  merge_findings-keeps [] sha now idx out fp h = unfold merge_findings in h
  merge_findings-keeps (f ∷ fs) sha now idx out fp h =
      elim (Option-cases (idx (fingerprint sha256 f))) [
        | inl e ↦ rw (merge_findings-added f fs sha now idx out e) (
            merge_findings-keeps fs sha now (put_index idx (fingerprint sha256 f) (length out))
              (added f sha now out) fp (any-append (is_open_at fp) out _ ∙ rw h refl))
        | inr (i, e) ↦ rw (merge_findings-refreshed f fs sha now idx out i e) (
            merge_findings-keeps fs sha now idx (refreshed f out i) fp (
              any-modify (is_open_at fp) (refresh sha256 lower_trim f) i out
                (λ x k. refresh-open fp f x ∙ ground arith) h))
      ]

  -- Each finding that the loop has folded in has an entry that is not resolved.
  merge_findings-open :
      (fs : List Finding) (sha now : Text) (idx : Index) (out : List LedgerEntry)
      → IsIndex idx out
      → All
          (λ f.
            any
              (is_open_at (fingerprint sha256 f))
              (merge_findings sha256 lower_trim sha now idx out fs)
            ≡ true)
          fs
  unfolding refreshed added IsIndex
  merge_findings-open [] sha now idx out inv = tt
  merge_findings-open (f ∷ fs) sha now idx out inv =
      let fp = fingerprint sha256 f in
      elim (Option-cases (idx fp)) [
        | inl e ↦
            subst (λ m. All (λ g. any (is_open_at (fingerprint sha256 g)) m ≡ true) (f ∷ fs))
              (sym (merge_findings-added f fs sha now idx out e))
              (
                merge_findings-keeps fs sha now (put_index idx fp (length out))
                    (added f sha now out) fp
                    (any-get_elem? (is_open_at fp) (added f sha now out) (length out)
                      (new_entry sha256 lower_trim f sha now) (get_elem?-last out _)
                      (new_entry-open f sha now)),
                merge_findings-open fs sha now (put_index idx fp (length out)) (added f sha now out)
                    (added-IsIndex idx out f sha now inv),
              )
        | inr (i, e) ↦
            let (x, at, same) = inv fp i e in
            subst (λ m. All (λ g. any (is_open_at (fingerprint sha256 g)) m ≡ true) (f ∷ fs))
              (sym (merge_findings-refreshed f fs sha now idx out i e))
              (
                merge_findings-keeps fs sha now idx (refreshed f out i) fp (
                    any-get_elem? (is_open_at fp) (refreshed f out i) i
                      (refresh sha256 lower_trim f x)
                      (get_elem?-modified (refresh sha256 lower_trim f) i out x at)
                      (refresh-open fp f x ∙ (text_eq_iff fp x.fp).1 (sym same))),
                merge_findings-open fs sha now idx (refreshed f out i)
                    (refreshed-IsIndex idx out f i inv),
              )
      ]

  settle-open :
      (sha now : Text) (paths : Text → Bool) (fs : List Finding) (fp : Text) (e : LedgerEntry)
      → seen_by sha256 lower_trim fs fp ≡ true
      → is_open_at fp e ≡ true
      → is_open_at fp (settle sha256 lower_trim sha now paths fs e) ≡ true
  unfolding settle
  settle-open sha now paths fs fp e seen h =
      let same : fp ≡ e.fp = (text_eq_iff fp e.fp).0 (ground arith) in
      rw (ap (seen_by sha256 lower_trim fs) (sym same) ∙ seen) h

  seen_by-All :
      (gs fs : List Finding)
      → ((p : Finding → Bool) → any p fs ≡ true → any p gs ≡ true)
      → All (λ f. seen_by sha256 lower_trim gs (fingerprint sha256 f) ≡ true) fs
  unfolding seen_by
  seen_by-All gs [] h = tt
  seen_by-All gs (f ∷ fs) h = (
    h (λ g. text_eq (fingerprint sha256 g) (fingerprint sha256 f))
        (rw ((text_eq_iff (fingerprint sha256 f) (fingerprint sha256 f)).1 refl) refl),
    seen_by-All gs fs (λ p e. h p (ground arith)),
  )

  -- Whatever the ledger held before, each finding that a review reports has, in the ledger that the
  -- review leaves, an entry of its fingerprint that is not resolved.
  pub merge_ledger-open :
      (prior : List LedgerEntry) (current : List Finding) (head_sha : Text)
      (diff_paths : Text → Bool) (now : Text)
      → All
          (λ f.
            any
              (is_open_at (fingerprint sha256 f))
              (merge_ledger sha256 lower_trim prior current head_sha diff_paths now)
            ≡ true)
          current
  unfolding merge_ledger IsIndex
  merge_ledger-open prior current head_sha diff_paths now =
      let out =
        merge_findings sha256 lower_trim head_sha now (index_from (λ q. none) 0 prior) prior
          current in
      let settled = map (settle sha256 lower_trim head_sha now diff_paths current) out in
      All-zip current
        (merge_findings-open current head_sha now (index_from (λ q. none) 0 prior) prior (
          index_from-IsIndex prior (λ q. none) 0 prior (λ j. ap (get_elem? prior) (omega arith))
            (λ fp i h. grind arith)))
        (seen_by-All current current (λ p e. e))
        (λ f there seen.
          sym (any-unresolved (fingerprint sha256 f) (cap_ledger settled))
          ∙ ap (any (is_open_at (fingerprint sha256 f))) (unresolved-cap_ledger settled)
          ∙ any-unresolved (fingerprint sha256 f) settled
          ∙ any-map (is_open_at (fingerprint sha256 f))
              (settle sha256 lower_trim head_sha now diff_paths current) out
              (λ x k. settle-open head_sha now diff_paths current (fingerprint sha256 f) x seen k)
              there)
