-- ===== src/Dedupe/Laws.antt =====
-- What `dedupe` keeps, and in which order: internal/engine/engine.go.
use miu_cr.Base.{
  ◌≡◌, refl, ap, ◌∙◌, Bool, true, false, ◌&&◌, ◌||◌, not, List, [], ◌∷◌, Text, text_eq, text_eq_iff,
  text_ltb-asymmetric, text_ltb-not_less_trans, text_ltb-total, any, sort_stable, any-sort_stable,
  insert_stable, any-insert_stable, All, sort_stable-All, IsOrdered, StrictWeakOrder,
  sort_stable-IsOrdered, Bool-cases, inl, inr, arith,
}
use miu_cr.Finding.{Finding}
use miu_cr.Dedupe.{report_less, dedupe_key, dedupe_loop, dedupe}

report_less-order : StrictWeakOrder report_less
unfolding report_less
report_less-order = record {
  asymmetric = λ a b h. ground (
    arith,
    text_eq_iff a.file b.file,
    text_eq_iff b.file a.file,
    text_ltb-asymmetric a.file b.file,
  );
  not_less_trans = λ a b c h k. ground (
    arith,
    text_eq_iff a.file b.file,
    text_eq_iff b.file a.file,
    text_eq_iff c.file a.file,
    text_eq_iff c.file b.file,
    text_eq_iff b.file c.file,
    text_ltb-not_less_trans a.file b.file c.file,
    text_ltb-total a.file b.file,
  );
}

text_eq_comm : (s t : Text) → text_eq s t ≡ text_eq t s
text_eq_comm s t = ground (arith, text_eq_iff s t, text_eq_iff t s)

module _ (digest : Text → Text) where
  -- Some finding has the key.
  unfoldable pub has_key : Text → List Finding → Bool
  has_key k fs = any (λ g. text_eq k (dedupe_key digest g)) fs

  -- No two findings have one key.
  abbrev pub IsDistinct : List Finding → Type 0
  IsDistinct [] = Unit
  IsDistinct (f ∷ fs) = (has_key (dedupe_key digest f) fs ≡ false) × IsDistinct fs

  any-same_key :
      (k : Text) (f : Finding) (seen : List Text)
      → text_eq k (dedupe_key digest f) ≡ true
      → any (text_eq k) seen ≡ any (text_eq (dedupe_key digest f)) seen
  any-same_key k f seen h =
      ap (λ x. any (text_eq x) seen) ((text_eq_iff k (dedupe_key digest f)).0 h)

  has_key-dedupe_loop :
      (k : Text) (seen : List Text) (fs : List Finding)
      → has_key k (dedupe_loop digest seen fs) ≡ (has_key k fs && not (any (text_eq k) seen))
  unfolding has_key dedupe_loop
  has_key-dedupe_loop k seen [] = refl
  has_key-dedupe_loop k seen (f ∷ fs) =
      elim (Bool-cases (any (text_eq (dedupe_key digest f)) seen)) [
        | inl old ↦ rw old (ground (arith, any-same_key k f seen, has_key-dedupe_loop k seen fs))
        | inr new ↦ rw new (
            ground
              (arith, any-same_key k f seen, has_key-dedupe_loop k (dedupe_key digest f ∷ seen) fs))
      ]

  IsDistinct-dedupe_loop :
      (seen : List Text) (fs : List Finding) → IsDistinct (dedupe_loop digest seen fs)
  unfolding dedupe_loop
  IsDistinct-dedupe_loop seen [] = tt
  IsDistinct-dedupe_loop seen (f ∷ fs) =
      elim (Bool-cases (any (text_eq (dedupe_key digest f)) seen)) [
        | inl old ↦ rw old (IsDistinct-dedupe_loop seen fs)
        | inr new ↦ rw new (
          ground (
            arith,
            text_eq_iff (dedupe_key digest f) (dedupe_key digest f),
            has_key-dedupe_loop (dedupe_key digest f) (dedupe_key digest f ∷ seen) fs,
          ),
          IsDistinct-dedupe_loop (dedupe_key digest f ∷ seen) fs,
        )
      ]

  has_key-insert_stable :
      (k : Text) (x : Finding) (ys : List Finding)
      → has_key k (insert_stable report_less x ys)
        ≡ (text_eq k (dedupe_key digest x) || has_key k ys)
  unfolding has_key
  has_key-insert_stable k x ys =
      any-insert_stable report_less (λ g. text_eq k (dedupe_key digest g)) x ys

  has_key-cons_false :
      (k : Text) (y : Finding) (ys : List Finding)
      → has_key k (y ∷ ys) ≡ false
      → (text_eq k (dedupe_key digest y) ≡ false) × (has_key k ys ≡ false)
  unfolding has_key
  has_key-cons_false k y ys h = ground arith

  IsDistinct-insert_stable :
      (x : Finding) (ys : List Finding)
      → has_key (dedupe_key digest x) ys ≡ false
      → IsDistinct ys
      → IsDistinct (insert_stable report_less x ys)
  unfolding insert_stable
  IsDistinct-insert_stable x [] h d = (h, tt)
  IsDistinct-insert_stable x (y ∷ ys) h d =
      let (ne, new) = has_key-cons_false (dedupe_key digest x) y ys h in
      let head = has_key-insert_stable (dedupe_key digest y) x ys in
      elim (Bool-cases (report_less y x)) [
        | inl lt ↦ rw lt (
          head ∙ ground (arith, text_eq_comm (dedupe_key digest y) (dedupe_key digest x), d.0),
          IsDistinct-insert_stable x ys new d.1,
        )
        | inr ge ↦ rw ge (h, d)
      ]

  has_key-sort_stable :
      (k : Text) (fs : List Finding) → has_key k (sort_stable report_less fs) ≡ has_key k fs
  unfolding has_key
  has_key-sort_stable k fs = any-sort_stable report_less (λ g. text_eq k (dedupe_key digest g)) fs

  IsDistinct-sort_stable :
      (fs : List Finding) → IsDistinct fs → IsDistinct (sort_stable report_less fs)
  unfolding sort_stable
  IsDistinct-sort_stable [] d = tt
  IsDistinct-sort_stable (f ∷ fs) d =
      IsDistinct-insert_stable f (sort_stable report_less fs)
        (has_key-sort_stable (dedupe_key digest f) fs ∙ d.0) (IsDistinct-sort_stable fs d.1)

  -- The keys of the report are those of the input, each once, and it is in the order of the sort.
  pub dedupe_lem :
      (fs : List Finding)
      → ((k : Text) → has_key k (dedupe digest fs) ≡ has_key k fs)
        × IsDistinct (dedupe digest fs)
        × IsOrdered report_less (dedupe digest fs)
  unfolding dedupe
  dedupe_lem fs = (
    λ k.
        has_key-sort_stable k (dedupe_loop digest [] fs)
        ∙ has_key-dedupe_loop k [] fs
        ∙ ground arith,
    IsDistinct-sort_stable (dedupe_loop digest [] fs) (IsDistinct-dedupe_loop [] fs),
    sort_stable-IsOrdered report_less report_less-order (dedupe_loop digest [] fs),
  )

module _ (digest : Text → Text) (Q : Finding → Type 0) where
  dedupe_loop-All :
      (seen : List Text) (fs : List Finding) → All Q fs → All Q (dedupe_loop digest seen fs)
  unfolding dedupe_loop
  dedupe_loop-All seen [] h = tt
  dedupe_loop-All seen (f ∷ fs) h = elim (Bool-cases (any (text_eq (dedupe_key digest f)) seen)) [
    | inl there ↦ rw there (dedupe_loop-All seen fs h.1)
    | inr new ↦ rw new (h.0, dedupe_loop-All (dedupe_key digest f ∷ seen) fs h.1)
  ]

  pub dedupe-All : (fs : List Finding) → All Q fs → All Q (dedupe digest fs)
  unfolding dedupe
  dedupe-All fs h =
      sort_stable-All Q report_less (dedupe_loop digest [] fs) (dedupe_loop-All [] fs h)
