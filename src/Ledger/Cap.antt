-- ===== src/Ledger/Cap.antt =====
-- What a full ledger keeps: internal/github/ledger.go.
use miu_cr.Base.{
  ℕ, suc, ◌-◌, ◌+◌, ◌≤◌, ◌<◌, ◌||◌, ◌≡◌, refl, Bool, false, not, List, [], ◌∷◌, arith, length, take,
  keep, any, sort_stable, ◌==◌, if◌then◌else◌, length-take,
}
use miu_cr.Ledger.{
  LedgerEntry, is_resolved, Position, resolved_from, later_first, keep_positions, resolved_budget,
  cap_ledger,
}

abbrev pub unresolved : List LedgerEntry → List LedgerEntry
unresolved es = keep (λ e. not (is_resolved e)) es

unresolved-keep_positions :
    (kept : ℕ → Bool) (i : ℕ) (es : List LedgerEntry)
    → unresolved (keep_positions kept i es) ≡ unresolved es
unfolding keep_positions
unresolved-keep_positions kept i [] = refl
unresolved-keep_positions kept i (e ∷ es) =
    ground (arith, unresolved-keep_positions kept (suc i) es)

length-resolved_from :
    (i : ℕ) (es : List LedgerEntry)
    → length (resolved_from i es) + length (unresolved es) ≡ length es
unfolding resolved_from
length-resolved_from i [] = omega arith
length-resolved_from i (e ∷ es) = ground (arith, length-resolved_from (suc i) es)

-- Capping the ledger never drops an entry that is not resolved, nor reorders those.
pub unresolved-cap_ledger : (es : List LedgerEntry) → unresolved (cap_ledger es) ≡ unresolved es
unfolding cap_ledger
unresolved-cap_ledger es = ground (
  arith,
  unresolved-keep_positions
      (λ i.
        any (λ p. p.0 == i)
          (take (resolved_budget es) (sort_stable later_first (resolved_from 0 es))))
      0 es,
)

-- How many indices of the list, counted from `i`, pass.
abbrev count_from : (ℕ → Bool) → ℕ → List LedgerEntry → ℕ
count_from p i [] = 0
count_from p i (e ∷ es) = (if p i then 1 else 0) + count_from p (suc i) es

count_from-or :
    (p q : ℕ → Bool) (i : ℕ) (es : List LedgerEntry)
    → count_from (λ j. p j || q j) i es ≤ count_from p i es + count_from q i es
count_from-or p q i [] = omega arith
count_from-or p q i (e ∷ es) = ground (arith, count_from-or p q (suc i) es)

count_from-none : (i : ℕ) (es : List LedgerEntry) → count_from (λ j. false) i es ≡ 0
count_from-none i [] = refl
count_from-none i (e ∷ es) = omega (arith, count_from-none (suc i) es)

count_from-past : (k i : ℕ) (es : List LedgerEntry) → k < i → count_from (λ j. k == j) i es ≡ 0
count_from-past k i [] h = refl
count_from-past k i (e ∷ es) h = ground (arith, count_from-past k (suc i) es)

count_from-one : (k i : ℕ) (es : List LedgerEntry) → count_from (λ j. k == j) i es ≤ 1
count_from-one k i [] = omega arith
count_from-one k i (e ∷ es) =
    ground (arith, count_from-one k (suc i) es, count_from-past k (suc i) es)

count_from-any :
    (ps : List Position) (i : ℕ) (es : List LedgerEntry)
    → count_from (λ j. any (λ p. p.0 == j) ps) i es ≤ length ps
count_from-any [] i es = omega (arith, count_from-none i es)
count_from-any (p ∷ ps) i es = omega (
  arith,
  count_from-or (λ j. p.0 == j) (λ j. any (λ q. q.0 == j) ps) i es,
  count_from-one p.0 i es,
  count_from-any ps i es,
)

length-keep_positions :
    (kept : ℕ → Bool) (i : ℕ) (es : List LedgerEntry)
    → length (keep_positions kept i es) ≤ length (unresolved es) + count_from kept i es
unfolding keep_positions
length-keep_positions kept i [] = omega arith
length-keep_positions kept i (e ∷ es) = ground (arith, length-keep_positions kept (suc i) es)

-- The capped ledger has at most 100 entries, or only as many more as there are that are not
-- resolved.
length-cap_ledger :
    (es : List LedgerEntry) → length (cap_ledger es) ≤ 100 + (length (unresolved es) - 100)
unfolding cap_ledger resolved_budget
length-cap_ledger es =
    let chosen = take (resolved_budget es) (sort_stable later_first (resolved_from 0 es)) in
    ground (
      arith,
      length-resolved_from 0 es,
      length-keep_positions (λ i. any (λ p. p.0 == i) chosen) 0 es,
      count_from-any chosen 0 es,
      length-take (resolved_budget es) (sort_stable later_first (resolved_from 0 es)),
    )

-- The capped ledger has the entries that are not resolved, all of them and in their order, and
-- besides only as many as fit in 100.
pub cap_ledger_lem :
    (es : List LedgerEntry)
    → (unresolved (cap_ledger es) ≡ unresolved es)
      × (length (cap_ledger es) ≤ 100 + (length (unresolved es) - 100))
cap_ledger_lem es = (unresolved-cap_ledger es, length-cap_ledger es)
