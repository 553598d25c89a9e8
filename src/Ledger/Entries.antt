-- ===== src/Ledger/Entries.antt =====
-- Lemmas on lists of ledger entries: internal/github/ledger.go.
use miu_cr.Base.{
  ℕ, zero, suc, ◌≡◌, refl, ap, ◌∙◌, String, Bool, true, false, not, ◌||◌, ◌&&◌, some, List, [], ◌∷◌,
  ◌++◌, arith, length, map, any, All, modify, get_elem?, Text, text_eq, str_eq, str_eq_iff,
}
use miu_cr.Finding.{Finding}
use miu_cr.Ledger.{LedgerEntry, is_resolved}
use miu_cr.Ledger.Cap.{unresolved}

-- An entry of the fingerprint that is not resolved.
abbrev pub is_open_at : Text → LedgerEntry → Bool
is_open_at fp e = not (is_resolved e) && text_eq fp e.fp

pub any-unresolved :
    (fp : Text) (es : List LedgerEntry)
    → any (is_open_at fp) (unresolved es) ≡ any (is_open_at fp) es
any-unresolved fp [] = refl
any-unresolved fp (e ∷ es) = ground (arith, any-unresolved fp es)

pub any-append :
    (p : LedgerEntry → Bool) (xs ys : List LedgerEntry) → any p (xs ++ ys) ≡ (any p xs || any p ys)
any-append p [] ys = refl
any-append p (x ∷ xs) ys = ground (arith, any-append p xs ys)

pub get_elem?-append :
    (xs ys : List LedgerEntry) (i : ℕ) (e : LedgerEntry)
    → get_elem? xs i ≡ some e
    → get_elem? (xs ++ ys) i ≡ some e
get_elem?-append [] ys i e h = grind arith
get_elem?-append (x ∷ xs) ys zero e h = h
get_elem?-append (x ∷ xs) ys (suc i) e h = get_elem?-append xs ys i e h

pub get_elem?-last :
    (xs : List LedgerEntry) (e : LedgerEntry) → get_elem? (xs ++ e ∷ []) (length xs) ≡ some e
get_elem?-last [] e = refl
get_elem?-last (x ∷ xs) e = get_elem?-last xs e

pub is_not : (s a b : String) → str_eq a b ≡ false → str_eq s a ≡ true → str_eq s b ≡ false
is_not s a b k h = ap (λ x. str_eq x b) ((str_eq_iff s a).0 h) ∙ k

pub any-get_elem? :
    (p : LedgerEntry → Bool) (xs : List LedgerEntry) (i : ℕ) (x : LedgerEntry)
    → get_elem? xs i ≡ some x
    → p x ≡ true
    → any p xs ≡ true
any-get_elem? p [] i x h k = grind arith
any-get_elem? p (y ∷ ys) zero x h k = grind arith
any-get_elem? p (y ∷ ys) (suc i) x h k = ground (arith, any-get_elem? p ys i x h k)

pub any-modify :
    (p : LedgerEntry → Bool) (g : LedgerEntry → LedgerEntry) (i : ℕ) (xs : List LedgerEntry)
    → ((x : LedgerEntry) → p x ≡ true → p (g x) ≡ true)
    → any p xs ≡ true
    → any p (modify i g xs) ≡ true
any-modify p g i [] k h = h
any-modify p g zero (x ∷ xs) k h = ground (arith, k x)
any-modify p g (suc i) (x ∷ xs) k h = ground (arith, any-modify p g i xs k)

pub any-map :
    (p : LedgerEntry → Bool) (g : LedgerEntry → LedgerEntry) (xs : List LedgerEntry)
    → ((x : LedgerEntry) → p x ≡ true → p (g x) ≡ true)
    → any p xs ≡ true
    → any p (map g xs) ≡ true
any-map p g [] k h = h
any-map p g (x ∷ xs) k h = ground (arith, k x, any-map p g xs k)

-- A change of one entry leaves every entry where it is, and its fingerprint as it was.
pub get_elem?-modify :
    (g : LedgerEntry → LedgerEntry) (i j : ℕ) (xs : List LedgerEntry) (x : LedgerEntry)
    → ((y : LedgerEntry) → (g y).fp ≡ y.fp)
    → get_elem? xs j ≡ some x
    → (y : LedgerEntry) × (get_elem? (modify i g xs) j ≡ some y) × (y.fp ≡ x.fp)
get_elem?-modify g i j [] x k h = grind arith
get_elem?-modify g zero zero (y ∷ ys) x k h = (g y, refl, k y ∙ ground arith)
get_elem?-modify g zero (suc j) (y ∷ ys) x k h = (x, h, refl)
get_elem?-modify g (suc i) zero (y ∷ ys) x k h = (x, h, refl)
get_elem?-modify g (suc i) (suc j) (y ∷ ys) x k h = get_elem?-modify g i j ys x k h

pub get_elem?-modified :
    (g : LedgerEntry → LedgerEntry) (i : ℕ) (xs : List LedgerEntry) (x : LedgerEntry)
    → get_elem? xs i ≡ some x
    → get_elem? (modify i g xs) i ≡ some (g x)
get_elem?-modified g i [] x h = grind arith
get_elem?-modified g zero (y ∷ ys) x h = grind arith
get_elem?-modified g (suc i) (y ∷ ys) x h = get_elem?-modified g i ys x h

pub All-zip :
    {P Q R : Finding → Type 0} (fs : List Finding)
    → All P fs
    → All Q fs
    → ((f : Finding) → P f → Q f → R f)
    → All R fs
All-zip [] p q h = tt
All-zip (f ∷ fs) p q h = (h f p.0 q.0, All-zip fs p.1 q.1 h)
