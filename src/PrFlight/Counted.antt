-- ===== src/PrFlight/Counted.antt =====
-- The callers of a flight, counted: internal/serve/pr_flight.go.
use miu_cr.Base.{
  ℕ, ◌+◌, ◌≤◌, ◌<◌, ◌≡◌, refl, String, Bool, true, false, ◌&&◌, Option, some, List, [], ◌∷◌, ◌++◌,
  arith, All, str_eq, ◌==◌, if◌then◌else◌,
}
use miu_cr.PrFlight.{
  Flight, Phase, waiting, in_fn, leaving, Caller, Flights, no_flights, write, retain, set_locked,
}

abbrev pub one_if : Bool → ℕ
one_if b = if b then 1 else 0

abbrev pub count : (Caller → Bool) → List Caller → ℕ
count p [] = 0
count p (c ∷ cs) = one_if (p c) + count p cs

count-append :
    (p : Caller → Bool) (xs ys : List Caller) → count p (xs ++ ys) ≡ count p xs + count p ys
count-append p [] ys = omega arith
count-append p (x ∷ xs) ys = omega (arith, count-append p xs ys)

pub count-split :
    (p : Caller → Bool) (before : List Caller) (c : Caller) (after : List Caller)
    → count p (before ++ c ∷ after) ≡ one_if (p c) + count p (before ++ after)
count-split p before c after =
    omega (arith, count-append p before (c ∷ after), count-append p before after)

abbrev pub is_in_fn : Phase → Bool
is_in_fn waiting = false
is_in_fn in_fn = true
is_in_fn leaving = false

abbrev pub holds : Caller → Bool
holds c = is_in_fn c.phase

-- The callers of a flight, and those of a key.
abbrev pub at_flight : ℕ → Caller → Bool
at_flight a c = a == c.f

abbrev pub holds_flight : ℕ → Caller → Bool
holds_flight a c = a == c.f && holds c

abbrev pub of_key : String → Caller → Bool
of_key k c = str_eq k c.key

abbrev pub holds_key : String → Caller → Bool
holds_key k c = str_eq k c.key && holds c

-- The caller's flight is the one that the map has for its key.
abbrev pub IsCurrent : (String → Option ℕ) → Caller → Type 0
IsCurrent table c = table c.key ≡ some c.f

-- What the flights and their callers have in common.
pub record IsCounted (s : Flights) : Type 0 where
  pub counted : (a : ℕ) → (s.heap a).n ≡ count (at_flight a) s.callers
  pub held : (a : ℕ) → one_if (s.heap a).locked ≡ count (holds_flight a) s.callers
  pub current : All (IsCurrent s.pr_flights) s.callers
  pub used : (k : String) (a : ℕ) → s.pr_flights k ≡ some a → (a < s.allocated) × (0 < (s.heap a).n)
  pub fresh : (a : ℕ) → s.allocated ≤ a → (s.heap a).n ≡ 0
  pub own : (k l : String) (a : ℕ) → s.pr_flights k ≡ some a → s.pr_flights l ≡ some a → k ≡ l

pub no_flights-IsCounted : IsCounted no_flights
unfolding no_flights
no_flights-IsCounted = record {
  counted = λ a. refl;
  held = λ a. refl;
  current = tt;
  used = λ k a e. cc;
  fresh = λ a h. refl;
  own = λ k l a e f. cc;
}

pub All-count : (p : Caller → Bool) (cs : List Caller) → count p cs ≡ 0 → All (λ c. p c ≡ false) cs
All-count p [] h = tt
All-count p (c ∷ cs) h = (ground arith, All-count p cs (omega arith))

pub All-both {ℓ κ} :
    {A : Type ℓ} (P Q : A → Type κ) (xs : List A) → All P xs → All Q xs → All (λ x. P x × Q x) xs
All-both P Q [] h k = tt
All-both P Q (x ∷ xs) h k = ((h.0, k.0), All-both P Q xs h.1 k.1)

pub count-holds_flight :
    (a : ℕ) (cs : List Caller) → count (holds_flight a) cs ≤ count (at_flight a) cs
count-holds_flight a [] = omega arith
count-holds_flight a (c ∷ cs) = ground (arith, count-holds_flight a cs)

pub n-retain :
    (f : ℕ) (heap : ℕ → Flight) (a : ℕ) → (retain f heap a).n ≡ one_if (a == f) + (heap a).n
unfolding retain write
n-retain f heap a = ground arith

pub locked-retain : (f : ℕ) (heap : ℕ → Flight) (a : ℕ) → (retain f heap a).locked ≡ (heap a).locked
unfolding retain write
locked-retain f heap a = ground arith

pub n-set_locked :
    (b : Bool) (f : ℕ) (heap : ℕ → Flight) (a : ℕ) → (set_locked b f heap a).n ≡ (heap a).n
unfolding set_locked write
n-set_locked b f heap a = ground arith

pub locked-set_locked :
    (b : Bool) (f : ℕ) (heap : ℕ → Flight) (a : ℕ)
    → (set_locked b f heap a).locked ≡ (if a == f then b else (heap a).locked)
unfolding set_locked write
locked-set_locked b f heap a = ground arith
