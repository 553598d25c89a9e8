-- ===== src/Base/Lists.antt =====
-- Lists measured and indexed by native numbers, and the loops that return a Boolean.
use Prim.Native.Nat.{ℕ, zero, suc, ◌+◌, ◌≤◌, ◌<◌, min}
use mathlib.Core.Path.{◌≡◌, refl, ap}
use mathlib.Core.Bool.{Bool, true, false, ◌||◌}
use mathlib.Core.List.{List, [], ◌∷◌, ◌++◌}
use mathlib.Core.Option.{Option, none, some}
use native.Mathlib.Omega.{arith}
use miu_cr.Base.Tests.{if◌then◌else◌}

-- Every element has the property.
abbrev pub All {ℓ κ} : {A : Type ℓ} → (A → Type κ) → List A → Type κ
All P [] = Unit
All P (x ∷ xs) = P x × All P xs

module _ {ℓ} {A : Type ℓ} where
  abbrev pub length : List A → ℕ
  length [] = 0
  length (x ∷ xs) = suc (length xs)

  abbrev pub get_elem? : List A → ℕ → Option A
  get_elem? [] i = none
  get_elem? (x ∷ xs) zero = some x
  get_elem? (x ∷ xs) (suc i) = get_elem? xs i

  abbrev pub take : ℕ → List A → List A
  take zero xs = []
  take (suc n) [] = []
  take (suc n) (x ∷ xs) = x ∷ take n xs

  abbrev pub drop : ℕ → List A → List A
  drop zero xs = xs
  drop (suc n) [] = []
  drop (suc n) (x ∷ xs) = drop n xs

  abbrev pub any : (A → Bool) → List A → Bool
  any p [] = false
  any p (x ∷ xs) = p x || any p xs

  -- A loop that appends to `out` the elements that pass.
  abbrev pub keep : (A → Bool) → List A → List A
  keep p [] = []
  keep p (x ∷ xs) = let rest = keep p xs in if p x then x ∷ rest else rest

  pub length-append : (xs ys : List A) → length (xs ++ ys) ≡ length xs + length ys
  length-append [] ys = omega arith
  length-append (x ∷ xs) ys = omega (arith, length-append xs ys)

  pub length-take : (n : ℕ) (xs : List A) → length (take n xs) ≡ min n (length xs)
  length-take zero xs = omega arith
  length-take (suc n) [] = omega arith
  length-take (suc n) (x ∷ xs) = omega (arith, length-take n xs)

  pub length-keep : (p : A → Bool) (xs : List A) → length (keep p xs) ≤ length xs
  length-keep p [] = omega arith
  length-keep p (x ∷ xs) = ground (arith, length-keep p xs)

pub All-keep {ℓ κ} :
    {A : Type ℓ} (P : A → Type κ) (p : A → Bool) (xs : List A) → All P xs → All P (keep p xs)
All-keep P p [] h = tt
All-keep P p (x ∷ xs) h = go (p x) (All-keep P p xs h.1)
  where
    go : (b : Bool) → All P (keep p xs) → All P (if b then x ∷ keep p xs else keep p xs)
    go true r = (h.0, r)
    go false r = r

pub All-append {ℓ κ} :
    {A : Type ℓ} (P : A → Type κ) (xs ys : List A) → All P xs → All P ys → All P (xs ++ ys)
All-append P [] ys hx hy = hy
All-append P (x ∷ xs) ys hx hy = (hx.0, All-append P xs ys hx.1 hy)

module _ {ℓ} {A : Type ℓ} where
  -- xs[i] = f(xs[i]), nothing out of range.
  abbrev pub modify : ℕ → (A → A) → List A → List A
  modify i f [] = []
  modify zero f (x ∷ xs) = f x ∷ xs
  modify (suc i) f (x ∷ xs) = x ∷ modify i f xs

-- Two lists of one length, related element by element.
abbrev pub Pointwise {ℓ} : {A : Type ℓ} → (A → A → Type 0) → List A → List A → Type 0
Pointwise R [] [] = Unit
Pointwise R [] (y ∷ ys) = ⊥
Pointwise R (x ∷ xs) [] = ⊥
Pointwise R (x ∷ xs) (y ∷ ys) = R x y × Pointwise R xs ys

pub Pointwise-refl {ℓ} :
    {A : Type ℓ} (R : A → A → Type 0) → ((x : A) → R x x) → (xs : List A) → Pointwise R xs xs
Pointwise-refl R r [] = tt
Pointwise-refl R r (x ∷ xs) = (r x, Pointwise-refl R r xs)

-- Changing one element keeps the relation, if it does so at that element.
pub Pointwise-modify {ℓ} :
    {A : Type ℓ} (R : A → A → Type 0) (f : A → A) (i : ℕ) (xs ys : List A)
    → ((x y : A) → get_elem? xs i ≡ some x → get_elem? ys i ≡ some y → R x y → R x (f y))
    → Pointwise R xs ys
    → Pointwise R xs (modify i f ys)
Pointwise-modify R f i [] [] step h = tt
Pointwise-modify R f i [] (y ∷ ys) step h = absurd h
Pointwise-modify R f i (x ∷ xs) [] step h = absurd h
Pointwise-modify R f zero (x ∷ xs) (y ∷ ys) step h = (step x y refl refl h.0, h.1)
Pointwise-modify R f (suc i) (x ∷ xs) (y ∷ ys) step h = (h.0, Pointwise-modify R f i xs ys step h.1)

pub length-modify {ℓ} :
    {A : Type ℓ} (i : ℕ) (f : A → A) (xs : List A) → length (modify i f xs) ≡ length xs
length-modify i f [] = refl
length-modify zero f (x ∷ xs) = refl
length-modify (suc i) f (x ∷ xs) = ap suc (length-modify i f xs)

pub All-take {ℓ κ} :
    {A : Type ℓ} (P : A → Type κ) (n : ℕ) (xs : List A) → All P xs → All P (take n xs)
All-take P zero xs h = tt
All-take P (suc n) [] h = tt
All-take P (suc n) (x ∷ xs) h = (h.0, All-take P n xs h.1)

-- An index in range has an element.
pub get_elem?-lt {ℓ} :
    {A : Type ℓ} (xs : List A) (i : ℕ) → i < length xs → (x : A) × (get_elem? xs i ≡ some x)
get_elem?-lt [] i h = elim h [ ]
get_elem?-lt (x ∷ xs) zero h = (x, refl)
get_elem?-lt (x ∷ xs) (suc i) h = get_elem?-lt xs i (omega arith)

-- What is left behind an index begins with the element at the index.
pub drop-head {ℓ} :
    {A : Type ℓ} (i : ℕ) (xs : List A) (y : A) (ys : List A)
    → drop i xs ≡ y ∷ ys
    → (get_elem? xs i ≡ some y) × (drop (suc i) xs ≡ ys)
drop-head zero [] y ys h = cc
drop-head zero (x ∷ xs) y ys h = (cc, cc)
drop-head (suc i) [] y ys h = cc
drop-head (suc i) (x ∷ xs) y ys h = drop-head i xs y ys h

pub All-modify {ℓ κ} :
    {A : Type ℓ} (P : A → Type κ) (f : A → A) (i : ℕ) (xs : List A)
    → ((x : A) → get_elem? xs i ≡ some x → P (f x))
    → All P xs
    → All P (modify i f xs)
All-modify P f i [] step h = tt
All-modify P f zero (x ∷ xs) step h = (step x refl, h.1)
All-modify P f (suc i) (x ∷ xs) step h = (h.0, All-modify P f i xs step h.1)

pub All-map {ℓ κ} :
    {A : Type ℓ} (P Q : A → Type κ) (xs : List A) → ((x : A) → P x → Q x) → All P xs → All Q xs
All-map P Q [] f h = tt
All-map P Q (x ∷ xs) f h = (f x h.0, All-map P Q xs f h.1)

-- What holds of every element holds of the element between two parts, and of the parts.
pub All-split {ℓ κ} :
    {A : Type ℓ} (P : A → Type κ) (before : List A) (x : A) (after : List A)
    → All P (before ++ x ∷ after)
    → P x × All P (before ++ after)
All-split P [] x after h = h
All-split P (y ∷ before) x after h =
    let rest = All-split P before x after h.1 in (rest.0, (h.0, rest.1))

pub All-insert {ℓ κ} :
    {A : Type ℓ} (P : A → Type κ) (before : List A) (x : A) (after : List A)
    → P x
    → All P (before ++ after)
    → All P (before ++ x ∷ after)
All-insert P [] x after hx h = (hx, h)
All-insert P (y ∷ before) x after hx h = (h.0, All-insert P before x after hx h.1)

pub Pointwise-map {ℓ} :
    {A : Type ℓ} (R S : A → A → Type 0) (xs ys : List A)
    → ((x y : A) → R x y → S x y)
    → Pointwise R xs ys
    → Pointwise S xs ys
Pointwise-map R S [] [] f h = tt
Pointwise-map R S [] (y ∷ ys) f h = absurd h
Pointwise-map R S (x ∷ xs) [] f h = absurd h
Pointwise-map R S (x ∷ xs) (y ∷ ys) f h = (f x y h.0, Pointwise-map R S xs ys f h.1)
