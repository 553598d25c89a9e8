-- ===== src/Base/Sort.antt =====
-- sort.SliceStable: the one arrangement that is ordered and keeps equal elements as they were.
use mathlib.Core.Path.{◌≡◌, refl, ap, ◌∙◌}
use mathlib.Core.Logic.{inl, inr}
use mathlib.Core.Bool.{Bool, true, false, ◌||◌}
use mathlib.Core.List.{List, [], ◌∷◌}
use Prim.Native.Nat.{suc}
use native.Mathlib.Omega.{arith}
use miu_cr.Base.Tests.{if◌then◌else◌, Bool-cases}
use miu_cr.Base.Lists.{any, length, All}

module _ {ℓ} {A : Type ℓ} where
  -- In front of the first element that is not less.
  unfoldable pub insert_stable : (A → A → Bool) → A → List A → List A
  insert_stable less x [] = x ∷ []
  insert_stable less x (y ∷ ys) =
      let later = insert_stable less x ys in if less y x then y ∷ later else x ∷ y ∷ ys

  unfoldable pub sort_stable : (A → A → Bool) → List A → List A
  unfolding insert_stable
  sort_stable less [] = []
  sort_stable less (x ∷ xs) = insert_stable less x (sort_stable less xs)

  pub any-insert_stable :
      (less : A → A → Bool) (p : A → Bool) (x : A) (ys : List A)
      → any p (insert_stable less x ys) ≡ (p x || any p ys)
  unfolding insert_stable
  any-insert_stable less p x [] = refl
  any-insert_stable less p x (y ∷ ys) = ground (arith, any-insert_stable less p x ys)

  pub any-sort_stable :
      (less : A → A → Bool) (p : A → Bool) (xs : List A) → any p (sort_stable less xs) ≡ any p xs
  any-sort_stable less p [] = unfold sort_stable in refl
  any-sort_stable less p (x ∷ xs) =
      unfold_sort
      ∙ any-insert_stable less p x (sort_stable less xs)
      ∙ ap (λ b. p x || b) (any-sort_stable less p xs)
    where
      unfold_sort :
          any p (sort_stable less (x ∷ xs)) ≡ any p (insert_stable less x (sort_stable less xs))
      unfold_sort = unfold sort_stable in refl

  length-insert_stable :
      (less : A → A → Bool) (x : A) (ys : List A)
      → length (insert_stable less x ys) ≡ suc (length ys)
  unfolding insert_stable
  length-insert_stable less x [] = refl
  length-insert_stable less x (y ∷ ys) = ground (arith, length-insert_stable less x ys)

  pub length-sort_stable :
      (less : A → A → Bool) (xs : List A) → length (sort_stable less xs) ≡ length xs
  unfolding sort_stable
  length-sort_stable less [] = refl
  length-sort_stable less (x ∷ xs) =
      length-insert_stable less x (sort_stable less xs) ∙ ap suc (length-sort_stable less xs)

insert_stable-All {ℓ κ} :
    {A : Type ℓ} (P : A → Type κ) (less : A → A → Bool) (x : A) (ys : List A)
    → P x
    → All P ys
    → All P (insert_stable less x ys)
unfolding insert_stable
insert_stable-All P less x [] p h = (p, tt)
insert_stable-All P less x (y ∷ ys) p h = elim (Bool-cases (less y x)) [
  | inl lt ↦ rw lt (h.0, insert_stable-All P less x ys p h.1)
  | inr ge ↦ rw ge (p, h)
]

pub sort_stable-All {ℓ κ} :
    {A : Type ℓ} (P : A → Type κ) (less : A → A → Bool) (xs : List A)
    → All P xs
    → All P (sort_stable less xs)
unfolding sort_stable
sort_stable-All P less [] h = tt
sort_stable-All P less (x ∷ xs) h =
    insert_stable-All P less x (sort_stable less xs) h.0 (sort_stable-All P less xs h.1)

-- No element is less than one before it.
abbrev pub IsOrdered {ℓ} : {A : Type ℓ} → (A → A → Bool) → List A → Type 0
IsOrdered less [] = Unit
IsOrdered less (x ∷ xs) = All (λ y. less y x ≡ false) xs × IsOrdered less xs

-- What sorting takes of a comparison: a strict weak order.
pub record StrictWeakOrder {ℓ} {A : Type ℓ} (less : A → A → Bool) : Type ℓ where
  pub asymmetric : (a b : A) → less a b ≡ true → less b a ≡ false
  pub not_less_trans : (a b c : A) → less b a ≡ false → less c b ≡ false → less c a ≡ false

module _ {ℓ} {A : Type ℓ} (less : A → A → Bool) (order : StrictWeakOrder less) where
  All-not_less :
      (x y : A) (ys : List A)
      → less y x ≡ false
      → All (λ z. less z y ≡ false) ys
      → All (λ z. less z x ≡ false) ys
  All-not_less x y [] e h = tt
  All-not_less x y (z ∷ ys) e h = (order.not_less_trans x y z e h.0, All-not_less x y ys e h.1)

  All-insert_stable :
      (x y : A) (ys : List A)
      → less x y ≡ false
      → All (λ z. less z y ≡ false) ys
      → All (λ z. less z y ≡ false) (insert_stable less x ys)
  unfolding insert_stable
  All-insert_stable x y [] e h = (e, tt)
  All-insert_stable x y (z ∷ ys) e h = elim (Bool-cases (less z x)) [
    | inl lt ↦ rw lt (h.0, All-insert_stable x y ys e h.1)
    | inr ge ↦ rw ge (e, h)
  ]

  IsOrdered-insert_stable :
      (x : A) (ys : List A) → IsOrdered less ys → IsOrdered less (insert_stable less x ys)
  unfolding insert_stable
  IsOrdered-insert_stable x [] h = (tt, tt)
  IsOrdered-insert_stable x (y ∷ ys) h = elim (Bool-cases (less y x)) [
    | inl lt ↦
        rw lt
          (All-insert_stable x y ys (order.asymmetric y x lt) h.0, IsOrdered-insert_stable x ys h.1)
    | inr ge ↦ rw ge ((ge, All-not_less x y ys ge h.0), h)
  ]

  pub sort_stable-IsOrdered : (xs : List A) → IsOrdered less (sort_stable less xs)
  unfolding sort_stable
  sort_stable-IsOrdered [] = tt
  sort_stable-IsOrdered (x ∷ xs) =
      IsOrdered-insert_stable x (sort_stable less xs) (sort_stable-IsOrdered xs)
