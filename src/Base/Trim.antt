-- ===== src/Base/Trim.antt =====
-- Laws of the trimming functions of Go's package strings.
use mathlib.Core.Path.{◌≡◌, refl, ap, ◌∙◌}
use mathlib.Core.Bool.{Bool, true}
use mathlib.Core.List.{[], ◌∷◌}
use native.Mathlib.Omega.{arith}
use Prim.Native.Nat.{ℕ}
use miu_cr.Base.Tests.{◌==◌}
use miu_cr.Base.Strings.{Text, is_space, trim_left, trim_right, trim_space, trim_cr}

module _ (p q : ℕ → Bool) (wider : (c : ℕ) → p c ≡ true → q c ≡ true) where
  trim_left-trim_right : (s : Text) → trim_left q (trim_right p s) ≡ trim_right p (trim_left q s)
  unfolding trim_left trim_right
  trim_left-trim_right [] = refl
  trim_left-trim_right (c ∷ s) = ground (arith, wider c, trim_left-trim_right s)

  trim_right-trim_right : (s : Text) → trim_right q (trim_right p s) ≡ trim_right q s
  unfolding trim_right
  trim_right-trim_right [] = refl
  trim_right-trim_right (c ∷ s) = ground (arith, wider c, trim_right-trim_right s)

  -- Trimming spaces on both ends undoes a narrower trim on the right.
  trim_space-trim_right :
      (s : Text) → trim_right q (trim_left q (trim_right p s)) ≡ trim_right q (trim_left q s)
  trim_space-trim_right s =
      ap (trim_right q) (trim_left-trim_right s) ∙ trim_right-trim_right (trim_left q s)

cr-is_space : (c : ℕ) → (c == 13) ≡ true → is_space c ≡ true
unfolding is_space
cr-is_space c h = ground arith

pub trim_space-trim_cr : (s : Text) → trim_space (trim_cr s) ≡ trim_space s
unfolding trim_space
trim_space-trim_cr s = trim_space-trim_right (λ c. c == 13) is_space cr-is_space s
