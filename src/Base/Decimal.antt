-- ===== src/Base/Decimal.antt =====
-- Decimal numerals: what `%d` of fmt prints and what strconv.Atoi reads of a text of digits.
use Prim.Native.Nat.{ℕ, zero, suc, ◌+◌, ◌-◌, ◌*◌, ◌/◌, ◌%◌, ◌<◌}
use mathlib.Core.Path.{◌≡◌, refl, ◌∙◌, ap}
use mathlib.Core.Logic.{inl, inr}
use mathlib.Core.Bool.{Bool, true, false, ◌&&◌}
use mathlib.Core.List.{[], ◌∷◌, ◌++◌}
use native.Mathlib.Omega.{arith}
use miu_cr.Base.Tests.{leb, ltb, if◌then◌else◌, Bool-cases, ltb→lt}
use miu_cr.Base.Lists.{All}
use miu_cr.Base.Strings.{Text}

unfoldable pub is_digit : ℕ → Bool
is_digit c = leb 48 c && leb c 57

abbrev pub IsDigit : ℕ → Type 0
IsDigit c = is_digit c ≡ true

unfoldable pub digits_value : ℕ → Text → ℕ
digits_value n [] = n
digits_value n (c ∷ s) = digits_value (n * 10 + (c - 48)) s

decimal_loop : ℕ → ℕ → Text → Text
decimal_loop zero n acc = acc
decimal_loop (suc f) n acc =
    let rest = decimal_loop f (n / 10) ((48 + n % 10) ∷ acc) in
    if ltb n 10 then (48 + n) ∷ acc else rest

-- The numeral of `n`: each round divides by ten, so `suc n` rounds are enough.
unfoldable pub decimal : ℕ → Text
unfolding decimal_loop
decimal n = decimal_loop (suc n) n []

-- The longest prefix of digits, and what follows it.
unfoldable pub scan_digits : Text → Text × Text
scan_digits [] = ([], [])
scan_digits (c ∷ s) =
    let (ds, rest) = scan_digits s in if is_digit c then (c ∷ ds, rest) else ([], c ∷ s)

digits_value-decimal_loop :
    (f n : ℕ) (acc : Text) → n < f → digits_value 0 (decimal_loop f n acc) ≡ digits_value n acc
unfolding decimal_loop digits_value
digits_value-decimal_loop zero n acc h = elim h [ ]
digits_value-decimal_loop (suc f) n acc h = elim (Bool-cases (ltb n 10)) [
  | inl small ↦ rw small (ap (λ k. digits_value k acc) (omega arith))
  | inr large ↦ rw large (
      digits_value-decimal_loop f (n / 10) _ (ground arith)
      ∙ ap (λ k. digits_value k acc) (omega arith))
]

pub digits_value-decimal : (n : ℕ) → digits_value 0 (decimal n) ≡ n
unfolding decimal digits_value
digits_value-decimal n = digits_value-decimal_loop (suc n) n [] (omega arith)

code-IsDigit : (d : ℕ) → d < 10 → IsDigit (48 + d)
unfolding is_digit
code-IsDigit d h = ground arith

decimal_loop-IsDigit : (f n : ℕ) (acc : Text) → All IsDigit acc → All IsDigit (decimal_loop f n acc)
unfolding decimal_loop
decimal_loop-IsDigit zero n acc h = h
decimal_loop-IsDigit (suc f) n acc h = elim (Bool-cases (ltb n 10)) [
  | inl small ↦ rw small (code-IsDigit n (ltb→lt n 10 small), h)
  | inr large ↦
      rw large (decimal_loop-IsDigit f (n / 10) _ (code-IsDigit (n % 10) (omega arith), h))
]

pub decimal-IsDigit : (n : ℕ) → All IsDigit (decimal n)
unfolding decimal
decimal-IsDigit n = decimal_loop-IsDigit (suc n) n [] tt

decimal_loop-ne-nil :
    (f n : ℕ) (acc : Text)
    → ((d : ℕ) × (r : Text) × (acc ≡ d ∷ r))
    → (d : ℕ) × (r : Text) × (decimal_loop f n acc ≡ d ∷ r)
unfolding decimal_loop
decimal_loop-ne-nil zero n acc h = h
decimal_loop-ne-nil (suc f) n acc h = elim (Bool-cases (ltb n 10)) [
  | inl small ↦ (48 + n, acc, rw small)
  | inr large ↦ rw large (decimal_loop-ne-nil f (n / 10) _ (48 + n % 10, acc, refl))
]

-- A numeral is not empty.
pub decimal-cons : (n : ℕ) → (d : ℕ) × (r : Text) × (decimal n ≡ d ∷ r)
unfolding decimal decimal_loop
decimal-cons n = elim (Bool-cases (ltb n 10)) [
  | inl small ↦ (48 + n, [], rw small)
  | inr large ↦ rw large (decimal_loop-ne-nil n (n / 10) _ (48 + n % 10, [], refl))
]

-- Scanning stops at the first character that is no digit.
pub scan_digits-append :
    (ds : Text) (c : ℕ) (rest : Text)
    → All IsDigit ds
    → is_digit c ≡ false
    → scan_digits (ds ++ c ∷ rest) ≡ (ds, c ∷ rest)
unfolding scan_digits
scan_digits-append [] c rest h e = rw e
scan_digits-append (d ∷ ds) c rest h e = rw (h.0, scan_digits-append ds c rest h.1 e)
