-- ===== src/Base/Strings.antt =====
-- Go strings that the program walks, as the list of their code points, with the operations of
-- Go's package strings that the program calls.
use Prim.Native.Nat.{ℕ}
use Prim.Native.Char.{code}
use Prim.Native.String.{String}
use mathlib.Core.Path.{◌≡◌, refl, ap, ◌∙◌}
use mathlib.Core.Logic.{◌↔◌, ◌≢◌}
use mathlib.Core.Bool.{Bool, true, false, ◌&&◌, ◌||◌}
use mathlib.Core.Option.{Option, none, some}
use mathlib.Core.List.{List, [], ◌∷◌, ◌++◌}
use native.Mathlib.Omega.{arith}
use miu_cr.Base.Lists.{All}
use miu_cr.Base.Tests.{ltb, leb, ◌==◌, if◌then◌else◌}

abbrev pub Text : Type 0
Text = List ℕ

abbrev pub codes : String → Text
codes String.[] = []
codes (String.◌∷◌ c s) = code c ∷ codes s

abbrev pub newline : ℕ
newline = 10

-- ==
unfoldable pub text_eq : Text → Text → Bool
text_eq [] [] = true
text_eq [] (d ∷ t) = false
text_eq (c ∷ s) [] = false
text_eq (c ∷ s) (d ∷ t) = c == d && text_eq s t

pub text_eq_iff : (s t : Text) → (text_eq s t ≡ true) ↔ (s ≡ t)
unfolding text_eq
text_eq_iff [] [] = ground arith
text_eq_iff [] (d ∷ t) = ground arith
text_eq_iff (c ∷ s) [] = ground arith
text_eq_iff (c ∷ s) (d ∷ t) = ground (arith, text_eq_iff s t)

-- unicode.IsSpace
unfoldable pub is_space : ℕ → Bool
is_space c =
    (leb 9 c && leb c 13)
    || c == 32
    || c == 0x85
    || c == 0xa0
    || c == 0x1680
    || (leb 0x2000 c && leb c 0x200a)
    || c == 0x2028
    || c == 0x2029
    || c == 0x202f
    || c == 0x205f
    || c == 0x3000

-- The suffix from the first character that fails the test: TrimLeftFunc.
unfoldable pub trim_left : (ℕ → Bool) → Text → Text
trim_left p [] = []
trim_left p (c ∷ s) = let rest = trim_left p s in if p c then rest else c ∷ s

-- The text without its longest suffix of characters that pass: TrimRightFunc.
unfoldable pub trim_right : (ℕ → Bool) → Text → Text
trim_right p [] = []
trim_right p (c ∷ s) = elim (trim_right p s) [ [] ↦ if p c then [] else c ∷ [] | d ∷ r ↦ c ∷ d ∷ r ]

unfoldable pub trim_space : Text → Text
unfolding is_space trim_left trim_right
trim_space s = trim_right is_space (trim_left is_space s)

-- The text after a prefix: strings.CutPrefix.
unfoldable pub cut_prefix : Text → Text → Option Text
cut_prefix [] s = some s
cut_prefix (p ∷ ps) [] = none
cut_prefix (p ∷ ps) (c ∷ s) = let rest = cut_prefix ps s in if p == c then rest else none

unfoldable pub has_prefix : Text → Text → Bool
unfolding cut_prefix
has_prefix s p = elim (cut_prefix p s) [ none ↦ false | some r ↦ true ]

unfoldable pub trim_prefix : Text → Text → Text
unfolding cut_prefix
trim_prefix s p = elim (cut_prefix p s) [ none ↦ s | some r ↦ r ]

-- strings.HasSuffix
unfoldable pub has_suffix : Text → Text → Bool
has_suffix [] suffix = text_eq [] suffix
has_suffix (c ∷ s) suffix = text_eq (c ∷ s) suffix || has_suffix s suffix

-- strings.TrimSuffix
unfoldable pub trim_suffix : Text → Text → Text
trim_suffix [] suffix = []
trim_suffix (c ∷ s) suffix =
    let rest = trim_suffix s suffix in if text_eq (c ∷ s) suffix then [] else c ∷ rest

abbrev add_to_first : ℕ → List Text → List Text
add_to_first c [] = (c ∷ []) ∷ []
add_to_first c (l ∷ ls) = (c ∷ l) ∷ ls

-- strings.Split(s, "\n")
unfoldable pub split_lines : Text → List Text
split_lines [] = [] ∷ []
split_lines (c ∷ s) =
    let rest = split_lines s in if c == newline then [] ∷ rest else add_to_first c rest

-- strings.Join(lines, "\n")
unfoldable pub join_lines : List Text → Text
join_lines [] = []
join_lines (l ∷ []) = l
join_lines (l ∷ m ∷ ls) = l ++ newline ∷ join_lines (m ∷ ls)

-- strings.TrimRight(s, "\r")
abbrev pub trim_cr : Text → Text
trim_cr s = trim_right (λ c. c == 13) s

abbrev pub IsOneLine : Text → Type 0
IsOneLine [] = Unit
IsOneLine (c ∷ s) = (c ≢ newline) × IsOneLine s

split_lines-line : (l : Text) → IsOneLine l → split_lines l ≡ l ∷ []
unfolding split_lines
split_lines-line [] h = refl
split_lines-line (c ∷ l) h = ground (arith, split_lines-line l)

split_lines-newline :
    (l s : Text) → IsOneLine l → split_lines (l ++ newline ∷ s) ≡ l ∷ split_lines s
unfolding split_lines
split_lines-newline [] s h = refl
split_lines-newline (c ∷ l) s h = ground (arith, split_lines-newline l s)

-- Splitting takes joined lines apart again, unless there is none.
pub split_lines-join_lines :
    (l : Text) (ls : List Text)
    → IsOneLine l
    → All IsOneLine ls
    → split_lines (join_lines (l ∷ ls)) ≡ l ∷ ls
unfolding join_lines
split_lines-join_lines l [] h hs = split_lines-line l h
split_lines-join_lines l (m ∷ ls) h hs =
    split_lines-newline l (join_lines (m ∷ ls)) h
    ∙ ap (λ t. l ∷ t) (split_lines-join_lines m ls hs.0 hs.1)

pub IsOneLine-append : (s t : Text) → IsOneLine s → IsOneLine t → IsOneLine (s ++ t)
IsOneLine-append [] t hs ht = ht
IsOneLine-append (c ∷ s) t hs ht = (hs.0, IsOneLine-append s t hs.1 ht)

-- < on strings: the order of the UTF-8 bytes is the order of the code points.
unfoldable pub text_ltb : Text → Text → Bool
text_ltb s [] = false
text_ltb [] (d ∷ t) = true
text_ltb (c ∷ s) (d ∷ t) = ltb c d || (c == d && text_ltb s t)

pub text_ltb-irreflexive : (s : Text) → text_ltb s s ≡ false
unfolding text_ltb
text_ltb-irreflexive [] = refl
text_ltb-irreflexive (c ∷ s) = ground (arith, text_ltb-irreflexive s)

pub text_ltb-asymmetric : (s t : Text) → text_ltb s t ≡ true → text_ltb t s ≡ false
unfolding text_ltb
text_ltb-asymmetric [] [] h = cc
text_ltb-asymmetric [] (d ∷ t) h = refl
text_ltb-asymmetric (c ∷ s) [] h = cc
text_ltb-asymmetric (c ∷ s) (d ∷ t) h = ground (arith, text_ltb-asymmetric s t)

pub text_ltb-not_less_trans :
    (s t u : Text) → text_ltb t s ≡ false → text_ltb u t ≡ false → text_ltb u s ≡ false
unfolding text_ltb
text_ltb-not_less_trans [] [] [] h k = refl
text_ltb-not_less_trans [] [] (e ∷ u) h k = refl
text_ltb-not_less_trans [] (d ∷ t) [] h k = refl
text_ltb-not_less_trans [] (d ∷ t) (e ∷ u) h k = refl
text_ltb-not_less_trans (c ∷ s) [] [] h k = cc
text_ltb-not_less_trans (c ∷ s) [] (e ∷ u) h k = cc
text_ltb-not_less_trans (c ∷ s) (d ∷ t) [] h k = cc
text_ltb-not_less_trans (c ∷ s) (d ∷ t) (e ∷ u) h k = ground (arith, text_ltb-not_less_trans s t u)

-- Texts of which neither is less are equal.
pub text_ltb-total : (s t : Text) → text_ltb s t ≡ false → text_ltb t s ≡ false → s ≡ t
unfolding text_ltb
text_ltb-total [] [] h k = refl
text_ltb-total [] (d ∷ t) h k = cc
text_ltb-total (c ∷ s) [] h k = cc
text_ltb-total (c ∷ s) (d ∷ t) h k = ground (arith, text_ltb-total s t)

-- A prefix and what follows it make up the text.
pub cut_prefix-append : (p s r : Text) → cut_prefix p s ≡ some r → s ≡ p ++ r
unfolding cut_prefix
cut_prefix-append [] s r e = ground arith
cut_prefix-append (c ∷ p) [] r e = cc
cut_prefix-append (c ∷ p) (d ∷ s) r e = ground (arith, cut_prefix-append p s r)

pub cut_prefix_self : (p r : Text) → cut_prefix p (p ++ r) ≡ some r
unfolding cut_prefix
cut_prefix_self [] r = refl
cut_prefix_self (c ∷ p) r = ground (arith, cut_prefix_self p r)

-- A suffix and what it is trimmed from make up the text.
pub has_suffix-append : (s t : Text) → has_suffix s t ≡ true → s ≡ trim_suffix s t ++ t
unfolding has_suffix trim_suffix
has_suffix-append [] t h = ground (arith, text_eq_iff [] t)
has_suffix-append (c ∷ s) t h = ground (arith, text_eq_iff (c ∷ s) t, has_suffix-append s t)

-- What joining does to the first step of a split: it puts the character back.
join_lines-cons :
    (c : ℕ) (ls : List Text) (s : Text)
    → ls ≢ []
    → join_lines ls ≡ s
    → join_lines (if c == newline then [] ∷ ls else add_to_first c ls) ≡ c ∷ s
unfolding join_lines
join_lines-cons c [] s n e = absurd (n refl)
join_lines-cons c (l ∷ []) s n e = ground arith
join_lines-cons c (l ∷ m ∷ ls) s n e = ground arith

split_lines-some : (s : Text) → split_lines s ≢ []
unfolding split_lines
split_lines-some [] e = cc
split_lines-some (c ∷ s) e = go (c == newline) (split_lines s) e
  where
    go : (b : Bool) (ls : List Text) → (if b then [] ∷ ls else add_to_first c ls) ≢ []
    go true ls e = cc
    go false [] e = cc
    go false (l ∷ ls) e = cc

-- Joining the lines of a text gives the text.
pub join_lines-split_lines : (s : Text) → join_lines (split_lines s) ≡ s
unfolding split_lines
join_lines-split_lines [] = unfold join_lines in refl
join_lines-split_lines (c ∷ s) =
    join_lines-cons c (split_lines s) s (split_lines-some s) (join_lines-split_lines s)
