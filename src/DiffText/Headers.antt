-- ===== src/DiffText/Headers.antt =====
-- Which lines are headers of files: internal/engine/diff/parser.go.
use miu_cr.Base.{
  ◌>>=◌, ℕ, ◌≡◌, ◌⊎◌, ◌≢◌, refl, ap, sym, ◌∙◌, true, Option, none, some, [], ◌∷◌, ◌++◌, arith, Text,
  codes, text_eq, cut_prefix, cut_prefix-append, cut_prefix_self, has_suffix, has_suffix-append,
  trim_suffix, Bool-cases, Option-cases, inl, inr,
}
use miu_cr.DiffText.{
  rest_after, lazy_split, second_quoted, greedy_split, parse_quoted_header, parse_diff_header,
}

-- a/ and b/ in front of two paths, which are not empty.
abbrev pub IsPlainHeader : Text → Type 0
IsPlainHeader line =
    (c : ℕ) × (old : Text) × (d : ℕ) × (new : Text) × (line
      ≡ codes "diff --git a/" ++ ((c ∷ old) ++ (codes " b/" ++ d ∷ new)))

-- "a/ and "b/ in front of two quoted paths.
abbrev pub IsQuotedHeader : Text → Type 0
IsQuotedHeader line =
    (old : Text) × (new : Text) × (line
      ≡ codes "diff --git \"a/" ++ (old ++ (codes "\" \"b/" ++ (new ++ codes "\""))))

abbrev pub IsHeader : Text → Type 0
IsHeader line = IsPlainHeader line ⊎ IsQuotedHeader line

quote-has_suffix : (m : Text) → has_suffix (m ++ codes "\"") (codes "\"") ≡ true
unfolding has_suffix text_eq
quote-has_suffix [] = refl
quote-has_suffix (c ∷ m) = ground (arith, quote-has_suffix m)

rest_after-some :
    (p s r : Text) → rest_after p s ≡ some r → (d : ℕ) × (new : Text) × (r ≡ d ∷ new) × (s ≡ p ++ r)
rest_after-some p s r h = elim (Option-cases (cut_prefix p s)) [
  | inl e ↦ ground (arith, e)
  | inr ([], e) ↦ ground (arith, e)
  | inr (d ∷ new, e) ↦
      let same : d ∷ new ≡ r = ground (arith, e) in
      (d, new, sym same, cut_prefix-append p s (d ∷ new) e ∙ ap (λ t. p ++ t) same)
]

lazy_split-some :
    (s : Text) (m : Text × Text)
    → lazy_split s ≡ some m
    → (c : ℕ) × (old : Text) × (d : ℕ) × (new : Text) × (s ≡ (c ∷ old) ++ (codes " b/" ++ d ∷ new))
unfolding lazy_split
lazy_split-some [] m h = cc
lazy_split-some (c ∷ s) m h = elim (Option-cases (rest_after (codes " b/") s)) [
  | inr (r, e) ↦
      let (d, new, g, f) = rest_after-some (codes " b/") s r e in
      (c, [], d, new, ap (λ t. c ∷ t) (f ∙ ap (λ t. codes " b/" ++ t) g))
  | inl e ↦ elim (Option-cases (lazy_split s)) [
    | inl l ↦ ground (arith, e, l)
    | inr (later, l) ↦
        let (b, old, d, new, f) = lazy_split-some s later l in
        (c, b ∷ old, d, new, ap (λ t. c ∷ t) f)
  ]
]

lazy_split-found :
    (c : ℕ) (old : Text) (d : ℕ) (new : Text)
    → (m : Text × Text) × (lazy_split ((c ∷ old) ++ (codes " b/" ++ d ∷ new)) ≡ some m)
unfolding lazy_split cut_prefix
lazy_split-found c [] d new = ((c ∷ [], d ∷ new), refl)
lazy_split-found c (b ∷ old) d new =
    let (later, l) = lazy_split-found b old d new in
    elim (Option-cases (rest_after (codes " b/") ((b ∷ old) ++ (codes " b/" ++ d ∷ new)))) [
      | inr (r, e) ↦ ((c ∷ [], r), rw (e, lazy_split))
      | inl e ↦ ((c ∷ later.0, later.1), rw (e, l, lazy_split))
    ]

second_quoted-some :
    (s r : Text)
    → second_quoted s ≡ some r
    → (new : Text) × (s ≡ codes "\" \"b/" ++ (new ++ codes "\""))
unfolding second_quoted
second_quoted-some s r h = elim (Option-cases (cut_prefix (codes "\" ") s)) [
  | inl e ↦ ground (arith, e)
  | inr (t, e) ↦ elim (Option-cases (rest_after (codes "\"b/") t)) [
    | inl f ↦ ground (arith, e, f)
    | inr (rest, f) ↦ elim (Bool-cases (has_suffix rest (codes "\""))) [
      | inr k ↦ ground (arith, e, f, k)
      | inl k ↦
          let ending = has_suffix-append rest (codes "\"") k in
          let (d, tail, g, at) = rest_after-some (codes "\"b/") t rest f in
          (
            trim_suffix rest (codes "\""),
            cut_prefix-append (codes "\" ") s t e
                ∙ ap (λ x. codes "\" " ++ x) (at ∙ ap (λ x. codes "\"b/" ++ x) ending),
          )
    ]
  ]
]

rest_after-append-quote :
    (p new : Text) → rest_after p (p ++ (new ++ codes "\"")) ≡ some (new ++ codes "\"")
rest_after-append-quote p [] = rw (cut_prefix_self p (codes "\""), rest_after) refl
rest_after-append-quote p (c ∷ new) =
    rw (cut_prefix_self p ((c ∷ new) ++ codes "\""), rest_after) refl

second_quoted-found :
    (new : Text) → (r : Text) × (second_quoted (codes "\" \"b/" ++ (new ++ codes "\"")) ≡ some r)
unfolding second_quoted
second_quoted-found new = (
  codes "\"b/" ++ (new ++ codes "\""),
  rw
      (
        cut_prefix_self (codes "\" ") (codes "\"b/" ++ (new ++ codes "\"")),
        rest_after-append-quote (codes "\"b/") new,
        quote-has_suffix new,
      )
      refl,
)

greedy_split-some :
    (s : Text) (m : Text × Text)
    → greedy_split s ≡ some m
    → (old : Text) × (new : Text) × (s ≡ old ++ (codes "\" \"b/" ++ (new ++ codes "\"")))
unfolding greedy_split
greedy_split-some [] m h = cc
greedy_split-some (c ∷ s) m h = elim (Option-cases (greedy_split s)) [
  | inr (later, l) ↦
      let (old, new, f) = greedy_split-some s later l in (c ∷ old, new, ap (λ t. c ∷ t) f)
  | inl l ↦ elim (Option-cases (second_quoted (c ∷ s))) [
    | inl e ↦ ground (arith, l, e)
    | inr (r, e) ↦ let (new, f) = second_quoted-some (c ∷ s) r e in ([], new, f)
  ]
]

greedy_split-found :
    (old new : Text) → greedy_split (old ++ (codes "\" \"b/" ++ (new ++ codes "\""))) ≢ none
unfolding greedy_split
greedy_split-found [] new h =
    let (r, e) = second_quoted-found new in
    elim (Option-cases (greedy_split (codes " \"b/" ++ (new ++ codes "\"")))) [
      | inr (later, l) ↦ ground (arith, h, l)
      | inl l ↦ ground (arith, h, l, e)
    ]
greedy_split-found (c ∷ old) new h =
    elim (Option-cases (greedy_split (old ++ (codes "\" \"b/" ++ (new ++ codes "\""))))) [
      | inr (later, l) ↦ ground (arith, h, l)
      | inl l ↦ greedy_split-found old new l
    ]

parse_quoted_header-some :
    (unquote : Text → Option Text) (line : Text) (m : Text × Text)
    → parse_quoted_header unquote line ≡ some m
    → IsQuotedHeader line
unfolding parse_quoted_header
parse_quoted_header-some unquote line m h =
    elim (Option-cases (cut_prefix (codes "diff --git \"a/") line)) [
      | inl e ↦ ground (arith, h, e)
      | inr (s, e) ↦ elim (Option-cases (greedy_split s)) [
        | inl l ↦ ground (arith, h, e, l)
        | inr (parts, l) ↦
            let (old, new, f) = greedy_split-some s parts l in
            (
              old,
              new,
              cut_prefix-append (codes "diff --git \"a/") line s e
                  ∙ ap (λ t. codes "diff --git \"a/" ++ t) f,
            )
      ]
    ]

parse_quoted_header-found :
    (unquote : Text → Option Text) (line : Text)
    → IsQuotedHeader line
    → parse_quoted_header unquote line ≢ none
unfolding parse_quoted_header
parse_quoted_header-found unquote line (old, new, e) h =
    let rest = old ++ (codes "\" \"b/" ++ (new ++ codes "\"")) in
    elim (Option-cases (greedy_split rest)) [
      | inl l ↦ greedy_split-found old new l
      | inr (parts, l) ↦ ground (arith, h, e, l, cut_prefix_self (codes "diff --git \"a/") rest)
    ]

-- The parser takes exactly the lines of the two forms for headers.
pub parse_diff_header-some :
    (unquote : Text → Option Text) (line : Text) (m : Text × Text)
    → parse_diff_header unquote line ≡ some m
    → IsHeader line
unfolding parse_diff_header
parse_diff_header-some unquote line m h =
    elim (Option-cases (cut_prefix (codes "diff --git a/") line >>= lazy_split)) [
      | inl e ↦ inr (parse_quoted_header-some unquote line m (ground (arith, h, e)))
      | inr (parts, e) ↦ elim (Option-cases (cut_prefix (codes "diff --git a/") line)) [
        | inl f ↦ ground (arith, e, f)
        | inr (s, f) ↦
            let (c, old, d, new, g) = lazy_split-some s parts (ground (arith, e, f)) in
            inl (
              c,
              old,
              d,
              new,
              cut_prefix-append (codes "diff --git a/") line s f
                  ∙ ap (λ t. codes "diff --git a/" ++ t) g,
            )
      ]
    ]

pub parse_diff_header-none :
    (unquote : Text → Option Text) (line : Text)
    → parse_diff_header unquote line ≡ none
    → ¬ IsHeader line
unfolding parse_diff_header
parse_diff_header-none unquote line h (inl (c, old, d, new, e)) =
    let rest = (c ∷ old) ++ (codes " b/" ++ d ∷ new) in
    let (m, l) = lazy_split-found c old d new in
    ground (arith, h, e, l, cut_prefix_self (codes "diff --git a/") rest)
parse_diff_header-none unquote line h (inr q) =
    elim (Option-cases (cut_prefix (codes "diff --git a/") line >>= lazy_split)) [
      | inr (parts, e) ↦ ground (arith, h, e)
      | inl e ↦ parse_quoted_header-found unquote line q (ground (arith, h, e))
    ]
