-- ===== src/Budget/Rate.antt =====
-- How much one pull request can spend over time: internal/serve/reply_budget.go.
use miu_cr.Base.{
  ℕ, suc, ◌+◌, ◌-◌, ◌*◌, ◌<◌, ◌≤◌, ◌≡◌, refl, sym, ap, subst, inl, inr, true, false, ◌&&◌, Option,
  none, some, List, [], ◌∷◌, arith, Text, text_eq, text_eq_iff, Bool-cases, leb, if◌then◌else◌,
}
use miu_cr.Budget.{hour, ReplyWindow, Budgets, no_budgets, is_over, swept, spend, allow_reply_spend}

-- The calls of all pull requests, in order: the reference, and the time.
abbrev pub Calls : Type 0
Calls = List (Text × ℕ)

-- How many of the calls for the reference are allowed.
abbrev pub count_allowed : Text → Budgets → Calls → ℕ
count_allowed ref m [] = 0
count_allowed ref m ((q, now) ∷ calls) =
    let (next, allowed) = allow_reply_spend m q now in
    (if text_eq q ref && allowed then 1 else 0) + count_allowed ref next calls

-- The times do not decrease, from `from` on, and end before `until`.
abbrev pub IsClocked : ℕ → ℕ → Calls → Type 0
IsClocked from until [] = Unit
IsClocked from until ((q, now) ∷ calls) = (from ≤ now) × (now < until) × IsClocked now until calls

-- What the window allows until the end, `hours` after it began.
Fits : ℕ → ℕ → ℕ → Option ReplyWindow → Type 0
Fits from until hours none = until ≤ from + hours * hour
Fits from until hours (some b) =
    (b.n ≤ 24) × (b.start ≤ from) × (until ≤ b.start + (suc hours) * hour)

-- The allowed calls that it leaves room for.
abbrev room : ℕ → Option ReplyWindow → ℕ
room hours none = 24 * hours
room hours (some b) = 24 * hours + (24 - b.n)

record Next (from until : ℕ) (b : Option ReplyWindow) (more limit : ℕ) : Type 0 where
  hours : ℕ
  fits : Fits from until hours b
  enough : room hours b + more ≤ limit

is_over-le : (d now : ℕ) (w : ReplyWindow) → is_over d now w ≡ true → d ≤ now - w.start
unfolding is_over
is_over-le d now w h = ground arith

is_over-lt : (d now : ℕ) (w : ReplyWindow) → is_over d now w ≡ false → now - w.start < d
unfolding is_over
is_over-lt d now w h = ground arith

swept-Next :
    (from now until hours : ℕ) (o : Option ReplyWindow)
    → from ≤ now
    → now < until
    → Fits from until hours o
    → Next now until (swept now o) 0 (room hours o)
unfolding Fits swept
swept-Next from now until hours none a b f = record {
  hours = hours;
  fits = omega arith;
  enough = omega arith;
}
swept-Next from now until hours (some w) a b f = elim (Bool-cases (is_over (2 * hour) now w)) [
  | inl over ↦
      let late = is_over-le (2 * hour) now w over in
      rw over (record { hours = hours - 1; fits = omega (arith, f.2, late); enough = omega arith })
  | inr recent ↦
      rw recent
        (record { hours = hours; fits = (f.0, omega (arith, f.1), f.2); enough = omega arith })
]

fresh-Next :
    (now until hours limit : ℕ)
    → now < until
    → until ≤ now + hours * hour
    → 24 * hours ≤ limit
    → Next now until (some (record { start = now; n = 1 })) 1 limit
unfolding Fits
fresh-Next now until hours limit b e l = record {
  hours = hours - 1;
  fits = (omega arith, omega arith, omega arith);
  enough = omega arith;
}

spend-Next :
    (now until hours : ℕ) (o : Option ReplyWindow)
    → now < until
    → Fits now until hours o
    → Next now until (spend now o).0 (if (spend now o).1 then 1 else 0) (room hours o)
unfolding Fits spend
spend-Next now until hours none b f = fresh-Next now until hours (24 * hours) b f (omega arith)
spend-Next now until hours (some w) b f = elim (Bool-cases (is_over hour now w)) [
  | inl over ↦
      let late = is_over-le hour now w over in
      rw over (
        fresh-Next now until hours (24 * hours + (24 - w.n)) b (omega (arith, f.2, late))
          (omega arith))
  | inr recent ↦ elim (Bool-cases (leb 24 w.n)) [
    | inl full ↦ rw (recent, full) (record { hours = hours; fits = f; enough = omega arith })
    | inr left ↦
        let below : w.n < 24 = ground arith in
        rw (recent, left)
          (record { hours = hours; fits = (below, f.1, f.2); enough = omega (arith, below) })
  ]
]

Fits-later :
    (from now until hours : ℕ) (o : Option ReplyWindow)
    → from ≤ now
    → Fits from until hours o
    → Fits now until hours o
unfolding Fits
Fits-later from now until hours none a f = omega arith
Fits-later from now until hours (some w) a f = (f.0, omega (arith, f.1), f.2)

module _ (m : Budgets) (q ref : Text) (now : ℕ) where
  allow_reply_spend-empty : text_eq q [] ≡ true → allow_reply_spend m q now ≡ (m, false)
  unfolding allow_reply_spend
  allow_reply_spend-empty e = rw e refl

  allow_reply_spend-own :
      text_eq q [] ≡ false
      → text_eq q ref ≡ true
      → ((allow_reply_spend m q now).0 ref ≡ (spend now (swept now (m ref))).0)
        × ((allow_reply_spend m q now).1 ≡ (spend now (swept now (m ref))).1)
  unfolding allow_reply_spend
  allow_reply_spend-own e same =
      let one : m q ≡ m ref = ap m ((text_eq_iff q ref).0 same) in
      (rw (e, same, one) refl, rw (e, one) refl)

  allow_reply_spend-other :
      text_eq q [] ≡ false
      → text_eq q ref ≡ false
      → (allow_reply_spend m q now).0 ref ≡ swept now (m ref)
  unfolding allow_reply_spend
  allow_reply_spend-other e other = rw (e, other) refl

count_allowed-room :
    (ref : Text) (calls : Calls) (m : Budgets) (from until hours : ℕ)
    → IsClocked from until calls
    → Fits from until hours (m ref)
    → count_allowed ref m calls ≤ room hours (m ref)
count_allowed-room ref [] m from until hours c f = omega arith
count_allowed-room ref ((q, now) ∷ calls) m from until hours c f =
    let next = (allow_reply_spend m q now).0 in
    let s = swept-Next from now until hours (m ref) c.0 c.1 f in
    elim (Bool-cases (text_eq q [])) [
      | inl empty ↦ rw (allow_reply_spend-empty m q ref now empty) (
          ground (
            arith,
            count_allowed-room ref calls m now until hours c.2
                (Fits-later from now until hours (m ref) c.0 f),
          ))
      | inr named ↦ elim (Bool-cases (text_eq q ref)) [
        | inl own ↦
            let (window, allowed) = allow_reply_spend-own m q ref now named own in
            let t = spend-Next now until s.hours (swept now (m ref)) c.1 s.fits in
            let later : count_allowed ref next calls ≤ room t.hours (next ref) =
              count_allowed-room ref calls next now until t.hours c.2
                (subst (Fits now until t.hours) (sym window) t.fits) in
            let limit : room t.hours (next ref) ≡ room t.hours (spend now (swept now (m ref))).0 =
              ap (room t.hours) window in
            rw (own, allowed) (omega (arith, later, limit, t.enough, s.enough))
        | inr other ↦
            let window = allow_reply_spend-other m q ref now named other in
            let later : count_allowed ref next calls ≤ room s.hours (next ref) =
              count_allowed-room ref calls next now until s.hours c.2
                (subst (Fits now until s.hours) (sym window) s.fits) in
            let limit : room s.hours (next ref) ≡ room s.hours (swept now (m ref)) =
              ap (room s.hours) window in
            rw other (omega (arith, later, limit, s.enough))
      ]
    ]

-- However the calls of all pull requests interleave, if their times do not decrease and they all
-- fall within a number of hours, at most 24 of them for each of these hours are allowed to one
-- pull request.
pub count_allowed-hours :
    (ref : Text) (calls : Calls) (from hours : ℕ)
    → IsClocked from (from + hours * hour) calls
    → count_allowed ref no_budgets calls ≤ 24 * hours
count_allowed-hours ref calls from hours c =
    count_allowed-room ref calls no_budgets from (from + hours * hour) hours c
      (unfold Fits in omega arith)
