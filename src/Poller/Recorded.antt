-- ===== src/Poller/Recorded.antt =====
-- What the cursor knows of the reviews: internal/serve/poller.go and internal/serve/cursor.go.
use miu_cr.Base.{
  ℕ, ◌+◌, ◌≡◌, refl, sym, subst, String, Bool, true, false, Option, none, some, List, [], ◌∷◌, ◌++◌,
  ◌||◌, not, arith, Text, text_eq, any, ltb, if◌then◌else◌,
}
use miu_cr.Anchor.{is_text}
use miu_cr.Poller.{
  Cursor, put, record_seen, record_notif, is_stale, prune, Closure, on_done, advance, Change,
  succeeded, pruned, completed, Poller, Step, Reach,
}

-- 14 days, in nanoseconds.
abbrev two_weeks : ℕ
two_weeks = 1209600000000000

-- Whether one of the prunings came more than 14 days after the time.
abbrev pub has_expired : ℕ → List ℕ → Bool
has_expired t prunings = any (λ now. ltb (t + two_weeks) now) prunings

abbrev pub or_expired : Option ℕ → List ℕ → Bool
or_expired none prunings = false
or_expired (some t) prunings = has_expired t prunings

-- The head that is known for a ref: that of its latest success, unless one of the prunings since
-- then came more than 14 days after it. Without a success it is the one that was loaded, which the
-- prunings end in the same way. `prunings` are those behind the changes.
unfoldable pub known_seen : Text → Cursor → List ℕ → List Change → Option String
known_seen r c prunings [] = if or_expired (c.touched r) prunings then none else c.seen r
known_seen r c prunings (pruned now ∷ changes) = known_seen r c (now ∷ prunings) changes
known_seen r c prunings (succeeded j t ∷ changes) =
    let earlier = known_seen r c prunings changes in
    if not (text_eq r j.ref) then earlier else if has_expired t prunings then none else some j.sha

-- The notification time that is known for a ref. A success without one keeps the earlier one, for
-- 14 days more.
unfoldable pub known_notif : Text → Cursor → List ℕ → List Change → Option Text
known_notif r c prunings [] = if or_expired (c.touched r) prunings then none else c.notif_seen r
known_notif r c prunings (pruned now ∷ changes) = known_notif r c (now ∷ prunings) changes
known_notif r c prunings (succeeded j t ∷ changes) =
    let earlier = known_notif r c prunings changes in
    let kept = known_notif r c [] changes in
    if not (text_eq r j.ref)
    then earlier
    else if has_expired t prunings
    then none
    else if is_text j.notif_updated
    then some j.notif_updated
    else kept

-- The entries of the cursor, before and after prunings that are still to come.
record WouldKeep (c : Cursor) (p : Poller) (prunings : List ℕ) (r : Text) : Type 0 where
  seen :
      known_seen r c prunings p.changes
      ≡ (if or_expired (p.cursor.touched r) prunings then none else p.cursor.seen r)
  notif :
      known_notif r c prunings p.changes
      ≡ (if or_expired (p.cursor.touched r) prunings then none else p.cursor.notif_seen r)

abbrev IsKept : Cursor → Poller → Type 0
IsKept c p = (prunings : List ℕ) (r : Text) → WouldKeep c p prunings r

or_expired-none : (o : Option ℕ) → or_expired o [] ≡ false
or_expired-none none = refl
or_expired-none (some t) = refl

is_stale-or_expired : (now : ℕ) (o : Option ℕ) → is_stale now o ≡ or_expired o (now ∷ [])
unfolding is_stale
is_stale-or_expired now none = refl
is_stale-or_expired now (some t) = ground arith

or_expired-cons :
    (now : ℕ) (o : Option ℕ) (prunings : List ℕ)
    → or_expired o (now ∷ prunings) ≡ (is_stale now o || or_expired o prunings)
unfolding is_stale
or_expired-cons now none prunings = refl
or_expired-cons now (some t) prunings = ground arith

module _ (c : Cursor) (p : Poller) (h : IsKept c p) where
  completes-IsKept :
      (now : ℕ) (success : Bool) (j : Closure) (rest : List Closure)
      → IsKept c (record {
        cursor = on_done now success j p.cursor;
        pending = rest;
        changes = completed success j now p.changes;
      })
  unfolding on_done record_seen record_notif put known_seen known_notif
  completes-IsKept now false j rest prunings r = record {
    seen = (h prunings r).seen;
    notif = (h prunings r).notif;
  }
  completes-IsKept now true j rest prunings r = record {
    seen = ground (arith, (h prunings r).seen);
    notif =
        ground (arith, (h prunings r).notif, (h [] r).notif, or_expired-none (p.cursor.touched r));
  }

  advances-IsKept :
      (tick_start now : ℕ)
      → IsKept c
          (record p { cursor = advance tick_start now p.cursor; changes = pruned now ∷ p.changes })
  unfolding advance prune known_seen known_notif
  advances-IsKept tick_start now prunings r =
      let cons = or_expired-cons now (p.cursor.touched r) prunings in
      record {
        seen = ground (arith, (h (now ∷ prunings) r).seen, cons);
        notif = ground (arith, (h (now ∷ prunings) r).notif, cons);
      }

Step-IsKept : (c : Cursor) (p q : Poller) → IsKept c p → Step p q → IsKept c q
Step-IsKept c p q h (Step.dispatches _ _ _ j _ f) =
    subst (IsKept c) (sym f)
      (λ prunings r. record { seen = (h prunings r).seen; notif = (h prunings r).notif })
Step-IsKept c p q h (Step.completes before j after now success _ f) =
    subst (IsKept c) (sym f) (completes-IsKept c p h now success j (before ++ after))
Step-IsKept c p q h (Step.advances tick_start now f) =
    subst (IsKept c) (sym f) (advances-IsKept c p h tick_start now)

abbrev pub idle : Cursor → Poller
idle c = record { cursor = c; pending = []; changes = [] }

Reach-IsKept : (c : Cursor) (p : Poller) → Reach (idle c) p → IsKept c p
Reach-IsKept c p Reach.start =
    unfold known_seen known_notif in λ prunings r. record { seen = refl; notif = refl }
Reach-IsKept c p (Reach.next {q = q} r s) = Step-IsKept c q p (Reach-IsKept c q r) s

-- From a loaded cursor, through any interleaving of ticks and of reviews that end, what the cursor
-- holds for a pull request is the head of the latest review of it that succeeded, exactly until a
-- tick prunes more than 14 days after that review; and in the same way the time of the latest
-- notification that led to a success, which later successes keep alive. What was loaded stands for
-- a success at the time that was loaded with it, and is never pruned without such a time. So a
-- review that failed, was rejected or is not over is never recorded.
pub Reach-IsRecorded :
    (c : Cursor) (p : Poller) (r : Text)
    → Reach (idle c) p
    → (p.cursor.seen r ≡ known_seen r c [] p.changes)
      × (p.cursor.notif_seen r ≡ known_notif r c [] p.changes)
Reach-IsRecorded c p r run =
    let kept = Reach-IsKept c p run [] r in
    let none_left = or_expired-none (p.cursor.touched r) in
    (ground (arith, kept.seen, none_left), ground (arith, kept.notif, none_left))
