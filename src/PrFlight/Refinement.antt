-- ===== src/PrFlight/Refinement.antt =====
-- The flights against one lock for each key: internal/serve/pr_flight.go.
use miu_cr.Base.{
  ℕ, ◌+◌, ◌≤◌, ◌≡◌, refl, ap, sym, ◌∙◌, String, Bool, true, false, ◌&&◌, Option, none, some, List,
  [], ◌∷◌, ◌++◌, arith, All, str_eq, str_eq_iff, ltb, Option-cases, inl, inr, if◌then◌else◌,
}
use miu_cr.PrFlight.{
  Phase, waiting, in_fn, leaving, Caller, Flights, no_flights, join, lock, give_up, unlock,
  release_pr_flight, Event, enters, skips, exits, silent, Step, Reach,
}
use miu_cr.PrFlight.Counted.{
  one_if, count, is_in_fn, holds_key, holds_flight, IsCurrent, IsCounted, count-split,
}
use miu_cr.PrFlight.Exclusion.{Reach-IsCounted, split, entry_parts}

-- One lock for each key, as whether it is held: what an event does to the locks.
abbrev pub LockStep : (String → Bool) → Event → (String → Bool) → Type 0
LockStep locks (enters key) after =
    (locks key ≡ false) × ((k : String) → after k ≡ (if str_eq k key then true else locks k))
LockStep locks (skips key) after = (k : String) → after k ≡ locks k
LockStep locks (exits key) after =
    (locks key ≡ true) × ((k : String) → after k ≡ (if str_eq k key then false else locks k))
LockStep locks silent after = (k : String) → after k ≡ locks k

-- The events that locks can show which are free at first, with the locks that they leave.
pub data LockRun : List Event → (String → Bool) → Type 0 where
  all_free : {locks : String → Bool} → ((k : String) → locks k ≡ false) → LockRun [] locks
  then :
      {events : List Event} {locks : String → Bool} {e : Event} {after : String → Bool}
      → LockRun events locks
      → LockStep locks e after
      → LockRun (e ∷ events) after

-- Whether a caller with the key runs its function.
abbrev pub running : Flights → String → Bool
running s k = ltb 0 (count (holds_key k) s.callers)

holds_key-none :
    (table : String → Option ℕ) (k : String) (cs : List Caller)
    → table k ≡ none
    → All (IsCurrent table) cs
    → count (holds_key k) cs ≡ 0
holds_key-none table k [] e h = refl
holds_key-none table k (c ∷ cs) e h =
    ground (arith, str_eq_iff k c.key, holds_key-none table k cs e h.1, h.0)

holds_key-some :
    (table : String → Option ℕ) (k : String) (a : ℕ) (cs : List Caller)
    → table k ≡ some a
    → ((l : String) → table l ≡ some a → k ≡ l)
    → All (IsCurrent table) cs
    → count (holds_key k) cs ≡ count (holds_flight a) cs
holds_key-some table k a [] e own h = refl
holds_key-some table k a (c ∷ cs) e own h =
    ground (arith, str_eq_iff k c.key, holds_key-some table k a cs e own h.1, h.0, own c.key)

module _ (s : Flights) (h : IsCounted s) where
  -- No two callers of one key run their functions.
  exclusive : (k : String) → count (holds_key k) s.callers ≤ 1
  exclusive k = elim (Option-cases (s.pr_flights k)) [
    | inl e ↦ omega (arith, holds_key-none s.pr_flights k s.callers e h.current)
    | inr (a, e) ↦ ground (
      arith,
      holds_key-some s.pr_flights k a s.callers e (λ l. h.own k l a e) h.current,
      h.held a,
    )
  ]

module _ (s : Flights) (h : IsCounted s) (before : List Caller) (c : Caller) (after : List Caller)
    (e : s.callers ≡ before ++ c ∷ after) where
  mine : s.pr_flights c.key ≡ some c.f
  mine = (entry_parts s h before c after e).0

  held_lem : count (holds_key c.key) s.callers ≡ one_if (s.heap c.f).locked
  held_lem =
      holds_key-some s.pr_flights c.key c.f s.callers mine (λ l. h.own c.key l c.f mine) h.current
      ∙ sym (h.held c.f)

  -- A change of phase seen from a key.
  running-moved :
      (ph : Phase) (k : String)
      → count (holds_key k) (before ++ record c { phase = ph } ∷ after) + one_if (holds_key k c)
        ≡ count (holds_key k) s.callers + one_if (str_eq k c.key && is_in_fn ph)
  running-moved ph k = omega (
    arith,
    split s h before c after e (holds_key k),
    count-split (holds_key k) before (record c { phase = ph }) after,
  )

  lock-LockStep :
      c.phase ≡ waiting
      → (s.heap c.f).locked ≡ false
      → LockStep (running s) (enters c.key) (running (lock s before c after))
  unfolding lock
  lock-LockStep w free = (
    ground (arith, held_lem),
    λ k. ground (arith, running-moved in_fn k, ap is_in_fn w, held_lem, str_eq_iff k c.key),
  )

  give_up-LockStep :
      c.phase ≡ waiting → LockStep (running s) (skips c.key) (running (give_up s before c after))
  unfolding give_up
  give_up-LockStep w k = ground (arith, running-moved leaving k, ap is_in_fn w)

  unlock-LockStep :
      c.phase ≡ in_fn → LockStep (running s) (exits c.key) (running (unlock s before c after))
  unfolding unlock
  unlock-LockStep w = (
    ground (
      arith,
      split s h before c after e (holds_key c.key),
      ap is_in_fn w,
      str_eq_iff c.key c.key,
    ),
    λ k.
        ground (arith, running-moved leaving k, ap is_in_fn w, exclusive s h k, str_eq_iff k c.key),
  )

  release_pr_flight-LockStep :
      c.phase ≡ leaving → LockStep (running s) silent (running (release_pr_flight s before c after))
  unfolding release_pr_flight
  release_pr_flight-LockStep w k =
      ground (arith, split s h before c after e (holds_key k), ap is_in_fn w)

join-callers :
    (s : Flights) (key : String) (tries : Bool) (k : String)
    → running (join s key tries) k ≡ running s k
unfolding join
join-callers s key tries k = elim (Option-cases (s.pr_flights key)) [
  | inl e ↦ rw (e, join) (ground arith)
  | inr (f, e) ↦ rw (e, join) (ground arith)
]

pub Step-LockStep :
    (s t : Flights) (e : Event) → IsCounted s → Step s e t → LockStep (running s) e (running t)
Step-LockStep s t e h (Step.joins key tries m f) = rw (m, f) (join-callers s key tries)
Step-LockStep s t e h (Step.locks before c after at w l m f) =
    rw (m, f) (lock-LockStep s h before c after at w l)
Step-LockStep s t e h (Step.gives_up before c after at w _ m f) =
    rw (m, f) (give_up-LockStep s h before c after at w)
Step-LockStep s t e h (Step.unlocks before c after at w m f) =
    rw (m, f) (unlock-LockStep s h before c after at w)
Step-LockStep s t e h (Step.releases before c after at w m f) =
    rw (m, f) (release_pr_flight-LockStep s h before c after at w)

running-no_flights : (k : String) → running no_flights k ≡ false
unfolding no_flights
running-no_flights k = refl

-- Whatever the interleaving of calls of TryWithPRFlight and WithPRFlight, what they show is what
-- one lock for each key can show, with the same locks held at the end: a function starts only when
-- its key is free, and takes it until it ends; no step of one key changes the lock of another; and a
-- call that is skipped changes no lock, whether or not its key was held, since TryLock may fail on a
-- free mutex. Besides, no two callers of a key run their functions at once.
pub Reach-LockRun :
    (events : List Event) (s : Flights)
    → Reach no_flights events s
    → LockRun events (running s) × ((k : String) → count (holds_key k) s.callers ≤ 1)
Reach-LockRun events s r = (go events s r, exclusive s (Reach-IsCounted events s r))
  where
    go :
        (events : List Event) (s : Flights) → Reach no_flights events s → LockRun events (running s)
    go [] s Reach.start = LockRun.all_free running-no_flights
    go (_ ∷ earlier) s (Reach.next {t = t} {e = e} r step) =
        LockRun.then (go earlier t r) (Step-LockStep t s e (Reach-IsCounted earlier t r) step)
