-- ===== src/PrFlight.antt =====
-- The lock of each pull request, counted so that an unused one is forgotten:
-- internal/serve/pr_flight.go.
pub mod Counted
pub mod Exclusion
pub mod Refinement
use miu_cr.Base.{
  ℕ, zero, suc, ◌+◌, ◌-◌, ◌≡◌, String, Bool, true, false, ◌&&◌, Option, none, some, List, [], ◌∷◌,
  ◌++◌, str_eq, ◌==◌, if◌then◌else◌,
}

-- prFlight, its mutex as whether it is locked.
pub record Flight : Type 0 where
  pub locked : Bool
  pub n : ℕ

-- Where a caller of TryWithPRFlight or WithPRFlight stands: before its mutex, in `fn`, or before
-- its releasePRFlight.
pub data Phase : Type 0 where
  waiting in_fn leaving : Phase

-- A call in progress: the local variables `key` and `f`, and whether it is TryWithPRFlight.
pub record Caller : Type 0 where
  pub key : String
  pub f : ℕ
  pub tries : Bool
  pub phase : Phase

-- The globals, the flights that were allocated, by address, and the calls in progress.
pub record Flights : Type 0 where
  pub pr_flights : String → Option ℕ
  pub heap : ℕ → Flight
  pub allocated : ℕ
  pub callers : List Caller

unfoldable pub no_flights : Flights
no_flights = record {
  pr_flights = λ k. none;
  heap = λ a. record { locked = false; n = 0 };
  allocated = 0;
  callers = [];
}

-- heap[a] = x
unfoldable pub write : ℕ → Flight → (ℕ → Flight) → ℕ → Flight
write a x heap b = if b == a then x else heap b

-- prFlights[key] = f, or its deletion
unfoldable pub assign : String → Option ℕ → (String → Option ℕ) → String → Option ℕ
assign key f table k = if str_eq k key then f else table k

-- f.n++
unfoldable pub retain : ℕ → (ℕ → Flight) → ℕ → Flight
unfolding write
retain f heap = write f (record (heap f) { n = suc (heap f).n }) heap

-- f.mu.Lock() of a free lock, or f.mu.Unlock().
unfoldable pub set_locked : Bool → ℕ → (ℕ → Flight) → ℕ → Flight
unfolding write
set_locked b f heap = write f (record (heap f) { locked = b }) heap

abbrev pub caller : String → ℕ → Bool → Caller
caller key f tries = record { key = key; f = f; tries = tries; phase = waiting }

-- The first critical section of both functions: the flight of the key, made when there is none.
unfoldable pub join : Flights → String → Bool → Flights
unfolding assign retain write
join s key tries = elim (s.pr_flights key) [
  | some f ↦ record s { heap = retain f s.heap; callers = caller key f tries ∷ s.callers }
  | none ↦ record {
    pr_flights = assign key (some s.allocated) s.pr_flights;
    heap = retain s.allocated (write s.allocated (record { locked = false; n = 0 }) s.heap);
    allocated = suc s.allocated;
    callers = caller key s.allocated tries ∷ s.callers;
  }
]

-- The caller `c` has the mutex and runs `fn`.
unfoldable pub lock : Flights → List Caller → Caller → List Caller → Flights
unfolding set_locked
lock s before c after = record s {
  heap = set_locked true c.f s.heap;
  callers = before ++ record c { phase = in_fn } ∷ after;
}

-- TryLock failed.
unfoldable pub give_up : Flights → List Caller → Caller → List Caller → Flights
give_up s before c after = record s { callers = before ++ record c { phase = leaving } ∷ after }

-- `fn` returned or panicked, and the deferred function unlocks.
unfoldable pub unlock : Flights → List Caller → Caller → List Caller → Flights
unfolding set_locked
unlock s before c after = record s {
  heap = set_locked false c.f s.heap;
  callers = before ++ record c { phase = leaving } ∷ after;
}

-- prFlights[key] == f
unfoldable pub is_current : Option ℕ → ℕ → Bool
is_current none f = false
is_current (some g) f = g == f

unfoldable pub release_pr_flight : Flights → List Caller → Caller → List Caller → Flights
unfolding write assign is_current
release_pr_flight s before c after =
    let n = (s.heap c.f).n - 1 in
    record s {
      heap = write c.f (record (s.heap c.f) { n = n }) s.heap;
      pr_flights =
          if n == 0 && is_current (s.pr_flights c.key) c.f
          then assign c.key none s.pr_flights
          else s.pr_flights;
      callers = before ++ after;
    }

-- What a step shows to the rest of the program.
pub data Event : Type 0 where
  enters : String → Event
  skips : String → Event
  exits : String → Event
  silent : Event

-- One step of any of the callers. A mutex that is locked keeps the caller of WithPRFlight waiting;
-- TryLock may fail also on one that is not locked, as the memory model of Go allows.
pub data Step (s : Flights) (e : Event) (t : Flights) : Type 0 where
  joins : (key : String) (tries : Bool) → e ≡ silent → t ≡ join s key tries → Step s e t
  locks :
      (before : List Caller) (c : Caller) (after : List Caller)
      → s.callers ≡ before ++ c ∷ after
      → c.phase ≡ waiting
      → (s.heap c.f).locked ≡ false
      → e ≡ enters c.key
      → t ≡ lock s before c after
      → Step s e t
  gives_up :
      (before : List Caller) (c : Caller) (after : List Caller)
      → s.callers ≡ before ++ c ∷ after
      → c.phase ≡ waiting
      → c.tries ≡ true
      → e ≡ skips c.key
      → t ≡ give_up s before c after
      → Step s e t
  unlocks :
      (before : List Caller) (c : Caller) (after : List Caller)
      → s.callers ≡ before ++ c ∷ after
      → c.phase ≡ in_fn
      → e ≡ exits c.key
      → t ≡ unlock s before c after
      → Step s e t
  releases :
      (before : List Caller) (c : Caller) (after : List Caller)
      → s.callers ≡ before ++ c ∷ after
      → c.phase ≡ leaving
      → e ≡ silent
      → t ≡ release_pr_flight s before c after
      → Step s e t

-- Any number of steps, with their events, the latest first.
pub data Reach (s : Flights) : List Event → Flights → Type 0 where
  start : Reach s [] s
  next :
      {events : List Event} {t : Flights} {e : Event} {u : Flights}
      → Reach s events t
      → Step t e u
      → Reach s (e ∷ events) u
