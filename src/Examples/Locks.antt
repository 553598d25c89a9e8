-- ===== src/Examples/Locks.antt =====
-- Tests and instances for the locks of pull requests.
use miu_cr.Base.{String, ◌≤◌, refl, true, false, List, [], ◌∷◌}
use miu_cr.PrFlight.{
  Phase, Caller, Flights, no_flights, join, lock, give_up, Event, enters, skips, silent, Step,
  Reach, caller,
}
use miu_cr.PrFlight.Counted.{count, holds_key, IsCounted}
use miu_cr.PrFlight.Exclusion.{Reach-IsCounted}
use miu_cr.PrFlight.Refinement.{LockRun, running, Reach-LockRun}

abbrev first : Caller
first = caller "o/r#1" 0 false

abbrev second : Caller
second = caller "o/r#1" 0 true

abbrev joined : Flights
joined = join no_flights "o/r#1" false

abbrev locked : Flights
locked = lock joined [] first []

abbrev both : Flights
both = join locked "o/r#1" true

-- A second call for the same pull request is skipped while the first one runs.
abbrev skipped : Flights
skipped = give_up both [] second (record first { phase = Phase.in_fn } ∷ [])

abbrev events : List Event
events = skips "o/r#1" ∷ silent ∷ enters "o/r#1" ∷ silent ∷ []

skipped-Reach : Reach no_flights events skipped
unfolding join lock give_up no_flights
skipped-Reach =
    Reach.next
      (Reach.next
        (Reach.next (Reach.next Reach.start (Step.joins "o/r#1" false refl refl))
          (Step.locks [] first [] refl refl refl refl refl))
        (Step.joins "o/r#1" true refl refl))
      (Step.gives_up [] second (record first { phase = Phase.in_fn } ∷ []) refl refl refl refl refl)

Reach-IsCounted_example : IsCounted skipped
Reach-IsCounted_example = Reach-IsCounted events skipped skipped-Reach

Reach-LockRun_example :
    LockRun events (running skipped) × ((k : String) → count (holds_key k) skipped.callers ≤ 1)
Reach-LockRun_example = Reach-LockRun events skipped skipped-Reach
