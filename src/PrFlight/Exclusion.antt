-- ===== src/PrFlight/Exclusion.antt =====
-- The callers of one pull request exclude each other: internal/serve/pr_flight.go.
use miu_cr.Base.{
  ℕ, suc, ◌+◌, ◌-◌, ◌≡◌, refl, ap, sym, ◌∙◌, subst, String, Bool, true, false, ◌&&◌, Option, none,
  some, List, ◌∷◌, ◌++◌, arith, All, All-map, All-split, All-insert, str_eq_iff, ◌==◌, Option-cases,
  Bool-cases, inl, inr,
}
use miu_cr.PrFlight.{
  Flight, Phase, waiting, in_fn, leaving, Caller, Flights, no_flights, write, assign, retain,
  set_locked, caller, join, lock, give_up, unlock, is_current, release_pr_flight, Event, Step,
  Reach,
}
use miu_cr.PrFlight.Counted.{
  one_if, count, count-split, is_in_fn, holds, at_flight, holds_flight, IsCurrent, IsCounted,
  no_flights-IsCounted, All-count, All-both, count-holds_flight, n-retain, locked-retain,
  n-set_locked, locked-set_locked,
}

module _ (s : Flights) (h : IsCounted s) (key : String) (tries : Bool) where
  join_known :
      (f : ℕ)
      → s.pr_flights key ≡ some f
      → IsCounted (record s { heap = retain f s.heap; callers = caller key f tries ∷ s.callers })
  join_known f e = record {
    counted = λ a. omega (arith, n-retain f s.heap a, h.counted a);
    held = λ a. ground (arith, locked-retain f s.heap a, h.held a);
    current = (e, h.current);
    used = λ k a e'. ((h.used k a e').0, omega (arith, n-retain f s.heap a, (h.used k a e').1));
    fresh = λ a l. ground (arith, n-retain f s.heap a, h.fresh a l, (h.used key f e).0);
    own = h.own;
  }

  made : ℕ → Flight
  made = write s.allocated (record { locked = false; n = 0 }) s.heap

  n-made : (a : ℕ) → (made a).n ≡ (s.heap a).n
  unfolding made write
  n-made a = ground (arith, h.fresh s.allocated)

  locked-made : (a : ℕ) → one_if (made a).locked ≡ one_if (s.heap a).locked
  unfolding made write
  locked-made a = ground (
    arith,
    h.fresh s.allocated,
    h.counted s.allocated,
    h.held s.allocated,
    count-holds_flight s.allocated s.callers,
  )

  table : String → Option ℕ
  table = assign key (some s.allocated) s.pr_flights

  join_new :
      s.pr_flights key ≡ none
      → IsCounted (record {
        pr_flights = table;
        heap = retain s.allocated made;
        allocated = suc s.allocated;
        callers = caller key s.allocated tries ∷ s.callers;
      })
  unfolding table assign
  join_new e = record {
    counted = λ a. omega (arith, n-retain s.allocated made a, n-made a, h.counted a);
    held = λ a. ground (arith, locked-retain s.allocated made a, locked-made a, h.held a);
    current = (
      ground (arith, str_eq_iff key key),
      All-map (IsCurrent s.pr_flights) (IsCurrent table) s.callers
          (λ c cur. ground (arith, str_eq_iff c.key key)) h.current,
    );
    used = λ k a e'.
        ground (arith, str_eq_iff k key, h.used k a, n-retain s.allocated made a, n-made a);
    fresh = λ a l. ground (arith, n-retain s.allocated made a, n-made a, h.fresh a);
    own = λ k l a e' f'.
        ground (arith, str_eq_iff k key, str_eq_iff l key, h.own k l a, h.used k a, h.used l a);
  }

  join-IsCounted : IsCounted (join s key tries)
  unfolding join table made
  join-IsCounted = elim (Option-cases (s.pr_flights key)) [
    | inl e ↦ rw (e, join) (join_new e)
    | inr (f, e) ↦ rw (e, join) (join_known f e)
  ]

module _ (s : Flights) (h : IsCounted s) (before : List Caller) (c : Caller) (after : List Caller)
    (e : s.callers ≡ before ++ c ∷ after) where
  pub split : (p : Caller → Bool) → count p s.callers ≡ one_if (p c) + count p (before ++ after)
  split p = ap (count p) e ∙ count-split p before c after

  entry_split : All (IsCurrent s.pr_flights) (before ++ c ∷ after)
  entry_split = subst (All (IsCurrent s.pr_flights)) e h.current

  pub entry_parts : IsCurrent s.pr_flights c × All (IsCurrent s.pr_flights) (before ++ after)
  entry_parts = All-split (IsCurrent s.pr_flights) before c after entry_split

  -- The caller goes from one phase to another, and the mutexes account for it.
  moved-IsCounted :
      (ph : Phase) (heap : ℕ → Flight)
      → ((a : ℕ) → (heap a).n ≡ (s.heap a).n)
      → ((a : ℕ)
          → one_if (heap a).locked + one_if (holds_flight a c)
            ≡ one_if (s.heap a).locked + one_if (a == c.f && is_in_fn ph))
      → IsCounted (record s { heap = heap; callers = before ++ record c { phase = ph } ∷ after })
  moved-IsCounted ph heap n l = record {
    counted = λ a. omega (
      arith,
      n a,
      h.counted a,
      split (at_flight a),
      count-split (at_flight a) before (record c { phase = ph }) after,
    );
    held = λ a. omega (
      arith,
      l a,
      h.held a,
      split (holds_flight a),
      count-split (holds_flight a) before (record c { phase = ph }) after,
    );
    current =
        All-insert (IsCurrent s.pr_flights) before (record c { phase = ph }) after entry_parts.0
          entry_parts.1;
    used = λ k a u. ((h.used k a u).0, omega (arith, n a, (h.used k a u).1));
    fresh = λ a f. n a ∙ h.fresh a f;
    own = h.own;
  }

  lock-IsCounted :
      c.phase ≡ waiting → (s.heap c.f).locked ≡ false → IsCounted (lock s before c after)
  unfolding lock
  lock-IsCounted w l =
      moved-IsCounted in_fn (set_locked true c.f s.heap) (n-set_locked true c.f s.heap)
        (λ a. ground (arith, locked-set_locked true c.f s.heap a, ap is_in_fn w))

  give_up-IsCounted : c.phase ≡ waiting → IsCounted (give_up s before c after)
  unfolding give_up
  give_up-IsCounted w =
      moved-IsCounted leaving s.heap (λ a. refl) (λ a. ground (arith, ap is_in_fn w))

  unlock-IsCounted : c.phase ≡ in_fn → IsCounted (unlock s before c after)
  unfolding unlock
  unlock-IsCounted w =
      moved-IsCounted leaving (set_locked false c.f s.heap) (n-set_locked false c.f s.heap) (λ a.
        ground (
          arith,
          locked-set_locked false c.f s.heap a,
          ap is_in_fn w,
          h.held a,
          split (holds_flight a),
        ))

  released : ℕ → Flight
  released = write c.f (record (s.heap c.f) { n = (s.heap c.f).n - 1 }) s.heap

  n-released : (a : ℕ) → (released a).n + one_if (a == c.f) ≡ (s.heap a).n
  unfolding released write
  n-released a = ground (arith, h.counted a, split (at_flight a))

  locked-released : (a : ℕ) → (released a).locked ≡ (s.heap a).locked
  unfolding released write
  locked-released a = ground arith

  -- A flight that somebody else still has stays in the map.
  shared-IsCounted :
      holds c ≡ false
      → ((s.heap c.f).n - 1 == 0) ≡ false
      → IsCounted (record s { heap = released; callers = before ++ after })
  shared-IsCounted w some_left = record {
    counted = λ a. omega (arith, n-released a, h.counted a, split (at_flight a));
    held = λ a. ground (arith, locked-released a, h.held a, split (holds_flight a));
    current = entry_parts.1;
    used = λ k a u. ((h.used k a u).0, ground (arith, n-released a, n-released c.f, h.used k a u));
    fresh = λ a f. omega (arith, n-released a, h.fresh a f);
    own = h.own;
  }

  forgotten : String → Option ℕ
  forgotten = assign c.key none s.pr_flights

  forgotten_lem : (k : String) (a : ℕ) → forgotten k ≡ some a → s.pr_flights k ≡ some a
  unfolding forgotten assign
  forgotten_lem k a u = ground arith

  forgotten_used : (k : String) (a : ℕ) → forgotten k ≡ some a → (a == c.f) ≡ false
  unfolding forgotten assign
  forgotten_used k a u =
      ground (arith, str_eq_iff k c.key, h.own k c.key a, entry_parts.0, forgotten_lem k a u)

  forgotten-IsCurrent :
      (d : Caller) → IsCurrent s.pr_flights d × (at_flight c.f d ≡ false) → IsCurrent forgotten d
  unfolding forgotten assign
  forgotten-IsCurrent d (u, other) = ground (arith, str_eq_iff d.key c.key, entry_parts.0)

  -- The last caller takes the flight of its key out of the map.
  last-IsCounted :
      holds c ≡ false
      → ((s.heap c.f).n - 1 == 0) ≡ true
      → IsCounted (record s { pr_flights = forgotten; heap = released; callers = before ++ after })
  last-IsCounted w none_left =
      let alone : count (at_flight c.f) (before ++ after) ≡ 0 =
        ground (arith, h.counted c.f, split (at_flight c.f)) in
      record {
        counted = λ a. omega (arith, n-released a, h.counted a, split (at_flight a));
        held = λ a. ground (arith, locked-released a, h.held a, split (holds_flight a));
        current =
            All-map (λ d. IsCurrent s.pr_flights d × (at_flight c.f d ≡ false))
              (IsCurrent forgotten) (before ++ after) forgotten-IsCurrent
              (All-both (IsCurrent s.pr_flights) (λ d. at_flight c.f d ≡ false) (before ++ after)
                entry_parts.1 (All-count (at_flight c.f) (before ++ after) alone));
        used = λ k a u. (
          (h.used k a (forgotten_lem k a u)).0,
          ground (arith, n-released a, forgotten_used k a u, h.used k a (forgotten_lem k a u)),
        );
        fresh = λ a f. omega (arith, n-released a, h.fresh a f);
        own = λ k l a u v. h.own k l a (forgotten_lem k a u) (forgotten_lem l a v);
      }

  is_current_lem : is_current (s.pr_flights c.key) c.f ≡ true
  unfolding is_current
  is_current_lem = rw entry_parts.0 (ground arith)

  release_pr_flight-IsCounted : c.phase ≡ leaving → IsCounted (release_pr_flight s before c after)
  unfolding release_pr_flight released forgotten
  release_pr_flight-IsCounted w = elim (Bool-cases ((s.heap c.f).n - 1 == 0)) [
    | inl none_left ↦ rw (none_left, is_current_lem) (last-IsCounted (ap is_in_fn w) none_left)
    | inr some_left ↦ rw some_left (shared-IsCounted (ap is_in_fn w) some_left)
  ]

pub Step-IsCounted : (s t : Flights) (e : Event) → IsCounted s → Step s e t → IsCounted t
Step-IsCounted s t e h (Step.joins key tries _ f) =
    subst IsCounted (sym f) (join-IsCounted s h key tries)
Step-IsCounted s t e h (Step.locks before c after at w l _ f) =
    subst IsCounted (sym f) (lock-IsCounted s h before c after at w l)
Step-IsCounted s t e h (Step.gives_up before c after at w _ _ f) =
    subst IsCounted (sym f) (give_up-IsCounted s h before c after at w)
Step-IsCounted s t e h (Step.unlocks before c after at w _ f) =
    subst IsCounted (sym f) (unlock-IsCounted s h before c after at w)
Step-IsCounted s t e h (Step.releases before c after at w _ f) =
    subst IsCounted (sym f) (release_pr_flight-IsCounted s h before c after at w)

-- At every moment of any interleaving of calls of TryWithPRFlight and WithPRFlight: each flight
-- counts its callers; its mutex is locked exactly while one of them runs its function, and never
-- while two do; each caller has the flight that the map has for its key; a flight of the map has a
-- caller; and no two keys share one.
pub Reach-IsCounted : (events : List Event) (s : Flights) → Reach no_flights events s → IsCounted s
Reach-IsCounted events s Reach.start = no_flights-IsCounted
Reach-IsCounted events s (Reach.next {events = earlier} {t = t} {e = e} r step) =
    Step-IsCounted t s e (Reach-IsCounted earlier t r) step
