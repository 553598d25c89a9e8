-- ===== src/Recovery/Bounds.antt =====
-- How many calls the second pass makes: internal/engine/relocate.go.
use miu_cr.Base.{
  subst, ℕ, suc, ◌+◌, ◌-◌, ◌<◌, ◌≤◌, min, ◌≡◌, refl, ap, ◌∙◌, true, Option, none, some, List, [],
  ◌∷◌, All, All-take, arith, length, length-append, length-take, length-modify, get_elem?,
  get_elem?-lt, sort_stable, sort_stable-All, length-sort_stable, Bool-cases, inl, inr,
}
use miu_cr.Finding.{Finding, Diff}
use miu_cr.Anchor.{PathMap, by_path}
use miu_cr.Recovery.{
  max_anchor_recovery, Reply, Relocate, Anchorer, Candidate, State, is_candidate, candidates_from,
  higher_rank, chosen, request_for, relocated, commit, attempt, recover_loop, initial,
  skipped_by_cap, recover_anchors,
}

-- One attempt for each candidate so far, and for each a record in the trace.
pub record Counted (st : State) (size calls : ℕ) : Type 0 where
  pub attempted : st.out.attempted ≡ calls
  pub recovered : st.out.recovered ≤ st.out.attempted
  pub traced : length st.trace ≡ st.out.attempted
  pub kept : length st.anchored ≡ size

candidates_from-InRange :
    (paths : PathMap) (i n : ℕ) (fs : List Finding)
    → i + length fs ≤ n
    → All (λ c. c.idx < n) (candidates_from paths i fs)
unfolding candidates_from
candidates_from-InRange paths i n [] h = tt
candidates_from-InRange paths i n (f ∷ fs) h = elim (Bool-cases (is_candidate paths f)) [
  | inl shown ↦ rw shown (omega arith, candidates_from-InRange paths (suc i) n fs (omega arith))
  | inr hidden ↦ rw hidden (candidates_from-InRange paths (suc i) n fs (omega arith))
]

module _ (anchor : Anchorer) (relocate : Relocate) (selected : List Diff) (paths : PathMap) where
  commit-Counted :
      (st : State) (size calls idx : ℕ) (f : Finding) (reply : Reply) (r : Option Finding)
      → Counted st size calls
      → Counted (commit anchor relocate selected paths st idx f reply r) size (suc calls)
  unfolding commit
  commit-Counted st size calls idx f reply none c = record {
    attempted = omega (arith, c.attempted);
    recovered = omega (arith, c.recovered);
    traced = length-append st.trace _ ∙ omega (arith, c.traced);
    kept = c.kept;
  }
  commit-Counted st size calls idx f reply (some r) c = record {
    attempted = omega (arith, c.attempted);
    recovered = omega (arith, c.recovered);
    traced = length-append st.trace _ ∙ omega (arith, c.traced);
    kept = length-modify idx _ st.anchored ∙ c.kept;
  }

  attempt-Counted :
      (st : State) (size calls idx : ℕ) (o : Option Finding) (f : Finding)
      → o ≡ some f
      → Counted st size calls
      → Counted (attempt anchor relocate selected paths st idx o) size (suc calls)
  unfolding attempt
  attempt-Counted st size calls idx none f e c = cc
  attempt-Counted st size calls idx (some g) f e c =
      let reply = relocate st.out.attempted (request_for paths g) in
      commit-Counted st size calls idx g reply (relocated anchor relocate selected paths g reply) c

  recover_loop-Counted :
      (cs : List Candidate) (st : State) (size calls : ℕ)
      → All (λ c. c.idx < size) cs
      → Counted st size calls
      → Counted (recover_loop anchor relocate selected paths st cs) size (calls + length cs)
  unfolding recover_loop
  recover_loop-Counted [] st size calls h c = subst (Counted st size) (omega arith) c
  recover_loop-Counted (x ∷ cs) st size calls h c =
      let (f, e) = get_elem?-lt st.anchored x.idx (omega (arith, c.kept)) in
      let o = get_elem? st.anchored x.idx in
      let next = attempt anchor relocate selected paths st x.idx o in
      subst (Counted (recover_loop anchor relocate selected paths next cs) size) (omega arith) (
        recover_loop-Counted cs next size (suc calls) h.1
          (attempt-Counted st size calls x.idx o f e c))

chosen-InRange :
    (paths : PathMap) (fs : List Finding) → All (λ c. c.idx < length fs) (chosen paths fs)
unfolding chosen
chosen-InRange paths fs =
    All-take (λ c. c.idx < length fs) max_anchor_recovery
      (sort_stable higher_rank (candidates_from paths 0 fs))
      (sort_stable-All (λ c. c.idx < length fs) higher_rank (candidates_from paths 0 fs)
        (candidates_from-InRange paths 0 (length fs) fs (omega arith)))

length-chosen :
    (paths : PathMap) (fs : List Finding)
    → length (chosen paths fs) ≡ min max_anchor_recovery (length (candidates_from paths 0 fs))
unfolding chosen
length-chosen paths fs =
    length-take max_anchor_recovery (sort_stable higher_rank (candidates_from paths 0 fs))
    ∙ ap (min max_anchor_recovery) (length-sort_stable higher_rank (candidates_from paths 0 fs))

initial-Counted : (fs : List Finding) (n : ℕ) → Counted (initial fs n) (length fs) 0
unfolding initial
initial-Counted fs n = record {
  attempted = refl;
  recovered = omega arith;
  traced = refl;
  kept = refl;
}

module _ (anchor : Anchorer) (relocate : Relocate) (selected : List Diff) (paths : PathMap) where
  skipped_cap-commit :
      (st : State) (idx : ℕ) (f : Finding) (reply : Reply) (r : Option Finding)
      → (commit anchor relocate selected paths st idx f reply r).out.skipped_cap
        ≡ st.out.skipped_cap
  unfolding commit
  skipped_cap-commit st idx f reply none = refl
  skipped_cap-commit st idx f reply (some r) = refl

  skipped_cap-attempt :
      (st : State) (idx : ℕ) (o : Option Finding)
      → (attempt anchor relocate selected paths st idx o).out.skipped_cap ≡ st.out.skipped_cap
  unfolding attempt
  skipped_cap-attempt st idx none = refl
  skipped_cap-attempt st idx (some f) =
      let reply = relocate st.out.attempted (request_for paths f) in
      skipped_cap-commit st idx f reply (relocated anchor relocate selected paths f reply)

  skipped_cap-recover_loop :
      (cs : List Candidate) (st : State)
      → (recover_loop anchor relocate selected paths st cs).out.skipped_cap ≡ st.out.skipped_cap
  unfolding recover_loop
  skipped_cap-recover_loop [] st = refl
  skipped_cap-recover_loop (c ∷ cs) st =
      skipped_cap-recover_loop cs _ ∙ skipped_cap-attempt st c.idx (get_elem? st.anchored c.idx)

-- With the pass on, at most three calls are made, one for each candidate that the cap leaves; the
-- calls and the skipped candidates together are all the candidates; no more findings are recovered
-- than calls were made, each call has one record in the trace, and no finding is lost.
pub recover_anchors-bounds :
    (relocate : Relocate) (anchor : Anchorer) (fs : List Finding) (selected : List Diff)
    → let st = recover_anchors true (some relocate) (some anchor) fs selected in
      (st.out.attempted ≤ 3)
      × (st.out.attempted + st.out.skipped_cap
          ≡ length (candidates_from (by_path (λ q. none) selected) 0 fs))
      × (st.out.recovered ≤ st.out.attempted)
      × (length st.trace ≡ st.out.attempted)
      × (length st.anchored ≡ length fs)
unfolding recover_anchors
recover_anchors-bounds relocate anchor fs selected =
    let paths = by_path (λ q. none) selected in
    let cands = candidates_from paths 0 fs in
    let start = initial fs (skipped_by_cap cands) in
    let c =
      recover_loop-Counted anchor relocate selected paths (chosen paths fs) start (length fs) 0
        (chosen-InRange paths fs) (initial-Counted fs (skipped_by_cap cands)) in
    let size = length-chosen paths fs in
    let skipped = skipped_cap-recover_loop anchor relocate selected paths (chosen paths fs) start in
    let cap : start.out.skipped_cap ≡ length cands - 3 =
      unfold initial skipped_by_cap in ground arith in
    (omega (arith, c.attempted), omega (arith, c.attempted), c.recovered, c.traced, c.kept)
