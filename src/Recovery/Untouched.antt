-- ===== src/Recovery/Untouched.antt =====
-- Findings that anchored at once are left alone by the second pass: internal/engine/relocate.go.
use miu_cr.Base.{
  ℕ, suc, ◌≡◌, ◌≢◌, refl, ap, Bool, true, false, Option, none, some, List, [], ◌∷◌, All, All-take,
  arith, Text, get_elem?, drop, drop-head, sort_stable, sort_stable-All, Pointwise, Pointwise-refl,
  Pointwise-modify, Bool-cases, inl, inr,
}
use miu_cr.Finding.{Finding, Diff}
use miu_cr.Anchor.{PathMap, by_path}
use miu_cr.Recovery.{
  max_anchor_recovery, Reply, Relocate, Anchorer, Candidate, State, is_candidate, candidates_from,
  higher_rank, chosen, request_for, relocated, commit, attempt, recover_loop, initial,
  skipped_by_cap, recover_anchors,
}
use miu_cr.Recovery.Guarantee.{at_range, relocated-sole}

-- What the second pass may do to a finding: nothing, or, if it had no line, give it a quote and a
-- range that is not line 0.
pub data Change (f g : Finding) : Type 0 where
  same : g ≡ f → Change f g
  moved : (q : Text) (l e : ℕ) → f.line ≡ 0 → l ≢ 0 → g ≡ at_range f q l e → Change f g

Change-at_range :
    (f g : Finding) (q : Text) (l e : ℕ)
    → f.line ≡ 0
    → l ≢ 0
    → Change f g
    → Change f (at_range g q l e)
Change-at_range f g q l e z n (Change.same h) =
    Change.moved q l e z n (ap (λ x. at_range x q l e) h)
Change-at_range f g q l e z n (Change.moved q' l' e' z' n' h) =
    Change.moved q l e z n (ap (λ x. at_range x q l e) h)

-- The finding at the candidate's index had no line.
abbrev AtDrift : List Finding → Candidate → Type 0
AtDrift fs c = (f : Finding) → get_elem? fs c.idx ≡ some f → f.line ≡ 0

is_candidate-line : (paths : PathMap) (f : Finding) → is_candidate paths f ≡ true → f.line ≡ 0
unfolding is_candidate
is_candidate-line paths f h = ground arith

candidates_from-AtDrift :
    (paths : PathMap) (all : List Finding) (i : ℕ) (fs : List Finding)
    → drop i all ≡ fs
    → All (AtDrift all) (candidates_from paths i fs)
unfolding candidates_from
candidates_from-AtDrift paths all i [] h = tt
candidates_from-AtDrift paths all i (f ∷ fs) h =
    let (here, next) = drop-head i all f fs h in
    let rest = candidates_from-AtDrift paths all (suc i) fs next in
    elim (Bool-cases (is_candidate paths f)) [
      | inl shown ↦ rw shown ((λ g e. cc (is_candidate-line paths f shown)), rest)
      | inr hidden ↦ rw hidden rest
    ]

chosen-AtDrift : (paths : PathMap) (fs : List Finding) → All (AtDrift fs) (chosen paths fs)
unfolding chosen
chosen-AtDrift paths fs =
    All-take (AtDrift fs) max_anchor_recovery (sort_stable higher_rank (candidates_from paths 0 fs))
      (sort_stable-All (AtDrift fs) higher_rank (candidates_from paths 0 fs)
        (candidates_from-AtDrift paths fs 0 fs refl))

module _ (anchor : Anchorer) (relocate : Relocate) (selected : List Diff) (paths : PathMap)
    (fs : List Finding) where
  commit-Change :
      (st : State) (c : Candidate) (f : Finding) (reply : Reply) (o : Option Finding)
      → AtDrift fs c
      → relocated anchor relocate selected paths f reply ≡ o
      → Pointwise Change fs st.anchored
      → Pointwise Change fs (commit anchor relocate selected paths st c.idx f reply o).anchored
  unfolding commit
  commit-Change st c f reply none drift e h = h
  commit-Change st c f reply (some r) drift e h =
      Pointwise-modify Change _ c.idx fs st.anchored
        (λ x y there here rel.
          Change-at_range x y reply.text r.line r.end_line (drift x there)
            (relocated-sole anchor relocate selected paths f r reply e).1 rel)
        h

  attempt-Change :
      (st : State) (c : Candidate) (o : Option Finding)
      → AtDrift fs c
      → Pointwise Change fs st.anchored
      → Pointwise Change fs (attempt anchor relocate selected paths st c.idx o).anchored
  unfolding attempt
  attempt-Change st c none drift h = h
  attempt-Change st c (some f) drift h =
      let reply = relocate st.out.attempted (request_for paths f) in
      commit-Change st c f reply (relocated anchor relocate selected paths f reply) drift refl h

  recover_loop-Change :
      (cs : List Candidate) (st : State)
      → All (AtDrift fs) cs
      → Pointwise Change fs st.anchored
      → Pointwise Change fs (recover_loop anchor relocate selected paths st cs).anchored
  unfolding recover_loop
  recover_loop-Change [] st d h = h
  recover_loop-Change (c ∷ cs) st d h =
      recover_loop-Change cs _ d.1 (attempt-Change st c (get_elem? st.anchored c.idx) d.0 h)

-- Whatever the flags, the agent and the anchoring, the second pass returns the findings in their
-- order, each as it was, or, if it had no line, with another quote and a range that is not line 0.
pub recover_anchors-Change :
    (on : Bool) (agent : Option Relocate) (anchorer : Option Anchorer) (fs : List Finding)
    (selected : List Diff)
    → Pointwise Change fs (recover_anchors on agent anchorer fs selected).anchored
unfolding recover_anchors initial
recover_anchors-Change true (some relocate) (some anchor) fs selected =
    let paths = by_path (λ q. none) selected in
    recover_loop-Change anchor relocate selected paths fs (chosen paths fs)
      (initial fs (skipped_by_cap (candidates_from paths 0 fs))) (chosen-AtDrift paths fs)
      (Pointwise-refl Change (λ f. Change.same refl) fs)
recover_anchors-Change true (some relocate) none fs selected =
    Pointwise-refl Change (λ f. Change.same refl) fs
recover_anchors-Change true none anchorer fs selected =
    Pointwise-refl Change (λ f. Change.same refl) fs
recover_anchors-Change false agent anchorer fs selected =
    Pointwise-refl Change (λ f. Change.same refl) fs
