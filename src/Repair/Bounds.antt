-- ===== src/Repair/Bounds.antt =====
-- How many calls the pass makes: internal/engine/repair.go.
use miu_cr.Base.{
  ℕ, suc, ◌+◌, ◌<◌, ◌≤◌, min, ◌≡◌, refl, ap, ◌∙◌, subst, Bool, true, false, Option, none, some,
  List, [], ◌∷◌, All, All-take, arith, Text, length, length-take, length-modify, get_elem?,
  get_elem?-lt, sort_stable, sort_stable-All, length-sort_stable, Bool-cases, inl, inr,
  if◌then◌else◌, ◌==◌,
}
use miu_cr.Finding.{Finding, Diff}
use miu_cr.Recovery.{Reply}
use miu_cr.Repair.{
  RepairPatch, CleanReplacement, Candidate, State, Stats, new_file_content, is_candidate,
  candidates_from, higher_rank, limit_of, request_for, is_accepted, commit, attempt, repair_loop,
  initial, chosen, repair_kept, repair_patches,
}

-- One attempt for each candidate so far, and no finding lost.
pub record Counted (st : State) (size calls : ℕ) : Type 0 where
  pub attempted : st.attempted ≡ calls
  pub repaired : st.repaired ≤ st.attempted
  pub kept : length st.kept ≡ size

module _ (classify : CleanReplacement) (content : Text → Text) where
  candidates_from-InRange :
      (i n : ℕ) (fs : List Finding)
      → i + length fs ≤ n
      → All (λ c. c.idx < n) (candidates_from classify content i fs)
  unfolding candidates_from
  candidates_from-InRange i n [] h = tt
  candidates_from-InRange i n (f ∷ fs) h = elim (Bool-cases (is_candidate classify content f)) [
    | inl shown ↦ rw shown (omega arith, candidates_from-InRange (suc i) n fs (omega arith))
    | inr hidden ↦ rw hidden (candidates_from-InRange (suc i) n fs (omega arith))
  ]

  chosen-InRange :
      (limit : ℕ) (fs : List Finding)
      → All (λ c. c.idx < length fs) (chosen classify content limit fs)
  unfolding chosen
  chosen-InRange limit fs =
      let cands = candidates_from classify content 0 fs in
      All-take (λ c. c.idx < length fs) (limit_of limit) (sort_stable higher_rank cands)
        (sort_stable-All (λ c. c.idx < length fs) higher_rank cands
          (candidates_from-InRange 0 (length fs) fs (omega arith)))

  length-chosen :
      (limit : ℕ) (fs : List Finding)
      → length (chosen classify content limit fs)
        ≡ min (limit_of limit) (length (candidates_from classify content 0 fs))
  unfolding chosen
  length-chosen limit fs =
      let cands = candidates_from classify content 0 fs in
      length-take (limit_of limit) (sort_stable higher_rank cands)
      ∙ ap (min (limit_of limit)) (length-sort_stable higher_rank cands)

module _ (classify : CleanReplacement) (content : Text → Text) (repair : RepairPatch) where
  commit-Counted :
      (st : State) (size calls idx : ℕ) (reply : Reply) (b : Bool)
      → Counted st size calls
      → Counted (commit classify content repair st idx reply b) size (suc calls)
  unfolding commit
  commit-Counted st size calls idx reply true c = record {
    attempted = omega (arith, c.attempted);
    repaired = omega (arith, c.repaired);
    kept = length-modify idx _ st.kept ∙ c.kept;
  }
  commit-Counted st size calls idx reply false c = record {
    attempted = omega (arith, c.attempted);
    repaired = omega (arith, c.repaired);
    kept = c.kept;
  }

  attempt-Counted :
      (st : State) (size calls : ℕ) (x : Candidate) (o : Option Finding) (f : Finding)
      → o ≡ some f
      → Counted st size calls
      → Counted (attempt classify content repair st x o) size (suc calls)
  unfolding attempt
  attempt-Counted st size calls x none f e c = cc
  attempt-Counted st size calls x (some g) f e c =
      let reply = repair st.attempted (request_for x g) in
      commit-Counted st size calls x.idx reply (is_accepted classify content repair g reply) c

  repair_loop-Counted :
      (cs : List Candidate) (st : State) (size calls : ℕ)
      → All (λ c. c.idx < size) cs
      → Counted st size calls
      → Counted (repair_loop classify content repair st cs) size (calls + length cs)
  unfolding repair_loop
  repair_loop-Counted [] st size calls h c = subst (Counted st size) (omega arith) c
  repair_loop-Counted (x ∷ cs) st size calls h c =
      let (f, e) = get_elem?-lt st.kept x.idx (omega (arith, c.kept)) in
      let o = get_elem? st.kept x.idx in
      let next = attempt classify content repair st x o in
      subst (Counted (repair_loop classify content repair next cs) size) (omega arith)
        (repair_loop-Counted cs next size (suc calls) h.1 (attempt-Counted st size calls x o f e c))

initial-Counted : (fs : List Finding) → Counted (initial fs) (length fs) 0
unfolding initial
initial-Counted fs = record { attempted = refl; repaired = omega arith; kept = refl }

-- The counts that the pass reports.
pub record WithinLimit (cands : List Candidate) (limit : ℕ) (s : Stats) : Type 0 where
  pub bounded : s.attempted ≤ (if limit == 0 then 5 else limit)
  pub complete : s.attempted + s.skipped_cap ≡ length cands
  pub repaired_some : s.repaired ≤ s.attempted

-- With the pass on, at most `max_repair` calls are made, or five when that is 0, one for each
-- candidate that the limit leaves; the calls and the skipped candidates together are all the
-- candidates; no more patches are repaired than calls were made, and no finding is lost.
pub repair_patches-WithinLimit :
    (repair : RepairPatch) (classify : CleanReplacement) (limit : ℕ) (fs : List Finding)
    (selected : List Diff)
    → let out = repair_patches true (some repair) (some classify) limit fs selected in
      let content = new_file_content (λ q. []) selected in
      (length out.kept ≡ length fs)
      × ((s : Stats) × (out.stats ≡ some s)
          × WithinLimit (candidates_from classify content 0 fs) limit s)
unfolding repair_patches repair_kept
repair_patches-WithinLimit repair classify limit fs selected =
    let content = new_file_content (λ q. []) selected in
    let cands = chosen classify content limit fs in
    let c =
      repair_loop-Counted classify content repair cands (initial fs) (length fs) 0
        (chosen-InRange classify content limit fs) (initial-Counted fs) in
    let size = length-chosen classify content limit fs in
    (
      c.kept,
      (
        _,
        refl,
        record {
          bounded = unfold limit_of in ground (arith, c.attempted, size);
          complete = omega (arith, c.attempted, size);
          repaired_some = c.repaired;
        },
      ),
    )
