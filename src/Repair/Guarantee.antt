-- ===== src/Repair/Guarantee.antt =====
-- What the pass may do to a finding: internal/engine/repair.go with internal/github/suggest.go.
use miu_cr.Base.{
  ℕ, suc, ◌≤◌, ◌≡◌, ◌≢◌, ◌⊎◌, refl, ap, sym, subst, Bool, true, false, Option, none, some, List, [],
  ◌∷◌, All, All-take, arith, Text, str_eq, get_elem?, drop, drop-head, sort_stable, sort_stable-All,
  Pointwise, Pointwise-map, Pointwise-refl, Pointwise-modify, Bool-cases, inl, inr,
}
use miu_cr.Finding.{Finding, Diff}
use miu_cr.Recovery.{Reply}
use miu_cr.Severity.{rank_of}
use miu_cr.Repair.{
  RepairPatch, CleanReplacement, Candidate, State, new_file_content, is_candidate, candidates_from,
  higher_rank, limit_of, request_for, with_patch, clean_now, is_accepted, commit, attempt,
  repair_loop, initial, skip_repair, chosen, repair_kept, repair_patches,
}
use miu_cr.Suggestion.{
  RepairReason, reason_ok, reason_string, classify_replacement, classify_replacement_exported,
}
use miu_cr.Suggestion.Accept.{Accepted}
use miu_cr.Suggestion.Safe.{classify_replacement_iff}

module _ (classify : CleanReplacement) (content : Text → Text) where
  -- A finding is as it was, or was a candidate and has a patch that the classifier accepts.
  data Change (f g : Finding) : Type 0 where
    same : g ≡ f → Change f g
    patched :
        (p : Text)
        → is_candidate classify content f ≡ true
        → str_eq (classify (with_patch f p) (content f.file)).1 "ok" ≡ true
        → g ≡ with_patch f p
        → Change f g

  abbrev AtCandidate : List Finding → Candidate → Type 0
  AtCandidate fs c =
      (f : Finding) → get_elem? fs c.idx ≡ some f → is_candidate classify content f ≡ true

  candidates_from-AtCandidate :
      (all : List Finding) (i : ℕ) (fs : List Finding)
      → drop i all ≡ fs
      → All (AtCandidate all) (candidates_from classify content i fs)
  unfolding candidates_from
  candidates_from-AtCandidate all i [] h = tt
  candidates_from-AtCandidate all i (f ∷ fs) h =
      let (here, next) = drop-head i all f fs h in
      let rest = candidates_from-AtCandidate all (suc i) fs next in
      elim (Bool-cases (is_candidate classify content f)) [
        | inl shown ↦ rw shown ((λ g e. cc shown), rest)
        | inr hidden ↦ rw hidden rest
      ]

  chosen-AtCandidate :
      (limit : ℕ) (fs : List Finding) → All (AtCandidate fs) (chosen classify content limit fs)
  unfolding chosen
  chosen-AtCandidate limit fs =
      let cands = candidates_from classify content 0 fs in
      All-take (AtCandidate fs) (limit_of limit) (sort_stable higher_rank cands) (
        sort_stable-All (AtCandidate fs) higher_rank cands
          (candidates_from-AtCandidate fs 0 fs refl))

  module _ (repair : RepairPatch) (fs : List Finding) where
    -- What is accepted for a finding as it stands is accepted for it as it was.
    Change-with_patch :
        (f g : Finding) (reply : Reply)
        → is_candidate classify content f ≡ true
        → is_accepted classify content repair g reply ≡ true
        → Change f g
        → Change f (with_patch g reply.text)
    unfolding is_accepted clean_now
    Change-with_patch f g reply c a (Change.same h) =
        Change.patched reply.text c (ground (arith, ap (λ x. with_patch x reply.text) h, h))
          (ap (λ x. with_patch x reply.text) h)
    Change-with_patch f g reply c a (Change.patched p c' a' h) =
        Change.patched reply.text c (ground (arith, h)) (ap (λ x. with_patch x reply.text) h)

    commit-Change :
        (st : State) (c : Candidate) (g : Finding) (reply : Reply) (b : Bool)
        → AtCandidate fs c
        → get_elem? st.kept c.idx ≡ some g
        → is_accepted classify content repair g reply ≡ b
        → Pointwise Change fs st.kept
        → Pointwise Change fs (commit classify content repair st c.idx reply b).kept
    unfolding commit
    commit-Change st c g reply false at e a h = h
    commit-Change st c g reply true at e a h =
        Pointwise-modify Change (λ x. with_patch x reply.text) c.idx fs st.kept
          (λ x y there stands rel.
            let now : is_accepted classify content repair y reply ≡ true = cc (e, stands, a) in
            Change-with_patch x y reply (at x there) now rel)
          h

    attempt-Change :
        (st : State) (c : Candidate) (o : Option Finding)
        → AtCandidate fs c
        → get_elem? st.kept c.idx ≡ o
        → Pointwise Change fs st.kept
        → Pointwise Change fs (attempt classify content repair st c o).kept
    unfolding attempt
    attempt-Change st c none at e h = h
    attempt-Change st c (some g) at e h =
        let reply = repair st.attempted (request_for c g) in
        commit-Change st c g reply (is_accepted classify content repair g reply) at e refl h

    repair_loop-Change :
        (cs : List Candidate) (st : State)
        → All (AtCandidate fs) cs
        → Pointwise Change fs st.kept
        → Pointwise Change fs (repair_loop classify content repair st cs).kept
    unfolding repair_loop
    repair_loop-Change [] st at h = h
    repair_loop-Change (c ∷ cs) st at h =
        repair_loop-Change cs _ at.1 (attempt-Change st c (get_elem? st.kept c.idx) at.0 refl h)

-- With any classifier, each finding comes out as it was, or was a candidate and has a patch that
-- the classifier accepts.
repair_kept-Change :
    (classify : CleanReplacement) (repair : RepairPatch) (limit : ℕ) (fs : List Finding)
    (selected : List Diff)
    → Pointwise
        (Change classify (new_file_content (λ q. []) selected))
        fs
        (repair_kept classify repair limit fs selected).kept
unfolding repair_kept initial
repair_kept-Change classify repair limit fs selected =
    let content = new_file_content (λ q. []) selected in
    repair_loop-Change classify content repair fs (chosen classify content limit fs) (initial fs)
      (chosen-AtCandidate classify content limit fs)
      (Pointwise-refl (Change classify content) (λ f. Change.same refl) fs)

reason_string-ok : (r : RepairReason) → str_eq (reason_string r) "ok" ≡ true → r ≡ reason_ok
unfolding reason_string
reason_string-ok reason_ok h = refl
reason_string-ok RepairReason.reason_no_anchor h = cc
reason_string-ok RepairReason.reason_out_of_range h = cc
reason_string-ok RepairReason.reason_empty h = cc
reason_string-ok RepairReason.reason_no_op h = cc
reason_string-ok RepairReason.reason_anchor_mismatch h = cc
reason_string-ok RepairReason.reason_garbled_span h = cc
reason_string-ok RepairReason.reason_length_mismatch h = cc
reason_string-ok RepairReason.reason_indent_mismatch h = cc

-- What the pass may do to a finding when the classifier is that of the suggestions: nothing, or,
-- for one of at least medium severity with a range of one line, give it a patch that becomes a
-- suggestion.
pub data Repaired (content : Text → Text) (f g : Finding) : Type 0 where
  untouched : g ≡ f → Repaired content f g
  mended :
      (p new : Text)
      → (rank_of "medium" ≤ rank_of f.severity)
        × (f.line ≢ 0)
        × ((f.end_line ≡ 0) ⊎ (f.end_line ≡ f.line))
      → g ≡ with_patch f p
      → Accepted g (content f.file) new
      → Repaired content f g

module _ (content : Text → Text) where
  is_candidate-one_line :
      (f : Finding)
      → is_candidate classify_replacement_exported content f ≡ true
      → (rank_of "medium" ≤ rank_of f.severity)
        × (f.line ≢ 0)
        × ((f.end_line ≡ 0) ⊎ (f.end_line ≡ f.line))
  unfolding is_candidate
  is_candidate-one_line f h = (ground arith, λ e. ground arith, ground arith)

  ok-Accepted :
      (f : Finding) (text : Text)
      → str_eq (classify_replacement_exported f text).1 "ok" ≡ true
      → Accepted f text (classify_replacement f text).0
  unfolding classify_replacement_exported
  ok-Accepted f text h =
      let (p, r) = classify_replacement f text in
      (classify_replacement_iff f text (classify_replacement f text).0).0 (
        ap (λ x. ((classify_replacement f text).0, x))
          (reason_string-ok (classify_replacement f text).1 h))

  Change-Repaired :
      (f g : Finding) → Change classify_replacement_exported content f g → Repaired content f g
  Change-Repaired f g (Change.same h) = Repaired.untouched h
  Change-Repaired f g (Change.patched p c a h) =
      let text = content f.file in
      Repaired.mended p (classify_replacement (with_patch f p) text).0 (is_candidate-one_line f c) h
        (subst (λ x. Accepted x text (classify_replacement (with_patch f p) text).0) (sym h)
          (ok-Accepted (with_patch f p) text a))

-- Whatever the flags, the limit and the agent's replies, the pass with the suggestions' classifier
-- returns the findings in their order, each as it was, or, if it was of at least medium severity
-- with a range of one line, with a patch that becomes a suggestion in the file's new content.
pub repair_patches-Repaired :
    (on : Bool) (agent : Option RepairPatch) (limit : ℕ) (fs : List Finding) (selected : List Diff)
    → Pointwise
        (Repaired (new_file_content (λ q. []) selected))
        fs
        (repair_patches on agent (some classify_replacement_exported) limit fs selected).kept
unfolding repair_patches skip_repair
repair_patches-Repaired true (some repair) limit fs selected =
    let content = new_file_content (λ q. []) selected in
    Pointwise-map (Change classify_replacement_exported content) (Repaired content) fs _
      (Change-Repaired content)
      (repair_kept-Change classify_replacement_exported repair limit fs selected)
repair_patches-Repaired true none limit fs selected =
    Pointwise-refl (Repaired _) (λ f. Repaired.untouched refl) fs
repair_patches-Repaired false agent limit fs selected =
    Pointwise-refl (Repaired _) (λ f. Repaired.untouched refl) fs
