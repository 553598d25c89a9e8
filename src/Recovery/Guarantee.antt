-- ===== src/Recovery/Guarantee.antt =====
-- The second pass never weakens the anchoring: internal/engine/relocate.go.
use miu_cr.Base.{
  map, ℕ, ◌≡◌, ◌≢◌, refl, sym, ap, subst, ◌∙◌, Bool, true, false, Option, none, some, List, [], ◌∷◌,
  All, All-modify, arith, Text, get_elem?,
}
use miu_cr.Finding.{Finding, Diff}
use miu_cr.Anchor.{PathMap, by_path, clear_lines, resolve_one, resolve_line_numbers}
use miu_cr.Anchor.Lines.{resolve_one-clear_lines, clear_lines-resolve_one}
use miu_cr.Recovery.{
  Reply, Relocate, Anchorer, Candidate, State, candidates_from, chosen, request_for, sole_anchored,
  with_quote, relocated, commit, attempt, recover_loop, initial, skipped_by_cap, recover_anchors,
}

abbrev pub at_range : Finding → Text → ℕ → ℕ → Finding
at_range f q l e = record f { quoted_code = q; line = l; end_line = e }

-- Anchoring a finding again leaves it where it is.
abbrev pub IsFixed : PathMap → Finding → Type 0
IsFixed paths g = resolve_one paths g ≡ g

IsFixed-resolve_one : (paths : PathMap) (f : Finding) → IsFixed paths (resolve_one paths f)
IsFixed-resolve_one paths f =
    sym (resolve_one-clear_lines paths (resolve_one paths f))
    ∙ ap (resolve_one paths) (clear_lines-resolve_one paths f)
    ∙ resolve_one-clear_lines paths f

unfoldable pub set_lines : Finding → ℕ → ℕ → Finding
set_lines f l e = record f { line = l; end_line = e }

-- A finding that anchors a quote differs from what was anchored in its lines only.
at_range-resolve_one :
    (paths : PathMap) (f : Finding) (q : Text)
    → let r = resolve_one paths (with_quote f q) in at_range f q r.line r.end_line ≡ r
at_range-resolve_one paths f q =
    let r = resolve_one paths (with_quote f q) in
    unfold set_lines clear_lines in
    ap (λ x. set_lines x r.line r.end_line) (sym (clear_lines-resolve_one paths (with_quote f q)))

sole_anchored-some :
    (rs : List Finding) (r : Finding) → sole_anchored rs ≡ some r → (rs ≡ r ∷ []) × (r.line ≢ 0)
unfolding sole_anchored
sole_anchored-some [] r h = cc
sole_anchored-some (x ∷ []) r h = (ground arith, ground arith)
sole_anchored-some (x ∷ y ∷ rs) r h = cc

module _ (d : Diff) (ds : List Diff) where
  abbrev pub paths_of : PathMap
  paths_of = by_path (λ q. none) (d ∷ ds)

  resolve_sole :
      (f r : Finding) → resolve_line_numbers (f ∷ []) (d ∷ ds) ≡ r ∷ [] → resolve_one paths_of f ≡ r
  unfolding resolve_line_numbers
  resolve_sole f r h = cc

pub relocated-sole :
    (anchor : Anchorer) (relocate : Relocate) (selected : List Diff) (paths : PathMap)
    (f r : Finding) (reply : Reply)
    → relocated anchor relocate selected paths f reply ≡ some r
    → (anchor (with_quote f reply.text ∷ []) selected ≡ r ∷ []) × (r.line ≢ 0)
relocated-sole anchor relocate selected paths f r reply h =
    sole_anchored-some (anchor (with_quote f reply.text ∷ []) selected) r
      (unfold relocated in ground arith)

module _ (relocate : Relocate) (d : Diff) (ds : List Diff) where
  relocated-IsFixed :
      (f r : Finding) (reply : Reply)
      → relocated resolve_line_numbers relocate (d ∷ ds) (paths_of d ds) f reply ≡ some r
      → IsFixed (paths_of d ds) (at_range f reply.text r.line r.end_line)
  relocated-IsFixed f r reply h =
      let paths = paths_of d ds in
      let (sole, ne) = relocated-sole resolve_line_numbers relocate (d ∷ ds) paths f r reply h in
      let e = resolve_sole d ds (with_quote f reply.text) r sole in
      let back =
        subst (λ x. at_range f reply.text x.line x.end_line ≡ x) e
          (at_range-resolve_one paths f reply.text) in
      subst (IsFixed paths) (sym back)
        (subst (IsFixed paths) e (IsFixed-resolve_one paths (with_quote f reply.text)))

  commit-IsFixed :
      (st : State) (idx : ℕ) (f : Finding) (reply : Reply) (o : Option Finding)
      → get_elem? st.anchored idx ≡ some f
      → relocated resolve_line_numbers relocate (d ∷ ds) (paths_of d ds) f reply ≡ o
      → All (IsFixed (paths_of d ds)) st.anchored
      → All
          (IsFixed (paths_of d ds))
          (commit resolve_line_numbers relocate (d ∷ ds) (paths_of d ds) st idx f reply o).anchored
  unfolding commit
  commit-IsFixed st idx f reply none at e h = h
  commit-IsFixed st idx f reply (some r) at e h =
      All-modify (IsFixed (paths_of d ds)) _ idx st.anchored
        (λ y there.
          subst (λ x. IsFixed (paths_of d ds) (at_range x reply.text r.line r.end_line)) {x = f}
            {y = y} (cc) (relocated-IsFixed f r reply e))
        h

  attempt-IsFixed :
      (st : State) (idx : ℕ) (o : Option Finding)
      → get_elem? st.anchored idx ≡ o
      → All (IsFixed (paths_of d ds)) st.anchored
      → All
          (IsFixed (paths_of d ds))
          (attempt resolve_line_numbers relocate (d ∷ ds) (paths_of d ds) st idx o).anchored
  unfolding attempt
  attempt-IsFixed st idx none at h = h
  attempt-IsFixed st idx (some f) at h =
      let reply = relocate st.out.attempted (request_for (paths_of d ds) f) in
      commit-IsFixed st idx f reply
        (relocated resolve_line_numbers relocate (d ∷ ds) (paths_of d ds) f reply) at refl h

  recover_loop-IsFixed :
      (cs : List Candidate) (st : State)
      → All (IsFixed (paths_of d ds)) st.anchored
      → All
          (IsFixed (paths_of d ds))
          (recover_loop resolve_line_numbers relocate (d ∷ ds) (paths_of d ds) st cs).anchored
  unfolding recover_loop
  recover_loop-IsFixed [] st h = h
  recover_loop-IsFixed (c ∷ cs) st h =
      recover_loop-IsFixed cs _ (attempt-IsFixed st c.idx (get_elem? st.anchored c.idx) refl h)

-- Anchoring the finding again, alone, gives the finding back.
abbrev pub IsExact : List Diff → Finding → Type 0
IsExact selected g = resolve_line_numbers (g ∷ []) selected ≡ g ∷ []

module _ (d : Diff) (ds : List Diff) where
  IsExact-IsFixed :
      (gs : List Finding) → All (IsFixed (paths_of d ds)) gs → All (IsExact (d ∷ ds)) gs
  unfolding resolve_line_numbers
  IsExact-IsFixed [] h = tt
  IsExact-IsFixed (g ∷ gs) h = (ap (λ x. x ∷ []) h.0, IsExact-IsFixed gs h.1)

  map-IsFixed :
      (fs : List Finding) → All (IsFixed (paths_of d ds)) (map (resolve_one (paths_of d ds)) fs)
  map-IsFixed [] = tt
  map-IsFixed (f ∷ fs) = (IsFixed-resolve_one (paths_of d ds) f, map-IsFixed fs)

  resolve_line_numbers-IsFixed :
      (fs : List Finding) → All (IsFixed (paths_of d ds)) (resolve_line_numbers fs (d ∷ ds))
  unfolding resolve_line_numbers
  resolve_line_numbers-IsFixed [] = tt
  resolve_line_numbers-IsFixed (f ∷ fs) = map-IsFixed (f ∷ fs)

-- The exact-anchor guarantee: whatever the model answers, each finding that the second pass returns
-- is one that the deterministic anchoring, run on it alone, places at the very same lines with the
-- very same quote.
pub recover_anchors-IsExact :
    (on : Bool) (agent : Option Relocate) (fs : List Finding) (d : Diff) (ds : List Diff)
    → All
        (IsExact (d ∷ ds))
        (recover_anchors on agent
          (some resolve_line_numbers)
          (resolve_line_numbers fs (d ∷ ds))
          (d ∷ ds)).anchored
unfolding recover_anchors initial
recover_anchors-IsExact true (some relocate) fs d ds =
    let anchored = resolve_line_numbers fs (d ∷ ds) in
    let skipped = skipped_by_cap (candidates_from (paths_of d ds) 0 anchored) in
    IsExact-IsFixed d ds _ (
      recover_loop-IsFixed relocate d ds (chosen (paths_of d ds) anchored)
        (initial anchored skipped) (resolve_line_numbers-IsFixed d ds fs))
recover_anchors-IsExact true none fs d ds =
    IsExact-IsFixed d ds _ (resolve_line_numbers-IsFixed d ds fs)
recover_anchors-IsExact false agent fs d ds =
    IsExact-IsFixed d ds _ (resolve_line_numbers-IsFixed d ds fs)
