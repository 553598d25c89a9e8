-- ===== src/Recovery.antt =====
-- The second pass for findings whose quote did not anchor: internal/engine/relocate.go.
pub mod Bounds
pub mod Guarantee
pub mod Untouched
use miu_cr.Base.{
  ℕ, zero, suc, ◌+◌, ◌-◌, String, Bool, true, false, not, ◌&&◌, Option, none, some, List, [], ◌∷◌,
  ◌++◌, Text, trim_space, length, take, get_elem?, modify, sort_stable, ltb, leb, ◌==◌,
  if◌then◌else◌,
}
use miu_cr.Finding.{Finding, Diff, Usage, no_usage, add_usage}
use miu_cr.Severity.{rank_of}
use miu_cr.Anchor.{is_text, PathMap, by_path}

abbrev pub max_anchor_recovery : ℕ
max_anchor_recovery = 3

pub record RelocateRequest : Type 0 where
  pub file : Text
  pub rationale : Text
  pub quoted_code : Text
  pub excerpt : Text
  pub category : Text
  pub severity : String

-- What the agent's call returns: the reply, the tokens it cost, and whether it failed.
pub record Reply : Type 0 where
  pub text : Text
  pub usage : Usage
  pub failed : Bool

-- The agent's RelocateQuote, which may answer each call of a review differently.
abbrev pub Relocate : Type 0
Relocate = ℕ → RelocateRequest → Reply

abbrev pub Anchorer : Type 0
Anchorer = List Finding → List Diff → List Finding

pub record AnchorRecoveryRecord : Type 0 where
  pub file : Text
  pub severity : String
  pub recovered : Bool
  pub line : ℕ

pub record Outcome : Type 0 where
  pub attempted : ℕ
  pub recovered : ℕ
  pub skipped_cap : ℕ
  pub usage : Usage

pub record Candidate : Type 0 where
  pub idx : ℕ
  pub rank : ℕ

-- The variables of the loop over the candidates; `trace` holds what RecordAnchorRecovery appended.
pub record State : Type 0 where
  pub anchored : List Finding
  pub out : Outcome
  pub trace : List AnchorRecoveryRecord

-- strings.TrimSpace(s) != ""
abbrev pub is_shown : Text → Bool
is_shown s = is_text (trim_space s)

unfoldable pub relocate_excerpt : Diff → Text
relocate_excerpt d = if is_shown d.diff then d.diff else d.new_file_content

-- The guards of the loop that collects the candidates, each of which continues.
unfoldable pub is_candidate : PathMap → Finding → Bool
unfolding relocate_excerpt
is_candidate paths f =
    f.line == 0
    && not (ltb (rank_of f.severity) (rank_of "medium"))
    && is_shown f.quoted_code
    && elim (paths f.file) [ none ↦ false | some d ↦ is_shown (relocate_excerpt d) ]

unfoldable pub candidates_from : PathMap → ℕ → List Finding → List Candidate
unfolding is_candidate
candidates_from paths i [] = []
candidates_from paths i (f ∷ fs) =
    let rest = candidates_from paths (suc i) fs in
    if is_candidate paths f then record { idx = i; rank = rank_of f.severity } ∷ rest else rest

unfoldable pub higher_rank : Candidate → Candidate → Bool
higher_rank a b = ltb b.rank a.rank

-- The candidates that get a call, the highest ranks first.
unfoldable pub chosen : PathMap → List Finding → List Candidate
unfolding candidates_from sort_stable higher_rank
chosen paths anchored =
    take max_anchor_recovery (sort_stable higher_rank (candidates_from paths 0 anchored))

abbrev excerpt_of : Option Diff → Text
excerpt_of none = []
excerpt_of (some d) = relocate_excerpt d

unfoldable pub request_for : PathMap → Finding → RelocateRequest
unfolding relocate_excerpt
request_for paths f = record {
  file = f.file;
  rationale = f.rationale;
  quoted_code = f.quoted_code;
  excerpt = excerpt_of (paths f.file);
  category = f.category;
  severity = f.severity;
}

-- The test `len(res) == 1 && res[0].Line != 0`.
unfoldable pub sole_anchored : List Finding → Option Finding
sole_anchored [] = none
sole_anchored (r ∷ []) = if r.line == 0 then none else some r
sole_anchored (r ∷ s ∷ rest) = none

abbrev pub with_quote : Finding → Text → Finding
with_quote f q = record f { quoted_code = q }

module _ (anchor : Anchorer) (relocate : Relocate) (selected : List Diff) (paths : PathMap) where
  -- The finding that the reply anchors.
  unfoldable pub relocated : Finding → Reply → Option Finding
  unfolding sole_anchored
  relocated f reply =
      if not reply.failed && is_shown reply.text
      then sole_anchored (anchor (with_quote f reply.text ∷ []) selected)
      else none

  unfoldable pub commit : State → ℕ → Finding → Reply → Option Finding → State
  commit st idx f reply none = record st {
    out = record st.out {
      attempted = suc st.out.attempted;
      usage = add_usage st.out.usage reply.usage;
    };
    trace =
        st.trace
        ++ record { file = f.file; severity = f.severity; recovered = false; line = 0 } ∷ [];
  }
  commit st idx f reply (some r) = record st {
    anchored =
        modify idx
          (λ g. record g { quoted_code = reply.text; line = r.line; end_line = r.end_line })
          st.anchored;
    out = record st.out {
      attempted = suc st.out.attempted;
      recovered = suc st.out.recovered;
      usage = add_usage st.out.usage reply.usage;
    };
    trace =
        st.trace
        ++ record { file = f.file; severity = f.severity; recovered = true; line = r.line } ∷ [];
  }

  -- One round, at the finding that stands at the candidate's index.
  unfoldable pub attempt : State → ℕ → Option Finding → State
  unfolding relocated commit request_for
  attempt st idx none = st
  attempt st idx (some f) =
      let reply = relocate st.out.attempted (request_for paths f) in
      commit st idx f reply (relocated f reply)

  unfoldable pub recover_loop : State → List Candidate → State
  unfolding attempt
  recover_loop st [] = st
  recover_loop st (c ∷ cs) = recover_loop (attempt st c.idx (get_elem? st.anchored c.idx)) cs

unfoldable pub initial : List Finding → ℕ → State
initial anchored skipped = record {
  anchored = anchored;
  out = record { attempted = 0; recovered = 0; skipped_cap = skipped; usage = no_usage };
  trace = [];
}

-- The length past the cap, 0 within it.
unfoldable pub skipped_by_cap : List Candidate → ℕ
skipped_by_cap cs =
    if ltb max_anchor_recovery (length cs) then length cs - max_anchor_recovery else 0

-- `none` stands for an agent or an anchorer that is not set.
unfoldable pub recover_anchors :
    Bool → Option Relocate → Option Anchorer → List Finding → List Diff → State
unfolding recover_loop chosen initial skipped_by_cap by_path
recover_anchors true (some relocate) (some anchor) anchored selected =
    let paths = by_path (λ q. none) selected in
    recover_loop anchor relocate selected paths
      (initial anchored (skipped_by_cap (candidates_from paths 0 anchored))) (chosen paths anchored)
recover_anchors _ _ _ anchored selected = initial anchored 0
