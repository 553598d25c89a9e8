-- ===== src/Repair.antt =====
-- The second pass for findings whose patch is no suggestion: internal/engine/repair.go.
pub mod Bounds
pub mod Guarantee
use miu_cr.Base.{
  ◌>>=◌, ℕ, zero, suc, ◌+◌, ◌-◌, String, Bool, true, false, not, ◌&&◌, ◌||◌, Option, none, some,
  List, [], ◌∷◌, Text, codes, text_eq, str_eq, trim_space, trim_cr, has_prefix, split_lines, length,
  take, get_elem?, modify, sort_stable, ltb, ◌==◌, if◌then◌else◌,
}
use miu_cr.Finding.{Finding, Diff, Usage, no_usage, add_usage}
use miu_cr.Severity.{rank_of}
use miu_cr.Anchor.{is_text}
use miu_cr.Recovery.{Reply, is_shown}

abbrev default_max_repair : ℕ
default_max_repair = 5

abbrev repair_span_rune_cap : ℕ
repair_span_rune_cap = 4000

-- The fields that the pass fills in; the retry settings are passed through.
pub record RepairRequest : Type 0 where
  pub span : Text
  pub rationale : Text
  pub category : Text
  pub severity : String

-- The agent's RepairPatch, which may answer each call of a review differently.
abbrev pub RepairPatch : Type 0
RepairPatch = ℕ → RepairRequest → Reply

-- The injected classifier: the suggestion, the reason, and whether the reason is worth a call.
abbrev pub CleanReplacement : Type 0
CleanReplacement = Finding → Text → Text × String × Bool

pub record Candidate : Type 0 where
  pub idx : ℕ
  pub span : Text
  pub rank : ℕ

-- The variables of the loop over the candidates.
pub record State : Type 0 where
  pub kept : List Finding
  pub attempted : ℕ
  pub repaired : ℕ
  pub usage : Usage

-- stats["patch_repair"], without the token counts, which are those of the usage.
pub record Stats : Type 0 where
  pub attempted : ℕ
  pub repaired : ℕ
  pub skipped_cap : ℕ

pub record Outcome : Type 0 where
  pub kept : List Finding
  pub usage : Usage
  pub stats : Option Stats

-- newFileContent, where a missing path reads as "".
unfoldable pub new_file_content : (Text → Text) → List Diff → Text → Text
unfolding text_eq
new_file_content m [] path = m path
new_file_content m (d ∷ ds) path =
    new_file_content
      (λ q. if is_text d.new_path && text_eq d.new_path q then d.new_file_content else m q) ds path

unfoldable pub span_line : Text → ℕ → Option Text
unfolding split_lines
span_line content zero = none
span_line content (suc i) = do line ← get_elem? (split_lines content) i; some (trim_cr line)

-- strings.Contains
unfoldable pub contains : Text → Text → Bool
contains [] part = text_eq part []
contains (c ∷ s) part = has_prefix (c ∷ s) part || contains s part

-- The guards on the span.
unfoldable pub span_fits : Option Text → Bool
unfolding contains
span_fits none = false
span_fits (some span) =
    not (contains span (codes "```")) && not (ltb repair_span_rune_cap (length span))

abbrev pub text_or_empty : Option Text → Text
text_or_empty none = []
text_or_empty (some s) = s

module _ (classify : CleanReplacement) (content : Text → Text) where
  -- The guards of the loop that collects the candidates, each of which continues.
  unfoldable pub is_candidate : Finding → Bool
  unfolding span_line span_fits
  is_candidate f =
      not (ltb (rank_of f.severity) (rank_of "medium"))
      && not (f.line == 0)
      && (f.end_line == 0 || f.end_line == f.line)
      && (classify f (content f.file)).2
      && span_fits (span_line (content f.file) f.line)

  unfoldable pub candidates_from : ℕ → List Finding → List Candidate
  unfolding is_candidate span_line
  candidates_from i [] = []
  candidates_from i (f ∷ fs) =
      let rest = candidates_from (suc i) fs in
      let span = text_or_empty (span_line (content f.file) f.line) in
      if is_candidate f
      then record { idx = i; span = span; rank = rank_of f.severity } ∷ rest
      else rest

unfoldable pub higher_rank : Candidate → Candidate → Bool
higher_rank a b = ltb b.rank a.rank

-- A limit that is not positive stands for the default.
unfoldable pub limit_of : ℕ → ℕ
limit_of max_repair = if max_repair == 0 then default_max_repair else max_repair

unfoldable pub request_for : Candidate → Finding → RepairRequest
request_for c f = record {
  span = c.span;
  rationale = f.rationale;
  category = f.category;
  severity = f.severity;
}

abbrev pub with_patch : Finding → Text → Finding
with_patch f p = record f { suggested_patch = p }

module _ (classify : CleanReplacement) (content : Text → Text) (repair : RepairPatch) where
  unfoldable pub clean_now : Finding → Text → Bool
  clean_now f new = str_eq (classify f new).1 "ok"

  -- Whether the reply is committed: no `continue` is taken.
  unfoldable pub is_accepted : Finding → Reply → Bool
  unfolding clean_now
  is_accepted f reply =
      not reply.failed
      && is_shown reply.text
      && clean_now (with_patch f reply.text) (content f.file)

  -- What comes after the call, whose tokens count in any case.
  unfoldable pub commit : State → ℕ → Reply → Bool → State
  commit st idx reply accepted = record {
    kept = if accepted then modify idx (λ g. with_patch g reply.text) st.kept else st.kept;
    attempted = suc st.attempted;
    repaired = if accepted then suc st.repaired else st.repaired;
    usage = add_usage st.usage reply.usage;
  }

  -- One round, at the finding that stands at the candidate's index.
  unfoldable pub attempt : State → Candidate → Option Finding → State
  unfolding is_accepted commit request_for
  attempt st c none = st
  attempt st c (some f) =
      let reply = repair st.attempted (request_for c f) in
      commit st c.idx reply (is_accepted f reply)

  unfoldable pub repair_loop : State → List Candidate → State
  unfolding attempt
  repair_loop st [] = st
  repair_loop st (c ∷ cs) = repair_loop (attempt st c (get_elem? st.kept c.idx)) cs

unfoldable pub initial : List Finding → State
initial kept = record { kept = kept; attempted = 0; repaired = 0; usage = no_usage }

unfoldable pub skip_repair : List Finding → Outcome
skip_repair kept = record { kept = kept; usage = no_usage; stats = none }

unfoldable pub chosen : CleanReplacement → (Text → Text) → ℕ → List Finding → List Candidate
unfolding candidates_from limit_of sort_stable higher_rank
chosen classify content max_repair kept =
    take (limit_of max_repair) (sort_stable higher_rank (candidates_from classify content 0 kept))

-- The pass itself, for a request that asks for it.
unfoldable pub repair_kept : CleanReplacement → RepairPatch → ℕ → List Finding → List Diff → Outcome
unfolding new_file_content candidates_from limit_of chosen initial repair_loop
repair_kept classify repair max_repair kept selected =
    let content = new_file_content (λ q. []) selected in
    let cands = candidates_from classify content 0 kept in
    let st =
      repair_loop classify content repair (initial kept)
        (chosen classify content max_repair kept) in
    record {
      kept = st.kept;
      usage = st.usage;
      stats = some (record {
        attempted = st.attempted;
        repaired = st.repaired;
        skipped_cap = length cands - limit_of max_repair;
      });
    }

-- repairPatches; `on` is req.PatchRepair && req.Post.
unfoldable pub repair_patches :
    Bool → Option RepairPatch → Option CleanReplacement → ℕ → List Finding → List Diff → Outcome
unfolding repair_kept skip_repair
repair_patches true (some repair) (some classify) max_repair kept selected =
    repair_kept classify repair max_repair kept selected
repair_patches true (some repair) none max_repair kept selected = skip_repair kept
repair_patches true none classify max_repair kept selected = skip_repair kept
repair_patches false agent classify max_repair kept selected = skip_repair kept
