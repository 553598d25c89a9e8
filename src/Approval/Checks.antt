-- ===== src/Approval/Checks.antt =====
-- When the checks of the head count as green: internal/github/approve.go.
use miu_cr.Base.{
  ◌≡◌, refl, sym, ap, ◌∙◌, inl, inr, Bool-cases, Option-cases, String, Bool, true, false, not, ◌&&◌,
  ◌||◌, some, List, [], ◌∷◌, ◌++◌, arith, str_eq, str_eq_iff, any, All, All-append, if◌then◌else◌,
}
use miu_cr.Approval.{
  check_run_name, Pages, CheckRun, CommitStatus, check_conclusion_clear, CheckNameState,
  fresh_state, note_state, StateMap, note_check_run, note_runs, collect_runs, all_names_pass,
  statuses_succeed, status_pages_succeed, approval_checks_green,
}

-- All that the pages hold, up to an error.
abbrev pub all_of : {A : Type 0} → Pages A → List A
all_of Pages.failed = []
all_of (Pages.last xs) = xs
all_of (Pages.more xs rest) = xs ++ all_of rest

-- The run has passed: it is complete, and not merely cancelled.
abbrev pub passes : CheckRun → Bool
passes r =
    str_eq r.status "completed"
    && not (str_eq r.conclusion "cancelled")
    && check_conclusion_clear r.conclusion

abbrev pub named : String → CheckRun → Bool
named n r = str_eq n r.name

-- The runs that count against an approval.
abbrev blocks : CheckRun → Bool
blocks r = not (str_eq r.status "completed") || not (check_conclusion_clear r.conclusion)

abbrev counts : String → CheckRun → Bool
counts n r = not (str_eq r.name check_run_name) && str_eq n r.name

abbrev lookup : String → StateMap → CheckNameState
lookup n [] = fresh_state
lookup n ((m, st) ∷ rest) = if str_eq m n then st else lookup n rest

abbrev bad : CheckNameState → Bool
bad st = st.failing || st.pending

note_state-bad : (st : CheckNameState) (r : CheckRun) → bad (note_state st r) ≡ (bad st || blocks r)
unfolding note_state
note_state-bad st r = ground arith

note_state-passed :
    (st : CheckNameState) (r : CheckRun) → (note_state st r).passed ≡ (st.passed || passes r)
unfolding note_state
note_state-passed st r = ground arith

lookup-note_check_run :
    (n : String) (m : StateMap) (r : CheckRun)
    → lookup n (note_check_run m r)
      ≡ (if str_eq r.name n then note_state (lookup n m) r else lookup n m)
unfolding note_check_run
lookup-note_check_run n [] r = ground arith
lookup-note_check_run n ((k, st) ∷ rest) r = ground (
  arith,
  lookup-note_check_run n rest r,
  str_eq_iff k r.name,
  str_eq_iff k n,
  str_eq_iff r.name n,
)

-- What the loop keeps of one name, the map's state of the name in front.
bad-note_runs :
    (n : String) (m : StateMap) (rs : List CheckRun)
    → bad (lookup n (note_runs m rs)) ≡ (bad (lookup n m) || any (λ r. counts n r && blocks r) rs)
unfolding note_runs
bad-note_runs n m [] = ground arith
bad-note_runs n m (r ∷ rs) = elim (Bool-cases (str_eq r.name check_run_name)) [
  | inl own ↦ rw own (bad-note_runs n m rs)
  | inr other ↦ rw other (
      bad-note_runs n (note_check_run m r) rs
      ∙ ground (
        arith,
        lookup-note_check_run n m r,
        note_state-bad (lookup n m) r,
        str_eq_iff r.name n,
        str_eq_iff n r.name,
      ))
]

passed-note_runs :
    (n : String) (m : StateMap) (rs : List CheckRun)
    → (lookup n (note_runs m rs)).passed
      ≡ ((lookup n m).passed || any (λ r. counts n r && passes r) rs)
unfolding note_runs
passed-note_runs n m [] = ground arith
passed-note_runs n m (r ∷ rs) = elim (Bool-cases (str_eq r.name check_run_name)) [
  | inl own ↦ rw own (passed-note_runs n m rs)
  | inr other ↦ rw other (
      passed-note_runs n (note_check_run m r) rs
      ∙ ground (
        arith,
        lookup-note_check_run n m r,
        note_state-passed (lookup n m) r,
        str_eq_iff r.name n,
        str_eq_iff n r.name,
      ))
]

abbrev has_key : String → StateMap → Bool
has_key n [] = false
has_key n ((m, st) ∷ rest) = str_eq m n || has_key n rest

has_key-note_check_run :
    (n : String) (m : StateMap) (r : CheckRun)
    → has_key n (note_check_run m r) ≡ (has_key n m || str_eq r.name n)
unfolding note_check_run
has_key-note_check_run n [] r = ground arith
has_key-note_check_run n ((k, st) ∷ rest) r = ground (
  arith,
  has_key-note_check_run n rest r,
  str_eq_iff k r.name,
  str_eq_iff k n,
  str_eq_iff r.name n,
)

has_key-note_runs :
    (n : String) (m : StateMap) (rs : List CheckRun)
    → has_key n (note_runs m rs) ≡ (has_key n m || any (counts n) rs)
unfolding note_runs
has_key-note_runs n m [] = ground arith
has_key-note_runs n m (r ∷ rs) = elim (Bool-cases (str_eq r.name check_run_name)) [
  | inl own ↦ rw own (has_key-note_runs n m rs)
  | inr other ↦ rw other (
      has_key-note_runs n (note_check_run m r) rs
      ∙ ground (arith, has_key-note_check_run n m r, str_eq_iff r.name n, str_eq_iff n r.name))
]

all_names_pass-lookup :
    (n : String) (m : StateMap)
    → all_names_pass m ≡ true
    → has_key n m ≡ true
    → (bad (lookup n m) ≡ false) × ((lookup n m).passed ≡ true)
unfolding all_names_pass
all_names_pass-lookup n [] h k = grind arith
all_names_pass-lookup n ((m, st) ∷ rest) h k = ground (arith, all_names_pass-lookup n rest)

note_runs-append :
    (xs : List CheckRun) (m : StateMap) (ys : List CheckRun)
    → note_runs m (xs ++ ys) ≡ note_runs (note_runs m xs) ys
unfolding note_runs
note_runs-append [] m ys = refl
note_runs-append (x ∷ xs) m ys = note_runs-append xs _ ys

collect_runs-note_runs :
    (m n : StateMap) (pages : Pages CheckRun)
    → collect_runs m pages ≡ some n
    → n ≡ note_runs m (all_of pages)
unfolding collect_runs
collect_runs-note_runs m n Pages.failed h = grind arith
collect_runs-note_runs m n (Pages.last rs) h = grind arith
collect_runs-note_runs m n (Pages.more rs rest) h =
    collect_runs-note_runs (note_runs m rs) n rest h ∙ sym (note_runs-append rs m (all_of rest))

-- Of a run that is not this program's own: it is complete, with a conclusion that is clear, and
-- some run of its name has passed.
abbrev pub IsGreen : List CheckRun → CheckRun → Type 0
IsGreen rs r =
    str_eq r.name check_run_name ≡ false
    → (str_eq r.status "completed" ≡ true)
      × (check_conclusion_clear r.conclusion ≡ true)
      × (any (λ s. counts r.name s && passes s) rs ≡ true)

abbrev pub Succeeds : CommitStatus → Type 0
Succeeds s = str_eq s.context check_run_name ≡ false → s.state ≡ "success"

module _ (rs : List CheckRun) (pass : all_names_pass (note_runs [] rs) ≡ true) where
  run-IsGreen :
      (r : CheckRun) → ((p : CheckRun → Bool) → p r ≡ true → any p rs ≡ true) → IsGreen rs r
  run-IsGreen r member other =
      let k = has_key-note_runs r.name [] rs in
      let self : str_eq r.name r.name ≡ true = (str_eq_iff r.name r.name).1 refl in
      let c : any (counts r.name) rs ≡ true = member (counts r.name) (rw (other, self) refl) in
      let (good, passed) = all_names_pass-lookup r.name (note_runs [] rs) pass (k ∙ c) in
      let b = bad-note_runs r.name [] rs in
      let clear : blocks r ≡ false = elim (Bool-cases (blocks r)) [
        | inl e ↦
            grind (arith, b, good, member (λ x. counts r.name x && blocks x) (rw (other, self) e))
        | inr e ↦ e
      ] in
      (ground arith, ground arith, sym (passed-note_runs r.name [] rs) ∙ passed)

  members-IsGreen :
      (xs : List CheckRun)
      → ((p : CheckRun → Bool) → any p xs ≡ true → any p rs ≡ true)
      → All (IsGreen rs) xs
  members-IsGreen [] h = tt
  members-IsGreen (x ∷ xs) h =
      (run-IsGreen x (λ p e. h p (rw e refl)), members-IsGreen xs (λ p e. h p (ground arith)))

statuses_succeed-Succeeds : (ss : List CommitStatus) → statuses_succeed ss ≡ true → All Succeeds ss
unfolding statuses_succeed
statuses_succeed-Succeeds [] h = tt
statuses_succeed-Succeeds (s ∷ ss) h = (
  λ other. ground (arith, str_eq_iff s.state "success"),
  statuses_succeed-Succeeds ss (ground arith),
)

status_pages_succeed-Succeeds :
    (pages : Pages CommitStatus)
    → status_pages_succeed pages ≡ some true
    → All Succeeds (all_of pages)
unfolding status_pages_succeed
status_pages_succeed-Succeeds Pages.failed h = grind arith
status_pages_succeed-Succeeds (Pages.last ss) h = statuses_succeed-Succeeds ss (grind arith)
status_pages_succeed-Succeeds (Pages.more ss rest) h =
    All-append Succeeds ss (all_of rest) (statuses_succeed-Succeeds ss (ground arith))
      (status_pages_succeed-Succeeds rest (ground arith))

green_parts :
    (runs : Pages CheckRun) (statuses : Pages CommitStatus)
    → approval_checks_green runs statuses ≡ some true
    → (m : StateMap) × (collect_runs [] runs ≡ some m)
      × (all_names_pass m ≡ true)
      × (status_pages_succeed statuses ≡ some true)
unfolding approval_checks_green
green_parts runs statuses h = elim (Option-cases (collect_runs [] runs)) [
  | inl e ↦ ground arith
  | inr (m, e) ↦ (m, e, ground arith, ground arith)
]

-- When the checks count as green, each check run on any page, but this program's own, is complete
-- with a clear conclusion and some run of its name has passed, and each commit status on any page,
-- but this program's own, is a success.
pub approval_checks_green-safe :
    (runs : Pages CheckRun) (statuses : Pages CommitStatus)
    → approval_checks_green runs statuses ≡ some true
    → All (IsGreen (all_of runs)) (all_of runs) × All Succeeds (all_of statuses)
approval_checks_green-safe runs statuses h =
    let (m, e, pass, succeed) = green_parts runs statuses h in
    (
      members-IsGreen (all_of runs)
          (sym (ap all_names_pass (collect_runs-note_runs [] m runs e)) ∙ pass) (all_of runs)
          (λ p x. x),
      status_pages_succeed-Succeeds statuses succeed,
    )
