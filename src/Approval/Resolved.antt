-- ===== src/Approval/Resolved.antt =====
-- The approval of a pull request whose ledger is resolved: internal/github/approve.go.
use miu_cr.Base.{
  ℕ, zero, suc, ◌+◌, ◌<◌, ◌≡◌, ◌⊎◌, refl, ap, ◌∙◌, inl, inr, Bool-cases, Option-cases, Bool, true,
  false, ◌&&◌, Option, some, List, [], ◌∷◌, arith, Text, text_eq, text_eq_iff, trim_space, str_eq,
  any,
}
use miu_cr.Approval.{
  ApprovalPolicy, PrInfo, approve, approved, readiness_unverified, approval_would_approve,
  approval_checks_green, FreshPr, Host, approval_readiness_attempts, readiness_of, readiness_loop,
  approval_readiness, Review, ApprovalReviewState, approval_reviews, CreateAnswer,
  approve_resolved_ledger, resolve_event,
}
use miu_cr.Approval.Events.{Admits, IsSafe, resolve_event-approve_iff}

-- Some fetch saw the head, open for a merge, and the checks are green.
pub record IsReady (host : Host) (info : PrInfo) : Type 0 where
  pub attempt : ℕ
  pub in_time : attempt < 3
  pub fresh : FreshPr
  pub fetched : host.get_pr attempt ≡ some fresh
  pub same_head : fresh.head ≡ some info.head_sha
  pub can_merge : fresh.mergeable ≡ some true
  pub green : approval_checks_green host.check_runs host.statuses ≡ some true

readiness_of-approved :
    (host : Host) (m : Bool)
    → readiness_of host (some m) ≡ approved
    → (m ≡ true) × (approval_checks_green host.check_runs host.statuses ≡ some true)
unfolding readiness_of
readiness_of-approved host false h = grind arith
readiness_of-approved host true h =
    elim (Option-cases (approval_checks_green host.check_runs host.statuses)) [
      | inl e ↦ grind arith
      | inr (b, e) ↦ elim (Bool-cases b) [ inl t ↦ (refl, e ∙ ap some t) | inr f ↦ grind arith ]
    ]

-- An attempt that ends well: its fetch settled it, or a later attempt did.
readiness_loop-attempt :
    (host : Host) (info : PrInfo) (left attempt : ℕ)
    → readiness_loop host info attempt (suc left) ≡ approved
    → (fresh : FreshPr) × (host.get_pr attempt ≡ some fresh)
      × (fresh.head ≡ some info.head_sha)
      × (((m : Bool) × (fresh.mergeable ≡ some m) × (readiness_of host (some m) ≡ approved))
          ⊎ (readiness_loop host info (suc attempt) left ≡ approved))
unfolding readiness_loop
readiness_loop-attempt host info left attempt h = elim (Option-cases (host.get_pr attempt)) [
  | inl e ↦ grind arith
  | inr (fresh, e) ↦ elim (Option-cases fresh.head) [
    | inl k ↦ grind arith
    | inr (head, k) ↦
        let same : head ≡ info.head_sha =
          ground (arith, text_eq_iff head info.head_sha, text_eq_iff info.head_sha head) in
        elim (Option-cases fresh.mergeable) [
          | inl u ↦ (fresh, e, k ∙ ap some same, inr (ground arith))
          | inr (m, u) ↦ (fresh, e, k ∙ ap some same, inl (m, u, ground arith))
        ]
  ]
]

readiness_loop-IsReady :
    (host : Host) (info : PrInfo) (left attempt : ℕ)
    → attempt + left ≡ 3
    → readiness_loop host info attempt left ≡ approved
    → IsReady host info
readiness_loop-IsReady host info zero attempt e h =
    let never : readiness_unverified ≡ approved = unfold readiness_loop readiness_of in h in
    grind arith
readiness_loop-IsReady host info (suc left) attempt e h =
    let (fresh, fetched, head, rest) = readiness_loop-attempt host info left attempt h in
    elim rest [
      | inl (m, can, ok) ↦
          let (t, green) = readiness_of-approved host m ok in
          record {
            attempt = attempt;
            in_time = omega (arith, e);
            fresh = fresh;
            fetched = fetched;
            same_head = head;
            can_merge = can ∙ ap some t;
            green = green;
          }
      | inr later ↦ readiness_loop-IsReady host info left (suc attempt) (omega (arith, e)) later
    ]

-- An approved review of the head stands among the reviews.
abbrev pub approves_head : Text → Review → Bool
approves_head head r = str_eq r.state "APPROVED" && text_eq (trim_space r.commit_id) head

approval_reviews-keeps :
    (head : Text) (st : ApprovalReviewState) (rs : List Review)
    → st.current ≡ true
    → (approval_reviews head st rs).current ≡ true
unfolding approval_reviews
approval_reviews-keeps head st [] h = h
approval_reviews-keeps head st (r ∷ rs) h = ground (
  arith,
  approval_reviews-keeps head st rs,
  approval_reviews-keeps head (record st { current = true }) rs,
  approval_reviews-keeps head (record st { prior = true }) rs,
)

approval_reviews-current :
    (head : Text) (st : ApprovalReviewState) (rs : List Review)
    → text_eq head [] ≡ false
    → (approval_reviews head st rs).current ≡ false
    → any (approves_head head) rs ≡ false
unfolding approval_reviews
approval_reviews-current head st [] k h = refl
approval_reviews-current head st (r ∷ rs) k h = ground (
  arith,
  approval_reviews-keeps head (record st { current = true }) rs,
  approval_reviews-current head st rs k,
  approval_reviews-current head (record st { current = true }) rs k,
  approval_reviews-current head (record st { prior = true }) rs k,
)

-- What holds when a review was submitted.
pub record Justified (host : Host) (policy : ApprovalPolicy) (reviews : Option (List Review))
    (info : PrInfo) : Type 0 where
  pub admitted : Admits policy []
  pub safe : IsSafe info true 1 true
  pub listed : List Review
  pub listing : reviews ≡ some listed
  pub first : any (approves_head info.head_sha) listed ≡ false
  pub ready : IsReady host info

-- The resolution sync submits an approval only when the policy admits a review without findings,
-- the author is trusted and the branch no fork, no review on the page that was listed has approved
-- the head (a page of at most 100 reviews; one behind it may have), one of at most three fetches
-- shows the head unmoved and free of conflicts, and the checks are green.
pub approve_resolved_ledger-Justified :
    (host : Host) (info : PrInfo) (policy : ApprovalPolicy) (reviews : Option (List Review))
    (answer : CreateAnswer)
    → (approve_resolved_ledger host (some info) policy reviews answer).0 ≡ true
    → Justified host policy reviews info
unfolding approve_resolved_ledger approval_would_approve approval_readiness
approve_resolved_ledger-Justified host info policy reviews answer h = elim (Option-cases reviews) [
  | inl e ↦ ground arith
  | inr (rs, e) ↦
      let known : text_eq info.head_sha [] ≡ false = ground arith in
      let none_yet : (approval_reviews info.head_sha (record { current = false; prior = false })
            rs).current
          ≡ false =
        ground arith in
      let event : (resolve_event policy info true [] 1 true).0 ≡ approve = ground arith in
      let ok : readiness_loop host info 0 approval_readiness_attempts ≡ approved = ground arith in
      let (a, s) = (resolve_event-approve_iff policy info true [] 1 true).0 event in
      record {
        admitted = a;
        safe = s;
        listed = rs;
        listing = e;
        first = approval_reviews-current info.head_sha _ rs known none_yet;
        ready = readiness_loop-IsReady host info 3 0 refl ok;
      }
]
