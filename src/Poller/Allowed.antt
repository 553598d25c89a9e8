-- ===== src/Poller/Allowed.antt =====
-- Only configured repositories are polled: internal/serve/poller.go with internal/serve/server.go.
use miu_cr.Base.{
  ℕ, ◌≡◌, refl, sym, subst, true, Option, none, some, List, [], ◌∷◌, ◌++◌, arith, All, All-map,
  All-append, any, Text, codes, text_eq, text_eq_iff, sort_stable, sort_stable-All, ◌==◌,
  Bool-cases, Option-cases, inl, inr,
}
use miu_cr.Poller.{Candidate}
use miu_cr.Poller.Allowlist.{
  RepoRef, repo_eq, add_entry, cut_slash, entry_of, allows, allowlist_loop, new_repo_allowlist,
  repo_less, sorted,
}
use miu_cr.Poller.Enumerate.{
  Notification, parse_pr_subject, candidate_of, enumerate_notifications, PullRequest, PullsAnswer,
  candidates_of, pulls_loop, enumerate_pulls,
}

-- owner/repo
abbrev pub full_name : RepoRef → Text
full_name r = r.owner ++ (b'/' ∷ r.repo)

-- The repository stands in the configuration.
abbrev pub IsConfigured : List Text → RepoRef → Type 0
IsConfigured repos r = any (text_eq (full_name r)) repos ≡ true

cut_slash-append :
    (s before after : Text) → cut_slash s ≡ some (before, after) → s ≡ before ++ (b'/' ∷ after)
unfolding cut_slash
cut_slash-append [] before after e = cc
cut_slash-append (c ∷ s) before after e = elim (Bool-cases (c == b'/')) [
  | inl slash ↦ ground arith
  | inr other ↦ elim (Option-cases (cut_slash s)) [
    | inl n ↦ ground (arith, n)
    | inr ((b, a), n) ↦ ground (arith, n, cut_slash-append s b a n)
  ]
]

full_name-entry_of : (s : Text) (r : RepoRef) → entry_of s ≡ some r → full_name r ≡ s
unfolding entry_of
full_name-entry_of s r e = elim (Option-cases (cut_slash s)) [
  | inl n ↦ ground (arith, n)
  | inr ((b, a), n) ↦ ground (arith, n, cut_slash-append s b a n)
]

any_self : (xs : List Text) → All (λ e. any (text_eq e) xs ≡ true) xs
any_self [] = tt
any_self (x ∷ xs) = (
  ground (arith, text_eq_iff x x),
  All-map (λ e. any (text_eq e) xs ≡ true) (λ e. any (text_eq e) (x ∷ xs) ≡ true) xs
      (λ e h. ground (arith, h)) (any_self xs),
)

-- The repository of a candidate is the one that was looked up.
allows-candidate_of :
    (allow : List RepoRef) (n : Notification) (c : Candidate)
    → candidate_of allow n ≡ some c
    → allows allow (record { owner = c.owner; repo = c.repo }) ≡ true
unfolding candidate_of
allows-candidate_of allow n c e = elim (Bool-cases (text_eq n.subject_type (codes "PullRequest"))) [
  | inr other ↦ ground (arith, other)
  | inl pull ↦ elim (Option-cases (parse_pr_subject n)) [
    | inl m ↦ ground (arith, pull, m)
    | inr ((owner, repo, number), m) ↦
        let key : RepoRef = record { owner = owner; repo = repo } in
        elim (Bool-cases (allows allow key)) [
          | inl known ↦ ground (arith, pull, m, known)
          | inr other ↦ ground (arith, pull, m, other)
        ]
  ]
]

module _ (all : List Text) where
  add_entry-IsConfigured :
      (allow : List RepoRef) (s : Text) (o : Option RepoRef)
      → any (text_eq s) all ≡ true
      → ((r : RepoRef) → o ≡ some r → full_name r ≡ s)
      → All (IsConfigured all) allow
      → All (IsConfigured all) (add_entry allow o)
  add_entry-IsConfigured allow s none h e k = k
  add_entry-IsConfigured allow s (some r) h e k =
      let known : IsConfigured all r = subst (λ t. any (text_eq t) all ≡ true) (sym (e r refl)) h in
      elim (Bool-cases (allows allow r)) [
        | inl there ↦ rw there k
        | inr new ↦ rw new (All-append (IsConfigured all) allow (r ∷ []) k (known, tt))
      ]

  allowlist_loop-IsConfigured :
      (repos : List Text) (allow : List RepoRef)
      → All (λ e. any (text_eq e) all ≡ true) repos
      → All (IsConfigured all) allow
      → All (IsConfigured all) (allowlist_loop allow repos)
  unfolding allowlist_loop
  allowlist_loop-IsConfigured [] allow h k = k
  allowlist_loop-IsConfigured (s ∷ repos) allow h k =
      allowlist_loop-IsConfigured repos (add_entry allow (entry_of s)) h.1
        (add_entry-IsConfigured allow s (entry_of s) h.0 (full_name-entry_of s) k)

  -- A key of the set is one of its elements.
  allows-IsConfigured :
      (allow : List RepoRef) (r : RepoRef)
      → All (IsConfigured all) allow
      → allows allow r ≡ true
      → IsConfigured all r
  unfolding allows repo_eq
  allows-IsConfigured [] r k h = cc
  allows-IsConfigured (x ∷ allow) r k h = elim (Bool-cases (repo_eq r x)) [
    | inl e ↦
        let name : full_name r ≡ full_name x =
          ground (arith, text_eq_iff r.owner x.owner, text_eq_iff r.repo x.repo) in
        subst (λ t. any (text_eq t) all ≡ true) (sym name) k.0
    | inr e ↦ allows-IsConfigured allow r k.1 (ground (arith, e))
  ]

  abbrev pub IsAllowed : Candidate → Type 0
  IsAllowed c = IsConfigured all (record { owner = c.owner; repo = c.repo })

  module _ (allow : List RepoRef) (k : All (IsConfigured all) allow) where
    enumerate_notifications-IsAllowed :
        (notifs : List Notification) → All IsAllowed (enumerate_notifications allow notifs)
    unfolding enumerate_notifications
    enumerate_notifications-IsAllowed [] = tt
    enumerate_notifications-IsAllowed (n ∷ notifs) = elim (Option-cases (candidate_of allow n)) [
      | inl e ↦ rw e (enumerate_notifications-IsAllowed notifs)
      | inr (c, e) ↦ rw e (
        allows-IsConfigured allow _ k (allows-candidate_of allow n c e),
        enumerate_notifications-IsAllowed notifs,
      )
    ]

  candidates_of-IsAllowed :
      (r : RepoRef) (prs : List PullRequest)
      → IsConfigured all r
      → All IsAllowed (candidates_of r prs)
  unfolding candidates_of
  candidates_of-IsAllowed r [] h = tt
  candidates_of-IsAllowed r (pr ∷ prs) h = (h, candidates_of-IsAllowed r prs h)

  -- Of what a request for all repositories yields, if it yields anything.
  abbrev pub AllAllowed : Option (List Candidate) → Type 0
  AllAllowed none = Unit
  AllAllowed (some cands) = All IsAllowed cands

  pulls_loop-AllAllowed :
      (ask : RepoRef → PullsAnswer) (rs : List RepoRef) (cands : List Candidate) (wait : ℕ)
      → All (IsConfigured all) rs
      → All IsAllowed cands
      → AllAllowed (pulls_loop ask rs cands wait).0
  unfolding pulls_loop
  pulls_loop-AllAllowed ask [] cands wait h k = k
  pulls_loop-AllAllowed ask (r ∷ rs) cands wait h k = elim (Option-cases (ask r).prs) [
    | inl n ↦ elim (Bool-cases (ask r).ctx_done) [
      | inl over ↦ rw (n, over, pulls_loop) tt
      | inr goes_on ↦ rw (n, goes_on, pulls_loop) (pulls_loop-AllAllowed ask rs cands _ h.1 k)
    ]
    | inr (prs, n) ↦
        rw (n, pulls_loop)
          (pulls_loop-AllAllowed ask rs (cands ++ candidates_of r prs) _ h.1 (
            All-append IsAllowed cands (candidates_of r prs) k (candidates_of-IsAllowed r prs h.0)))
  ]

new_repo_allowlist-IsConfigured :
    (repos : List Text) → All (IsConfigured repos) (new_repo_allowlist repos)
unfolding new_repo_allowlist
new_repo_allowlist-IsConfigured repos =
    allowlist_loop-IsConfigured repos repos [] (any_self repos) tt

-- Whatever the API answers, by notifications and by repository, the poller's candidates are pull
-- requests of repositories whose owner/repo is an entry of the configuration.
pub enumerate-IsAllowed :
    (repos : List Text) (notifs : List Notification) (ask : RepoRef → PullsAnswer)
    → let allow = new_repo_allowlist repos in
      All (IsAllowed repos) (enumerate_notifications allow notifs)
      × AllAllowed repos (enumerate_pulls ask allow).0
unfolding enumerate_pulls sorted
enumerate-IsAllowed repos notifs ask =
    let allow = new_repo_allowlist repos in
    let known = new_repo_allowlist-IsConfigured repos in
    (
      enumerate_notifications-IsAllowed repos allow known notifs,
      pulls_loop-AllAllowed repos ask (sort_stable repo_less allow) [] 0
          (sort_stable-All (IsConfigured repos) repo_less allow known) tt,
    )
