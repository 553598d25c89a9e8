-- ===== src/Poller/Allowlist.antt =====
-- The repositories that may be reviewed: internal/serve/server.go.
use miu_cr.Base.{
  ◌>>=◌, ℕ, Bool, not, ◌&&◌, ◌||◌, Option, none, some, List, [], ◌∷◌, ◌++◌, Text, text_eq, text_ltb,
  sort_stable, any, ◌==◌, if◌then◌else◌,
}
use miu_cr.Anchor.{is_text}

pub record RepoRef : Type 0 where
  pub owner : Text
  pub repo : Text

unfoldable pub repo_eq : RepoRef → RepoRef → Bool
unfolding text_eq
repo_eq a b = text_eq a.owner b.owner && text_eq a.repo b.repo

abbrev after_char : ℕ → Text × Text → Option (Text × Text)
after_char c (before, after) = some (c ∷ before, after)

-- strings.Cut(s, "/"), `none` without a slash.
unfoldable pub cut_slash : Text → Option (Text × Text)
cut_slash [] = none
cut_slash (c ∷ s) =
    let later = cut_slash s in if c == b'/' then some ([], s) else later >>= after_char c

abbrev has_slash : Text → Bool
has_slash s = any (λ c. c == b'/') s

-- The key that an entry adds to the set, unless it is skipped.
unfoldable pub entry_of : Text → Option RepoRef
unfolding cut_slash
entry_of r = do
  (owner, repo) ← cut_slash r
  (if not (is_text owner) || not (is_text repo) || has_slash repo
      then none
      else some (record { owner = owner; repo = repo }))

-- owner/repo is a key of the set.
unfoldable pub allows : List RepoRef → RepoRef → Bool
unfolding repo_eq
allows allow r = any (repo_eq r) allow

abbrev pub add_entry : List RepoRef → Option RepoRef → List RepoRef
add_entry allow none = allow
add_entry allow (some r) = if allows allow r then allow else allow ++ r ∷ []

-- The loop over the entries; the set is a list without repetitions.
unfoldable pub allowlist_loop : List RepoRef → List Text → List RepoRef
unfolding entry_of allows
allowlist_loop allow [] = allow
allowlist_loop allow (r ∷ repos) = allowlist_loop (add_entry allow (entry_of r)) repos

unfoldable pub new_repo_allowlist : List Text → List RepoRef
unfolding allowlist_loop
new_repo_allowlist repos = allowlist_loop [] repos

unfoldable pub repo_less : RepoRef → RepoRef → Bool
unfolding text_eq text_ltb
repo_less a b =
    if not (text_eq a.owner b.owner) then text_ltb a.owner b.owner else text_ltb a.repo b.repo

unfoldable pub sorted : List RepoRef → List RepoRef
unfolding sort_stable repo_less
sorted allow = sort_stable repo_less allow
