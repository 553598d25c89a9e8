-- ===== src/Filter.antt =====
-- Which diffs are reviewed: internal/engine/filter.go.
use miu_cr.Base.{
  Bool, true, not, ◌&&◌, List, [], ◌∷◌, Text, codes, text_eq, trim_space, trim_prefix, any, keep,
  map, ◌==◌, if◌then◌else◌,
}
use miu_cr.Finding.{Diff, review_path}
use miu_cr.Anchor.{is_text}

pub record FilterOptions : Type 0 where
  pub extensions : List Text
  pub include : List Text
  pub exclude : List Text

-- path.Ext: from the last dot of the last element on.
unfoldable pub ext : Text → Text
ext [] = []
ext (c ∷ s) =
    let later = ext s in
    if is_text later then later else if c == b'.' && not (any (λ d. d == b'/') s) then c ∷ s else []

-- `to_lower` is strings.ToLower; `glob_match` is doublestar.Match, false for its error.
module _ (to_lower : Text → Text) (glob_match : Text → Text → Bool) where
  -- The keys of the map; it is nil when there is none.
  unfoldable pub normalize_extensions : List Text → List Text
  normalize_extensions exts =
      map (λ e. to_lower (trim_prefix e (codes "."))) (keep is_text (map trim_space exts))

  unfoldable pub matches_extension : Text → List Text → Bool
  unfolding ext
  matches_extension p [] = true
  matches_extension p (e ∷ exts) =
      any (text_eq (to_lower (trim_prefix (ext p) (codes ".")))) (e ∷ exts)

  unfoldable pub matches_globs : Text → List Text → List Text → Bool
  matches_globs p [] exclude = not (any (λ g. glob_match g p) exclude)
  matches_globs p (i ∷ include) exclude =
      not (any (λ g. glob_match g p) exclude) && any (λ g. glob_match g p) (i ∷ include)

  -- The tests of the loop, each of which continues.
  unfoldable pub is_reviewable : FilterOptions → Diff → Bool
  unfolding matches_extension matches_globs normalize_extensions review_path
  is_reviewable opts d =
      let p = review_path d in
      not d.is_binary
      && is_text p
      && not (text_eq p (codes "/dev/null"))
      && matches_extension p (normalize_extensions opts.extensions)
      && matches_globs p opts.include opts.exclude

  unfoldable pub select_files : List Diff → FilterOptions → List Diff
  unfolding is_reviewable
  select_files diffs opts = keep (is_reviewable opts) diffs
