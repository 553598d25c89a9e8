-- ===== src/Anchor/Lines.antt =====
-- Only the quote decides where a finding is anchored: internal/engine/anchor/resolver.go.
use miu_cr.Base.{
  ◌≡◌, refl, ap, ap₂, ◌∙◌, Bool, true, false, Option, none, some, List, [], ◌∷◌, map, if◌then◌else◌,
  ℕ,
}
use miu_cr.Finding.{Finding, Diff}
use miu_cr.Anchor.{
  set_range, resolve_finding, PathMap, by_path, clear_lines, resolve_with, resolve_one,
  resolve_line_numbers, is_text,
}

set_range-clear_lines :
    (f : Finding) (o : Option (ℕ × ℕ)) → set_range (clear_lines f) o ≡ set_range f o
unfolding clear_lines
set_range-clear_lines f none = refl
set_range-clear_lines f (some (s, e)) = refl

clear_lines-set_range :
    (f : Finding) (o : Option (ℕ × ℕ)) → clear_lines (set_range f o).0 ≡ clear_lines f
unfolding clear_lines
clear_lines-set_range f none = refl
clear_lines-set_range f (some (s, e)) = refl

module _ (d : Diff) (f : Finding) where
  resolve_finding-clear_lines : resolve_finding (clear_lines f) d ≡ resolve_finding f d
  unfolding resolve_finding
  resolve_finding-clear_lines = set_range-clear_lines f _ ∙ unfold clear_lines in refl

  clear_lines-resolve_finding : clear_lines (resolve_finding f d).0 ≡ clear_lines f
  unfolding resolve_finding
  clear_lines-resolve_finding = clear_lines-set_range f _

resolve_with-clear_lines :
    (o : Option Diff) (f : Finding) → resolve_with o (clear_lines f) ≡ resolve_with o f
unfolding resolve_with
resolve_with-clear_lines none f = refl
resolve_with-clear_lines (some d) f = ap (λ r. r.0) (resolve_finding-clear_lines d f)

clear_lines-resolve_with :
    (o : Option Diff) (f : Finding) → clear_lines (resolve_with o f) ≡ clear_lines f
unfolding resolve_with
clear_lines-resolve_with none f = refl
clear_lines-resolve_with (some d) f = clear_lines-resolve_finding d f

resolve_if-clear_lines :
    (b : Bool) (o : Option Diff) (f : Finding)
    → (if b then resolve_with o (clear_lines f) else clear_lines (clear_lines f))
      ≡ (if b then resolve_with o f else clear_lines f)
resolve_if-clear_lines true o f = resolve_with-clear_lines o f
resolve_if-clear_lines false o f = unfold clear_lines in refl

clear_lines-resolve_if :
    (b : Bool) (o : Option Diff) (f : Finding)
    → clear_lines (if b then resolve_with o f else clear_lines f) ≡ clear_lines f
clear_lines-resolve_if true o f = clear_lines-resolve_with o f
clear_lines-resolve_if false o f = unfold clear_lines in refl

module _ (paths : PathMap) where
  pub resolve_one-clear_lines :
      (f : Finding) → resolve_one paths (clear_lines f) ≡ resolve_one paths f
  resolve_one-clear_lines f =
      unfold resolve_one clear_lines in
      resolve_if-clear_lines (is_text f.quoted_code) (paths f.file) f

  pub clear_lines-resolve_one : (f : Finding) → clear_lines (resolve_one paths f) ≡ clear_lines f
  clear_lines-resolve_one f =
      unfold resolve_one in clear_lines-resolve_if (is_text f.quoted_code) (paths f.file) f

  map-resolve_one :
      (fs : List Finding)
      → (map (resolve_one paths) (map clear_lines fs) ≡ map (resolve_one paths) fs)
        × (map clear_lines (map (resolve_one paths) fs) ≡ map clear_lines fs)
  map-resolve_one [] = (refl, refl)
  map-resolve_one (f ∷ fs) =
      let (a, b) = map-resolve_one fs in
      (
        ap₂ (λ x y. x ∷ y) (resolve_one-clear_lines f) a,
        ap₂ (λ x y. x ∷ y) (clear_lines-resolve_one f) b,
      )

-- Against at least one diff, the line numbers that a finding comes with have no influence on the
-- result, and the result differs from the findings in their line numbers only.
pub resolve_line_numbers-clear_lines :
    (fs : List Finding) (d : Diff) (ds : List Diff)
    → (resolve_line_numbers (map clear_lines fs) (d ∷ ds) ≡ resolve_line_numbers fs (d ∷ ds))
      × (map clear_lines (resolve_line_numbers fs (d ∷ ds)) ≡ map clear_lines fs)
unfolding resolve_line_numbers
resolve_line_numbers-clear_lines [] d ds = (refl, refl)
resolve_line_numbers-clear_lines (f ∷ fs) d ds =
    map-resolve_one (by_path (λ q. none) (d ∷ ds)) (f ∷ fs)
