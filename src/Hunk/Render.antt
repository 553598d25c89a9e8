-- ===== src/Hunk/Render.antt =====
-- Hunks in the form of git, with every count written (git leaves out a count of 1): what the parser
-- is to read back.
use miu_cr.Base.{IsOneLine, ℕ, ◌≤◌, List, [], ◌∷◌, ◌++◌, Text, codes, decimal, All, map}
use miu_cr.Hunk.{HunkLineType, hunk_context, hunk_added, hunk_deleted, HunkLine, Hunk, max_int}

unfoldable pub marker : HunkLineType → ℕ
marker hunk_context = b' '
marker hunk_added = b'+'
marker hunk_deleted = b'-'

unfoldable pub render_line : HunkLine → Text
render_line l = marker l.kind ∷ l.content

-- `@@ -a,b +c,d @@` and a section heading.
unfoldable pub render_header : Hunk → Text → Text
render_header h heading =
    codes "@@ -"
    ++ (decimal h.old_start
        ++ (codes ","
            ++ (decimal h.old_count
                ++ (codes " +"
                    ++ (decimal h.new_start
                        ++ (codes "," ++ (decimal h.new_count ++ (codes " @@" ++ heading))))))))

unfoldable pub render_hunk : Hunk → Text → List Text
render_hunk h heading = render_header h heading ∷ map render_line h.lines

-- Hunks with their section headings.
unfoldable pub render_hunks : List (Hunk × Text) → List Text
render_hunks [] = []
render_hunks ((h, heading) ∷ hs) = render_hunk h heading ++ render_hunks hs

-- Numbers in the range of int, and no newline inside a line.
pub record IsPrintable (h : Hunk) : Type 0 where
  pub old_start_fits : h.old_start ≤ max_int
  pub old_count_fits : h.old_count ≤ max_int
  pub new_start_fits : h.new_start ≤ max_int
  pub new_count_fits : h.new_count ≤ max_int
  pub contents : All (λ l. IsOneLine l.content) h.lines
