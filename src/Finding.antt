-- ===== src/Finding.antt =====
-- The values that the components of a review pass on: internal/engine/finding.go and
-- internal/engine/diff/diff.go.
use miu_cr.Base.{ℕ, ◌+◌, String, Bool, ◌||◌, Text, codes, text_eq, if◌then◌else◌}

-- Line numbers are natural numbers, 0 for none.
pub record Finding : Type 0 where
  pub file : Text
  pub line : ℕ
  pub end_line : ℕ
  pub title : Text
  pub rule : Text
  pub severity : String
  pub category : Text
  pub rationale : Text
  pub suggested_patch : Text
  pub quoted_code : Text

pub record Diff : Type 0 where
  pub old_path : Text
  pub new_path : Text
  pub diff : Text
  pub new_file_content : Text
  pub ref : Text
  pub is_binary : Bool
  pub is_new : Bool
  pub is_deleted : Bool
  pub is_renamed : Bool
  pub insertions : ℕ
  pub deletions : ℕ

unfoldable pub review_path : Diff → Text
unfolding text_eq
review_path d =
    if d.is_deleted || text_eq d.new_path (codes "/dev/null") then d.old_path else d.new_path

pub record Usage : Type 0 where
  pub input_tokens : ℕ
  pub output_tokens : ℕ
  pub cache_read_tokens : ℕ
  pub cache_creation_tokens : ℕ

abbrev pub no_usage : Usage
no_usage = record {
  input_tokens = 0;
  output_tokens = 0;
  cache_read_tokens = 0;
  cache_creation_tokens = 0;
}

unfoldable pub add_usage : Usage → Usage → Usage
add_usage u o = record {
  input_tokens = u.input_tokens + o.input_tokens;
  output_tokens = u.output_tokens + o.output_tokens;
  cache_read_tokens = u.cache_read_tokens + o.cache_read_tokens;
  cache_creation_tokens = u.cache_creation_tokens + o.cache_creation_tokens;
}

unfoldable pub total_input_tokens : Usage → ℕ
total_input_tokens u = u.input_tokens + u.cache_read_tokens + u.cache_creation_tokens

unfoldable pub total_tokens : Usage → ℕ
unfolding total_input_tokens
total_tokens u = total_input_tokens u + u.output_tokens
