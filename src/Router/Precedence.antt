-- ===== src/Router/Precedence.antt =====
-- internal/router/router.go: precedenceKey and comparePrecedence.
pub mod Order
pub mod Above
use g_gateway.Base.{ℕ, Bool, true, false, if◌then◌else◌, Bytes, bytes_lt}
use g_gateway.Base.Int.{ℤ, pos, ltb_ℤ}

pub record PrecedenceKey : Type 0 where
  pub priority : ℤ
  pub host_rank : ℕ
  pub path_kind : ℕ
  pub static_segments : ℕ
  pub pattern_bytes : ℕ
  pub predicate_count : ℕ
  pub route_id : Bytes

-- The results 1, -1 and 0.
pub data Comparison : Type 0 where
  higher lower same : Comparison

abbrev pub compare_ints : ℤ → ℤ → Comparison
compare_ints left right =
    if ltb_ℤ right left then higher else if ltb_ℤ left right then lower else same

-- The smaller identifier comes first.
abbrev pub compare_ids : Bytes → Bytes → Comparison
compare_ids left right =
    if bytes_lt left right then higher else if bytes_lt right left then lower else same

-- One turn of the loop over the pairs: the first difference decides.
abbrev pub then_by : Comparison → Comparison → Comparison
then_by higher next = higher
then_by lower next = lower
then_by same next = next

unfoldable pub compare_precedence : PrecedenceKey → PrecedenceKey → Comparison
compare_precedence left right = then_by (compare_ints left.priority right.priority) (
    then_by (compare_ints (pos left.host_rank) (pos right.host_rank)) (
      then_by (compare_ints (pos left.path_kind) (pos right.path_kind)) (
        then_by (compare_ints (pos left.static_segments) (pos right.static_segments)) (
          then_by (compare_ints (pos left.pattern_bytes) (pos right.pattern_bytes)) (
            then_by (compare_ints (pos left.predicate_count) (pos right.predicate_count))
              (compare_ids left.route_id right.route_id))))))

-- The tests `> 0` and `<= 0` on a result.
abbrev pub is_higher : Comparison → Bool
is_higher higher = true
is_higher lower = false
is_higher same = false

abbrev pub at_most : Comparison → Bool
at_most higher = false
at_most lower = true
at_most same = true
