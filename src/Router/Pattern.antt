-- ===== src/Router/Pattern.antt =====
-- internal/router/pattern.go, path patterns. An error is `none`.
use g_gateway.Base.{
  ℕ, ◌+◌, ◌-◌, Bool, true, false, not, ◌&&◌, ◌||◌, Option, none, some, List, [], ◌∷◌, ◌++◌, ltb,
  leb, ◌==◌, if◌then◌else◌, any, take, drop, length, Bytes, bytes, bytes_eq, has_prefix, ends_with,
  index_byte, split, contains_bytes, count,
}

pub data PathSegment : Type 0 where
  static parameter : Bytes → PathSegment
  prefix : PathSegment
  catch_all : Bytes → PathSegment

pub record PathSpecificity : Type 0 where
  pub static_segments : ℕ
  pub kind_rank : ℕ
  pub segment_count : ℕ
  pub pattern_bytes : ℕ

pub record CompiledPathPattern : Type 0 where
  pub raw : Bytes
  pub segments : List PathSegment
  pub specificity : PathSpecificity
  pub param_count : ℕ

-- requestctx.ParamSpan
pub record ParamSpan : Type 0 where
  pub name : Bytes
  pub start : ℕ
  pub end : ℕ

abbrev is_letter : ℕ → Bool
is_letter c = (leb b'a' c && leb c b'z') || (leb b'A' c && leb c b'Z') || c == b'_'

abbrev is_digit : ℕ → Bool
is_digit c = leb b'0' c && leb c b'9'

abbrev name_tail : Bytes → Bool
name_tail [] = true
name_tail (c ∷ s) = (is_letter c || is_digit c) && name_tail s

unfoldable pub valid_parameter_name : Bytes → Bool
valid_parameter_name [] = false
valid_parameter_name (c ∷ s) = is_letter c && name_tail s

-- `s[i : len(s)-1]`.
abbrev inner : ℕ → Bytes → Bytes
inner i s = take (length s - 1 - i) (drop i s)

abbrev one_pair : Bytes → Bool
one_pair raw = ends_with raw b'}' && count b'{' raw == 1 && count b'}' raw == 1

unfoldable pub compile_path_segment : Bytes → Bool → Option PathSegment
unfolding valid_parameter_name
compile_path_segment raw final =
    if bytes_eq raw (bytes "*")
    then (if final then some prefix else none)
    else if has_prefix raw (bytes "{*") && one_pair raw
    then (if final && valid_parameter_name (inner 2 raw)
        then some (catch_all (inner 2 raw))
        else none)
    else if has_prefix raw (bytes "{") && one_pair raw
    then (if valid_parameter_name (inner 1 raw) then some (parameter (inner 1 raw)) else none)
    else if any (λ c. c == b'*') raw
    then none
    else if any (λ c. c == b'{' || c == b'}') raw
    then none
    else some (static raw)

-- What one segment adds to the compiled pattern and to the parameter names.
abbrev add_segment : CompiledPathPattern → PathSegment → CompiledPathPattern
add_segment p s = record p { segments = p.segments ++ s ∷ [] }

abbrev with_rank : ℕ → CompiledPathPattern → CompiledPathPattern
with_rank rank p = record p { specificity = record p.specificity { kind_rank = rank } }

abbrev add_name : CompiledPathPattern → CompiledPathPattern
add_name p = record p { param_count = p.param_count + 1 }

unfoldable pub step_segment :
    PathSegment → CompiledPathPattern → List Bytes → Option (CompiledPathPattern × List Bytes)
step_segment (static text) p names =
    let counted = record p {
      specificity = record p.specificity { static_segments = p.specificity.static_segments + 1 };
    } in
    some (add_segment (if bytes_eq text [] then p else counted) (static text), names)
step_segment (parameter name) p names =
    if contains_bytes names name
    then none
    else some (
      add_segment (if ltb 2 p.specificity.kind_rank then with_rank 2 (add_name p) else add_name p)
          (parameter name),
      name ∷ names,
    )
step_segment (catch_all name) p names =
    if contains_bytes names name
    then none
    else some (add_segment (with_rank 1 (add_name p)) (catch_all name), name ∷ names)
step_segment prefix p names = some (add_segment (with_rank 1 p) prefix, names)

abbrev is_empty {ℓ} : {A : Type ℓ} → List A → Bool
is_empty [] = true
is_empty (x ∷ xs) = false

-- The loop over the raw segments.
unfoldable pub compile_segments :
    List Bytes → CompiledPathPattern → List Bytes → Option CompiledPathPattern
unfolding compile_path_segment step_segment
compile_segments [] p names = some p
compile_segments (raw ∷ raws) p names = elim (compile_path_segment raw (is_empty raws)) [
  | none ↦ none
  | some segment ↦ elim (step_segment segment p names) [
    | none ↦ none
    | some (p', names') ↦ compile_segments raws p' names'
  ]
]

unfoldable pub raw_segments : Bytes → List Bytes
raw_segments pattern = if bytes_eq pattern (bytes "/") then [] else split (drop 1 pattern) b'/'

unfoldable pub compile_path_pattern : Bytes → Option CompiledPathPattern
unfolding compile_segments raw_segments
compile_path_pattern pattern =
    let raws = raw_segments pattern in
    let empty : CompiledPathPattern = record {
      raw = pattern;
      segments = [];
      specificity = record {
        static_segments = 0;
        kind_rank = 3;
        segment_count = length raws;
        pattern_bytes = length pattern;
      };
      param_count = 0;
    } in
    if not (has_prefix pattern (bytes "/"))
    then none
    else if any (λ c. c == b'?' || c == b'#') pattern
    then none
    else compile_segments raws empty []

-- The end of the path segment that starts at `position`.
unfoldable pub segment_end : Bytes → ℕ → ℕ
segment_end path position = elim (index_byte (drop position path) b'/') [
  | none ↦ length path
  | some offset ↦ position + offset
]

-- `path[start:end]`.
abbrev pub slice : Bytes → ℕ → ℕ → Bytes
slice path start end = take (end - start) (drop start path)

abbrev pub span : Bytes → ℕ → ℕ → ParamSpan
span name start end = record { name = name; start = start; end = end }

-- The loop of match from `position`, with the parameters found so far.
unfoldable pub match_segments :
    List PathSegment → Bytes → ℕ → List ParamSpan → Bool × List ParamSpan
match_segments [] path position params = (false, [])
match_segments (prefix ∷ rest) path position params =
    if ltb (length path) position then (false, []) else (true, params)
match_segments (catch_all name ∷ rest) path position params =
    if ltb (length path) position
    then (false, [])
    else (true, params ++ span name position (length path) ∷ [])
match_segments (static text ∷ rest) path position params =
    let end = segment_end path position in
    let next = match_segments rest path (end + 1) params in
    if ltb (length path) position
    then (false, [])
    else if not (bytes_eq (slice path position end) text)
    then (false, [])
    else if is_empty rest
    then (end == length path, params)
    else if end == length path
    then (false, [])
    else next
match_segments (parameter name ∷ rest) path position params =
    let end = segment_end path position in
    let found = params ++ span name position end ∷ [] in
    let next = match_segments rest path (end + 1) found in
    if ltb (length path) position
    then (false, [])
    else if end == position
    then (false, [])
    else if is_empty rest
    then (end == length path, found)
    else if end == length path
    then (false, [])
    else next

-- The method of compiledPathPattern.
unfoldable pub match_path : List PathSegment → Bytes → Bool × List ParamSpan
unfolding match_segments
match_path [] path = (has_prefix path (bytes "/") && bytes_eq path (bytes "/"), [])
match_path (s ∷ ss) path =
    if has_prefix path (bytes "/") then match_segments (s ∷ ss) path 1 [] else (false, [])
