-- ===== src/Router/Match/Descent.antt =====
-- A path that matches a pattern leads through the tree: what each segment of the pattern says of the
-- path at the position it is read from.
use g_gateway.Base.{
  ℕ, ◌+◌, ◌≤◌, ◌≡◌, true, false, List, [], ◌∷◌, ◌++◌, Bytes, bytes_eq, bytes_eq_iff, ltb, ◌==◌,
  length, arith, inl, inr, index_byte, drop, Option-cases,
}
use g_gateway.Router.Pattern.{
  PathSegment, ParamSpan, match_path, match_segments, segment_end, slice, span,
}

pub position-le-segment_end :
    (path : Bytes) (position : ℕ) → position ≤ length path → position ≤ segment_end path position
unfolding segment_end
position-le-segment_end path position h =
    elim (Option-cases (index_byte (drop position path) b'/')) [
      | inl e ↦ rw (e, segment_end) h
      | inr (i, e) ↦ rw (e, segment_end) (omega arith)
    ]

module _ (path : Bytes) where
  -- The rest of a pattern matches from a position; nothing is said where nothing is left.
  abbrev pub Live : List PathSegment → ℕ → Type 0
  Live [] position = Unit
  Live (x ∷ rest) position =
      (params : List ParamSpan) × ((match_segments (x ∷ rest) path position params).0 ≡ true)

  pub match_path-Live :
      (segments : List PathSegment) → (match_path segments path).0 ≡ true → Live segments 1
  unfolding match_path
  match_path-Live [] h = tt
  match_path-Live (x ∷ rest) h = ([], ground arith)

  static_step :
      (text : Bytes) (x : PathSegment) (rest : List PathSegment) (position : ℕ)
      (params : List ParamSpan)
      → (match_segments (PathSegment.static text ∷ x ∷ rest) path position params).0 ≡ true
      → (ltb (length path) position ≡ false)
        × (bytes_eq (slice path position (segment_end path position)) text ≡ true)
        × ((match_segments (x ∷ rest) path (segment_end path position + 1) params).0 ≡ true)
  unfolding match_segments
  static_step text x rest position params h = ground arith

  static_last :
      (text : Bytes) (position : ℕ) (params : List ParamSpan)
      → (match_segments (PathSegment.static text ∷ []) path position params).0 ≡ true
      → (ltb (length path) position ≡ false)
        × (bytes_eq (slice path position (segment_end path position)) text ≡ true)
  unfolding match_segments
  static_last text position params h = ground arith

  pub Live-static :
      (text : Bytes) (rest : List PathSegment) (position : ℕ)
      → Live (PathSegment.static text ∷ rest) position
      → (ltb (length path) position ≡ false)
        × (slice path position (segment_end path position) ≡ text)
        × Live rest (segment_end path position + 1)
  Live-static text [] position (params, h) =
      let (a, b) = static_last text position params h in
      (a, (bytes_eq_iff (slice path position (segment_end path position)) text).0 b, tt)
  Live-static text (x ∷ rest) position (params, h) =
      let (a, b, c) = static_step text x rest position params h in
      (a, (bytes_eq_iff (slice path position (segment_end path position)) text).0 b, (params, c))

  parameter_step :
      (name : Bytes) (x : PathSegment) (rest : List PathSegment) (position : ℕ)
      (params : List ParamSpan)
      → (match_segments (PathSegment.parameter name ∷ x ∷ rest) path position params).0 ≡ true
      → (ltb (length path) position ≡ false)
        × ((segment_end path position == position) ≡ false)
        × ((match_segments
              (x ∷ rest)
              path
              (segment_end path position + 1)
              (params ++ span name position (segment_end path position) ∷ [])).0
            ≡ true)
  unfolding match_segments
  parameter_step name x rest position params h = ground arith

  parameter_last :
      (name : Bytes) (position : ℕ) (params : List ParamSpan)
      → (match_segments (PathSegment.parameter name ∷ []) path position params).0 ≡ true
      → (ltb (length path) position ≡ false) × ((segment_end path position == position) ≡ false)
  unfolding match_segments
  parameter_last name position params h = ground arith

  pub Live-parameter :
      (name : Bytes) (rest : List PathSegment) (position : ℕ)
      → Live (PathSegment.parameter name ∷ rest) position
      → (ltb (length path) position ≡ false)
        × (ltb position (segment_end path position) ≡ true)
        × Live rest (segment_end path position + 1)
  Live-parameter name [] position (params, h) =
      let (a, b) = parameter_last name position params h in
      (a, ground (arith, position-le-segment_end path position), tt)
  Live-parameter name (x ∷ rest) position (params, h) =
      let (a, b, c) = parameter_step name x rest position params h in
      (
        a,
        ground (arith, position-le-segment_end path position),
        (params ++ span name position (segment_end path position) ∷ [], c),
      )
