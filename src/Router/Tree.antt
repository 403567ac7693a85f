-- ===== src/Router/Tree.antt =====
-- internal/router/router.go: the tree of path segments, and its bounds. A map from static segments
-- to children is an association list; an insertion into the tree is a function of the node.
pub mod Located
pub mod Bounds
pub mod Finalize
pub mod Every
use g_gateway.Base.{
  ℕ, Option, none, some, List, [], ◌∷◌, ◌++◌, if◌then◌else◌, Bytes, bytes_eq, length,
}
use g_gateway.Base.Int.{ℤ}
use g_gateway.Base.Order.{sort_by}
use g_gateway.Router.Pattern.{PathSegment, CompiledPathPattern}
use g_gateway.Router.Predicate.{MethodSet, CompiledPredicate}
use g_gateway.Router.Precedence.{PrecedenceKey, compare_precedence, is_higher}

pub record Candidate : Type 0 where
  pub route_index : ℤ
  pub route_id : Bytes
  pub priority : ℤ
  pub host_rank : ℕ
  pub path : CompiledPathPattern
  pub methods : MethodSet
  pub predicates : List CompiledPredicate
  pub key : PrecedenceKey

-- A node holds its static children, its parameter child, the candidates that end in it, those with
-- a prefix and with a catch-all segment in it, and the upper bound of the keys below it.
mutual
  pub data PathNode : Type 0 where
    node :
        Children
        → MaybeNode
        → List Candidate
        → List Candidate
        → List Candidate
        → Option PrecedenceKey
        → PathNode

  pub data Children : Type 0 where
    no_children : Children
    child : Bytes → PathNode → Children → Children

  pub data MaybeNode : Type 0 where
    absent : MaybeNode
    present : PathNode → MaybeNode

abbrev pub empty_node : PathNode
empty_node = node no_children absent [] [] [] none

abbrev pub upper_of : PathNode → Option PrecedenceKey
upper_of (node s p t f c upper) = upper

-- The child of a static segment, made where there is none, and the map with it replaced.
abbrev pub child_or_empty : Children → Bytes → PathNode
child_or_empty no_children text = empty_node
child_or_empty (child key n rest) text = if bytes_eq key text then n else child_or_empty rest text

abbrev pub set_child : Children → Bytes → PathNode → Children
set_child no_children text new = child text new no_children
set_child (child key n rest) text new =
    if bytes_eq key text then child key new rest else child key n (set_child rest text new)

abbrev pub node_or_empty : MaybeNode → PathNode
node_or_empty absent = empty_node
node_or_empty (present n) = n

unfoldable pub insert_candidate : List PathSegment → Candidate → PathNode → PathNode
insert_candidate [] value (node s p t f c u) = node s p (t ++ value ∷ []) f c u
insert_candidate (PathSegment.prefix ∷ rest) value (node s p t f c u) =
    node s p t (f ++ value ∷ []) c u
insert_candidate (PathSegment.catch_all name ∷ rest) value (node s p t f c u) =
    node s p t f (c ++ value ∷ []) u
insert_candidate (PathSegment.parameter name ∷ rest) value (node s p t f c u) =
    node s (present (insert_candidate rest value (node_or_empty p))) t f c u
insert_candidate (PathSegment.static text ∷ rest) value (node s p t f c u) =
    node (set_child s text (insert_candidate rest value (child_or_empty s text))) p t f c u

unfoldable pub sort_candidates : List Candidate → List Candidate
sort_candidates values =
    sort_by (λ (l : Candidate) (r : Candidate). is_higher (compare_precedence l.key r.key)) values

-- The bound after one more key.
unfoldable pub include_upper : Option PrecedenceKey → PrecedenceKey → Option PrecedenceKey
include_upper none key = some key
include_upper (some upper) key =
    if is_higher (compare_precedence key upper) then some key else some upper

abbrev pub include_bound : Option PrecedenceKey → Option PrecedenceKey → Option PrecedenceKey
include_bound upper none = upper
include_bound upper (some key) = include_upper upper key

abbrev pub include_all : Option PrecedenceKey → List Candidate → Option PrecedenceKey
include_all upper [] = upper
include_all upper (value ∷ values) = include_all (include_upper upper value.key) values

abbrev pub include_maybe : Option PrecedenceKey → MaybeNode → Option PrecedenceKey
include_maybe upper absent = upper
include_maybe upper (present n) = include_bound upper (upper_of n)

abbrev pub include_children : Option PrecedenceKey → Children → Option PrecedenceKey
include_children upper no_children = upper
include_children upper (child key n rest) = include_children (include_bound upper (upper_of n)) rest

-- A node is finalised once: its bound is absent before.
unfoldable mutual
  pub finalize_node : PathNode → PathNode
  finalize_node (node s p t f c u) =
      let s' = finalize_children s in
      let p' = finalize_maybe p in
      let t' = sort_candidates t in
      let f' = sort_candidates f in
      let c' = sort_candidates c in
      let lists = include_all (include_all (include_all u t') f') c' in
      node s' p' t' f' c' (include_children (include_maybe lists p') s')

  pub finalize_children : Children → Children
  finalize_children no_children = no_children
  finalize_children (child key n rest) = child key (finalize_node n) (finalize_children rest)

  pub finalize_maybe : MaybeNode → MaybeNode
  finalize_maybe absent = absent
  finalize_maybe (present n) = present (finalize_node n)

unfoldable pub make_precedence_key : Candidate → PrecedenceKey
make_precedence_key value = record {
  priority = value.priority;
  host_rank = value.host_rank;
  path_kind = value.path.specificity.kind_rank;
  static_segments = value.path.specificity.static_segments;
  pattern_bytes = value.path.specificity.pattern_bytes;
  predicate_count = length value.predicates;
  route_id = value.route_id;
}
