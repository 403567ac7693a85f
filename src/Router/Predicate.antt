-- ===== src/Router/Predicate.antt =====
-- internal/router/predicate.go and query.go. A map is an association list in the order of an
-- iteration over it; an error is `none`.
use Prim.Native.Nat.{bit_and, bit_or}
use g_gateway.Base.{
  ℕ, suc, ◌*◌, Bool, true, false, not, ◌&&◌, ◌||◌, Option, none, some, List, [], ◌∷◌, ◌++◌, map,
  ltb, ◌==◌, if◌then◌else◌, any, all, filterb, take, drop, length, Bytes, bytes, bytes_eq, bytes_lt,
  index_byte, split, contains_bytes, upper,
}
use g_gateway.Base.Order.{sort_by}
use g_gateway.Model.{Predicate, PredicateOperator}
use g_gateway.Router.Library.{Library}

pub data FieldKind : Type 0 where
  header query : FieldKind

pub record CompiledPredicate : Type 0 where
  pub kind : FieldKind
  pub name : Bytes
  pub operator : PredicateOperator
  pub values : List Bytes

abbrev pub Fields : Type 0
Fields = List (Bytes × List Bytes)

abbrev pub lookup_field : Fields → Bytes → Option (List Bytes)
lookup_field [] name = none
lookup_field ((k, vs) ∷ fields) name = if bytes_eq k name then some vs else lookup_field fields name

-- `query[key] = append(query[key], value)`.
abbrev pub append_field : Fields → Bytes → Bytes → Fields
append_field [] key value = (key, value ∷ []) ∷ []
append_field ((k, vs) ∷ fields) key value =
    if bytes_eq k key
    then (k, vs ++ value ∷ []) ∷ fields
    else (k, vs) ∷ append_field fields key value

abbrev count_ok : PredicateOperator → ℕ → Bool
count_ok PredicateOperator.exists n = n == 0
count_ok PredicateOperator.not_exists n = n == 0
count_ok PredicateOperator.equals n = n == 1
count_ok PredicateOperator.not_equals n = n == 1
count_ok PredicateOperator.one_of n = not (n == 0)
count_ok (PredicateOperator.other s) n = false

module _ (lib : Library) where
  abbrev field_name : FieldKind → Bytes → Option Bytes
  field_name header name =
      if length (lib.canonical_header name) == 0 then none else some (lib.canonical_header name)
  field_name query name = some name

  unfoldable pub compile_predicate : FieldKind → Predicate → Option CompiledPredicate
  compile_predicate kind p =
      if length (lib.trim_space p.name) == 0
      then none
      else if count_ok p.operator (length p.values)
      then (elim (field_name kind p.name) [
        | none ↦ none
        | some name ↦
            some (record { kind = kind; name = name; operator = p.operator; values = p.values })
      ])
      else none

  unfoldable pub compile_all : FieldKind → List Predicate → Option (List CompiledPredicate)
  unfolding compile_predicate
  compile_all kind [] = some []
  compile_all kind (p ∷ ps) =
      let rest = compile_all kind ps in
      elim (compile_predicate kind p) [
        | none ↦ none
        | some c ↦ elim rest [ none ↦ none | some cs ↦ some (c ∷ cs) ]
      ]

  unfoldable pub compile_predicates :
      List Predicate → List Predicate → Option (List CompiledPredicate)
  unfolding compile_all
  compile_predicates headers queries = elim (compile_all header headers) [
    | none ↦ none
    | some hs ↦ elim (compile_all query queries) [ none ↦ none | some qs ↦ some (hs ++ qs) ]
  ]

  -- The loop of scanRawQuery over the pairs.
  unfoldable pub scan_pairs : List Bytes → Fields → Option Fields
  scan_pairs [] fields = some fields
  scan_pairs (pair ∷ pairs) fields =
      let (key_raw, value_raw) : Bytes × Bytes = elim (index_byte pair b'=') [
        | none ↦ (pair, [])
        | some i ↦ (take i pair, drop (suc i) pair)
      ] in
      if length pair == 0 then scan_pairs pairs fields else (elim (lib.query_unescape key_raw) [
        | none ↦ none
        | some key ↦ elim (lib.query_unescape value_raw) [
          | none ↦ none
          | some value ↦ scan_pairs pairs (append_field fields key value)
        ]
      ])

  unfoldable pub scan_raw_query : Bytes → Option Fields
  unfolding scan_pairs
  scan_raw_query raw = if length raw == 0 then some [] else scan_pairs (split raw b'&') []

  -- The loop of headerValues over the other spellings of the name.
  unfoldable pub fold_headers : Fields → Bytes → Option (List Bytes) → Option (List Bytes)
  fold_headers [] name found = found
  fold_headers ((key, candidate) ∷ fields) name found = fold_headers fields name (
      if bytes_eq key name || not (lib.equal_fold key name)
      then found
      else (elim found [ none ↦ some candidate | some values ↦ some (values ++ candidate) ]))

  unfoldable pub header_values : Fields → Bytes → Option (List Bytes)
  unfolding fold_headers
  header_values headers name = fold_headers headers name (lookup_field headers name)

  unfoldable pub any_value_matches : List Bytes → List Bytes → Bool
  any_value_matches values expected = any (contains_bytes expected) values

  abbrev is_present : Option (List Bytes) → Bool
  is_present none = false
  is_present (some values) = true

  abbrev values_match : Option (List Bytes) → List Bytes → Bool
  values_match none expected = false
  values_match (some values) expected = any_value_matches values expected

  unfoldable pub holds : PredicateOperator → Option (List Bytes) → List Bytes → Bool
  unfolding any_value_matches
  holds PredicateOperator.exists found expected = is_present found
  holds PredicateOperator.not_exists found expected = not (is_present found)
  holds PredicateOperator.equals found expected = values_match found expected
  holds PredicateOperator.one_of found expected = values_match found expected
  holds PredicateOperator.not_equals found expected =
      is_present found && not (values_match found expected)
  holds (PredicateOperator.other s) found expected = false

  -- The method evaluate, with the query scanned when a query predicate first asks for it: the scan
  -- of one request is always the same.
  unfoldable pub evaluate : List CompiledPredicate → Fields → Bytes → Option Bool
  unfolding header_values scan_raw_query holds
  evaluate [] headers raw_query = some true
  evaluate (p ∷ ps) headers raw_query =
      let rest = evaluate ps headers raw_query in
      elim p.kind [
        | header ↦
            if holds p.operator (header_values headers p.name) p.values then rest else some false
        | query ↦ elim (scan_raw_query raw_query) [
          | none ↦ none
          | some fields ↦
              if holds p.operator (lookup_field fields p.name) p.values then rest else some false
        ]
      ]

-- The method sets: a bit for each standard method, and a set of others.
pub record MethodSet : Type 0 where
  pub standard : ℕ
  pub custom : List Bytes

abbrev pub standard_methods : List Bytes
standard_methods =
    bytes "CONNECT"
    ∷ bytes "DELETE"
    ∷ bytes "GET"
    ∷ bytes "HEAD"
    ∷ bytes "OPTIONS"
    ∷ bytes "PATCH"
    ∷ bytes "POST"
    ∷ bytes "PUT"
    ∷ bytes "TRACE"
    ∷ []

abbrev bit_from : ℕ → List Bytes → Bytes → Option ℕ
bit_from bit [] method = none
bit_from bit (m ∷ ms) method = if bytes_eq m method then some bit else bit_from (2 * bit) ms method

unfoldable pub standard_method_bit : Bytes → Option ℕ
standard_method_bit method = bit_from 1 standard_methods method

abbrev separator : ℕ → Bool
separator c = any (λ d. d == c) (bytes "()<>@,;:\\\"/[]?={} \t")

-- A byte of a rune above ASCII is above 127.
unfoldable pub valid_http_token : Bytes → Bool
valid_http_token value =
    not (length value == 0)
    && all (λ c. not (ltb 127 c || ltb c 32 || c == 127 || separator c)) value

-- The loop of compileMethods.
unfoldable pub add_methods : List Bytes → List Bytes → MethodSet → Option MethodSet
unfolding valid_http_token standard_method_bit
add_methods [] seen set = some set
add_methods (configured ∷ rest) seen set =
    let method = map upper configured in
    if not (valid_http_token configured) || contains_bytes seen method
    then none
    else add_methods rest (method ∷ seen) (elim (standard_method_bit method) [
      | some bit ↦ record set { standard = bit_or set.standard bit }
      | none ↦ record set { custom = method ∷ set.custom }
    ])

unfoldable pub compile_methods : List Bytes → Option MethodSet
unfolding add_methods
compile_methods [] = none
compile_methods (m ∷ ms) = add_methods (m ∷ ms) [] (record { standard = 0; custom = [] })

-- The method contains of methodSet.
unfoldable pub has_method : MethodSet → Bytes → Bool
unfolding standard_method_bit
has_method set method = elim (standard_method_bit method) [
  | some bit ↦ not (bit_and set.standard bit == 0)
  | none ↦ contains_bytes set.custom method
]

unfoldable pub sorted_values : MethodSet → List Bytes
unfolding has_method sort_by
sorted_values set = sort_by bytes_lt (filterb (has_method set) standard_methods ++ set.custom)
