-- ===== src/Upstream/HashKey.antt =====
-- internal/upstream/hashkey.go: the hash key of a request. The digest is modelled by the bytes
-- written to it, and the sum by a parameter; a reset starts an empty sequence of bytes.
use g_gateway.Base.{
  ℕ, zero, suc, ◌+◌, ◌-◌, ◌/◌, ◌%◌, Bool, true, false, ◌&&◌, ◌||◌, Option, none, some, List, [],
  ◌∷◌, ◌++◌, ltb, leb, ◌==◌, if◌then◌else◌, any, take, drop, length, Bytes, bytes, bytes_eq,
  has_prefix, ends_with, index_byte, split,
}

-- compiledHashSource, by the kind of its source.
pub data HashSource : Type 0 where
  header cookie literal : Bytes → HashSource
  remote_addr : HashSource
  other : Bytes → HashSource

-- What the extractor reads of a request: it may be nil.
pub record HashRequest : Type 0 where
  pub header : Bytes → List Bytes
  pub remote_addr : Bytes

-- strings.TrimSpace, net.SplitHostPort, and netip.ParseAddr with Unmap and AppendTo: the host's
-- normal form.
pub record Net : Type 0 where
  pub trim_space : Bytes → Bytes
  pub split_host : Bytes → Option Bytes
  pub normalize_addr : Bytes → Option Bytes

-- binary.PutUvarint: ten bytes hold any 64-bit word.
pub uvarint : ℕ → ℕ → Bytes
uvarint zero value = []
uvarint (suc fuel) value =
    let rest = uvarint fuel (value / 128) in
    if ltb value 128 then value ∷ [] else (value % 128 + 128) ∷ rest

unfoldable pub uvarint_bytes : ℕ → Bytes
uvarint_bytes value = uvarint 10 value

-- writeHashString, and writeHashBytes.
unfoldable pub string_bytes : Bytes → Bytes
string_bytes value = uvarint_bytes (length value) ++ value

abbrev pub missing_component : Bytes
missing_component = 0 ∷ uvarint_bytes 0

pub hash_source_tag : HashSource → ℕ
hash_source_tag (header name) = 1
hash_source_tag (cookie name) = 2
hash_source_tag remote_addr = 3
hash_source_tag (literal value) = 4
hash_source_tag (other kind) = 0

abbrev bad_cookie_byte : ℕ → Bool
bad_cookie_byte c = ltb c 32 || leb 127 c || c == b'"' || c == b';' || c == b'\\'

pub valid_cookie_value : Bytes → Option Bytes
valid_cookie_value raw =
    let value =
      if leb 2 (length raw) && has_prefix raw (b'"' ∷ []) && ends_with raw b'"'
      then take (length raw - 2) (drop 1 raw)
      else raw in
    if any bad_cookie_byte value then none else some value

module _ (net : Net) where
  -- The value of one segment of a cookie header, if the segment names the target.
  pub segment_value : Bytes → Bytes → Option Bytes
  segment_value raw target =
      let segment = net.trim_space raw in
      elim (index_byte segment b'=') [
        | none ↦ none
        | some zero ↦ none
        | some (suc i) ↦
            if bytes_eq (take (suc i) segment) target
            then valid_cookie_value (drop (i + 2) segment)
            else none
      ]

  -- The inner loop over the segments of one header, each ended by a semicolon or the end. It ends
  -- where nothing remains, since an empty segment names nothing.
  pub first_segment : List Bytes → Bytes → Option Bytes
  first_segment [] target = none
  first_segment (segment ∷ rest) target =
      let later = first_segment rest target in
      elim (segment_value segment target) [ none ↦ later | some value ↦ some value ]

  pub first_valid_cookie : List Bytes → Bytes → Option Bytes
  first_valid_cookie [] target = none
  first_valid_cookie (line ∷ lines) target =
      let later = first_valid_cookie lines target in
      elim (first_segment (split line b';') target) [ none ↦ later | some value ↦ some value ]

  pub remote_addr_bytes : Bytes → Bytes
  remote_addr_bytes address =
      let host : Bytes = elim (net.split_host address) [ none ↦ address | some host ↦ host ] in
      elim (net.normalize_addr host) [
        | none ↦ string_bytes address
        | some normalized ↦ string_bytes normalized
      ]

  abbrev pub all_strings : List Bytes → Bytes
  all_strings [] = []
  all_strings (v ∷ vs) = string_bytes v ++ all_strings vs

  abbrev pub present_component : List Bytes → Bytes
  present_component values = 1 ∷ uvarint_bytes (length values) ++ all_strings values

  -- What one turn of the loop writes after the tag: `none` is the missing component.
  pub component : HashSource → Option HashRequest → Option Bytes
  component (literal value) request = some (present_component (value ∷ []))
  component (header name) none = none
  component (header name) (some request) = elim (request.header name) [
    | [] ↦ none
    | v ∷ vs ↦ some (present_component (v ∷ vs))
  ]
  component (cookie name) none = none
  component (cookie name) (some request) =
      elim (first_valid_cookie (request.header (bytes "Cookie")) name) [
        | none ↦ none
        | some value ↦ some (present_component (value ∷ []))
      ]
  component remote_addr none = none
  component remote_addr (some request) =
      if bytes_eq request.remote_addr []
      then none
      else some (1 ∷ uvarint_bytes 1 ++ remote_addr_bytes request.remote_addr)
  -- The switch has no case for another kind: nothing is written after its tag.
  component (other kind) request = none

  abbrev component_bytes : HashSource → Option Bytes → Bytes
  component_bytes source (some written) = written
  component_bytes (other kind) none = []
  component_bytes (header name) none = missing_component
  component_bytes (cookie name) none = missing_component
  component_bytes (literal value) none = missing_component
  component_bytes remote_addr none = missing_component

  -- The loop over the sources: what is written, and whether any is present.
  pub write_sources : List HashSource → Option HashRequest → Bytes × Bool
  write_sources [] request = ([], false)
  write_sources (source ∷ sources) request =
      let (written, present) = write_sources sources request in
      let own = component source request in
      (
        hash_source_tag source ∷ component_bytes source own ++ written,
        elim own [ none ↦ present | some b ↦ true ],
      )

  abbrev request_addr : Option HashRequest → Bytes
  request_addr none = string_bytes []
  request_addr (some request) = remote_addr_bytes request.remote_addr

  -- The bytes that are summed, and whether the fallback is used.
  pub key_bytes : List HashSource → Option HashRequest → Bytes × Bool
  key_bytes sources request =
      let (written, present) = write_sources sources request in
      if present then (uvarint_bytes (length sources) ++ written, false) else (
        uvarint_bytes 1
            ++ hash_source_tag remote_addr ∷ 1 ∷ uvarint_bytes 1
            ++ request_addr request,
        true,
      )

  pub sum64 : (Bytes → ℕ) → List HashSource → Option HashRequest → ℕ × Bool
  sum64 xxhash sources request =
      let (written, fallback) = key_bytes sources request in (xxhash written, fallback)
