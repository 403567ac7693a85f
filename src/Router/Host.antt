-- ===== src/Router/Host.antt =====
-- internal/router/pattern.go, host patterns. An error is `none`.
pub mod Lookup
use g_gateway.Base.{
  ℕ, ◌+◌, ◌-◌, Bool, true, false, not, ◌&&◌, ◌||◌, Option, none, some, [], ◌∷◌, ltb, leb, ◌==◌,
  if◌then◌else◌, any, all, take, drop, length, get_or, Bytes, bytes, bytes_eq, has_prefix,
  ends_with, split, count,
}
use g_gateway.Base.Int.{ℤ, pos, negsuc}
use g_gateway.Router.Library.{Library}

pub data HostPatternKind : Type 0 where
  exact wildcard : HostPatternKind

pub record HostSpecificity : Type 0 where
  pub kind_rank : ℕ
  pub labels : ℕ

pub record CompiledHostPattern : Type 0 where
  pub raw : Bytes
  pub kind : HostPatternKind
  pub value : Bytes
  pub specificity : HostSpecificity

abbrev is_alphanumeric : ℕ → Bool
is_alphanumeric c =
    (leb b'a' c && leb c b'z') || (leb b'A' c && leb c b'Z') || (leb b'0' c && leb c b'9')

-- The bytes of a label behind the first: inner ones may be dashes, the last one may not.
abbrev label_tail : Bytes → Bool
label_tail [] = true
label_tail (c ∷ []) = is_alphanumeric c
label_tail (c ∷ d ∷ s) = (is_alphanumeric c || c == b'-') && label_tail (d ∷ s)

abbrev valid_label : Bytes → Bool
valid_label [] = false
valid_label (c ∷ s) = leb (length (c ∷ s)) 63 && is_alphanumeric c && label_tail s

unfoldable pub valid_dns_name : Bytes → Bool
valid_dns_name host =
    not (length host == 0) && not (ltb 253 (length host)) && all valid_label (split host b'.')

abbrev in_port_range : Option ℤ → Bool
in_port_range none = false
in_port_range (some (pos n)) = leb n 65535
in_port_range (some (negsuc n)) = false

module _ (lib : Library) where
  -- The host of an authority, with the port and the brackets taken off.
  unfoldable pub split_authority : Bytes → Option Bytes
  split_authority authority =
      let bracketed = has_prefix authority (bytes "[") in
      let colons = count b':' authority in
      if ltb 1 colons && not bracketed
      then (if lib.parse_addr authority then some authority else none)
      else if bracketed || colons == 1
      then (elim (lib.split_host_port authority) [
        | none ↦ none
        | some (host, port) ↦
            if bracketed && not (lib.parse_addr host)
            then none
            else if in_port_range (lib.atoi port)
            then some host
            else none
      ])
      else some authority

  -- One trailing dot is cut; nothing may be left empty or end in another.
  unfoldable pub trim_dot : Bytes → Option Bytes
  trim_dot host =
      let cut = if ends_with host b'.' then take (length host - 1) host else host in
      if length cut == 0 || ends_with cut b'.' then none else some cut

  unfoldable pub normalize_request_host : Bytes → Option Bytes
  unfolding split_authority trim_dot
  normalize_request_host authority =
      if length authority == 0 || not (bytes_eq (lib.trim_space authority) authority)
      then none
      else (elim (split_authority authority) [
        | none ↦ none
        | some host ↦ trim_dot (lib.to_lower host)
      ])

  unfoldable pub compile_host_pattern : Bytes → Option CompiledHostPattern
  unfolding normalize_request_host valid_dns_name
  compile_host_pattern pattern =
      if has_prefix pattern (bytes "*.")
      then (elim (normalize_request_host (drop 2 pattern)) [
        | none ↦ none
        | some suffix ↦
            if not (valid_dns_name suffix) || ltb (count b'.' suffix) 1
            then none
            else some (record {
              raw = pattern;
              kind = wildcard;
              value = suffix;
              specificity = record { kind_rank = 1; labels = count b'.' suffix + 1 };
            })
      ])
      else (elim (normalize_request_host pattern) [
        | none ↦ none
        | some host ↦
            if not (valid_dns_name host)
            then none
            else some (record {
              raw = pattern;
              kind = exact;
              value = host;
              specificity = record { kind_rank = 2; labels = count b'.' host + 1 };
            })
      ])

-- The method match of compiledHostPattern.
unfoldable pub match_host : CompiledHostPattern → Bytes → Bool
match_host p host = elim p.kind [
  | exact ↦ bytes_eq host p.value
  | wildcard ↦
      let start = length host - length p.value in
      if leb start 1
        || not (bytes_eq (drop start host) p.value)
        || not (get_or host (start - 1) 0 == b'.')
      then false
      else not (any (λ c. c == b'.') (take (start - 1) host))
]
