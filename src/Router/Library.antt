-- ===== src/Router/Library.antt =====
-- What internal/router calls of the Go library beyond byte operations, as a parameter of the model:
-- each field stands for the function that its comment names.
use g_gateway.Base.{Bool, Option, Bytes}
use g_gateway.Base.Int.{ℤ}

pub record Library : Type 0 where
  -- strings.TrimSpace
  pub trim_space : Bytes → Bytes
  -- strings.ToLower
  pub to_lower : Bytes → Bytes
  -- netip.ParseAddr: whether it succeeds
  pub parse_addr : Bytes → Bool
  -- net.SplitHostPort: the host and the port
  pub split_host_port : Bytes → Option (Bytes × Bytes)
  -- strconv.Atoi
  pub atoi : Bytes → Option ℤ
  -- textproto.CanonicalMIMEHeaderKey
  pub canonical_header : Bytes → Bytes
  -- strings.EqualFold
  pub equal_fold : Bytes → Bytes → Bool
  -- url.QueryUnescape
  pub query_unescape : Bytes → Option Bytes
