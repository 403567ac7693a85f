-- ===== src/Upstream/Fingerprint/Codes.antt =====
-- The digests' input can be read back: values that write the same bytes are the same.
use g_gateway.Base.{
  ℕ, zero, suc, ◌/◌, ◌%◌, ◌≡◌, refl, sym, ap, ap₂, ◌∙◌, true, false, List, [], ◌∷◌, ◌++◌, Bytes,
  length, arith, append_assoc,
}
use g_gateway.Model.{RetryBudgetPolicy}
use g_gateway.Upstream.Fingerprint.{
  big_endian, write_bool, write_transport_key, TransportKey, write_string, write_each,
  write_statuses, budget_bytes,
}

-- The number fits in that many bytes.
abbrev pub Fits : ℕ → ℕ → Type 0
Fits zero value = value ≡ 0
Fits (suc n) value = Fits n (value / 256)

-- Values that write the same bytes, whatever follows, are the same, and so is what follows.
abbrev pub Decodes : {A : Type 0} → (A → Bytes) → (A → Type 0) → Type 0
Decodes {A} write Ok =
    (a b : A) (s t : Bytes) → Ok a → Ok b → write a ++ s ≡ write b ++ t → (a ≡ b) × (s ≡ t)

cons-injective : (x y : ℕ) (xs ys : Bytes) → x ∷ xs ≡ y ∷ ys → (x ≡ y) × (xs ≡ ys)
cons-injective x y xs ys e = (ground (arith, e), cc)

pub big_endian-Decodes : (n : ℕ) → Decodes (big_endian n) (Fits n)
unfolding big_endian
big_endian-Decodes zero a b s t p q e = (p ∙ sym q, e)
big_endian-Decodes (suc n) a b s t p q e =
    let (h, k) = big_endian-Decodes n (a / 256) (b / 256) (a % 256 ∷ s) (b % 256 ∷ t) p q (
      sym (append_assoc (big_endian n (a / 256)) (a % 256 ∷ []) s)
      ∙ e
      ∙ append_assoc (big_endian n (b / 256)) (b % 256 ∷ []) t) in
    let (x, y) = cons-injective (a % 256) (b % 256) s t k in (omega (arith, h, x), y)

append_left : (xs ys s t : Bytes) → length xs ≡ length ys → xs ++ s ≡ ys ++ t → (xs ≡ ys) × (s ≡ t)
append_left [] [] s t n e = (refl, e)
append_left [] (y ∷ ys) s t n e = absurd (omega (arith, n))
append_left (x ∷ xs) [] s t n e = absurd (omega (arith, n))
append_left (x ∷ xs) (y ∷ ys) s t n e =
    let (h, k) = cons-injective x y (xs ++ s) (ys ++ t) e in
    let (l, m) = append_left xs ys s t (omega (arith, n)) k in (ap₂ (λ a rest. a ∷ rest) h l, m)

-- The first of two parts.
pub peel :
    {A : Type 0} (write : A → Bytes) (Ok : A → Type 0)
    → Decodes write Ok
    → (a b : A) (r q s t : Bytes) → Ok a
    → Ok b
    → (write a ++ r) ++ s ≡ (write b ++ q) ++ t
    → (a ≡ b) × (r ++ s ≡ q ++ t)
peel write Ok d a b r q s t p p' e =
    d a b (r ++ s) (q ++ t) p p' (sym (append_assoc (write a) r s) ∙ e ∙ append_assoc (write b) q t)

abbrev pub FitsText : Bytes → Type 0
FitsText s = Fits 8 (length s)

pub write_string-Decodes : Decodes write_string FitsText
write_string-Decodes a b s t p q e =
    let (n, k) =
      peel (big_endian 8) (Fits 8) (big_endian-Decodes 8) (length a) (length b) a b s t p q e in
    append_left a b s t n k

abbrev pub AllFit : List ℕ → Type 0
AllFit [] = Unit
AllFit (x ∷ xs) = Fits 2 x × AllFit xs

write_each-Decodes :
    (xs ys : List ℕ) (s t : Bytes)
    → length xs ≡ length ys
    → AllFit xs
    → AllFit ys
    → write_each xs ++ s ≡ write_each ys ++ t
    → (xs ≡ ys) × (s ≡ t)
write_each-Decodes [] [] s t n p q e = (refl, e)
write_each-Decodes [] (y ∷ ys) s t n p q e = absurd (omega (arith, n))
write_each-Decodes (x ∷ xs) [] s t n p q e = absurd (omega (arith, n))
write_each-Decodes (x ∷ xs) (y ∷ ys) s t n p q e =
    let (h, k) =
      peel (big_endian 2) (Fits 2) (big_endian-Decodes 2) x y (write_each xs) (write_each ys) s t
        p.0 q.0 e in
    let (l, m) = write_each-Decodes xs ys s t (omega (arith, n)) p.1 q.1 k in
    (ap₂ (λ a rest. a ∷ rest) h l, m)

abbrev pub FitStatuses : List ℕ → Type 0
FitStatuses xs = Fits 8 (length xs) × AllFit xs

pub write_statuses-Decodes : Decodes write_statuses FitStatuses
write_statuses-Decodes a b s t p q e =
    let (n, k) =
      peel (big_endian 8) (Fits 8) (big_endian-Decodes 8) (length a) (length b) (write_each a)
        (write_each b) s t p.0 q.0 e in
    write_each-Decodes a b s t n p.1 q.1 k

pub write_bool-Decodes : Decodes write_bool (λ _. Unit)
write_bool-Decodes true true s t p q e = (refl, (big_endian-Decodes 1 1 1 s t refl refl e).1)
write_bool-Decodes false false s t p q e = (refl, (big_endian-Decodes 1 0 0 s t refl refl e).1)
write_bool-Decodes true false s t p q e =
    absurd (omega (arith, (big_endian-Decodes 1 1 0 s t refl refl e).0))
write_bool-Decodes false true s t p q e =
    absurd (omega (arith, (big_endian-Decodes 1 0 1 s t refl refl e).0))

-- A text that is written before what follows.
text_right :
    (a b s t : Bytes)
    → FitsText a
    → FitsText b
    → big_endian 8 (length a) ++ (a ++ s) ≡ big_endian 8 (length b) ++ (b ++ t)
    → (a ≡ b) × (s ≡ t)
text_right a b s t p q e =
    let (n, k) = big_endian-Decodes 8 (length a) (length b) (a ++ s) (b ++ t) p q e in
    append_left a b s t n k

abbrev FitsDigest : Bytes → Type 0
FitsDigest s = length s ≡ 32

digest-Decodes : Decodes (λ s. s) FitsDigest
digest-Decodes a b s t p q e = append_left a b s t (p ∙ sym q) e

-- A key whose texts have lengths in 64 bits, whose numbers fit in the words they are written in, and
-- whose digests are of 32 bytes.
pub record FitsKey (k : TransportKey) : Type 0 where
  pub scheme : FitsText k.scheme
  pub server_name : FitsText k.server_name
  pub protocol : FitsText k.protocol
  pub dial_timeout : Fits 8 k.dial_timeout
  pub response_header_timeout : Fits 8 k.response_header_timeout
  pub idle_connection_timeout : Fits 8 k.idle_connection_timeout
  pub max_idle_connections : Fits 8 k.max_idle_connections
  pub max_idle_connections_per_host : Fits 8 k.max_idle_connections_per_host
  pub tls_policy_version : Fits 1 k.tls_policy_version
  pub trust_fingerprint : FitsDigest k.trust_fingerprint
  pub client_fingerprint : FitsDigest k.client_fingerprint
  pub min_tls_version : Fits 2 k.min_tls_version

-- Two transport keys that write the same bytes to a digest are the same key, where the lengths of
-- their texts and their numbers fit in the words they are written in, and their digests are of 32
-- bytes.
pub write_transport_key-injective :
    (k l : TransportKey)
    → FitsKey k
    → FitsKey l
    → write_transport_key k ≡ write_transport_key l
    → k ≡ l
unfolding write_transport_key
write_transport_key-injective k l u v e =
    let e' = simp append_assoc at (ap (λ x. x ++ []) e) in
    let (e1, h1) = text_right k.scheme l.scheme _ _ u.scheme v.scheme e' in
    let (e2, h2) = text_right k.server_name l.server_name _ _ u.server_name v.server_name h1 in
    let (e3, h3) = text_right k.protocol l.protocol _ _ u.protocol v.protocol h2 in
    let (e4, h4) =
      big_endian-Decodes 8 k.dial_timeout l.dial_timeout _ _ u.dial_timeout v.dial_timeout h3 in
    let (e5, h5) =
      big_endian-Decodes 8 k.response_header_timeout l.response_header_timeout _ _
        u.response_header_timeout v.response_header_timeout h4 in
    let (e6, h6) =
      big_endian-Decodes 8 k.idle_connection_timeout l.idle_connection_timeout _ _
        u.idle_connection_timeout v.idle_connection_timeout h5 in
    let (e7, h7) =
      big_endian-Decodes 8 k.max_idle_connections l.max_idle_connections _ _ u.max_idle_connections
        v.max_idle_connections h6 in
    let (e8, h8) =
      big_endian-Decodes 8 k.max_idle_connections_per_host l.max_idle_connections_per_host _ _
        u.max_idle_connections_per_host v.max_idle_connections_per_host h7 in
    let (e9, h9) = write_bool-Decodes k.tls_enabled l.tls_enabled _ _ tt tt h8 in
    let (e10, h10) =
      big_endian-Decodes 1 k.tls_policy_version l.tls_policy_version _ _ u.tls_policy_version
        v.tls_policy_version h9 in
    let (e11, h11) = write_bool-Decodes k.trust_system l.trust_system _ _ tt tt h10 in
    let (e12, h12) =
      digest-Decodes k.trust_fingerprint l.trust_fingerprint _ _ u.trust_fingerprint
        v.trust_fingerprint h11 in
    let (e13, h13) =
      digest-Decodes k.client_fingerprint l.client_fingerprint _ _ u.client_fingerprint
        v.client_fingerprint h12 in
    let (e14, h14) =
      big_endian-Decodes 2 k.min_tls_version l.min_tls_version _ _ u.min_tls_version
        v.min_tls_version h13 in
    let (e15, h15) = write_bool-Decodes k.disable_compression l.disable_compression _ _ tt tt h14 in
    cc

abbrev pub FitsBudget : RetryBudgetPolicy → Type 0
FitsBudget p = Fits 2 p.ratio_per1000 × Fits 2 p.burst × Fits 2 p.max_inflight

-- Two budget policies of 16-bit words that write the same bytes to a digest are the same policy.
pub budget_bytes-injective :
    (p q : RetryBudgetPolicy)
    → FitsBudget p
    → FitsBudget q
    → budget_bytes p ≡ budget_bytes q
    → p ≡ q
unfolding budget_bytes
budget_bytes-injective p q u v e =
    let e' = simp append_assoc at (ap (λ x. x ++ []) e) in
    let (e1, h1) = big_endian-Decodes 2 p.ratio_per1000 q.ratio_per1000 _ _ u.0 v.0 e' in
    let (e2, h2) = big_endian-Decodes 2 p.burst q.burst _ _ u.1 v.1 h1 in
    let (e3, _) = big_endian-Decodes 2 p.max_inflight q.max_inflight _ _ u.2 v.2 h2 in cc
