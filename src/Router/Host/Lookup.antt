-- ===== src/Router/Host/Lookup.antt =====
-- Which hosts a host pattern matches, and where the routes of its host are looked up.
use g_gateway.Base.{
  ℕ, zero, suc, ◌+◌, ◌-◌, ◌<◌, ◌≡◌, refl, sym, ap, ◌∙◌, subst, inl, inr, Bool, true, false, not,
  ◌&&◌, some, [], ◌∷◌, Bytes, bytes_eq, bytes_eq_iff, index_byte, drop, take, get_or, any, ◌==◌,
  length, length-drop, leb, arith, Bool-cases, Option-cases,
}
use g_gateway.Router.Host.{HostPatternKind, CompiledHostPattern, match_host}

-- The byte is at the position, and nowhere before it.
abbrev pub FirstAt : Bytes → ℕ → ℕ → Type 0
FirstAt s b i = (any (λ c. c == b) (take i s) ≡ false) × (get_or s i 0 ≡ b) × (i < length s)

pub index_byte-FirstAt : (s : Bytes) (b i : ℕ) → index_byte s b ≡ some i → FirstAt s b i
index_byte-FirstAt [] b i h = cc
index_byte-FirstAt (c ∷ s) b i h = elim (Bool-cases (c == b)) [
  | inl e ↦ subst (FirstAt (c ∷ s) b) {x = zero} (ground arith) (ground arith)
  | inr e ↦ elim (Option-cases (index_byte s b)) [
    | inl n ↦ absurd (ground arith)
    | inr (j, n) ↦
        let k = index_byte-FirstAt s b j n in
        subst (FirstAt (c ∷ s) b) {x = suc j} (ground arith) (ground arith)
  ]
]

pub FirstAt-index_byte : (s : Bytes) (b i : ℕ) → FirstAt s b i → index_byte s b ≡ some i
FirstAt-index_byte [] b i h = absurd (omega (arith, h.2))
FirstAt-index_byte (c ∷ s) b zero h = ground arith
FirstAt-index_byte (c ∷ s) b (suc i) h = ground (arith, FirstAt-index_byte s b i)

pub match_exact :
    (p : CompiledHostPattern) (host : Bytes)
    → p.kind ≡ HostPatternKind.exact
    → match_host p host ≡ bytes_eq host p.value
unfolding match_host
match_exact p host e = rw e refl

abbrev wildcard_test : Bytes → Bytes → ℕ → Bool
wildcard_test value host start =
    not (leb start 1)
    && bytes_eq (drop start host) value
    && (get_or host (start - 1) 0 == b'.')
    && not (any (λ c. c == b'.') (take (start - 1) host))

match_wildcard_test :
    (p : CompiledHostPattern) (host : Bytes)
    → p.kind ≡ HostPatternKind.wildcard
    → match_host p host ≡ wildcard_test p.value host (length host - length p.value)
unfolding match_host
match_wildcard_test p host e = rw e (ground arith)

wildcard_parts :
    (value host : Bytes) (start : ℕ)
    → wildcard_test value host start ≡ true
    → (leb start 1 ≡ false)
      × (bytes_eq (drop start host) value ≡ true)
      × (get_or host (start - 1) 0 ≡ b'.')
      × (any (λ c. c == b'.') (take (start - 1) host) ≡ false)
wildcard_parts value host start h = ground arith

-- A wildcard matches the hosts whose first dot stands behind a label and before its suffix.
pub match_wildcard :
    (p : CompiledHostPattern) (host : Bytes)
    → p.kind ≡ HostPatternKind.wildcard
    → match_host p host ≡ true
    → (i : ℕ) × (index_byte host b'.' ≡ some (suc i)) × (drop (i + 2) host ≡ p.value)
match_wildcard p host e h =
    let start = length host - length p.value in
    let (a, b, c, d) = wildcard_parts p.value host start (sym (match_wildcard_test p host e) ∙ h) in
    (
      start - 2,
      FirstAt-index_byte host b'.' (suc (start - 2))
          (subst (FirstAt host b'.') {x = start - 1} (ground arith) (d, c, ground arith)),
      subst (λ n. drop n host ≡ p.value) {x = start} (ground arith)
          ((bytes_eq_iff (drop start host) p.value).0 b),
    )

pub wildcard_match :
    (p : CompiledHostPattern) (host : Bytes) (i : ℕ)
    → p.kind ≡ HostPatternKind.wildcard
    → index_byte host b'.' ≡ some (suc i)
    → drop (i + 2) host ≡ p.value
    → match_host p host ≡ true
wildcard_match p host i e f d =
    let (a, b, c) = index_byte-FirstAt host b'.' (suc i) f in
    let at : i + 2 ≡ length host - length p.value =
      omega (arith, ap (λ (x : Bytes). length x) d, length-drop (i + 2) host) in
    match_wildcard_test p host e
    ∙ subst (λ n. wildcard_test p.value host n ≡ true) at
        (ground (arith, bytes_eq_iff (drop (i + 2) host) p.value))
