-- ===== src/Dns/Config/Valid.antt =====
-- core/dns/config.go: which configurations are valid, and what that means for the lifetimes.
use v2ray_a.Base.{
  ℕ, zero, suc, ◌^◌, ◌≤◌, ◌<◌, ◌≡◌, ◌↔◌, ◌⊎◌, inl, inr, refl, true, false, none, List, [], ◌∷◌,
  Text, is_empty, ℤ, pos, negsuc, is_positive, All, arith, Option-cases,
}
use v2ray_a.Dns.Types.{CacheConfig}
use v2ray_a.Dns.Cache.Ttl.{calculate_effective_ttl}
use v2ray_a.Dns.Config.{
  DnsListenerConfig, DnsModuleConfig, validate, validate_listener, validate_cache, check_extra,
  has_colon,
}

-- The greatest lifetime is zero, for none set, or at least the least one.
abbrev pub IsValidCache : CacheConfig → Type 0
IsValidCache c =
    (size : ℕ) × (min_ttl : ℕ) × (max_ttl : ℕ) × (c.size ≡ pos size)
    × (c.min_ttl ≡ pos min_ttl)
    × (c.max_ttl ≡ pos max_ttl)
    × ((max_ttl ≡ 0) ⊎ (min_ttl ≤ max_ttl))

abbrev pub IsValidListener : DnsListenerConfig → Type 0
IsValidListener c =
    (has_colon c.listen_addr ≡ true)
    × All (λ addr. has_colon addr ≡ true) c.extra_listen_addrs
    × ((n : ℕ) × (c.timeout ≡ pos (suc n)))

extra_iff :
    (i : ℕ) (addrs : List Text)
    → (check_extra i addrs ≡ none) ↔ All (λ addr. has_colon addr ≡ true) addrs
unfolding check_extra
extra_iff i [] = (λ h. tt, λ h. refl)
extra_iff i (addr ∷ addrs) =
    let (there, back) = extra_iff (suc i) addrs in
    (λ h. ground (arith, there), λ h. rw h.0 (back h.1))

positive_form : (x : ℤ) → is_positive x ≡ true → (n : ℕ) × (x ≡ pos (suc n))
positive_form (pos zero) h = ground arith
positive_form (pos (suc n)) h = (n, refl)
positive_form (negsuc n) h = cc

colon_full : (addr : Text) → has_colon addr ≡ true → is_empty addr ≡ false
colon_full [] h = cc
colon_full (x ∷ addr) h = refl

listener_iff : (c : DnsListenerConfig) → (validate_listener c ≡ none) ↔ IsValidListener c
unfolding validate_listener
listener_iff c =
    let (there, back) = extra_iff 0 c.extra_listen_addrs in
    (
      λ h.
          let timely : is_positive c.timeout ≡ true = ground arith in
          (ground arith, there (ground arith), positive_form c.timeout timely),
      λ v.
          let (colon, extras, timeout) = v in
          let (n, e) = timeout in
          let timely : is_positive c.timeout ≡ true = rw e (ground arith) in
          let full : is_empty c.listen_addr ≡ false = colon_full c.listen_addr colon in
          rw (full, colon, back extras, timely, validate_listener),
    )

cache_iff : (c : CacheConfig) → (validate_cache c ≡ none) ↔ IsValidCache c
unfolding validate_cache
cache_iff c = go c.size c.min_ttl c.max_ttl
  where
    go :
        (s a b : ℤ)
        → let d = record c { size = s; min_ttl = a; max_ttl = b } in
          (validate_cache d ≡ none) ↔ IsValidCache d
    go (pos s) (pos a) (pos b) = (
      λ h. (s, a, b, refl, refl, refl, ground arith),
      λ v.
          let (s', a', b', x, y, z, order) = v in
          let q : a ≡ a' = cc in let r : b ≡ b' = cc in ground arith,
    )
    go (negsuc s) a b = (λ h. cc, λ v. let (s', a', b', x, y, z, order) = v in absurd cc)
    go (pos s) (negsuc a) b =
        (λ h. absurd (ground arith), λ v. let (s', a', b', x, y, z, order) = v in absurd cc)
    go (pos s) (pos a) (negsuc b) =
        (λ h. absurd (ground arith), λ v. let (s', a', b', x, y, z, order) = v in absurd cc)

-- A configuration passes the validation exactly if each of its addresses contains a colon, which is
-- all that is asked of a port, its timeout is positive, its sizes and lifetimes are not negative, and the least lifetime is not above the
-- greatest, if one is set.
pub validate_iff :
    (c : DnsModuleConfig)
    → (validate c ≡ none) ↔ (IsValidListener c.listener × IsValidCache c.cache)
unfolding validate
validate_iff c =
    let (there, back) = listener_iff c.listener in
    let (there_cache, back_cache) = cache_iff c.cache in
    (
      λ h. elim (Option-cases (validate_listener c.listener)) [
        | inl fine ↦ (there fine, there_cache (ground arith))
        | inr (e, bad) ↦ ground arith
      ],
      λ v. rw (back v.0, back_cache v.1, validate),
    )

-- In a valid configuration that sets both bounds to positive numbers, the greater one in 32 bits,
-- every lifetime is within them.
validated_ttl :
    (c : DnsModuleConfig) (lo hi t : ℕ)
    → validate c ≡ none
    → c.cache.min_ttl ≡ pos lo
    → c.cache.max_ttl ≡ pos hi
    → 0 < lo
    → 0 < hi
    → hi < 2 ^ 32
    → let ttl = calculate_effective_ttl t c.cache.min_ttl c.cache.max_ttl in (lo ≤ ttl) × (ttl ≤ hi)
unfolding calculate_effective_ttl
validated_ttl c lo hi t valid l h lo_pos hi_pos fits =
    let (size, a, b, x, y, z, order) = ((validate_iff c).0 valid).1 in
    let q : a ≡ lo = cc in
    let r : b ≡ hi = cc in let le : lo ≤ hi = ground arith in rw (l, h) (ground arith)
