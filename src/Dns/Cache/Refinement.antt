-- ===== src/Dns/Cache/Refinement.antt =====
-- The cache of core/dns/cache.go against an ideal one: a list of entries with distinct keys, the
-- most recently used first, cut off at the size.
use v2ray_a.Base.{
  ℕ, suc, ◌-◌, ◌≤◌, ◌≡◌, refl, true, Option, none, some, List, [], ◌∷◌, ltb, if◌then◌else◌, length,
  arith, ap, Bool-cases, inl, inr, sym, ◌∙◌, take, take-append, take_of_length-le, length-map,
}
use v2ray_a.Dns.Types.{CacheKey, CacheConfig, DnsResponse, key_eq}
use v2ray_a.Dns.Cache.Lru.{
  remove, back, find, values, find_value, drop_key, length-remove, value-find, back_of_pos,
  values-remove, find_value-values, drop_key_absent,
}
use v2ray_a.Dns.Cache.Index.{Agree, locate, push-Agree, find-back, back-remove}
use v2ray_a.Dns.Cache.Ops.{
  DnsCache, CacheEntry, Found, miss, found_response, get, set, remove_key, remove_element, evict,
  refresh_entry, new_entry, touch_entry, not_cacheable,
}
use v2ray_a.Dns.Cache.Branches.{
  get_missing, get_expired, get_fresh, set_refused, set_new, set_old, evict_over, evict_fits,
  remove_key_missing, remove_key_present,
}
use v2ray_a.Dns.Cache.Invariant.{Inv, entry_key}

-- The ideal cache.
abbrev pub view : DnsCache → List CacheEntry
view c = values c.lru_list

abbrev pub find_entry : CacheKey → List CacheEntry → Option CacheEntry
find_entry = find_value entry_key

abbrev pub drop_entry : CacheKey → List CacheEntry → List CacheEntry
drop_entry = drop_key entry_key

abbrev pub ideal_get : List CacheEntry → CacheKey → ℕ → List CacheEntry
ideal_get es k now = elim (find_entry k es) [
  | none ↦ es
  | some v ↦ if ltb v.expires_at now then drop_entry k es else touch_entry v ∷ drop_entry k es
]

abbrev pub ideal_found : CacheConfig → List CacheEntry → CacheKey → ℕ → Found
ideal_found config es k now = elim (find_entry k es) [
  | none ↦ miss
  | some v ↦
      if ltb v.expires_at now
      then miss
      else found_response v.response (now - v.stored_at) config.min_ttl
]

abbrev pub ideal_set :
    CacheConfig → ℕ → List CacheEntry → CacheKey → Option DnsResponse → ℕ → ℕ → List CacheEntry
ideal_set config size es k resp ttl now =
    if not_cacheable config resp then es else (elim (find_entry k es) [
      | some v ↦ refresh_entry config resp ttl now v ∷ drop_entry k es
      | none ↦ take size (new_entry config k resp ttl now ∷ es)
    ])

module _ (c : DnsCache) (k : CacheKey) (h : Inv c) where
  pub found-view :
      (i : ℕ) (v : CacheEntry)
      → find entry_key k c.lru_list ≡ some (i, v)
      → find_entry k (view c) ≡ some v
  found-view i v found = find_value-values entry_key k c.lru_list ∙ rw found

  pub absent-view : find entry_key k c.lru_list ≡ none → find_entry k (view c) ≡ none
  absent-view absent = find_value-values entry_key k c.lru_list ∙ rw absent

  dropped-view :
      (i : ℕ) (v : CacheEntry)
      → find entry_key k c.lru_list ≡ some (i, v)
      → values (remove i c.lru_list) ≡ drop_entry k (view c)
  dropped-view i v found =
      values-remove entry_key c.next_elem k c.lru_list i v h.agrees.distinct found

  -- Get of a well-formed cache refines the ideal lookup: the same entries in the same order, and the same answer.
  pub get-view :
      (now : ℕ)
      → (view (get c k now).0 ≡ ideal_get (view c) k now)
        × ((get c k now).1 ≡ ideal_found c.config (view c) k now)
  unfolding remove_element
  get-view now = elim (locate entry_key c.next_elem k c.entries c.lru_list h.agrees) [
    | inl (missing, absent) ↦
        rw (get_missing c k now missing)
          (rw (absent-view absent, ideal_get, ideal_found) (refl, refl))
    | inr (i, v, here, found, at, same) ↦ elim (Bool-cases (ltb v.expires_at now)) [
      | inl old ↦ rw (get_expired c k i v here at now old) (
          rw (found-view i v found, ideal_get, ideal_found) (rw old (dropped-view i v found, refl)))
      | inr fresh ↦ rw (get_fresh c k i v here at now fresh) (
          rw (found-view i v found, ideal_get, ideal_found)
            (rw fresh (ap (◌∷◌ (touch_entry v)) (dropped-view i v found), refl)))
    ]
  ]

evict-view :
    (c : DnsCache)
    → Agree entry_key c.next_elem c.entries c.lru_list
    → length c.lru_list ≤ suc c.max_size
    → view (evict c) ≡ take c.max_size (view c)
evict-view c g b = elim (Bool-cases (ltb c.max_size (length c.lru_list))) [
  | inl over ↦ over-view over (back_of_pos c.lru_list (ground arith))
  | inr fits ↦ rw (evict_fits c fits) (
      sym (
        take_of_length-le c.max_size (view c)
          (ground (arith, length-map (λ (e : ℕ × CacheEntry). e.1) c.lru_list))))
]
  where
    over-view :
        ltb c.max_size (length c.lru_list) ≡ true
        → (y : ℕ × CacheEntry) × (back c.lru_list ≡ some y)
        → view (evict c) ≡ take c.max_size (view c)
    over-view over ((i, v), last) =
        let found = find-back entry_key c.next_elem c.lru_list i v g.distinct last in
        let at = value-find entry_key c.next_elem v.key c.lru_list i v g.distinct found in
        let short : length (values (remove i c.lru_list)) ≡ c.max_size = ground (
          arith,
          length-map (λ (e : ℕ × CacheEntry). e.1) (remove i c.lru_list),
          length-remove i c.lru_list v at,
        ) in
        rw
          (
            evict_over c i v over last at,
            back-remove entry_key c.next_elem c.lru_list i v g.distinct last,
          )
          (sym (take-append c.max_size (values (remove i c.lru_list)) (v ∷ []) short))

module _ (c : DnsCache) (k : CacheKey) (h : Inv c) where
  -- Set of a well-formed cache refines the ideal store: the entry goes to the front, and what no longer fits goes.
  pub set-view :
      (resp : Option DnsResponse) (ttl now : ℕ)
      → view (set c k resp ttl now) ≡ ideal_set c.config c.max_size (view c) k resp ttl now
  unfolding new_entry
  set-view resp ttl now = elim (Bool-cases (not_cacheable c.config resp)) [
    | inl refused ↦ rw (set_refused c k resp ttl now refused) (rw (refused, ideal_set))
    | inr stored ↦ elim (locate entry_key c.next_elem k c.entries c.lru_list h.agrees) [
      | inl (missing, absent) ↦ rw (set_new c k resp ttl now stored missing) (
          rw (stored, absent-view c k h absent, ideal_set)
            (evict-view _
              (push-Agree entry_key c.next_elem k c.entries c.lru_list
                (new_entry c.config k resp ttl now) h.agrees absent refl)
              (omega (arith, h.bounded))))
      | inr (i, v, here, found, at, same) ↦ rw (set_old c k i v here at resp ttl now stored) (
          rw (stored, found-view c k h i v found, ideal_set)
            (ap (◌∷◌ (refresh_entry c.config resp ttl now v)) (dropped-view c k h i v found)))
    ]
  ]

  -- Remove of a well-formed cache refines the ideal removal.
  pub remove_key-view : view (remove_key c k) ≡ drop_entry k (view c)
  unfolding remove_element
  remove_key-view = elim (locate entry_key c.next_elem k c.entries c.lru_list h.agrees) [
    | inl (missing, absent) ↦
        rw (remove_key_missing c k missing)
          (sym (drop_key_absent entry_key k (view c) (absent-view c k h absent)))
    | inr (i, v, here, found, at, same) ↦
        rw (remove_key_present c k i v here at) (dropped-view c k h i v found)
  ]
