-- ===== src/Dns/Cache/Reads.antt =====
-- What a caller of core/dns/cache.go reads after it wrote.
use v2ray_a.Base.{
  ℕ, zero, suc, ◌+◌, ◌-◌, ◌<◌, ◌*◌, ◌≡◌, refl, false, Option, none, some, List, [], ◌∷◌, ltb,
  if◌then◌else◌, arith, ap, Option-cases, inl, inr, ◌∙◌, take, ◌==◌, insert, lt→ltb,
}
use v2ray_a.Dns.Types.{CacheKey, CacheConfig, DnsResponse, key_eq, key_beq_iff, second}
use v2ray_a.Dns.Cache.Ttl.{compute_effective_ttl}
use v2ray_a.Dns.Cache.Lru.{find_value, find_value-drop_key_ne, length-remove}
use v2ray_a.Dns.Cache.Index.{locate}
use v2ray_a.Dns.Cache.Branches.{get_expired}
use v2ray_a.Dns.Cache.Ops.{
  DnsCache, CacheEntry, miss, found_response, get, set, refresh_entry, new_entry, not_cacheable,
  len, evict, remove_element,
}
use v2ray_a.Dns.Cache.Invariant.{Inv, entry_key, set-Inv}
use v2ray_a.Dns.Cache.Refinement.{
  view, find_entry, drop_entry, ideal_set, ideal_found, get-view, set-view, absent-view, found-view,
}

-- The entry that a store leaves at the front.
stored_entry : DnsCache → CacheKey → Option DnsResponse → ℕ → ℕ → CacheEntry
stored_entry c k resp ttl now = elim (find_entry k (view c)) [
  | none ↦ new_entry c.config k resp ttl now
  | some v ↦ refresh_entry c.config resp ttl now v
]

found_key :
    (k : CacheKey) (es : List CacheEntry) (v : CacheEntry) → find_entry k es ≡ some v → v.key ≡ k
unfolding find_value
found_key k [] v h = cc
found_key k (w ∷ es) v h = ground (arith, key_beq_iff w.key k, found_key k es v)

take_pos :
    (n : ℕ)
    → 0 < n
    → (x : CacheEntry) (xs : List CacheEntry) → take n (x ∷ xs) ≡ x ∷ take (n - 1) xs
take_pos zero h x xs = elim h [ ]
take_pos (suc n) h x xs = let e : n ≡ suc n - 1 = omega arith in rw (← e)

evict-config : (c : DnsCache) → (evict c).config ≡ c.config
unfolding evict remove_element
evict-config c = ground arith

pub set-config :
    (c : DnsCache) (k : CacheKey) (resp : Option DnsResponse) (ttl now : ℕ)
    → (set c k resp ttl now).config ≡ c.config
unfolding set
set-config c k resp ttl now = ground (
  arith,
  evict-config (record c {
    entries = insert k c.next_elem c.entries;
    lru_list = (c.next_elem, new_entry c.config k resp ttl now) ∷ c.lru_list;
    next_elem = suc c.next_elem;
  }),
)

pub get-config : (c : DnsCache) (k : CacheKey) (now : ℕ) → (get c k now).0.config ≡ c.config
unfolding get remove_element
get-config c k now = ground arith

find-front :
    (k : CacheKey) (v : CacheEntry) (es : List CacheEntry)
    → v.key ≡ k
    → find_entry k (v ∷ es) ≡ some v
unfolding find_value
find-front k v es e = ground (arith, key_beq_iff v.key k)

-- What a lookup finds, from the fields of the entry at the front.
ideal_found-front :
    (config config' : CacheConfig) (es rest : List CacheEntry) (k : CacheKey) (v : CacheEntry)
    (resp : Option DnsResponse) (later ends begins : ℕ)
    → es ≡ v ∷ rest
    → v.key ≡ k
    → (v.expires_at ≡ ends) × (v.stored_at ≡ begins) × (v.response ≡ resp)
    → config ≡ config'
    → ideal_found config es k later
      ≡ (if ltb ends later then miss else found_response resp (later - begins) config'.min_ttl)
ideal_found-front config config' es rest k v resp later ends begins e same f g =
    rw (e, find-front k v rest same, ideal_found) (rw (f.0, f.1, f.2, g))

find-behind :
    (k q : CacheKey) (v : CacheEntry) (es : List CacheEntry)
    → v.key ≡ k
    → (k == q) ≡ false
    → find_entry q (v ∷ es) ≡ find_entry q es
unfolding find_value
find-behind k q v es e n = ground (arith, key_beq_iff v.key q, key_beq_iff k q)

ideal_set_isolates :
    (config : CacheConfig) (size : ℕ) (es : List CacheEntry) (k q : CacheKey)
    (resp : Option DnsResponse) (ttl now : ℕ)
    → 0 < size
    → not_cacheable config resp ≡ false
    → (k == q) ≡ false
    → find_entry q (ideal_set config size es k resp ttl now) ≡ elim (find_entry k es) [
      | none ↦ find_entry q (take (size - 1) es)
      | some _ ↦ find_entry q es
    ]
unfolding refresh_entry new_entry
ideal_set_isolates config size es k q resp ttl now p stored other =
    elim (Option-cases (find_entry k es)) [
      | inl absent ↦
          rw (stored, absent, ideal_set)
            (rw (take_pos size p (new_entry config k resp ttl now) es)
              (find-behind k q (new_entry config k resp ttl now) (take (size - 1) es) refl other))
      | inr (v, found) ↦
          rw (stored, found, ideal_set)
            (find-behind k q (refresh_entry config resp ttl now v) (drop_entry k es)
                (found_key k es v found) other
              ∙ find_value-drop_key_ne entry_key k q es other)
    ]

module _ (c : DnsCache) (k : CacheKey) (resp : Option DnsResponse) (ttl now : ℕ) (h : Inv c)
    (stored : not_cacheable c.config resp ≡ false) where
  stored-view :
      (rest : List CacheEntry) × (view (set c k resp ttl now)
        ≡ stored_entry c k resp ttl now ∷ rest)
  unfolding stored_entry
  stored-view = elim (Option-cases (find_entry k (view c))) [
    | inl absent ↦ (
      take (c.max_size - 1) (view c),
      rw (set-view c k h resp ttl now) (
          rw (stored, absent, ideal_set, stored_entry) (take_pos c.max_size h.positive _ (view c))),
    )
    | inr (v, found) ↦ (
      drop_entry k (view c),
      rw (set-view c k h resp ttl now) (rw (stored, found, ideal_set, stored_entry)),
    )
  ]

  stored_key : (stored_entry c k resp ttl now).key ≡ k
  unfolding stored_entry new_entry refresh_entry
  stored_key = elim (Option-cases (find_entry k (view c))) [
    | inl absent ↦ rw (absent, stored_entry)
    | inr (v, found) ↦ rw (found, stored_entry) (found_key k (view c) v found)
  ]

  stored_lifetime :
      ((stored_entry c k resp ttl now).expires_at
        ≡ now + compute_effective_ttl resp ttl c.config * second)
      × ((stored_entry c k resp ttl now).stored_at ≡ now)
      × ((stored_entry c k resp ttl now).response ≡ resp)
  unfolding stored_entry new_entry refresh_entry
  stored_lifetime = elim (Option-cases (find_entry k (view c))) [
    | inl absent ↦ rw (absent, stored_entry) (refl, refl, refl)
    | inr (v, found) ↦ rw (found, stored_entry) (refl, refl, refl)
  ]

  -- After a store that is not refused, in a well-formed cache, a lookup of the key gives back the stored response, aged by
  -- the time since, up to the end of its effective lifetime, and misses after that.
  pub get-set_self :
      (later : ℕ)
      → (get (set c k resp ttl now) k later).1 ≡ (
          if ltb (now + compute_effective_ttl resp ttl c.config * second) later
          then miss
          else found_response resp (later - now) c.config.min_ttl)
  get-set_self later =
      let (rest, front) = stored-view in
      (get-view (set c k resp ttl now) k (set-Inv c k resp ttl now h) later).1
      ∙ ideal_found-front (set c k resp ttl now).config c.config (view (set c k resp ttl now)) rest
          k (stored_entry c k resp ttl now) resp later
          (now + compute_effective_ttl resp ttl c.config * second) now front stored_key
          stored_lifetime (set-config c k resp ttl now)

  -- In a well-formed cache, a store that is not refused leaves what every other key finds: if the key was stored before, all of it, and if it
  -- is new, all but what the least recently used entry held where the cache was full.
  set_isolates :
      (q : CacheKey)
      → (k == q) ≡ false
      → find_entry q (view (set c k resp ttl now)) ≡ elim (find_entry k (view c)) [
        | none ↦ find_entry q (take (c.max_size - 1) (view c))
        | some _ ↦ find_entry q (view c)
      ]
  set_isolates q other =
      ap (find_entry q) (set-view c k h resp ttl now)
      ∙ ideal_set_isolates c.config c.max_size (view c) k q resp ttl now h.positive stored other

-- In a well-formed cache whose counted size was right, the counted size after a lookup that dropped
-- an expired entry is one too many.
pub get_expired_size :
    (c : DnsCache) (k : CacheKey) (now : ℕ) (v : CacheEntry)
    → Inv c
    → c.stats.size ≡ len c
    → find_entry k (view c) ≡ some v
    → v.expires_at < now
    → (get c k now).0.stats.size ≡ len (get c k now).0 + 1
unfolding remove_element
get_expired_size c k now v h s found old =
    elim (locate entry_key c.next_elem k c.entries c.lru_list h.agrees) [
      | inl (missing, absent) ↦ absurd (ground (arith, found, absent-view c k h absent))
      | inr (i, w, here, at_key, at, same) ↦
          let e : w.expires_at ≡ v.expires_at =
            ground (arith, found, found-view c k h i w at_key) in
          rw (get_expired c k i w here at now (lt→ltb _ _ (omega arith)))
            (omega (arith, length-remove i c.lru_list w at))
    ]
