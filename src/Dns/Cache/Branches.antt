-- ===== src/Dns/Cache/Branches.antt =====
-- What the methods of core/dns/cache.go compute on each branch, once the lookups are known.
use v2ray_a.Base.{
  ℕ, suc, ◌+◌, ◌-◌, ◌≡◌, true, false, Option, none, some, ◌∷◌, ltb, length, lookup, insert, delete,
}
use v2ray_a.Dns.Types.{CacheKey, DnsResponse, key_eq}
use v2ray_a.Dns.Cache.Lru.{value, remove, back, update-move_to_front}
use v2ray_a.Dns.Cache.Ops.{
  DnsCache, CacheEntry, miss, found_response, get, set, remove_key, remove_element, evict,
  refresh_entry, new_entry, touch_entry, count_miss, count_hit, count_size, not_cacheable,
}

module _ (c : DnsCache) (k : CacheKey) where
  pub get_missing : (now : ℕ) → lookup k c.entries ≡ none → get c k now ≡ (count_miss c, miss)
  unfolding get
  get_missing now h = rw (h, get)

  pub remove_key_missing : lookup k c.entries ≡ none → remove_key c k ≡ c
  unfolding remove_key
  remove_key_missing h = rw (h, remove_key)

  pub set_refused :
      (resp : Option DnsResponse) (ttl now : ℕ)
      → not_cacheable c.config resp ≡ true
      → set c k resp ttl now ≡ c
  unfolding set
  set_refused resp ttl now h = rw (h, set)

  pub set_new :
      (resp : Option DnsResponse) (ttl now : ℕ)
      → not_cacheable c.config resp ≡ false
      → lookup k c.entries ≡ none
      → set c k resp ttl now
        ≡ count_size (
            evict (record c {
              entries = insert k c.next_elem c.entries;
              lru_list = (c.next_elem, new_entry c.config k resp ttl now) ∷ c.lru_list;
              next_elem = suc c.next_elem;
            }))
  unfolding set
  set_new resp ttl now h e = rw (h, e, set)

  module _ (i : ℕ) (v : CacheEntry) (here : lookup k c.entries ≡ some i)
      (at : value i c.lru_list ≡ some v) where
    pub get_expired :
        (now : ℕ)
        → ltb v.expires_at now ≡ true
        → get c k now ≡ (count_miss (remove_element c i), miss)
    unfolding get
    get_expired now h = rw (here, at, h, get)

    pub get_fresh :
        (now : ℕ)
        → ltb v.expires_at now ≡ false
        → get c k now ≡ (
          count_hit (record c { lru_list = (i, touch_entry v) ∷ remove i c.lru_list }),
          found_response v.response (now - v.stored_at) c.config.min_ttl,
        )
    unfolding get
    get_fresh now h =
        rw (← update-move_to_front i touch_entry c.lru_list v at) (rw (here, at, h, get))

    pub remove_key_present : remove_key c k ≡ count_size (remove_element c i)
    unfolding remove_key
    remove_key_present = rw (here, remove_key)

    pub set_old :
        (resp : Option DnsResponse) (ttl now : ℕ)
        → not_cacheable c.config resp ≡ false
        → set c k resp ttl now
          ≡ count_size (record c {
            lru_list = (i, refresh_entry c.config resp ttl now v) ∷ remove i c.lru_list;
          })
    unfolding set
    set_old resp ttl now h =
        rw (h, here, set)
          (rw (update-move_to_front i (refresh_entry c.config resp ttl now) c.lru_list v at))

-- The entry at the back goes, from the list and from the map.
pub evict_over :
    (c : DnsCache) (i : ℕ) (v : CacheEntry)
    → ltb c.max_size (length c.lru_list) ≡ true
    → back c.lru_list ≡ some (i, v)
    → value i c.lru_list ≡ some v
    → evict c
      ≡ let s = c.stats in
        record c {
          entries = delete v.key c.entries;
          lru_list = remove i c.lru_list;
          stats = record s { evictions = s.evictions + 1 };
        }
unfolding evict
evict_over c i v over last at = rw (over, last, at, evict, remove_element)

pub evict_fits : (c : DnsCache) → ltb c.max_size (length c.lru_list) ≡ false → evict c ≡ c
unfolding evict
evict_fits c h = rw (h, evict)
