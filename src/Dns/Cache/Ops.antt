-- ===== src/Dns/Cache/Ops.antt =====
-- core/dns/cache.go: the cache and its methods. The source holds a mutex in each method, so a
-- method is one step on the state; the clock that it reads is its argument `now`.
use v2ray_a.Base.{
  ℕ, suc, ◌+◌, ◌-◌, ◌*◌, Bool, true, false, Option, none, some, List, [], ◌∷◌, map, ℤ, pos, negsuc,
  eqb_ℤ, ltb, if◌then◌else◌, length, lookup, insert, delete,
}
use v2ray_a.Dns.Types.{
  CacheKey, CacheConfig, DnsResponse, rcode_success, rcode_name_error, rcode_server_failure,
  rcode_refused, second, key_eq,
}
use v2ray_a.Dns.Cache.Lru.{value, remove, move_to_front, update, back}
use v2ray_a.Dns.Cache.Ttl.{compute_effective_ttl, is_negative_response, copy_cached_response}

pub record CacheEntry : Type 0 where
  pub key : CacheKey
  pub response : Option DnsResponse
  pub original_ttl : ℕ
  pub effective_ttl : ℕ
  pub stored_at : ℕ
  pub expires_at : ℕ
  pub hit_count : ℕ
  pub prefetching : Bool
  pub negative : Bool
  pub prefetch_fail_count : ℕ
  pub prefetch_backoff : ℕ
  pub last_prefetch_fail : ℕ

-- The floating-point quotient of HitRate, as its two operands; the rate 0 is 0 over 1.
pub record Rate : Type 0 where
  pub part : ℕ
  pub whole : ℕ

pub record CacheStats : Type 0 where
  pub size : ℕ
  pub hits : ℕ
  pub misses : ℕ
  pub evictions : ℕ
  pub prefetch_cnt : ℕ
  pub hit_rate : Rate

-- `next_elem` is the identity that the next list element gets.
pub record DnsCache : Type 0 where
  pub config : CacheConfig
  pub entries : List (CacheKey × ℕ)
  pub lru_list : List (ℕ × CacheEntry)
  pub max_size : ℕ
  pub stats : CacheStats
  pub next_elem : ℕ

abbrev pub no_stats : CacheStats
no_stats = record {
  size = 0;
  hits = 0;
  misses = 0;
  evictions = 0;
  prefetch_cnt = 0;
  hit_rate = record { part = 0; whole = 1 };
}

abbrev pub size_or_default : ℤ → ℕ
size_or_default (pos n) = if ltb 0 n then n else 4096
size_or_default (negsuc n) = 4096

unfoldable pub new_dns_cache : CacheConfig → DnsCache
new_dns_cache config = record {
  config = config;
  entries = [];
  lru_list = [];
  max_size = size_or_default config.size;
  stats = no_stats;
  next_elem = 0;
}

abbrev pub update_hit_rate : CacheStats → CacheStats
update_hit_rate s =
    let total = s.hits + s.misses in
    record s {
      hit_rate =
          if ltb 0 total
          then record { part = s.hits; whole = total }
          else record { part = 0; whole = 1 };
    }

-- `c.stats.Misses++; c.updateHitRate()`
abbrev pub count_miss : DnsCache → DnsCache
count_miss c =
    let s = c.stats in record c { stats = update_hit_rate (record s { misses = s.misses + 1 }) }

abbrev pub count_hit : DnsCache → DnsCache
count_hit c =
    let s = c.stats in record c { stats = update_hit_rate (record s { hits = s.hits + 1 }) }

-- `c.stats.Size = c.lruList.Len(); c.updateHitRate()`
abbrev pub count_size : DnsCache → DnsCache
count_size c =
    let s = c.stats in record c { stats = update_hit_rate (record s { size = length c.lru_list }) }

unfoldable pub remove_element : DnsCache → ℕ → DnsCache
remove_element c elem_id = record c {
  entries = elim (value elem_id c.lru_list) [
    | none ↦ c.entries
    | some entry ↦ delete entry.key c.entries
  ];
  lru_list = remove elem_id c.lru_list;
}

-- `panic`: a stored nil response is copied through its nil pointer.
pub data Found : Type 0 where
  miss : Found
  hit : DnsResponse → Found
  panic : Found

abbrev pub found_response : Option DnsResponse → ℕ → ℤ → Found
found_response none elapsed min_ttl = panic
found_response (some resp) elapsed min_ttl = hit (copy_cached_response resp elapsed min_ttl)

unfoldable pub touch_entry : CacheEntry → CacheEntry
touch_entry entry = record entry { hit_count = entry.hit_count + 1 }

unfoldable pub get : DnsCache → CacheKey → ℕ → DnsCache × Found
unfolding remove_element touch_entry
get c key now = elim (lookup key c.entries) [
  | none ↦ (count_miss c, miss)
  | some i ↦ elim (value i c.lru_list) [
    | none ↦ (count_miss c, miss)
    | some entry ↦ if ltb entry.expires_at now then (count_miss (remove_element c i), miss) else (
      count_hit (record c { lru_list = update i touch_entry (move_to_front i c.lru_list) }),
      found_response entry.response (now - entry.stored_at) c.config.min_ttl,
    )
  ]
]

abbrev pub not_cacheable : CacheConfig → Option DnsResponse → Bool
not_cacheable config none = false
not_cacheable config (some resp) =
    if config.negative_cache
    then false
    else if eqb_ℤ resp.rcode rcode_name_error
    then true
    else if eqb_ℤ resp.rcode rcode_server_failure
    then true
    else eqb_ℤ resp.rcode rcode_refused

abbrev is_success : Option DnsResponse → Bool
is_success none = false
is_success (some resp) = eqb_ℤ resp.rcode rcode_success

-- The writes to an entry whose key is stored already.
unfoldable pub refresh_entry : CacheConfig → Option DnsResponse → ℕ → ℕ → CacheEntry → CacheEntry
refresh_entry config resp original_ttl now entry =
    let effective = compute_effective_ttl resp original_ttl config in
    record entry {
      prefetching = false;
      prefetch_fail_count = if is_success resp then 0 else entry.prefetch_fail_count;
      prefetch_backoff = if is_success resp then 0 else entry.prefetch_backoff;
      response = resp;
      original_ttl = original_ttl;
      stored_at = now;
      effective_ttl = effective;
      expires_at = now + effective * second;
      negative = is_negative_response resp;
    }

unfoldable pub new_entry : CacheConfig → CacheKey → Option DnsResponse → ℕ → ℕ → CacheEntry
new_entry config key resp original_ttl now =
    let effective = compute_effective_ttl resp original_ttl config in
    record {
      key = key;
      response = resp;
      original_ttl = original_ttl;
      effective_ttl = effective;
      stored_at = now;
      expires_at = now + effective * second;
      hit_count = 0;
      prefetching = false;
      negative = is_negative_response resp;
      prefetch_fail_count = 0;
      prefetch_backoff = 0;
      last_prefetch_fail = 0;
    }

-- The eviction after a new entry was put in front.
unfoldable pub evict : DnsCache → DnsCache
unfolding remove_element
evict c =
    if ltb c.max_size (length c.lru_list)
    then (elim (back c.lru_list) [
      | none ↦ c
      | some (i, entry) ↦
          let smaller = remove_element c i in
          let s = smaller.stats in
          record smaller { stats = record s { evictions = s.evictions + 1 } }
    ])
    else c

unfoldable pub set : DnsCache → CacheKey → Option DnsResponse → ℕ → ℕ → DnsCache
unfolding refresh_entry new_entry evict
set c key resp original_ttl now =
    if not_cacheable c.config resp then c else (elim (lookup key c.entries) [
      | some i ↦ count_size (record c {
        lru_list =
            update i (refresh_entry c.config resp original_ttl now) (move_to_front i c.lru_list);
      })
      | none ↦
          let entry = new_entry c.config key resp original_ttl now in
          count_size (
            evict (record c {
              entries = insert key c.next_elem c.entries;
              lru_list = (c.next_elem, entry) ∷ c.lru_list;
              next_elem = suc c.next_elem;
            }))
    ])

-- Remove
unfoldable pub remove_key : DnsCache → CacheKey → DnsCache
unfolding remove_element
remove_key c key = elim (lookup key c.entries) [
  | none ↦ c
  | some i ↦ count_size (remove_element c i)
]

unfoldable pub clear : DnsCache → DnsCache
clear c =
    let s = c.stats in
    record c { entries = []; lru_list = []; stats = update_hit_rate (record s { size = 0 }) }

abbrev pub len : DnsCache → ℕ
len c = length c.lru_list

abbrev pub keys : DnsCache → List CacheKey
keys c = map (λ e. e.0) c.entries
