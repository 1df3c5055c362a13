-- ===== src/Dns/Cache/Prefetch.antt =====
-- core/dns/cache.go: when an entry is fetched anew ahead of its end, and what is recorded of it.
use v2ray_a.Base.{
  ℕ, suc, ◌+◌, ◌-◌, ◌*◌, ◌/◌, Bool, true, false, not, ◌&&◌, none, some, ℤ, pos, negsuc, to_i64, ltb,
  leb, eqb, if◌then◌else◌, lookup,
}
use v2ray_a.Dns.Types.{CacheKey, CacheConfig, second, key_eq}
use v2ray_a.Dns.Cache.Lru.{value, update}
use v2ray_a.Dns.Cache.Ops.{DnsCache, CacheEntry}

unfoldable pub prefetch_backoff : ℕ → ℕ
prefetch_backoff fail_count =
    if eqb fail_count 0
    then 0
    else if eqb fail_count 1
    then 5 * second
    else if eqb fail_count 2
    then 30 * second
    else 120 * second

-- `time.Until(expires) < d`
abbrev until_lt : ℕ → ℕ → ℤ → Bool
until_lt expires now (pos d) = ltb expires (now + d)
until_lt expires now (negsuc d) = ltb (expires + suc d) now

-- `time.Duration(threshold) * time.Second` of a positive threshold, 30 if it is none; the product
-- wraps round in 64 bits.
abbrev pub threshold_duration : ℤ → ℤ
threshold_duration (pos n) = if ltb 0 n then to_i64 (n * second) else pos (30 * second)
threshold_duration (negsuc n) = pos (30 * second)

-- `totalTTL > 0 && remaining < totalTTL/10`
abbrev pub in_last_tenth : CacheEntry → ℕ → Bool
in_last_tenth entry now =
    let total = entry.expires_at - entry.stored_at in
    ltb 0 total && ltb entry.expires_at (now + total / 10)

unfoldable pub should_prefetch_entry : CacheEntry → CacheConfig → ℕ → Bool
unfolding prefetch_backoff
should_prefetch_entry entry config now =
    if not config.prefetch
    then false
    else if entry.prefetching
    then false
    else if leb 3 entry.prefetch_fail_count
    then false
    else (let backoff = prefetch_backoff entry.prefetch_fail_count in
        if ltb 0 backoff && ltb now (entry.last_prefetch_fail + backoff)
        then false
        else if in_last_tenth entry now
        then true
        else until_lt entry.expires_at now (threshold_duration config.prefetch_threshold))

unfoldable pub should_prefetch : DnsCache → CacheKey → ℕ → Bool
unfolding should_prefetch_entry
should_prefetch c key now = elim (lookup key c.entries) [
  | none ↦ false
  | some i ↦ elim (value i c.lru_list) [
    | none ↦ false
    | some entry ↦ should_prefetch_entry entry c.config now
  ]
]

-- The element of a key, written in place.
abbrev pub write_entry : (CacheEntry → CacheEntry) → DnsCache → CacheKey → DnsCache
write_entry f c key = elim (lookup key c.entries) [
  | none ↦ c
  | some i ↦ record c { lru_list = update i f c.lru_list }
]

unfoldable pub mark_prefetching : Bool → CacheEntry → CacheEntry
mark_prefetching status entry = record entry { prefetching = status }

abbrev pub count_prefetch : DnsCache → DnsCache
count_prefetch c =
    let s = c.stats in record c { stats = record s { prefetch_cnt = s.prefetch_cnt + 1 } }

unfoldable pub set_prefetching : DnsCache → CacheKey → Bool → DnsCache
unfolding mark_prefetching
set_prefetching c key status = elim (lookup key c.entries) [
  | none ↦ c
  | some i ↦ elim (value i c.lru_list) [
    | none ↦ c
    | some entry ↦
        let c' = write_entry (mark_prefetching status) c key in
        if status then count_prefetch c' else c'
  ]
]

unfoldable pub fail_entry : ℕ → CacheEntry → CacheEntry
unfolding prefetch_backoff
fail_entry now entry = record entry {
  prefetch_fail_count = entry.prefetch_fail_count + 1;
  last_prefetch_fail = now;
  prefetching = false;
  prefetch_backoff = prefetch_backoff (entry.prefetch_fail_count + 1);
}

unfoldable pub record_prefetch_failure : DnsCache → CacheKey → ℕ → DnsCache
unfolding fail_entry
record_prefetch_failure c key now = write_entry (fail_entry now) c key

unfoldable pub succeed_entry : CacheEntry → CacheEntry
succeed_entry entry = record entry {
  prefetch_fail_count = 0;
  prefetch_backoff = 0;
  prefetching = false;
}

unfoldable pub record_prefetch_success : DnsCache → CacheKey → DnsCache
unfolding succeed_entry
record_prefetch_success c key = write_entry succeed_entry c key
