-- ===== src/Dns/Tests/OfCache.antt =====
-- Concrete runs of core/dns/cache.go.
use v2ray_a.Base.{
  ℕ, ◌+◌, ◌-◌, ◌*◌, ◌≤◌, ◌≡◌, ◌≢◌, refl, true, false, some, List, [], ◌∷◌, pos, arith, min, max,
  ltb, if◌then◌else◌, All, lookup,
}
use v2ray_a.Dns.Types.{second, key_eq}
use v2ray_a.Dns.Cache.Ttl.{
  calculate_effective_ttl, compute_effective_ttl, copy_cached_response, floor_ttl, elapsed_seconds,
}
use v2ray_a.Dns.Cache.Ops.{
  DnsCache, CacheEntry, miss, panic, new_dns_cache, get, set, new_entry, len, found_response, evict,
}
use v2ray_a.Dns.Cache.Prefetch.{should_prefetch_entry, fail_entry}
use v2ray_a.Dns.Cache.Lru.{find_value}
use v2ray_a.Dns.Cache.Invariant.{
  Inv, Call, call_get, call_set, call_remove, call_record_failure, run, run-Inv, set-Inv,
  new_dns_cache-Inv,
}
use v2ray_a.Dns.Cache.Refinement.{view, ideal_get, ideal_found, ideal_set, get-view, set-view}
use v2ray_a.Dns.Cache.Reads.{get-set_self, get_expired_size}
use v2ray_a.Dns.Cache.Lifetimes.{
  effective_ttl_bounds, stored, Shown, SameOrigin, copy_cached_response-Aged, prefetch_gives_up,
  low, high, AllAged,
}
use v2ray_a.Dns.Cache.Stored.{run-get-ne-panic}
use v2ray_a.Dns.Tests.Samples.{small_config, key_a, key_b, response_a, start}

abbrev empty_cache : DnsCache
empty_cache = new_dns_cache small_config

empty_cache-Inv : Inv empty_cache
empty_cache-Inv = new_dns_cache-Inv small_config

abbrev filled : DnsCache
filled = set empty_cache key_a (some response_a) 300 start

filled-Inv : Inv filled
filled-Inv = set-Inv empty_cache key_a (some response_a) 300 start empty_cache-Inv

abbrev calls : List Call
calls =
    call_set key_a (some response_a) 300 start
    ∷ call_get key_a (start + second)
    ∷ call_set key_b (some response_a) 300 start
    ∷ call_record_failure key_b start
    ∷ call_remove key_a
    ∷ []

abbrev entry_a : CacheEntry
entry_a = new_entry small_config key_a (some response_a) 300 start

-- Near the end of the entry of 300 seconds.
abbrev late : ℕ
late = start + 290 * second

run-Inv_example : Inv (run (new_dns_cache small_config) calls)
run-Inv_example = run-Inv small_config calls

get-view_example :
    (view (get filled key_a late).0 ≡ ideal_get (view filled) key_a late)
    × ((get filled key_a late).1 ≡ ideal_found filled.config (view filled) key_a late)
get-view_example = get-view filled key_a filled-Inv late

set-view_example :
    view (set filled key_b (some response_a) 300 late)
    ≡ ideal_set filled.config filled.max_size (view filled) key_b (some response_a) 300 late
set-view_example = set-view filled key_b filled-Inv (some response_a) 300 late

get-set_self_example : (get (set empty_cache key_a (some response_a) 300 start) key_a late).1 ≡ (
    if ltb (start + compute_effective_ttl (some response_a) 300 empty_cache.config * second) late
    then miss
    else found_response (some response_a) (late - start) empty_cache.config.min_ttl)
unfolding new_dns_cache
get-set_self_example =
    get-set_self empty_cache key_a (some response_a) 300 start empty_cache-Inv refl late

get_expired_size_example :
    (get filled key_a (start + 301 * second)).0.stats.size
    ≡ len (get filled key_a (start + 301 * second)).0 + 1
unfolding set new_dns_cache new_entry compute_effective_ttl evict lookup find_value
get_expired_size_example =
    get_expired_size filled key_a (start + 301 * second) entry_a filled-Inv refl refl (omega arith)

run-get-ne-panic_example : (get (run (new_dns_cache small_config) calls) key_a late).1 ≢ panic
run-get-ne-panic_example =
    run-get-ne-panic small_config calls key_a late (refl, (tt, (refl, (tt, (tt, tt)))))

effective_ttl_bounds_example :
    (calculate_effective_ttl 5 (pos 60) (pos 600) ≡ min (max (low (pos 60)) 5) (high (pos 600)))
    × (calculate_effective_ttl 5 (pos 60) (pos 600) ≤ high (pos 600))
    × (low (pos 60) ≤ high (pos 600) → low (pos 60) ≤ calculate_effective_ttl 5 (pos 60) (pos 600))
effective_ttl_bounds_example = effective_ttl_bounds 5 (pos 60) (pos 600)

copy_cached_response-Aged_example :
    let s = copy_cached_response response_a (120 * second) (pos 60) in
    let seconds = elapsed_seconds (120 * second) in
    let floor = floor_ttl (pos 60) in
    let raw = response_a.raw_msg in
    AllAged seconds floor (stored raw response_a.answer (λ m. m.answer)) s.answer
    × AllAged seconds floor (stored raw response_a.authority (λ m. m.ns)) s.authority
    × AllAged seconds floor (stored raw response_a.additional (λ m. m.extra)) s.additional
    × Shown raw s
    × All (λ rr. s.ttl ≤ rr.ttl) s.answer
    × (s.cached ≡ true)
    × SameOrigin response_a s
copy_cached_response-Aged_example = copy_cached_response-Aged response_a (120 * second) (pos 60)

prefetch_gives_up_example :
    should_prefetch_entry (fail_entry 30 (fail_entry 20 (fail_entry 10 entry_a))) small_config late
    ≡ false
prefetch_gives_up_example = prefetch_gives_up entry_a small_config 10 20 30 late
