-- ===== src/Dns/Cache/Invariant.antt =====
-- core/dns/cache.go: the well-formedness of the cache, and what each method does to it.
use v2ray_a.Base.{
  ℕ, suc, ◌<◌, ◌≤◌, ◌≡◌, refl, Bool, true, false, Option, some, List, [], ◌∷◌, ltb, if◌then◌else◌,
  length, arith, Bool-cases, Option-cases, inl, inr, lookup, ℤ, pos, negsuc,
}
use v2ray_a.Dns.Types.{CacheKey, CacheConfig, DnsResponse, key_eq}
use v2ray_a.Dns.Cache.Lru.{
  value, remove, update, back, find, length-remove, value-find, back_of_pos,
}
use v2ray_a.Dns.Cache.Index.{
  Agree, locate, delete-Agree, front-Agree, push-Agree, update-Agree, length-update, find-back,
}
use v2ray_a.Dns.Cache.Ops.{
  DnsCache, CacheEntry, new_dns_cache, get, set, remove_key, remove_element, clear, evict,
  refresh_entry, new_entry, touch_entry, size_or_default, CacheStats, not_cacheable,
}
use v2ray_a.Dns.Cache.Branches.{
  get_missing, get_expired, get_fresh, set_refused, set_new, set_old, evict_over, evict_fits,
  remove_key_missing, remove_key_present,
}
use v2ray_a.Dns.Cache.Prefetch.{
  set_prefetching, record_prefetch_failure, record_prefetch_success, mark_prefetching, fail_entry,
  succeed_entry, write_entry, count_prefetch,
}

abbrev pub entry_key : CacheEntry → CacheKey
entry_key entry = entry.key

pub record Inv (c : DnsCache) : Type 0 where
  pub agrees : Agree entry_key c.next_elem c.entries c.lru_list
  pub bounded : length c.lru_list ≤ c.max_size
  pub positive : 0 < c.max_size

size_or_default-pos : (x : ℤ) → 0 < size_or_default x
size_or_default-pos (pos n) = ground arith
size_or_default-pos (negsuc n) = ground arith

pub new_dns_cache-Inv : (config : CacheConfig) → Inv (new_dns_cache config)
unfolding new_dns_cache lookup find
new_dns_cache-Inv config = record {
  agrees = record { distinct = tt; indexed = λ k. refl };
  bounded = omega arith;
  positive = size_or_default-pos config.size;
}

restat-Inv : (c : DnsCache) (s : CacheStats) → Inv c → Inv (record c { stats = s })
restat-Inv c s h = record { agrees = h.agrees; bounded = h.bounded; positive = h.positive }

-- The four ways in which the methods change the map and the list.
module _ (c : DnsCache) (k : CacheKey) (i : ℕ) (v : CacheEntry) (h : Inv c)
    (found : find entry_key k c.lru_list ≡ some (i, v)) (at : value i c.lru_list ≡ some v)
    (same : v.key ≡ k) where
  delete-Inv : Inv (remove_element c i)
  unfolding remove_element
  delete-Inv = rw at (record {
    agrees = rw same (delete-Agree entry_key c.next_elem k c.entries c.lru_list i v h.agrees found);
    bounded = omega (arith, length-remove i c.lru_list v at, h.bounded);
    positive = h.positive;
  })

  front-Inv :
      (w : CacheEntry) → w.key ≡ k → Inv (record c { lru_list = (i, w) ∷ remove i c.lru_list })
  front-Inv w keeps = record {
    agrees = front-Agree entry_key c.next_elem k c.entries c.lru_list i v w h.agrees found keeps;
    bounded = omega (arith, length-remove i c.lru_list v at, h.bounded);
    positive = h.positive;
  }

write-Inv :
    (c : DnsCache) (f : CacheEntry → CacheEntry)
    → ((v : CacheEntry) → (f v).key ≡ v.key)
    → (i : ℕ) → Inv c
    → Inv (record c { lru_list = update i f c.lru_list })
write-Inv c f keeps i h = record {
  agrees = update-Agree entry_key f keeps c.next_elem i c.entries c.lru_list h.agrees;
  bounded = omega (arith, length-update entry_key f keeps i c.lru_list, h.bounded);
  positive = h.positive;
}

evict-Inv :
    (c : DnsCache)
    → Agree entry_key c.next_elem c.entries c.lru_list
    → length c.lru_list ≤ suc c.max_size
    → 0 < c.max_size
    → Inv (evict c)
evict-Inv c g b p = elim (Bool-cases (ltb c.max_size (length c.lru_list))) [
  | inl over ↦ over-Inv over (back_of_pos c.lru_list (ground arith))
  | inr fits ↦ rw (evict_fits c fits) (record { agrees = g; bounded = ground arith; positive = p })
]
  where
    over-Inv :
        ltb c.max_size (length c.lru_list) ≡ true
        → (y : ℕ × CacheEntry) × (back c.lru_list ≡ some y)
        → Inv (evict c)
    over-Inv over ((i, v), last) =
        let found = find-back entry_key c.next_elem c.lru_list i v g.distinct last in
        let at = value-find entry_key c.next_elem v.key c.lru_list i v g.distinct found in
        rw (evict_over c i v over last at) (record {
          agrees = delete-Agree entry_key c.next_elem v.key c.entries c.lru_list i v g found;
          bounded = omega (arith, length-remove i c.lru_list v at, b);
          positive = p;
        })

pub set-Inv :
    (c : DnsCache) (k : CacheKey) (resp : Option DnsResponse) (ttl now : ℕ)
    → Inv c
    → Inv (set c k resp ttl now)
unfolding refresh_entry new_entry
set-Inv c k resp ttl now h = elim (Bool-cases (not_cacheable c.config resp)) [
  | inl refused ↦ rw (set_refused c k resp ttl now refused) h
  | inr stored ↦ elim (locate entry_key c.next_elem k c.entries c.lru_list h.agrees) [
    | inl (missing, absent) ↦ rw (set_new c k resp ttl now stored missing) (
        restat-Inv _ _ (
          evict-Inv _
            (push-Agree entry_key c.next_elem k c.entries c.lru_list
              (new_entry c.config k resp ttl now) h.agrees absent refl)
            (omega (arith, h.bounded)) h.positive))
    | inr (i, v, here, found, at, same) ↦
        rw (set_old c k i v here at resp ttl now stored)
          (restat-Inv _ _ (front-Inv c k i v h found at same _ same))
  ]
]

pub get-Inv : (c : DnsCache) (k : CacheKey) (now : ℕ) → Inv c → Inv (get c k now).0
unfolding touch_entry
get-Inv c k now h = elim (locate entry_key c.next_elem k c.entries c.lru_list h.agrees) [
  | inl (missing, absent) ↦ rw (get_missing c k now missing) (restat-Inv c _ h)
  | inr (i, v, here, found, at, same) ↦ elim (Bool-cases (ltb v.expires_at now)) [
    | inl old ↦
        rw (get_expired c k i v here at now old)
          (restat-Inv _ _ (delete-Inv c k i v h found at same))
    | inr fresh ↦
        rw (get_fresh c k i v here at now fresh)
          (restat-Inv _ _ (front-Inv c k i v h found at same _ same))
  ]
]

pub remove_key-Inv : (c : DnsCache) (k : CacheKey) → Inv c → Inv (remove_key c k)
remove_key-Inv c k h = elim (locate entry_key c.next_elem k c.entries c.lru_list h.agrees) [
  | inl (missing, absent) ↦ rw (remove_key_missing c k missing) h
  | inr (i, v, here, found, at, same) ↦
      rw (remove_key_present c k i v here at) (restat-Inv _ _ (delete-Inv c k i v h found at same))
]

pub clear-Inv : (c : DnsCache) → Inv c → Inv (clear c)
unfolding clear lookup find
clear-Inv c h = record {
  agrees = record { distinct = tt; indexed = λ k. refl };
  bounded = omega arith;
  positive = h.positive;
}

pub write_entry-Inv :
    (f : CacheEntry → CacheEntry)
    → ((v : CacheEntry) → (f v).key ≡ v.key)
    → (c : DnsCache) (k : CacheKey) → Inv c
    → Inv (write_entry f c k)
write_entry-Inv f keeps c k h = elim (Option-cases (lookup k c.entries)) [
  | inl missing ↦ rw (missing, write_entry) h
  | inr (i, here) ↦ rw (here, write_entry) (write-Inv c f keeps i h)
]

pub set_prefetching-Inv :
    (c : DnsCache) (k : CacheKey) (s : Bool) → Inv c → Inv (set_prefetching c k s)
unfolding set_prefetching mark_prefetching
set_prefetching-Inv c k s h = elim (locate entry_key c.next_elem k c.entries c.lru_list h.agrees) [
  | inl (missing, absent) ↦ rw (missing, set_prefetching) h
  | inr (i, v, here, found, at, same) ↦
      rw (here, at, set_prefetching)
        (marked s (write_entry-Inv (mark_prefetching s) (λ w. refl) c k h))
]
  where
    marked : (s : Bool) → {d : DnsCache} → Inv d → Inv (if s then count_prefetch d else d)
    marked true w = restat-Inv _ _ w
    marked false w = w

-- A call of a method, with the time at which it reads the clock.
pub data Call : Type 0 where
  call_get : CacheKey → ℕ → Call
  call_set : CacheKey → Option DnsResponse → ℕ → ℕ → Call
  call_remove : CacheKey → Call
  call_clear : Call
  call_set_prefetching : CacheKey → Bool → Call
  call_record_failure : CacheKey → ℕ → Call
  call_record_success : CacheKey → Call

unfoldable pub step : DnsCache → Call → DnsCache
step c (call_get k now) = (get c k now).0
step c (call_set k resp ttl now) = set c k resp ttl now
step c (call_remove k) = remove_key c k
step c call_clear = clear c
step c (call_set_prefetching k status) = set_prefetching c k status
step c (call_record_failure k now) = record_prefetch_failure c k now
step c (call_record_success k) = record_prefetch_success c k

pub step-Inv : (c : DnsCache) (x : Call) → Inv c → Inv (step c x)
unfolding step record_prefetch_failure record_prefetch_success
step-Inv c (call_get k now) h = get-Inv c k now h
step-Inv c (call_set k resp ttl now) h = set-Inv c k resp ttl now h
step-Inv c (call_remove k) h = remove_key-Inv c k h
step-Inv c call_clear h = clear-Inv c h
step-Inv c (call_set_prefetching k status) h = set_prefetching-Inv c k status h
step-Inv c (call_record_failure k now) h = write_entry-Inv (fail_entry now) (λ v. refl) c k h
step-Inv c (call_record_success k) h = write_entry-Inv succeed_entry (λ v. refl) c k h

-- The methods are atomic, so whatever goroutines call them make one sequence of calls.
unfoldable pub run : DnsCache → List Call → DnsCache
run c [] = c
run c (x ∷ xs) = run (step c x) xs

run_of-Inv : (c : DnsCache) (calls : List Call) → Inv c → Inv (run c calls)
unfolding run
run_of-Inv c [] h = h
run_of-Inv c (x ∷ xs) h = run_of-Inv (step c x) xs (step-Inv c x h)

-- From a new cache, whatever calls are made in whatever order: the map and the list hold the same
-- keys by the same elements, no key is held twice, and no more entries than the size are held.
pub run-Inv : (config : CacheConfig) (calls : List Call) → Inv (run (new_dns_cache config) calls)
run-Inv config calls = run_of-Inv (new_dns_cache config) calls (new_dns_cache-Inv config)
