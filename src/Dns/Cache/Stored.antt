-- ===== src/Dns/Cache/Stored.antt =====
-- core/dns/cache.go: a lookup copies the stored response through its pointer, so it matters
-- which entries hold a response.
use v2ray_a.Base.{
  ℕ, zero, suc, ◌-◌, ◌≡◌, ◌≢◌, refl, Bool, true, false, Option, none, some, List, [], ◌∷◌, ltb,
  if◌then◌else◌, All, arith, Bool-cases, Option-cases, inl, inr, take, subst, sym, lookup,
}
use v2ray_a.Dns.Types.{CacheKey, CacheConfig, DnsResponse, key_eq}
use v2ray_a.Dns.Cache.Lru.{find_value, drop_key, update, values, value}
use v2ray_a.Dns.Cache.Ops.{
  DnsCache, CacheEntry, miss, panic, found_response, get, set, clear, refresh_entry, new_entry,
  touch_entry, not_cacheable, new_dns_cache,
}
use v2ray_a.Dns.Cache.Prefetch.{
  set_prefetching, record_prefetch_failure, record_prefetch_success, write_entry, mark_prefetching,
  fail_entry, succeed_entry, count_prefetch,
}
use v2ray_a.Dns.Cache.Invariant.{
  Inv, Call, call_get, call_set, call_remove, call_clear, call_set_prefetching, call_record_failure,
  call_record_success, step, run, step-Inv, new_dns_cache-Inv,
}
use v2ray_a.Dns.Cache.Refinement.{
  view, find_entry, drop_entry, ideal_get, ideal_set, ideal_found, get-view, set-view,
  remove_key-view,
}

abbrev pub is_some : Option DnsResponse → Bool
is_some none = false
is_some (some r) = true

abbrev pub Stored : List CacheEntry → Type 0
Stored es = All (λ e. is_some e.response ≡ true) es

Stored-find :
    (k : CacheKey) (es : List CacheEntry) (v : CacheEntry)
    → Stored es
    → find_entry k es ≡ some v
    → is_some v.response ≡ true
unfolding find_value
Stored-find k [] v h e = cc
Stored-find k (w ∷ es) v h e = ground (arith, Stored-find k es v h.1)

Stored-drop : (k : CacheKey) (es : List CacheEntry) → Stored es → Stored (drop_entry k es)
unfolding drop_key
Stored-drop k [] h = tt
Stored-drop k (w ∷ es) h = ground (arith, Stored-drop k es h.1)

Stored-take : (n : ℕ) (es : List CacheEntry) → Stored es → Stored (take n es)
Stored-take zero es h = tt
Stored-take (suc n) [] h = tt
Stored-take (suc n) (w ∷ es) h = (h.0, Stored-take n es h.1)

Stored-ideal_get :
    (es : List CacheEntry) (k : CacheKey) (now : ℕ) → Stored es → Stored (ideal_get es k now)
unfolding touch_entry
Stored-ideal_get es k now h = elim (Option-cases (find_entry k es)) [
  | inl absent ↦ rw (absent, ideal_get) h
  | inr (v, found) ↦
      rw (found, ideal_get) (ground (arith, Stored-drop k es h, Stored-find k es v h found))
]

Stored-ideal_set :
    (config : CacheConfig) (size : ℕ) (es : List CacheEntry) (k : CacheKey) (resp : DnsResponse)
    (ttl now : ℕ)
    → Stored es
    → Stored (ideal_set config size es k (some resp) ttl now)
unfolding refresh_entry new_entry
Stored-ideal_set config size es k resp ttl now h =
    elim (Bool-cases (not_cacheable config (some resp))) [
      | inl refused ↦ rw (refused, ideal_set) h
      | inr stored ↦ elim (Option-cases (find_entry k es)) [
        | inl absent ↦
            rw (stored, absent, ideal_set)
              (Stored-take size (new_entry config k (some resp) ttl now ∷ es) (refl, h))
        | inr (v, found) ↦ rw (stored, found, ideal_set) (refl, Stored-drop k es h)
      ]
    ]

Stored-update :
    (f : CacheEntry → CacheEntry)
    → ((v : CacheEntry) → (f v).response ≡ v.response)
    → (i : ℕ) (l : List (ℕ × CacheEntry)) → Stored (values l)
    → Stored (values (update i f l))
unfolding update
Stored-update f keeps i [] h = tt
Stored-update f keeps i ((j, v) ∷ l) h = ground (arith, Stored-update f keeps i l h.1, keeps v)

Stored-write_entry :
    (f : CacheEntry → CacheEntry)
    → ((v : CacheEntry) → (f v).response ≡ v.response)
    → (c : DnsCache) (k : CacheKey) → Stored (view c)
    → Stored (view (write_entry f c k))
Stored-write_entry f keeps c k h = elim (Option-cases (lookup k c.entries)) [
  | inl missing ↦ rw (missing, write_entry) h
  | inr (i, here) ↦ rw (here, write_entry) (Stored-update f keeps i c.lru_list h)
]

-- The calls that core/dns makes: every stored response is there.
abbrev pub IsProper : Call → Type 0
IsProper (call_set k resp ttl now) = is_some resp ≡ true
IsProper (call_get k now) = Unit
IsProper (call_remove k) = Unit
IsProper call_clear = Unit
IsProper (call_set_prefetching k status) = Unit
IsProper (call_record_failure k now) = Unit
IsProper (call_record_success k) = Unit

pub get-Stored :
    (c : DnsCache) (k : CacheKey) (now : ℕ)
    → Inv c
    → Stored (view c)
    → Stored (view (get c k now).0)
get-Stored c k now h s =
    subst Stored (sym (get-view c k h now).0) (Stored-ideal_get (view c) k now s)

pub set-Stored :
    (c : DnsCache) (k : CacheKey) (resp : DnsResponse) (ttl now : ℕ)
    → Inv c
    → Stored (view c)
    → Stored (view (set c k (some resp) ttl now))
set-Stored c k resp ttl now h s =
    subst Stored (sym (set-view c k h (some resp) ttl now))
      (Stored-ideal_set c.config c.max_size (view c) k resp ttl now s)

pub set_prefetching-Stored :
    (c : DnsCache) (k : CacheKey) (status : Bool)
    → Stored (view c)
    → Stored (view (set_prefetching c k status))
unfolding set_prefetching mark_prefetching
set_prefetching-Stored c k status s = elim (Option-cases (lookup k c.entries)) [
  | inl missing ↦ rw (missing, set_prefetching) s
  | inr (i, here) ↦ elim (Option-cases (value i c.lru_list)) [
    | inl gone ↦ rw (here, gone, set_prefetching) s
    | inr (v, at) ↦
        rw (here, at, set_prefetching)
          (counted status _ (Stored-write_entry (mark_prefetching status) (λ w. refl) c k s))
  ]
]
  where
    counted :
        (b : Bool) (d : DnsCache)
        → Stored (view d)
        → Stored (view (if b then count_prefetch d else d))
    counted true d t = t
    counted false d t = t

pub record_prefetch_failure-Stored :
    (c : DnsCache) (k : CacheKey) (now : ℕ)
    → Stored (view c)
    → Stored (view (record_prefetch_failure c k now))
unfolding record_prefetch_failure
record_prefetch_failure-Stored c k now s = Stored-write_entry (fail_entry now) (λ v. refl) c k s

pub record_prefetch_success-Stored :
    (c : DnsCache) (k : CacheKey) → Stored (view c) → Stored (view (record_prefetch_success c k))
unfolding record_prefetch_success
record_prefetch_success-Stored c k s = Stored-write_entry succeed_entry (λ v. refl) c k s

step-Stored :
    (c : DnsCache) (x : Call) → IsProper x → Inv c → Stored (view c) → Stored (view (step c x))
unfolding step clear
step-Stored c (call_get k now) p h s = get-Stored c k now h s
step-Stored c (call_set k none ttl now) p h s = cc
step-Stored c (call_set k (some resp) ttl now) p h s = set-Stored c k resp ttl now h s
step-Stored c (call_remove k) p h s =
    subst Stored (sym (remove_key-view c k h)) (Stored-drop k (view c) s)
step-Stored c call_clear p h s = tt
step-Stored c (call_set_prefetching k status) p h s = set_prefetching-Stored c k status s
step-Stored c (call_record_failure k now) p h s = record_prefetch_failure-Stored c k now s
step-Stored c (call_record_success k) p h s = record_prefetch_success-Stored c k s

run-Stored :
    (c : DnsCache) (calls : List Call)
    → All IsProper calls
    → Inv c
    → Stored (view c)
    → Inv (run c calls) × Stored (view (run c calls))
unfolding run
run-Stored c [] p h s = (h, s)
run-Stored c (x ∷ xs) p h s =
    run-Stored (step c x) xs p.1 (step-Inv c x h) (step-Stored c x p.0 h s)

-- A lookup in a cache whose entries all have responses does not panic.
pub get-ne-panic :
    (c : DnsCache) (k : CacheKey) (now : ℕ) → Inv c → Stored (view c) → (get c k now).1 ≢ panic
get-ne-panic c k now h s =
    subst (λ x. x ≢ panic) (sym (get-view c k h now).1)
      (elim (Option-cases (find_entry k (view c))) [
        | inl absent ↦ rw (absent, ideal_found) (λ e. cc)
        | inr (v, found) ↦
            rw (found, ideal_found)
              (found_ok v.response (Stored-find k (view c) v s found) v.expires_at v.stored_at)
      ])
  where
    found_ok :
        (o : Option DnsResponse)
        → is_some o ≡ true
        → (ends begins : ℕ)
        → (if ltb ends now then miss else found_response o (now - begins) c.config.min_ttl) ≢ panic
    found_ok none p ends begins = cc
    found_ok (some r) p ends begins = ground arith

-- Whatever calls were made before, in whatever order, as long as each stored a response, a lookup
-- does not panic.
pub run-get-ne-panic :
    (config : CacheConfig) (calls : List Call) (k : CacheKey) (now : ℕ)
    → All IsProper calls
    → (get (run (new_dns_cache config) calls) k now).1 ≢ panic
unfolding new_dns_cache
run-get-ne-panic config calls k now p =
    let (h, s) = run-Stored (new_dns_cache config) calls p (new_dns_cache-Inv config) tt in
    get-ne-panic (run (new_dns_cache config) calls) k now h s
