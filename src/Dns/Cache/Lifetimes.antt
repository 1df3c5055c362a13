-- ===== src/Dns/Cache/Lifetimes.antt =====
-- The lifetimes of core/dns/cache.go: what the clamping gives, and when an entry is fetched ahead.
use v2ray_a.Base.{
  ℕ, ◌+◌, ◌-◌, ◌<◌, ◌≤◌, ◌≡◌, refl, Bool, true, false, ◌||◌, List, [], ◌∷◌, eqb, ltb, if◌then◌else◌,
  arith, ◌⊎◌, min, max, All, Option, none, some, ℤ, to_u32,
}
use v2ray_a.Dns.Types.{CacheConfig, DnsResponse, Msg, Rr, type_opt, type_tsig}
use v2ray_a.Dns.Cache.Ttl.{
  or_default, calculate_effective_ttl, decrease_ttl, decrease_record_ttls, least_ttl,
  copy_cached_response, floor_ttl, elapsed_seconds, answer_ttl, cached_msg,
}
use v2ray_a.Dns.Cache.Ops.{CacheEntry}
use v2ray_a.Dns.Cache.Prefetch.{prefetch_backoff, should_prefetch_entry, fail_entry}

-- The two bounds as the code reads them from the settings.
abbrev pub low : ℤ → ℕ
low min_ttl = to_u32 (or_default min_ttl 60)

abbrev pub high : ℤ → ℕ
high max_ttl = to_u32 (or_default max_ttl 86400)

-- The code is the formula of its comment, min(max(minTTL, originalTTL), maxTTL): so it stays
-- below the upper bound, and above the lower one where the bounds are in order.
pub effective_ttl_bounds :
    (t : ℕ) (min_ttl max_ttl : ℤ)
    → (calculate_effective_ttl t min_ttl max_ttl ≡ min (max (low min_ttl) t) (high max_ttl))
      × (calculate_effective_ttl t min_ttl max_ttl ≤ high max_ttl)
      × (low min_ttl ≤ high max_ttl → low min_ttl ≤ calculate_effective_ttl t min_ttl max_ttl)
unfolding calculate_effective_ttl
effective_ttl_bounds t min_ttl max_ttl =
    (clamp t (low min_ttl) (high max_ttl), ground arith, λ h. ground arith)
  where
    clamp :
        (t lo hi : ℕ)
        → (let raised = if ltb t lo then lo else t in if ltb hi raised then hi else raised)
          ≡ min (max lo t) hi
    clamp t lo hi = ground arith

-- OPT and TSIG records carry no lifetime in their TTL field.
abbrev pub is_pseudo : Rr → Bool
is_pseudo rr = eqb rr.rrtype type_opt || eqb rr.rrtype type_tsig

least_ttl-le : (acc : ℕ) (rs : List Rr) → least_ttl acc rs ≤ acc
unfolding least_ttl
least_ttl-le acc [] = omega arith
least_ttl-le acc (r ∷ rs) = ground (arith, least_ttl-le (if ltb r.ttl acc then r.ttl else acc) rs)

least_ttl-All :
    (acc bound : ℕ) (rs : List Rr) → bound ≤ least_ttl acc rs → All (λ r. bound ≤ r.ttl) rs
unfolding least_ttl
least_ttl-All acc bound [] h = tt
least_ttl-All acc bound (r ∷ rs) h =
    let next = if ltb r.ttl acc then r.ttl else acc in
    (ground (arith, least_ttl-le next rs), least_ttl-All next bound rs h)

pub answer_ttl-All : (rs : List Rr) (other : ℕ) → All (λ r. answer_ttl rs other ≤ r.ttl) rs
answer_ttl-All [] other = tt
answer_ttl-All (r ∷ rs) other =
    (least_ttl-le r.ttl rs, least_ttl-All r.ttl (least_ttl r.ttl rs) rs (omega arith))

-- How an aged record relates to its source: pseudo records stay as they are, the others keep all
-- but the TTL, which falls by the seconds passed and no further than to the floor.
abbrev pub Aged : ℕ → ℕ → Rr → Rr → Type 0
Aged seconds floor old new =
    (new.rdata ≡ old.rdata)
    × (new.name ≡ old.name)
    × (new.rrtype ≡ old.rrtype)
    × (new.class ≡ old.class)
    × (new.ttl ≡ (if is_pseudo old then old.ttl else max floor (old.ttl - seconds)))

abbrev pub AllAged : ℕ → ℕ → List Rr → List Rr → Type 0
AllAged seconds floor [] [] = Unit {0}
AllAged seconds floor [] (new ∷ news) = ⊥
AllAged seconds floor (old ∷ olds) [] = ⊥
AllAged seconds floor (old ∷ olds) (new ∷ news) =
    Aged seconds floor old new × AllAged seconds floor olds news

decrease_ttl-Aged :
    (seconds floor : ℕ) (r : Rr) → Aged seconds floor r (decrease_ttl seconds floor r)
unfolding decrease_ttl
decrease_ttl-Aged seconds floor r = ground arith

decrease-AllAged :
    (seconds floor : ℕ) (rs : List Rr)
    → AllAged seconds floor rs (decrease_record_ttls rs seconds floor)
unfolding decrease_record_ttls
decrease-AllAged seconds floor [] = tt
decrease-AllAged seconds floor (r ∷ rs) =
    (decrease_ttl-Aged seconds floor r, decrease-AllAged seconds floor rs)

-- A section of a stored response: that of its raw message, or its own if it has none.
abbrev pub stored : Option (Msg Rr) → List Rr → (Msg Rr → List Rr) → List Rr
stored none own of_msg = own
stored (some m) own of_msg = of_msg m

stored-AllAged :
    (raw : Option (Msg Rr)) (own : List Rr) (of_msg : Msg Rr → List Rr) (seconds floor : ℕ)
    → AllAged seconds floor
        (stored raw own of_msg)
        (decrease_record_ttls (elim raw [ none ↦ own | some m ↦ of_msg m ]) seconds floor)
stored-AllAged none own of_msg seconds floor = decrease-AllAged seconds floor own
stored-AllAged (some m) own of_msg seconds floor = decrease-AllAged seconds floor (of_msg m)

-- The raw message of a copy, where the stored response has one: its header and questions are kept,
-- and its sections are those that the copy shows.
abbrev pub Shown : Option (Msg Rr) → DnsResponse → Type 0
Shown none s = s.raw_msg ≡ none
Shown (some m) s =
    (new : Msg Rr) × (s.raw_msg ≡ some new)
    × ((new.answer ≡ s.answer) × (new.ns ≡ s.authority) × (new.extra ≡ s.additional))
    × (record new { answer = []; ns = []; extra = [] }
        ≡ record m { answer = []; ns = []; extra = [] })

-- All that a copy has but its sections, its TTL, its raw message and its mark is as it is stored.
abbrev pub SameOrigin : DnsResponse → DnsResponse → Type 0
SameOrigin r s =
    (s.query ≡ r.query)
    × (s.rcode ≡ r.rcode)
    × (s.upstream ≡ r.upstream)
    × (s.proxy_tag ≡ r.proxy_tag)
    × (s.rtt ≡ r.rtt)

raw-Shown :
    (raw : Option (Msg Rr)) (r : DnsResponse) (answer authority additional : List Rr) (ttl : ℕ)
    → Shown raw (record r {
      raw_msg = cached_msg raw answer authority additional;
      answer = answer;
      authority = authority;
      additional = additional;
      ttl = ttl;
      cached = true;
    })
raw-Shown none r answer authority additional ttl = refl
raw-Shown (some m) r answer authority additional ttl = (
  record m { answer = answer; ns = authority; extra = additional },
  refl,
  (refl, refl, refl),
  refl,
)

-- A cached answer shows the answer, authority and additional records of the stored response, those of
-- its raw message if it has one, in order and each aged by the seconds elapsed, OPT and TSIG records
-- as they are; its raw message, if there is one, shows the same sections under the stored header and
-- questions. It is marked as cached, and its TTL is a lower bound of those of its answer. Its query,
-- code, upstream, proxy tag and round-trip time are as they are stored.
pub copy_cached_response-Aged :
    (r : DnsResponse) (elapsed : ℕ) (min_ttl : ℤ)
    → let s = copy_cached_response r elapsed min_ttl in
      let seconds = elapsed_seconds elapsed in
      let floor = floor_ttl min_ttl in
      AllAged seconds floor (stored r.raw_msg r.answer (λ m. m.answer)) s.answer
      × AllAged seconds floor (stored r.raw_msg r.authority (λ m. m.ns)) s.authority
      × AllAged seconds floor (stored r.raw_msg r.additional (λ m. m.extra)) s.additional
      × Shown r.raw_msg s
      × All (λ rr. s.ttl ≤ rr.ttl) s.answer
      × (s.cached ≡ true)
      × SameOrigin r s
unfolding copy_cached_response
copy_cached_response-Aged r elapsed min_ttl = (
  stored-AllAged r.raw_msg r.answer (λ m. m.answer) _ _,
  stored-AllAged r.raw_msg r.authority (λ m. m.ns) _ _,
  stored-AllAged r.raw_msg r.additional (λ m. m.extra) _ _,
  raw-Shown r.raw_msg r _ _ _ _,
  answer_ttl-All _ r.ttl,
  refl,
  (refl, refl, refl, refl, refl),
)

-- An entry is fetched ahead only if the setting asks for it, no fetch is on its way, fewer than
-- three failed, and the pause after the last failure is over.
should_prefetch_entry_guard :
    (e : CacheEntry) (config : CacheConfig) (now : ℕ)
    → should_prefetch_entry e config now ≡ true
    → (config.prefetch ≡ true)
      × (e.prefetching ≡ false)
      × (e.prefetch_fail_count < 3)
      × ((e.prefetch_fail_count ≡ 0)
          ⊎ (e.last_prefetch_fail + prefetch_backoff e.prefetch_fail_count ≤ now))
unfolding should_prefetch_entry
should_prefetch_entry_guard e config now h = ground arith

-- After three failures in a row the entry is never fetched ahead again, whatever time passes.
pub prefetch_gives_up :
    (e : CacheEntry) (config : CacheConfig) (t1 t2 t3 now : ℕ)
    → should_prefetch_entry (fail_entry t3 (fail_entry t2 (fail_entry t1 e))) config now ≡ false
unfolding should_prefetch_entry fail_entry
prefetch_gives_up e config t1 t2 t3 now = ground arith
