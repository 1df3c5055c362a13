-- ===== src/Dns/Cache/Ttl.antt =====
-- core/dns/cache.go: the lifetimes of entries, and the lifetimes that a cached answer shows.
use v2ray_a.Base.{
  ℕ, ◌-◌, ◌/◌, ◌%◌, ◌^◌, Bool, true, false, ◌||◌, not, Option, none, some, List, [], ◌∷◌, ℤ, pos,
  is_positive, to_u32, eqb_ℤ, ltb, eqb, if◌then◌else◌, map,
}
use v2ray_a.Dns.Types.{
  DnsResponse, CacheConfig, Rr, Msg, rcode_success, rcode_name_error, rcode_server_failure,
  rcode_refused, second, type_opt, type_tsig,
}

-- `if minTTL <= 0 { minTTL = 60 }`, and so for the other settings.
abbrev pub or_default : ℤ → ℕ → ℤ
or_default x d = if is_positive x then x else pos d

unfoldable pub calculate_effective_ttl : ℕ → ℤ → ℤ → ℕ
calculate_effective_ttl original_ttl min_ttl max_ttl =
    let lo = to_u32 (or_default min_ttl 60) in
    let hi = to_u32 (or_default max_ttl 86400) in
    let raised = if ltb original_ttl lo then lo else original_ttl in
    if ltb hi raised then hi else raised

unfoldable pub negative_ttl : ℤ → ℕ
negative_ttl rcode =
    if eqb_ℤ rcode rcode_name_error
    then 60
    else if eqb_ℤ rcode rcode_server_failure
    then 30
    else if eqb_ℤ rcode rcode_refused
    then 10
    else 5

-- A nil response counts as neither negative nor successful.
abbrev pub is_negative_response : Option DnsResponse → Bool
is_negative_response none = false
is_negative_response (some resp) = not (eqb_ℤ resp.rcode rcode_success)

unfoldable pub compute_effective_ttl : Option DnsResponse → ℕ → CacheConfig → ℕ
unfolding calculate_effective_ttl negative_ttl
compute_effective_ttl none original_ttl config =
    calculate_effective_ttl original_ttl config.min_ttl config.max_ttl
compute_effective_ttl (some resp) original_ttl config =
    if not (eqb_ℤ resp.rcode rcode_success)
    then negative_ttl resp.rcode
    else calculate_effective_ttl original_ttl config.min_ttl config.max_ttl

-- One round of the loop of decreaseRecordTTLs.
unfoldable pub decrease_ttl : ℕ → ℕ → Rr → Rr
decrease_ttl elapsed min_ttl rr =
    if eqb rr.rrtype type_opt || eqb rr.rrtype type_tsig
    then rr
    else (let less = if ltb elapsed rr.ttl then rr.ttl - elapsed else 0 in
        record rr {
          header = record (rr.header) { ttl = if ltb less min_ttl then min_ttl else less };
        })

unfoldable pub decrease_record_ttls : List Rr → ℕ → ℕ → List Rr
unfolding decrease_ttl
decrease_record_ttls records elapsed min_ttl = map (decrease_ttl elapsed min_ttl) records

-- The loops that take the least TTL of an answer, from its first record on.
unfoldable pub least_ttl : ℕ → List Rr → ℕ
least_ttl acc [] = acc
least_ttl acc (rr ∷ rest) = least_ttl (if ltb rr.ttl acc then rr.ttl else acc) rest

abbrev pub answer_ttl : List Rr → ℕ → ℕ
answer_ttl [] unchanged = unchanged
answer_ttl (rr ∷ rest) unchanged = least_ttl rr.ttl rest

-- The records that copyCachedResponse works on: those of the raw message, if there is one.
abbrev pub cached_answer : DnsResponse → List Rr
cached_answer r = elim r.raw_msg [ none ↦ r.answer | some m ↦ m.answer ]

abbrev pub cached_authority : DnsResponse → List Rr
cached_authority r = elim r.raw_msg [ none ↦ r.authority | some m ↦ m.ns ]

abbrev pub cached_additional : DnsResponse → List Rr
cached_additional r = elim r.raw_msg [ none ↦ r.additional | some m ↦ m.extra ]

-- The copied message shares its records with the copied response, so it shows the new TTLs too.
abbrev pub cached_msg : Option (Msg Rr) → List Rr → List Rr → List Rr → Option (Msg Rr)
cached_msg none answer authority additional = none
cached_msg (some m) answer authority additional =
    some (record m { answer = answer; ns = authority; extra = additional })

abbrev pub elapsed_seconds : ℕ → ℕ
elapsed_seconds elapsed = (elapsed / second) % 2 ^ 32

abbrev pub floor_ttl : ℤ → ℕ
floor_ttl configured_min_ttl = to_u32 (or_default configured_min_ttl 60)

unfoldable pub copy_cached_response : DnsResponse → ℕ → ℤ → DnsResponse
unfolding decrease_record_ttls least_ttl
copy_cached_response response elapsed configured_min_ttl =
    let min_ttl = floor_ttl configured_min_ttl in
    let seconds = elapsed_seconds elapsed in
    let answer = decrease_record_ttls (cached_answer response) seconds min_ttl in
    let authority = decrease_record_ttls (cached_authority response) seconds min_ttl in
    let additional = decrease_record_ttls (cached_additional response) seconds min_ttl in
    record response {
      raw_msg = cached_msg response.raw_msg answer authority additional;
      answer = answer;
      authority = authority;
      additional = additional;
      ttl = answer_ttl answer response.ttl;
      cached = true;
    }
