-- ===== src/Dns/Response/Synthesis.antt =====
-- core/dns/response.go: what the synthesis of AAAA records does to an answer.
use v2ray_a.Base.{
  ◌≤◌, All, ◌≡◌, refl, ap, ◌∙◌, Bool, true, false, Option, none, some, List, [], ◌∷◌, ◌++◌, Text,
  any, arith, ◌⊎◌, inl, inr, Bool-cases, Option-cases,
}
use v2ray_a.Dns.Cache.Lifetimes.{answer_ttl-All}
use v2ray_a.Dns.Types.{DnsResponse, Msg, Rr, RrHeader}
use v2ray_a.Dns.Net.{to4}
use v2ray_a.Dns.Response.{
  synthesize_dns64, synthetic, synthetic_record, a_records, is_aaaa, to16, extract_records,
}

append-nil : (rs : List Rr) → rs ++ [] ≡ rs
append-nil [] = refl
append-nil (r ∷ rs) = ap (◌∷◌ r) (append-nil rs)

any-append : (rs new : List Rr) → any is_aaaa new ≡ true → any is_aaaa (rs ++ new) ≡ true
any-append [] new h = h
any-append (r ∷ rs) new h = ground (arith, any-append rs new h)

synthetic_shows :
    (prefix : Text) (records : List (RrHeader × Text))
    → (synthetic prefix records ≡ []) ⊎ (any is_aaaa (synthetic prefix records) ≡ true)
unfolding synthetic synthetic_record
synthetic_shows prefix [] = inl refl
synthetic_shows prefix ((header, ip) ∷ rest) = elim (Option-cases (to4 ip)) [
  | inl other ↦ rw (other, synthetic) (synthetic_shows prefix rest)
  | inr (v4, e) ↦ inr (rw (e, synthetic) refl)
]

-- An answer with an AAAA record is left alone.
shown :
    (enable : Bool) (p : Option Text) (m : Msg Rr)
    → any is_aaaa m.answer ≡ true
    → synthesize_dns64 enable p m ≡ m
unfolding synthesize_dns64
shown enable none m h = refl
shown false (some p) m h = refl
shown true (some p) m h = simp (h, synthesize_dns64)

synthesized :
    (p prefix : Text) (m : Msg Rr)
    → any is_aaaa m.answer ≡ false
    → to16 p ≡ some prefix
    → synthesize_dns64 true (some p) m
      ≡ record m { answer = m.answer ++ synthetic prefix (a_records m.answer) }
unfolding synthesize_dns64
synthesized p prefix m plain e = simp (plain, e, synthesize_dns64)

-- A second synthesis over the same message changes nothing, whatever the settings.
pub synthesize_dns64_idempotent :
    (enable : Bool) (p : Option Text) (m : Msg Rr)
    → synthesize_dns64 enable p (synthesize_dns64 enable p m) ≡ synthesize_dns64 enable p m
unfolding synthesize_dns64
synthesize_dns64_idempotent enable none m = refl
synthesize_dns64_idempotent false (some p) m = refl
synthesize_dns64_idempotent true (some p) m =
    let again = synthesize_dns64 true (some p) in
    elim (Bool-cases (any is_aaaa m.answer)) [
      | inl has ↦ ap again (shown true (some p) m has)
      | inr plain ↦ elim (Option-cases (to16 p)) [
        | inl bad ↦ let same : again m ≡ m = simp (plain, bad, synthesize_dns64) in ap again same
        | inr (prefix, e) ↦ elim (synthetic_shows prefix (a_records m.answer)) [
          | inl empty ↦
              ap again {y = m} (synthesized p prefix m plain e ∙ rw (empty, append-nil m.answer))
          | inr shows ↦ shown true (some p) (again m) (
              ap (λ x. any is_aaaa x.answer) (synthesized p prefix m plain e)
              ∙ any-append m.answer _ shows)
        ]
      ]
    ]

-- The response extracted from a message shows its answer and its code, with a TTL that is a lower
-- bound of those of the answer records.
extract_records_ttl :
    (m : Msg Rr)
    → (r : DnsResponse) × (extract_records (some m) ≡ some r)
      × (r.answer ≡ m.answer)
      × (r.rcode ≡ m.rcode)
      × All (λ rr. r.ttl ≤ rr.ttl) r.answer
unfolding extract_records
extract_records_ttl m = (_, refl, refl, refl, answer_ttl-All m.answer 0)
