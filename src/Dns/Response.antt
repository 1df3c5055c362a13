-- ===== src/Dns/Response.antt =====
-- core/dns/response.go: the records of a message as a response, its question as a query, and the
-- synthesis of AAAA records. dns.Fqdn is a parameter; a nil pointer is `none`.
pub mod Synthesis
use v2ray_a.Base.{
  ℕ, Bool, true, false, not, ◌&&◌, Option, none, some, List, [], ◌∷◌, ◌++◌, Text, eqb, any,
  if◌then◌else◌, length, take, codes,
}
use v2ray_a.Dns.Types.{
  DnsQuery, DnsResponse, Msg, Rr, RrHeader, Rdata, a_data, aaaa_data, opt_data, other_data,
  Question, type_aaaa,
}
use v2ray_a.Dns.Net.{to4}
use v2ray_a.Dns.Cache.Ttl.{least_ttl, answer_ttl}

-- The zero value of a query, which ExtractRecords leaves in its response.
abbrev pub no_query : DnsQuery
no_query = record { name = []; qtype = 0; qclass = 0; client_ip = none; is_bootstrap = false }

unfoldable pub extract_records : Option (Msg Rr) → Option DnsResponse
unfolding least_ttl
extract_records none = none
extract_records (some m) = some (record {
  query = no_query;
  raw_msg = some m;
  rcode = m.rcode;
  answer = m.answer;
  authority = m.ns;
  additional = m.extra;
  ttl = answer_ttl m.answer 0;
  upstream = [];
  proxy_tag = [];
  rtt = 0;
  cached = false;
})

pub data QuestionError : Type 0 where
  nil_message no_question : QuestionError

-- A query, or an error.
pub data Extracted : Type 0 where
  extracted : DnsQuery → Extracted
  not_extracted : QuestionError → Extracted

unfoldable pub extract_question : (Text → Text) → Option (Msg Rr) → Extracted
extract_question fqdn none = not_extracted nil_message
extract_question fqdn (some m) = elim m.question [
  | [] ↦ not_extracted no_question
  | q ∷ qs ↦ extracted (record no_query { name = fqdn q.name; qtype = q.qtype; qclass = q.qclass })
]

-- IP.To16: an address of four bytes in its IPv6 form.
unfoldable pub to16 : Text → Option Text
to16 ip =
    if eqb (length ip) 4
    then some (0 ∷ 0 ∷ 0 ∷ 0 ∷ 0 ∷ 0 ∷ 0 ∷ 0 ∷ 0 ∷ 0 ∷ 255 ∷ 255 ∷ ip)
    else if eqb (length ip) 16
    then some ip
    else none

abbrev pub is_aaaa : Rr → Bool
is_aaaa rr = eqb rr.rrtype type_aaaa

-- The records that are a *dns.A, by header and address.
unfoldable pub a_records : List Rr → List (RrHeader × Text)
a_records [] = []
a_records (rr ∷ rest) =
    let later = a_records rest in
    elim rr.rdata [
      | a_data ip ↦ (rr.header, ip) ∷ later
      | aaaa_data _ ↦ later
      | opt_data _ ↦ later
      | other_data _ ↦ later
    ]

unfoldable pub synthetic_record : Text → RrHeader → Text → Rr
synthetic_record prefix header v4 = record {
  header = record header { rrtype = type_aaaa };
  rdata = aaaa_data (take 12 prefix ++ v4);
}

-- The loop over the A records; an address that is no IPv4 address is passed over.
unfoldable pub synthetic : Text → List (RrHeader × Text) → List Rr
unfolding to4 synthetic_record
synthetic prefix [] = []
synthetic prefix ((header, ip) ∷ rest) =
    let later = synthetic prefix rest in
    elim (to4 ip) [ none ↦ later | some v4 ↦ synthetic_record prefix header v4 ∷ later ]

-- synthesizeDNS64, of a builder with the given settings. Without A records nothing is appended.
unfoldable pub synthesize_dns64 : Bool → Option Text → Msg Rr → Msg Rr
unfolding a_records synthetic to16
synthesize_dns64 enable none m = m
synthesize_dns64 enable (some dns64_prefix) m =
    if not enable then m else if any is_aaaa m.answer then m else (elim (to16 dns64_prefix) [
      | none ↦ m
      | some prefix ↦ record m { answer = m.answer ++ synthetic prefix (a_records m.answer) }
    ])
