-- ===== src/Dns/Types.antt =====
-- core/dns/types.go and the parts of the messages of github.com/miekg/dns that core/dns reads.
-- Names, addresses and tags are byte strings; times are nanoseconds since Go's zero time, and
-- durations nanoseconds. The counters of the source are taken to stay in their range.
use v2ray_a.Base.{
  ℕ, ◌≡◌, ◌↔◌, Bool, true, ◌&&◌, Option, List, ℤ, Text, text_beq, text_beq_iff, eqb, Eq, arith,
}

-- The record types and response codes that the source names by constants of miekg/dns.
abbrev pub type_a : ℕ
type_a = 1

abbrev pub type_aaaa : ℕ
type_aaaa = 28

abbrev pub type_opt : ℕ
type_opt = 41

abbrev pub type_tsig : ℕ
type_tsig = 250

abbrev pub rcode_success : ℤ
rcode_success = ℤ.pos 0

abbrev pub rcode_server_failure : ℤ
rcode_server_failure = ℤ.pos 2

abbrev pub rcode_name_error : ℤ
rcode_name_error = ℤ.pos 3

abbrev pub rcode_refused : ℤ
rcode_refused = ℤ.pos 5

-- time.Second
abbrev pub second : ℕ
second = 1_000_000_000

pub record RrHeader : Type 0 where
  pub name : Text
  pub rrtype : ℕ
  pub class : ℕ
  pub ttl : ℕ

-- An EDNS0 option: the local kind, and any other.
pub data EdnsOption : Type 0 where
  local_option : ℕ → Text → EdnsOption
  other_option : ℕ → Text → EdnsOption

pub data Rdata : Type 0 where
  a_data : Text → Rdata
  aaaa_data : Text → Rdata
  opt_data : List EdnsOption → Rdata
  other_data : Text → Rdata

pub record Rr : Type 0 where
  pub header : RrHeader
  pub open header use *
  pub rdata : Rdata

pub record Question : Type 0 where
  pub name : Text
  pub qtype : ℕ
  pub qclass : ℕ

-- dns.Msg over the type of its records: the validator also meets nil records.
pub record Msg (R : Type 0) : Type 0 where
  pub id : ℕ
  pub response : Bool
  pub rcode : ℤ
  pub recursion_available : Bool
  pub authoritative : Bool
  pub authenticated_data : Bool
  pub checking_disabled : Bool
  pub truncated : Bool
  pub compress : Bool
  pub question : List Question
  pub answer : List R
  pub ns : List R
  pub extra : List R

pub record DnsQuery : Type 0 where
  pub name : Text
  pub qtype : ℕ
  pub qclass : ℕ
  pub client_ip : Option Text
  pub is_bootstrap : Bool

pub record DnsResponse : Type 0 where
  pub query : DnsQuery
  pub raw_msg : Option (Msg Rr)
  pub rcode : ℤ
  pub answer : List Rr
  pub authority : List Rr
  pub additional : List Rr
  pub ttl : ℕ
  pub upstream : Text
  pub proxy_tag : Text
  pub rtt : ℕ
  pub cached : Bool

pub record CacheConfig : Type 0 where
  pub enabled : Bool
  pub size : ℤ
  pub min_ttl : ℤ
  pub max_ttl : ℤ
  pub prefetch : Bool
  pub prefetch_threshold : ℤ
  pub negative_cache : Bool

pub record CacheKey : Type 0 where
  pub upstream_addr : Text
  pub proxy_tag : Text
  pub name : Text
  pub qtype : ℕ

-- Go's `==` on the key of the cache's map compares all four fields.
abbrev pub key_beq : CacheKey → CacheKey → Bool
key_beq a b =
    text_beq a.upstream_addr b.upstream_addr
    && text_beq a.proxy_tag b.proxy_tag
    && text_beq a.name b.name
    && eqb a.qtype b.qtype

pub key_beq_iff : (a b : CacheKey) → (key_beq a b ≡ true) ↔ (a ≡ b)
key_beq_iff a b = ground (
  arith,
  text_beq_iff a.upstream_addr b.upstream_addr,
  text_beq_iff a.proxy_tag b.proxy_tag,
  text_beq_iff a.name b.name,
)

instance abbrev pub key_eq : Eq CacheKey
key_eq = record { beq = key_beq; beq_iff = key_beq_iff }
