-- ===== src/Dns/Tests/Samples.antt =====
-- Sample data for core/dns.
use v2ray_a.Base.{ℕ, true, false, none, some, [], ◌∷◌, ◌*◌, Text, codes, pos}
use v2ray_a.Dns.Types.{
  CacheKey, CacheConfig, DnsQuery, DnsResponse, Rr, a_data, rcode_success, second,
}
use v2ray_a.Dns.Net.{Parsers}
use v2ray_a.Dns.Rule.{DnsRule}
use v2ray_a.Dns.Router.{UpstreamConfig}

-- Two entries at most, and lifetimes from one to ten minutes.
abbrev pub small_config : CacheConfig
small_config = record {
  enabled = true;
  size = pos 2;
  min_ttl = pos 60;
  max_ttl = pos 600;
  prefetch = true;
  prefetch_threshold = pos 30;
  negative_cache = false;
}

abbrev pub key_for : Text → CacheKey
key_for name = record {
  upstream_addr = codes "9.9.9.9:53";
  proxy_tag = codes "direct";
  name = name;
  qtype = 1;
}

abbrev pub key_a : CacheKey
key_a = key_for (codes "a.")

abbrev pub key_b : CacheKey
key_b = key_for (codes "b.")

abbrev pub query_a : DnsQuery
query_a = record {
  name = codes "a.";
  qtype = 1;
  qclass = 1;
  client_ip = some (10 ∷ 0 ∷ 0 ∷ 7 ∷ []);
  is_bootstrap = false;
}

abbrev pub record_a : Rr
record_a = record {
  header = record { name = codes "a."; rrtype = 1; class = 1; ttl = 300 };
  rdata = a_data (1 ∷ 2 ∷ 3 ∷ 4 ∷ []);
}

abbrev pub response_a : DnsResponse
response_a = record {
  query = query_a;
  raw_msg = none;
  rcode = rcode_success;
  answer = record_a ∷ [];
  authority = [];
  additional = [];
  ttl = 300;
  upstream = codes "u1";
  proxy_tag = codes "direct";
  rtt = 20;
  cached = false;
}

-- The time of the store of `key_a`.
abbrev pub start : ℕ
start = 1000 * second

-- One address and one network parse; an expression is a text to be met exactly.
abbrev pub sample_parsers : Parsers
sample_parsers = record {
  parse_ip = λ s. some (10 ∷ 0 ∷ 0 ∷ 0 ∷ []);
  parse_cidr = λ s. some (record { ip = 10 ∷ 0 ∷ 0 ∷ 0 ∷ []; mask = 255 ∷ 0 ∷ 0 ∷ 0 ∷ [] });
  compile = λ s. none;
}

abbrev pub no_rule : DnsRule
no_rule = record {
  id = codes "r0";
  domain = [];
  domain_suffix = [];
  domain_regex = [];
  ip = [];
  query_type = [];
  client_ip = [];
  upstream = codes "u1";
  action = codes "route";
  policy = codes "single";
}

-- The names under a domain, for the clients of a network.
abbrev pub rule_a : DnsRule
rule_a = record no_rule {
  id = codes "r1";
  domain_suffix = codes "a" ∷ [];
  client_ip = codes "10.0.0.0/8" ∷ [];
}

abbrev pub tag_rule : DnsRule
tag_rule = record no_rule { domain = codes "geosite:cn" ∷ [] }

abbrev pub regex_rule : DnsRule
regex_rule = record no_rule { domain_regex = codes "[" ∷ [] }

abbrev pub config_u1 : UpstreamConfig
config_u1 = record {
  id = codes "u1";
  addr = codes "9.9.9.9:53";
  protocol = codes "udp";
  proxy_tag = [];
  bootstrap = false;
  server_name = [];
}
