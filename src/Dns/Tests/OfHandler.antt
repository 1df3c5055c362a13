-- ===== src/Dns/Tests/OfHandler.antt =====
-- Concrete runs of core/dns/handler.go.
use v2ray_a.Base.{
  ℕ, ◌+◌, ◌-◌, ◌*◌, ◌≡◌, ◌≢◌, refl, false, none, some, List, [], ◌∷◌, Text, codes, arith, lookup,
  text_eq,
}
use v2ray_a.Dns.Types.{Msg, Rr, rcode_success, second}
use v2ray_a.Dns.Cache.Ttl.{copy_cached_response, compute_effective_ttl}
use v2ray_a.Dns.Cache.Ops.{new_dns_cache, get}
use v2ray_a.Dns.Cache.Invariant.{new_dns_cache-Inv}
use v2ray_a.Dns.Router.{Router, action_reject, route}
use v2ray_a.Dns.Metrics.{new_dns_metrics}
use v2ray_a.Dns.Upstream.{UpstreamInstance, get_upstream}
use v2ray_a.Dns.Module.{DnsModule, World, responded, failed, answered, panicked, select_for_route}
use v2ray_a.Dns.Handler.{handle_query}
use v2ray_a.Dns.Handler.Cached.{Routes, asked_again}
use v2ray_a.Dns.Handler.Safety.{
  SoundCache, Event, query_arrives, prefetch_ends, react_all, react_all-Safe,
}
use v2ray_a.Dns.Tests.Samples.{small_config, query_a, response_a, config_u1, start, key_a, no_rule}

abbrev question : Text → ℕ → Msg Rr
question name qtype = record {
  id = 7;
  response = false;
  rcode = rcode_success;
  recursion_available = false;
  authoritative = false;
  authenticated_data = false;
  checking_disabled = false;
  truncated = false;
  compress = false;
  question = record { name = name; qtype = qtype; qclass = 1 } ∷ [];
  answer = [];
  ns = [];
  extra = [];
}

-- An upstream that answers, and one that fails, two minutes later.
abbrev answering : World
answering = record {
  cancelled = false;
  exchange = λ u q. responded response_a;
  rtt = 20;
  question_msg = question;
  now_query = start;
  now_get = start;
  now_prefetch = start;
  now_set = start;
}

abbrev later : ℕ
later = start + 120 * second

abbrev failing : World
failing = record {
  cancelled = false;
  exchange = λ u q. failed;
  rtt = 5000;
  question_msg = question;
  now_query = later;
  now_get = later;
  now_prefetch = later;
  now_set = later;
}

abbrev upstream_u1 : UpstreamInstance
upstream_u1 = record {
  id = codes "u1";
  addr = codes "9.9.9.9:53";
  protocol = codes "udp";
  proxy_tag = codes "direct";
  bootstrap = false;
  server_name = [];
}

abbrev router_u1 : Router
router_u1 = record {
  rules = [];
  matchers = [];
  upstream_map = (codes "u1", codes "9.9.9.9:53") ∷ [];
  upstream_proxy_tag = [];
  default_upstream = codes "u1";
  geosite_resolver = none;
}

abbrev module_u1 : DnsModule
module_u1 = record {
  upstreams = config_u1 ∷ [];
  router = some router_u1;
  upstream_mgr = some (record { upstreams = []; upstreams_by_id = (codes "u1", upstream_u1) ∷ [] });
  cache = some (new_dns_cache small_config);
  stats = record {
    total_queries = 0;
    routed_queries = [];
    rejected_queries = 0;
    bypassed_queries = 0;
    cache_hits = 0;
    cache_misses = 0;
    avg_rtt = 0;
  };
  metrics = some new_dns_metrics;
}

Routes-u1 : Routes answering query_a module_u1 upstream_u1
unfolding route select_for_route get_upstream lookup
Routes-u1 = record { running = refl; not_reject = refl; not_bypass = refl; chosen = refl }

sound_u1 : SoundCache module_u1.cache
unfolding new_dns_cache
sound_u1 = (new_dns_cache-Inv small_config, tt)

asked_again_example :
    ((handle_query answering query_a module_u1).reply ≡ answered response_a)
    × ((handle_query failing query_a (handle_query answering query_a module_u1).state).reply
        ≡ answered (
            copy_cached_response response_a
              (later - start)
              (new_dns_cache small_config).config.min_ttl))
unfolding get new_dns_cache lookup compute_effective_ttl
asked_again_example =
    asked_again answering query_a module_u1 upstream_u1 (new_dns_cache small_config) response_a
      Routes-u1 refl (new_dns_cache-Inv small_config) refl refl refl refl failing refl (omega arith)

abbrev events : List Event
events =
    query_arrives answering query_a
    ∷ prefetch_ends failing (record { upstream = upstream_u1; query = query_a; key = key_a })
    ∷ []

react_all-Safe_example :
    SoundCache (react_all module_u1 events).cache
    × ((handle_query failing query_a (react_all module_u1 events)).reply ≢ panicked)
react_all-Safe_example = react_all-Safe module_u1 events failing query_a sound_u1

-- Rejects every query.
abbrev rejecting : DnsModule
rejecting = record module_u1 {
  router = some (record router_u1 {
    rules = record no_rule { action = action_reject } ∷ [];
    matchers = [] ∷ [];
  });
}
