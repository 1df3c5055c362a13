-- ===== src/Dns/Tests/OfRules.antt =====
-- Concrete runs of core/dns/rule.go, router.go, metrics.go and upstream.go.
use v2ray_a.Base.{◌*◌, ◌≡◌, refl, true, none, List, [], ◌∷◌, codes, text_eq}
use v2ray_a.Dns.Types.{DnsQuery}
use v2ray_a.Dns.Rule.{
  RuleMatcher, single, domain_suffix, client_ip_rule, match_all, build_matchers, ok,
}
use v2ray_a.Dns.Rule.Meaning.{
  all_parse, rule_holds, build_matchers-meaning, unresolved_tags_match_all,
}
use v2ray_a.Dns.Router.{Router, route, update_rules, reload, RuleConfig, UpstreamConfig}
use v2ray_a.Dns.Router.Choice.{Routed, route-Routed}
use v2ray_a.Dns.Router.Update.{Updated, Reloaded, update_rules-Updated, reload-Reloaded}
use v2ray_a.Dns.Metrics.{new_dns_metrics}
use v2ray_a.Dns.Metrics.Counts.{
  Record, rec_query, rec_response, rec_timeout, rec_rule_hit, apply_all, Consistent,
  apply_all-Consistent,
}
use v2ray_a.Dns.Upstream.{new_upstream_manager, get_or_create_upstream, UpstreamManager}
use v2ray_a.Dns.Upstream.Keys.{
  Settled, build_upstream_key_injective, get_or_create_upstream-Settled,
}
use v2ray_a.Dns.Tests.Samples.{
  sample_parsers, rule_a, no_rule, tag_rule, regex_rule, config_u1, query_a, response_a,
}

abbrev matchers_a : List RuleMatcher
matchers_a =
    single (domain_suffix (codes "a"))
    ∷ single (client_ip_rule (record { ip = 10 ∷ 0 ∷ 0 ∷ 0 ∷ []; mask = 255 ∷ 0 ∷ 0 ∷ 0 ∷ [] }))
    ∷ []

built_a : build_matchers sample_parsers rule_a none ≡ ok matchers_a
unfolding build_matchers
built_a = refl

build_matchers-meaning_example :
    (all_parse sample_parsers rule_a ≡ true)
    × ((query : DnsQuery)
        → match_all matchers_a query ≡ rule_holds sample_parsers rule_a none query)
build_matchers-meaning_example =
    build_matchers-meaning sample_parsers rule_a none matchers_a built_a

unresolved_tags_match_all_example :
    (build_matchers sample_parsers tag_rule none ≡ ok [])
    × ((query : DnsQuery) → match_all [] query ≡ true)
unresolved_tags_match_all_example =
    unresolved_tags_match_all sample_parsers tag_rule (refl, tt) tt (refl, refl, refl, refl)

abbrev router_a : Router
router_a = record {
  rules = rule_a ∷ [];
  matchers = matchers_a ∷ [];
  upstream_map = (codes "u1", codes "9.9.9.9:53") ∷ [];
  upstream_proxy_tag = [];
  default_upstream = codes "u1";
  geosite_resolver = none;
}

route-Routed_example : Routed sample_parsers none router_a query_a (route router_a query_a)
route-Routed_example = route-Routed sample_parsers none router_a query_a (built_a, tt)

update_rules-Updated_example :
    Updated sample_parsers router_a
      (no_rule ∷ regex_rule ∷ [])
      (update_rules sample_parsers router_a (no_rule ∷ regex_rule ∷ []))
update_rules-Updated_example =
    update_rules-Updated sample_parsers router_a (no_rule ∷ regex_rule ∷ [])

abbrev regex_config : RuleConfig
regex_config = record {
  id = codes "r2";
  domain = [];
  domain_suffix = [];
  domain_regex = codes "[" ∷ [];
  ip = [];
  query_type = [];
  client_ip = [];
  upstream = codes "u1";
  action = [];
  policy = [];
}

abbrev moved_u1 : UpstreamConfig
moved_u1 = record config_u1 { addr = codes "8.8.8.8:53" }

reload-Reloaded_example :
    Reloaded router_a
      (moved_u1 ∷ [])
      (reload sample_parsers router_a (regex_config ∷ []) (moved_u1 ∷ []))
reload-Reloaded_example =
    reload-Reloaded sample_parsers router_a (regex_config ∷ []) (moved_u1 ∷ [])

abbrev records : List Record
records =
    rec_query query_a (codes "u1") 7
    ∷ rec_response response_a (20 * 1_000_000)
    ∷ rec_timeout (codes "u1")
    ∷ rec_rule_hit (codes "r1")
    ∷ []

apply_all-Consistent_example : Consistent (apply_all new_dns_metrics records)
apply_all-Consistent_example = apply_all-Consistent records

build_upstream_key_injective_example :
    (codes "9.9.9.9:53" ≡ codes "9.9.9.9:53") × (codes "a|b" ≡ codes "a|b")
build_upstream_key_injective_example =
    build_upstream_key_injective (codes "9.9.9.9:53") (codes "9.9.9.9:53") (codes "a|b")
      (codes "a|b") refl refl refl

abbrev manager : UpstreamManager
manager = new_upstream_manager (config_u1 ∷ [])

get_or_create_upstream-Settled_example :
    Settled manager moved_u1 (get_or_create_upstream manager moved_u1)
get_or_create_upstream-Settled_example = get_or_create_upstream-Settled manager moved_u1
