-- ===== src/Dns/Router.antt =====
-- core/dns/router.go: the ordered rules, and the choice of an upstream for a query.
pub mod Choice
pub mod Update
use v2ray_a.Base.{
  ℕ, suc, Bool, true, false, Option, none, some, List, [], ◌∷◌, map, Text, codes, is_empty,
  if◌then◌else◌, lookup, insert, text_eq,
}
use v2ray_a.Dns.Types.{DnsQuery}
use v2ray_a.Dns.Net.{Parsers}
use v2ray_a.Dns.Rule.{
  DnsRule, RuleMatcher, match_all, build_matchers, GeositeResolver, Result, ok, err, ◌>>=◌,
  BuildError,
}

pub record UpstreamConfig : Type 0 where
  pub id : Text
  pub addr : Text
  pub protocol : Text
  pub proxy_tag : Text
  pub bootstrap : Bool
  pub server_name : Text

-- RuleConfig has the fields of a rule, in another order.
pub record RuleConfig : Type 0 where
  pub id : Text
  pub domain : List Text
  pub domain_suffix : List Text
  pub domain_regex : List Text
  pub ip : List Text
  pub query_type : List ℕ
  pub client_ip : List Text
  pub upstream : Text
  pub action : Text
  pub policy : Text

pub record RouteResult : Type 0 where
  pub upstream_id : Text
  pub upstream_addr : Text
  pub action : Text
  pub rule_id : Text
  pub policy : Text
  pub proxy_tag : Text

pub record Router : Type 0 where
  pub rules : List DnsRule
  pub matchers : List (List RuleMatcher)
  pub upstream_map : List (Text × Text)
  pub upstream_proxy_tag : List (Text × Text)
  pub default_upstream : Text
  pub geosite_resolver : GeositeResolver

-- The zero value that a Go map gives for a missing key.
abbrev pub text_or_empty : Option Text → Text
text_or_empty none = []
text_or_empty (some t) = t

abbrev pub or_text : Text → Text → Text
or_text t d = if is_empty t then d else t

abbrev pub action_route : Text
action_route = codes "route"

abbrev pub action_reject : Text
action_reject = codes "reject"

abbrev pub action_bypass : Text
action_bypass = codes "bypass"

abbrev pub policy_single : Text
policy_single = codes "single"

abbrev pub rule_result : Router → DnsRule → RouteResult
rule_result r rule = record {
  upstream_id = rule.upstream;
  upstream_addr = text_or_empty (lookup rule.upstream r.upstream_map);
  action = or_text rule.action action_route;
  rule_id = rule.id;
  policy = or_text rule.policy policy_single;
  proxy_tag = text_or_empty (lookup rule.upstream r.upstream_proxy_tag);
}

abbrev pub default_result : Router → RouteResult
default_result r = record {
  upstream_id = r.default_upstream;
  upstream_addr = text_or_empty (lookup r.default_upstream r.upstream_map);
  action = action_route;
  rule_id = [];
  policy = policy_single;
  proxy_tag = text_or_empty (lookup r.default_upstream r.upstream_proxy_tag);
}

-- The loop of Route: a rule beyond the end of the matchers is passed over.
unfoldable pub first_match : List DnsRule → List (List RuleMatcher) → DnsQuery → Option DnsRule
first_match [] matchers query = none
first_match (rule ∷ rules) [] query = first_match rules [] query
first_match (rule ∷ rules) (ms ∷ matchers) query =
    if match_all ms query then some rule else first_match rules matchers query

unfoldable pub route : Router → DnsQuery → RouteResult
unfolding first_match
route r query = elim (first_match r.rules r.matchers query) [
  | some rule ↦ rule_result r rule
  | none ↦ default_result r
]

-- The loop of UpdateRules: the first rule that does not build stops it, by its position.
pub record RuleError : Type 0 where
  pub position : ℕ
  pub id : Text
  pub cause : BuildError

unfoldable pub build_all :
    Parsers → GeositeResolver → ℕ → List DnsRule → Result RuleError (List (List RuleMatcher))
build_all parsers resolver i [] = ok []
build_all parsers resolver i (rule ∷ rules) =
    let rest = build_all parsers resolver (suc i) rules in
    elim (build_matchers parsers rule resolver) [
      | err e ↦ err (record { position = i; id = rule.id; cause = e })
      | ok ms ↦ rest >>= λ mss. ok (ms ∷ mss)
    ]

-- A method gives the new router and its error, if any.
unfoldable pub update_rules : Parsers → Router → List DnsRule → Router × Option RuleError
unfolding build_all
update_rules parsers r rules = elim (build_all parsers r.geosite_resolver 0 rules) [
  | err e ↦ (r, some e)
  | ok mss ↦ (record r { rules = rules; matchers = mss }, none)
]

-- The loop that both NewRouter and Reload run over the upstreams.
unfoldable pub map_addrs : List UpstreamConfig → List (Text × Text) → List (Text × Text)
map_addrs [] m = m
map_addrs (u ∷ us) m = map_addrs us (if is_empty u.id then m else insert u.id u.addr m)

unfoldable pub map_tags : List UpstreamConfig → List (Text × Text) → List (Text × Text)
map_tags [] m = m
map_tags (u ∷ us) m =
    map_tags us
      (if is_empty u.id then m else if is_empty u.proxy_tag then m else insert u.id u.proxy_tag m)

unfoldable pub new_router :
    Parsers → List DnsRule → List UpstreamConfig → Text → Result RuleError Router
unfolding map_addrs map_tags update_rules
new_router parsers rules upstreams default_upstream =
    let (r, failed) =
      update_rules parsers
        (record {
          rules = [];
          matchers = [];
          upstream_map = map_addrs upstreams [];
          upstream_proxy_tag = map_tags upstreams [];
          default_upstream = default_upstream;
          geosite_resolver = none;
        })
        rules in
    elim failed [ none ↦ ok r | some e ↦ err e ]

unfoldable pub list_rules : Router → List DnsRule
list_rules r = r.rules

unfoldable pub set_geosite_resolver : Router → GeositeResolver → Router
set_geosite_resolver r resolver = record r { geosite_resolver = resolver }

abbrev pub rule_of : RuleConfig → DnsRule
rule_of rc = record {
  id = rc.id;
  domain = rc.domain;
  domain_suffix = rc.domain_suffix;
  domain_regex = rc.domain_regex;
  ip = rc.ip;
  query_type = rc.query_type;
  client_ip = rc.client_ip;
  upstream = rc.upstream;
  action = rc.action;
  policy = rc.policy;
}

-- Reload, of a configuration that is not nil: its rules and its upstreams.
unfoldable pub reload :
    Parsers → Router → List RuleConfig → List UpstreamConfig → Router × Option RuleError
unfolding map_addrs map_tags update_rules
reload parsers r rules upstreams =
    update_rules parsers
      (record r {
        upstream_map = map_addrs upstreams [];
        upstream_proxy_tag = map_tags upstreams [];
      })
      (map rule_of rules)
