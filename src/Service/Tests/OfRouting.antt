-- ===== src/Service/Tests/OfRouting.antt =====
-- Concrete rules of a template.
use v2ray_a.Base.{
  ◌≡◌, ◌≢◌, refl, Bool, true, false, none, some, List, [], ◌∷◌, Text, codes, text_beq, inl, inr,
  lookup, insert,
}
use v2ray_a.Service.Routing.{
  RoutingRule, no_rule, Outbound, other_settings, Template, direct, proxy, rule_http, transparent,
  first_proxy, gfwlist_mode, routing_a_mode, follow_rule, finish_routing, out_names,
}
use v2ray_a.Service.Routing.Parse.{
  Statement, define, routing, text_value, Sources, rule_ports, parse_routing_a, no_outbound,
  add_statement, outbounds_of, add_condition,
}
use v2ray_a.Service.Routing.Modes.{append_routing_rule_by_mode}
use v2ray_a.Service.Routing.Choices.{Connection, choose, as_rule_http, follow_rule-choose, or_else}
use v2ray_a.Service.Routing.Decisions.{decide, append_routing_rule_by_mode-choose}
use v2ray_a.Service.Routing.Direct.{finish_routing-choose}
use v2ray_a.Service.Routing.Known.{SentToKnown, parse_routing_a-SentToKnown}

abbrev one_outbound : List Outbound
one_outbound =
    record {
      tag = proxy;
      outbound_protocol = codes "vmess";
      settings = other_settings;
      balancers = [];
    }
    ∷ []

abbrev empty_template : Template
empty_template = record { outbounds = one_outbound; rules = [] }

-- From "transparent", to a name that is listed.
abbrev to_listed : Connection
to_listed = record {
  inbound = transparent;
  in_domain = λ d. text_beq d (codes "ext:LoyalsoldierSite.dat:gfw");
  in_ip = λ ip. false;
  meets = λ network port source_port protocol source user. true;
}

abbrev to_node : Connection
to_node = record to_listed { in_ip = λ ip. text_beq ip (codes "192.0.2.7") }

abbrev from_rule_http : Connection
from_rule_http = record to_listed { inbound = rule_http }

abbrev statements : List Statement
statements =
    define (codes "default") (text_value proxy)
    ∷ routing
        (record { name = codes "domain"; params = codes "example.org" ∷ []; named_params = [] }
          ∷ [])
        proxy
    ∷ []

abbrev sample_sources : Sources
sample_sources = record {
  has_asset = λ file. true;
  routing_a = [];
  hardcodes = λ line. [];
  look_up_env = λ name. none;
  parse = λ text. some statements;
  atoi = λ text. none;
}

abbrev bad_sources : Sources
bad_sources = record sample_sources { parse = λ text. some (routing [] (codes "gone") ∷ []) }

abbrev starts_digit : Text → Bool
starts_digit [] = false
starts_digit (x ∷ xs) = text_beq (x ∷ []) (codes "1")

-- A rule for an outbound that is not there is an error.
unknown_test :
    parse_routing_a bad_sources rule_ports empty_template ≡ inl (no_outbound (codes "gone"))
unfolding parse_routing_a add_statement lookup outbounds_of insert
unknown_test = refl

abbrev http_rule : RoutingRule
http_rule = record no_rule { outbound_tag = proxy; inbound_tag = rule_http ∷ [] }

follow_rule-choose_example :
    choose to_listed (follow_rule transparent (http_rule ∷ []))
    ≡ choose (as_rule_http transparent to_listed) (http_rule ∷ [])
follow_rule-choose_example = follow_rule-choose transparent to_listed (http_rule ∷ []) (refl, tt)

gfwlist-ne-routing_a : gfwlist_mode ≢ routing_a_mode
gfwlist-ne-routing_a same = cc

append_routing_rule_by_mode-choose_example :
    (t' : Template) × (append_routing_rule_by_mode sample_sources gfwlist_mode
        (transparent ∷ [])
        empty_template
      ≡ inr t')
    × (choose to_listed t'.rules
        ≡ or_else
            (choose to_listed [])
            (decide true gfwlist_mode (first_proxy one_outbound) to_listed))
append_routing_rule_by_mode-choose_example =
    append_routing_rule_by_mode-choose to_listed (transparent ∷ []) refl refl sample_sources
      gfwlist_mode empty_template gfwlist-ne-routing_a

finish_routing-choose_example :
    choose to_node
      (finish_routing starts_digit
        (record { host = codes "192.0.2.7"; addr_port = [] } ∷ [])
        []
        true
        empty_template).rules
    ≡ some (direct, [])
unfolding lookup out_names insert
finish_routing-choose_example =
    finish_routing-choose starts_digit (record { host = codes "192.0.2.7"; addr_port = [] } ∷ []) []
      true empty_template to_node (record { private_name = refl; china_name = refl }) refl refl

abbrev accepted : Template
accepted = elim (parse_routing_a sample_sources rule_ports empty_template) [
  | inl e ↦ empty_template
  | inr t ↦ t
]

parse_routing_a-SentToKnown_example : SentToKnown proxy from_rule_http accepted
unfolding parse_routing_a choose add_statement lookup outbounds_of insert add_condition
parse_routing_a-SentToKnown_example =
    parse_routing_a-SentToKnown sample_sources rule_ports empty_template accepted from_rule_http
      refl refl refl refl
