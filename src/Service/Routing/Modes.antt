-- ===== src/Service/Routing/Modes.antt =====
-- service/kernel/v2ray/template_routing.go: the rules of a mode, and of the transparent inbound.
use v2ray_a.Base.{List, [], ◌∷◌, ◌++◌, Text, codes, text_eq, ◌⊎◌, inr}
use v2ray_a.Service.Routing.{
  no_rule, Template, direct, transparent, first_proxy, RulePortMode, whitelist_mode, gfwlist_mode,
  custom_mode, routing_a_mode, domains_to, apple, whitelist_rules, gfwlist_rules, follow_rule,
}
use v2ray_a.Service.Routing.Parse.{RoutingError, Sources, parse_routing_a}

-- AppendRoutingRuleByMode
unfoldable pub append_routing_rule_by_mode :
    Sources → RulePortMode → List Text → Template → RoutingError ⊎ Template
unfolding parse_routing_a whitelist_rules gfwlist_rules
append_routing_rule_by_mode src mode inbounds t =
    let first = first_proxy t.outbounds in
    let listed = src.has_asset (codes "LoyalsoldierSite.dat") in
    let t' = record t { rules = t.rules ++ (domains_to direct inbounds apple ∷ []) } in
    elim mode [
      | whitelist_mode ↦
          inr (record t' { rules = t'.rules ++ whitelist_rules listed first inbounds })
      | gfwlist_mode ↦ inr (record t' { rules = t'.rules ++ gfwlist_rules listed first inbounds })
      | custom_mode ↦ inr t'
      | routing_a_mode ↦ parse_routing_a src inbounds t'
    ]

pub data TransparentMode : Type 0 where
  close_mode : TransparentMode
  proxy_all : TransparentMode
  whitelist_all : TransparentMode
  gfwlist_all : TransparentMode
  as_rule_port : TransparentMode

-- setTransparentRouting
unfoldable pub set_transparent_routing :
    Sources → TransparentMode → Template → RoutingError ⊎ Template
unfolding append_routing_rule_by_mode follow_rule
set_transparent_routing src close_mode t = inr t
set_transparent_routing src proxy_all t = inr (record t {
  rules =
      t.rules
      ++ (record no_rule { inbound_tag = transparent ∷ []; outbound_tag = first_proxy t.outbounds }
          ∷ []);
})
set_transparent_routing src whitelist_all t =
    append_routing_rule_by_mode src whitelist_mode (transparent ∷ []) t
set_transparent_routing src gfwlist_all t =
    append_routing_rule_by_mode src gfwlist_mode (transparent ∷ []) t
set_transparent_routing src as_rule_port t =
    inr (record t { rules = follow_rule transparent t.rules })
