-- ===== src/Service/Routing.antt =====
-- service/kernel/v2ray/template_routing.go: the routing rules of the core's template. Of the template,
-- the outbounds and the rules are kept. Every rule has the type "field", which is left out. A slice is a
-- list: the code copies the tags that several rules start with (deepcopy), so none is shared.
pub mod Parse
pub mod Modes
pub mod Choices
pub mod Decisions
pub mod Direct
pub mod Known
pub mod Validate
use v2ray_a.Base.{
  ℕ, zero, suc, ℤ, Bool, true, false, not, ◌&&◌, ◌||◌, Option, none, some, List, [], ◌∷◌, ◌++◌, map,
  Text, codes, text_beq, is_empty, has_prefix, drop, length, lookup, insert, any, text_eq,
  trim_prefix, if◌then◌else◌,
}

pub record RoutingRule : Type 0 where
  pub outbound_tag : Text
  pub balancer_tag : Text
  pub inbound_tag : List Text
  pub domain : List Text
  pub ip : List Text
  pub network : Text
  pub port : Text
  pub source_port : Text
  pub protocol : List Text
  pub source : List Text
  pub user : List Text

-- A rule literal: what it does not set is empty.
abbrev pub no_rule : RoutingRule
no_rule = record {
  outbound_tag = [];
  balancer_tag = [];
  inbound_tag = [];
  domain = [];
  ip = [];
  network = [];
  port = [];
  source_port = [];
  protocol = [];
  source = [];
  user = [];
}

pub record OutboundUser : Type 0 where
  pub user_name : Text
  pub pass : Text
  pub level : ℤ

pub record Server : Type 0 where
  pub address : Text
  pub server_port : ℤ
  pub users : List OutboundUser

-- The settings that an outbound of RoutingA has.
pub data OutboundSettings : Type 0 where
  proxy_settings : Server → OutboundSettings
  freedom_settings : Text → Text → Option ℤ → OutboundSettings
  other_settings : OutboundSettings

pub record Outbound : Type 0 where
  pub tag : Text
  pub outbound_protocol : Text
  pub settings : OutboundSettings
  pub balancers : List Text

pub record Template : Type 0 where
  pub outbounds : List Outbound
  pub rules : List RoutingRule

abbrev pub direct : Text
direct = codes "direct"

abbrev pub proxy : Text
proxy = codes "proxy"

abbrev pub rule_http : Text
rule_http = codes "rule-http"

abbrev pub transparent : Text
transparent = codes "transparent"

abbrev pub has_text : Text → List Text → Bool
has_text t ts = any (λ u. text_beq u t) ts

-- The inner loop of outNames: each group that an outbound balances is a group.
abbrev pub name_groups : List Text → List (Text × Bool) → List (Text × Bool)
name_groups [] tags = tags
name_groups (g ∷ gs) tags = name_groups gs (insert g true tags)

abbrev pub is_nil {ℓ} : {A : Type ℓ} → List A → Bool
is_nil [] = true
is_nil (x ∷ xs) = false

abbrev pub name_outbounds : List Outbound → List (Text × Bool) → List (Text × Bool)
name_outbounds [] tags = tags
name_outbounds (o ∷ os) tags =
    name_outbounds os
      (if is_nil o.balancers then insert o.tag false tags else name_groups o.balancers tags)

-- outNames
unfoldable pub out_names : Template → List (Text × Bool)
out_names t = name_outbounds t.outbounds []

abbrev pub is_special : Text → Bool
is_special tag =
    text_beq tag direct || text_beq tag (codes "block") || text_beq tag (codes "dns-out")

-- FirstProxyOutboundName, of no filter, and its first result.
unfoldable pub first_proxy : List Outbound → Text
first_proxy [] = []
first_proxy (o ∷ os) =
    let rest = first_proxy os in
    if is_special o.tag then rest else elim o.balancers [ [] ↦ o.tag | g ∷ gs ↦ g ]

pub data RulePortMode : Type 0 where
  whitelist_mode : RulePortMode
  gfwlist_mode : RulePortMode
  custom_mode : RulePortMode
  routing_a_mode : RulePortMode

-- A rule for domains, and one for addresses.
abbrev pub domains_to : Text → List Text → List Text → RoutingRule
domains_to tag inbounds domains = record no_rule {
  outbound_tag = tag;
  inbound_tag = inbounds;
  domain = domains;
}

abbrev pub ips_to : Text → List Text → List Text → RoutingRule
ips_to tag inbounds ips = record no_rule { outbound_tag = tag; inbound_tag = inbounds; ip = ips }

abbrev pub apple : List Text
apple = codes "domain:push-apple.com.akadns.net" ∷ codes "domain:push.apple.com" ∷ []

abbrev pub telegram : List Text
telegram =
    codes "91.105.192.0/23"
    ∷ codes "91.108.4.0/22"
    ∷ codes "91.108.8.0/21"
    ∷ codes "91.108.16.0/21"
    ∷ codes "91.108.56.0/22"
    ∷ codes "95.161.64.0/20"
    ∷ codes "149.154.160.0/20"
    ∷ codes "185.76.151.0/24"
    ∷ codes "2001:67c:4e8::/48"
    ∷ codes "2001:b28:f23c::/47"
    ∷ codes "2001:b28:f23f::/48"
    ∷ codes "2a0a:f280:203::/48"
    ∷ []

-- The rules of the white list, where `listed` is whether LoyalsoldierSite.dat is there.
unfoldable pub whitelist_rules : Bool → Text → List Text → List RoutingRule
whitelist_rules listed first inbounds =
    domains_to first inbounds (
      if listed
      then codes "ext:LoyalsoldierSite.dat:geolocation-!cn" ∷ []
      else codes "geosite:geolocation-!cn" ∷ [])
    ∷ domains_to proxy inbounds (codes "geosite:google" ∷ [])
    ∷ domains_to direct inbounds (codes "geosite:cn" ∷ [])
    ∷ ips_to proxy inbounds (codes "geoip:hk" ∷ codes "geoip:mo" ∷ [])
    ∷ ips_to direct inbounds (codes "geoip:private" ∷ codes "geoip:cn" ∷ [])
    ∷ []

unfoldable pub gfwlist_rules : Bool → Text → List Text → List RoutingRule
gfwlist_rules listed first inbounds =
    (if listed
      then domains_to first inbounds (codes "ext:LoyalsoldierSite.dat:gfw" ∷ [])
        ∷ domains_to first inbounds (codes "ext:LoyalsoldierSite.dat:greatfire" ∷ [])
        ∷ []
      else domains_to first inbounds (codes "geosite:geolocation-!cn" ∷ []) ∷ [])
    ++ (ips_to first inbounds telegram
        ∷ record no_rule { outbound_tag = direct; inbound_tag = inbounds }
        ∷ [])

-- The loops that let an inbound follow "rule-http": FollowRule of setTransparentRouting, and
-- setVmessInboundRouting.
abbrev pub follow_in : Text → RoutingRule → RoutingRule
follow_in tag r =
    if has_text rule_http r.inbound_tag
    then record r { inbound_tag = r.inbound_tag ++ (tag ∷ []) }
    else r

unfoldable pub follow_rule : Text → List RoutingRule → List RoutingRule
follow_rule tag rules = map (follow_in tag) rules

-- setVmessInboundRouting, of the port of that inbound.
unfoldable pub set_vmess_inbound_routing : ℕ → List RoutingRule → List RoutingRule
unfolding follow_rule
set_vmess_inbound_routing zero rules = rules
set_vmess_inbound_routing (suc port) rules = follow_rule (codes "vmess") rules

pub record Addr : Type 0 where
  pub host : Text
  pub addr_port : Text

-- The rule that the loop of setWhitelistRouting adds for an address; `is_ip` is net.ParseIP.
abbrev pub whitelist_rule : (Text → Bool) → Addr → RoutingRule
whitelist_rule is_ip a =
    if is_ip a.host
    then record no_rule { outbound_tag = direct; ip = a.host ∷ []; port = a.addr_port }
    else record no_rule { outbound_tag = direct; domain = a.host ∷ []; port = a.addr_port }

unfoldable pub set_whitelist_routing :
    (Text → Bool) → List Addr → List RoutingRule → List RoutingRule
set_whitelist_routing is_ip whitelist rules = map (whitelist_rule is_ip) whitelist ++ rules

-- updatePrivateRouting, of what iptables.GetLocalCIDR gives; nothing is added where it gives nothing.
abbrev pub add_private : List Text → RoutingRule → RoutingRule
add_private addrs r =
    if has_text (codes "geoip:private") r.ip then record r { ip = r.ip ++ addrs } else r

unfoldable pub update_private_routing : List Text → List RoutingRule → List RoutingRule
update_private_routing [] rules = rules
update_private_routing (a ∷ more) rules = map (add_private (a ∷ more)) rules

abbrev pub optimize_ip : Text → Text
optimize_ip ip =
    if text_beq ip (codes "geoip:private") || text_beq ip (codes "geoip:cn")
    then codes "ext:geoip-only-cn-private.dat:" ++ trim_prefix ip (codes "geoip:")
    else ip

abbrev pub optimize_rule : RoutingRule → RoutingRule
optimize_rule r = record r { ip = map optimize_ip r.ip }

-- optimizeGeoipMemoryOccupation, where `small` is whether geoip-only-cn-private.dat is there.
unfoldable pub optimize_geoip : Bool → List RoutingRule → List RoutingRule
optimize_geoip small rules = if small then map optimize_rule rules else rules

abbrev pub is_group : List (Text × Bool) → Text → Bool
is_group names tag = elim (lookup tag names) [ none ↦ false | some group ↦ group ]

abbrev pub group_rule : List (Text × Bool) → RoutingRule → RoutingRule
group_rule names r =
    if not (is_empty r.outbound_tag) && is_group names r.outbound_tag
    then record r { balancer_tag = r.outbound_tag; outbound_tag = [] }
    else r

-- setGroupRouting
unfoldable pub set_group_routing : Template → Template
unfolding out_names
set_group_routing t = record t { rules = map (group_rule (out_names t)) t.rules }

-- The end of NewTemplate, from the white list of the nodes' addresses on.
abbrev pub spare_tire : RoutingRule
spare_tire = record no_rule { port = codes "0-65535"; outbound_tag = proxy }

unfoldable pub finish_routing :
    (is_ip : Text → Bool) (whitelist : List Addr) (private : List Text) (small : Bool)
    → Template
    → Template
unfolding set_whitelist_routing update_private_routing set_group_routing optimize_geoip
finish_routing is_ip whitelist private small t =
    let listed = set_whitelist_routing is_ip whitelist t.rules in
    let t' =
      set_group_routing
        (record t { rules = update_private_routing private listed ++ (spare_tire ∷ []) }) in
    record t' { rules = optimize_geoip small t'.rules }
