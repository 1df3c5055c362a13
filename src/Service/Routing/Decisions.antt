-- ===== src/Service/Routing/Decisions.antt =====
-- service/kernel/v2ray/template_routing.go: where the modes of the rule ports send a connection.
use v2ray_a.Base.{
  ◌≡◌, refl, ap, ◌∙◌, Bool, true, false, ◌&&◌, ◌||◌, Option, none, some, List, [], ◌∷◌, ◌++◌, Text,
  codes, any, append_assoc, ◌≢◌, arith, if◌then◌else◌, inr,
}
use v2ray_a.Service.Routing.{
  RoutingRule, no_rule, Template, direct, proxy, first_proxy, RulePortMode, whitelist_mode,
  gfwlist_mode, custom_mode, routing_a_mode, domains_to, ips_to, apple, telegram, whitelist_rules,
  gfwlist_rules,
}
use v2ray_a.Service.Routing.Parse.{Sources}
use v2ray_a.Service.Routing.Modes.{append_routing_rule_by_mode}
use v2ray_a.Service.Routing.Choices.{
  Connection, meets_rule, applies, choose, or_else, choose-append, from_inbound,
}

and_true : (a : Bool) → a && true ≡ a
and_true a = ground arith

both_true : (a : Bool) → a && true && true ≡ a
both_true a = ground arith

-- Where a mode sends a connection, the rule ports' own lists read in order.
abbrev pub to {ℓ} : {A : Type ℓ} → A → Option (A × Text)
to tag = some (tag, [])

abbrev pub gfw : Bool → Connection → Bool
gfw listed q =
    if listed
    then any q.in_domain (codes "ext:LoyalsoldierSite.dat:gfw" ∷ [])
      || any q.in_domain (codes "ext:LoyalsoldierSite.dat:greatfire" ∷ [])
    else any q.in_domain (codes "geosite:geolocation-!cn" ∷ [])

abbrev pub abroad : Bool → Connection → Bool
abroad listed q =
    if listed
    then any q.in_domain (codes "ext:LoyalsoldierSite.dat:geolocation-!cn" ∷ [])
    else any q.in_domain (codes "geosite:geolocation-!cn" ∷ [])

abbrev pub decide_listed : Connection → Option (Text × Text)
decide_listed q =
    if any q.in_domain (codes "geosite:google" ∷ [])
    then to proxy
    else if any q.in_domain (codes "geosite:cn" ∷ [])
    then to direct
    else if any q.in_ip (codes "geoip:hk" ∷ codes "geoip:mo" ∷ [])
    then to proxy
    else if any q.in_ip (codes "geoip:private" ∷ codes "geoip:cn" ∷ [])
    then to direct
    else none

abbrev pub decide_whitelist : Bool → Text → Connection → Option (Text × Text)
decide_whitelist listed first q = if abroad listed q then to first else decide_listed q

abbrev pub decide_gfwlist : Bool → Text → Connection → Option (Text × Text)
decide_gfwlist listed first q =
    if gfw listed q then to first else if any q.in_ip telegram then to first else to direct

abbrev pub decide : Bool → RulePortMode → Text → Connection → Option (Text × Text)
decide listed mode first q = if any q.in_domain apple then to direct else elim mode [
  | custom_mode ↦ none
  | routing_a_mode ↦ none
  | whitelist_mode ↦ decide_whitelist listed first q
  | gfwlist_mode ↦ decide_gfwlist listed first q
]

either_or :
    (a b : Bool) (x y : Option (Text × Text))
    → (if a then x else if b then x else y) ≡ (if a || b then x else y)
either_or true b x y = refl
either_or false b x y = refl

module _ (q : Connection) (inbounds : List Text) (here : from_inbound q.inbound inbounds ≡ true)
    (met : meets_rule q no_rule ≡ true) where
  -- What a rule for domains decides, and one for addresses, before others that decide `e`.
  choose-domains_to :
      (tag d : Text) (ds : List Text) (rs : List RoutingRule) (e : Option (Text × Text))
      → choose q rs ≡ e
      → choose q (domains_to tag inbounds (d ∷ ds) ∷ rs)
        ≡ (if any q.in_domain (d ∷ ds) then to tag else e)
  unfolding choose applies
  choose-domains_to tag d ds rs e later = rw here (
      rw met (
        ap (λ b. if b then to tag else choose q rs) (both_true (any q.in_domain (d ∷ ds)))
        ∙ ap (λ o. if any q.in_domain (d ∷ ds) then to tag else o) later))

  choose-ips_to :
      (tag d : Text) (ds : List Text) (rs : List RoutingRule) (e : Option (Text × Text))
      → choose q rs ≡ e
      → choose q (ips_to tag inbounds (d ∷ ds) ∷ rs) ≡ (if any q.in_ip (d ∷ ds) then to tag else e)
  unfolding choose applies
  choose-ips_to tag d ds rs e later = rw here (
      rw met (
        ap (λ b. if b then to tag else choose q rs) (and_true (any q.in_ip (d ∷ ds)))
        ∙ ap (λ o. if any q.in_ip (d ∷ ds) then to tag else o) later))

  -- The last rule of the list of GFW has no condition but the inbound.
  choose-rest :
      choose q (record no_rule { outbound_tag = direct; inbound_tag = inbounds } ∷ []) ≡ to direct
  unfolding choose applies
  choose-rest = rw here (rw met refl)

  after_abroad :
      choose q (
        domains_to proxy inbounds (codes "geosite:google" ∷ [])
        ∷ domains_to direct inbounds (codes "geosite:cn" ∷ [])
        ∷ ips_to proxy inbounds (codes "geoip:hk" ∷ codes "geoip:mo" ∷ [])
        ∷ ips_to direct inbounds (codes "geoip:private" ∷ codes "geoip:cn" ∷ [])
        ∷ [])
      ≡ decide_listed q
  unfolding choose
  after_abroad =
      let private = ips_to direct inbounds (codes "geoip:private" ∷ codes "geoip:cn" ∷ []) ∷ [] in
      let addresses = ips_to proxy inbounds (codes "geoip:hk" ∷ codes "geoip:mo" ∷ []) ∷ private in
      let home = domains_to direct inbounds (codes "geosite:cn" ∷ []) ∷ addresses in
      choose-domains_to proxy (codes "geosite:google") [] home _ (
        choose-domains_to direct (codes "geosite:cn") [] addresses _ (
          choose-ips_to proxy (codes "geoip:hk") (codes "geoip:mo" ∷ []) private _
            (choose-ips_to direct (codes "geoip:private") (codes "geoip:cn" ∷ []) [] none refl)))

  whitelist_rules-choose :
      (listed : Bool) (first : Text)
      → choose q (whitelist_rules listed first inbounds) ≡ decide_whitelist listed first q
  unfolding whitelist_rules
  whitelist_rules-choose true first =
      choose-domains_to first (codes "ext:LoyalsoldierSite.dat:geolocation-!cn") [] _ _ after_abroad
  whitelist_rules-choose false first =
      choose-domains_to first (codes "geosite:geolocation-!cn") [] _ _ after_abroad

  after_gfw :
      (first : Text)
      → choose q (
          ips_to first inbounds telegram
          ∷ record no_rule { outbound_tag = direct; inbound_tag = inbounds }
          ∷ [])
        ≡ (if any q.in_ip telegram then to first else to direct)
  after_gfw first = choose-ips_to first _ _ _ _ choose-rest

  gfwlist_rules-choose :
      (listed : Bool) (first : Text)
      → choose q (gfwlist_rules listed first inbounds) ≡ decide_gfwlist listed first q
  unfolding gfwlist_rules
  gfwlist_rules-choose true first =
      choose-domains_to first (codes "ext:LoyalsoldierSite.dat:gfw") [] _ _ (
        choose-domains_to first (codes "ext:LoyalsoldierSite.dat:greatfire") [] _ _
          (after_gfw first))
      ∙ either_or (any q.in_domain (codes "ext:LoyalsoldierSite.dat:gfw" ∷ []))
          (any q.in_domain (codes "ext:LoyalsoldierSite.dat:greatfire" ∷ [])) (to first)
          (if any q.in_ip telegram then to first else to direct)
  gfwlist_rules-choose false first =
      choose-domains_to first (codes "geosite:geolocation-!cn") [] _ _ (after_gfw first)

  with_apple :
      (rules more : List RoutingRule) (e : Option (Text × Text))
      → choose q more ≡ e
      → choose q ((rules ++ (domains_to direct inbounds apple ∷ [])) ++ more)
        ≡ or_else (choose q rules) (if any q.in_domain apple then to direct else e)
  with_apple rules more e later =
      ap (choose q) (append_assoc rules (domains_to direct inbounds apple ∷ []) more)
      ∙ choose-append q rules (domains_to direct inbounds apple ∷ more)
      ∙ ap (or_else (choose q rules)) (choose-domains_to direct _ _ more e later)

  -- In a mode without RoutingA, the rules are added, and a connection that comes from one of the
  -- inbounds and meets the conditions of a rule that has none takes the rules from before where one
  -- applies. Otherwise the mode decides: Apple's push is direct; then the white list sends what is
  -- listed as abroad to the first proxy, Google and the addresses of Hong Kong and Macao to "proxy",
  -- and China and private addresses direct; and the list of GFW sends what it lists, and Telegram's
  -- addresses, to the first proxy and all else direct.
  pub append_routing_rule_by_mode-choose :
      (src : Sources) (mode : RulePortMode) (t : Template)
      → mode ≢ routing_a_mode
      → (t' : Template) × (append_routing_rule_by_mode src mode inbounds t ≡ inr t')
        × (choose q t'.rules
            ≡ or_else (choose q t.rules) (
                decide
                  (src.has_asset (codes "LoyalsoldierSite.dat"))
                  mode
                  (first_proxy t.outbounds)
                  q))
  unfolding append_routing_rule_by_mode choose
  append_routing_rule_by_mode-choose src whitelist_mode t other = (
    _,
    refl,
    with_apple t.rules _ _ (
        whitelist_rules-choose (src.has_asset (codes "LoyalsoldierSite.dat"))
          (first_proxy t.outbounds)),
  )
  append_routing_rule_by_mode-choose src gfwlist_mode t other = (
    _,
    refl,
    with_apple t.rules _ _ (
        gfwlist_rules-choose (src.has_asset (codes "LoyalsoldierSite.dat"))
          (first_proxy t.outbounds)),
  )
  append_routing_rule_by_mode-choose src custom_mode t other = (
    _,
    refl,
    choose-append q t.rules _
        ∙ ap (or_else (choose q t.rules)) (choose-domains_to direct _ _ [] none refl),
  )
  append_routing_rule_by_mode-choose src routing_a_mode t other = absurd (other refl)
