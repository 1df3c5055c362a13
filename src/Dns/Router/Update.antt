-- ===== src/Dns/Router/Update.antt =====
-- core/dns/router.go: what a change of the rules or of the configuration leaves.
use v2ray_a.Base.{
  ℕ, zero, suc, ◌+◌, ◌-◌, ◌≤◌, ◌<◌, ◌||◌, subst, ◌≡◌, ◌≢◌, refl, Option, none, some, List, [], ◌∷◌,
  map, Text, if◌then◌else◌, arith, ap, get_elem?, lookup, insert, lookup-insert, text_eq, text_beq,
  is_empty, ◌∙◌,
}
use v2ray_a.Dns.Net.{Parsers}
use v2ray_a.Dns.Rule.{
  DnsRule, RuleMatcher, build_matchers, GeositeResolver, Result, ok, err, ◌>>=◌, BuildError,
}
use v2ray_a.Dns.Router.{
  Router, RuleError, UpstreamConfig, RuleConfig, build_all, update_rules, reload, map_addrs,
  map_tags, rule_of,
}
use v2ray_a.Dns.Router.Choice.{Built}

module _ (parsers : Parsers) (resolver : GeositeResolver) where
  abbrev pub Builds : DnsRule → Type 0
  Builds rule = (ms : List RuleMatcher) × (build_matchers parsers rule resolver ≡ ok ms)

  -- What building a list of rules from position `i` on gives.
  abbrev pub Outcome : ℕ → List DnsRule → Result RuleError (List (List RuleMatcher)) → Type 0
  Outcome i rules (ok mss) = Built parsers resolver rules mss
  Outcome i rules (err e) =
      (i ≤ e.position)
      × (rule : DnsRule) × (get_elem? rules (e.position - i) ≡ some rule)
      × (e.id ≡ rule.id)
      × (build_matchers parsers rule resolver ≡ err e.cause)
      × ((j : ℕ) (earlier : DnsRule)
          → i + j < e.position
          → get_elem? rules j ≡ some earlier
          → Builds earlier)

  -- The rules before an error, with one more in front.
  before :
      (i position : ℕ) (rule : DnsRule) (rules : List DnsRule) (ms : List RuleMatcher)
      → build_matchers parsers rule resolver ≡ ok ms
      → ((j : ℕ) (earlier : DnsRule)
          → suc i + j < position
          → get_elem? rules j ≡ some earlier
          → Builds earlier)
      → (j : ℕ) (earlier : DnsRule) → i + j < position
      → get_elem? (rule ∷ rules) j ≡ some earlier
      → Builds earlier
  before i position rule rules ms h later zero earlier less here =
      let e : rule ≡ earlier = cc in subst Builds e (ms, h)
  before i position rule rules ms h later (suc j) earlier less here =
      later j earlier (omega (arith, less)) here

  Outcome-cons :
      (i : ℕ) (rule : DnsRule) (rules : List DnsRule) (ms : List RuleMatcher)
      (o : Result RuleError (List (List RuleMatcher)))
      → build_matchers parsers rule resolver ≡ ok ms
      → Outcome (suc i) rules o
      → Outcome i (rule ∷ rules) (o >>= λ mss. ok (ms ∷ mss))
  Outcome-cons i rule rules ms (ok mss) h t = (h, t)
  Outcome-cons i rule rules ms (err e) h t =
      let n : e.position - i ≡ suc (e.position - suc i) = omega arith in
      (omega arith, t.1, rw n t.2, t.3, t.4, before i e.position rule rules ms h t.5)

  build_all-Outcome :
      (i : ℕ) (rules : List DnsRule) → Outcome i rules (build_all parsers resolver i rules)
  unfolding build_all
  build_all-Outcome i [] = tt
  build_all-Outcome i (rule ∷ rules) =
      go (build_matchers parsers rule resolver) refl (build_all-Outcome (suc i) rules)
    where
      go :
          (b : Result BuildError (List RuleMatcher))
          → build_matchers parsers rule resolver ≡ b
          → Outcome (suc i) rules (build_all parsers resolver (suc i) rules)
          → Outcome i (rule ∷ rules) (elim b [
            | err e ↦ err (record { position = i; id = rule.id; cause = e })
            | ok ms ↦ build_all parsers resolver (suc i) rules >>= λ mss. ok (ms ∷ mss)
          ])
      go (err e) h t =
          let z : i - i ≡ 0 = omega arith in
          (
            omega arith,
            rule,
            rw z refl,
            refl,
            h,
            λ j earlier less here. absurd (omega (arith, less)),
          )
      go (ok ms) h t = Outcome-cons i rule rules ms (build_all parsers resolver (suc i) rules) h t

-- A router after a change of its rules: with an error it is as it was, and the error names the
-- first rule that does not build; without one it has the new rules and their matchers, and all
-- else as it was.
abbrev pub Updated : Parsers → Router → List DnsRule → Router × Option RuleError → Type 0
Updated parsers r rules (r', some e) = (r' ≡ r) × Outcome parsers r.geosite_resolver 0 rules (err e)
Updated parsers r rules (r', none) =
    (r'.rules ≡ rules)
    × Built parsers r.geosite_resolver r'.rules r'.matchers
    × (r'.upstream_map ≡ r.upstream_map)
    × (r'.upstream_proxy_tag ≡ r.upstream_proxy_tag)
    × (r'.default_upstream ≡ r.default_upstream)
    × (r'.geosite_resolver ≡ r.geosite_resolver)

-- Either every new rule builds, and the router takes over the rules, each with its matchers; or the
-- router is as it was, and the error has the position, the id and the cause of a rule that does not
-- build, while every rule before it does. The upstreams, the default one and the resolver are as they
-- were in both cases.
pub update_rules-Updated :
    (parsers : Parsers) (r : Router) (rules : List DnsRule)
    → Updated parsers r rules (update_rules parsers r rules)
unfolding update_rules
update_rules-Updated parsers r rules =
    go (build_all parsers r.geosite_resolver 0 rules)
      (build_all-Outcome parsers r.geosite_resolver 0 rules)
  where
    go :
        (o : Result RuleError (List (List RuleMatcher)))
        → Outcome parsers r.geosite_resolver 0 rules o
        → Updated parsers r rules (elim o [
          | err e ↦ (r, some e)
          | ok mss ↦ (record r { rules = rules; matchers = mss }, none)
        ])
    go (err e) h = (refl, h)
    go (ok mss) h = (refl, h, refl, refl, refl, refl)

-- The last upstream of an id, by its address.
abbrev pub last_addr : Text → List UpstreamConfig → Option Text → Option Text
last_addr id [] found = found
last_addr id (u ∷ us) found =
    last_addr id us
      (if is_empty u.id then found else if text_beq u.id id then some u.addr else found)

-- The map gives an id the address of the last upstream that has it, where the id is not empty, and
-- what it held before where no upstream has it.
lookup-map_addrs :
    (id : Text) (us : List UpstreamConfig) (m : List (Text × Text))
    → lookup id (map_addrs us m) ≡ last_addr id us (lookup id m)
unfolding map_addrs
lookup-map_addrs id [] m = refl
lookup-map_addrs id (u ∷ us) m =
    lookup-map_addrs id us (if is_empty u.id then m else insert u.id u.addr m)
    ∙ ap (last_addr id us) (ground (arith, lookup-insert u.id id u.addr m))

-- The tag of the last upstream that has the id and a tag.
abbrev pub last_tag : Text → List UpstreamConfig → Option Text → Option Text
last_tag id [] found = found
last_tag id (u ∷ us) found = last_tag id us (
    if is_empty u.id || is_empty u.proxy_tag
    then found
    else if text_beq u.id id
    then some u.proxy_tag
    else found)

lookup-map_tags :
    (id : Text) (us : List UpstreamConfig) (m : List (Text × Text))
    → lookup id (map_tags us m) ≡ last_tag id us (lookup id m)
unfolding map_tags
lookup-map_tags id [] m = refl
lookup-map_tags id (u ∷ us) m =
    lookup-map_tags id us
      (if is_empty u.id then m else if is_empty u.proxy_tag then m else insert u.id u.proxy_tag m)
    ∙ ap (last_tag id us) (ground (arith, lookup-insert u.id id u.proxy_tag m))

abbrev pub Reloaded : Router → List UpstreamConfig → Router × Option RuleError → Type 0
Reloaded r upstreams (r', failed) =
    (r'.default_upstream ≡ r.default_upstream)
    × ((id : Text) → lookup id r'.upstream_map ≡ last_addr id upstreams none)
    × ((id : Text) → lookup id r'.upstream_proxy_tag ≡ last_tag id upstreams none)
    × (failed ≢ none → (r'.rules ≡ r.rules) × (r'.matchers ≡ r.matchers))

Updated-Reloaded :
    (parsers : Parsers) (r : Router) (rules : List DnsRule) (us : List UpstreamConfig)
    (x : Router × Option RuleError)
    → Updated parsers
        (record r { upstream_map = map_addrs us []; upstream_proxy_tag = map_tags us [] })
        rules
        x
    → Reloaded r us x
unfolding lookup
Updated-Reloaded parsers r rules us (r', some e) (same, _) =
    rw same
      (refl, λ id. lookup-map_addrs id us [], λ id. lookup-map_tags id us [], λ f. (refl, refl))
Updated-Reloaded parsers r rules us (r', none) (new, built, addrs, tags, default, resolver) = (
  default,
  λ id. ap (lookup id) addrs ∙ lookup-map_addrs id us [],
  λ id. ap (lookup id) tags ∙ lookup-map_tags id us [],
  λ f. absurd (f refl),
)

-- A reload takes over the new upstreams, also where it fails on a rule, and keeps the old rules and
-- matchers then; and no reload changes the default upstream. After it, an id that is not empty is found
-- with the address of the last upstream that has it, and with the tag of the last that has it and a
-- tag; another id is not found.
pub reload-Reloaded :
    (parsers : Parsers) (r : Router) (rules : List RuleConfig) (upstreams : List UpstreamConfig)
    → Reloaded r upstreams (reload parsers r rules upstreams)
unfolding reload
reload-Reloaded parsers r rules us =
    Updated-Reloaded parsers r (map rule_of rules) us _ (update_rules-Updated parsers _ _)
