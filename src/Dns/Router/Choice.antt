-- ===== src/Dns/Router/Choice.antt =====
-- core/dns/router.go: which rule Route takes, in terms of what the rules mean.
use v2ray_a.Base.{
  ◌≡◌, refl, Bool, true, false, Option, none, some, List, [], ◌∷◌, ◌++◌, All, ◌⊎◌, inl, inr,
  Bool-cases, ap, Text, codes, is_empty, if◌then◌else◌, lookup, text_eq,
}
use v2ray_a.Dns.Types.{DnsQuery}
use v2ray_a.Dns.Net.{Parsers}
use v2ray_a.Dns.Rule.{DnsRule, RuleMatcher, match_all, build_matchers, GeositeResolver, ok}
use v2ray_a.Dns.Router.{
  Router, RouteResult, rule_result, default_result, first_match, route, text_or_empty,
}

module _ (parsers : Parsers) (resolver : GeositeResolver) where
  -- The matchers are those of the rules, in order.
  abbrev pub Built : List DnsRule → List (List RuleMatcher) → Type 0
  Built [] [] = Unit {0}
  Built [] (ms ∷ matchers) = ⊥
  Built (rule ∷ rules) [] = ⊥
  Built (rule ∷ rules) (ms ∷ matchers) =
      (build_matchers parsers rule resolver ≡ ok ms) × Built rules matchers

  -- Whether a rule matches, by the matchers that are built for it.
  abbrev pub Decides : DnsRule → DnsQuery → Bool → Type 0
  Decides rule query b =
      (ms : List RuleMatcher) × (build_matchers parsers rule resolver ≡ ok ms)
      × (match_all ms query ≡ b)

  abbrev pub AllMiss : List DnsRule → DnsQuery → Type 0
  AllMiss rules query = All (λ rule. Decides rule query false) rules

  -- The rule is in the list, it matches, and none before it does.
  pub record IsFirst (rules : List DnsRule) (query : DnsQuery) (rule : DnsRule) : Type 0 where
    pub before : List DnsRule
    pub after : List DnsRule
    pub splits : rules ≡ before ++ (rule ∷ after)
    pub earlier : AllMiss before query
    pub here : Decides rule query true

  abbrev pub Found : List DnsRule → DnsQuery → Option DnsRule → Type 0
  Found rules query none = AllMiss rules query
  Found rules query (some rule) = IsFirst rules query rule

  later :
      (x rule : DnsRule) (rules : List DnsRule) (query : DnsQuery)
      → Decides x query false
      → IsFirst rules query rule
      → IsFirst (x ∷ rules) query rule
  later x rule rules query m f = record {
    before = x ∷ f.before;
    after = f.after;
    splits = ap (◌∷◌ x) f.splits;
    earlier = (m, f.earlier);
    here = f.here;
  }

  Found-later :
      (x : DnsRule) (rules : List DnsRule) (query : DnsQuery) (o : Option DnsRule)
      → Decides x query false
      → Found rules query o
      → Found (x ∷ rules) query o
  Found-later x rules query none m f = (m, f)
  Found-later x rules query (some rule) m f = later x rule rules query m f

  first_match-Found :
      (rules : List DnsRule) (matchers : List (List RuleMatcher)) (query : DnsQuery)
      → Built rules matchers
      → Found rules query (first_match rules matchers query)
  unfolding first_match
  first_match-Found [] [] query b = tt
  first_match-Found [] (ms ∷ matchers) query b = absurd b
  first_match-Found (rule ∷ rules) [] query b = absurd b
  first_match-Found (rule ∷ rules) (ms ∷ matchers) query b =
      elim (Bool-cases (match_all ms query)) [
        | inl hit ↦ rw hit (record {
          before = [];
          after = rules;
          splits = refl;
          earlier = tt;
          here = (ms, b.0, hit);
        })
        | inr miss ↦ rw miss (
            Found-later rule rules query (first_match rules matchers query) (ms, b.0, miss)
              (first_match-Found rules matchers query b.1))
      ]

  -- The result names the upstream, with its address and its tag, empty where the router has none, and
  -- the action, the policy and the rule, where "route" and "single" stand for what is not set.
  pub record Names (r : Router) (upstream action policy id : Text) (result : RouteResult)
      : Type 0 where
    pub by_upstream : result.upstream_id ≡ upstream
    pub address :
        result.upstream_addr
        ≡ elim (lookup upstream r.upstream_map) [ none ↦ [] | some addr ↦ addr ]
    pub tag :
        result.proxy_tag ≡ elim (lookup upstream r.upstream_proxy_tag) [ none ↦ [] | some t ↦ t ]
    pub with_action : result.action ≡ (if is_empty action then codes "route" else action)
    pub with_policy : result.policy ≡ (if is_empty policy then codes "single" else policy)
    pub of_rule : result.rule_id ≡ id

  -- By the first rule that matches, or by the default upstream, with no rule.
  abbrev pub Routed : Router → DnsQuery → RouteResult → Type 0
  Routed r query result =
      ((rule : DnsRule) × IsFirst r.rules query rule
        × Names r rule.upstream rule.action rule.policy rule.id result)
      ⊎ (AllMiss r.rules query × Names r r.default_upstream [] [] [] result)

  text_or_empty_eq : (o : Option Text) → text_or_empty o ≡ elim o [ none ↦ [] | some t ↦ t ]
  text_or_empty_eq none = refl
  text_or_empty_eq (some t) = refl

  rule_result-Names :
      (r : Router) (rule : DnsRule)
      → Names r rule.upstream rule.action rule.policy rule.id (rule_result r rule)
  rule_result-Names r rule = record {
    by_upstream = refl;
    address = text_or_empty_eq (lookup rule.upstream r.upstream_map);
    tag = text_or_empty_eq (lookup rule.upstream r.upstream_proxy_tag);
    with_action = refl;
    with_policy = refl;
    of_rule = refl;
  }

  default_result-Names : (r : Router) → Names r r.default_upstream [] [] [] (default_result r)
  default_result-Names r = record {
    by_upstream = refl;
    address = text_or_empty_eq (lookup r.default_upstream r.upstream_map);
    tag = text_or_empty_eq (lookup r.default_upstream r.upstream_proxy_tag);
    with_action = refl;
    with_policy = refl;
    of_rule = refl;
  }

  -- With matchers built from the rules, a query is routed by the first rule that matches it, none
  -- before it matching, to the upstream of the rule, with its action and policy or the defaults for
  -- them; and by the default upstream, with no rule, exactly if no rule matches. The address and the
  -- tag are those that the router has of the upstream.
  pub route-Routed :
      (r : Router) (query : DnsQuery) → Built r.rules r.matchers → Routed r query (route r query)
  unfolding route
  route-Routed r query b =
      chosen (first_match r.rules r.matchers query) (first_match-Found r.rules r.matchers query b)
    where
      chosen :
          (o : Option DnsRule)
          → Found r.rules query o
          → Routed r query (elim o [ some rule ↦ rule_result r rule | none ↦ default_result r ])
      chosen none f = inr (f, default_result-Names r)
      chosen (some rule) f = inl (rule, f, rule_result-Names r rule)
