-- ===== src/Dns/Rule/Meaning.antt =====
-- What the matchers that core/dns/rule.go builds mean.
use v2ray_a.Base.{
  ◌≡◌, refl, Bool, true, eqb, all, ◌&&◌, ◌||◌, none, List, [], ◌∷◌, ◌++◌, map, Text, any, All,
  has_prefix, arith, ap, ◌∙◌,
}
use v2ray_a.Dns.Types.{DnsQuery}
use v2ray_a.Dns.Net.{Parsers}
use v2ray_a.Dns.Rule.Entries.{
  is_exactly, ends_in, entry_holds, entry_has_patterns, holds_some, regex_holds, ip_holds,
  client_holds, collect_parsed-ok, collect_parsed-total,
}
use v2ray_a.Dns.Rule.Fields.{
  field_holds, match_all-group, match_all-nil, match_all-group_last, open_or, domains-open_or,
  types-open_or, parsed-open_or,
}
use v2ray_a.Dns.Rule.{
  parse_cidr, domain_regex, ip_rule, client_ip_rule, invalid_regex, invalid_ip, invalid_client_ip,
  DnsRule, Matcher, RuleMatcher, domain_exact, domain_suffix, match_one, match_all, group,
  build_matchers, collect_domains, domain_matchers, regex_matchers, ip_matchers, client_ip_matchers,
  listed_domains, Result, ok, err, ◌>>=◌, BuildError, GeositeResolver, query_type_rule, join_groups,
  geosite_tag,
}

-- All expressions and addresses of a rule parse.
abbrev pub all_parse : Parsers → DnsRule → Bool
all_parse parsers rule =
    all (λ d. holds_some (λ re. true) (parsers.compile d)) rule.domain_regex
    && all (λ s. holds_some (λ net. true) (parse_cidr parsers s)) rule.ip
    && all (λ s. holds_some (λ net. true) (parse_cidr parsers s)) rule.client_ip

-- A query is of a rule if each of its four fields is open or has an entry that holds of it: the
-- domains, exact, as suffixes and as expressions, the addresses, the types, and the client addresses.
-- The domain field is open if its entries are geosite tags only, and none of them has patterns.
abbrev pub rule_holds : Parsers → DnsRule → GeositeResolver → DnsQuery → Bool
rule_holds parsers rule resolver query =
    open_or
      (any (entry_has_patterns resolver) rule.domain
        || any (entry_has_patterns resolver) rule.domain_suffix
        || any (λ d. true) rule.domain_regex)
      (any (entry_holds resolver query (is_exactly query)) rule.domain
        || any (entry_holds resolver query (ends_in query)) rule.domain_suffix
        || any (regex_holds parsers query) rule.domain_regex)
    && open_or (any (λ s. true) rule.ip) (any (ip_holds parsers query) rule.ip)
    && open_or (any (λ t. true) rule.query_type) (any (λ t. eqb t query.qtype) rule.query_type)
    && open_or (any (λ s. true) rule.client_ip) (any (client_holds parsers query) rule.client_ip)

-- A chain of results that ends well began well.
>>=-ok :
    {E A B : Type 0} (first : Result E A) (next : A → Result E B) {last : B}
    → (first >>= next) ≡ ok last
    → (x : A) × (first ≡ ok x) × (next x ≡ ok last)
>>=-ok (err cause) next ended = cc
>>=-ok (ok x) next ended = (x, refl, ended)

ok_injective :
    {a b : List RuleMatcher} → ◌≡◌ {A = Result BuildError (List RuleMatcher)} (ok a) (ok b) → b ≡ a
ok_injective h = cc

join_groups-holds :
    (ds is qs cs : List Matcher) (query : DnsQuery)
    → match_all (join_groups ds is qs cs) query ≡ (
        field_holds ds query
        && field_holds is query
        && field_holds qs query
        && field_holds cs query)
join_groups-holds ds is qs cs query = ground (
  arith,
  match_all-group ds (group is ++ (group qs ++ group cs)) query,
  match_all-group is (group qs ++ group cs) query,
  match_all-group qs (group cs) query,
  match_all-group_last cs query,
)

-- The parts of a rule, put together, mean what the rule does.
join_groups-meaning :
    (parsers : Parsers) (rule : DnsRule) (resolver : GeositeResolver)
    (regexes ips clients : List Matcher)
    → regex_matchers parsers rule ≡ ok regexes
    → ip_matchers parsers rule ≡ ok ips
    → client_ip_matchers parsers rule ≡ ok clients
    → (all_parse parsers rule ≡ true)
      × ((query : DnsQuery)
          → match_all
              (join_groups
                (listed_domains resolver rule ++ regexes)
                ips
                (map query_type_rule rule.query_type)
                clients)
              query
            ≡ rule_holds parsers rule resolver query)
unfolding match_one
join_groups-meaning parsers rule resolver regexes ips clients r i c =
    let every : Matcher → Bool = λ m. true in
    let (u, v, w) =
      collect_parsed-ok parsers.compile domain_regex invalid_regex every rule.domain_regex regexes
        r in
    let (u', v', w') =
      collect_parsed-ok (parse_cidr parsers) (λ s. ip_rule) invalid_ip every rule.ip ips i in
    let (u2, v2, w2) =
      collect_parsed-ok (parse_cidr parsers) (λ s. client_ip_rule) invalid_client_ip every
        rule.client_ip clients c in
    (
      ground (arith, w, w', w2),
      λ query.
          join_groups-holds (listed_domains resolver rule ++ regexes) ips
            (map query_type_rule rule.query_type) clients query
          ∙ and_cong
              (and_cong
                (and_cong
                  (domains-open_or resolver rule regexes query _ _ v
                    (collect_parsed-ok parsers.compile domain_regex invalid_regex
                      (λ m. match_one m query) rule.domain_regex regexes r).0)
                  (parsed-open_or query (parse_cidr parsers) (λ s. ip_rule) invalid_ip rule.ip ips
                    i))
                (types-open_or rule.query_type query))
              (parsed-open_or query (parse_cidr parsers) (λ s. client_ip_rule) invalid_client_ip
                rule.client_ip clients c),
    )
  where
    and_cong : {a a' b b' : Bool} → a ≡ a' → b ≡ b' → (a && b) ≡ (a' && b')
    and_cong e f = cc

-- Where matchers are built, all expressions and addresses of the rule parse, and the matchers match a
-- query exactly if each field of the rule, the domains, the addresses, the types and the client
-- addresses, is open or has an entry that holds of the query. A field is open if it is empty; that of
-- the domains also if all it has is geosite tags that give no patterns.
pub build_matchers-meaning :
    (parsers : Parsers) (rule : DnsRule) (resolver : GeositeResolver) (ms : List RuleMatcher)
    → build_matchers parsers rule resolver ≡ ok ms
    → (all_parse parsers rule ≡ true)
      × ((query : DnsQuery) → match_all ms query ≡ rule_holds parsers rule resolver query)
unfolding build_matchers
build_matchers-meaning parsers rule resolver ms h =
    let (regexes, r, h1) = >>=-ok (regex_matchers parsers rule) _ h in
    let (ips, i, h2) = >>=-ok (ip_matchers parsers rule) _ h1 in
    let (clients, c, h3) = >>=-ok (client_ip_matchers parsers rule) _ h2 in
    let (parsed, means) = join_groups-meaning parsers rule resolver regexes ips clients r i c in
    (parsed, λ query. ap (λ l. match_all l query) (ok_injective h3) ∙ means query)

-- An entry that does not parse is the only cause of an error.
build_matchers-total :
    (parsers : Parsers) (rule : DnsRule) (resolver : GeositeResolver)
    → all_parse parsers rule ≡ true
    → (ms : List RuleMatcher) × (build_matchers parsers rule resolver ≡ ok ms)
unfolding build_matchers
build_matchers-total parsers rule resolver parsed =
    let (regexes, r) =
      collect_parsed-total parsers.compile domain_regex invalid_regex rule.domain_regex
        (ground arith) in
    let (ips, i) =
      collect_parsed-total (parse_cidr parsers) (λ s. ip_rule) invalid_ip rule.ip (ground arith) in
    let (clients, c) =
      collect_parsed-total (parse_cidr parsers) (λ s. client_ip_rule) invalid_client_ip
        rule.client_ip (ground arith) in
    (
      join_groups (listed_domains resolver rule ++ regexes) ips
          (map query_type_rule rule.query_type) clients,
      rw (r, i, c, build_matchers) refl,
    )

collect_tags :
    (plain : Text → Matcher) (ds : List Text)
    → All (λ d. has_prefix d geosite_tag ≡ true) ds
    → collect_domains none plain ds ≡ []
unfolding collect_domains
collect_tags plain [] h = refl
collect_tags plain (d ∷ ds) h = rw (h.0, domain_matchers) (collect_tags plain ds h.1)

-- A rule that names nothing but geosite tags, while no resolver is set, has no matchers at all,
-- and so matches every query.
pub unresolved_tags_match_all :
    (parsers : Parsers) (rule : DnsRule)
    → All (λ d. has_prefix d geosite_tag ≡ true) rule.domain
    → All (λ d. has_prefix d geosite_tag ≡ true) rule.domain_suffix
    → (rule.domain_regex ≡ []) × (rule.ip ≡ []) × (rule.query_type ≡ []) × (rule.client_ip ≡ [])
    → (build_matchers parsers rule none ≡ ok []) × ((query : DnsQuery) → match_all [] query ≡ true)
unfolding build_matchers
unresolved_tags_match_all parsers rule tags suffix_tags others = (
  rw (
    others.0,
    others.1,
    others.2,
    others.3,
    collect_tags domain_exact rule.domain tags,
    collect_tags domain_suffix rule.domain_suffix suffix_tags,
    build_matchers,
  ),
  match_all-nil,
)
