-- ===== src/Dns/Rule/Fields.antt =====
-- When the matchers of one field of a rule of core/dns/rule.go hold of a query.
use v2ray_a.Base.{
  ◌≡◌, refl, Bool, Option, true, not, eqb, ℕ, ◌&&◌, ◌||◌, List, [], ◌∷◌, ◌++◌, map, any, arith, ap,
  ◌∙◌,
}
use v2ray_a.Dns.Types.{DnsQuery}
use v2ray_a.Dns.Rule.Entries.{
  is_exactly, ends_in, entry_holds, entry_has_patterns, holds_some, any-append, any-map,
  any-collect_domains, any_of-collect_domains, collect_parsed-ok,
}
use v2ray_a.Dns.Rule.{
  collect_parsed, option_map, DnsRule, Matcher, RuleMatcher, domain_exact, domain_suffix, match_one,
  matches, match_all, group, collect_domains, listed_domains, ok, BuildError, GeositeResolver,
  query_type_rule,
}

-- A field holds of a query if it is empty or one of its matchers does.
abbrev pub field_holds : List Matcher → DnsQuery → Bool
field_holds [] query = true
field_holds (m ∷ ms) query = any (λ x. match_one x query) (m ∷ ms)

pub match_all-group :
    (ms : List Matcher) (rest : List RuleMatcher) (query : DnsQuery)
    → match_all (group ms ++ rest) query ≡ (field_holds ms query && match_all rest query)
unfolding match_all group matches
match_all-group [] rest query = refl
match_all-group (m ∷ []) rest query = ground arith
match_all-group (m ∷ m' ∷ ms) rest query = ground arith

pub match_all-nil : (query : DnsQuery) → match_all [] query ≡ true
unfolding match_all
match_all-nil query = refl

pub match_all-group_last :
    (ms : List Matcher) (query : DnsQuery) → match_all (group ms) query ≡ field_holds ms query
unfolding match_all group matches
match_all-group_last [] query = refl
match_all-group_last (m ∷ []) query = ground arith
match_all-group_last (m ∷ m' ∷ ms) query = ground arith

-- A field that has nothing to match holds of every query, another one of those that a part holds of.
abbrev pub open_or : Bool → Bool → Bool
open_or has_any hit = not has_any || hit

pub field_holds-open_or :
    (ms : List Matcher) (query : DnsQuery)
    → field_holds ms query ≡ open_or (any (λ m. true) ms) (any (λ m. match_one m query) ms)
field_holds-open_or [] query = refl
field_holds-open_or (m ∷ ms) query = refl

pub domains-open_or :
    (resolver : GeositeResolver) (rule : DnsRule) (regexes : List Matcher) (query : DnsQuery)
    (some_regex some_hit : Bool)
    → any (λ m. true) regexes ≡ some_regex
    → any (λ m. match_one m query) regexes ≡ some_hit
    → field_holds (listed_domains resolver rule ++ regexes) query
      ≡ open_or
          (any (entry_has_patterns resolver) rule.domain
            || any (entry_has_patterns resolver) rule.domain_suffix
            || some_regex)
          (any (entry_holds resolver query (is_exactly query)) rule.domain
            || any (entry_holds resolver query (ends_in query)) rule.domain_suffix
            || some_hit)
unfolding match_one
domains-open_or resolver rule regexes query some_regex some_hit has_some hits =
    field_holds-open_or (listed_domains resolver rule ++ regexes) query
    ∙ ground (
      arith,
      has_some,
      hits,
      three (λ m. true),
      three (λ m. match_one m query),
      any_of-collect_domains resolver domain_exact rule.domain,
      any_of-collect_domains resolver domain_suffix rule.domain_suffix,
      any-collect_domains resolver query domain_exact (is_exactly query) rule.domain (λ d. refl),
      any-collect_domains resolver query domain_suffix (ends_in query) rule.domain_suffix
          (λ d. refl),
    )
  where
    three :
        (p : Matcher → Bool)
        → any p (listed_domains resolver rule ++ regexes) ≡ (
            any p (collect_domains resolver domain_exact rule.domain)
            || any p (collect_domains resolver domain_suffix rule.domain_suffix)
            || any p regexes)
    three p = ground (
      arith,
      any-append p (listed_domains resolver rule) regexes,
      any-append p (collect_domains resolver domain_exact rule.domain)
          (collect_domains resolver domain_suffix rule.domain_suffix),
    )

pub types-open_or :
    (types : List ℕ) (query : DnsQuery)
    → field_holds (map query_type_rule types) query
      ≡ open_or (any (λ t. true) types) (any (λ t. eqb t query.qtype) types)
unfolding match_one
types-open_or types query =
    field_holds-open_or (map query_type_rule types) query
    ∙ ground (
      arith,
      any-map (λ m. true) query_type_rule types,
      any-map (λ m. match_one m query) query_type_rule types,
    )

pub parsed-open_or :
    {A B : Type 0} (query : DnsQuery) (parse : A → Option B) (made : A → B → Matcher)
    (fail : A → BuildError) (xs : List A) (ms : List Matcher)
    → collect_parsed (λ x. option_map (made x) (parse x)) fail xs ≡ ok ms
    → field_holds ms query
      ≡ open_or
          (any (λ x. true) xs)
          (any (λ x. holds_some (λ b. match_one (made x b) query) (parse x)) xs)
parsed-open_or query parse made fail xs ms h =
    let (hits, has_some, parsed) =
      collect_parsed-ok parse made fail (λ m. match_one m query) xs ms h in
    field_holds-open_or ms query
    ∙ ap (λ b. open_or b (any (λ m. match_one m query) ms)) has_some
    ∙ ap (open_or (any (λ x. true) xs)) hits
