-- ===== src/Dns/Rule.antt =====
-- core/dns/rule.go: the matchers of a rule, how they are built, and when they match a query.
mod Suffix
pub mod Entries
mod Fields
pub mod Meaning
use v2ray_a.Base.{
  ℕ, ◌≡◌, refl, Bool, true, false, ◌&&◌, Option, none, some, List, [], ◌∷◌, ◌++◌, map, Text, codes,
  text_beq, eqb, if◌then◌else◌, any, all, has_prefix, trim_prefix, has_suffix, trim_suffix,
  contains_byte,
}
use v2ray_a.Dns.Types.{DnsQuery}
use v2ray_a.Dns.Net.{IpNet, Parsers, contains, to4}

pub record DnsRule : Type 0 where
  pub id : Text
  pub domain : List Text
  pub domain_suffix : List Text
  pub domain_regex : List Text
  pub ip : List Text
  pub query_type : List ℕ
  pub client_ip : List Text
  pub upstream : Text
  pub action : Text
  pub policy : Text

-- DomainRule, IPRule, QueryTypeRule and ClientIPRule. A domain rule holds the compiled expression
-- if it is a regular one.
pub data Matcher : Type 0 where
  domain_exact : Text → Matcher
  domain_suffix : Text → Matcher
  domain_regex : Text → (Text → Bool) → Matcher
  ip_rule : IpNet → Matcher
  query_type_rule : ℕ → Matcher
  client_ip_rule : IpNet → Matcher

-- The groups that are and-ed: a single matcher, or an OrMatcher, which only ever holds those.
pub data RuleMatcher : Type 0 where
  single : Matcher → RuleMatcher
  or_matcher : List Matcher → RuleMatcher

abbrev pub dot : Text
dot = b'.' ∷ []

-- DomainRule.Match of a suffix rule, on the name without its last dot.
unfoldable pub match_suffix : Text → Text → Bool
unfolding has_suffix trim_suffix
match_suffix pattern name =
    let domain = trim_suffix pattern dot in
    if has_prefix domain dot
    then has_suffix name domain
    else if text_beq name domain
    then true
    else has_suffix name (dot ++ domain)

-- net.IPNet.Contains of a nil address compares an empty one.
abbrev pub client_bytes : Option Text → Text
client_bytes none = []
client_bytes (some ip) = ip

unfoldable pub match_one : Matcher → DnsQuery → Bool
unfolding match_suffix trim_suffix contains
match_one (domain_exact d) query = text_beq (trim_suffix query.name dot) (trim_suffix d dot)
match_one (domain_suffix d) query = match_suffix d (trim_suffix query.name dot)
match_one (domain_regex d re) query = re (trim_suffix query.name dot)
match_one (ip_rule cidr) query = contains cidr (client_bytes query.client_ip)
match_one (query_type_rule qtype) query = eqb qtype query.qtype
match_one (client_ip_rule cidr) query = elim query.client_ip [
  | none ↦ false
  | some ip ↦ contains cidr ip
]

unfoldable pub matches : RuleMatcher → DnsQuery → Bool
unfolding match_one
matches (single m) query = match_one m query
matches (or_matcher ms) query = any (λ m. match_one m query) ms

-- MatchAll
unfoldable pub match_all : List RuleMatcher → DnsQuery → Bool
unfolding matches
match_all ms query = all (λ m. matches m query) ms

pub data BuildError : Type 0 where
  invalid_regex : Text → BuildError
  invalid_ip : Text → BuildError
  invalid_client_ip : Text → BuildError

pub data Result {ℓ} (E A : Type ℓ) : Type ℓ where
  ok : A → Result E A
  err : E → Result E A

infixl 5 ◌>>=◌
abbrev pub ◌>>=◌ {ℓ} : {E A B : Type ℓ} → Result E A → (A → Result E B) → Result E B
ok a >>= f = f a
err e >>= f = err e

-- GeositeResolver: the domains and the suffixes of a tag. A nil function is `none`.
abbrev pub GeositeResolver : Type 0
GeositeResolver = Option (Text → List Text × List Text)

abbrev pub geosite_tag : Text
geosite_tag = codes "geosite:"

abbrev pub geosite_matchers : GeositeResolver → Text → List Matcher
geosite_matchers none tag = []
geosite_matchers (some resolver) tag =
    map domain_exact (resolver tag).0 ++ map domain_suffix (resolver tag).1

-- One round of the loops over rule.Domain and rule.DomainSuffix.
unfoldable pub domain_matchers : GeositeResolver → (Text → Matcher) → Text → List Matcher
domain_matchers resolver plain d =
    if has_prefix d geosite_tag
    then geosite_matchers resolver (trim_prefix d geosite_tag)
    else plain d ∷ []

unfoldable pub collect_domains : GeositeResolver → (Text → Matcher) → List Text → List Matcher
unfolding domain_matchers
collect_domains resolver plain [] = []
collect_domains resolver plain (d ∷ ds) =
    domain_matchers resolver plain d ++ collect_domains resolver plain ds

-- The loops that stop at the first entry that does not parse.
unfoldable pub collect_parsed {ℓ} :
    {A : Type ℓ}
    → (A → Option Matcher)
    → (A → BuildError)
    → List A
    → Result BuildError (List Matcher)
collect_parsed parse fail [] = ok []
collect_parsed parse fail (x ∷ xs) = elim (parse x) [
  | none ↦ err (fail x)
  | some m ↦ do ms ← collect_parsed parse fail xs; ok (m ∷ ms)
]

-- parseCIDR: a network, or a single address as a network of one.
unfoldable pub parse_cidr : Parsers → Text → Option IpNet
unfolding to4
parse_cidr parsers s =
    if contains_byte s b'/' then parsers.parse_cidr s else (elim (parsers.parse_ip s) [
      | none ↦ none
      | some ip ↦ elim (to4 ip) [
        | some v4 ↦ parsers.parse_cidr (s ++ codes "/32")
        | none ↦ parsers.parse_cidr (s ++ codes "/128")
      ]
    ])

abbrev pub option_map : {A B : Type 0} → (A → B) → Option A → Option B
option_map f none = none
option_map f (some a) = some (f a)

-- A field with no matcher gives no group, one with a single matcher that matcher.
unfoldable pub group : List Matcher → List RuleMatcher
group [] = []
group (m ∷ []) = single m ∷ []
group (m ∷ m' ∷ ms) = or_matcher (m ∷ m' ∷ ms) ∷ []

abbrev pub regex_matchers : Parsers → DnsRule → Result BuildError (List Matcher)
regex_matchers parsers rule =
    collect_parsed (λ d. option_map (domain_regex d) (parsers.compile d)) invalid_regex
      rule.domain_regex

abbrev pub ip_matchers : Parsers → DnsRule → Result BuildError (List Matcher)
ip_matchers parsers rule =
    collect_parsed (λ s. option_map ip_rule (parse_cidr parsers s)) invalid_ip rule.ip

abbrev pub client_ip_matchers : Parsers → DnsRule → Result BuildError (List Matcher)
client_ip_matchers parsers rule =
    collect_parsed (λ s. option_map client_ip_rule (parse_cidr parsers s)) invalid_client_ip
      rule.client_ip

-- The exact and the suffix patterns of a rule, its geosite tags expanded.
abbrev pub listed_domains : GeositeResolver → DnsRule → List Matcher
listed_domains resolver rule =
    collect_domains resolver domain_exact rule.domain
    ++ collect_domains resolver domain_suffix rule.domain_suffix

abbrev pub join_groups :
    List Matcher → List Matcher → List Matcher → List Matcher → List RuleMatcher
join_groups domains ips qtypes clients =
    group domains ++ (group ips ++ (group qtypes ++ group clients))

unfoldable pub build_matchers :
    Parsers → DnsRule → GeositeResolver → Result BuildError (List RuleMatcher)
unfolding collect_domains collect_parsed parse_cidr group
build_matchers parsers rule resolver = do
  regexes ← regex_matchers parsers rule
  ips ← ip_matchers parsers rule
  clients ← client_ip_matchers parsers rule
  ok (
      join_groups (listed_domains resolver rule ++ regexes) ips
        (map query_type_rule rule.query_type) clients)
