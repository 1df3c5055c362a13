-- ===== src/Dns/Rule/Entries.antt =====
-- What the entries of a rule mean by themselves, and what core/dns/rule.go makes of them.
use v2ray_a.Base.{
  ◌≡◌, refl, sym, ap, ◌∙◌, Bool, true, false, ◌||◌, Option, none, some, List, [], ◌∷◌, ◌++◌, map,
  Text, text_beq, any, all, has_prefix, trim_prefix, trim_suffix, arith, if◌then◌else◌,
  Option-cases, inl, inr, Bool-cases,
}
use v2ray_a.Dns.Types.{DnsQuery}
use v2ray_a.Dns.Net.{Parsers, contains}
use v2ray_a.Dns.Rule.{
  Matcher, domain_exact, domain_suffix, match_one, match_suffix, collect_domains, domain_matchers,
  geosite_matchers, collect_parsed, option_map, ◌>>=◌, client_bytes, parse_cidr, Result, ok, err,
  BuildError, GeositeResolver, dot, geosite_tag,
}

-- The name asked for, without its last dot.
abbrev pub asked : DnsQuery → Text
asked query = trim_suffix query.name dot

abbrev pub is_exactly : DnsQuery → Text → Bool
is_exactly query d = text_beq (asked query) (trim_suffix d dot)

abbrev pub ends_in : DnsQuery → Text → Bool
ends_in query d = match_suffix d (asked query)

-- A tag holds of a query that one of its domains or suffixes holds of, none without a resolver.
abbrev pub tag_holds : GeositeResolver → DnsQuery → Text → Bool
tag_holds none query tag = false
tag_holds (some resolver) query tag =
    any (is_exactly query) (resolver tag).0 || any (ends_in query) (resolver tag).1

abbrev pub tag_has_patterns : GeositeResolver → Text → Bool
tag_has_patterns none tag = false
tag_has_patterns (some resolver) tag =
    any (λ d. true) (resolver tag).0 || any (λ d. true) (resolver tag).1

-- An entry of a domain field is a geosite tag, or holds of what its field says.
abbrev pub entry_holds : GeositeResolver → DnsQuery → (Text → Bool) → Text → Bool
entry_holds resolver query plain d =
    if has_prefix d geosite_tag
    then tag_holds resolver query (trim_prefix d geosite_tag)
    else plain d

abbrev pub entry_has_patterns : GeositeResolver → Text → Bool
entry_has_patterns resolver d =
    if has_prefix d geosite_tag then tag_has_patterns resolver (trim_prefix d geosite_tag) else true

-- What an option holds, told by a test.
abbrev pub holds_some : {A : Type 0} → (A → Bool) → Option A → Bool
holds_some p none = false
holds_some p (some x) = p x

abbrev pub regex_holds : Parsers → DnsQuery → Text → Bool
regex_holds parsers query d = holds_some (λ re. re (asked query)) (parsers.compile d)

-- An address of none is compared as the empty one.
abbrev pub ip_holds : Parsers → DnsQuery → Text → Bool
ip_holds parsers query s =
    holds_some (λ net. contains net (client_bytes query.client_ip)) (parse_cidr parsers s)

abbrev pub client_holds : Parsers → DnsQuery → Text → Bool
client_holds parsers query s =
    holds_some (λ net. elim query.client_ip [ none ↦ false | some ip ↦ contains net ip ])
      (parse_cidr parsers s)

pub any-append :
    {A : Type 0} (p : A → Bool) (xs ys : List A) → any p (xs ++ ys) ≡ (any p xs || any p ys)
any-append p [] ys = refl
any-append p (x ∷ xs) ys = ground (arith, any-append p xs ys)

pub any-map :
    {A B : Type 0} (p : B → Bool) (f : A → B) (xs : List A)
    → any p (map f xs) ≡ any (λ x. p (f x)) xs
any-map p f [] = refl
any-map p f (x ∷ xs) = ground (arith, any-map p f xs)

module _ (hit : Matcher → Bool) (resolver : GeositeResolver) where
  -- A test of matchers that finds the same in a plain entry and in the patterns of a tag finds the
  -- same in all entries.
  any-collect :
      (plain : Text → Matcher) (entry : Text → Bool) (tag : Text → Bool) (ds : List Text)
      → ((t : Text) → any hit (geosite_matchers resolver t) ≡ tag t)
      → ((d : Text) → hit (plain d) ≡ entry d)
      → any hit (collect_domains resolver plain ds)
        ≡ any
            (λ d. if has_prefix d geosite_tag then tag (trim_prefix d geosite_tag) else entry d)
            ds
  unfolding collect_domains domain_matchers
  any-collect plain entry tag [] tags plains = refl
  any-collect plain entry tag (d ∷ ds) tags plains =
      any-append hit (domain_matchers resolver plain d) (collect_domains resolver plain ds)
      ∙ (let later = any-collect plain entry tag ds tags plains in
          elim (Bool-cases (has_prefix d geosite_tag)) [
            | inl tagged ↦ ground (arith, later, tags (trim_prefix d geosite_tag))
            | inr other ↦ ground (arith, later, plains d)
          ])

any-geosite_matchers :
    (resolver : GeositeResolver) (query : DnsQuery) (tag : Text)
    → any (λ m. match_one m query) (geosite_matchers resolver tag) ≡ tag_holds resolver query tag
unfolding match_one
any-geosite_matchers none query tag = refl
any-geosite_matchers (some resolver) query tag =
    let hit : Matcher → Bool = λ m. match_one m query in
    let (domains, suffixes) = resolver tag in
    any-append hit (map domain_exact domains) (map domain_suffix suffixes)
    ∙ ap (λ b. b || any hit (map domain_suffix suffixes)) (any-map hit domain_exact domains)
    ∙ ap (λ b. any (is_exactly query) domains || b) (any-map hit domain_suffix suffixes)

geosite_matchers-has_patterns :
    (resolver : GeositeResolver) (tag : Text)
    → any (λ m. true) (geosite_matchers resolver tag) ≡ tag_has_patterns resolver tag
geosite_matchers-has_patterns none tag = refl
geosite_matchers-has_patterns (some resolver) tag =
    let hit : Matcher → Bool = λ m. true in
    let (domains, suffixes) = resolver tag in
    any-append hit (map domain_exact domains) (map domain_suffix suffixes)
    ∙ ap (λ b. b || any hit (map domain_suffix suffixes)) (any-map hit domain_exact domains)
    ∙ ap (λ b. any (λ d. true) domains || b) (any-map hit domain_suffix suffixes)

-- The matchers of a domain field match by its entries, and there are some if an entry has patterns.
pub any-collect_domains :
    (resolver : GeositeResolver) (query : DnsQuery) (plain : Text → Matcher) (entry : Text → Bool)
    (ds : List Text)
    → ((d : Text) → match_one (plain d) query ≡ entry d)
    → any (λ m. match_one m query) (collect_domains resolver plain ds)
      ≡ any (entry_holds resolver query entry) ds
any-collect_domains resolver query plain entry ds plains =
    any-collect (λ m. match_one m query) resolver plain entry (tag_holds resolver query) ds
      (any-geosite_matchers resolver query) plains

pub any_of-collect_domains :
    (resolver : GeositeResolver) (plain : Text → Matcher) (ds : List Text)
    → any (λ m. true) (collect_domains resolver plain ds) ≡ any (entry_has_patterns resolver) ds
any_of-collect_domains resolver plain ds =
    any-collect (λ m. true) resolver plain (λ d. true) (tag_has_patterns resolver) ds
      (geosite_matchers-has_patterns resolver) (λ d. refl)

module _ {A B : Type 0} (parse : A → Option B) (made : A → B → Matcher)
    (fail : A → BuildError) where
  -- Where all entries of a field parse, its matchers match by them.
  pub collect_parsed-ok :
      (hit : Matcher → Bool) (xs : List A) (ms : List Matcher)
      → collect_parsed (λ x. option_map (made x) (parse x)) fail xs ≡ ok ms
      → (any hit ms ≡ any (λ x. holds_some (λ b. hit (made x b)) (parse x)) xs)
        × (any (λ m. true) ms ≡ any (λ x. true) xs)
        × (all (λ x. holds_some (λ b. true) (parse x)) xs ≡ true)
  unfolding collect_parsed
  collect_parsed-ok hit [] ms h = let e : [] ≡ ms = cc in ground arith
  collect_parsed-ok hit (x ∷ xs) ms h =
      by_case (parse x) (collect_parsed (λ x. option_map (made x) (parse x)) fail xs)
        (λ later. collect_parsed-ok hit xs later) h
    where
      by_case :
          (o : Option B) (rest : Result BuildError (List Matcher))
          → ((later : List Matcher)
              → rest ≡ ok later
              → (any hit later ≡ any (λ x. holds_some (λ b. hit (made x b)) (parse x)) xs)
                × (any (λ m. true) later ≡ any (λ x. true) xs)
                × (all (λ x. holds_some (λ b. true) (parse x)) xs ≡ true))
          → elim (option_map (made x) o) [
            | none ↦ err (fail x)
            | some m ↦ rest >>= (λ later. ok (m ∷ later))
          ]
            ≡ ok ms
          → (any hit ms ≡ (
              if holds_some (λ b. hit (made x b)) o
              then true
              else any (λ x. holds_some (λ b. hit (made x b)) (parse x)) xs))
            × (any (λ m. true) ms ≡ true)
            × ((if holds_some (λ b. true) o
                  then all (λ x. holds_some (λ b. true) (parse x)) xs
                  else false)
                ≡ true)
      by_case none rest ih same = absurd cc
      by_case (some b) (err e) ih same = absurd cc
      by_case (some b) (ok later) ih same =
          let (hits, some_of, parsed) = ih later refl in
          let e : made x b ∷ later ≡ ms = cc in
          (ap (any hit) (sym e) ∙ ground (arith, hits), ap (any (λ m. true)) (sym e), parsed)

  -- Where all entries parse, there is no error.
  pub collect_parsed-total :
      (xs : List A)
      → all (λ x. holds_some (λ b. true) (parse x)) xs ≡ true
      → (ms : List Matcher) × (collect_parsed (λ x. option_map (made x) (parse x)) fail xs ≡ ok ms)
  unfolding collect_parsed
  collect_parsed-total [] h = ([], refl)
  collect_parsed-total (x ∷ xs) h = elim (Option-cases (parse x)) [
    | inl absent ↦ absurd (ground arith)
    | inr (b, present) ↦
        let later : all (λ x. holds_some (λ b. true) (parse x)) xs ≡ true = ground arith in
        let (ms, e) = collect_parsed-total xs later in
        (made x b ∷ ms, rw (collect_parsed, present, e) refl)
  ]
