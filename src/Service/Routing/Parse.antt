-- ===== src/Service/Routing/Parse.antt =====
-- service/kernel/v2ray/template_routing.go: RoutingA, and the rules of custom inbounds. What
-- RoutingA.Parse gives is taken with the fields that the code reads; a map of parameters is a list of
-- its entries in the order in which Go happens to range over them.
use v2ray_a.Base.{
  ◌&&◌, not, ℕ, ℤ, pos, Bool, true, false, ◌||◌, Option, none, some, List, [], ◌∷◌, ◌++◌, map, Text,
  codes, text_beq, is_empty, has_prefix, drop, length, lookup, text_eq, trim_prefix, trim_suffix,
  eqb, if◌then◌else◌, ◌⊎◌, inl, inr,
}
use v2ray_a.Service.Routing.{
  RoutingRule, no_rule, OutboundUser, proxy_settings, freedom_settings, Outbound, Template,
  rule_http, out_names, first_proxy,
}

pub record Function : Type 0 where
  pub name : Text
  pub params : List Text
  pub named_params : List (Text × List Text)

-- The value of a definition: a text, a bound with its name and its function, or another.
pub data Value : Type 0 where
  text_value : Text → Value
  bound_value : Text → Function → Value
  no_value : Value

pub data Statement : Type 0 where
  define : Text → Value → Statement
  routing : List Function → Text → Statement

pub data RoutingError : Type 0 where
  bad_syntax : RoutingError
  no_outbound : Text → RoutingError
  no_tag : Text → RoutingError
  no_file : Text → RoutingError

-- What the code reads from elsewhere: the assets, the stored RoutingA, regexp's FindAllString, the
-- environment, RoutingA.Parse, and strconv.Atoi.
pub record Sources : Type 0 where
  pub has_asset : Text → Bool
  pub routing_a : Text
  pub hardcodes : Text → List Text
  pub look_up_env : Text → Option Text
  pub parse : Text → Option (List Statement)
  pub atoi : Text → Option ℤ

-- strings.Split at a byte, and at most once; strings.Join.
unfoldable pub split_at : ℕ → Text → List Text
split_at b [] = [] ∷ []
split_at b (x ∷ xs) =
    let rest = split_at b xs in
    if eqb x b then [] ∷ rest else elim rest [ [] ↦ (x ∷ []) ∷ [] | t ∷ ts ↦ (x ∷ t) ∷ ts ]

abbrev pub before_colon : Text → Option Text
before_colon [] = none
before_colon (x ∷ xs) =
    let rest = before_colon xs in
    if eqb x 58 then some [] else elim rest [ none ↦ none | some t ↦ some (x ∷ t) ]

unfoldable pub join : Text → List Text → Text
join sep [] = []
join sep (t ∷ []) = t
join sep (t ∷ u ∷ ts) = t ++ sep ++ join sep (u ∷ ts)

-- strings.Replace, of the first occurrence.
unfoldable pub replace_first : Text → Text → Text → Text
replace_first old new [] = if has_prefix [] old then new else []
replace_first old new (x ∷ xs) =
    let rest = replace_first old new xs in
    if has_prefix (x ∷ xs) old then new ++ drop (length old) (x ∷ xs) else x ∷ rest

-- The loop over what a line has between "$$" and "$$": a variable that is not set gives no text.
unfoldable pub replace_hardcodes : Sources → List Text → Text → Text
unfolding trim_suffix
replace_hardcodes src [] line = line
replace_hardcodes src (h ∷ hs) line =
    let env = trim_suffix (trim_prefix h (codes "$$")) (codes "$$") in
    let val : Text = elim (src.look_up_env env) [ none ↦ [] | some v ↦ v ] in
    replace_hardcodes src hs (replace_first h val line)

unfoldable pub expand : Sources → Text → Text
unfolding replace_hardcodes split_at join
expand src text =
    join (codes "\n")
      (map (λ line. replace_hardcodes src (src.hardcodes line) line) (split_at 10 text))

-- `f.NamedParams[k]`
abbrev pub params_of : Text → Function → List Text
params_of k f = elim (lookup k f.named_params) [ none ↦ [] | some vs ↦ vs ]

abbrev pub head_or : Text → List Text → Text
head_or d [] = d
head_or d (x ∷ xs) = x

abbrev pub tail_of : List Text → List Text
tail_of [] = []
tail_of (x ∷ xs) = xs

-- The loop over the names of users, beside their passwords and levels.
unfoldable pub users_of : Sources → List Text → List Text → List Text → List OutboundUser
users_of src [] passwords levels = []
users_of src (u ∷ us) passwords levels =
    record {
      user_name = u;
      pass = head_or [] passwords;
      level = elim levels [ [] ↦ pos 0 | l ∷ ls ↦ elim (src.atoi l) [ none ↦ pos 0 | some n ↦ n ] ];
    }
    ∷ users_of src us (tail_of passwords) (tail_of levels)

abbrev pub proxy_outbound : Sources → Text → Function → List Outbound
proxy_outbound src name f = elim (params_of (codes "address") f) [
  | [] ↦ []
  | address ∷ addresses ↦ elim (params_of (codes "port") f) [
    | [] ↦ []
    | port ∷ ports ↦ elim (src.atoi port) [
      | none ↦ []
      | some n ↦
          record {
            tag = name;
            outbound_protocol = f.name;
            settings = proxy_settings record {
              address = address;
              server_port = n;
              users =
                  users_of src (params_of (codes "user") f) (params_of (codes "pass") f)
                    (params_of (codes "level") f);
            };
            balancers = [];
          }
          ∷ []
    ]
  ]
]

abbrev pub freedom_outbound : Sources → Text → Function → Outbound
freedom_outbound src name f = record {
  tag = name;
  outbound_protocol = f.name;
  settings =
      freedom_settings (head_or [] (params_of (codes "domainStrategy") f))
        (head_or [] (params_of (codes "redirect") f))
        (elim (params_of (codes "userLevel") f) [ [] ↦ none | l ∷ ls ↦ src.atoi l ]);
  balancers = [];
}

-- The outbounds that the first loop adds for a statement.
unfoldable pub outbounds_of : Sources → Statement → List Outbound
outbounds_of src (routing fs out) = []
outbounds_of src (define kind (text_value v)) = []
outbounds_of src (define kind no_value) = []
outbounds_of src (define kind (bound_value name f)) =
    if text_beq f.name (codes "http") || text_beq f.name (codes "socks")
    then (if text_beq kind (codes "outbound") then proxy_outbound src name f else [])
    else if text_beq f.name (codes "freedom")
    then (if text_beq kind (codes "inbound") || text_beq kind (codes "outbound")
        then freedom_outbound src name f ∷ []
        else [])
    else []

unfoldable pub add_outbounds : Sources → List Statement → List Outbound → List Outbound
add_outbounds src [] outbounds = outbounds
add_outbounds src (s ∷ ss) outbounds = add_outbounds src ss (outbounds ++ outbounds_of src s)

-- The value of "ext" names a file with a tag, and the file is there.
abbrev pub check_ext : Sources → Text → Text → Option RoutingError
check_ext src k v =
    if text_beq k (codes "ext")
    then elim (before_colon v) [
      | none ↦ some (no_tag v)
      | some file ↦ if src.has_asset file then none else some (no_file file)
    ]
    else none

-- What a named parameter adds to a rule's domains, and to its addresses, where `bare` is the key
-- whose values stand for themselves.
unfoldable pub named_values : Sources → Option Text → Text → List Text → RoutingError ⊎ List Text
named_values src bare k [] = inr []
named_values src bare k (v ∷ vs) =
    let rest = named_values src bare k vs in
    if elim bare [ none ↦ false | some b ↦ text_beq k b ]
    then elim rest [ inl e ↦ inl e | inr ts ↦ inr (v ∷ ts) ]
    else elim (check_ext src k v) [
      | some e ↦ inl e
      | none ↦ elim rest [ inl e ↦ inl e | inr ts ↦ inr ((k ++ codes ":" ++ v) ∷ ts) ]
    ]

unfoldable pub all_named :
    Sources → Option Text → List (Text × List Text) → RoutingError ⊎ List Text
unfolding named_values
all_named src bare [] = inr []
all_named src bare ((k, vs) ∷ more) =
    let rest = all_named src bare more in
    elim (named_values src bare k vs) [
      | inl e ↦ inl e
      | inr ts ↦ elim rest [ inl e ↦ inl e | inr us ↦ inr (ts ++ us) ]
    ]

-- The body of the loop over the conditions of a rule.
unfoldable pub add_condition : Sources → Function → RoutingRule → RoutingError ⊎ RoutingRule
unfolding all_named join
add_condition src f r =
    if text_beq f.name (codes "domain") || text_beq f.name (codes "domains")
    then elim (all_named src (some (codes "contains")) f.named_params) [
      | inl e ↦ inl e
      | inr ts ↦ inr (record r { domain = r.domain ++ ts ++ f.params })
    ]
    else if text_beq f.name (codes "ip")
    then elim (all_named src none f.named_params) [
      | inl e ↦ inl e
      | inr ts ↦ inr (record r { ip = r.ip ++ ts ++ f.params })
    ]
    else if text_beq f.name (codes "network")
    then inr (record r { network = join (codes ",") f.params })
    else if text_beq f.name (codes "port")
    then inr (record r { port = join (codes ",") f.params })
    else if text_beq f.name (codes "sourcePort")
    then inr (record r { source_port = join (codes ",") f.params })
    else if text_beq f.name (codes "protocol")
    then inr (record r { protocol = f.params })
    else if text_beq f.name (codes "source")
    then inr (record r { source = f.params })
    else if text_beq f.name (codes "user")
    then inr (record r { user = f.params })
    else if text_beq f.name (codes "inboundTag")
    then inr (record r { inbound_tag = f.params })
    else inr r

unfoldable pub add_conditions : Sources → List Function → RoutingRule → RoutingError ⊎ RoutingRule
add_conditions src [] r = inr r
add_conditions src (f ∷ fs) r = elim (add_condition src f r) [
  | inl e ↦ inl e
  | inr r' ↦ add_conditions src fs r'
]

abbrev pub is_known : List (Text × Bool) → Text → Bool
is_known names tag = elim (lookup tag names) [ none ↦ false | some group ↦ true ]

-- What the second loop goes on with: the default outbound, and the rules so far.
pub record Progress : Type 0 where
  pub default_outbound : Text
  pub added : List RoutingRule

-- The body of the second loop.
unfoldable pub add_statement :
    Sources → List (Text × Bool) → List Text → Statement → Progress → RoutingError ⊎ Progress
unfolding add_conditions
add_statement src names inbounds (define kind no_value) p = inr p
add_statement src names inbounds (define kind (bound_value name f)) p = inr p
add_statement src names inbounds (define kind (text_value v)) p =
    if text_beq kind (codes "default")
    then (if is_known names v then inr (record p { default_outbound = v }) else inl (no_outbound v))
    else inr p
add_statement src names inbounds (routing fs out) p =
    elim (add_conditions src fs (record no_rule { outbound_tag = out; inbound_tag = inbounds })) [
      | inl e ↦ inl e
      | inr r ↦
          if is_empty r.outbound_tag || is_known names r.outbound_tag
          then inr (record p { added = p.added ++ (r ∷ []) })
          else inl (no_outbound r.outbound_tag)
    ]

unfoldable pub add_statements :
    Sources → List (Text × Bool) → List Text → List Statement → Progress → RoutingError ⊎ Progress
add_statements src names inbounds [] p = inr p
add_statements src names inbounds (s ∷ ss) p = elim (add_statement src names inbounds s p) [
  | inl e ↦ inl e
  | inr p' ↦ add_statements src names inbounds ss p'
]

abbrev pub rule_ports : List Text
rule_ports = rule_http ∷ codes "rule-socks" ∷ []

-- parseRoutingA; of a template that it leaves half changed, with an error, nothing is kept.
unfoldable pub parse_routing_a : Sources → List Text → Template → RoutingError ⊎ Template
unfolding expand add_outbounds add_statements first_proxy out_names
parse_routing_a src inbounds t = elim (src.parse (expand src src.routing_a)) [
  | none ↦ inl bad_syntax
  | some ss ↦
      (let t' = record t { outbounds = add_outbounds src ss t.outbounds } in
        elim (add_statements src (out_names t') inbounds ss
          record { default_outbound = first_proxy t.outbounds; added = t.rules }) [
            | inl e ↦ inl e
            | inr p ↦ inr (record t' {
              rules =
                  p.added
                  ++ (record no_rule { outbound_tag = p.default_outbound; inbound_tag = rule_ports }
                      ∷ []);
            })
          ])
]

-- The loop of parseRoutingARules: a rule without an outbound is left out, and outbounds are not looked up.
unfoldable pub rules_for : Sources → Text → List Statement → RoutingError ⊎ List RoutingRule
unfolding add_conditions
rules_for src inbound [] = inr []
rules_for src inbound (define kind value ∷ ss) = rules_for src inbound ss
rules_for src inbound (routing fs out ∷ ss) =
    let rest = rules_for src inbound ss in
    elim (add_conditions src fs
      (record no_rule { outbound_tag = out; inbound_tag = inbound ∷ [] })) [
        | inl e ↦ inl e
        | inr r ↦ elim rest [
          | inl e ↦ inl e
          | inr rs ↦ inr (if is_empty r.outbound_tag then rs else r ∷ rs)
        ]
      ]

unfoldable pub parse_routing_a_rules : Sources → Text → Text → RoutingError ⊎ List RoutingRule
unfolding expand rules_for
parse_routing_a_rules src text inbound = elim (src.parse (expand src text)) [
  | none ↦ inl bad_syntax
  | some ss ↦ rules_for src inbound ss
]

-- The rules of a custom inbound, in setInbound: for one outbound, or by RoutingA, which where it has
-- an error gives none.
pub record CustomInbound : Type 0 where
  pub inbound_name : Text
  pub bound_outbound : Text
  pub outbound_type : Text
  pub routing_a_rules : Text

unfoldable pub custom_rules : Sources → CustomInbound → List RoutingRule
unfolding parse_routing_a_rules
custom_rules src ci =
    if is_empty ci.bound_outbound
    then []
    else if text_beq ci.outbound_type (codes "direct")
    then record no_rule { outbound_tag = ci.bound_outbound; inbound_tag = ci.inbound_name ∷ [] }
      ∷ []
    else if text_beq ci.outbound_type (codes "routingA") && not (is_empty ci.routing_a_rules)
    then elim (parse_routing_a_rules src ci.routing_a_rules ci.inbound_name) [
      | inl e ↦ []
      | inr rs ↦ rs
    ]
    else []
