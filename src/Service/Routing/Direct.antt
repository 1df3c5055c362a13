-- ===== src/Service/Routing/Direct.antt =====
-- service/kernel/v2ray/template_routing.go and template_core.go: the rules that are put before and
-- behind those of the mode, and the groups.
use v2ray_a.Base.{
  ◌≡◌, refl, ap, sym, Bool, true, false, ◌&&◌, some, List, [], ◌∷◌, ◌++◌, map, Text, codes,
  text_beq, text_beq_iff, any, All, subst, arith, if◌then◌else◌, inl, inr, Bool-cases,
}
use v2ray_a.Service.Routing.{
  RoutingRule, no_rule, Template, direct, out_names, spare_tire, finish_routing,
  set_whitelist_routing, whitelist_rule, Addr, update_private_routing, add_private, optimize_rule,
  optimize_geoip, is_group, group_rule, set_group_routing,
}
use v2ray_a.Service.Routing.Choices.{Connection, applies, target, choose}

-- Rules that all send to one target, one of which applies, send the connection there.
choose-target :
    (q : Connection) (to : Text × Text) (rs ss : List RoutingRule)
    → All (λ r. target r ≡ to) rs
    → any (applies q) rs ≡ true
    → choose q (rs ++ ss) ≡ some to
unfolding choose
choose-target q to [] ss same some_ = ground (arith, some_)
choose-target q to (r ∷ rs) ss (now, later) some_ = elim (Bool-cases (applies q r)) [
  | inl on ↦ rw on (ap some now)
  | inr off ↦ rw off (
      choose-target q to rs ss later
        (subst (λ b. (if b then true else any (applies q) rs) ≡ true) off some_))
]

abbrev private_rule : List Text → RoutingRule → RoutingRule
private_rule [] r = r
private_rule (a ∷ more) r = add_private (a ∷ more) r

abbrev small_rule : Bool → RoutingRule → RoutingRule
small_rule small r = if small then optimize_rule r else r

map_id : (rs : List RoutingRule) → map (λ r. r) rs ≡ rs
map_id [] = refl
map_id (r ∷ rs) = ap (◌∷◌ r) (map_id rs)

update_private_routing-map :
    (addrs : List Text) (rs : List RoutingRule)
    → update_private_routing addrs rs ≡ map (private_rule addrs) rs
unfolding update_private_routing
update_private_routing-map [] rs = sym (map_id rs)
update_private_routing-map (a ∷ more) rs = refl

optimize_geoip-map :
    (small : Bool) (rs : List RoutingRule) → optimize_geoip small rs ≡ map (small_rule small) rs
unfolding optimize_geoip
optimize_geoip-map true rs = refl
optimize_geoip-map false rs = sym (map_id rs)

-- The address of a node, as an address or a name, with its port.
abbrev pub reaches : (Text → Bool) → Connection → Addr → Bool
reaches is_ip q a =
    (if is_ip a.host then q.in_ip a.host else q.in_domain a.host)
    && q.meets [] a.addr_port [] [] [] []

-- What net.ParseIP does with the two names of address lists.
pub record NamesNoIp (is_ip : Text → Bool) : Type 0 where
  pub private_name : is_ip (codes "geoip:private") ≡ false
  pub china_name : is_ip (codes "geoip:cn") ≡ false

not_named :
    (is_ip : Text → Bool) (host name : Text)
    → is_ip host ≡ true
    → is_ip name ≡ false
    → text_beq host name ≡ false
not_named is_ip host name yes_ no_ = elim (Bool-cases (text_beq host name)) [
  | inl same ↦ absurd (ground (arith, yes_, no_, ap is_ip ((text_beq_iff host name).0 same)))
  | inr other ↦ other
]

-- The two forms of the rule for a node's address.
abbrev by_ip : Addr → RoutingRule
by_ip a = record no_rule { outbound_tag = direct; ip = a.host ∷ []; port = a.addr_port }

abbrev by_name : Addr → RoutingRule
by_name a = record no_rule { outbound_tag = direct; domain = a.host ∷ []; port = a.addr_port }

module _ (is_ip : Text → Bool) (no_ip : NamesNoIp is_ip) (private : List Text) (small : Bool)
    (names : List (Text × Bool)) (no_group : is_group names direct ≡ false) where
  abbrev finished : RoutingRule → RoutingRule
  finished r = small_rule small (group_rule names (private_rule private r))

  -- The rule of a node's address stays as it is.
  private_rule-by_ip :
      (ps : List Text) (a : Addr) → is_ip a.host ≡ true → private_rule ps (by_ip a) ≡ by_ip a
  private_rule-by_ip [] a yes_ = refl
  private_rule-by_ip (p ∷ ps) a yes_ =
      rw (not_named is_ip a.host (codes "geoip:private") yes_ no_ip.private_name) refl

  private_rule-by_name : (ps : List Text) (a : Addr) → private_rule ps (by_name a) ≡ by_name a
  private_rule-by_name [] a = refl
  private_rule-by_name (p ∷ ps) a = refl

  small_rule-by_ip : (b : Bool) (a : Addr) → is_ip a.host ≡ true → small_rule b (by_ip a) ≡ by_ip a
  small_rule-by_ip false a yes_ = refl
  small_rule-by_ip true a yes_ =
      rw (not_named is_ip a.host (codes "geoip:private") yes_ no_ip.private_name)
        (rw (not_named is_ip a.host (codes "geoip:cn") yes_ no_ip.china_name) refl)

  small_rule-by_name : (b : Bool) (a : Addr) → small_rule b (by_name a) ≡ by_name a
  small_rule-by_name true a = refl
  small_rule-by_name false a = refl

  finished-by_ip : (a : Addr) → is_ip a.host ≡ true → finished (by_ip a) ≡ by_ip a
  finished-by_ip a yes_ =
      rw (private_rule-by_ip private a yes_) (rw no_group (small_rule-by_ip small a yes_))

  finished-by_name : (a : Addr) → finished (by_name a) ≡ by_name a
  finished-by_name a =
      rw (private_rule-by_name private a) (rw no_group (small_rule-by_name small a))

  finished-whitelist_rule : (a : Addr) → finished (whitelist_rule is_ip a) ≡ whitelist_rule is_ip a
  finished-whitelist_rule a = elim (Bool-cases (is_ip a.host)) [
    | inl on ↦ rw on (finished-by_ip a on)
    | inr off ↦ rw off (finished-by_name a)
  ]

  module _ (q : Connection) where
    whitelist_rule-applies :
        (a : Addr) → reaches is_ip q a ≡ true → applies q (whitelist_rule is_ip a) ≡ true
    unfolding applies
    whitelist_rule-applies a there = elim (Bool-cases (is_ip a.host)) [
      | inl on ↦ rw on (ground (arith, on, there))
      | inr off ↦ rw off (ground (arith, off, there))
    ]

    whitelist_rule-target : (a : Addr) → target (whitelist_rule is_ip a) ≡ (direct, [])
    whitelist_rule-target a = elim (Bool-cases (is_ip a.host)) [
      | inl on ↦ rw on refl
      | inr off ↦ rw off refl
    ]

    later :
        (a : Addr) (wl : List Addr)
        → applies q (whitelist_rule is_ip a) ≡ false
        → any (reaches is_ip q) (a ∷ wl) ≡ true
        → any (reaches is_ip q) wl ≡ true
    later a wl off there = elim (Bool-cases (reaches is_ip q a)) [
      | inl on ↦ absurd (ground (arith, off, whitelist_rule-applies a on))
      | inr no_ ↦ subst (λ b. (if b then true else any (reaches is_ip q) wl) ≡ true) no_ there
    ]

    finished-choose :
        (wl : List Addr) (rules more : List RoutingRule)
        → any (reaches is_ip q) wl ≡ true
        → choose q (
            map (small_rule small) (
              map
                (group_rule names)
                (map (private_rule private) (map (whitelist_rule is_ip) wl ++ rules) ++ more)))
          ≡ some (direct, [])
    unfolding choose
    finished-choose [] rules more there = ground (arith, there)
    finished-choose (a ∷ wl) rules more there =
        rw (finished-whitelist_rule a) (elim (Bool-cases (applies q (whitelist_rule is_ip a))) [
          | inl on ↦ rw on (ap some (whitelist_rule-target a))
          | inr off ↦ rw off (finished-choose wl rules more (later a wl off there))
        ])

-- A connection to the address of a node, whose port its rule takes, goes direct, whatever the rules of
-- the mode are, and whatever private addresses, groups and address lists the template has, as long as
-- no group is named "direct" and net.ParseIP takes neither name of an address list for an address.
pub finish_routing-choose :
    (is_ip : Text → Bool) (whitelist : List Addr) (private : List Text) (small : Bool)
    (t : Template) (q : Connection)
    → NamesNoIp is_ip
    → is_group (out_names t) direct ≡ false
    → any (reaches is_ip q) whitelist ≡ true
    → choose q (finish_routing is_ip whitelist private small t).rules ≡ some (direct, [])
unfolding finish_routing set_whitelist_routing set_group_routing
finish_routing-choose is_ip whitelist private small t q no_ip no_group there =
    rw (optimize_geoip-map, update_private_routing-map)
      (finished-choose is_ip no_ip private small (out_names t) no_group q whitelist t.rules
        (spare_tire ∷ []) there)
