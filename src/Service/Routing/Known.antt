-- ===== src/Service/Routing/Known.antt =====
-- service/kernel/v2ray/template_routing.go: parseRoutingA sends nothing to an outbound that is not there.
use v2ray_a.Base.{
  ◌≡◌, refl, ap, sym, ◌∙◌, subst, Bool, true, false, ◌||◌, Option, none, some, List, [], ◌∷◌, ◌++◌,
  Text, codes, text_beq, text_beq_refl, is_empty, All, append_assoc, append-nil, arith,
  if◌then◌else◌, ◌⊎◌, inl, inr, Bool-cases,
}
use v2ray_a.Service.Routing.{RoutingRule, no_rule, Template, has_text, out_names, first_proxy}
use v2ray_a.Service.Routing.Parse.{
  text_value, bound_value, no_value, Statement, define, routing, RoutingError, no_outbound,
  bad_syntax, Sources, expand, add_outbounds, add_conditions, is_known, Progress, add_statement,
  add_statements, rule_ports, parse_routing_a,
}
use v2ray_a.Service.Routing.Choices.{
  Connection, meets_rule, applies, target, choose, or_else, choose-append,
}

abbrev may_send : List (Text × Bool) → Text → Text → Bool
may_send names first tag = is_empty tag || is_known names tag || text_beq tag first

abbrev MaySend : List (Text × Bool) → Text → RoutingRule → Type 0
MaySend names first r = may_send names first r.outbound_tag ≡ true

-- The rules so far are those from before and others that may be; so may the default.
record Sound (names : List (Text × Bool)) (first : Text) (before : List RoutingRule) (p : Progress)
    : Type 0 where
  extra : List RoutingRule
  split : p.added ≡ before ++ extra
  fit : All (MaySend names first) extra
  default_fit : may_send names first p.default_outbound ≡ true

All-append_last :
    (names : List (Text × Bool)) (first : Text) (rs : List RoutingRule) (r : RoutingRule)
    → All (MaySend names first) rs
    → MaySend names first r
    → All (MaySend names first) (rs ++ (r ∷ []))
All-append_last names first [] r fits fit = (fit, tt)
All-append_last names first (s ∷ rs) r (now, later) fit =
    (now, All-append_last names first rs r later fit)

module _ (names : List (Text × Bool)) (first : Text) (before : List RoutingRule) where
  push-Sound :
      (r : RoutingRule) (p : Progress)
      → is_empty r.outbound_tag || is_known names r.outbound_tag ≡ true
      → Sound names first before p
      → Sound names first before (record p { added = p.added ++ (r ∷ []) })
  push-Sound r p ok sound = record {
    extra = sound.extra ++ (r ∷ []);
    split = ap (λ rs. rs ++ (r ∷ [])) sound.split ∙ append_assoc before sound.extra (r ∷ []);
    fit = All-append_last names first sound.extra r sound.fit (ground (arith, ok));
    default_fit = sound.default_fit;
  }

  -- A result that is given only after a test.
  tested-Sound :
      (test : Bool) (e : RoutingError) (q p' : Progress)
      → (test ≡ true → Sound names first before q)
      → (if test then inr q else inl e) ≡ inr p'
      → Sound names first before p'
  tested-Sound true e q p' ok same =
      let q≡p' : q ≡ p' = cc in subst (Sound names first before) q≡p' (ok refl)
  tested-Sound false e q p' ok same = absurd cc

  routed-Sound :
      (read : RoutingError ⊎ RoutingRule) (p p' : Progress)
      → elim read [
        | inl e ↦ inl e
        | inr r ↦
            if is_empty r.outbound_tag || is_known names r.outbound_tag
            then inr (record p { added = p.added ++ (r ∷ []) })
            else inl (no_outbound r.outbound_tag)
      ]
        ≡ inr p'
      → Sound names first before p
      → Sound names first before p'
  routed-Sound (inl e) p p' same sound = absurd cc
  routed-Sound (inr r) p p' same sound =
      tested-Sound (is_empty r.outbound_tag || is_known names r.outbound_tag)
        (no_outbound r.outbound_tag) _ p' (λ ok. push-Sound r p ok sound) same

  add_statement-Sound :
      (src : Sources) (inbounds : List Text) (s : Statement) (p p' : Progress)
      → add_statement src names inbounds s p ≡ inr p'
      → Sound names first before p
      → Sound names first before p'
  unfolding add_statement
  add_statement-Sound src inbounds (define kind no_value) p p' same sound =
      tested-Sound true bad_syntax p p' (λ _. sound) same
  add_statement-Sound src inbounds (define kind (bound_value name f)) p p' same sound =
      tested-Sound true bad_syntax p p' (λ _. sound) same
  add_statement-Sound src inbounds (define kind (text_value v)) p p' same sound =
      elim (Bool-cases (text_beq kind (codes "default"))) [
        | inl on ↦
            tested-Sound (is_known names v) (no_outbound v) (record p { default_outbound = v }) p'
              (λ ok. record {
                extra = sound.extra;
                split = sound.split;
                fit = sound.fit;
                default_fit = ground (arith, ok);
              })
              (subst
                (λ b.
                  (if b
                    then (if is_known names v
                        then inr (record p { default_outbound = v })
                        else inl (no_outbound v))
                    else inr p)
                  ≡ inr p')
                on same)
        | inr off ↦
            tested-Sound true bad_syntax p p' (λ _. sound)
              (subst
                (λ b.
                  (if b
                    then (if is_known names v
                        then inr (record p { default_outbound = v })
                        else inl (no_outbound v))
                    else inr p)
                  ≡ inr p')
                off same)
      ]
  add_statement-Sound src inbounds (routing fs out) p p' same sound =
      routed-Sound
        (add_conditions src fs (record no_rule { outbound_tag = out; inbound_tag = inbounds })) p p'
        same sound

  after-Sound :
      (src : Sources) (inbounds : List Text) (ss : List Statement) (step : RoutingError ⊎ Progress)
      (p p' : Progress)
      → ((q : Progress) → step ≡ inr q → Sound names first before q)
      → ((q : Progress)
          → Sound names first before q
          → add_statements src names inbounds ss q ≡ inr p'
          → Sound names first before p')
      → elim step [ inl e ↦ inl e | inr q ↦ add_statements src names inbounds ss q ] ≡ inr p'
      → Sound names first before p'
  after-Sound src inbounds ss (inl e) p p' now later same = absurd cc
  after-Sound src inbounds ss (inr q) p p' now later same = later q (now q refl) same

  add_statements-Sound :
      (src : Sources) (inbounds : List Text) (ss : List Statement) (p p' : Progress)
      → add_statements src names inbounds ss p ≡ inr p'
      → Sound names first before p
      → Sound names first before p'
  unfolding add_statements
  add_statements-Sound src inbounds [] p p' same sound =
      tested-Sound true bad_syntax p p' (λ _. sound) same
  add_statements-Sound src inbounds (s ∷ ss) p p' same sound =
      after-Sound src inbounds ss (add_statement src names inbounds s p) p p'
        (λ q done. add_statement-Sound src inbounds s p q done sound)
        (λ q ok rest. add_statements-Sound src inbounds ss q p' rest ok) same

-- Rules that may be, and a last one that applies.
fit-Sent :
    (names : List (Text × Bool)) (first : Text) (q : Connection) (rs : List RoutingRule)
    (last : RoutingRule)
    → All (MaySend names first) rs
    → MaySend names first last
    → applies q last ≡ true
    → (r : RoutingRule) × (choose q (rs ++ (last ∷ [])) ≡ some (target r))
      × (may_send names first r.outbound_tag ≡ true)
unfolding choose
fit-Sent names first q [] last fits fit on = (last, rw on refl, fit)
fit-Sent names first q (r ∷ rs) last (now, later) fit on = elim (Bool-cases (applies q r)) [
  | inl here ↦ (r, rw here refl, now)
  | inr off ↦ rw off (fit-Sent names first q rs last later fit on)
]

-- A connection of the rule ports after the rules of RoutingA, where no rule from before applies.
pub SentToKnown : Text → Connection → Template → Type 0
SentToKnown first q t =
    (r : RoutingRule) × (choose q t.rules ≡ some (target r))
    × (may_send (out_names t) first r.outbound_tag ≡ true)

abbrev last_rule : Text → RoutingRule
last_rule tag = record no_rule { outbound_tag = tag; inbound_tag = rule_ports }

last_rule-applies :
    (tag : Text) (q : Connection)
    → has_text q.inbound rule_ports ≡ true
    → meets_rule q no_rule ≡ true
    → applies q (last_rule tag) ≡ true
unfolding applies
last_rule-applies tag q here met = rw met (ground (arith, here))

Sound-Sent :
    (names : List (Text × Bool)) (first : Text) (before : List RoutingRule) (q : Connection)
    (p : Progress)
    → has_text q.inbound rule_ports ≡ true
    → meets_rule q no_rule ≡ true
    → choose q before ≡ none
    → Sound names first before p
    → (r : RoutingRule) × (choose q (p.added ++ (last_rule p.default_outbound ∷ []))
        ≡ some (target r))
      × (may_send names first r.outbound_tag ≡ true)
Sound-Sent names first before q p here met none_ sound =
    let sent =
      fit-Sent names first q sound.extra (last_rule p.default_outbound) sound.fit sound.default_fit
        (last_rule-applies p.default_outbound q here met) in
    let path =
      ap (λ rs. choose q (rs ++ (last_rule p.default_outbound ∷ []))) sound.split
      ∙ ap (choose q) (append_assoc before sound.extra (last_rule p.default_outbound ∷ []))
      ∙ choose-append q before (sound.extra ++ (last_rule p.default_outbound ∷ []))
      ∙ ap (λ o. or_else o (choose q (sound.extra ++ (last_rule p.default_outbound ∷ [])))) none_ in
    (sent.0, path ∙ sent.1, sent.2)

ended-Sent :
    (t out : Template) (first : Text) (before : List RoutingRule) (q : Connection)
    (step : RoutingError ⊎ Progress)
    → has_text q.inbound rule_ports ≡ true
    → meets_rule q no_rule ≡ true
    → choose q before ≡ none
    → ((p : Progress) → step ≡ inr p → Sound (out_names t) first before p)
    → elim step [
      | inl e ↦ inl e
      | inr p ↦ inr (record t { rules = p.added ++ (last_rule p.default_outbound ∷ []) })
    ]
      ≡ inr out
    → SentToKnown first q out
unfolding SentToKnown out_names
ended-Sent t out first before q (inl e) here met none_ ok same = absurd cc
ended-Sent t out first before q (inr p) here met none_ ok same =
    let is_out : record t { rules = p.added ++ (last_rule p.default_outbound ∷ []) } ≡ out = cc in
    subst (SentToKnown first q) is_out
      (Sound-Sent (out_names t) first before q p here met none_ (ok p refl))

-- Where the RoutingA of the settings is accepted, a connection of the rule ports that no rule from
-- before takes is taken by a rule, which sends it to an outbound of the template, those that RoutingA
-- defines included, or to the first proxy outbound, or which names no outbound.
pub parse_routing_a-SentToKnown :
    (src : Sources) (inbounds : List Text) (t out : Template) (q : Connection)
    → parse_routing_a src inbounds t ≡ inr out
    → has_text q.inbound rule_ports ≡ true
    → meets_rule q no_rule ≡ true
    → choose q t.rules ≡ none
    → SentToKnown (first_proxy t.outbounds) q out
unfolding parse_routing_a
parse_routing_a-SentToKnown src inbounds t out q same here met none_ =
    parsed (src.parse (expand src src.routing_a)) same
  where
    parsed :
        (read : Option (List Statement))
        → elim read [
          | none ↦ inl bad_syntax
          | some ss ↦
              (let t' = record t { outbounds = add_outbounds src ss t.outbounds } in
                elim (add_statements src
                  (out_names t')
                  inbounds
                  ss
                  record { default_outbound = first_proxy t.outbounds; added = t.rules }) [
                    | inl e ↦ inl e
                    | inr p ↦
                        inr (record t' { rules = p.added ++ (last_rule p.default_outbound ∷ []) })
                  ])
        ]
          ≡ inr out
        → SentToKnown (first_proxy t.outbounds) q out
    parsed none same = absurd cc
    parsed (some ss) same =
        let t' : Template = record t { outbounds = add_outbounds src ss t.outbounds } in
        let p0 : Progress = record {
          default_outbound = first_proxy t.outbounds;
          added = t.rules;
        } in
        ended-Sent t' out (first_proxy t.outbounds) t.rules q
          (add_statements src (out_names t') inbounds ss p0) here met none_
          (λ p done.
            add_statements-Sound (out_names t') (first_proxy t.outbounds) t.rules src inbounds ss p0
              p done
              (record {
                extra = [];
                split = sym (append-nil t.rules);
                fit = tt;
                default_fit = ground (arith, text_beq_refl (first_proxy t.outbounds));
              }))
          same
