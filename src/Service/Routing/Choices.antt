-- ===== src/Service/Routing/Choices.antt =====
-- service/kernel/v2ray/template_routing.go: which rule a connection takes. The core takes the first rule
-- that applies; a rule applies where each of its conditions that is not empty holds.
use v2ray_a.Base.{
  ◌≡◌, refl, ap, sym, ◌∙◌, Bool, true, false, ◌&&◌, ◌||◌, Option, none, some, List, [], ◌∷◌, ◌++◌,
  map, Text, text_beq, text_beq_iff, any, All, arith, if◌then◌else◌, inl, inr, Bool-cases,
}
use v2ray_a.Service.Routing.{RoutingRule, rule_http, has_text, is_nil, follow_in, follow_rule}

-- A connection: its inbound, what its destination is in, and whether it meets the other conditions,
-- from network to user.
pub record Connection : Type 0 where
  pub inbound : Text
  pub in_domain : Text → Bool
  pub in_ip : Text → Bool
  pub meets : Text → Text → Text → List Text → List Text → List Text → Bool

abbrev pub holds {ℓ} : {A : Type ℓ} → (A → Bool) → List A → Bool
holds p xs = is_nil xs || any p xs

abbrev pub meets_rule : Connection → RoutingRule → Bool
meets_rule q r = q.meets r.network r.port r.source_port r.protocol r.source r.user

unfoldable pub applies : Connection → RoutingRule → Bool
applies q r =
    (is_nil r.inbound_tag || has_text q.inbound r.inbound_tag)
    && holds q.in_domain r.domain
    && holds q.in_ip r.ip
    && meets_rule q r

-- Where a rule sends a connection: an outbound, or a group.
abbrev pub target : RoutingRule → Text × Text
target r = (r.outbound_tag, r.balancer_tag)

unfoldable pub choose : Connection → List RoutingRule → Option (Text × Text)
choose q [] = none
choose q (r ∷ rs) = if applies q r then some (target r) else choose q rs

abbrev pub or_else {ℓ} : {A : Type ℓ} → Option A → Option A → Option A
or_else none b = b
or_else (some a) b = some a

pub choose-append :
    (q : Connection) (rs ss : List RoutingRule)
    → choose q (rs ++ ss) ≡ or_else (choose q rs) (choose q ss)
unfolding choose
choose-append q [] ss = refl
choose-append q (r ∷ rs) ss = elim (Bool-cases (applies q r)) [
  | inl on ↦ rw on refl
  | inr off ↦ rw off (choose-append q rs ss)
]

-- Rules changed so that each applies to the one connection where it applied to the other.
choose-map :
    (f : RoutingRule → RoutingRule) (q q' : Connection) (rs : List RoutingRule)
    → All (λ r. (applies q (f r) ≡ applies q' r) × (target (f r) ≡ target r)) rs
    → choose q (map f rs) ≡ choose q' rs
unfolding choose
choose-map f q q' [] same = refl
choose-map f q q' (r ∷ rs) ((on, to), later) = rw on (rw to (rw (choose-map f q q' rs later) refl))

has_text-append :
    (t u : Text) (ts : List Text) → has_text t (ts ++ (u ∷ [])) ≡ has_text t ts || text_beq u t
has_text-append t u [] = ground arith
has_text-append t u (v ∷ ts) = ground (arith, has_text-append t u ts)

-- The connection as the rules saw it before: one from the new inbound as from "rule-http".
abbrev pub as_rule_http : Text → Connection → Connection
as_rule_http tag q = record q { inbound = if text_beq q.inbound tag then rule_http else q.inbound }

abbrev pub Unnamed : Text → RoutingRule → Type 0
Unnamed tag r = has_text tag r.inbound_tag ≡ false

or_true : (a b : Bool) → b ≡ true → a || b ≡ true
or_true a b h = ground (arith, h)

or_false : (a b : Bool) → b ≡ false → a || b ≡ a
or_false a b h = ground (arith, h)

-- Equal texts pass the test either way round.
text_beq_sym : (t u : Text) → text_beq t u ≡ text_beq u t
text_beq_sym [] [] = refl
text_beq_sym [] (y ∷ ys) = refl
text_beq_sym (x ∷ xs) [] = refl
text_beq_sym (x ∷ xs) (y ∷ ys) = ground (arith, text_beq_sym xs ys)

abbrev pub from_inbound : Text → List Text → Bool
from_inbound t ts = is_nil ts || has_text t ts

-- What an inbound named last adds.
from_inbound-append :
    (same : Bool) (t tag : Text) (ts : List Text)
    → text_beq t tag ≡ same
    → has_text rule_http ts ≡ true
    → has_text tag ts ≡ false
    → from_inbound t (ts ++ (tag ∷ [])) ≡ from_inbound (if same then rule_http else t) ts
from_inbound-append same t tag [] test on fresh = ground (arith, on)
from_inbound-append true t tag (u ∷ us) test on fresh =
    has_text-append t tag (u ∷ us) ∙ or_true _ _ (text_beq_sym tag t ∙ test) ∙ sym on
from_inbound-append false t tag (u ∷ us) test on fresh =
    has_text-append t tag (u ∷ us) ∙ or_false _ _ (text_beq_sym tag t ∙ test)

from_inbound-other :
    (t tag : Text) (ts : List Text)
    → has_text rule_http ts ≡ false
    → has_text tag ts ≡ false
    → from_inbound t ts ≡ from_inbound (if text_beq t tag then rule_http else t) ts
from_inbound-other t tag ts off fresh = elim (Bool-cases (text_beq t tag)) [
  | inl same ↦
      let e : t ≡ tag = (text_beq_iff t tag).0 same in
      rw same (ap (λ h. is_nil ts || h) (ap (λ u. has_text u ts) e ∙ fresh ∙ sym off))
  | inr other ↦ rw other refl
]

follow_in-applies :
    (tag : Text) (q : Connection) (r : RoutingRule)
    → Unnamed tag r
    → applies q (follow_in tag r) ≡ applies (as_rule_http tag q) r
unfolding applies
follow_in-applies tag q r fresh = elim (Bool-cases (has_text rule_http r.inbound_tag)) [
  | inl on ↦ rw on (
      ap (λ b. b && holds q.in_domain r.domain && holds q.in_ip r.ip && meets_rule q r)
        (from_inbound-append (text_beq q.inbound tag) q.inbound tag r.inbound_tag refl on fresh))
  | inr off ↦ rw off (
      ap (λ b. b && holds q.in_domain r.domain && holds q.in_ip r.ip && meets_rule q r)
        (from_inbound-other q.inbound tag r.inbound_tag off fresh))
]

follow_in-target : (tag : Text) (r : RoutingRule) → target (follow_in tag r) ≡ target r
follow_in-target tag r = elim (Bool-cases (has_text rule_http r.inbound_tag)) [
  | inl on ↦ rw on refl
  | inr off ↦ rw off refl
]

follow_in-same :
    (tag : Text) (q : Connection) (rules : List RoutingRule)
    → All (Unnamed tag) rules
    → All
        (λ r.
          (applies q (follow_in tag r) ≡ applies (as_rule_http tag q) r)
          × (target (follow_in tag r) ≡ target r))
        rules
follow_in-same tag q [] fresh = tt
follow_in-same tag q (r ∷ rs) (now, later) =
    ((follow_in-applies tag q r now, follow_in-target tag r), follow_in-same tag q rs later)

-- Where no rule names the inbound yet, a connection from it takes the rule that it would take from
-- "rule-http", and every other connection the rule that it took before.
pub follow_rule-choose :
    (tag : Text) (q : Connection) (rules : List RoutingRule)
    → All (Unnamed tag) rules
    → choose q (follow_rule tag rules) ≡ choose (as_rule_http tag q) rules
unfolding follow_rule
follow_rule-choose tag q rules fresh =
    choose-map (follow_in tag) q (as_rule_http tag q) rules (follow_in-same tag q rules fresh)
