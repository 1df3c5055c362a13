-- ===== src/Service/Connections/Left.antt =====
-- service/db/configure/configure.go: what RemoveConnect leaves of the references of a group.
use v2ray_a.Base.{
  ◌≡◌, refl, sym, ap, ◌∙◌, Bool, some, List, [], any, ◌∷◌, ◌++◌, arith, Option-cases, Text,
  text_beq_iff, text_eq, if◌then◌else◌, inl, inr,
}
use v2ray_a.Service.Nodes.{NodeRef, equal_to, is_some}
use v2ray_a.Service.Connections.{or_proxy, remove_first, fill_all}
use v2ray_a.Service.Connections.Written.{Homed}

-- The references before the first that is like a given one, and those behind it.
abbrev pub before_like : NodeRef → List NodeRef → List NodeRef
before_like wt [] = []
before_like wt (v ∷ vs) =
    let earlier = before_like wt vs in if equal_to v wt then [] else v ∷ earlier

abbrev pub behind_like : NodeRef → List NodeRef → List NodeRef
behind_like wt [] = []
behind_like wt (v ∷ vs) = let later = behind_like wt vs in if equal_to v wt then vs else later

-- What a disconnection that succeeds leaves of the members.
abbrev pub left_of : Bool → NodeRef → List NodeRef → List NodeRef
left_of clear_all wt refs = if clear_all then [] else before_like wt refs ++ behind_like wt refs

-- The removal loses one reference, the first that is like the given one.
pub remove_first_lem :
    (wt : NodeRef) (refs rs : List NodeRef)
    → remove_first wt refs ≡ some rs
    → rs ≡ before_like wt refs ++ behind_like wt refs
unfolding remove_first
remove_first_lem wt [] rs h = absurd cc
remove_first_lem wt (v ∷ vs) rs h = elim (Option-cases (remove_first wt vs)) [
  | inl absent ↦ ground arith
  | inr (rest, present) ↦
      let ih : rest ≡ before_like wt vs ++ behind_like wt vs =
        remove_first_lem wt vs rest present in
      ground arith
]

-- References that name a group need no default.
pub fill_all-Homed :
    (out : Text) (refs : List NodeRef) → or_proxy out ≡ out → Homed out refs → fill_all refs ≡ refs
fill_all-Homed out [] home homed = refl
fill_all-Homed out (v ∷ vs) home (now, later) =
    let e : v.outbound ≡ out = (text_beq_iff v.outbound out).0 now in
    let same : or_proxy v.outbound ≡ v.outbound = ap or_proxy e ∙ home ∙ sym e in
    ap (λ (t : Text). record v { outbound = t } ∷ fill_all vs) same
    ∙ ap (λ (rs : List NodeRef). v ∷ rs) (fill_all-Homed out vs home later)

-- There is one to lose where one is like the given one.
pub is_some-remove_first :
    (wt : NodeRef) (refs : List NodeRef)
    → is_some (remove_first wt refs) ≡ any (λ v. equal_to v wt) refs
unfolding remove_first
is_some-remove_first wt [] = refl
is_some-remove_first wt (v ∷ vs) = elim (Option-cases (remove_first wt vs)) [
  | inl absent ↦ ground (arith, is_some-remove_first wt vs)
  | inr (rest, present) ↦ ground (arith, is_some-remove_first wt vs)
]
