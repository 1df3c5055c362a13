-- ===== src/Service/Connections/Normal.antt =====
-- service/server/service/connect.go: the references that the touches of a replacement stand for.
use v2ray_a.Base.{
  ℕ, ℤ, ◌+◌, ◌≡◌, refl, sym, ap, ◌∙◌, Bool, true, false, not, ◌&&◌, List, [], ◌∷◌, ◌++◌,
  append_assoc, append-nil, Text, if◌then◌else◌, any, all, map, pos, is_positive, is_negative, ◌⊎◌,
  inl, inr, Bool-cases, arith,
}
use v2ray_a.Service.Nodes.{
  NodeRef, TouchType, server_type, subscription_type, subscription_server_type, unknown_type,
  ref_beq,
}
use v2ray_a.Service.Connections.{
  ConnectError, normal_touch, keep_new, normalize, invalid_id, invalid_subscription, invalid_type,
}

-- A touch of a replacement names a server, or a server of a subscription, by ordinals in range.
abbrev pub is_valid_type : TouchType → ℤ → Bool
is_valid_type server_type sub = true
is_valid_type subscription_server_type sub = not (is_negative sub)
is_valid_type subscription_type sub = false
is_valid_type (unknown_type u) sub = false

abbrev pub is_valid_touch : NodeRef → Bool
is_valid_touch t = is_positive t.id && is_valid_type t.type t.sub

-- The reference that a valid touch stands for: one of the group, of no subscription if it is a server.
abbrev pub sub_of : TouchType → ℤ → ℤ
sub_of server_type sub = pos 0
sub_of subscription_type sub = sub
sub_of subscription_server_type sub = sub
sub_of (unknown_type u) sub = sub

abbrev pub as_member : Text → NodeRef → NodeRef
as_member out t = record t { sub = sub_of t.type t.sub; outbound = out }

-- Each reference at its first place only, less those seen before.
abbrev pub first_of_each : List NodeRef → List NodeRef → List NodeRef
first_of_each seen [] = []
first_of_each seen (r ∷ rs) =
    let rest = first_of_each seen rs in
    let further = first_of_each (seen ++ (r ∷ [])) rs in
    if any (ref_beq r) seen then rest else r ∷ further

-- The reading of a touch, its identity checked and its type looked at.
abbrev read : Text → ℕ → NodeRef → Bool → TouchType → ConnectError ⊎ NodeRef
read out i t positive ty = if not positive then inl (invalid_id i) else elim ty [
  | server_type ↦ inr (record t { outbound = out; sub = pos 0 })
  | subscription_server_type ↦
      if is_negative t.sub then inl (invalid_subscription i) else inr (record t { outbound = out })
  | subscription_type ↦ inl (invalid_type i)
  | unknown_type u ↦ inl (invalid_type i)
]

read-valid :
    (out : Text) (i : ℕ) (t : NodeRef) (positive : Bool) (ty : TouchType)
    → (positive && is_valid_type ty t.sub) ≡ true
    → read out i t positive ty ≡ inr (record t { sub = sub_of ty t.sub; outbound = out })
read-valid out i t true server_type valid = refl
read-valid out i t true subscription_server_type valid =
    let natural : is_negative t.sub ≡ false = ground arith in rw natural refl
read-valid out i t true subscription_type valid = absurd cc
read-valid out i t true (unknown_type u) valid = absurd cc
read-valid out i t false ty valid = absurd cc

read-invalid :
    (out : Text) (i : ℕ) (t : NodeRef) (positive : Bool) (ty : TouchType)
    → (positive && is_valid_type ty t.sub) ≡ false
    → (e : ConnectError) × (read out i t positive ty ≡ inl e)
read-invalid out i t true server_type invalid = absurd cc
read-invalid out i t true subscription_server_type invalid =
    let negative : is_negative t.sub ≡ true = ground arith in
    (invalid_subscription i, rw negative refl)
read-invalid out i t true subscription_type invalid = (invalid_type i, refl)
read-invalid out i t true (unknown_type u) invalid = (invalid_type i, refl)
read-invalid out i t false ty invalid = (invalid_id i, refl)

normal_touch-valid :
    (out : Text) (i : ℕ) (t : NodeRef)
    → is_valid_touch t ≡ true
    → normal_touch out i t ≡ inr (as_member out t)
unfolding normal_touch
normal_touch-valid out i t valid = read-valid out i t (is_positive t.id) t.type valid

normal_touch-invalid :
    (out : Text) (i : ℕ) (t : NodeRef)
    → is_valid_touch t ≡ false
    → (e : ConnectError) × (normal_touch out i t ≡ inl e)
unfolding normal_touch
normal_touch-invalid out i t invalid = read-invalid out i t (is_positive t.id) t.type invalid

kept :
    (r : NodeRef) (refs ms : List NodeRef)
    → keep_new r refs ++ first_of_each (keep_new r refs) ms ≡ refs ++ first_of_each refs (r ∷ ms)
kept r refs ms = elim (Bool-cases (any (ref_beq r) refs)) [
  | inl seen ↦ rw seen refl
  | inr fresh ↦ rw fresh (append_assoc refs (r ∷ []) (first_of_each (refs ++ (r ∷ [])) ms))
]

-- Where all touches are valid, they are read in order, each reference once.
pub normalize-valid :
    (out : Text) (i : ℕ) (ts refs : List NodeRef)
    → all is_valid_touch ts ≡ true
    → normalize out i ts refs ≡ inr (refs ++ first_of_each refs (map (as_member out) ts))
unfolding normalize
normalize-valid out i [] refs valid = ap inr (sym (append-nil refs))
normalize-valid out i (t ∷ ts) refs valid =
    let now : is_valid_touch t ≡ true = ground arith in
    let later : all is_valid_touch ts ≡ true = ground arith in
    let r = as_member out t in
    rw (normalize, normal_touch-valid out i t now)
      (normalize-valid out (i + 1) ts (keep_new r refs) later
        ∙ ap inr (kept r refs (map (as_member out) ts)))

-- Where one is not, there is an error.
pub normalize-invalid :
    (out : Text) (i : ℕ) (ts refs : List NodeRef)
    → all is_valid_touch ts ≡ false
    → (e : ConnectError) × (normalize out i ts refs ≡ inl e)
unfolding normalize
normalize-invalid out i [] refs invalid = absurd cc
normalize-invalid out i (t ∷ ts) refs invalid =
    by_case (is_valid_touch t) refl
      (λ later. normalize-invalid out (i + 1) ts (keep_new (as_member out t) refs) later)
  where
    by_case :
        (b : Bool)
        → is_valid_touch t ≡ b
        → (all is_valid_touch ts ≡ false
            → (e : ConnectError) × (normalize out (i + 1) ts (keep_new (as_member out t) refs)
                ≡ inl e))
        → (e : ConnectError) × (normalize out i (t ∷ ts) refs ≡ inl e)
    by_case true fine rest =
        let later : all is_valid_touch ts ≡ false = ground arith in
        rw (normalize, normal_touch-valid out i t fine) (rest later)
    by_case false bad rest =
        let (e, read) = normal_touch-invalid out i t bad in (e, rw (normalize, read) refl)
