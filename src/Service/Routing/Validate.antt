-- ===== src/Service/Routing/Validate.antt =====
-- service/kernel/v2ray/template_validate.go: the checks of the finished template.
use v2ray_a.Base.{
  ◌≡◌, refl, ◌↔◌, Bool, true, false, Option, none, some, List, [], ◌∷◌, map, Text, codes, is_empty,
  if◌then◌else◌, ℤ,
}
use v2ray_a.Service.Routing.{Outbound, Template, has_text}

pub record Inbound : Type 0 where
  pub inbound_tag : Text
  pub listen : Text
  pub inbound_port : ℤ

-- The loop with a set of what it has seen: the first that is seen again.
unfoldable pub first_repeated : List Text → List Text → Option Text
first_repeated seen [] = none
first_repeated seen (t ∷ ts) =
    let rest = first_repeated (t ∷ seen) ts in if has_text t seen then some t else rest

pub data DuplicateError : Type 0 where
  inbound_tag_twice : Text → DuplicateError
  outbound_tag_twice : Text → DuplicateError
  socket_twice : Text → DuplicateError

abbrev tag_of : Outbound → Text
tag_of o = o.tag

abbrev inbound_tag_of : Inbound → Text
inbound_tag_of i = i.inbound_tag

unfoldable pub check_duplicated_tags : List Inbound → Template → Option DuplicateError
unfolding first_repeated
check_duplicated_tags inbounds t = elim (first_repeated [] (map inbound_tag_of inbounds)) [
  | some tag ↦ some (inbound_tag_twice tag)
  | none ↦ elim (first_repeated [] (map tag_of t.outbounds)) [
    | some tag ↦ some (outbound_tag_twice tag)
    | none ↦ none
  ]
]

-- The listening address; net.JoinHostPort with strconv.Itoa is a parameter.
abbrev socket_of : (Text → ℤ → Text) → Inbound → Text
socket_of join_host_port i =
    join_host_port (if is_empty i.listen then codes "0.0.0.0" else i.listen) i.inbound_port

unfoldable pub check_duplicated_inbound_sockets :
    (Text → ℤ → Text) → List Inbound → Option DuplicateError
unfolding first_repeated
check_duplicated_inbound_sockets join_host_port inbounds =
    elim (first_repeated [] (map (socket_of join_host_port) inbounds)) [
      | some socket ↦ some (socket_twice socket)
      | none ↦ none
    ]

-- No text of the list is in the other list, or twice in its own.
abbrev AllNew : List Text → List Text → Type 0
AllNew seen [] = Unit
AllNew seen (t ∷ ts) = (has_text t seen ≡ false) × AllNew (t ∷ seen) ts

-- Nothing is repeated exactly if every text is new where it stands.
first_repeated_iff : (seen ts : List Text) → (first_repeated seen ts ≡ none) ↔ AllNew seen ts
unfolding first_repeated
first_repeated_iff seen [] = (λ _. tt, λ _. refl)
first_repeated_iff seen (t ∷ ts) =
    by_case (has_text t seen) (first_repeated (t ∷ seen) ts) (first_repeated_iff (t ∷ seen) ts)
  where
    by_case :
        (b : Bool) (rest : Option Text)
        → (rest ≡ none) ↔ AllNew (t ∷ seen) ts
        → ((if b then some t else rest) ≡ none) ↔ ((b ≡ false) × AllNew (t ∷ seen) ts)
    by_case true rest ih = (λ e. absurd cc, λ (e, news). absurd cc)
    by_case false rest ih = (λ e. (refl, ih.0 e), λ (e, news). ih.1 news)
