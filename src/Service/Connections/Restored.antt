-- ===== src/Service/Connections/Restored.antt =====
-- service/server/service/connect.go: a change of the connected references is made, or it is undone.
use v2ray_a.Base.{
  ◌≡◌, refl, ap, ◌∙◌, Bool, true, false, not, ◌&&◌, ◌||◌, all, map, List, [], ◌∷◌, Text, text_beq,
  text_eq, if◌then◌else◌, ◌⊎◌, inl, inr,
}
use v2ray_a.Service.Nodes.{NodeRef, is_some}
use v2ray_a.Service.Routing.{is_nil}
use v2ray_a.Service.Connections.{
  Groups, or_proxy, filled, get_connected, members, clear_connects, add_connect, overwrite_connects,
  Kernel, ConnectError, Change, restore, connect, normalize, replace_members,
  replace_outbound_connections, not_updated, automatic, not_located, assets_missing, refused,
  changed,
}
use v2ray_a.Service.Connections.Normal.{
  is_valid_touch, as_member, first_of_each, normalize-valid, normalize-invalid,
}
use v2ray_a.Service.Connections.Written.{
  Homed, add_connect-members, add_connect_idem, clear_connects-members, normalize-Homed,
  or_proxy_idem, overwrite_connects-members, undone, with_ref,
}

-- What a change of one group comes to: nothing where it fails, else the new members of that group.
abbrev pub as_changed : Text → List NodeRef → Groups → Text → Change → List NodeRef
as_changed out new g o c =
    if is_some c.failure then members o g else if text_beq out o then new else members o g

-- Where every reference stored for the group names it, a connection fails exactly if its group manages
-- itself, the reference is not located, the assets are missing, or the core is not updated; then every
-- group has the members that it had. Otherwise its group has the members that it had and the
-- reference, once, and every other group those that it had.
pub connect-as_changed :
    (k : Kernel) (which : NodeRef) (g : Groups) (o : Text)
    → Homed (or_proxy which.outbound) (members (or_proxy which.outbound) g)
    → let change = connect k which g in
      let out = or_proxy which.outbound in
      (is_some change.failure
        ≡ (k.auto_add out || not (k.located (filled which)) || not k.assets || not k.updates))
      × (members o change.groups
          ≡ as_changed out (with_ref (filled which) (members out g)) g o change)
unfolding connect
connect-as_changed k which g o homed =
    by_case (k.auto_add out) (k.located (filled which)) k.assets k.updates
  where
    out : Text
    out = or_proxy which.outbound

    added :
        members o (add_connect (filled which) g)
        ≡ (if text_beq out o then with_ref (filled which) (members out g) else members o g)
    added = ap (members o) (add_connect_idem which g) ∙ add_connect-members which o g homed

    outcome : Bool → Bool → Bool → Bool → Change
    outcome auto located assets updates =
        if auto
        then refused (automatic out) g
        else if not located
        then refused (not_located (filled which)) g
        else if not assets
        then refused assets_missing g
        else (let before = get_connected out g in
            let g' = add_connect (filled which) g in
            if updates then changed g' else refused not_updated (restore out before g'))

    by_case :
        (auto located assets updates : Bool)
        → let change = outcome auto located assets updates in
          (is_some change.failure ≡ (auto || not located || not assets || not updates))
          × (members o change.groups
              ≡ as_changed out (with_ref (filled which) (members out g)) g o change)
    by_case true located assets updates = (refl, refl)
    by_case false false assets updates = (refl, refl)
    by_case false true false updates = (refl, refl)
    by_case false true true true = (refl, added)
    by_case false true true false = (
      refl,
      undone out o (with_ref (filled which) (members out g)) g (add_connect (filled which) g)
          (or_proxy_idem which.outbound) homed added,
    )

replace_members-as_changed :
    (k : Kernel) (out o : Text) (refs : List NodeRef) (g : Groups)
    → or_proxy out ≡ out
    → Homed out refs
    → Homed out (members out g)
    → members o (replace_members k out refs g).groups
      ≡ as_changed out refs g o (replace_members k out refs g)
unfolding replace_members
replace_members-as_changed k out o refs g home fits homed = by_case (k.core_runs && not k.updates)
  where
    written : (refs : List NodeRef) → Groups
    written refs = if is_nil refs then clear_connects out g else overwrite_connects refs g

    written-members :
        (refs : List NodeRef)
        → Homed out refs
        → members o (written refs) ≡ (if text_beq out o then refs else members o g)
    written-members [] fits = clear_connects-members out o g home
    written-members (w ∷ ws) fits = overwrite_connects-members out o w ws g fits

    outcome : Bool → Change
    outcome fails =
        if fails
        then refused not_updated (restore out (get_connected out g) (written refs))
        else changed (written refs)

    by_case :
        (fails : Bool) → members o (outcome fails).groups ≡ as_changed out refs g o (outcome fails)
    by_case true = undone out o refs g (written refs) home homed (written-members refs fits)
    by_case false = written-members refs fits

replace_members-failure :
    (k : Kernel) (out : Text) (refs : List NodeRef) (g : Groups)
    → is_some (replace_members k out refs g).failure ≡ (k.core_runs && not k.updates)
unfolding replace_members
replace_members-failure k out refs g = by_case (k.core_runs && not k.updates)
  where
    g' : Groups
    g' = if is_nil refs then clear_connects out g else overwrite_connects refs g

    by_case :
        (fails : Bool)
        → is_some
            (if fails
              then refused not_updated (restore out (get_connected out g) g')
              else changed g').failure
          ≡ fails
    by_case true = refl
    by_case false = refl

-- A replacement that is not for who manages the group, or one of whose touches is not valid, or that
-- the running core does not take, fails.
abbrev pub replacement_fails : Kernel → Text → List NodeRef → Bool → Bool
replacement_fails k out touches managed =
    (if k.auto_add out then not managed else managed)
    || not (all is_valid_touch touches)
    || (k.core_runs && not k.updates)

-- Where every reference stored for the group names it, a replacement of its members fails exactly if
-- it is not made by who manages the group, a touch is not valid, or the running core does not take the
-- new members; then every group has the members that it had. Otherwise the group has just the
-- references that the touches name, each once, in the order in which they are first named, and every
-- other group has the members that it had.
pub replace_outbound_connections-as_changed :
    (k : Kernel) (outbound : Text) (touches : List NodeRef) (managed : Bool) (g : Groups) (o : Text)
    → Homed (or_proxy outbound) (members (or_proxy outbound) g)
    → let change = replace_outbound_connections k outbound touches managed g in
      let out = or_proxy outbound in
      (is_some change.failure ≡ replacement_fails k out touches managed)
      × (members o change.groups
          ≡ as_changed out (first_of_each [] (map (as_member out) touches)) g o change)
unfolding replace_outbound_connections
replace_outbound_connections-as_changed k outbound touches managed g o homed =
    by_case (if k.auto_add out then not managed else managed) (all is_valid_touch touches)
      (normalize out 0 touches []) (normalize-valid out 0 touches [])
      (normalize-invalid out 0 touches []) (λ rs. normalize-Homed out 0 touches [] rs tt)
  where
    out : Text
    out = or_proxy outbound

    new : List NodeRef
    new = first_of_each [] (map (as_member out) touches)

    outcome : Bool → ConnectError ⊎ List NodeRef → Change
    outcome other read =
        if other
        then refused (automatic out) g
        else elim read [ inl e ↦ refused e g | inr refs ↦ replace_members k out refs g ]

    Result : Bool → Bool → Change → Type 0
    Result other valid change =
        (is_some change.failure ≡ (other || not valid || (k.core_runs && not k.updates)))
        × (members o change.groups ≡ as_changed out new g o change)

    of_members :
        (refs : List NodeRef)
        → refs ≡ new
        → Homed out refs
        → Result false true (replace_members k out refs g)
    of_members refs e fits = (
      replace_members-failure k out refs g,
      replace_members-as_changed k out o refs g (or_proxy_idem outbound) fits homed
          ∙ ap (λ (rs : List NodeRef). as_changed out rs g o (replace_members k out refs g)) e,
    )

    by_case :
        (other valid : Bool) (read : ConnectError ⊎ List NodeRef)
        → (valid ≡ true → read ≡ inr new)
        → (valid ≡ false → (e : ConnectError) × (read ≡ inl e))
        → ((rs : List NodeRef) → read ≡ inr rs → Homed out rs)
        → Result other valid (outcome other read)
    by_case true valid read good bad fits = (refl, refl)
    by_case false true (inl e) good bad fits = let h = good refl in absurd cc
    by_case false true (inr refs) good bad fits =
        let h = good refl in let same : refs ≡ new = cc in of_members refs same (fits refs refl)
    by_case false false (inl e) good bad fits = (refl, refl)
    by_case false false (inr refs) good bad fits = let (e, h) = bad refl in absurd cc
