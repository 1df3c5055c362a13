-- ===== src/Service/Connections.antt =====
-- service/db/configure/configure.go: the connected references, stored by group; and
-- service/server/service/connect.go, which changes them and has the core read them again. That the
-- write of the database fails is left out; whether the core takes a change is an answer of the kernel.
pub mod Written
pub mod Normal
pub mod Restored
pub mod Left
pub mod Removed
use v2ray_a.Base.{
  ℕ, zero, suc, ◌+◌, Bool, true, false, not, ◌&&◌, ◌||◌, Option, none, some, List, [], ◌∷◌, ◌++◌,
  Text, text_beq, text_eq, is_empty, if◌then◌else◌, ℤ, pos, negsuc, is_positive, is_negative, any,
  lookup, insert, ◌⊎◌, inl, inr,
}
use v2ray_a.Service.Nodes.{
  NodeRef, server_type, subscription_type, subscription_server_type, unknown_type, ref_beq,
  equal_to, is_some,
}
use v2ray_a.Service.Routing.{proxy, is_nil}

-- The key "connectedServers" of the bucket of each group.
abbrev pub Groups : Type 0
Groups = List (Text × List NodeRef)

abbrev pub or_proxy : Text → Text
or_proxy out = if is_empty out then proxy else out

-- The reference with its group filled in, as the loops of AddConnect and RemoveConnect do.
abbrev pub filled : NodeRef → NodeRef
filled v = record v { outbound = or_proxy v.outbound }

-- GetConnectedServersByOutbound: none is nil, where nothing has been stored.
unfoldable pub get_connected : Text → Groups → Option (List NodeRef)
get_connected out g = lookup (or_proxy out) g

-- What Get gives of it, nil or not.
unfoldable pub members : Text → Groups → List NodeRef
members out g = elim (lookup out g) [ none ↦ [] | some refs ↦ refs ]

unfoldable pub clear_connects : Text → Groups → Groups
clear_connects out g = insert (or_proxy out) [] g

-- The loop of AddConnect: none where the reference is found, else the references, filled in.
unfoldable pub fill_unless : NodeRef → List NodeRef → Option (List NodeRef)
fill_unless wt [] = some []
fill_unless wt (v ∷ vs) =
    let rest = fill_unless wt vs in
    if equal_to (filled v) wt
    then none
    else elim rest [ none ↦ none | some refs ↦ some (filled v ∷ refs) ]

unfoldable pub add_connect : NodeRef → Groups → Groups
unfolding members fill_unless
add_connect wt g =
    let wt' = filled wt in
    elim (fill_unless wt' (members wt'.outbound g)) [
      | none ↦ g
      | some refs ↦ insert wt'.outbound (refs ++ (wt' ∷ [])) g
    ]

-- byOutbound, onto the groups so far, and OverwriteConnects. The order in which Go ranges over the
-- groups does not matter, as each is written on its own.
unfoldable pub by_outbound : List NodeRef → Groups → Groups
by_outbound [] out = out
by_outbound (w ∷ ws) out = by_outbound ws (
    insert w.outbound (elim (lookup w.outbound out) [ none ↦ [] | some refs ↦ refs ] ++ (w ∷ []))
      out)

unfoldable pub write_groups : Groups → Groups → Groups
write_groups [] g = g
write_groups ((out, refs) ∷ more) g = write_groups more (insert out refs g)

unfoldable pub overwrite_connects : List NodeRef → Groups → Groups
unfolding by_outbound write_groups
overwrite_connects ws g = write_groups (by_outbound ws []) g

-- RemoveConnect: none is its error.
unfoldable pub remove_first : NodeRef → List NodeRef → Option (List NodeRef)
remove_first wt [] = none
remove_first wt (v ∷ vs) =
    let rest = remove_first wt vs in
    if equal_to v wt then some vs else elim rest [ none ↦ none | some refs ↦ some (v ∷ refs) ]

abbrev pub fill_all : List NodeRef → List NodeRef
fill_all [] = []
fill_all (v ∷ vs) = filled v ∷ fill_all vs

unfoldable pub remove_connect : NodeRef → Groups → Option Groups
unfolding members remove_first
remove_connect wt g =
    let wt' = filled wt in
    elim (remove_first wt' (fill_all (members wt'.outbound g))) [
      | none ↦ none
      | some refs ↦ some (insert wt'.outbound refs g)
    ]

-- What a change meets: whether a group manages itself, whether a reference is located, whether the
-- assets are there, whether the core runs, whether the update of the core succeeds, and whether the
-- core runs after an update that does not.
pub record Kernel : Type 0 where
  pub auto_add : Text → Bool
  pub located : NodeRef → Bool
  pub assets : Bool
  pub core_runs : Bool
  pub updates : Bool
  pub still_runs : Bool

pub data ConnectError : Type 0 where
  automatic : Text → ConnectError
  not_located : NodeRef → ConnectError
  assets_missing : ConnectError
  not_updated : ConnectError
  not_connected : NodeRef → ConnectError
  invalid_id : ℕ → ConnectError
  invalid_subscription : ℕ → ConnectError
  invalid_type : ℕ → ConnectError

-- The groups as a call leaves them, and its error.
pub record Change : Type 0 where
  pub groups : Groups
  pub failure : Option ConnectError

abbrev pub changed : Groups → Change
changed g = record { groups = g; failure = none }

abbrev pub refused : ConnectError → Groups → Change
refused e g = record { groups = g; failure = some e }

-- The members from before are written back, or the group is cleared where it had none.
abbrev pub restore : Text → Option (List NodeRef) → Groups → Groups
restore out none g = clear_connects out g
restore out (some []) g = clear_connects out g
restore out (some (w ∷ ws)) g = overwrite_connects (w ∷ ws) g

-- Connect, of a reference that is not nil.
unfoldable pub connect : Kernel → NodeRef → Groups → Change
unfolding add_connect get_connected
connect k which g =
    let wt = filled which in
    if k.auto_add wt.outbound
    then refused (automatic wt.outbound) g
    else if not (k.located wt)
    then refused (not_located wt) g
    else if not k.assets
    then refused assets_missing g
    else (let before = get_connected wt.outbound g in
        let g' = add_connect wt g in
        if k.updates then changed g' else refused not_updated (restore wt.outbound before g'))

-- Disconnect.
unfoldable pub disconnect : Kernel → NodeRef → Bool → Groups → Change
unfolding remove_connect clear_connects get_connected overwrite_connects
disconnect k which clear_all g =
    let wt = filled which in
    if k.auto_add wt.outbound
    then refused (automatic wt.outbound) g
    else (let removed =
          if clear_all then some (clear_connects wt.outbound g) else remove_connect wt g in
        elim removed [
          | none ↦ refused (not_connected wt) g
          | some g' ↦
              if k.core_runs && not k.updates
              then refused not_updated (
                  if k.still_runs
                  then elim (get_connected wt.outbound g) [
                    | none ↦ g'
                    | some refs ↦ overwrite_connects refs g'
                  ]
                  else g')
              else changed g'
        ])

-- The body of the loop of replaceOutboundConnections, for the touch at a position: its error, or the
-- reference.
unfoldable pub normal_touch : Text → ℕ → NodeRef → ConnectError ⊎ NodeRef
normal_touch out i wt = if not (is_positive wt.id) then inl (invalid_id i) else elim wt.type [
  | server_type ↦ inr (record wt { outbound = out; sub = pos 0 })
  | subscription_server_type ↦
      if is_negative wt.sub
      then inl (invalid_subscription i)
      else inr (record wt { outbound = out })
  | subscription_type ↦ inl (invalid_type i)
  | unknown_type t ↦ inl (invalid_type i)
]

-- Two keys are the same where type, id and subscription are, as the group is the same.
abbrev pub keep_new : NodeRef → List NodeRef → List NodeRef
keep_new ref refs = if any (ref_beq ref) refs then refs else refs ++ (ref ∷ [])

-- The loop, with the references so far.
unfoldable pub normalize : Text → ℕ → List NodeRef → List NodeRef → ConnectError ⊎ List NodeRef
unfolding normal_touch
normalize out i [] refs = inr refs
normalize out i (wt ∷ wts) refs = elim (normal_touch out i wt) [
  | inl e ↦ inl e
  | inr ref ↦ normalize out (i + 1) wts (keep_new ref refs)
]

-- replaceOutboundConnections, of touches that have been normalised: one write for the whole group.
unfoldable pub replace_members : Kernel → Text → List NodeRef → Groups → Change
unfolding get_connected
replace_members k out refs g =
    let g' = if is_nil refs then clear_connects out g else overwrite_connects refs g in
    if k.core_runs && not k.updates
    then refused not_updated (restore out (get_connected out g) g')
    else changed g'

unfoldable pub replace_outbound_connections : Kernel → Text → List NodeRef → Bool → Groups → Change
unfolding normalize replace_members
replace_outbound_connections k outbound touches managed g =
    let out = or_proxy outbound in
    if (if k.auto_add out then not managed else managed)
    then refused (automatic out) g
    else elim (normalize out 0 touches []) [
      | inl e ↦ refused e g
      | inr refs ↦ replace_members k out refs g
    ]
