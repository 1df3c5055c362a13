-- ===== src/Service/Tests/OfConnections.antt =====
-- Concrete changes of the connected references.
use v2ray_a.Base.{◌≡◌, refl, true, false, ◌||◌, not, [], ◌∷◌, pos, lookup, insert, map}
use v2ray_a.Service.Nodes.{NodeRef, server_type, equal_to, is_some}
use v2ray_a.Service.Routing.{proxy}
use v2ray_a.Service.Connections.{
  Groups, filled, members, Kernel, connect, disconnect, replace_outbound_connections, not_updated,
  refused,
}
use v2ray_a.Service.Connections.Normal.{as_member, first_of_each}
use v2ray_a.Service.Connections.Written.{with_ref}
use v2ray_a.Service.Connections.Restored.{
  connect-as_changed, replace_outbound_connections-as_changed, as_changed, replacement_fails,
}
use v2ray_a.Service.Connections.Left.{left_of}
use v2ray_a.Service.Connections.Removed.{disconnect-as_changed, disconnection_fails}

abbrev server_1 : NodeRef
server_1 = record { type = server_type; id = pos 1; sub = pos 0; outbound = proxy }

-- The second server, of no group yet.
abbrev server_2 : NodeRef
server_2 = record { type = server_type; id = pos 2; sub = pos 0; outbound = [] }

abbrev one_group : Groups
one_group = (proxy, server_1 ∷ []) ∷ []

-- The core runs, does not take an update, and goes on running.
abbrev unwilling : Kernel
unwilling = record {
  auto_add = λ out. false;
  located = λ ref. true;
  assets = true;
  core_runs = true;
  updates = false;
  still_runs = true;
}

-- Where the core does not go on running, a disconnection that fails has removed the reference.
stopped_test :
    disconnect (record unwilling { still_runs = false }) server_1 false one_group
    ≡ refused not_updated ((proxy, []) ∷ [])
unfolding disconnect lookup insert equal_to
stopped_test = refl

connect-as_changed_example :
    let k = unwilling in
    let change = connect k server_2 one_group in
    (is_some change.failure
      ≡ (k.auto_add proxy || not (k.located (filled server_2)) || not k.assets || not k.updates))
    × (members proxy change.groups
        ≡ as_changed proxy
            (with_ref (filled server_2) (members proxy one_group))
            one_group
            proxy
            change)
unfolding members lookup
connect-as_changed_example = connect-as_changed unwilling server_2 one_group proxy (refl, tt)

disconnect-as_changed_example :
    let change = disconnect unwilling server_1 false one_group in
    let refs = members proxy one_group in
    (is_some change.failure ≡ disconnection_fails unwilling (filled server_1) false refs)
    × (members proxy change.groups
        ≡ as_changed proxy (left_of false (filled server_1) refs) one_group proxy change)
unfolding members lookup
disconnect-as_changed_example =
    disconnect-as_changed unwilling server_1 false one_group proxy refl (refl, tt)

replace_outbound_connections-as_changed_example :
    let touches = server_2 ∷ server_2 ∷ [] in
    let change = replace_outbound_connections unwilling [] touches false one_group in
    (is_some change.failure ≡ replacement_fails unwilling proxy touches false)
    × (members proxy change.groups
        ≡ as_changed proxy
            (first_of_each [] (map (as_member proxy) touches))
            one_group
            proxy
            change)
unfolding members lookup
replace_outbound_connections-as_changed_example =
    replace_outbound_connections-as_changed unwilling [] (server_2 ∷ server_2 ∷ []) false one_group
      proxy (refl, tt)
