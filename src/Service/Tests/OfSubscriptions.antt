-- ===== src/Service/Tests/OfSubscriptions.antt =====
-- Concrete runs of the remapping of references after the update of a subscription.
use v2ray_a.Base.{
  ℕ, zero, suc, ◌≡◌, refl, sym, ap, map, eqb, true, false, Bool, Option, none, some, List, [], ◌∷◌,
  ◌++◌, Text, codes, pos, get_elem?,
}
use v2ray_a.Service.Nodes.{NodeRef, subscription_server_type}
use v2ray_a.Service.Subscriptions.{
  ServerObj, ServerRaw, place, Done, downloaded, carried, remap_references,
}
use v2ray_a.Service.Subscriptions.Remapped.{Carries, remap_references-Carries}

-- A node is an account, a host and a name.
abbrev Node : Type 0
Node = Text × Text × Text

abbrev node_ops : ServerObj Node
node_ops = record {
  export_to_url = λ (account, host, name). 64 ∷ account;
  protocol = λ n. codes "vless";
  hostname = λ (account, host, name). host;
  port = λ n. 443;
  name = λ (account, host, name). name;
}

abbrev raw : Node → ServerRaw Node
raw n = record { server_obj = some n; latency = codes "20ms" }

abbrev old_nodes : List Node
old_nodes =
    (codes "a", codes "h", codes "one")
    ∷ (codes "b", codes "h", codes "two")
    ∷ (codes "c", codes "k", codes "three")
    ∷ (codes "d", codes "l", codes "four")
    ∷ []

abbrev old_servers : List (ServerRaw Node)
old_servers = map raw old_nodes

abbrev new_nodes : List Node
new_nodes = (codes "a", codes "h", codes "one") ∷ (codes "e", codes "k", codes "") ∷ []

abbrev node_at : ℕ → Text → NodeRef
node_at id outbound = record {
  type = subscription_server_type;
  id = pos id;
  sub = pos 1;
  outbound = outbound;
}

abbrev refs : List NodeRef
refs =
    node_at 3 (codes "proxy")
    ∷ node_at 4 (codes "proxy")
    ∷ node_at 4 (codes "auto")
    ∷ node_at 4 (codes "other")
    ∷ record (node_at 4 (codes "proxy")) { sub = pos 0 }
    ∷ []

abbrev is_auto : Text → Bool
is_auto [] = false
is_auto (c ∷ cs) = eqb c 97

abbrev obj_of : Option (ServerRaw Node) → Option Node
obj_of none = none
obj_of (some r) = r.server_obj

servers_there :
    (nodes : List Node) (i : ℕ) (r : ServerRaw Node)
    → get_elem? (map raw nodes) i ≡ some r
    → (o : Node) × (r.server_obj ≡ some o)
servers_there [] i r h = absurd cc
servers_there (n ∷ nodes) zero r h = (n, sym (ap obj_of h))
servers_there (n ∷ nodes) (suc i) r h = servers_there nodes i r h

remap_references-Carries_example :
    (refs' : List NodeRef) × (st : Done Node) × (remap_references node_ops 1 old_servers new_nodes
        is_auto refs
      ≡ carried refs' st)
    × ((more : List (ServerRaw Node)) × (st.servers ≡ downloaded new_nodes ++ more))
    × Carries node_ops 1 old_servers new_nodes is_auto st.servers refs refs'
unfolding place
remap_references-Carries_example =
    remap_references-Carries node_ops 1 old_servers new_nodes is_auto refs (servers_there old_nodes)
      ((λ e. cc), ((λ e. cc), ((λ e. cc), ((λ e. cc), ((λ e. cc), tt)))))

-- The third server is found by its endpoint; the fourth is kept behind the new nodes for two groups,
-- and dropped for the group that adds servers by itself.
references_test :
    remap_references node_ops 1 old_servers new_nodes is_auto refs
    ≡ carried
        (node_at 2 (codes "proxy")
          ∷ node_at 3 (codes "proxy")
          ∷ node_at 3 (codes "other")
          ∷ record (node_at 4 (codes "proxy")) { sub = pos 0 }
          ∷ [])
        (record {
          servers = downloaded new_nodes ++ (raw (codes "d", codes "l", codes "four") ∷ []);
          retained = (3, 2) ∷ [];
          affected = true;
        })
unfolding remap_references downloaded
references_test = refl

-- The second account on a host, no longer offered, is taken for the first, which still is.
two_accounts_test :
    remap_references node_ops 1 old_servers new_nodes is_auto
      (node_at 1 (codes "proxy") ∷ node_at 2 (codes "other") ∷ [])
    ≡ carried
        (node_at 1 (codes "proxy") ∷ node_at 1 (codes "other") ∷ [])
        (record { servers = downloaded new_nodes; retained = []; affected = true })
unfolding remap_references downloaded
two_accounts_test = refl
