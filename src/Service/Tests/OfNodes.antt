-- ===== src/Service/Tests/OfNodes.antt =====
-- Concrete runs of the deletion of nodes.
use v2ray_a.Base.{ℕ, ◌≡◌, refl, some, List, [], ◌∷◌, Text, codes, pos, length}
use v2ray_a.Service.Nodes.{
  NodeRef, server_type, subscription_type, subscription_server_type, locate_server_raw, found,
  get_non_duplicated, sort_same_type_reverse,
}
use v2ray_a.Service.Nodes.Removal.{Nodes, delete_which, touches, filter_map, positions}
use v2ray_a.Service.Nodes.Following.{Follows, renumber_through, delete_which-Follows}

abbrev server_at : ℕ → Text → NodeRef
server_at id outbound = record { type = server_type; id = pos id; sub = pos 0; outbound = outbound }

abbrev subscription_at : ℕ → NodeRef
subscription_at id = record {
  type = subscription_type;
  id = pos id;
  sub = pos 0;
  outbound = codes "proxy";
}

abbrev sample : Nodes ℕ
sample = record {
  catalog = record {
    servers = 11 ∷ 12 ∷ 13 ∷ 14 ∷ [];
    subscriptions =
        record { address = codes "a"; nodes = 21 ∷ [] }
        ∷ record { address = codes "b"; nodes = 31 ∷ 32 ∷ [] }
        ∷ [];
  };
  connected =
      server_at 4 (codes "proxy")
      ∷ record {
        type = subscription_server_type;
        id = pos 2;
        sub = pos 1;
        outbound = codes "proxy";
      }
      ∷ [];
}

abbrev deleted : List NodeRef
deleted = server_at 1 (codes "proxy") ∷ subscription_at 1 ∷ server_at 3 (codes "proxy") ∷ []

delete_which-Follows_example :
    ((delete_which deleted sample).connected
      ≡ filter_map (renumber_through (touches sample.catalog deleted)) sample.connected)
    × Follows
        (delete_which deleted sample).catalog
        (touches sample.catalog deleted)
        (server_at 4 (codes "proxy"))
        14
        (renumber_through (touches sample.catalog deleted) (server_at 4 (codes "proxy")))
unfolding get_non_duplicated sort_same_type_reverse positions locate_server_raw
delete_which-Follows_example =
    delete_which-Follows deleted sample (server_at 4 (codes "proxy")) 14 ((refl, tt), (tt, tt))
      (tt, tt) refl

-- The reference to the fourth server follows it to the second place.
deleted_test : (delete_which deleted sample).connected ≡ (
    server_at 2 (codes "proxy")
    ∷ record { type = subscription_server_type; id = pos 2; sub = pos 0; outbound = codes "proxy" }
    ∷ [])
unfolding delete_which
deleted_test = refl

-- The second server named for two groups goes once, but a reference to the fourth is moved twice.
named_twice_test :
    let after =
      delete_which (server_at 2 (codes "proxy") ∷ server_at 2 (codes "other") ∷ []) sample in
    (length after.catalog.servers ≡ 3)
    × (locate_server_raw after.catalog (server_at 2 (codes "proxy")) ≡ found 13)
    × (filter_map some (after.connected) ≡ (
        server_at 2 (codes "proxy")
        ∷ record {
          type = subscription_server_type;
          id = pos 2;
          sub = pos 1;
          outbound = codes "proxy";
        }
        ∷ []))
unfolding delete_which locate_server_raw
named_twice_test = (refl, refl, refl)
