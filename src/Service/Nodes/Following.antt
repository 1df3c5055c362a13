-- ===== src/Service/Nodes/Following.antt =====
-- service/server/service/touch.go: what a reference stands for after a deletion.
use v2ray_a.Base.{
  ℕ, zero, suc, ◌-◌, ◌≡◌, refl, ap, sym, ◌∙◌, Bool, true, false, Option, none, some, List, [], ◌∷◌,
  Text, ℤ, pos, negsuc, eqb_ℤ, any, arith, get_elem?, inl, inr, Option-cases,
}
use v2ray_a.Service.Nodes.{
  TouchType, server_type, subscription_type, subscription_server_type, unknown_type, NodeRef,
  Catalog, Subscription, found, locate_server_raw, at, index_of,
}
use v2ray_a.Service.Nodes.Removal.{
  pred_ℤ, renumber, filter_map, positions, renumber_refs, Nodes, remove_nodes, delete_touches,
  delete_which, touches,
}
use v2ray_a.Service.Nodes.Shifts.{Descends, shift, shifts, shifts-get, shifts-none}

-- What becomes of one reference, round after round.
unfoldable pub renumber_through : List NodeRef → NodeRef → Option NodeRef
renumber_through [] r = some r
renumber_through (v ∷ vs) r = elim (renumber v r) [ none ↦ none | some r' ↦ renumber_through vs r' ]

filter_map-some : (rs : List NodeRef) → filter_map some rs ≡ rs
unfolding filter_map
filter_map-some [] = refl
filter_map-some (r ∷ rs) = ap (◌∷◌ r) (filter_map-some rs)

filter_map-filter_map :
    (v : NodeRef) (vs rs : List NodeRef)
    → filter_map (renumber_through vs) (filter_map (renumber v) rs)
      ≡ filter_map (renumber_through (v ∷ vs)) rs
unfolding filter_map renumber_through
filter_map-filter_map v vs [] = refl
filter_map-filter_map v vs (r ∷ rs) = let ih = filter_map-filter_map v vs rs in ground (arith, ih)

-- The loops over all references do to each what they do to it alone.
renumber_refs-filter_map :
    (vs rs : List NodeRef) → renumber_refs vs rs ≡ filter_map (renumber_through vs) rs
unfolding renumber_refs renumber_through
renumber_refs-filter_map [] rs = sym (filter_map-some rs)
renumber_refs-filter_map (v ∷ vs) rs =
    renumber_refs-filter_map vs (filter_map (renumber v) rs) ∙ filter_map-filter_map v vs rs

abbrev moved_server : NodeRef → Option ℕ → Option NodeRef
moved_server r none = none
moved_server r (some j) = some (record r { id = pos (suc j) })

abbrev moved_sub : NodeRef → Option ℕ → Option NodeRef
moved_sub r none = none
moved_sub r (some j) = some (record r { sub = pos j })

abbrev server_ref : ℕ → ℤ → Text → NodeRef
server_ref i sub outbound = record {
  type = server_type;
  id = pos (suc i);
  sub = sub;
  outbound = outbound;
}

abbrev node_ref : ℕ → ℤ → Text → NodeRef
node_ref i id outbound = record {
  type = subscription_server_type;
  id = id;
  sub = pos i;
  outbound = outbound;
}

through_server :
    (vs : List NodeRef) (i : ℕ) (sub : ℤ) (outbound : Text)
    → Descends (positions server_type vs)
    → renumber_through vs (server_ref i sub outbound)
      ≡ moved_server (server_ref i sub outbound) (shifts (positions server_type vs) i)
unfolding renumber_through renumber positions shifts shift
through_server [] i sub outbound h = refl
through_server (v ∷ vs) i sub outbound h =
    ground (arith, through_server vs i sub outbound, through_server vs (i - 1) sub outbound)

through_node :
    (vs : List NodeRef) (i : ℕ) (id : ℤ) (outbound : Text)
    → Descends (positions subscription_type vs)
    → renumber_through vs (node_ref i id outbound)
      ≡ moved_sub (node_ref i id outbound) (shifts (positions subscription_type vs) i)
unfolding renumber_through renumber positions shifts shift
through_node [] i id outbound h = refl
through_node (v ∷ vs) i id outbound h =
    ground (arith, through_node vs i id outbound, through_node vs (i - 1) id outbound)

-- Whether one of the references names the node, or the subscription that it belongs to.
unfoldable pub names_node : List NodeRef → NodeRef → Bool
unfolding positions
names_node vs r = elim r.type [
  | server_type ↦ any (eqb_ℤ (pred_ℤ r.id)) (positions server_type vs)
  | subscription_server_type ↦ any (eqb_ℤ r.sub) (positions subscription_type vs)
  | subscription_type ↦ false
  | unknown_type t ↦ false
]

-- What becomes of a reference to a node: it goes if its node goes, and else stands for its node.
abbrev pub Follows : {A : Type 0} → Catalog A → List NodeRef → NodeRef → A → Option NodeRef → Type 0
Follows after vs r node none = names_node vs r ≡ true
Follows after vs r node (some r') = locate_server_raw after r' ≡ found node

module _ {A : Type 0} (n : Nodes A) (vs : List NodeRef) (node : A) where
  abbrev after : Catalog A
  unfolding remove_nodes positions renumber_refs
  after = (delete_touches vs n).catalog

  server-Follows :
      (i : ℕ) (sub : ℤ) (outbound : Text)
      → Descends (positions server_type vs)
      → get_elem? n.catalog.servers i ≡ some node
      → Follows after vs
          (server_ref i sub outbound)
          node
          (renumber_through vs (server_ref i sub outbound))
  unfolding locate_server_raw names_node remove_nodes after
  server-Follows i sub outbound h here =
      rw (through_server vs i sub outbound h) (go (shifts (positions server_type vs) i) refl)
    where
      go :
          (o : Option ℕ)
          → shifts (positions server_type vs) i ≡ o
          → Follows after vs
              (server_ref i sub outbound)
              node
              (moved_server (server_ref i sub outbound) o)
      go none e = shifts-none (positions server_type vs) i h e
      go (some j) e =
          rw (
            shifts-get (positions server_type vs) i j n.catalog.servers h e,
            here,
            locate_server_raw,
          )

  node-Follows :
      (i : ℕ) (id : ℤ) (outbound : Text) (s : Subscription A)
      → Descends (positions subscription_type vs)
      → get_elem? n.catalog.subscriptions i ≡ some s
      → at s.nodes (index_of id) ≡ some node
      → Follows after vs
          (node_ref i id outbound)
          node
          (renumber_through vs (node_ref i id outbound))
  unfolding locate_server_raw names_node remove_nodes after
  node-Follows i id outbound s h here inside =
      rw (through_node vs i id outbound h) (go (shifts (positions subscription_type vs) i) refl)
    where
      go :
          (o : Option ℕ)
          → shifts (positions subscription_type vs) i ≡ o
          → Follows after vs (node_ref i id outbound) node (moved_sub (node_ref i id outbound) o)
      go none e = shifts-none (positions subscription_type vs) i h e
      go (some j) e =
          rw
            (
              shifts-get (positions subscription_type vs) i j n.catalog.subscriptions h e,
              here,
              locate_server_raw,
            )
            (rw inside)

  located-Follows :
      (r : NodeRef)
      → Descends (positions server_type vs)
      → Descends (positions subscription_type vs)
      → locate_server_raw n.catalog r ≡ found node
      → Follows after vs r node (renumber_through vs r)
  unfolding locate_server_raw
  located-Follows r hs hn = go r.type r.id r.sub r.outbound
    where
      go :
          (t : TouchType) (id sub : ℤ) (outbound : Text)
          → let w : NodeRef = record { type = t; id = id; sub = sub; outbound = outbound } in
            locate_server_raw n.catalog w ≡ found node
            → Follows after vs w node (renumber_through vs w)
      go server_type (pos (suc i)) sub outbound here =
          server-Follows i sub outbound hs (ground arith)
      go server_type (pos zero) sub outbound here = absurd (ground arith)
      go server_type (negsuc i) sub outbound here = absurd (ground arith)
      go subscription_type id sub outbound here = absurd (ground arith)
      go (unknown_type t) id sub outbound here = absurd (ground arith)
      go subscription_server_type id (negsuc i) outbound here = absurd (ground arith)
      go subscription_server_type id (pos i) outbound here =
          elim (Option-cases (get_elem? n.catalog.subscriptions i)) [
            | inl absent ↦ absurd (ground (arith, absent))
            | inr (s, there) ↦ node-Follows i id outbound s hn there (ground (arith, there))
          ]

-- Where the references to delete name each server and each subscription once, from the back to the
-- front: the references that are left are those connected before, each renumbered by itself, and
-- of a reference that stood for a node, what is left stands for the same node; it is dropped only
-- if the node or its subscription was deleted.
pub delete_which-Follows :
    {A : Type 0} (ws : List NodeRef) (n : Nodes A) (r : NodeRef) (node : A)
    → Descends (positions server_type (touches n.catalog ws))
    → Descends (positions subscription_type (touches n.catalog ws))
    → locate_server_raw n.catalog r ≡ found node
    → ((delete_which ws n).connected
        ≡ filter_map (renumber_through (touches n.catalog ws)) n.connected)
      × Follows
          (delete_which ws n).catalog
          (touches n.catalog ws)
          r
          node
          (renumber_through (touches n.catalog ws) r)
unfolding delete_which remove_nodes after
delete_which-Follows ws n r node hs hn here =
    let vs = touches n.catalog ws in
    (renumber_refs-filter_map vs n.connected, located-Follows n vs node r hs hn here)
