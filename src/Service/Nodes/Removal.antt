-- ===== src/Service/Nodes/Removal.antt =====
-- service/server/service/touch.go: the deletion of nodes, and the renumbering of what refers to the
-- others. The catalog is removed from by position, as service/db/configure does by the database.
use v2ray_a.Base.{
  ℕ, zero, suc, Option, none, some, List, [], ◌∷◌, if◌then◌else◌, ℤ, pos, negsuc, eqb_ℤ, ltb_ℤ, any,
}
use v2ray_a.Service.Nodes.{
  TouchType, server_type, subscription_type, subscription_server_type, unknown_type, NodeRef,
  Catalog, get_non_duplicated, sort_same_type_reverse, type_beq,
}

-- `x - 1`
abbrev pub pred_ℤ : ℤ → ℤ
pred_ℤ (pos zero) = negsuc 0
pred_ℤ (pos (suc n)) = pos n
pred_ℤ (negsuc n) = negsuc (suc n)

-- One round of the loops over the connected references: `none` where the reference goes.
unfoldable pub renumber : NodeRef → NodeRef → Option NodeRef
renumber v cs = elim v.type [
  | subscription_type ↦ elim cs.type [
    | subscription_server_type ↦
        if eqb_ℤ (pred_ℤ v.id) cs.sub
        then none
        else if ltb_ℤ (pred_ℤ v.id) cs.sub
        then some (record cs { sub = pred_ℤ cs.sub })
        else some cs
    | server_type ↦ some cs
    | subscription_type ↦ some cs
    | unknown_type _ ↦ some cs
  ]
  | server_type ↦ elim cs.type [
    | server_type ↦
        if eqb_ℤ v.id cs.id
        then none
        else if ltb_ℤ v.id cs.id
        then some (record cs { id = pred_ℤ cs.id })
        else some cs
    | subscription_server_type ↦ some cs
    | subscription_type ↦ some cs
    | unknown_type _ ↦ some cs
  ]
  | subscription_server_type ↦ some cs
  | unknown_type _ ↦ some cs
]

unfoldable pub filter_map : {A B : Type 0} → (A → Option B) → List A → List B
filter_map f [] = []
filter_map f (x ∷ xs) = let rest = filter_map f xs in elim (f x) [ none ↦ rest | some y ↦ y ∷ rest ]

-- The positions that a list of references names, of one type.
unfoldable pub positions : TouchType → List NodeRef → List ℤ
positions t [] = []
positions t (v ∷ vs) =
    let rest = positions t vs in if type_beq v.type t then pred_ℤ v.id ∷ rest else rest

-- The loop over the references to delete.
unfoldable pub renumber_refs : List NodeRef → List NodeRef → List NodeRef
unfolding filter_map renumber
renumber_refs [] connected = connected
renumber_refs (v ∷ vs) connected = renumber_refs vs (filter_map (renumber v) connected)

-- A removal by positions, `i` the position of the first element.
unfoldable pub drop_positions {ℓ} : {A : Type ℓ} → ℕ → List ℤ → List A → List A
drop_positions i gone [] = []
drop_positions i gone (x ∷ xs) =
    let rest = drop_positions (suc i) gone xs in if any (eqb_ℤ (pos i)) gone then rest else x ∷ rest

pub record Nodes (A : Type 0) : Type 0 where
  pub catalog : Catalog A
  pub connected : List NodeRef

-- RemoveNodes: the catalog and the connected references in one transaction.
unfoldable pub remove_nodes : {A : Type 0} → Catalog A → List ℤ → List ℤ → List NodeRef → Nodes A
unfolding drop_positions
remove_nodes c subscriptions servers connected = record {
  catalog = record {
    servers = drop_positions 0 servers c.servers;
    subscriptions = drop_positions 0 subscriptions c.subscriptions;
  };
  connected = connected;
}

-- The references that DeleteWhich works through, in its order.
abbrev pub touches : {A : Type 0} → Catalog A → List NodeRef → List NodeRef
unfolding get_non_duplicated sort_same_type_reverse
touches c ws = sort_same_type_reverse (get_non_duplicated c ws)

abbrev pub delete_touches : {A : Type 0} → List NodeRef → Nodes A → Nodes A
unfolding positions renumber_refs remove_nodes
delete_touches ts n =
    remove_nodes n.catalog (positions subscription_type ts) (positions server_type ts)
      (renumber_refs ts n.connected)

-- DeleteWhich, where the transaction succeeds; the core's reload is not in the model.
unfoldable pub delete_which : {A : Type 0} → List NodeRef → Nodes A → Nodes A
unfolding positions renumber_refs remove_nodes get_non_duplicated sort_same_type_reverse
delete_which ws n = delete_touches (touches n.catalog ws) n
