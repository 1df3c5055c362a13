-- ===== src/Service/Nodes.antt =====
-- service/db/configure/which.go: references to nodes by position, their order, and the node that a
-- reference stands for. Identifiers count from one. A node is of any type here; a catalog is the two
-- stored lists. The latencies and links that a reference carries along are not in the model.
pub mod Removal
pub mod Shifts
pub mod Following
use v2ray_a.Base.{
  ℕ, zero, suc, ◌-◌, Bool, true, false, not, ◌&&◌, Option, none, some, List, [], ◌∷◌, ◌++◌, Text,
  text_beq, if◌then◌else◌, ℤ, pos, negsuc, eqb_ℤ, ltb_ℤ, ltb, eqb, length, get_elem?, any,
}

pub data TouchType : Type 0 where
  server_type : TouchType
  subscription_type : TouchType
  subscription_server_type : TouchType
  unknown_type : Text → TouchType

abbrev pub type_beq : TouchType → TouchType → Bool
type_beq server_type server_type = true
type_beq subscription_type subscription_type = true
type_beq subscription_server_type subscription_server_type = true
type_beq (unknown_type s) (unknown_type t) = text_beq s t
type_beq _ _ = false

pub record NodeRef : Type 0 where
  pub type : TouchType
  pub id : ℤ
  pub sub : ℤ
  pub outbound : Text

-- Go's `==` on a NodeRef, as a key of a map.
abbrev pub ref_beq : NodeRef → NodeRef → Bool
ref_beq a b =
    type_beq a.type b.type && eqb_ℤ a.id b.id && eqb_ℤ a.sub b.sub && text_beq a.outbound b.outbound

unfoldable pub equal_to : NodeRef → NodeRef → Bool
equal_to w another = elim w.type [
  | subscription_server_type ↦
      type_beq another.type w.type
      && eqb_ℤ another.sub w.sub
      && eqb_ℤ another.id w.id
      && text_beq another.outbound w.outbound
  | server_type ↦
      type_beq another.type w.type && eqb_ℤ another.id w.id && text_beq another.outbound w.outbound
  | subscription_type ↦ type_beq another.type w.type && eqb_ℤ another.id w.id
  | unknown_type _ ↦ false
]

pub record Subscription (A : Type 0) : Type 0 where
  pub address : Text
  pub nodes : List A

pub record Catalog (A : Type 0) : Type 0 where
  pub servers : List A
  pub subscriptions : List (Subscription A)

-- The index that is one less than an identifier, where it is not negative.
abbrev pub index_of : ℤ → Option ℕ
index_of (pos zero) = none
index_of (pos (suc i)) = some i
index_of (negsuc n) = none

-- An index of a subscription, where it is not negative.
abbrev pub sub_index : ℤ → Option ℕ
sub_index (pos i) = some i
sub_index (negsuc n) = none

abbrev pub at {ℓ} : {A : Type ℓ} → List A → Option ℕ → Option A
at xs none = none
at xs (some i) = get_elem? xs i

pub data Located (A : Type 0) : Type 0 where
  found : A → Located A
  server_not_found : ℤ → ℕ → Located A
  subscription_server_not_found : ℤ → ℤ → Located A
  unknown_item_type : TouchType → Located A

abbrev pub node_of : {A : Type 0} → List (Subscription A) → ℤ → ℤ → Option A
node_of subscriptions sub id = elim (at subscriptions (sub_index sub)) [
  | none ↦ none
  | some s ↦ at s.nodes (index_of id)
]

-- Locator.Locate
unfoldable pub locate_server_raw : {A : Type 0} → Catalog A → NodeRef → Located A
locate_server_raw c w = elim w.type [
  | server_type ↦ elim (at c.servers (index_of w.id)) [
    | none ↦ server_not_found w.id (length c.servers)
    | some node ↦ found node
  ]
  | subscription_server_type ↦ elim (node_of c.subscriptions w.sub w.id) [
    | none ↦ subscription_server_not_found w.id w.sub
    | some node ↦ found node
  ]
  | subscription_type ↦ unknown_item_type subscription_type
  | unknown_type t ↦ unknown_item_type (unknown_type t)
]

abbrev pub is_some {ℓ} : {A : Type ℓ} → Option A → Bool
is_some none = false
is_some (some a) = true

-- The bounds that GetNonDuplicated checks.
unfoldable pub in_range : {A : Type 0} → Catalog A → NodeRef → Bool
in_range c v = elim v.type [
  | subscription_type ↦ is_some (at c.subscriptions (index_of v.id))
  | server_type ↦ is_some (at c.servers (index_of v.id))
  | subscription_server_type ↦ is_some (node_of c.subscriptions v.sub v.id)
  | unknown_type t ↦ false
]

-- The keys of the map that GetNonDuplicated fills; Go gives them in any order, here it is that of
-- their last occurrences. Each caller modelled here sorts them.
unfoldable pub get_non_duplicated : {A : Type 0} → Catalog A → List NodeRef → List NodeRef
unfolding in_range
get_non_duplicated c [] = []
get_non_duplicated c (v ∷ vs) =
    let rest = get_non_duplicated c vs in
    if in_range c v then (if any (ref_beq v) rest then rest else v ∷ rest) else rest

abbrev pub rank : TouchType → ℕ
rank server_type = 0
rank subscription_type = 1
rank subscription_server_type = 2
rank (unknown_type t) = 0

-- Whiches.Less
unfoldable pub less : NodeRef → NodeRef → Bool
less a b =
    if not (type_beq a.type b.type)
    then ltb (rank a.type) (rank b.type)
    else if type_beq a.type server_type
    then ltb_ℤ a.id b.id
    else if not (eqb_ℤ a.sub b.sub)
    then ltb_ℤ a.sub b.sub
    else ltb_ℤ a.id b.id

-- sort.Sort leaves the order of what is not less either way open; this one inserts.
unfoldable pub insert_ref : NodeRef → List NodeRef → List NodeRef
unfolding less
insert_ref v [] = v ∷ []
insert_ref v (w ∷ ws) = let rest = insert_ref v ws in if less w v then w ∷ rest else v ∷ w ∷ ws

unfoldable pub sort_refs : List NodeRef → List NodeRef
unfolding insert_ref
sort_refs [] = []
sort_refs (v ∷ vs) = insert_ref v (sort_refs vs)

-- The loop of SortSameTypeReverse that turns each run of one type round: `run` is the run so far,
-- turned round.
unfoldable pub reverse_runs : List NodeRef → List NodeRef → List NodeRef
reverse_runs run [] = run
reverse_runs [] (v ∷ vs) = reverse_runs (v ∷ []) vs
reverse_runs (w ∷ run) (v ∷ vs) =
    let same = reverse_runs (v ∷ w ∷ run) vs in
    let next = reverse_runs (v ∷ []) vs in
    if type_beq v.type w.type then same else (w ∷ run) ++ next

unfoldable pub sort_same_type_reverse : List NodeRef → List NodeRef
unfolding sort_refs reverse_runs
sort_same_type_reverse ws = reverse_runs [] (sort_refs ws)
