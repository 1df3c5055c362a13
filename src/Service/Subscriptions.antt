-- ===== src/Service/Subscriptions.antt =====
-- service/server/service/subscription.go: storeSubscriptionUpdate, up to the write: the servers of
-- the updated subscription, and the references to its old servers. What is asked of a node is an
-- interface, as ServerObj is to the code. A nil node among the downloaded ones does not occur.
pub mod Matches
pub mod Covered
pub mod Settled
pub mod Remapped
use v2ray_a.Base.{
  ℕ, zero, suc, ◌+◌, Bool, true, false, not, ◌&&◌, ◌||◌, Option, none, some, List, [], ◌∷◌, ◌++◌,
  Text, text_beq, nat_eq, ltb, eqb, if◌then◌else◌, lookup, insert, get_elem?, length, ℤ, pos, eqb_ℤ,
  is_empty,
}
use v2ray_a.Service.Nodes.{NodeRef, subscription_server_type, type_beq, index_of, at}

pub record ServerObj (N : Type 0) : Type 0 where
  pub export_to_url : N → Text
  pub protocol : N → Text
  pub hostname : N → Text
  pub port : N → ℕ
  pub name : N → Text

pub record ServerRaw (N : Type 0) : Type 0 where
  pub server_obj : Option N
  pub latency : Text

pub data Match : Type 0 where
  no_match : Match
  exact : ℕ → Match
  fallback : ℕ → Match

-- mappedIDs with exactMatches, by the index of the old server, and fallbackClaims, by that of the
-- new one.
pub record Claims : Type 0 where
  pub mapped : List (ℕ × Match)
  pub claimed : List (ℕ × ℕ)

unfoldable pub claims_of : ℕ → List (ℕ × ℕ) → ℕ
unfolding lookup
claims_of i claimed = elim (lookup i claimed) [ none ↦ 0 | some n ↦ n ]

unfoldable pub claim : ℕ → Match → Claims → Claims
unfolding claims_of insert
claim i no_match c = record c { mapped = insert i no_match c.mapped }
claim i (exact j) c = record c { mapped = insert i (exact j) c.mapped }
claim i (fallback j) c = record {
  mapped = insert i (fallback j) c.mapped;
  claimed = insert j (suc (claims_of j c.claimed)) c.claimed;
}

-- The new index for an old one, if there is one to use.
unfoldable pub usable : List (ℕ × ℕ) → Option Match → Option ℕ
unfolding claims_of
usable claimed none = none
usable claimed (some no_match) = none
usable claimed (some (exact j)) = some j
usable claimed (some (fallback j)) = if ltb 1 (claims_of j claimed) then none else some j

unfoldable pub target : Claims → ℕ → Option ℕ
unfolding lookup usable
target c i = usable c.claimed (lookup i c.mapped)

-- What the second loop changes: the new servers, retainedIDs, and whether the core is affected.
pub record Done (N : Type 0) : Type 0 where
  pub servers : List (ServerRaw N)
  pub retained : List (ℕ × ℕ)
  pub affected : Bool

pub data Carried (N : Type 0) : Type 0 where
  invalid_reference : Carried N
  nil_server : Carried N
  carried : List NodeRef → Done N → Carried N

-- The full identity before the endpoint, and that before the name.
abbrev pub in_order : Option ℕ → Option ℕ → Option ℕ → Match
in_order (some i) by_endpoint by_name = exact i
in_order none (some i) by_name = fallback i
in_order none none (some i) = fallback i
in_order none none none = no_match

-- A reference to a server of the subscription at `index`.
abbrev pub is_ours : ℕ → NodeRef → Bool
is_ours index ref = type_beq ref.type subscription_server_type && eqb_ℤ ref.sub (pos index)

-- What a reference is to the update: to another node, out of range, or to an old server.
pub data Place (N : Type 0) : Type 0 where
  elsewhere : Place N
  out_of_range : Place N
  old_server : ℕ → ServerRaw N → Place N

module _ {N : Type 0} where
  unfoldable pub place : ℕ → List (ServerRaw N) → NodeRef → Place N
  place index old ref = if not (is_ours index ref) then elsewhere else elim (index_of ref.id) [
    | none ↦ out_of_range
    | some i ↦ elim (get_elem? old i) [ none ↦ out_of_range | some raw ↦ old_server i raw ]
  ]

  -- The first node that is accepted, `i` the number of nodes before.
  unfoldable pub first_accepted : (N → Bool) → ℕ → List N → Option ℕ
  first_accepted accepts i [] = none
  first_accepted accepts i (n ∷ nodes) =
      let rest = first_accepted accepts (suc i) nodes in if accepts n then some i else rest

  -- The only node that is accepted: `found` is the one before, and a second one ends the loop.
  unfoldable pub sole_accepted : (N → Bool) → Option ℕ → ℕ → List N → Option ℕ
  sole_accepted accepts found i [] = found
  sole_accepted accepts none i (n ∷ nodes) =
      let hit = sole_accepted accepts (some i) (suc i) nodes in
      let miss = sole_accepted accepts none (suc i) nodes in if accepts n then hit else miss
  sole_accepted accepts (some j) i (n ∷ nodes) =
      let miss = sole_accepted accepts (some j) (suc i) nodes in if accepts n then none else miss

  abbrev pub of_downloaded : N → ServerRaw N
  of_downloaded n = record { server_obj = some n; latency = [] }

  unfoldable pub downloaded : List N → List (ServerRaw N)
  downloaded [] = []
  downloaded (n ∷ nodes) = of_downloaded n ∷ downloaded nodes

  -- An old server is added to the new ones, unless it has been already.
  unfoldable pub retain : ℕ → ServerRaw N → Done N → Option ℕ → Done N × Option ℕ
  unfolding insert
  retain i raw st (some j) = (st, some j)
  retain i raw st none = (
    record st {
      servers = st.servers ++ (raw ∷ []);
      retained = insert i (length st.servers) st.retained;
    },
    some (length st.servers),
  )

  -- The index that a reference gets: none where it is dropped.
  unfoldable pub settle_at : Bool → ℕ → ServerRaw N → Done N → Option ℕ → Done N × Option ℕ
  unfolding retain lookup
  settle_at drop i raw st (some j) = (st, some j)
  settle_at drop i raw st none =
      if drop then (record st { affected = true }, none) else retain i raw st (lookup i st.retained)

  unfoldable pub settle : Claims → Bool → ℕ → ServerRaw N → Done N → Done N × Option ℕ
  unfolding target settle_at
  settle c drop i raw st = settle_at drop i raw st (target c i)

  abbrev pub prepend : NodeRef → Carried N → Carried N
  prepend ref invalid_reference = invalid_reference
  prepend ref nil_server = nil_server
  prepend ref (carried refs st) = carried (ref ∷ refs) st

module _ {N : Type 0} (ops : ServerObj N) where
  abbrev pub same_url : N → N → Bool
  same_url old n = text_beq (ops.export_to_url n) (ops.export_to_url old)

  abbrev pub same_endpoint : N → N → Bool
  same_endpoint old n =
      text_beq (ops.protocol n) (ops.protocol old)
      && text_beq (ops.hostname n) (ops.hostname old)
      && eqb (ops.port n) (ops.port old)

  abbrev pub same_name : N → N → Bool
  same_name old n =
      not (is_empty (ops.name old))
      && text_beq (ops.name n) (ops.name old)
      && text_beq (ops.protocol n) (ops.protocol old)

  -- remapSubscriptionNodeDetailed: the index of the new node; the code adds one.
  unfoldable pub remap : Option N → List N → Match
  unfolding first_accepted sole_accepted
  remap none nodes = no_match
  remap (some old) nodes =
      in_order (first_accepted (same_url old) 0 nodes)
        (sole_accepted (same_endpoint old) none 0 nodes)
        (sole_accepted (same_name old) none 0 nodes)

  -- The first loop over the connected references.
  unfoldable pub claim_if_new : List N → ℕ → ServerRaw N → Claims → Option Match → Claims
  unfolding remap claim
  claim_if_new nodes i raw c none = claim i (remap raw.server_obj nodes) c
  claim_if_new nodes i raw c (some seen) = c

  unfoldable pub claim_ref : List N → Claims → Place N → Claims
  unfolding claim_if_new lookup
  claim_ref nodes c elsewhere = c
  claim_ref nodes c out_of_range = c
  claim_ref nodes c (old_server i raw) = claim_if_new nodes i raw c (lookup i c.mapped)

  unfoldable pub claim_all : ℕ → List (ServerRaw N) → List N → List NodeRef → Claims → Claims
  unfolding claim_ref place
  claim_all index old nodes [] c = c
  claim_all index old nodes (ref ∷ refs) c =
      claim_all index old nodes refs (claim_ref nodes c (place index old ref))

  -- Whether a reference changes for the core; `none` where the code asks a nil server for its URL.
  unfoldable pub changed : ℕ → ℕ → ServerRaw N → List (ServerRaw N) → Option Bool
  changed i j raw servers = if not (eqb j i) then some true else elim (get_elem? servers j) [
    | none ↦ none
    | some new ↦ elim new.server_obj [
      | none ↦ none
      | some n ↦ elim raw.server_obj [ none ↦ none | some o ↦ some (not (same_url o n)) ]
    ]
  ]

  -- A round of the second loop, `later` the rounds after it.
  unfoldable pub carry_changed :
      NodeRef → ℕ → Done N → (Done N → Carried N) → Option Bool → Carried N
  carry_changed ref j st later none = nil_server
  carry_changed ref j st later (some b) =
      prepend (record ref { id = pos (suc j) }) (later (record st { affected = st.affected || b }))

  unfoldable pub carry_settled :
      NodeRef → ℕ → ServerRaw N → (Done N → Carried N) → Done N × Option ℕ → Carried N
  unfolding carry_changed changed
  carry_settled ref i raw later (st, none) = later st
  carry_settled ref i raw later (st, some j) =
      carry_changed ref j st later (changed i j raw st.servers)

  unfoldable pub carry_ref :
      Claims → Bool → NodeRef → Done N → (Done N → Carried N) → Place N → Carried N
  unfolding settle carry_settled
  carry_ref c drop ref st later elsewhere = prepend ref (later st)
  carry_ref c drop ref st later out_of_range = invalid_reference
  carry_ref c drop ref st later (old_server i raw) =
      carry_settled ref i raw later (settle c drop i raw st)

  -- The second loop; `drop` is the test of `disconnect` and of AutoAdd of the group.
  unfoldable pub carry :
      ℕ → List (ServerRaw N) → Claims → (Text → Bool) → List NodeRef → Done N → Carried N
  unfolding carry_ref place
  carry index old c drop [] st = carried [] st
  carry index old c drop (ref ∷ refs) st =
      carry_ref c (drop ref.outbound) ref st (λ st'. carry index old c drop refs st')
        (place index old ref)

  -- storeSubscriptionUpdate: the new servers and references that it goes on to write.
  unfoldable pub remap_references :
      ℕ → List (ServerRaw N) → List N → (Text → Bool) → List NodeRef → Carried N
  unfolding claim_all carry downloaded
  remap_references index old nodes drop refs =
      let c = claim_all index old nodes refs (record { mapped = []; claimed = [] }) in
      carry index old c drop refs
        (record { servers = downloaded nodes; retained = []; affected = false })
