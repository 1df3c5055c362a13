-- ===== src/Service/Subscriptions/Covered.antt =====
-- service/server/service/subscription.go: the first loop passes over every reference.
use v2ray_a.Base.{
  ℕ, ◌≡◌, refl, ◌∙◌, Bool, true, Option, none, some, List, [], ◌∷◌, nat_eq, lookup, lookup-insert,
  arith, All,
}
use v2ray_a.Service.Nodes.{NodeRef, is_some}
use v2ray_a.Service.Subscriptions.{
  ServerObj, ServerRaw, Match, Claims, claim, claim_if_new, claim_ref, Place, elsewhere,
  out_of_range, old_server, place, claim_all,
}
use v2ray_a.Service.Subscriptions.Matches.{claim-lookup}

-- An old server that the loop has written down.
unfoldable pub seen : ℕ → Claims → Bool
unfolding lookup
seen i c = is_some (lookup i c.mapped)

module _ {N : Type 0} (ops : ServerObj N) where
  abbrev pub Covered : Claims → Place N → Type 0
  Covered c elsewhere = Unit {0}
  Covered c out_of_range = Unit {0}
  Covered c (old_server i raw) = seen i c ≡ true

  claim-seen : (i k : ℕ) (m : Match) (c : Claims) → seen k c ≡ true → seen k (claim i m c) ≡ true
  unfolding seen
  claim-seen i k m c h =
      rw (claim-lookup ops i k m c ∙ lookup-insert i k m c.mapped) (ground (arith, h))

  claim-seen_self : (i : ℕ) (m : Match) (c : Claims) → seen i (claim i m c) ≡ true
  unfolding seen
  claim-seen_self i m c =
      rw (claim-lookup ops i i m c ∙ lookup-insert i i m c.mapped) (ground arith)

  claim_if_new-seen :
      (nodes : List N) (i k : ℕ) (raw : ServerRaw N) (c : Claims) (o : Option Match)
      → seen k c ≡ true
      → seen k (claim_if_new ops nodes i raw c o) ≡ true
  unfolding claim_if_new
  claim_if_new-seen nodes i k raw c none h = claim-seen i k _ c h
  claim_if_new-seen nodes i k raw c (some m) h = h

  claim_ref-seen :
      (nodes : List N) (k : ℕ) (c : Claims) (at_ : Place N)
      → seen k c ≡ true
      → seen k (claim_ref ops nodes c at_) ≡ true
  unfolding claim_ref
  claim_ref-seen nodes k c elsewhere h = h
  claim_ref-seen nodes k c out_of_range h = h
  claim_ref-seen nodes k c (old_server i raw) h = claim_if_new-seen nodes i k raw c _ h

  claim_all-seen :
      (index : ℕ) (old : List (ServerRaw N)) (nodes : List N) (refs : List NodeRef) (k : ℕ)
      (c : Claims)
      → seen k c ≡ true
      → seen k (claim_all ops index old nodes refs c) ≡ true
  unfolding claim_all
  claim_all-seen index old nodes [] k c h = h
  claim_all-seen index old nodes (ref ∷ refs) k c h =
      claim_all-seen index old nodes refs k _ (claim_ref-seen nodes k c (place index old ref) h)

  seen_now :
      (nodes : List N) (i : ℕ) (raw : ServerRaw N) (c : Claims) (o : Option Match)
      → lookup i c.mapped ≡ o
      → seen i (claim_if_new ops nodes i raw c o) ≡ true
  unfolding claim_if_new seen
  seen_now nodes i raw c none e = claim-seen_self i _ c
  seen_now nodes i raw c (some m) e = rw e refl

  claim_ref-Covered :
      (nodes : List N) (c : Claims) (at_ : Place N) → Covered (claim_ref ops nodes c at_) at_
  unfolding claim_ref
  claim_ref-Covered nodes c elsewhere = tt
  claim_ref-Covered nodes c out_of_range = tt
  claim_ref-Covered nodes c (old_server i raw) = seen_now nodes i raw c _ refl

  claim_all-Covered :
      (index : ℕ) (old : List (ServerRaw N)) (nodes : List N) (refs : List NodeRef) (c : Claims)
      (at_ : Place N)
      → Covered c at_
      → Covered (claim_all ops index old nodes refs c) at_
  claim_all-Covered index old nodes refs c elsewhere h = tt
  claim_all-Covered index old nodes refs c out_of_range h = tt
  claim_all-Covered index old nodes refs c (old_server i raw) h =
      claim_all-seen index old nodes refs i c h

  -- After the loop, every old server that a reference names is written down.
  pub claim_all-All :
      (index : ℕ) (old : List (ServerRaw N)) (nodes : List N) (refs : List NodeRef) (c : Claims)
      → All (λ ref. Covered (claim_all ops index old nodes refs c) (place index old ref)) refs
  unfolding claim_all
  claim_all-All index old nodes [] c = tt
  claim_all-All index old nodes (ref ∷ refs) c = (
    claim_all-Covered index old nodes refs _ (place index old ref)
        (claim_ref-Covered nodes c (place index old ref)),
    claim_all-All index old nodes refs (claim_ref ops nodes c (place index old ref)),
  )
