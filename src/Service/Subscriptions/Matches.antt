-- ===== src/Service/Subscriptions/Matches.antt =====
-- service/server/service/subscription.go: which new node stands for an old one.
use v2ray_a.Base.{
  ℕ, zero, suc, ◌+◌, ◌≡◌, ◌⊎◌, refl, ap, sym, ◌∙◌, subst, ◌==◌, Bool, true, false, Option, none,
  some, List, [], ◌∷◌, nat_eq, lookup, insert, lookup-insert, get_elem?, arith, Bool-cases, inl,
  inr,
}
use v2ray_a.Service.Nodes.{NodeRef}
use v2ray_a.Service.Subscriptions.{
  ServerObj, ServerRaw, same_url, same_endpoint, same_name, first_accepted, sole_accepted, Match,
  no_match, exact, fallback, in_order, remap, Claims, claim, claim_if_new, claim_ref, Place,
  elsewhere, out_of_range, old_server, place, claim_all,
}

module _ {N : Type 0} where
  -- The node at an index is accepted, and no other is.
  abbrev pub OnlyAt : (N → Bool) → List N → ℕ → Type 0
  OnlyAt accepts nodes j =
      (n : N) × (get_elem? nodes j ≡ some n)
      × (accepts n ≡ true)
      × ((k : ℕ) (m : N) → get_elem? nodes k ≡ some m → accepts m ≡ true → k ≡ j)

  -- Some node is accepted, `i` nodes having been passed before.
  abbrev HitFrom : (N → Bool) → List N → ℕ → ℕ → Type 0
  HitFrom accepts nodes i j =
      (k : ℕ) × (n : N) × (k + i ≡ j) × (get_elem? nodes k ≡ some n) × (accepts n ≡ true)

  first_accepted-some :
      (accepts : N → Bool) (nodes : List N) (i j : ℕ)
      → first_accepted accepts i nodes ≡ some j
      → HitFrom accepts nodes i j
  unfolding first_accepted
  first_accepted-some accepts [] i j h = absurd cc
  first_accepted-some accepts (n ∷ nodes) i j h = elim (Bool-cases (accepts n)) [
    | inl hit ↦ (zero, n, ground (arith, hit), refl, hit)
    | inr miss ↦
        let (k, m, at_j, found, ok) =
          first_accepted-some accepts nodes (suc i) j (ground (arith, miss)) in
        (suc k, m, omega (arith, at_j), found, ok)
  ]

  -- No node is accepted.
  abbrev pub NoneIn : (N → Bool) → List N → Type 0
  NoneIn accepts nodes = (k : ℕ) (m : N) → get_elem? nodes k ≡ some m → accepts m ≡ false

  NoneIn-cons :
      (accepts : N → Bool) (n : N) (nodes : List N)
      → accepts n ≡ false
      → NoneIn accepts nodes
      → NoneIn accepts (n ∷ nodes)
  NoneIn-cons accepts n nodes miss rest zero m e = ground (arith, miss, e)
  NoneIn-cons accepts n nodes miss rest (suc k) m e = rest k m e

  sole_accepted-found :
      (accepts : N → Bool) (nodes : List N) (found i j : ℕ)
      → sole_accepted accepts (some found) i nodes ≡ some j
      → (found ≡ j) × NoneIn accepts nodes
  unfolding sole_accepted
  sole_accepted-found accepts [] found i j h = (cc, λ k m e. absurd cc)
  sole_accepted-found accepts (n ∷ nodes) found i j h = elim (Bool-cases (accepts n)) [
    | inl hit ↦ absurd (ground (arith, hit))
    | inr miss ↦
        let (same, others) =
          sole_accepted-found accepts nodes found (suc i) j (ground (arith, miss)) in
        (same, NoneIn-cons accepts n nodes miss others)
  ]

  first_accepted-none :
      (accepts : N → Bool) (nodes : List N) (i : ℕ)
      → first_accepted accepts i nodes ≡ none
      → NoneIn accepts nodes
  unfolding first_accepted
  first_accepted-none accepts [] i h = λ k m e. absurd cc
  first_accepted-none accepts (n ∷ nodes) i h = elim (Bool-cases (accepts n)) [
    | inl hit ↦ absurd (ground (arith, hit))
    | inr miss ↦
        NoneIn-cons accepts n nodes miss
          (first_accepted-none accepts nodes (suc i) (ground (arith, miss)))
  ]

  abbrev OnlyFrom : (N → Bool) → List N → ℕ → ℕ → Type 0
  OnlyFrom accepts nodes i j =
      (k : ℕ) × (n : N) × (k + i ≡ j)
      × (get_elem? nodes k ≡ some n)
      × (accepts n ≡ true)
      × ((l : ℕ) (m : N) → get_elem? nodes l ≡ some m → accepts m ≡ true → l ≡ k)

  only_head :
      (accepts : N → Bool) (n : N) (nodes : List N)
      → NoneIn accepts nodes
      → (l : ℕ) (m : N) → get_elem? (n ∷ nodes) l ≡ some m
      → accepts m ≡ true
      → l ≡ zero
  only_head accepts n nodes others zero m e ok = refl
  only_head accepts n nodes others (suc l) m e ok = absurd (ground (arith, others l m e))

  only_later :
      (accepts : N → Bool) (n : N) (nodes : List N) (k : ℕ)
      → accepts n ≡ false
      → ((l : ℕ) (m : N) → get_elem? nodes l ≡ some m → accepts m ≡ true → l ≡ k)
      → (l : ℕ) (m : N) → get_elem? (n ∷ nodes) l ≡ some m
      → accepts m ≡ true
      → l ≡ suc k
  only_later accepts n nodes k miss sole zero m e ok = absurd (ground (arith, miss, e))
  only_later accepts n nodes k miss sole (suc l) m e ok = ap suc (sole l m e ok)

  sole_accepted-some :
      (accepts : N → Bool) (nodes : List N) (i j : ℕ)
      → sole_accepted accepts none i nodes ≡ some j
      → OnlyFrom accepts nodes i j
  unfolding sole_accepted
  sole_accepted-some accepts [] i j h = absurd cc
  sole_accepted-some accepts (n ∷ nodes) i j h = elim (Bool-cases (accepts n)) [
    | inl hit ↦
        let (same, others) = sole_accepted-found accepts nodes i (suc i) j (ground (arith, hit)) in
        (zero, n, omega (arith, same), refl, hit, only_head accepts n nodes others)
    | inr miss ↦
        let (k, m, at_j, found, ok, sole) =
          sole_accepted-some accepts nodes (suc i) j (ground (arith, miss)) in
        (suc k, m, omega (arith, at_j), found, ok, only_later accepts n nodes k miss sole)
  ]

module _ {N : Type 0} (ops : ServerObj N) where
  -- How a new node stands for an old one: it has the same URL, or it alone has the endpoint, or it
  -- alone has the name.
  abbrev pub Alike : N → List N → ℕ → Type 0
  Alike old nodes j =
      ((n : N) × (get_elem? nodes j ≡ some n) × (same_url ops old n ≡ true))
      ⊎ OnlyAt (same_endpoint ops old) nodes j
      ⊎ OnlyAt (same_name ops old) nodes j

  abbrev pub MatchIs : Option N → List N → Match → Type 0
  MatchIs none nodes no_match = Unit {0}
  MatchIs none nodes (exact j) = ⊥
  MatchIs none nodes (fallback j) = ⊥
  MatchIs (some old) nodes no_match = NoneIn (same_url ops old) nodes
  MatchIs (some old) nodes (exact j) = Alike old nodes j
  MatchIs (some old) nodes (fallback j) = Alike old nodes j × NoneIn (same_url ops old) nodes

  HitFrom-zero :
      (accepts : N → Bool) (nodes : List N) (j : ℕ)
      → HitFrom accepts nodes 0 j
      → (n : N) × (get_elem? nodes j ≡ some n) × (accepts n ≡ true)
  HitFrom-zero accepts nodes j (k, n, at_j, found, ok) =
      let same : k ≡ j = omega (arith, at_j) in (n, ap (get_elem? nodes) (sym same) ∙ found, ok)

  OnlyFrom-zero :
      (accepts : N → Bool) (nodes : List N) (j : ℕ)
      → OnlyFrom accepts nodes 0 j
      → OnlyAt accepts nodes j
  OnlyFrom-zero accepts nodes j (k, n, at_j, found, ok, sole) =
      let same : k ≡ j = omega (arith, at_j) in
      (n, ap (get_elem? nodes) (sym same) ∙ found, ok, λ l m e yes. sole l m e yes ∙ same)

  in_order-MatchIs :
      (old : N) (nodes : List N) (url endpoint by_name : Option ℕ)
      → first_accepted (same_url ops old) 0 nodes ≡ url
      → sole_accepted (same_endpoint ops old) none 0 nodes ≡ endpoint
      → sole_accepted (same_name ops old) none 0 nodes ≡ by_name
      → MatchIs (some old) nodes (in_order url endpoint by_name)
  in_order-MatchIs old nodes (some j) endpoint by_name u e m =
      inl (HitFrom-zero _ nodes j (first_accepted-some _ nodes 0 j u))
  in_order-MatchIs old nodes none (some j) by_name u e m = (
    inr (inl (OnlyFrom-zero _ nodes j (sole_accepted-some _ nodes 0 j e))),
    first_accepted-none _ nodes 0 u,
  )
  in_order-MatchIs old nodes none none (some j) u e m = (
    inr (inr (OnlyFrom-zero _ nodes j (sole_accepted-some _ nodes 0 j m))),
    first_accepted-none _ nodes 0 u,
  )
  in_order-MatchIs old nodes none none none u e m = first_accepted-none _ nodes 0 u

  remap-MatchIs : (raw : Option N) (nodes : List N) → MatchIs raw nodes (remap ops raw nodes)
  unfolding remap
  remap-MatchIs none nodes = tt
  remap-MatchIs (some old) nodes = in_order-MatchIs old nodes _ _ _ refl refl refl

  -- What the first loop has written down about the old servers.
  abbrev pub Mapped : List (ServerRaw N) → List N → Claims → Type 0
  Mapped old nodes c =
      (i : ℕ) (m : Match)
      → lookup i c.mapped ≡ some m
      → (raw : ServerRaw N) × (get_elem? old i ≡ some raw) × MatchIs raw.server_obj nodes m

  pub claim-lookup :
      (i k : ℕ) (m : Match) (c : Claims)
      → lookup k (claim i m c).mapped ≡ lookup k (insert i m c.mapped)
  unfolding claim
  claim-lookup i k no_match c = refl
  claim-lookup i k (exact j) c = refl
  claim-lookup i k (fallback j) c = refl

  claim-Mapped :
      (old : List (ServerRaw N)) (nodes : List N) (i : ℕ) (raw : ServerRaw N) (c : Claims)
      → get_elem? old i ≡ some raw
      → Mapped old nodes c
      → Mapped old nodes (claim i (remap ops raw.server_obj nodes) c)
  claim-Mapped old nodes i raw c here h k m found =
      let new = remap ops raw.server_obj nodes in
      let stored = sym (claim-lookup i k new c ∙ lookup-insert i k new c.mapped) ∙ found in
      elim (Bool-cases (i == k)) [
        | inl same ↦
            let at_k : i ≡ k = ground (arith, same) in
            let is_new : new ≡ m = ground (arith, stored, same) in
            (
              raw,
              ap (get_elem? old) (sym at_k) ∙ here,
              subst (MatchIs raw.server_obj nodes) is_new (remap-MatchIs raw.server_obj nodes),
            )
        | inr other ↦ h k m (ground (arith, stored, other))
      ]

  claim_if_new-Mapped :
      (old : List (ServerRaw N)) (nodes : List N) (i : ℕ) (raw : ServerRaw N) (c : Claims)
      (seen : Option Match)
      → get_elem? old i ≡ some raw
      → Mapped old nodes c
      → Mapped old nodes (claim_if_new ops nodes i raw c seen)
  unfolding claim_if_new
  claim_if_new-Mapped old nodes i raw c none here h = claim-Mapped old nodes i raw c here h
  claim_if_new-Mapped old nodes i raw c (some m) here h = h

  -- An old server in its place.
  abbrev pub InPlace : List (ServerRaw N) → Place N → Type 0
  InPlace old elsewhere = Unit {0}
  InPlace old out_of_range = Unit {0}
  InPlace old (old_server i raw) = get_elem? old i ≡ some raw

  pub place-InPlace :
      (index : ℕ) (old : List (ServerRaw N)) (ref : NodeRef) → InPlace old (place index old ref)
  unfolding place
  place-InPlace index old ref = ground arith

  claim_ref-Mapped :
      (old : List (ServerRaw N)) (nodes : List N) (c : Claims) (at_ : Place N)
      → InPlace old at_
      → Mapped old nodes c
      → Mapped old nodes (claim_ref ops nodes c at_)
  unfolding claim_ref
  claim_ref-Mapped old nodes c elsewhere here h = h
  claim_ref-Mapped old nodes c out_of_range here h = h
  claim_ref-Mapped old nodes c (old_server i raw) here h =
      claim_if_new-Mapped old nodes i raw c (lookup i c.mapped) here h

  pub claim_all-Mapped :
      (index : ℕ) (old : List (ServerRaw N)) (nodes : List N) (refs : List NodeRef) (c : Claims)
      → Mapped old nodes c
      → Mapped old nodes (claim_all ops index old nodes refs c)
  unfolding claim_all
  claim_all-Mapped index old nodes [] c h = h
  claim_all-Mapped index old nodes (ref ∷ refs) c h =
      claim_all-Mapped index old nodes refs _
        (claim_ref-Mapped old nodes c (place index old ref) (place-InPlace index old ref) h)
