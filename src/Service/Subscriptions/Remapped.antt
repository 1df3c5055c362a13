-- ===== src/Service/Subscriptions/Remapped.antt =====
-- service/server/service/subscription.go: the references after an update.
use v2ray_a.Base.{
  ℕ, suc, ◌≡◌, ◌≢◌, ◌⊎◌, refl, ap, sym, ◌∙◌, subst, Bool, true, false, ◌||◌, Option, none, some,
  List, [], ◌∷◌, ◌++◌, append-nil, append_assoc, Text, nat_eq, lookup, get_elem?, inl, inr, All,
  pos,
}
use v2ray_a.Service.Nodes.{NodeRef}
use v2ray_a.Service.Subscriptions.{
  ServerObj, ServerRaw, Claims, Place, elsewhere, out_of_range, old_server, place, Done, downloaded,
  Carried, carried, prepend, carry_changed, carry_settled, carry_ref, carry, claim_all,
  remap_references,
}
use v2ray_a.Service.Subscriptions.Matches.{Mapped, InPlace, place-InPlace, claim_all-Mapped}
use v2ray_a.Service.Subscriptions.Covered.{seen, Covered, claim_all-All}
use v2ray_a.Service.Subscriptions.Settled.{
  Gone, Stands, Sound, Grows, Settled, settle-Sound, Stands-append, changed-some,
}

module _ {N : Type 0} (ops : ServerObj N) (index : ℕ) (old : List (ServerRaw N)) (nodes : List N)
    (drop : Text → Bool) where
  -- A reference is lost: its group allows it, and no new node has the URL of its server.
  abbrev pub Lost : NodeRef → Type 0
  Lost ref =
      (i : ℕ) × (raw : ServerRaw N) × (place index old ref ≡ old_server i raw)
      × (drop ref.outbound ≡ true)
      × Gone ops old nodes raw

  -- It is kept: as it was, where it refers to another subscription or to a server, or with the
  -- number of a server that stands for its own.
  abbrev pub Kept : List (ServerRaw N) → NodeRef → NodeRef → Type 0
  Kept servers ref ref' =
      ((place index old ref ≡ elsewhere) × (ref' ≡ ref))
      ⊎ ((i : ℕ) × (raw : ServerRaw N) × (j : ℕ) × (place index old ref ≡ old_server i raw)
          × (ref' ≡ record ref { id = pos (suc j) })
          × Stands ops old nodes raw servers j)

  -- Each reference is lost or kept, in order.
  abbrev pub Carries : List (ServerRaw N) → List NodeRef → List NodeRef → Type 0
  Carries servers [] refs' = refs' ≡ []
  Carries servers (ref ∷ refs) refs' =
      (Lost ref × Carries servers refs refs')
      ⊎ ((ref' : NodeRef) × (rest : List NodeRef) × (refs' ≡ ref' ∷ rest)
          × Kept servers ref ref'
          × Carries servers refs rest)

  abbrev InRange : NodeRef → Type 0
  InRange ref = place index old ref ≢ out_of_range

  -- What the loop gives from a state on.
  abbrev Result : List (ServerRaw N) → List NodeRef → Carried N → Type 0
  Result before refs result =
      (refs' : List NodeRef) × (st : Done N) × (result ≡ carried refs' st)
      × Grows ops old nodes before st.servers
      × Carries st.servers refs refs'

  module _ (c : Claims) (mapped : Mapped ops old nodes c)
      (non_nil : (i : ℕ) (raw : ServerRaw N)
        → get_elem? old i ≡ some raw
        → (o : N) × (raw.server_obj ≡ some o)) where
    prepend-kept :
        (ref ref' : NodeRef) (refs : List NodeRef) (before : List (ServerRaw N)) (later : Carried N)
        → Result before refs later
        → ((st : Done N) → Grows ops old nodes before st.servers → Kept st.servers ref ref')
        → Result before (ref ∷ refs) (prepend ref' later)
    prepend-kept ref ref' refs before later (refs', st, is, grows, carries) keeps = (
      ref' ∷ refs',
      st,
      ap (prepend ref') is,
      grows,
      inr (ref', refs', refl, keeps st grows, carries),
    )

    grow_from :
        (before between : List (ServerRaw N)) (refs : List NodeRef) (result : Carried N)
        → Grows ops old nodes before between
        → Result between refs result
        → Result before refs result
    grow_from before between refs result (more, first) (refs', st, is, (more', later), carries) = (
      refs',
      st,
      is,
      (more ++ more', later ∙ ap (λ l. l ++ more') first ∙ append_assoc before more more'),
      carries,
    )

    Stands-Grows :
        (raw : ServerRaw N) (before after : List (ServerRaw N)) (j : ℕ)
        → Grows ops old nodes before after
        → Stands ops old nodes raw before j
        → Stands ops old nodes raw after j
    Stands-Grows raw before after j (more, is) stands =
        subst (λ l. Stands ops old nodes raw l j) (sym is)
          (Stands-append ops old nodes raw before more j stands)

    carry_settled-Result :
        (ref : NodeRef) (refs : List NodeRef) (i : ℕ) (raw : ServerRaw N)
        (before : List (ServerRaw N)) (st : Done N) (to : Option ℕ) (later : Done N → Carried N)
        → place index old ref ≡ old_server i raw
        → get_elem? old i ≡ some raw
        → Sound ops old nodes st
          × Grows ops old nodes before st.servers
          × Settled ops old nodes raw (drop ref.outbound) st.servers to
        → ((st' : Done N) → Sound ops old nodes st' → Result st'.servers refs (later st'))
        → Result before (ref ∷ refs) (carry_settled ops ref i raw later (st, to))
    unfolding carry_settled carry_changed
    carry_settled-Result ref refs i raw before st none later is here (sound, grows, (may, gone)) k =
        let (refs', fin, same, grown, carries) =
          grow_from before st.servers refs (later st) grows (k st sound) in
        (refs', fin, same, grown, inl ((i, raw, is, may, gone), carries))
    carry_settled-Result ref refs i raw before st (some j) later is here (sound, grows, stands) k =
        let (o, is_o) = non_nil i raw here in
        let (b, compared) = changed-some ops old nodes i j raw st.servers o is_o stands in
        let st' = record st { affected = st.affected || b } in
        rw compared (
          grow_from before st.servers (ref ∷ refs) _ grows (
            prepend-kept ref (record ref { id = pos (suc j) }) refs st.servers (later st')
              (k st' sound)
              λ fin grown.
                inr (i, raw, j, is, refl, Stands-Grows raw st.servers fin.servers j grown stands)))

    carry_ref-Result :
        (ref : NodeRef) (refs : List NodeRef) (st : Done N) (later : Done N → Carried N)
        (at_ : Place N)
        → place index old ref ≡ at_
        → at_ ≢ out_of_range
        → Covered ops c at_
        → InPlace ops old at_
        → Sound ops old nodes st
        → ((st' : Done N) → Sound ops old nodes st' → Result st'.servers refs (later st'))
        → Result st.servers (ref ∷ refs) (carry_ref ops c (drop ref.outbound) ref st later at_)
    unfolding carry_ref
    carry_ref-Result ref refs st later elsewhere is in_range covered here sound k =
        prepend-kept ref ref refs st.servers (later st) (k st sound) λ st' grows. inl (is, refl)
    carry_ref-Result ref refs st later out_of_range is in_range covered here sound k =
        absurd (in_range refl)
    carry_ref-Result ref refs st later (old_server i raw) is in_range covered here sound k =
        carry_settled-Result ref refs i raw st.servers _ _ later is here
          (settle-Sound ops old nodes c (drop ref.outbound) i raw st mapped covered here sound) k

    carry-Result :
        (refs : List NodeRef) (st : Done N)
        → All InRange refs
        → All (λ ref. Covered ops c (place index old ref)) refs
        → Sound ops old nodes st
        → Result st.servers refs (carry ops index old c drop refs st)
    unfolding carry
    carry-Result [] st ranged covered sound =
        ([], st, refl, ([], sym (append-nil st.servers)), refl)
    carry-Result (ref ∷ refs) st (in_range, ranged) (seen, covered) sound =
        carry_ref-Result ref refs st (λ st'. carry ops index old c drop refs st')
          (place index old ref) refl in_range seen (place-InPlace ops index old ref) sound
          λ st' sound'. carry-Result refs st' ranged covered sound'

-- Where every connected reference to the subscription is in range and no old server is nil: the
-- update comes to a result, without an error and without asking a nil server. The new servers are the
-- downloaded nodes, and possibly others behind them. Each reference is, in order, kept or lost. It is
-- lost only where its group allows that and no downloaded node has the URL of its server. It is kept as
-- it was if it refers elsewhere, and else refers to a new server: a downloaded node with the URL of
-- its old server, or the only one with its endpoint, or the only one with its name, or the old server
-- itself, if no downloaded node has its URL.
pub remap_references-Carries :
    {N : Type 0} (ops : ServerObj N) (index : ℕ) (old : List (ServerRaw N)) (nodes : List N)
    (drop : Text → Bool) (refs : List NodeRef)
    → ((i : ℕ) (raw : ServerRaw N)
        → get_elem? old i ≡ some raw
        → (o : N) × (raw.server_obj ≡ some o))
    → All (λ ref. place index old ref ≢ out_of_range) refs
    → (refs' : List NodeRef) × (st : Done N) × (remap_references ops index old nodes drop refs
        ≡ carried refs' st)
      × ((more : List (ServerRaw N)) × (st.servers ≡ downloaded nodes ++ more))
      × Carries ops index old nodes drop st.servers refs refs'
unfolding remap_references lookup
remap_references-Carries ops index old nodes drop refs non_nil ranged =
    let none_yet : Claims = record { mapped = []; claimed = [] } in
    let c = claim_all ops index old nodes refs none_yet in
    let mapped = claim_all-Mapped ops index old nodes refs none_yet (λ i m h. absurd cc) in
    carry-Result ops index old nodes drop c mapped non_nil refs
      (record { servers = downloaded nodes; retained = []; affected = false }) ranged
      (claim_all-All ops index old nodes refs none_yet)
      (([], sym (append-nil (downloaded nodes))), λ i j h. absurd cc)
