-- ===== src/Service/Subscriptions/Settled.antt =====
-- service/server/service/subscription.go: one reference of the second loop.
use v2ray_a.Base.{
  ℕ, zero, suc, ◌≡◌, ◌⊎◌, refl, ap, sym, ◌∙◌, subst, ◌==◌, Bool, true, false, not, Option, none,
  some, List, [], ◌∷◌, ◌++◌, append-nil, append_assoc, nat_eq, eqb, lookup, lookup-insert,
  get_elem?, length, arith, Option-cases, Bool-cases, inl, inr,
}
use v2ray_a.Service.Subscriptions.{
  ServerObj, ServerRaw, same_url, Match, no_match, exact, fallback, Claims, usable, target, Done,
  retain, settle_at, settle, of_downloaded, downloaded, changed,
}
use v2ray_a.Service.Subscriptions.Matches.{Alike, MatchIs, Mapped, NoneIn}
use v2ray_a.Service.Subscriptions.Covered.{seen}

module _ {A : Type 0} where
  get-append :
      (xs ys : List A) (i : ℕ) (x : A) → get_elem? xs i ≡ some x → get_elem? (xs ++ ys) i ≡ some x
  get-append [] ys i x h = absurd cc
  get-append (y ∷ xs) ys zero x h = h
  get-append (y ∷ xs) ys (suc i) x h = get-append xs ys i x h

  get-last : (xs : List A) (x : A) → get_elem? (xs ++ (x ∷ [])) (length xs) ≡ some x
  get-last [] x = refl
  get-last (y ∷ xs) x = get-last xs x

module _ {N : Type 0} (ops : ServerObj N) (old : List (ServerRaw N)) (nodes : List N) where
  get-downloaded :
      (ns : List N) (j : ℕ) (n : N)
      → get_elem? ns j ≡ some n
      → get_elem? (downloaded ns) j ≡ some (of_downloaded n)
  unfolding downloaded
  get-downloaded [] j n h = absurd cc
  get-downloaded (m ∷ ns) zero n h = ground (arith, h)
  get-downloaded (m ∷ ns) (suc j) n h = get-downloaded ns j n h

  -- No new node has the URL of the old server.
  abbrev pub GoneNode : Option N → Type 0
  GoneNode none = Unit {0}
  GoneNode (some o) = NoneIn (same_url ops o) nodes

  abbrev pub Gone : ServerRaw N → Type 0
  Gone raw = GoneNode raw.server_obj

  -- What a reference to an old server now stands for: a new node that is like it, or the old server
  -- itself, kept since no new node has its URL.
  abbrev pub Stands : ServerRaw N → List (ServerRaw N) → ℕ → Type 0
  Stands raw servers j =
      ((get_elem? servers j ≡ some raw) × Gone raw)
      ⊎ ((o : N) × (n : N) × (raw.server_obj ≡ some o)
          × (get_elem? servers j ≡ some (of_downloaded n))
          × (get_elem? nodes j ≡ some n)
          × Alike ops o nodes j)

  -- The state of the loop: the new nodes come first, and what is kept is where it is said to be.
  abbrev pub Sound : Done N → Type 0
  Sound st =
      ((more : List (ServerRaw N)) × (st.servers ≡ downloaded nodes ++ more))
      × ((i j : ℕ)
          → lookup i st.retained ≡ some j
          → (raw : ServerRaw N) × (get_elem? old i ≡ some raw)
            × (get_elem? st.servers j ≡ some raw))

  usable-Alike :
      (obj : Option N) (m : Match) (claimed : List (ℕ × ℕ)) (j : ℕ)
      → MatchIs ops obj nodes m
      → usable claimed (some m) ≡ some j
      → (o : N) × (obj ≡ some o) × Alike ops o nodes j
  unfolding usable
  usable-Alike none no_match claimed j is h = absurd cc
  usable-Alike none (exact k) claimed j is h = absurd is
  usable-Alike none (fallback k) claimed j is h = absurd is
  usable-Alike (some o) no_match claimed j is h = absurd cc
  usable-Alike (some o) (exact k) claimed j is h =
      let same : k ≡ j = cc in (o, refl, subst (Alike ops o nodes) same is)
  usable-Alike (some o) (fallback k) claimed j is h =
      let same : k ≡ j = ground (arith, h) in (o, refl, subst (Alike ops o nodes) same is.0)

  usable-Gone :
      (raw : ServerRaw N) (m : Match) (claimed : List (ℕ × ℕ))
      → MatchIs ops raw.server_obj nodes m
      → usable claimed (some m) ≡ none
      → Gone raw
  unfolding usable
  usable-Gone raw m claimed is h = go raw.server_obj m is h
    where
      go :
          (obj : Option N) (m : Match)
          → MatchIs ops obj nodes m
          → usable claimed (some m) ≡ none
          → GoneNode obj
      go none m is h = tt
      go (some o) no_match is h = is
      go (some o) (exact k) is h = absurd cc
      go (some o) (fallback k) is h = is.1

  MatchIs-at :
      (c : Claims) (i : ℕ) (raw : ServerRaw N) (m : Match)
      → Mapped ops old nodes c
      → get_elem? old i ≡ some raw
      → lookup i c.mapped ≡ some m
      → MatchIs ops raw.server_obj nodes m
  MatchIs-at c i raw m mapped here found =
      let (raw', here', is) = mapped i m found in
      let same : raw' ≡ raw = cc in
      subst (λ (r : ServerRaw N). MatchIs ops r.server_obj nodes m) same is

  target-Alike :
      (c : Claims) (i j : ℕ) (raw : ServerRaw N)
      → Mapped ops old nodes c
      → get_elem? old i ≡ some raw
      → target c i ≡ some j
      → (o : N) × (raw.server_obj ≡ some o) × Alike ops o nodes j
  unfolding target usable
  target-Alike c i j raw mapped here found = elim (Option-cases (lookup i c.mapped)) [
    | inl absent ↦ absurd (ground (arith, found, absent))
    | inr (m, known) ↦
        usable-Alike raw.server_obj m c.claimed j (MatchIs-at c i raw m mapped here known)
          (ap (usable c.claimed) (sym known) ∙ found)
  ]

  target-Gone :
      (c : Claims) (i : ℕ) (raw : ServerRaw N)
      → Mapped ops old nodes c
      → seen i c ≡ true
      → get_elem? old i ≡ some raw
      → target c i ≡ none
      → Gone raw
  unfolding target usable seen
  target-Gone c i raw mapped covered here gone = elim (Option-cases (lookup i c.mapped)) [
    | inl absent ↦ absurd (ground (arith, covered, absent))
    | inr (m, known) ↦
        usable-Gone raw m c.claimed (MatchIs-at c i raw m mapped here known)
          (ap (usable c.claimed) (sym known) ∙ gone)
  ]

  abbrev pub Grows : List (ServerRaw N) → List (ServerRaw N) → Type 0
  Grows before after = (more : List (ServerRaw N)) × (after ≡ before ++ more)

  abbrev pub Settled : ServerRaw N → Bool → List (ServerRaw N) → Option ℕ → Type 0
  Settled raw drop servers none = (drop ≡ true) × Gone raw
  Settled raw drop servers (some j) = Stands raw servers j

  retain-Sound :
      (i : ℕ) (raw : ServerRaw N) (st : Done N) (o : Option ℕ)
      → get_elem? old i ≡ some raw
      → Gone raw
      → lookup i st.retained ≡ o
      → Sound st
      → let (st', to) = retain i raw st o in
        Sound st' × Grows st.servers st'.servers × Settled raw false st'.servers to
  unfolding retain
  retain-Sound i raw st (some j) here gone known (first, kept) =
      let (raw', here', there) = kept i j known in
      let same : raw' ≡ raw = cc in
      ((first, kept), ([], sym (append-nil st.servers)), inl (there ∙ ap some same, gone))
  retain-Sound i raw st none here gone known ((more, first), kept) =
      let placed = get-last st.servers raw in
      (
        (
          (
            more ++ (raw ∷ []),
            ap (λ l. l ++ (raw ∷ [])) first ∙ append_assoc (downloaded nodes) more (raw ∷ []),
          ),
          λ k j found. elim (Bool-cases (i == k)) [
            | inl same ↦
                let at_k : i ≡ k = ground (arith, same) in
                let stored = sym (lookup-insert i k (length st.servers) st.retained) ∙ found in
                let at_j : length st.servers ≡ j = ground (arith, stored, same) in
                (
                  raw,
                  ap (get_elem? old) (sym at_k) ∙ here,
                  ap (get_elem? (st.servers ++ (raw ∷ []))) (sym at_j) ∙ placed,
                )
            | inr other ↦
                let stored = sym (lookup-insert i k (length st.servers) st.retained) ∙ found in
                let (raw', here', there) = kept k j (ground (arith, stored, other)) in
                (raw', here', get-append st.servers (raw ∷ []) j raw' there)
          ],
        ),
        (raw ∷ [], refl),
        inl (placed, gone),
      )

  Alike-get : (o : N) (j : ℕ) → Alike ops o nodes j → (n : N) × (get_elem? nodes j ≡ some n)
  Alike-get o j (inl (n, found, ok)) = (n, found)
  Alike-get o j (inr (inl (n, found, ok, sole))) = (n, found)
  Alike-get o j (inr (inr (n, found, ok, sole))) = (n, found)

  settle_at-Sound :
      (c : Claims) (drop : Bool) (i : ℕ) (raw : ServerRaw N) (st : Done N) (o : Option ℕ)
      → Mapped ops old nodes c
      → seen i c ≡ true
      → get_elem? old i ≡ some raw
      → target c i ≡ o
      → Sound st
      → let (st', to) = settle_at drop i raw st o in
        Sound st' × Grows st.servers st'.servers × Settled raw drop st'.servers to
  unfolding settle_at
  settle_at-Sound c drop i raw st (some j) mapped covered here found ((more, first), kept) =
      let (o, is_o, alike) = target-Alike c i j raw mapped here found in
      let (n, new) = Alike-get o j alike in
      let among =
        ap (λ l. get_elem? l j) first
        ∙ get-append (downloaded nodes) more j (of_downloaded n) (get-downloaded nodes j n new) in
      (
        ((more, first), kept),
        ([], sym (append-nil st.servers)),
        inr (o, n, is_o, among, new, alike),
      )
  settle_at-Sound c true i raw st none mapped covered here found sound = (
    sound,
    ([], sym (append-nil st.servers)),
    (refl, target-Gone c i raw mapped covered here found),
  )
  settle_at-Sound c false i raw st none mapped covered here found sound =
      retain-Sound i raw st (lookup i st.retained) here
        (target-Gone c i raw mapped covered here found) refl sound

  pub settle-Sound :
      (c : Claims) (drop : Bool) (i : ℕ) (raw : ServerRaw N) (st : Done N)
      → Mapped ops old nodes c
      → seen i c ≡ true
      → get_elem? old i ≡ some raw
      → Sound st
      → let (st', to) = settle c drop i raw st in
        Sound st' × Grows st.servers st'.servers × Settled raw drop st'.servers to
  unfolding settle
  settle-Sound c drop i raw st mapped covered here sound =
      settle_at-Sound c drop i raw st (target c i) mapped covered here refl sound

  pub Stands-append :
      (raw : ServerRaw N) (servers more : List (ServerRaw N)) (j : ℕ)
      → Stands raw servers j
      → Stands raw (servers ++ more) j
  Stands-append raw servers more j (inl (there, gone)) =
      inl (get-append servers more j raw there, gone)
  Stands-append raw servers more j (inr (o, n, is_o, there, new, alike)) =
      inr (o, n, is_o, get-append servers more j (of_downloaded n) there, new, alike)

  -- Where the servers are not nil, the code's comparison of URLs comes to a result.
  pub changed-some :
      (i j : ℕ) (raw : ServerRaw N) (servers : List (ServerRaw N)) (o : N)
      → raw.server_obj ≡ some o
      → Stands raw servers j
      → (b : Bool) × (changed ops i j raw servers ≡ some b)
  unfolding changed
  changed-some i j raw servers o is_o (inl (there, gone)) = elim (Bool-cases (eqb j i)) [
    | inl same ↦ (not (same_url ops o o), simp (same, there, is_o) refl)
    | inr other ↦ (true, rw other refl)
  ]
  changed-some i j raw servers o is_o (inr (o', n, is_o', there, new, alike)) =
      elim (Bool-cases (eqb j i)) [
        | inl same ↦ (not (same_url ops o n), simp (same, there, is_o) refl)
        | inr other ↦ (true, rw other refl)
      ]
