-- ===== src/Dns/Cache/Index.antt =====
-- core/dns/cache.go keeps a map from keys to list elements beside the list. That the two agree,
-- and how each change of both keeps them so.
use v2ray_a.Base.{
  ℕ, suc, ◌≡◌, refl, false, none, some, List, [], ◌∷◌, Eq, eqb, length, arith, ap, Option-cases,
  inl, inr, lookup, insert, delete, lookup-insert, lookup-delete, ◌⊎◌, sym, ◌∙◌, ◌++◌,
}
use v2ray_a.Dns.Cache.Lru.{
  value, remove, update, back, values, find, position, Distinct, value-find, key-find, find-lt,
  value_above, Distinct-suc, remove-Distinct, value-remove_self, find-remove,
}

module _ {ℓ κ} {K : Type ℓ} {V : Type κ} ⦃e : Eq K⦄ (key : V → K) where
  pub record Agree (n : ℕ) (m : List (K × ℕ)) (l : List (ℕ × V)) : Type (ℓ ⊔ κ) where
    pub distinct : Distinct key n l
    pub indexed : (k : K) → lookup k m ≡ position key k l

  -- What a lookup of a key gives: nothing, or the element of the value with that key.
  abbrev pub Locates : K → List (K × ℕ) → List (ℕ × V) → Type (ℓ ⊔ κ)
  Locates k m l =
      ((lookup k m ≡ none) × (find key k l ≡ none))
      ⊎ ((i : ℕ) × (v : V) × (lookup k m ≡ some i)
          × (find key k l ≡ some (i, v))
          × (value i l ≡ some v)
          × (key v ≡ k))

  pub locate : (n : ℕ) (k : K) (m : List (K × ℕ)) (l : List (ℕ × V)) → Agree n m l → Locates k m l
  locate n k m l g = elim (Option-cases (find key k l)) [
    | inl absent ↦ inl (ground (arith, g.indexed k), absent)
    | inr ((i, v), found) ↦ inr (
      i,
      v,
      ground (arith, g.indexed k),
      found,
      value-find key n k l i v g.distinct found,
      key-find key k l i v found,
    )
  ]

  -- The value of a key leaves the list, and the key the map.
  pub delete-Agree :
      (n : ℕ) (k : K) (m : List (K × ℕ)) (l : List (ℕ × V)) (i : ℕ) (v : V)
      → Agree n m l
      → find key k l ≡ some (i, v)
      → Agree n (delete k m) (remove i l)
  delete-Agree n k m l i v g h = record {
    distinct = remove-Distinct key n i l g.distinct;
    indexed = λ q.
        ground (arith, lookup-delete k q m, find-remove key n k q l i v g.distinct h, g.indexed q);
  }

  -- The value of a key moves to the front, and may change.
  pub front-Agree :
      (n : ℕ) (k : K) (m : List (K × ℕ)) (l : List (ℕ × V)) (i : ℕ) (v w : V)
      → Agree n m l
      → find key k l ≡ some (i, v)
      → key w ≡ k
      → Agree n m ((i, w) ∷ remove i l)
  unfolding find
  front-Agree n k m l i v w g h p = record {
    distinct = (
      find-lt key n k l i v g.distinct h,
      value-remove_self key n i l g.distinct,
      ground (arith, find-remove key n k (key w) l i v g.distinct h, e.beq_iff k (key w)),
      remove-Distinct key n i l g.distinct,
    );
    indexed = λ q. ground (
      arith,
      find-remove key n k q l i v g.distinct h,
      g.indexed q,
      e.beq_iff k q,
      e.beq_iff (key w) q,
    );
  }

  -- A new key takes a new element at the front.
  pub push-Agree :
      (n : ℕ) (k : K) (m : List (K × ℕ)) (l : List (ℕ × V)) (w : V)
      → Agree n m l
      → find key k l ≡ none
      → key w ≡ k
      → Agree (suc n) (insert k n m) ((n, w) ∷ l)
  unfolding find
  push-Agree n k m l w g h p = record {
    distinct = (
      ground arith,
      value_above key n n l g.distinct (ground arith),
      ground arith,
      Distinct-suc key n l g.distinct,
    );
    indexed =
        λ q. ground (arith, lookup-insert k q n m, g.indexed q, e.beq_iff k q, e.beq_iff (key w) q);
  }

  module _ (f : V → V) (keeps : (v : V) → key (f v) ≡ key v) where
    pub value-update-none :
        (i j : ℕ) (l : List (ℕ × V)) → value j l ≡ none → value j (update i f l) ≡ none
    unfolding value update
    value-update-none i j [] h = refl
    value-update-none i j ((m, w) ∷ l) h = ground (arith, value-update-none i j l)

    pub position-update :
        (i : ℕ) (k : K) (l : List (ℕ × V)) → position key k (update i f l) ≡ position key k l
    unfolding find update
    position-update i k [] = refl
    position-update i k ((m, w) ∷ l) = ground (arith, keeps w, position-update i k l)

    pub find-update-none :
        (i : ℕ) (k : K) (l : List (ℕ × V)) → find key k l ≡ none → find key k (update i f l) ≡ none
    unfolding find update
    find-update-none i k [] h = refl
    find-update-none i k ((m, w) ∷ l) h = ground (arith, keeps w, find-update-none i k l)

    update-Distinct :
        (n i : ℕ) (l : List (ℕ × V)) → Distinct key n l → Distinct key n (update i f l)
    unfolding update
    update-Distinct n i [] d = d
    update-Distinct n i ((m, w) ∷ l) d = ground (
      arith,
      keeps w,
      update-Distinct n i l,
      value-update-none i m l,
      find-update-none i (key w) l,
    )

    -- A value changes in place, under its key.
    pub update-Agree :
        (n i : ℕ) (m : List (K × ℕ)) (l : List (ℕ × V)) → Agree n m l → Agree n m (update i f l)
    update-Agree n i m l g = record {
      distinct = update-Distinct n i l g.distinct;
      indexed = λ q. g.indexed q ∙ sym (position-update i q l);
    }

    pub length-update : (i : ℕ) (l : List (ℕ × V)) → length (update i f l) ≡ length l
    unfolding update
    length-update i [] = refl
    length-update i ((m, w) ∷ l) = ground (arith, length-update i l)

  -- The element at the back is the one of its value's key.
  pub find-back :
      (n : ℕ) (l : List (ℕ × V)) (i : ℕ) (v : V)
      → Distinct key n l
      → back l ≡ some (i, v)
      → find key (key v) l ≡ some (i, v)
  unfolding find back
  find-back n [] i v d h = cc
  find-back n ((j, w) ∷ []) i v d h = ground (arith, e.beq_iff (key v) (key v))
  find-back n ((j, w) ∷ f ∷ l) i v d h =
      ground (arith, find-back n (f ∷ l) i v, e.beq_iff (key w) (key v))

  back_apart :
      (n j : ℕ) (w : V) (i : ℕ) (v : V) (l : List (ℕ × V))
      → Distinct key n ((j, w) ∷ l)
      → value i l ≡ some v
      → eqb j i ≡ false
  back_apart n j w i v l d h = ground arith

  pub back-remove :
      (n : ℕ) (l : List (ℕ × V)) (i : ℕ) (v : V)
      → Distinct key n l
      → back l ≡ some (i, v)
      → values l ≡ values (remove i l) ++ v ∷ []
  unfolding back remove value
  back-remove n [] i v d h = cc
  back-remove n ((j, w) ∷ []) i v d h = ground arith
  back-remove n ((j, w) ∷ f ∷ l) i v d h =
      let at : value i (f ∷ l) ≡ some v =
        value-find key n (key v) (f ∷ l) i v d.3 (find-back n (f ∷ l) i v d.3 h) in
      let other : eqb j i ≡ false = back_apart n j w i v (f ∷ l) d at in
      rw (other, remove) (ap (◌∷◌ w) (back-remove n (f ∷ l) i v d.3 h))
