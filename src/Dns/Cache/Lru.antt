-- ===== src/Dns/Cache/Lru.antt =====
-- Go's container/list, as far as core/dns/cache.go uses it. An element is a pair of its identity,
-- which stands for the pointer to it, and its value; the front of the list comes first.
use v2ray_a.Base.{
  ℕ, suc, ◌<◌, ◌≤◌, ◌≡◌, ◌≢◌, refl, false, Option, none, some, List, [], ◌∷◌, map, Eq, ◌==◌, eqb,
  if◌then◌else◌, length, arith,
}

module _ {ℓ} {V : Type ℓ} where
  -- `elem.Value`
  unfoldable pub value : ℕ → List (ℕ × V) → Option V
  value i [] = none
  value i ((j, v) ∷ l) = if eqb j i then some v else value i l

  -- `l.Remove(elem)`
  unfoldable pub remove : ℕ → List (ℕ × V) → List (ℕ × V)
  remove i [] = []
  remove i ((j, v) ∷ l) = if eqb j i then l else (j, v) ∷ remove i l

  -- `l.MoveToFront(elem)`: an element that is not in the list moves nothing.
  unfoldable pub move_to_front : ℕ → List (ℕ × V) → List (ℕ × V)
  unfolding value remove
  move_to_front i l = elim (value i l) [ none ↦ l | some v ↦ (i, v) ∷ remove i l ]

  -- Writes through the pointer that an element holds.
  unfoldable pub update : ℕ → (V → V) → List (ℕ × V) → List (ℕ × V)
  update i f [] = []
  update i f ((j, v) ∷ l) = if eqb j i then (j, f v) ∷ l else (j, v) ∷ update i f l

  -- `l.Back()`
  unfoldable pub back : List (ℕ × V) → Option (ℕ × V)
  back [] = none
  back (e ∷ []) = some e
  back (e ∷ f ∷ l) = back (f ∷ l)

  -- The values, front first.
  abbrev pub values : List (ℕ × V) → List V
  values = map (λ e. e.1)

  -- To write through the pointer of an element just moved to the front.
  pub update-move_to_front :
      (i : ℕ) (f : V → V) (l : List (ℕ × V)) (v : V)
      → value i l ≡ some v
      → update i f (move_to_front i l) ≡ (i, f v) ∷ remove i l
  unfolding update move_to_front
  update-move_to_front i f l v h = ground arith

  pub length-remove :
      (i : ℕ) (l : List (ℕ × V)) (v : V) → value i l ≡ some v → length l ≡ suc (length (remove i l))
  unfolding value remove
  length-remove i [] v h = cc
  length-remove i ((m, w) ∷ l) v h = ground (arith, length-remove i l v)

  pub back_of_pos : (l : List (ℕ × V)) → 0 < length l → (y : ℕ × V) × (back l ≡ some y)
  unfolding back
  back_of_pos [] h = elim h [ ]
  back_of_pos (x ∷ []) h = (x, refl)
  back_of_pos (x ∷ y ∷ l) h = back_of_pos (y ∷ l) (omega arith)

-- The same list seen through the keys of its values.
module _ {ℓ κ} {K : Type ℓ} {V : Type κ} ⦃e : Eq K⦄ (key : V → K) where
  unfoldable pub find : K → List (ℕ × V) → Option (ℕ × V)
  find k [] = none
  find k ((i, v) ∷ l) = if key v == k then some (i, v) else find k l

  unfoldable pub drop_key : K → List V → List V
  drop_key k [] = []
  drop_key k (v ∷ l) = if key v == k then l else v ∷ drop_key k l

  unfoldable pub find_value : K → List V → Option V
  find_value k [] = none
  find_value k (v ∷ l) = if key v == k then some v else find_value k l

  abbrev pub position : K → List (ℕ × V) → Option ℕ
  position k l = elim (find k l) [ none ↦ none | some (i, v) ↦ some i ]

  -- No two elements share an identity or a key, and the identities lie below `n`.
  abbrev pub Distinct : ℕ → List (ℕ × V) → Type κ
  Distinct n [] = Unit {κ}
  Distinct n ((i, v) ∷ l) = (i < n) × (value i l ≡ none) × (find (key v) l ≡ none) × Distinct n l

  -- The element that a key finds is the one that its pointer finds.
  pub value-find :
      (n : ℕ) (k : K) (l : List (ℕ × V)) (i : ℕ) (v : V)
      → Distinct n l
      → find k l ≡ some (i, v)
      → value i l ≡ some v
  unfolding find value
  value-find n k [] i v d h = cc
  value-find n k ((j, w) ∷ l) i v d h = ground (arith, value-find n k l i v)

  pub key-find : (k : K) (l : List (ℕ × V)) (i : ℕ) (v : V) → find k l ≡ some (i, v) → key v ≡ k
  unfolding find
  key-find k [] i v h = cc
  key-find k ((j, w) ∷ l) i v h = ground (arith, e.beq_iff (key w) k, key-find k l i v)

  pub find-lt :
      (n : ℕ) (k : K) (l : List (ℕ × V)) (i : ℕ) (v : V)
      → Distinct n l
      → find k l ≡ some (i, v)
      → i < n
  unfolding find
  find-lt n k [] i v d h = cc
  find-lt n k ((j, w) ∷ l) i v d h = ground (arith, find-lt n k l i v)

  pub value_above : (n i : ℕ) (l : List (ℕ × V)) → Distinct n l → n ≤ i → value i l ≡ none
  unfolding value
  value_above n i [] d h = refl
  value_above n i ((j, w) ∷ l) d h = ground (arith, value_above n i l)

  pub Distinct-suc : (n : ℕ) (l : List (ℕ × V)) → Distinct n l → Distinct (suc n) l
  Distinct-suc n [] d = d
  Distinct-suc n ((j, w) ∷ l) d = ground (arith, Distinct-suc n l)

  -- What `remove` does to the other elements.
  pub value-remove_ne : (i j : ℕ) (l : List (ℕ × V)) → i ≢ j → value j (remove i l) ≡ value j l
  unfolding value remove
  value-remove_ne i j [] h = refl
  value-remove_ne i j ((m, w) ∷ l) h = ground (arith, value-remove_ne i j l)

  pub value-remove-none :
      (i j : ℕ) (l : List (ℕ × V)) → value j l ≡ none → value j (remove i l) ≡ none
  unfolding value remove
  value-remove-none i j [] h = refl
  value-remove-none i j ((m, w) ∷ l) h = ground (arith, value-remove-none i j l)

  pub find-remove-none :
      (i : ℕ) (k : K) (l : List (ℕ × V)) → find k l ≡ none → find k (remove i l) ≡ none
  unfolding find remove
  find-remove-none i k [] h = refl
  find-remove-none i k ((m, w) ∷ l) h = ground (arith, find-remove-none i k l)

  pub remove-Distinct : (n i : ℕ) (l : List (ℕ × V)) → Distinct n l → Distinct n (remove i l)
  unfolding remove
  remove-Distinct n i [] d = d
  remove-Distinct n i ((m, w) ∷ l) d =
      ground (arith, remove-Distinct n i l, value-remove-none i m l, find-remove-none i (key w) l)

  pub value-remove_self : (n i : ℕ) (l : List (ℕ × V)) → Distinct n l → value i (remove i l) ≡ none
  unfolding value remove
  value-remove_self n i [] d = refl
  value-remove_self n i ((m, w) ∷ l) d = ground (arith, value-remove_self n i l)

  -- Removing the element of a key hides that key, and no other.
  pub find-remove :
      (n : ℕ) (k q : K) (l : List (ℕ × V)) (i : ℕ) (v : V)
      → Distinct n l
      → find k l ≡ some (i, v)
      → find q (remove i l) ≡ (if k == q then none else find q l)
  unfolding find remove value
  find-remove n k q [] i v d h = cc
  find-remove n k q ((m, w) ∷ l) i v d h = ground (
    arith,
    e.beq_iff (key w) k,
    e.beq_iff (key w) q,
    e.beq_iff k q,
    find-remove n k q l i v,
    value-find n k l i v,
  )

  -- By keys, `remove` is `drop_key`.
  pub values-remove :
      (n : ℕ) (k : K) (l : List (ℕ × V)) (i : ℕ) (v : V)
      → Distinct n l
      → find k l ≡ some (i, v)
      → values (remove i l) ≡ drop_key k (values l)
  unfolding find remove drop_key value
  values-remove n k [] i v d h = cc
  values-remove n k ((m, w) ∷ l) i v d h =
      ground (arith, values-remove n k l i v, value-find n k l i v)

  pub find_value-values :
      (k : K) (l : List (ℕ × V))
      → find_value k (values l) ≡ elim (find k l) [ none ↦ none | some (i, v) ↦ some v ]
  unfolding find find_value
  find_value-values k [] = refl
  find_value-values k ((m, w) ∷ l) = ground (arith, find_value-values k l)

  pub drop_key_absent : (k : K) (l : List V) → find_value k l ≡ none → drop_key k l ≡ l
  unfolding find_value drop_key
  drop_key_absent k [] h = refl
  drop_key_absent k (w ∷ l) h = ground (arith, drop_key_absent k l)

  pub find_value-drop_key_ne :
      (k q : K) (l : List V) → (k == q) ≡ false → find_value q (drop_key k l) ≡ find_value q l
  unfolding find_value drop_key
  find_value-drop_key_ne k q [] h = refl
  find_value-drop_key_ne k q (w ∷ l) h =
      ground (
        arith,
        e.beq_iff (key w) k,
        e.beq_iff (key w) q,
        e.beq_iff k q,
        find_value-drop_key_ne k q l,
      )
