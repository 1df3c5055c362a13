-- ===== src/Service/Database/Ordinals.antt =====
-- service/db/listOp.go: the ordinals of the stored servers, and the list that they stand for.
use v2ray_a.Base.{
  ℕ, zero, suc, ◌+◌, ◌≤◌, ◌≡◌, refl, ◌∙◌, Bool, not, ◌&&◌, none, some, List, [], ◌∷◌, ◌++◌, ℤ, pos,
  eqb_ℤ, ltb, if◌then◌else◌, length, any, get_elem?, arith, Option-cases, inl, inr, max,
}
use v2ray_a.Service.Nodes.Removal.{drop_positions}
use v2ray_a.Service.Database.Table.{
  ServerRow, mine, has_sort, keep, count, next_sort, update_config, servers_get, insert_row,
  order_rows, configs, delete_each, reorder_in,
}

module _ {A : Type 0} where
  -- The configurations of the servers, in the order of the table.
  unfoldable pub listed : List (ServerRow A) → List A
  listed [] = []
  listed (r ∷ rs) = let rest = listed rs in if mine r then r.config ∷ rest else rest

  -- The ordinals count up from `k`; they rise from at least `b`.
  abbrev pub DenseFrom : ℕ → List (ServerRow A) → Type 0
  DenseFrom k [] = Unit {0}
  DenseFrom k (r ∷ rs) = elim r.sub_id [
    | none ↦ (r.sort ≡ k) × DenseFrom (suc k) rs
    | some _ ↦ DenseFrom k rs
  ]

  abbrev pub Rising : ℕ → List (ServerRow A) → Type 0
  Rising b [] = Unit {0}
  Rising b (r ∷ rs) = elim r.sub_id [
    | none ↦ (b ≤ r.sort) × Rising (suc r.sort) rs
    | some _ ↦ Rising b rs
  ]

  abbrev pub below : ℕ → ServerRow A → Bool
  below s r = mine r && ltb r.sort s

  Rising-count : (b s : ℕ) (rs : List (ServerRow A)) → Rising b rs → s ≤ b → count (below s) rs ≡ 0
  unfolding count
  Rising-count b s [] h le = refl
  Rising-count b s (r ∷ rs) h le =
      ground (arith, Rising-count b s rs, Rising-count (suc r.sort) s rs)

  -- A renumbering leaves the list as it was.
  pub listed-reorder_in : (whole rs : List (ServerRow A)) → listed (reorder_in whole rs) ≡ listed rs
  unfolding listed reorder_in
  listed-reorder_in whole [] = refl
  listed-reorder_in whole (r ∷ rs) = ground (arith, listed-reorder_in whole rs)

  unfoldable pub kept : List ℤ → ServerRow A → Bool
  kept gone r = not (mine r && any (eqb_ℤ (pos r.sort)) gone)

  keep-keep :
      (p q : ServerRow A → Bool) (rs : List (ServerRow A))
      → keep p (keep q rs) ≡ keep (λ r. q r && p r) rs
  unfolding keep
  keep-keep p q [] = refl
  keep-keep p q (r ∷ rs) = ground (arith, keep-keep p q rs)

  pub listed-keep :
      (k : ℕ) (gone : List ℤ) (rs : List (ServerRow A))
      → DenseFrom k rs
      → listed (keep (kept gone) rs) ≡ drop_positions k gone (listed rs)
  unfolding listed keep drop_positions kept
  listed-keep k gone [] h = refl
  listed-keep k gone (r ∷ rs) h = ground (arith, listed-keep k gone rs, listed-keep (suc k) gone rs)

  pub Rising-keep :
      (b k : ℕ) (gone : List ℤ) (rs : List (ServerRow A))
      → DenseFrom k rs
      → b ≤ k
      → Rising b (keep (kept gone) rs)
  unfolding keep kept
  Rising-keep b k gone [] h le = tt
  Rising-keep b k gone (r ∷ rs) h le = ground (
    arith,
    Rising-keep b k gone rs,
    Rising-keep b (suc k) gone rs,
    Rising-keep (suc k) (suc k) gone rs,
  )

  pub reorder_in-Dense :
      (whole : List (ServerRow A)) (b k : ℕ) (rs : List (ServerRow A))
      → ((s : ℕ) → b ≤ s → count (below s) whole ≡ k + count (below s) rs)
      → Rising b rs
      → DenseFrom k (reorder_in whole rs)
  unfolding reorder_in count
  reorder_in-Dense whole b k [] same h = tt
  reorder_in-Dense whole b k (r ∷ rs) same h = elim (Option-cases r.sub_id) [
    | inr (id, other) ↦
        let same' : (s : ℕ) → b ≤ s → count (below s) whole ≡ k + count (below s) rs =
          λ s le. ground (arith, same s le, other) in
        let ih = reorder_in-Dense whole b k rs same' (ground (arith, other)) in
        ground (arith, ih, other)
    | inl own ↦
        let rising : (b ≤ r.sort) × Rising (suc r.sort) rs = ground (arith, own) in
        let same' : (s : ℕ) → suc r.sort ≤ s → count (below s) whole ≡ suc k + count (below s) rs =
          λ s le. ground (arith, same s (omega (arith, rising.0)), own) in
        let ih = reorder_in-Dense whole (suc r.sort) (suc k) rs same' rising.1 in
        let here = same r.sort rising.0 in
        let none_below = Rising-count (suc r.sort) r.sort rs rising.1 (omega arith) in
        ground (arith, ih, here, none_below, own)
  ]

  keep-ext :
      (p q : ServerRow A → Bool) (rs : List (ServerRow A))
      → ((r : ServerRow A) → p r ≡ q r)
      → keep p rs ≡ keep q rs
  unfolding keep
  keep-ext p q [] same = refl
  keep-ext p q (r ∷ rs) same = ground (arith, keep-ext p q rs same, same r)

  pub delete_each-keep :
      (gone : List ℤ) (rs : List (ServerRow A)) → delete_each gone rs ≡ keep (kept gone) rs
  unfolding delete_each keep kept
  delete_each-keep [] [] = refl
  delete_each-keep [] (r ∷ rs) = ground (arith, delete_each-keep [] rs)
  delete_each-keep (i ∷ is) rs =
      delete_each-keep is (keep (λ r. not (has_sort i r)) rs)
      ∙ keep-keep (kept is) (λ r. not (has_sort i r)) rs
      ∙ keep-ext _ _ rs λ r. ground arith

  insert_row-front :
      (r : ServerRow A) (rs : List (ServerRow A))
      → DenseFrom (suc r.sort) rs
      → insert_row r (keep mine rs) ≡ r ∷ keep mine rs
  unfolding insert_row keep
  insert_row-front r [] h = refl
  insert_row-front r (s ∷ rs) h = ground (arith, insert_row-front r rs)

  -- Rows that count up are in order already.
  pub order_rows-Dense :
      (k : ℕ) (rs : List (ServerRow A)) → DenseFrom k rs → order_rows (keep mine rs) ≡ keep mine rs
  unfolding order_rows keep
  order_rows-Dense k [] h = refl
  order_rows-Dense k (r ∷ rs) h =
      ground (arith, order_rows-Dense k rs, order_rows-Dense (suc k) rs, insert_row-front r rs)

  pub configs-keep : (rs : List (ServerRow A)) → configs (keep mine rs) ≡ listed rs
  unfolding keep listed
  configs-keep [] = refl
  configs-keep (r ∷ rs) = ground (arith, configs-keep rs)

  pub next_sort-Dense :
      (k : ℕ) (rs : List (ServerRow A))
      → DenseFrom k rs
      → max k (next_sort rs) ≡ k + length (listed rs)
  unfolding next_sort listed
  next_sort-Dense k [] h = ground arith
  next_sort-Dense k (r ∷ rs) h = ground (arith, next_sort-Dense k rs, next_sort-Dense (suc k) rs)

  pub listed-append :
      (rs : List (ServerRow A)) (r : ServerRow A)
      → listed (rs ++ (r ∷ [])) ≡ listed rs ++ listed (r ∷ [])
  unfolding listed
  listed-append [] r = refl
  listed-append (s ∷ rs) r = ground (arith, listed-append rs r)

  pub servers_get-Dense :
      (k i : ℕ) (rs : List (ServerRow A))
      → DenseFrom k rs
      → servers_get rs (pos (k + i)) ≡ get_elem? (listed rs) i
  unfolding servers_get listed
  servers_get-Dense k i [] h = refl
  servers_get-Dense k zero (r ∷ rs) h = ground (arith, servers_get-Dense k zero rs)
  servers_get-Dense k (suc i) (r ∷ rs) h =
      ground (arith, servers_get-Dense k (suc i) rs, servers_get-Dense (suc k) i rs)

  pub update_config-Dense :
      (k : ℕ) (index : ℤ) (config : A) (rs : List (ServerRow A))
      → DenseFrom k rs
      → DenseFrom k (update_config index config rs)
  unfolding update_config
  update_config-Dense k index config [] h = tt
  update_config-Dense k index config (r ∷ rs) h =
      ground
        (arith, update_config-Dense k index config rs, update_config-Dense (suc k) index config rs)
