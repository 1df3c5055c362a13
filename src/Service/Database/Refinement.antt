-- ===== src/Service/Database/Refinement.antt =====
-- service/db/listOp.go: the statements on the servers, against a list without ordinals.
use v2ray_a.Base.{
  ℕ, zero, suc, ◌+◌, ◌≡◌, refl, ap, sym, ◌∙◌, not, Option, none, some, List, [], ◌∷◌, ◌++◌, ℤ, pos,
  negsuc, eqb_ℤ, eqb, if◌then◌else◌, append-nil, append_assoc, length, get_elem?, arith,
  Option-cases,
}
use v2ray_a.Service.Nodes.{at, sub_index, is_some}
use v2ray_a.Service.Nodes.Removal.{drop_positions}
use v2ray_a.Service.Database.Table.{
  ServerRow, mine, has_sort, of_subscription, keep, count, update_config, ListError, not_found,
  nothing_to_remove, servers_set, servers_get, servers_append, servers_append_one, servers_get_all,
  servers_len, servers_remove, insert_servers, replace_servers,
}
use v2ray_a.Service.Database.Ordinals.{
  listed, DenseFrom, kept, Rising-keep, reorder_in-Dense, listed-reorder_in, listed-keep,
  delete_each-keep, order_rows-Dense, configs-keep, next_sort-Dense, listed-append,
  servers_get-Dense, update_config-Dense,
}

-- The calls that write the table `servers`.
pub data Call (A : Type 0) : Type 0 where
  append : List A → Call A
  set : ℤ → A → Call A
  remove : List ℤ → Call A
  replace : ℕ → List A → Call A

unfoldable pub perform :
    {A : Type 0} → Call A → List (ServerRow A) → List (ServerRow A) × Option ListError
unfolding servers_append servers_set servers_remove replace_servers
perform (append new) t = (servers_append t new, none)
perform (set index config) t = servers_set t index config
perform (remove indexes) t = servers_remove t indexes
perform (replace id new) t = (replace_servers id new t, none)

-- The same on a list, with the errors that the code gives.
unfoldable pub put_at : {A : Type 0} → ℕ → ℤ → A → List A → List A
put_at k index config [] = []
put_at k index config (x ∷ xs) =
    let rest = put_at (suc k) index config xs in
    if eqb_ℤ (pos k) index then config ∷ rest else x ∷ rest

abbrev pub ideal_set_error : {A : Type 0} → ℤ → List A → Option ListError
ideal_set_error index xs = elim (at xs (sub_index index)) [
  | none ↦ some (not_found index)
  | some x ↦ none
]

unfoldable pub ideal : {A : Type 0} → Call A → List A → List A × Option ListError
unfolding put_at drop_positions
ideal (append new) xs = (xs ++ new, none)
ideal (set index config) xs = (put_at 0 index config xs, ideal_set_error index xs)
ideal (remove []) xs = (xs, some nothing_to_remove)
ideal (remove (i ∷ is)) xs = (drop_positions 0 (i ∷ is) xs, none)
ideal (replace id new) xs = (xs, none)

-- A run of calls, with what each gives back.
unfoldable pub run :
    {A S : Type 0}
    → (Call A → S → S × Option ListError)
    → List (Call A)
    → S
    → S × List (Option ListError)
run f [] s = (s, [])
run f (c ∷ cs) s = let (s', e) = f c s in let (end, es) = run f cs s' in (end, e ∷ es)

module _ {A : Type 0} where
  DenseFrom-append :
      (k : ℕ) (t new : List (ServerRow A))
      → DenseFrom k t
      → DenseFrom (k + length (listed t)) new
      → DenseFrom k (t ++ new)
  unfolding listed
  DenseFrom-append k [] new h h' = ground (arith, h')
  DenseFrom-append k (r ∷ t) new h h' =
      ground (arith, DenseFrom-append k t new, DenseFrom-append (suc k) t new)

  servers_append_one-Dense :
      (t : List (ServerRow A)) (config : A)
      → DenseFrom 0 t
      → DenseFrom 0 (servers_append_one t config)
  unfolding servers_append_one listed
  servers_append_one-Dense t config h =
      DenseFrom-append 0 t _ h (omega (arith, next_sort-Dense 0 t h), tt)

  servers_append-Dense :
      (new : List A) (t : List (ServerRow A))
      → DenseFrom 0 t
      → DenseFrom 0 (servers_append t new) × (listed (servers_append t new) ≡ listed t ++ new)
  unfolding servers_append servers_append_one listed
  servers_append-Dense [] t h = (h, sym (append-nil (listed t)))
  servers_append-Dense (config ∷ new) t h =
      let (dense, same) =
        servers_append-Dense new (servers_append_one t config)
          (servers_append_one-Dense t config h) in
      (
        dense,
        same ∙ ap (λ l. l ++ new) (listed-append t _) ∙ append_assoc (listed t) (config ∷ []) new,
      )

  set-listed :
      (k : ℕ) (index : ℤ) (config : A) (t : List (ServerRow A))
      → DenseFrom k t
      → listed (update_config index config t) ≡ put_at k index config (listed t)
  unfolding listed update_config put_at
  set-listed k index config [] h = refl
  set-listed k index config (r ∷ t) h =
      ground (arith, set-listed k index config t, set-listed (suc k) index config t)

  count-get :
      (k i : ℕ) (t : List (ServerRow A))
      → DenseFrom k t
      → eqb (count (has_sort (pos (k + i))) t) 0 ≡ not (is_some (get_elem? (listed t) i))
  unfolding listed count
  count-get k i [] h = refl
  count-get k zero (r ∷ t) h = ground (arith, count-get k zero t)
  count-get k (suc i) (r ∷ t) h = ground (arith, count-get k (suc i) t, count-get (suc k) i t)

  count-negative : (n : ℕ) (t : List (ServerRow A)) → count (has_sort (negsuc n)) t ≡ 0
  unfolding count
  count-negative n [] = refl
  count-negative n (r ∷ t) = ground (arith, count-negative n t)

  servers_remove-Dense :
      (t : List (ServerRow A)) (i : ℤ) (is : List ℤ)
      → DenseFrom 0 t
      → let after = (servers_remove t (i ∷ is)).0 in
        DenseFrom 0 after × (listed after ≡ drop_positions 0 (i ∷ is) (listed t))
  unfolding servers_remove
  servers_remove-Dense t i is h = rw (delete_each-keep (i ∷ is) t) (
      let left = keep (kept (i ∷ is)) t in
      (
        reorder_in-Dense left 0 0 left (λ s le. omega arith)
            (Rising-keep 0 0 (i ∷ is) t h (ground arith)),
        listed-reorder_in left left ∙ listed-keep 0 (i ∷ is) t h,
      ))

  -- Neither the removal nor the insertion of the servers of a subscription is seen in the list.
  keep-others :
      (k id : ℕ) (t : List (ServerRow A))
      → DenseFrom k t
      → let left = keep (λ r. not (of_subscription id r)) t in
        DenseFrom k left × (listed left ≡ listed t)
  unfolding keep listed
  keep-others k id [] h = (tt, refl)
  keep-others k id (r ∷ t) h = ground (arith, keep-others k id t, keep-others (suc k) id t)

  insert_servers-Dense :
      (id j : ℕ) (new : List A) (t : List (ServerRow A))
      → DenseFrom 0 t
      → DenseFrom 0 (insert_servers id j new t) × (listed (insert_servers id j new t) ≡ listed t)
  unfolding insert_servers listed
  insert_servers-Dense id j [] t h = (h, refl)
  insert_servers-Dense id j (config ∷ new) t h =
      let (dense, same) =
        insert_servers-Dense id (suc j) new (t ++ _) (DenseFrom-append 0 t _ h tt) in
      (dense, same ∙ listed-append t _ ∙ append-nil (listed t))

  set_error-Dense :
      (index : ℤ) (config : A) (t : List (ServerRow A))
      → DenseFrom 0 t
      → (servers_set t index config).1 ≡ ideal_set_error index (listed t)
  unfolding servers_set
  set_error-Dense (pos i) config t h =
      ground (arith, count-get 0 i t h, Option-cases (get_elem? (listed t) i))
  set_error-Dense (negsuc n) config t h = rw (count-negative n t) refl

  -- One call keeps the ordinals dense and does to the list what the ideal call does, errors included.
  perform-ideal :
      (c : Call A) (t : List (ServerRow A))
      → DenseFrom 0 t
      → DenseFrom 0 (perform c t).0
        × (listed (perform c t).0 ≡ (ideal c (listed t)).0)
        × ((perform c t).1 ≡ (ideal c (listed t)).1)
  unfolding servers_set servers_remove replace_servers perform servers_append ideal listed
  perform-ideal (append new) t h =
      let (dense, same) = servers_append-Dense new t h in (dense, same, refl)
  perform-ideal (set index config) t h = (
    update_config-Dense 0 index config t h,
    set-listed 0 index config t h,
    set_error-Dense index config t h,
  )
  perform-ideal (remove []) t h = (h, refl, refl)
  perform-ideal (remove (i ∷ is)) t h =
      let (dense, same) = servers_remove-Dense t i is h in (dense, same, refl)
  perform-ideal (replace id new) t h =
      let (dense, same) = keep-others 0 id t h in
      let (dense', same') = insert_servers-Dense id 0 new _ dense in (dense', same' ∙ same, refl)

  run-ideal :
      (cs : List (Call A)) (t : List (ServerRow A))
      → DenseFrom 0 t
      → DenseFrom 0 (run perform cs t).0
        × (listed (run perform cs t).0 ≡ (run ideal cs (listed t)).0)
        × ((run perform cs t).1 ≡ (run ideal cs (listed t)).1)
  unfolding run
  run-ideal [] t h = (h, refl, refl)
  run-ideal (c ∷ cs) t h =
      let (dense, same, errors) = perform-ideal c t h in
      let (dense', same', errors') = run-ideal cs (perform c t).0 dense in
      (dense', same' ∙ ap (λ l. (run ideal cs l).0) same, rw (errors, errors', same) refl)

  servers_get_all-listed : (t : List (ServerRow A)) → DenseFrom 0 t → servers_get_all t ≡ listed t
  unfolding servers_get_all
  servers_get_all-listed t h = rw (order_rows-Dense 0 t h) (configs-keep t)

  servers_len-listed : (t : List (ServerRow A)) → count mine t ≡ length (listed t)
  unfolding count listed
  servers_len-listed [] = refl
  servers_len-listed (r ∷ t) = ground (arith, servers_len-listed t)

  servers_get-at :
      (index : ℤ) (t : List (ServerRow A))
      → DenseFrom 0 t
      → servers_get t index ≡ at (listed t) (sub_index index)
  unfolding servers_get
  servers_get-at (pos i) t h =
      let zero_add : i ≡ 0 + i = omega arith in
      ap (λ n. servers_get t (pos n)) zero_add ∙ servers_get-Dense 0 i t h
  servers_get-at (negsuc n) t h = go t
    where
      go : (t : List (ServerRow A)) → servers_get t (negsuc n) ≡ none
      go [] = refl
      go (r ∷ t) = ground (arith, go t)

-- After any calls on an empty table that append to, set in and remove from the servers, or replace
-- the servers of subscriptions, with any positions: each call has given what it gives on a plain
-- list, an error included; reading all gives that list, reading a position gives its element there or
-- none, and the number of servers is its length.
pub servers-refine :
    {A : Type 0} (cs : List (Call A))
    → let t = (run perform cs []).0 in
      let xs = (run ideal cs []).0 in
      ((run perform cs []).1 ≡ (run ideal cs []).1)
      × (servers_get_all t ≡ xs)
      × ((index : ℤ) → servers_get t index ≡ at xs (sub_index index))
      × (servers_len t ≡ length xs)
unfolding servers_len listed
servers-refine cs =
    let (dense, same, errors) = run-ideal cs [] tt in
    let t = (run perform cs []).0 in
    (
      errors,
      servers_get_all-listed t dense ∙ same,
      λ index. servers_get-at index t dense ∙ ap (λ l. at l (sub_index index)) same,
      servers_len-listed t ∙ ap length same,
    )
