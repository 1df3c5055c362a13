-- ===== src/Service/Database/Table.antt =====
-- service/db/listOp.go: the statements on a table whose rows carry an ordinal in `sort`. A table is
-- its rows in the order in which they were inserted. The rows of a list are those that `mine`
-- accepts; a row of the table `servers` belongs to the list of servers or to a subscription. Rows
-- are JSON texts to the code and of any type here; an error of the database itself is left out.
use v2ray_a.Base.{
  ℕ, suc, Bool, true, false, not, ◌&&◌, Option, none, some, List, [], ◌∷◌, ◌++◌, ℤ, pos, eqb_ℤ, ltb,
  eqb, if◌then◌else◌, max,
}

pub record ServerRow (A : Type 0) : Type 0 where
  pub sub_id : Option ℕ
  pub config : A
  pub sort : ℕ

-- `type = 'server'`
abbrev pub mine : {A : Type 0} → ServerRow A → Bool
mine r = elim r.sub_id [ none ↦ true | some _ ↦ false ]

abbrev pub of_subscription : {A : Type 0} → ℕ → ServerRow A → Bool
of_subscription id r = elim r.sub_id [ none ↦ false | some i ↦ eqb i id ]

abbrev pub has_sort : {A : Type 0} → ℤ → ServerRow A → Bool
has_sort index r = mine r && eqb_ℤ (pos r.sort) index

unfoldable pub keep {ℓ} : {R : Type ℓ} → (R → Bool) → List R → List R
keep p [] = []
keep p (r ∷ rs) = let rest = keep p rs in if p r then r ∷ rest else rest

unfoldable pub count {ℓ} : {R : Type ℓ} → (R → Bool) → List R → ℕ
count p [] = 0
count p (r ∷ rs) = let rest = count p rs in if p r then suc rest else rest

-- `COALESCE(MAX(sort), -1) + 1`
unfoldable pub next_sort : {A : Type 0} → List (ServerRow A) → ℕ
next_sort [] = 0
next_sort (r ∷ rs) = let rest = next_sort rs in if mine r then max (suc r.sort) rest else rest

unfoldable pub update_config : {A : Type 0} → ℤ → A → List (ServerRow A) → List (ServerRow A)
update_config index config [] = []
update_config index config (r ∷ rs) =
    let rest = update_config index config rs in
    if has_sort index r then record r { config = config } ∷ rest else r ∷ rest

pub data ListError : Type 0 where
  not_found : ℤ → ListError
  empty_list : ListError
  nothing_to_remove : ListError

-- ServersSet: no row affected is an error.
unfoldable pub servers_set :
    {A : Type 0} → List (ServerRow A) → ℤ → A → List (ServerRow A) × Option ListError
unfolding update_config count
servers_set t index config = (
  update_config index config t,
  if eqb (count (has_sort index) t) 0 then some (not_found index) else none,
)

-- serversGet
unfoldable pub servers_get : {A : Type 0} → List (ServerRow A) → ℤ → Option A
servers_get [] index = none
servers_get (r ∷ rs) index =
    let rest = servers_get rs index in if has_sort index r then some r.config else rest

-- ServersAppend, of one value and of an array.
unfoldable pub servers_append_one : {A : Type 0} → List (ServerRow A) → A → List (ServerRow A)
unfolding next_sort
servers_append_one t config =
    t ++ (record { sub_id = none; config = config; sort = next_sort t } ∷ [])

unfoldable pub servers_append : {A : Type 0} → List (ServerRow A) → List A → List (ServerRow A)
unfolding servers_append_one
servers_append t [] = t
servers_append t (config ∷ configs) = servers_append (servers_append_one t config) configs

-- `ORDER BY sort`
unfoldable pub insert_row : {A : Type 0} → ServerRow A → List (ServerRow A) → List (ServerRow A)
insert_row r [] = r ∷ []
insert_row r (s ∷ rs) =
    let rest = insert_row r rs in if ltb s.sort r.sort then s ∷ rest else r ∷ s ∷ rs

unfoldable pub order_rows : {A : Type 0} → List (ServerRow A) → List (ServerRow A)
unfolding insert_row
order_rows [] = []
order_rows (r ∷ rs) = insert_row r (order_rows rs)

abbrev pub configs : {A : Type 0} → List (ServerRow A) → List A
configs [] = []
configs (r ∷ rs) = r.config ∷ configs rs

unfoldable pub servers_get_all : {A : Type 0} → List (ServerRow A) → List A
unfolding order_rows keep
servers_get_all t = configs (order_rows (keep mine t))

unfoldable pub servers_len : {A : Type 0} → List (ServerRow A) → ℕ
unfolding count
servers_len t = count mine t

-- The loop of DELETE statements.
unfoldable pub delete_each : {A : Type 0} → List ℤ → List (ServerRow A) → List (ServerRow A)
unfolding keep
delete_each [] t = t
delete_each (index ∷ indexes) t = delete_each indexes (keep (λ r. not (has_sort index r)) t)

-- `UPDATE servers SET sort = (SELECT COUNT(*) …)`: each row takes the count over the table as it was.
unfoldable pub reorder_in :
    {A : Type 0} → List (ServerRow A) → List (ServerRow A) → List (ServerRow A)
unfolding count
reorder_in whole [] = []
reorder_in whole (r ∷ rs) =
    let rest = reorder_in whole rs in
    if mine r
    then record r { sort = count (λ s. mine s && ltb s.sort r.sort) whole } ∷ rest
    else r ∷ rest

-- serversRemove
unfoldable pub servers_remove :
    {A : Type 0} → List (ServerRow A) → List ℤ → List (ServerRow A) × Option ListError
unfolding delete_each reorder_in
servers_remove t [] = (t, some nothing_to_remove)
servers_remove t (index ∷ indexes) =
    let left = delete_each (index ∷ indexes) t in (reorder_in left left, none)

-- The part of setSubscription that replaces the servers of a subscription, `j` the next ordinal.
unfoldable pub insert_servers :
    {A : Type 0} → ℕ → ℕ → List A → List (ServerRow A) → List (ServerRow A)
insert_servers id j [] t = t
insert_servers id j (config ∷ rest) t =
    insert_servers id (suc j) rest
      (t ++ (record { sub_id = some id; config = config; sort = j } ∷ []))

unfoldable pub replace_servers : {A : Type 0} → ℕ → List A → List (ServerRow A) → List (ServerRow A)
unfolding insert_servers keep
replace_servers id new t = insert_servers id 0 new (keep (λ r. not (of_subscription id r)) t)
