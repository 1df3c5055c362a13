-- ===== src/Service/Tests/OfDatabase.antt =====
-- Concrete runs of the statements on the stored servers.
use v2ray_a.Base.{ℕ, ◌≡◌, refl, none, some, List, [], ◌∷◌, ℤ, pos, length}
use v2ray_a.Service.Nodes.{at, sub_index}
use v2ray_a.Service.Database.Table.{not_found, servers_get_all, servers_get, servers_len}
use v2ray_a.Service.Database.Refinement.{
  Call, append, set, remove, replace, perform, ideal, run, servers-refine,
}

abbrev calls : List (Call ℕ)
calls =
    append (11 ∷ 12 ∷ 13 ∷ 14 ∷ [])
    ∷ replace 7 (21 ∷ 22 ∷ [])
    ∷ remove (pos 0 ∷ pos 2 ∷ pos 2 ∷ pos 9 ∷ [])
    ∷ set (pos 1) 24
    ∷ set (pos 2) 25
    ∷ append (15 ∷ [])
    ∷ []

servers-refine_example :
    let t = (run perform calls []).0 in
    let xs = (run ideal calls []).0 in
    ((run perform calls []).1 ≡ (run ideal calls []).1)
    × (servers_get_all t ≡ xs)
    × ((index : ℤ) → servers_get t index ≡ at xs (sub_index index))
    × (servers_len t ≡ length xs)
servers-refine_example = servers-refine calls

calls_test :
    (servers_get_all (run perform calls []).0 ≡ 12 ∷ 24 ∷ 15 ∷ [])
    × ((run perform calls []).1 ≡ none ∷ none ∷ none ∷ none ∷ some (not_found (pos 2)) ∷ none ∷ [])
unfolding run perform servers_get_all
calls_test = (refl, refl)
