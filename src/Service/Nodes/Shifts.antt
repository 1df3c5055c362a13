-- ===== src/Service/Nodes/Shifts.antt =====
-- service/server/service/touch.go: where a removal by positions leaves the others.
use v2ray_a.Base.{
  ℕ, zero, suc, ◌+◌, ◌-◌, ◌≤◌, ◌<◌, ◌≡◌, refl, ap, ◌∙◌, true, Option, none, some, List, [], ◌∷◌,
  if◌then◌else◌, ℤ, pos, negsuc, eqb_ℤ, ltb_ℤ, ltb, eqb, any, All, arith, get_elem?, inl, inr,
  Option-cases, Bool-cases,
}
use v2ray_a.Service.Nodes.Removal.{drop_positions}

-- Positions from the back to the front, each once.
abbrev pub Descends : List ℤ → Type 0
Descends [] = Unit {0}
Descends (negsuc n ∷ ds) = ⊥
Descends (pos d ∷ ds) = All (λ z. ltb_ℤ z (pos d) ≡ true) ds × Descends ds

-- Where the element at a position is after the removal of another, and of several.
unfoldable pub shift : ℕ → ℕ → Option ℕ
shift d i = if eqb d i then none else if ltb d i then some (i - 1) else some i

unfoldable pub shifts : List ℤ → ℕ → Option ℕ
unfolding shift
shifts [] i = some i
shifts (negsuc n ∷ ds) i = shifts ds i
shifts (pos d ∷ ds) i = elim (shift d i) [ none ↦ none | some j ↦ shifts ds j ]

remove_at {ℓ} : {A : Type ℓ} → ℕ → List A → List A
remove_at d [] = []
remove_at zero (x ∷ xs) = xs
remove_at (suc d) (x ∷ xs) = x ∷ remove_at d xs

get_elem?-remove_at {ℓ} :
    {A : Type ℓ} (d i j : ℕ) (xs : List A)
    → shift d i ≡ some j
    → get_elem? (remove_at d xs) j ≡ get_elem? xs i
unfolding remove_at shift
get_elem?-remove_at d i j [] h = refl
get_elem?-remove_at zero zero j (x ∷ xs) h = absurd (ground (arith, h))
get_elem?-remove_at zero (suc i) j (x ∷ xs) h = let e : i ≡ j = ground (arith, h) in rw e
get_elem?-remove_at (suc d) zero j (x ∷ xs) h = let e : zero ≡ j = ground (arith, h) in rw (← e)
get_elem?-remove_at (suc d) (suc i) zero (x ∷ xs) h = absurd (ground (arith, h))
get_elem?-remove_at (suc d) (suc i) (suc j) (x ∷ xs) h =
    get_elem?-remove_at d i j xs (ground (arith, h))

any-below :
    (k d : ℕ) (ds : List ℤ)
    → All (λ z. ltb_ℤ z (pos d) ≡ true) ds
    → any (eqb_ℤ (pos k)) ds ≡ true
    → k < d
any-below k d [] h e = cc
any-below k d (negsuc n ∷ ds) h e = any-below k d ds h.1 e
any-below k d (pos m ∷ ds) h e = ground (arith, any-below k d ds h.1)

drop_positions-above {ℓ} :
    {A : Type ℓ} (k d : ℕ) (ds : List ℤ) (xs : List A)
    → All (λ z. ltb_ℤ z (pos d) ≡ true) ds
    → d ≤ k
    → drop_positions k ds xs ≡ xs
unfolding drop_positions
drop_positions-above k d ds [] h le = refl
drop_positions-above k d ds (x ∷ xs) h le = elim (Bool-cases (any (eqb_ℤ (pos k)) ds)) [
  | inl gone ↦ absurd (omega (arith, any-below k d ds h gone))
  | inr kept ↦ rw (kept, drop_positions-above (suc k) d ds xs h (omega arith))
]

below_suc :
    (d : ℕ) (ds : List ℤ)
    → All (λ z. ltb_ℤ z (pos d) ≡ true) ds
    → All (λ z. ltb_ℤ z (pos (suc d)) ≡ true) ds
below_suc d [] h = tt
below_suc d (pos m ∷ ds) h = (ground arith, below_suc d ds h.1)
below_suc d (negsuc m ∷ ds) h = (refl, below_suc d ds h.1)

drop_positions-remove_at {ℓ} :
    {A : Type ℓ} (k m d : ℕ) (ds : List ℤ) (xs : List A)
    → d ≡ k + m
    → All (λ z. ltb_ℤ z (pos d) ≡ true) ds
    → drop_positions k (pos d ∷ ds) xs ≡ drop_positions k ds (remove_at m xs)
unfolding drop_positions remove_at
drop_positions-remove_at k m d ds [] e h = refl
drop_positions-remove_at k zero d ds (x ∷ xs) e h =
    let same : k ≡ d = omega arith in
    let all_below : All (λ z. ltb_ℤ z (pos (suc d)) ≡ true) (pos d ∷ ds) =
      (ground arith, below_suc d ds h) in
    let left = drop_positions-above (suc k) (suc d) (pos d ∷ ds) xs all_below (omega arith) in
    let right = drop_positions-above k d ds xs h (omega arith) in ground (arith, left, right)
drop_positions-remove_at k (suc m) d ds (x ∷ xs) e h =
    let ih = drop_positions-remove_at (suc k) m d ds xs (omega arith) h in ground (arith, ih)

drop_none {ℓ} : {A : Type ℓ} (k : ℕ) (xs : List A) → drop_positions k [] xs ≡ xs
unfolding drop_positions
drop_none k [] = refl
drop_none k (x ∷ xs) = ap (◌∷◌ x) (drop_none (suc k) xs)

pub shifts-get {ℓ} :
    {A : Type ℓ} (ds : List ℤ) (i j : ℕ) (xs : List A)
    → Descends ds
    → shifts ds i ≡ some j
    → get_elem? (drop_positions 0 ds xs) j ≡ get_elem? xs i
unfolding shifts
shifts-get [] i j xs h e = let same : i ≡ j = cc in rw (same, drop_none 0 xs)
shifts-get (negsuc n ∷ ds) i j xs h e = absurd h
shifts-get (pos d ∷ ds) i j xs h e = elim (Option-cases (shift d i)) [
  | inl gone ↦ absurd (ground (arith, gone))
  | inr (m, moved) ↦
      let rest : shifts ds m ≡ some j = ground (arith, moved) in
      rw (drop_positions-remove_at 0 d d ds xs (omega arith) h.0)
        (shifts-get ds m j (remove_at d xs) h.1 rest ∙ get_elem?-remove_at d i m xs moved)
]

pub shifts-none :
    (ds : List ℤ) (i : ℕ) → Descends ds → shifts ds i ≡ none → any (eqb_ℤ (pos i)) ds ≡ true
unfolding shifts shift
shifts-none [] i h e = cc
shifts-none (negsuc n ∷ ds) i h e = absurd h
shifts-none (pos d ∷ ds) i h e =
    ground (arith, shifts-none ds i h.1, shifts-none ds (i - 1) h.1, any-below (i - 1) d ds h.0)
