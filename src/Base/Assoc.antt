-- ===== src/Base/Assoc.antt =====
-- Go maps as association lists: a read of a missing key gives `none`.
use mathlib.Core.Path.{◌≡◌, refl}
use mathlib.Core.List.{List, [], ◌∷◌}
use mathlib.Core.Option.{Option, none, some}
use native.Mathlib.Omega.{arith}
use v2ray_a.Base.Tests.{Eq, ◌==◌, if◌then◌else◌}

module _ {ℓ κ} {K : Type ℓ} {V : Type κ} ⦃keys : Eq K⦄ where
  unfoldable pub lookup : K → List (K × V) → Option V
  lookup wanted [] = none
  lookup wanted ((key, held) ∷ rest) = if key == wanted then some held else lookup wanted rest

  -- `m[k] = v`
  unfoldable pub insert : K → V → List (K × V) → List (K × V)
  insert k new [] = (k, new) ∷ []
  insert k new ((key, held) ∷ rest) =
      let later = insert k new rest in if key == k then (k, new) ∷ rest else (key, held) ∷ later

  -- `delete(m, k)`
  unfoldable pub delete : K → List (K × V) → List (K × V)
  delete gone [] = []
  delete gone ((key, held) ∷ rest) =
      let later = delete gone rest in if key == gone then later else (key, held) ∷ later

  -- What a key finds after a write or a deletion, of itself or of another.
  pub lookup-insert :
      (k wanted : K) (new : V) (entries : List (K × V))
      → lookup wanted (insert k new entries)
        ≡ (if k == wanted then some new else lookup wanted entries)
  unfolding insert lookup
  lookup-insert k wanted new [] = refl
  lookup-insert k wanted new ((key, held) ∷ rest) =
      let ih = lookup-insert k wanted new rest in
      ground (arith, ih, keys.beq_iff k wanted, keys.beq_iff key k, keys.beq_iff key wanted)

  pub lookup-delete :
      (gone wanted : K) (entries : List (K × V))
      → lookup wanted (delete gone entries)
        ≡ (if gone == wanted then none else lookup wanted entries)
  unfolding delete lookup
  lookup-delete gone wanted [] = ground arith
  lookup-delete gone wanted ((key, held) ∷ rest) =
      let ih = lookup-delete gone wanted rest in
      ground (arith, ih, keys.beq_iff gone wanted, keys.beq_iff key gone, keys.beq_iff key wanted)
