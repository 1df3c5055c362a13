-- ===== src/Base/Bytes.antt =====
-- Go strings and byte slices as lists of bytes, and what the source uses of package `strings`.
use Prim.Native.Char.{code}
use Prim.Native.Nat.{ℕ, ◌-◌}
use Prim.Native.String.{String}
use mathlib.Core.Path.{◌≡◌, refl}
use mathlib.Core.Logic.{◌↔◌}
use mathlib.Core.Bool.{Bool, true, false, ◌&&◌}
use mathlib.Core.List.{List, [], ◌∷◌}
use native.Mathlib.Omega.{arith}
use v2ray_a.Base.Tests.{Eq, eqb, leb, if◌then◌else◌}
use v2ray_a.Base.Lists.{length, take, drop}

abbrev pub Text : Type 0
Text = List ℕ

-- The bytes of an ASCII literal.
abbrev pub codes : String → Text
codes String.[] = []
codes (String.◌∷◌ c s) = code c ∷ codes s

abbrev pub text_beq : Text → Text → Bool
text_beq [] [] = true
text_beq [] (y ∷ ys) = false
text_beq (x ∷ xs) [] = false
text_beq (x ∷ xs) (y ∷ ys) = eqb x y && text_beq xs ys

text_beq→eq : (xs ys : Text) → text_beq xs ys ≡ true → xs ≡ ys
text_beq→eq [] [] h = refl
text_beq→eq [] (y ∷ ys) h = cc
text_beq→eq (x ∷ xs) [] h = cc
text_beq→eq (x ∷ xs) (y ∷ ys) h = ground (arith, text_beq→eq xs ys)

pub text_beq_refl : (xs : Text) → text_beq xs xs ≡ true
text_beq_refl [] = refl
text_beq_refl (x ∷ xs) = ground (arith, text_beq_refl xs)

pub text_beq_iff : (xs ys : Text) → (text_beq xs ys ≡ true) ↔ (xs ≡ ys)
text_beq_iff xs ys = (text_beq→eq xs ys, λ e. ground (arith, text_beq_refl xs))

instance abbrev pub text_eq : Eq Text
text_eq = record { beq = text_beq; beq_iff = text_beq_iff }

abbrev pub is_empty : Text → Bool
is_empty [] = true
is_empty (x ∷ xs) = false

-- strings.HasPrefix, TrimPrefix
abbrev pub has_prefix : Text → Text → Bool
has_prefix s [] = true
has_prefix [] (y ∷ ys) = false
has_prefix (x ∷ xs) (y ∷ ys) = eqb x y && has_prefix xs ys

abbrev pub trim_prefix : Text → Text → Text
trim_prefix s prefix = if has_prefix s prefix then drop (length prefix) s else s

-- strings.HasSuffix: `len(s) >= len(suffix) && s[len(s)-len(suffix):] == suffix`; TrimSuffix
unfoldable pub has_suffix : Text → Text → Bool
has_suffix s suffix =
    leb (length suffix) (length s) && text_beq (drop (length s - length suffix) s) suffix

unfoldable pub trim_suffix : Text → Text → Text
unfolding has_suffix
trim_suffix s suffix = if has_suffix s suffix then take (length s - length suffix) s else s

-- strings.Contains of one byte
abbrev pub contains_byte : Text → ℕ → Bool
contains_byte [] b = false
contains_byte (x ∷ xs) b = if eqb x b then true else contains_byte xs b
