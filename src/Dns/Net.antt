-- ===== src/Dns/Net.antt =====
-- What core/dns/rule.go uses of Go's packages net and regexp. An address is its bytes, 4 or 16.
-- The parsers of both packages are parameters of the model.
use v2ray_a.Base.{
  ◌≡◌, refl, Bool, true, false, ◌&&◌, Option, none, some, [], ◌∷◌, Text, eqb, if◌then◌else◌, length,
  drop, is_empty,
}
use Prim.Native.Nat.{bit_and}

pub record IpNet : Type 0 where
  pub ip : Text
  pub mask : Text

-- A compiled expression is the set of the texts that it matches.
pub record Parsers : Type 0 where
  pub parse_ip : Text → Option Text
  pub parse_cidr : Text → Option IpNet
  pub compile : Text → Option (Text → Bool)

abbrev mapped_prefix : Text → Bool
mapped_prefix (x0 ∷ x1 ∷ x2 ∷ x3 ∷ x4 ∷ x5 ∷ x6 ∷ x7 ∷ x8 ∷ x9 ∷ a ∷ b ∷ rest) =
    eqb x0 0
    && eqb x1 0
    && eqb x2 0
    && eqb x3 0
    && eqb x4 0
    && eqb x5 0
    && eqb x6 0
    && eqb x7 0
    && eqb x8 0
    && eqb x9 0
    && eqb a 255
    && eqb b 255
mapped_prefix other = false

-- IP.To4: four bytes, or the last four of an IPv4 address in IPv6 form.
unfoldable pub to4 : Text → Option Text
to4 ip =
    if eqb (length ip) 4
    then some ip
    else if eqb (length ip) 16 && mapped_prefix ip
    then some (drop 12 ip)
    else none

abbrev or_self : Option Text → Text → Text
or_self none ip = ip
or_self (some v4) ip = v4

-- networkNumberAndMask: the address and the mask in one length, or nothing.
unfoldable pub network_number : IpNet → Option (Text × Text)
unfolding to4
network_number n =
    let ip = or_self (to4 n.ip) n.ip in
    let mask = n.mask in
    if eqb (length mask) 4 && eqb (length ip) 4
    then some (ip, mask)
    else if eqb (length mask) 16 && eqb (length ip) 4
    then some (ip, drop 12 mask)
    else if eqb (length mask) 16 && eqb (length ip) 16
    then some (ip, mask)
    else none

abbrev same_masked : Text → Text → Text → Bool
same_masked [] [] [] = true
same_masked (n ∷ ns) (m ∷ ms) (x ∷ xs) = eqb (bit_and n m) (bit_and x m) && same_masked ns ms xs
same_masked _ _ _ = false

-- IPNet.Contains: a network that is none holds the address that is none.
unfoldable pub contains : IpNet → Text → Bool
unfolding network_number to4
contains n ip =
    let x = or_self (to4 ip) ip in
    elim (network_number n) [ none ↦ is_empty x | some (number, mask) ↦ same_masked number mask x ]

abbrev slash_private : IpNet
slash_private = record { ip = 10 ∷ 0 ∷ 0 ∷ 0 ∷ []; mask = 255 ∷ 0 ∷ 0 ∷ 0 ∷ [] }

contains_test : contains slash_private (10 ∷ 1 ∷ 2 ∷ 3 ∷ []) ≡ true
unfolding contains
contains_test = refl

contains_mapped_test :
    contains slash_private (0 ∷ 0 ∷ 0 ∷ 0 ∷ 0 ∷ 0 ∷ 0 ∷ 0 ∷ 0 ∷ 0 ∷ 255 ∷ 255 ∷ 11 ∷ 1 ∷ 2 ∷ 3 ∷ [])
    ≡ false
unfolding contains
contains_mapped_test = refl
