-- ===== src/Dns/Rule/Suffix.antt =====
-- Which names the suffix rules of core/dns/rule.go match.
use v2ray_a.Base.{
  ◌-◌, ◌≡◌, ◌↔◌, true, false, ◌++◌, Text, text_beq, has_prefix, has_suffix, trim_suffix, arith,
  length, length-append, drop, take, text_beq_iff, take-append-drop, drop-append, ap, sym, ◌∙◌,
  Bool-cases, inl, inr, ◌⊎◌,
}
use v2ray_a.Dns.Rule.{match_suffix, dot}

has_suffix-append : (p suffix : Text) → has_suffix (p ++ suffix) suffix ≡ true
unfolding has_suffix
has_suffix-append p suffix =
    let n : length (p ++ suffix) - length suffix ≡ length p =
      omega (arith, length-append p suffix) in
    let e : drop (length (p ++ suffix) - length suffix) (p ++ suffix) ≡ suffix =
      drop-append _ p suffix (sym n) in
    ground (arith, length-append p suffix, (text_beq_iff _ suffix).1 e)

-- A suffix test holds exactly of the texts that end so.
pub has_suffix_iff :
    (s suffix : Text) → (has_suffix s suffix ≡ true) ↔ ((p : Text) × (s ≡ p ++ suffix))
unfolding has_suffix
has_suffix_iff s suffix =
    (there, λ h. ap (λ t. has_suffix t suffix) h.1 ∙ has_suffix-append h.0 suffix)
  where
    there : has_suffix s suffix ≡ true → (p : Text) × (s ≡ p ++ suffix)
    there h =
        let n = length s - length suffix in
        let e : drop n s ≡ suffix = (text_beq_iff (drop n s) suffix).0 (ground arith) in
        (take n s, sym (take-append-drop n s) ∙ ap (λ t. take n s ++ t) e)

-- A suffix pattern that does not begin with a dot matches its domain and what ends in a dot and
-- the domain, so never a name that only shares the last letters; one that begins with a dot
-- matches what ends in it.
match_suffix_iff :
    (pattern name : Text)
    → let domain = trim_suffix pattern dot in
      (match_suffix pattern name ≡ true) ↔ (
        ((has_prefix domain dot ≡ true) × (p : Text) × (name ≡ p ++ domain))
        ⊎ ((has_prefix domain dot ≡ false)
            × ((name ≡ domain) ⊎ ((p : Text) × (name ≡ p ++ (dot ++ domain))))))
unfolding match_suffix
match_suffix_iff pattern name = elim (Bool-cases (has_prefix (trim_suffix pattern dot) dot)) [
  | inl dotted ↦ (
    λ h.
        let q = (has_suffix_iff name (trim_suffix pattern dot)).0 (ground arith) in
        inl (dotted, q.0, q.1),
    λ c. dotted_matches dotted c,
  )
  | inr plain ↦ (λ h. inr (plain, plain_ends plain h), λ c. plain_matches plain c)
]
  where
    domain : Text
    domain = trim_suffix pattern dot

    Cases : Type 0
    Cases =
        ((has_prefix domain dot ≡ true) × (p : Text) × (name ≡ p ++ domain))
        ⊎ ((has_prefix domain dot ≡ false)
            × ((name ≡ domain) ⊎ ((p : Text) × (name ≡ p ++ (dot ++ domain)))))

    dotted_matches : has_prefix domain dot ≡ true → Cases → match_suffix pattern name ≡ true
    dotted_matches e (inl (_, p, q)) = ground (arith, (has_suffix_iff name domain).1 (p, q))
    dotted_matches e (inr (f, _)) = cc

    plain_ends :
        has_prefix domain dot ≡ false
        → match_suffix pattern name ≡ true
        → (name ≡ domain) ⊎ ((p : Text) × (name ≡ p ++ (dot ++ domain)))
    plain_ends e h = elim (Bool-cases (text_beq name domain)) [
      | inl same ↦ inl ((text_beq_iff name domain).0 same)
      | inr other ↦ inr ((has_suffix_iff name (dot ++ domain)).0 (ground arith))
    ]

    plain_matches : has_prefix domain dot ≡ false → Cases → match_suffix pattern name ≡ true
    plain_matches e (inl (f, _, _)) = cc
    plain_matches e (inr (_, inl same)) = ground (arith, (text_beq_iff name domain).1 same)
    plain_matches e (inr (_, inr (p, q))) =
        ground (arith, (has_suffix_iff name (dot ++ domain)).1 (p, q))
