-- ===== src/Dns/Loop/Token.antt =====
-- core/dns/loop.go: a marked query is known again.
use v2ray_a.Base.{
  ◌≡◌, refl, true, false, some, List, [], ◌∷◌, Text, text_beq_iff, any, arith, Option-cases, inl,
  inr,
}
use v2ray_a.Dns.Types.{Msg, Rr, EdnsOption, local_option, other_option}
use v2ray_a.Dns.Loop.{
  Opt, Edns, EdnsLaws, mark_options, mark_outgoing, carries_own_token, is_own_option, write_token,
}

mark_options-any :
    (token : Text) (options : List EdnsOption)
    → any (is_own_option token) (mark_options token options) ≡ true
unfolding mark_options
mark_options-any token [] = ground (arith, (text_beq_iff token token).1 refl)
mark_options-any token (other_option code bytes ∷ rest) = mark_options-any token rest
mark_options-any token (local_option code bytes ∷ rest) =
    ground (arith, (text_beq_iff token token).1 refl, mark_options-any token rest)

module _ (e : Edns) (laws : EdnsLaws e) (token : Text) where
  write_token-carries :
      (m : Msg Rr) (opt : Opt)
      → e.is_edns0 m ≡ some opt
      → carries_own_token e token (write_token e token m) ≡ true
  unfolding carries_own_token
  write_token-carries m opt found =
      rw (found, write_token)
        (rw (laws.reads_back m opt (mark_options token opt.options) found, carries_own_token)
          (mark_options-any token opt.options))

  -- Whatever options a query has, or none, once marked it is known as one of this process.
  pub carries-mark_outgoing :
      (m : Msg Rr) → carries_own_token e token (mark_outgoing e token m) ≡ true
  unfolding mark_outgoing
  carries-mark_outgoing m = elim (Option-cases (e.is_edns0 m)) [
    | inl absent ↦
        rw (absent, mark_outgoing)
          (write_token-carries (e.set_edns0 m 4096 false) _ (laws.finds_new m 4096 false absent))
    | inr (opt, found) ↦ simp (found, mark_outgoing) (write_token-carries m opt found)
  ]
