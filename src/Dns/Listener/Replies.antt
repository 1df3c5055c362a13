-- ===== src/Dns/Listener/Replies.antt =====
-- core/dns/listener.go: which queries are refused as looped, and what a client gets to see.
use v2ray_a.Base.{◌≡◌, refl, Bool, true, not, Option, none, List, [], ◌∷◌, Text, All, arith}
use v2ray_a.Dns.Types.{Msg, Rr, Question, DnsQuery, rcode_server_failure}
use v2ray_a.Dns.Loop.{Edns, EdnsLaws, mark_outgoing}
use v2ray_a.Dns.Loop.Token.{carries-mark_outgoing}
use v2ray_a.Dns.Listener.{
  Wire, keep_records, is_sig, is_opt, drop_sigs, sanitize_for_client, without_opt, Outcome, wrote,
  handle_packet,
}

-- A query that this process marked on its way out, and that comes back with a question in it, is
-- answered as a failure, whatever the handler would do, and does not reach the handler.
pub handle_packet-marked :
    {S : Type 0} (x : Wire) (e : Edns) (token : Text) (handler : S → DnsQuery → S × Outcome) (s : S)
    (client : Option Text) (sent : Msg Rr) (q : Question) (qs : List Question)
    → EdnsLaws e
    → (mark_outgoing e token sent).question ≡ q ∷ qs
    → let back = mark_outgoing e token sent in
      handle_packet x e token handler s client back
      ≡ (s, wrote (x.set_rcode x.new_msg back rcode_server_failure))
unfolding handle_packet
handle_packet-marked x e token handler s client sent q qs laws asked =
    simp (asked, carries-mark_outgoing e laws token sent, handle_packet)

keep_records-All :
    (keep : Rr → Bool) (rrs : List Rr) → All (λ rr. keep rr ≡ true) (keep_records keep rrs)
unfolding keep_records
keep_records-All keep [] = tt
keep_records-All keep (rr ∷ rest) = ground (arith, keep_records-All keep rest)

keep_records-keeps :
    (keep other : Rr → Bool) (rrs : List Rr)
    → All (λ rr. other rr ≡ true) rrs
    → All (λ rr. other rr ≡ true) (keep_records keep rrs)
unfolding keep_records
keep_records-keeps keep other [] h = tt
keep_records-keeps keep other (rr ∷ rest) h = ground (arith, keep_records-keeps keep other rest h.1)

-- No record of the kinds in question.
abbrev pub NoSigs : List Rr → Type 0
NoSigs rrs = All (λ rr. not (is_sig rr) ≡ true) rrs

abbrev pub NoOpts : List Rr → Type 0
NoOpts rrs = All (λ rr. not (is_opt rr) ≡ true) rrs

-- A client that sent no OPT record gets none back, and no signatures; nothing else of the message
-- than its records is changed.
sanitize_for_client-plain :
    (e : Edns) (m query : Msg Rr)
    → e.is_edns0 query ≡ none
    → let r = sanitize_for_client e m query in
      NoOpts r.extra
      × NoSigs r.answer
      × NoSigs r.ns
      × NoSigs r.extra
      × (r ≡ record m { answer = r.answer; ns = r.ns; extra = r.extra })
unfolding sanitize_for_client drop_sigs
sanitize_for_client-plain e m query plain =
    simp (plain, sanitize_for_client)
      (
        keep_records-keeps _ _ _ (keep_records-All (λ rr. not (is_opt rr)) m.extra),
        keep_records-All _ m.answer,
        keep_records-All _ m.ns,
        keep_records-All (λ rr. not (is_sig rr)) (without_opt m).extra,
        refl,
      )
