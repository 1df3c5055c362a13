-- ===== src/Dns/Listener.antt =====
-- core/dns/listener.go: what the listener does with a message. Sockets, the start and the stop are
-- not in the model. SetReply, SetRcode, Pack and Unpack of miekg/dns are an interface; the handler
-- is any function on a state of its own.
pub mod Replies
use v2ray_a.Base.{
  ℕ, Bool, true, false, not, Option, none, some, List, [], ◌∷◌, Text, eqb, ltb, if◌then◌else◌, ℤ,
}
use v2ray_a.Dns.Types.{Msg, Rr, Question, DnsQuery, DnsResponse, rcode_server_failure, type_opt}
use v2ray_a.Dns.Loop.{Opt, Edns, carries_own_token}

abbrev pub type_rrsig : ℕ
type_rrsig = 46

-- dns.MinMsgSize
abbrev pub min_msg_size : ℕ
min_msg_size = 512

-- `set_reply` and `set_rcode` are the methods on a message and a request; `new_msg` is `new(dns.Msg)`.
pub record Wire : Type 0 where
  pub new_msg : Msg Rr
  pub set_reply : Msg Rr → Msg Rr → Msg Rr
  pub set_rcode : Msg Rr → Msg Rr → ℤ → Msg Rr
  pub pack : Msg Rr → Option Text
  pub unpack : Text → Option (Msg Rr)

unfoldable pub keep_records : (Rr → Bool) → List Rr → List Rr
keep_records keep [] = []
keep_records keep (rr ∷ rest) =
    let later = keep_records keep rest in if keep rr then rr ∷ later else later

abbrev pub is_sig : Rr → Bool
is_sig rr = eqb rr.rrtype type_rrsig

abbrev pub is_opt : Rr → Bool
is_opt rr = eqb rr.rrtype type_opt

unfoldable pub drop_sigs : List Rr → List Rr
unfolding keep_records
drop_sigs rrs = keep_records (λ rr. not (is_sig rr)) rrs

abbrev pub without_opt : Msg Rr → Msg Rr
unfolding keep_records
without_opt m = record m { extra = keep_records (λ rr. not (is_opt rr)) m.extra }

abbrev pub without_sigs : Msg Rr → Msg Rr
unfolding drop_sigs
without_sigs m = record m {
  answer = drop_sigs m.answer;
  ns = drop_sigs m.ns;
  extra = drop_sigs m.extra;
}

abbrev pub at_least : ℕ → ℕ → ℕ
at_least least n = if ltb n least then least else n

unfoldable pub sanitize_for_client : Edns → Msg Rr → Msg Rr → Msg Rr
sanitize_for_client e m query = elim (e.is_edns0 query) [
  | none ↦ without_sigs (without_opt m)
  | some opt ↦
      let m' = if opt.wants_dnssec then without_opt m else without_sigs (without_opt m) in
      e.set_edns0 m' (at_least min_msg_size opt.udp_size) opt.wants_dnssec
]

-- What the handler gives: an error, no response, or one.
pub data Outcome : Type 0 where
  handler_error : Outcome
  handled : Option DnsResponse → Outcome

-- What the listener writes to the client: nothing, or a message.
pub data Written : Type 0 where
  silent : Written
  wrote : Msg Rr → Written

abbrev pub query_of : Question → Option Text → DnsQuery
query_of q client = record {
  name = q.name;
  qtype = q.qtype;
  qclass = 0;
  client_ip = client;
  is_bootstrap = false;
}

-- A reply that says that the server failed.
abbrev pub failure : Wire → Msg Rr → Msg Rr
failure x msg = record (x.set_reply x.new_msg msg) { rcode = rcode_server_failure }

abbrev pub unpacked : Wire → Option Text → Option (Msg Rr)
unpacked x none = none
unpacked x (some bytes) = x.unpack bytes

-- The reply to a request that the handler has dealt with.
unfoldable pub reply_to : Wire → Edns → Msg Rr → Outcome → Msg Rr
unfolding sanitize_for_client
reply_to x e msg handler_error = failure x msg
reply_to x e msg (handled none) = sanitize_for_client e (x.set_reply x.new_msg msg) msg
reply_to x e msg (handled (some resp)) = elim resp.raw_msg [
  | none ↦
      sanitize_for_client e
        (record (x.set_reply x.new_msg msg) {
          rcode = resp.rcode;
          answer = resp.answer;
          ns = resp.authority;
          extra = resp.additional;
        })
        msg
  | some raw ↦ elim (unpacked x (x.pack raw)) [
    | none ↦ failure x msg
    | some m ↦ sanitize_for_client e (record (x.set_reply m msg) { rcode = m.rcode }) msg
  ]
]

-- handlePacket, of a message that is not nil. `client` is the address of the client, if it is known.
unfoldable pub handle_packet :
    {S : Type 0}
    → Wire
    → Edns
    → Text
    → (S → DnsQuery → S × Outcome)
    → S
    → Option Text
    → Msg Rr
    → S × Written
unfolding reply_to
handle_packet x e token handler s client msg = elim msg.question [
  | [] ↦ (s, silent)
  | q ∷ qs ↦
      if carries_own_token e token msg
      then (s, wrote (x.set_rcode x.new_msg msg rcode_server_failure))
      else (let (s', outcome) = handler s (query_of q client) in
          (s', wrote (reply_to x e msg outcome)))
]
