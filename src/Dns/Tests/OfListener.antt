-- ===== src/Dns/Tests/OfListener.antt =====
-- Concrete runs of the listener, with OPT records among the additional records of a message.
use v2ray_a.Base.{
  ℕ, ◌≡◌, refl, Bool, true, false, Option, none, some, List, [], ◌∷◌, ◌++◌, codes, eqb,
  if◌then◌else◌, arith,
}
use v2ray_a.Dns.Types.{
  Msg, Rr, Rdata, a_data, aaaa_data, opt_data, other_data, EdnsOption, other_option, Question,
  DnsQuery, rcode_server_failure, rcode_success, type_opt,
}
use v2ray_a.Dns.Loop.{Opt, Edns, EdnsLaws, mark_outgoing, mark_options}
use v2ray_a.Dns.Listener.{Wire, Outcome, handler_error, wrote, handle_packet}
use v2ray_a.Dns.Listener.Replies.{handle_packet-marked}
use v2ray_a.Dns.Tests.Samples.{record_a}

abbrev opt_record : List EdnsOption → ℕ → ℕ → Rr
opt_record options size ttl = record {
  header = record { name = codes "."; rrtype = type_opt; class = size; ttl = ttl };
  rdata = opt_data options;
}

abbrev read_opt : Rr → Rdata → Option Opt
read_opt rr (opt_data options) =
    some (record { options = options; udp_size = rr.class; wants_dnssec = eqb rr.ttl 1 })
read_opt rr (a_data t) = none
read_opt rr (aaaa_data t) = none
read_opt rr (other_data t) = none

abbrev or_else : Option Opt → Option Opt → Option Opt
or_else none later = later
or_else (some opt) later = some opt

abbrev first_opt : List Rr → Option Opt
first_opt [] = none
first_opt (rr ∷ rest) = or_else (read_opt rr rr.rdata) (first_opt rest)

abbrev with_options : Rr → List EdnsOption → List Rr → List Rr → Option Opt → List Rr
with_options rr options rest later none = rr ∷ later
with_options rr options rest later (some opt) = record rr { rdata = opt_data options } ∷ rest

abbrev put_options : List EdnsOption → List Rr → List Rr
put_options options [] = []
put_options options (rr ∷ rest) =
    with_options rr options rest (put_options options rest) (read_opt rr rr.rdata)

abbrev small_edns : Edns
small_edns = record {
  is_edns0 = λ m. first_opt m.extra;
  set_edns0 = λ m size dnssec. record m {
    extra = m.extra ++ (opt_record [] size (if dnssec then 1 else 0) ∷ []);
  };
  set_options = λ m options. record m { extra = put_options options m.extra };
}

first_opt-append :
    (rrs : List Rr) (size : ℕ) (dnssec : Bool)
    → first_opt rrs ≡ none
    → first_opt (rrs ++ (opt_record [] size (if dnssec then 1 else 0) ∷ []))
      ≡ some (record { options = []; udp_size = size; wants_dnssec = dnssec })
first_opt-append [] size true h = refl
first_opt-append [] size false h = refl
first_opt-append (rr ∷ rrs) size dnssec h = ground (arith, first_opt-append rrs size dnssec)

first_opt-put_options :
    (rrs : List Rr) (options : List EdnsOption) (opt : Opt)
    → first_opt rrs ≡ some opt
    → first_opt (put_options options rrs) ≡ some (record opt { options = options })
first_opt-put_options [] options opt h = absurd cc
first_opt-put_options (rr ∷ rrs) options opt h =
    ground (arith, first_opt-put_options rrs options opt)

small_edns-EdnsLaws : EdnsLaws small_edns
small_edns-EdnsLaws = record {
  finds_new = λ m size dnssec absent. first_opt-append m.extra size dnssec absent;
  reads_back = λ m opt options found. first_opt-put_options m.extra options opt found;
}

abbrev empty_msg : Msg Rr
empty_msg = record {
  id = 0;
  response = false;
  rcode = rcode_success;
  recursion_available = false;
  authoritative = false;
  authenticated_data = false;
  checking_disabled = false;
  truncated = false;
  compress = false;
  question = [];
  answer = [];
  ns = [];
  extra = [];
}

abbrev small_wire : Wire
small_wire = record {
  new_msg = empty_msg;
  set_reply = λ m req. record m { id = req.id; response = true; question = req.question };
  set_rcode = λ m req rcode. record m {
    id = req.id;
    response = true;
    question = req.question;
    rcode = rcode;
  };
  pack = λ m. some [];
  unpack = λ bytes. some empty_msg;
}

abbrev question_a : Question
question_a = record { name = codes "a."; qtype = 1; qclass = 1 }

abbrev sent : Msg Rr
sent = record empty_msg {
  id = 7;
  question = question_a ∷ [];
  extra = opt_record (other_option 10 [] ∷ []) 1232 0 ∷ [];
}

abbrev count_calls : ℕ → DnsQuery → ℕ × Outcome
count_calls n q = (n, handler_error)

handle_packet-marked_example :
    let back = mark_outgoing small_edns (codes "t") sent in
    handle_packet small_wire small_edns (codes "t") count_calls 0 none back
    ≡ (0, wrote (small_wire.set_rcode empty_msg back rcode_server_failure))
unfolding mark_outgoing mark_options
handle_packet-marked_example =
    handle_packet-marked small_wire small_edns (codes "t") count_calls 0 none sent question_a []
      small_edns-EdnsLaws refl

abbrev answer_msg : Msg Rr
answer_msg = record empty_msg {
  answer =
      record_a
      ∷ record record_a { header = record { name = codes "a."; rrtype = 46; class = 1; ttl = 300 } }
      ∷ [];
  extra = opt_record [] 4096 1 ∷ [];
}
