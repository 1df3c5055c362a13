-- ===== src/Dns/Validator.antt =====
-- core/dns/validator.go: the checks of a response, in their order. A record of a section may be nil;
-- an error is a value with what its message shows. dns.Fqdn is a parameter.
pub mod Accepted
use v2ray_a.Base.{
  ℕ, suc, Bool, true, false, Option, none, some, List, [], ◌∷◌, Text, is_empty, text_beq, eqb,
  eqb_ℤ, if◌then◌else◌, ℤ, pos, negsuc, leb, not, length, ◌&&◌, ◌||◌,
}
use v2ray_a.Dns.Types.{Msg, Rr, Question, rcode_success, type_opt}

pub data Section : Type 0 where
  in_answer in_authority in_additional : Section

pub data ValidationError : Type 0 where
  nil_message not_response no_question : ValidationError
  empty_question_name zero_question_type zero_question_class : ValidationError
  invalid_rcode : ℤ → ValidationError
  nil_record zero_type empty_name : Section → ℕ → ValidationError
  no_answers : ValidationError
  name_mismatch : Text → Text → ValidationError
  type_mismatch : ℕ → ℕ → ValidationError

-- Known codes are within the range that is allowed anyway.
unfoldable pub validate_rcode : ℤ → Option ValidationError
validate_rcode (pos n) = if leb n 4095 then none else some (invalid_rcode (pos n))
validate_rcode (negsuc n) = some (invalid_rcode (negsuc n))

-- One round of the loop over each section.
unfoldable pub check_record : Section → ℕ → Option Rr → Option ValidationError
check_record s i none = some (nil_record s i)
check_record in_answer i (some rr) =
    if eqb rr.rrtype 0
    then some (zero_type in_answer i)
    else if is_empty rr.header.name
    then some (empty_name in_answer i)
    else none
check_record in_authority i (some rr) =
    if eqb rr.rrtype 0 then some (zero_type in_authority i) else none
check_record in_additional i (some rr) =
    if eqb rr.rrtype type_opt
    then none
    else if eqb rr.rrtype 0
    then some (zero_type in_additional i)
    else none

-- The rest of a validation is done where nothing was found so far.
abbrev pub or_next : Option ValidationError → Option ValidationError → Option ValidationError
or_next none next = next
or_next (some e) next = some e

unfoldable pub check_section : Section → ℕ → List (Option Rr) → Option ValidationError
unfolding check_record
check_section s i [] = none
check_section s i (r ∷ rs) = or_next (check_record s i r) (check_section s (suc i) rs)

unfoldable pub check_question : List Question → Option ValidationError
check_question [] = some no_question
check_question (q ∷ qs) =
    if is_empty q.name
    then some empty_question_name
    else if eqb q.qtype 0
    then some zero_question_type
    else if eqb q.qclass 0
    then some zero_question_class
    else none

-- A nil message is `none`.
unfoldable pub validate_response : Option (Msg (Option Rr)) → Option ValidationError
unfolding check_question validate_rcode check_section
validate_response none = some nil_message
validate_response (some m) =
    if not m.response
    then some not_response
    else or_next (check_question m.question) (
        or_next (validate_rcode m.rcode) (
          or_next (check_section in_answer 0 m.answer)
            (or_next (check_section in_authority 0 m.ns) (check_section in_additional 0 m.extra))))

unfoldable pub validate_answer_count : Option (Msg (Option Rr)) → Option ValidationError
validate_answer_count none = some nil_message
validate_answer_count (some m) =
    if eqb_ℤ m.rcode rcode_success && eqb (length m.answer) 0 then some no_answers else none

unfoldable pub validate_question_match :
    (Text → Text) → Option (Msg (Option Rr)) → Text → ℕ → Option ValidationError
validate_question_match fqdn none expected_name expected_qtype = some nil_message
validate_question_match fqdn (some m) expected_name expected_qtype = elim m.question [
  | [] ↦ some no_question
  | q ∷ qs ↦
      if not (text_beq q.name (fqdn expected_name))
      then some (name_mismatch q.name (fqdn expected_name))
      else if not (eqb q.qtype expected_qtype)
      then some (type_mismatch q.qtype expected_qtype)
      else none
]
