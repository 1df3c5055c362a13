-- ===== src/Dns/Validator/Accepted.antt =====
-- core/dns/validator.go: which responses are accepted, and where a bad record is reported.
use v2ray_a.Base.{
  ℕ, suc, ◌+◌, ◌≤◌, ◌≡◌, ◌≢◌, ◌↔◌, inl, inr, refl, true, Option, none, some, List, [], ◌∷◌, ◌++◌,
  Text, is_empty, ℤ, pos, negsuc, All, arith, length, Bool-cases, Option-cases, ap, sym, subst, ◌∙◌,
}
use v2ray_a.Dns.Types.{Msg, Rr, Question}
use v2ray_a.Dns.Validator.{
  Section, in_answer, in_authority, in_additional, ValidationError, validate_response,
  validate_rcode, check_record, check_section, check_question, or_next,
}

-- A record that a section may hold.
abbrev pub IsGood : Section → Option Rr → Type 0
IsGood s none = ⊥
IsGood in_answer (some rr) = (rr.rrtype ≢ 0) × (rr.header.name ≢ [])
IsGood in_authority (some rr) = rr.rrtype ≢ 0
IsGood in_additional (some rr) = rr.rrtype ≢ 0

abbrev pub IsGoodQuestion : List Question → Type 0
IsGoodQuestion [] = ⊥
IsGoodQuestion (q ∷ qs) = (q.name ≢ []) × (q.qtype ≢ 0) × (q.qclass ≢ 0)

pub record Accepted (m : Msg (Option Rr)) : Type 0 where
  pub response : m.response ≡ true
  pub question : IsGoodQuestion m.question
  pub rcode : (n : ℕ) × (m.rcode ≡ pos n) × (n ≤ 4095)
  pub answer : All (IsGood in_answer) m.answer
  pub authority : All (IsGood in_authority) m.ns
  pub additional : All (IsGood in_additional) m.extra

empty_iff : (t : Text) → (is_empty t ≡ true) ↔ (t ≡ [])
empty_iff [] = (λ h. refl, λ h. refl)
empty_iff (x ∷ t) = (λ h. cc, λ h. cc)

record_iff : (s : Section) (i : ℕ) (r : Option Rr) → (check_record s i r ≡ none) ↔ IsGood s r
unfolding check_record
record_iff s i none = (λ h. cc, λ h. absurd h)
record_iff in_answer i (some rr) = ground (arith, empty_iff rr.header.name)
record_iff in_authority i (some rr) = ground arith
record_iff in_additional i (some rr) = ground arith

or_next_iff : (a b : Option ValidationError) → (or_next a b ≡ none) ↔ ((a ≡ none) × (b ≡ none))
or_next_iff none b = (λ h. (refl, h), λ h. h.1)
or_next_iff (some e) b = (λ h. cc, λ h. cc)

section_iff :
    (s : Section) (i : ℕ) (rs : List (Option Rr))
    → (check_section s i rs ≡ none) ↔ All (IsGood s) rs
unfolding check_section
section_iff s i [] = (λ h. tt, λ h. refl)
section_iff s i (r ∷ rs) =
    let (split, join) = or_next_iff (check_record s i r) (check_section s (suc i) rs) in
    (
      λ h. let (a, b) = split h in ((record_iff s i r).0 a, (section_iff s (suc i) rs).0 b),
      λ h. join ((record_iff s i r).1 h.0, (section_iff s (suc i) rs).1 h.1),
    )

question_iff : (qs : List Question) → (check_question qs ≡ none) ↔ IsGoodQuestion qs
unfolding check_question
question_iff [] = (λ h. cc, λ h. absurd h)
question_iff (q ∷ qs) = ground (arith, empty_iff q.name)

rcode_iff : (r : ℤ) → (validate_rcode r ≡ none) ↔ ((n : ℕ) × (r ≡ pos n) × (n ≤ 4095))
unfolding validate_rcode
rcode_iff (pos n) =
    (λ h. (n, refl, ground arith), λ h. let (k, e, b) = h in let q : n ≡ k = cc in ground arith)
rcode_iff (negsuc n) = (λ h. cc, λ h. let (k, e, b) = h in absurd cc)

-- The checks of a message that is a response.
abbrev checks : Msg (Option Rr) → Option ValidationError
checks m = or_next (check_question m.question) (
    or_next (validate_rcode m.rcode) (
      or_next (check_section in_answer 0 m.answer)
        (or_next (check_section in_authority 0 m.ns) (check_section in_additional 0 m.extra))))

-- A message is accepted exactly if it is a response, its first question is complete, its code is
-- between 0 and 4095, known or not, no record is nil or of type zero, and no answer
-- record has an empty name; more is not asked of a name or of a code.
pub validate_response_iff : (m : Msg (Option Rr)) → (validate_response (some m) ≡ none) ↔ Accepted m
unfolding validate_response
validate_response_iff m = (
  λ h. elim (Bool-cases m.response) [
    | inl response ↦ sound response (sym (checked response) ∙ h)
    | inr query ↦ ground (arith, query)
  ],
  λ v. checked v.response ∙ complete v,
)
  where
    checked : m.response ≡ true → validate_response (some m) ≡ checks m
    checked response = simp (response, validate_response)

    sound : m.response ≡ true → checks m ≡ none → Accepted m
    sound response h =
        let (q, h1) = (or_next_iff _ _).0 h in
        let (r, h2) = (or_next_iff _ _).0 h1 in
        let (a, h3) = (or_next_iff _ _).0 h2 in
        let (n, x) = (or_next_iff _ _).0 h3 in
        record {
          response = response;
          question = (question_iff m.question).0 q;
          rcode = (rcode_iff m.rcode).0 r;
          answer = (section_iff in_answer 0 m.answer).0 a;
          authority = (section_iff in_authority 0 m.ns).0 n;
          additional = (section_iff in_additional 0 m.extra).0 x;
        }

    complete : Accepted m → checks m ≡ none
    complete v = rw (
      (question_iff m.question).1 v.question,
      (rcode_iff m.rcode).1 v.rcode,
      (section_iff in_answer 0 m.answer).1 v.answer,
      (section_iff in_authority 0 m.ns).1 v.authority,
      (section_iff in_additional 0 m.extra).1 v.additional,
    )

-- An error in a section is that of its first bad record, reported by its position.
check_section-first :
    (s : Section) (i : ℕ) (rs : List (Option Rr)) (e : ValidationError)
    → check_section s i rs ≡ some e
    → (before : List (Option Rr)) × (bad : Option Rr) × (after : List (Option Rr)) × (rs
        ≡ before ++ (bad ∷ after))
      × All (IsGood s) before
      × (check_record s (i + length before) bad ≡ some e)
unfolding check_section
check_section-first s i [] e h = cc
check_section-first s i (r ∷ rs) e h = elim (Option-cases (check_record s i r)) [
  | inl good ↦
      let later : check_section s (suc i) rs ≡ some e = ground arith in
      let (before, bad, after, split, goods, found) = check_section-first s (suc i) rs e later in
      let shift : suc i + length before ≡ i + suc (length before) = omega arith in
      (
        r ∷ before,
        bad,
        after,
        ap (◌∷◌ r) split,
        ((record_iff s i r).0 good, goods),
        subst (λ n. check_record s n bad ≡ some e) shift found,
      )
  | inr (e', bad) ↦
      let same : i ≡ i + 0 = omega arith in
      ([], r, rs, refl, tt, subst (λ n. check_record s n r ≡ some e) same (ground arith))
]
