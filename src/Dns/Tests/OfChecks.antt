-- ===== src/Dns/Tests/OfChecks.antt =====
-- Concrete runs of core/dns/config.go, validator.go and response.go.
use v2ray_a.Base.{Text, ◌≡◌, ◌↔◌, refl, true, false, Option, none, some, [], ◌∷◌, codes, length}
use v2ray_a.Dns.Types.{Msg, Rr, rcode_success}
use v2ray_a.Dns.Config.{default_dns_module_config, validate}
use v2ray_a.Dns.Config.Valid.{IsValidListener, IsValidCache, validate_iff}
use v2ray_a.Dns.Validator.{validate_response}
use v2ray_a.Dns.Validator.Accepted.{Accepted, validate_response_iff}
use v2ray_a.Dns.Response.{synthesize_dns64}
use v2ray_a.Dns.Response.Synthesis.{synthesize_dns64_idempotent}
use v2ray_a.Dns.Tests.Samples.{record_a}

validate_iff_example : (validate default_dns_module_config ≡ none) ↔ (
    IsValidListener default_dns_module_config.listener
    × IsValidCache default_dns_module_config.cache)
validate_iff_example = validate_iff default_dns_module_config

default_valid : validate default_dns_module_config ≡ none
unfolding validate default_dns_module_config
default_valid = refl

abbrev message_a : Msg (Option Rr)
message_a = record {
  id = 7;
  response = true;
  rcode = rcode_success;
  recursion_available = true;
  authoritative = false;
  authenticated_data = false;
  checking_disabled = false;
  truncated = false;
  compress = false;
  question = record { name = codes "a."; qtype = 1; qclass = 1 } ∷ [];
  answer = some record_a ∷ none ∷ [];
  ns = [];
  extra = [];
}

validate_response_iff_example : (validate_response (some message_a) ≡ none) ↔ Accepted message_a
validate_response_iff_example = validate_response_iff message_a

abbrev answer_a : Msg Rr
answer_a = record {
  id = 7;
  response = true;
  rcode = rcode_success;
  recursion_available = true;
  authoritative = false;
  authenticated_data = false;
  checking_disabled = false;
  truncated = false;
  compress = false;
  question = record { name = codes "a."; qtype = 28; qclass = 1 } ∷ [];
  answer = record_a ∷ [];
  ns = [];
  extra = [];
}

-- 64:ff9b::
abbrev nat64 : Option Text
nat64 = some (0 ∷ 100 ∷ 255 ∷ 155 ∷ 0 ∷ 0 ∷ 0 ∷ 0 ∷ 0 ∷ 0 ∷ 0 ∷ 0 ∷ 0 ∷ 0 ∷ 0 ∷ 0 ∷ [])

synthesized_test : length (synthesize_dns64 true nat64 answer_a).answer ≡ 2
unfolding synthesize_dns64
synthesized_test = refl

synthesize_dns64_idempotent_example :
    synthesize_dns64 true nat64 (synthesize_dns64 true nat64 answer_a)
    ≡ synthesize_dns64 true nat64 answer_a
synthesize_dns64_idempotent_example = synthesize_dns64_idempotent true nat64 answer_a
