-- ===== src/Dns/Loop.antt =====
-- core/dns/loop.go: the token that marks the queries of this process. Finding and writing the OPT
-- record of a message is the work of miekg/dns, an interface here. The token is drawn once for a
-- process, so it is an argument; the log of the loops found is left out.
pub mod Token
use v2ray_a.Base.{
  ℕ, ◌≡◌, Bool, true, false, ◌&&◌, Option, none, some, List, [], ◌∷◌, ◌++◌, Text, eqb, text_beq,
  if◌then◌else◌, any,
}
use v2ray_a.Dns.Types.{Msg, Rr, EdnsOption, local_option, other_option}

-- What is read of an OPT record.
pub record Opt : Type 0 where
  pub options : List EdnsOption
  pub udp_size : ℕ
  pub wants_dnssec : Bool

-- `is_edns0` is Msg.IsEdns0, `set_edns0` is Msg.SetEdns0, and `set_options` is the write through
-- the pointer that IsEdns0 gives.
pub record Edns : Type 0 where
  pub is_edns0 : Msg Rr → Option Opt
  pub set_edns0 : Msg Rr → ℕ → Bool → Msg Rr
  pub set_options : Msg Rr → List EdnsOption → Msg Rr

-- What miekg/dns says of them: SetEdns0 appends an OPT record without options, IsEdns0 finds one
-- that is there, and a write through its pointer is seen by the next read.
pub record EdnsLaws (e : Edns) : Type 0 where
  pub finds_new :
      (m : Msg Rr) (size : ℕ) (dnssec : Bool)
      → e.is_edns0 m ≡ none
      → e.is_edns0 (e.set_edns0 m size dnssec)
        ≡ some (record { options = []; udp_size = size; wants_dnssec = dnssec })
  pub reads_back :
      (m : Msg Rr) (opt : Opt) (options : List EdnsOption)
      → e.is_edns0 m ≡ some opt
      → e.is_edns0 (e.set_options m options) ≡ some (record opt { options = options })

abbrev pub loop_option_code : ℕ
loop_option_code = 65042

-- The loop over the options: the first with the code takes the token, or the token is appended.
unfoldable pub mark_options : Text → List EdnsOption → List EdnsOption
mark_options token [] = local_option loop_option_code token ∷ []
mark_options token (other_option code bytes ∷ rest) =
    other_option code bytes ∷ mark_options token rest
mark_options token (local_option code bytes ∷ rest) =
    let later = mark_options token rest in
    if eqb code loop_option_code
    then local_option code token ∷ rest
    else local_option code bytes ∷ later

abbrev pub write_token : Edns → Text → Msg Rr → Msg Rr
write_token e token m = elim (e.is_edns0 m) [
  | none ↦ m
  | some opt ↦ e.set_options m (mark_options token opt.options)
]

-- markOutgoing, of a message that is not nil.
unfoldable pub mark_outgoing : Edns → Text → Msg Rr → Msg Rr
unfolding mark_options
mark_outgoing e token m = elim (e.is_edns0 m) [
  | none ↦ write_token e token (e.set_edns0 m 4096 false)
  | some opt ↦ write_token e token m
]

abbrev pub is_own_option : Text → EdnsOption → Bool
is_own_option token (other_option code bytes) = false
is_own_option token (local_option code bytes) = eqb code loop_option_code && text_beq bytes token

unfoldable pub carries_own_token : Edns → Text → Msg Rr → Bool
carries_own_token e token m = elim (e.is_edns0 m) [
  | none ↦ false
  | some opt ↦ any (is_own_option token) opt.options
]
