-- ===== src/Dns/Upstream/Keys.antt =====
-- core/dns/upstream.go: the composite keys and the registry under them.
use v2ray_a.Base.{
  ◌≡◌, refl, false, none, some, [], ◌∷◌, ◌++◌, Text, lookup, text_eq, contains_byte, arith,
  lookup-insert, text_beq, text_beq_iff, Bool-cases, sym, ap, if◌then◌else◌, text_beq_refl,
  Option-cases, inl, inr, ◌∙◌,
}
use v2ray_a.Dns.Router.{UpstreamConfig, or_text}
use v2ray_a.Dns.Upstream.{
  UpstreamInstance, UpstreamManager, build_upstream_key, instance_of, add_instance,
  get_upstream_by_key, get_or_create_upstream, bar, direct,
}

-- A text before its first bar is determined by the whole.
split_at_bar :
    (a b s t : Text)
    → contains_byte a b'|' ≡ false
    → contains_byte b b'|' ≡ false
    → a ++ (bar ++ s) ≡ b ++ (bar ++ t)
    → (a ≡ b) × (s ≡ t)
split_at_bar [] [] s t h k e = (refl, ground arith)
split_at_bar [] (y ∷ b) s t h k e = absurd (ground arith)
split_at_bar (x ∷ a) [] s t h k e = absurd (ground arith)
split_at_bar (x ∷ a) (y ∷ b) s t h k e =
    let r = split_at_bar a b s t (ground arith) (ground arith) (ground arith) in ground arith

-- Two pairs of an address and a proxy tag have the same composite key only if they are the same,
-- where the addresses hold no bar.
pub build_upstream_key_injective :
    (addr addr' tag tag' : Text)
    → contains_byte addr b'|' ≡ false
    → contains_byte addr' b'|' ≡ false
    → build_upstream_key addr tag ≡ build_upstream_key addr' tag'
    → (addr ≡ addr') × (tag ≡ tag')
unfolding build_upstream_key
build_upstream_key_injective addr addr' tag tag' h k e = split_at_bar addr addr' tag tag' h k e

-- The instance that a call makes, if there is none yet.
abbrev pub created : UpstreamConfig → UpstreamInstance
created config = record (instance_of config) { server_name = [] }

abbrev pub key_of : UpstreamConfig → Text
key_of config = build_upstream_key config.addr (or_text config.proxy_tag direct)

found_again :
    (m : UpstreamManager) (config : UpstreamConfig) (u : UpstreamInstance)
    → lookup (key_of config) m.upstreams ≡ some u
    → get_or_create_upstream m config ≡ (m, u)
unfolding get_or_create_upstream instance_of
found_again m config u h = rw (h, get_or_create_upstream)

made_new :
    (m : UpstreamManager) (config : UpstreamConfig)
    → lookup (key_of config) m.upstreams ≡ none
    → get_or_create_upstream m config ≡ (add_instance m (created config), created config)
unfolding get_or_create_upstream instance_of
made_new m config h = rw (h, get_or_create_upstream)

lookup-added :
    (m : UpstreamManager) (config : UpstreamConfig) (key : Text)
    → lookup key (add_instance m (created config)).upstreams
      ≡ (if text_beq (key_of config) key then some (created config) else lookup key m.upstreams)
unfolding instance_of
lookup-added m config key = lookup-insert (key_of config) key (created config) m.upstreams

stored_new :
    (m : UpstreamManager) (config : UpstreamConfig)
    → lookup (key_of config) (add_instance m (created config)).upstreams ≡ some (created config)
unfolding instance_of
stored_new m config =
    lookup-insert (key_of config) (key_of config) (created config) m.upstreams
    ∙ rw (text_beq_refl (key_of config))

-- The instance is found by its key after the call, as it was before if there was one; every other
-- key finds what it found before the call; and a second call gives the same instance and changes
-- nothing.
abbrev pub Settled : UpstreamManager → UpstreamConfig → UpstreamManager × UpstreamInstance → Type 0
Settled before config (m, u) =
    ((key : Text)
      → get_upstream_by_key m key
        ≡ (if text_beq (key_of config) key then some u else get_upstream_by_key before key))
    × ((v : UpstreamInstance) → get_upstream_by_key before (key_of config) ≡ some v → u ≡ v)
    × (get_or_create_upstream m config ≡ (m, u))

-- A write of what an entry holds already changes no lookup.
lookup_same :
    (m : UpstreamManager) (config : UpstreamConfig) (u : UpstreamInstance) (key : Text)
    → lookup (key_of config) m.upstreams ≡ some u
    → lookup key m.upstreams
      ≡ (if text_beq (key_of config) key then some u else lookup key m.upstreams)
lookup_same m config u key held = elim (Bool-cases (text_beq (key_of config) key)) [
  | inl here ↦ rw here (ap (λ k. lookup k m.upstreams) (sym ((text_beq_iff _ key).0 here)) ∙ held)
  | inr other ↦ rw other refl
]

-- The instance that a call gives is found by its key after the call, and is the one found before the
-- call, if there was one. Every other key finds after the call what it found before. A second call
-- with the same configuration gives the same instance and changes nothing.
pub get_or_create_upstream-Settled :
    (m : UpstreamManager) (config : UpstreamConfig)
    → Settled m config (get_or_create_upstream m config)
unfolding get_upstream_by_key
get_or_create_upstream-Settled m config = elim (Option-cases (lookup (key_of config) m.upstreams)) [
  | inl absent ↦ rw (made_new m config absent) (
    lookup-added m config,
    (λ v there. absurd cc),
    found_again _ config (created config) (stored_new m config),
  )
  | inr (u, present) ↦
      rw (found_again m config u present) (
        (λ key. lookup_same m config u key present),
        (λ v there. cc),
        found_again m config u present,
      )
]
