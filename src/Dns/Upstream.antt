-- ===== src/Dns/Upstream.antt =====
-- core/dns/upstream.go: the upstream instances by composite key and by id. The two maps of the
-- source share their instances; the fields modelled are never written after creation. The DNS and
-- HTTP clients and the health of an instance are not modelled.
pub mod Keys
use v2ray_a.Base.{
  ℕ, Bool, Option, none, some, List, [], ◌∷◌, ◌++◌, Text, codes, is_empty, if◌then◌else◌, lookup,
  insert, text_eq,
}
use v2ray_a.Dns.Router.{UpstreamConfig, or_text}

pub record UpstreamInstance : Type 0 where
  pub id : Text
  pub addr : Text
  pub protocol : Text
  pub proxy_tag : Text
  pub bootstrap : Bool
  pub server_name : Text

pub record UpstreamManager : Type 0 where
  pub upstreams : List (Text × UpstreamInstance)
  pub upstreams_by_id : List (Text × UpstreamInstance)

abbrev pub bar : Text
bar = b'|' ∷ []

unfoldable pub build_upstream_key : Text → Text → Text
build_upstream_key addr proxy_tag = addr ++ (bar ++ proxy_tag)

abbrev pub composite_key : UpstreamInstance → Text
composite_key u = build_upstream_key u.addr u.proxy_tag

abbrev pub direct : Text
direct = codes "direct"

unfoldable pub instance_of : UpstreamConfig → UpstreamInstance
instance_of cfg = record {
  id = or_text cfg.id cfg.addr;
  addr = cfg.addr;
  protocol = or_text cfg.protocol (codes "udp");
  proxy_tag = or_text cfg.proxy_tag direct;
  bootstrap = cfg.bootstrap;
  server_name = cfg.server_name;
}

abbrev pub add_instance : UpstreamManager → UpstreamInstance → UpstreamManager
add_instance m u = record {
  upstreams = insert (composite_key u) u m.upstreams;
  upstreams_by_id = insert u.id u m.upstreams_by_id;
}

-- The loop of NewUpstreamManager.
unfoldable pub add_all : List UpstreamConfig → UpstreamManager → UpstreamManager
unfolding instance_of
add_all [] m = m
add_all (cfg ∷ cfgs) m = add_all cfgs (add_instance m (instance_of cfg))

unfoldable pub new_upstream_manager : List UpstreamConfig → UpstreamManager
unfolding add_all
new_upstream_manager cfgs = add_all cfgs (record { upstreams = []; upstreams_by_id = [] })

unfoldable pub get_upstream : UpstreamManager → Text → Option UpstreamInstance
get_upstream m id = elim (lookup id m.upstreams_by_id) [
  | some u ↦ some u
  | none ↦ lookup id m.upstreams
]

unfoldable pub get_upstream_by_key : UpstreamManager → Text → Option UpstreamInstance
get_upstream_by_key m key = lookup key m.upstreams

-- GetOrCreateUpstream does not take over the server name.
unfoldable pub get_or_create_upstream :
    UpstreamManager → UpstreamConfig → UpstreamManager × UpstreamInstance
unfolding instance_of
get_or_create_upstream m config =
    let fresh = record (instance_of config) { server_name = [] } in
    elim (lookup (composite_key fresh) m.upstreams) [
      | some existing ↦ (m, existing)
      | none ↦ (add_instance m fresh, fresh)
    ]
