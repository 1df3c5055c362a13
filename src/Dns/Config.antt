-- ===== src/Dns/Config.antt =====
-- core/dns/config.go: the defaults and the validation of a configuration. An error is a value with
-- what its message shows.
pub mod Valid
use v2ray_a.Base.{
  ℕ, suc, Bool, true, false, Option, none, some, List, [], ◌∷◌, Text, codes, is_empty,
  contains_byte, if◌then◌else◌, ℤ, pos, negsuc, is_positive, ltb_ℤ, not, ◌&&◌,
}
use v2ray_a.Dns.Types.{CacheConfig}
use v2ray_a.Dns.Router.{UpstreamConfig, RuleConfig}

pub record DnsListenerConfig : Type 0 where
  pub listen_addr : Text
  pub extra_listen_addrs : List Text
  pub timeout : ℤ

pub record DnsModuleConfig : Type 0 where
  pub listener : DnsListenerConfig
  pub upstreams : List UpstreamConfig
  pub rules : List RuleConfig
  pub cache : CacheConfig
  pub default_upstream : Text
  pub proxy_map : List (Text × Text)
  pub bootstrap : List Text
  pub bootstrap_dns : List Text
  pub egress_interface : Text

pub data ConfigError : Type 0 where
  empty_listen_addr : ConfigError
  no_port : Text → ConfigError
  no_extra_port : ℕ → Text → ConfigError
  bad_timeout : ℤ → ConfigError
  negative_size : ℤ → ConfigError
  negative_min_ttl : ℤ → ConfigError
  negative_max_ttl : ℤ → ConfigError
  min_above_max : ℤ → ℤ → ConfigError

unfoldable pub default_dns_listener_config : DnsListenerConfig
default_dns_listener_config = record {
  listen_addr = codes "0.0.0.0:52353";
  extra_listen_addrs = [];
  timeout = pos 5;
}

unfoldable pub default_dns_module_config : DnsModuleConfig
unfolding default_dns_listener_config
default_dns_module_config = record {
  listener = default_dns_listener_config;
  upstreams = [];
  rules = [];
  cache = record {
    enabled = true;
    size = pos 4096;
    min_ttl = pos 60;
    max_ttl = pos 86400;
    prefetch = false;
    prefetch_threshold = pos 0;
    negative_cache = false;
  };
  default_upstream = [];
  proxy_map = [];
  bootstrap = [];
  bootstrap_dns = [];
  egress_interface = [];
}

abbrev pub has_colon : Text → Bool
has_colon addr = contains_byte addr b':'

-- The loop over the extra addresses, from position `i` on.
unfoldable pub check_extra : ℕ → List Text → Option ConfigError
check_extra i [] = none
check_extra i (addr ∷ addrs) =
    let later = check_extra (suc i) addrs in
    if has_colon addr then later else some (no_extra_port i addr)

-- The rest of a validation is done where nothing was found so far.
abbrev pub and_then : Option ConfigError → Option ConfigError → Option ConfigError
and_then none next = next
and_then (some e) next = some e

unfoldable pub validate_listener : DnsListenerConfig → Option ConfigError
unfolding check_extra
validate_listener c =
    if is_empty c.listen_addr
    then some empty_listen_addr
    else if not (has_colon c.listen_addr)
    then some (no_port c.listen_addr)
    else and_then (check_extra 0 c.extra_listen_addrs)
        (if is_positive c.timeout then none else some (bad_timeout c.timeout))

unfoldable pub validate_cache : CacheConfig → Option ConfigError
validate_cache c =
    if ltb_ℤ c.size (pos 0)
    then some (negative_size c.size)
    else if ltb_ℤ c.min_ttl (pos 0)
    then some (negative_min_ttl c.min_ttl)
    else if ltb_ℤ c.max_ttl (pos 0)
    then some (negative_max_ttl c.max_ttl)
    else if ltb_ℤ c.max_ttl c.min_ttl && is_positive c.max_ttl
    then some (min_above_max c.min_ttl c.max_ttl)
    else none

unfoldable pub validate : DnsModuleConfig → Option ConfigError
unfolding validate_listener validate_cache
validate c = and_then (validate_listener c.listener) (validate_cache c.cache)
