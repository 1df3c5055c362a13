-- ===== src/Dns/Module.antt =====
-- core/dns/module.go and the parts of core/dns/handler.go that do not change the state: the module
-- that the handler works on, the replies it makes up, and its choice of an upstream. The exchange
-- with an upstream, the clock and the identity of a new message come from outside: they are the
-- fields of `World`, fixed for the course of one call.
use v2ray_a.Base.{
  ℕ, ◌+◌, ◌-◌, ◌*◌, ◌/◌, Bool, true, false, Option, none, some, List, [], ◌∷◌, Text, codes, text_eq,
  is_empty, leb, if◌then◌else◌,
}
use v2ray_a.Dns.Types.{DnsQuery, DnsResponse, CacheKey, Msg, Rr, rcode_success, rcode_refused}
use v2ray_a.Dns.Cache.Ops.{DnsCache}
use v2ray_a.Dns.Router.{Router, UpstreamConfig}
use v2ray_a.Dns.Metrics.{DnsMetrics, record_query, record_action, record_rule_hit}
use v2ray_a.Dns.Upstream.{UpstreamInstance, UpstreamManager, get_upstream, direct}

pub record DnsStats : Type 0 where
  pub total_queries : ℕ
  pub routed_queries : List (Text × ℕ)
  pub rejected_queries : ℕ
  pub bypassed_queries : ℕ
  pub cache_hits : ℕ
  pub cache_misses : ℕ
  pub avg_rtt : ℕ

pub record DnsModule : Type 0 where
  pub upstreams : List UpstreamConfig
  pub router : Option Router
  pub upstream_mgr : Option UpstreamManager
  pub cache : Option DnsCache
  pub stats : DnsStats
  pub metrics : Option DnsMetrics

-- What UpstreamManager.Exchange gives: an error, neither, or a response.
pub data Exchanged : Type 0 where
  failed : Exchanged
  no_response : Exchanged
  responded : DnsResponse → Exchanged

pub record World : Type 0 where
  pub cancelled : Bool
  pub exchange : UpstreamInstance → DnsQuery → Exchanged
  pub rtt : ℕ
  pub question_msg : Text → ℕ → Msg Rr
  pub now_query : ℕ
  pub now_get : ℕ
  pub now_prefetch : ℕ
  pub now_set : ℕ

pub data Reply : Type 0 where
  answered : DnsResponse → Reply
  context_cancelled : Reply
  upstream_error : Reply
  bypass_error : Reply
  panicked : Reply

-- The arguments of a prefetch that was started.
pub record Prefetch : Type 0 where
  pub upstream : UpstreamInstance
  pub query : DnsQuery
  pub key : CacheKey

pub record Handled : Type 0 where
  pub state : DnsModule
  pub reply : Reply
  pub started : Option Prefetch

abbrev pub replies : DnsModule → Reply → Handled
replies m r = record { state = m; reply = r; started = none }

unfoldable pub build_cache_key : DnsQuery → UpstreamInstance → CacheKey
build_cache_key query u = record {
  upstream_addr = u.addr;
  proxy_tag = if is_empty u.proxy_tag then direct else u.proxy_tag;
  name = query.name;
  qtype = query.qtype;
}

unfoldable pub update_avg_rtt : ℕ → ℕ → ℕ → ℕ
update_avg_rtt current sample count =
    if leb count 1 then sample else current * (count - 1) / count + sample / count

unfoldable pub build_stub_response : World → DnsQuery → DnsResponse
build_stub_response w query =
    let m = w.question_msg query.name query.qtype in
    record {
      query = query;
      raw_msg =
          some (record m { response = true; recursion_available = true; rcode = rcode_success });
      rcode = rcode_success;
      answer = [];
      authority = [];
      additional = [];
      ttl = 0;
      upstream = codes "stub";
      proxy_tag = direct;
      rtt = 0;
      cached = false;
    }

unfoldable pub build_refused : World → DnsQuery → DnsResponse
build_refused w query =
    let m = w.question_msg query.name query.qtype in
    record {
      query = query;
      raw_msg = some (record m { response = true; rcode = rcode_refused });
      rcode = rcode_refused;
      answer = [];
      authority = [];
      additional = [];
      ttl = 0;
      upstream = [];
      proxy_tag = [];
      rtt = 0;
      cached = false;
    }

-- `if module.metrics != nil { … }`
abbrev pub on_metrics : (DnsMetrics → DnsMetrics) → DnsModule → DnsModule
on_metrics f m = record m { metrics = elim m.metrics [ none ↦ none | some x ↦ some (f x) ] }

abbrev pub with_stats : DnsModule → DnsStats → DnsModule
with_stats m s = record m { stats = s }

abbrev pub with_cache : DnsModule → DnsCache → DnsModule
with_cache m c = record m { cache = some c }

-- The three records that each action makes of a query.
unfoldable pub note_action : World → DnsQuery → Text → Text → Text → DnsMetrics → DnsMetrics
note_action w query upstream_id action rule_id x =
    record_rule_hit (record_action (record_query x query upstream_id w.now_query) action) rule_id

abbrev pub first_plain : List UpstreamConfig → Option UpstreamConfig
first_plain [] = none
first_plain (u ∷ us) = if u.bootstrap then first_plain us else some u

abbrev pub or_else : Option UpstreamInstance → Option UpstreamInstance → Option UpstreamInstance
or_else none y = y
or_else (some x) y = some x

abbrev pub get_configured : UpstreamManager → UpstreamConfig → Option UpstreamInstance
get_configured mgr u = or_else (get_upstream mgr u.id) (get_upstream mgr u.addr)

abbrev pub named_upstream : UpstreamManager → Text → Option UpstreamInstance
named_upstream mgr id = if is_empty id then none else get_upstream mgr id

abbrev pub plain_upstream : UpstreamManager → List UpstreamConfig → Option UpstreamInstance
plain_upstream mgr us = elim (first_plain us) [ none ↦ none | some u ↦ get_configured mgr u ]

abbrev pub any_upstream : UpstreamManager → List UpstreamConfig → Option UpstreamInstance
any_upstream mgr [] = none
any_upstream mgr (u ∷ us) = get_configured mgr u

-- The upstream that handleRoute takes: the named one, else the first that is not for bootstrap,
-- else the first of all.
unfoldable pub select_for_route :
    Option UpstreamManager → List UpstreamConfig → Text → Option UpstreamInstance
select_for_route none us id = none
select_for_route (some mgr) us id =
    or_else (named_upstream mgr id) (or_else (plain_upstream mgr us) (any_upstream mgr us))

-- handleBypass does not fall back on a bootstrap upstream.
unfoldable pub select_for_bypass :
    Option UpstreamManager → List UpstreamConfig → Text → Option UpstreamInstance
select_for_bypass none us id = none
select_for_bypass (some mgr) us id = or_else (named_upstream mgr id) (plain_upstream mgr us)

-- selectDefaultUpstream of core/dns/module.go.
abbrev id_or_addr : UpstreamConfig → Text
id_or_addr u = if is_empty u.id then u.addr else u.id

abbrev pub last_plain : List UpstreamConfig → Text → Text
last_plain [] found = found
last_plain (u ∷ us) found = last_plain us (if u.bootstrap then found else id_or_addr u)

abbrev pub last_of : List UpstreamConfig → Text
last_of [] = []
last_of (u ∷ []) = id_or_addr u
last_of (u ∷ u' ∷ us) = last_of (u' ∷ us)

unfoldable pub select_default_upstream : Text → List UpstreamConfig → Text
select_default_upstream default_upstream us =
    if is_empty default_upstream
    then (let plain = last_plain us [] in if is_empty plain then last_of us else plain)
    else default_upstream
