-- ===== src/Dns/Handler.antt =====
-- core/dns/handler.go: how a query is routed, answered from the cache or sent upstream. Log lines
-- are left out. A query that the code handles in a goroutine of its own, the prefetch, is a step of
-- its own here.
pub mod Cached
pub mod Safety
pub mod Rtt
use v2ray_a.Base.{
  ℕ, suc, ◌+◌, ◌-◌, ◌*◌, ◌/◌, Bool, true, false, not, ◌&&◌, Option, none, some, List, [], ◌∷◌, Text,
  codes, text_beq, text_eq, is_empty, leb, if◌then◌else◌, ℤ,
}
use v2ray_a.Dns.Types.{DnsQuery, DnsResponse, CacheKey, Msg, Rr, rcode_success, rcode_refused}
use v2ray_a.Dns.Cache.Ops.{DnsCache, Found, miss, hit, panic, get, set}
use v2ray_a.Dns.Cache.Prefetch.{
  should_prefetch, set_prefetching, record_prefetch_failure, record_prefetch_success,
}
use v2ray_a.Dns.Router.{
  Router, RouteResult, UpstreamConfig, route, action_route, action_reject, action_bypass,
  policy_single,
}
use v2ray_a.Dns.Metrics.{
  DnsMetrics, bump, record_query, record_action, record_rule_hit, record_cache_hit,
  record_cache_miss, record_error, record_response, record_prefetch,
}
use v2ray_a.Dns.Upstream.{UpstreamInstance, UpstreamManager, get_upstream, direct}
use v2ray_a.Dns.Module.{
  DnsModule, Exchanged, World, Prefetch, Handled, replies, build_cache_key, update_avg_rtt,
  build_stub_response, build_refused, on_metrics, with_stats, with_cache, note_action,
  select_for_route, select_for_bypass, failed, no_response, responded, answered, context_cancelled,
  upstream_error, bypass_error, panicked,
}

-- The counts of a response: by the name of its route, and in the average.
unfoldable pub count_response : World → Text → DnsResponse → DnsModule → DnsModule
count_response w upstream_id resp m =
    let s = m.stats in
    on_metrics (λ x. record_response x resp w.rtt)
      (with_stats m (record s {
        routed_queries = bump upstream_id s.routed_queries;
        avg_rtt = update_avg_rtt s.avg_rtt w.rtt s.total_queries;
      }))

abbrev pub stored_cache :
    World → DnsQuery → CacheKey → DnsResponse → Option DnsCache → Option DnsCache
stored_cache w query key resp none = none
stored_cache w query key resp (some cache) =
    if query.is_bootstrap then some cache else some (set cache key (some resp) resp.ttl w.now_set)

abbrev pub store_response : World → DnsQuery → CacheKey → DnsResponse → DnsModule → DnsModule
store_response w query key resp m = record m { cache = stored_cache w query key resp m.cache }

-- The part of handleRoute after a cache miss, or without a cache.
unfoldable pub ask_upstream :
    World → DnsQuery → DnsModule → Text → UpstreamInstance → CacheKey → Handled
ask_upstream w query m upstream_id u key = elim (w.exchange u query) [
  | failed ↦
      let s = m.stats in
      replies
        (on_metrics (λ x. record_error x upstream_id)
          (with_stats m (record s { routed_queries = bump upstream_id s.routed_queries })))
        upstream_error
  | no_response ↦ replies m (answered (build_stub_response w query))
  | responded resp ↦
      replies (count_response w upstream_id resp (store_response w query key resp m))
        (answered resp)
]

abbrev pub note_hit : DnsModule → DnsModule
note_hit m =
    let s = m.stats in
    on_metrics record_cache_hit (with_stats m (record s { cache_hits = s.cache_hits + 1 }))

abbrev pub note_miss : DnsModule → DnsModule
note_miss m =
    let s = m.stats in
    on_metrics record_cache_miss (with_stats m (record s { cache_misses = s.cache_misses + 1 }))

-- A hit may start a prefetch, and marks the entry first.
unfoldable pub answer_cached :
    World → DnsQuery → DnsModule → DnsCache → UpstreamInstance → CacheKey → DnsResponse → Handled
answer_cached w query m cache u key cached =
    if should_prefetch cache key w.now_prefetch
    then record {
      state = with_cache (note_hit m) (set_prefetching cache key true);
      reply = answered cached;
      started = some (record { upstream = u; query = query; key = key });
    }
    else replies (with_cache (note_hit m) cache) (answered cached)

unfoldable pub try_cache :
    World → DnsQuery → DnsModule → Text → UpstreamInstance → CacheKey → DnsCache × Found → Handled
unfolding answer_cached ask_upstream
try_cache w query m upstream_id u key (cache, miss) =
    ask_upstream w query (note_miss (with_cache m cache)) upstream_id u key
try_cache w query m upstream_id u key (cache, hit cached) =
    answer_cached w query m cache u key cached
try_cache w query m upstream_id u key (cache, panic) = replies (with_cache m cache) panicked

abbrev pub noted : World → DnsQuery → DnsModule → Text → RouteResult → DnsModule
noted w query m action result =
    on_metrics (note_action w query result.upstream_id action result.rule_id) m

-- handleRoute once an upstream is found.
unfoldable pub route_to : World → DnsQuery → DnsModule → RouteResult → UpstreamInstance → Handled
unfolding try_cache build_cache_key
route_to w query m result u =
    let id = result.upstream_id in
    let key = build_cache_key query u in
    let m' = noted w query m action_route result in
    elim m.cache [
      | none ↦ ask_upstream w query m' id u key
      | some cache ↦ try_cache w query m' id u key (get cache key w.now_get)
    ]

unfoldable pub handle_route : World → DnsQuery → DnsModule → RouteResult → Handled
unfolding route_to select_for_route
handle_route w query m result =
    elim (select_for_route m.upstream_mgr m.upstreams result.upstream_id) [
      | none ↦ replies m (answered (build_stub_response w query))
      | some u ↦ route_to w query m result u
    ]

unfoldable pub handle_reject : World → DnsQuery → DnsModule → RouteResult → Handled
handle_reject w query m result =
    let s = m.stats in
    replies
      (on_metrics (note_action w query [] action_reject result.rule_id)
        (with_stats m (record s { rejected_queries = s.rejected_queries + 1 })))
      (answered (build_refused w query))

-- handleBypass after the count, with the upstream found.
unfoldable pub bypass_to : World → DnsQuery → DnsModule → RouteResult → UpstreamInstance → Handled
bypass_to w query m result u =
    let id = result.upstream_id in
    let m' = noted w query m action_bypass result in
    elim (w.exchange u query) [
      | failed ↦ replies (on_metrics (λ x. record_error x id) m') bypass_error
      | no_response ↦ replies m' (answered (build_stub_response w query))
      | responded resp ↦ replies (count_response w u.id resp m') (answered resp)
    ]

unfoldable pub handle_bypass : World → DnsQuery → DnsModule → RouteResult → Handled
unfolding bypass_to select_for_bypass
handle_bypass w query m result =
    let s = m.stats in
    let counted = with_stats m (record s { bypassed_queries = s.bypassed_queries + 1 }) in
    elim (select_for_bypass m.upstream_mgr m.upstreams result.upstream_id) [
      | none ↦ replies counted (answered (build_stub_response w query))
      | some u ↦ bypass_to w query counted result u
    ]

abbrev pub no_router_result : RouteResult
no_router_result = record {
  upstream_id = [];
  upstream_addr = [];
  action = action_route;
  rule_id = [];
  policy = policy_single;
  proxy_tag = [];
}

abbrev pub route_result : Option Router → DnsQuery → RouteResult
route_result none query = no_router_result
route_result (some r) query = route r query

abbrev pub count_query : DnsModule → DnsModule
count_query m = let s = m.stats in with_stats m (record s { total_queries = s.total_queries + 1 })

-- The switch on the action; whatever is neither "reject" nor "bypass" is routed.
unfoldable pub dispatch : World → DnsQuery → DnsModule → RouteResult → Handled
unfolding handle_route handle_reject handle_bypass
dispatch w query m result =
    if text_beq result.action action_reject
    then handle_reject w query m result
    else if text_beq result.action action_bypass
    then handle_bypass w query m result
    else handle_route w query m result

-- HandleQuery of a handler that has a module, as NewDnsHandler is called.
unfoldable pub handle_query : World → DnsQuery → DnsModule → Handled
unfolding dispatch
handle_query w query m =
    if w.cancelled
    then replies m context_cancelled
    else dispatch w query (count_query m) (route_result m.router query)

-- The three ends of a prefetch.
unfoldable pub prefetched : World → CacheKey → DnsCache → Exchanged → DnsCache
prefetched w key cache failed = record_prefetch_failure cache key w.now_set
prefetched w key cache no_response = record_prefetch_failure cache key w.now_set
prefetched w key cache (responded resp) =
    record_prefetch_success (set cache key (some resp) resp.ttl w.now_set) key

-- prefetchAsync, of an upstream and a manager that are there; it is only started where there is a
-- cache.
unfoldable pub prefetch_async : World → Prefetch → DnsModule → DnsModule
unfolding prefetched
prefetch_async w p m =
    let m' = on_metrics record_prefetch m in
    elim m.cache [
      | none ↦ m'
      | some cache ↦ with_cache m' (prefetched w p.key cache (w.exchange p.upstream p.query))
    ]
