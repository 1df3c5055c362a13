-- ===== src/Dns/Handler/Cached.antt =====
-- core/dns/handler.go: a query after another, and a rejected one.
use v2ray_a.Base.{
  ℕ, ◌+◌, ◌-◌, ◌*◌, ◌≤◌, ◌≡◌, refl, false, none, some, Text, text_beq, Bool-cases, inl, inr, ◌∙◌,
  le→ltb_false,
}
use v2ray_a.Dns.Types.{DnsQuery, DnsResponse, CacheKey, second}
use v2ray_a.Dns.Cache.Ttl.{copy_cached_response, compute_effective_ttl}
use v2ray_a.Dns.Cache.Ops.{DnsCache, Found, miss, hit, panic, get, set, not_cacheable}
use v2ray_a.Dns.Cache.Prefetch.{should_prefetch}
use v2ray_a.Dns.Cache.Invariant.{Inv, get-Inv}
use v2ray_a.Dns.Cache.Reads.{get-set_self, get-config}
use v2ray_a.Dns.Router.{RouteResult, action_reject, action_bypass, action_route}
use v2ray_a.Dns.Upstream.{UpstreamInstance}
use v2ray_a.Dns.Module.{
  DnsModule, World, answered, responded, select_for_route, build_cache_key, build_refused,
}
use v2ray_a.Dns.Handler.{
  handle_query, dispatch, handle_route, handle_reject, route_to, try_cache, ask_upstream,
  answer_cached, count_response, count_query, route_result, noted,
}

-- A query that is not cancelled and that the rules send to an upstream.
pub record Routes (w : World) (query : DnsQuery) (m : DnsModule) (u : UpstreamInstance)
    : Type 0 where
  pub running : w.cancelled ≡ false
  pub not_reject : text_beq (route_result m.router query).action action_reject ≡ false
  pub not_bypass : text_beq (route_result m.router query).action action_bypass ≡ false
  pub chosen :
      select_for_route m.upstream_mgr m.upstreams (route_result m.router query).upstream_id ≡ some u

handle_query-route_to :
    (w : World) (query : DnsQuery) (m : DnsModule) (u : UpstreamInstance)
    → Routes w query m u
    → handle_query w query m ≡ route_to w query (count_query m) (route_result m.router query) u
unfolding handle_query dispatch handle_route
handle_query-route_to w query m u r =
    simp (r.running, handle_query)
      (rw (r.not_reject, r.not_bypass, dispatch) (rw (r.chosen, handle_route)))

try_cache-stores :
    (w : World) (query : DnsQuery) (m : DnsModule) (id : Text) (u : UpstreamInstance)
    (key : CacheKey) (x : DnsCache × Found) (resp : DnsResponse)
    → x.1 ≡ miss
    → w.exchange u query ≡ responded resp
    → query.is_bootstrap ≡ false
    → let h = try_cache w query m id u key x in
      (h.state.cache ≡ some (set x.0 key (some resp) resp.ttl w.now_set))
      × (h.reply ≡ answered resp)
      × (h.state.router ≡ m.router)
      × (h.state.upstream_mgr ≡ m.upstream_mgr)
      × (h.state.upstreams ≡ m.upstreams)
unfolding try_cache ask_upstream count_response
try_cache-stores w query m id u key (c, miss) resp missed answer plain =
    rw (answer, ask_upstream) (rw plain (refl, refl, refl, refl, refl))
try_cache-stores w query m id u key (c, hit _) resp missed answer plain = absurd cc
try_cache-stores w query m id u key (c, panic) resp missed answer plain = absurd cc

-- A query that misses the cache and is answered: what it leaves in the cache and in the rest.
route_to-stores :
    (w : World) (query : DnsQuery) (m : DnsModule) (result : RouteResult) (u : UpstreamInstance)
    (c : DnsCache) (resp : DnsResponse)
    → m.cache ≡ some c
    → (get c (build_cache_key query u) w.now_get).1 ≡ miss
    → w.exchange u query ≡ responded resp
    → query.is_bootstrap ≡ false
    → let c' = (get c (build_cache_key query u) w.now_get).0 in
      let h = route_to w query m result u in
      (h.state.cache ≡ some (set c' (build_cache_key query u) (some resp) resp.ttl w.now_set))
      × (h.reply ≡ answered resp)
      × (h.state.router ≡ m.router)
      × (h.state.upstream_mgr ≡ m.upstream_mgr)
      × (h.state.upstreams ≡ m.upstreams)
unfolding route_to
route_to-stores w query m result u c resp e missed answer plain =
    rw (e, route_to)
      (try_cache-stores w query (noted w query m action_route result) result.upstream_id u
        (build_cache_key query u) (get c (build_cache_key query u) w.now_get) resp missed answer
        plain)

try_cache-hit :
    (w : World) (query : DnsQuery) (m : DnsModule) (id : Text) (u : UpstreamInstance)
    (key : CacheKey) (x : DnsCache × Found) (cached : DnsResponse)
    → x.1 ≡ hit cached
    → (try_cache w query m id u key x).reply ≡ answered cached
unfolding try_cache answer_cached
try_cache-hit w query m id u key (c, miss) cached e = absurd cc
try_cache-hit w query m id u key (c, hit other) cached e =
    elim (Bool-cases (should_prefetch c key w.now_prefetch)) [
      | inl due ↦ rw due cc
      | inr early ↦ rw early cc
    ]
try_cache-hit w query m id u key (c, panic) cached e = absurd cc

route_to-hit :
    (w : World) (query : DnsQuery) (m : DnsModule) (result : RouteResult) (u : UpstreamInstance)
    (c : DnsCache) (cached : DnsResponse)
    → m.cache ≡ some c
    → (get c (build_cache_key query u) w.now_get).1 ≡ hit cached
    → (route_to w query m result u).reply ≡ answered cached
unfolding route_to
route_to-hit w query m result u c cached e found =
    rw (e, route_to)
      (try_cache-hit w query (noted w query m action_route result) result.upstream_id u
        (build_cache_key query u) (get c (build_cache_key query u) w.now_get) cached found)

module _ (w : World) (query : DnsQuery) (m : DnsModule) (u : UpstreamInstance) (c : DnsCache)
    (resp : DnsResponse) (routes : Routes w query m u) (with_c : m.cache ≡ some c) (h : Inv c)
    (missed : (get c (build_cache_key query u) w.now_get).1 ≡ miss)
    (answer : w.exchange u query ≡ responded resp) (plain : query.is_bootstrap ≡ false)
    (accepted : not_cacheable c.config (some resp) ≡ false) where
  abbrev key : CacheKey
  key = build_cache_key query u

  abbrev looked_up : DnsCache
  looked_up = (get c key w.now_get).0

  stores :
      ((handle_query w query m).state.cache
        ≡ some (set looked_up key (some resp) resp.ttl w.now_set))
      × ((handle_query w query m).reply ≡ answered resp)
      × ((handle_query w query m).state.router ≡ m.router)
      × ((handle_query w query m).state.upstream_mgr ≡ m.upstream_mgr)
      × ((handle_query w query m).state.upstreams ≡ m.upstreams)
  stores = rw (handle_query-route_to w query m u routes) (
      route_to-stores w query (count_query m) (route_result m.router query) u c resp with_c missed
        answer plain)

  again : (w' : World) → w'.cancelled ≡ false → Routes w' query ((handle_query w query m).state) u
  again w' running =
      let (_, _, r, g, us) = stores in
      record {
        running = running;
        not_reject = rw r routes.not_reject;
        not_bypass = rw r routes.not_bypass;
        chosen = rw (r, g, us) routes.chosen;
      }

  finds :
      (later : ℕ)
      → later ≤ w.now_set + compute_effective_ttl (some resp) resp.ttl c.config * second
      → (get (set looked_up key (some resp) resp.ttl w.now_set) key later).1
        ≡ hit (copy_cached_response resp (later - w.now_set) c.config.min_ttl)
  finds later soon =
      let same = get-config c key w.now_get in
      let kept : not_cacheable looked_up.config (some resp) ≡ false = rw same accepted in
      get-set_self looked_up key (some resp) resp.ttl w.now_set (get-Inv c key w.now_get h) kept
        later
      ∙ rw (same, le→ltb_false _ _ soon)

  -- A query that the rules send to an upstream, that misses a well-formed cache, that is no
  -- bootstrap query and whose answer is cacheable, gets that answer; and the same query, not
  -- cancelled and asked again while the response lives, gets the same response with its TTLs
  -- reduced by the time since, whatever the upstream would say then.
  pub asked_again :
      (w' : World)
      → w'.cancelled ≡ false
      → w'.now_get ≤ w.now_set + compute_effective_ttl (some resp) resp.ttl c.config * second
      → ((handle_query w query m).reply ≡ answered resp)
        × ((handle_query w' query (handle_query w query m).state).reply
            ≡ answered (copy_cached_response resp (w'.now_get - w.now_set) c.config.min_ttl))
  asked_again w' running soon =
      let (stored, replied, _, _, _) = stores in
      (
        replied,
        rw (handle_query-route_to w' query ((handle_query w query m).state) u (again w' running)) (
            route_to-hit w' query (count_query (handle_query w query m).state)
              (route_result (handle_query w query m).state.router query) u
              (set looked_up key (some resp) resp.ttl w.now_set)
              (copy_cached_response resp (w'.now_get - w.now_set) c.config.min_ttl) stored
              (finds w'.now_get soon)),
      )

-- A query that is not cancelled and that the rules reject is refused, the cache is left as it is,
-- no prefetch starts, and the query counts once, among all and among the rejected.
rejected :
    (w : World) (query : DnsQuery) (m : DnsModule)
    → w.cancelled ≡ false
    → (route_result m.router query).action ≡ action_reject
    → let h = handle_query w query m in
      (h.reply ≡ answered (build_refused w query))
      × (h.state.cache ≡ m.cache)
      × (h.started ≡ none)
      × (h.state.stats.total_queries ≡ m.stats.total_queries + 1)
      × (h.state.stats.rejected_queries ≡ m.stats.rejected_queries + 1)
unfolding handle_query dispatch handle_reject
rejected w query m running reject =
    simp (running, handle_query) (rw (reject, dispatch) (refl, refl, refl, refl, refl))
