-- ===== src/Dns/Handler/Safety.antt =====
-- core/dns/handler.go: what every query and every prefetch keeps.
use v2ray_a.Base.{
  ◌≡◌, ◌≢◌, refl, true, Option, none, some, List, [], ◌∷◌, Text, text_beq, Bool-cases, Option-cases,
  inl, inr, subst,
}
use v2ray_a.Dns.Types.{DnsQuery, DnsResponse, CacheKey}
use v2ray_a.Dns.Cache.Ops.{DnsCache, Found, miss, hit, panic, get, set}
use v2ray_a.Dns.Cache.Prefetch.{
  should_prefetch, record_prefetch_failure, record_prefetch_success, fail_entry, succeed_entry,
}
use v2ray_a.Dns.Cache.Invariant.{Inv, get-Inv, set-Inv, set_prefetching-Inv, write_entry-Inv}
use v2ray_a.Dns.Cache.Refinement.{view}
use v2ray_a.Dns.Cache.Stored.{
  Stored, get-Stored, set-Stored, set_prefetching-Stored, record_prefetch_failure-Stored,
  record_prefetch_success-Stored, get-ne-panic,
}
use v2ray_a.Dns.Router.{RouteResult, action_reject, action_bypass, action_route}
use v2ray_a.Dns.Upstream.{UpstreamInstance}
use v2ray_a.Dns.Module.{
  DnsModule, World, Handled, Prefetch, panicked, failed, no_response, responded, Exchanged,
  select_for_route, select_for_bypass, with_cache, build_cache_key,
}
use v2ray_a.Dns.Handler.{
  handle_query, dispatch, prefetched, noted, handle_route, handle_reject, handle_bypass, bypass_to,
  route_to, try_cache, ask_upstream, answer_cached, count_response, count_query, prefetch_async,
  stored_cache, route_result, note_miss,
}

-- The cache of a module: well formed, and every entry with its response.
abbrev pub SoundCache : Option DnsCache → Type 0
SoundCache none = Unit {0}
SoundCache (some c) = Inv c × Stored (view c)

-- A reply that is no panic, from a module whose cache stays sound.
pub record Safe (h : Handled) : Type 0 where
  pub sound : SoundCache h.state.cache
  pub calm : h.reply ≢ panicked

stored-Sound :
    (w : World) (query : DnsQuery) (key : CacheKey) (resp : DnsResponse) (o : Option DnsCache)
    → SoundCache o
    → SoundCache (stored_cache w query key resp o)
stored-Sound w query key resp none h = h
stored-Sound w query key resp (some c) h = elim (Bool-cases query.is_bootstrap) [
  | inl bootstrap ↦ rw bootstrap h
  | inr plain ↦ rw plain (
    set-Inv c key (some resp) resp.ttl w.now_set h.0,
    set-Stored c key resp resp.ttl w.now_set h.0 h.1,
  )
]

ask_upstream-Safe :
    (w : World) (query : DnsQuery) (m : DnsModule) (id : Text) (u : UpstreamInstance)
    (key : CacheKey)
    → SoundCache m.cache
    → Safe (ask_upstream w query m id u key)
unfolding ask_upstream count_response
ask_upstream-Safe w query m id u key h = go (w.exchange u query) refl
  where
    go : (x : Exchanged) → w.exchange u query ≡ x → Safe (ask_upstream w query m id u key)
    go failed e = rw (e, ask_upstream) (record { sound = h; calm = λ p. cc })
    go no_response e = rw (e, ask_upstream) (record { sound = h; calm = λ p. cc })
    go (responded resp) e =
        rw (e, ask_upstream)
          (record { sound = stored-Sound w query key resp m.cache h; calm = λ p. cc })

answer_cached-Safe :
    (w : World) (query : DnsQuery) (m : DnsModule) (c : DnsCache) (u : UpstreamInstance)
    (key : CacheKey) (cached : DnsResponse)
    → SoundCache (some c)
    → Safe (answer_cached w query m c u key cached)
unfolding answer_cached
answer_cached-Safe w query m c u key cached h =
    elim (Bool-cases (should_prefetch c key w.now_prefetch)) [
      | inl due ↦ rw due (record {
        sound = (set_prefetching-Inv c key true h.0, set_prefetching-Stored c key true h.1);
        calm = λ p. cc;
      })
      | inr early ↦ rw early (record { sound = h; calm = λ p. cc })
    ]

try_cache-Safe :
    (w : World) (query : DnsQuery) (m : DnsModule) (id : Text) (u : UpstreamInstance)
    (key : CacheKey) (x : DnsCache × Found)
    → SoundCache (some x.0)
    → x.1 ≢ panic
    → Safe (try_cache w query m id u key x)
unfolding try_cache
try_cache-Safe w query m id u key (c, miss) h p =
    ask_upstream-Safe w query (note_miss (with_cache m c)) id u key h
try_cache-Safe w query m id u key (c, hit cached) h p =
    answer_cached-Safe w query m c u key cached h
try_cache-Safe w query m id u key (c, panic) h p = absurd (p refl)

route_to-Safe :
    (w : World) (query : DnsQuery) (m : DnsModule) (result : RouteResult) (u : UpstreamInstance)
    → SoundCache m.cache
    → Safe (route_to w query m result u)
unfolding route_to
route_to-Safe w query m result u h = go m.cache refl
  where
    go : (o : Option DnsCache) → m.cache ≡ o → Safe (route_to w query m result u)
    go none e =
        rw (e, route_to)
          (ask_upstream-Safe w query (noted w query m action_route result) result.upstream_id u
            (build_cache_key query u) h)
    go (some c) e =
        let s : SoundCache (some c) = subst SoundCache e h in
        let key = build_cache_key query u in
        rw (e, route_to)
          (try_cache-Safe w query (noted w query m action_route result) result.upstream_id u key
            (get c key w.now_get) (get-Inv c key w.now_get s.0, get-Stored c key w.now_get s.0 s.1)
            (get-ne-panic c key w.now_get s.0 s.1))

handle_route-Safe :
    (w : World) (query : DnsQuery) (m : DnsModule) (result : RouteResult)
    → SoundCache m.cache
    → Safe (handle_route w query m result)
unfolding handle_route
handle_route-Safe w query m result h =
    elim (Option-cases (select_for_route m.upstream_mgr m.upstreams result.upstream_id)) [
      | inl nowhere ↦ rw (nowhere, handle_route) (record { sound = h; calm = λ p. cc })
      | inr (u, found) ↦ rw (found, handle_route) (route_to-Safe w query m result u h)
    ]

bypass_to-Safe :
    (w : World) (query : DnsQuery) (m : DnsModule) (result : RouteResult) (u : UpstreamInstance)
    → SoundCache m.cache
    → Safe (bypass_to w query m result u)
unfolding bypass_to count_response
bypass_to-Safe w query m result u h = go (w.exchange u query) refl
  where
    go : (x : Exchanged) → w.exchange u query ≡ x → Safe (bypass_to w query m result u)
    go failed e = rw (e, bypass_to) (record { sound = h; calm = λ p. cc })
    go no_response e = rw (e, bypass_to) (record { sound = h; calm = λ p. cc })
    go (responded resp) e = rw (e, bypass_to) (record { sound = h; calm = λ p. cc })

handle_bypass-Safe :
    (w : World) (query : DnsQuery) (m : DnsModule) (result : RouteResult)
    → SoundCache m.cache
    → Safe (handle_bypass w query m result)
unfolding handle_bypass
handle_bypass-Safe w query m result h =
    elim (Option-cases (select_for_bypass m.upstream_mgr m.upstreams result.upstream_id)) [
      | inl nowhere ↦ rw (nowhere, handle_bypass) (record { sound = h; calm = λ p. cc })
      | inr (u, found) ↦ rw (found, handle_bypass) (bypass_to-Safe w query _ result u h)
    ]

dispatch-Safe :
    (w : World) (query : DnsQuery) (m : DnsModule) (result : RouteResult)
    → SoundCache m.cache
    → Safe (dispatch w query m result)
unfolding dispatch handle_reject
dispatch-Safe w query m result h = elim (Bool-cases (text_beq result.action action_reject)) [
  | inl reject ↦ rw reject (record { sound = h; calm = λ p. cc })
  | inr other ↦ rw other (elim (Bool-cases (text_beq result.action action_bypass)) [
    | inl bypass ↦ rw bypass (handle_bypass-Safe w query m result h)
    | inr plain ↦ rw plain (handle_route-Safe w query m result h)
  ])
]

-- A query never panics and leaves a sound cache behind, whatever the upstreams answer and
-- whenever it comes, if the cache was sound.
pub handle_query-Safe :
    (w : World) (query : DnsQuery) (m : DnsModule)
    → SoundCache m.cache
    → Safe (handle_query w query m)
unfolding handle_query
handle_query-Safe w query m h = elim (Bool-cases w.cancelled) [
  | inl gone ↦ rw gone (record { sound = h; calm = λ p. cc })
  | inr here ↦ simp here (dispatch-Safe w query (count_query m) (route_result m.router query) h)
]

prefetched-Sound :
    (w : World) (key : CacheKey) (c : DnsCache) (x : Exchanged)
    → SoundCache (some c)
    → SoundCache (some (prefetched w key c x))
unfolding prefetched record_prefetch_failure record_prefetch_success
prefetched-Sound w key c failed h = (
  write_entry-Inv (fail_entry w.now_set) (λ v. refl) c key h.0,
  record_prefetch_failure-Stored c key w.now_set h.1,
)
prefetched-Sound w key c no_response h = (
  write_entry-Inv (fail_entry w.now_set) (λ v. refl) c key h.0,
  record_prefetch_failure-Stored c key w.now_set h.1,
)
prefetched-Sound w key c (responded resp) h =
    let d = set c key (some resp) resp.ttl w.now_set in
    (
      write_entry-Inv succeed_entry (λ v. refl) d key
          (set-Inv c key (some resp) resp.ttl w.now_set h.0),
      record_prefetch_success-Stored d key (set-Stored c key resp resp.ttl w.now_set h.0 h.1),
    )

-- Nor does a prefetch spoil the cache, whenever it ends and however.
pub prefetch_async-Sound :
    (w : World) (p : Prefetch) (m : DnsModule)
    → SoundCache m.cache
    → SoundCache (prefetch_async w p m).cache
unfolding prefetch_async
prefetch_async-Sound w p m h = go m.cache refl
  where
    go : (o : Option DnsCache) → m.cache ≡ o → SoundCache (prefetch_async w p m).cache
    go none e = rw (e, prefetch_async) h
    go (some c) e =
        rw (e, prefetch_async)
          (prefetched-Sound w p.key c (w.exchange p.upstream p.query) (subst SoundCache e h))

-- An event of a running module: a query that arrives, or a prefetch that ends.
pub data Event : Type 0 where
  query_arrives : World → DnsQuery → Event
  prefetch_ends : World → Prefetch → Event

unfoldable pub react : DnsModule → Event → DnsModule
react m (query_arrives w query) = (handle_query w query m).state
react m (prefetch_ends w p) = prefetch_async w p m

unfoldable pub react_all : DnsModule → List Event → DnsModule
unfolding react
react_all m [] = m
react_all m (x ∷ xs) = react_all (react m x) xs

react_all-Sound :
    (m : DnsModule) (xs : List Event) → SoundCache m.cache → SoundCache (react_all m xs).cache
unfolding react_all
react_all-Sound m [] h = h
react_all-Sound m (query_arrives w query ∷ xs) h =
    react_all-Sound (handle_query w query m).state xs (handle_query-Safe w query m h).sound
react_all-Sound m (prefetch_ends w p ∷ xs) h =
    react_all-Sound (prefetch_async w p m) xs (prefetch_async-Sound w p m h)

-- After any sequence of queries and ends of prefetches, the cache of a module that began with a
-- sound one is sound, and the next query does not panic.
pub react_all-Safe :
    (m : DnsModule) (events : List Event) (w : World) (query : DnsQuery)
    → SoundCache m.cache
    → SoundCache (react_all m events).cache
      × ((handle_query w query (react_all m events)).reply ≢ panicked)
react_all-Safe m events w query h =
    let s = react_all-Sound m events h in
    (s, (handle_query-Safe w query (react_all m events) s).calm)
