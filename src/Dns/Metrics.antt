-- ===== src/Dns/Metrics.antt =====
-- core/dns/metrics.go: the counters. Each update is atomic in the source, and a map of counters is
-- an association list here; a missing counter counts as zero.
pub mod Counts
use v2ray_a.Base.{
  ℕ, suc, ◌+◌, ◌-◌, ◌*◌, ◌/◌, ◌^◌, Bool, true, false, Option, none, some, List, [], ◌∷◌, map, Text,
  is_empty, if◌then◌else◌, lookup, insert, text_eq, nat_eq, Eq, eqb, ltb, leb, text_beq, codes,
}
use v2ray_a.Dns.Types.{DnsQuery, DnsResponse}

pub record UpstreamMetrics : Type 0 where
  pub queries : ℕ
  pub successes : ℕ
  pub errors : ℕ
  pub avg_rtt : ℕ
  pub min_rtt : ℕ
  pub max_rtt : ℕ
  pub last_query : ℕ

-- The six intervals of the latency distribution, in order.
pub record LatencyBuckets : Type 0 where
  pub below_1 : ℕ
  pub to_5 : ℕ
  pub to_10 : ℕ
  pub to_50 : ℕ
  pub to_200 : ℕ
  pub above_200 : ℕ

pub record DnsMetrics : Type 0 where
  pub total_queries : ℕ
  pub total_responses : ℕ
  pub total_errors : ℕ
  pub total_timeouts : ℕ
  pub queries_by_type : List (ℕ × ℕ)
  pub queries_by_upstream : List (Text × UpstreamMetrics)
  pub errors_by_upstream : List (Text × ℕ)
  pub hits_by_rule : List (Text × ℕ)
  pub cache_hits : ℕ
  pub cache_misses : ℕ
  pub cache_evictions : ℕ
  pub prefetch_count : ℕ
  pub latency_buckets : LatencyBuckets
  pub routed_queries : ℕ
  pub rejected_queries : ℕ
  pub bypassed_queries : ℕ

abbrev no_latencies : LatencyBuckets
no_latencies = record { below_1 = 0; to_5 = 0; to_10 = 0; to_50 = 0; to_200 = 0; above_200 = 0 }

unfoldable pub new_dns_metrics : DnsMetrics
new_dns_metrics = record {
  total_queries = 0;
  total_responses = 0;
  total_errors = 0;
  total_timeouts = 0;
  queries_by_type = [];
  queries_by_upstream = [];
  errors_by_upstream = [];
  hits_by_rule = [];
  cache_hits = 0;
  cache_misses = 0;
  cache_evictions = 0;
  prefetch_count = 0;
  latency_buckets = no_latencies;
  routed_queries = 0;
  rejected_queries = 0;
  bypassed_queries = 0;
}

-- getOrInitCounter, and the addition of one to what it gives.
unfoldable pub bump {ℓ} : {K : Type ℓ} ⦃e : Eq K⦄ → K → List (K × ℕ) → List (K × ℕ)
bump k m = elim (lookup k m) [ none ↦ insert k 1 m | some n ↦ insert k (n + 1) m ]

abbrev pub no_upstream_metrics : UpstreamMetrics
no_upstream_metrics = record {
  queries = 0;
  successes = 0;
  errors = 0;
  avg_rtt = 0;
  min_rtt = 2 ^ 63 - 1;
  max_rtt = 0;
  last_query = 0;
}

abbrev pub or_no_metrics : Option UpstreamMetrics → UpstreamMetrics
or_no_metrics none = no_upstream_metrics
or_no_metrics (some um) = um

-- getOrCreateUpstreamMetrics, and a write to what it gives; an empty name is passed over.
unfoldable pub on_upstream :
    (UpstreamMetrics → UpstreamMetrics)
    → Text
    → List (Text × UpstreamMetrics)
    → List (Text × UpstreamMetrics)
on_upstream f upstream m =
    if is_empty upstream then m else insert upstream (f (or_no_metrics (lookup upstream m))) m

unfoldable pub record_query : DnsMetrics → DnsQuery → Text → ℕ → DnsMetrics
unfolding bump on_upstream
record_query m query upstream now = record m {
  total_queries = m.total_queries + 1;
  queries_by_type = bump query.qtype m.queries_by_type;
  queries_by_upstream =
      on_upstream (λ um. record um { queries = um.queries + 1; last_query = now }) upstream
        m.queries_by_upstream;
}

-- recordLatency; a millisecond is a million nanoseconds.
unfoldable pub count_latency : LatencyBuckets → ℕ → LatencyBuckets
count_latency b rtt =
    let ms = rtt / 1_000_000 in
    if ltb ms 1
    then record b { below_1 = b.below_1 + 1 }
    else if leb ms 5
    then record b { to_5 = b.to_5 + 1 }
    else if leb ms 10
    then record b { to_10 = b.to_10 + 1 }
    else if leb ms 50
    then record b { to_50 = b.to_50 + 1 }
    else if leb ms 200
    then record b { to_200 = b.to_200 + 1 }
    else record b { above_200 = b.above_200 + 1 }

unfoldable pub count_success : ℕ → UpstreamMetrics → UpstreamMetrics
count_success rtt um =
    if ltb 0 rtt
    then record um {
      successes = um.successes + 1;
      avg_rtt = if eqb um.avg_rtt 0 then rtt else (um.avg_rtt * 2 + rtt) / 3;
      min_rtt = if ltb rtt um.min_rtt then rtt else um.min_rtt;
      max_rtt = if ltb um.max_rtt rtt then rtt else um.max_rtt;
    }
    else record um { successes = um.successes + 1 }

unfoldable pub record_response : DnsMetrics → DnsResponse → ℕ → DnsMetrics
unfolding count_latency count_success on_upstream
record_response m resp rtt = record m {
  total_responses = m.total_responses + 1;
  latency_buckets = count_latency m.latency_buckets rtt;
  queries_by_upstream = on_upstream (count_success rtt) resp.upstream m.queries_by_upstream;
}

unfoldable pub record_error : DnsMetrics → Text → DnsMetrics
unfolding bump on_upstream
record_error m upstream = record m {
  total_errors = m.total_errors + 1;
  errors_by_upstream =
      if is_empty upstream then m.errors_by_upstream else bump upstream m.errors_by_upstream;
  queries_by_upstream =
      on_upstream (λ um. record um { errors = um.errors + 1 }) upstream m.queries_by_upstream;
}

unfoldable pub record_timeout : DnsMetrics → Text → DnsMetrics
unfolding record_error
record_timeout m upstream =
    record_error (record m { total_timeouts = m.total_timeouts + 1 }) upstream

abbrev pub record_cache_hit : DnsMetrics → DnsMetrics
record_cache_hit m = record m { cache_hits = m.cache_hits + 1 }

abbrev pub record_cache_miss : DnsMetrics → DnsMetrics
record_cache_miss m = record m { cache_misses = m.cache_misses + 1 }

abbrev pub record_cache_eviction : DnsMetrics → DnsMetrics
record_cache_eviction m = record m { cache_evictions = m.cache_evictions + 1 }

abbrev pub record_prefetch : DnsMetrics → DnsMetrics
record_prefetch m = record m { prefetch_count = m.prefetch_count + 1 }

unfoldable pub record_rule_hit : DnsMetrics → Text → DnsMetrics
unfolding bump
record_rule_hit m rule_id =
    if is_empty rule_id then m else record m { hits_by_rule = bump rule_id m.hits_by_rule }

unfoldable pub record_action : DnsMetrics → Text → DnsMetrics
record_action m action =
    if text_beq action (codes "route")
    then record m { routed_queries = m.routed_queries + 1 }
    else if text_beq action (codes "reject")
    then record m { rejected_queries = m.rejected_queries + 1 }
    else if text_beq action (codes "bypass")
    then record m { bypassed_queries = m.bypassed_queries + 1 }
    else m

-- Reset; the time of the start is not in the model.
unfoldable pub reset : DnsMetrics → DnsMetrics
unfolding new_dns_metrics
reset m = new_dns_metrics
