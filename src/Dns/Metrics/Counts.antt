-- ===== src/Dns/Metrics/Counts.antt =====
-- core/dns/metrics.go: the sums of the counters, over sequences of records.
use v2ray_a.Base.{
  ℕ, ◌+◌, ◌≤◌, ◌<◌, ◌≡◌, refl, Option, none, some, List, [], ◌∷◌, Text, is_empty, lookup, insert,
  text_eq, nat_eq, Eq, ◌==◌, All, arith, ◌⊎◌, inl, inr, Option-cases, Bool-cases, subst,
}
use v2ray_a.Dns.Types.{DnsQuery, DnsResponse}
use v2ray_a.Dns.Metrics.{
  DnsMetrics, UpstreamMetrics, LatencyBuckets, new_dns_metrics, bump, on_upstream, record_query,
  record_response, record_error, record_timeout, record_cache_hit, record_cache_miss,
  record_cache_eviction, record_prefetch, record_rule_hit, record_action, reset, count_latency,
  count_success, no_upstream_metrics, or_no_metrics,
}

module _ {ℓ} {K : Type ℓ} ⦃e : Eq K⦄ where
  abbrev pub total : List (K × ℕ) → ℕ
  total [] = 0
  total ((k, n) ∷ m) = n + total m

  total-insert_new :
      (k : K) (n : ℕ) (m : List (K × ℕ)) → lookup k m ≡ none → total (insert k n m) ≡ n + total m
  unfolding lookup insert
  total-insert_new k n [] h = refl
  total-insert_new k n ((j, i) ∷ m) h = ground (arith, total-insert_new k n m)

  total-insert_old :
      (k : K) (n i : ℕ) (m : List (K × ℕ))
      → lookup k m ≡ some i
      → total (insert k n m) + i ≡ n + total m
  unfolding lookup insert
  total-insert_old k n i [] h = cc
  total-insert_old k n i ((j, w) ∷ m) h = ground (arith, total-insert_old k n i m)

  pub total-bump : (k : K) (m : List (K × ℕ)) → total (bump k m) ≡ total m + 1
  unfolding bump
  total-bump k m = elim (Option-cases (lookup k m)) [
    | inl new ↦ rw (new, bump) (omega (arith, total-insert_new k 1 m new))
    | inr (i, old) ↦ rw (old, bump) (omega (arith, total-insert_old k (i + 1) i m old))
  ]

  pub All-insert {κ} :
      {V : Type κ} (P : V → Type 0) (k : K) (v : V) (m : List (K × V))
      → P v
      → All (λ x. P x.1) m
      → All (λ x. P x.1) (insert k v m)
  unfolding insert
  All-insert P k v [] p h = (p, tt)
  All-insert P k v ((j, w) ∷ m) p h = elim (Bool-cases (j == k)) [
    | inl same ↦ rw same (p, h.1)
    | inr other ↦ rw other (h.0, All-insert P k v m p h.1)
  ]

  pub All-lookup {κ} :
      {V : Type κ} (P : V → Type 0) (k : K) (v : V) (m : List (K × V))
      → All (λ x. P x.1) m
      → lookup k m ≡ some v
      → P v
  unfolding lookup
  All-lookup P k v [] h e = cc
  All-lookup P k v ((j, w) ∷ m) h e = elim (Bool-cases (j == k)) [
    | inl same ↦ let q : w ≡ v = ground arith in subst P q h.0
    | inr other ↦ All-lookup P k v m h.1 (ground arith)
  ]

abbrev pub latency_total : LatencyBuckets → ℕ
latency_total b = b.below_1 + b.to_5 + b.to_10 + b.to_50 + b.to_200 + b.above_200

-- The round-trip times of an upstream: none measured, or the average between the extremes.
abbrev pub RttsInOrder : UpstreamMetrics → Type 0
RttsInOrder um =
    ((um.avg_rtt ≡ 0) × (um.max_rtt ≡ 0))
    ⊎ ((0 < um.avg_rtt) × (um.min_rtt ≤ um.avg_rtt) × (um.avg_rtt ≤ um.max_rtt))

pub record Consistent (m : DnsMetrics) : Type 0 where
  pub by_type : total m.queries_by_type ≡ m.total_queries
  pub latencies : latency_total m.latency_buckets ≡ m.total_responses
  pub upstream_errors : total m.errors_by_upstream ≤ m.total_errors
  pub timeouts : m.total_timeouts ≤ m.total_errors
  pub rtts : All (λ x. RttsInOrder x.1) m.queries_by_upstream

count_latency-total :
    (b : LatencyBuckets) (rtt : ℕ) → latency_total (count_latency b rtt) ≡ latency_total b + 1
unfolding count_latency
count_latency-total b rtt = ground arith

count_success-RttsInOrder :
    (rtt : ℕ) (um : UpstreamMetrics) → RttsInOrder um → RttsInOrder (count_success rtt um)
unfolding count_success
count_success-RttsInOrder rtt um h = ground arith

on_upstream-All :
    (f : UpstreamMetrics → UpstreamMetrics)
    → ((um : UpstreamMetrics) → RttsInOrder um → RttsInOrder (f um))
    → (upstream : Text) (m : List (Text × UpstreamMetrics)) → All (λ x. RttsInOrder x.1) m
    → All (λ x. RttsInOrder x.1) (on_upstream f upstream m)
unfolding on_upstream
on_upstream-All f keeps upstream m h = elim (Bool-cases (is_empty upstream)) [
  | inl nameless ↦ rw nameless h
  | inr named ↦ rw named (All-insert RttsInOrder upstream _ m (written (lookup upstream m) refl) h)
]
  where
    written :
        (o : Option UpstreamMetrics) → lookup upstream m ≡ o → RttsInOrder (f (or_no_metrics o))
    written none e = keeps no_upstream_metrics (inl (refl, refl))
    written (some um) e = keeps um (All-lookup RttsInOrder upstream um m h e)

-- A call of a method that records something.
pub data Record : Type 0 where
  rec_query : DnsQuery → Text → ℕ → Record
  rec_response : DnsResponse → ℕ → Record
  rec_error : Text → Record
  rec_timeout : Text → Record
  rec_cache_hit rec_cache_miss rec_cache_eviction rec_prefetch rec_reset : Record
  rec_rule_hit : Text → Record
  rec_action : Text → Record

unfoldable pub apply : DnsMetrics → Record → DnsMetrics
apply m (rec_query query upstream now) = record_query m query upstream now
apply m (rec_response resp rtt) = record_response m resp rtt
apply m (rec_error upstream) = record_error m upstream
apply m (rec_timeout upstream) = record_timeout m upstream
apply m rec_cache_hit = record_cache_hit m
apply m rec_cache_miss = record_cache_miss m
apply m rec_cache_eviction = record_cache_eviction m
apply m rec_prefetch = record_prefetch m
apply m rec_reset = reset m
apply m (rec_rule_hit rule_id) = record_rule_hit m rule_id
apply m (rec_action action) = record_action m action

new-Consistent : Consistent new_dns_metrics
unfolding new_dns_metrics
new-Consistent = record {
  by_type = refl;
  latencies = refl;
  upstream_errors = omega arith;
  timeouts = omega arith;
  rtts = tt;
}

error-Consistent :
    (m : DnsMetrics) (upstream : Text) (n : ℕ)
    → Consistent m
    → n ≤ m.total_errors + 1
    → Consistent (record_error (record m { total_timeouts = n }) upstream)
unfolding record_error
error-Consistent m upstream n h b = record {
  by_type = h.by_type;
  latencies = h.latencies;
  upstream_errors = ground (arith, h.upstream_errors, total-bump upstream m.errors_by_upstream);
  timeouts = b;
  rtts =
      on_upstream-All (λ um. record um { errors = um.errors + 1 }) (λ um r. r) upstream
        m.queries_by_upstream h.rtts;
}

same_counts-Consistent :
    (m m' : DnsMetrics)
    → Consistent m
    → (m'.queries_by_type ≡ m.queries_by_type)
      × (m'.total_queries ≡ m.total_queries)
      × (m'.latency_buckets ≡ m.latency_buckets)
      × (m'.total_responses ≡ m.total_responses)
      × (m'.errors_by_upstream ≡ m.errors_by_upstream)
      × (m'.total_errors ≡ m.total_errors)
      × (m'.total_timeouts ≡ m.total_timeouts)
      × (m'.queries_by_upstream ≡ m.queries_by_upstream)
    → Consistent m'
same_counts-Consistent m m' h e = record {
  by_type = rw (e.0, e.1) h.by_type;
  latencies = rw (e.2, e.3) h.latencies;
  upstream_errors = rw (e.4, e.5) h.upstream_errors;
  timeouts = rw (e.6, e.5) h.timeouts;
  rtts = rw e.7 h.rtts;
}

pub apply-Consistent : (m : DnsMetrics) (x : Record) → Consistent m → Consistent (apply m x)
unfolding apply record_query record_response record_timeout reset record_rule_hit record_action
apply-Consistent m (rec_query query upstream now) h = record {
  by_type = omega (arith, total-bump query.qtype m.queries_by_type, h.by_type);
  latencies = h.latencies;
  upstream_errors = h.upstream_errors;
  timeouts = h.timeouts;
  rtts =
      on_upstream-All (λ um. record um { queries = um.queries + 1; last_query = now }) (λ um r. r)
        upstream m.queries_by_upstream h.rtts;
}
apply-Consistent m (rec_response resp rtt) h = record {
  by_type = h.by_type;
  latencies = omega (arith, count_latency-total m.latency_buckets rtt, h.latencies);
  upstream_errors = h.upstream_errors;
  timeouts = h.timeouts;
  rtts =
      on_upstream-All (count_success rtt) (count_success-RttsInOrder rtt) resp.upstream
        m.queries_by_upstream h.rtts;
}
apply-Consistent m (rec_error upstream) h =
    error-Consistent m upstream m.total_timeouts h (omega (arith, h.timeouts))
apply-Consistent m (rec_timeout upstream) h =
    error-Consistent m upstream (m.total_timeouts + 1) h (omega (arith, h.timeouts))
apply-Consistent m rec_cache_hit h = same_counts-Consistent m _ h assumption
apply-Consistent m rec_reset h = new-Consistent
apply-Consistent m x h = same_counts-Consistent m _ h (ground arith)

unfoldable pub apply_all : DnsMetrics → List Record → DnsMetrics
apply_all m [] = m
apply_all m (x ∷ xs) = apply_all (apply m x) xs

apply_all_from : (m : DnsMetrics) (xs : List Record) → Consistent m → Consistent (apply_all m xs)
unfolding apply_all
apply_all_from m [] h = h
apply_all_from m (x ∷ xs) h = apply_all_from (apply m x) xs (apply-Consistent m x h)

-- After any sequence of records: the counts by type add up to the queries, the latency intervals
-- to the responses, the errors by upstream to no more than the errors, the timeouts are no more
-- than the errors, and of every upstream the average lies between the least and the greatest
-- round-trip time, or none was measured.
pub apply_all-Consistent : (xs : List Record) → Consistent (apply_all new_dns_metrics xs)
apply_all-Consistent xs = apply_all_from new_dns_metrics xs new-Consistent
