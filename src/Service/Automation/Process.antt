-- ===== src/Service/Automation/Process.antt =====
-- service/server/service/automation.go: the processing of one subscription.
use v2ray_a.Base.{
  ℕ, ◌+◌, Bool, true, false, not, ◌&&◌, ◌||◌, Option, none, some, List, Text, nat_eq, text_beq,
  if◌then◌else◌, lookup, insert, any,
}
use v2ray_a.Service.Automation.{
  SubscriptionRaw, World, Schedule, minutes, due, is_interval_mode, is_failsafe, Result, finished,
  stopped, panicked, apply_error, updated, is_nil, signature_of, clone_probe_nodes, apply_update,
}

module _ {S N : Type 0} (w : World S N) where
  -- subscriptionUnavailable: whether no server is reached, and whether the context has ended.
  unfoldable pub subscription_unavailable :
      S → SubscriptionRaw N → Text → Schedule → S × Schedule × Bool × Bool
  unfolding clone_probe_nodes
  subscription_unavailable s sub url state =
      let nodes = clone_probe_nodes w sub.servers in
      if any is_nil nodes
      then (let (s', stop) = w.cancelled s in
          (s', record state { warned_unprobeable = true }, false, stop))
      else (let (s', reached) = w.probe s nodes url in
          let (s'', stop) = w.cancelled s' in
          (s'', record state { warned_unprobeable = false }, not (any (λ r. r) reached), stop))

  -- The reservation before the download, and the deferred call that repeats it.
  unfoldable pub reserve : S → Schedule → ℕ → Bool → Option (SubscriptionRaw N) → S × Schedule
  reserve s state interval regular_due sub =
      let (s', t) = w.now s in
      let state' = record state { next_retry = some (t + minutes interval) } in
      if regular_due
      then elim sub [
        | none ↦ (s', state')
        | some sub ↦
            (let (s'', u) = w.now s' in
              (s'', record state' { next_update = some (u + minutes sub.policy.regular) }))
      ]
      else (s', state')

  unfoldable pub deferred :
      Bool → ℕ → Bool → Option (SubscriptionRaw N) → Result → S × Schedule → S × Schedule × Result
  unfolding reserve
  deferred failsafe interval regular_due sub result (s, state) =
      if failsafe
      then (let (s', stop) = w.cancelled s in
          if stop
          then (let (s'', state') = reserve s' state interval regular_due sub in
              (s'', state', result))
          else (s', state, result))
      else (s, state, result)

  -- The end of process, after the download and its application.
  unfoldable pub conclude :
      S → Schedule → SubscriptionRaw N → Text → ℕ → Bool → S × Schedule × Result
  unfolding subscription_unavailable
  conclude s state sub url interval regular_due =
      let (s, now) = w.now s in
      let state =
        if regular_due
        then record state {
          next_update =
              if is_interval_mode sub.policy.mode
              then some (now + minutes sub.policy.regular)
              else none;
        }
        else state in
      if not (is_failsafe sub.policy.mode)
      then (s, record state { next_health = none; next_retry = none }, finished)
      else (let (s, state, unavailable, stop) = subscription_unavailable s sub url state in
          if stop
          then (s, state, stopped)
          else (let state = record state { next_health = none; next_retry = none } in
              let (s, t) = w.now s in
              if unavailable
              then (s, record state { next_retry = some (t + minutes interval) }, finished)
              else (s, record state { next_health = some (t + minutes interval) }, finished)))

  unfoldable pub apply_fetched :
      S → SubscriptionRaw N → Option (List N × Text) → S × Option (SubscriptionRaw N)
  unfolding apply_update
  apply_fetched s sub none = (s, some sub)
  apply_fetched s sub (some (nodes, info)) =
      let (s', applied) = apply_update w s sub nodes info in
      elim applied [ apply_error ↦ (s', some sub) | updated sub' ↦ (s', sub') ]

  -- process, from the download on.
  unfoldable pub refresh_from :
      S → Schedule → SubscriptionRaw N → Text → Bool → Bool → S × Schedule × Result
  unfolding conclude apply_fetched deferred
  refresh_from s state sub url regular_due retry_due =
      let failsafe = is_failsafe sub.policy.mode in
      let interval = sub.policy.failsafe in
      let (s, fetched) = w.fetch s sub.policy.address (retry_due && sub.policy.allow_direct) in
      let (s, stop) = w.cancelled s in
      if stop
      then deferred failsafe interval regular_due (some sub) stopped (s, state)
      else (let (s, found) = apply_fetched s sub fetched in
          elim found [
            | none ↦ deferred failsafe interval regular_due none panicked (s, state)
            | some sub' ↦
                (let (s, state, result) = conclude s state sub' url interval regular_due in
                  deferred failsafe interval regular_due (some sub') result (s, state))
          ])

  -- process, once something is due: the reservation, and the rest.
  unfoldable pub refresh :
      S → Schedule → SubscriptionRaw N → Text → Bool → Bool → S × Schedule × Result
  unfolding reserve refresh_from
  refresh s state sub url regular_due retry_due =
      if is_failsafe sub.policy.mode
      then (let (s, state) =
            reserve s (record state { next_health = none }) sub.policy.failsafe regular_due
              (some sub) in
          refresh_from s state sub url regular_due retry_due)
      else refresh_from s state sub url regular_due retry_due

  -- process, where only the check of the health is due.
  unfoldable pub check_health : S → Schedule → SubscriptionRaw N → Text → ℕ → S × Schedule × Result
  unfolding subscription_unavailable refresh
  check_health s state sub url now =
      let interval = sub.policy.failsafe in
      let (s, state, unavailable, stop) =
        subscription_unavailable s sub url
          (record state { next_health = some (now + minutes interval) }) in
      if stop || not unavailable
      then (let (s, t) = w.now s in
          (
            s,
            record state { next_health = some (t + minutes interval) },
            if stop then stopped else finished,
          ))
      else refresh s (record state { next_health = none }) sub url false true

  -- process, on the schedule of its subscription.
  unfoldable pub process_state : S → Schedule → SubscriptionRaw N → Text → ℕ → S × Schedule × Result
  unfolding check_health refresh
  process_state s state sub url now =
      let regular_due = due state.next_update now in
      let retry_due = due state.next_retry now in
      let health_due = due state.next_health now in
      if health_due && not regular_due && not retry_due
      then check_health s state sub url now
      else if not regular_due && not retry_due
      then (s, state, finished)
      else refresh s state sub url regular_due retry_due

  abbrev pub fresh : Text → ℕ → Schedule
  fresh signature now = record {
    signature = signature;
    next_update = some now;
    next_health = none;
    next_retry = none;
    warned_unprobeable = false;
  }

  abbrev pub current_schedule : Option Schedule → Text → ℕ → Schedule
  current_schedule none signature now = fresh signature now
  current_schedule (some state) signature now =
      if text_beq state.signature signature then state else fresh signature now

  unfoldable pub process :
      S → List (ℕ × Schedule) → SubscriptionRaw N → Text → S × List (ℕ × Schedule) × Result
  unfolding process_state
  process s schedules sub url =
      let (s, now) = w.now s in
      let signature = signature_of w sub in
      let state = current_schedule (lookup sub.policy.id schedules) signature now in
      let (s, state, result) = process_state s state sub url now in
      (s, insert sub.policy.id state schedules, result)
