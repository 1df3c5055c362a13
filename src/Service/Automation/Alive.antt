-- ===== src/Service/Automation/Alive.antt =====
-- service/server/service/automation.go: the schedules that stay pending.
use v2ray_a.Base.{
  ℕ, ◌+◌, ◌≡◌, refl, ap, ◌∙◌, Bool, true, false, not, ◌&&◌, ◌||◌, Option, none, some, Text, nat_eq,
  if◌then◌else◌, arith, Bool-cases, inl, inr,
}
use v2ray_a.Service.Automation.{
  UpdateMode, at_interval, interval_failsafe, disabled, on_start, other_mode, SubscriptionRaw,
  World, Schedule, minutes, due, is_interval_mode, is_failsafe, Result, finished, stopped, panicked,
}
use v2ray_a.Service.Automation.Process.{
  subscription_unavailable, reserve, deferred, conclude, refresh_from, refresh, check_health,
  process_state,
}
use v2ray_a.Service.Automation.Updated.{WorldLaws, SameMode, apply_fetched-SameMode}

abbrev pub pending : Option ℕ → Bool
pending none = false
pending (some t) = true

-- The deadlines without which an update of the mode would never come again.
unfoldable pub alive : UpdateMode → Schedule → Bool
alive at_interval state = pending state.next_update
alive interval_failsafe state =
    pending state.next_update && (pending state.next_health || pending state.next_retry)
alive disabled state = true
alive on_start state = true
alive (other_mode t) state = true

pub alive-next_update :
    (mode : UpdateMode) (state : Schedule)
    → is_interval_mode mode ≡ true
    → alive mode state ≡ true
    → pending state.next_update ≡ true
unfolding alive
alive-next_update at_interval state i h = h
alive-next_update interval_failsafe state i h = ground arith
alive-next_update disabled state i h = absurd cc
alive-next_update on_start state i h = absurd cc
alive-next_update (other_mode t) state i h = absurd cc

module _ {S N : Type 0} (w : World S N) (laws : WorldLaws w) where
  -- The deferred call only sets deadlines.
  deferred-alive :
      (mode : UpdateMode) (failsafe : Bool) (interval : ℕ) (regular_due : Bool)
      (sub : Option (SubscriptionRaw N)) (result : Result) (s : S) (state : Schedule)
      → alive mode state ≡ true
      → alive mode (deferred w failsafe interval regular_due sub result (s, state)).1 ≡ true
  unfolding deferred reserve alive
  deferred-alive at_interval failsafe interval regular_due sub result s state h = ground arith
  deferred-alive interval_failsafe failsafe interval regular_due sub result s state h = ground arith
  deferred-alive disabled failsafe interval regular_due sub result s state h = refl
  deferred-alive on_start failsafe interval regular_due sub result s state h = refl
  deferred-alive (other_mode t) failsafe interval regular_due sub result s state h = refl

  conclude-alive :
      (mode : UpdateMode) (s : S) (state : Schedule) (sub : SubscriptionRaw N) (url : Text)
      (interval : ℕ) (regular_due : Bool)
      → sub.policy.mode ≡ mode
      → alive mode state ≡ true
      → alive mode (conclude w s state sub url interval regular_due).1 ≡ true
  unfolding conclude subscription_unavailable alive
  conclude-alive at_interval s state sub url interval regular_due e h = simp e (ground arith)
  conclude-alive interval_failsafe s state sub url interval regular_due e h = simp e (ground arith)
  conclude-alive disabled s state sub url interval regular_due e h = refl
  conclude-alive on_start s state sub url interval regular_due e h = refl
  conclude-alive (other_mode t) s state sub url interval regular_due e h = refl

  -- After the reservation, nothing that the download or the probe does leaves the schedule without
  -- a deadline.
  finish :
      S
      → Schedule
      → SubscriptionRaw N
      → Text
      → Bool
      → Option (SubscriptionRaw N)
      → S × Schedule × Result
  finish s state sub url regular_due found =
      let failsafe = is_failsafe sub.policy.mode in
      let interval = sub.policy.failsafe in
      elim found [
        | none ↦ deferred w failsafe interval regular_due none panicked (s, state)
        | some sub' ↦
            (let (s, state, result) = conclude w s state sub' url interval regular_due in
              deferred w failsafe interval regular_due (some sub') result (s, state))
      ]

  finish-alive :
      (mode : UpdateMode) (s : S) (state : Schedule) (sub : SubscriptionRaw N) (url : Text)
      (regular_due : Bool) (found : Option (SubscriptionRaw N))
      → sub.policy.mode ≡ mode
      → SameMode w laws sub found
      → alive mode state ≡ true
      → alive mode (finish s state sub url regular_due found).1 ≡ true
  unfolding finish
  finish-alive mode s state sub url regular_due none e same h = absurd same
  finish-alive mode s state sub url regular_due (some sub') e same h =
      deferred-alive mode _ _ regular_due (some sub') _ _ _
        (conclude-alive mode s state sub' url sub.policy.failsafe regular_due (same ∙ e) h)

  fetched-alive :
      (mode : UpdateMode) (s : S) (state : Schedule) (sub : SubscriptionRaw N) (url : Text)
      (regular_due retry_due : Bool)
      → sub.policy.mode ≡ mode
      → alive mode state ≡ true
      → alive mode (refresh_from w s state sub url regular_due retry_due).1 ≡ true
  unfolding refresh_from finish
  fetched-alive mode s state sub url regular_due retry_due e h =
      elim (Bool-cases
        (w.cancelled (w.fetch s sub.policy.address (retry_due && sub.policy.allow_direct)).0).1) [
          | inl stop ↦ rw stop (deferred-alive mode _ _ regular_due (some sub) stopped _ state h)
          | inr go ↦ rw go (
              finish-alive mode _ state sub url regular_due _ e
                (apply_fetched-SameMode w laws _ sub _) h)
        ]

  reserve-alive :
      (s : S) (state : Schedule) (interval : ℕ) (regular_due : Bool)
      (sub : Option (SubscriptionRaw N))
      → pending state.next_update ≡ true
      → alive interval_failsafe (reserve w s state interval regular_due sub).1 ≡ true
  unfolding alive reserve
  reserve-alive s state interval regular_due none h = ground arith
  reserve-alive s state interval regular_due (some sub) h = ground arith

  alive-pending :
      (state : Schedule) → pending state.next_update ≡ true → alive at_interval state ≡ true
  unfolding alive
  alive-pending state h = h

  -- What refresh comes to, for either kind of mode.
  reserved : S → Schedule → SubscriptionRaw N → Bool → S × Schedule
  reserved s state sub regular_due =
      reserve w s (record state { next_health = none }) sub.policy.failsafe regular_due (some sub)

  refresh-branch :
      (failsafe : Bool) (s : S) (state : Schedule) (sub : SubscriptionRaw N) (url : Text)
      (regular_due retry_due : Bool)
      → is_failsafe sub.policy.mode ≡ failsafe
      → refresh w s state sub url regular_due retry_due ≡ (
          if failsafe
          then refresh_from w
              (reserved s state sub regular_due).0
              (reserved s state sub regular_due).1
              sub
              url
              regular_due
              retry_due
          else refresh_from w s state sub url regular_due retry_due)
  unfolding refresh reserved
  refresh-branch failsafe s state sub url regular_due retry_due e =
      ap
        (λ b.
          if b
          then refresh_from w (reserved s state sub regular_due).0
              (reserved s state sub regular_due).1 sub url regular_due retry_due
          else refresh_from w s state sub url regular_due retry_due)
        e

  refresh-alive :
      (mode : UpdateMode) (s : S) (state : Schedule) (sub : SubscriptionRaw N) (url : Text)
      (regular_due retry_due : Bool)
      → sub.policy.mode ≡ mode
      → is_interval_mode mode ≡ true
      → pending state.next_update ≡ true
      → alive mode (refresh w s state sub url regular_due retry_due).1 ≡ true
  unfolding reserved
  refresh-alive at_interval s state sub url regular_due retry_due e i h =
      rw (refresh-branch false s state sub url regular_due retry_due (ap is_failsafe e))
        (fetched-alive at_interval s state sub url regular_due retry_due e (alive-pending state h))
  refresh-alive interval_failsafe s state sub url regular_due retry_due e i h =
      rw (refresh-branch true s state sub url regular_due retry_due (ap is_failsafe e)) (
        fetched-alive interval_failsafe _ _ sub url regular_due retry_due e (
          reserve-alive s (record state { next_health = none }) sub.policy.failsafe regular_due
            (some sub) h))
  refresh-alive disabled s state sub url regular_due retry_due e i h = absurd cc
  refresh-alive on_start s state sub url regular_due retry_due e i h = absurd cc
  refresh-alive (other_mode t) s state sub url regular_due retry_due e i h = absurd cc

  unavailable-keeps :
      (s : S) (sub : SubscriptionRaw N) (url : Text) (state : Schedule)
      → (subscription_unavailable w s sub url state).1.next_update ≡ state.next_update
  unfolding subscription_unavailable
  unavailable-keeps s sub url state = ground arith

  health_alive :
      (mode : UpdateMode) (state : Schedule) (t : ℕ)
      → is_interval_mode mode ≡ true
      → pending state.next_update ≡ true
      → alive mode (record state { next_health = some t }) ≡ true
  unfolding alive
  health_alive at_interval state t i h = h
  health_alive interval_failsafe state t i h = ground arith
  health_alive disabled state t i h = refl
  health_alive on_start state t i h = refl
  health_alive (other_mode u) state t i h = refl

  if-alive :
      (mode : UpdateMode) (test : Bool) (x y : S × Schedule × Result)
      → (test ≡ true → alive mode x.1 ≡ true)
      → (test ≡ false → alive mode y.1 ≡ true)
      → alive mode (if test then x else y).1 ≡ true
  if-alive mode true x y then_ else_ = then_ refl
  if-alive mode false x y then_ else_ = else_ refl

  check_health-alive :
      (s : S) (state : Schedule) (sub : SubscriptionRaw N) (url : Text) (now : ℕ)
      → is_interval_mode sub.policy.mode ≡ true
      → pending state.next_update ≡ true
      → alive sub.policy.mode (check_health w s state sub url now).1 ≡ true
  unfolding check_health
  check_health-alive s state sub url now i h =
      let reserved = record state { next_health = some (now + minutes sub.policy.failsafe) } in
      let still = ap pending (unavailable-keeps s sub url reserved) ∙ h in
      let (s', state', unavailable, stop) = subscription_unavailable w s sub url reserved in
      if-alive sub.policy.mode (stop || not unavailable) _ _
        (λ _. health_alive sub.policy.mode state' _ i still)
        (λ _.
          refresh-alive sub.policy.mode s' (record state' { next_health = none }) sub url false true
            refl i still)

  pub process_state-alive :
      (s : S) (state : Schedule) (sub : SubscriptionRaw N) (url : Text) (now : ℕ)
      → is_interval_mode sub.policy.mode ≡ true
      → pending state.next_update ≡ true
      → alive sub.policy.mode state || due state.next_update now ≡ true
      → alive sub.policy.mode (process_state w s state sub url now).1 ≡ true
  unfolding process_state
  process_state-alive s state sub url now i h or_due =
      let regular_due = due state.next_update now in
      let retry_due = due state.next_retry now in
      if-alive sub.policy.mode (due state.next_health now && not regular_due && not retry_due) _ _
        (λ _. check_health-alive s state sub url now i h)
        λ _.
          if-alive sub.policy.mode (not regular_due && not retry_due) (s, state, finished) _
            (λ quiet. ground (arith, or_due))
            λ _. refresh-alive sub.policy.mode s state sub url regular_due retry_due refl i h
