-- ===== src/Service/Automation/Round.antt =====
-- service/server/service/automation.go: the part of step that goes over the subscriptions.
use v2ray_a.Base.{
  ℕ, Bool, Option, none, true, false, not, List, [], ◌∷◌, Text, nat_eq, eqb, if◌then◌else◌,
}
use v2ray_a.Service.Automation.{
  UpdateMode, disabled, on_start, at_interval, interval_failsafe, other_mode, SubscriptionRaw,
  World, Schedule, Result, finished, stopped, panicked,
}
use v2ray_a.Service.Automation.Deadline.{GroupSchedule, next_deadline}
use v2ray_a.Service.Automation.Process.{process}

abbrev pub is_disabled : UpdateMode → Bool
is_disabled disabled = true
is_disabled on_start = false
is_disabled at_interval = false
is_disabled interval_failsafe = false
is_disabled (other_mode t) = false

-- The subscriptions that are active, by their identity.
unfoldable pub is_active : {N : Type 0} → List (SubscriptionRaw N) → ℕ → Bool
is_active [] id = false
is_active (sub ∷ subs) id =
    let rest = is_active subs id in
    if not (is_disabled sub.policy.mode)
    then (if eqb sub.policy.id id then true else rest)
    else rest

-- The deletion of the schedules that are no longer active.
unfoldable pub prune : (ℕ → Bool) → List (ℕ × Schedule) → List (ℕ × Schedule)
prune active [] = []
prune active ((id, state) ∷ rest) =
    let later = prune active rest in if active id then (id, state) ∷ later else later

module _ {S N : Type 0} (w : World S N) where
  -- What follows the processing of one subscription: an error ends the loop if the context has
  -- ended, and is only logged if not.
  unfoldable pub after_one :
      (S → List (ℕ × Schedule) → S × List (ℕ × Schedule) × Result)
      → S × List (ℕ × Schedule) × Result
      → S × List (ℕ × Schedule) × Result
  after_one later (s, schedules, finished) = later s schedules
  after_one later (s, schedules, panicked) = (s, schedules, panicked)
  after_one later (s, schedules, stopped) =
      let (s', stop) = w.cancelled s in
      if stop then (s', schedules, stopped) else later s' schedules

  unfoldable pub process_all :
      List (SubscriptionRaw N) → Text → S → List (ℕ × Schedule) → S × List (ℕ × Schedule) × Result
  unfolding after_one process
  process_all [] url s schedules = (s, schedules, finished)
  process_all (sub ∷ subs) url s schedules =
      if is_disabled sub.policy.mode
      then process_all subs url s schedules
      else after_one (λ s' schedules'. process_all subs url s' schedules')
          (process w s schedules sub url)

  unfoldable pub prune_finished :
      List (SubscriptionRaw N) → S × List (ℕ × Schedule) × Result → S × List (ℕ × Schedule) × Result
  unfolding prune is_active
  prune_finished subs (s, schedules, finished) = (s, prune (is_active subs) schedules, finished)
  prune_finished subs (s, schedules, stopped) = (s, schedules, stopped)
  prune_finished subs (s, schedules, panicked) = (s, schedules, panicked)

  -- step, up to the groups.
  unfoldable pub step_subscriptions :
      List (SubscriptionRaw N) → Text → S → List (ℕ × Schedule) → S × List (ℕ × Schedule) × Result
  unfolding process_all prune_finished
  step_subscriptions subs url s schedules = prune_finished subs (process_all subs url s schedules)

-- What step returns: the next deadline, also where the context ends in the subscriptions, but the zero
-- time where the context has ended when one of the groups is through.
unfoldable pub step_returns :
    Result → Bool → List (ℕ × Schedule) → List (Text × GroupSchedule) → Option ℕ
unfolding next_deadline
step_returns finished ended schedules groups =
    if ended then none else next_deadline schedules groups
step_returns stopped ended schedules groups = next_deadline schedules groups
step_returns panicked ended schedules groups = none
