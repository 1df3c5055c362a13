-- ===== src/Service/Automation/Deadline.antt =====
-- service/server/service/automation.go: the earliest of the deadlines.
use v2ray_a.Base.{ℕ, Option, none, some, List, [], ◌∷◌, Text, nat_eq, ltb, if◌then◌else◌}
use v2ray_a.Service.Automation.{Schedule}

-- nextDeadline
abbrev pub earlier : Option ℕ → Option ℕ → Option ℕ
earlier next none = next
earlier none (some t) = some t
earlier (some n) (some t) = if ltb t n then some t else some n

unfoldable pub subscriptions_deadline : Option ℕ → List (ℕ × Schedule) → Option ℕ
subscriptions_deadline next [] = next
subscriptions_deadline next ((id, state) ∷ rest) =
    subscriptions_deadline
      (earlier (earlier (earlier next state.next_update) state.next_health) state.next_retry) rest

pub record GroupSchedule : Type 0 where
  pub signature : Text
  pub next : Option ℕ

unfoldable pub groups_deadline : Option ℕ → List (Text × GroupSchedule) → Option ℕ
groups_deadline next [] = next
groups_deadline next ((name, state) ∷ rest) = groups_deadline (earlier next state.next) rest

unfoldable pub next_deadline : List (ℕ × Schedule) → List (Text × GroupSchedule) → Option ℕ
unfolding subscriptions_deadline groups_deadline
next_deadline schedules groups = groups_deadline (subscriptions_deadline none schedules) groups
