-- ===== src/Service/Automation.antt =====
-- service/server/service/automation.go: the updates of subscriptions, due at deadlines. A time is in
-- nanoseconds, `none` where Go has the zero time. What the worker calls on is the record World, its
-- state of any type: the clock, the context, the download, the probe, and the stored subscriptions.
pub mod Process
pub mod Deadline
pub mod Updated
pub mod Alive
pub mod Wakeup
pub mod Round
pub mod LoopAlive
pub mod AllAlive
use v2ray_a.Base.{
  ℕ, zero, suc, ◌+◌, ◌*◌, Bool, true, false, not, ◌&&◌, ◌||◌, Option, none, some, List, [], ◌∷◌,
  Text, ◌==◌, Eq, text_beq, ltb, eqb, if◌then◌else◌, lookup, insert, get_elem?, any,
}

pub data UpdateMode : Type 0 where
  disabled : UpdateMode
  on_start : UpdateMode
  at_interval : UpdateMode
  interval_failsafe : UpdateMode
  other_mode : Text → UpdateMode

-- The fields that subscriptionPolicySignature prints.
pub record Policy : Type 0 where
  pub id : ℕ
  pub address : Text
  pub mode : UpdateMode
  pub regular : ℕ
  pub allow_direct : Bool
  pub failsafe : ℕ

-- A subscription: its policy and its servers, `none` for one that is nil.
pub record SubscriptionRaw (N : Type 0) : Type 0 where
  pub policy : Policy
  pub servers : List (Option N)

-- `store` is storeSubscriptionUpdate; `clone` is ResolveURL of a node's ExportToURL, and a probe
-- says of each node whether it was reached.
pub record World (S N : Type 0) : Type 0 where
  pub now : S → S × ℕ
  pub cancelled : S → S × Bool
  pub fetch : S → Text → Bool → S × Option (List N × Text)
  pub probe : S → List (Option N) → Text → S × List Bool
  pub subscriptions : S → List (SubscriptionRaw N)
  pub store : S → ℕ → SubscriptionRaw N → List N → Text → S × Bool
  pub marshal : Policy → Text
  pub is_plugin : N → Bool
  pub clone : N → Option N

pub record Schedule : Type 0 where
  pub signature : Text
  pub next_update : Option ℕ
  pub next_health : Option ℕ
  pub next_retry : Option ℕ
  pub warned_unprobeable : Bool

abbrev pub minutes : ℕ → ℕ
minutes n = n * 60000000000

-- `!t.IsZero() && !now.Before(t)`
abbrev pub due : Option ℕ → ℕ → Bool
due none now = false
due (some t) now = not (ltb now t)

unfoldable pub find_subscription :
    {N : Type 0} → ℕ → List (SubscriptionRaw N) → Option (ℕ × SubscriptionRaw N)
find_subscription id [] = none
find_subscription id (sub ∷ subs) =
    let rest = find_subscription id subs in
    if eqb sub.policy.id id
    then some (0, sub)
    else elim rest [ none ↦ none | some (i, found) ↦ some (suc i, found) ]

abbrev pub is_interval_mode : UpdateMode → Bool
is_interval_mode at_interval = true
is_interval_mode interval_failsafe = true
is_interval_mode disabled = false
is_interval_mode on_start = false
is_interval_mode (other_mode t) = false

abbrev pub is_failsafe : UpdateMode → Bool
is_failsafe interval_failsafe = true
is_failsafe at_interval = false
is_failsafe disabled = false
is_failsafe on_start = false
is_failsafe (other_mode t) = false

pub data Result : Type 0 where
  finished : Result
  stopped : Result
  panicked : Result

abbrev pub updated_sub : {N : Type 0} → Option (ℕ × SubscriptionRaw N) → Option (SubscriptionRaw N)
updated_sub none = none
updated_sub (some (i, sub)) = some sub

-- What applyUpdate gives: an error, or the subscription found after the update, nil if none is.
pub data Applied (N : Type 0) : Type 0 where
  apply_error : Applied N
  updated : Option (SubscriptionRaw N) → Applied N

abbrev pub is_nil : {N : Type 0} → Option N → Bool
is_nil none = true
is_nil (some n) = false

module _ {S N : Type 0} (w : World S N) where
  abbrev pub signature_of : SubscriptionRaw N → Text
  signature_of sub = w.marshal sub.policy

  unfoldable pub clone_probe_nodes : List (Option N) → List (Option N)
  clone_probe_nodes [] = []
  clone_probe_nodes (none ∷ nodes) = none ∷ clone_probe_nodes nodes
  clone_probe_nodes (some n ∷ nodes) =
      let rest = clone_probe_nodes nodes in if w.is_plugin n then none ∷ rest else w.clone n ∷ rest

  unfoldable pub store_found :
      S → SubscriptionRaw N → List N → Text → Option (ℕ × SubscriptionRaw N) → S × Applied N
  unfolding find_subscription
  store_found s observed nodes info none = (s, apply_error)
  store_found s observed nodes info (some (index, current)) =
      if not (text_beq (signature_of current) (signature_of observed))
      then (s, apply_error)
      else (let (s', ok) = w.store s index current nodes info in
          if ok
          then (
            s',
            updated (updated_sub (find_subscription observed.policy.id (w.subscriptions s'))),
          )
          else (s', apply_error))

  unfoldable pub apply_update : S → SubscriptionRaw N → List N → Text → S × Applied N
  unfolding find_subscription store_found
  apply_update s observed nodes info =
      let (s', stop) = w.cancelled s in
      if stop
      then (s', apply_error)
      else store_found s' observed nodes info
          (find_subscription observed.policy.id (w.subscriptions s'))
