-- ===== src/Service/Automation/Wakeup.antt =====
-- service/server/service/automation.go: after a round, the worker has a deadline to wake up at.
use v2ray_a.Base.{
  ℕ, ◌≡◌, ◌≢◌, ◌≤◌, ◌⊎◌, refl, true, ◌||◌, Option, none, some, List, [], ◌∷◌, Text, ◌==◌, nat_eq,
  text_beq, text_beq_iff, lookup, insert, lookup-insert, arith, Bool-cases, inl, inr,
}
use v2ray_a.Service.Automation.{
  SubscriptionRaw, World, Schedule, due, is_interval_mode, signature_of,
}
use v2ray_a.Service.Automation.Process.{process_state, process, fresh, current_schedule}
use v2ray_a.Service.Automation.Deadline.{
  earlier, subscriptions_deadline, GroupSchedule, groups_deadline, next_deadline,
}
use v2ray_a.Service.Automation.Updated.{WorldLaws}
use v2ray_a.Service.Automation.Alive.{pending, alive, process_state-alive, alive-next_update}

-- No later than a time.
abbrev pub AtMost : Option ℕ → ℕ → Type 0
AtMost none d = ⊥
AtMost (some t) d = t ≤ d

earlier-AtMost : (o p : Option ℕ) (d : ℕ) → AtMost o d → AtMost (earlier o p) d
earlier-AtMost none p d h = absurd h
earlier-AtMost (some n) none d h = h
earlier-AtMost (some n) (some t) d h = ground arith

AtMost-earlier : (o p : Option ℕ) (d : ℕ) → AtMost p d → AtMost (earlier o p) d
AtMost-earlier o none d h = absurd h
AtMost-earlier none (some t) d h = h
AtMost-earlier (some n) (some t) d h = ground arith

subscriptions_deadline-AtMost :
    (schedules : List (ℕ × Schedule)) (next : Option ℕ) (d : ℕ)
    → AtMost next d
    → AtMost (subscriptions_deadline next schedules) d
unfolding subscriptions_deadline
subscriptions_deadline-AtMost [] next d h = h
subscriptions_deadline-AtMost ((id, state) ∷ rest) next d h =
    subscriptions_deadline-AtMost rest _ d (
      earlier-AtMost _ state.next_retry d
        (earlier-AtMost _ state.next_health d (earlier-AtMost _ state.next_update d h)))

groups_deadline-AtMost :
    (groups : List (Text × GroupSchedule)) (next : Option ℕ) (d : ℕ)
    → AtMost next d
    → AtMost (groups_deadline next groups) d
unfolding groups_deadline
groups_deadline-AtMost [] next d h = h
groups_deadline-AtMost ((name, state) ∷ rest) next d h =
    groups_deadline-AtMost rest _ d (earlier-AtMost _ state.next d h)

-- No deadline of a schedule is forgotten.
abbrev Waits : Schedule → ℕ → Type 0
Waits state d =
    (state.next_update ≡ some d) ⊎ (state.next_health ≡ some d) ⊎ (state.next_retry ≡ some d)

schedule-AtMost :
    (next : Option ℕ) (state : Schedule) (d : ℕ)
    → Waits state d
    → AtMost
        (earlier (earlier (earlier next state.next_update) state.next_health) state.next_retry)
        d
schedule-AtMost next state d (inl e) = earlier-AtMost _ state.next_retry d (
    earlier-AtMost _ state.next_health d
      (AtMost-earlier next state.next_update d (rw e (ground arith))))
schedule-AtMost next state d (inr (inl e)) =
    earlier-AtMost _ state.next_retry d
      (AtMost-earlier (earlier next state.next_update) state.next_health d (rw e (ground arith)))
schedule-AtMost next state d (inr (inr e)) =
    AtMost-earlier (earlier (earlier next state.next_update) state.next_health) state.next_retry d
      (rw e (ground arith))

lookup-AtMost :
    (schedules : List (ℕ × Schedule)) (next : Option ℕ) (id d : ℕ) (state : Schedule)
    → lookup id schedules ≡ some state
    → Waits state d
    → AtMost (subscriptions_deadline next schedules) d
unfolding lookup subscriptions_deadline
lookup-AtMost [] next id d state found h = absurd cc
lookup-AtMost ((key, held) ∷ rest) next id d state found h = elim (Bool-cases (key == id)) [
  | inl here ↦
      let same : held ≡ state = ground (arith, here) in
      subscriptions_deadline-AtMost rest _ d (schedule-AtMost next held d (rw same h))
  | inr other ↦ lookup-AtMost rest _ id d state (ground (arith, other)) h
]

pub next_deadline-AtMost :
    (schedules : List (ℕ × Schedule)) (groups : List (Text × GroupSchedule)) (id d : ℕ)
    (state : Schedule)
    → lookup id schedules ≡ some state
    → Waits state d
    → AtMost (next_deadline schedules groups) d
unfolding next_deadline
next_deadline-AtMost schedules groups id d state found h =
    groups_deadline-AtMost groups _ d (lookup-AtMost schedules none id d state found h)

-- A schedule that is there, if it is for the subscription as it is, has the deadlines that the
-- mode needs.
unfoldable pub KeepsIfCurrent :
    {S N : Type 0} → World S N → SubscriptionRaw N → Option Schedule → Type 0
KeepsIfCurrent w sub none = Unit {0}
KeepsIfCurrent w sub (some state) =
    state.signature ≡ signature_of w sub → alive sub.policy.mode state ≡ true

pub pending-some : (o : Option ℕ) → pending o ≡ true → (d : ℕ) × (o ≡ some d)
pending-some none h = absurd cc
pending-some (some d) h = (d, refl)

module _ {S N : Type 0} (w : World S N) where
  fresh_ready :
      (sub : SubscriptionRaw N) (now : ℕ)
      → let state = fresh w (signature_of w sub) now in
        (pending state.next_update ≡ true)
        × (alive sub.policy.mode state || due state.next_update now ≡ true)
  fresh_ready sub now = (refl, ground arith)

  current_ready :
      (sub : SubscriptionRaw N) (o : Option Schedule) (now : ℕ)
      → is_interval_mode sub.policy.mode ≡ true
      → KeepsIfCurrent w sub o
      → let state = current_schedule w o (signature_of w sub) now in
        (pending state.next_update ≡ true)
        × (alive sub.policy.mode state || due state.next_update now ≡ true)
  unfolding KeepsIfCurrent
  current_ready sub none now i h = fresh_ready sub now
  current_ready sub (some state) now i h =
      elim (Bool-cases (text_beq state.signature (signature_of w sub))) [
        | inl same ↦
            let kept = h ((text_beq_iff _ _).0 same) in
            rw same (alive-next_update sub.policy.mode state i kept, ground (arith, kept))
        | inr other ↦ rw other (fresh_ready sub now)
      ]

insert_other :
    (id other : ℕ) (new : Schedule) (schedules : List (ℕ × Schedule))
    → id ≢ other
    → lookup other (insert id new schedules) ≡ lookup other schedules
insert_other id other new schedules differs = ground (arith, lookup-insert id other new schedules)

-- The schedules of other subscriptions are as before.
pub process-others :
    {S N : Type 0} (w : World S N) (s : S) (schedules : List (ℕ × Schedule))
    (sub : SubscriptionRaw N) (url : Text) (id : ℕ)
    → sub.policy.id ≢ id
    → lookup id (process w s schedules sub url).1 ≡ lookup id schedules
unfolding process
process-others w s schedules sub url id differs = insert_other sub.policy.id id _ schedules differs

-- For a subscription that is updated at intervals, with or without the fail-safe, whatever the
-- download, the probes, the update of the stored subscription and the clock give, and whenever the
-- context ends: if its schedule, where it is for the subscription as it is, has the deadlines that
-- the mode needs, then after process it has them again, the worker's next deadline is no later than
-- its next update, and the schedules of the other subscriptions are as before. It is relied on that
-- printed policies that are equal have equal modes, and that a stored update keeps the policy.
pub process-alive :
    {S N : Type 0} (w : World S N) (s : S) (schedules : List (ℕ × Schedule))
    (groups : List (Text × GroupSchedule)) (sub : SubscriptionRaw N) (url : Text)
    → WorldLaws w
    → is_interval_mode sub.policy.mode ≡ true
    → KeepsIfCurrent w sub (lookup sub.policy.id schedules)
    → let after = (process w s schedules sub url).1 in
      ((state : Schedule) × (d : ℕ) × (lookup sub.policy.id after ≡ some state)
        × (alive sub.policy.mode state ≡ true)
        × (state.next_update ≡ some d)
        × AtMost (next_deadline after groups) d)
      × ((id : ℕ) → sub.policy.id ≢ id → lookup id after ≡ lookup id schedules)
unfolding process
process-alive w s schedules groups sub url laws i h =
    let (s', now) = w.now s in
    let id = sub.policy.id in
    let old = current_schedule w (lookup id schedules) (signature_of w sub) now in
    let (ready, or_due) = current_ready w sub (lookup id schedules) now i h in
    let state = (process_state w s' old sub url now).1 in
    let kept = process_state-alive w laws s' old sub url now i ready or_due in
    let here : lookup id (insert id state schedules) ≡ some state =
      ground (arith, lookup-insert id id state schedules) in
    let (d, waits) =
      pending-some state.next_update (alive-next_update sub.policy.mode state i kept) in
    (
      (
        state,
        d,
        here,
        kept,
        waits,
        next_deadline-AtMost (insert id state schedules) groups id d state here (inl waits),
      ),
      λ other differs. ground (arith, lookup-insert id other state schedules),
    )
