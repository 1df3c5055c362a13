-- ===== src/Service/Automation/AllAlive.antt =====
-- service/server/service/automation.go: a round over all subscriptions.
use v2ray_a.Base.{
  ℕ, ◌≡◌, refl, sym, ◌∙◌, subst, Bool, true, false, Option, none, some, List, [], ◌∷◌, Text, nat_eq,
  if◌then◌else◌, lookup, All, arith, inl,
}
use v2ray_a.Service.Automation.{
  SubscriptionRaw, World, Schedule, Result, finished, stopped, panicked, is_interval_mode,
}
use v2ray_a.Service.Automation.Deadline.{GroupSchedule, next_deadline}
use v2ray_a.Service.Automation.Updated.{WorldLaws}
use v2ray_a.Service.Automation.Alive.{alive, alive-next_update}
use v2ray_a.Service.Automation.Wakeup.{AtMost, KeepsIfCurrent, next_deadline-AtMost, pending-some}
use v2ray_a.Service.Automation.Round.{
  is_active, prune, process_all, prune_finished, step_subscriptions, step_returns,
}
use v2ray_a.Service.Automation.LoopAlive.{Apart, Ready, Live, LoopResult, process_all-LoopResult}

lookup-prune :
    (active : ℕ → Bool) (id : ℕ) (schedules : List (ℕ × Schedule))
    → lookup id (prune active schedules) ≡ (if active id then lookup id schedules else none)
unfolding lookup prune
lookup-prune active id [] = ground arith
lookup-prune active id ((key, state) ∷ rest) = ground (arith, lookup-prune active id rest)

-- The worker sleeps no longer than to a time, or, where the context ended in the groups, has no time to
-- wake up at.
abbrev pub WakesBy : Bool → Option ℕ → ℕ → Type 0
WakesBy true returned d = returned ≡ none
WakesBy false returned d = AtMost returned d

module _ {S N : Type 0} (w : World S N) (groups : List (Text × GroupSchedule)) (ended : Bool) where
  -- A subscription has a schedule with the deadlines of its mode, and the step returns a deadline in
  -- time for it, if the context has not ended in the groups.
  abbrev pub Awaited : List (ℕ × Schedule) → SubscriptionRaw N → Type 0
  Awaited schedules sub =
      is_interval_mode sub.policy.mode ≡ true
      → (state : Schedule) × (d : ℕ) × (lookup sub.policy.id schedules ≡ some state)
        × (alive sub.policy.mode state ≡ true)
        × (state.next_update ≡ some d)
        × WakesBy ended (step_returns finished ended schedules groups) d

  returned-WakesBy :
      (b : Bool) (schedules : List (ℕ × Schedule)) (d : ℕ)
      → AtMost (next_deadline schedules groups) d
      → WakesBy b (step_returns finished b schedules groups) d
  unfolding step_returns
  returned-WakesBy true schedules d h = refl
  returned-WakesBy false schedules d h = h

  Live-Awaited :
      (schedules : List (ℕ × Schedule)) (active : ℕ → Bool) (sub : SubscriptionRaw N)
      → (is_interval_mode sub.policy.mode ≡ true → active sub.policy.id ≡ true)
      → Live w schedules sub
      → Awaited (prune active schedules) sub
  Live-Awaited schedules active sub on live i =
      let (state, found, kept) = live i in
      let (d, waits) =
        pending-some state.next_update (alive-next_update sub.policy.mode state i kept) in
      let here : lookup sub.policy.id (prune active schedules) ≡ some state =
        lookup-prune active sub.policy.id schedules ∙ ground (arith, on i, found) in
      (
        state,
        d,
        here,
        kept,
        waits,
        returned-WakesBy ended (prune active schedules) d (
            next_deadline-AtMost (prune active schedules) groups sub.policy.id d state here
              (inl waits)),
      )

  IsActive : List (SubscriptionRaw N) → SubscriptionRaw N → Type 0
  IsActive whole sub =
      is_interval_mode sub.policy.mode ≡ true → is_active whole sub.policy.id ≡ true

  IsActive-cons :
      (whole : List (SubscriptionRaw N)) (first : SubscriptionRaw N)
      (subs : List (SubscriptionRaw N))
      → All (IsActive whole) subs
      → All (IsActive (first ∷ whole)) subs
  unfolding is_active IsActive
  IsActive-cons whole first [] h = tt
  IsActive-cons whole first (sub ∷ subs) (here, h) =
      ((λ i. ground (arith, here i)), IsActive-cons whole first subs h)

  All-IsActive : (subs : List (SubscriptionRaw N)) → All (IsActive subs) subs
  unfolding is_active IsActive
  All-IsActive [] = tt
  All-IsActive (sub ∷ subs) =
      ((λ i. ground (arith, i)), IsActive-cons subs sub subs (All-IsActive subs))

  All-Awaited :
      (schedules : List (ℕ × Schedule)) (whole subs : List (SubscriptionRaw N))
      → All (IsActive whole) subs
      → All (Live w schedules) subs
      → All (Awaited (prune (is_active whole) schedules)) subs
  unfolding IsActive
  All-Awaited schedules whole [] active live = tt
  All-Awaited schedules whole (sub ∷ subs) (on, active) (here, live) = (
    Live-Awaited schedules (is_active whole) sub on here,
    All-Awaited schedules whole subs active live,
  )

  -- The schedules after a round: sound for the next one, however it ended.
  prune-Ready :
      (schedules : List (ℕ × Schedule)) (active : ℕ → Bool) (subs : List (SubscriptionRaw N))
      → All (Ready w schedules) subs
      → All (Ready w (prune active schedules)) subs
  unfolding KeepsIfCurrent
  prune-Ready schedules active [] h = tt
  prune-Ready schedules active (sub ∷ subs) (here, h) = (
    (λ i.
        subst (KeepsIfCurrent w sub) (sym (lookup-prune active sub.policy.id schedules))
          (kept (active sub.policy.id) (here i))),
    prune-Ready schedules active subs h,
  )
    where
      kept :
          (b : Bool)
          → KeepsIfCurrent w sub (lookup sub.policy.id schedules)
          → KeepsIfCurrent w sub (if b then lookup sub.policy.id schedules else none)
      kept true h = h
      kept false h = tt

  pruned :
      (schedules : List (ℕ × Schedule)) (subs : List (SubscriptionRaw N))
      (r : S × List (ℕ × Schedule) × Result)
      → LoopResult w schedules subs r
      → let (s', after, result) = prune_finished w subs r in
        All (Ready w after) subs × (result ≡ finished → All (Awaited after) subs)
  unfolding prune_finished LoopResult
  pruned schedules subs (s, after, finished) (ready, lives, others) = (
    prune-Ready after (is_active subs) subs ready,
    λ end. All-Awaited after subs subs (All-IsActive subs) (lives refl),
  )
  pruned schedules subs (s, after, stopped) (ready, lives, others) = (ready, λ end. absurd cc)
  pruned schedules subs (s, after, panicked) (ready, lives, others) = (ready, λ end. absurd cc)

-- For subscriptions with different identities, whatever the downloads, the probes, the stored
-- updates and the clock give, and whenever the context ends: if before a round every schedule of a
-- subscription updated at intervals, where it is for the subscription as it is, has the deadlines
-- that the mode needs, then so it is after the round, however its pass over the subscriptions ended.
-- Where this pass went through all subscriptions, each of those updated at intervals has a schedule
-- with these deadlines; the deadline that the step then returns is no later than its next update if
-- the context has not ended in the groups, and if it has, the step returns no deadline at all. It is
-- relied on that printed policies that are equal have equal modes, and that a stored update keeps the
-- policy.
pub step_subscriptions-Awaited :
    {S N : Type 0} (w : World S N) (groups : List (Text × GroupSchedule)) (ended : Bool)
    (subs : List (SubscriptionRaw N)) (url : Text) (s : S) (schedules : List (ℕ × Schedule))
    → WorldLaws w
    → Apart subs
    → All (Ready w schedules) subs
    → let (s', after, result) = step_subscriptions w subs url s schedules in
      All (Ready w after) subs × (result ≡ finished → All (Awaited w groups ended after) subs)
unfolding step_subscriptions
step_subscriptions-Awaited w groups ended subs url s schedules laws apart ready =
    pruned w groups ended schedules subs (process_all w subs url s schedules)
      (process_all-LoopResult w laws subs url s schedules apart ready)
