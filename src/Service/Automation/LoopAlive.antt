-- ===== src/Service/Automation/LoopAlive.antt =====
-- service/server/service/automation.go: the loop of step over the subscriptions.
use v2ray_a.Base.{
  ℕ, ◌≡◌, ◌≢◌, refl, sym, ◌∙◌, subst, Bool, true, false, some, List, [], ◌∷◌, Text, nat_eq,
  if◌then◌else◌, lookup, All, arith, Bool-cases, inl, inr,
}
use v2ray_a.Service.Automation.{
  SubscriptionRaw, World, Schedule, Result, finished, stopped, panicked, is_interval_mode,
}
use v2ray_a.Service.Automation.Process.{process}
use v2ray_a.Service.Automation.Updated.{WorldLaws}
use v2ray_a.Service.Automation.Alive.{alive}
use v2ray_a.Service.Automation.Wakeup.{KeepsIfCurrent, process-alive, process-others}
use v2ray_a.Service.Automation.Round.{is_disabled, after_one, process_all}

-- No two subscriptions have the same identity.
abbrev pub Apart : {N : Type 0} → List (SubscriptionRaw N) → Type 0
Apart [] = Unit {0}
Apart (sub ∷ subs) = All (λ other. sub.policy.id ≢ other.policy.id) subs × Apart subs

module _ {S N : Type 0} (w : World S N) where
  abbrev pub Ready : List (ℕ × Schedule) → SubscriptionRaw N → Type 0
  Ready schedules sub =
      is_interval_mode sub.policy.mode ≡ true
      → KeepsIfCurrent w sub (lookup sub.policy.id schedules)

  abbrev pub Live : List (ℕ × Schedule) → SubscriptionRaw N → Type 0
  Live schedules sub =
      is_interval_mode sub.policy.mode ≡ true
      → (state : Schedule) × (lookup sub.policy.id schedules ≡ some state)
        × (alive sub.policy.mode state ≡ true)

  Live-Ready :
      (schedules : List (ℕ × Schedule)) (sub : SubscriptionRaw N)
      → Live schedules sub
      → Ready schedules sub
  unfolding KeepsIfCurrent
  Live-Ready schedules sub live i =
      let (state, found, kept) = live i in subst (KeepsIfCurrent w sub) (sym found) (λ e. kept)

  -- The same entries for the subscriptions in question.
  SameFor : List (ℕ × Schedule) → List (ℕ × Schedule) → SubscriptionRaw N → Type 0
  SameFor before after sub = lookup sub.policy.id after ≡ lookup sub.policy.id before

  Ready-SameFor :
      (before after : List (ℕ × Schedule)) (subs : List (SubscriptionRaw N))
      → All (SameFor before after) subs
      → All (Ready before) subs
      → All (Ready after) subs
  unfolding SameFor
  Ready-SameFor before after [] same ready = tt
  Ready-SameFor before after (sub ∷ subs) (same, rest) (here, ready) = (
    (λ i. subst (KeepsIfCurrent w sub) (sym same) (here i)),
    Ready-SameFor before after subs rest ready,
  )

  Live-SameFor :
      (before after : List (ℕ × Schedule)) (sub : SubscriptionRaw N)
      → SameFor before after sub
      → Live before sub
      → Live after sub
  unfolding SameFor
  Live-SameFor before after sub same live i =
      let (state, found, kept) = live i in (state, same ∙ found, kept)

  -- The result of the loop over some subscriptions, from the schedules before.
  unfoldable pub LoopResult :
      List (ℕ × Schedule) → List (SubscriptionRaw N) → S × List (ℕ × Schedule) × Result → Type 0
  LoopResult before subs (s, after, result) =
      All (Ready after) subs
      × (result ≡ finished → All (Live after) subs)
      × ((id : ℕ) → All (λ sub. sub.policy.id ≢ id) subs → lookup id after ≡ lookup id before)

  All-SameFor :
      (before after : List (ℕ × Schedule)) (id : ℕ) (subs : List (SubscriptionRaw N))
      → ((other : ℕ) → id ≢ other → lookup other after ≡ lookup other before)
      → All (λ sub. id ≢ sub.policy.id) subs
      → All (SameFor before after) subs
  unfolding SameFor
  All-SameFor before after id [] same apart = tt
  All-SameFor before after id (sub ∷ subs) same (differs, apart) =
      (same sub.policy.id differs, All-SameFor before after id subs same apart)

  flipped :
      (id : ℕ) (subs : List (SubscriptionRaw N))
      → All (λ sub. id ≢ sub.policy.id) subs
      → All (λ sub. sub.policy.id ≢ id) subs
  flipped id [] h = tt
  flipped id (sub ∷ subs) (differs, h) = ((λ e. differs (sym e)), flipped id subs h)

  -- The rest of the loop, after a first subscription that is live.
  LoopResult-Live :
      (before mid : List (ℕ × Schedule)) (sub : SubscriptionRaw N) (subs : List (SubscriptionRaw N))
      (r : S × List (ℕ × Schedule) × Result)
      → Live mid sub
      → ((id : ℕ) → sub.policy.id ≢ id → lookup id mid ≡ lookup id before)
      → All (λ other. sub.policy.id ≢ other.policy.id) subs
      → LoopResult mid subs r
      → LoopResult before (sub ∷ subs) r
  unfolding LoopResult SameFor
  LoopResult-Live before mid sub subs r live same apart (ready, lives, others) =
      let here = others sub.policy.id (flipped sub.policy.id subs apart) in
      let still = Live-SameFor mid r.1 sub here live in
      (
        (Live-Ready r.1 sub still, ready),
        (λ end. (still, lives end)),
        λ id (differs, rest). others id rest ∙ same id differs,
      )

  -- The loop ended right after that subscription.
  ended :
      (s : S) (before mid : List (ℕ × Schedule)) (sub : SubscriptionRaw N)
      (subs : List (SubscriptionRaw N)) (result : Result)
      → result ≢ finished
      → Live mid sub
      → ((id : ℕ) → sub.policy.id ≢ id → lookup id mid ≡ lookup id before)
      → All (λ other. sub.policy.id ≢ other.policy.id) subs
      → All (Ready before) subs
      → LoopResult before (sub ∷ subs) (s, mid, result)
  unfolding LoopResult
  ended s before mid sub subs result early live same apart ready = (
    (
      Live-Ready mid sub live,
      Ready-SameFor before mid subs (All-SameFor before mid sub.policy.id subs same apart) ready,
    ),
    (λ end. absurd (early end)),
    λ id (differs, rest). same id differs,
  )

  after_one-LoopResult :
      (later : S → List (ℕ × Schedule) → S × List (ℕ × Schedule) × Result) (s : S)
      (before mid : List (ℕ × Schedule)) (result : Result) (sub : SubscriptionRaw N)
      (subs : List (SubscriptionRaw N))
      → Live mid sub
      → ((id : ℕ) → sub.policy.id ≢ id → lookup id mid ≡ lookup id before)
      → All (λ other. sub.policy.id ≢ other.policy.id) subs
      → All (Ready before) subs
      → ((s' : S) → LoopResult mid subs (later s' mid))
      → LoopResult before (sub ∷ subs) (after_one w later (s, mid, result))
  unfolding after_one
  after_one-LoopResult later s before mid finished sub subs live same apart ready k =
      LoopResult-Live before mid sub subs (later s mid) live same apart (k s)
  after_one-LoopResult later s before mid panicked sub subs live same apart ready k =
      ended s before mid sub subs panicked (λ e. cc) live same apart ready
  after_one-LoopResult later s before mid stopped sub subs live same apart ready k =
      elim (Bool-cases (w.cancelled s).1) [
        | inl stop ↦
            rw stop
              (ended (w.cancelled s).0 before mid sub subs stopped (λ e. cc) live same apart ready)
        | inr go ↦ rw go (
            LoopResult-Live before mid sub subs (later (w.cancelled s).0 mid) live same apart
              (k (w.cancelled s).0))
      ]

  module _ (laws : WorldLaws w) where
    process-Live :
        (s : S) (schedules : List (ℕ × Schedule)) (sub : SubscriptionRaw N) (url : Text)
        → Ready schedules sub
        → Live (process w s schedules sub url).1 sub
    process-Live s schedules sub url ready i =
        let ((state, d, found, kept, rest, soon), others) =
          process-alive w s schedules [] sub url laws i (ready i) in
        (state, found, kept)

    disabled-Live :
        (schedules : List (ℕ × Schedule)) (sub : SubscriptionRaw N)
        → is_disabled sub.policy.mode ≡ true
        → Live schedules sub
    disabled-Live schedules sub off i = absurd (ground arith)

    nil-LoopResult :
        (s : S) (schedules : List (ℕ × Schedule)) → LoopResult schedules [] (s, schedules, finished)
    unfolding LoopResult
    nil-LoopResult s schedules = (tt, (λ end. tt), λ id h. refl)

    if-LoopResult :
        (before : List (ℕ × Schedule)) (subs : List (SubscriptionRaw N)) (test : Bool)
        (x y : S × List (ℕ × Schedule) × Result)
        → (test ≡ true → LoopResult before subs x)
        → (test ≡ false → LoopResult before subs y)
        → LoopResult before subs (if test then x else y)
    if-LoopResult before subs true x y then_ else_ = then_ refl
    if-LoopResult before subs false x y then_ else_ = else_ refl

    pub process_all-LoopResult :
        (subs : List (SubscriptionRaw N)) (url : Text) (s : S) (schedules : List (ℕ × Schedule))
        → Apart subs
        → All (Ready schedules) subs
        → LoopResult schedules subs (process_all w subs url s schedules)
    unfolding process_all
    process_all-LoopResult [] url s schedules apart ready = nil-LoopResult s schedules
    process_all-LoopResult (sub ∷ subs) url s schedules (here, apart) (ready, later) =
        let (s', mid, result) = process w s schedules sub url in
        let same : (id : ℕ) → sub.policy.id ≢ id → lookup id mid ≡ lookup id schedules =
          λ id differs. process-others w s schedules sub url id differs in
        if-LoopResult schedules (sub ∷ subs) (is_disabled sub.policy.mode) _ _
          (λ off.
            LoopResult-Live schedules schedules sub subs (process_all w subs url s schedules)
              (disabled-Live schedules sub off) (λ id differs. refl) here
              (process_all-LoopResult subs url s schedules apart later))
          λ on.
            after_one-LoopResult (λ s'' m. process_all w subs url s'' m) s' schedules mid result sub
              subs (process-Live s schedules sub url ready) same here later
              λ s''. process_all-LoopResult subs url s'' mid apart (
                Ready-SameFor schedules mid subs
                  (All-SameFor schedules mid sub.policy.id subs same here) later)
