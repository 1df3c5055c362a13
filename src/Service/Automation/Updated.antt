-- ===== src/Service/Automation/Updated.antt =====
-- service/server/service/automation.go: what applyUpdate gives back.
use v2ray_a.Base.{
  ℕ, ◌-◌, ◌≡◌, refl, ap, ◌∙◌, true, Option, none, some, List, [], ◌∷◌, Text, nat_eq, text_beq,
  text_beq_iff, eqb, get_elem?, set, arith, Option-cases, inl, inr,
}
use v2ray_a.Service.Automation.{
  Policy, SubscriptionRaw, World, find_subscription, updated_sub, Applied, apply_error, updated,
  apply_update, store_found,
}
use v2ray_a.Service.Automation.Process.{apply_fetched}

-- What is relied on of the parameters: two policies printed alike have one mode; and
-- storeSubscriptionUpdate, where it succeeds, replaces the subscription at the index by one with
-- its policy, and no other.
pub record WorldLaws {S N : Type 0} (w : World S N) : Type 0 where
  pub marshal_mode : (p q : Policy) → w.marshal p ≡ w.marshal q → p.mode ≡ q.mode
  pub store_replaces :
      (s : S) (i : ℕ) (current : SubscriptionRaw N) (nodes : List N) (info : Text)
      → get_elem? (w.subscriptions s) i ≡ some current
      → (w.store s i current nodes info).1 ≡ true
      → (next : SubscriptionRaw N) × (w.subscriptions (w.store s i current nodes info).0
          ≡ set (w.subscriptions s) i next)
        × (next.policy ≡ current.policy)

find_subscription-get :
    {N : Type 0} (id i : ℕ) (sub : SubscriptionRaw N) (subs : List (SubscriptionRaw N))
    → find_subscription id subs ≡ some (i, sub)
    → (get_elem? subs i ≡ some sub) × (eqb sub.policy.id id ≡ true)
unfolding find_subscription
find_subscription-get id i sub [] h = absurd cc
find_subscription-get id i sub (x ∷ subs) h =
    ground (arith, find_subscription-get id (i - 1) sub subs)

find_subscription-set :
    {N : Type 0} (id i : ℕ) (sub next : SubscriptionRaw N) (subs : List (SubscriptionRaw N))
    → find_subscription id subs ≡ some (i, sub)
    → next.policy ≡ sub.policy
    → find_subscription id (set subs i next) ≡ some (i, next)
unfolding find_subscription
find_subscription-set id i sub next [] h e = absurd cc
find_subscription-set id i sub next (x ∷ subs) h e =
    ground (arith, find_subscription-set id (i - 1) sub next subs)

module _ {S N : Type 0} (w : World S N) (laws : WorldLaws w) where
  -- What is found after a download has the mode of the subscription that it was made for.
  abbrev pub SameMode : SubscriptionRaw N → Option (SubscriptionRaw N) → Type 0
  SameMode sub none = ⊥
  SameMode sub (some sub') = sub'.policy.mode ≡ sub.policy.mode

  abbrev AppliedSame : SubscriptionRaw N → Applied N → Type 0
  AppliedSame sub apply_error = Unit {0}
  AppliedSame sub (updated found) = SameMode sub found

  stored-SameMode :
      (s : S) (sub current : SubscriptionRaw N) (i : ℕ) (nodes : List N) (info : Text)
      → find_subscription sub.policy.id (w.subscriptions s) ≡ some (i, current)
      → text_beq (w.marshal current.policy) (w.marshal sub.policy) ≡ true
      → (w.store s i current nodes info).1 ≡ true
      → SameMode sub (
          updated_sub
            (find_subscription sub.policy.id (w.subscriptions (w.store s i current nodes info).0)))
  stored-SameMode s sub current i nodes info here same ok =
      let there = (find_subscription-get _ i current (w.subscriptions s) here).0 in
      let (next, replaced, kept) = laws.store_replaces s i current nodes info there ok in
      let found = find_subscription-set _ i current next (w.subscriptions s) here kept in
      let mode = laws.marshal_mode current.policy sub.policy ((text_beq_iff _ _).0 same) in
      rw (replaced, found) (ap (λ (p : Policy). p.mode) kept ∙ mode)

  store_found-SameMode :
      (s : S) (sub : SubscriptionRaw N) (nodes : List N) (info : Text)
      → AppliedSame sub
          (store_found w s sub nodes info (find_subscription sub.policy.id (w.subscriptions s))).1
  unfolding store_found
  store_found-SameMode s sub nodes info =
      elim (Option-cases (find_subscription sub.policy.id (w.subscriptions s))) [
        | inl absent ↦ rw absent tt
        | inr ((i, current), found) ↦
            rw found (ground (arith, stored-SameMode s sub current i nodes info found))
      ]

  pub apply_fetched-SameMode :
      (s : S) (sub : SubscriptionRaw N) (fetched : Option (List N × Text))
      → SameMode sub (apply_fetched w s sub fetched).1
  unfolding apply_fetched apply_update
  apply_fetched-SameMode s sub none = refl
  apply_fetched-SameMode s sub (some (nodes, info)) =
      ground (arith, store_found-SameMode (w.cancelled s).0 sub nodes info)
