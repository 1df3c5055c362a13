-- ===== src/Service/Tests/OfAutomation.antt =====
-- A concrete run of the processing of a subscription.
use v2ray_a.Base.{
  ℕ, zero, suc, ◌+◌, ◌≡◌, refl, sym, ap, ◌∙◌, true, false, Option, some, List, [], ◌∷◌, Text, codes,
  lookup, insert, set, nat_eq, All,
}
use v2ray_a.Service.Automation.{
  UpdateMode, finished, disabled, on_start, at_interval, interval_failsafe, other_mode,
  SubscriptionRaw, World,
}
use v2ray_a.Service.Automation.Process.{process}
use v2ray_a.Service.Automation.Deadline.{next_deadline, GroupSchedule}
use v2ray_a.Service.Automation.Updated.{WorldLaws}
use v2ray_a.Service.Automation.Alive.{}
use v2ray_a.Service.Automation.Wakeup.{KeepsIfCurrent}
use v2ray_a.Service.Automation.Round.{step_subscriptions}
use v2ray_a.Service.Automation.LoopAlive.{Ready}
use v2ray_a.Service.Automation.AllAlive.{Awaited, step_subscriptions-Awaited}

-- The clock, and the stored subscriptions; nodes are numbers.
abbrev State : Type 0
State = ℕ × List (SubscriptionRaw ℕ)

abbrev print_mode : UpdateMode → Text
print_mode disabled = 0 ∷ []
print_mode on_start = 1 ∷ []
print_mode at_interval = 2 ∷ []
print_mode interval_failsafe = 3 ∷ []
print_mode (other_mode t) = 4 ∷ t

abbrev read_mode : Text → UpdateMode
read_mode [] = disabled
read_mode (zero ∷ t) = disabled
read_mode ((suc zero) ∷ t) = on_start
read_mode ((suc (suc zero)) ∷ t) = at_interval
read_mode ((suc (suc (suc zero))) ∷ t) = interval_failsafe
read_mode (_ ∷ t) = other_mode t

read_mode-print_mode : (m : UpdateMode) → read_mode (print_mode m) ≡ m
read_mode-print_mode disabled = refl
read_mode-print_mode on_start = refl
read_mode-print_mode at_interval = refl
read_mode-print_mode interval_failsafe = refl
read_mode-print_mode (other_mode t) = refl

abbrev put_nodes : List ℕ → List (Option ℕ)
put_nodes [] = []
put_nodes (n ∷ ns) = some n ∷ put_nodes ns

abbrev small_world : World State ℕ
small_world = record {
  now = λ (t, subs). ((t + 1, subs), t);
  cancelled = λ s. (s, false);
  fetch = λ s address direct. (s, some (7 ∷ 8 ∷ [], []));
  probe = λ s nodes url. (s, false ∷ false ∷ []);
  subscriptions = λ (t, subs). subs;
  store = λ (t, subs) i current nodes info.
      ((t, set subs i (record current { servers = put_nodes nodes })), true);
  marshal = λ p. print_mode p.mode;
  is_plugin = λ n. false;
  clone = λ n. some n;
}

small_world-WorldLaws : WorldLaws small_world
small_world-WorldLaws = record {
  marshal_mode =
      λ p q e. sym (read_mode-print_mode p.mode) ∙ ap read_mode e ∙ read_mode-print_mode q.mode;
  store_replaces =
      λ s i current nodes info here ok. (record current { servers = put_nodes nodes }, refl, refl);
}

abbrev failsafe_sub : SubscriptionRaw ℕ
failsafe_sub = record {
  policy = record {
    id = 4;
    address = codes "https://a";
    mode = interval_failsafe;
    regular = 60;
    allow_direct = true;
    failsafe = 5;
  };
  servers = some 3 ∷ [];
}

abbrev interval_sub : SubscriptionRaw ℕ
interval_sub = record {
  policy = record failsafe_sub.policy { id = 5; mode = at_interval };
  servers = [];
}

abbrev disabled_sub : SubscriptionRaw ℕ
disabled_sub = record {
  policy = record failsafe_sub.policy { id = 6; mode = disabled };
  servers = [];
}

abbrev subs : List (SubscriptionRaw ℕ)
subs = failsafe_sub ∷ disabled_sub ∷ interval_sub ∷ []

abbrev start : State
start = (50, subs)

abbrev no_groups : List (Text × GroupSchedule)
no_groups = []

step_subscriptions-Awaited_example :
    let (s', after, result) = step_subscriptions small_world subs (codes "u") start [] in
    All (Ready small_world after) subs
    × (result ≡ finished → All (Awaited small_world no_groups false after) subs)
unfolding KeepsIfCurrent lookup
step_subscriptions-Awaited_example =
    step_subscriptions-Awaited small_world no_groups false subs (codes "u") start []
      small_world-WorldLaws (((λ e. cc), ((λ e. cc), tt)), (((λ e. cc), tt), (tt, tt)))
      ((λ i. tt), ((λ i. tt), ((λ i. tt), tt)))

-- The round went through all of them.
finished_test : (step_subscriptions small_world subs (codes "u") start []).2 ≡ finished
unfolding step_subscriptions insert lookup
finished_test = refl

-- No node answers after the download, so a retry comes before the next update.
retry_test :
    let after = (process small_world start [] failsafe_sub (codes "u")).1 in
    next_deadline after [] ≡ some 300000000054
unfolding process next_deadline insert lookup
retry_test = refl
