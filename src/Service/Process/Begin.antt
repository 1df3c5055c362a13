-- ===== src/Service/Process/Begin.antt =====
-- service/kernel/v2ray/processManager.go: the invariant where a start replaces the old core.
use v2ray_a.Base.{
  ℕ, ◌≡◌, ◌||◌, refl, Bool, true, false, not, ◌&&◌, Option, none, some, arith, Option-cases, inl,
  inr,
}
use v2ray_a.Service.Nodes.{is_some}
use v2ray_a.Service.Process.{
  Setting, Environment, can_retain_interception, Manager, check_and_stop, before_stop,
  cleanup_retained, stop,
}
use v2ray_a.Service.Process.Start.{
  System, Request, recover, previous_setting, retains, replace_old, start_failed, process_started,
  begin_with, begin_start, is_idle,
}
use v2ray_a.Service.Process.Safe.{Inv, implies, open_setting}

started-Inv :
    (env : Environment) (retained : Bool) (r : Request) (id : ℕ) (m : Manager)
    → implies m.rules (m.transparent_on || m.residue) ≡ true
    → implies m.transparent_on (retained && not r.setting.closed) ≡ true
    → open_setting m.retained_setting ≡ true
    → implies (is_some m.retained_setting) retained ≡ true
    → implies m.retaining_interception (retained && is_some m.retained_setting) ≡ true
    → Inv (process_started env retained r id m)
unfolding process_started
started-Inv env retained r id m a b c d e = ground arith

-- What holds once the old core is stopped, and before a new one is there.
pub record Stopped (retained : Bool) (setting : Setting) (m : Manager) : Type 0 where
  pub none_left : is_some m.p ≡ false
  pub flag : implies m.rules (m.transparent_on || m.residue) ≡ true
  pub holds :
      implies m.transparent_on (retained && not setting.closed && is_some m.retained_setting) ≡ true
  pub opened : open_setting m.retained_setting ≡ true
  pub keeps : implies (is_some m.retained_setting) retained ≡ true
  pub keeping : implies m.retaining_interception (retained && is_some m.retained_setting) ≡ true

-- What may be retained: an interception that is on, by a setting equal to the new one.
abbrev pub MayRetain : Setting → Manager → Type 0
MayRetain setting m =
    (setting.closed ≡ false)
    × (is_some (previous_setting m) ≡ true)
    × (open_setting (previous_setting m) ≡ true)

pub replace_old-Stopped :
    (retained : Bool) (r : Request) (s : System)
    → is_idle s.pc ≡ true
    → (retained ≡ true → MayRetain r.setting s.manager)
    → Inv s
    → Stopped retained r.setting (replace_old retained r s.manager)
unfolding replace_old stop before_stop check_and_stop recover
replace_old-Stopped true r s still may inv = let can = may refl in ground (arith, can)
replace_old-Stopped false r s still may inv = ground arith

-- The retained setting is cleaned up again where there is no new core.
start_failed-Inv :
    (retained : Bool) (setting : Setting) (m : Manager) (s : System)
    → Stopped retained setting m
    → Inv (start_failed retained m s)
unfolding start_failed cleanup_retained check_and_stop
start_failed-Inv retained setting m s stopped = ground arith

begin_with-Inv :
    (retained : Bool) (env : Environment) (r : Request) (s : System)
    → Stopped retained r.setting (replace_old retained r s.manager)
    → Inv (begin_with retained env r s)
unfolding begin_with
begin_with-Inv retained env r s stopped = elim (Option-cases r.new_process) [
  | inr (id, here) ↦ rw here (
      started-Inv env retained r id (replace_old retained r s.manager) stopped.flag (ground arith)
        stopped.opened stopped.keeps stopped.keeping)
  | inl gone ↦
      rw gone (start_failed-Inv retained r.setting (replace_old retained r s.manager) s stopped)
]

can_retain_interception-MayRetain :
    (env : Environment) (previous : Option Setting) (setting : Setting)
    → can_retain_interception env previous setting ≡ true
    → (setting.closed ≡ false) × (is_some previous ≡ true) × (open_setting previous ≡ true)
unfolding can_retain_interception
can_retain_interception-MayRetain env none setting can = ground (arith, can)
can_retain_interception-MayRetain env (some before) setting can =
    (ground (arith, can), refl, ground (arith, can))

last_true : (a b : Bool) → a && b ≡ true → b ≡ true
last_true true b both = both
last_true false b both = ground (arith, both)

pub retains-MayRetain :
    (env : Environment) (r : Request) (m : Manager) → retains env r m ≡ true → MayRetain r.setting m
unfolding retains
retains-MayRetain env r m keep =
    can_retain_interception-MayRetain env (previous_setting m) r.setting (last_true _ _ keep)

pub begin_start-Inv :
    (env : Environment) (r : Request) (s : System)
    → is_idle s.pc ≡ true
    → Inv s
    → Inv (begin_start env r s)
unfolding begin_start
begin_start-Inv env r s still inv = begin_with-Inv (retains env r s.manager) env r s (
    replace_old-Stopped (retains env r s.manager) r s still (retains-MayRetain env r s.manager) inv)
