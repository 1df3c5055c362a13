-- ===== src/Service/Process/Safe.antt =====
-- service/kernel/v2ray/processManager.go: no rules of the transparent proxy without a core.
use v2ray_a.Base.{
  ℕ, ◌≡◌, Bool, true, false, not, ◌&&◌, ◌||◌, Option, none, some, if◌then◌else◌, arith,
}
use v2ray_a.Service.Nodes.{is_some}
use v2ray_a.Service.Process.{
  Setting, Process, Manager, check_and_stop, before_stop, cleanup_retained, stop, stop_core,
  handle_unexpected_stop, check_and_stop_current,
}
use v2ray_a.Service.Process.Start.{
  Reply, succeeded, failed, failed_partly, failed_late, Pc, idle, deleting, deleted, pre_hook,
  pre_hooked, resolving, writing, failing, returning, System, write_rules, is_idle, pause,
  mark_paused, on_manager,
}

abbrev pub is_returning : Pc → Bool
is_returning returning = true
is_returning _ = false

-- The steps before the rules are written.
abbrev pub before_write : Pc → Bool
before_write deleting = true
before_write deleted = true
before_write pre_hook = true
before_write pre_hooked = true
before_write resolving = true
before_write writing = true
before_write _ = false

-- The steps after the process has been started, up to the commit.
abbrev pub uncommitted : Pc → Bool
uncommitted idle = false
uncommitted failing = false
uncommitted returning = false
uncommitted _ = true

-- The owner of the interception: a core whose setting asks for it, or a start that keeps it.
abbrev pub held : Manager → Bool
held m = elim m.p [ some q ↦ not q.setting.closed | none ↦ is_some m.retained_setting ]

abbrev pub open_setting : Option Setting → Bool
open_setting none = true
open_setting (some r) = not r.closed

abbrev pub same_setting : Option Process → Bool → Bool
same_setting none closed = true
same_setting (some q) closed = if q.setting.closed then closed else not closed

abbrev pub implies : Bool → Bool → Bool
implies a b = not a || b

pub record Inv (s : System) : Type 0 where
  pub flagged : implies s.manager.rules (s.manager.transparent_on || s.manager.residue) ≡ true
  pub owner : implies s.manager.transparent_on (held s.manager) ≡ true
  pub kept_open : open_setting s.manager.retained_setting ≡ true
  pub idle_clear :
      implies
        (is_idle s.pc)
        (not (is_some s.manager.retained_setting) && not s.manager.retaining_interception)
      ≡ true
  pub retaining : implies s.manager.retaining_interception s.job.retained ≡ true
  pub retained : implies (is_some s.manager.retained_setting) s.job.retained ≡ true
  pub returned : implies (is_returning s.pc) (not (is_some s.manager.retained_setting)) ≡ true
  pub kept :
      implies s.manager.retaining_interception
        (is_returning s.pc || is_some s.manager.retained_setting)
      ≡ true
  pub saved : implies (uncommitted s.pc) (is_some s.manager.host_state) ≡ true
  pub same :
      implies (not (is_idle s.pc)) (same_setting s.manager.p s.job.process.setting.closed) ≡ true
  pub opens : implies (before_write s.pc) (not s.job.process.setting.closed) ≡ true

-- The start has committed but has not yet reset the flag by which it kept the interception.
abbrev pub in_window : System → Bool
in_window s = is_returning s.pc && s.manager.retaining_interception && is_some s.manager.p

pub stops-Inv : (save : Bool) (s : System) → Inv s → Inv (on_manager (stop_core save) s)
unfolding stop_core stop before_stop check_and_stop cleanup_retained
stops-Inv save s inv = ground arith

pub exits-Inv :
    (id : ℕ) (s : System)
    → in_window s ≡ false
    → Inv s
    → Inv (on_manager (handle_unexpected_stop id) s)
unfolding handle_unexpected_stop stop before_stop check_and_stop
exits-Inv id s outside inv = ground arith

pub current-Inv : (s : System) → Inv s → Inv (on_manager check_and_stop_current s)
unfolding check_and_stop_current check_and_stop
current-Inv s inv = ground arith

pub pauses-Inv : (id generation : ℕ) (s : System) → Inv s → Inv (on_manager (pause id generation) s)
pauses-Inv id generation s inv = ground arith

pub marks-Inv :
    (id generation : ℕ) (b : Bool) (s : System)
    → Inv s
    → Inv (on_manager (mark_paused id generation b) s)
marks-Inv id generation b s inv = ground arith

-- The core that runs wants the interception.
abbrev pub wanted : Manager → Bool
wanted m = elim m.p [ none ↦ false | some q ↦ not q.setting.closed ]

pub write_rules-Inv :
    (reply : Reply) (s : System)
    → wanted s.manager ≡ true
    → Inv s
    → Inv (on_manager (write_rules reply) s)
write_rules-Inv succeeded s want inv = ground arith
write_rules-Inv failed s want inv = ground arith
write_rules-Inv failed_partly s want inv = ground arith
write_rules-Inv failed_late s want inv = ground arith
