-- ===== src/Service/Process/Whole.antt =====
-- service/kernel/v2ray/processManager.go: a start with nothing in between is whole, or undone.
use v2ray_a.Base.{
  ℕ, ◌-◌, ◌≤◌, ◌≡◌, refl, ◌∙◌, ◌⊎◌, ap, subst, Bool, true, false, not, ◌&&◌, ◌||◌, some, List, [],
  ◌∷◌, arith, Bool-cases, Option-cases, inl, inr, length,
}
use v2ray_a.Service.Nodes.{is_some}
use v2ray_a.Service.Process.{
  Environment, Process, Manager, check_and_stop, before_stop, cleanup_retained, stop, is_process,
}
use v2ray_a.Service.Process.Start.{
  Reply, succeeded, failed, failed_partly, failed_late, Pc, idle, deleting, deleted, pre_hook,
  pre_hooked, resolving, writing, written, post_hook, post_hooked, monitoring, monitored, core_hook,
  core_hooked, committing, failing, returning, Job, System, Request, recover, retains, replace_old,
  process_of, start_failed, process_started, begin_with, begin_start, owned, undo, recover_mark,
  advance, is_idle,
}
use v2ray_a.Service.Process.Safe.{Inv, implies, is_returning}
use v2ray_a.Service.Process.Steps.{at_pc, advance-Inv}
use v2ray_a.Service.Process.Clean.{is_clean, advance-clean, begin_start-clean}
use v2ray_a.Service.Process.Begin.{begin_start-Inv}
use v2ray_a.Service.Process.Ends.{steps_left, advance-steps_left, at_most_16, none_left-is_idle}

abbrev pub is_ended : Pc → Bool
is_ended pc = is_idle pc || is_returning pc

abbrev pub is_committed : Manager → Bool
is_committed m = m.running && not (is_some m.host_state) && not (is_some m.retained_setting)

-- The start owns the core, and has committed where it has ended; or it has ended, with no core.
abbrev pub whole : System → Bool
whole s =
    (owned s && implies (is_ended s.pc) (is_committed s.manager))
    || (is_ended s.pc && not (is_some s.manager.p))

-- Where the start owns the core, its deferred call leaves no core.
undo-no_core :
    (reply : Reply) (m : Manager) (j : Job)
    → owned (at_pc failing m j) ≡ true
    → whole (at_pc returning (undo reply (at_pc failing m j)) j) ≡ true
unfolding undo recover_mark stop before_stop check_and_stop cleanup_retained
undo-no_core succeeded m j own = ground (arith, own)
undo-no_core failed m j own = ground (arith, own)
undo-no_core failed_partly m j own = ground (arith, own)
undo-no_core failed_late m j own = ground (arith, own)

advance-whole :
    (env : Environment) (reply : Reply) (s : System)
    → whole s ≡ true
    → whole (advance env reply s) ≡ true
unfolding advance
advance-whole env reply s ok = go_on s.pc s.manager s.job reply ok
  where
    go_on :
        (pc : Pc) (m : Manager) (j : Job) (reply : Reply)
        → whole (at_pc pc m j) ≡ true
        → whole (advance env reply (at_pc pc m j)) ≡ true
    go_on idle m j reply ok = ok
    go_on deleting m j reply ok = ground (arith, ok)
    go_on deleted m j reply ok = ground (arith, ok)
    go_on pre_hook m j reply ok = ground (arith, ok)
    go_on pre_hooked m j reply ok = ground (arith, ok)
    go_on resolving m j reply ok = ground (arith, ok)
    go_on writing m j reply ok = ground (arith, ok)
    go_on written m j reply ok = ground (arith, ok)
    go_on post_hook m j reply ok = ground (arith, ok)
    go_on post_hooked m j reply ok = ground (arith, ok)
    go_on monitoring m j reply ok = ground (arith, ok)
    go_on monitored m j reply ok = ground (arith, ok)
    go_on core_hook m j succeeded ok = ground (arith, ok)
    go_on core_hook m j failed ok = ground (arith, ok)
    go_on core_hook m j failed_partly ok = ground (arith, ok)
    go_on core_hook m j failed_late ok = ground (arith, ok)
    go_on core_hooked m j reply ok = ground (arith, ok)
    go_on committing m j succeeded ok = ground (arith, ok)
    go_on committing m j failed ok = ground (arith, ok)
    go_on committing m j failed_partly ok = ground (arith, ok)
    go_on committing m j failed_late ok = ground (arith, ok)
    go_on failing m j reply ok = undo-no_core reply m j (ground (arith, ok))
    go_on returning m j reply ok = ground (arith, ok)

started-whole :
    (env : Environment) (retained : Bool) (r : Request) (id : ℕ) (m : Manager)
    → whole (process_started env retained r id m) ≡ true
unfolding process_started
started-whole env retained r id m = ground arith

failed-whole :
    (retained : Bool) (m : Manager) (s : System)
    → is_some m.p ≡ false
    → whole (start_failed retained m s) ≡ true
unfolding start_failed cleanup_retained check_and_stop
failed-whole retained m s gone = ground (arith, gone)

replace_old-no_core :
    (retained : Bool) (r : Request) (m : Manager) → is_some (replace_old retained r m).p ≡ false
unfolding replace_old stop before_stop check_and_stop recover
replace_old-no_core retained r m = ground arith

begin_with-whole :
    (retained : Bool) (env : Environment) (r : Request) (s : System)
    → whole (begin_with retained env r s) ≡ true
unfolding begin_with
begin_with-whole retained env r s = elim (Option-cases r.new_process) [
  | inr (id, here) ↦ rw here (started-whole env retained r id (replace_old retained r s.manager))
  | inl gone ↦ rw gone (
      failed-whole retained (replace_old retained r s.manager) s
        (replace_old-no_core retained r s.manager))
]

-- The steps of a start with nothing in between, one for each reply.
unfoldable pub run : Environment → List Reply → System → System
run env [] s = s
run env (reply ∷ replies) s = run env replies (advance env reply s)

pub run-whole :
    (env : Environment) (replies : List Reply) (s : System)
    → whole s ≡ true
    → whole (run env replies s) ≡ true
unfolding run
run-whole env [] s ok = ok
run-whole env (reply ∷ replies) s ok =
    run-whole env replies (advance env reply s) (advance-whole env reply s ok)

run-Inv : (env : Environment) (replies : List Reply) (s : System) → Inv s → Inv (run env replies s)
unfolding run
run-Inv env [] s inv = inv
run-Inv env (reply ∷ replies) s inv =
    run-Inv env replies (advance env reply s) (advance-Inv env reply s inv)

pub run-steps_left :
    (env : Environment) (replies : List Reply) (s : System)
    → steps_left (run env replies s).pc ≤ steps_left s.pc - length replies
unfolding run
run-steps_left env [] s = ground arith
run-steps_left env (reply ∷ replies) s =
    let rest = run-steps_left env replies (advance env reply s) in
    let now = advance-steps_left env reply s in omega arith

advance-job : (env : Environment) (reply : Reply) (s : System) → (advance env reply s).job ≡ s.job
unfolding advance
advance-job env reply s = go_on s.pc s.manager reply
  where
    go_on :
        (pc : Pc) (m : Manager) (reply : Reply) → (advance env reply (at_pc pc m s.job)).job ≡ s.job
    go_on idle m reply = refl
    go_on deleting m reply = ground arith
    go_on deleted m reply = ground arith
    go_on pre_hook m reply = ground arith
    go_on pre_hooked m reply = ground arith
    go_on resolving m reply = ground arith
    go_on writing m reply = ground arith
    go_on written m reply = ground arith
    go_on post_hook m reply = ground arith
    go_on post_hooked m reply = ground arith
    go_on monitoring m reply = refl
    go_on monitored m reply = ground arith
    go_on core_hook m succeeded = refl
    go_on core_hook m failed = refl
    go_on core_hook m failed_partly = refl
    go_on core_hook m failed_late = refl
    go_on core_hooked m reply = ground arith
    go_on committing m succeeded = ground arith
    go_on committing m failed = ground arith
    go_on committing m failed_partly = ground arith
    go_on committing m failed_late = ground arith
    go_on failing m reply = refl
    go_on returning m reply = refl

pub run-job :
    (env : Environment) (replies : List Reply) (s : System) → (run env replies s).job ≡ s.job
unfolding run
run-job env [] s = refl
run-job env (reply ∷ replies) s =
    run-job env replies (advance env reply s) ∙ advance-job env reply s

-- How a start leaves the system: committed, with the new process as the core; or undone, with no core,
-- no rules but a residue, and nothing retained.
pub record Committed (id : ℕ) (m : Manager) : Type 0 where
  pub core : is_process m.p id ≡ true
  pub is_running : m.running ≡ true
  pub mark_cleared : is_some m.host_state ≡ false
  pub let_go : is_some m.retained_setting ≡ false

pub record Undone (m : Manager) : Type 0 where
  pub no_core : is_some m.p ≡ false
  pub no_rules : implies m.rules m.residue ≡ true
  pub no_flag : m.transparent_on ≡ false
  pub none_retained : is_some m.retained_setting ≡ false

ended-Committed :
    (s : System)
    → is_idle s.pc ≡ true
    → Inv s
    → whole s ≡ true
    → (Committed s.job.process.id s.manager) ⊎ (Undone s.manager)
ended-Committed s still inv ok = elim (Bool-cases (is_some s.manager.p)) [
  | inl here ↦ inl record {
    core = ground (arith, here);
    is_running = ground (arith, here);
    mark_cleared = ground (arith, here);
    let_go = ground (arith, here);
  }
  | inr gone ↦ inr record {
    no_core = gone;
    no_rules = ground (arith, gone);
    no_flag = ground (arith, gone);
    none_retained = ground (arith, gone);
  }
]

pub begin_start-job :
    (env : Environment) (r : Request) (id : ℕ) (s : System)
    → r.new_process ≡ some id
    → (begin_start env r s).job.process ≡ process_of r id
unfolding begin_start begin_with process_started
begin_start-job env r id s here = rw here refl

begin_start-whole :
    (env : Environment) (r : Request) (s : System) → whole (begin_start env r s) ≡ true
unfolding begin_start
begin_start-whole env r s = begin_with-whole (retains env r s.manager) env r s

run_all-clean :
    (env : Environment) (replies : List Reply) (s : System)
    → is_clean s.manager ≡ true
    → is_clean (run env replies s).manager ≡ true
unfolding run
run_all-clean env [] s ok = ok
run_all-clean env (reply ∷ replies) s ok =
    run_all-clean env replies (advance env reply s) (advance-clean env reply s ok)

-- A start leaves no residue where there was none and the host lets rules go.
run-clean :
    (env : Environment) (replies : List Reply) (s : System) (r : Request)
    → implies (is_clean s.manager) (not (run env replies (begin_start env r s)).manager.residue)
      ≡ true
run-clean env replies s r = elim (Bool-cases (is_clean s.manager)) [
  | inl ok ↦
      let after = run_all-clean env replies (begin_start env r s) (begin_start-clean env r s ok) in
      rw ok (ground (arith, after))
  | inr other ↦ rw other refl
]

-- From a state with no start under way in which the invariant holds, a start whose process could be
-- created, with nothing in between, has ended after sixteen steps, whatever each step is answered.
-- Either it has committed: its process is the core, the state is running, the mark for the next start
-- is cleared; or it is undone: there is no core, no rules are on record, and none are installed but
-- those that a removal has failed to remove, the residue. In both cases nothing is retained, and there
-- is no residue where there was none before and the host lets rules go.
pub start-IsWhole :
    (env : Environment) (r : Request) (id : ℕ) (replies : List Reply) (s : System)
    → Inv s
    → is_idle s.pc ≡ true
    → r.new_process ≡ some id
    → 16 ≤ length replies
    → let t = run env replies (begin_start env r s) in
      (is_idle t.pc ≡ true)
      × (implies (is_clean s.manager) (not t.manager.residue) ≡ true)
      × ((Committed id t.manager) ⊎ (Undone t.manager))
start-IsWhole env r id replies s inv still here enough =
    let t = run env replies (begin_start env r s) in
    let most = at_most_16 (begin_start env r s).pc in
    let less = run-steps_left env replies (begin_start env r s) in
    let ended = none_left-is_idle t.pc (omega arith) in
    let same_id =
      ap (λ (j : Job). j.process.id) (run-job env replies (begin_start env r s))
      ∙ ap (λ (q : Process). q.id) (begin_start-job env r id s here) in
    (
      ended,
      run-clean env replies s r,
      subst (λ n. (Committed n t.manager) ⊎ (Undone t.manager)) same_id
          (ended-Committed t ended
            (run-Inv env replies (begin_start env r s) (begin_start-Inv env r s still inv))
            (run-whole env replies (begin_start env r s) (begin_start-whole env r s))),
    )
