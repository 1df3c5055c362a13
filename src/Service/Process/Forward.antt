-- ===== src/Service/Process/Forward.antt =====
-- service/kernel/v2ray/processManager.go: a start that meets no failure.
use v2ray_a.Base.{
  ℕ, zero, suc, ◌≡◌, refl, ◌∙◌, ap, subst, Bool, true, false, not, ◌&&◌, some, List, [], ◌∷◌,
  if◌then◌else◌, arith, length,
}
use v2ray_a.Service.Nodes.{is_some}
use v2ray_a.Service.Process.{
  Environment, is_transparent_on, Process, Manager, check_and_stop, before_stop, stop, is_process,
}
use v2ray_a.Service.Process.Start.{
  Reply, succeeded, Pc, idle, deleting, deleted, pre_hook, pre_hooked, resolving, writing, written,
  post_hook, post_hooked, monitoring, monitored, core_hook, core_hooked, committing, failing,
  returning, Job, System, Request, retains, replace_old, process_started, begin_with, begin_start,
  owned, advance, is_idle,
}
use v2ray_a.Service.Process.Safe.{Inv, implies, before_write}
use v2ray_a.Service.Process.Steps.{at_pc}
use v2ray_a.Service.Process.Clean.{is_clean, replace_old-clean}
use v2ray_a.Service.Process.Begin.{Stopped, replace_old-Stopped, retains-MayRetain}
use v2ray_a.Service.Process.Ends.{at_most_16, none_left-is_idle}
use v2ray_a.Service.Process.Whole.{
  is_ended, is_committed, run, run-steps_left, run-job, begin_start-job,
}

abbrev is_failing : Pc → Bool
is_failing failing = true
is_failing _ = false

abbrev same : Bool → Bool → Bool
same a b = if a then b else not b

-- The start owns the core, does not fail, and from the write of the rules on they are as they are to be.
abbrev on_course : Bool → System → Bool
on_course on s =
    owned s
    && not (is_failing s.pc)
    && implies (is_ended s.pc) (is_committed s.manager)
    && (if before_write s.pc then on else same s.manager.rules on)

advance-on_course :
    (env : Environment) (on : Bool) (s : System)
    → on_course on s ≡ true
    → on_course on (advance env succeeded s) ≡ true
unfolding advance
advance-on_course env on s ok = go_on s.pc s.manager s.job ok
  where
    go_on :
        (pc : Pc) (m : Manager) (j : Job)
        → on_course on (at_pc pc m j) ≡ true
        → on_course on (advance env succeeded (at_pc pc m j)) ≡ true
    go_on idle m j ok = ground (arith, ok)
    go_on deleting m j ok = ground (arith, ok)
    go_on deleted m j ok = ground (arith, ok)
    go_on pre_hook m j ok = ground (arith, ok)
    go_on pre_hooked m j ok = ground (arith, ok)
    go_on resolving m j ok = ground (arith, ok)
    go_on writing m j ok = ground (arith, ok)
    go_on written m j ok = ground (arith, ok)
    go_on post_hook m j ok = ground (arith, ok)
    go_on post_hooked m j ok = ground (arith, ok)
    go_on monitoring m j ok = ground (arith, ok)
    go_on monitored m j ok = ground (arith, ok)
    go_on core_hook m j ok = ground (arith, ok)
    go_on core_hooked m j ok = ground (arith, ok)
    go_on committing m j ok = ground (arith, ok)
    go_on failing m j ok = ground (arith, ok)
    go_on returning m j ok = ground (arith, ok)

-- All that a start asks of the host succeeds.
unfoldable pub all_succeed : ℕ → List Reply
all_succeed zero = []
all_succeed (suc n) = succeeded ∷ all_succeed n

run-on_course :
    (env : Environment) (on : Bool) (n : ℕ) (s : System)
    → on_course on s ≡ true
    → on_course on (run env (all_succeed n) s) ≡ true
unfolding run all_succeed
run-on_course env on zero s ok = ok
run-on_course env on (suc n) s ok =
    run-on_course env on n (advance env succeeded s) (advance-on_course env on s ok)

length-all_succeed : (n : ℕ) → length (all_succeed n) ≡ n
unfolding all_succeed
length-all_succeed zero = refl
length-all_succeed (suc n) = ap suc (length-all_succeed n)

-- The rules that a start is to leave: those that it retains, or what its setting asks for.
abbrev pub due : Environment → Bool → Request → Manager → Bool
due env retained r m = if retained then m.rules else is_transparent_on env r.setting

started-on_course :
    (env : Environment) (retained : Bool) (r : Request) (id : ℕ) (before m : Manager)
    → r.saves_state ≡ true
    → implies retained (same m.rules before.rules) ≡ true
    → implies (not retained) (not m.rules) ≡ true
    → on_course (due env retained r before) (process_started env retained r id m) ≡ true
unfolding process_started
started-on_course env retained r id before m saves kept removed =
    ground (arith, saves, kept, removed)

replace_old-rules :
    (retained : Bool) (r : Request) (m : Manager)
    → implies retained (same (replace_old retained r m).rules m.rules) ≡ true
unfolding replace_old stop before_stop check_and_stop
replace_old-rules retained r m = ground arith

begin_with-on_course :
    (retained : Bool) (env : Environment) (r : Request) (id : ℕ) (s : System)
    → r.new_process ≡ some id
    → r.saves_state ≡ true
    → Stopped retained r.setting (replace_old retained r s.manager)
    → is_clean (replace_old retained r s.manager) ≡ true
    → on_course (due env retained r s.manager) (begin_with retained env r s) ≡ true
unfolding begin_with
begin_with-on_course retained env r id s here saves stopped clean = rw here (
    started-on_course env retained r id s.manager (replace_old retained r s.manager) saves
      (replace_old-rules retained r s.manager) (ground arith))

-- How a start that meets no failure leaves the system.
pub record Started (env : Environment) (r : Request) (id : ℕ) (before after : Manager)
    : Type 0 where
  pub new_core : is_process after.p id ≡ true
  pub is_running : after.running ≡ true
  pub no_mark : is_some after.host_state ≡ false
  pub as_due : same after.rules (due env (retains env r before) r before) ≡ true

on_course-Started :
    (env : Environment) (r : Request) (before : Manager) (s : System)
    → is_idle s.pc ≡ true
    → on_course (due env (retains env r before) r before) s ≡ true
    → Started env r s.job.process.id before s.manager
on_course-Started env r before s still ok = record {
  new_core = ground arith;
  is_running = ground arith;
  no_mark = ground arith;
  as_due = ground arith;
}

-- From a state with no start under way in which the invariant holds, a start whose process and mark
-- could be written, with nothing in between, every answer a success, a host that lets rules go and no
-- rules that a removal has failed to remove before, ends after sixteen steps, with
-- its process the core, the state running and the mark cleared. The rules are then those from before
-- where the start retains them, and otherwise installed exactly if the setting asks for them.
pub start-Started :
    (env : Environment) (r : Request) (id : ℕ) (s : System)
    → Inv s
    → is_idle s.pc ≡ true
    → r.new_process ≡ some id
    → r.saves_state ≡ true
    → is_clean s.manager ≡ true
    → let t = run env (all_succeed 16) (begin_start env r s) in
      (is_idle t.pc ≡ true) × Started env r id s.manager t.manager
unfolding begin_start
start-Started env r id s inv still here saves clean =
    let b = begin_with (retains env r s.manager) env r s in
    let t = run env (all_succeed 16) b in
    let most = at_most_16 b.pc in
    let less = run-steps_left env (all_succeed 16) b in
    let count = length-all_succeed 16 in
    let ended = none_left-is_idle t.pc (omega arith) in
    let same_id =
      ap (λ (j : Job). j.process.id) (run-job env (all_succeed 16) b)
      ∙ ap (λ (q : Process). q.id) (begin_start-job env r id s here) in
    (
      ended,
      subst (λ n. Started env r n s.manager t.manager) same_id
          (on_course-Started env r s.manager t ended (
            run-on_course env (due env (retains env r s.manager) r s.manager) 16 b (
              begin_with-on_course (retains env r s.manager) env r id s here saves
                (replace_old-Stopped (retains env r s.manager) r s still
                  (retains-MayRetain env r s.manager) inv)
                (replace_old-clean (retains env r s.manager) r s.manager clean)))),
    )
