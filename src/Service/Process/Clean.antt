-- ===== src/Service/Process/Clean.antt =====
-- service/kernel/v2ray/processManager.go: while the host lets rules go, no removal leaves any.
use v2ray_a.Base.{
  ℕ, ◌≡◌, Bool, true, false, not, ◌&&◌, if◌then◌else◌, arith, Bool-cases, Option-cases, inl, inr,
  all, List, [], ◌∷◌,
}
use v2ray_a.Service.Process.{
  Environment, Manager, check_and_stop, before_stop, cleanup_retained, stop, stop_core,
  handle_unexpected_stop, check_and_stop_current, owns,
}
use v2ray_a.Service.Process.Start.{
  Reply, succeeded, failed, failed_partly, failed_late, Pc, idle, deleting, deleted, pre_hook,
  pre_hooked, resolving, writing, written, post_hook, post_hooked, monitoring, monitored, core_hook,
  core_hooked, committing, failing, returning, Job, System, Request, recover, retains, replace_old,
  start_failed, process_started, begin_with, begin_start, owned, clear_state, recover_mark, undo,
  advance, write_rules, wants, resume, Event, begin, continues, stops, exits, tests, shuts_down,
  lets_go, stops_interception, pauses, resumes, marks_paused, is_idle, react, react_all,
}
use v2ray_a.Service.Process.Steps.{at_pc}

abbrev pub is_clean : Manager → Bool
is_clean m = m.removable && not m.residue

stop-clean : (save : Bool) (m : Manager) → is_clean m ≡ true → is_clean (stop save m) ≡ true
unfolding stop before_stop check_and_stop
stop-clean save m ok = ground (arith, ok)

clear_state-clean :
    (reply : Reply) (m : Manager) → is_clean m ≡ true → is_clean (clear_state reply m) ≡ true
clear_state-clean succeeded m ok = ok
clear_state-clean failed m ok = ok
clear_state-clean failed_partly m ok = ok
clear_state-clean failed_late m ok = ok

recover_mark-clean :
    (reply : Reply) (m : Manager) → is_clean m ≡ true → is_clean (recover_mark reply m) ≡ true
unfolding recover_mark
recover_mark-clean succeeded m ok = ground (arith, ok)
recover_mark-clean failed m ok = ground (arith, ok)
recover_mark-clean failed_partly m ok = ground (arith, ok)
recover_mark-clean failed_late m ok = ground (arith, ok)

cleaned_up-clean :
    (retained : Bool) (m : Manager)
    → is_clean m ≡ true
    → is_clean (if retained then cleanup_retained m else m) ≡ true
unfolding cleanup_retained check_and_stop
cleaned_up-clean retained m ok = ground (arith, ok)

undo-clean :
    (reply : Reply) (s : System) → is_clean s.manager ≡ true → is_clean (undo reply s) ≡ true
unfolding undo
undo-clean reply s ok = by_case (owned s) _
  where
    by_case :
        (own mark : Bool)
        → is_clean (
            let m' =
              if own
              then clear_state reply (stop true s.manager)
              else if mark
              then recover_mark reply s.manager
              else s.manager in
            if s.job.retained then cleanup_retained m' else m')
          ≡ true
    by_case true mark =
        cleaned_up-clean s.job.retained (clear_state reply (stop true s.manager))
          (clear_state-clean reply (stop true s.manager) (stop-clean true s.manager ok))
    by_case false true =
        cleaned_up-clean s.job.retained (recover_mark reply s.manager)
          (recover_mark-clean reply s.manager ok)
    by_case false false = cleaned_up-clean s.job.retained s.manager ok

write_rules-clean :
    (reply : Reply) (m : Manager) → is_clean m ≡ true → is_clean (write_rules reply m) ≡ true
write_rules-clean succeeded m ok = ok
write_rules-clean failed m ok = ok
write_rules-clean failed_partly m ok = ok
write_rules-clean failed_late m ok = ok

resume-clean :
    (env : Environment) (reply : Reply) (id generation : ℕ) (m : Manager)
    → is_clean m ≡ true
    → is_clean (resume env reply id generation m) ≡ true
resume-clean env reply id generation m ok =
    elim (Bool-cases (owns id generation m && wants env m)) [
      | inl on ↦ rw on (write_rules-clean reply m ok)
      | inr off ↦ rw off ok
    ]

pub advance-clean :
    (env : Environment) (reply : Reply) (s : System)
    → is_clean s.manager ≡ true
    → is_clean (advance env reply s).manager ≡ true
unfolding advance
advance-clean env reply s ok = go_on s.pc reply s.manager s.job ok
  where
    go_on :
        (pc : Pc) (reply : Reply) (m : Manager) (j : Job)
        → is_clean m ≡ true
        → is_clean (advance env reply (at_pc pc m j)).manager ≡ true
    go_on idle reply m j ok = ok
    go_on deleting reply m j ok = ground (arith, ok)
    go_on deleted reply m j ok = ground (arith, ok)
    go_on pre_hook reply m j ok = ground (arith, ok)
    go_on pre_hooked reply m j ok = ground (arith, ok)
    go_on resolving reply m j ok = ground (arith, ok)
    go_on writing reply m j ok = ground (arith, ok, write_rules-clean reply m ok)
    go_on written reply m j ok = ground (arith, ok)
    go_on post_hook reply m j ok = ground (arith, ok)
    go_on post_hooked reply m j ok = ground (arith, ok)
    go_on monitoring reply m j ok = ok
    go_on monitored reply m j ok = ground (arith, ok)
    go_on core_hook succeeded m j ok = ok
    go_on core_hook failed m j ok = ok
    go_on core_hook failed_partly m j ok = ok
    go_on core_hook failed_late m j ok = ok
    go_on core_hooked reply m j ok = ground (arith, ok)
    go_on committing succeeded m j ok = ground (arith, ok)
    go_on committing failed m j ok = ground (arith, ok)
    go_on committing failed_partly m j ok = ground (arith, ok)
    go_on committing failed_late m j ok = ground (arith, ok)
    go_on failing reply m j ok = undo-clean reply (at_pc failing m j) ok
    go_on returning reply m j ok = ok

pub replace_old-clean :
    (retained : Bool) (r : Request) (m : Manager)
    → is_clean m ≡ true
    → is_clean (replace_old retained r m) ≡ true
unfolding replace_old stop before_stop check_and_stop recover
replace_old-clean retained r m ok = ground (arith, ok)

begin_with-clean :
    (retained : Bool) (env : Environment) (r : Request) (s : System)
    → is_clean s.manager ≡ true
    → is_clean (begin_with retained env r s).manager ≡ true
unfolding begin_with start_failed process_started
begin_with-clean retained env r s ok =
    let replaced = replace_old-clean retained r s.manager ok in
    elim (Option-cases r.new_process) [
      | inr (id, here) ↦ rw here replaced
      | inl gone ↦ rw gone (cleaned_up-clean retained (replace_old retained r s.manager) replaced)
    ]

pub begin_start-clean :
    (env : Environment) (r : Request) (s : System)
    → is_clean s.manager ≡ true
    → is_clean (begin_start env r s).manager ≡ true
unfolding begin_start
begin_start-clean env r s ok = begin_with-clean (retains env r s.manager) env r s ok

-- The host does not come to hold on to the rules.
abbrev pub lets_rules_go : Event → Bool
lets_rules_go (lets_go b) = b
lets_rules_go (begin r) = true
lets_rules_go (continues reply) = true
lets_rules_go (stops save_running) = true
lets_rules_go (exits id) = true
lets_rules_go (tests b) = true
lets_rules_go shuts_down = true
lets_rules_go stops_interception = true
lets_rules_go (pauses id generation) = true
lets_rules_go (resumes id generation reply) = true
lets_rules_go (marks_paused id generation paused) = true

react-clean :
    (env : Environment) (e : Event) (s : System)
    → lets_rules_go e ≡ true
    → is_clean s.manager ≡ true
    → is_clean (react env e s).manager ≡ true
unfolding react stop_core stop before_stop check_and_stop cleanup_retained handle_unexpected_stop
    check_and_stop_current
react-clean env (lets_go b) s lets ok = ground (arith, lets, ok)
react-clean env (begin r) s lets ok = elim (Bool-cases (is_idle s.pc)) [
  | inl still ↦ rw still (begin_start-clean env r s ok)
  | inr busy ↦ rw busy ok
]
react-clean env (continues reply) s lets ok = advance-clean env reply s ok
react-clean env (stops save_running) s lets ok = ground (arith, ok)
react-clean env (exits id) s lets ok = ground (arith, ok)
react-clean env (tests b) s lets ok = ok
react-clean env shuts_down s lets ok = ok
react-clean env stops_interception s lets ok = ground (arith, ok)
react-clean env (pauses id generation) s lets ok = ground (arith, ok)
react-clean env (resumes id generation reply) s lets ok =
    resume-clean env reply id generation s.manager ok
react-clean env (marks_paused id generation paused) s lets ok = ground (arith, ok)

pub react_all-clean :
    (env : Environment) (es : List Event) (s : System)
    → all lets_rules_go es ≡ true
    → is_clean s.manager ≡ true
    → is_clean (react_all env es s).manager ≡ true
unfolding react_all
react_all-clean env [] s lets ok = ok
react_all-clean env (e ∷ es) s lets ok =
    react_all-clean env es (react env e s) (ground (arith, lets))
      (react-clean env e s (ground (arith, lets)) ok)
