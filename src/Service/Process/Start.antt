-- ===== src/Service/Process/Start.antt =====
-- service/kernel/v2ray/processManager.go: a start of the core, in steps, and what may come between
-- them. One step is what runs under one hold of the mutex; a change of the host is one step with the
-- test of the owner before it, as hostMu is taken before the mutex is given back. Since startMu is
-- held for all of a start, there is one start at a time.
use v2ray_a.Base.{
  ℕ, suc, Bool, true, false, not, ◌&&◌, Option, none, some, List, [], ◌∷◌, eqb, if◌then◌else◌,
}
use v2ray_a.Service.Process.{
  system_proxy, type_eq, Setting, Environment, is_transparent_on, can_retain_interception, Process,
  Manager, exit_running, cleanup_retained, stop, stop_core, handle_unexpected_stop,
  check_and_stop_current, owns, delete_rules,
}

-- How an external call ends. A partial failure has changed something; a late one is that of the last
-- of three writes.
pub data Reply : Type 0 where
  succeeded : Reply
  failed : Reply
  failed_partly : Reply
  failed_late : Reply

-- Where a start is: no start, the steps of setupTransparentProxy, those of afterStart, the commit,
-- the deferred call on an error, and the deferred reset.
pub data Pc : Type 0 where
  idle : Pc
  deleting : Pc
  deleted : Pc
  pre_hook : Pc
  pre_hooked : Pc
  resolving : Pc
  writing : Pc
  written : Pc
  post_hook : Pc
  post_hooked : Pc
  monitoring : Pc
  monitored : Pc
  core_hook : Pc
  core_hooked : Pc
  committing : Pc
  failing : Pc
  returning : Pc

-- What a start remembers: its process, its generation, and whether interception is retained.
pub record Job : Type 0 where
  pub process : Process
  pub started : ℕ
  pub retained : Bool

pub record System : Type 0 where
  pub manager : Manager
  pub pc : Pc
  pub job : Job

-- The arguments of a start, and what it meets: whether the read of transparentOn sees a write that is
-- under way, how a pending host state is recovered, the new process, and whether the state is saved.
pub record Request : Type 0 where
  pub setting : Setting
  pub api_port : ℕ
  pub preserve : Bool
  pub sees_flag : Bool
  pub removes_rules : Bool
  pub clears_state : Bool
  pub new_process : Option ℕ
  pub saves_state : Bool

unfoldable pub recover : Request → Manager → Manager
recover r m = elim m.host_state [
  | none ↦ m
  | some state ↦ record m {
    rules = if r.removes_rules then false else m.rules;
    host_state = if r.clears_state then none else some state;
  }
]

-- `previous`
abbrev pub previous_setting : Manager → Option Setting
previous_setting m = elim m.p [ none ↦ m.retained_setting | some p ↦ some p.setting ]

unfoldable pub retains : Environment → Request → Manager → Bool
unfolding can_retain_interception
retains env r m =
    r.preserve
    && not m.network_paused
    && (m.transparent_on && r.sees_flag)
    && can_retain_interception env (previous_setting m) r.setting

-- Phase 2 up to the new process: the old one is stopped.
unfoldable pub replace_old : Bool → Request → Manager → Manager
unfolding stop recover
replace_old retained r m =
    let m' = stop true (record m {
      retained_setting = if retained then previous_setting m else m.retained_setting;
      retaining_interception = retained;
    }) in
    let m'' = if retained then m' else recover r m' in
    record m'' { generation = suc m''.generation }

abbrev pub process_of : Request → ℕ → Process
process_of r id = record { id = id; setting = r.setting; api_port = r.api_port }

abbrev pub first_pc : Environment → Bool → Setting → Pc
first_pc env retained s = if not retained && is_transparent_on env s then deleting else monitoring

-- Where there is no new process, and where there is one.
unfoldable pub start_failed : Bool → Manager → System → System
unfolding cleanup_retained
start_failed retained m s = record s {
  manager = if retained then cleanup_retained m else m;
  pc = returning;
  job = record s.job { retained = retained };
}

unfoldable pub process_started : Environment → Bool → Request → ℕ → Manager → System
process_started env retained r id m = record {
  manager = record m {
    p = some (process_of r id);
    host_state =
        if r.saves_state then some (r.setting.transparent_type, r.api_port) else m.host_state;
  };
  pc = if r.saves_state then first_pc env retained r.setting else failing;
  job = record { process = process_of r id; started = m.generation; retained = retained };
}

unfoldable pub begin_with : Bool → Environment → Request → System → System
unfolding replace_old start_failed process_started
begin_with retained env r s =
    let m = replace_old retained r s.manager in
    elim r.new_process [
      | none ↦ start_failed retained m s
      | some id ↦ process_started env retained r id m
    ]

-- Phase 2 of start.
unfoldable pub begin_start : Environment → Request → System → System
unfolding begin_with retains
begin_start env r s = begin_with (retains env r s.manager) env r s

abbrev pub owned : System → Bool
owned s = owns s.job.process.id s.job.started s.manager

abbrev pub go : Pc → System → System
go pc s = record s { pc = pc }

-- checkProcessOwner
abbrev pub check_owner : Pc → System → System
check_owner next s = if owned s then go next s else go failing s

abbrev pub is_success : Reply → Bool
is_success succeeded = true
is_success failed = false
is_success failed_partly = false
is_success failed_late = false

-- mutateHost; its second test of the owner is the next step.
abbrev pub mutate_host : Pc → Reply → (Manager → Manager) → System → System
mutate_host next reply change s =
    if owned s
    then record s { manager = change s.manager; pc = if is_success reply then next else failing }
    else go failing s

-- The flag is set before the rules are written; a write that fails may have installed some.
abbrev pub write_rules : Reply → Manager → Manager
write_rules succeeded m = record m { transparent_on = true; rules = true }
write_rules failed m = record m { transparent_on = true }
write_rules failed_partly m = record m { transparent_on = true; rules = true }
write_rules failed_late m = record m { transparent_on = true; rules = true }

abbrev pub unchanged : Manager → Manager
unchanged m = m

-- startConnectivityMonitor
abbrev pub starts_monitor : Environment → System → Bool
starts_monitor env s =
    let setting = s.job.process.setting in
    is_transparent_on env setting
    && not (type_eq setting.transparent_type system_proxy)
    && not s.manager.testing
    && owned s

abbrev pub start_monitor : Environment → System → Manager
start_monitor env s = record s.manager {
  monitored = if starts_monitor env s then true else s.manager.monitored;
}

abbrev pub run_hook : Pc → Reply → System → System
run_hook next succeeded s = go next s
run_hook next failed s = go failing s
run_hook next failed_partly s = go failing s
run_hook next failed_late s = go failing s

-- The commit: three writes to the database.
abbrev pub write_commit : Reply → System → System
write_commit succeeded s = record s {
  manager = record s.manager {
    running = true;
    exit_status = exit_running;
    host_state = none;
    retained_setting = none;
  };
  pc = returning;
}
write_commit failed s = go failing s
write_commit failed_partly s = record s {
  manager = record s.manager { running = true };
  pc = failing;
}
write_commit failed_late s = record s {
  manager = record s.manager { running = true; exit_status = exit_running };
  pc = failing;
}

abbrev pub clear_state : Reply → Manager → Manager
clear_state succeeded m = record m { host_state = none }
clear_state failed m = m
clear_state failed_partly m = m
clear_state failed_late m = m

-- RecoverHostState of a mark, then its removal. A recovery that fails may have removed rules.
unfoldable pub recover_mark : Reply → Manager → Manager
recover_mark reply m = elim m.host_state [
  | none ↦ m
  | some state ↦ elim reply [
    | succeeded ↦ clear_state succeeded (delete_rules m)
    | failed ↦ m
    | failed_partly ↦ delete_rules m
    | failed_late ↦ delete_rules m
  ]
]

-- The deferred call, where start gives an error.
unfoldable pub undo : Reply → System → Manager
unfolding stop cleanup_retained recover_mark
undo reply s =
    let m =
      if owned s
      then clear_state reply (stop true s.manager)
      else if eqb s.manager.generation s.job.started
          && not (elim s.manager.p [ none ↦ false | some p ↦ true ])
          && not s.job.retained
      then recover_mark reply s.manager
      else s.manager in
    if s.job.retained then cleanup_retained m else m

-- One step of a start.
unfoldable pub advance : Environment → Reply → System → System
unfolding undo
advance env reply s = elim s.pc [
  | idle ↦ s
  | deleting ↦ mutate_host deleted succeeded delete_rules s
  | deleted ↦ check_owner pre_hook s
  | pre_hook ↦ mutate_host pre_hooked reply unchanged s
  | pre_hooked ↦ check_owner resolving s
  | resolving ↦ check_owner writing s
  | writing ↦ mutate_host written reply (write_rules reply) s
  | written ↦ check_owner post_hook s
  | post_hook ↦ mutate_host post_hooked reply unchanged s
  | post_hooked ↦ check_owner monitoring s
  | monitoring ↦ record s { manager = start_monitor env s; pc = monitored }
  | monitored ↦ check_owner core_hook s
  | core_hook ↦ run_hook core_hooked reply s
  | core_hooked ↦ check_owner committing s
  | committing ↦ if owned s then write_commit reply s else go failing s
  | failing ↦ record s { manager = undo reply s; pc = returning }
  | returning ↦ record s {
    manager = record s.manager { retaining_interception = false };
    pc = idle;
  }
]

-- What happens: a start begins or goes on, the core is stopped or exits, the flags change, or the
-- monitor of a process, told by its identity and generation, changes the host.
pub data Event : Type 0 where
  begin : Request → Event
  continues : Reply → Event
  stops : Bool → Event
  exits : ℕ → Event
  tests : Bool → Event
  shuts_down : Event
  lets_go : Bool → Event
  stops_interception : Event
  pauses : ℕ → ℕ → Event
  resumes : ℕ → ℕ → Reply → Event
  marks_paused : ℕ → ℕ → Bool → Event

abbrev pub is_idle : Pc → Bool
is_idle idle = true
is_idle _ = false

-- syncConnectivityState, in the parts that change something; each tests the owner.
abbrev pub pause : ℕ → ℕ → Manager → Manager
pause id generation m = if owns id generation m then delete_rules m else m

abbrev pub wants : Environment → Manager → Bool
wants env m = elim m.p [ none ↦ false | some p ↦ is_transparent_on env p.setting ]

abbrev pub resume : Environment → Reply → ℕ → ℕ → Manager → Manager
resume env reply id generation m =
    if owns id generation m && wants env m then write_rules reply m else m

abbrev pub mark_paused : ℕ → ℕ → Bool → Manager → Manager
mark_paused id generation paused m =
    if owns id generation m && not m.testing then record m { network_paused = paused } else m

abbrev pub on_manager : (Manager → Manager) → System → System
on_manager f s = record s { manager = f s.manager }

unfoldable pub react : Environment → Event → System → System
unfolding begin_start advance stop_core handle_unexpected_stop check_and_stop_current
react env (begin r) s = if is_idle s.pc then begin_start env r s else s
react env (continues reply) s = advance env reply s
react env (stops save_running) s = on_manager (stop_core save_running) s
react env (exits id) s = on_manager (handle_unexpected_stop id) s
react env (tests b) s = on_manager (λ m. record m { testing = b }) s
react env shuts_down s = on_manager (λ m. record m { shutting_down = true }) s
react env (lets_go b) s = on_manager (λ m. record m { removable = b }) s
react env stops_interception s = on_manager check_and_stop_current s
react env (pauses id generation) s = on_manager (pause id generation) s
react env (resumes id generation reply) s = on_manager (resume env reply id generation) s
react env (marks_paused id generation paused) s = on_manager (mark_paused id generation paused) s

unfoldable pub react_all : Environment → List Event → System → System
unfolding react
react_all env [] s = s
react_all env (e ∷ es) s = react_all env es (react env e s)
