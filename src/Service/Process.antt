-- ===== src/Service/Process.antt =====
-- service/kernel/v2ray/processManager.go: the state of CoreProcessManager, and what is done to it
-- under its mutex. Of the host, the model keeps whether rules of the transparent proxy are installed,
-- and what the database keeps of the core. Hooks, logs and messages to the user interface are left
-- out, except where a hook can fail a start. A process is told from others by its identity, as the
-- code does by its pointer; of its template the setting and the port of the API are kept.
pub mod Start
pub mod Safe
pub mod Steps
pub mod Begin
pub mod Clean
pub mod Runs
pub mod Ends
pub mod Whole
pub mod Forward
use v2ray_a.Base.{
  ℕ, suc, Bool, true, false, not, ◌&&◌, ◌||◌, Option, none, some, Text, text_beq, is_empty, eqb,
  if◌then◌else◌, codes,
}

pub data TransparentType : Type 0 where
  tproxy : TransparentType
  redirect : TransparentType
  system_proxy : TransparentType
  tun : TransparentType

abbrev pub type_eq : TransparentType → TransparentType → Bool
type_eq tproxy tproxy = true
type_eq redirect redirect = true
type_eq system_proxy system_proxy = true
type_eq tun tun = true
type_eq _ _ = false

-- The setting: the fields that the manager reads, and the others as one text.
pub record Setting : Type 0 where
  pub closed : Bool
  pub transparent_type : TransparentType
  pub rest : Text

-- reflect.DeepEqual
abbrev pub setting_beq : Setting → Setting → Bool
setting_beq a b =
    (if a.closed then b.closed else not b.closed)
    && type_eq a.transparent_type b.transparent_type
    && text_beq a.rest b.rest

pub record Environment : Type 0 where
  pub lite : Bool
  pub transparent_hook : Text
  pub core_hook : Text

abbrev pub intercepts : TransparentType → Bool
intercepts tproxy = true
intercepts redirect = true
intercepts system_proxy = false
intercepts tun = false

-- IsTransparentOn, of a setting that is not nil.
abbrev pub is_transparent_on : Environment → Setting → Bool
is_transparent_on env s = not s.closed && not (env.lite && intercepts s.transparent_type)

unfoldable pub can_retain_interception : Environment → Option Setting → Setting → Bool
can_retain_interception env none after = false
can_retain_interception env (some before) after =
    setting_beq before after
    && is_transparent_on env after
    && is_empty env.transparent_hook
    && is_empty env.core_hook
    && intercepts after.transparent_type

pub record Process : Type 0 where
  pub id : ℕ
  pub setting : Setting
  pub api_port : ℕ

pub data ExitStatus : Type 0 where
  exit_running : ExitStatus
  exit_stopped : ExitStatus
  exit_crashed : ExitStatus

-- CoreProcessManager; the last six fields are the host and the database: whether rules
-- are installed, whether they are what a failed removal left, and whether the host lets rules go.
pub record Manager : Type 0 where
  pub p : Option Process
  pub generation : ℕ
  pub testing : Bool
  pub network_paused : Bool
  pub shutting_down : Bool
  pub monitored : Bool
  pub transparent_on : Bool
  pub retaining_interception : Bool
  pub retained_setting : Option Setting
  pub rules : Bool
  pub residue : Bool
  pub removable : Bool
  pub running : Bool
  pub exit_status : ExitStatus
  pub host_state : Option (TransparentType × ℕ)

-- deleteTransparentProxyRules, which ignores its failures: where the host does not let rules go, they
-- stay, as a residue.
abbrev pub delete_rules : Manager → Manager
delete_rules m = let left = m.rules && not m.removable in record m { rules = left; residue = left }

-- checkAndStopTransparentProxy
unfoldable pub check_and_stop : Option Setting → Manager → Manager
check_and_stop setting m = if not m.transparent_on then m else elim setting [
  | none ↦ m
  | some s ↦
      if s.closed
      then record m { transparent_on = false }
      else delete_rules (record m { transparent_on = false })
]

unfoldable pub before_stop : Process → Manager → Manager
unfolding check_and_stop
before_stop p m = if m.retaining_interception then m else check_and_stop (some p.setting) m

-- cleanupRetainedInterceptionLocked
unfoldable pub cleanup_retained : Manager → Manager
unfolding check_and_stop
cleanup_retained m = elim m.retained_setting [
  | none ↦ m
  | some s ↦ record (check_and_stop (some s) m) { retained_setting = none }
]

-- stop
unfoldable pub stop : Bool → Manager → Manager
unfolding before_stop
stop save_running m = elim m.p [
  | none ↦ m
  | some p ↦
      (let m' = before_stop p m in
        record m' {
          p = none;
          monitored = false;
          network_paused = false;
          running = if save_running then false else m'.running;
        })
]

-- Stop
unfoldable pub stop_core : Bool → Manager → Manager
unfolding stop cleanup_retained
stop_core save_running m =
    let m' = record m { retaining_interception = false } in
    elim m.p [
      | none ↦ cleanup_retained m'
      | some p ↦ record (stop save_running m') {
        retained_setting = none;
        exit_status = if save_running then exit_stopped else exit_running;
      }
    ]

abbrev pub is_process : Option Process → ℕ → Bool
is_process none id = false
is_process (some p) id = eqb p.id id

unfoldable pub handle_unexpected_stop : ℕ → Manager → Manager
unfolding stop
handle_unexpected_stop id m =
    if not (is_process m.p id)
    then m
    else if m.shutting_down
    then stop false m
    else record (stop true m) { exit_status = exit_crashed }

-- CheckAndStopTransparentProxy, of nil, as the code calls it.
unfoldable pub check_and_stop_current : Manager → Manager
unfolding check_and_stop
check_and_stop_current m = check_and_stop (elim m.p [ none ↦ none | some p ↦ some p.setting ]) m

-- ownsProcessLocked
abbrev pub owns : ℕ → ℕ → Manager → Bool
owns id generation m = is_process m.p id && eqb m.generation generation
