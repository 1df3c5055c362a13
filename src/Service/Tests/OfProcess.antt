-- ===== src/Service/Tests/OfProcess.antt =====
-- Concrete starts of the core.
use v2ray_a.Base.{
  not, all, ◌&&◌, ◌≡◌, ◌⊎◌, refl, true, false, none, some, List, [], ◌∷◌, arith, ◌++◌,
}
use v2ray_a.Service.Process.{Setting, tproxy, Environment, Manager, exit_stopped}
use v2ray_a.Service.Process.Start.{
  Reply, succeeded, failed_partly, idle, System, Request, process_of, Event, begin, continues,
  exits, stops, is_idle, react_all, begin_start,
}
use v2ray_a.Service.Process.Safe.{Inv, implies}
use v2ray_a.Service.Process.Clean.{is_clean, lets_rules_go}
use v2ray_a.Service.Process.Runs.{Fresh, Timely, Accounted, react_all-Accounted, exits-leaves_rules}
use v2ray_a.Service.Process.Ends.{no_begin, steps_of, react_all-is_idle}
use v2ray_a.Service.Process.Whole.{run, Committed, Undone, start-IsWhole}
use v2ray_a.Service.Process.Forward.{all_succeed, Started, start-Started}

abbrev plain : Environment
plain = record { lite = false; transparent_hook = []; core_hook = [] }

abbrev by_tproxy : Setting
by_tproxy = record { closed = false; transparent_type = tproxy; rest = [] }

abbrev no_manager : Manager
no_manager = record {
  p = none;
  generation = 0;
  testing = false;
  network_paused = false;
  shutting_down = false;
  monitored = false;
  transparent_on = false;
  retaining_interception = false;
  retained_setting = none;
  rules = false;
  residue = false;
  removable = true;
  running = false;
  exit_status = exit_stopped;
  host_state = none;
}

-- The program has just started; there is no start to remember.
abbrev fresh : System
fresh = record {
  manager = no_manager;
  pc = idle;
  job = record {
    process = record { id = 0; setting = by_tproxy; api_port = 0 };
    started = 0;
    retained = false;
  };
}

abbrev first_start : Request
first_start = record {
  setting = by_tproxy;
  api_port = 10085;
  preserve = false;
  sees_flag = true;
  removes_rules = true;
  clears_state = true;
  new_process = some 7;
  saves_state = true;
}

abbrev reload_start : Request
reload_start = record first_start { preserve = true; new_process = some 8 }

abbrev five : List Event
five =
    continues succeeded
    ∷ continues succeeded
    ∷ continues succeeded
    ∷ continues succeeded
    ∷ continues succeeded
    ∷ []

abbrev six : List Event
six = continues succeeded ∷ five

abbrev sixteen : List Event
sixteen =
    continues succeeded ∷ continues succeeded ∷ continues succeeded ∷ continues succeeded ∷ six
    ++ six

abbrev writes_partly : List Reply
writes_partly =
    succeeded ∷ succeeded ∷ succeeded ∷ succeeded ∷ succeeded ∷ failed_partly ∷ all_succeed 10

fresh-Fresh : Fresh fresh
fresh-Fresh = record {
  no_start = refl;
  no_core = refl;
  no_flag = refl;
  no_rules = refl;
  no_residue = refl;
  none_retained = refl;
  not_retaining = refl;
}

fresh-Inv : Inv fresh
fresh-Inv = record {
  flagged = refl;
  owner = refl;
  kept_open = refl;
  idle_clear = refl;
  retaining = refl;
  retained = refl;
  returned = refl;
  kept = refl;
  saved = refl;
  same = refl;
  opens = refl;
}

-- A core exits in the middle of its start.
abbrev exit_in_start : List Event
exit_in_start = begin first_start ∷ six ++ (continues succeeded ∷ exits 7 ∷ six)

exit_in_start-Timely : Timely plain exit_in_start fresh
unfolding Timely react_all
exit_in_start-Timely = (
  refl,
  (
    refl,
    (
      refl,
      (
        refl,
        (refl, (refl, (refl, (refl, (refl, (refl, (refl, (refl, (refl, (refl, (refl, tt))))))))))),
      ),
    ),
  ),
)

react_all-Accounted_example :
    Accounted (react_all plain exit_in_start fresh)
    × (implies
          (fresh.manager.removable && all lets_rules_go exit_in_start)
          (not (react_all plain exit_in_start fresh).manager.residue)
        ≡ true)
react_all-Accounted_example =
    react_all-Accounted plain exit_in_start fresh fresh-Fresh exit_in_start-Timely

-- A reload that keeps the rules has committed, and has not returned.
abbrev committed_reload : System
committed_reload =
    react_all plain (begin first_start ∷ sixteen ++ (begin reload_start ∷ five)) fresh

exits-leaves_rules_example :
    let t = react_all plain (exits 8 ∷ continues succeeded ∷ stops true ∷ []) committed_reload in
    (t.manager.rules ≡ true)
    × (t.manager.transparent_on ≡ true)
    × (t.manager.p ≡ none)
    × (t.manager.retained_setting ≡ none)
    × (is_idle t.pc ≡ true)
unfolding react_all
exits-leaves_rules_example =
    exits-leaves_rules plain succeeded true (process_of reload_start 8) committed_reload refl refl
      refl refl refl refl

react_all-is_idle_example :
    is_idle
      (react_all plain
        (exits 7 ∷ sixteen ++ (stops true ∷ []))
        (begin_start plain first_start fresh)).pc
    ≡ true
unfolding no_begin steps_of
react_all-is_idle_example =
    react_all-is_idle plain (exits 7 ∷ sixteen ++ (stops true ∷ []))
      (begin_start plain first_start fresh) refl (ground arith)

start-IsWhole_example :
    let t = run plain writes_partly (begin_start plain first_start fresh) in
    (is_idle t.pc ≡ true)
    × (implies (is_clean fresh.manager) (not t.manager.residue) ≡ true)
    × ((Committed 7 t.manager) ⊎ (Undone t.manager))
unfolding all_succeed
start-IsWhole_example =
    start-IsWhole plain first_start 7 writes_partly fresh fresh-Inv refl refl (ground arith)

start-Started_example :
    let t = run plain (all_succeed 16) (begin_start plain first_start fresh) in
    (is_idle t.pc ≡ true) × Started plain first_start 7 fresh.manager t.manager
start-Started_example = start-Started plain first_start 7 fresh fresh-Inv refl refl refl refl
