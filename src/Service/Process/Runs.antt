-- ===== src/Service/Process/Runs.antt =====
-- service/kernel/v2ray/processManager.go: the rules of the transparent proxy and the core, over any
-- order of what happens.
use v2ray_a.Base.{
  ◌≡◌, ◌&&◌, Bool, true, false, not, ◌||◌, none, some, List, [], ◌∷◌, arith, all, refl, Bool-cases,
  inl, inr,
}
use v2ray_a.Service.Nodes.{is_some}
use v2ray_a.Service.Process.{
  Environment, Process, check_and_stop, before_stop, cleanup_retained, stop, stop_core,
  handle_unexpected_stop,
}
use v2ray_a.Service.Process.Start.{
  Reply, returning, System, begin_start, advance, Event, begin, continues, stops, exits, tests,
  shuts_down, lets_go, stops_interception, pauses, resumes, marks_paused, is_idle, react, react_all,
}
use v2ray_a.Service.Process.Safe.{
  Inv, implies, uncommitted, in_window, wanted, stops-Inv, exits-Inv, current-Inv, pauses-Inv,
  marks-Inv,
}
use v2ray_a.Service.Process.Steps.{resumes-Inv, advance-Inv, if-Inv}
use v2ray_a.Service.Process.Clean.{lets_rules_go, react_all-clean}
use v2ray_a.Service.Process.Begin.{begin_start-Inv}

-- The system as the program starts: no core, no start, no rules of this process.
pub record Fresh (s : System) : Type 0 where
  pub no_start : is_idle s.pc ≡ true
  pub no_core : s.manager.p ≡ none
  pub no_flag : s.manager.transparent_on ≡ false
  pub no_rules : s.manager.rules ≡ false
  pub no_residue : s.manager.residue ≡ false
  pub none_retained : s.manager.retained_setting ≡ none
  pub not_retaining : s.manager.retaining_interception ≡ false

-- No core exits between the commit of a start that retained the rules and the reset of its flag.
abbrev in_time : Event → System → Bool
in_time (exits id) s = not (in_window s)
in_time (begin r) s = true
in_time (continues reply) s = true
in_time (stops save_running) s = true
in_time (tests b) s = true
in_time shuts_down s = true
in_time (lets_go b) s = true
in_time stops_interception s = true
in_time (pauses id generation) s = true
in_time (resumes id generation reply) s = true
in_time (marks_paused id generation paused) s = true

unfoldable pub Timely : Environment → List Event → System → Type 0
Timely env [] s = Unit
Timely env (e ∷ es) s = (in_time e s ≡ true) × Timely env es (react env e s)

-- Installed rules are on record, but for those that a removal has failed to remove, the residue. But
-- for these, with no start under way they are those of a core that runs and whose setting asks for
-- them, and nothing is retained; during a start, they are those or the ones it retains. Until its
-- commit, a start leaves a mark for the next one.
pub record Accounted (s : System) : Type 0 where
  pub recorded : implies s.manager.rules (s.manager.transparent_on || s.manager.residue) ≡ true
  pub of_core :
      implies (is_idle s.pc && s.manager.rules) (wanted s.manager || s.manager.residue) ≡ true
  pub of_start :
      implies s.manager.rules
        (wanted s.manager || is_some s.manager.retained_setting || s.manager.residue)
      ≡ true
  pub let_go : implies (is_idle s.pc) (not (is_some s.manager.retained_setting)) ≡ true
  pub marked : implies (uncommitted s.pc) (is_some s.manager.host_state) ≡ true

Fresh-Inv : (s : System) → Fresh s → Inv s
Fresh-Inv s fresh = ground arith

Inv-Accounted : (s : System) → Inv s → Accounted s
Inv-Accounted s inv = record {
  recorded = inv.flagged;
  of_core = ground arith;
  of_start = ground arith;
  let_go = ground arith;
  marked = inv.saved;
}

react-Inv :
    (env : Environment) (e : Event) (s : System) → in_time e s ≡ true → Inv s → Inv (react env e s)
unfolding react
react-Inv env (begin r) s timely inv =
    if-Inv (is_idle s.pc) (begin_start env r s) s (λ still. begin_start-Inv env r s still inv)
      λ _. inv
react-Inv env (continues reply) s timely inv = advance-Inv env reply s inv
react-Inv env (stops save_running) s timely inv = stops-Inv save_running s inv
react-Inv env (exits id) s timely inv = exits-Inv id s (ground (arith, timely)) inv
react-Inv env (tests b) s timely inv = ground arith
react-Inv env shuts_down s timely inv = ground arith
react-Inv env (lets_go b) s timely inv = ground arith
react-Inv env stops_interception s timely inv = current-Inv s inv
react-Inv env (pauses id generation) s timely inv = pauses-Inv id generation s inv
react-Inv env (resumes id generation reply) s timely inv = resumes-Inv env reply id generation s inv
react-Inv env (marks_paused id generation paused) s timely inv =
    marks-Inv id generation paused s inv

react_all-Inv :
    (env : Environment) (es : List Event) (s : System)
    → Timely env es s
    → Inv s
    → Inv (react_all env es s)
unfolding react_all Timely
react_all-Inv env [] s timely inv = inv
react_all-Inv env (e ∷ es) s (now, later) inv =
    react_all-Inv env es (react env e s) later (react-Inv env e s now inv)

-- From the system as the program starts, after any order of starts with their steps, stops, exits of
-- the core, acts of monitors and changes of whether the host lets rules go, where no core exits between
-- the commit of a start that retained the rules and the reset of its flag: installed rules are on
-- record, or are what a failed removal left; with no start under way, they are those of a running core
-- whose setting asks for them, or such a residue, and nothing is retained; during a start, they are
-- those, the ones that it retains, or such a residue; and until its commit a start leaves a mark in the
-- database. There is no residue where the host lets rules go all the time.
pub react_all-Accounted :
    (env : Environment) (es : List Event) (s : System)
    → Fresh s
    → Timely env es s
    → Accounted (react_all env es s)
      × (implies
            (s.manager.removable && all lets_rules_go es)
            (not (react_all env es s).manager.residue)
          ≡ true)
react_all-Accounted env es s fresh timely = (
  Inv-Accounted (react_all env es s) (react_all-Inv env es s timely (Fresh-Inv s fresh)),
  elim (Bool-cases (s.manager.removable && all lets_rules_go es)) [
    | inl lets ↦ rw lets (
        let clean =
          react_all-clean env es s (ground (arith, lets))
            (ground (arith, lets, fresh.no_residue)) in
        ground (arith, clean))
    | inr holds ↦ rw holds refl
  ],
)

-- The state in which a start that retained the rules has committed and has not reset its flag, with
-- the rules of its core installed: where this core exits now, the rules stay installed and on record
-- after the start has ended, with no core and nothing retained that would remove them; and so they do
-- after the core is stopped by the user.
pub exits-leaves_rules :
    (env : Environment) (reply : Reply) (save : Bool) (p : Process) (s : System)
    → s.pc ≡ returning
    → s.manager.retaining_interception ≡ true
    → s.manager.retained_setting ≡ none
    → s.manager.p ≡ some p
    → s.manager.rules ≡ true
    → s.manager.transparent_on ≡ true
    → let t = (react_all env (exits p.id ∷ continues reply ∷ stops save ∷ []) s) in
      (t.manager.rules ≡ true)
      × (t.manager.transparent_on ≡ true)
      × (t.manager.p ≡ none)
      × (t.manager.retained_setting ≡ none)
      × (is_idle t.pc ≡ true)
unfolding react_all react handle_unexpected_stop stop before_stop check_and_stop advance stop_core
    cleanup_retained
exits-leaves_rules env reply save p s a b c d e f = ground arith
