-- ===== src/Service/Process/Ends.antt =====
-- service/kernel/v2ray/processManager.go: every start ends.
use v2ray_a.Base.{ℕ, ◌+◌, ◌-◌, ◌≤◌, ◌≡◌, refl, Bool, true, false, not, ◌&&◌, List, [], ◌∷◌, arith}
use v2ray_a.Service.Process.{Environment, Manager}
use v2ray_a.Service.Process.Start.{
  Reply, succeeded, failed, failed_partly, failed_late, Pc, idle, deleting, deleted, pre_hook,
  pre_hooked, resolving, writing, written, post_hook, post_hooked, monitoring, monitored, core_hook,
  core_hooked, committing, failing, returning, Job, System, advance, Event, begin, continues, stops,
  exits, tests, shuts_down, lets_go, stops_interception, pauses, resumes, marks_paused, is_idle,
  react, react_all,
}

-- The most steps that a start can still take.
abbrev pub steps_left : Pc → ℕ
steps_left idle = 0
steps_left returning = 1
steps_left failing = 2
steps_left committing = 3
steps_left core_hooked = 4
steps_left core_hook = 5
steps_left monitored = 6
steps_left monitoring = 7
steps_left post_hooked = 8
steps_left post_hook = 9
steps_left written = 10
steps_left writing = 11
steps_left resolving = 12
steps_left pre_hooked = 13
steps_left pre_hook = 14
steps_left deleted = 15
steps_left deleting = 16

abbrev pub is_begin : Event → Bool
is_begin (begin r) = true
is_begin (continues reply) = false
is_begin (stops save_running) = false
is_begin (exits id) = false
is_begin (tests b) = false
is_begin shuts_down = false
is_begin (lets_go b) = false
is_begin stops_interception = false
is_begin (pauses id generation) = false
is_begin (resumes id generation reply) = false
is_begin (marks_paused id generation paused) = false

abbrev pub step_of : Event → ℕ
step_of (begin r) = 0
step_of (continues reply) = 1
step_of (stops save_running) = 0
step_of (exits id) = 0
step_of (tests b) = 0
step_of shuts_down = 0
step_of (lets_go b) = 0
step_of stops_interception = 0
step_of (pauses id generation) = 0
step_of (resumes id generation reply) = 0
step_of (marks_paused id generation paused) = 0

-- The steps of the start in a list of events, and whether another start is among them.
unfoldable pub steps_of : List Event → ℕ
steps_of [] = 0
steps_of (e ∷ es) = step_of e + steps_of es

unfoldable pub no_begin : List Event → Bool
no_begin [] = true
no_begin (e ∷ es) = not (is_begin e) && no_begin es

-- Each step lowers what is left, whatever the hooks and the host answer.
pub advance-steps_left :
    (env : Environment) (reply : Reply) (s : System)
    → steps_left (advance env reply s).pc ≤ steps_left s.pc - 1
unfolding advance
advance-steps_left env reply s = lower s.pc reply s.manager s.job
  where
    lower :
        (pc : Pc) (reply : Reply) (m : Manager) (j : Job)
        → steps_left (advance env reply (record { manager = m; pc = pc; job = j })).pc
          ≤ steps_left pc - 1
    lower idle reply m j = ground arith
    lower deleting reply m j = ground arith
    lower deleted reply m j = ground arith
    lower pre_hook reply m j = ground arith
    lower pre_hooked reply m j = ground arith
    lower resolving reply m j = ground arith
    lower writing reply m j = ground arith
    lower written reply m j = ground arith
    lower post_hook reply m j = ground arith
    lower post_hooked reply m j = ground arith
    lower monitoring reply m j = ground arith
    lower monitored reply m j = ground arith
    lower core_hook succeeded m j = ground arith
    lower core_hook failed m j = ground arith
    lower core_hook failed_partly m j = ground arith
    lower core_hook failed_late m j = ground arith
    lower core_hooked reply m j = ground arith
    lower committing succeeded m j = ground arith
    lower committing failed m j = ground arith
    lower committing failed_partly m j = ground arith
    lower committing failed_late m j = ground arith
    lower failing reply m j = ground arith
    lower returning reply m j = ground arith

-- Nothing else moves the start on or back.
react-steps_left :
    (env : Environment) (e : Event) (s : System)
    → is_begin e ≡ false
    → steps_left (react env e s).pc ≤ steps_left s.pc - step_of e
unfolding react
react-steps_left env (begin r) s quiet = ground (arith, quiet)
react-steps_left env (continues reply) s quiet = advance-steps_left env reply s
react-steps_left env (stops save_running) s quiet = ground arith
react-steps_left env (exits id) s quiet = ground arith
react-steps_left env (tests b) s quiet = ground arith
react-steps_left env shuts_down s quiet = ground arith
react-steps_left env (lets_go b) s quiet = ground arith
react-steps_left env stops_interception s quiet = ground arith
react-steps_left env (pauses id generation) s quiet = ground arith
react-steps_left env (resumes id generation reply) s quiet = ground arith
react-steps_left env (marks_paused id generation paused) s quiet = ground arith

react_all-steps_left :
    (env : Environment) (es : List Event) (s : System)
    → no_begin es ≡ true
    → steps_left (react_all env es s).pc ≤ steps_left s.pc - steps_of es
unfolding react_all no_begin steps_of
react_all-steps_left env [] s quiet = ground arith
react_all-steps_left env (e ∷ es) s quiet =
    let rest = react_all-steps_left env es (react env e s) (ground (arith, quiet)) in
    let now = react-steps_left env e s (ground (arith, quiet)) in omega arith

pub none_left-is_idle : (pc : Pc) → steps_left pc ≤ 0 → is_idle pc ≡ true
none_left-is_idle idle none_ = refl
none_left-is_idle deleting none_ = ground arith
none_left-is_idle deleted none_ = ground arith
none_left-is_idle pre_hook none_ = ground arith
none_left-is_idle pre_hooked none_ = ground arith
none_left-is_idle resolving none_ = ground arith
none_left-is_idle writing none_ = ground arith
none_left-is_idle written none_ = ground arith
none_left-is_idle post_hook none_ = ground arith
none_left-is_idle post_hooked none_ = ground arith
none_left-is_idle monitoring none_ = ground arith
none_left-is_idle monitored none_ = ground arith
none_left-is_idle core_hook none_ = ground arith
none_left-is_idle core_hooked none_ = ground arith
none_left-is_idle committing none_ = ground arith
none_left-is_idle failing none_ = ground arith
none_left-is_idle returning none_ = ground arith

pub at_most_16 : (pc : Pc) → steps_left pc ≤ 16
at_most_16 idle = ground arith
at_most_16 deleting = ground arith
at_most_16 deleted = ground arith
at_most_16 pre_hook = ground arith
at_most_16 pre_hooked = ground arith
at_most_16 resolving = ground arith
at_most_16 writing = ground arith
at_most_16 written = ground arith
at_most_16 post_hook = ground arith
at_most_16 post_hooked = ground arith
at_most_16 monitoring = ground arith
at_most_16 monitored = ground arith
at_most_16 core_hook = ground arith
at_most_16 core_hooked = ground arith
at_most_16 committing = ground arith
at_most_16 failing = ground arith
at_most_16 returning = ground arith

-- From any state, once sixteen steps of the start that is under way have run, the start has ended,
-- whatever each step is answered and whatever stops, exits and acts of monitors come in between,
-- where no other start begins among them.
pub react_all-is_idle :
    (env : Environment) (es : List Event) (s : System)
    → no_begin es ≡ true
    → 16 ≤ steps_of es
    → is_idle (react_all env es s).pc ≡ true
react_all-is_idle env es s quiet enough =
    let most = at_most_16 s.pc in
    let less = react_all-steps_left env es s quiet in
    none_left-is_idle (react_all env es s).pc (omega arith)
