-- ===== src/Service/Process/Steps.antt =====
-- service/kernel/v2ray/processManager.go: the invariant over the steps of a start.
use v2ray_a.Base.{
  ℕ, ◌≡◌, refl, Bool, true, false, ◌&&◌, ◌||◌, if◌then◌else◌, arith, Bool-cases, inl, inr,
}
use v2ray_a.Service.Process.{
  delete_rules, Environment, Manager, check_and_stop, before_stop, cleanup_retained, stop, owns,
}
use v2ray_a.Service.Process.Start.{
  Reply, succeeded, failed, failed_partly, failed_late, Pc, idle, deleting, deleted, pre_hook,
  pre_hooked, resolving, writing, written, post_hook, post_hooked, monitoring, monitored, core_hook,
  core_hooked, committing, failing, returning, Job, System, owned, go, check_owner, is_success,
  mutate_host, clear_state, recover_mark, write_rules, unchanged, run_hook, write_commit, undo,
  advance, is_idle, wants, resume, on_manager,
}
use v2ray_a.Service.Process.Safe.{
  Inv, implies, is_returning, before_write, uncommitted, wanted, write_rules-Inv,
}

pub if-Inv :
    (test : Bool) (s t : System)
    → (test ≡ true → Inv s)
    → (test ≡ false → Inv t)
    → Inv (if test then s else t)
if-Inv true s t then_ else_ = then_ refl
if-Inv false s t then_ else_ = else_ refl

-- A start moves on, with nothing else changed.
go-Inv :
    (pc : Pc) (s : System)
    → is_idle s.pc || is_returning s.pc || is_idle pc || is_returning pc ≡ false
    → implies (uncommitted pc) (uncommitted s.pc) ≡ true
    → implies (before_write pc) (before_write s.pc) ≡ true
    → Inv s
    → Inv (go pc s)
go-Inv pc s busy before after inv = ground arith

pub resumes-Inv :
    (env : Environment) (reply : Reply) (id generation : ℕ) (s : System)
    → Inv s
    → Inv (on_manager (resume env reply id generation) s)
resumes-Inv env reply id generation s inv =
    elim (Bool-cases (owns id generation s.manager && wants env s.manager)) [
      | inl on ↦ rw on (write_rules-Inv reply s (ground (arith, on)) inv)
      | inr off ↦ rw off inv
    ]

abbrev pub at_pc : Pc → Manager → Job → System
at_pc pc m j = record { manager = m; pc = pc; job = j }

check_owner-Inv :
    (next : Pc) (s : System)
    → is_idle s.pc || is_returning s.pc || is_idle next || is_returning next ≡ false
    → implies (uncommitted next) (uncommitted s.pc) ≡ true
    → implies (before_write next) (before_write s.pc) ≡ true
    → Inv s
    → Inv (check_owner next s)
check_owner-Inv next s busy before after inv =
    if-Inv (owned s) (go next s) (go failing s) (λ _. go-Inv next s busy before after inv)
      λ _. go-Inv failing s (ground arith) refl refl inv

-- A change of the host that keeps the invariant where the start owns the core.
mutate_host-Inv :
    (next : Pc) (reply : Reply) (change : Manager → Manager) (s : System)
    → is_idle s.pc || is_returning s.pc || is_idle next || is_returning next ≡ false
    → implies (uncommitted next) (uncommitted s.pc) ≡ true
    → implies (before_write next) (before_write s.pc) ≡ true
    → (owned s ≡ true → Inv (on_manager change s))
    → Inv s
    → Inv (mutate_host next reply change s)
mutate_host-Inv next reply change s busy before after changes inv =
    if-Inv (owned s) _ (go failing s)
      (λ own. elim (Bool-cases (is_success reply)) [
        | inl ok ↦ rw ok (go-Inv next (on_manager change s) busy before after (changes own))
        | inr bad ↦
            rw bad (go-Inv failing (on_manager change s) (ground arith) refl refl (changes own))
      ])
      λ _. go-Inv failing s (ground arith) refl refl inv

delete_rules-Inv : (s : System) → Inv s → Inv (on_manager delete_rules s)
delete_rules-Inv s inv = ground arith

owned-wanted :
    (m : Manager) (j : Job)
    → Inv (at_pc writing m j)
    → owned (at_pc writing m j) ≡ true
    → wanted m ≡ true
owned-wanted m j inv own = ground arith

stopped-Inv :
    (reply : Reply) (m : Manager) (j : Job)
    → Inv (at_pc failing m j)
    → Inv (at_pc failing (clear_state reply (stop true m)) j)
unfolding stop before_stop check_and_stop
stopped-Inv succeeded m j inv = ground arith
stopped-Inv failed m j inv = ground arith
stopped-Inv failed_partly m j inv = ground arith
stopped-Inv failed_late m j inv = ground arith

recover_mark-Inv :
    (reply : Reply) (m : Manager) (j : Job)
    → Inv (at_pc failing m j)
    → Inv (at_pc failing (recover_mark reply m) j)
unfolding recover_mark
recover_mark-Inv succeeded m j inv = ground arith
recover_mark-Inv failed m j inv = ground arith
recover_mark-Inv failed_partly m j inv = ground arith
recover_mark-Inv failed_late m j inv = ground arith

-- The end of the deferred call: what is retained is cleaned up.
cleaned-Inv :
    (m : Manager) (j : Job)
    → Inv (at_pc failing m j)
    → Inv (at_pc returning (if j.retained then cleanup_retained m else m) j)
unfolding cleanup_retained check_and_stop
cleaned-Inv m j inv = ground arith

undo-Inv :
    (reply : Reply) (m : Manager) (j : Job)
    → Inv (at_pc failing m j)
    → Inv (at_pc returning (undo reply (at_pc failing m j)) j)
unfolding undo
undo-Inv reply m j inv = by_case (owned (at_pc failing m j)) _
  where
    by_case :
        (own mark : Bool)
        → Inv (
            at_pc returning
              (let m' =
                  if own
                  then clear_state reply (stop true m)
                  else if mark
                  then recover_mark reply m
                  else m in
                if j.retained then cleanup_retained m' else m')
              j)
    by_case true mark = cleaned-Inv (clear_state reply (stop true m)) j (stopped-Inv reply m j inv)
    by_case false true = cleaned-Inv (recover_mark reply m) j (recover_mark-Inv reply m j inv)
    by_case false false = cleaned-Inv m j inv

write_commit-Inv :
    (reply : Reply) (m : Manager) (j : Job)
    → owned (at_pc committing m j) ≡ true
    → Inv (at_pc committing m j)
    → Inv (write_commit reply (at_pc committing m j))
write_commit-Inv succeeded m j own inv = ground arith
write_commit-Inv failed m j own inv = ground arith
write_commit-Inv failed_partly m j own inv = ground arith
write_commit-Inv failed_late m j own inv = ground arith

monitored-Inv :
    (b : Bool) (m : Manager) (j : Job)
    → Inv (at_pc monitoring m j)
    → Inv (at_pc Pc.monitored (record m { monitored = b }) j)
monitored-Inv b m j inv = ground arith

run_hook-Inv :
    (reply : Reply) (m : Manager) (j : Job)
    → Inv (at_pc core_hook m j)
    → Inv (run_hook core_hooked reply (at_pc core_hook m j))
run_hook-Inv succeeded m j inv = go-Inv core_hooked (at_pc core_hook m j) refl refl refl inv
run_hook-Inv failed m j inv = go-Inv failing (at_pc core_hook m j) refl refl refl inv
run_hook-Inv failed_partly m j inv = go-Inv failing (at_pc core_hook m j) refl refl refl inv
run_hook-Inv failed_late m j inv = go-Inv failing (at_pc core_hook m j) refl refl refl inv

pub advance-Inv :
    (env : Environment) (reply : Reply) (s : System) → Inv s → Inv (advance env reply s)
unfolding advance
advance-Inv env reply s inv = go_on s.pc s.manager s.job inv
  where
    go_on :
        (pc : Pc) (m : Manager) (j : Job)
        → Inv (at_pc pc m j)
        → Inv (advance env reply (at_pc pc m j))
    go_on idle m j inv = inv
    go_on deleting m j inv =
        mutate_host-Inv deleted succeeded delete_rules (at_pc deleting m j) refl refl refl
          (λ own. delete_rules-Inv (at_pc deleting m j) inv) inv
    go_on deleted m j inv = check_owner-Inv pre_hook (at_pc deleted m j) refl refl refl inv
    go_on pre_hook m j inv =
        mutate_host-Inv pre_hooked reply unchanged (at_pc pre_hook m j) refl refl refl (λ own. inv)
          inv
    go_on pre_hooked m j inv = check_owner-Inv resolving (at_pc pre_hooked m j) refl refl refl inv
    go_on resolving m j inv = check_owner-Inv writing (at_pc resolving m j) refl refl refl inv
    go_on writing m j inv =
        mutate_host-Inv written reply (write_rules reply) (at_pc writing m j) refl refl refl
          (λ own. write_rules-Inv reply (at_pc writing m j) (owned-wanted m j inv own) inv) inv
    go_on written m j inv = check_owner-Inv post_hook (at_pc written m j) refl refl refl inv
    go_on post_hook m j inv =
        mutate_host-Inv post_hooked reply unchanged (at_pc post_hook m j) refl refl refl
          (λ own. inv) inv
    go_on post_hooked m j inv =
        check_owner-Inv monitoring (at_pc post_hooked m j) refl refl refl inv
    go_on monitoring m j inv = monitored-Inv _ m j inv
    go_on monitored m j inv = check_owner-Inv core_hook (at_pc monitored m j) refl refl refl inv
    go_on core_hook m j inv = run_hook-Inv reply m j inv
    go_on core_hooked m j inv =
        check_owner-Inv committing (at_pc core_hooked m j) refl refl refl inv
    go_on committing m j inv =
        if-Inv (owned (at_pc committing m j)) _ (go failing (at_pc committing m j))
          (λ own. write_commit-Inv reply m j own inv)
          λ _. go-Inv failing (at_pc committing m j) refl refl refl inv
    go_on failing m j inv = undo-Inv reply m j inv
    go_on returning m j inv = ground arith
