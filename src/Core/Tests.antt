-- ===== src/Core/Tests.antt =====
-- The theorems about src/lib/goldstone/lib/core.py at a small server: a register, to which the
-- handler of each change adds a number and from which `revert` takes it away.
use goldstone_mgmt.Base.{
  zero, suc, ◌+◌, ◌≡◌, refl, List, [], ◌∷◌, ok, err, none, some, false, ℕ, internal_error, nat_eq,
}
use goldstone_mgmt.Base.Exec.{Exec}
use goldstone_mgmt.Core.Handlers.{sub, get_handler}
use goldstone_mgmt.Core.{
  Subclass, Change, Server, Current, failed, change, done, abort, change_cb, run_change, prepare,
  apply_all, revert_all, Event, callback, step, run, revert,
}
use goldstone_mgmt.Base.{◌-◌, inval_arg_error}
use goldstone_mgmt.Base.Text.{Text, codes}
use goldstone_mgmt.Base.Exec.{Exec}
use goldstone_mgmt.Core.{created, object, make, init_handler, validate, apply}
use goldstone_mgmt.Core.Failures.{failed_task_sticks}
use goldstone_mgmt.Core.Handlers.{XpathStep, leaf, node, Branches, stop, branch}

abbrev step_of : Text → XpathStep
step_of n = record { prefix = none; name = n; list_keys = [] }

abbrev tree : Branches ℕ
tree = branch (codes "top") (node (branch (codes "add") (leaf (sub 0)) stop)) stop

-- 0 is refused by `apply`.
abbrev add : ℕ → ℕ → Exec ℕ (Unit {0})
add zero u w = (err inval_arg_error, w)
add (suc d) u w = (ok tt, w + suc d)

abbrev register : Subclass
register = record {
  HandlerClass = ℕ;
  Value = ℕ;
  World = ℕ;
  User = ℕ;
  Object = ℕ;
  handlers = tree;
  xpath_split = λ x. step_of (codes "top") ∷ step_of x ∷ [];
  new_user = λ cs w. (0, w);
  pre = λ u w. (ok tt, w);
  post = λ u w. (ok tt, w);
  create = λ k c w. (ok c.value, w);
  init = λ o u w. (ok tt, w);
  validate_object = λ o u w. (ok tt, w);
  apply_object = add;
  revert_object = λ o u w. (ok tt, w - o);
}

abbrev adds : ℕ → Change ℕ
adds n = record { type = created; xpath = codes "add"; value = n }

abbrev started : Server register
started = record { current = none; stopped = false; world = 10 }

abbrev traffic : List (Event register)
traffic =
    callback change 1 (adds 3 ∷ adds 4 ∷ [])
    ∷ callback done 1 []
    ∷ callback change 2 (adds 5 ∷ adds 0 ∷ [])
    ∷ callback abort 2 []
    ∷ []

-- The first request is committed, the second is rolled back by its own 'change'.
traffic_level : (run register started traffic).world ≡ 17
unfolding run step run_change prepare get_handler make init_handler validate apply_all apply
    revert_all revert
traffic_level = refl

abbrev held : Current register
held = record { id = 1; handlers = object 3 ∷ []; user = 0; revert_task = failed internal_error }

abbrev blocked : Server register
blocked = record { current = some held; stopped = false; world = 13 }

failed_task_sticks_example :
    (run register blocked traffic ≡ blocked)
    × (change_cb register change 2 [] blocked ≡ (err internal_error, blocked))
    × (change_cb register done 2 [] blocked ≡ (err internal_error, blocked))
    × (change_cb register abort 2 [] blocked ≡ (err internal_error, blocked))
failed_task_sticks_example =
    failed_task_sticks register blocked held internal_error traffic 2 [] refl refl
