-- ===== src/South/Tai/Tests.antt =====
-- The theorems about src/lib/goldstone/lib/core.py at the transponder server of
-- src/south/tai/goldstone/south/tai/transponder.py, with one module whose attributes take any text.
use goldstone_mgmt.Base.{
  ℕ, ◌≡◌, refl, false, ◌&&◌, none, some, List, [], ◌∷◌, Result, ok, err, tai_exception, Exn,
  if◌then◌else◌, ◌==◌, nat_eq, text_eq, arith,
}
use goldstone_mgmt.Base.Dict
use goldstone_mgmt.Base.Text.{Text, codes}
use goldstone_mgmt.Core.Handlers.{XpathStep, get_handler}
use goldstone_mgmt.Core.{
  Change, modified, Server, change, done, abort, run_change, prepare, apply_all, Event, callback,
  revert_task_runs, run, make, init_handler, validate, apply, object,
}
use goldstone_mgmt.Core.Atomic.{IsPrepared, run_change-IsPrepared}
use goldstone_mgmt.Core.Phase.{Phase, idle, Runs, Represents}
use goldstone_mgmt.Core.Protocol.{run-Runs}
use goldstone_mgmt.Core.Recovery.{turns, IsRestored, timeout-IsRestored}
use goldstone_mgmt.South.Gearbox.{Value, text, number, flag, nothing, str}
use goldstone_mgmt.South.Tai
use goldstone_mgmt.South.Tai.{Taish, World, module_server}
use goldstone_mgmt.South.Tai.Undone.{TaiLaws, view, module_server-Contract}

abbrev Shown : Type 0
Shown = ℕ → Text → Text

-- Numbers are refused.
abbrev write : ℕ → Text → Value → Shown → Result (Unit {0}) × Shown
write m n (number d) s = (err tai_exception, s)
write m n v s = (ok tt, λ k l. if m == k && n == l then str v else s k l)

abbrev sample : Taish
sample = record {
  State = Shown;
  list = λ s. (ok (codes "1" ∷ []), s);
  get_module = λ l s. (ok 7, s);
  get_attribute_metadata = λ m n s. (ok (record { attr_id = 1; usage = [] }), s);
  get_attribute_capability =
      λ m i s. (ok (record { default_value = []; min = []; max = []; supportedvalues = [] }), s);
  get = λ m n s. (ok (s m n), s);
  set = write;
  less = λ a b. ok false;
}

write-fails :
    (m : ℕ) (n : Text) (v : Value) (s : Shown) (e : Exn)
    → (write m n v s).0 ≡ err e
    → (write m n v s).1 ≡ s
write-fails m n (number k) s e h = refl
write-fails m n (text t) s e h = absurd (ground (arith, h))
write-fails m n (flag b) s e h = absurd (ground (arith, h))
write-fails m n nothing s e h = absurd (ground (arith, h))

write-writes :
    (m k : ℕ) (n l : Text) (v : Value) (s : Shown)
    → (write m n v s).0 ≡ ok tt
    → (write m n v s).1 k l ≡ (if m == k && n == l then str v else s k l)
write-writes m k n l (number d) s h = absurd (ground (arith, h))
write-writes m k n l (text t) s h = refl
write-writes m k n l (flag b) s h = refl
write-writes m k n l nothing s h = refl

sample_laws : TaiLaws sample
sample_laws = record {
  attribute = λ s. s;
  Accepts = λ m n t. Unit {0};
  list_keeps = λ s. refl;
  get_module_keeps = λ l s. refl;
  metadata_keeps = λ m n s. refl;
  capability_keeps = λ m i s. refl;
  get_keeps = λ m n s. refl;
  get_reads = λ m n t s h. (cc, tt);
  set_fails = write-fails;
  set_writes = write-writes;
  set_back = λ m n t s a. refl;
}

abbrev step_of : Text → List (Text × Text) → XpathStep
step_of n ks = record { prefix = some (codes "goldstone-transponder"); name = n; list_keys = ks }

-- the path of a leaf of the configuration of the module piu1
abbrev split : Text → List XpathStep
split leaf =
    step_of (codes "modules") []
    ∷ step_of (codes "module") ((codes "name", codes "piu1") ∷ [])
    ∷ step_of (codes "config") []
    ∷ step_of leaf []
    ∷ []

abbrev sets : Text → Value → Change Value
sets leaf v = record { type = modified; xpath = leaf; value = v }

abbrev site : World sample
site = record {
  objects = [];
  next = 0;
  locations = (codes "piu1", codes "1") ∷ [];
  initializing = false;
  tai = λ m n. codes "old";
}

abbrev started : Server (module_server sample split)
started = record { current = none; stopped = false; world = site }

-- Of two changes taish refuses the second.
abbrev refused : List (Change Value)
refused = sets (codes "admin-status") (text (codes "up")) ∷ sets (codes "power") (number 3) ∷ []

-- The second change is of the same leaf.
abbrev accepted : List (Change Value)
accepted = sets (codes "power") (text (codes "5")) ∷ sets (codes "power") (text (codes "6")) ∷ []

abbrev traffic : List (Event (module_server sample split))
traffic =
    callback change 1 refused
    ∷ callback change 2 accepted
    ∷ callback done 2 []
    ∷ callback change 3 accepted
    ∷ revert_task_runs
    ∷ callback abort 3 []
    ∷ []

run-Runs_example :
    (q : Phase Shown) × Runs
      (module_server sample split)
      (idle (view sample sample_laws site))
      traffic
      q
    × Represents
        (module_server sample split)
        (view sample sample_laws)
        (run (module_server sample split) started traffic)
        q
run-Runs_example =
    run-Runs (module_server sample split) (view sample sample_laws)
      (module_server-Contract sample sample_laws split) started
      (idle (view sample sample_laws site)) traffic (refl, refl)

timeout-IsRestored_example :
    IsRestored
      (module_server sample split)
      (view sample sample_laws)
      (run (module_server sample split) started (callback change 1 accepted ∷ turns 4))
      (view sample sample_laws site)
unfolding run_change prepare get_handler make init_handler validate apply_all apply Tai.init
    Tai.validate Tai.apply Tai.create Tai.pre Tai.handlers Dict.get Dict.put Dict.member
timeout-IsRestored_example =
    timeout-IsRestored (module_server sample split) (view sample sample_laws)
      (module_server-Contract sample sample_laws split) started 1 accepted
      (tt, object 0 ∷ object 1 ∷ []) refl refl

run_change-IsPrepared_example :
    IsPrepared
      (module_server sample split)
      (view sample sample_laws)
      (run_change (module_server sample split) refused site).0
      (view sample sample_laws site)
      (run_change (module_server sample split) refused site).1
run_change-IsPrepared_example =
    run_change-IsPrepared (module_server sample split) (view sample sample_laws)
      (module_server-Contract sample sample_laws split) refused site
