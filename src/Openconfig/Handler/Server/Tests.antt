-- ===== src/Openconfig/Handler/Server/Tests.antt =====
-- The theorems about the handlers of
-- src/xlate/openconfig/goldstone/xlate/openconfig/interfaces.py at a small sysrepo.
use goldstone_mgmt.Base.{◌≡◌, true, false, none, List, [], ◌∷◌, nat_eq, text_eq}
use goldstone_mgmt.Base.Text.{Text, codes}
use goldstone_mgmt.Core.{Change, created, Server, done, abort, callback, revert_task_runs, run}
use goldstone_mgmt.Core.Handlers.{XpathStep}
use goldstone_mgmt.Connector.Session.Example.{sysrepo, store_laws, Device}
use goldstone_mgmt.Openconfig.Handler.{World, OcValue, flag}
use goldstone_mgmt.Openconfig.Handler.Server.{interface_server}
use goldstone_mgmt.Openconfig.Handler.Server.Settled.{view, settled-datastore}

abbrev step_of : Text → XpathStep
step_of n = record { prefix = none; name = n; list_keys = [] }

-- A path that no handler is for.
abbrev split_unknown : Text → List XpathStep
split_unknown x = step_of (codes "unknown") ∷ []

abbrev device : Device
device = record { entries = []; pending = false; stored = codes "UP" ∷ [] }

abbrev world : World sysrepo
world = record { objects = []; next = 0; sess = none; sysrepo = device }

abbrev started : Server (interface_server sysrepo split_unknown)
started = record { current = none; stopped = false; world = world }

abbrev enable : Change OcValue
enable = record { type = created; xpath = codes "x"; value = flag true }

settled-datastore_example :
    view sysrepo store_laws
      (run
        (interface_server sysrepo split_unknown)
        started
        (callback done 1 [] ∷ callback abort 1 [] ∷ revert_task_runs ∷ [])).world
    ≡ codes "UP" ∷ []
settled-datastore_example =
    settled-datastore sysrepo store_laws split_unknown started
      (callback done 1 [] ∷ callback abort 1 [] ∷ revert_task_runs ∷ []) (tt, (tt, (tt, tt)))
