-- ===== src/South/Gearbox/Tests/Modules.antt =====
-- The wait for a module of the gearbox servers on a device that gets ready.
use goldstone_mgmt.Base.{◌≡◌, refl, true, [], ◌∷◌, ok, nat_eq, text_eq}
use goldstone_mgmt.Base.Dict
use goldstone_mgmt.Base.Dict.{Dict, get-put}
use goldstone_mgmt.Base.Text.{codes}
use goldstone_mgmt.South.Gearbox.Modules.Start.{ready, poll_of, wait_ready}
use goldstone_mgmt.South.Gearbox.Modules.Ready.{Says, now, later, ignored_after, wait_ready-ends}
use goldstone_mgmt.South.Gearbox.Tests.{Store, sample, devices}

abbrev starting : Store
starting = (codes "oper-status", codes "initializing") ∷ []

abbrev started : Store
started = (codes "oper-status", codes "ready") ∷ []

ready-Says : Says sample 9 (codes "ready") 1 starting started
unfolding Dict.get Dict.put poll_of
ready-Says = later (codes "initializing") refl refl (now refl)

wait_ready-ends_example :
    wait_ready sample 2 9 (codes "3") (devices starting) ≡ (ok true, devices started)
unfolding poll_of ignored_after
wait_ready-ends_example =
    wait_ready-ends sample 9 (codes "3") (codes "ready") 1 ready (devices starting) starting started
      refl refl (λ e. cc) ready-Says
