-- ===== src/Gnmi/Get/Tests.antt =====
-- The theorem about `gNMIServicer.Get` of src/north/gnmi/goldstone/north/gnmi/server.py at a
-- repository that holds one number.
use goldstone_mgmt.Base.{◌≡◌, ok, [], ◌∷◌}
use goldstone_mgmt.Base.Exec.{◌>>=◌}
use goldstone_mgmt.Gnmi.Server.Tests.{numbers, elem}
use goldstone_mgmt.Gnmi.Get.{exec_get_requests, collect_get_requests, respond}
use goldstone_mgmt.Gnmi.Get.Answer.{read_all, answer, get_reads}

get_reads_example :
    (exec_get_requests numbers (collect_get_requests numbers [] ((elem ∷ []) ∷ [])) >>= λ p.
    respond numbers p.0 p.1)
      (3, 3)
    ≡ (
      ok (answer numbers (read_all numbers [] ((elem ∷ []) ∷ []) (3, 3)).0),
      (read_all numbers [] ((elem ∷ []) ∷ []) (3, 3)).1,
    )
get_reads_example = get_reads numbers [] ((elem ∷ []) ∷ []) (3, 3)
