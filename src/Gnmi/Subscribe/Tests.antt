-- ===== src/Gnmi/Subscribe/Tests.antt =====
-- The theorem about the notifications of src/north/gnmi/goldstone/north/gnmi/server.py at two events.
use goldstone_mgmt.Base.{◌≡◌, List, [], ◌∷◌, ◌++◌, arith, ◌<◌, length}
use goldstone_mgmt.Base.Text.{Text, codes}
use goldstone_mgmt.Core.Handlers.{XpathStep}
use goldstone_mgmt.Gnmi.Subscribe.{
  NotifyEvent, sync_response, delete, synced, response_of, pull_notifs,
}
use goldstone_mgmt.Gnmi.Subscribe.Queue.{queue_of, responses, push_all, pull_notifs-fifo}

abbrev no_steps : Text → List XpathStep
no_steps t = []

abbrev events : List NotifyEvent
events = delete 7 (codes "/a") ∷ sync_response 7 ∷ []

few : length ((synced ∷ []) ++ responses no_steps events) < 5
unfolding response_of
few = omega arith

pull_notifs-fifo_example :
    pull_notifs 5 (push_all no_steps events (queue_of (synced ∷ [])))
    ≡ ((synced ∷ []) ++ responses no_steps events, [])
pull_notifs-fifo_example = pull_notifs-fifo no_steps events (synced ∷ []) 5 few
