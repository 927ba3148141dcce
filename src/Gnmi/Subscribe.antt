-- ===== src/Gnmi/Subscribe.antt =====
-- The notifications of a SubscribeRequest of src/north/gnmi/goldstone/north/gnmi/server.py, without
-- the timestamps.
pub mod Queue
pub mod Tests
use goldstone_mgmt.Base.{
  ℕ, zero, suc, Bool, true, false, Option, none, some, List, [], ◌∷◌, ◌++◌, ◌==◌, nat_eq, text_eq,
  if◌then◌else◌,
}
use goldstone_mgmt.Base.Dict
use goldstone_mgmt.Base.Dict.{Dict}
use goldstone_mgmt.Base.Text.{Text}
use goldstone_mgmt.Core.Handlers.{XpathStep}
use goldstone_mgmt.Gnmi.Paths.{PathElem}

-- goldstone-telemetry:telemetry-notify-event, as the server reads it
pub data NotifyEvent : Type 0 where
  sync_response : ℕ → NotifyEvent
  update : ℕ → Text → Text → NotifyEvent
  delete : ℕ → Text → NotifyEvent
  other_event : ℕ → NotifyEvent

-- gnmi_pb2.SubscribeResponse
pub data SubscribeResponse : Type 0 where
  synced : SubscribeResponse
  updated : List PathElem → Text → SubscribeResponse
  deleted : List PathElem → SubscribeResponse

pub build_keys : List (Text × Text) → Dict Text Text → Dict Text Text
build_keys [] d = d
build_keys ((k, v) ∷ ks) d = build_keys ks (Dict.put d k v)

abbrev pub full_name : Option Text → Text → Text
full_name none name = name
full_name (some prefix) name = prefix ++ b':' ∷ name

-- `_build_gnmi_path` of the steps that libyang's `xpath_split` gives
pub build_gnmi_path : List XpathStep → List PathElem
unfolding build_keys
build_gnmi_path [] = []
build_gnmi_path (x ∷ xs) =
    record { name = full_name x.prefix x.name; key = build_keys x.list_keys [] }
    ∷ build_gnmi_path xs

module _ (xpath_split : Text → List XpathStep) where
  pub response_of : NotifyEvent → Option SubscribeResponse
  unfolding build_gnmi_path
  response_of (sync_response id) = some synced
  response_of (update id path data_json) =
      some (updated (build_gnmi_path (xpath_split path)) data_json)
  response_of (delete id path) = some (deleted (build_gnmi_path (xpath_split path)))
  response_of (other_event id) = none

  -- `push_notif`: new responses stand at the front
  pub push_notif : NotifyEvent → List SubscribeResponse → List SubscribeResponse
  unfolding response_of
  push_notif e notifs = elim (response_of e) [ none ↦ notifs | some r ↦ r ∷ notifs ]

-- self._notifs.pop(): the last one, and the others
pub pop : List SubscribeResponse → Option (SubscribeResponse × List SubscribeResponse)
pop [] = none
pop (r ∷ rs) = elim (pop rs) [ none ↦ some (r, []) | some l ↦ some (l.0, r ∷ l.1) ]

-- `pull_notifs`, for a number of calls of `pop`: what it yields, and what it leaves
pub pull_notifs : ℕ → List SubscribeResponse → List SubscribeResponse × List SubscribeResponse
unfolding pop
pull_notifs zero notifs = ([], notifs)
pull_notifs (suc n) notifs = elim (pop notifs) [
  | none ↦ ([], notifs)
  | some l ↦ let rest = pull_notifs n l.1 in (l.0 ∷ rest.0, rest.1)
]
