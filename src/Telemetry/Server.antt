-- ===== src/Telemetry/Server.antt =====
-- TelemetryServer and the handlers of its changes, of
-- src/system/telemetry/goldstone/system/telemetry/telemetry.py.
pub mod Loops
pub mod Tests
use goldstone_mgmt.Base.{
  ℕ, zero, suc, ◌+◌, ◌-◌, ◌*◌, String, Bool, true, false, not, ◌&&◌, ◌||◌, Option, none, some, List,
  [], ◌∷◌, ◌++◌, Result, ok, err, Exn, key_error, index_error, attribute_error, value_error,
  inval_arg_error, unsupported_error, subscription_not_exist, validation_failed, if◌then◌else◌,
  ◌==◌, nat_eq, text_eq, string_eq, ltb, length,
}
use goldstone_mgmt.Base.Dict
use goldstone_mgmt.Base.Dict.{Dict}
use goldstone_mgmt.Base.Exec.{Exec, pure, raise, lift, ◌>>=◌, ◌>>◌}
use goldstone_mgmt.Base.Text.{Text, codes, int}
use goldstone_mgmt.Core.{ChangeType, created, modified, deleted, Change}
use goldstone_mgmt.Core.Handlers.{XpathStep}
use goldstone_mgmt.Telemetry.Store.{Ids}
use goldstone_mgmt.Telemetry.Store.Subscriptions
use goldstone_mgmt.Telemetry.Config.{
  SubscriptionConfig, RequestConfig, Request, Kind, stream, once, poll, Subscription, create,
}
use goldstone_mgmt.Telemetry.Subscription.{Platform, World, start, poll_cb}

-- SUBSCRIPTIONS
pub kind_of : String → Option Kind
kind_of mode =
    if mode == "STREAM"
    then some stream
    else if mode == "ONCE"
    then some once
    else if mode == "POLL"
    then some poll
    else none

-- ValidationFailedError and KeyError become SysrepoInvalArgError.
pub invalid_argument_for : Result Subscription → Result Subscription
invalid_argument_for (err (validation_failed msg)) = err inval_arg_error
invalid_argument_for (err key_error) = err inval_arg_error
invalid_argument_for r = r

-- self.xpath[1][2][0]
pub first_key : List XpathStep → Result (Text × Text)
first_key [] = err index_error
first_key (x ∷ []) = err index_error
first_key (x ∷ y ∷ xs) = elim y.list_keys [ [] ↦ err index_error | k ∷ ks ↦ ok k ]

abbrev is_telemetry : Option Text → Bool
is_telemetry none = false
is_telemetry (some p) = p == codes "goldstone-telemetry"

-- The path is that of a subscribe-request itself: the guards are taken from left to right.
pub is_request : List XpathStep → Result Bool
unfolding first_key
is_request (x ∷ y ∷ []) =
    if is_telemetry x.prefix
      && (x.name == codes "subscribe-requests" && y.name == codes "subscribe-request")
    then elim (first_key (x ∷ y ∷ [])) [ err e ↦ err e | ok k ↦ ok (k.0 == codes "id") ]
    else ok false
is_request _ = ok false

-- The typed handlers with their attributes; `_subscription` is set by `validate`.
pub data TypedHandler : Type 0 where
  created_handler : ℕ → Request → Option Subscription → TypedHandler
  deleted_handler : ℕ → Option Subscription → TypedHandler

pub record RequestHandler : Type 0 where
  pub noop : Bool
  pub handler : TypedHandler

-- TYPES[self.type](...)
pub typed_handler : ChangeType → ℕ → Request → Result TypedHandler
typed_handler created id value = ok (created_handler id value none)
typed_handler modified id value = err unsupported_error
typed_handler deleted id value = ok (deleted_handler id none)

-- SubscribeRequestChangeHandler(...): the typed handler is created for every path.
pub request_handler : ChangeType → List XpathStep → Request → Result RequestHandler
unfolding is_request typed_handler
request_handler type xpath value = elim (is_request xpath) [
  | err e ↦ err e
  | ok request ↦ elim (first_key xpath) [
    | err e ↦ err e
    | ok k ↦ elim (int k.1) [
      | err e ↦ err e
      | ok id ↦ elim (typed_handler type id value) [
        | err e ↦ err e
        | ok h ↦ ok (record { noop = not request; handler = h })
      ]
    ]
  ]
]

pub stream_loops : ℕ → Dict ℕ SubscriptionConfig → List Ids
stream_loops rid [] = []
stream_loops rid ((sid, c) ∷ d) =
    let rest = stream_loops rid d in
    elim c.mode [
      | none ↦ rest
      | some m ↦ if m == "ON_CHANGE" || m == "SAMPLE" then (rid, c.id) ∷ rest else rest
    ]

pub cancel_loops : ℕ → List Ids → List Ids
cancel_loops rid [] = []
cancel_loops rid (ids ∷ loops) =
    let rest = cancel_loops rid loops in if ids.0 == rid then rest else ids ∷ rest

-- self._config["config"]["mode"]
pub config_mode : Request → Result String
config_mode r = elim r.config [
  | none ↦ err key_error
  | some c ↦ elim c.mode [ none ↦ err key_error | some m ↦ ok m ]
]

module _ (E : Platform) where
  -- The subscription store, what the subscriptions work on, and the loop tasks that are alive, by
  -- request and subscription.
  pub record Site : Type 0 where
    pub subscriptions : Dict ℕ Subscription
    pub world : World E
    pub loops : List Ids

  pub on_world : Exec (World E) (Unit {0}) → Exec Site (Unit {0})
  on_world m s = let (r, w) = m s.world in (r, record s { world = w })

  pub on_store : Exec (Dict ℕ Subscription) (Unit {0}) → Exec Site (Unit {0})
  on_store m s = let (r, d) = m s.subscriptions in (r, record s { subscriptions = d })

  pub start_loops : Kind → ℕ → Dict ℕ SubscriptionConfig → Exec Site (Unit {0})
  unfolding stream_loops
  start_loops stream rid d s = (ok tt, record s { loops = stream_loops rid d ++ s.loops })
  start_loops _ rid d s = (ok tt, s)

  -- `start` of a subscription and of a StreamSubscription
  pub start_subscription : ℕ → Subscription → Exec Site (Unit {0})
  unfolding on_world start_loops
  start_subscription rid s = do on_world (start E s); start_loops s.kind rid s.subscriptions

  -- `stop` of a subscription and of a StreamSubscription
  pub stop_subscription : Kind → ℕ → Exec Site (Unit {0})
  unfolding cancel_loops
  stop_subscription stream rid s = (ok tt, record s { loops = cancel_loops rid s.loops })
  stop_subscription _ rid s = (ok tt, s)

  -- SubscribeRequestCreatedHandler.validate
  pub new_subscription : ℕ → Request → Result Subscription
  unfolding kind_of invalid_argument_for config_mode
  new_subscription interval r = elim (config_mode r) [
    | err e ↦ err inval_arg_error
    | ok mode ↦ elim (kind_of mode) [
      | none ↦ err inval_arg_error
      | some k ↦ invalid_argument_for (create E.schema k r interval)
    ]
  ]

  -- SubscribeRequestDeletedHandler.validate
  pub known_subscription : Result Subscription → Result Subscription
  known_subscription (err subscription_not_exist) = err inval_arg_error
  known_subscription r = r

  pub validate_typed : ℕ → TypedHandler → Exec Site TypedHandler
  unfolding new_subscription known_subscription
  validate_typed interval (created_handler id r _) = do
    s ← lift (new_subscription interval r)
    pure (created_handler id r (some s))
  validate_typed interval (deleted_handler id _) = do
    s ← λ t. (known_subscription (Subscriptions.get t.subscriptions id), t)
    pure (deleted_handler id (some s))

  pub register : ℕ → Option Subscription → Exec Site (Unit {0})
  unfolding on_store start_subscription
  register id none = raise attribute_error
  register id (some s) = do on_store (Subscriptions.add id s); start_subscription id s

  pub unregister : ℕ → Option Subscription → Exec Site (Unit {0})
  unfolding on_store stop_subscription
  unregister id none = raise attribute_error
  unregister id (some s) = do stop_subscription s.kind id; on_store (Subscriptions.delete id)

  pub apply_typed : TypedHandler → Exec Site (Unit {0})
  unfolding register unregister
  apply_typed (created_handler id r s) = register id s
  apply_typed (deleted_handler id s) = unregister id s

  pub revert_typed : TypedHandler → Exec Site (Unit {0})
  unfolding register unregister
  revert_typed (created_handler id r s) = unregister id s
  revert_typed (deleted_handler id s) = register id s

  -- SubscribeRequestChangeHandler.validate, apply and revert
  pub validate : ℕ → RequestHandler → Exec Site RequestHandler
  unfolding validate_typed
  validate interval h =
      if h.noop
      then pure h
      else (do t ← validate_typed interval h.handler; pure (record h { handler = t }))

  pub apply : RequestHandler → Exec Site (Unit {0})
  unfolding apply_typed
  apply h = if h.noop then pure tt else apply_typed h.handler

  pub revert : RequestHandler → Exec Site (Unit {0})
  unfolding revert_typed
  revert h = if h.noop then pure tt else revert_typed h.handler

  pub poll_subscription : Kind → Subscription → Exec Site (Unit {0})
  poll_subscription poll s = on_world (poll_cb E s)
  poll_subscription _ s = raise attribute_error

  -- TelemetryServer.poll_cb
  pub server_poll_cb : ℕ → Exec Site (Unit {0})
  unfolding poll_subscription on_world
  server_poll_cb rid = do
    s ← λ t. (Subscriptions.get t.subscriptions rid, t)
    poll_subscription s.kind s

  pub stop_each : List ℕ → Exec Site (Unit {0})
  unfolding stop_subscription
  stop_each [] = pure tt
  stop_each (rid ∷ rids) = do
    s ← λ t. (Subscriptions.get t.subscriptions rid, t)
    stop_subscription s.kind rid
    stop_each rids

  -- TelemetryServer.stop
  pub stop : Exec Site (Unit {0})
  unfolding stop_each
  stop t = stop_each (Subscriptions.list t.subscriptions) t
