-- ===== src/Telemetry/Subscription.antt =====
-- The subscription classes of src/system/telemetry/goldstone/system/telemetry/telemetry.py: reading
-- data, keeping the telemetry store, and sending notifications.
pub mod Mirror
pub mod Start
pub mod Tests
use goldstone_mgmt.Base.{
  ℕ, zero, suc, ◌+◌, ◌*◌, ◌/◌, ◌%◌, ◌<◌, String, Bool, true, false, not, ◌&&◌, ◌||◌, Option, none,
  some, List, [], ◌∷◌, Result, ok, err, Exn, telemetry_not_exist, if◌then◌else◌, ◌==◌, nat_eq,
  text_eq, string_eq, ltb, ◌≡◌,
}
use goldstone_mgmt.Base.Dict
use goldstone_mgmt.Base.Dict.{Dict, keys, member}
use goldstone_mgmt.Base.Exec.{Exec, pure, raise, lift, ◌>>=◌, ◌>>◌}
use goldstone_mgmt.Base.Text.{Text}
use goldstone_mgmt.Telemetry.Path.{Schema, Leaves, parse_dict_into_leaves}
use goldstone_mgmt.Telemetry.Path.Values.{Value, Fields, end}
use goldstone_mgmt.Telemetry.Store.{Ids, Entry}
use goldstone_mgmt.Telemetry.Store.Interface.{TelemetryStore}
use goldstone_mgmt.Telemetry.Config.{
  SubscriptionConfig, Subscription, Kind, stream, once, poll, number, default,
}

-- goldstone-telemetry:telemetry-notify-event, with the request, the subscription, the path and the
-- JSON text of the value
pub data Notification : Type 0 where
  sync_response : ℕ → Notification
  update : Ids → Text → Text → Notification
  delete : Ids → Text → Notification

-- What the subscriptions use: libyang's schema, the store, Python's `==` and `json.dumps` on values,
-- the readings of the clock in microseconds, whether the connector's k-th `send_notification` returns
-- or raises, and the order in which Python walks through a set.
pub record Platform : Type 1 where
  pub Scalar : Type 0
  pub schema : Schema Scalar
  pub store : TelemetryStore (Value Scalar)
  pub same : Value Scalar → Value Scalar → Bool
  pub dumps : Value Scalar → Text
  pub clock : ℕ → ℕ
  pub deliver : ℕ → Notification → Result (Unit {0})
  pub set_order : List Text → List Text

module _ (E : Platform) where
  open E use {Scalar}

  -- `operational` is what `conn.get_operational` returns or raises for each path. The newest
  -- notification comes first; `readings` counts the calls of `datetime.now()`, and `attempts` those of
  -- the connector's `send_notification`.
  pub record World : Type 0 where
    pub operational : Text → Result (Option (Fields Scalar))
    pub data_store : E.store.State
    pub sent : List Notification
    pub readings : ℕ
    pub attempts : ℕ

  pub now : Exec World ℕ
  now w = (ok (E.clock w.readings), record w { readings = suc w.readings })

  pub send_notification : Notification → Exec World (Unit {0})
  send_notification n w =
      let later : World = record w { attempts = suc w.attempts } in
      elim (E.deliver w.attempts n) [
        | ok _ ↦ (ok tt, record later { sent = n ∷ w.sent })
        | err e ↦ (err e, later)
      ]

  pub store_get : Ids → Text → Exec World (Entry (Value Scalar))
  store_get ids path w = (E.store.get w.data_store ids path, w)

  -- `set` reads the clock for "update-time"
  pub store_set : Ids → Text → Value Scalar → Exec World (Unit {0})
  unfolding now
  store_set ids path value = do
    time ← now
    λ w. (ok tt, record w { data_store = E.store.set w.data_store ids path value time })

  pub store_delete : Ids → Text → Exec World (Unit {0})
  store_delete ids path w =
      let (r, s) = E.store.delete ids path w.data_store in (r, record w { data_store = s })

  abbrev pub or_empty : Option (Fields Scalar) → Fields Scalar
  or_empty none = end
  or_empty (some fs) = fs

  pub parse_found : Text → Result (Option (Fields Scalar)) → Result (Leaves Scalar)
  parse_found path (ok found) = parse_dict_into_leaves E.schema (or_empty found) path
  parse_found path (err e) = err e

  -- `_get_data`
  pub get_data : Text → Exec World (Leaves Scalar)
  unfolding parse_found
  get_data path w = (parse_found path (w.operational path), w)

  pub store_each : Ids → Leaves Scalar → Exec World (Unit {0})
  unfolding store_set
  store_each ids [] = pure tt
  store_each ids ((sub_path, value) ∷ leaves) = do
    store_set ids sub_path value
    store_each ids leaves

  -- `_retrieve_current_data`
  pub retrieve_current_data : ℕ → Dict ℕ SubscriptionConfig → Exec World (Unit {0})
  unfolding get_data store_each
  retrieve_current_data id [] = pure tt
  retrieve_current_data id ((sid, c) ∷ d) = do
    path ← lift (number c.path)
    leaves ← get_data path
    store_each (id, sid) leaves
    retrieve_current_data id d

  pub send_each : Ids → List Text → Exec World (Unit {0})
  unfolding store_get send_notification
  send_each ids [] = pure tt
  send_each ids (sub_path ∷ paths) = do
    e ← store_get ids sub_path
    send_notification (update ids sub_path (E.dumps e.value))
    send_each ids paths

  -- `_send_current_data`
  pub send_current_data : ℕ → Dict ℕ SubscriptionConfig → Exec World (Unit {0})
  unfolding send_each
  send_current_data id [] = pure tt
  send_current_data id ((sid, c) ∷ d) = do
    paths ← λ w. (ok (E.store.list w.data_store (id, sid)), w)
    send_each (id, sid) paths
    send_current_data id d

  pub send_sync_response : ℕ → Exec World (Unit {0})
  unfolding send_notification
  send_sync_response id = send_notification (sync_response id)

  -- `Subscription.start`
  pub start : Subscription → Exec World (Unit {0})
  unfolding retrieve_current_data send_current_data send_sync_response
  start s = do
    retrieve_current_data s.id s.subscriptions
    if s.updates_only then pure tt else send_current_data s.id s.subscriptions
    send_sync_response s.id

  -- `PollSubscription.poll_cb`
  pub poll_cb : Subscription → Exec World (Unit {0})
  unfolding retrieve_current_data send_current_data send_sync_response
  poll_cb s = do
    retrieve_current_data s.id s.subscriptions
    send_current_data s.id s.subscriptions
    send_sync_response s.id

  -- timedelta(microseconds=n / 1000), rounded half to even
  pub microseconds : ℕ → ℕ
  microseconds n =
      let whole = n / 1000 in
      let rest = n % 1000 in
      if ltb rest 500
      then whole
      else if ltb 500 rest
      then whole + 1
      else if whole % 2 == 0
      then whole
      else whole + 1

  -- (datetime.now() - prev_data["update-time"]) > hb, where the clock is read only for hb > 0
  pub heartbeat_expired : ℕ → Entry (Value Scalar) → Exec World Bool
  unfolding now
  heartbeat_expired zero prev = pure false
  heartbeat_expired hb prev = do time ← now; pure (ltb (prev.update_time + hb) time)

  pub against_previous : ℕ → Value Scalar → Result (Entry (Value Scalar)) → Exec World Bool
  unfolding heartbeat_expired
  against_previous hb value (ok prev) = do
    expired ← heartbeat_expired hb prev
    pure (not (E.same value prev.value && not expired))
  against_previous hb value (err telemetry_not_exist) = pure true
  against_previous hb value (err e) = raise e

  -- config["suppress-redundant"] or config["mode"] == "ON_CHANGE"
  pub suppresses : SubscriptionConfig → Bool
  suppresses c = default false c.suppress_redundant || default "" c.mode == "ON_CHANGE"

  pub should_send_notif : SubscriptionConfig → Ids → Text → Value Scalar → Exec World Bool
  unfolding against_previous microseconds suppresses
  should_send_notif c ids sub_path value = do
    heartbeat ← lift (number c.heartbeat_interval)
    if suppresses c
        then (λ w.
            against_previous (microseconds heartbeat) value (E.store.get w.data_store ids sub_path)
              w)
        else pure true

  -- the created or updated data nodes
  pub sample_each : SubscriptionConfig → Ids → Leaves Scalar → Exec World (Unit {0})
  unfolding should_send_notif store_set send_notification
  sample_each c ids [] = pure tt
  sample_each c ids ((sub_path, value) ∷ leaves) = do
    sends ← should_send_notif c ids sub_path value
    if sends
        then (do
          store_set ids sub_path value
          send_notification (update ids sub_path (E.dumps value)))
        else pure tt
    sample_each c ids leaves

  -- `except TelemetryNotExistError: pass`
  pub pass_not_exist : Result (Unit {0}) → Result (Unit {0})
  pass_not_exist (err telemetry_not_exist) = ok tt
  pass_not_exist r = r

  pub delete_if_exists : Ids → Text → Exec World (Unit {0})
  unfolding store_delete pass_not_exist
  delete_if_exists ids path w = let (r, w') = store_delete ids path w in (pass_not_exist r, w')

  -- the deleted data nodes
  pub delete_each : Ids → List Text → Exec World (Unit {0})
  unfolding delete_if_exists send_notification
  delete_each ids [] = pure tt
  delete_each ids (sub_path ∷ paths) = do
    delete_if_exists ids sub_path
    send_notification (delete ids sub_path)
    delete_each ids paths

  -- currents - exists
  pub minus : List Text → List Text → List Text
  minus [] exists = []
  minus (q ∷ qs) exists = let rest = minus qs exists in if member exists q then rest else q ∷ rest

  pub sample_and_notify : ℕ → SubscriptionConfig → Exec World (Unit {0})
  unfolding get_data sample_each delete_each minus
  sample_and_notify id c = do
    path ← lift (number c.path)
    leaves ← get_data path
    currents ← λ w. (ok (E.store.list w.data_store (id, c.id)), w)
    sample_each c (id, c.id) leaves
    delete_each (id, c.id) (E.set_order (minus currents (keys leaves)))

  -- One round of `_on_change_loop` or `_sample_loop`: an exception is logged and passed over.
  pub loop_round : ℕ → SubscriptionConfig → World → World
  unfolding sample_and_notify
  loop_round id c w = (sample_and_notify id c w).1
