-- ===== src/Telemetry/Subscription/Mirror.antt =====
-- A client that applies the notifications of a subscription holds what the telemetry store holds
-- (src/system/telemetry/goldstone/system/telemetry/telemetry.py).
use goldstone_mgmt.Base.{
  ℕ, zero, suc, ◌≡◌, refl, inl, inr, Bool, true, false, Option, none, some, List, [], ◌∷◌, Result,
  ok, err, telemetry_not_exist, if◌then◌else◌, nat_eq, text_eq, arith, Result-cases,
}
use mathlib.Core.Path.{subst, sym}
use goldstone_mgmt.Base.Dict.{keys}
use goldstone_mgmt.Base.Exec.{Exec, pure, lift, ◌>>=◌, ◌>>◌, >>=-assoc}
use goldstone_mgmt.Base.Text.{Text}
use goldstone_mgmt.Telemetry.Path.{Leaves}
use goldstone_mgmt.Telemetry.Path.Values.{Value, Fields}
use goldstone_mgmt.Telemetry.Store.{Ids, Entry, same_key}
use goldstone_mgmt.Telemetry.Config.{SubscriptionConfig, number}
use goldstone_mgmt.Telemetry.Subscription.{
  Notification, sync_response, update, delete, Platform, World, send_notification, store_set,
  store_delete, get_data, heartbeat_expired, against_previous, suppresses, microseconds,
  should_send_notif, sample_each, delete_if_exists, pass_not_exist, delete_each, minus,
  sample_and_notify, loop_round,
}

-- What a client of a subscription knows of a path, the newest notification first.
abbrev pub replay : Ids → List Notification → Text → Option Text
replay ids [] q = none
replay ids (sync_response id ∷ sent) q = replay ids sent q
replay ids (update jds p json ∷ sent) q =
    let rest = replay ids sent q in if same_key jds p ids q then some json else rest
replay ids (delete jds p ∷ sent) q =
    let rest = replay ids sent q in if same_key jds p ids q then none else rest

module _ (E : Platform) where
  open E use {Scalar}

  -- What the store shows of a path.
  abbrev pub shown : Result (Entry (Value Scalar)) → Option Text
  shown (ok e) = some (E.dumps e.value)
  shown (err c) = none

  abbrev pub Mirrors : Ids → World E → Type 0
  Mirrors ids w = (q : Text) → replay ids w.sent q ≡ shown (E.store.get w.data_store ids q)

  -- A call after which each client that mirrored the store still does.
  record KeepsMirrors {ℓ} {A : Type ℓ} (m : Exec (World E) A) : Type ℓ where
    at : (w : World E) (ids : Ids) → Mirrors ids w → Mirrors ids (m w).1

  KeepsMirrors-bind {ℓ κ} :
      {A : Type ℓ} {B : Type κ} {m : Exec (World E) A} {f : A → Exec (World E) B}
      → KeepsMirrors m
      → ((a : A) → KeepsMirrors (f a))
      → KeepsMirrors (m >>= f)
  KeepsMirrors-bind {m} {f} k g = record {
    at = λ w ids h. elim (Result-cases (m w).0) [
      | inl (a, e) ↦ rw e ((g a).at (m w).1 ids (k.at w ids h))
      | inr (c, e) ↦ rw e (k.at w ids h)
    ];
  }

  -- A call that neither stores nor sends.
  quiet {ℓ} :
      {A : Type ℓ} (m : Exec (World E) A)
      → ((w : World E) → ((m w).1.sent ≡ w.sent) × ((m w).1.data_store ≡ w.data_store))
      → KeepsMirrors m
  quiet m h = record { at = λ w ids k q. rw ((h w).0, (h w).1) (k q) }

  KeepsMirrors-then :
      {A B C : Type 0} (m : Exec (World E) A) (n : Exec (World E) B) (k : Exec (World E) C)
      → KeepsMirrors (m >> n)
      → KeepsMirrors k
      → KeepsMirrors (m >> (n >> k))
  KeepsMirrors-then m n k f g =
      subst KeepsMirrors (sym (>>=-assoc m (λ _. n) (λ _. k))) (KeepsMirrors-bind f (λ _. g))

  KeepsMirrors-pure {ℓ} : {A : Type ℓ} (a : A) → KeepsMirrors (pure a)
  KeepsMirrors-pure a = record { at = λ w ids h. h }

  KeepsMirrors-if :
      {A : Type 0} (b : Bool) {m n : Exec (World E) A}
      → KeepsMirrors m
      → KeepsMirrors n
      → KeepsMirrors (if b then m else n)
  KeepsMirrors-if true f g = f
  KeepsMirrors-if false f g = g

  heartbeat_expired-KeepsMirrors :
      (hb : ℕ) (prev : Entry (Value Scalar)) → KeepsMirrors (heartbeat_expired E hb prev)
  unfolding heartbeat_expired
  heartbeat_expired-KeepsMirrors zero prev = KeepsMirrors-pure false
  heartbeat_expired-KeepsMirrors (suc hb) prev = quiet _ λ w. (refl, refl)

  against_previous-KeepsMirrors :
      (hb : ℕ) (v : Value Scalar) (r : Result (Entry (Value Scalar)))
      → KeepsMirrors (against_previous E hb v r)
  unfolding against_previous
  against_previous-KeepsMirrors hb v (ok prev) =
      KeepsMirrors-bind (heartbeat_expired-KeepsMirrors hb prev) λ expired. KeepsMirrors-pure _
  against_previous-KeepsMirrors hb v (err telemetry_not_exist) = KeepsMirrors-pure true
  against_previous-KeepsMirrors hb v (err e) = quiet _ λ w. (refl, refl)

  should_send_notif-KeepsMirrors :
      (c : SubscriptionConfig) (ids : Ids) (p : Text) (v : Value Scalar)
      → KeepsMirrors (should_send_notif E c ids p v)
  unfolding should_send_notif
  should_send_notif-KeepsMirrors c ids p v =
      KeepsMirrors-bind (quiet (lift (number c.heartbeat_interval)) (λ w. (refl, refl))) λ hb.
        KeepsMirrors-if (suppresses E c)
          (record {
            at = λ w jds.
                (against_previous-KeepsMirrors (microseconds E hb) v
                    (E.store.get w.data_store ids p)).at
                  w jds;
          })
          (KeepsMirrors-pure true)

  -- The rounds of `_on_change_loop` or `_sample_loop`, each with what the device holds by then.
  abbrev pub rounds :
      ℕ → SubscriptionConfig → List (Text → Result (Option (Fields Scalar))) → World E → World E
  rounds id c [] w = w
  rounds id c (device ∷ later) w =
      rounds id c later (loop_round E id c (record w { operational = device }))

  module _ (delivers : (k : ℕ) (n : Notification) → E.deliver k n ≡ ok tt) where
    store_and_send :
        (ids : Ids) (p : Text) (v : Value Scalar)
        → KeepsMirrors (do store_set E ids p v; send_notification E (update ids p (E.dumps v)))
    unfolding store_set send_notification
    store_and_send ids p v = record {
      at = λ w jds h q. ground (
        arith,
        delivers w.attempts (update ids p (E.dumps v)),
        h q,
        E.store.get-set w.data_store ids jds p q v (E.clock w.readings),
      );
    }

    delete_and_send :
        (ids : Ids) (p : Text)
        → KeepsMirrors (do delete_if_exists E ids p; send_notification E (delete ids p))
    unfolding delete_if_exists store_delete send_notification pass_not_exist
    delete_and_send ids p = record {
      at = λ w jds h q. ground (
        arith,
        delivers w.attempts (delete ids p),
        h q,
        E.store.get-delete w.data_store ids jds p q,
        E.store.delete-get w.data_store ids p,
      );
    }

    sample_each-KeepsMirrors :
        (c : SubscriptionConfig) (ids : Ids) (leaves : Leaves Scalar)
        → KeepsMirrors (sample_each E c ids leaves)
    unfolding sample_each
    sample_each-KeepsMirrors c ids [] = KeepsMirrors-pure tt
    sample_each-KeepsMirrors c ids ((p, v) ∷ leaves) =
        KeepsMirrors-bind (should_send_notif-KeepsMirrors c ids p v) λ sends.
          KeepsMirrors-bind (KeepsMirrors-if sends (store_and_send ids p v) (KeepsMirrors-pure tt))
            λ _. sample_each-KeepsMirrors c ids leaves

    delete_each-KeepsMirrors :
        (ids : Ids) (paths : List Text) → KeepsMirrors (delete_each E ids paths)
    unfolding delete_each
    delete_each-KeepsMirrors ids [] = KeepsMirrors-pure tt
    delete_each-KeepsMirrors ids (p ∷ paths) =
        KeepsMirrors-then (delete_if_exists E ids p) (send_notification E (delete ids p))
          (delete_each E ids paths) (delete_and_send ids p) (delete_each-KeepsMirrors ids paths)

    sample_and_notify-KeepsMirrors :
        (id : ℕ) (c : SubscriptionConfig) → KeepsMirrors (sample_and_notify E id c)
    unfolding sample_and_notify get_data
    sample_and_notify-KeepsMirrors id c =
        KeepsMirrors-bind (quiet (lift (number c.path)) (λ w. (refl, refl))) λ path.
          KeepsMirrors-bind (quiet (get_data E path) (λ w. (refl, refl))) λ leaves.
            KeepsMirrors-bind
              (quiet (λ w. (ok (E.store.list w.data_store (id, c.id)), w)) (λ w. (refl, refl)))
              λ currents. KeepsMirrors-bind (sample_each-KeepsMirrors c (id, c.id) leaves) λ _.
                delete_each-KeepsMirrors (id, c.id) (E.set_order (minus E currents (keys leaves)))

    -- Let the connector deliver every notification, and let a client know just what the telemetry
    -- store holds for a subscription `ids`. Then it still
    -- does after any number of sampling rounds of any subscription `(id, c.id)`, whatever the device
    -- holds in each round, and also when reading, parsing or deleting raises an exception.
    pub rounds-Mirrors :
        (id : ℕ) (c : SubscriptionConfig) (devices : List (Text → Result (Option (Fields Scalar))))
        (ids : Ids) (w : World E)
        → Mirrors ids w
        → Mirrors ids (rounds id c devices w)
    unfolding loop_round
    rounds-Mirrors id c [] ids w h = h
    rounds-Mirrors id c (d ∷ devices) ids w h =
        rounds-Mirrors id c devices ids (loop_round E id c (record w { operational = d }))
          ((sample_and_notify-KeepsMirrors id c).at (record w { operational = d }) ids h)
