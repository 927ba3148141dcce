-- ===== src/Telemetry/Subscription/Start.antt =====
-- Subscription.start and PollSubscription.poll_cb of
-- src/system/telemetry/goldstone/system/telemetry/telemetry.py: what a client knows after them.
use goldstone_mgmt.Base.{
  ℕ, suc, ◌≡◌, refl, inl, inr, true, false, ◌&&◌, none, List, [], ◌∷◌, ok, if◌then◌else◌, ◌==◌,
  nat_eq, text_eq, arith, ==_iff, ==_refl, Result-cases, Bool-cases, ◌∙◌, sym, ap,
}
use mathlib.Core.Path.{subst}
use goldstone_mgmt.Base.Dict.{Dict, keys, member}
use goldstone_mgmt.Base.Text.{Text}
use goldstone_mgmt.Telemetry.Path.{Leaves}
use goldstone_mgmt.Telemetry.Path.Values.{Value}
use goldstone_mgmt.Telemetry.Store.{Ids, Entry}
use goldstone_mgmt.Telemetry.Store.Interface.{is_ok}
use goldstone_mgmt.Telemetry.Config.{SubscriptionConfig, Subscription, number}
use goldstone_mgmt.Telemetry.Subscription.{
  Notification, sync_response, update, Platform, World, send_notification, store_get, store_set,
  store_each, get_data, parse_found, retrieve_current_data, send_each, send_current_data,
  send_sync_response, start, poll_cb,
}
use goldstone_mgmt.Telemetry.Subscription.Mirror.{replay, shown, Mirrors}

module _ (E : Platform) where
  open E use {Scalar}

  -- A client knows of no path that the store does not have.
  abbrev pub Within : Ids → World E → Type 0
  Within ids w =
      (q : Text) → is_ok (E.store.get w.data_store ids q) ≡ false → replay ids w.sent q ≡ none

  -- Each of the paths is in the store.
  abbrev Stored : Ids → List Text → World E → Type 0
  Stored ids paths w =
      (q : Text) → member paths q ≡ true → is_ok (E.store.get w.data_store ids q) ≡ true

  store_set-Within :
      (ids jds : Ids) (p : Text) (v : Value Scalar) (w : World E)
      → Within jds w
      → Within jds (store_set E ids p v w).1
  unfolding store_set
  store_set-Within ids jds p v w h q =
      ground (arith, h q, E.store.get-set w.data_store ids jds p q v (E.clock w.readings))

  store_each-Within :
      (ids jds : Ids) (leaves : Leaves Scalar) (w : World E)
      → Within jds w
      → Within jds (store_each E ids leaves w).1
  unfolding store_each store_set
  store_each-Within ids jds [] w h = h
  store_each-Within ids jds ((p, v) ∷ leaves) w h =
      store_each-Within ids jds leaves (store_set E ids p v w).1 (store_set-Within ids jds p v w h)

  retrieve-Within :
      (id : ℕ) (d : Dict ℕ SubscriptionConfig) (jds : Ids) (w : World E)
      → Within jds w
      → Within jds (retrieve_current_data E id d w).1
  unfolding retrieve_current_data get_data
  retrieve-Within id [] jds w h = h
  retrieve-Within id ((sid, c) ∷ d) jds w h = elim (Result-cases (number c.path)) [
    | inr (x, e) ↦ rw e h
    | inl (path, e) ↦ rw e (elim (Result-cases (parse_found E path (w.operational path))) [
      | inr (x, k) ↦ rw k h
      | inl (leaves, k) ↦ rw k (elim (Result-cases (store_each E (id, sid) leaves w).0) [
        | inr (x, l) ↦ rw l (store_each-Within (id, sid) jds leaves w h)
        | inl (x, l) ↦ rw l (
            retrieve-Within id d jds (store_each E (id, sid) leaves w).1
              (store_each-Within (id, sid) jds leaves w h))
      ])
    ])
  ]

  -- What a client knows once `send_each` has sent the stored values of some paths.
  abbrev Sent : Ids → List Text → World E → World E → Type 0
  Sent ids paths w w' =
      (jds : Ids) (q : Text)
      → replay jds w'.sent q ≡ (
          if ids.0 == jds.0 && (ids.1 == jds.1 && member paths q)
          then shown E (E.store.get w.data_store jds q)
          else replay jds w.sent q)

  found_again :
      (o i o' i' : ℕ) (p q : Text) (w : World E) (v : Entry (Value Scalar))
      → E.store.get w.data_store (o, i) p ≡ ok v
      → o ≡ o'
      → i ≡ i'
      → p ≡ q
      → E.store.get w.data_store (o', i') q ≡ ok v
  found_again o i o' i' p q w v e a b c = rw (sym a, sym b, sym c) e

  -- The notification of one path and those of the later ones.
  one_more :
      (ids jds : Ids) (p q : Text) (paths : List Text) (w : World E) (v : Entry (Value Scalar))
      → E.store.get w.data_store ids p ≡ ok v
      → (if ids.0 == jds.0 && (ids.1 == jds.1 && member paths q)
          then shown E (E.store.get w.data_store jds q)
          else replay jds (update ids p (E.dumps v.value) ∷ w.sent) q)
        ≡ (if ids.0 == jds.0 && (ids.1 == jds.1 && member (p ∷ paths) q)
            then shown E (E.store.get w.data_store jds q)
            else replay jds w.sent q)
  unfolding member
  one_more (o, i) (o', i') p q paths w v e = elim (Bool-cases (o == o' && (i == i' && p == q))) [
    | inl k ↦ ground (
      arith,
      k,
      found_again o i o' i' p q w v e (ground (arith, k, ==_iff o o'))
          (ground (arith, k, ==_iff i i')) (ground (arith, k, ==_iff p q)),
    )
    | inr k ↦ ground (arith, k)
  ]

  listed : (ids : Ids) (w : World E) → Stored ids (E.store.list w.data_store ids) w
  listed ids w q h = sym (E.store.list-get w.data_store ids q) ∙ h

  -- All subscriptions of a request.
  abbrev pub AllOf : (Ids → World E → Type 0) → ℕ → Dict ℕ SubscriptionConfig → World E → Type 0
  AllOf P id d w = (sid : ℕ) → member (keys d) sid ≡ true → P (id, sid) w

  module _ (delivers : (k : ℕ) (n : Notification) → E.deliver k n ≡ ok tt) where
    delivered :
        (n : Notification) (w : World E)
        → send_notification E n w
          ≡ (ok tt, record w { sent = n ∷ w.sent; attempts = suc w.attempts })
    unfolding send_notification
    delivered n w = rw (delivers w.attempts n, send_notification) refl

    send_each-runs :
        (ids : Ids) (paths : List Text) (w : World E)
        → Stored ids paths w
        → ((send_each E ids paths w).0 ≡ ok tt)
          × ((send_each E ids paths w).1.data_store ≡ w.data_store)
          × Sent ids paths w (send_each E ids paths w).1
    unfolding send_each
    send_each-runs ids [] w h = (refl, refl, λ jds q. unfold member in ground arith)
    send_each-runs ids (p ∷ paths) w h = elim (Result-cases (E.store.get w.data_store ids p)) [
      | inl (v, e) ↦
          let w' : World E = record w {
            sent = update ids p (E.dumps v.value) ∷ w.sent;
            attempts = suc w.attempts;
          } in
          let (r, s, t) =
            send_each-runs ids paths w' λ q k. h q (unfold member in ground (arith, k)) in
          unfold store_get in
          rw (e, delivered (update ids p (E.dumps v.value)) w)
            (r, s, λ jds q. t jds q ∙ one_more ids jds p q paths w v e)
      | inr (x, e) ↦
          let no : ⊥ = ground (arith, e, h p (unfold member in ground (arith, ==_refl p))) in
          elim no [ ]
    ]

    send_each-Within :
        (ids jds : Ids) (paths : List Text) (w : World E)
        → Stored ids paths w
        → Within jds w
        → Within jds (send_each E ids paths w).1
    send_each-Within ids jds paths w h k q f =
        let (r, s, t) = send_each-runs ids paths w h in
        let g = sym (ap (λ d. is_ok (E.store.get d jds q)) s) ∙ f in
        rw (t jds q) (ground (arith, g, k q))

    -- Once all stored paths of a subscription are sent, a client knows just what the store holds.
    send_each-Mirrors :
        (ids : Ids) (w : World E)
        → Within ids w
        → Mirrors E ids (send_each E ids (E.store.list w.data_store ids) w).1
    send_each-Mirrors ids w h q =
        let (r, s, t) = send_each-runs ids (E.store.list w.data_store ids) w (listed ids w) in
        rw (t ids q, s, ==_refl ids.0, ==_refl ids.1)
          (ground (arith, h q, E.store.list-get w.data_store ids q))

    -- A client that mirrors a subscription still does after other paths are sent.
    send_each-keeps :
        (ids jds : Ids) (paths : List Text) (w : World E)
        → Stored ids paths w
        → Mirrors E jds w
        → Mirrors E jds (send_each E ids paths w).1
    send_each-keeps ids jds paths w h k q =
        let (r, s, t) = send_each-runs ids paths w h in rw (t jds q, s, k q) (ground arith)

    send_current-keeps :
        (id : ℕ) (d : Dict ℕ SubscriptionConfig) (jds : Ids) (w : World E)
        → Mirrors E jds w
        → Mirrors E jds (send_current_data E id d w).1
    unfolding send_current_data
    send_current-keeps id [] jds w h = h
    send_current-keeps id ((sid, c) ∷ d) jds w h =
        let ids : Ids = (id, sid) in
        let paths = E.store.list w.data_store ids in
        let (r, s, t) = send_each-runs ids paths w (listed ids w) in
        rw r (
          send_current-keeps id d jds (send_each E ids paths w).1
            (send_each-keeps ids jds paths w (listed ids w) h))

    send_current-runs :
        (id : ℕ) (d : Dict ℕ SubscriptionConfig) (w : World E)
        → AllOf Within id d w
        → ((send_current_data E id d w).0 ≡ ok tt)
          × AllOf (Mirrors E) id d (send_current_data E id d w).1
    unfolding send_current_data member
    send_current-runs id [] w h = (refl, λ sid k. ground (arith, k))
    send_current-runs id ((i, c) ∷ d) w h =
        let ids : Ids = (id, i) in
        let paths = E.store.list w.data_store ids in
        let w' = (send_each E ids paths w).1 in
        let (r, s, t) = send_each-runs ids paths w (listed ids w) in
        let (later, mirrors) = send_current-runs id d w' λ sid k.
          send_each-Within ids (id, sid) paths w (listed ids w) (h sid (ground (arith, k))) in
        let first =
          send_current-keeps id d ids w'
            (send_each-Mirrors ids w (h i (ground (arith, ==_refl i)))) in
        rw r (
          later,
          λ sid k. elim (Bool-cases (i == sid)) [
            | inl e ↦
                subst (λ j. Mirrors E (id, j) (send_current_data E id d w').1)
                  (ground (arith, e, ==_iff i sid)) first
            | inr e ↦ mirrors sid (ground (arith, k, e))
          ],
        )

    -- Let the connector deliver every notification, let a client know of no path that the store does
    -- not have, and let reading the device succeed.
    -- Then `poll_cb` succeeds, and after it the client knows just what the store holds, for each
    -- subscription of the request.
    pub poll_cb-Mirrors :
        (s : Subscription) (w : World E)
        → AllOf Within s.id s.subscriptions w
        → (retrieve_current_data E s.id s.subscriptions w).0 ≡ ok tt
        → ((poll_cb E s w).0 ≡ ok tt) × AllOf (Mirrors E) s.id s.subscriptions (poll_cb E s w).1
    unfolding poll_cb send_sync_response
    poll_cb-Mirrors s w h r =
        let w' = (retrieve_current_data E s.id s.subscriptions w).1 in
        let (sent, mirrors) =
          send_current-runs s.id s.subscriptions w'
            λ sid k. retrieve-Within s.id s.subscriptions (s.id, sid) w (h sid k) in
        rw (r, sent, delivered (sync_response s.id) (send_current_data E s.id s.subscriptions w').1)
          (refl, λ sid k q. mirrors sid k q)

    -- Let the connector deliver every notification, let a client know of no path that the store does
    -- not have, and let reading the device succeed.
    -- Then the `start` of a request that is not `updates_only` succeeds, and after it the client knows
    -- just what the store holds, for each subscription of the request.
    pub start-Mirrors :
        (s : Subscription) (w : World E)
        → s.updates_only ≡ false
        → AllOf Within s.id s.subscriptions w
        → (retrieve_current_data E s.id s.subscriptions w).0 ≡ ok tt
        → ((start E s w).0 ≡ ok tt) × AllOf (Mirrors E) s.id s.subscriptions (start E s w).1
    unfolding start poll_cb
    start-Mirrors s w u h r = rw u (poll_cb-Mirrors s w h r)
