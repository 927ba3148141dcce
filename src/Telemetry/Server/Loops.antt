-- ===== src/Telemetry/Server/Loops.antt =====
-- The loop tasks of src/system/telemetry/goldstone/system/telemetry/telemetry.py: each belongs to a
-- subscription that the store has.
use goldstone_mgmt.Base.{
  ℕ, ◌≡◌, ◌⊎◌, inl, inr, refl, Bool, true, false, ◌||◌, Option, none, some, List, [], ◌∷◌, ◌++◌, ok,
  if◌then◌else◌, ◌==◌, nat_eq, ==_iff, ==_refl, arith, Bool-cases, ◌≢◌, ◌∙◌, Option-cases,
  returns-cases, string_eq,
}
use goldstone_mgmt.Base.Dict
use goldstone_mgmt.Base.Dict.{Dict, get-put, get-remove, member, member-keys, keys}
use mathlib.Core.Path.{subst}
use goldstone_mgmt.Base.Exec.{Exec}
use goldstone_mgmt.Base.Triple.{Triple}
use goldstone_mgmt.Telemetry.Store.{Ids}
use goldstone_mgmt.Telemetry.Store.Subscriptions
use goldstone_mgmt.Telemetry.Config.{
  SubscriptionConfig, Request, Kind, stream, once, poll, Subscription,
}
use goldstone_mgmt.Telemetry.Subscription.{Platform, World, start}
use goldstone_mgmt.Telemetry.Server.{
  stream_loops, cancel_loops, Site, on_world, on_store, start_loops, start_subscription,
  stop_subscription, register, unregister, TypedHandler, created_handler, deleted_handler,
  RequestHandler, apply_typed, revert_typed, apply, revert, stop_each, stop,
}

-- Some loop of a request is alive.
abbrev pub has_loop : List Ids → ℕ → Bool
has_loop [] rid = false
has_loop (ids ∷ loops) rid = ids.0 == rid || has_loop loops rid

abbrev pub is_stream : Option Subscription → Bool
is_stream none = false
is_stream (some s) = elim s.kind [ stream ↦ true | _ ↦ false ]

has_loop-cancel :
    (rid q : ℕ) (loops : List Ids)
    → has_loop (cancel_loops rid loops) q ≡ (if rid == q then false else has_loop loops q)
unfolding cancel_loops
has_loop-cancel rid q [] = ground arith
has_loop-cancel rid q ((r, i) ∷ loops) =
    ground (arith, has_loop-cancel rid q loops, ==_iff r rid, ==_iff r q, ==_iff rid q)

has_loop-stream :
    (rid q : ℕ) (d : Dict ℕ SubscriptionConfig) (loops : List Ids)
    → has_loop (stream_loops rid d ++ loops) q ≡ true
    → (rid ≡ q) ⊎ (has_loop loops q ≡ true)
unfolding stream_loops
has_loop-stream rid q [] loops h = inr h
has_loop-stream rid q ((sid, c) ∷ d) loops h = elim (Option-cases c.mode) [
  | inl e ↦ has_loop-stream rid q d loops (rw e at h)
  | inr (m, e) ↦ elim (Bool-cases (m == "ON_CHANGE" || m == "SAMPLE")) [
    | inr k ↦ has_loop-stream rid q d loops (rw (e, k) at h)
    | inl k ↦ elim (Bool-cases (rid == q)) [
      | inl same ↦ inl (ground (arith, same, ==_iff rid q))
      | inr other ↦ has_loop-stream rid q d loops (rw other at (rw (e, k) at h))
    ]
  ]
]

module _ (E : Platform) where
  -- Each live loop belongs to a StreamSubscription in the store.
  abbrev pub IsOwned : Site E → Type 0
  IsOwned t =
      (rid : ℕ) → has_loop t.loops rid ≡ true → is_stream (Dict.get t.subscriptions rid) ≡ true

  abbrev pub KeepsOwned : {A : Type 0} → Exec (Site E) A → Type 0
  KeepsOwned m = Triple IsOwned m (λ a t. IsOwned t) IsOwned

  start_loops-IsOwned :
      (k : Kind) (rid : ℕ) (d : Dict ℕ SubscriptionConfig) (t : Site E)
      → IsOwned t
      → (k ≡ stream → is_stream (Dict.get t.subscriptions rid) ≡ true)
      → IsOwned (start_loops E k rid d t).1
  unfolding start_loops
  start_loops-IsOwned stream rid d t h new q k = elim (has_loop-stream rid q d t.loops k) [
    | inl same ↦ subst (λ x. is_stream (Dict.get t.subscriptions x) ≡ true) same (new refl)
    | inr old ↦ h q old
  ]
  start_loops-IsOwned once rid d t h new q k = h q k
  start_loops-IsOwned poll rid d t h new q k = h q k

  -- A new subscription at an unused id does not take over a loop.
  put-IsOwned :
      (t : Site E) (w : World E) (rid : ℕ) (s : Subscription)
      → IsOwned t
      → member (keys t.subscriptions) rid ≡ false
      → IsOwned (record t { subscriptions = Dict.put t.subscriptions rid s; world = w })
  put-IsOwned t w rid s h new q k = ground (
    arith,
    h q k,
    new,
    get-put t.subscriptions rid q s,
    member-keys t.subscriptions rid,
    ==_iff rid q,
  )

  kind-is_stream :
      (s : Subscription) (d : Dict ℕ Subscription) (rid : ℕ)
      → s.kind ≡ stream
      → is_stream (Dict.get (Dict.put d rid s) rid) ≡ true
  kind-is_stream s d rid e = rw (get-put d rid rid s, ==_refl rid) (rw e refl)

  register-IsOwned :
      (rid : ℕ) (s : Subscription) (t : Site E) → IsOwned t → IsOwned (register E rid (some s) t).1
  unfolding register on_store start_subscription on_world Subscriptions.add
  register-IsOwned rid s t h = elim (Bool-cases (member (keys t.subscriptions) rid)) [
    | inl e ↦ rw e h
    | inr e ↦ rw e (elim (returns-cases (start E s t.world).0) [
      | inl k ↦ rw k (
          start_loops-IsOwned s.kind rid s.subscriptions
            (record t {
              subscriptions = Dict.put t.subscriptions rid s;
              world = (start E s t.world).1;
            })
            (put-IsOwned t (start E s t.world).1 rid s h e) (kind-is_stream s t.subscriptions rid))
      | inr (x, k) ↦ rw k (put-IsOwned t (start E s t.world).1 rid s h e)
    ])
  ]

  -- What `stop` of a subscription leaves, where its kind is that of the live loops.
  stopped-loops :
      (k : Kind) (t : Site E) (rid q : ℕ)
      → (has_loop t.loops rid ≡ true → k ≡ stream)
      → has_loop (stop_subscription E k rid t).1.loops q
        ≡ (if rid == q then false else has_loop t.loops q)
  unfolding stop_subscription
  stopped-loops stream t rid q h = has_loop-cancel rid q t.loops
  stopped-loops once t rid q h = ground (arith, h, ==_iff rid q)
  stopped-loops poll t rid q h = ground (arith, h, ==_iff rid q)

  stopped-rest :
      (k : Kind) (t : Site E) (rid : ℕ)
      → stop_subscription E k rid t
        ≡ (ok tt, record t { loops = (stop_subscription E k rid t).1.loops })
  unfolding stop_subscription
  stopped-rest stream t rid = refl
  stopped-rest once t rid = refl
  stopped-rest poll t rid = refl

  is_stream-kind : (s : Subscription) → is_stream (some s) ≡ true → s.kind ≡ stream
  is_stream-kind s h = ground (arith, h)

  owner-kind :
      (t : Site E) (rid : ℕ) (s : Subscription)
      → IsOwned t
      → Dict.get t.subscriptions rid ≡ some s
      → has_loop t.loops rid ≡ true
      → s.kind ≡ stream
  owner-kind t rid s h e k = let owned = h rid k in is_stream-kind s (rw e at owned)

  -- Deleting a subscription that is in the store leaves no loop without an owner.
  unregister-IsOwned :
      (rid : ℕ) (s : Subscription) (t : Site E)
      → IsOwned t
      → Dict.get t.subscriptions rid ≡ some s
      → IsOwned (unregister E rid (some s) t).1
  unfolding unregister on_store Subscriptions.delete
  unregister-IsOwned rid s t h e =
      rw (stopped-rest s.kind t rid, e, Subscriptions.delete)
        (λ q k. ground (
          arith,
          k,
          h q,
          stopped-loops s.kind t rid q (owner-kind t rid s h e),
          get-remove t.subscriptions rid q,
          ==_iff rid q,
        ))

  stop_each-loops :
      (rids : List ℕ) (t : Site E)
      → IsOwned t
      → ((q : ℕ) → member rids q ≡ true → Dict.get t.subscriptions q ≢ none)
      → ((stop_each E rids t).0 ≡ ok tt)
        × ((q : ℕ)
            → has_loop (stop_each E rids t).1.loops q
              ≡ (if member rids q then false else has_loop t.loops q))
  unfolding stop_each member Subscriptions.get
  stop_each-loops [] t h known = (refl, λ q. refl)
  stop_each-loops (rid ∷ rids) t h known = elim (Option-cases (Dict.get t.subscriptions rid)) [
    | inl e ↦ absurd (known rid (ground (arith, ==_refl rid)) e)
    | inr (s, e) ↦
        let kind = owner-kind t rid s h e in
        let t' : Site E = record t { loops = (stop_subscription E s.kind rid t).1.loops } in
        let (r, l) =
          stop_each-loops rids t' (λ q k. ground (arith, k, h q, stopped-loops s.kind t rid q kind))
            (λ q k. known q (ground (arith, k))) in
        rw (e, Subscriptions.get, stopped-rest s.kind t rid)
          (r, λ q. l q ∙ ground (arith, stopped-loops s.kind t rid q kind))
  ]

  -- Let each live loop belong to a StreamSubscription in the store. Then `stop` of the server
  -- succeeds, and no loop is alive after it.
  pub stop-loops :
      (t : Site E)
      → IsOwned t
      → ((stop E t).0 ≡ ok tt) × ((q : ℕ) → has_loop (stop E t).1.loops q ≡ false)
  unfolding stop Subscriptions.list
  stop-loops t h =
      let (r, l) =
        stop_each-loops (keys t.subscriptions) t h λ q. (member-keys t.subscriptions q).0 in
      (r, λ q. l q ∙ ground (arith, h q, member-keys t.subscriptions q))

  applied :
      (h : TypedHandler) (t : Site E)
      → IsOwned t
      → ((id : ℕ) (s : Subscription)
          → h ≡ deleted_handler id (some s)
          → Dict.get t.subscriptions id ≡ some s)
      → IsOwned (apply_typed E h t).1
  unfolding apply_typed register unregister
  applied (created_handler id r none) t owned known = owned
  applied (created_handler id r (some s)) t owned known = register-IsOwned id s t owned
  applied (deleted_handler id none) t owned known = owned
  applied (deleted_handler id (some s)) t owned known =
      unregister-IsOwned id s t owned (known id s refl)

  reverted :
      (h : TypedHandler) (t : Site E)
      → IsOwned t
      → ((id : ℕ) (r : Request) (s : Subscription)
          → h ≡ created_handler id r (some s)
          → Dict.get t.subscriptions id ≡ some s)
      → IsOwned (revert_typed E h t).1
  unfolding revert_typed register unregister
  reverted (created_handler id r none) t owned known = owned
  reverted (created_handler id r (some s)) t owned known =
      unregister-IsOwned id s t owned (known id r s refl)
  reverted (deleted_handler id none) t owned known = owned
  reverted (deleted_handler id (some s)) t owned known = register-IsOwned id s t owned

  -- Let each live loop belong to a StreamSubscription in the store, and let the subscription of a
  -- handler for a deletion be the one that the store has. Then `apply` leaves no live loop without a
  -- StreamSubscription in the store, also where it raises.
  pub apply-IsOwned :
      (h : RequestHandler) (t : Site E)
      → IsOwned t
      → ((id : ℕ) (s : Subscription)
          → h.handler ≡ deleted_handler id (some s)
          → Dict.get t.subscriptions id ≡ some s)
      → IsOwned (apply E h t).1
  unfolding apply
  apply-IsOwned h t owned known = elim (Bool-cases h.noop) [
    | inl e ↦ rw e owned
    | inr e ↦ rw e (applied h.handler t owned known)
  ]

  -- Let each live loop belong to a StreamSubscription in the store, and let the subscription of a
  -- handler for a creation be the one that the store has. Then `revert` leaves no live loop without a
  -- StreamSubscription in the store, also where it raises.
  pub revert-IsOwned :
      (h : RequestHandler) (t : Site E)
      → IsOwned t
      → ((id : ℕ) (r : Request) (s : Subscription)
          → h.handler ≡ created_handler id r (some s)
          → Dict.get t.subscriptions id ≡ some s)
      → IsOwned (revert E h t).1
  unfolding revert
  revert-IsOwned h t owned known = elim (Bool-cases h.noop) [
    | inl e ↦ rw e owned
    | inr e ↦ rw e (reverted h.handler t owned known)
  ]
