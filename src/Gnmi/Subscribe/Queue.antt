-- ===== src/Gnmi/Subscribe/Queue.antt =====
-- The notifications of a SubscribeRequest of src/north/gnmi/goldstone/north/gnmi/server.py are a
-- queue.
use goldstone_mgmt.Base.{
  ℕ, zero, suc, ◌≡◌, refl, inl, inr, none, some, List, [], ◌∷◌, ◌++◌, length, Option-cases, sym,
  ◌<◌, arith,
}
use goldstone_mgmt.Base.Text.{Text}
use goldstone_mgmt.Core.Handlers.{XpathStep}
use goldstone_mgmt.Gnmi.Subscribe.{
  NotifyEvent, SubscribeResponse, response_of, push_notif, pop, pull_notifs,
}

-- A queue holds the responses in the order of their arrival, the oldest one last.
abbrev pub queue_of : List SubscribeResponse → List SubscribeResponse
queue_of [] = []
queue_of (r ∷ rs) = queue_of rs ++ r ∷ []

pop-end : (q : List SubscribeResponse) (r : SubscribeResponse) → pop (q ++ r ∷ []) ≡ some (r, q)
unfolding pop
pop-end [] r = refl
pop-end (x ∷ q) r = rw (pop-end q r) refl

queue_of-end :
    (rs : List SubscribeResponse) (r : SubscribeResponse)
    → queue_of (rs ++ r ∷ []) ≡ r ∷ queue_of rs
queue_of-end [] r = refl
queue_of-end (x ∷ rs) r = rw (queue_of-end rs r) refl

pull-queue :
    (n : ℕ) (rs : List SubscribeResponse) → length rs < n → pull_notifs n (queue_of rs) ≡ (rs, [])
unfolding pull_notifs pop
pull-queue zero rs h = absurd (omega (arith, h))
pull-queue (suc n) [] h = refl
pull-queue (suc n) (r ∷ rs) h =
    rw (pop-end (queue_of rs) r, pull_notifs, pull-queue n rs (omega (arith, h))) refl

append-nil : (rs : List SubscribeResponse) → rs ++ [] ≡ rs
append-nil [] = refl
append-nil (r ∷ rs) = rw (append-nil rs) refl

append-one :
    (rs qs : List SubscribeResponse) (r : SubscribeResponse) → (rs ++ r ∷ []) ++ qs ≡ rs ++ r ∷ qs
append-one [] qs r = refl
append-one (x ∷ rs) qs r = rw (append-one rs qs r) refl

module _ (xpath_split : Text → List XpathStep) where
  -- The responses of some events, the other events left out.
  abbrev pub responses : List NotifyEvent → List SubscribeResponse
  responses [] = []
  responses (e ∷ es) = elim (response_of xpath_split e) [
    | none ↦ responses es
    | some r ↦ r ∷ responses es
  ]

  abbrev pub push_all : List NotifyEvent → List SubscribeResponse → List SubscribeResponse
  push_all [] q = q
  push_all (e ∷ es) q = push_all es (push_notif xpath_split e q)

  push_all-queue :
      (es : List NotifyEvent) (rs : List SubscribeResponse)
      → push_all es (queue_of rs) ≡ queue_of (rs ++ responses es)
  unfolding push_notif
  push_all-queue [] rs = rw (append-nil rs) refl
  push_all-queue (e ∷ es) rs = elim (Option-cases (response_of xpath_split e)) [
    | inl k ↦ rw (k, responses, push_all, push_notif) (push_all-queue es rs)
    | inr (r, k) ↦
        rw
          (
            k,
            responses,
            push_all,
            push_notif,
            sym (queue_of-end rs r),
            sym (append-one rs (responses es) r),
          )
          (push_all-queue es (rs ++ r ∷ []))
  ]

  -- Let a queue hold some responses. Then after the pushes of any events, pulling with more calls
  -- of `pop` than there are responses yields the earlier responses and then those of the events, in
  -- the order of their arrival and each once, and leaves the queue empty.
  pub pull_notifs-fifo :
      (es : List NotifyEvent) (rs : List SubscribeResponse) (n : ℕ)
      → length (rs ++ responses es) < n
      → pull_notifs n (push_all es (queue_of rs)) ≡ (rs ++ responses es, [])
  pull_notifs-fifo es rs n h = rw (push_all-queue es rs) (pull-queue n (rs ++ responses es) h)
