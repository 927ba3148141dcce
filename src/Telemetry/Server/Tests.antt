-- ===== src/Telemetry/Server/Tests.antt =====
-- The theorems about the server of src/system/telemetry/goldstone/system/telemetry/telemetry.py at a
-- store with one StreamSubscription.
use goldstone_mgmt.Base.{ℕ, ◌≡◌, refl, false, Option, some, [], ◌∷◌, ==_iff, arith, nat_eq}
use goldstone_mgmt.Base.Dict
use mathlib.Core.Path.{subst}
use goldstone_mgmt.Telemetry.Config.{Subscription}
use goldstone_mgmt.Telemetry.Config.Tests.{streaming}
use goldstone_mgmt.Telemetry.Subscription.Tests.{platform, fresh}
use goldstone_mgmt.Telemetry.Server.{
  Site, RequestHandler, TypedHandler, created_handler, deleted_handler, apply,
}
use goldstone_mgmt.Telemetry.Server.Loops.{IsOwned, apply-IsOwned}

abbrev site : Site platform
site = record { subscriptions = (7, streaming) ∷ []; world = fresh; loops = (7, 1) ∷ [] }

site-IsOwned : IsOwned platform site
unfolding Dict.get
site-IsOwned rid h = ground (arith, h, ==_iff 7 rid)

abbrev creates : RequestHandler
creates = record { noop = false; handler = created_handler 7 streaming.request (some streaming) }

abbrev deletes : RequestHandler
deletes = record { noop = false; handler = deleted_handler 7 (some streaming) }

abbrev id_of : TypedHandler → ℕ
id_of (created_handler id r s) = id
id_of (deleted_handler id s) = id

abbrev subscription_of : TypedHandler → Option Subscription
subscription_of (created_handler id r s) = s
subscription_of (deleted_handler id s) = s

abbrev IsKnown : TypedHandler → Type 0
IsKnown h = Dict.get site.subscriptions (id_of h) ≡ subscription_of h

found : Dict.get site.subscriptions 7 ≡ some streaming
unfolding Dict.get
found = refl

apply-IsOwned_example : IsOwned platform (apply platform deletes site).1
apply-IsOwned_example =
    apply-IsOwned platform deletes site site-IsOwned λ id s e. subst IsKnown e found
