-- ===== src/Telemetry/Subscription/Tests.antt =====
-- The theorems about the subscriptions of
-- src/system/telemetry/goldstone/system/telemetry/telemetry.py at a request for one leaf.
use goldstone_mgmt.Base.{
  ℕ, ◌≡◌, refl, Bool, false, Option, none, some, List, [], ◌∷◌, Result, ok, err, other, ◌==◌,
  nat_eq,
}
use goldstone_mgmt.Base.Text.{Text}
use goldstone_mgmt.Telemetry.Path.Values.{Value, scalar, Fields}
use goldstone_mgmt.Telemetry.Path.Tests.{model, str, tree, parsed_leaf}
use goldstone_mgmt.Telemetry.Store.Interface.{in_memory, get-empty}
use goldstone_mgmt.Telemetry.Config.{number}
use goldstone_mgmt.Telemetry.Config.Tests.{chosen, streaming}
use goldstone_mgmt.Telemetry.Subscription.{
  Platform, World, start, retrieve_current_data, get_data, parse_found, store_each, store_set, now,
}
use goldstone_mgmt.Telemetry.Subscription.Mirror.{Mirrors, rounds, rounds-Mirrors}
use goldstone_mgmt.Telemetry.Subscription.Start.{AllOf, start-Mirrors}

abbrev pub same : Value ℕ → Value ℕ → Bool
same (scalar m) (scalar n) = m == n
same _ _ = false

abbrev pub platform : Platform
platform = record {
  Scalar = ℕ;
  schema = model;
  store = in_memory (Value ℕ);
  same = same;
  dumps = str;
  clock = λ n. n;
  deliver = λ k n. ok tt;
  set_order = λ paths. paths;
}

abbrev pub device : Text → Result (Option (Fields ℕ))
device p = ok (some tree)

abbrev pub fresh : World platform
fresh = record { operational = device; data_store = []; sent = []; readings = 0; attempts = 0 }

-- The device has the leaf, cannot be read, and has no data.
abbrev devices : List (Text → Result (Option (Fields ℕ)))
devices = device ∷ (λ p. err (other 0)) ∷ (λ p. ok none) ∷ []

fresh-Mirrors : Mirrors platform (7, 1) fresh
fresh-Mirrors q = rw (get-empty (Value ℕ) (7, 1) q) refl

rounds-Mirrors_example : Mirrors platform (7, 1) (rounds platform 7 chosen devices fresh)
rounds-Mirrors_example =
    rounds-Mirrors platform (λ k n. refl) 7 chosen devices (7, 1) fresh fresh-Mirrors

retrieved : (retrieve_current_data platform 7 streaming.subscriptions fresh).0 ≡ ok tt
unfolding retrieve_current_data get_data parse_found store_each store_set now number
retrieved = rw parsed_leaf refl

start-Mirrors_example :
    ((start platform streaming fresh).0 ≡ ok tt)
    × AllOf platform (Mirrors platform) 7 streaming.subscriptions (start platform streaming fresh).1
start-Mirrors_example =
    start-Mirrors platform (λ k n. refl) streaming fresh refl (λ sid k q h. refl) retrieved
