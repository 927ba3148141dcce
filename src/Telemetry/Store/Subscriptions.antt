-- ===== src/Telemetry/Store/Subscriptions.antt =====
-- src/system/telemetry/goldstone/system/telemetry/store.py: InMemorySubscriptionStore.
use goldstone_mgmt.Base.{
  ℕ, none, some, List, Result, ok, err, subscription_exist, subscription_not_exist, if◌then◌else◌,
  nat_eq,
}
use goldstone_mgmt.Base.Dict
use goldstone_mgmt.Base.Dict.{Dict, keys, member}
use goldstone_mgmt.Base.Exec.{Exec}

module _ {S : Type 0} where
  unfoldable pub add : ℕ → S → Exec (Dict ℕ S) (Unit {0})
  add id subscription d =
      if member (keys d) id
      then (err subscription_exist, d)
      else (ok tt, Dict.put d id subscription)

  unfoldable pub delete : ℕ → Exec (Dict ℕ S) (Unit {0})
  delete id d = elim (Dict.get d id) [
    | none ↦ (err subscription_not_exist, d)
    | some s ↦ (ok tt, Dict.remove d id)
  ]

  unfoldable pub get : Dict ℕ S → ℕ → Result S
  get d id = elim (Dict.get d id) [ none ↦ err subscription_not_exist | some s ↦ ok s ]

  unfoldable pub list : Dict ℕ S → List ℕ
  list d = keys d
