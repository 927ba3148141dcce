-- ===== src/Telemetry/Store/Sub.antt =====
-- A dictionary of dictionaries, read with an empty dictionary for a missing key.
use goldstone_mgmt.Base.{ℕ, ◌≡◌, Option, none, some, List, [], if◌then◌else◌, ◌==◌, nat_eq, arith}
use goldstone_mgmt.Base.Dict
use goldstone_mgmt.Base.Dict.{Dict, get-put, get-remove}

abbrev pub or_empty : {W : Type 0} → Option (List W) → List W
or_empty none = []
or_empty (some l) = l

module _ {W : Type 0} where
  -- d[k], where the program has seen to it that `k` is in `d` or reads no more than its absence
  unfoldable pub sub : Dict ℕ (List W) → ℕ → List W
  sub d k = or_empty (Dict.get d k)

  pub sub-put :
      (d : Dict ℕ (List W)) (k j : ℕ) (x : List W)
      → sub (Dict.put d k x) j ≡ (if k == j then x else sub d j)
  unfolding sub
  sub-put d k j x = ground (arith, get-put d k j x)

  pub sub-remove :
      (d : Dict ℕ (List W)) (k j : ℕ) → sub (Dict.remove d k) j ≡ (if k == j then [] else sub d j)
  unfolding sub
  sub-remove d k j = ground (arith, get-remove d k j)
