-- ===== src/Base/Dict.antt =====
-- Python's `dict` as a list of entries in the order of insertion.
use mathlib.Core.Path.{◌≡◌, refl}
use mathlib.Core.Logic.{◌≢◌, ◌↔◌}
use mathlib.Core.Bool.{Bool, true, false}
use mathlib.Core.Option.{Option, none, some}
use mathlib.Core.List.{List, [], ◌∷◌}
use native.Mathlib.Omega.{arith}
use goldstone_mgmt.Base.Tests.{◌==◌, Eq, ==_iff, ==_refl, if◌then◌else◌, Bool-cases}

abbrev pub Dict {ℓ κ} : Type ℓ → Type κ → Type (ℓ ⊔ κ)
Dict K V = List (K × V)

module _ {ℓ κ} {K : Type ℓ} {V : Type κ} where
  -- d.keys(), in the order of iteration
  abbrev pub keys : Dict K V → List K
  keys [] = []
  keys ((k, v) ∷ d) = k ∷ keys d

-- k in l
unfoldable pub member {ℓ} : {K : Type ℓ} ⦃e : Eq K⦄ → List K → K → Bool
member [] k = false
member (j ∷ js) k = if j == k then true else member js k

module _ {ℓ κ} {K : Type ℓ} {V : Type κ} ⦃e : Eq K⦄ where
  -- d.get(k)
  unfoldable pub get : Dict K V → K → Option V
  get [] k = none
  get ((j, v) ∷ d) k = if j == k then some v else get d k

  -- d[k] = v: a present key keeps its place, a new one goes to the end
  unfoldable pub put : Dict K V → K → V → Dict K V
  put [] k v = (k, v) ∷ []
  put ((j, w) ∷ d) k v = if j == k then (j, v) ∷ d else (j, w) ∷ put d k v

  -- del d[k] for a present key
  unfoldable pub remove : Dict K V → K → Dict K V
  remove [] k = []
  remove ((j, w) ∷ d) k = let rest = remove d k in if j == k then rest else (j, w) ∷ rest

  pub get-put :
      (d : Dict K V) (k j : K) (v : V) → get (put d k v) j ≡ (if k == j then some v else get d j)
  unfolding get put
  get-put [] k j v = refl
  get-put ((i, w) ∷ d) k j v = ground (arith, ==_iff i k, ==_iff i j, ==_iff k j, get-put d k j v)

  pub get-remove :
      (d : Dict K V) (k j : K) → get (remove d k) j ≡ (if k == j then none else get d j)
  unfolding get remove
  get-remove [] k j = ground arith
  get-remove ((i, w) ∷ d) k j = ground (arith, ==_iff i k, ==_iff i j, ==_iff k j, get-remove d k j)

  -- A key is listed exactly when a lookup finds it.
  pub member-keys : (d : Dict K V) (k : K) → (member (keys d) k ≡ true) ↔ (get d k ≢ none)
  unfolding get member
  member-keys [] k = ground arith
  member-keys ((i, w) ∷ d) k = ground (arith, member-keys d k)

pub ruleset dict_laws = (get-put, get-remove, ==_refl)
