-- ===== src/Telemetry/Store/Interface.antt =====
-- The interface TelemetryStore of src/system/telemetry/goldstone/system/telemetry/store.py, with the
-- laws that its documentation states, and the implementation in memory.
use goldstone_mgmt.Base.{
  ℕ, ◌≡◌, refl, Bool, true, false, List, [], Result, ok, err, telemetry_not_exist, if◌then◌else◌,
  arith, text_eq,
}
use goldstone_mgmt.Base.Dict
use goldstone_mgmt.Base.Dict.{member}
use goldstone_mgmt.Base.Exec.{Exec}
use goldstone_mgmt.Base.Text.{Text}
use goldstone_mgmt.Telemetry.Store
use goldstone_mgmt.Telemetry.Store.{Ids, Entry, same_key, find, or_not_exist}
use goldstone_mgmt.Telemetry.Store.Laws.{find-set, find-delete, delete-raises, member-list}

abbrev pub is_ok : {A : Type 0} → Result A → Bool
is_ok (ok a) = true
is_ok (err e) = false

-- The result of `delete`, by what `get` finds.
abbrev pub deleted_of : {A : Type 0} → Result A → Result (Unit {0})
deleted_of (ok a) = ok tt
deleted_of (err e) = err telemetry_not_exist

pub record TelemetryStore (V : Type 0) : Type 1 where
  pub State : Type 0
  pub set : State → Ids → Text → V → ℕ → State
  pub delete : Ids → Text → Exec State (Unit {0})
  pub get : State → Ids → Text → Result (Entry V)
  pub list : State → Ids → List Text
  pub get-set :
      (s : State) (ids jds : Ids) (p q : Text) (v : V) (now : ℕ)
      → get (set s ids p v now) jds q ≡ (
          if same_key ids p jds q
          then ok (record { value = v; update_time = now })
          else get s jds q)
  pub get-delete :
      (s : State) (ids jds : Ids) (p q : Text)
      → get (delete ids p s).1 jds q
        ≡ (if same_key ids p jds q then err telemetry_not_exist else get s jds q)
  pub delete-get :
      (s : State) (ids : Ids) (p : Text) → (delete ids p s).0 ≡ deleted_of (get s ids p)
  pub list-get : (s : State) (ids : Ids) (p : Text) → member (list s ids) p ≡ is_ok (get s ids p)

module _ {V : Type 0} where
  pub get-set :
      (s : Store.Store V) (ids jds : Ids) (p q : Text) (v : V) (now : ℕ)
      → Store.get (Store.set s ids p v now) jds q ≡ (
          if same_key ids p jds q
          then ok (record { value = v; update_time = now })
          else Store.get s jds q)
  unfolding Store.get or_not_exist
  get-set s ids jds p q v now = rw (find-set s ids jds p q v now) (ground arith)

  pub get-delete :
      (s : Store.Store V) (ids jds : Ids) (p q : Text)
      → Store.get (Store.delete ids p s).1 jds q
        ≡ (if same_key ids p jds q then err telemetry_not_exist else Store.get s jds q)
  unfolding Store.get or_not_exist
  get-delete s ids jds p q = rw (find-delete s ids jds p q) (ground arith)

  pub delete-get :
      (s : Store.Store V) (ids : Ids) (p : Text)
      → (Store.delete ids p s).0 ≡ deleted_of (Store.get s ids p)
  unfolding Store.get or_not_exist
  delete-get s ids p = rw (delete-raises s ids p) (ground arith)

  pub list-get :
      (s : Store.Store V) (ids : Ids) (p : Text)
      → member (Store.list s ids) p ≡ is_ok (Store.get s ids p)
  unfolding Store.get or_not_exist
  list-get s ids p = ground (arith, member-list s ids p)

-- InMemoryTelemetryStore keeps the laws.
abbrev pub in_memory : (V : Type 0) → TelemetryStore V
in_memory V = record {
  State = Store.Store V;
  set = Store.set;
  delete = Store.delete;
  get = Store.get;
  list = Store.list;
  get-set = get-set;
  get-delete = get-delete;
  delete-get = delete-get;
  list-get = list-get;
}

pub get-empty :
    (V : Type 0) (ids : Ids) (p : Text) → Store.get {V = V} [] ids p ≡ err telemetry_not_exist
unfolding Store.get or_not_exist find Dict.get
get-empty V ids p = refl
