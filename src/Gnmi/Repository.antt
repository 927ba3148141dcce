-- ===== src/Gnmi/Repository.antt =====
-- The interface Repository of src/north/gnmi/goldstone/north/gnmi/repo/repo.py, which the server
-- uses, with its values.
use goldstone_mgmt.Base.{◌≡◌, Bool, Option, List, Result, ok, err, Exn}
use goldstone_mgmt.Base.Exec.{Exec}
use goldstone_mgmt.Base.Text.{Text}
use goldstone_mgmt.Telemetry.Path.Values.{Value}

-- Python's `None` is one of the scalars; `str` and `loads` are Python's `str` and `json.loads`.
-- A path is None where the server could not build one.
pub record Repository : Type 1 where
  pub Scalar : Type 0
  pub py_none : Scalar
  pub is_none : Scalar → Bool
  pub str : Value Scalar → Text
  pub loads : Text → Result (Value Scalar)
  pub State : Type 0
  pub start : Exec State (Unit {0})
  pub stop : Exec State (Unit {0})
  pub get : Text → Exec State (Value Scalar)
  pub set : Option Text → Value Scalar → Exec State (Unit {0})
  pub delete : Text → Exec State (Unit {0})
  pub apply : Exec State (Unit {0})
  pub discard : Exec State (Unit {0})
  pub get_list_keys : Option Text → Result (List Text)

-- What repo.py says of a datastore: `set` and `delete` only prepare a change, `apply` is the one
-- call that may change what others see, and not if it raises.
pub record IsTransactional (R : Repository) {V : Type 0} (view : R.State → V) : Type 0 where
  pub start_keeps : (s : R.State) → view (R.start s).1 ≡ view s
  pub stop_returns : (s : R.State) → (R.stop s).0 ≡ ok tt
  pub stop_keeps : (s : R.State) → view (R.stop s).1 ≡ view s
  pub set_keeps :
      (path : Option Text) (v : Value R.Scalar) (s : R.State) → view (R.set path v s).1 ≡ view s
  pub delete_keeps : (path : Text) (s : R.State) → view (R.delete path s).1 ≡ view s
  pub discard_keeps : (s : R.State) → view (R.discard s).1 ≡ view s
  pub apply_fails : (s : R.State) (e : Exn) → (R.apply s).0 ≡ err e → view (R.apply s).1 ≡ view s
