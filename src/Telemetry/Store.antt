-- ===== src/Telemetry/Store.antt =====
-- src/system/telemetry/goldstone/system/telemetry/store.py: the two datastores in memory.
pub mod Sub
pub mod Laws
pub mod Interface
pub mod Subscriptions
pub mod Tests
use goldstone_mgmt.Base.{
  ℕ, ◌≡◌, Bool, true, false, ◌&&◌, ◌↔◌, Option, none, some, List, [], ◌∷◌, Result, ok, err,
  telemetry_not_exist, key_error, if◌then◌else◌, ◌==◌, nat_eq, text_eq, leb, length,
}
use goldstone_mgmt.Base.Dict
use goldstone_mgmt.Base.Dict.{Dict, keys, member}
use goldstone_mgmt.Base.Exec.{Exec, pure, ◌>>=◌, ◌>>◌}
use goldstone_mgmt.Base.Text.{Text}
use Sub.{sub}

-- The ids of a request and of one of its subscriptions.
abbrev pub Ids : Type 0
Ids = ℕ × ℕ

-- {"value": value, "update-time": datetime.now()}
pub record Entry (V : Type 0) : Type 0 where
  pub value : V
  pub update_time : ℕ

-- InMemoryTelemetryStore._data
abbrev pub Store : Type 0 → Type 0
Store V = Dict ℕ (Dict ℕ (Dict Text (Entry V)))

-- `except KeyError`
pub not_exist : Result (Unit {0}) → Result (Unit {0})
not_exist (err key_error) = err telemetry_not_exist
not_exist r = r

module _ {W : Type 0} where
  -- if k not in d.keys(): d[k] = {}
  pub ensure : Dict ℕ (List W) → ℕ → Dict ℕ (List W)
  ensure d k = if member (keys d) k then d else Dict.put d k []

module _ {V : Type 0} where
  pub set : Store V → Ids → Text → V → ℕ → Store V
  unfolding ensure
  set d ids path value now =
      let (outer_id, inner_id) = ids in
      let d = ensure d outer_id in
      let outer = ensure (sub d outer_id) inner_id in
      let inner =
        Dict.put (sub outer inner_id) path (record { value = value; update_time = now }) in
      Dict.put d outer_id (Dict.put outer inner_id inner)

  -- `_data[outer_id][inner_id][path]`, None for a KeyError
  pub find : Store V → Ids → Text → Option (Entry V)
  find d ids path = elim (Dict.get d ids.0) [
    | none ↦ none
    | some outer ↦ elim (Dict.get outer ids.1) [ none ↦ none | some inner ↦ Dict.get inner path ]
  ]

  pub or_not_exist : Option (Entry V) → Result (Entry V)
  or_not_exist none = err telemetry_not_exist
  or_not_exist (some e) = ok e

  pub get : Store V → Ids → Text → Result (Entry V)
  get d ids path = or_not_exist (find d ids path)

  -- del self._data[outer_id][inner_id][path]
  pub delete_path : Ids → Text → Exec (Store V) (Unit {0})
  delete_path ids path d = elim (Dict.get d ids.0) [
    | none ↦ (err key_error, d)
    | some outer ↦ elim (Dict.get outer ids.1) [
      | none ↦ (err key_error, d)
      | some inner ↦ elim (Dict.get inner path) [
        | none ↦ (err key_error, d)
        | some e ↦ (ok tt, Dict.put d ids.0 (Dict.put outer ids.1 (Dict.remove inner path)))
      ]
    ]
  ]

  -- `del self._data[outer_id][inner_id]` where it is empty
  pub prune_inner : Ids → Exec (Store V) (Unit {0})
  prune_inner ids d = elim (Dict.get d ids.0) [
    | none ↦ (err key_error, d)
    | some outer ↦ elim (Dict.get outer ids.1) [
      | none ↦ (err key_error, d)
      | some inner ↦
          (ok tt, if leb (length inner) 0 then Dict.put d ids.0 (Dict.remove outer ids.1) else d)
    ]
  ]

  -- `del self._data[outer_id]` where it is empty
  pub prune_outer : ℕ → Exec (Store V) (Unit {0})
  prune_outer outer_id d = elim (Dict.get d outer_id) [
    | none ↦ (err key_error, d)
    | some outer ↦ (ok tt, if leb (length outer) 0 then Dict.remove d outer_id else d)
  ]

  pub delete_steps : Ids → Text → Exec (Store V) (Unit {0})
  unfolding delete_path prune_inner prune_outer
  delete_steps ids path = do delete_path ids path; prune_inner ids; prune_outer ids.0

  pub delete : Ids → Text → Exec (Store V) (Unit {0})
  unfolding delete_steps not_exist
  delete ids path d = let (r, d') = delete_steps ids path d in (not_exist r, d')

  pub list : Store V → Ids → List Text
  list d ids = elim (Dict.get d ids.0) [
    | none ↦ []
    | some outer ↦ elim (Dict.get outer ids.1) [ none ↦ [] | some inner ↦ keys inner ]
  ]

-- Two keys of the store are the same.
abbrev pub same_key : Ids → Text → Ids → Text → Bool
same_key ids p jds q = ids.0 == jds.0 && (ids.1 == jds.1 && p == q)
