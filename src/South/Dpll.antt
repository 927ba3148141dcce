-- ===== src/South/Dpll.antt =====
-- The DPLL server: src/south/dpll/goldstone/south/dpll/dpll.py. Values stand for their `str`.
pub mod Reference
pub mod Server
pub mod Range
pub mod Values
pub mod State
use goldstone_mgmt.Base.{
  ℕ, Bool, true, false, not, ◌&&◌, ◌||◌, Option, none, some, List, [], ◌∷◌, ◌++◌, Result, ok, err,
  Exn, inval_arg_error, index_error, attribute_error, assertion_error, name_error, tai_exception,
  if◌then◌else◌, ◌==◌, nat_eq, text_eq,
}
use goldstone_mgmt.Base.Dict
use goldstone_mgmt.Base.Dict.{Dict, member}
use goldstone_mgmt.Base.Exec.{Exec, pure, raise, lift, ◌>>=◌, ◌>>◌}
use goldstone_mgmt.Base.Text.{Text, codes, split, join, int, show}
use goldstone_mgmt.Core.{ChangeType, Change, deleted, is_deleted}
use goldstone_mgmt.Core.Handlers.{XpathStep, name_key, has_prefix}
use Reference.{replace_at}

-- taish's attribute capability; a text is "" where there is none
pub record Capability : Type 0 where
  pub default_value : Text
  pub min : Text
  pub max : Text
  pub supportedvalues : List Text

-- taish, `float(a) < float(b)` and `float(a)`
pub record Taish : Type 1 where
  pub State : Type 0
  pub list : Exec State (List Text)
  pub get_module : Text → Exec State (Unit {0})
  pub get_attribute_capability : Text → Text → Exec State Capability
  pub get : Text → Text → Exec State Text
  pub get_multiple : Text → List Text → Exec State (List Text)
  pub set_multiple : Text → List (Text × Text) → Exec State (Unit {0})
  pub less : Text → Text → Result Bool
  pub float : Text → Result Text

-- the handler classes of DPLLServer.handlers
pub data DpllClass : Type 0 where
  mode phase_slope_limit loop_bandwidth priority : DpllClass

-- `_init` of the subclasses
abbrev pub tai_attr_names : DpllClass → List Text
tai_attr_names mode = codes "dpll-mode" ∷ []
tai_attr_names phase_slope_limit = codes "phase-slope-limit" ∷ []
tai_attr_names loop_bandwidth = codes "loop-bandwidth" ∷ []
tai_attr_names priority = codes "input-reference-priority" ∷ []

pub to_tai_value : DpllClass → Text → Text
to_tai_value phase_slope_limit v = if v == codes "unlimitted" then codes "0" else v
to_tai_value _ v = v

-- DPLLServer.get_default
pub get_default : Text → Option Text
get_default leaf = if leaf == codes "mode" then some (codes "freerun") else none

-- The attributes of a handler object.
pub record Attributes : Type 0 where
  pub handler_class : DpllClass
  pub change : Change Text
  pub xpath : List XpathStep
  pub module_name : Text
  pub ref_name : ℕ
  pub value : List Text
  pub original_value : Option (List Text)

-- the assertions of DPLLChangeHandler._init, and `xpath[1][2][0][1]`
pub module_name_of : List XpathStep → Result Text
module_name_of [] = err index_error
module_name_of (x ∷ []) =
    if has_prefix x (codes "goldstone-dpll") && x.name == codes "dplls"
    then err index_error
    else err assertion_error
module_name_of (x ∷ y ∷ xs) =
    if has_prefix x (codes "goldstone-dpll") && (x.name == codes "dplls" && y.name == codes "dpll")
    then name_key y.list_keys
    else err assertion_error

-- PriorityChangeHandler._init: int(xpath[3][2][0][1])
pub ref_name_of : List XpathStep → Result ℕ
ref_name_of (x ∷ y ∷ z ∷ r ∷ xs) = elim (name_key r.list_keys) [ err e ↦ err e | ok n ↦ int n ]
ref_name_of _ = err index_error

-- the last step's name
pub leaf_of : List XpathStep → Result Text
leaf_of [] = err index_error
leaf_of (x ∷ []) = ok x.name
leaf_of (x ∷ y ∷ xs) = leaf_of (y ∷ xs)

module _ (T : Taish) where
  -- The handler objects by address, what is in the request's `user`, and the device.
  pub record World : Type 0 where
    pub objects : Dict ℕ Attributes
    pub next : ℕ
    pub cap_cache : Dict Text Capability
    pub current_priorities : Option (List Text)
    pub tai : T.State

  pub on_tai : {A : Type 0} → Exec T.State A → Exec World A
  on_tai m w = let (r, s) = m w.tai in (r, record w { tai = s })

  -- `except taish.TAIException`
  pub no_capability : Result Capability → Result Capability
  no_capability (err tai_exception) = err inval_arg_error
  no_capability r = r

  pub cache_capability : Text → Result Capability → Exec World Capability
  cache_capability name (err e) w = (err e, w)
  cache_capability name (ok cap) w =
      (ok cap, record w { cap_cache = Dict.put w.cap_cache name cap })

  pub capability : Text → Text → Exec World Capability
  unfolding cache_capability no_capability
  capability module_name name w = elim (Dict.get w.cap_cache name) [
    | some cap ↦ (ok cap, w)
    | none ↦
        let (r, s) = T.get_attribute_capability module_name name w.tai in
        cache_capability name (no_capability r) (record w { tai = s })
  ]

  -- The value for a deleted leaf.
  pub default_for : DpllClass → List XpathStep → Capability → Result Text
  unfolding leaf_of get_default to_tai_value
  default_for c xpath cap = elim (leaf_of xpath) [
    | err e ↦ err e
    | ok leaf ↦ elim (get_default leaf) [
      | some d ↦ ok (to_tai_value c d)
      | none ↦ if cap.default_value == [] then err inval_arg_error else ok cap.default_value
    ]
  ]

  -- `bound != "" and float(a) > float(b)`; the message names a variable that does not exist
  pub fail_if_less : Text → Text → Text → Result (Unit {0})
  fail_if_less bound a b =
      if bound == []
      then ok tt
      else elim (T.less a b) [ err e ↦ err e | ok true ↦ err name_error | ok false ↦ ok tt ]

  abbrev pub allows : List Text → Text → Bool
  allows [] v = true
  allows (x ∷ xs) v = member (x ∷ xs) v

  pub check_value : Capability → Text → Result Text
  unfolding fail_if_less
  check_value c v = elim (fail_if_less c.min v c.min) [
    | err e ↦ err e
    | ok _ ↦ elim (fail_if_less c.max c.max v) [
      | err e ↦ err e
      | ok _ ↦ if allows c.supportedvalues v then ok v else err inval_arg_error
    ]
  ]

  pub value_for : Attributes → Capability → Result Text
  unfolding default_for check_value to_tai_value
  value_for a cap =
      if is_deleted a.change.type
      then default_for a.handler_class a.xpath cap
      else check_value cap (to_tai_value a.handler_class a.change.value)

  -- the loop of DPLLChangeHandler.validate
  pub values_for : Attributes → List Text → Exec World (List Text)
  unfolding capability value_for
  values_for a [] = pure []
  values_for a (name ∷ names) = do
    cap ← capability a.module_name name
    v ← lift (value_for a cap)
    vs ← values_for a names
    pure (v ∷ vs)

  -- `prio = user.get(...)`, read from the device where it is missing or empty
  pub priorities : Attributes → Exec World (List Text)
  unfolding on_tai
  priorities a w = elim w.current_priorities [
    | some (p ∷ ps) ↦ (ok (p ∷ ps), w)
    | other ↦
        (do
          text ← on_tai (T.get a.module_name (codes "input-reference-priority"))
          pure (split b',' text))
          w
  ]

  -- PriorityChangeHandler.validate
  pub priority_values : Attributes → Exec World (List Text)
  unfolding priorities
  priority_values a = do
    prio ← priorities a
    changed ← lift (
        replace_at prio a.ref_name
          (if is_deleted a.change.type then show a.ref_name else a.change.value))
    λ w. (ok (join b',' changed ∷ []), record w { current_priorities = some changed })

  -- what `validate` of each class assigns to `self.value`
  pub new_values : DpllClass → Attributes → Exec World (List Text)
  unfolding values_for priority_values
  new_values priority a = priority_values a
  new_values c a = values_for a (tai_attr_names c)

  -- The names whose values differ, with the values of the second list.
  pub differences : List Text → List Text → List Text → Result (List (Text × Text))
  differences [] from to = ok []
  differences (n ∷ ns) (f ∷ fs) (t ∷ ts) = elim (differences ns fs ts) [
    | err e ↦ err e
    | ok d ↦ ok (if f == t then d else (n, t) ∷ d)
  ]
  differences (n ∷ ns) _ _ = err index_error

  -- the loop of `revert`: `self.name` in its message does not exist
  pub revert_values : List Text → List Text → List Text → Result (List (Text × Text))
  revert_values [] from to = ok []
  revert_values (n ∷ ns) (f ∷ fs) (t ∷ ts) =
      let rest = revert_values ns fs ts in if f == t then rest else err attribute_error
  revert_values (n ∷ ns) _ _ = err index_error
