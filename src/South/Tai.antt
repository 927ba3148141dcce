-- ===== src/South/Tai.antt =====
-- TransponderServer of src/south/tai/goldstone/south/tai/transponder.py, as far as the configuration
-- of the modules goes: TAIHandler and ModuleHandler. The handlers of a module's network and host
-- interfaces are left out of the tree.
pub mod Undone
mod Tests
use goldstone_mgmt.Base.{
  ℕ, zero, suc, Bool, true, false, ◌||◌, ◌&&◌, not, Option, none, some, List, [], ◌∷◌, Result, ok,
  err, Exn, other, inval_arg_error, locked_error, name_error, key_error, tai_exception,
  if◌then◌else◌, ◌==◌, nat_eq, text_eq,
}
use goldstone_mgmt.Base.Dict
use goldstone_mgmt.Base.Dict.{Dict, member}
use goldstone_mgmt.Base.Exec.{Exec, pure, raise, lift, ◌>>=◌, ◌>>◌}
use goldstone_mgmt.Base.Text.{Text, codes}
use goldstone_mgmt.Core.{Change, Subclass, is_deleted}
use goldstone_mgmt.Core.Handlers.{
  XpathStep, no_op, sub, has_prefix, leaf, node, Branches, stop, branch,
}
use goldstone_mgmt.South.Dpll.{Capability}
use goldstone_mgmt.South.Gearbox.{Value, text, nothing, truthy}

-- InvalidXPath
abbrev pub invalid_xpath : Exn
invalid_xpath = other 1

-- the metadata of an attribute, as far as it is read
pub record Metadata : Type 0 where
  pub attr_id : ℕ
  pub usage : Text

-- taish: the locations of its modules, and the modules by their object id; and `float(a) < float(b)`
pub record Taish : Type 1 where
  pub State : Type 0
  pub list : Exec State (List Text)
  pub get_module : Text → Exec State ℕ
  pub get_attribute_metadata : ℕ → Text → Exec State Metadata
  pub get_attribute_capability : ℕ → ℕ → Exec State Capability
  pub get : ℕ → Text → Exec State Text
  pub set : ℕ → Text → Value → Exec State (Unit {0})
  pub less : Value → Value → Result Bool

-- The attributes of a handler object; an `attr_name` that is None is [].
pub record Attributes : Type 0 where
  pub change : Change Value
  pub obj : ℕ
  pub attr_name : Text
  pub value : Value
  pub original_value : Value

-- IGNORE_LEAVES
unfoldable pub ignore_leaves : List Text
ignore_leaves = codes "name" ∷ codes "enable-notify" ∷ codes "enable-alarm-notification" ∷ []

-- ModuleHandler._init, on the steps below the module
unfoldable pub attr_name_of : List XpathStep → Text
unfolding ignore_leaves
attr_name_of (x ∷ y ∷ []) = if member ignore_leaves y.name then [] else y.name
attr_name_of _ = []

-- the steps below the module and its name, which is [] without a condition on the name
unfoldable pub module_steps : List XpathStep → Result (List XpathStep × Option Text)
module_steps (x ∷ y ∷ xs) =
    if has_prefix x (codes "goldstone-transponder")
      && (x.name == codes "modules" && y.name == codes "module")
    then elim y.list_keys [
      | (k, v) ∷ [] ↦ ok (xs, if k == codes "name" then some v else none)
      | _ ↦ ok (xs, none)
    ]
    else err invalid_xpath
module_steps _ = err invalid_xpath

unfoldable pub allows : List Text → Value → Bool
allows [] v = true
allows vs (text t) = member vs t
allows vs v = false

-- one of the handler classes
pub data TaiClass : Type 0 where
  module_handler : TaiClass

-- the branches of TransponderServer.handlers for a module's name and configuration
unfoldable pub handlers : Branches TaiClass
handlers =
    branch (codes "modules")
      (node (
        branch (codes "module")
          (node (
            branch (codes "name") (leaf no_op) (
              branch (codes "config") (leaf (sub module_handler))
                (branch (codes "component-connection") (leaf no_op) stop))))
          stop))
      stop

module _ (T : Taish) where
  -- The handler objects by address; each module's location by its name, from the platform's
  -- description.
  pub record World : Type 0 where
    pub objects : Dict ℕ Attributes
    pub next : ℕ
    pub locations : Dict Text Text
    pub initializing : Bool
    pub tai : T.State

  unfoldable pub on_tai : {A : Type 0} → Exec T.State A → Exec World A
  on_tai m w = let (r, s) = m w.tai in (r, record w { tai = s })

  unfoldable pub create : TaiClass → Change Value → Exec World ℕ
  create c ch w =
      let a : Attributes = record {
        change = ch;
        obj = 0;
        attr_name = [];
        value = nothing;
        original_value = nothing;
      } in
      (ok w.next, record w { objects = Dict.put w.objects w.next a; next = suc w.next })

  unfoldable pub load : ℕ → Exec World Attributes
  load o w = elim (Dict.get w.objects o) [ none ↦ (err key_error, w) | some a ↦ (ok a, w) ]

  unfoldable pub save : ℕ → Attributes → Exec World (Unit {0})
  save o a w = (ok tt, record w { objects = Dict.put w.objects o a })

  -- name2location
  unfoldable pub name2location : Text → Exec World Text
  unfolding on_tai
  name2location name = do
    modules ← on_tai T.list
    λ w. (
      elim (Dict.get w.locations name) [
        | none ↦ err invalid_xpath
        | some [] ↦ err invalid_xpath
        | some (c ∷ l) ↦ if member modules (c ∷ l) then ok (c ∷ l) else err invalid_xpath
      ],
      w,
    )

  -- `except Exception` of get_module_from_xpath
  unfoldable pub or_invalid : Result ℕ → Result ℕ
  or_invalid (ok m) = ok m
  or_invalid (err e) = err invalid_xpath

  unfoldable pub get_module : Text → Exec World ℕ
  unfolding or_invalid
  get_module l w = let (r, s) = T.get_module l w.tai in (or_invalid r, record w { tai = s })

  -- the module of get_module_from_xpath; without one `_init` raises
  unfoldable pub find_module : Option Text → Exec World ℕ
  unfolding name2location get_module
  find_module none = raise inval_arg_error
  find_module (some name) = do l ← name2location name; get_module l

  -- `_init`
  unfoldable pub init : (Text → List XpathStep) → ℕ → Exec World (Unit {0})
  unfolding load find_module save module_steps attr_name_of
  init xpath_split o = do
    a ← load o
    found ← lift (module_steps (xpath_split a.change.xpath))
    m ← find_module found.1
    save o (record a { obj = m; attr_name = attr_name_of found.0 })

  -- `except taish.TAIException`, whose two branches raise the same error
  unfoldable pub or_inval_arg : {A : Type 0} → Result A → Result A
  or_inval_arg (err tai_exception) = err inval_arg_error
  or_inval_arg r = r

  unfoldable pub attempt : {A : Type 0} → Exec T.State A → Exec World A
  unfolding or_inval_arg
  attempt m w = let (r, s) = m w.tai in (or_inval_arg r, record w { tai = s })

  -- `bound != "" and float(a) > float(b)`; the message names a variable that does not exist
  unfoldable pub fail_if_less : Text → Value → Value → Result (Unit {0})
  fail_if_less bound a b =
      if bound == []
      then ok tt
      else elim (T.less a b) [ err e ↦ err e | ok true ↦ err name_error | ok false ↦ ok tt ]

  -- the value for a deleted leaf
  unfoldable pub default_for : Text → Capability → Result Value
  default_for attr_name cap =
      if cap.default_value == []
      then err inval_arg_error
      else ok (text (if attr_name == codes "admin-status" then codes "down" else cap.default_value))

  unfoldable pub check_value : Metadata → Capability → Value → Result Value
  unfolding fail_if_less allows
  check_value meta c v = elim (fail_if_less c.min v (text c.min)) [
    | err e ↦ err e
    | ok _ ↦ elim (fail_if_less c.max (text c.max) v) [
      | err e ↦ err e
      | ok _ ↦
          if allows c.supportedvalues v
          then ok (
              if meta.usage == codes "<bool>"
              then text (if truthy v then codes "true" else codes "false")
              else v)
          else err inval_arg_error
    ]
  ]

  unfoldable pub new_value : Attributes → Metadata → Capability → Result Value
  unfolding default_for check_value
  new_value a meta cap =
      if is_deleted a.change.type
      then default_for a.attr_name cap
      else check_value meta cap a.change.value

  -- TAIHandler.validate
  unfoldable pub validate_attr : ℕ → Attributes → Exec World (Unit {0})
  unfolding attempt new_value save
  validate_attr o a = do
    meta ← attempt (T.get_attribute_metadata a.obj a.attr_name)
    cap ← attempt (T.get_attribute_capability a.obj meta.attr_id)
    v ← lift (new_value a meta cap)
    save o (record a { value = v })

  unfoldable pub validate : ℕ → Exec World (Unit {0})
  unfolding load validate_attr
  validate o = do a ← load o; if a.attr_name == [] then pure tt else validate_attr o a

  -- TAIHandler.apply
  unfoldable pub apply_attr : ℕ → Attributes → Exec World (Unit {0})
  unfolding on_tai save attempt
  apply_attr o a = do
    v ← on_tai (T.get a.obj a.attr_name)
    save o (record a { original_value = text v })
    attempt (T.set a.obj a.attr_name a.value)

  unfoldable pub apply : ℕ → Exec World (Unit {0})
  unfolding load apply_attr
  apply o = do a ← load o; if a.attr_name == [] then pure tt else apply_attr o a

  -- TAIHandler.revert
  unfoldable pub revert : ℕ → Exec World (Unit {0})
  unfolding load attempt
  revert o = do
    a ← load o
    if a.attr_name == [] then pure tt else attempt (T.set a.obj a.attr_name a.original_value)

  unfoldable pub pre : Exec World (Unit {0})
  pre w = (if w.initializing then err locked_error else ok tt, w)

  abbrev pub module_server : (Text → List XpathStep) → Subclass
  module_server xpath_split = record {
    HandlerClass = TaiClass;
    Value = Value;
    World = World;
    User = Unit {0};
    Object = ℕ;
    handlers = handlers;
    xpath_split = xpath_split;
    new_user = λ cs w. (tt, w);
    pre = λ u. pre;
    post = λ u w. (ok tt, w);
    create = create;
    init = λ o u. init xpath_split o;
    validate_object = λ o u. validate o;
    apply_object = λ o u. apply o;
    revert_object = λ o u. revert o;
  }
