-- ===== src/Openconfig/Handler.antt =====
-- The change handlers of src/xlate/openconfig/goldstone/xlate/openconfig/lib.py and interfaces.py, on
-- the sessions of the connector. `sess` is what `pre` puts into the request's `user`; the handler
-- objects are in a store.
pub mod Datastore
pub mod Fec
pub mod Server
use goldstone_mgmt.Base.{
  ℕ, zero, suc, Bool, true, false, not, ◌&&◌, Option, none, some, List, [], ◌∷◌, ◌++◌, Result, ok,
  err, Exn, inval_arg_error, not_found_error, index_error, key_error, assertion_error,
  attribute_error, if◌then◌else◌, ◌==◌, nat_eq, text_eq,
}
use goldstone_mgmt.Base.Dict
use goldstone_mgmt.Base.Dict.{Dict, member}
use goldstone_mgmt.Base.Exec.{Exec, pure, raise, lift, ◌>>=◌, ◌>>◌}
use goldstone_mgmt.Base.Text.{Text, codes, join}
use goldstone_mgmt.Core.{Change, ChangeType, is_deleted}
use goldstone_mgmt.Core.Handlers.{XpathStep, name_key, has_prefix}
use goldstone_mgmt.Connector.Session.{Sysrepo, Session, Value, text, single, get, set, delete}
use goldstone_mgmt.Openconfig.Names.{split_on}

-- EnabledHandler and FECModeHandler
pub data OcClass : Type 0 where
  enabled_handler fec_mode_handler : OcClass

-- The value of a change: a boolean leaf or an identity.
pub data OcValue : Type 0 where
  flag : Bool → OcValue
  identity : Text → OcValue

-- EnabledHandler._admin_status
pub admin_status : Bool → Text
admin_status enabled = if enabled then codes "UP" else codes "DOWN"

abbrev rs_modes : List Text
rs_modes = codes "FEC_RS528" ∷ codes "FEC_RS544" ∷ codes "FEC_RS544_2X_INTERLEAVE" ∷ []

-- what `_fec` looks up, without the prefix
pub fec_of : Text → Option Text
fec_of m =
    if m == codes "FEC_FC"
    then some (codes "FC")
    else if member rs_modes m
    then some (codes "RS")
    else if m == codes "FEC_DISABLED"
    then some (codes "NONE")
    else none

-- "".join(parts)
unfoldable pub concat : List Text → Text
concat [] = []
concat (p ∷ ps) = p ++ concat ps

-- s.replace(old, "")
unfoldable pub without : Text → Text → Text
unfolding split_on concat
without old s = concat (split_on old s)

-- FECModeHandler._fec
pub fec : Text → Option Text
unfolding fec_of without
fec fec_mode = fec_of (without (codes "openconfig-if-ethernet:") fec_mode)

-- `_translate` of the two classes
pub translate : OcClass → OcValue → Result (Option Text)
unfolding admin_status fec
translate enabled_handler (flag b) = ok (some (admin_status b))
translate enabled_handler (identity m) = ok (some (admin_status (not (m == []))))
translate fec_mode_handler (identity m) = ok (fec m)
translate fec_mode_handler (flag b) = err attribute_error

-- the assertions of IfChangeHandler.__init__, and `xpath[1][2][0][1]`
pub ifname_of : List XpathStep → Result Text
ifname_of [] = err index_error
ifname_of (x ∷ []) =
    if has_prefix x (codes "openconfig-interfaces") && x.name == codes "interfaces"
    then err index_error
    else err assertion_error
ifname_of (x ∷ y ∷ xs) =
    if has_prefix x (codes "openconfig-interfaces")
      && (x.name == codes "interfaces" && y.name == codes "interface")
    then name_key y.list_keys
    else err assertion_error

-- GS_INTERFACES_IF and the paths under it
pub if_xpath : Text → Text
if_xpath ifname =
    codes "/goldstone-interfaces:interfaces/interface[name='" ++ (ifname ++ codes "']")

pub if_name_xpath : Text → Text
unfolding if_xpath
if_name_xpath ifname = if_xpath ifname ++ codes "/config/name"

pub item_xpath : OcClass → Text → Text
unfolding if_xpath
item_xpath enabled_handler ifname = if_xpath ifname ++ codes "/config/admin-status"
item_xpath fec_mode_handler ifname = if_xpath ifname ++ codes "/ethernet/config/fec"

module _ (S : Sysrepo) where
  -- The attributes of a handler object; `original_value` is None before a value is read.
  pub record Attributes : Type 0 where
    pub handler_class : OcClass
    pub change : Change OcValue
    pub ifname : Text
    pub if_created : Bool
    pub value : Option Text
    pub original_value : S.Data

  pub record World : Type 0 where
    pub objects : Dict ℕ Attributes
    pub next : ℕ
    pub sess : Option (Session S × Session S)
    pub sysrepo : S.State

  pub on_sysrepo : {A : Type 0} → Exec S.State A → Exec World A
  on_sysrepo m w = let (r, s) = m w.sysrepo in (r, record w { sysrepo = s })

  -- user["sess"]["running"]
  pub running : Exec World (Session S)
  running w = elim w.sess [ none ↦ (err key_error, w) | some p ↦ (ok p.0, w) ]

  -- OpenConfigChangeHandler._get, _set and _delete
  pub _get : Text → Exec World S.Data
  unfolding on_sysrepo running
  _get xpath = do sess ← running; on_sysrepo (get S sess xpath S.none_data false true false)

  pub _set : Text → Value S.Data → Exec World (Unit {0})
  unfolding on_sysrepo running
  _set xpath v = do sess ← running; on_sysrepo (set S sess xpath v)

  pub _delete : Text → Exec World (Unit {0})
  unfolding on_sysrepo running
  _delete xpath = do sess ← running; on_sysrepo (delete S sess xpath)

  -- `_set_item` and `_delete_item`
  pub set_item : Attributes → Value S.Data → Exec World (Unit {0})
  unfolding _set if_name_xpath item_xpath
  set_item a v = do
    _set (if_name_xpath a.ifname) (text a.ifname)
    _set (item_xpath a.handler_class a.ifname) v

  pub delete_item : Attributes → Exec World (Unit {0})
  unfolding _delete if_xpath item_xpath
  delete_item a =
      if a.if_created
      then _delete (if_xpath a.ifname)
      else _delete (item_xpath a.handler_class a.ifname)

  pub load : ℕ → Exec World Attributes
  load o w = elim (Dict.get w.objects o) [ none ↦ (err key_error, w) | some a ↦ (ok a, w) ]

  pub save : ℕ → Attributes → Exec World (Unit {0})
  save o a w = (ok tt, record w { objects = Dict.put w.objects o a })

  -- `except NotFoundError: pass`
  pub original_or : S.Data → Result S.Data → Result S.Data
  original_or d (err not_found_error) = ok d
  original_or d r = r

  pub get_original : Attributes → Exec World S.Data
  unfolding _get item_xpath original_or
  get_original a w =
      let (r, w') = _get (item_xpath a.handler_class a.ifname) w in
      (original_or a.original_value r, w')

  -- the new value, or the exception for one that cannot be translated
  pub translated : Result (Option Text) → Result Text
  translated (err e) = err e
  translated (ok none) = err inval_arg_error
  translated (ok (some v)) = ok v

  -- `_validate_parent`
  pub validate_parent : Attributes → Exec World Bool
  unfolding _get if_xpath
  validate_parent a = do found ← _get (if_xpath a.ifname); pure (S.is_none found)

  -- the part of OpenConfigChangeHandler.validate for a value that is set
  pub set_value : ℕ → Attributes → S.Data → Exec World (Unit {0})
  unfolding save translate translated validate_parent
  set_value o a original = do
    v ← lift (translated (translate a.handler_class a.change.value))
    save o (record a { if_created = false; original_value = original; value = some v })
    created ← validate_parent a
    save o (record a { if_created = created; original_value = original; value = some v })

  -- OpenConfigChangeHandler.validate on the handler's attributes
  pub validate_attributes : ℕ → Attributes → Exec World (Unit {0})
  unfolding get_original save set_value
  validate_attributes o a = do
    save o (record a { if_created = false })
    original ← get_original a
    save o (record a { if_created = false; original_value = original })
    if is_deleted a.change.type then pure tt else set_value o a original

  pub validate : ℕ → Exec World (Unit {0})
  unfolding load validate_attributes
  validate o = do a ← load o; validate_attributes o a

  -- OpenConfigChangeHandler.apply
  pub apply_attributes : Attributes → Option Text → Exec World (Unit {0})
  unfolding set_item delete_item
  apply_attributes a v =
      if is_deleted a.change.type
      then (if S.truthy a.original_value then delete_item a else pure tt)
      else elim v [ none ↦ set_item a (single S.none_data) | some t ↦ set_item a (text t) ]

  pub apply : ℕ → Exec World (Unit {0})
  unfolding load apply_attributes
  apply o = do a ← load o; apply_attributes a a.value

  -- OpenConfigChangeHandler.revert
  pub revert_attributes : Attributes → Exec World (Unit {0})
  unfolding set_item delete_item
  revert_attributes a =
      if S.truthy a.original_value
      then set_item a (single a.original_value)
      else (if is_deleted a.change.type then pure tt else delete_item a)

  pub revert : ℕ → Exec World (Unit {0})
  unfolding load revert_attributes
  revert o = do a ← load o; revert_attributes a
