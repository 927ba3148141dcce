-- ===== src/South/Gearbox/Interfaces.antt =====
-- The change handlers of InterfaceServer in
-- src/south/gearbox/goldstone/south/gearbox/interfaces.py.
pub mod PinMode
pub mod Server
pub mod Modes
pub mod Reads
pub mod State
pub mod Answer
pub mod Shown
pub mod Applied
use goldstone_mgmt.Base.{
  ℕ, Bool, true, false, not, Option, none, some, List, [], ◌∷◌, ◌++◌, Result, ok, err,
  inval_arg_error, type_error, if◌then◌else◌, ◌==◌, nat_eq, text_eq,
}
use goldstone_mgmt.Base.Exec.{Exec, pure, raise, lift, ◌>>=◌, ◌>>◌}
use goldstone_mgmt.Base.Text.{Text, codes}
use goldstone_mgmt.Core.{is_deleted}
use goldstone_mgmt.South.Gearbox.{Platform, Value, text, nothing, lower_value, truthy, is_text}
use goldstone_mgmt.South.Gearbox.Devices.{or_default, default_of, if_xpath, key_value}
use goldstone_mgmt.South.Gearbox.Handlers.{
  Attributes, World, on_devices, load, save, object_of, is_netif, setup_cache, key_of,
  validate_attributes, apply_attributes, revert_attributes,
}

pub data IfClass : Type 0 where
  admin_status fec mtu interface_type pin_mode loopback_mode prbs_mode mfi_type : IfClass
  macsec_static_key auto_nego tx_timing_mode : IfClass

-- `tai_attr_name` after `_init` of the subclasses
unfoldable pub tai_attr_names : IfClass → List Text
tai_attr_names admin_status = codes "provision-mode" ∷ []
tai_attr_names fec = codes "fec-type" ∷ []
tai_attr_names mtu = codes "mtu" ∷ codes "mru" ∷ []
tai_attr_names interface_type = codes "provision-mode" ∷ codes "signal-rate" ∷ []
tai_attr_names pin_mode = codes "pin-mode" ∷ []
tai_attr_names loopback_mode = codes "loopback-type" ∷ []
tai_attr_names prbs_mode = codes "prbs-type" ∷ []
tai_attr_names mfi_type = codes "otn-mfi-type" ∷ []
tai_attr_names macsec_static_key = codes "macsec-static-key" ∷ []
tai_attr_names auto_nego = codes "auto-negotiation" ∷ []
tai_attr_names tx_timing_mode = codes "tx-timing-mode" ∷ []

-- the provision mode for an interface type, of an interface that is up
unfoldable pub mode_for : Value → Result Value
mode_for t =
    if is_text t (codes "IF_ETHERNET")
    then ok (text (codes "normal"))
    else if is_text t (codes "IF_OTN")
    then ok (text (codes "serdes-only"))
    else err inval_arg_error

-- the signal rate for an interface type; None for any other
unfoldable pub signal_rate : Value → Value
signal_rate t =
    if is_text t (codes "IF_ETHERNET")
    then text (codes "100-gbe")
    else if is_text t (codes "IF_OTN")
    then text (codes "otu4")
    else nothing

module _ (P : Platform) where
  -- libyang.xpath_get(cache, f"{xpath}/{leaf}", default)
  unfoldable pub cached : Text → Text → Exec (World P IfClass) Value
  unfolding setup_cache on_devices default_of if_xpath
  cached ifname leaf = do
    cache ← setup_cache P IfClass
    d ← on_devices P IfClass (default_of P leaf ifname)
    pure (or_default (P.leaf_of cache (if_xpath ifname ++ (codes "/config/" ++ leaf))) d)

  -- AdminStatusHandler.to_tai_value
  unfoldable pub admin_value : Text → Value → Exec (World P IfClass) Value
  unfolding cached mode_for
  admin_value ifname v =
      if is_text v (codes "UP")
      then (do t ← cached ifname (codes "interface-type"); lift (mode_for t))
      else pure (text (codes "none"))

  -- InterfaceTypeHandler.to_tai_value
  unfoldable pub type_value : Text → Value → Text → Exec (World P IfClass) Value
  unfolding cached mode_for signal_rate
  type_value ifname v name =
      if name == codes "provision-mode"
      then (do
        a ← cached ifname (codes "admin-status")
        if is_text a (codes "DOWN") then pure (text (codes "none")) else lift (mode_for v))
      else if name == codes "signal-rate"
      then pure (signal_rate v)
      else pure nothing

  -- to_tai_value of the subclasses
  unfoldable pub to_tai_value : IfClass → Text → Value → Text → Exec (World P IfClass) Value
  unfolding admin_value type_value lower_value key_value truthy
  to_tai_value admin_status ifname v name = admin_value ifname v
  to_tai_value interface_type ifname v name = type_value ifname v name
  to_tai_value mtu ifname v name = pure v
  to_tai_value tx_timing_mode ifname v name = pure v
  to_tai_value macsec_static_key ifname (text k) name = lift (key_value P (text k))
  to_tai_value macsec_static_key ifname v name = raise type_error
  to_tai_value auto_nego ifname v name =
      pure (text (if truthy v then codes "true" else codes "false"))
  to_tai_value c ifname v name = lift (lower_value v)

  -- IfChangeHandler.validate with the class's to_tai_value
  unfoldable pub validate_if : ℕ → Attributes P IfClass → Exec (World P IfClass) (Unit {0})
  unfolding validate_attributes to_tai_value on_devices default_of
  validate_if o a =
      validate_attributes P IfClass (to_tai_value a.handler_class a.ifname)
        (λ leaf. on_devices P IfClass (default_of P leaf a.ifname)) o a

  -- a line interface has no auto negotiation
  unfoldable pub check_nego : Attributes P IfClass → Exec (World P IfClass) (Unit {0})
  check_nego a =
      if is_deleted a.change.type
      then pure tt
      else if truthy a.change.value
      then raise inval_arg_error
      else pure tt

  -- AutoNegoHandler.validate
  unfoldable pub validate_nego : ℕ → Attributes P IfClass → Exec (World P IfClass) (Unit {0})
  unfolding validate_if object_of check_nego
  validate_nego o a = do
    obj ← lift (object_of P IfClass a)
    if is_netif obj then check_nego a else validate_if o a

  -- the test of `apply` and `revert` of AutoNegoHandler
  unfoldable pub unless_netif :
      Attributes P IfClass → Exec (World P IfClass) (Unit {0}) → Exec (World P IfClass) (Unit {0})
  unfolding object_of
  unless_netif a m = do obj ← lift (object_of P IfClass a); if is_netif obj then pure tt else m
