-- ===== src/South/Gearbox/Interfaces/Server.antt =====
-- InterfaceServer of src/south/gearbox/goldstone/south/gearbox/interfaces.py as a subclass of
-- ServerBase.
use goldstone_mgmt.Base.{
  ℕ, false, none, some, List, [], ok, err, inval_arg_error, locked_error, if◌then◌else◌,
}
use goldstone_mgmt.Base.Exec.{Exec, raise, lift, ◌>>=◌}
use goldstone_mgmt.Base.Text.{Text, codes}
use goldstone_mgmt.Core.{Change, Subclass}
use goldstone_mgmt.Core.Handlers.{XpathStep, no_op, sub, leaf, node, Branches, stop, branch}
use goldstone_mgmt.South.Gearbox.{Platform, Value}
use goldstone_mgmt.South.Gearbox.Devices.{ifname2taiobj}
use goldstone_mgmt.South.Gearbox.Handlers.{
  Attributes, World, on_devices, load, save, create, key_of, apply_attributes, revert_attributes,
}
use goldstone_mgmt.South.Gearbox.Interfaces.{
  IfClass, admin_status, fec, mtu, interface_type, pin_mode, loopback_mode, prbs_mode, mfi_type,
  macsec_static_key, auto_nego, tx_timing_mode, tai_attr_names, validate_if, validate_nego,
  unless_netif,
}
use goldstone_mgmt.South.Gearbox.Interfaces.PinMode.{validate_pin, apply_pin, revert_pin}

-- the handlers under "ethernet"
unfoldable pub ethernet : Branches IfClass
ethernet =
    branch (codes "config")
      (node (branch (codes "fec") (leaf (sub fec)) (branch (codes "mtu") (leaf (sub mtu)) stop)))
      (branch (codes "auto-negotiate")
        (node (
          branch (codes "config") (node (branch (codes "enabled") (leaf (sub auto_nego)) stop))
            stop))
        (branch (codes "static-macsec")
          (node (
            branch (codes "config")
              (node (branch (codes "key") (leaf (sub macsec_static_key)) stop)) stop))
          (branch (codes "synce")
            (node (
              branch (codes "config")
                (node (branch (codes "tx-timing-mode") (leaf (sub tx_timing_mode)) stop)) stop))
            stop)))

-- the handlers under the interface's "config"
unfoldable pub config : Branches IfClass
config = branch (codes "admin-status") (leaf (sub admin_status)) (
    branch (codes "name") (leaf no_op) (
      branch (codes "description") (leaf no_op) (
        branch (codes "interface-type") (leaf (sub interface_type)) (
          branch (codes "pin-mode") (leaf (sub pin_mode)) (
            branch (codes "loopback-mode") (leaf (sub loopback_mode))
              (branch (codes "prbs-mode") (leaf (sub prbs_mode)) stop))))))

-- InterfaceServer.handlers
unfoldable pub handlers : Branches IfClass
unfolding ethernet config
handlers =
    branch (codes "interfaces")
      (node (
        branch (codes "interface")
          (node (
            branch (codes "name") (leaf no_op) (
              branch (codes "config") (node config) (
                branch (codes "ethernet") (node ethernet) (
                  branch (codes "otn")
                    (node (
                      branch (codes "config")
                        (node (branch (codes "mfi-type") (leaf (sub mfi_type)) stop)) stop))
                    stop)))))
          stop))
      stop

module _ (P : Platform) where
  -- `_init`
  unfoldable pub init : (Text → List XpathStep) → ℕ → Exec (World P IfClass) (Unit {0})
  unfolding load save on_devices key_of ifname2taiobj tai_attr_names
  init xpath_split o = do
    a ← load P IfClass o
    let steps = xpath_split a.change.xpath
    ifname ←
        lift (key_of (codes "goldstone-interfaces") (codes "interfaces") (codes "interface") steps)
    found ← on_devices P IfClass (ifname2taiobj P ifname)
    elim found.0 [
      | none ↦ raise inval_arg_error
      | some obj ↦ save P IfClass o (record a {
        xpath = steps;
        ifname = ifname;
        obj = some obj;
        names = tai_attr_names a.handler_class;
      })
    ]

  -- `validate` of the classes
  unfoldable pub validate_class :
      IfClass → ℕ → Attributes P IfClass → Exec (World P IfClass) (Unit {0})
  unfolding validate_pin validate_nego validate_if
  validate_class pin_mode o a = validate_pin P o a
  validate_class auto_nego o a = validate_nego P o a
  validate_class c o a = validate_if P o a

  unfoldable pub validate : ℕ → Exec (World P IfClass) (Unit {0})
  unfolding load validate_class
  validate o = do a ← load P IfClass o; validate_class a.handler_class o a

  unfoldable pub apply_class :
      IfClass → ℕ → Attributes P IfClass → Exec (World P IfClass) (Unit {0})
  unfolding apply_pin unless_netif apply_attributes
  apply_class pin_mode o a = apply_pin P o a
  apply_class auto_nego o a = unless_netif P a (apply_attributes P IfClass o a)
  apply_class c o a = apply_attributes P IfClass o a

  unfoldable pub apply : ℕ → Exec (World P IfClass) (Unit {0})
  unfolding load apply_class
  apply o = do a ← load P IfClass o; apply_class a.handler_class o a

  unfoldable pub revert_class : IfClass → Attributes P IfClass → Exec (World P IfClass) (Unit {0})
  unfolding revert_pin unless_netif revert_attributes
  revert_class pin_mode a = revert_pin P a
  revert_class auto_nego a = unless_netif P a (revert_attributes P IfClass a)
  revert_class c a = revert_attributes P IfClass a

  unfoldable pub revert : ℕ → Exec (World P IfClass) (Unit {0})
  unfolding load revert_class
  revert o = do a ← load P IfClass o; revert_class a.handler_class a

  -- InterfaceServer.pre
  unfoldable pub pre : Exec (World P IfClass) (Unit {0})
  pre w = (if w.devices.initializing then err locked_error else ok tt, w)

  -- `user` of a new request
  unfoldable pub new_user : List (Change Value) → World P IfClass → (Unit {0}) × World P IfClass
  new_user cs w = (
    tt,
    record w {
      changes = cs;
      cache = none;
      cap_cache = [];
      update_mapping = false;
      assignment = [];
    },
  )

  abbrev pub interface_server : (Text → List XpathStep) → Subclass
  interface_server xpath_split = record {
    HandlerClass = IfClass;
    Value = Value;
    World = World P IfClass;
    User = Unit {0};
    Object = ℕ;
    handlers = handlers;
    xpath_split = xpath_split;
    new_user = new_user;
    pre = λ u. pre;
    post = λ u w. (ok tt, w);
    create = create P IfClass;
    init = λ o u. init xpath_split o;
    validate_object = λ o u. validate o;
    apply_object = λ o u. apply o;
    revert_object = λ o u. revert o;
  }
