-- ===== src/South/Gearbox/Modules/Server.antt =====
-- GearboxServer of src/south/gearbox/goldstone/south/gearbox/gearbox.py as a subclass of ServerBase.
use goldstone_mgmt.Base.{
  ℕ, false, Option, none, some, List, [], ok, inval_arg_error, attribute_error, if◌then◌else◌, ltb,
  length, text_eq,
}
use goldstone_mgmt.Base.Dict.{keys, member}
use goldstone_mgmt.Base.Exec.{Exec, pure, raise, lift, ◌>>=◌, ◌>>◌}
use goldstone_mgmt.Base.Text.{Text, codes, split}
use goldstone_mgmt.Core.{Change, Subclass}
use goldstone_mgmt.Core.Handlers.{XpathStep, no_op, sub, leaf, node, Branches, stop, branch}
use goldstone_mgmt.South.Gearbox.{Platform, Value, tai_module, Object}
use goldstone_mgmt.South.Gearbox.Devices.{list_modules}
use goldstone_mgmt.South.Gearbox.Handlers.{
  World, on_devices, on_tai, load, save, create, key_of, apply_attributes, revert_attributes,
}
use goldstone_mgmt.South.Gearbox.Modules.{
  GearboxClass, gearbox, admin_status, update_mapping, reference_clock_name, reference_interface,
  tai_attr_names, clock_name_of, validate_class, set_mappings,
}

-- GearboxServer.handlers
unfoldable pub handlers : Branches GearboxClass
handlers =
    branch (codes "gearboxes")
      (node (
        branch (codes "gearbox")
          (node (
            branch (codes "name") (leaf (sub gearbox)) (
              branch (codes "config")
                (node (
                  branch (codes "admin-status") (leaf (sub admin_status)) (
                    branch (codes "name") (leaf (sub gearbox)) (
                      branch (codes "enable-flexible-connection") (leaf (sub update_mapping))
                        stop))))
                (branch (codes "connections")
                  (node (
                    branch (codes "connection")
                      (node (
                        branch (codes "client-interface") (leaf (sub update_mapping)) (
                          branch (codes "line-interface") (leaf (sub update_mapping))
                            (branch (codes "config") (leaf (sub update_mapping)) stop))))
                      stop))
                  (branch (codes "synce-reference-clocks")
                    (node (
                      branch (codes "synce-reference-clock")
                        (node (
                          branch (codes "name") (leaf (sub reference_clock_name)) (
                            branch (codes "config")
                              (node (
                                branch (codes "name") (leaf no_op) (
                                  branch (codes "reference-interface")
                                    (leaf (sub reference_interface)) stop)))
                              stop)))
                        stop))
                    stop)))))
          stop))
      stop

module _ (P : Platform) where
  -- what ReferenceClockNameHandler and ReferenceInterfaceHandler add to `_init`
  unfoldable pub init_class :
      GearboxClass → Object → List XpathStep → Exec (World P GearboxClass) (Unit {0})
  unfolding on_tai clock_name_of
  init_class reference_clock_name obj steps = do
    t ← on_tai P GearboxClass (P.get obj (codes "pgmrclk-assignment"))
    name ← lift (clock_name_of steps)
    if ltb name (length (split b',' t)) then pure tt else raise inval_arg_error
  init_class reference_interface obj steps = do name ← lift (clock_name_of steps); pure tt
  init_class _ obj steps = pure tt

  unfoldable pub known_gearbox : List Text → Text → Exec (World P GearboxClass) (Unit {0})
  known_gearbox names name = if member names name then pure tt else raise inval_arg_error

  -- `_init`
  unfoldable pub init : (Text → List XpathStep) → ℕ → Exec (World P GearboxClass) (Unit {0})
  unfolding load save on_devices on_tai key_of list_modules tai_attr_names init_class known_gearbox
  init xpath_split o = do
    a ← load P GearboxClass o
    let steps = xpath_split a.change.xpath
    name ← lift (key_of (codes "goldstone-gearbox") (codes "gearboxes") (codes "gearbox") steps)
    modules ← on_devices P GearboxClass (list_modules P)
    known_gearbox (keys modules) name
    m ← on_tai P GearboxClass (P.get_module name)
    save P GearboxClass o (record a {
      xpath = steps;
      obj = some (tai_module m);
      names = tai_attr_names a.handler_class;
    })
    init_class a.handler_class (tai_module m) steps

  unfoldable pub validate : ℕ → Exec (World P GearboxClass) (Unit {0})
  unfolding load validate_class
  validate o = do a ← load P GearboxClass o; validate_class P a.handler_class o a

  unfoldable pub apply : ℕ → Exec (World P GearboxClass) (Unit {0})
  unfolding load apply_attributes
  apply o = do a ← load P GearboxClass o; apply_attributes P GearboxClass o a

  unfoldable pub revert : ℕ → Exec (World P GearboxClass) (Unit {0})
  unfolding load revert_attributes
  revert o = do a ← load P GearboxClass o; revert_attributes P GearboxClass a

  -- the end of `post`; `update-tributary-mapping` is set after the cache, so that one is there
  unfoldable pub update_mappings : Option P.Config → Exec (World P GearboxClass) (Unit {0})
  unfolding on_devices list_modules set_mappings
  update_mappings none = raise attribute_error
  update_mappings (some config) = do
    modules ← on_devices P GearboxClass (list_modules P)
    on_devices P GearboxClass (set_mappings P config modules)

  -- GearboxServer.post
  unfoldable pub post : Exec (World P GearboxClass) (Unit {0})
  unfolding update_mappings
  post w = (if w.update_mapping then update_mappings w.cache else pure tt) w

  -- `user` of a new request
  unfoldable pub new_user :
      List (Change Value) → World P GearboxClass → (Unit {0}) × World P GearboxClass
  new_user cs w = (
    tt,
    record w {
      changes = cs;
      cache = none;
      cap_cache = [];
      update_mapping = false;
      assignment = [];
    },
  )

  abbrev pub gearbox_server : (Text → List XpathStep) → Subclass
  gearbox_server xpath_split = record {
    HandlerClass = GearboxClass;
    Value = Value;
    World = World P GearboxClass;
    User = Unit {0};
    Object = ℕ;
    handlers = handlers;
    xpath_split = xpath_split;
    new_user = new_user;
    pre = λ u w. (ok tt, w);
    post = λ u. post;
    create = create P GearboxClass;
    init = λ o u. init xpath_split o;
    validate_object = λ o u. validate o;
    apply_object = λ o u. apply o;
    revert_object = λ o u. revert o;
  }
