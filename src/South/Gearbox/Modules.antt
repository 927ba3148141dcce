-- ===== src/South/Gearbox/Modules.antt =====
-- The change handlers of GearboxServer in src/south/gearbox/goldstone/south/gearbox/gearbox.py.
pub mod Server
pub mod State
pub mod Start
pub mod Ready
pub mod Shown
use goldstone_mgmt.Base.{
  ℕ, zero, suc, Bool, true, false, not, Option, none, some, List, [], ◌∷◌, ◌++◌, Result, ok, err,
  inval_arg_error, index_error, attribute_error, if◌then◌else◌, ltb, ◌==◌, nat_eq, text_eq, length,
}
use goldstone_mgmt.Base.Dict
use goldstone_mgmt.Base.Dict.{Dict, keys, member}
use goldstone_mgmt.Base.Exec.{Exec, pure, raise, lift, ◌>>=◌, ◌>>◌}
use goldstone_mgmt.Base.Text.{Text, codes, split, join, int}
use goldstone_mgmt.Core.{is_deleted}
use goldstone_mgmt.Core.Handlers.{XpathStep, name_key}
use goldstone_mgmt.South.Gearbox.{
  Platform, Value, text, flag, is_text, truthy, Object, tai_module, netif, hostif, oid, Mapping,
  Connection,
}
use goldstone_mgmt.South.Gearbox.Oids.{oid_text}
use goldstone_mgmt.South.Gearbox.Mapping.{default_mapping, OidMap}
use goldstone_mgmt.South.Gearbox.Devices.{Devices, on_platform, list_modules, ifname2taiobj}
use goldstone_mgmt.South.Gearbox.Handlers.{
  Attributes, World, on_devices, on_tai, load, save, setup_cache, object_of, validate_attributes,
}

pub data GearboxClass : Type 0 where
  gearbox admin_status update_mapping reference_clock_name reference_interface : GearboxClass

-- `tai_attr_name` after `_init` of the classes
unfoldable pub tai_attr_names : GearboxClass → List Text
tai_attr_names admin_status = codes "admin-status" ∷ []
tai_attr_names reference_interface = codes "pgmrclk-assignment" ∷ []
tai_attr_names _ = []

-- int(xpath[3][2][0][1]), with the assertion on its key
unfoldable pub clock_name_of : List XpathStep → Result ℕ
clock_name_of (x ∷ y ∷ z ∷ r ∷ xs) = elim (name_key r.list_keys) [ err e ↦ err e | ok n ↦ int n ]
clock_name_of _ = err index_error

-- AdminStatusHandler.to_tai_value; the other classes have none
unfoldable pub to_tai_value : GearboxClass → Value → Result Value
to_tai_value admin_status v =
    ok (text (if is_text v (codes "UP") then codes "up" else codes "down"))
to_tai_value _ v = err attribute_error

-- l[i] = v
unfoldable pub set_item : List Text → ℕ → Text → Result (List Text)
set_item [] i v = err index_error
set_item (x ∷ l) zero v = ok (v ∷ l)
set_item (x ∷ l) (suc i) v = elim (set_item l i v) [ err e ↦ err e | ok m ↦ ok (x ∷ m) ]

-- obj.oid of an object, or of None
unfoldable pub oid_or_none : Option Object → Result ℕ
oid_or_none none = err attribute_error
oid_or_none (some obj) = ok (oid obj)

unfoldable pub flex_xpath : Text → Text
flex_xpath loc =
    codes "/goldstone-gearbox:gearboxes/gearbox[name='"
    ++ (loc ++ codes "']/config/enable-flexible-connection")

unfoldable pub connections_xpath : Text → Text
connections_xpath loc =
    codes "/goldstone-gearbox:gearboxes/gearbox[name='"
    ++ (loc ++ codes "']/connections/connection")

module _ (P : Platform) where
  -- GearboxServer.get_default
  unfoldable pub get_default : Text → Option Value
  get_default key =
      let path =
        codes "/goldstone-gearbox:gearboxes/goldstone-gearbox:gearbox/goldstone-gearbox:config"
        ++ (codes "/goldstone-gearbox:" ++ key) in
      elim (P.find_node path) [
        | none ↦ none
        | some node ↦ elim node.default [
          | none ↦ if node.boolean then some (flag false) else none
          | some d ↦ some (if node.boolean then flag (d == codes "true") else text d)
        ]
      ]

  -- the clocks' interfaces as the request has them, or as the module has
  unfoldable pub current_assignment : Object → Exec (World P GearboxClass) (List Text)
  unfolding on_tai
  current_assignment obj w = elim w.assignment [
    | a ∷ l ↦ (ok (a ∷ l), w)
    | [] ↦
        (do t ← on_tai P GearboxClass (P.get obj (codes "pgmrclk-assignment")); pure (split b',' t))
          w
  ]

  -- the object id of the interface that the change names; only a text has `replace`
  unfoldable pub interface_oid : Value → Exec (World P GearboxClass) Text
  unfolding on_devices ifname2taiobj oid_or_none oid_text
  interface_oid (text ifname) = do
    found ← on_devices P GearboxClass (ifname2taiobj P ifname)
    n ← lift (oid_or_none found.0)
    pure (oid_text n)
  interface_oid _ = raise attribute_error

  -- ReferenceInterfaceHandler.validate
  unfoldable pub validate_reference :
      ℕ → Attributes P GearboxClass → Exec (World P GearboxClass) (Unit {0})
  unfolding object_of current_assignment clock_name_of interface_oid set_item save
  validate_reference o a = do
    obj ← lift (object_of P GearboxClass a)
    assignment ← current_assignment obj
    clock ← lift (clock_name_of a.xpath)
    t ← (if is_deleted a.change.type then pure (codes "oid:0x0") else interface_oid a.change.value)
    changed ← lift (set_item assignment clock t)
    save P GearboxClass o (record a { value = text (join b',' changed) ∷ [] })
    λ w. (ok tt, record w { assignment = changed })

  -- UpdateTributaryMapping.validate
  unfoldable pub validate_update : Exec (World P GearboxClass) (Unit {0})
  unfolding setup_cache
  validate_update = do setup_cache P GearboxClass; λ w. (ok tt, record w { update_mapping = true })

  unfoldable pub validate_class :
      GearboxClass → ℕ → Attributes P GearboxClass → Exec (World P GearboxClass) (Unit {0})
  unfolding validate_reference validate_update validate_attributes to_tai_value get_default
  validate_class reference_interface o a = validate_reference o a
  validate_class update_mapping o a = validate_update
  validate_class c o a =
      validate_attributes P GearboxClass (λ v name. lift (to_tai_value c v))
        (λ leaf. pure (get_default leaf)) o a

  -- the mapping of the configured connections
  unfoldable pub flexible_mapping : List Connection → Exec (Devices P) Mapping
  unfolding ifname2taiobj oid_or_none oid_text
  flexible_mapping [] = pure []
  flexible_mapping (c ∷ cs) = do
    line ← ifname2taiobj P c.line
    l ← lift (oid_or_none line.0)
    client ← ifname2taiobj P c.client
    n ← lift (oid_or_none client.0)
    rest ← flexible_mapping cs
    pure (((oid_text l, oid_text n ∷ []) ∷ []) ∷ rest)

  unfoldable pub mapping_for : ℕ → Text → Bool → Exec (Devices P) Mapping
  unfolding on_platform flexible_mapping default_mapping connections_xpath
  mapping_for m loc flex =
      if flex
      then (do
        cs ← on_platform P (P.running_connections (connections_xpath loc))
        flexible_mapping cs)
      else (λ d. (ok (default_mapping (P.netifs m d.platform) (P.hostifs m d.platform)), d))

  unfoldable pub truthy_leaf : Option Value → Bool
  unfolding truthy
  truthy_leaf none = false
  truthy_leaf (some v) = truthy v

  unfoldable pub set_tributary_mapping : ℕ → P.Config → Exec (Devices P) (Unit {0})
  unfolding on_platform mapping_for flex_xpath truthy_leaf
  set_tributary_mapping m config d =
      let loc = P.location m d.platform in
      (do
        mapping ← mapping_for m loc (truthy_leaf (P.leaf_of config (flex_xpath loc)))
        on_platform P (P.set (tai_module m) (codes "tributary-mapping") (text (P.dumps mapping))))
        d

  unfoldable pub set_mappings : P.Config → Dict Text ℕ → Exec (Devices P) (Unit {0})
  unfolding set_tributary_mapping
  set_mappings config [] = pure tt
  set_mappings config ((loc, m) ∷ l) = do set_tributary_mapping m config; set_mappings config l

  -- the first loop of `reconcile`, on the interfaces of one module
  unfoldable pub learn : (ℕ → Object) → List (ℕ × ℕ) → OidMap → OidMap
  learn make [] oids = oids
  learn make ((index, n) ∷ l) oids = learn make l (Dict.put oids n (make n))

  unfoldable pub learn_oids : List Text → Exec (Devices P) (Unit {0})
  unfolding on_platform learn
  learn_oids [] = pure tt
  learn_oids (loc ∷ l) = do
    m ← on_platform P (P.get_module loc)
    λ d. learn_oids l (record d {
      oids = learn hostif (P.hostifs m d.platform) (learn netif (P.netifs m d.platform) d.oids);
    })
