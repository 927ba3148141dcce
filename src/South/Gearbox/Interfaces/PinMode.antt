-- ===== src/South/Gearbox/Interfaces/PinMode.antt =====
-- PinModeHandler of src/south/gearbox/goldstone/south/gearbox/interfaces.py: a pin mode takes the
-- interfaces away that conflict with it, and gives those back that do not any more.
use goldstone_mgmt.Base.{
  ℕ, Bool, true, false, Option, none, some, List, [], ◌∷◌, Result, ok, err, inval_arg_error,
  attribute_error, tai_exception, if◌then◌else◌, nat_eq, text_eq, map,
}
use goldstone_mgmt.Base.Dict.{member}
use goldstone_mgmt.Base.Exec.{Exec, pure, raise, lift, ◌>>=◌, ◌>>◌}
use goldstone_mgmt.Base.Text.{Text, codes}
use goldstone_mgmt.South.Gearbox.{Platform, Value, text, str, Object, tai_module, oid, item}
use goldstone_mgmt.South.Gearbox.Info.{interface_info, get_conflicting_ifnames}
use goldstone_mgmt.South.Gearbox.Mapping.{get_new_mapping, default_mapping}
use goldstone_mgmt.South.Gearbox.Devices.{
  if_xpath, ifname2taiobj, create_interface, config_or_empty,
}
use goldstone_mgmt.South.Gearbox.Handlers.{
  Attributes, World, on_devices, on_tai, load, save, setup_cache, original_of, apply_attributes,
  revert_attributes, is_member,
}
use goldstone_mgmt.South.Gearbox.Interfaces.{IfClass, validate_if}

-- self.value[0]
abbrev pub value_of : List Value → Result Value
value_of l = item l 0

-- set(a) - set(b), before the order of a set
unfoldable pub difference : List Text → List Text → List Text
difference [] b = []
difference (x ∷ a) b = let rest = difference a b in if member b x then rest else x ∷ rest

module _ (P : Platform) where
  abbrev W : Type 0
  W = World P IfClass

  unfoldable pub conflicts_in : Text → Text → Exec W (List Text)
  conflicts_in ifname mode w = (ok (get_conflicting_ifnames w.devices.info ifname mode), w)

  -- no conflicting interface has a configuration; an interface's dict has its name
  unfoldable pub unconfigured : P.Config → List Text → Result (Unit {0})
  unconfigured cache [] = ok tt
  unconfigured cache (ifname ∷ l) = elim (P.interface_of cache (if_xpath ifname)) [
    | some config ↦ err inval_arg_error
    | none ↦ unconfigured cache l
  ]

  -- what `validate` does after that of IfChangeHandler
  unfoldable pub check_pin_mode : Text → Value → Exec W (Unit {0})
  unfolding conflicts_in unconfigured setup_cache
  check_pin_mode ifname v w = elim (interface_info w.devices.info ifname) [
    | none ↦ (err inval_arg_error, w)
    | some info ↦
        (if is_member (map (λ i. i.pin_mode) info) v
            then (do
              cache ← setup_cache P IfClass
              l ← conflicts_in ifname (str v)
              lift (unconfigured cache l))
            else raise inval_arg_error)
          w
  ]

  unfoldable pub validate_pin : ℕ → Attributes P IfClass → Exec W (Unit {0})
  unfolding validate_if check_pin_mode load
  validate_pin o a = do
    validate_if P o a
    b ← load P IfClass o
    v ← lift (value_of b.value)
    check_pin_mode a.ifname v

  -- the body of `remove` after the object was found
  unfoldable pub remove_found : Text → Option Object → ℕ → Exec W (Unit {0})
  unfolding get_new_mapping on_tai
  remove_found ifname obj m w =
      (do
        mapping ← on_tai P IfClass (get_new_mapping P w.devices.oids m ifname)
        on_tai P IfClass (P.set (tai_module m) (codes "tributary-mapping") (text (P.dumps mapping)))
        elim obj [ none ↦ raise attribute_error | some x ↦ on_tai P IfClass (P.remove (oid x)) ])
        w

  -- whether an interface was removed: a TAIException of the search passes
  unfoldable pub remove_result : Text → Result (Option Object × ℕ) → Exec W Bool
  unfolding remove_found
  remove_result ifname (err tai_exception) = pure false
  remove_result ifname (err e) = raise e
  remove_result ifname (ok (obj, m)) = do remove_found ifname obj m; pure true

  unfoldable pub remove_one : Text → Exec W Bool
  unfolding on_devices ifname2taiobj remove_result
  remove_one ifname w =
      let (r, w') = on_devices P IfClass (ifname2taiobj P ifname) w in remove_result ifname r w'

  -- remove(ifnames)
  unfoldable pub remove : List Text → Exec W (List Text)
  unfolding remove_one
  remove [] = pure []
  remove (ifname ∷ l) = do
    done ← remove_one ifname
    rest ← remove l
    pure (if done then ifname ∷ rest else rest)

  unfoldable pub create_one : P.Config → Text → Exec W (Unit {0})
  unfolding on_devices on_tai create_interface default_mapping
  create_one cache ifname = do
    made ←
        on_devices P IfClass
          (create_interface P ifname (config_or_empty (P.interface_of cache (if_xpath ifname))))
    on_tai P IfClass (λ s.
        P.set (tai_module made.1) (codes "tributary-mapping")
          (text (P.dumps (default_mapping (P.netifs made.1 s) (P.hostifs made.1 s)))) s)

  unfoldable pub create_each : P.Config → List Text → Exec W (Unit {0})
  unfolding create_one
  create_each cache [] = pure tt
  create_each cache (ifname ∷ l) = do create_one cache ifname; create_each cache l

  -- create(ifnames)
  unfoldable pub create : List Text → Exec W (List Text)
  unfolding setup_cache create_each
  create l = do cache ← setup_cache P IfClass; create_each cache l; pure l

  -- the interfaces that the original pin mode took away and the new one does not
  unfoldable pub given_back : Attributes P IfClass → Exec W (List Text)
  unfolding original_of conflicts_in difference
  given_back a = do
    l ← lift (original_of P IfClass a)
    original ← lift (item l 0)
    before ← conflicts_in a.ifname original
    v ← lift (value_of a.value)
    now ← conflicts_in a.ifname (str v)
    pure (P.iterate (difference before now))

  unfoldable pub apply_pin : ℕ → Attributes P IfClass → Exec W (Unit {0})
  unfolding conflicts_in remove load save apply_attributes given_back create
  apply_pin o a = do
    v ← lift (value_of a.value)
    l ← conflicts_in a.ifname (str v)
    removed ← remove l
    save P IfClass o (record a { removed = removed })
    apply_attributes P IfClass o (record a { removed = removed })
    b ← load P IfClass o
    back ← given_back b
    created ← create back
    save P IfClass o (record b { created = created })

  unfoldable pub revert_pin : Attributes P IfClass → Exec W (Unit {0})
  unfolding remove create revert_attributes
  revert_pin a = do remove a.created; revert_attributes P IfClass a; create a.removed; pure tt
