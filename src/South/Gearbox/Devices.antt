-- ===== src/South/Gearbox/Devices.antt =====
-- What InterfaceServer of src/south/gearbox/goldstone/south/gearbox/interfaces.py does with taish's
-- objects: it finds them by the interfaces' names, creates them, and configures them.
pub mod Found
use goldstone_mgmt.Base.{
  ℕ, Bool, true, false, Option, none, some, List, [], ◌∷◌, ◌++◌, Result, ok, err, name_error,
  attribute_error, type_error, if◌then◌else◌, ◌==◌, nat_eq, text_eq,
}
use goldstone_mgmt.Base.Dict
use goldstone_mgmt.Base.Dict.{Dict, member}
use goldstone_mgmt.Base.Exec.{Exec, pure, raise, lift, ◌>>=◌, ◌>>◌}
use goldstone_mgmt.Base.Text.{Text, codes, int, show}
use goldstone_mgmt.South.Gearbox.{
  Platform, Value, text, number, flag, nothing, lower_value, truthy, is_text, Object, tai_module,
  netif, hostif, oid, before, item, InterfaceConfig,
}
use goldstone_mgmt.South.Gearbox.Names.{ifname_of, numbers_of}
use goldstone_mgmt.South.Gearbox.Keys.{macsec_key}
use goldstone_mgmt.South.Gearbox.Info.{InterfaceInfo, get_default}
use goldstone_mgmt.South.Gearbox.Mapping.{OidMap}

unfoldable pub if_xpath : Text → Text
if_xpath ifname =
    codes "/goldstone-interfaces:interfaces/interface[name='" ++ (ifname ++ codes "']")

abbrev pub empty_config : InterfaceConfig
empty_config = record {
  interface_type = none;
  admin_status = none;
  mfi_type = none;
  fec = none;
  mtu = none;
  key = none;
  enabled = none;
}

abbrev pub config_or_empty : Option InterfaceConfig → InterfaceConfig
config_or_empty none = empty_config
config_or_empty (some c) = c

-- config.get(key, default), with None where neither is there
abbrev pub or_default : Option Value → Option Value → Value
or_default (some v) d = v
or_default none (some d) = d
or_default none none = nothing

-- the provision mode of an interface that is up, or not
unfoldable pub mode_of : Text → Value → Value
mode_of up admin_status = text (if is_text admin_status (codes "UP") then up else codes "none")

-- the first attributes of reconcile_interface; none where `attrs` is never bound
unfoldable pub provisioning : Value → Value → Value → Result (Option (List (Text × Value)))
unfolding mode_of
provisioning iftype admin_status mfi =
    if is_text iftype (codes "IF_OTN")
    then elim (lower_value mfi) [
      | err e ↦ err e
      | ok m ↦ ok (
          some (
            (codes "provision-mode", mode_of (codes "serdes-only") admin_status)
            ∷ (codes "signal-rate", text (codes "otu4"))
            ∷ (codes "otn-mfi-type", m)
            ∷ []))
    ]
    else if is_text iftype (codes "IF_ETHERNET")
    then ok (
        some (
          (codes "provision-mode", mode_of (codes "normal") admin_status)
          ∷ (codes "signal-rate", text (codes "100-gbe"))
          ∷ []))
    else ok none

-- the attributes with the pin mode, if there is one
unfoldable pub with_pin_mode : Option (List (Text × Value)) → Value → Result (List (Text × Value))
with_pin_mode none pin_mode = err name_error
with_pin_mode (some attrs) pin_mode =
    if truthy pin_mode
    then elim (lower_value pin_mode) [
      | err e ↦ err e
      | ok p ↦ ok (attrs ++ (codes "pin-mode", p) ∷ [])
    ]
    else ok attrs

-- int(v) of a default
unfoldable pub to_int : Value → Result Value
to_int (text t) = elim (int t) [ err e ↦ err e | ok n ↦ ok (number n) ]
to_int (number n) = ok (number n)
to_int (flag b) = ok (number (if b then 1 else 0))
to_int nothing = err type_error

module _ (P : Platform) where
  -- the key of the configuration in taish's words
  unfoldable pub key_value : Value → Result Value
  key_value (text t) = elim (macsec_key P t) [ err e ↦ err e | ok k ↦ ok (text k) ]
  key_value v = if truthy v then err type_error else ok (text [])

  -- The interface server's state; `created` is what was put into `notif_task_q`.
  pub record Devices : Type 0 where
    pub info : InterfaceInfo
    pub oids : OidMap
    pub ignored : List Text
    pub initializing : Bool
    pub created : List (Text × Object)
    pub platform : P.State

  unfoldable pub on_platform : {A : Type 0} → Exec P.State A → Exec Devices A
  on_platform m d = let (r, s) = m d.platform in (r, record d { platform = s })

  unfoldable pub default_of : Text → Text → Exec Devices (Option Value)
  default_of key ifname d = (get_default P d.info key ifname, d)

  unfoldable pub not_ignored : List Text → Dict Text ℕ → Dict Text ℕ
  not_ignored ignored [] = []
  not_ignored ignored ((loc, m) ∷ l) =
      let rest = not_ignored ignored l in if member ignored loc then rest else (loc, m) ∷ rest

  unfoldable pub list_modules : Exec Devices (Dict Text ℕ)
  unfolding on_platform not_ignored
  list_modules d = (do modules ← on_platform P.list; pure (not_ignored d.ignored modules)) d

  -- an interface with its name, its object and its module
  abbrev pub Named : Type 0
  Named = Text × Object × ℕ

  unfoldable pub named : Text → ℕ → (ℕ → Object) → ℕ → List (ℕ × ℕ) → List Named
  named loc m make type_ [] = []
  named loc m make type_ ((index, n) ∷ l) =
      (ifname_of loc type_ index, make n, m) ∷ named loc m make type_ l

  unfoldable pub names_of : Option Text → Dict Text ℕ → P.State → List Named
  unfolding named
  names_of gearbox [] s = []
  names_of gearbox ((loc, m) ∷ l) s =
      let rest = names_of gearbox l s in
      let here =
        named loc m hostif 0 (P.hostifs m s) ++ (named loc m netif 1 (P.netifs m s) ++ rest) in
      elim gearbox [ none ↦ here | some g ↦ if g == loc then here else rest ]

  -- get_ifname_list; an empty gearbox is none
  unfoldable pub get_ifname_list : Option Text → Exec Devices (List Named)
  unfolding list_modules names_of
  get_ifname_list gearbox = do
    modules ← list_modules
    λ d. (ok (names_of gearbox modules d.platform), d)

  -- the object at a place of a module's side; a third side has none
  unfoldable pub object_at : ℕ → ℕ → ℕ → Exec P.State (Option Object)
  object_at m side place =
      if side == 0
      then (do n ← P.get_hostif m (before place); pure (some (hostif n)))
      else if side == 1
      then (do n ← P.get_netif m (before place); pure (some (netif n)))
      else pure none

  -- ifname2taiobj with its module
  unfoldable pub ifname2taiobj : Text → Exec Devices (Option Object × ℕ)
  unfolding on_platform object_at
  ifname2taiobj ifname = do
    v ← lift (numbers_of ifname)
    loc ← lift (item v 0)
    m ← on_platform (P.get_module (show loc))
    place ← lift (item v 2)
    side ← lift (item v 1)
    obj ← on_platform (object_at m side place)
    pure (obj, m)

  unfoldable pub default_pin_mode : Text → Exec Devices Value
  unfolding default_of
  default_pin_mode ifname = do d ← default_of (codes "pin-mode") ifname; pure (or_default none d)

  unfoldable pub get_pin_mode : Text → Exec Devices Value
  unfolding on_platform default_pin_mode if_xpath
  get_pin_mode ifname = do
    v ← on_platform (P.running_leaf (if_xpath ifname ++ codes "/config/pin-mode"))
    elim v [
      | none ↦ default_pin_mode ifname
      | some p ↦ if truthy p then pure p else default_pin_mode ifname
    ]

  -- the last attribute, which depends on the side
  unfoldable pub set_side : Object → InterfaceConfig → Option Value → Exec Devices (Unit {0})
  unfolding on_platform key_value
  set_side (netif n) config enabled = do
    k ← lift (key_value (or_default config.key none))
    on_platform (P.set (netif n) (codes "macsec-static-key") k)
  set_side (hostif n) config enabled = on_platform (
      P.set (hostif n) (codes "auto-negotiation")
        (text (if truthy (or_default config.enabled enabled) then codes "true" else codes "false")))
  set_side (tai_module n) config enabled = pure tt

  -- the MTU, `int` of the default where the configuration has none
  unfoldable pub mtu_of : Option Value → Option Value → Result Value
  mtu_of (some v) d = ok v
  mtu_of none d = to_int (or_default none d)

  unfoldable pub reconcile_interface : Text → Object → InterfaceConfig → Exec Devices (Unit {0})
  unfolding on_platform default_of provisioning get_pin_mode with_pin_mode set_side mtu_of
  reconcile_interface ifname obj config = do
    iftype ← default_of (codes "interface-type") ifname
    admin ← default_of (codes "admin-status") ifname
    mfi ← default_of (codes "mfi-type") ifname
    attrs ← lift (
        provisioning (or_default config.interface_type iftype)
          (or_default config.admin_status admin) (or_default config.mfi_type mfi))
    pin_mode ← get_pin_mode ifname
    all ← lift (with_pin_mode attrs pin_mode)
    on_platform (P.set_multiple obj all)
    fec ← default_of (codes "fec") ifname
    f ← lift (lower_value (or_default config.fec fec))
    on_platform (P.set obj (codes "fec-type") f)
    mtu ← default_of (codes "mtu") ifname
    m ← lift (mtu_of config.mtu mtu)
    on_platform (P.set obj (codes "mtu") m)
    on_platform (P.set obj (codes "mru") m)
    enabled ← default_of (codes "enabled") ifname
    set_side obj config enabled

  -- the loop of reconcile
  unfoldable pub reconcile_all : List Named → Exec Devices (Unit {0})
  unfolding on_platform reconcile_interface if_xpath
  reconcile_all [] = pure tt
  reconcile_all ((ifname, obj, m) ∷ l) = do
    config ← on_platform (P.running_interface (if_xpath ifname))
    reconcile_interface ifname obj (config_or_empty config)
    reconcile_all l

  unfoldable pub reconcile : Exec Devices (Unit {0})
  unfolding get_ifname_list reconcile_all
  reconcile = do l ← get_ifname_list none; reconcile_all l

  -- the new object at a place of a module's side; on a third side `obj` is never bound
  unfoldable pub create_at : ℕ → ℕ → ℕ → Exec P.State Object
  create_at m side place =
      if side == 0
      then (do n ← P.create_hostif m (before place); pure (hostif n))
      else if side == 1
      then (do n ← P.create_netif m (before place); pure (netif n))
      else raise name_error

  unfoldable pub remember : Text → Object → Exec Devices (Unit {0})
  remember ifname obj d = (
    ok tt,
    record d { created = d.created ++ (ifname, obj) ∷ []; oids = Dict.put d.oids (oid obj) obj },
  )

  unfoldable pub create_interface : Text → InterfaceConfig → Exec Devices (Object × ℕ)
  unfolding on_platform create_at reconcile_interface remember
  create_interface ifname config = do
    v ← lift (numbers_of ifname)
    loc ← lift (item v 0)
    m ← on_platform (P.get_module (show loc))
    place ← lift (item v 2)
    side ← lift (item v 1)
    obj ← on_platform (create_at m side place)
    reconcile_interface ifname obj config
    remember ifname obj
    pure (obj, m)
