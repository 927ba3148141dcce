-- ===== src/South/Gearbox/Info.antt =====
-- What InterfaceServer of src/south/gearbox/goldstone/south/gearbox/interfaces.py knows of its
-- interfaces: the platform's description, and the schema's defaults.
pub mod Grouped
use goldstone_mgmt.Base.{
  Bool, true, false, Option, none, some, List, [], ◌∷◌, ◌++◌, Result, ok, err, assertion_error,
  key_error, if◌then◌else◌, ◌==◌, text_eq,
}
use goldstone_mgmt.Base.Dict
use goldstone_mgmt.Base.Dict.{Dict}
use goldstone_mgmt.Base.Text.{Text, codes}
use goldstone_mgmt.South.Gearbox.{Platform, Value, text, flag, upper}

-- The value of "interface" in an item; `name` and `pin_mode` are there, by the assertions.
-- `conflicts_with` is [] and `component` and `tai` are none where the key is missing.
pub record Interface : Type 0 where
  pub name : Text
  pub pin_mode : Text
  pub default : Option Bool
  pub conflicts_with : List Text
  pub component : Option Text
  pub tai : Option (Text × Text)

-- the value of "synce-reference-clock": the gearbox's name and its own, and the DPLL's and the
-- input reference's
pub record Clock : Type 0 where
  pub gearbox : Text
  pub name : Text
  pub dpll : Text
  pub input_reference : Text

pub data PlatformItem : Type 0 where
  interface : Interface → PlatformItem
  incomplete_interface : PlatformItem
  clock : Clock → PlatformItem
  other_item : PlatformItem

abbrev pub InterfaceInfo : Type 0
InterfaceInfo = Dict Text (List Interface)

abbrev pub infos : InterfaceInfo → Text → List Interface
infos info name = elim (Dict.get info name) [ none ↦ [] | some l ↦ l ]

-- the loop of InterfaceServer.__init__
unfoldable pub ifinfo_of : InterfaceInfo → List PlatformItem → Result InterfaceInfo
ifinfo_of info [] = ok info
ifinfo_of info (interface i ∷ is) =
    ifinfo_of (Dict.put info i.name (infos info i.name ++ i ∷ [])) is
ifinfo_of info (incomplete_interface ∷ is) = err assertion_error
ifinfo_of info (clock c ∷ is) = ifinfo_of info is
ifinfo_of info (other_item ∷ is) = ifinfo_of info is

-- self.synce_ref_clock_info.get((gearbox, name)): the last item with these names
unfoldable pub clock_info : List PlatformItem → Text → Text → Option Clock
clock_info [] gearbox name = none
clock_info (clock c ∷ is) gearbox name = elim (clock_info is gearbox name) [
  | some d ↦ some d
  | none ↦ if c.gearbox == gearbox then (if c.name == name then some c else none) else none
]
clock_info (_ ∷ is) gearbox name = clock_info is gearbox name

-- get_interface_info(ifname)
unfoldable pub interface_info : InterfaceInfo → Text → Option (List Interface)
interface_info info ifname = elim (Dict.get info ifname) [
  | none ↦ none
  | some [] ↦ none
  | some (i ∷ is) ↦ some (i ∷ is)
]

unfoldable pub with_pin_mode : Text → List Interface → Option Interface
with_pin_mode p [] = none
with_pin_mode p (i ∷ is) = if i.pin_mode == p then some i else with_pin_mode p is

-- get_interface_info(ifname, pin_mode)
unfoldable pub info_for : InterfaceInfo → Text → Text → Option Interface
unfolding interface_info with_pin_mode
info_for info ifname p = elim (interface_info info ifname) [
  | none ↦ none
  | some (i ∷ []) ↦ some i
  | some is ↦ with_pin_mode p is
]

unfoldable pub get_conflicting_ifnames : InterfaceInfo → Text → Text → List Text
unfolding info_for
get_conflicting_ifnames info ifname p = elim (info_for info ifname p) [
  | none ↦ []
  | some i ↦ i.conflicts_with
]

-- the interface's pin mode that is the default: `i["interface"]["default"]` must be there
unfoldable pub default_pin_mode : List Interface → Result (Option Text)
default_pin_mode [] = ok none
default_pin_mode (i ∷ is) = elim i.default [
  | none ↦ err key_error
  | some true ↦ ok (some i.pin_mode)
  | some false ↦ default_pin_mode is
]

-- get_default("pin-mode", ifname) without `upper`
unfoldable pub pin_mode_default : InterfaceInfo → Text → Result (Option Text)
unfolding interface_info default_pin_mode
pin_mode_default info ifname = elim (interface_info info ifname) [
  | none ↦ ok none
  | some (i ∷ []) ↦ ok (some i.pin_mode)
  | some is ↦ default_pin_mode is
]

abbrev pub prefixed : List Text → Text
prefixed [] = []
prefixed (v ∷ vs) = codes "/goldstone-interfaces:" ++ (v ++ prefixed vs)

unfoldable pub key_paths : Text → List (List Text)
key_paths key =
    (codes "interfaces" ∷ codes "interface" ∷ codes "config" ∷ key ∷ [])
    ∷ (codes "interfaces" ∷ codes "interface" ∷ codes "ethernet" ∷ codes "config" ∷ key ∷ [])
    ∷ (codes "interfaces" ∷ codes "interface" ∷ codes "otn" ∷ codes "config" ∷ key ∷ [])
    ∷ (codes "interfaces"
        ∷ codes "interface"
        ∷ codes "ethernet"
        ∷ codes "auto-negotiate"
        ∷ codes "config"
        ∷ key
        ∷ [])
    ∷ []

module _ (P : Platform) where
  -- the default of the first path that the schema knows
  unfoldable pub schema_default : List (List Text) → Option Value
  schema_default [] = none
  schema_default (k ∷ ks) = elim (P.find_node (prefixed k)) [
    | none ↦ schema_default ks
    | some node ↦ elim node.default [
      | none ↦ if node.boolean then some (flag false) else none
      | some d ↦ some (if node.boolean then flag (d == codes "true") else text d)
    ]
  ]

  unfoldable pub get_default : InterfaceInfo → Text → Text → Result (Option Value)
  unfolding pin_mode_default upper key_paths schema_default
  get_default info key ifname =
      if key == codes "key"
      then ok (some (text []))
      else if key == codes "pin-mode"
      then elim (pin_mode_default info ifname) [
        | err e ↦ err e
        | ok none ↦ ok none
        | ok (some p) ↦ ok (some (text (upper p)))
      ]
      else ok (schema_default (key_paths key))
