-- ===== src/Openconfig/Channel.antt =====
-- The handlers of optical channels in src/xlate/openconfig/goldstone/xlate/openconfig/platform.py,
-- with the template of OpenConfigChangeHandler in lib.py. The three classes share all but their items.
pub mod Modes
pub mod Unbound
use goldstone_mgmt.Base.{
  ℕ, ◌*◌, Bool, true, false, ◌&&◌, Option, none, some, List, [], ◌∷◌, ◌++◌, Result, ok, err, Exn,
  index_error, assertion_error, not_found_error, name_error, key_error, inval_arg_error, type_error,
  if◌then◌else◌, ◌==◌, nat_eq, text_eq,
}
use goldstone_mgmt.Base.Dict
use goldstone_mgmt.Base.Dict.{Dict}
use goldstone_mgmt.Base.Exec.{Exec, pure, raise, lift, ◌>>=◌, ◌>>◌}
use goldstone_mgmt.Base.Text.{Text, codes}
use goldstone_mgmt.Core.{ChangeType, is_deleted}
use goldstone_mgmt.Core.Handlers.{XpathStep, name_key, has_prefix}
use goldstone_mgmt.Connector.Session.{Sysrepo, Session, Value, text, single, get, set, delete}
use goldstone_mgmt.Openconfig.Names.{parse_oc_optical_channel}

pub data ChannelClass : Type 0 where
  frequency target_output_power operational_mode : ChannelClass

-- What a mode sets: line rate, modulation format, FEC type and mapping of the client's signal.
pub record Mode (A : Type 0) : Type 0 where
  pub line_rate : A
  pub modulation_format : A
  pub fec_type : A
  pub client_signal_mapping_type : A

abbrev pub OperationalModes : Type 0
OperationalModes = Dict ℕ (Dict Text Text)

abbrev pub four : Option Text → Option Text → Option Text → Option Text → Option (Mode Text)
four (some l) (some m) (some f) (some c) =
    some (record {
      line_rate = l;
      modulation_format = m;
      fec_type = f;
      client_signal_mapping_type = c;
    })
four _ _ _ _ = none

pub mode_of : Dict Text Text → Option (Mode Text)
mode_of d =
    four (Dict.get d (codes "line-rate")) (Dict.get d (codes "modulation-format"))
      (Dict.get d (codes "fec-type")) (Dict.get d (codes "client-signal-mapping-type"))

-- `_tranmission_mode`: None for a mode that is missing or not complete
pub transmission_mode : OperationalModes → ℕ → Option (Mode Text)
unfolding mode_of
transmission_mode modes mode = elim (Dict.get modes mode) [ none ↦ none | some d ↦ mode_of d ]

-- PlatformChangeHandler.__init__
pub component_of : List XpathStep → Result Text
component_of [] = err index_error
component_of (x ∷ []) =
    if has_prefix x (codes "openconfig-platform") && x.name == codes "components"
    then err index_error
    else err assertion_error
component_of (x ∷ y ∷ xs) =
    if has_prefix x (codes "openconfig-platform")
      && (x.name == codes "components" && y.name == codes "component")
    then name_key y.list_keys
    else err assertion_error

-- The attributes that `_setup` and `_validate_parent` set.
pub record Channel : Type 0 where
  pub module_name : Text
  pub netif : Text
  pub module_created : Bool
  pub netif_created : Bool

-- GS_TRANSPONDER_MODULE, GS_TRANSPONDER_NETIF and the paths under them
pub module_xpath : Text → Text
module_xpath m = codes "/goldstone-transponder:modules/module[name='" ++ (m ++ codes "']")

pub module_name_xpath : Text → Text
unfolding module_xpath
module_name_xpath m = module_xpath m ++ codes "/config/name"

pub netif_xpath : Channel → Text
unfolding module_xpath
netif_xpath c =
    module_xpath c.module_name ++ (codes "/network-interface[name='" ++ (c.netif ++ codes "']"))

pub netif_config : Channel → Text → Text
unfolding netif_xpath
netif_config c leaf = netif_xpath c ++ (codes "/config/" ++ leaf)

-- `_setup`
pub setup : Text → Result Channel
setup name = elim (parse_oc_optical_channel name) [
  | err e ↦ err e
  | ok (m, n) ↦
      ok (record { module_name = m; netif = n; module_created = false; netif_created = false })
]

module _ (S : Sysrepo) (number : ℕ → S.Data) (str : Text → S.Data)
    (field : S.Data → Text → Option S.Data) (sess : Session S) where
  open S use {State, Data}

  -- The value of a change.
  pub data ChannelValue : Type 0 where
    megahertz : ℕ → ChannelValue
    power : Data → ChannelValue
    mode_number : ℕ → ChannelValue

  -- The value or the values of the Goldstone item.
  pub data Item : Type 0 where
    one : Data → Item
    mode : Mode (Option Data) → Item

  -- `_translate`
  pub translate : ChannelClass → OperationalModes → ChannelValue → Result (Option Item)
  unfolding transmission_mode
  translate frequency modes (megahertz f) = ok (some (one (number (f * 1000000))))
  translate target_output_power modes (power p) = ok (some (one p))
  translate operational_mode modes (mode_number n) = elim (transmission_mode modes n) [
    | none ↦ ok none
    | some m ↦ ok (
        some (
          mode (record {
            line_rate = some (str m.line_rate);
            modulation_format = some (str m.modulation_format);
            fec_type = some (str m.fec_type);
            client_signal_mapping_type = some (str m.client_signal_mapping_type);
          })))
  ]
  translate _ modes v = err type_error

  pub read_leaf : Text → Exec State Data
  read_leaf xpath = get S sess xpath S.none_data false true false

  abbrev is_absent : Option Data → Bool
  is_absent none = true
  is_absent (some d) = false

  abbrev none_there : Mode (Option Data) → Bool
  none_there m =
      is_absent m.line_rate
      && (is_absent m.modulation_format
          && (is_absent m.fec_type && is_absent m.client_signal_mapping_type))

  -- the values of a config, or NotFoundError where there is none of them
  pub config_values : Data → Result Item
  config_values config =
      let m : Mode (Option Data) = record {
        line_rate = field config (codes "line-rate");
        modulation_format = field config (codes "modulation-format");
        fec_type = field config (codes "fec-type");
        client_signal_mapping_type = field config (codes "client-signal-mapping-type");
      } in
      if none_there m then err not_found_error else ok (mode m)

  -- `_get_item` of the mode: without a config the four variables are not bound, which is a NameError
  pub mode_values : Data → Result Item
  unfolding config_values
  mode_values netif =
      if S.is_none netif then err not_found_error else elim (field netif (codes "config")) [
        | none ↦ err name_error
        | some config ↦ config_values config
      ]

  pub get_item : ChannelClass → Channel → Exec State Item
  unfolding read_leaf mode_values netif_config netif_xpath
  get_item frequency c = do d ← read_leaf (netif_config c (codes "tx-laser-freq")); pure (one d)
  get_item target_output_power c = do
    d ← read_leaf (netif_config c (codes "output-power"))
    pure (one d)
  get_item operational_mode c = do d ← read_leaf (netif_xpath c); lift (mode_values d)

  -- one value of a mode: None deletes
  pub set_or_delete : Text → Option Data → Exec State (Unit {0})
  set_or_delete xpath none = delete S sess xpath
  set_or_delete xpath (some d) = set S sess xpath (single d)

  pub set_values : ChannelClass → Channel → Item → Exec State (Unit {0})
  unfolding netif_config set_or_delete
  set_values frequency c (one d) = set S sess (netif_config c (codes "tx-laser-freq")) (single d)
  set_values target_output_power c (one d) =
      set S sess (netif_config c (codes "output-power")) (single d)
  set_values operational_mode c (mode m) = do
    set_or_delete (netif_config c (codes "line-rate")) m.line_rate
    set_or_delete (netif_config c (codes "modulation-format")) m.modulation_format
    set_or_delete (netif_config c (codes "fec-type")) m.fec_type
    set_or_delete (netif_config c (codes "client-signal-mapping-type")) m.client_signal_mapping_type
  set_values k c i = raise type_error

  -- `_set_item`
  pub set_item : ChannelClass → Channel → Item → Exec State (Unit {0})
  unfolding set_values module_name_xpath netif_config
  set_item k c i = do
    set S sess (module_name_xpath c.module_name) (text c.module_name)
    set S sess (netif_config c (codes "name")) (text c.netif)
    set_values k c i

  pub delete_values : ChannelClass → Channel → Exec State (Unit {0})
  unfolding netif_config
  delete_values frequency c = delete S sess (netif_config c (codes "tx-laser-freq"))
  delete_values target_output_power c = delete S sess (netif_config c (codes "output-power"))
  delete_values operational_mode c = do
    delete S sess (netif_config c (codes "line-rate"))
    delete S sess (netif_config c (codes "modulation-format"))
    delete S sess (netif_config c (codes "fec-type"))
    delete S sess (netif_config c (codes "client-signal-mapping-type"))

  -- `_delete_item`
  pub delete_item : ChannelClass → Channel → Exec State (Unit {0})
  unfolding delete_values module_xpath netif_xpath
  delete_item k c =
      if c.module_created
      then delete S sess (module_xpath c.module_name)
      else if c.netif_created
      then delete S sess (netif_xpath c)
      else delete_values k c

  -- `_validate_parent`
  pub validate_parent : Channel → Exec State Channel
  unfolding read_leaf module_xpath netif_xpath
  validate_parent c = do
    m ← read_leaf (module_xpath c.module_name)
    n ← read_leaf (netif_xpath c)
    pure (record c { module_created = S.is_none m; netif_created = S.is_none n })

  -- The attributes of a handler object.
  pub record Attributes : Type 0 where
    pub kind : ChannelClass
    pub change_type : ChangeType
    pub change_value : ChannelValue
    pub name : Text
    pub channel : Channel
    pub value : Option Item
    pub original_value : Option Item

  -- `except NotFoundError: pass`
  pub original_of : Result Item → Result (Option Item)
  original_of (ok i) = ok (some i)
  original_of (err not_found_error) = ok none
  original_of (err e) = err e

  pub get_original : Attributes → Channel → Exec State (Option Item)
  unfolding get_item original_of
  get_original a c s = let (r, s') = get_item a.kind c s in (original_of r, s')

  -- the value of an item as a condition: a tuple is true
  pub holds : Option Item → Bool
  holds none = false
  holds (some (one d)) = S.truthy d
  holds (some (mode m)) = true

  pub translated : Result (Option Item) → Result Item
  translated (err e) = err e
  translated (ok none) = err inval_arg_error
  translated (ok (some i)) = ok i

  -- `validate`, with the object that it leaves
  pub validate : OperationalModes → Attributes → Exec State Attributes
  unfolding get_original translate translated validate_parent
  validate modes a = do
    c ← lift (setup a.name)
    original ← get_original a c
    if is_deleted a.change_type
        then pure (record a { channel = c; original_value = original })
        else (do
          v ← lift (translated (translate a.kind modes a.change_value))
          c' ← validate_parent c
          pure (record a { channel = c'; original_value = original; value = some v }))

  pub set_some : Attributes → Option Item → Exec State (Unit {0})
  unfolding set_item
  set_some a none = raise type_error
  set_some a (some i) = set_item a.kind a.channel i

  -- `apply`
  pub apply : Attributes → Exec State (Unit {0})
  unfolding set_some delete_item holds
  apply a =
      if is_deleted a.change_type
      then (if holds a.original_value then delete_item a.kind a.channel else pure tt)
      else set_some a a.value

  -- `revert`
  pub revert : Attributes → Exec State (Unit {0})
  unfolding set_some delete_item holds
  revert a =
      if holds a.original_value
      then set_some a a.original_value
      else if is_deleted a.change_type
      then pure tt
      else delete_item a.kind a.channel
