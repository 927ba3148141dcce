-- ===== src/Openconfig/Interface.antt =====
-- The operational state of src/xlate/openconfig/goldstone/xlate/openconfig/interfaces.py: the classes
-- Interface, EthernetCSMACD and InterfaceFactory. A record stands for a dict with fixed keys; an
-- absent key and None are both `none`, as `get` does not tell them apart.
pub mod Created
mod Tests
use goldstone_mgmt.Base.{
  ℕ, ◌+◌, ◌%◌, Bool, true, false, not, ◌&&◌, Option, none, some, List, [], ◌∷◌, if◌then◌else◌, ◌==◌,
  text_eq,
}
use goldstone_mgmt.Base.Dict
use goldstone_mgmt.Base.Dict.{Dict, member}
use goldstone_mgmt.Base.Text.{Text, codes}
use goldstone_mgmt.Openconfig.Names.{terminal_client_port}

-- `counters` of a Goldstone interface
pub record Counters : Type 0 where
  pub in_octets : Option ℕ
  pub in_unicast_pkts : Option ℕ
  pub in_broadcast_pkts : Option ℕ
  pub in_multicast_pkts : Option ℕ
  pub in_discards : Option ℕ
  pub in_errors : Option ℕ
  pub in_unknown_protos : Option ℕ
  pub out_octets : Option ℕ
  pub out_unicast_pkts : Option ℕ
  pub out_broadcast_pkts : Option ℕ
  pub out_multicast_pkts : Option ℕ
  pub out_discards : Option ℕ
  pub out_errors : Option ℕ

-- `state` and `ethernet/state` of a Goldstone interface
pub record State : Type 0 where
  pub description : Option Text
  pub admin_status : Option Text
  pub oper_status : Option Text
  pub interface_type : Option Text
  pub counters : Option Counters

pub record EthernetState : Type 0 where
  pub mtu : Option ℕ
  pub fec : Option Text

-- A Goldstone interface; `component` is component-connection/platform/component, `none` where a key on
-- the way is missing.
pub record GsInterface : Type 0 where
  pub name : Text
  pub component : Option Text
  pub state : Option State
  pub ethernet : Option (Option EthernetState)

-- `data`: the OpenConfig object, with the leaves of its `state`
pub record Data : Type 0 where
  pub name : Text
  pub hardware_port : Option Text
  pub type : Option Text
  pub description : Option Text
  pub admin_status : Option Text
  pub oper_status : Option Text
  pub enabled : Option Bool
  pub counters : Dict Text ℕ
  pub mtu : Option ℕ
  pub fec_mode : Option Text

-- EthernetCSMACD._enabled
pub enabled_of : Text → Bool
enabled_of admin_status = admin_status == codes "UP"

-- EthernetCSMACD._admin_status
pub admin_status_of : Text → Text
admin_status_of a =
    if member (codes "UP" ∷ codes "DOWN" ∷ codes "TESTING" ∷ []) a then a else codes "DOWN"

abbrev oper_statuses : List Text
oper_statuses =
    codes "UP"
    ∷ codes "DOWN"
    ∷ codes "TESTING"
    ∷ codes "UNKNOWN"
    ∷ codes "DORMANT"
    ∷ codes "NOT_PRESENT"
    ∷ codes "LOWER_LAYER_DOWN"
    ∷ []

-- EthernetCSMACD._oper_status
pub oper_status_of : Text → Text
oper_status_of o = if member oper_statuses o then o else codes "UNKNOWN"

-- `if x is not None: pkts += x`
pub add_some : ℕ → Option ℕ → ℕ
add_some pkts none = pkts
add_some pkts (some x) = pkts + x

-- EthernetCSMACD._in_pkts
pub in_pkts_of : Counters → ℕ
unfolding add_some
in_pkts_of c =
    let pkts = add_some 0 c.in_unicast_pkts in
    let pkts = add_some pkts c.in_broadcast_pkts in
    let pkts = add_some pkts c.in_multicast_pkts in
    let pkts = add_some pkts c.in_discards in
    let pkts = add_some pkts c.in_errors in
    let pkts = add_some pkts c.in_unknown_protos in pkts % 18446744073709551616

-- EthernetCSMACD._out_pkts
pub out_pkts_of : Counters → ℕ
unfolding add_some
out_pkts_of c =
    let pkts = add_some 0 c.out_unicast_pkts in
    let pkts = add_some pkts c.out_broadcast_pkts in
    let pkts = add_some pkts c.out_multicast_pkts in
    let pkts = add_some pkts c.out_discards in
    let pkts = add_some pkts c.out_errors in pkts % 18446744073709551616

-- EthernetCSMACD._fec_mode
unfoldable pub fec_mode_of : Text → Text
fec_mode_of fec =
    if fec == codes "FC"
    then codes "FEC_FC"
    else if fec == codes "RS"
    then codes "FEC_RS528"
    else if fec == codes "NONE"
    then codes "FEC_DISABLED"
    else codes "FEC_DISABLED"

abbrev is_none : {A : Type 0} → Option A → Bool
is_none none = true
is_none (some a) = false

-- {k: v for k, v in counters.items() if v is not None}
pub present : Dict Text (Option ℕ) → Dict Text ℕ
present [] = []
present ((k, none) ∷ d) = present d
present ((k, some v) ∷ d) = (k, v) ∷ present d

abbrev pub in_missing : Counters → Bool
in_missing c =
    is_none c.in_unicast_pkts
    && (is_none c.in_broadcast_pkts
        && (is_none c.in_multicast_pkts
            && (is_none c.in_discards && (is_none c.in_errors && is_none c.in_unknown_protos))))

abbrev pub out_missing : Counters → Bool
out_missing c =
    is_none c.out_unicast_pkts
    && (is_none c.out_broadcast_pkts
        && (is_none c.out_multicast_pkts && (is_none c.out_discards && is_none c.out_errors)))

-- the dict `counters` of `translate`, in its order of insertion
pub counters_of : Counters → Dict Text ℕ
unfolding present in_pkts_of out_pkts_of
counters_of c = present (
    (codes "in-octets", c.in_octets)
    ∷ (codes "in-unicast-pkts", c.in_unicast_pkts)
    ∷ (codes "in-broadcast-pkts", c.in_broadcast_pkts)
    ∷ (codes "in-multicast-pkts", c.in_multicast_pkts)
    ∷ (codes "in-discards", c.in_discards)
    ∷ (codes "in-errors", c.in_errors)
    ∷ (codes "in-unknown-protos", c.in_unknown_protos)
    ∷ (codes "out-octets", c.out_octets)
    ∷ (codes "out-unicast-pkts", c.out_unicast_pkts)
    ∷ (codes "out-broadcast-pkts", c.out_broadcast_pkts)
    ∷ (codes "out-multicast-pkts", c.out_multicast_pkts)
    ∷ (codes "out-discards", c.out_discards)
    ∷ (codes "out-errors", c.out_errors)
    ∷ (codes "in-pkts", (if in_missing c then none else some (in_pkts_of c)))
    ∷ (codes "out-pkts", (if out_missing c then none else some (out_pkts_of c)))
    ∷ [])

abbrev map_some : {A B : Type 0} → (A → B) → Option A → Option B
map_some f none = none
map_some f (some a) = some (f a)

-- EthernetCSMACD.__init__ with Interface.__init__
pub new_data : Text → Option Text → Data
new_data name port_name = record {
  name = name;
  hardware_port = port_name;
  type = some (codes "iana-if-type:ethernetCsmacd");
  description = none;
  admin_status = none;
  oper_status = none;
  enabled = none;
  counters = [];
  mtu = none;
  fec_mode = none;
}

-- the part of `translate` for `state`
pub translate_state : Option State → Data → Data
unfolding enabled_of admin_status_of oper_status_of counters_of
translate_state none d = d
translate_state (some s) d = record d {
  description = s.description;
  enabled = map_some enabled_of s.admin_status;
  admin_status = map_some admin_status_of s.admin_status;
  oper_status = map_some oper_status_of s.oper_status;
  counters = elim s.counters [ none ↦ [] | some c ↦ counters_of c ];
}

-- the part for `ethernet`
pub translate_ethernet : Option (Option EthernetState) → Data → Data
unfolding fec_mode_of
translate_ethernet (some (some e)) d = record d {
  mtu = e.mtu;
  fec_mode = map_some fec_mode_of e.fec;
}
translate_ethernet _ d = d

-- EthernetCSMACD.translate
pub translate : GsInterface → Data → Data
unfolding translate_state translate_ethernet
translate i d = translate_ethernet i.ethernet (translate_state i.state d)

-- A component of Goldstone, by its name.
module _ (components : Dict Text Text) where
  -- the first try of `_create_interfaces`: a missing key leaves no port
  pub port_name_of : GsInterface → Option Text
  port_name_of i = elim i.component [
    | none ↦ none
    | some n ↦ elim (Dict.get components n) [ none ↦ none | some c ↦ some (terminal_client_port c) ]
  ]

  pub iftype_of : Option State → Text
  iftype_of none = codes "IF_ETHERNET"
  iftype_of (some s) = elim s.interface_type [ none ↦ codes "IF_ETHERNET" | some t ↦ t ]

  -- InterfaceFactory.create with `_create_interfaces`
  pub create : List GsInterface → List Data
  unfolding port_name_of iftype_of new_data translate
  create [] = []
  create (i ∷ is) =
      let rest = create is in
      if iftype_of i.state == codes "IF_ETHERNET"
      then translate i (new_data i.name (port_name_of i)) ∷ rest
      else rest
