-- ===== src/South/Gearbox/Tests.antt =====
-- A device for the theorems about the gearbox servers: its attributes are a dict of texts, and its
-- objects have their object ids as indices.
mod Counters
mod Names
mod Interfaces
mod Modules
use goldstone_mgmt.Base.{
  ℕ, zero, suc, ◌≡◌, refl, true, false, Option, none, some, List, [], ◌∷◌, ◌++◌, Result, ok, err,
  tai_exception, attribute_error, if◌then◌else◌, ◌==◌, nat_eq, text_eq, map, inl, All, arith,
}
use goldstone_mgmt.Base.Dict
use goldstone_mgmt.Base.Dict.{Dict, get-put}
use goldstone_mgmt.Base.Text.{Text, codes, show, show_from, split, join, int, digits_from}
use goldstone_mgmt.Core.{modified}
use goldstone_mgmt.Openconfig.Names.{starts_with}
use goldstone_mgmt.South.Gearbox.{
  Platform, Value, text, number, str, netif, hostif, oid, Index, minus_one, at, before, item, sum,
  take, Connection,
}
use goldstone_mgmt.South.Gearbox.Names.{ifname_of, numbers_of, ints}
use goldstone_mgmt.South.Gearbox.Keys.{macsec_key, unpack, words, word, key_text}
use goldstone_mgmt.South.Gearbox.Keys.Words.{IsWord, all_bytes}
use goldstone_mgmt.South.Gearbox.Counters.{
  parse_counters, counters_at, labelled, common_of, pcs_of, rx_names, tx_names, Common, Pcs,
}
use goldstone_mgmt.South.Gearbox.Counters.Labels.{Agrees}
use goldstone_mgmt.South.Gearbox.Counters.Totals.{parse_counters_lem, total}
use goldstone_mgmt.South.Gearbox.Mapping.{OidMap, new_items}
use goldstone_mgmt.South.Gearbox.Mapping.Excluded.{
  ReadsIndex, IsKnown, Pair, items_of, without_name, new_items-without,
}
use goldstone_mgmt.South.Gearbox.Devices.{
  Devices, on_platform, ifname2taiobj, object_at, names_of, provisioning, if_xpath,
}
use goldstone_mgmt.South.Gearbox.Devices.Found.{located, Finds, names_of-Finds}
use goldstone_mgmt.South.Gearbox.Handlers.{Attributes, World, apply_attributes, differences}
use goldstone_mgmt.South.Gearbox.Interfaces.{IfClass, mtu, pin_mode, admin_value, type_value}
use goldstone_mgmt.South.Gearbox.Interfaces.Modes.{
  ethernet, up, kind_text, admin_text, mode, rate, Sets, IsConfigured, modes_agree,
}
use goldstone_mgmt.South.Gearbox.Interfaces.Applied.{
  written, value_for, TaiLaws, apply_attributes_lem,
}
use goldstone_mgmt.South.Gearbox.Interfaces.PinMode.{remove, revert_pin}
use goldstone_mgmt.South.Gearbox.Modules.{flexible_mapping}
use goldstone_mgmt.South.Gearbox.Modules.State.{connections_of}
use goldstone_mgmt.South.Gearbox.Modules.Shown.{IsInterface, connections-flexible}
use goldstone_mgmt.South.Gearbox.Modules.Start.{ready, poll_of, wait_ready}
use goldstone_mgmt.South.Gearbox.Modules.Ready.{Says, now, later, ignored_after, wait_ready-ends}

abbrev pub Store : Type 0
Store = Dict Text Text

abbrev pub or_empty : Option Text → Text
or_empty none = []
or_empty (some t) = t

abbrev pub found : Option Text → Result Text
found none = err tai_exception
found (some t) = ok t

abbrev pub put_all : Store → List (Text × Value) → Store
put_all s [] = s
put_all s ((n, v) ∷ l) = Dict.put (put_all s l) n (str v)

abbrev pub index_or : Index → ℕ
index_or minus_one = 0
index_or (at n) = n

abbrev pub sixteen : List ℕ
sixteen = 1 ∷ 2 ∷ 3 ∷ 4 ∷ 5 ∷ 6 ∷ 7 ∷ 8 ∷ 9 ∷ 10 ∷ 11 ∷ 12 ∷ 13 ∷ 14 ∷ 15 ∷ 255 ∷ []

abbrev pub leaf_in : Text → Option Value
leaf_in path =
    if path == (codes "/goldstone-interfaces:interfaces/interface[name='x']/config/interface-type")
    then some (text (codes "IF_ETHERNET"))
    else if path
        == (codes "/goldstone-interfaces:interfaces/interface[name='x']/config/admin-status")
    then some (text (codes "UP"))
    else none

abbrev pub sample : Platform
sample = record {
  State = Store;
  list = λ s. (ok ((codes "3", 9) ∷ []), s);
  get_module = λ t s. (ok 9, s);
  netifs = λ m s. (1, 1) ∷ [];
  hostifs = λ m s. (2, 2) ∷ [];
  get_netif = λ m i s. (ok (index_or i), s);
  get_hostif = λ m i s. (ok (index_or i), s);
  create_netif = λ m i s. (ok (index_or i), s);
  create_hostif = λ m i s. (ok (index_or i), s);
  remove = λ n s. (ok tt, s);
  location = λ m s. codes "3";
  get_attribute_capability = λ o n s. (err tai_exception, s);
  get = λ o n s. (if n == codes "index" then ok (show (oid o)) else found (Dict.get s n), s);
  get_json = λ o n s. (found (Dict.get s n), s);
  get_multiple = λ o ns s. (
    if Dict.member ns (codes "pmon-enet-mac-rx")
        then err tai_exception
        else ok (map (λ n. or_empty (Dict.get s n)) ns),
    s,
  );
  set = λ o n v s. (ok tt, Dict.put s n (str v));
  set_multiple = λ o kvs s. (ok tt, put_all s kvs);
  less = λ a b. ok false;
  loads = λ t. ok [];
  dumps = λ m. [];
  b64decode = λ t. ok sixteen;
  sleep = λ s. Dict.put s (codes "oper-status") (codes "ready");
  Json = Text;
  loads_any = λ t. ok t;
  get_multiple_json = λ o ns s. (ok (map (λ n. or_empty (Dict.get s n)) ns), s);
  encode_float = λ t. ok t;
  iterate = λ l. l;
  Config = Unit {0};
  get_config_cache = λ cs s. (ok tt, s);
  is_empty = λ c. false;
  leaf_of = λ c path. leaf_in path;
  interface_of = λ c path. none;
  find_node = λ path. none;
  running_leaf = λ path s. (ok none, s);
  running_interface = λ path s. (ok none, s);
  running_config = λ path s. (ok none, s);
  empty = tt;
  running_connections = λ path s. (ok [], s);
}

abbrev pub devices : Store → Devices sample
devices s = record {
  info = [];
  oids = (1, netif 1) ∷ (2, hostif 2) ∷ [];
  ignored = [];
  initializing = false;
  created = [];
  platform = s;
}
