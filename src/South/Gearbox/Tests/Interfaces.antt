-- ===== src/South/Gearbox/Tests/Interfaces.antt =====
-- The change handlers of interfaces of the gearbox servers on a device.
use goldstone_mgmt.Base.{◌≡◌, refl, false, none, some, List, [], ◌∷◌, ok, nat_eq, text_eq, arith}
use goldstone_mgmt.Base.Dict
use goldstone_mgmt.Base.Dict.{Dict, get-put}
use goldstone_mgmt.Base.Text.{Text, codes, show}
use goldstone_mgmt.Core.{modified}
use goldstone_mgmt.South.Gearbox.{is_text, Value, text, number, str, netif}
use goldstone_mgmt.South.Gearbox.Devices.{provisioning, if_xpath}
use goldstone_mgmt.South.Gearbox.Handlers.{Attributes, World, apply_attributes, differences}
use goldstone_mgmt.South.Gearbox.Interfaces.{IfClass, mtu, admin_value, type_value}
use goldstone_mgmt.South.Gearbox.Interfaces.Modes.{
  ethernet, up, kind_text, admin_text, mode, rate, Sets, IsConfigured, modes_agree,
}
use goldstone_mgmt.South.Gearbox.Interfaces.Applied.{
  written, value_for, TaiLaws, apply_attributes_lem,
}
use goldstone_mgmt.South.Gearbox.Interfaces.Reads.{Read, read, read_of, count}
use goldstone_mgmt.South.Gearbox.Interfaces.State.{
  Intf, named_intf, counted_intf, complete, with_read,
}
use goldstone_mgmt.South.Gearbox.Interfaces.Shown.{Shows, configured-shown}
use goldstone_mgmt.South.Gearbox.Info.{get_default}
use goldstone_mgmt.Base.Text.{int, digits_from}
use goldstone_mgmt.South.Gearbox.Tests.{Store, or_empty, put_all, sample, devices}

abbrev world : Store → World sample IfClass
world s = record {
  objects = [];
  next = 0;
  changes = [];
  cache = some tt;
  cap_cache = [];
  update_mapping = false;
  assignment = [];
  devices = devices s;
}

x-IsConfigured : IsConfigured sample (world []) (codes "x") ethernet up
unfolding if_xpath kind_text admin_text
x-IsConfigured = record { config = tt; held = refl; full = refl; has_kind = refl; has_admin = refl }

modes_agree_example :
    (admin_value sample (codes "x") (text (codes "UP")) (world [])
      ≡ (ok (text (codes "normal")), world []))
    × (type_value sample
          (codes "x")
          (text (codes "IF_ETHERNET"))
          (codes "provision-mode")
          (world [])
        ≡ (ok (text (codes "normal")), world []))
    × (type_value sample (codes "x") (text (codes "IF_ETHERNET")) (codes "signal-rate") (world [])
        ≡ (ok (text (codes "100-gbe")), world []))
    × Sets sample
        (provisioning (text (codes "IF_ETHERNET")) (text (codes "UP")) (text []))
        (codes "provision-mode")
        (codes "normal")
    × Sets sample
        (provisioning (text (codes "IF_ETHERNET")) (text (codes "UP")) (text []))
        (codes "signal-rate")
        (codes "100-gbe")
unfolding kind_text admin_text mode rate
modes_agree_example = modes_agree sample (world []) (codes "x") [] ethernet up x-IsConfigured

abbrev attributes : IfClass → Value → Attributes sample IfClass
attributes c v = record {
  handler_class = c;
  change = record { type = modified; xpath = []; value = v };
  xpath = [];
  ifname = codes "x";
  obj = some (netif 1);
  names = codes "mtu" ∷ codes "mru" ∷ [];
  value = v ∷ v ∷ [];
  original_value = some (codes "1500" ∷ codes "1500" ∷ []);
  removed = [];
  created = [];
}

put_all-get :
    (kvs : List (Text × Value)) (n : Text) (s : Store)
    → or_empty (Dict.get (put_all s kvs) n) ≡ written (Dict.get kvs n) (or_empty (Dict.get s n))
unfolding Dict.get
put_all-get [] n s = refl
put_all-get ((k, v) ∷ kvs) n s =
    ground (arith, get-put (put_all s kvs) k n (str v), put_all-get kvs n s)

sample_laws : TaiLaws sample IfClass
sample_laws = record {
  attribute = λ s o n. or_empty (Dict.get s n);
  get_reads = λ o ns vs s h. ground (arith, h);
  get_keeps = λ o n ns s. refl;
  set_writes = λ o n kvs s h. put_all-get kvs n s;
}

apply_attributes_lem_example :
    sample_laws.attribute
      (apply_attributes sample IfClass 0
        (attributes mtu (number 9000))
        (world [])).1.devices.platform
      (netif 1)
      (codes "mru")
    ≡ codes "9000"
unfolding Dict.member apply_attributes value_for differences str show
apply_attributes_lem_example =
    apply_attributes_lem sample IfClass sample_laws 0 (attributes mtu (number 9000)) (world [])
      (netif 1) (codes "mtu") (codes "mru") (codes "mru" ∷ []) refl refl (refl, (refl, tt)) refl

abbrev provisioned : Store
provisioned =
    (codes "provision-mode", codes "normal")
    ∷ (codes "signal-rate", codes "100-gbe")
    ∷ (codes "connected-interface", codes "oid:0x0")
    ∷ (codes "otn-mfi-type", codes "fgmp")
    ∷ (codes "fec-type", codes "rs")
    ∷ (codes "mtu", codes "9000")
    ∷ (codes "tx-timing-mode", codes "auto")
    ∷ (codes "current-tx-timing-mode", codes "synce")
    ∷ (codes "oper-status", codes "unknown")
    ∷ (codes "pin-mode", codes "nrz")
    ∷ []

abbrev provisioned_read : Read
provisioned_read = record {
  prov_mode = codes "normal";
  signal_rate = codes "100-gbe";
  connected = codes "oid:0x0";
  mfi_type = codes "fgmp";
  fec_type = codes "rs";
  mtu = codes "9000";
  tx_timing_mode = codes "auto";
  current_tx_timing_mode = codes "synce";
  oper_status = codes "unknown";
  pin_mode = codes "nrz";
}

abbrev shown : Intf sample
shown = record {
  name = codes "x";
  state = record {
    associated_gearbox = codes "3";
    admin_status = some (codes "UP");
    oper_status = none;
    counters = none;
    is_connected = some false;
    pin_mode = some (codes "NRZ");
    prbs_ber = none;
  };
  connection = none;
  otn = none;
  ethernet = some (record {
    fec = codes "RS";
    mtu = 9000;
    speed = codes "SPEED_100G";
    tx_timing_mode = codes "auto";
    current_tx_timing_mode = codes "synce";
    counters = none;
    macsec = none;
    auto_negotiate = none;
    pcs = some ([], [], none);
  });
}

configured-shown_example : Shows sample ethernet up provisioned_read shown
unfolding named_intf read read_of count counted_intf complete with_read admin_value type_value
    is_text admin_text get_default kind_text Dict.member Dict.get int digits_from
configured-shown_example =
    configured-shown sample (world []) (codes "x") ethernet up x-IsConfigured (netif 1) provisioned
      provisioned_read (named_intf sample (codes "x") (codes "3")) shown refl refl refl refl refl
      refl
