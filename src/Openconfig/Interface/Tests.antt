-- ===== src/Openconfig/Interface/Tests.antt =====
-- The theorems about the operational state of
-- src/xlate/openconfig/goldstone/xlate/openconfig/interfaces.py at two interfaces.
use goldstone_mgmt.Base.{none, some, [], ◌∷◌, nat_eq, text_eq}
use goldstone_mgmt.Base.Dict.{Dict}
use goldstone_mgmt.Base.Text.{Text, codes}
use goldstone_mgmt.Openconfig.Interface.{Counters, GsInterface}

-- Counters that overflow together.
abbrev full : Counters
full = record {
  in_octets = none;
  in_unicast_pkts = some 18446744073709551615;
  in_broadcast_pkts = some 7;
  in_multicast_pkts = none;
  in_discards = none;
  in_errors = none;
  in_unknown_protos = none;
  out_octets = some 3;
  out_unicast_pkts = some 1;
  out_broadcast_pkts = some 2;
  out_multicast_pkts = none;
  out_discards = none;
  out_errors = some 4;
}

abbrev ethernet : GsInterface
ethernet = record {
  name = codes "Ethernet1";
  component = some (codes "sfp1");
  state = none;
  ethernet = none;
}

abbrev otn : GsInterface
otn = record {
  name = codes "otn1";
  component = none;
  state = some (record {
    description = none;
    admin_status = some (codes "UP");
    oper_status = none;
    interface_type = some (codes "IF_OTN");
    counters = some full;
  });
  ethernet = none;
}

abbrev components : Dict Text Text
components = (codes "sfp1", codes "sfp1") ∷ []
