-- ===== src/South/Gearbox/Tests/Names.antt =====
-- The names and the mappings of the gearbox servers on a device with two interfaces.
use goldstone_mgmt.Base.{◌≡◌, refl, none, some, List, [], ◌∷◌, ok, nat_eq, text_eq, All}
use goldstone_mgmt.Base.Dict
use goldstone_mgmt.Base.Dict.{Dict, get-put}
use goldstone_mgmt.Base.Text.{Text, codes, show, show_from, split, int, digits_from}
use goldstone_mgmt.Openconfig.Names.{starts_with}
use goldstone_mgmt.South.Gearbox.{netif, hostif, oid, before, item, Connection}
use goldstone_mgmt.South.Gearbox.Names.{ifname_of, numbers_of, ints}
use goldstone_mgmt.South.Gearbox.Mapping.{OidMap, new_items}
use goldstone_mgmt.South.Gearbox.Mapping.Excluded.{
  ReadsIndex, IsKnown, Pair, items_of, without_name, new_items-without,
}
use goldstone_mgmt.South.Gearbox.Devices.{on_platform, ifname2taiobj, object_at, names_of}
use goldstone_mgmt.South.Gearbox.Devices.Found.{located, Finds, names_of-Finds}
use goldstone_mgmt.South.Gearbox.Modules.{flexible_mapping}
use goldstone_mgmt.South.Gearbox.Modules.State.{connections_of}
use goldstone_mgmt.South.Gearbox.Modules.Shown.{IsInterface, connections-flexible}
use goldstone_mgmt.South.Gearbox.Tests.{sample, devices}

names_of-Finds_example :
    All (Finds sample [] (devices []) refl) (names_of sample none (located ((3, 9) ∷ [])) [])
names_of-Finds_example =
    names_of-Finds sample [] (devices []) refl ((3, 9) ∷ []) ((refl, (refl, tt), (refl, tt)), tt)

abbrev oids : OidMap
oids = (1, netif 1) ∷ (2, hostif 2) ∷ []

abbrev indexed : (loc : Text) → ReadsIndex sample oids oid loc
indexed loc = record { index_is = λ o s. refl }

abbrev pair : Pair
pair = record { line = 1; client = 2 }

abbrev pair-IsKnown : IsKnown sample oids oid (codes "3") pair
unfolding Dict.get
pair-IsKnown = record {
  line_object = netif 1;
  client_object = hostif 2;
  has_line = refl;
  has_client = refl;
}

new_items-without_example :
    new_items sample oids (codes "3") (codes "Interface3/0/3") (items_of (pair ∷ [])) []
    ≡ (ok [], [])
unfolding without_name ifname_of show show_from items_of pair-IsKnown oid
new_items-without_example =
    new_items-without sample oids oid (codes "3") (indexed (codes "3")) (codes "Interface3/0/3")
      (pair ∷ []) (pair-IsKnown, tt) []

abbrev line_name : Text
line_name = codes "Interface3/1/2"

abbrev client_name : Text
client_name = codes "Interface3/0/3"

line-found : ifname2taiobj sample line_name (devices []) ≡ (ok (some (netif 1), 9), devices [])
unfolding ifname2taiobj on_platform object_at numbers_of ints int digits_from split item before
    starts_with
line-found = refl

client-found : ifname2taiobj sample client_name (devices []) ≡ (ok (some (hostif 2), 9), devices [])
unfolding ifname2taiobj on_platform object_at numbers_of ints int digits_from split item before
    starts_with
client-found = refl

abbrev connection : Connection
connection = record { client = client_name; line = line_name }

line-IsInterface : IsInterface sample oid (codes "3") (devices []) line_name
unfolding Dict.get oid ifname_of show show_from
line-IsInterface = record {
  object = netif 1;
  in_module = 9;
  found = line-found;
  has_oid = refl;
  has_name = refl;
}

client-IsInterface : IsInterface sample oid (codes "3") (devices []) client_name
unfolding Dict.get oid ifname_of show show_from
client-IsInterface = record {
  object = hostif 2;
  in_module = 9;
  found = client-found;
  has_oid = refl;
  has_name = refl;
}

connections-flexible_example :
    (m : List (Dict Text (List Text))) × (flexible_mapping sample (connection ∷ []) (devices [])
      ≡ (ok m, devices []))
    × (connections_of sample oids (codes "3") m [] ≡ (ok (connection ∷ []), []))
connections-flexible_example =
    connections-flexible sample oid (codes "3") (devices []) (indexed (codes "3")) (connection ∷ [])
      ((line-IsInterface, client-IsInterface), tt) []
