-- ===== src/Connector/Session/Tests.antt =====
-- The theorems about the sessions of src/lib/goldstone/lib/connector/sysrepo.py at a small sysrepo.
use goldstone_mgmt.Base.{◌≡◌, refl, true, false, List, [], ◌∷◌, locked, locked_error, text_eq}
use goldstone_mgmt.Base.Dict.{member}
use goldstone_mgmt.Base.Text.{Text, codes}
use goldstone_mgmt.Connector.Errors.{
  from_sysrepo, convert2sysrepo, is_error, from_sysrepo-convert2sysrepo,
}
use goldstone_mgmt.Connector.Session.{
  list_value, set, set_body, set_node, wrap_sysrepo_error, wrap_result, find_node, only_node,
  replace_entries, get, get_body, read, strip_data, delete_entries, add_entries, delete, difference,
  entry_path, apply,
}
use goldstone_mgmt.Connector.Session.LeafList.{set-replaces}
use goldstone_mgmt.Connector.Session.Discard.{apply-empties}
use goldstone_mgmt.Connector.Session.Example.{
  sysrepo, session, xpath, Device, entries_laws, changes_laws,
}

abbrev device : Device
device = record {
  entries = codes "a" ∷ codes "b" ∷ [];
  pending = false;
  stored = codes "a" ∷ codes "b" ∷ [];
}

abbrev wanted : List Text
wanted = codes "b" ∷ codes "c" ∷ []

set-replaces_example :
    entries_laws.has (set sysrepo session xpath (list_value wanted) device).1 (codes "c")
    ≡ member wanted (codes "c")
unfolding set set_body set_node wrap_sysrepo_error wrap_result find_node only_node replace_entries
    get get_body read strip_data delete_entries add_entries delete difference entry_path member
set-replaces_example =
    set-replaces sysrepo session xpath entries_laws (codes "leaf-list") wanted device (codes "c")
      refl refl refl

abbrev changed : Device
changed = record device { entries = codes "a" ∷ []; pending = true }

apply-empties_example :
    changes_laws.pending (apply sysrepo session changed).1 session.session ≡ changes_laws.nothing
apply-empties_example = apply-empties sysrepo changes_laws session changed

from_sysrepo-convert2sysrepo_example :
    (from_sysrepo (convert2sysrepo locked_error) ≡ locked_error)
    × (is_error (from_sysrepo locked) ≡ true)
unfolding is_error
from_sysrepo-convert2sysrepo_example = from_sysrepo-convert2sysrepo locked_error locked refl
