-- ===== src/South/Gearbox/Interfaces/Answer.antt =====
-- `oper_cb` of src/south/gearbox/goldstone/south/gearbox/interfaces.py, with one interface
-- after the other.
use goldstone_mgmt.Base.{
  false, Option, none, some, List, [], ◌∷◌, name_error, if◌then◌else◌, ◌==◌, text_eq,
}
use goldstone_mgmt.Base.Exec.{Exec, pure, raise, ◌>>=◌}
use goldstone_mgmt.Base.Text.{Text, codes}
use goldstone_mgmt.Core.Handlers.{XpathStep}
use goldstone_mgmt.South.Gearbox.{Platform}
use goldstone_mgmt.South.Gearbox.Devices.{Devices, Named, ifname2taiobj, get_ifname_list}
use goldstone_mgmt.South.Gearbox.Interfaces.State.{Intf, oper_cb_intf}

-- What `oper_cb` goes through: the interfaces of a gearbox or of all, or one; `ifnames` is unbound
-- for the counters, and an invalid request returns.
pub data Request : Type 0 where
  all_of : Option Text → Request
  one : Text → Request
  unbound invalid : Request

unfoldable pub request_of : List XpathStep → Request
request_of (x ∷ y ∷ xs) = elim y.list_keys [
  | [] ↦ all_of none
  | (k, v) ∷ ks ↦
      if k == codes "name"
      then one v
      else if k == codes "state/goldstone-gearbox:associated-gearbox"
      then all_of (elim v [ [] ↦ none | c ∷ t ↦ some (c ∷ t) ])
      else elim xs [
        | z ∷ c ∷ [] ↦ if c.name == codes "counters" then unbound else invalid
        | _ ↦ invalid
      ]
]
request_of _ = all_of none

module _ (P : Platform) where
  unfoldable pub intfs : List XpathStep → List (Named P) → Exec (Devices P) (List (Intf P))
  unfolding oper_cb_intf
  intfs xpath [] = pure []
  intfs xpath ((ifname, obj, m) ∷ l) = do
    i ← oper_cb_intf P xpath false ifname m
    rest ← intfs xpath l
    pure (i ∷ rest)

  unfoldable pub answer : List XpathStep → Request → Exec (Devices P) (Option (List (Intf P)))
  unfolding get_ifname_list ifname2taiobj intfs oper_cb_intf
  answer xpath (all_of gearbox) = do
    names ← get_ifname_list P gearbox
    l ← intfs xpath names
    pure (some l)
  answer xpath (one name) = do
    found ← ifname2taiobj P name
    i ← oper_cb_intf P xpath false name found.1
    pure (some (i ∷ []))
  answer xpath unbound = raise name_error
  answer xpath invalid = pure none

  -- none where the request is invalid
  unfoldable pub oper_cb : List XpathStep → Exec (Devices P) (Option (List (Intf P)))
  unfolding request_of answer
  oper_cb xpath = answer xpath (request_of xpath)
