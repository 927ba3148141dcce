-- ===== src/Openconfig/Interface/Created.antt =====
-- What InterfaceFactory of src/xlate/openconfig/goldstone/xlate/openconfig/interfaces.py creates.
use goldstone_mgmt.Base.{
  ◌≡◌, refl, ◌∙◌, true, Bool-cases, inl, inr, Option, none, some, List, [], ◌∷◌, map, if◌then◌else◌,
  ◌==◌, ==_iff, text_eq,
}
use goldstone_mgmt.Base.Dict.{Dict, member}
use goldstone_mgmt.Base.Text.{Text, codes}
use goldstone_mgmt.Openconfig.Interface.{
  GsInterface, Data, State, EthernetState, create, iftype_of, port_name_of, translate,
  translate_state, translate_ethernet, new_data, enabled_of, admin_status_of, oper_status_of,
}

module _ (components : Dict Text Text) where
  -- the Goldstone interfaces that are, or are taken to be, Ethernet interfaces
  pub ethernets : List GsInterface → List GsInterface
  ethernets [] = []
  ethernets (i ∷ is) =
      let rest = ethernets is in
      if iftype_of components i.state == codes "IF_ETHERNET" then i ∷ rest else rest

  abbrev pub name_and_port : Data → Text × Option Text
  name_and_port d = (d.name, d.hardware_port)

  state_keeps :
      (s : Option State) (d : Data) → name_and_port (translate_state s d) ≡ name_and_port d
  unfolding translate_state
  state_keeps none d = refl
  state_keeps (some s) d = refl

  ethernet_keeps :
      (e : Option (Option EthernetState)) (d : Data)
      → name_and_port (translate_ethernet e d) ≡ name_and_port d
  unfolding translate_ethernet
  ethernet_keeps none d = refl
  ethernet_keeps (some none) d = refl
  ethernet_keeps (some (some e)) d = refl

  translate-name : (i : GsInterface) (d : Data) → name_and_port (translate i d) ≡ name_and_port d
  unfolding translate
  translate-name i d = ethernet_keeps i.ethernet (translate_state i.state d) ∙ state_keeps i.state d

  -- `create` makes one object for each Ethernet interface, in their order, with its name and the port
  -- of its component.
  pub create-names :
      (is : List GsInterface)
      → map name_and_port (create components is)
        ≡ map (λ i. (i.name, port_name_of components i)) (ethernets is)
  unfolding create ethernets new_data
  create-names [] = refl
  create-names (i ∷ is) = elim (Bool-cases (iftype_of components i.state == codes "IF_ETHERNET")) [
    | inl e ↦
        rw (e, create, ethernets)
          (λ k.
            translate-name i (new_data i.name (port_name_of components i)) k ∷ create-names is k)
    | inr e ↦ rw (e, create, ethernets) (create-names is)
  ]

member-default :
    (l : List Text) (d a : Text) → member l d ≡ true → member l (if member l a then a else d) ≡ true
member-default l d a h = elim (Bool-cases (member l a)) [ inl e ↦ rw (e, e) refl | inr e ↦ rw e h ]

abbrev pub oc_admin_statuses : List Text
oc_admin_statuses = codes "UP" ∷ codes "DOWN" ∷ codes "TESTING" ∷ []

abbrev pub oc_oper_statuses : List Text
oc_oper_statuses =
    codes "UP"
    ∷ codes "DOWN"
    ∷ codes "TESTING"
    ∷ codes "UNKNOWN"
    ∷ codes "DORMANT"
    ∷ codes "NOT_PRESENT"
    ∷ codes "LOWER_LAYER_DOWN"
    ∷ []

-- Whatever the Goldstone statuses are, an interface shows statuses of the OpenConfig model, and it is
-- shown as enabled exactly when the admin status that it shows is UP.
pub statuses-member :
    (a o : Text)
    → (member oc_admin_statuses (admin_status_of a) ≡ true)
      × (member oc_oper_statuses (oper_status_of o) ≡ true)
      × (enabled_of a ≡ (admin_status_of a == codes "UP"))
unfolding enabled_of admin_status_of oper_status_of member
statuses-member a o = (
  member-default oc_admin_statuses (codes "DOWN") a refl,
  member-default oc_oper_statuses (codes "UNKNOWN") o refl,
  elim (Bool-cases (a == codes "UP")) [
    | inl e ↦ rw ((==_iff a (codes "UP")).0 e) refl
    | inr e ↦ elim (Bool-cases (member oc_admin_statuses a)) [ inl k ↦ rw k refl | inr k ↦ rw k e ]
  ],
)
