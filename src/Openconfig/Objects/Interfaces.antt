-- ===== src/Openconfig/Objects/Interfaces.antt =====
-- What `oper_cb` of InterfaceServer in
-- src/xlate/openconfig/goldstone/xlate/openconfig/interfaces.py answers.
use goldstone_mgmt.Base.{
  ◌≡◌, refl, Option, none, some, List, [], ◌∷◌, Result, ok, err, Exn, key_error, type_error,
  text_eq,
}
use goldstone_mgmt.Base.Dict
use goldstone_mgmt.Base.Dict.{Dict}
use goldstone_mgmt.Base.Exec.{Exec}
use goldstone_mgmt.Base.Text.{Text, codes}
use goldstone_mgmt.Openconfig.Interface.{GsInterface, Data, create}
use goldstone_mgmt.Openconfig.Objects.{
  Required, Factory, Objects, objects_of, subtree_of, no_objects, object_at, answer_at, list_answer,
  tree_answer, no_answers, read_required, create_objects, create_tree, create_node, place, oper_cb,
}

-- What is read of Goldstone: the components by their names, or the interfaces.
pub data GsData : Type 0 where
  gs_components : Dict Text Text → GsData
  gs_interfaces : List GsInterface → GsData

abbrev pub components_xpath : Text
components_xpath = codes "/goldstone-platform:components/component"

abbrev pub interfaces_xpath : Text
interfaces_xpath = codes "/goldstone-interfaces:interfaces/interface"

-- InterfaceFactory.required_data
pub required_data : List (Required GsData)
required_data =
    record { name = codes "components"; xpath = components_xpath; default = gs_components [] }
    ∷ record { name = codes "interfaces"; xpath = interfaces_xpath; default = gs_interfaces [] }
    ∷ []

pub create_from : Option GsData → Option GsData → Result (List Data)
create_from none _ = err key_error
create_from (some i) none = err key_error
create_from (some (gs_interfaces is)) (some (gs_components cs)) = ok (create cs is)
create_from (some i) (some c) = err type_error

-- InterfaceFactory, with `create` on what was read
pub interface_factory : Factory GsData Data
unfolding required_data create_from
interface_factory = record {
  required_data = required_data;
  create = λ gs. create_from (Dict.get gs (codes "interfaces")) (Dict.get gs (codes "components"));
}

-- InterfaceServer.objects
pub interface_objects : Objects GsData Data
unfolding interface_factory
interface_objects =
    object_at (codes "interfaces")
      (subtree_of (object_at (codes "interface") (objects_of interface_factory) no_objects))
      no_objects

module _ {S : Type 0} (get_operational_data : Text → GsData → Exec S GsData) where
  -- When both reads return, first of the components and then of the interfaces, the answer holds the
  -- objects that the factory creates of them, under interfaces/interface.
  pub oper_cb-interfaces :
      (s s₁ s₂ : S) (cs : Dict Text Text) (is : List GsInterface)
      → get_operational_data components_xpath (gs_components []) s ≡ (ok (gs_components cs), s₁)
      → get_operational_data interfaces_xpath (gs_interfaces []) s₁ ≡ (ok (gs_interfaces is), s₂)
      → oper_cb get_operational_data interface_objects s ≡ (
        ok (
            answer_at
              (codes "interfaces")
              (tree_answer (answer_at (codes "interface") (list_answer (create cs is)) no_answers))
              no_answers),
        s₂,
      )
  unfolding oper_cb create_tree create_node create_objects read_required place interface_objects
      interface_factory required_data create_from Dict.get Dict.put
  oper_cb-interfaces s s₁ s₂ cs is e f = rw (e, f) refl

  -- An exception of the first read is the server's.
  pub oper_cb-err :
      (s s₁ : S) (e : Exn)
      → get_operational_data components_xpath (gs_components []) s ≡ (err e, s₁)
      → oper_cb get_operational_data interface_objects s ≡ (err e, s₁)
  unfolding oper_cb create_tree create_node create_objects read_required interface_objects
      interface_factory required_data
  oper_cb-err s s₁ e h = rw h refl
