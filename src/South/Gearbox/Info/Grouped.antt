-- ===== src/South/Gearbox/Info/Grouped.antt =====
-- What the interface server of src/south/gearbox/goldstone/south/gearbox/interfaces.py finds in the
-- platform's description.
use goldstone_mgmt.Base.{
  ◌≡◌, sym, ap, ◌∙◌, inl, inr, List, [], ◌∷◌, ◌++◌, ok, if◌then◌else◌, ◌==◌, ==_iff, text_eq, arith,
  Bool-cases,
}
use mathlib.Core.List.{append_assoc, append-nil}
use goldstone_mgmt.Base.Dict
use goldstone_mgmt.Base.Dict.{Dict, get-put}
use goldstone_mgmt.Base.Text.{Text}
use goldstone_mgmt.South.Gearbox.Counters.Labels.{ok_inj}
use goldstone_mgmt.South.Gearbox.Info.{
  Interface, PlatformItem, interface, incomplete_interface, clock, other_item, InterfaceInfo, infos,
  ifinfo_of,
}

-- The descriptions of an interface in the platform's items, in their order.
pub described : Text → List PlatformItem → List Interface
described name [] = []
described name (interface i ∷ is) =
    if i.name == name then i ∷ described name is else described name is
described name (_ ∷ is) = described name is

infos-put :
    (info : InterfaceInfo) (i : Interface) (name : Text)
    → infos (Dict.put info i.name (infos info i.name ++ i ∷ [])) name
      ≡ (if i.name == name then infos info name ++ i ∷ [] else infos info name)
infos-put info i name =
    ground (arith, get-put info i.name name (infos info i.name ++ i ∷ []), ==_iff i.name name)

-- A server that starts keeps for each interface just its descriptions, in the order of the items.
pub ifinfo_of-described :
    (info : InterfaceInfo) (items : List PlatformItem) (d : InterfaceInfo) (name : Text)
    → ifinfo_of info items ≡ ok d
    → infos d name ≡ infos info name ++ described name items
unfolding ifinfo_of described
ifinfo_of-described info [] d name h =
    ap (λ m. infos m name) (sym (ok_inj h)) ∙ sym (append-nil (infos info name))
ifinfo_of-described info (interface i ∷ is) d name h =
    let more = Dict.put info i.name (infos info i.name ++ i ∷ []) in
    let rest = ifinfo_of-described more is d name h in
    elim (Bool-cases (i.name == name)) [
      | inl same ↦ rw same (
          rest
          ∙ ap (λ l. l ++ described name is) (rw same at (infos-put info i name))
          ∙ append_assoc (infos info name) (i ∷ []) (described name is))
      | inr new ↦
          rw new (rest ∙ ap (λ l. l ++ described name is) (rw new at (infos-put info i name)))
    ]
ifinfo_of-described info (incomplete_interface ∷ is) d name h = absurd (ground (arith, h))
ifinfo_of-described info (clock c ∷ is) d name h = ifinfo_of-described info is d name h
ifinfo_of-described info (other_item ∷ is) d name h = ifinfo_of-described info is d name h
