-- ===== src/South/Gearbox/Modules/Shown.antt =====
-- The connections that src/south/gearbox/goldstone/south/gearbox/gearbox.py writes and shows.
use goldstone_mgmt.Base.{ℕ, ◌≡◌, refl, ap, ◌∙◌, some, List, [], ◌∷◌, ok, text_eq, nat_eq}
use goldstone_mgmt.Base.Dict
use goldstone_mgmt.Base.Dict.{Dict}
use goldstone_mgmt.Base.Text.{Text}
use goldstone_mgmt.South.Gearbox.{Platform, Object, oid, Mapping, Connection}
use goldstone_mgmt.South.Gearbox.Names.{ifname_of}
use goldstone_mgmt.South.Gearbox.Oids.{oid_text}
use goldstone_mgmt.South.Gearbox.Mapping.{side_of, oid2ifname}
use goldstone_mgmt.South.Gearbox.Mapping.Excluded.{ReadsIndex, oid2ifname-name}
use goldstone_mgmt.South.Gearbox.Devices.{Devices, ifname2taiobj}
use goldstone_mgmt.South.Gearbox.Modules.{flexible_mapping, oid_or_none}
use goldstone_mgmt.South.Gearbox.Modules.State.{connections_of, connection_of, client_name}

module _ (P : Platform) (index : Object → ℕ) (loc : Text) (d : Devices P) where
  -- The server finds an interface by its name, has it by its object id, and the object's index is
  -- the one of its name.
  pub record IsInterface (name : Text) : Type 0 where
    pub object : Object
    pub in_module : ℕ
    pub found : ifname2taiobj P name d ≡ (ok (some object, in_module), d)
    pub has_oid : Dict.get d.oids (oid object) ≡ some object
    pub has_name : ifname_of loc (side_of object) (index object) ≡ name

  abbrev pub AreInterfaces : List Connection → Type 0
  AreInterfaces [] = Unit {0}
  AreInterfaces (c ∷ cs) = (IsInterface c.line × IsInterface c.client) × AreInterfaces cs

  -- The mapping of the connections' objects.
  pub mapping : (cs : List Connection) → AreInterfaces cs → Mapping
  mapping [] k = []
  mapping (c ∷ cs) k =
      ((oid_text (oid k.0.0.object), oid_text (oid k.0.1.object) ∷ []) ∷ []) ∷ mapping cs k.1

  flexible_mapping-mapping :
      (cs : List Connection) (k : AreInterfaces cs)
      → flexible_mapping P cs d ≡ (ok (mapping cs k), d)
  unfolding flexible_mapping mapping oid_or_none
  flexible_mapping-mapping [] k = refl
  flexible_mapping-mapping (c ∷ cs) k =
      rw (k.0.0.found, flexible_mapping, k.0.1.found, flexible_mapping-mapping cs k.1) refl

  module _ (R : ReadsIndex P d.oids index loc) where
    shown-name :
        (name : Text) (h : IsInterface name) (s : P.State)
        → oid2ifname P d.oids loc (oid_text (oid h.object)) s ≡ (ok (some name), s)
    shown-name name h s =
        oid2ifname-name P d.oids index loc R (oid h.object) h.object s h.has_oid
        ∙ ap (λ n. (ok (some n), s)) h.has_name

    connections_of-mapping :
        (cs : List Connection) (k : AreInterfaces cs) (s : P.State)
        → connections_of P d.oids loc (mapping cs k) s ≡ (ok cs, s)
    unfolding connections_of connection_of client_name mapping
    connections_of-mapping [] k s = refl
    connections_of-mapping (c ∷ cs) k s =
        rw
          (
            shown-name c.line k.0.0 s,
            connections_of,
            shown-name c.client k.0.1 s,
            connections_of-mapping cs k.1 s,
          )
          refl

    -- The mapping that the server writes for the configured connections is shown as just those
    -- connections, when all their interfaces are interfaces of the module that the server knows.
    pub connections-flexible :
        (cs : List Connection) (k : AreInterfaces cs) (s : P.State)
        → (m : Mapping) × (flexible_mapping P cs d ≡ (ok m, d))
          × (connections_of P d.oids loc m s ≡ (ok cs, s))
    connections-flexible cs k s =
        (mapping cs k, flexible_mapping-mapping cs k, connections_of-mapping cs k s)
