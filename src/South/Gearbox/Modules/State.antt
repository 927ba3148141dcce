-- ===== src/South/Gearbox/Modules/State.antt =====
-- The operational state of src/south/gearbox/goldstone/south/gearbox/gearbox.py: `oper_cb`.
use goldstone_mgmt.Base.{
  ℕ, suc, Bool, false, Option, none, some, List, [], ◌∷◌, ok, type_error, if◌then◌else◌, ◌==◌,
  nat_eq, text_eq,
}
use goldstone_mgmt.Base.Dict.{Dict, keys}
use goldstone_mgmt.Base.Exec.{Exec, pure, raise, lift, ◌>>=◌}
use goldstone_mgmt.Base.Text.{Text, codes, split, show}
use goldstone_mgmt.Core.Handlers.{XpathStep}
use goldstone_mgmt.South.Gearbox.{Platform, tai_module, Mapping, Connection}
use goldstone_mgmt.South.Gearbox.Info.{PlatformItem, Clock, clock_info}
use goldstone_mgmt.South.Gearbox.Mapping.{OidMap, oid2ifname}
use goldstone_mgmt.South.Gearbox.Devices.{Devices, on_platform, list_modules}
use goldstone_mgmt.South.Gearbox.Modules.{flex_xpath, truthy_leaf}

-- `state` of a gearbox with its connections and clocks
pub record ClockState : Type 0 where
  pub name : Text
  pub reference_interface : Option Text
  pub component : Option (Text × Text)

pub record GearboxState : Type 0 where
  pub admin_status : Text
  pub oper_status : Text
  pub flexible : Bool
  pub connections : List Connection
  pub clocks : List ClockState

-- A gearbox of the answer; where only its name was asked for, the rest is `none`.
pub record Gearbox : Type 0 where
  pub name : Text
  pub details : Option GearboxState

-- What `oper_cb` goes through: all gearboxes, or the one with a name; none for an invalid request.
unfoldable pub requested : List XpathStep → Option (Option Text)
requested (x ∷ y ∷ xs) = elim y.list_keys [
  | [] ↦ some none
  | (k, v) ∷ ks ↦ if k == codes "name" then some (some v) else none
]
requested _ = some none

-- len(xpath) == 3 and xpath[2][1] == "name"
unfoldable pub only_names : List XpathStep → Bool
only_names (x ∷ y ∷ z ∷ []) = z.name == codes "name"
only_names _ = false

unfoldable pub component_of : Option Clock → Option (Text × Text)
component_of none = none
component_of (some c) = some (c.input_reference, c.dpll)

module _ (P : Platform) where
  -- the client of an item; a list in its place is no key of `oidmap`
  unfoldable pub client_name : OidMap → Text → List Text → Exec P.State (Option Text)
  unfolding oid2ifname
  client_name oids loc (h ∷ []) = oid2ifname P oids loc h
  client_name oids loc _ = raise type_error

  -- the connection that an item of the mapping shows, if it shows one
  unfoldable pub connection_of :
      OidMap → Text → Dict Text (List Text) → Exec P.State (Option Connection)
  unfolding oid2ifname client_name
  connection_of oids loc ((line, clients) ∷ []) = do
    netif ← oid2ifname P oids loc line
    elim netif [
      | none ↦ pure none
      | some l ↦ do
        hostif ← client_name oids loc clients
        elim hostif [ none ↦ pure none | some c ↦ pure (some (record { client = c; line = l })) ]
    ]
  connection_of oids loc _ = pure none

  unfoldable pub connections_of : OidMap → Text → Mapping → Exec P.State (List Connection)
  unfolding connection_of
  connections_of oids loc [] = pure []
  connections_of oids loc (v ∷ vs) = do
    c ← connection_of oids loc v
    rest ← connections_of oids loc vs
    elim c [ none ↦ pure rest | some x ↦ pure (x ∷ rest) ]

  -- the clocks from the i-th on
  unfoldable pub clocks_of :
      OidMap → List PlatformItem → Text → Text → ℕ → List Text → Exec P.State (List ClockState)
  unfolding oid2ifname component_of clock_info
  clocks_of oids items name loc i [] = pure []
  clocks_of oids items name loc i (v ∷ vs) = do
    ifname ← oid2ifname P oids loc v
    rest ← clocks_of oids items name loc (suc i) vs
    pure (
        record {
          name = show i;
          reference_interface = ifname;
          component = component_of (clock_info items name (show i));
        }
        ∷ rest)

  unfoldable pub gearbox_state : OidMap → List PlatformItem → Text → Exec P.State GearboxState
  unfolding connections_of clocks_of flex_xpath truthy_leaf
  gearbox_state oids items name = do
    m ← P.get_module name
    admin ← P.get (tai_module m) (codes "admin-status")
    oper ← P.get (tai_module m) (codes "oper-status")
    flex ← P.running_leaf (flex_xpath name)
    t ← P.get_json (tai_module m) (codes "tributary-mapping")
    mapping ← lift (P.loads t)
    connections ← λ s. connections_of oids (P.location m s) mapping s
    assignment ← P.get (tai_module m) (codes "pgmrclk-assignment")
    clocks ← λ s. clocks_of oids items name (P.location m s) 0 (split b',' assignment) s
    pure (record {
      admin_status = if admin == codes "up" then codes "UP" else codes "DOWN";
      oper_status = if oper == codes "ready" then codes "UP" else codes "DOWN";
      flexible = truthy_leaf P flex;
      connections = connections;
      clocks = clocks;
    })

  unfoldable pub gearboxes :
      OidMap → List PlatformItem → Bool → List Text → Exec P.State (List Gearbox)
  unfolding gearbox_state
  gearboxes oids items names_only [] = pure []
  gearboxes oids items names_only (name ∷ l) = do
    d ← (if names_only then pure none else (do g ← gearbox_state oids items name; pure (some g)))
    rest ← gearboxes oids items names_only l
    pure (record { name = name; details = d } ∷ rest)

  unfoldable pub shown :
      OidMap → List PlatformItem → Bool → List Text → Exec (Devices P) (Option (List Gearbox))
  unfolding on_platform gearboxes
  shown oids items names_only names = do
    l ← on_platform P (gearboxes oids items names_only names)
    pure (some l)

  -- oper_cb; none where the request is invalid
  unfoldable pub oper_cb :
      List PlatformItem → List XpathStep → Exec (Devices P) (Option (List Gearbox))
  unfolding requested only_names list_modules shown
  oper_cb items xpath d = elim (requested xpath) [
    | none ↦ (ok none, d)
    | some (some name) ↦ shown d.oids items (only_names xpath) (name ∷ []) d
    | some none ↦
        (do modules ← list_modules P; shown d.oids items (only_names xpath) (keys modules)) d
  ]
