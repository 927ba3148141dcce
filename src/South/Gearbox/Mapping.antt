-- ===== src/South/Gearbox/Mapping.antt =====
-- The tributary mapping of a module in
-- src/south/gearbox/goldstone/south/gearbox/interfaces.py: which line interface carries which client.
pub mod Excluded
use goldstone_mgmt.Base.{
  ℕ, Bool, true, false, not, ◌||◌, Option, none, some, List, [], ◌∷◌, Result, ok, err,
  attribute_error, if◌then◌else◌, ◌==◌, nat_eq, text_eq,
}
use goldstone_mgmt.Base.Dict
use goldstone_mgmt.Base.Dict.{Dict}
use goldstone_mgmt.Base.Exec.{Exec, pure, raise, lift, ◌>>=◌, ◌>>◌}
use goldstone_mgmt.Base.Text.{Text, codes, int}
use goldstone_mgmt.South.Gearbox.{Platform, Object, tai_module, netif, hostif, Mapping}
use goldstone_mgmt.South.Gearbox.Names.{ifname_of}
use goldstone_mgmt.South.Gearbox.Oids.{oid_text, oid_of}

-- `oidmap`
abbrev pub OidMap : Type 0
OidMap = Dict ℕ Object

-- `_m`: the line interfaces by index
unfoldable pub netifs_by_index : Dict ℕ ℕ → List (ℕ × ℕ) → Dict ℕ ℕ
netifs_by_index m [] = m
netifs_by_index m ((index, oid) ∷ l) = netifs_by_index (Dict.put m index oid) l

unfoldable pub mapped : Dict ℕ ℕ → List (ℕ × ℕ) → Mapping
unfolding oid_text
mapped m [] = []
mapped m ((index, oid) ∷ l) =
    let rest = mapped m l in
    elim (Dict.get m index) [ none ↦ rest | some n ↦ ((oid_text n, oid_text oid ∷ []) ∷ []) ∷ rest ]

-- get_default_mapping before json.dumps, on the module's line and client interfaces
unfoldable pub default_mapping : List (ℕ × ℕ) → List (ℕ × ℕ) → Mapping
unfolding netifs_by_index mapped
default_mapping netifs hostifs = mapped (netifs_by_index [] netifs) hostifs

abbrev pub side_of : Object → ℕ
side_of (netif n) = 1
side_of _ = 0

-- hostif[0] of a list of one, or the list itself, which has no `replace`
unfoldable pub only : List Text → Result Text
only (h ∷ []) = ok h
only _ = err attribute_error

module _ (P : Platform) where
  unfoldable pub taiobj2ifname : Text → Object → Exec P.State Text
  unfolding ifname_of
  taiobj2ifname loc obj = do
    t ← P.get obj (codes "index")
    i ← lift (int t)
    pure (ifname_of loc (side_of obj) i)

  -- the name of the interface with an object id, if the server has it
  unfoldable pub name_of : OidMap → Text → ℕ → Exec P.State (Option Text)
  unfolding taiobj2ifname
  name_of oids loc n = elim (Dict.get oids n) [
    | none ↦ pure none
    | some obj ↦ do name ← taiobj2ifname loc obj; pure (some name)
  ]

  -- oid2ifname, for an object id as text
  unfoldable pub oid2ifname : OidMap → Text → Text → Exec P.State (Option Text)
  unfolding oid_of name_of
  oid2ifname oids loc t = do n ← lift (oid_of t); name_of oids loc n

  -- the end of an item's round, with the name of its line interface
  unfoldable pub keeps_client : OidMap → Text → Text → Text → List Text → Exec P.State Bool
  unfolding oid2ifname only
  keeps_client oids loc excluded line clients = do
    t ← lift (only clients)
    client ← oid2ifname oids loc t
    elim client [ none ↦ pure false | some c ↦ pure (not (excluded == line || excluded == c)) ]

  -- whether an item stays in the mapping
  unfoldable pub keeps_item : OidMap → Text → Text → Dict Text (List Text) → Exec P.State Bool
  unfolding oid2ifname keeps_client
  keeps_item oids loc excluded ((line, clients) ∷ []) = do
    name ← oid2ifname oids loc line
    elim name [ none ↦ pure false | some l ↦ keeps_client oids loc excluded l clients ]
  keeps_item oids loc excluded _ = pure false

  unfoldable pub new_items : OidMap → Text → Text → Mapping → Exec P.State Mapping
  unfolding keeps_item
  new_items oids loc excluded [] = pure []
  new_items oids loc excluded (v ∷ vs) = do
    keep ← keeps_item oids loc excluded v
    rest ← new_items oids loc excluded vs
    pure (if keep then v ∷ rest else rest)

  unfoldable pub get_new_mapping : OidMap → ℕ → Text → Exec P.State Mapping
  unfolding new_items
  get_new_mapping oids m excluded = do
    t ← P.get_json (tai_module m) (codes "tributary-mapping")
    items ← lift (P.loads t)
    λ s. new_items oids (P.location m s) excluded items s
