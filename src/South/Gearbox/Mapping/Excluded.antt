-- ===== src/South/Gearbox/Mapping/Excluded.antt =====
-- What `get_new_mapping` of src/south/gearbox/goldstone/south/gearbox/interfaces.py leaves out.
use goldstone_mgmt.Base.{
  ℕ, ◌≡◌, refl, ap, Bool, true, false, not, ◌||◌, some, List, [], ◌∷◌, ok, if◌then◌else◌, ◌==◌,
  text_eq, nat_eq,
}
use goldstone_mgmt.Base.Dict
use goldstone_mgmt.Base.Dict.{Dict}
use goldstone_mgmt.Base.Text.{Text, codes, show, int-show}
use goldstone_mgmt.South.Gearbox.{Platform, Object, Mapping}
use goldstone_mgmt.South.Gearbox.Names.{ifname_of}
use goldstone_mgmt.South.Gearbox.Oids.{oid_text}
use goldstone_mgmt.South.Gearbox.Oids.Read.{oid_of-oid_text}
use goldstone_mgmt.South.Gearbox.Mapping.{
  OidMap, side_of, only, taiobj2ifname, name_of, oid2ifname, keeps_client, keeps_item, new_items,
}

-- An item of the mapping as the servers write it: one line interface with one client.
pub record Pair : Type 0 where
  pub line : ℕ
  pub client : ℕ

unfoldable pub item_of : Pair → Dict Text (List Text)
item_of p = (oid_text p.line, oid_text p.client ∷ []) ∷ []

unfoldable pub items_of : List Pair → Mapping
unfolding item_of
items_of [] = []
items_of (p ∷ ps) = item_of p ∷ items_of ps

items_of-if :
    (out : Bool) (p : Pair) (ps : List Pair)
    → (if not out then item_of p ∷ items_of ps else items_of ps)
      ≡ items_of (if out then ps else p ∷ ps)
unfolding items_of
items_of-if true p ps = refl
items_of-if false p ps = refl

module _ (P : Platform) (oids : OidMap) (index : Object → ℕ) (loc : Text) where
  -- taish returns the index of an object as a number, and reading it changes nothing
  pub record ReadsIndex : Type 0 where
    pub index_is : (o : Object) (s : P.State) → P.get o (codes "index") s ≡ (ok (show (index o)), s)

  abbrev pub name : Object → Text
  name o = ifname_of loc (side_of o) (index o)

  -- Both interfaces of a pair are objects that the server has.
  pub record IsKnown (p : Pair) : Type 0 where
    pub line_object : Object
    pub client_object : Object
    pub has_line : Dict.get oids p.line ≡ some line_object
    pub has_client : Dict.get oids p.client ≡ some client_object

  abbrev pub AllKnown : List Pair → Type 0
  AllKnown [] = Unit {0}
  AllKnown (p ∷ ps) = IsKnown p × AllKnown ps

  -- The pairs with neither end named like the interface.
  unfoldable pub without_name : (ex : Text) (ps : List Pair) → AllKnown ps → List Pair
  without_name ex [] k = []
  without_name ex (p ∷ ps) k =
      let rest = without_name ex ps k.1 in
      if (ex == name k.0.line_object) || (ex == name k.0.client_object) then rest else p ∷ rest

  module _ (R : ReadsIndex) where
    taiobj2ifname-name : (o : Object) (s : P.State) → taiobj2ifname P loc o s ≡ (ok (name o), s)
    unfolding taiobj2ifname
    taiobj2ifname-name o s = rw (R.index_is o s, taiobj2ifname, int-show (index o)) refl

    pub oid2ifname-name :
        (n : ℕ) (o : Object) (s : P.State)
        → Dict.get oids n ≡ some o
        → oid2ifname P oids loc (oid_text n) s ≡ (ok (some (name o)), s)
    unfolding oid2ifname name_of
    oid2ifname-name n o s e =
        rw (oid_of-oid_text n, oid2ifname, e, name_of, taiobj2ifname-name o s) refl

    keeps_item-pair :
        (ex : Text) (p : Pair) (k : IsKnown p) (s : P.State)
        → keeps_item P oids loc ex (item_of p) s
          ≡ (ok (not ((ex == name k.line_object) || (ex == name k.client_object))), s)
    unfolding keeps_item keeps_client item_of only
    keeps_item-pair ex p k s =
        rw
          (
            oid2ifname-name p.line k.line_object s k.has_line,
            keeps_item,
            oid2ifname-name p.client k.client_object s k.has_client,
          )
          refl

    -- Of a mapping of pairs that the server knows just the pairs stay that have no end named like
    -- the excluded interface, in their order, and the module is left as it was.
    pub new_items-without :
        (ex : Text) (ps : List Pair) (k : AllKnown ps) (s : P.State)
        → new_items P oids loc ex (items_of ps) s ≡ (ok (items_of (without_name ex ps k)), s)
    unfolding new_items items_of without_name
    new_items-without ex [] k s = refl
    new_items-without ex (p ∷ ps) k s =
        let here = keeps_item-pair ex p k.0 s in
        let rest = new_items-without ex ps k.1 s in
        rw (here, new_items, rest) (ap (λ (m : Mapping). (ok m, s)) (items_of-if _ p _))
