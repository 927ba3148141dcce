-- ===== src/Core/Handlers.antt =====
-- The tree `handlers` of a server and `get_handler` of src/lib/goldstone/lib/core.py.
pub mod Lookup
use goldstone_mgmt.Base.{
  Bool, true, false, Result, ok, err, index_error, assertion_error, Option, none, some, List, [],
  ◌∷◌, ◌==◌, text_eq, if◌then◌else◌,
}
use goldstone_mgmt.Base.Text.{Text, codes}

-- An item of `libyang.xpath_split`: prefix, name and list keys.
pub record XpathStep : Type 0 where
  pub prefix : Option Text
  pub name : Text
  pub list_keys : List (Text × Text)

-- What the servers assert of a step: its first key is the name, which is taken; and its prefix.
abbrev pub name_key : List (Text × Text) → Result Text
name_key [] = err index_error
name_key ((k, v) ∷ ks) = if k == codes "name" then ok v else err assertion_error

abbrev pub has_prefix : XpathStep → Text → Bool
has_prefix x p = elim x.prefix [ none ↦ false | some q ↦ q == p ]

-- A ChangeHandler class: `NoOp`, the base class itself, or a subclass.
pub data Class (C : Type 0) : Type 0 where
  no_op : Class C
  sub : C → Class C

-- A value of the dict is a class or a dict again.
mutual
  pub data Tree (C : Type 0) : Type 0 where
    leaf : Class C → Tree C
    node : Branches C → Tree C

  pub data Branches (C : Type 0) : Type 0 where
    stop : Branches C
    branch : Text → Tree C → Branches C → Branches C

module _ {C : Type 0} where
  -- cursor.get(name)
  unfoldable pub child : Branches C → Text → Option (Tree C)
  child stop n = none
  child (branch m t b) n = if m == n then some t else child b n

  -- None, a class on the way, or NoOp where the path ends inside the tree
  unfoldable pub get_handler : Branches C → List XpathStep → Option (Class C)
  unfolding child
  get_handler cursor [] = some no_op
  get_handler cursor (x ∷ xs) = elim (child cursor x.name) [
    | none ↦ none
    | some (leaf c) ↦ some c
    | some (node b) ↦ get_handler b xs
  ]
