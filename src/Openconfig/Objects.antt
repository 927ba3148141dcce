-- ===== src/Openconfig/Objects.antt =====
-- The operational state of OpenConfigServer in src/xlate/openconfig/goldstone/xlate/openconfig/lib.py:
-- the tree of factories that `oper_cb` goes through.
pub mod Interfaces
use goldstone_mgmt.Base.{
  Bool, true, false, Option, none, some, List, [], ◌∷◌, Result, ok, err, Exn, ◌==◌, text_eq,
  if◌then◌else◌,
}
use goldstone_mgmt.Base.Dict
use goldstone_mgmt.Base.Dict.{Dict}
use goldstone_mgmt.Base.Exec.{Exec, pure, raise, lift, ◌>>=◌, ◌>>◌}
use goldstone_mgmt.Base.Text.{Text}

-- An item of `required_data`
pub record Required (D : Type 0) : Type 0 where
  pub name : Text
  pub xpath : Text
  pub default : D

-- OpenConfigObjectFactory: what it needs and what it makes of it
pub record Factory (D O : Type 0) : Type 0 where
  pub required_data : List (Required D)
  pub create : Dict Text D → Result (List O)

-- A value of `objects` is a factory, a dict again, or anything else.
mutual
  pub data Node (D O : Type 0) : Type 0 where
    objects_of : Factory D O → Node D O
    subtree_of : Objects D O → Node D O
    other_node : Node D O

  pub data Objects (D O : Type 0) : Type 0 where
    no_objects : Objects D O
    object_at : Text → Node D O → Objects D O → Objects D O

-- The result: lists of objects in dicts.
mutual
  pub data Answer (O : Type 0) : Type 0 where
    list_answer : List O → Answer O
    tree_answer : Answers O → Answer O

  pub data Answers (O : Type 0) : Type 0 where
    no_answers : Answers O
    answer_at : Text → Answer O → Answers O → Answers O

module _ {O : Type 0} where
  -- a node that is neither is left out
  pub place : Text → Option (Answer O) → Answers O → Answers O
  place k none others = others
  place k (some a) others = answer_at k a others

module _ {D S : Type 0} (get_operational_data : Text → D → Exec S D) where
  -- the loop of `_create_objects`
  pub read_required : Dict Text D → List (Required D) → Exec S (Dict Text D)
  read_required src [] = pure src
  read_required src (d ∷ ds) = do
    found ← get_operational_data d.xpath d.default
    read_required (Dict.put src d.name found) ds

module _ {D O S : Type 0} (get_operational_data : Text → D → Exec S D) where
  pub create_objects : Factory D O → Exec S (List O)
  unfolding read_required
  create_objects f = do
    src ← read_required get_operational_data [] f.required_data
    lift (f.create src)

  mutual
    unfolding place create_objects

    -- `_create_tree`
    pub create_tree : Objects D O → Exec S (Answers O)
    create_tree no_objects = pure no_answers
    create_tree (object_at k v rest) = do
      a ← create_node v
      others ← create_tree rest
      pure (place k a others)

    pub create_node : Node D O → Exec S (Option (Answer O))
    create_node (objects_of f) = do os ← create_objects f; pure (some (list_answer os))
    create_node (subtree_of t) = do t' ← create_tree t; pure (some (tree_answer t'))
    create_node other_node = pure none

  -- OpenConfigServer.oper_cb, which passes an exception on
  pub oper_cb : Objects D O → Exec S (Answers O)
  unfolding create_tree
  oper_cb objects = create_tree objects
