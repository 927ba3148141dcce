-- ===== src/Telemetry/Path/Parse.antt =====
-- `parse_dict_into_leaves` of src/system/telemetry/goldstone/system/telemetry/path.py finds exactly
-- the leaves at and below a path.
use goldstone_mgmt.Base.{List, [], ◌∷◌, text_eq}
use goldstone_mgmt.Base.Dict
use goldstone_mgmt.Base.Dict.{get-put}
use goldstone_mgmt.Base.Text.{Text}
use goldstone_mgmt.Telemetry.Path.{Schema, Leaves}
use goldstone_mgmt.Telemetry.Path.Values.{Value, Fields, obj}
use goldstone_mgmt.Telemetry.Path.Leaves.{LeafAt}
use goldstone_mgmt.Telemetry.Path.Prune.{Extends}
use goldstone_mgmt.Telemetry.Path.{with_prefix}
use goldstone_mgmt.Telemetry.Path.Strings.{first_part}
use goldstone_mgmt.Telemetry.Path.Strings.Greedy.{without_keys}
use goldstone_mgmt.Base.{false}
use goldstone_mgmt.Base.Text.{split}
use goldstone_mgmt.Telemetry.Path.{tail}

-- The names of the nodes of a path, where the keys of each list are taken off by themselves.
abbrev pub node_names : Text → List Text
node_names path = tail (split b'/' (without_keys false path))

module _ {S : Type 0} (P : Schema S) where
  -- The data with the prefix of the path, as a tree.
  abbrev pub prefixed : Fields S → List Text → Value S
  prefixed data_tree [] = obj data_tree
  prefixed data_tree (x ∷ xs) = obj (with_prefix (first_part x) data_tree)

  -- A leaf of the data that lies at or below the path: the names of its nodes begin with those of
  -- the path's.
  abbrev pub IsRequested : Fields S → Text → Text → Value S → Type 0
  IsRequested data_tree path q l =
      LeafAt P (prefixed data_tree (node_names path)) [] q l
      × Extends (node_names path) (node_names q)
