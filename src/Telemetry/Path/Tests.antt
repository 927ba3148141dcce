-- ===== src/Telemetry/Path/Tests.antt =====
-- The theorems about src/system/telemetry/goldstone/system/telemetry/path.py at a small model: a container
-- `top` with a leaf and with a list that has one key.
use goldstone_mgmt.Base.{
  ℕ, zero, suc, ◌+◌, ◌≡◌, refl, true, List, [], ◌∷◌, Result, ok, err, attribute_error,
  libyang_error, if◌then◌else◌, ◌==◌, nat_eq, text_eq,
}
use goldstone_mgmt.Base.Dict
use goldstone_mgmt.Base.Dict.{member}
use goldstone_mgmt.Base.Text.{Text, codes, split, join, contains}
use goldstone_mgmt.Telemetry.Path.{
  Schema, Leaves, first_of, get_leaves, get_leaves_items, get_leaves_fields, with_prefix, assign,
  path_with_keys, get_list_keys, find_node, find_elems, next_node, is_valid, differs, find_from,
  keys_text, names_of, node_keys, remove_each, sub_paths_to_delete, to_delete,
  parse_dict_into_leaves, prune_leaves, get_path_elems, is_valid_path,
}
use goldstone_mgmt.Telemetry.Path.Values.{
  Value, scalar, arr, obj, nil, cons, Fields, end, field, field_of, item,
}
use goldstone_mgmt.Telemetry.Path.Strings.{
  remove_list_keys, strip_lines, strip_line, first_part, last_part, after_last,
}

abbrev pub name : ℕ → Text
name zero = codes "top"
name (suc zero) = codes "leaf"
name (suc (suc zero)) = codes "item"
name (suc (suc (suc zero))) = codes "name"
name _ = codes "value"

abbrev pub children : ℕ → Result (List ℕ)
children zero = ok (1 ∷ 2 ∷ [])
children (suc (suc zero)) = ok (3 ∷ 4 ∷ [])
children _ = err attribute_error

abbrev pub keys_of : ℕ → Result (List ℕ)
keys_of (suc (suc zero)) = ok (3 ∷ [])
keys_of _ = err attribute_error

abbrev pub str : Value ℕ → Text
str (scalar n) = (48 + n) ∷ []
str _ = []

abbrev pub model : Schema ℕ
model = record {
  Node = ℕ;
  find_path = λ p. if p == codes "/m:top" then ok (0 ∷ []) else err libyang_error;
  children = children;
  name = name;
  keys_of = keys_of;
  str = str;
}

abbrev pub entry : ℕ → ℕ → Value ℕ
entry k v = obj (field (codes "name") (scalar k) (field (codes "value") (scalar v) end))

abbrev pub tree : Fields ℕ
tree =
    field (codes "top")
      (obj (
        field (codes "leaf") (scalar 5)
          (field (codes "item") (arr (cons (entry 1 7) (cons (entry 2 8) nil))) end)))
      end

abbrev pub items : Text
items = codes "/m:top/item"

abbrev pub one_leaf : Text
one_leaf = codes "/m:top/leaf"

abbrev pub value_path : Text
value_path = codes "/m:top/item[name='1']/value"

abbrev pub of_leaf : Leaves ℕ
of_leaf = (one_leaf, scalar 5) ∷ []

abbrev of_tree : Leaves ℕ
of_tree = (value_path, scalar 7) ∷ (one_leaf, scalar 5) ∷ []

pub parsed_leaf : parse_dict_into_leaves model tree one_leaf ≡ ok of_leaf
unfolding parse_dict_into_leaves remove_list_keys first_of get_path_elems split join strip_lines
    strip_line get_leaves get_leaves_items get_leaves_fields with_prefix assign path_with_keys
    get_list_keys find_node find_elems first_part next_node last_part contains Dict.put Dict.remove
    after_last field_of item differs find_from keys_text names_of node_keys prune_leaves remove_each
    sub_paths_to_delete to_delete
parsed_leaf = refl

abbrev of_items : Leaves ℕ
of_items =
    (codes "/m:top/item[name='1']/name", scalar 1)
    ∷ (value_path, scalar 7)
    ∷ (codes "/m:top/item[name='2']/name", scalar 2)
    ∷ (codes "/m:top/item[name='2']/value", scalar 8)
    ∷ []

pub valid_leaf : is_valid_path model one_leaf ≡ ok true
unfolding is_valid_path is_valid find_node find_elems find_from next_node get_path_elems
    remove_list_keys split join strip_lines strip_line after_last last_part contains first_of
valid_leaf = refl
