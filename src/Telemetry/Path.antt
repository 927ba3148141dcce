-- ===== src/Telemetry/Path.antt =====
-- src/system/telemetry/goldstone/system/telemetry/path.py: paths of leaves.
pub mod Strings
pub mod Values
pub mod Prune
pub mod Leaves
pub mod Complete
pub mod Parse
pub mod Tests
use goldstone_mgmt.Base.{
  ℕ, ◌≡◌, Bool, true, false, Option, none, some, List, [], ◌∷◌, ◌++◌, Result, ok, err, Exn,
  libyang_error, index_error, key_error, attribute_error, type_error, stop_iteration, if◌then◌else◌,
  ◌==◌, nat_eq, text_eq, leb, ltb, length, Eq,
}
use goldstone_mgmt.Base.Dict
use goldstone_mgmt.Base.Dict.{Dict, keys}
use goldstone_mgmt.Base.Exec.{Exec, pure, raise, lift, ◌>>=◌, ◌>>◌}
use goldstone_mgmt.Base.Text.{Text, codes, split}
use Strings.{remove_list_keys, first_part, last_part}
use Values.{Value, Items, Fields, scalar, arr, obj, nil, cons, end, field, is_dict, has_dict, item}

-- libyang's context and schema nodes, and Python's `str` of a value. `find_path` yields the nodes
-- that match, or raises; `node.children()` exists for inner nodes only, and `node.keys()` for list
-- nodes.
pub record Schema (S : Type 0) : Type 1 where
  pub Node : Type 0
  pub find_path : Text → Result (List Node)
  pub children : Node → Result (List Node)
  pub name : Node → Text
  pub keys_of : Node → Result (List Node)
  pub str : Value S → Text

abbrev pub Leaves : Type 0 → Type 0
Leaves S = Dict Text (Value S)

-- path.split("/")[1:]
abbrev pub tail : List Text → List Text
tail [] = []
tail (x ∷ xs) = xs

pub get_path_elems : Text → List Text
get_path_elems path = tail (split b'/' (remove_list_keys path))

pub first_of : {A : Type 0} → Exn → List A → Result A
first_of e [] = err e
first_of e (x ∷ xs) = ok x

infixl 10 ◌>>=ᵣ◌
abbrev pub ◌>>=ᵣ◌ : {A B : Type 0} → Result A → (A → Result B) → Result B
ok a >>=ᵣ f = f a
err e >>=ᵣ f = err e

-- leaves[path] = data
pub assign : {S : Type 0} → Text → Value S → Exec (Leaves S) (Unit {0})
assign path v leaves = (ok tt, Dict.put leaves path v)

-- the handler of `is_valid_path`
pub is_valid : {N : Type 0} → Result (Option N) → Result Bool
is_valid (ok none) = ok false
is_valid (ok (some n)) = ok true
is_valid (err libyang_error) = ok false
is_valid (err e) = err e

module _ {S : Type 0} (P : Schema S) where
  open P use {Node}

  pub next_node : List Node → Text → Option Node
  next_node [] target = none
  next_node (c ∷ cs) target = if P.name c == target then some c else next_node cs target

  -- the loop of `_find_node`: None has no children
  pub find_from : Option Node → List Text → Result (Option Node)
  find_from n [] = ok n
  find_from none (x ∷ xs) = err attribute_error
  find_from (some n) (x ∷ xs) = P.children n >>=ᵣ λ cs. find_from (next_node cs (last_part x)) xs

  pub find_elems : List Text → Result (Option Node)
  unfolding find_from
  find_elems [] = err index_error
  find_elems (x ∷ xs) = P.find_path (b'/' ∷ x) >>=ᵣ λ found.
      first_of stop_iteration found >>=ᵣ λ n. find_from (some n) xs

  pub find_node : Text → Result (Option Node)
  find_node path = find_elems (get_path_elems path)

  pub is_valid_path : Text → Result Bool
  is_valid_path path = is_valid (find_node path)

  names_of : List Node → List Text
  names_of [] = []
  names_of (n ∷ ns) = P.name n ∷ names_of ns

  node_keys : Option Node → Result (List Text)
  unfolding names_of
  node_keys none = err attribute_error
  node_keys (some n) = P.keys_of n >>=ᵣ λ ns. ok (names_of ns)

  pub get_list_keys : Text → Result (List Text)
  unfolding node_keys
  get_list_keys path = find_node path >>=ᵣ node_keys

  keys_text : Value S → List Text → Text → Result Text
  keys_text container [] keys_str = ok keys_str
  keys_text container (k ∷ ks) keys_str = item container k >>=ᵣ λ val.
      keys_text container ks (keys_str ++ codes "[" ++ k ++ codes "='" ++ P.str val ++ codes "']")

  pub path_with_keys : Value S → Text → Result Text
  unfolding keys_text
  path_with_keys container path =
      get_list_keys path >>=ᵣ λ ks. keys_text container ks [] >>=ᵣ λ t. ok (path ++ t)

  mutual
    pub get_leaves : Value S → Text → Exec (Leaves S) (Unit {0})
    get_leaves (scalar v) path = assign path (scalar v)
    get_leaves (obj fs) path = get_leaves_fields fs path
    get_leaves (arr xs) path =
        let inner = get_leaves_items xs path in if has_dict xs then inner else assign path (arr xs)

    pub get_leaves_items : Items S → Text → Exec (Leaves S) (Unit {0})
    get_leaves_items nil path = pure tt
    get_leaves_items (cons x xs) path = do
      next_path ← lift (path_with_keys x path)
      get_leaves x next_path
      get_leaves_items xs path

    pub get_leaves_fields : Fields S → Text → Exec (Leaves S) (Unit {0})
    get_leaves_fields end path = pure tt
    get_leaves_fields (field k v fs) path = do
      get_leaves v (path ++ b'/' ∷ k)
      get_leaves_fields fs path

-- the inner loop of `_prune_leaves`: some element of the path differs
pub differs : List Text → List Text → Bool
differs [] ys = false
differs (x ∷ xs) [] = false
differs (x ∷ xs) (y ∷ ys) = if x == y then differs xs ys else true

pub to_delete : List Text → List Text → Bool
to_delete elems sub_elems =
    if ltb (length sub_elems) (length elems) then true else differs elems sub_elems

pub sub_paths_to_delete : List Text → List Text → List Text
sub_paths_to_delete elems [] = []
sub_paths_to_delete elems (q ∷ qs) =
    let rest = sub_paths_to_delete elems qs in
    if to_delete elems (get_path_elems q) then q ∷ rest else rest

module _ {S : Type 0} where
  -- `del` of a missing key is passed over
  pub remove_each : Leaves S → List Text → Leaves S
  remove_each leaves [] = leaves
  remove_each leaves (q ∷ qs) = remove_each (Dict.remove leaves q) qs

  pub prune_leaves : Leaves S → Text → Leaves S
  prune_leaves leaves path =
      remove_each leaves (sub_paths_to_delete (get_path_elems path) (keys leaves))

  -- the keys of the top level take the prefix of the path's first element
  pub with_prefix : Text → Fields S → Fields S
  with_prefix prefix end = end
  with_prefix prefix (field k v fs) = field (prefix ++ b':' ∷ k) v (with_prefix prefix fs)

  pub parse_dict_into_leaves : Schema S → Fields S → Text → Result (Leaves S)
  parse_dict_into_leaves P data_tree path = first_of index_error (get_path_elems path) >>=ᵣ λ x.
      let (r, leaves) = get_leaves P (obj (with_prefix (first_part x) data_tree)) [] [] in
      r >>=ᵣ λ _. ok (prune_leaves leaves path)
