-- ===== src/Gnmi/Requests.antt =====
-- The requests of src/north/gnmi/goldstone/north/gnmi/server.py: GetRequest, DeleteRequest,
-- ReplaceRequest and UpdateRequest, without the texts of their messages.
pub mod Keeps
pub mod Replaces
use goldstone_mgmt.Base.{
  ℕ, ◌≡◌, ◌↔◌, refl, Bool, true, false, Option, none, some, List, [], ◌∷◌, ◌++◌, Result, ok, err,
  Exn, Eq, arith, value_error, attribute_error, type_error, repo_not_found, if◌then◌else◌, ◌==◌,
  ==_iff, text_eq,
}
use goldstone_mgmt.Base.Dict
use goldstone_mgmt.Base.Dict.{Dict}
use goldstone_mgmt.Base.Exec.{Exec, pure, raise, lift, ◌>>=◌, ◌>>◌}
use goldstone_mgmt.Base.Text.{Text, codes}
use goldstone_mgmt.Telemetry.Path.Values.{
  Value, Items, Fields, scalar, arr, obj, nil, cons, end, field, is_dict, has_dict,
}
use goldstone_mgmt.Gnmi.Paths.{PathElem, key_text, parse_gnmi_path}
use goldstone_mgmt.Gnmi.Repository.{Repository}

-- The status codes of gRPC that the server uses.
pub data StatusCode : Type 0 where
  status_ok status_unknown status_invalid_argument status_not_found status_aborted
        status_unimplemented :
      StatusCode

abbrev pub is_ok_status : StatusCode → Bool
is_ok_status status_ok = true
is_ok_status _ = false

-- gnmi_pb2.TypedValue: the JSON text, or some other encoding
pub data TypedValue : Type 0 where
  json_val : Text → TypedValue
  other_val : TypedValue

-- A path may be None.
abbrev pub path_equal : Option Text → Option Text → Bool
path_equal none none = true
path_equal (some s) (some t) = s == t
path_equal _ _ = false

pub path_equal_iff : (p q : Option Text) → (path_equal p q ≡ true) ↔ (p ≡ q)
path_equal_iff none none = ground arith
path_equal_iff none (some t) = ground arith
path_equal_iff (some s) none = ground arith
path_equal_iff (some s) (some t) = ground (arith, ==_iff s t)

instance abbrev pub path_eq : Eq (Option Text)
path_eq = record { equal = path_equal; decides = path_equal_iff }

-- f"{path}"
abbrev pub path_text : Option Text → Text
path_text none = codes "None"
path_text (some p) = p

pub data Operation : Type 0 where
  delete_operation replace_operation update_operation : Operation

module _ (R : Repository) where
  open R use {Scalar}

  -- `status` and `leaves` while a value is parsed
  pub record Parsing : Type 0 where
    pub status : StatusCode
    pub leaves : Dict (Option Text) (Value Scalar)

  pub set_status : StatusCode → Exec Parsing (Unit {0})
  set_status code p = (ok tt, record p { status = code })

  pub set_leaf : Option Text → Value Scalar → Exec Parsing (Unit {0})
  set_leaf path v p = (ok tt, record p { leaves = Dict.put p.leaves path v })

  abbrev pub is_none_value : Value Scalar → Bool
  is_none_value (scalar s) = R.is_none s
  is_none_value _ = false

  -- container.get(key), where None and a missing key are the same
  pub key_value : Fields Scalar → Text → Option (Value Scalar)
  key_value end key = none
  key_value (field k v fs) key =
      let rest = key_value fs key in
      if k == key then (if is_none_value v then none else some v) else rest

  -- None where a key has no value
  pub keys_str : Fields Scalar → List Text → Option Text
  unfolding key_value
  keys_str fs [] = some []
  keys_str fs (key ∷ keys) =
      let rest = keys_str fs keys in
      elim (key_value fs key) [
        | none ↦ none
        | some v ↦ elim rest [ none ↦ none | some t ↦ some (key_text key (R.str v) ++ t) ]
      ]

  pub with_keys : Option Text → Option Text → Exec Parsing (Option Text)
  unfolding set_status
  with_keys path none = do set_status status_invalid_argument; pure none
  with_keys path (some t) = pure (some (path_text path ++ t))

  pub container_path : Value Scalar → Option Text → Result (List Text) → Exec Parsing (Option Text)
  unfolding set_status keys_str with_keys
  container_path container path (err value_error) = do set_status status_invalid_argument; pure none
  container_path container path (err e) = raise e
  container_path container path (ok []) = do set_status status_invalid_argument; pure none
  container_path (obj fs) path (ok (k ∷ ks)) = with_keys path (keys_str fs (k ∷ ks))
  container_path _ path (ok (k ∷ ks)) = raise attribute_error

  -- `_xpath_with_keys`
  pub xpath_with_keys : Value Scalar → Option Text → Exec Parsing (Option Text)
  unfolding container_path
  xpath_with_keys container path = container_path container path (R.get_list_keys path)

  -- `_get_leaves`
  mutual
    unfolding set_leaf xpath_with_keys

    pub get_leaves : Value Scalar → Option Text → Exec Parsing (Unit {0})
    get_leaves (obj fs) path = get_leaves_fields fs path
    get_leaves (arr xs) path =
        if has_dict xs then get_leaves_items xs path else set_leaf path (arr xs)
    get_leaves (scalar s) path = set_leaf path (scalar s)

    pub get_leaves_items : Items Scalar → Option Text → Exec Parsing (Unit {0})
    get_leaves_items nil path = pure tt
    get_leaves_items (cons x xs) path = do
      next_path ← xpath_with_keys x path
      set_leaf next_path (scalar R.py_none)
      get_leaves x next_path
      get_leaves_items xs path

    pub get_leaves_fields : Fields Scalar → Option Text → Exec Parsing (Unit {0})
    get_leaves_fields end path = pure tt
    get_leaves_fields (field k v fs) path = do
      get_leaves v (some (path_text path ++ b'/' ∷ k))
      get_leaves_fields fs path

  pub decoded : Text → Value Scalar → Exec Parsing (Unit {0})
  unfolding get_leaves set_leaf
  decoded xpath v = if is_none_value v then pure tt else get_leaves v (some xpath)

  -- `_parse_val_into_leaves`: for a value that is no container `_get_leaves` does the same as the
  -- other branch.
  pub parse_val_into_leaves : Text → TypedValue → Exec Parsing (Unit {0})
  unfolding decoded set_status
  parse_val_into_leaves xpath (json_val t) = do v ← lift (R.loads t); decoded xpath v
  parse_val_into_leaves xpath other_val = set_status status_unimplemented

  -- The requests of one SetRequest message.
  pub record Request : Type 0 where
    pub operation : Operation
    pub xpath : Text
    pub status : StatusCode
    pub leaves : Dict (Option Text) (Value Scalar)

  -- DeleteRequest(...)
  pub delete_request : List PathElem → List PathElem → Request
  delete_request prefix path = record {
    operation = delete_operation;
    xpath = parse_gnmi_path prefix ++ parse_gnmi_path path;
    status = status_ok;
    leaves = [];
  }

  pub parsed_request : Operation → Text → Result (Unit {0}) → Parsing → Result Request
  parsed_request op xpath (ok _) p =
      ok (record { operation = op; xpath = xpath; status = p.status; leaves = p.leaves })
  parsed_request op xpath (err e) p = err e

  -- ReplaceRequest(...) and UpdateRequest(...)
  pub value_request : Operation → List PathElem → List PathElem → TypedValue → Result Request
  unfolding parse_val_into_leaves parsed_request
  value_request op prefix path val =
      let xpath = parse_gnmi_path prefix ++ parse_gnmi_path path in
      let (r, p) = parse_val_into_leaves xpath val (record { status = status_ok; leaves = [] }) in
      parsed_request op xpath r p

  pub set_items : Option Text → Items Scalar → Exec R.State (Unit {0})
  set_items path nil = pure tt
  set_items path (cons v vs) = do R.set path v; set_items path vs

  -- A list is set item by item.
  pub set_value : Option Text → Value Scalar → Exec R.State (Unit {0})
  unfolding set_items
  set_value path (arr vs) = set_items path vs
  set_value path v = R.set path v

  pub set_leaves : Dict (Option Text) (Value Scalar) → Exec R.State (Unit {0})
  unfolding set_value
  set_leaves [] = pure tt
  set_leaves ((path, v) ∷ leaves) = do set_value path v; set_leaves leaves

  pub update_status : StatusCode → Result (Unit {0}) → StatusCode
  update_status code (ok _) = code
  update_status code (err value_error) = status_invalid_argument
  update_status code (err e) = status_unknown

  pub delete_status : StatusCode → Result (Unit {0}) → StatusCode
  delete_status code (ok _) = code
  delete_status code (err repo_not_found) = code
  delete_status code (err value_error) = status_invalid_argument
  delete_status code (err e) = status_unknown

  -- `exec()` of each class: the status after it. ReplaceRequest.exec has a parameter `repo` that its
  -- caller does not give, so Python raises TypeError.
  pub exec : Operation → Request → Exec R.State StatusCode
  unfolding set_leaves update_status delete_status
  exec delete_operation r w =
      let (o, w') = R.delete r.xpath w in (ok (delete_status r.status o), w')
  exec replace_operation r w = (err type_error, w)
  exec update_operation r w =
      let (o, w') = set_leaves r.leaves w in (ok (update_status r.status o), w')
