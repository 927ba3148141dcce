-- ===== src/Gnmi/Sysrepo.antt =====
-- The repository on sysrepo: src/north/gnmi/goldstone/north/gnmi/repo/sysrepo.py.
use goldstone_mgmt.Base.{
  Bool, true, false, not, ◌&&◌, ◌||◌, Option, none, some, List, [], ◌∷◌, ◌++◌, Result, ok, err, Exn,
  value_error, not_found_error, repo_not_found, apply_failed, if◌then◌else◌, ◌==◌, text_eq,
}
use goldstone_mgmt.Base.Dict.{member, keys}
use goldstone_mgmt.Base.Exec.{Exec}
use goldstone_mgmt.Base.Text.{Text}
use goldstone_mgmt.Core.Handlers.{XpathStep}
use goldstone_mgmt.Connector.Errors.{is_error}
use goldstone_mgmt.Gnmi.Requests.{path_text}

-- The Connector of lib/connector/sysrepo.py and libyang: schema nodes, and a session. `get` has the
-- flag `one`; NotFoundError of the connector is `not_found_error`.
pub record Connector : Type 1 where
  pub Node : Type 0
  pub Data : Type 0
  pub Value : Type 0
  pub State : Type 0
  pub xpath_split : Text → List XpathStep
  pub find_node : Text → Result (Option Node)
  pub children : Node → List Node
  pub name : Node → Text
  pub keys_of : Node → Result (List Node)
  pub get : Text → Bool → Exec State (Option Data)
  pub set : Text → Value → Exec State (Unit {0})
  pub delete : Text → Exec State (Unit {0})
  pub apply : Exec State (Unit {0})
  pub discard_changes : Exec State (Unit {0})

-- elem_keys != node_keys, as sets
pub subset : List Text → List Text → Bool
subset [] ys = true
subset (x ∷ xs) ys = member ys x && subset xs ys

abbrev is_empty : {A : Type 0} → List A → Bool
is_empty [] = true
is_empty (x ∷ xs) = false

pub read_error : Exn → Exn
unfolding is_error
read_error not_found_error = repo_not_found
read_error e = if is_error e then value_error else e

pub set_error : Exn → Exn
unfolding is_error
set_error e = if is_error e then value_error else e

pub apply_error : Exn → Exn
unfolding is_error
apply_error e = if is_error e then apply_failed else e

abbrev map_err : {A : Type 0} → (Exn → Exn) → Result A → Result A
map_err f (ok a) = ok a
map_err f (err e) = err (f e)

module _ (C : Connector) where
  -- `_next_node`
  pub next_node : List C.Node → Text → Option C.Node
  next_node [] target = none
  next_node (n ∷ ns) target =
      let rest = next_node ns target in if C.name n == target then some n else rest

  pub names_of : List C.Node → List Text
  names_of [] = []
  names_of (n ∷ ns) = C.name n ∷ names_of ns

  -- the first node is found by its prefix and name, the others among the children
  pub step_node : Option C.Node → XpathStep → Result (Option C.Node)
  unfolding next_node
  step_node none x = C.find_node (b'/' ∷ (path_text x.prefix ++ b':' ∷ x.name))
  step_node (some n) x = ok (next_node (C.children n) x.name)

  -- the loop of `_expect_single_result_when_path_includes_list_node`
  pub expect_single : Bool → Option C.Node → List XpathStep → Result Bool
  unfolding step_node names_of subset
  expect_single key_defined cursor [] = ok key_defined
  expect_single key_defined cursor (x ∷ xs) = elim (step_node cursor x) [
    | err e ↦ err e
    | ok none ↦ err value_error
    | ok (some n) ↦ elim (C.keys_of n) [
      | err e ↦ err e
      | ok ns ↦
          let elem_keys = keys x.list_keys in
          let defined = key_defined || not (is_empty elem_keys) in
          let rest = expect_single defined (some n) xs in
          if subset elem_keys (names_of ns) && subset (names_of ns) elem_keys
          then rest
          else ok (defined && (is_empty xs && is_empty elem_keys))
    ]
  ]

  pub found_data : Result (Option C.Data) → Result C.Data
  unfolding read_error
  found_data (ok (some d)) = ok d
  found_data (ok none) = err repo_not_found
  found_data (err e) = err (read_error e)

  pub get_one : Result Bool → Text → Exec C.State C.Data
  unfolding found_data
  get_one (err e) xpath s = (err (read_error e), s)
  get_one (ok one) xpath s = let (r, s') = C.get xpath one s in (found_data r, s')

  -- Sysrepo.get
  pub get : Text → Exec C.State C.Data
  unfolding expect_single get_one
  get xpath = get_one (expect_single false none (C.xpath_split xpath)) xpath

  -- Sysrepo.set
  pub set : Text → C.Value → Exec C.State (Unit {0})
  unfolding set_error
  set xpath v s = let (r, s') = C.set xpath v s in (map_err set_error r, s')

  -- Sysrepo.delete
  pub delete : Text → Exec C.State (Unit {0})
  unfolding read_error
  delete xpath s = let (r, s') = C.delete xpath s in (map_err read_error r, s')

  -- Sysrepo.apply
  pub apply : Exec C.State (Unit {0})
  unfolding apply_error
  apply s = let (r, s') = C.apply s in (map_err apply_error r, s')

  -- Sysrepo.discard
  pub discard : Exec C.State (Unit {0})
  discard = C.discard_changes
