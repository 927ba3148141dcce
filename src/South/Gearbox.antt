-- ===== src/South/Gearbox.antt =====
-- What the servers of src/south/gearbox/goldstone/south/gearbox/ share: the values of the
-- configuration, and taish's client.
pub mod Names
pub mod Counters
pub mod Keys
pub mod Info
pub mod Oids
pub mod Mapping
pub mod Devices
pub mod Handlers
pub mod Interfaces
pub mod Modules
mod Tests
use goldstone_mgmt.Base.{
  ℕ, zero, suc, ◌+◌, ◌-◌, Bool, true, false, ◌&&◌, Option, none, some, List, [], ◌∷◌, Result, ok,
  err, attribute_error, index_error, if◌then◌else◌, leb, ◌==◌, text_eq,
}
use goldstone_mgmt.Base.Dict.{Dict}
use goldstone_mgmt.Base.Exec.{Exec}
use goldstone_mgmt.Base.Text.{Text, codes, show}
use goldstone_mgmt.Core.{Change}
use goldstone_mgmt.South.Dpll.{Capability}

-- a leaf's value in Python: of an enumeration or a string, of a number, of a boolean; and None
pub data Value : Type 0 where
  text : Text → Value
  number : ℕ → Value
  flag : Bool → Value
  nothing : Value

-- s.lower() and s.upper() of a text in ASCII, as the enumerations are
unfoldable pub lower_code : ℕ → ℕ
lower_code c = if leb 65 c && leb c 90 then c + 32 else c

unfoldable pub upper_code : ℕ → ℕ
upper_code c = if leb 97 c && leb c 122 then c - 32 else c

unfoldable pub lower : Text → Text
unfolding lower_code
lower [] = []
lower (c ∷ s) = lower_code c ∷ lower s

unfoldable pub upper : Text → Text
unfolding upper_code
upper [] = []
upper (c ∷ s) = upper_code c ∷ upper s

-- the same on a value: numbers and booleans have no such method
unfoldable pub lower_value : Value → Result Value
unfolding lower
lower_value (text t) = ok (text (lower t))
lower_value _ = err attribute_error

-- str(v)
unfoldable pub str : Value → Text
str (text t) = t
str (number n) = show n
str (flag true) = codes "True"
str (flag false) = codes "False"
str nothing = codes "None"

-- `if v`
unfoldable pub truthy : Value → Bool
truthy (text []) = false
truthy (text (c ∷ t)) = true
truthy (number zero) = false
truthy (number (suc n)) = true
truthy (flag b) = b
truthy nothing = false

-- v == t for a text t
unfoldable pub is_text : Value → Text → Bool
is_text (text s) t = s == t
is_text _ t = false

-- v[2] - 1
pub data Index : Type 0 where
  minus_one : Index
  at : ℕ → Index

unfoldable pub before : ℕ → Index
before zero = minus_one
before (suc n) = at n

-- taish's objects, by their object id
pub data Object : Type 0 where
  tai_module netif hostif : ℕ → Object

unfoldable pub oid : Object → ℕ
oid (tai_module n) = n
oid (netif n) = n
oid (hostif n) = n

abbrev pub Mapping : Type 0
Mapping = List (Dict Text (List Text))

-- The leaves of an interface's configuration; `none` where a key on the way is missing.
pub record InterfaceConfig : Type 0 where
  pub interface_type : Option Value
  pub admin_status : Option Value
  pub mfi_type : Option Value
  pub fec : Option Value
  pub mtu : Option Value
  pub key : Option Value
  pub enabled : Option Value

-- A connection of a gearbox: the names of a client interface and of a line interface.
pub record Connection : Type 0 where
  pub client : Text
  pub line : Text

-- A leaf of the schema: whether its type is boolean, and its default.
pub record SchemaLeaf : Type 0 where
  pub boolean : Bool
  pub default : Option Text

-- taish's client, with a module's interfaces as (index, oid), and what a second of sleep changes;
-- `float(a) < float(b)`, the float of a text in base64, JSON, and JSON for the
-- tributary mapping, base64, and the order of a set of texts, each once; and the connector with libyang.
pub record Platform : Type 1 where
  pub State : Type 0
  pub list : Exec State (Dict Text ℕ)
  pub get_module : Text → Exec State ℕ
  pub netifs : ℕ → State → List (ℕ × ℕ)
  pub hostifs : ℕ → State → List (ℕ × ℕ)
  pub get_netif : ℕ → Index → Exec State ℕ
  pub get_hostif : ℕ → Index → Exec State ℕ
  pub create_netif : ℕ → Index → Exec State ℕ
  pub create_hostif : ℕ → Index → Exec State ℕ
  pub remove : ℕ → Exec State (Unit {0})
  pub location : ℕ → State → Text
  pub get_attribute_capability : Object → Text → Exec State Capability
  pub get : Object → Text → Exec State Text
  pub get_json : Object → Text → Exec State Text
  pub get_multiple : Object → List Text → Exec State (List Text)
  pub set : Object → Text → Value → Exec State (Unit {0})
  pub set_multiple : Object → List (Text × Value) → Exec State (Unit {0})
  pub less : Value → Value → Result Bool
  pub loads : Text → Result Mapping
  pub dumps : Mapping → Text
  pub b64decode : Text → Result (List ℕ)
  pub sleep : State → State
  pub Json : Type 0
  pub loads_any : Text → Result Json
  pub get_multiple_json : Object → List Text → Exec State (List Text)
  pub encode_float : Text → Result Text
  pub iterate : List Text → List Text
  pub Config : Type 0
  pub get_config_cache : List (Change Value) → Exec State Config
  pub is_empty : Config → Bool
  pub leaf_of : Config → Text → Option Value
  pub interface_of : Config → Text → Option InterfaceConfig
  pub find_node : Text → Option SchemaLeaf
  pub running_leaf : Text → Exec State (Option Value)
  pub running_interface : Text → Exec State (Option InterfaceConfig)
  pub running_config : Text → Exec State (Option Config)
  pub empty : Config
  pub running_connections : Text → Exec State (List Connection)

-- l[i]
unfoldable pub item : {A : Type 0} → List A → ℕ → Result A
item [] i = err index_error
item (x ∷ xs) zero = ok x
item (x ∷ xs) (suc i) = item xs i

-- sum(l) and l[a:b]
unfoldable pub sum : List ℕ → ℕ
sum [] = 0
sum (n ∷ ns) = n + sum ns

unfoldable pub drop : ℕ → List ℕ → List ℕ
drop zero l = l
drop (suc n) [] = []
drop (suc n) (x ∷ l) = drop n l

unfoldable pub take : ℕ → List ℕ → List ℕ
take zero l = []
take (suc n) [] = []
take (suc n) (x ∷ l) = x ∷ take n l

unfoldable pub slice : ℕ → ℕ → List ℕ → List ℕ
unfolding take drop
slice a b l = take (b - a) (drop a l)
