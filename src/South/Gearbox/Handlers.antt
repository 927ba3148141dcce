-- ===== src/South/Gearbox/Handlers.antt =====
-- IfChangeHandler of src/south/gearbox/goldstone/south/gearbox/interfaces.py, which the handlers of
-- both servers extend.
use goldstone_mgmt.Base.{
  ℕ, suc, Bool, true, false, Option, none, some, List, [], ◌∷◌, ◌++◌, Result, ok, err,
  inval_arg_error, index_error, attribute_error, assertion_error, name_error, key_error,
  tai_exception, if◌then◌else◌, ◌==◌, nat_eq, text_eq,
}
use goldstone_mgmt.Base.Dict
use goldstone_mgmt.Base.Dict.{Dict, member}
use goldstone_mgmt.Base.Exec.{Exec, pure, raise, lift, ◌>>=◌, ◌>>◌}
use goldstone_mgmt.Base.Text.{Text, codes}
use goldstone_mgmt.Core.{Change, is_deleted}
use goldstone_mgmt.Core.Handlers.{XpathStep, name_key, has_prefix}
use goldstone_mgmt.South.Dpll.{Capability}
use goldstone_mgmt.South.Gearbox.{Platform, Value, text, str, Object, tai_module, netif, hostif}
use goldstone_mgmt.South.Gearbox.Devices.{Devices, on_platform}

-- the assertions on an xpath's first steps, and `xpath[1][2][0][1]`
unfoldable pub key_of : Text → Text → Text → List XpathStep → Result Text
key_of prefix top list [] = err index_error
key_of prefix top list (x ∷ xs) =
    if has_prefix x prefix
    then (if x.name == top
        then elim xs [
          | [] ↦ err index_error
          | y ∷ ys ↦ if y.name == list then name_key y.list_keys else err assertion_error
        ]
        else err assertion_error)
    else err assertion_error

-- xpath[-1][1]
unfoldable pub leaf_name : List XpathStep → Result Text
leaf_name [] = err index_error
leaf_name (x ∷ []) = ok x.name
leaf_name (x ∷ y ∷ xs) = leaf_name (y ∷ xs)

-- the type in a capability's key
unfoldable pub type_of : Object → Text
type_of (tai_module n) = codes "module"
type_of (netif n) = codes "netif"
type_of (hostif n) = codes "hostif"

unfoldable pub is_netif : Object → Bool
is_netif (netif n) = true
is_netif _ = false

-- v in valids: the valid values are texts
unfoldable pub is_member : List Text → Value → Bool
is_member valids (text t) = member valids t
is_member valids _ = false

-- The names whose values differ as text, with the new ones.
unfoldable pub differences : List Text → List Text → List Value → Result (List (Text × Value))
differences [] from to = ok []
differences (n ∷ ns) (f ∷ fs) (t ∷ ts) = elim (differences ns fs ts) [
  | err e ↦ err e
  | ok d ↦ ok (if f == str t then d else (n, t) ∷ d)
]
differences (n ∷ ns) _ _ = err index_error

-- the loop of `revert`: `self.name` in its message does not exist
unfoldable pub revert_values : List Text → List Text → List Value → Result (List (Text × Value))
revert_values [] from to = ok []
revert_values (n ∷ ns) (f ∷ fs) (t ∷ ts) =
    let rest = revert_values ns fs ts in if f == str t then rest else err attribute_error
revert_values (n ∷ ns) _ _ = err index_error

module _ (P : Platform) (C : Type 0) where
  -- The attributes of a handler object; no names stand for a `tai_attr_name` of None.
  pub record Attributes : Type 0 where
    pub handler_class : C
    pub change : Change Value
    pub xpath : List XpathStep
    pub ifname : Text
    pub obj : Option Object
    pub names : List Text
    pub value : List Value
    pub original_value : Option (List Text)
    pub removed : List Text
    pub created : List Text

  -- The handler objects by address, the request's `user`, and the interface server.
  pub record World : Type 0 where
    pub objects : Dict ℕ Attributes
    pub next : ℕ
    pub changes : List (Change Value)
    pub cache : Option P.Config
    pub cap_cache : Dict Text Capability
    pub update_mapping : Bool
    pub assignment : List Text
    pub devices : Devices P

  unfoldable pub on_devices : {A : Type 0} → Exec (Devices P) A → Exec World A
  on_devices m w = let (r, d) = m w.devices in (r, record w { devices = d })

  unfoldable pub on_tai : {A : Type 0} → Exec P.State A → Exec World A
  unfolding on_devices on_platform
  on_tai m = on_devices (on_platform P m)

  -- ChangeHandler.__init__
  unfoldable pub create : C → Change Value → Exec World ℕ
  create c ch w =
      let a : Attributes = record {
        handler_class = c;
        change = ch;
        xpath = [];
        ifname = [];
        obj = none;
        names = [];
        value = [];
        original_value = none;
        removed = [];
        created = [];
      } in
      (ok w.next, record w { objects = Dict.put w.objects w.next a; next = suc w.next })

  unfoldable pub load : ℕ → Exec World Attributes
  load o w = elim (Dict.get w.objects o) [ none ↦ (err key_error, w) | some a ↦ (ok a, w) ]

  unfoldable pub save : ℕ → Attributes → Exec World (Unit {0})
  save o a w = (ok tt, record w { objects = Dict.put w.objects o a })

  -- self.obj, where `_init` has set it
  unfoldable pub object_of : Attributes → Result Object
  object_of a = elim a.obj [ none ↦ err attribute_error | some obj ↦ ok obj ]

  unfoldable pub fetch_cache : Exec World P.Config
  fetch_cache w =
      (do c ← on_tai (P.get_config_cache w.changes); λ w. (ok c, record w { cache = some c })) w

  -- ChangeHandler.setup_cache
  unfoldable pub setup_cache : Exec World P.Config
  unfolding fetch_cache
  setup_cache w = elim w.cache [
    | none ↦ fetch_cache w
    | some c ↦ if P.is_empty c then fetch_cache w else (ok c, w)
  ]

  -- `except taish.TAIException`
  unfoldable pub no_capability : Result Capability → Result Capability
  no_capability (err tai_exception) = err inval_arg_error
  no_capability r = r

  unfoldable pub remember_capability : Text → Result Capability → Exec World Capability
  remember_capability key (err e) w = (err e, w)
  remember_capability key (ok cap) w =
      (ok cap, record w { cap_cache = Dict.put w.cap_cache key cap })

  unfoldable pub capability : Object → Text → Exec World Capability
  unfolding on_tai no_capability remember_capability type_of
  capability obj name w =
      let key = type_of obj ++ (codes ":" ++ name) in
      elim (Dict.get w.cap_cache key) [
        | some cap ↦ (ok cap, w)
        | none ↦
            let (r, w') = on_tai (P.get_attribute_capability obj name) w in
            remember_capability key (no_capability r) w'
      ]

  -- `bound != "" and float(a) > float(b)`; the message names a variable that does not exist
  unfoldable pub fail_if_less : Text → Value → Value → Result (Unit {0})
  fail_if_less bound a b =
      if bound == []
      then ok tt
      else elim (P.less a b) [ err e ↦ err e | ok true ↦ err name_error | ok false ↦ ok tt ]

  unfoldable pub allows : List Text → Value → Bool
  unfolding is_member
  allows [] v = true
  allows (x ∷ xs) v = is_member (x ∷ xs) v

  unfoldable pub check_value : Capability → Value → Result Value
  unfolding fail_if_less allows
  check_value c v = elim (fail_if_less c.min v (text c.min)) [
    | err e ↦ err e
    | ok _ ↦ elim (fail_if_less c.max (text c.max) v) [
      | err e ↦ err e
      | ok _ ↦ if allows c.supportedvalues v then ok v else err inval_arg_error
    ]
  ]

  -- What a subclass gives to IfChangeHandler: to_tai_value, and get_default of its server.
  module _ (to_tai_value : Value → Text → Exec World Value)
      (get_default : Text → Exec World (Option Value)) where
    unfoldable pub default_value : List XpathStep → Text → Capability → Exec World Value
    unfolding leaf_name
    default_value xpath name cap = do
      leaf ← lift (leaf_name xpath)
      d ← get_default leaf
      elim d [
        | some v ↦ to_tai_value v name
        | none ↦
            if cap.default_value == [] then raise inval_arg_error else pure (text cap.default_value)
      ]

    -- what one round of the loop of `validate` appends
    unfoldable pub new_value : Attributes → Text → Capability → Exec World Value
    unfolding default_value check_value
    new_value a name cap =
        if is_deleted a.change.type
        then default_value a.xpath name cap
        else (do v ← to_tai_value a.change.value name; lift (check_value cap v))

    unfoldable pub new_values : Attributes → Object → List Text → Exec World (List Value)
    unfolding capability new_value
    new_values a obj [] = pure []
    new_values a obj (name ∷ names) = do
      cap ← capability obj name
      v ← new_value a name cap
      vs ← new_values a obj names
      pure (v ∷ vs)

    -- IfChangeHandler.validate
    unfoldable pub validate_attributes : ℕ → Attributes → Exec World (Unit {0})
    unfolding object_of new_values save
    validate_attributes o a = elim a.names [
      | [] ↦ pure tt
      | n ∷ ns ↦ do
        obj ← lift (object_of a)
        vs ← new_values a obj (n ∷ ns)
        save o (record a { value = vs })
    ]

  -- IfChangeHandler.apply
  unfoldable pub apply_attributes : ℕ → Attributes → Exec World (Unit {0})
  unfolding object_of on_tai save
  apply_attributes o a = elim a.names [
    | [] ↦ pure tt
    | n ∷ ns ↦ do
      obj ← lift (object_of a)
      original ← on_tai (P.get_multiple obj (n ∷ ns))
      save o (record a { original_value = some original })
      changes ← lift (differences (n ∷ ns) original a.value)
      on_tai (P.set_multiple obj changes)
  ]

  -- self.original_value
  unfoldable pub original_of : Attributes → Result (List Text)
  original_of a = elim a.original_value [ none ↦ err attribute_error | some l ↦ ok l ]

  -- IfChangeHandler.revert
  unfoldable pub revert_attributes : Attributes → Exec World (Unit {0})
  unfolding object_of original_of on_tai
  revert_attributes a = elim a.names [
    | [] ↦ pure tt
    | n ∷ ns ↦ do
      original ← lift (original_of a)
      changes ← lift (revert_values (n ∷ ns) original a.value)
      obj ← lift (object_of a)
      on_tai (P.set_multiple obj changes)
  ]
