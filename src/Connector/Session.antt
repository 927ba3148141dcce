-- ===== src/Connector/Session.antt =====
-- Sessions and the connector of src/lib/goldstone/lib/connector/sysrepo.py, with `find_node` of
-- src/lib/goldstone/lib/connector/base.py. sysrepo, libyang and the iteration order of a Python set
-- are parameters. Log messages are left out.
pub mod Forward
pub mod Discard
pub mod LeafList
pub mod Store
pub mod Example
mod Tests
use goldstone_mgmt.Base.{
  ℕ, Bool, true, false, not, ◌&&◌, Option, none, some, List, [], ◌∷◌, ◌++◌, Result, ok, err, Exn,
  sysrepo_error, not_found, inval_arg, libyang_error, attribute_error, assertion_error,
  connector_error, unsupported_error, not_found_error, if◌then◌else◌, ◌==◌, ltb, nat_eq, text_eq,
}
use goldstone_mgmt.Base.Exec.{Exec, pure, raise, lift, ◌>>=◌, ◌>>◌}
use goldstone_mgmt.Base.Dict.{member}
use goldstone_mgmt.Base.Text.{Text, codes}
use goldstone_mgmt.Connector.Errors.{from_sysrepo, is_error}

-- What a value is to `set`: a list of texts, a text, or anything else.
pub data Value (D : Type 0) : Type 0 where
  list_value : List Text → Value D
  text : Text → Value D
  single : D → Value D

-- sysrepo and libyang. `Handle` is a sysrepo session; `Data` is what is read, with Python's truth and
-- `len`; `texts` is `set(data)`, and `iterate` gives the order in which a set is gone through.
-- `clear_config` is `replace_config` with {}.
pub record Sysrepo : Type 1 where
  pub State : Type 0
  pub Handle : Type 0
  pub Data : Type 0
  pub Node : Type 0
  pub none_data : Data
  pub is_none : Data → Bool
  pub empty_list : Data
  pub truthy : Data → Bool
  pub len : Data → Result ℕ
  pub first : Data → Data
  pub texts : Data → Result (List Text)
  pub iterate : List Text → List Text
  pub keyword : Node → Text
  pub find_path : Text → Result (List Node)
  pub xpath_get : Data → Text → Data → Bool → Result Data
  pub start_session : Text → Exec State Handle
  pub get_data : Handle → Text → Bool → Exec State Data
  pub set_item : Handle → Text → Value Data → Exec State (Unit {0})
  pub delete_item : Handle → Text → Exec State (Unit {0})
  pub apply_changes : Handle → Exec State (Unit {0})
  pub discard_changes : Handle → Exec State (Unit {0})
  pub stop : Handle → Exec State (Unit {0})
  pub copy_config : Handle → Text → Text → Exec State (Unit {0})
  pub clear_config : Handle → Text → Exec State (Unit {0})
  pub notification_send : Handle → Text → Data → Exec State (Unit {0})
  pub subscribe_notification : Handle → Text → Text → Exec State (Unit {0})
  pub rpc_send : Handle → Text → Data → Exec State Data
  pub modules : Exec State (List Text)
  pub has_notifications : Text → Exec State Bool

-- v - w on sets
pub difference : List Text → List Text → List Text
difference [] w = []
difference (x ∷ xs) w = let rest = difference xs w in if member w x then rest else x ∷ rest

-- f"{xpath}[.='{value}']"
unfoldable pub entry_path : Text → Text → Text
entry_path xpath v = xpath ++ (codes "[.='" ++ (v ++ codes "']"))

module _ (S : Sysrepo) where
  open S use {State, Handle, Data, Node}

  -- Session: `session` and `ds`
  pub record Session : Type 0 where
    pub session : Handle
    pub ds : Text

  -- the handlers of wrap_sysrepo_error
  pub wrap_result {ℓ} : {A : Type ℓ} → Handle → Result A → Exec State A
  wrap_result h (ok a) = pure a
  wrap_result h (err (sysrepo_error c)) = S.discard_changes h >> raise (from_sysrepo c)
  wrap_result h (err libyang_error) = S.discard_changes h >> raise connector_error
  wrap_result h (err e) = raise e

  pub wrap_sysrepo_error {ℓ} : {A : Type ℓ} → Handle → Exec State A → Exec State A
  unfolding wrap_result
  wrap_sysrepo_error h m s = let (r, s') = m s in wrap_result h r s'

  -- BaseConnector.find_node, once the connector has a context
  pub only_node : Result (List Node) → Result (Option Node)
  only_node (err libyang_error) = ok none
  only_node (err e) = err e
  only_node (ok []) = ok none
  only_node (ok (n ∷ [])) = ok (some n)
  only_node (ok (n ∷ m ∷ ns)) = err assertion_error

  pub find_node : Text → Result (Option Node)
  unfolding only_node
  find_node xpath = only_node (S.find_path xpath)

  -- `list(data)[0]` where `one` is asked for
  pub only_item : Data → Result Data
  only_item found =
      if S.truthy found
      then elim (S.len found) [
        | err e ↦ err e
        | ok n ↦
            if n == 1 then ok (S.first found) else if ltb 1 n then err connector_error else ok found
      ]
      else ok found

  pub strip_data : Text → Text → Data → Bool → Data → Result Data
  unfolding only_item
  strip_data ds xpath default one found =
      elim (S.xpath_get found xpath default (ds == codes "operational")) [
        | err e ↦ err e
        | ok d ↦ if one then only_item d else ok d
      ]

  -- `get` after its call of `get_data`
  pub read : Text → Text → Data → Bool → Bool → Result Data → Result Data
  unfolding strip_data
  read ds xpath default strip one (ok found) =
      if strip then strip_data ds xpath default one found else ok found
  read ds xpath default strip one (err (sysrepo_error not_found)) = ok default
  read ds xpath default strip one (err (sysrepo_error inval_arg)) = ok default
  read ds xpath default strip one (err e) = err e

  pub get_body : Session → Text → Data → Bool → Bool → Bool → Exec State Data
  unfolding read
  get_body x xpath default implicit strip one s =
      let (r, s') = S.get_data x.session xpath implicit s in
      (read x.ds xpath default strip one r, s')

  -- Session.get
  pub get : Session → Text → Data → Bool → Bool → Bool → Exec State Data
  unfolding wrap_sysrepo_error get_body
  get x xpath default implicit strip one =
      wrap_sysrepo_error x.session (get_body x xpath default implicit strip one)

  -- Session.delete
  pub delete : Session → Text → Exec State (Unit {0})
  unfolding wrap_sysrepo_error
  delete x xpath = wrap_sysrepo_error x.session (S.delete_item x.session xpath)

  -- the two loops of Session.set
  pub delete_entries : Session → Text → List Text → Exec State (Unit {0})
  unfolding delete
  delete_entries x xpath [] = pure tt
  delete_entries x xpath (v ∷ vs) = do delete x (entry_path xpath v); delete_entries x xpath vs

  pub add_entries : Session → Text → List Text → Exec State (Unit {0})
  add_entries x xpath [] = pure tt
  add_entries x xpath (v ∷ vs) = do S.set_item x.session xpath (text v); add_entries x xpath vs

  -- the leaf-list branch: entries that are not wanted go, and wanted ones that are not there come
  pub replace_entries : Session → Text → List Text → Exec State (Unit {0})
  unfolding get delete_entries add_entries difference
  replace_entries x xpath wanted = do
    found ← get x xpath S.empty_list false true false
    old ← lift (S.texts found)
    delete_entries x xpath (S.iterate (difference old wanted))
    add_entries x xpath (S.iterate (difference wanted old))

  -- the test of `set` on the node and the type of the value
  pub set_node : Session → Text → Value Data → Option Node → Exec State (Unit {0})
  unfolding replace_entries
  set_node x xpath v none = raise attribute_error
  set_node x xpath (list_value vs) (some n) =
      if S.keyword n == codes "leaf-list"
      then replace_entries x xpath vs
      else S.set_item x.session xpath (list_value vs)
  set_node x xpath v (some n) = S.set_item x.session xpath v

  pub set_body : Session → Text → Value Data → Exec State (Unit {0})
  unfolding find_node set_node
  set_body x xpath v = do node ← lift (find_node xpath); set_node x xpath v node

  -- Session.set
  pub set : Session → Text → Value Data → Exec State (Unit {0})
  unfolding wrap_sysrepo_error set_body
  set x xpath v = wrap_sysrepo_error x.session (set_body x xpath v)

  -- Session.apply
  pub apply : Session → Exec State (Unit {0})
  unfolding wrap_sysrepo_error
  apply x = wrap_sysrepo_error x.session (S.apply_changes x.session)

  -- Session.discard_changes
  pub discard_changes : Session → Exec State (Unit {0})
  unfolding wrap_sysrepo_error
  discard_changes x = wrap_sysrepo_error x.session (S.discard_changes x.session)

  -- Session.__init__
  unfoldable pub new_session : Text → Exec State Session
  new_session ds = do h ← S.start_session ds; pure (record { session = h; ds = ds })

  -- Connector: its three sessions
  pub record Connector : Type 0 where
    pub running_session : Session
    pub operational_session : Session
    pub startup_session : Session

  -- Connector.__init__
  pub connect : Exec State Connector
  unfolding new_session
  connect = do
    running ← new_session (codes "running")
    operational ← new_session (codes "operational")
    startup ← new_session (codes "startup")
    pure (record {
      running_session = running;
      operational_session = operational;
      startup_session = startup;
    })

  pub session_for : Connector → Text → Option Session
  session_for c ds =
      if ds == codes "running"
      then some c.running_session
      else if ds == codes "operational"
      then some c.operational_session
      else if ds == codes "startup"
      then some c.startup_session
      else none

  -- Connector.get: NotFoundError from a sysrepo error that the session has let through
  pub not_found_only : Result Data → Result Data
  not_found_only (err (sysrepo_error not_found)) = err not_found_error
  not_found_only r = r

  pub connector_get : Connector → Text → Data → Bool → Bool → Bool → Text → Exec State Data
  unfolding session_for get not_found_only
  connector_get c xpath default implicit strip one ds s = elim (session_for c ds) [
    | none ↦ (err connector_error, s)
    | some x ↦ let (r, s') = get x xpath default implicit strip one s in (not_found_only r, s')
  ]

  pub get_operational : Connector → Text → Data → Bool → Bool → Bool → Exec State Data
  unfolding connector_get
  get_operational c xpath default implicit strip one =
      connector_get c xpath default implicit strip one (codes "operational")

  pub get_startup : Connector → Text → Exec State Data
  unfolding connector_get
  get_startup c xpath = connector_get c xpath S.none_data false true false (codes "startup")

  pub stop_all : Connector → Exec State (Unit {0})
  stop_all c = do
    S.stop c.running_session.session
    S.stop c.operational_session.session
    S.stop c.startup_session.session
