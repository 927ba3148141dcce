-- ===== src/Connector/Server.antt =====
-- ServerConnector and Change of src/lib/goldstone/lib/server_connector/sysrepo.py. A schema node of the
-- module stands for its keyword and name.
use goldstone_mgmt.Base.{
  ℕ, Bool, true, false, Option, List, [], ◌∷◌, ◌++◌, Result, ok, err, sysrepo_error,
  inval_arg_error, assertion_error, connector_error, if◌then◌else◌, ◌==◌, text_eq,
}
use goldstone_mgmt.Base.Exec.{Exec, pure, lift, ◌>>=◌}
use goldstone_mgmt.Base.Text.{Text, codes}
use goldstone_mgmt.Core.{
  ChangeType, created, modified, deleted, Change, Subclass, Server, EventName, change_cb,
}
use goldstone_mgmt.Connector.Errors.{is_error, convert2sysrepo}
use goldstone_mgmt.Connector.Session.{
  Sysrepo, Session, Connector, new_session, connector_get, get_operational, find_node,
}

-- the classes of sysrepo's changes
pub data RawChange : Type 0 where
  change_created change_modified change_deleted other_change : RawChange

-- Change.type
pub change_type : RawChange → Result ChangeType
change_type change_created = ok created
change_type change_modified = ok modified
change_type change_deleted = ok deleted
change_type other_change = err inval_arg_error

-- [n.name() for n in m if n.keyword() == "container"]
pub containers : List (Text × Text) → List Text
containers [] = []
containers ((keyword, name) ∷ ns) =
    let rest = containers ns in if keyword == codes "container" then name ∷ rest else rest

-- `top`: the module's only container
pub top_of : Text → List Text → Result Text
top_of m (v ∷ []) = ok (codes "/" ++ (m ++ (codes ":" ++ v)))
top_of m _ = err assertion_error

module _ (S : Sysrepo) where
  pub record ServerConnector : Type 0 where
    pub conn : Connector S
    pub session : Session S
    pub server_module : Text
    pub top : Text
    pub has_callback : Bool

  -- ServerConnector.__init__
  pub connect_server : Connector S → Text → List (Text × Text) → Exec S.State ServerConnector
  unfolding containers top_of
  connect_server c m nodes = do
    sess ← new_session S (codes "running")
    top ← lift (top_of m (containers nodes))
    pure (record { conn = c; session = sess; server_module = m; top = top; has_callback = false })

  -- subscribe_module_change, with sysrepo's
  pub subscribe_module_change :
      (Text → Exec S.State (Unit {0})) → Exec (ServerConnector × S.State) (Unit {0})
  subscribe_module_change subscribe (c, s) =
      if c.has_callback
      then (err connector_error, (c, s))
      else (let (r, s') = subscribe c.server_module s in
          (r, (record c { has_callback = true }, s')))

  -- ServerConnector.get and get_operational
  pub server_get : ServerConnector → Text → S.Data → Bool → Bool → Bool → Text → Exec S.State S.Data
  server_get c = connector_get S c.conn

  pub server_get_operational :
      ServerConnector → Text → S.Data → Bool → Bool → Bool → Exec S.State S.Data
  server_get_operational c = get_operational S c.conn

  -- ServerConnector.get_config_cache, with sysrepo's `update_config_cache`
  pub get_config_cache :
      {R : Type 0}
      → (S.Data → List R → S.Data)
      → S.Data
      → ServerConnector
      → List R
      → Exec S.State S.Data
  unfolding server_get
  get_config_cache update empty c changes = do
    cache ← server_get c c.top empty true false false (codes "running")
    pure (update cache changes)

  -- ServerConnector.find_node and stop
  pub server_find_node : ServerConnector → Text → Result (Option S.Node)
  server_find_node c xpath = find_node S xpath

  pub server_stop : ServerConnector → Exec S.State (Unit {0})
  server_stop c = S.stop c.session.session

-- `except Error as e: raise convert2sysrepo(e)`
pub converted {ℓ} : {A : Type ℓ} → Result A → Result A
converted (ok a) = ok a
converted (err e) = if is_error e then err (sysrepo_error (convert2sysrepo e)) else err e

-- ServerConnector._change_cb around the server's `change_cb`
pub on_module_change :
    (P : Subclass) → EventName → ℕ → List (Change P.Value) → Exec (Server P) (Unit {0})
unfolding converted
on_module_change P event req cs s = let (r, s') = change_cb P event req cs s in (converted r, s')
