-- ===== src/Openconfig/Handler/Server.antt =====
-- OpenConfigServer of src/xlate/openconfig/goldstone/xlate/openconfig/lib.py and InterfaceServer of
-- interfaces.py as a subclass of ServerBase.
pub mod Settled
mod Tests
use goldstone_mgmt.Base.{
  ℕ, suc, Bool, true, false, Option, none, some, List, [], ◌∷◌, Result, ok, err, Exn, key_error,
  if◌then◌else◌, nat_eq,
}
use goldstone_mgmt.Base.Dict
use goldstone_mgmt.Base.Dict.{Dict}
use goldstone_mgmt.Base.Exec.{Exec, pure, raise, lift, ◌>>=◌, ◌>>◌}
use goldstone_mgmt.Base.Text.{Text, codes}
use goldstone_mgmt.Core.{Change, Subclass}
use goldstone_mgmt.Core.Handlers.{
  XpathStep, Class, no_op, sub, Tree, leaf, node, Branches, stop, branch,
}
use goldstone_mgmt.Connector.Session.{
  Sysrepo, Session, Connector, Value, text, new_session, set, apply as session_apply, connector_get,
}
use goldstone_mgmt.Openconfig.Handler.{
  OcClass, enabled_handler, fec_mode_handler, OcValue, Attributes, World, on_sysrepo, running,
  ifname_of, if_name_xpath, item_xpath, admin_status, validate, apply, revert,
}

abbrev ignored : List Text → Branches OcClass → Branches OcClass
ignored [] b = b
ignored (n ∷ ns) b = branch n (leaf no_op) (ignored ns b)

-- InterfaceServer.handlers
pub handlers : Branches OcClass
handlers =
    branch (codes "interfaces")
      (node (
        branch (codes "interface")
          (node (
            branch (codes "name") (leaf no_op) (
              branch (codes "config")
                (node (
                  branch (codes "enabled") (leaf (sub enabled_handler))
                    (ignored (codes "name" ∷ codes "type" ∷ codes "loopback-mode" ∷ []) stop)))
                (branch (codes "hold-time") (leaf no_op) (
                  branch (codes "ethernet")
                    (node (
                      branch (codes "config")
                        (node (
                          branch (codes "fec-mode") (leaf (sub fec_mode_handler)) (
                            ignored
                              (codes "auto-negotiate"
                                ∷ codes "standalone-link-training"
                                ∷ codes "enable-flow-control"
                                ∷ [])
                              stop)))
                        stop))
                    stop)))))
          stop))
      stop

-- What `reconcile` reads of an interface: its name, and `enabled` of a `config` that is there.
pub record Configs : Type 0 where
  pub name : Text
  pub config : Option (Option Bool)

module _ (S : Sysrepo) where
  -- OpenConfigServer.pre
  pub pre : Exec (World S) (Unit {0})
  unfolding on_sysrepo
  pre = do
    sess_running ← on_sysrepo S (new_session S (codes "running"))
    sess_operational ← on_sysrepo S (new_session S (codes "operational"))
    λ w. (ok tt, record w { sess = some (sess_running, sess_operational) })

  pub user_sessions : Exec (World S) (Session S × Session S)
  user_sessions w = elim w.sess [ none ↦ (err key_error, w) | some p ↦ (ok p, w) ]

  -- OpenConfigServer.post
  pub post : Exec (World S) (Unit {0})
  unfolding on_sysrepo user_sessions
  post = do
    p ← user_sessions
    on_sysrepo S (session_apply S p.0)
    on_sysrepo S (S.stop p.0.session)
    on_sysrepo S (S.stop p.1.session)

  -- IfChangeHandler.__init__
  pub create : (Text → List XpathStep) → OcClass → Change OcValue → Exec (World S) ℕ
  unfolding ifname_of
  create xpath_split c ch = do
    ifname ← lift (ifname_of (xpath_split ch.xpath))
    let a : Attributes S = record {
      handler_class = c;
      change = ch;
      ifname = ifname;
      if_created = false;
      value = none;
      original_value = S.none_data;
    }
    λ w. (ok w.next, record w { objects = Dict.put w.objects w.next a; next = suc w.next })

  pub new_user : List (Change OcValue) → World S → (Unit {0}) × World S
  new_user cs w = (tt, record w { sess = none })

  abbrev pub interface_server : (Text → List XpathStep) → Subclass
  interface_server xpath_split = record {
    HandlerClass = OcClass;
    Value = OcValue;
    World = World S;
    User = Unit {0};
    Object = ℕ;
    handlers = handlers;
    xpath_split = xpath_split;
    new_user = new_user;
    pre = λ u. pre;
    post = λ u. post;
    create = create xpath_split;
    init = λ o u w. (ok tt, w);
    validate_object = λ o u. validate S o;
    apply_object = λ o u. apply S o;
    revert_object = λ o u. revert S o;
  }

  -- the loop of InterfaceServer.reconcile
  pub reconcile_interfaces : Session S → List Configs → Exec S.State (Unit {0})
  unfolding if_name_xpath item_xpath admin_status
  reconcile_interfaces sess [] = pure tt
  reconcile_interfaces sess (c ∷ cs) = elim c.config [
    | none ↦ reconcile_interfaces sess cs
    | some none ↦ (do set S sess (if_name_xpath c.name) (text c.name); reconcile_interfaces sess cs)
    | some (some enabled) ↦ (do
      set S sess (if_name_xpath c.name) (text c.name)
      set S sess (item_xpath enabled_handler c.name) (text (admin_status enabled))
      reconcile_interfaces sess cs)
  ]

  -- InterfaceServer.reconcile, with what it reads of the running datastore
  pub reconcile : List Configs → Exec S.State (Unit {0})
  unfolding reconcile_interfaces
  reconcile data_ = do
    sess ← new_session S (codes "running")
    reconcile_interfaces sess data_
    session_apply S sess
    S.stop sess.session
