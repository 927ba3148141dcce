-- ===== src/Connector/Session/Forward.antt =====
-- The methods of src/lib/goldstone/lib/connector/sysrepo.py that pass a call on, and what the base
-- class in base.py does of them.
use goldstone_mgmt.Base.{
  Bool, Option, List, [], ◌∷◌, ◌++◌, Result, ok, err, index_error, unsupported_error,
  connector_error, sysrepo_error, if◌then◌else◌,
}
use goldstone_mgmt.Base.Exec.{Exec, pure, raise, lift, ◌>>=◌, ◌>>◌}
use goldstone_mgmt.Base.Text.{Text, codes, split}
use goldstone_mgmt.Connector.Session.{
  Sysrepo, Session, Connector, Value, wrap_sysrepo_error, set, delete, apply, discard_changes,
  find_node,
}

-- The methods of BaseConnector that only say that they are not supported.
pub base_method : {S A : Type 0} → Exec S A
base_method = raise unsupported_error

-- xpath.split("/")[1].split(":")[0]
pub part_one : List Text → Result Text
part_one (a ∷ b ∷ l) = ok b
part_one _ = err index_error

pub part_zero : List Text → Result Text
part_zero [] = err index_error
part_zero (a ∷ l) = ok a

pub model_of : Text → Result Text
unfolding part_one part_zero
model_of xpath = elim (part_one (split b'/' xpath)) [
  | err e ↦ err e
  | ok step ↦ part_zero (split b':' step)
]

module _ (S : Sysrepo) where
  -- BaseConnector.find_node for a connector that may have no context
  pub find_node_in : Bool → Text → Result (Option S.Node)
  find_node_in has_context xpath = if has_context then find_node S xpath else err unsupported_error

  -- Session.copy_config
  pub copy_config : Session S → Text → Text → Exec S.State (Unit {0})
  copy_config x ds model = wrap_sysrepo_error S x.session (S.copy_config x.session ds model)

  -- Session.delete_all
  pub delete_all : Session S → Text → Exec S.State (Unit {0})
  delete_all x model = wrap_sysrepo_error S x.session (S.clear_config x.session model)

  -- Session.send_notification
  pub send_notification : Session S → Text → S.Data → Exec S.State (Unit {0})
  send_notification x name n = wrap_sysrepo_error S x.session (S.notification_send x.session name n)

  -- Session.subscribe_notification
  pub subscribe_notification : Session S → Text → Exec S.State (Unit {0})
  unfolding model_of
  subscribe_notification x xpath = do
    model ← lift (model_of xpath)
    S.subscribe_notification x.session model xpath

  -- the loop of Session.subscribe_notifications
  pub subscribe_models : Session S → List Text → Exec S.State (Unit {0})
  subscribe_models x [] = pure tt
  subscribe_models x (m ∷ ms) = do
    some_notif ← S.has_notifications m
    if some_notif
        then S.subscribe_notification x.session m (codes "/" ++ (m ++ codes ":*"))
        else pure tt
    subscribe_models x ms

  pub subscribe_notifications : Session S → Exec S.State (Unit {0})
  unfolding subscribe_models
  subscribe_notifications x = do models ← S.modules; subscribe_models x models

  -- Session.rpc
  pub rpc : Session S → Text → S.Data → Exec S.State S.Data
  rpc x xpath args = S.rpc_send x.session xpath args

  -- `except sysrepo.SysrepoError` of Connector.save
  pub saved : Result (Unit {0}) → Result (Unit {0})
  saved (err (sysrepo_error c)) = err connector_error
  saved r = r

  -- Connector.save
  pub save : Connector S → Text → Exec S.State (Unit {0})
  unfolding copy_config saved
  save c model s =
      let (r, s') = copy_config c.startup_session (codes "running") model s in (saved r, s')

  -- the methods of Connector on its running session
  pub running_set : Connector S → Text → Value S.Data → Exec S.State (Unit {0})
  running_set c xpath v = set S c.running_session xpath v

  pub running_delete : Connector S → Text → Exec S.State (Unit {0})
  running_delete c xpath = delete S c.running_session xpath

  pub running_delete_all : Connector S → Text → Exec S.State (Unit {0})
  unfolding delete_all
  running_delete_all c model = delete_all c.running_session model

  pub running_apply : Connector S → Exec S.State (Unit {0})
  running_apply c = apply S c.running_session

  pub running_discard : Connector S → Exec S.State (Unit {0})
  running_discard c = discard_changes S c.running_session

  pub running_rpc : Connector S → Text → S.Data → Exec S.State S.Data
  unfolding rpc
  running_rpc c xpath args = rpc c.running_session xpath args

  pub running_notify : Connector S → Text → S.Data → Exec S.State (Unit {0})
  unfolding send_notification
  running_notify c name n = send_notification c.running_session name n
