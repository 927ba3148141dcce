-- ===== src/Openconfig/Handler/Server/Settled.antt =====
-- What a request leaves in the running datastore: the interface server of
-- src/xlate/openconfig/goldstone/xlate/openconfig/interfaces.py on src/lib/goldstone/lib/core.py.
use goldstone_mgmt.Base.{◌≡◌, refl, List, err, Exn, none, ℕ, nat_eq}
use goldstone_mgmt.Base.Text.{Text}
use goldstone_mgmt.Base.Triple.{Keeps, Keeps-lift, Keeps-bind}
use goldstone_mgmt.Core.{Change, Server, Event, run, change_cb, change}
use goldstone_mgmt.Core.Handlers.{XpathStep}
use goldstone_mgmt.Core.Deferred.{Deferred, AllSettling, run-keeps, until_post, refused-keeps}
use goldstone_mgmt.Connector.Session.{Sysrepo}
use goldstone_mgmt.Connector.Session.Store.{OnlyApplies, new_session-Keeps}
use goldstone_mgmt.Openconfig.Handler.{OcClass, OcValue, ifname_of, World}
use goldstone_mgmt.Openconfig.Handler.Datastore.{
  datastore, on_sysrepo-Keeps, validate-Keeps, apply-Keeps, revert-Keeps,
}
use goldstone_mgmt.Openconfig.Handler.Server.{pre, create, new_user, interface_server}

module _ (S : Sysrepo) (L : OnlyApplies S) where
  abbrev pub view : World S → L.Store
  view = datastore S L

  pre-Keeps : Keeps view (pre S)
  unfolding pre
  pre-Keeps = Keeps-bind (on_sysrepo-Keeps S L _ (new_session-Keeps S L _)) (λ x.
      Keeps-bind (on_sysrepo-Keeps S L _ (new_session-Keeps S L _))
        (λ y. record { at = λ w. refl }))

  module _ (xpath_split : Text → List XpathStep) where
    create-Keeps : (c : OcClass) (ch : Change OcValue) → Keeps view (create S xpath_split c ch)
    unfolding create
    create-Keeps c ch =
        Keeps-bind (Keeps-lift (ifname_of (xpath_split ch.xpath))) (λ n. record { at = λ w. refl })

    interface-Deferred : Deferred (interface_server S xpath_split) view
    unfolding new_user
    interface-Deferred = record {
      quiet = record {
        new_user_keeps = λ cs w. refl;
        pre_keeps = λ u. pre-Keeps.at;
        create_keeps = λ k c. (create-Keeps k c).at;
        init_keeps = λ o u w. refl;
        validate_keeps = λ o u. (validate-Keeps S L o).at;
      };
      apply_keeps = λ o u. apply-Keeps S L o;
      revert_keeps = λ o u. revert-Keeps S L o;
    }

    -- A 'change' that is refused before `post` ends in its exception, with the server free and the
    -- running datastore as it was.
    pub refused-datastore :
        (s : Server (interface_server S xpath_split)) (i : ℕ) (cs : List (Change OcValue)) (e : Exn)
        → s.current ≡ none
        → (until_post (interface_server S xpath_split) cs s.world).0 ≡ err e
        → let r = change_cb (interface_server S xpath_split) change i cs s in
          (r.0 ≡ err e) × (view r.1.world ≡ view s.world) × (r.1.current ≡ none)
    refused-datastore = refused-keeps (interface_server S xpath_split) view interface-Deferred

    -- No 'done', 'abort' or turn of the revert task changes the running datastore: what `post` has
    -- applied of a request stays applied when the request is aborted or its client goes away.
    pub settled-datastore :
        (s : Server (interface_server S xpath_split))
        (es : List (Event (interface_server S xpath_split)))
        → AllSettling (interface_server S xpath_split) view es
        → view (run (interface_server S xpath_split) s es).world ≡ view s.world
    settled-datastore = run-keeps (interface_server S xpath_split) view interface-Deferred
