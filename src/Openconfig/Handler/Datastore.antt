-- ===== src/Openconfig/Handler/Datastore.antt =====
-- The handlers of src/xlate/openconfig/goldstone/xlate/openconfig/lib.py leave the running datastore
-- alone.
use goldstone_mgmt.Base.{
  refl, ok, Option-cases, inl, inr, Option, none, some, true, false, ℕ, nat_eq,
}
use goldstone_mgmt.Base.Dict
use goldstone_mgmt.Base.Exec.{Exec}
use goldstone_mgmt.Base.Text.{Text}
use goldstone_mgmt.Base.Triple.{Keeps, Keeps-lift, Keeps-bind, Keeps-if}
use goldstone_mgmt.Core.{is_deleted}
use goldstone_mgmt.Connector.Session.{Sysrepo, Value}
use goldstone_mgmt.Connector.Session.Store.{OnlyApplies, get-Keeps, set-Keeps, delete-Keeps}
use goldstone_mgmt.Openconfig.Handler.{
  Attributes, World, on_sysrepo, running, _get, _set, _delete, set_item, delete_item, load, save,
  get_original, validate_parent, validate_attributes, set_value, validate, apply_attributes, apply,
  revert_attributes, revert, translated, translate, item_xpath,
}

module _ (S : Sysrepo) (L : OnlyApplies S) where
  abbrev pub datastore : World S → L.Store
  datastore w = L.running w.sysrepo

  pub on_sysrepo-Keeps :
      {A : Type 0} (m : Exec S.State A) → Keeps L.running m → Keeps datastore (on_sysrepo S m)
  unfolding on_sysrepo
  on_sysrepo-Keeps m k = record { at = λ w. k.at w.sysrepo }

  running-Keeps : Keeps datastore (running S)
  unfolding running
  running-Keeps = record {
    at = λ w. elim (Option-cases w.sess) [
      | inl e ↦ rw (e, running) refl
      | inr (p, e) ↦ rw (e, running) refl
    ];
  }

  get-item-Keeps : (p : Text) → Keeps datastore (_get S p)
  unfolding _get
  get-item-Keeps p =
      Keeps-bind running-Keeps
        (λ x. on_sysrepo-Keeps _ (get-Keeps S L x p S.none_data false true false))

  set-path-Keeps : (p : Text) (v : Value S.Data) → Keeps datastore (_set S p v)
  unfolding _set
  set-path-Keeps p v = Keeps-bind running-Keeps (λ x. on_sysrepo-Keeps _ (set-Keeps S L x p v))

  delete-path-Keeps : (p : Text) → Keeps datastore (_delete S p)
  unfolding _delete
  delete-path-Keeps p = Keeps-bind running-Keeps (λ x. on_sysrepo-Keeps _ (delete-Keeps S L x p))

  set_item-Keeps : (a : Attributes S) (v : Value S.Data) → Keeps datastore (set_item S a v)
  unfolding set_item
  set_item-Keeps a v = Keeps-bind (set-path-Keeps _ _) (λ _. set-path-Keeps _ v)

  delete_item-Keeps : (a : Attributes S) → Keeps datastore (delete_item S a)
  unfolding delete_item
  delete_item-Keeps a = Keeps-if a.if_created (delete-path-Keeps _) (delete-path-Keeps _)

  load-Keeps : (o : ℕ) → Keeps datastore (load S o)
  unfolding load
  load-Keeps o = record {
    at = λ w. elim (Option-cases (Dict.get w.objects o)) [
      | inl e ↦ rw (e, load) refl
      | inr (a, e) ↦ rw (e, load) refl
    ];
  }

  save-Keeps : (o : ℕ) (a : Attributes S) → Keeps datastore (save S o a)
  unfolding save
  save-Keeps o a = record { at = λ w. refl }

  get_original-Keeps : (a : Attributes S) → Keeps datastore (get_original S a)
  unfolding get_original
  get_original-Keeps a = record {
    at = λ w. (get-item-Keeps (item_xpath a.handler_class a.ifname)).at w;
  }

  validate_parent-Keeps : (a : Attributes S) → Keeps datastore (validate_parent S a)
  unfolding validate_parent
  validate_parent-Keeps a = Keeps-bind (get-item-Keeps _) (λ d. Keeps-lift (ok (S.is_none d)))

  set_value-Keeps : (o : ℕ) (a : Attributes S) (d : S.Data) → Keeps datastore (set_value S o a d)
  unfolding set_value
  set_value-Keeps o a d =
      Keeps-bind (Keeps-lift (translated S (translate a.handler_class a.change.value))) (λ v.
        let b : Attributes S = record a {
          if_created = false;
          original_value = d;
          value = some v;
        } in
        Keeps-bind (save-Keeps o b) (λ _.
          Keeps-bind (validate_parent-Keeps a) (λ c. save-Keeps o (record b { if_created = c }))))

  pub validate-Keeps : (o : ℕ) → Keeps datastore (validate S o)
  unfolding validate validate_attributes
  validate-Keeps o = Keeps-bind (load-Keeps o) (λ a.
      Keeps-bind (save-Keeps o (record a { if_created = false })) (λ _.
        Keeps-bind (get_original-Keeps a) (λ d.
          Keeps-bind (save-Keeps o (record a { if_created = false; original_value = d })) (λ _.
            Keeps-if (is_deleted a.change.type) (Keeps-lift (ok tt)) (set_value-Keeps o a d)))))

  apply_attributes-Keeps :
      (a : Attributes S) (v : Option Text) → Keeps datastore (apply_attributes S a v)
  unfolding apply_attributes
  apply_attributes-Keeps a none =
      Keeps-if (is_deleted a.change.type)
        (Keeps-if (S.truthy a.original_value) (delete_item-Keeps a) (Keeps-lift (ok tt)))
        (set_item-Keeps a _)
  apply_attributes-Keeps a (some v) =
      Keeps-if (is_deleted a.change.type)
        (Keeps-if (S.truthy a.original_value) (delete_item-Keeps a) (Keeps-lift (ok tt)))
        (set_item-Keeps a _)

  revert_attributes-Keeps : (a : Attributes S) → Keeps datastore (revert_attributes S a)
  unfolding revert_attributes
  revert_attributes-Keeps a =
      Keeps-if (S.truthy a.original_value) (set_item-Keeps a _)
        (Keeps-if (is_deleted a.change.type) (Keeps-lift (ok tt)) (delete_item-Keeps a))

  pub apply-Keeps : (o : ℕ) → Keeps datastore (apply S o)
  unfolding apply
  apply-Keeps o = Keeps-bind (load-Keeps o) (λ a. apply_attributes-Keeps a a.value)

  pub revert-Keeps : (o : ℕ) → Keeps datastore (revert S o)
  unfolding revert
  revert-Keeps o = Keeps-bind (load-Keeps o) revert_attributes-Keeps
