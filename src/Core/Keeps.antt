-- ===== src/Core/Keeps.antt =====
-- The calls of the 'change' event (src/lib/goldstone/lib/core.py) before the first `apply` leave the
-- device alone, where the hooks are quiet.
use goldstone_mgmt.Base.{List, [], ◌∷◌, inl, inr, Option-cases, unsupported_error, nat_eq, ok, err}
use goldstone_mgmt.Base.Triple.{Keeps, Keeps-lift, Keeps-bind, Keeps-if}
use goldstone_mgmt.Core.Handlers.{Class, no_op, sub, get_handler}
use goldstone_mgmt.Core.{
  Subclass, Change, Handler, base_handler, object, make, init_handler, validate, prepare,
  create_user, is_deleted,
}
use goldstone_mgmt.Core.Contract.{Quiet}

module _ (P : Subclass) {V : Type 0} (view : P.World → V) where
  module _ (quiet : Quiet P view) where
    make-Keeps : (k : Class P.HandlerClass) (c : Change P.Value) → Keeps view (make P k c)
    unfolding make
    make-Keeps no_op c = Keeps-lift (ok base_handler)
    make-Keeps (sub k) c =
        Keeps-bind (record { at = quiet.create_keeps k c }) (λ o. Keeps-lift (ok (object o)))

    init_handler-Keeps : (h : Handler P) (u : P.User) → Keeps view (init_handler P h u)
    unfolding init_handler
    init_handler-Keeps base_handler u = Keeps-lift (ok tt)
    init_handler-Keeps (object o) u = record { at = quiet.init_keeps o u }

    validate-Keeps : (h : Handler P) (u : P.User) → Keeps view (validate P h u)
    unfolding validate
    validate-Keeps base_handler u = Keeps-lift (ok tt)
    validate-Keeps (object o) u = record { at = quiet.validate_keeps o u }

    pub prepare-Keeps : (cs : List (Change P.Value)) (u : P.User) → Keeps view (prepare P cs u)
    unfolding prepare
    prepare-Keeps [] u = Keeps-lift (ok [])
    prepare-Keeps (c ∷ cs) u =
        elim (Option-cases (get_handler P.handlers (P.xpath_split c.xpath))) [
          | inl e ↦
              rw (e, prepare)
                (Keeps-if (is_deleted c.type) (prepare-Keeps cs u)
                  (Keeps-lift (err unsupported_error)))
          | inr (k, e) ↦
              rw (e, prepare)
                (Keeps-bind (make-Keeps k c) λ h. Keeps-bind (init_handler-Keeps h u) λ _.
                  Keeps-bind (validate-Keeps h u)
                    λ _. Keeps-bind (prepare-Keeps cs u) λ hs. Keeps-lift (ok (h ∷ hs)))
        ]

    pub create_user-Keeps : (cs : List (Change P.Value)) → Keeps view (create_user P cs)
    unfolding create_user
    create_user-Keeps cs = record { at = quiet.new_user_keeps cs }

    pub pre-Keeps : (u : P.User) → Keeps view (P.pre u)
    pre-Keeps u = record { at = quiet.pre_keeps u }
