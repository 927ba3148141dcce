-- ===== src/South/Tai/Undone.antt =====
-- ModuleHandler of src/south/tai/goldstone/south/tai/transponder.py keeps the contract of the handlers
-- of src/lib/goldstone/lib/core.py.
use mathlib.Core.Path.{fun_ext}
use goldstone_mgmt.Base.{
  ℕ, ◌<◌, ◌≡◌, refl, sym, ap, ◌∙◌, ◌⊎◌, inl, inr, true, false, ◌&&◌, Option, none, some, List, [],
  Result, ok, err, Exn, key_error, tai_exception, Option-cases, Bool-cases, Result-cases,
  if◌then◌else◌, ◌==◌, ==_iff, ==_refl, nat_eq, text_eq, arith,
}
use goldstone_mgmt.Base.Dict
use goldstone_mgmt.Base.Dict.{Dict, get-put, member}
use goldstone_mgmt.Base.Exec.{pure}
use goldstone_mgmt.Base.Triple.{Keeps, Keeps-bind, Keeps-lift, Keeps-if}
use goldstone_mgmt.Base.Text.{Text}
use goldstone_mgmt.Core.Handlers.{XpathStep}
use goldstone_mgmt.Core.Contract.{Contract}
use goldstone_mgmt.South.Gearbox.{Value, text, str}
use goldstone_mgmt.South.Tai.{
  Taish, Attributes, World, on_tai, create, load, save, name2location, get_module, find_module,
  init, or_inval_arg, attempt, new_value, validate_attr, validate, apply_attr, apply, revert, pre,
  module_server, module_steps,
}

module _ (T : Taish) where
  -- What taish says of a module's attributes: only a write changes one, and just the one that it
  -- names; a write that raises changes none; what was read can be written back.
  pub record TaiLaws : Type 1 where
    pub attribute : T.State → ℕ → Text → Text
    pub Accepts : ℕ → Text → Text → Type 0
    pub list_keeps : (s : T.State) → attribute (T.list s).1 ≡ attribute s
    pub get_module_keeps : (l : Text) (s : T.State) → attribute (T.get_module l s).1 ≡ attribute s
    pub metadata_keeps :
        (m : ℕ) (n : Text) (s : T.State)
        → attribute (T.get_attribute_metadata m n s).1 ≡ attribute s
    pub capability_keeps :
        (m i : ℕ) (s : T.State) → attribute (T.get_attribute_capability m i s).1 ≡ attribute s
    pub get_keeps : (m : ℕ) (n : Text) (s : T.State) → attribute (T.get m n s).1 ≡ attribute s
    pub get_reads :
        (m : ℕ) (n t : Text) (s : T.State)
        → (T.get m n s).0 ≡ ok t
        → (t ≡ attribute s m n) × Accepts m n t
    pub set_fails :
        (m : ℕ) (n : Text) (v : Value) (s : T.State) (e : Exn)
        → (T.set m n v s).0 ≡ err e
        → attribute (T.set m n v s).1 ≡ attribute s
    pub set_writes :
        (m k : ℕ) (n l : Text) (v : Value) (s : T.State)
        → (T.set m n v s).0 ≡ ok tt
        → attribute (T.set m n v s).1 k l ≡ (if m == k && n == l then str v else attribute s k l)
    pub set_back :
        (m : ℕ) (n t : Text) (s : T.State) → Accepts m n t → (T.set m n (text t) s).0 ≡ ok tt

  module _ (L : TaiLaws) where
    abbrev pub View : Type 0
    View = ℕ → Text → Text

    abbrev pub view : World T → View
    view w = L.attribute w.tai

    -- What a handler's `original_value` is worth: the old value of its one attribute.
    pub record Restores (x : Attributes) (a b : View) : Type 0 where
      pub old : Text
      pub noted : x.original_value ≡ text old
      pub accepted : L.Accepts x.obj x.attr_name old
      pub gives :
          (m : ℕ) (n : Text) → a m n ≡ (if x.obj == m && x.attr_name == n then old else b m n)

    abbrev pub Notes : Attributes → View → View → Type 0
    Notes x a b = ((x.attr_name ≡ []) × (a ≡ b)) ⊎ (((x.attr_name == []) ≡ false) × Restores x a b)

    abbrev pub Knows : ℕ → View → View → World T → Type 0
    Knows o a b w = (x : Attributes) × (Dict.get w.objects o ≡ some x) × Notes x a b

    -- what the device shows, and the next address
    abbrev seen : World T → View × ℕ
    seen w = (view w, w.next)

    load-Keeps : (o : ℕ) → Keeps seen (load T o)
    unfolding load
    load-Keeps o = record {
      at = λ w. elim (Option-cases (Dict.get w.objects o)) [
        | inl e ↦ rw (e, load) refl
        | inr (x, e) ↦ rw (e, load) refl
      ];
    }

    save-Keeps : (o : ℕ) (x : Attributes) → Keeps seen (save T o x)
    unfolding save
    save-Keeps o x = record { at = λ w. refl }

    list-Keeps : Keeps seen (on_tai T T.list)
    unfolding on_tai
    list-Keeps = record { at = λ w. ap (λ a. (a, w.next)) (L.list_keeps w.tai) }

    get_module-Keeps : (l : Text) → Keeps seen (get_module T l)
    unfolding get_module
    get_module-Keeps l = record { at = λ w. ap (λ a. (a, w.next)) (L.get_module_keeps l w.tai) }

    name2location-Keeps : (name : Text) → Keeps seen (name2location T name)
    unfolding name2location
    name2location-Keeps name = Keeps-bind list-Keeps (λ modules. record { at = λ w. refl })

    find_module-Keeps : (name : Option Text) → Keeps seen (find_module T name)
    unfolding find_module
    find_module-Keeps none = record { at = λ w. refl }
    find_module-Keeps (some name) = Keeps-bind (name2location-Keeps name) (λ l. get_module-Keeps l)

    init-Keeps : (split : Text → List XpathStep) (o : ℕ) → Keeps seen (init T split o)
    unfolding init
    init-Keeps split o = Keeps-bind (load-Keeps o) λ a.
        Keeps-bind (Keeps-lift (module_steps (split a.change.xpath)))
          λ found. Keeps-bind (find_module-Keeps found.1) λ m. save-Keeps o _

    metadata-Keeps : (m : ℕ) (n : Text) → Keeps seen (attempt T (T.get_attribute_metadata m n))
    unfolding attempt
    metadata-Keeps m n = record { at = λ w. ap (λ a. (a, w.next)) (L.metadata_keeps m n w.tai) }

    capability-Keeps : (m i : ℕ) → Keeps seen (attempt T (T.get_attribute_capability m i))
    unfolding attempt
    capability-Keeps m i = record { at = λ w. ap (λ a. (a, w.next)) (L.capability_keeps m i w.tai) }

    validate_attr-Keeps : (o : ℕ) (a : Attributes) → Keeps seen (validate_attr T o a)
    unfolding validate_attr
    validate_attr-Keeps o a = Keeps-bind (metadata-Keeps a.obj a.attr_name) λ meta.
        Keeps-bind (capability-Keeps a.obj meta.attr_id)
          λ cap. Keeps-bind (Keeps-lift (new_value T a meta cap)) λ v. save-Keeps o _

    validate-Keeps : (o : ℕ) → Keeps seen (validate T o)
    unfolding validate
    validate-Keeps o =
        Keeps-bind (load-Keeps o)
          λ a. Keeps-if (a.attr_name == []) (Keeps-lift (ok tt)) (validate_attr-Keeps o a)

    -- `apply` and `revert` of an object that is there
    apply-found :
        (o : ℕ) (x : Attributes) (w : World T)
        → Dict.get w.objects o ≡ some x
        → apply T o w ≡ (if x.attr_name == [] then pure tt else apply_attr T o x) w
    unfolding apply load
    apply-found o x w e = rw (e, apply, load) refl

    revert-found :
        (o : ℕ) (x : Attributes) (w : World T)
        → Dict.get w.objects o ≡ some x
        → revert T o w
          ≡ (if x.attr_name == []
                then pure tt
                else attempt T (T.set x.obj x.attr_name x.original_value))
              w
    unfolding revert load
    revert-found o x w e = rw (e, revert, load) refl

    apply-lost :
        (o : ℕ) (w : World T) → Dict.get w.objects o ≡ none → apply T o w ≡ (err key_error, w)
    unfolding apply load
    apply-lost o w e = rw (e, apply, load) refl

    -- The three ways in which `apply` of an attribute ends.
    apply_attr-unread :
        (o : ℕ) (x : Attributes) (w : World T) (e : Exn)
        → (T.get x.obj x.attr_name w.tai).0 ≡ err e
        → apply_attr T o x w ≡ (err e, record w { tai = (T.get x.obj x.attr_name w.tai).1 })
    unfolding apply_attr on_tai
    apply_attr-unread o x w e h = rw (h, apply_attr, on_tai) refl

    -- the objects once the original value is noted
    abbrev noted : ℕ → Attributes → Text → World T → Dict ℕ Attributes
    noted o x t w = Dict.put w.objects o (record x { original_value = text t })

    apply_attr-read :
        (o : ℕ) (x : Attributes) (w : World T) (t : Text)
        → (T.get x.obj x.attr_name w.tai).0 ≡ ok t
        → let s = (T.get x.obj x.attr_name w.tai).1 in
          apply_attr T o x w ≡ (
            or_inval_arg T (T.set x.obj x.attr_name x.value s).0,
            record w { objects = noted o x t w; tai = (T.set x.obj x.attr_name x.value s).1 },
          )
    unfolding apply_attr on_tai save attempt
    apply_attr-read o x w t h = rw (h, apply_attr, on_tai) refl

    or_inval_arg-err :
        (r : Result (Unit {0})) (e : Exn) → or_inval_arg T r ≡ err e → (x : Exn) × (r ≡ err x)
    unfolding or_inval_arg
    or_inval_arg-err (ok tt) e h = absurd (ground (arith, h))
    or_inval_arg-err (err x) e h = (x, refl)

    or_inval_arg-ok : (r : Result (Unit {0})) → or_inval_arg T r ≡ ok tt → r ≡ ok tt
    unfolding or_inval_arg
    or_inval_arg-ok (ok tt) h = refl
    or_inval_arg-ok (err tai_exception) h = absurd (ground (arith, h))
    or_inval_arg-ok (err x) h = absurd (ground (arith, h))

    apply_attr_fails :
        (o : ℕ) (x : Attributes) (w : World T) (e : Exn)
        → (apply_attr T o x w).0 ≡ err e
        → view (apply_attr T o x w).1 ≡ view w
    apply_attr_fails o x w e h =
        let s = (T.get x.obj x.attr_name w.tai).1 in
        elim (Result-cases (T.get x.obj x.attr_name w.tai).0) [
          | inr (c, q) ↦ rw (apply_attr-unread o x w c q) (L.get_keeps x.obj x.attr_name w.tai)
          | inl (t, q) ↦
              let p = apply_attr-read o x w t q in
              let (c, f) = or_inval_arg-err _ e (sym (ap (λ r. r.0) p) ∙ h) in
              rw p
                (L.set_fails x.obj x.attr_name x.value s c f ∙ L.get_keeps x.obj x.attr_name w.tai)
        ]

    apply_fails :
        (o : ℕ) (w : World T) (e : Exn) → (apply T o w).0 ≡ err e → view (apply T o w).1 ≡ view w
    apply_fails o w e h = elim (Option-cases (Dict.get w.objects o)) [
      | inl n ↦ rw (apply-lost o w n) refl
      | inr (x, q) ↦ elim (Bool-cases (x.attr_name == [])) [
        | inl b ↦ rw (apply-found o x w q, b) refl
        | inr b ↦
            rw (apply-found o x w q, b)
              (apply_attr_fails o x w e (rw (apply-found o x w q, b) at h))
      ]
    ]

    written-gives :
        (x : Attributes) (w : World T) (t : Text) (m : ℕ) (n : Text)
        → (T.get x.obj x.attr_name w.tai).0 ≡ ok t
        → let s = (T.get x.obj x.attr_name w.tai).1 in
          (T.set x.obj x.attr_name x.value s).0 ≡ ok tt
          → view w m n ≡ (
              if x.obj == m && x.attr_name == n
              then t
              else L.attribute (T.set x.obj x.attr_name x.value s).1 m n)
    written-gives x w t m n q f =
        let s = (T.get x.obj x.attr_name w.tai).1 in
        ground (
          arith,
          L.set_writes x.obj m x.attr_name n x.value s f,
          ap (λ g. g m n) (L.get_keeps x.obj x.attr_name w.tai),
          (L.get_reads x.obj x.attr_name t w.tai q).0,
          ==_iff x.obj m,
          ==_iff x.attr_name n,
        )

    apply_attr_learns :
        (o : ℕ) (x : Attributes) (w : World T)
        → (x.attr_name == []) ≡ false
        → (apply_attr T o x w).0 ≡ ok tt
        → Knows o (view w) (view (apply_attr T o x w).1) (apply_attr T o x w).1
    apply_attr_learns o x w b h =
        let s = (T.get x.obj x.attr_name w.tai).1 in
        elim (Result-cases (T.get x.obj x.attr_name w.tai).0) [
          | inr (c, q) ↦ absurd (ground (arith, rw (apply_attr-unread o x w c q) at h))
          | inl (t, q) ↦
              let p = apply_attr-read o x w t q in
              let f = or_inval_arg-ok _ (sym (ap (λ r. r.0) p) ∙ h) in
              let x' : Attributes = record x { original_value = text t } in
              rw p (
                x',
                get-put w.objects o o x' ∙ rw (==_refl o) refl,
                inr (
                  b,
                  record {
                    old = t;
                    noted = refl;
                    accepted = (L.get_reads x.obj x.attr_name t w.tai q).1;
                    gives = λ m n. written-gives x w t m n q f;
                  },
                ),
              )
        ]

    apply_learns :
        (o : ℕ) (w : World T)
        → (apply T o w).0 ≡ ok tt
        → Knows o (view w) (view (apply T o w).1) (apply T o w).1
    apply_learns o w h = elim (Option-cases (Dict.get w.objects o)) [
      | inl n ↦ absurd (ground (arith, rw (apply-lost o w n) at h))
      | inr (x, q) ↦ elim (Bool-cases (x.attr_name == [])) [
        | inl b ↦ rw (apply-found o x w q, b) (x, q, inl ((==_iff x.attr_name []).0 b, refl))
        | inr b ↦
            rw (apply-found o x w q, b)
              (apply_attr_learns o x w b (rw (apply-found o x w q, b) at h))
      ]
    ]

    -- An object's `apply` writes no other object.
    apply-objects :
        (o e : ℕ) (w : World T) → e < o → Dict.get (apply T o w).1.objects e ≡ Dict.get w.objects e
    apply-objects o e w lower = elim (Option-cases (Dict.get w.objects o)) [
      | inl n ↦ rw (apply-lost o w n) refl
      | inr (x, q) ↦ elim (Bool-cases (x.attr_name == [])) [
        | inl b ↦ rw (apply-found o x w q, b) refl
        | inr b ↦ elim (Result-cases (T.get x.obj x.attr_name w.tai).0) [
          | inr (c, r) ↦ rw (apply-found o x w q, b, apply_attr-unread o x w c r) refl
          | inl (t, r) ↦
              rw (apply-found o x w q, b, apply_attr-read o x w t r)
                (ground (
                  arith,
                  get-put w.objects o e (record x { original_value = text t }),
                  ==_iff o e,
                  lower,
                ))
        ]
      ]
    ]

    revert-objects : (o : ℕ) (w : World T) → (revert T o w).1.objects ≡ w.objects
    unfolding revert load attempt
    revert-objects o w = elim (Option-cases (Dict.get w.objects o)) [
      | inl n ↦ rw (n, revert, load) refl
      | inr (x, q) ↦ elim (Bool-cases (x.attr_name == [])) [
        | inl b ↦ rw (revert-found o x w q, b) refl
        | inr b ↦ rw (revert-found o x w q, b) refl
      ]
    ]

    revert_undoes :
        (o : ℕ) (a : View) (w : World T)
        → Knows o a (view w) w
        → ((revert T o w).0 ≡ ok tt) × (view (revert T o w).1 ≡ a)
    unfolding attempt or_inval_arg
    revert_undoes o a w (x, q, inl (no_name, same)) =
        let b : (x.attr_name == []) ≡ true = (==_iff x.attr_name []).1 no_name in
        rw (revert-found o x w q, b) (refl, sym same)
    revert_undoes o a w (x, q, inr (b, r)) =
        let f = L.set_back x.obj x.attr_name r.old w.tai r.accepted in
        rw (revert-found o x w q, b, r.noted, f)
          (
            refl,
            fun_ext λ m. fun_ext λ n.
                unfold str in
                L.set_writes x.obj m x.attr_name n (text r.old) w.tai f ∙ sym (r.gives m n),
          )

    -- The configuration of modules keeps the contract of the handlers.
    pub module_server-Contract :
        (split : Text → List XpathStep) → Contract (module_server T split) view
    unfolding create pre
    module_server-Contract split = record {
      quiet = record {
        new_user_keeps = λ cs w. refl;
        pre_keeps = λ u w. refl;
        create_keeps = λ k c w. refl;
        init_keeps = λ o u w. ap (λ p. p.0) ((init-Keeps split o).at w);
        validate_keeps = λ o u w. ap (λ p. p.0) ((validate-Keeps o).at w);
      };
      Knows = Knows;
      address = λ o. o;
      next = λ w. w.next;
      create_fresh =
          λ k c w o h. let same : w.next ≡ o = cc in (omega (arith, same), omega (arith, same));
      init_next = λ o u w. omega (arith, ap (λ p. p.1) ((init-Keeps split o).at w));
      validate_next = λ o u w. omega (arith, ap (λ p. p.1) ((validate-Keeps o).at w));
      apply_fails = λ o u w e h. apply_fails o w e h;
      apply_learns = λ o u w h. apply_learns o w h;
      apply_frame = λ o e u a b w lower (x, q, k). (x, apply-objects o e w lower ∙ q, k);
      revert_undoes = λ o u a w k. revert_undoes o a w k;
      revert_frame =
          λ o e u a b w lower (x, q, k). (x, ap (λ d. Dict.get d e) (revert-objects o w) ∙ q, k);
      post_returns = λ u w. refl;
      post_keeps = λ u w. refl;
      post_frame = λ o u a b w k. k;
    }
