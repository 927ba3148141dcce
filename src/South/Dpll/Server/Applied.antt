-- ===== src/South/Dpll/Server/Applied.antt =====
-- What `validate` and `apply` of src/south/dpll/goldstone/south/dpll/dpll.py leave in the handler and
-- on the device.
use goldstone_mgmt.Base.{
  ℕ, ◌≡◌, refl, ap, ◌∙◌, inl, inr, false, none, some, List, [], ◌∷◌, ok, Result-cases, Bool-cases,
  text_eq, nat_eq, arith, ◌==◌, ==_iff, ==_refl, if◌then◌else◌, map,
}
use goldstone_mgmt.Base.Dict
use goldstone_mgmt.Base.Dict.{Dict, get-put}
use goldstone_mgmt.Base.Text.{Text}
use goldstone_mgmt.Core.{is_deleted}
use goldstone_mgmt.South.Dpll.{
  Taish, Capability, World, Attributes, DpllClass, priority, to_tai_value, new_values,
  tai_attr_names, mode, phase_slope_limit, loop_bandwidth, values_for, differences, on_tai,
}
use goldstone_mgmt.South.Dpll.Values.{IsPlain, values_for-Validated}
use goldstone_mgmt.South.Dpll.Range.{IsAllowed}
use goldstone_mgmt.South.Dpll.Server.{load, save, validate, apply, apply_attributes}

module _ (T : Taish) where
  plain_path :
      (c : DpllClass) (a : Attributes)
      → IsPlain c
      → (n : Text) × (tai_attr_names c ≡ n ∷ []) × (new_values T c a ≡ values_for T a (n ∷ []))
  unfolding new_values
  plain_path mode a p = (_, refl, refl)
  plain_path phase_slope_limit a p = (_, refl, refl)
  plain_path loop_bandwidth a p = (_, refl, refl)
  plain_path priority a p = absurd p

  -- When `validate` of a handler that is not for a priority or a deletion returns, the handler holds
  -- the value of the change in taish's words, and the capability that the request holds for the
  -- attribute allows it.
  pub validate-IsAllowed :
      (o : ℕ) (w : World T) (a : Attributes)
      → Dict.get w.objects o ≡ some a
      → IsPlain a.handler_class
      → is_deleted a.change.type ≡ false
      → (validate T o w).0 ≡ ok tt
      → (n : Text) × (c : Capability) × (tai_attr_names a.handler_class ≡ n ∷ [])
        × (Dict.get (validate T o w).1.cap_cache n ≡ some c)
        × IsAllowed T c (to_tai_value a.handler_class a.change.value)
        × (Dict.get (validate T o w).1.objects o
            ≡ some (record a { value = to_tai_value a.handler_class a.change.value ∷ [] }))
  unfolding validate load save
  validate-IsAllowed o w a stored p d h =
      let (n, named, same) = plain_path a.handler_class a p in
      elim (Result-cases (values_for T a (n ∷ []) w).0) [
        | inl (vs, e) ↦
            let r = values_for-Validated T a n w vs d e in
            rw (stored, validate, load, same, e)
              (
                n,
                r.cap,
                named,
                r.cached,
                r.allowed,
                ground (
                  arith,
                  r.set,
                  get-put (values_for T a (n ∷ []) w).1.objects o o (record a { value = vs }),
                  ==_refl o,
                ),
              )
        | inr (x, e) ↦ absurd (ground (arith, rw (stored, validate, load, same, e) at h))
      ]

  -- what taish says of its attributes: reads return them, a write that returns has set them
  pub record TaishLaws : Type 0 where
    pub attribute : T.State → Text → Text → Text
    pub get_reads :
        (m : Text) (ns vs : List Text) (s : T.State)
        → (T.get_multiple m ns s).0 ≡ ok vs
        → vs ≡ map (attribute s m) ns
    pub get_keeps :
        (m n : Text) (ns : List Text) (s : T.State)
        → attribute (T.get_multiple m ns s).1 m n ≡ attribute s m n
    pub set_writes :
        (m n : Text) (kvs : List (Text × Text)) (s : T.State)
        → (T.set_multiple m kvs s).0 ≡ ok tt
        → attribute (T.set_multiple m kvs s).1 m n
          ≡ elim (Dict.get kvs n) [ some v ↦ v | none ↦ attribute s m n ]

  -- When `apply` of a handler with one attribute returns, the device has the handler's value for that
  -- attribute, and every other attribute of the module is as it was.
  pub apply_lem :
      (L : TaishLaws) (o : ℕ) (w : World T) (a : Attributes) (n v m : Text)
      → Dict.get w.objects o ≡ some a
      → tai_attr_names a.handler_class ≡ n ∷ []
      → a.value ≡ v ∷ []
      → (apply T o w).0 ≡ ok tt
      → L.attribute (apply T o w).1.tai a.module_name m
        ≡ (if n == m then v else L.attribute w.tai a.module_name m)
  unfolding apply load apply_attributes on_tai differences save Dict.get
  apply_lem L o w a n v m stored named valued h =
      let before = L.attribute w.tai a.module_name in
      let s = (T.get_multiple a.module_name (n ∷ []) w.tai).1 in
      elim (Result-cases (T.get_multiple a.module_name (n ∷ []) w.tai).0) [
        | inl (vs, e) ↦
            let read = e ∙ ap ok (L.get_reads a.module_name (n ∷ []) vs w.tai e) in
            let kept = L.get_keeps a.module_name m (n ∷ []) w.tai in
            elim (Bool-cases (before n == v)) [
              | inl same ↦
                  let set = L.set_writes a.module_name m [] s in
                  rw (stored, apply, load, apply_attributes, named, on_tai, read, valued, same)
                    (ground (
                      arith,
                      set (
                          rw
                            (
                              stored, apply, load, apply_attributes, named, on_tai, read, valued,
                              same,
                            )
                            at h),
                      kept,
                      ==_iff (before n) v,
                      ==_iff n m,
                    ))
              | inr new ↦
                  let set = L.set_writes a.module_name m ((n, v) ∷ []) s in
                  rw (stored, apply, load, apply_attributes, named, on_tai, read, valued, new)
                    (ground (
                      arith,
                      set (
                          rw
                            (
                              stored, apply, load, apply_attributes, named, on_tai, read, valued,
                              new,
                            )
                            at h),
                      kept,
                      ==_iff n m,
                    ))
            ]
        | inr (x, e) ↦
            absurd
              (ground (arith, rw (stored, apply, load, apply_attributes, named, on_tai, e) at h))
      ]
