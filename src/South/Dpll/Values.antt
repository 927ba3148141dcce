-- ===== src/South/Dpll/Values.antt =====
-- What `validate` of src/south/dpll/goldstone/south/dpll/dpll.py computes for one attribute.
use goldstone_mgmt.Base.{
  ◌≡◌, inl, inr, false, some, List, [], ◌∷◌, ok, Result-cases, text_eq, nat_eq, arith,
}
use goldstone_mgmt.Base.Dict
use goldstone_mgmt.Base.Text.{Text}
use goldstone_mgmt.Core.{is_deleted}
use goldstone_mgmt.South.Dpll.{
  Taish, Capability, World, Attributes, DpllClass, priority, to_tai_value, capability, check_value,
  value_for, values_for,
}
use goldstone_mgmt.South.Dpll.Range.{IsAllowed, check_value-IsAllowed, capability-cached}

abbrev pub IsPlain : DpllClass → Type 0
IsPlain priority = ⊥
IsPlain _ = Unit {0}

module _ (T : Taish) where
  -- One value is set, the capability that the request holds for the attribute allows it, and no
  -- handler has changed.
  pub record Validated (n : Text) (a : Attributes) (w w' : World T) (vs : List Text) : Type 0 where
    pub cap : Capability
    pub cached : Dict.get w'.cap_cache n ≡ some cap
    pub allowed : IsAllowed T cap (to_tai_value a.handler_class a.change.value)
    pub same : w'.objects ≡ w.objects
    pub set : vs ≡ to_tai_value a.handler_class a.change.value ∷ []

  value_for-ok :
      (a : Attributes) (c : Capability) (v : Text)
      → is_deleted a.change.type ≡ false
      → value_for T a c ≡ ok v
      → check_value T c (to_tai_value a.handler_class a.change.value) ≡ ok v
  unfolding value_for
  value_for-ok a c v d h = rw d at h

  pub values_for-Validated :
      (a : Attributes) (n : Text) (w : World T) (vs : List Text)
      → is_deleted a.change.type ≡ false
      → (values_for T a (n ∷ []) w).0 ≡ ok vs
      → Validated n a w (values_for T a (n ∷ []) w).1 vs
  unfolding values_for
  values_for-Validated a n w vs d h = elim (Result-cases (capability T a.module_name n w).0) [
    | inl (c, e) ↦ elim (Result-cases (value_for T a c)) [
      | inl (v, k) ↦
          let passed = check_value-IsAllowed T c _ v (value_for-ok a c v d k) in
          let held = capability-cached T a.module_name n w c e in
          let set : vs ≡ v ∷ [] = ground (arith, rw (e, k) at h) in
          rw (e, k)
            (record {
              cap = c;
              cached = held.0;
              allowed = passed.1;
              same = held.1;
              set = ground (arith, set, passed.0);
            })
      | inr (x, k) ↦ absurd (ground (arith, rw (e, k) at h))
    ]
    | inr (x, e) ↦ absurd (ground (arith, rw e at h))
  ]
