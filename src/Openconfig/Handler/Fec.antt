-- ===== src/Openconfig/Handler/Fec.antt =====
-- The FEC modes of src/xlate/openconfig/goldstone/xlate/openconfig/interfaces.py in both directions.
use goldstone_mgmt.Base.{
  ◌≡◌, refl, inl, inr, true, Bool-cases, some, [], ◌∷◌, ◌++◌, ◌==◌, ==_iff, text_eq, arith,
}
use goldstone_mgmt.Base.Dict.{member}
use goldstone_mgmt.Base.Text.{Text, codes}
use goldstone_mgmt.Openconfig.Names.{split_on, split_from, starts_with}
use goldstone_mgmt.Openconfig.Interface.{fec_mode_of}
use goldstone_mgmt.Openconfig.Handler.{fec, fec_of, without, concat}

-- A FEC mode of Goldstone that is shown in OpenConfig's words is configured, with the prefix of the
-- identity or without, as the same mode.
pub fec-fec_mode :
    (f : Text)
    → member (codes "FC" ∷ codes "RS" ∷ codes "NONE" ∷ []) f ≡ true
    → (fec (fec_mode_of f) ≡ some f)
      × (fec (codes "openconfig-if-ethernet:" ++ fec_mode_of f) ≡ some f)
unfolding fec fec_of without concat split_on split_from starts_with member fec_mode_of
fec-fec_mode f h = elim (Bool-cases (codes "FC" == f)) [
  | inl e ↦ rw⁻¹ ((==_iff (codes "FC") f).0 e) (refl, refl)
  | inr e ↦ elim (Bool-cases (codes "RS" == f)) [
    | inl k ↦ rw⁻¹ ((==_iff (codes "RS") f).0 k) (refl, refl)
    | inr k ↦ elim (Bool-cases (codes "NONE" == f)) [
      | inl l ↦ rw⁻¹ ((==_iff (codes "NONE") f).0 l) (refl, refl)
      | inr l ↦ absurd (ground (arith, rw (e, k, l) at h))
    ]
  ]
]
