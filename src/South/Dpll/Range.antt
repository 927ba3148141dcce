-- ===== src/South/Dpll/Range.antt =====
-- The values that `validate` of src/south/dpll/goldstone/south/dpll/dpll.py lets through.
use goldstone_mgmt.Base.{
  ◌≡◌, ◌⊎◌, inl, inr, true, false, some, [], Result, ok, err, name_error, Option-cases, ◌==◌,
  ==_refl, ==_iff, text_eq, nat_eq, arith,
}
use goldstone_mgmt.Base.Dict
use goldstone_mgmt.Base.Dict.{member, get-put}
use goldstone_mgmt.Base.Text.{Text}
use goldstone_mgmt.South.Dpll.{
  Taish, Capability, World, check_value, fail_if_less, allows, capability, cache_capability,
}

module _ (T : Taish) where
  -- What taish documents of a capability: an empty bound does not bind, an empty list allows all.
  pub record IsAllowed (c : Capability) (v : Text) : Type 0 where
    pub above_min : (c.min ≡ []) ⊎ (T.less v c.min ≡ ok false)
    pub below_max : (c.max ≡ []) ⊎ (T.less c.max v ≡ ok false)
    pub supported : allows T c.supportedvalues v ≡ true

  fail_if_less-ok :
      (bound a b : Text) → fail_if_less T bound a b ≡ ok tt → (bound ≡ []) ⊎ (T.less a b ≡ ok false)
  unfolding fail_if_less
  fail_if_less-ok bound a b h = ground (arith, ==_iff bound [])

  -- A value that the capability does not exclude passes, and a value that passes is unchanged.
  pub check_value-IsAllowed :
      (c : Capability) (v u : Text) → check_value T c v ≡ ok u → (u ≡ v) × IsAllowed c v
  unfolding check_value
  check_value-IsAllowed c v u h =
      ground (arith, fail_if_less-ok c.min v c.min, fail_if_less-ok c.max c.max v)

  -- The exception for a value below the minimum is not the InvalArgError that the code means to
  -- raise.
  pub check_value-min :
      (c : Capability) (v : Text)
      → (c.min == []) ≡ false
      → T.less v c.min ≡ ok true
      → check_value T c v ≡ err name_error
  unfolding check_value fail_if_less
  check_value-min c v h e = ground (arith, h, e)

  cache_capability-cached :
      (n : Text) (r : Result Capability) (w : World T) (c : Capability)
      → (cache_capability T n r w).0 ≡ ok c
      → (Dict.get (cache_capability T n r w).1.cap_cache n ≡ some c)
        × ((cache_capability T n r w).1.objects ≡ w.objects)
  unfolding cache_capability
  cache_capability-cached n (ok d) w c h = ground (arith, h, get-put w.cap_cache n n d, ==_refl n)
  cache_capability-cached n (err e) w c h = ground (arith, h)

  pub capability-cached :
      (m n : Text) (w : World T) (c : Capability)
      → (capability T m n w).0 ≡ ok c
      → (Dict.get (capability T m n w).1.cap_cache n ≡ some c)
        × ((capability T m n w).1.objects ≡ w.objects)
  unfolding capability
  capability-cached m n w c h = elim (Option-cases (Dict.get w.cap_cache n)) [
    | inl none_cached ↦
        rw (none_cached, capability)
          (cache_capability-cached n _ _ c (rw (none_cached, capability) at h))
    | inr (d, cached) ↦ ground (arith, h, cached)
  ]
