-- ===== src/Connector/Session/Discard.antt =====
-- What the sessions of src/lib/goldstone/lib/connector/sysrepo.py leave of a failure.
use goldstone_mgmt.Base.{
  ◌≡◌, Bool, true, false, Result, ok, err, Exn, sysrepo_error, libyang_error, arith, Result-cases,
  inl, inr, SysrepoClass,
}
use goldstone_mgmt.Base.Exec.{Exec}
use goldstone_mgmt.Connector.Errors.{from_sysrepo}
use goldstone_mgmt.Connector.Session.{Sysrepo, Session, wrap_result, wrap_sysrepo_error, apply}

-- an exception of sysrepo or libyang
unfoldable pub is_foreign : Exn → Bool
is_foreign (sysrepo_error c) = true
is_foreign libyang_error = true
is_foreign _ = false

from_sysrepo-is_foreign : (c : SysrepoClass) → is_foreign (from_sysrepo c) ≡ false
unfolding is_foreign from_sysrepo
from_sysrepo-is_foreign c = ground arith

module _ (S : Sysrepo) where
  -- what sysrepo documents of the changes that a session holds back
  pub record HoldsChanges : Type 1 where
    pub Changes : Type 0
    pub nothing : Changes
    pub pending : S.State → S.Handle → Changes
    pub discard_returns : (h : S.Handle) (s : S.State) → (S.discard_changes h s).0 ≡ ok tt
    pub discard_empties :
        (h : S.Handle) (s : S.State) → pending (S.discard_changes h s).1 h ≡ nothing
    pub apply_empties :
        (h : S.Handle) (s : S.State)
        → (S.apply_changes h s).0 ≡ ok tt
        → pending (S.apply_changes h s).1 h ≡ nothing
    pub apply_raises :
        (h : S.Handle) (s : S.State) (e : Exn)
        → (S.apply_changes h s).0 ≡ err e
        → is_foreign e ≡ true

  module _ (L : HoldsChanges) where
    wrap_result-IsClean :
        {A : Type 0} (h : S.Handle) (r : Result A) (s : S.State) (e : Exn)
        → (wrap_result S h r s).0 ≡ err e
        → is_foreign e ≡ false
    unfolding wrap_result is_foreign
    wrap_result-IsClean h r s e k = grind (arith, L.discard_returns h s, from_sysrepo-is_foreign)

    -- No exception of sysrepo or libyang leaves a wrapped method, whatever its body raises.
    pub wrap_sysrepo_error-own :
        {A : Type 0} (h : S.Handle) (m : Exec S.State A) (s : S.State) (e : Exn)
        → (wrap_sysrepo_error S h m s).0 ≡ err e
        → is_foreign e ≡ false
    unfolding wrap_sysrepo_error
    wrap_sysrepo_error-own h m s e k = wrap_result-IsClean h (m s).0 (m s).1 e k

    foreign_discards :
        {A : Type 0} (h : S.Handle) (r : Result A) (s : S.State) (e : Exn)
        → r ≡ err e
        → is_foreign e ≡ true
        → ((wrap_result S h r s).1 ≡ (S.discard_changes h s).1)
    unfolding wrap_result is_foreign
    foreign_discards h (ok a) s e k f = absurd (ground arith)
    foreign_discards h (err c) s e k f = ground (arith, k, f, L.discard_returns h s)

    -- When `apply` has ended, with an exception or without, the session holds no change back.
    pub apply-empties :
        (x : Session S) (s : S.State) → L.pending (apply S x s).1 x.session ≡ L.nothing
    unfolding apply wrap_sysrepo_error wrap_result
    apply-empties x s = elim (Result-cases (S.apply_changes x.session s).0) [
      | inl (a, e) ↦ rw e (L.apply_empties x.session s e)
      | inr (c, e) ↦
          let dropped =
            foreign_discards x.session _ (S.apply_changes x.session s).1 c e
              (L.apply_raises x.session s c e) in
          rw (dropped, wrap_result) (L.discard_empties x.session _)
    ]
