-- ===== src/Core/Atomic.antt =====
-- The 'change' event of src/lib/goldstone/lib/core.py is atomic, under the contract of the handlers.
use goldstone_mgmt.Base.{
  ℕ, ◌≡◌, refl, sym, ◌∙◌, List, [], reverse, Result, ok, err, returns-cases, Result-cases, inl, inr,
  nat_eq,
}
use goldstone_mgmt.Base.Exec.{Exec, pure, ◌>>=◌, ◌>>◌}
use goldstone_mgmt.Core.{Subclass, Change, Handler, run_change, apply_all, prepare}
use goldstone_mgmt.Core.Contract.{Contract, Undoes}
use goldstone_mgmt.Base.Triple.{Keeps}
use goldstone_mgmt.Core.Keeps.{create_user-Keeps, prepare-Keeps, pre-Keeps}
use goldstone_mgmt.Core.Undo.{apply_all-IsApplied, Chain, Chain-frame, Chain-Undoes}
use goldstone_mgmt.Core.Fresh.{IsFrom, prepare-IsFrom}
use mathlib.Core.Path.{subst}

module _ (P : Subclass) {V : Type 0} (view : P.World → V) where
  -- What a 'change' event leaves, on a device that showed `v₀`.
  abbrev pub IsPrepared : Result (P.User × List (Handler P)) → V → P.World → Type 0
  IsPrepared (ok r) v₀ w = Undoes P view (reverse r.1) r.0 v₀ w
  IsPrepared (err e) v₀ w = view w ≡ v₀

  record Prepares (v₀ : V) (m : Exec P.World (P.User × List (Handler P))) : Type 0 where
    at : (w : P.World) → view w ≡ v₀ → IsPrepared (m w).0 v₀ (m w).1

  Prepares-bind :
      {A : Type 0} {v₀ : V} {m : Exec P.World A} {f : A → Exec P.World (P.User × List (Handler P))}
      → Keeps view m
      → ((a : A) → Prepares v₀ (f a))
      → Prepares v₀ (m >>= f)
  Prepares-bind {m} {f} k g = record {
    at = λ w h. elim (Result-cases (m w).0) [
      | inl (a, e) ↦ rw e ((g a).at (m w).1 (k.at w ∙ h))
      | inr (c, e) ↦ rw e (k.at w ∙ h)
    ];
  }

  module _ (contract : Contract P view) where
    commit-IsPrepared :
        (n : ℕ) (u : P.User) (hs : List (Handler P)) (v₀ : V) (w : P.World)
        → IsFrom P view contract n hs
        → view w ≡ v₀
        → let m : Exec P.World (P.User × List (Handler P)) = (do
          apply_all P [] hs u
          P.post u
          pure (u, hs)) in
          IsPrepared (m w).0 v₀ (m w).1
    commit-IsPrepared n u hs v₀ w from h =
        let w' = (apply_all P [] hs u w).1 in
        let applied = apply_all-IsApplied P view contract n [] hs u v₀ w tt from h in
        elim (returns-cases (apply_all P [] hs u w).0) [
          | inl e ↦
              let (k, below, c) = rw e at applied in
              let after = (P.post u w').1 in
              let order = reverse hs in
              rw (e, contract.post_returns u w')
                (Chain-Undoes P view contract k order u v₀ after below (
                  subst (λ x. Chain P view contract order v₀ x after)
                    (sym (contract.post_keeps u w'))
                    (Chain-frame P view contract k order v₀ (view w') w' after
                      (λ o a b _. contract.post_frame o u a b w') below c)))
          | inr (c, e) ↦ rw e (rw e at applied)
        ]

    prepared-Prepares :
        (u : P.User) (cs : List (Change P.Value)) (v₀ : V)
        → Prepares v₀ (do hs ← prepare P cs u; apply_all P [] hs u; P.post u; pure (u, hs))
    prepared-Prepares u cs v₀ = record {
      at = λ w h.
          let same = (prepare-Keeps P view contract.quiet cs u).at w in
          elim (Result-cases (prepare P cs u w).0) [
            | inl (hs, e) ↦ rw e (
                commit-IsPrepared (contract.next w) u hs v₀ (prepare P cs u w).1
                  (prepare-IsFrom P view contract cs u w hs e) (same ∙ h))
            | inr (c, e) ↦ rw e (same ∙ h)
          ];
    }

    -- Let the handlers keep the contract. Then what `change_cb` does for a 'change' event either
    -- raises and leaves the device as it was, or returns handlers whose `revert`, from the last one to
    -- the first, then brings the device back to what it showed.
    pub run_change-IsPrepared :
        (cs : List (Change P.Value)) (w : P.World)
        → IsPrepared (run_change P cs w).0 (view w) (run_change P cs w).1
    unfolding run_change
    run_change-IsPrepared cs w =
        (Prepares-bind (create_user-Keeps P view contract.quiet cs) λ u.
            Prepares-bind (pre-Keeps P view contract.quiet u)
              λ _. prepared-Prepares u cs (view w)).at
          w refl
