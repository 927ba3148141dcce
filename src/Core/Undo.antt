-- ===== src/Core/Undo.antt =====
-- The two loops of the 'change' event of src/lib/goldstone/lib/core.py and the rollback, under the
-- contract of the handlers.
use mathlib.Core.List.{reverse_aux}
use mathlib.Core.Path.{subst}
use goldstone_mgmt.Base.{
  ℕ, suc, ◌<◌, ◌≤◌, ◌≡◌, refl, sym, List, [], ◌∷◌, Result, ok, err, Exn, returns-cases, inl, inr,
  arith,
}
use goldstone_mgmt.Core.{
  Subclass, Handler, base_handler, object, apply, revert, revert_all, apply_all,
}
use goldstone_mgmt.Core.Contract.{Contract, Undoes}
use goldstone_mgmt.Core.Fresh.{IsFrom, IsBelow, IsBelow-mono}

module _ (P : Subclass) {V : Type 0} (view : P.World → V) (contract : Contract P view) where
  -- What each handler has written down takes the device, which shows `v`, back to `v₀` step by step.
  abbrev Remembers : Handler P → V → V → P.World → Type 0
  Remembers base_handler a b w = b ≡ a
  Remembers (object o) a b w = contract.Knows o a b w

  abbrev pub Chain : List (Handler P) → V → V → P.World → Type 0
  Chain [] v₀ v w = v ≡ v₀
  Chain (h ∷ hs) v₀ v w = (v' : V) × Remembers h v' v w × Chain hs v₀ v' w

  -- What leaves the notes of the objects below an address leaves a chain of them.
  pub Chain-frame :
      (n : ℕ) (hs : List (Handler P)) (v₀ v : V) (w w' : P.World)
      → ((e : P.Object) (a b : V)
          → contract.address e < n
          → contract.Knows e a b w
          → contract.Knows e a b w')
      → IsBelow P view contract n hs
      → Chain hs v₀ v w
      → Chain hs v₀ v w'
  Chain-frame n [] v₀ v w w' frame below c = c
  Chain-frame n (base_handler ∷ hs) v₀ v w w' frame below (v', r, c) =
      (v', r, Chain-frame n hs v₀ v' w w' frame below c)
  Chain-frame n (object o ∷ hs) v₀ v w w' frame below (v', r, c) = (
    v',
    frame o v' v below.0 r,
    Chain-frame n hs v₀ v' w w' frame
        (IsBelow-mono P view contract (contract.address o) n hs (omega (arith, below.0)) below.1) c,
  )

  -- A rollback along a chain returns, and brings the old device back.
  pub Chain-Undoes :
      (n : ℕ) (hs : List (Handler P)) (u : P.User) (v₀ : V) (w : P.World)
      → IsBelow P view contract n hs
      → Chain hs v₀ (view w) w
      → Undoes P view hs u v₀ w
  unfolding revert_all revert
  Chain-Undoes n [] u v₀ w below c = (refl, c)
  Chain-Undoes n (base_handler ∷ hs) u v₀ w below (v', r, c) =
      Chain-Undoes n hs u v₀ w below (subst (λ x. Chain hs v₀ x w) (sym r) c)
  Chain-Undoes n (object o ∷ hs) u v₀ w below (v', r, c) =
      let (done, restored) = contract.revert_undoes o u v' w r in
      let w' = (P.revert_object o u w).1 in
      let later =
        Chain-frame (contract.address o) hs v₀ v' w w'
          (λ e a b lower. contract.revert_frame o e u a b w lower) below.1 c in
      rw done (
        Chain-Undoes (contract.address o) hs u v₀ w' below.1
          (subst (λ x. Chain hs v₀ x w') (sym restored) later))

  -- What `apply_all` leaves: handlers that can be undone in this order, or the old device.
  abbrev pub IsApplied : Result (Unit {0}) → List (Handler P) → V → P.World → Type 0
  IsApplied (ok _) order v₀ w =
      (n : ℕ) × IsBelow P view contract n order × Chain order v₀ (view w) w
  IsApplied (err e) order v₀ w = view w ≡ v₀

  apply_failed :
      (n : ℕ) (before : List (Handler P)) (o : P.Object) (u : P.User) (v₀ : V) (w : P.World)
      (e : Exn)
      → IsBelow P view contract n before
      → n ≤ contract.address o
      → Chain before v₀ (view w) w
      → (P.apply_object o u w).0 ≡ err e
      → Undoes P view before u v₀ (P.apply_object o u w).1
  apply_failed n before o u v₀ w e below le c failed =
      let w' = (P.apply_object o u w).1 in
      Chain-Undoes n before u v₀ w' below (
        subst (λ x. Chain before v₀ x w') (sym (contract.apply_fails o u w e failed))
          (Chain-frame n before v₀ (view w) w w'
            (λ f a b lower. contract.apply_frame o f u a b w (omega (arith, lower, le))) below c))

  pub apply_all-IsApplied :
      (n : ℕ) (before hs : List (Handler P)) (u : P.User) (v₀ : V) (w : P.World)
      → IsBelow P view contract n before
      → IsFrom P view contract n hs
      → Chain before v₀ (view w) w
      → IsApplied
          (apply_all P before hs u w).0
          (reverse_aux hs before)
          v₀
          (apply_all P before hs u w).1
  unfolding apply_all apply
  apply_all-IsApplied n before [] u v₀ w below from c = (n, below, c)
  apply_all-IsApplied n before (base_handler ∷ hs) u v₀ w below from c =
      apply_all-IsApplied n (base_handler ∷ before) hs u v₀ w below from (view w, refl, c)
  apply_all-IsApplied n before (object o ∷ hs) u v₀ w below from c =
      elim (returns-cases (P.apply_object o u w).0) [
        | inl done ↦
            let w' = (P.apply_object o u w).1 in
            rw done (
              apply_all-IsApplied (suc (contract.address o)) (object o ∷ before) hs u v₀ w'
                (
                  omega arith,
                  IsBelow-mono P view contract n (contract.address o) before from.0 below,
                )
                from.1
                (
                  view w,
                  contract.apply_learns o u w done,
                  Chain-frame n before v₀ (view w) w w'
                      (λ e a b lower.
                        contract.apply_frame o e u a b w (omega (arith, lower, from.0)))
                      below c,
                ))
        | inr (e, failed) ↦
            let back = apply_failed n before o u v₀ w e below from.0 c failed in
            rw (failed, back.0) back.1
      ]
