-- ===== src/Core/Recovery.antt =====
-- `do_revert` of src/lib/goldstone/lib/core.py: a client that goes away leaves no trace, under the
-- contract of the handlers.
use goldstone_mgmt.Base.{
  length, zero, suc, ◌+◌, ◌≡◌, refl, sym, ap, ◌∙◌, List, [], ◌∷◌, reverse, ok, arith, none, Bool, ℕ,
  nat_eq,
}
use goldstone_mgmt.Core.{
  Subclass, Change, Handler, Server, reverting, change, run_change, Event, callback,
  revert_task_runs, step, run, revert, revert_all,
}
use goldstone_mgmt.Core.Contract.{Contract, Undoes}
use goldstone_mgmt.Base.Exec.{bind-ok}
use goldstone_mgmt.Core.Atomic.{run_change-IsPrepared}
use goldstone_mgmt.Core.Phase.{pending, current_path}
use mathlib.Core.Path.{subst, subst₂}
use mathlib.Core.List.{reverse_aux}
use goldstone_mgmt.Core.Protocol.{step-accepted}

-- The event loop runs the revert task this many times.
abbrev pub turns : {P : Subclass} → ℕ → List (Event P)
turns zero = []
turns (suc n) = revert_task_runs ∷ turns n

length-reverse_aux :
    {A : Type 0} (xs ys : List A) → length (reverse_aux xs ys) ≡ length xs + length ys
length-reverse_aux [] ys = omega arith
length-reverse_aux (x ∷ xs) ys = omega (arith, length-reverse_aux xs (x ∷ ys))

module _ (P : Subclass) {V : Type 0} (view : P.World → V) where
  -- The server is free again, and its device shows `v`.
  abbrev pub IsRestored : Server P → V → Type 0
  IsRestored s v = (s.current ≡ none) × (view s.world ≡ v)

  step-revert :
      (h : Handler P) (rest : List (Handler P)) (i : ℕ) (hs : List (Handler P)) (u : P.User)
      (b : Bool) (w : P.World)
      → (revert P h u w).0 ≡ ok tt
      → step P (pending P i hs u (reverting (h ∷ rest)) b w) revert_task_runs
        ≡ pending P i hs u (reverting rest) b (revert P h u w).1
  unfolding step pending
  step-revert h rest i hs u b w e = rw e

  reverting-IsRestored :
      (rest : List (Handler P)) (i : ℕ) (hs : List (Handler P)) (u : P.User) (b : Bool) (v : V)
      (w : P.World)
      → Undoes P view rest u v w
      → IsRestored (run P (pending P i hs u (reverting rest) b w) (turns (suc (length rest)))) v
  unfolding run step pending revert_all
  reverting-IsRestored [] i hs u b v w d = (refl, d.1)
  reverting-IsRestored (h ∷ rest) i hs u b v w d =
      let (_, ran, after) = bind-ok (revert P h u) (λ _. revert_all P rest u) w tt d.0 in
      subst (λ s. IsRestored (run P s (turns (suc (length rest)))) v)
        (sym (step-revert h rest i hs u b w ran))
        (reverting-IsRestored rest i hs u b v (revert P h u w).1
          (sym (ap (λ r. r.0) after) ∙ d.0, sym (ap (λ r. view r.1) after) ∙ d.1))

  -- When no 'done' or 'abort' follows an accepted 'change', the server is free again once the revert
  -- task has run two times more often than there are handlers, and its device shows what it showed
  -- before, if the handlers keep the contract.
  pub timeout-IsRestored :
      (contract : Contract P view) (s : Server P) (i : ℕ) (cs : List (Change P.Value))
      (r : P.User × List (Handler P))
      → s.current ≡ none
      → (run_change P cs s.world).0 ≡ ok r
      → IsRestored (run P s (callback change i cs ∷ turns (2 + length r.1))) (view s.world)
  unfolding pending
  timeout-IsRestored contract s i cs r free e =
      let left : Undoes P view (reverse r.1) r.0 (view s.world) (run_change P cs s.world).1 =
        rw e at (run_change-IsPrepared P view contract cs s.world) in
      let count : suc (suc (length (reverse r.1))) ≡ 2 + length r.1 =
        omega (arith, length-reverse_aux r.1 []) in
      subst₂ (λ t n. IsRestored (run P t (callback change i cs ∷ turns n)) (view s.world))
        (current_path P s free) count
        (unfold run in
          subst
            (λ t. IsRestored (run P t (turns (suc (suc (length (reverse r.1)))))) (view s.world))
            (sym (step-accepted P view s.stopped s.world i cs r e))
            (unfold step in
              reverting-IsRestored (reverse r.1) i r.1 r.0 s.stopped (view s.world)
                (run_change P cs s.world).1 left))
