-- ===== src/Core/Failures.antt =====
-- What src/lib/goldstone/lib/core.py does where the protocol or a hook fails.
use goldstone_mgmt.Base.{
  ◌≡◌, refl, List, [], ◌∷◌, err, Exn, some, Bool, ℕ, reverse, internal_error, nat_eq,
}
use goldstone_mgmt.Core.{
  Subclass, Change, Handler, Server, Current, failed, change, done, abort, unknown, change_cb,
  Event, callback, revert_task_runs, step, run, sleeping, revert, object,
}
use goldstone_mgmt.Core.Phase.{pending, task_path}
use mathlib.Core.Path.{subst}

module _ (P : Subclass) where
  failed_pending_sticks :
      (c : Current P) (e : Exn) (b : Bool) (w : P.World) (events : List (Event P))
      → let s = pending P c.id c.handlers c.user (failed e) b w in run P s events ≡ s
  unfolding run step pending
  failed_pending_sticks c e b w [] = refl
  failed_pending_sticks c e b w (callback change i cs ∷ es) = failed_pending_sticks c e b w es
  failed_pending_sticks c e b w (callback done i cs ∷ es) = failed_pending_sticks c e b w es
  failed_pending_sticks c e b w (callback abort i cs ∷ es) = failed_pending_sticks c e b w es
  failed_pending_sticks c e b w (callback unknown i cs ∷ es) = failed_pending_sticks c e b w es
  failed_pending_sticks c e b w (revert_task_runs ∷ es) = failed_pending_sticks c e b w es

  failed_pending_raises :
      (c : Current P) (e : Exn) (b : Bool) (w : P.World) (i : ℕ) (cs : List (Change P.Value))
      → let s = pending P c.id c.handlers c.user (failed e) b w in
        (change_cb P change i cs s ≡ (err internal_error, s))
        × (change_cb P done i cs s ≡ (err e, s))
        × (change_cb P abort i cs s ≡ (err e, s))
  unfolding change_cb pending
  failed_pending_raises c e b w i cs = (refl, refl, refl)

  -- When a revert of the timeout task has raised, no further event changes the server: every later
  -- 'change' is refused, and every 'done' and 'abort' raises the exception of the task again.
  pub failed_task_sticks :
      (s : Server P) (c : Current P) (e : Exn) (events : List (Event P)) (i : ℕ)
      (cs : List (Change P.Value))
      → s.current ≡ some c
      → c.revert_task ≡ failed e
      → (run P s events ≡ s)
        × (change_cb P change i cs s ≡ (err internal_error, s))
        × (change_cb P done i cs s ≡ (err e, s))
        × (change_cb P abort i cs s ≡ (err e, s))
  failed_task_sticks s c e events i cs h k =
      let at = task_path P s h k in
      let raises =
        subst
          (λ t.
            (change_cb P change i cs t ≡ (err internal_error, t))
            × (change_cb P done i cs t ≡ (err e, t))
            × (change_cb P abort i cs t ≡ (err e, t)))
          at (failed_pending_raises c e s.stopped s.world i cs) in
      (
        subst (λ t. run P t events ≡ t) at (failed_pending_sticks c e s.stopped s.world events),
        raises.0,
        raises.1,
        raises.2,
      )

  -- A request whose client is gone and whose last handler's `revert` raises is kept for ever: once
  -- the revert task has run twice it has failed, in the world that `revert` left.
  pub failed_revert_path :
      (s : Server P) (c : Current P) (o : P.Object) (rest : List (Handler P)) (e : Exn)
      (w : P.World)
      → s.current ≡ some c
      → c.revert_task ≡ sleeping
      → reverse c.handlers ≡ object o ∷ rest
      → P.revert_object o c.user s.world ≡ (err e, w)
      → run P s (revert_task_runs ∷ revert_task_runs ∷ [])
        ≡ pending P c.id c.handlers c.user (failed e) s.stopped w
  failed_revert_path s c o rest e w held asleep last fails =
      subst
        (λ t.
          run P t (revert_task_runs ∷ revert_task_runs ∷ [])
          ≡ pending P c.id c.handlers c.user (failed e) s.stopped w)
        (task_path P s held asleep) (unfold run step pending revert in (rw (last, fails) refl))

  -- A 'change' that arrives while a request is held is refused.
  pub held-refuses :
      (s : Server P) (c : Current P) (i : ℕ) (cs : List (Change P.Value))
      → s.current ≡ some c
      → (change_cb P change i cs s).0 ≡ err internal_error
  unfolding change_cb
  held-refuses s c i cs held = rw (held, change_cb) refl
