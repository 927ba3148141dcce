-- ===== src/Core/Deferred.antt =====
-- Servers of src/lib/goldstone/lib/core.py whose handlers write to a session and leave the datastore
-- to `post`.
use goldstone_mgmt.Base.{
  ◌≡◌, refl, ◌∙◌, List, [], ◌∷◌, reverse, Result, ok, err, Exn, Option-cases, Result-cases, inl,
  inr, Option, none, some, Bool, true, false, ℕ, ◌==◌, nat_eq, arith,
}
use goldstone_mgmt.Base.Exec.{Exec, ◌>>=◌}
use goldstone_mgmt.Base.Triple.{Keeps, Keeps-lift, Keeps-bind, Keeps-if}
use goldstone_mgmt.Core.Contract.{Quiet}
use goldstone_mgmt.Core.Keeps.{create_user-Keeps, prepare-Keeps, pre-Keeps}
use goldstone_mgmt.Core.{
  Subclass, Change, Handler, base_handler, object, Server, Current, Task, sleeping, cancelled,
  reverting, failed, change, done, abort, unknown, apply, revert, revert_all, after_apply,
  apply_all, prepare, create_user, run_change, cancel_task, revert_if, finish, on_world,
  set_current, change_cb, handle_change, resume, do_revert, Event, callback, revert_task_runs, step,
  run, set_stop_event,
}

module _ (P : Subclass) where
  -- the 'change' event up to `post`
  abbrev pub until_post : List (Change P.Value) → Exec P.World (Unit {0})
  until_post cs =
      create_user P cs >>= λ u. P.pre u >>= λ _. prepare P cs u >>= λ hs. apply_all P [] hs u

module _ (P : Subclass) {V : Type 0} (view : P.World → V) where
  pub record Deferred : Type 0 where
    pub quiet : Quiet P view
    pub apply_keeps : (o : P.Object) (u : P.User) → Keeps view (P.apply_object o u)
    pub revert_keeps : (o : P.Object) (u : P.User) → Keeps view (P.revert_object o u)

  abbrev pub IsSettling : Event P → Type 0
  IsSettling (callback change i cs) = ⊥
  IsSettling _ = Unit {0}

  abbrev pub AllSettling : List (Event P) → Type 0
  AllSettling [] = Unit {0}
  AllSettling (e ∷ es) = IsSettling e × AllSettling es

  module _ (D : Deferred) where
    revert-Keeps : (h : Handler P) (u : P.User) → Keeps view (revert P h u)
    unfolding revert
    revert-Keeps base_handler u = Keeps-lift (ok tt)
    revert-Keeps (object o) u = D.revert_keeps o u

    revert_all-Keeps : (hs : List (Handler P)) (u : P.User) → Keeps view (revert_all P hs u)
    unfolding revert_all
    revert_all-Keeps [] u = Keeps-lift (ok tt)
    revert_all-Keeps (h ∷ hs) u = Keeps-bind (revert-Keeps h u) (λ _. revert_all-Keeps hs u)

    apply-Keeps : (h : Handler P) (u : P.User) → Keeps view (apply P h u)
    unfolding apply
    apply-Keeps base_handler u = Keeps-lift (ok tt)
    apply-Keeps (object o) u = D.apply_keeps o u

    after_apply-Keeps :
        (before : List (Handler P)) (u : P.User) (r : Result (Unit {0}))
        (rest : Exec P.World (Unit {0}))
        → Keeps view rest
        → Keeps view (after_apply P before u r rest)
    unfolding after_apply
    after_apply-Keeps before u (ok tt) rest k = k
    after_apply-Keeps before u (err e) rest k =
        Keeps-bind (revert_all-Keeps before u) (λ _. Keeps-lift (err e))

    apply_all-Keeps :
        (before hs : List (Handler P)) (u : P.User) → Keeps view (apply_all P before hs u)
    unfolding apply_all
    apply_all-Keeps before [] u = Keeps-lift (ok tt)
    apply_all-Keeps before (h ∷ hs) u = record {
      at = λ w.
          (after_apply-Keeps before u (apply P h u w).0 _ (apply_all-Keeps (h ∷ before) hs u)).at
            (apply P h u w).1
          ∙ (apply-Keeps h u).at w;
    }

    on_world-view :
        {A : Type 0} (m : Exec P.World A) → Keeps view m → Keeps (λ s. view s.world) (on_world P m)
    unfolding on_world
    on_world-view m k = record { at = λ s. k.at s.world }

    revert_if-Keeps : (b : Bool) (c : Current P) → Keeps (λ s. view s.world) (revert_if P b c)
    unfolding revert_if
    revert_if-Keeps true c = on_world-view _ (revert_all-Keeps (reverse c.handlers) c.user)
    revert_if-Keeps false c = Keeps-lift (ok tt)

    cancel_task-Keeps : (c : Current P) (t : Task P) → Keeps (λ s. view s.world) (cancel_task P c t)
    unfolding cancel_task
    cancel_task-Keeps c sleeping = record { at = λ s. refl }
    cancel_task-Keeps c cancelled = record { at = λ s. refl }
    cancel_task-Keeps c (reverting hs) = record { at = λ s. refl }
    cancel_task-Keeps c (failed e) = record { at = λ s. refl }

    finish-Keeps :
        (b : Bool) (i : ℕ) (o : Option (Current P)) → Keeps (λ s. view s.world) (finish P b i o)
    unfolding finish set_stop_event set_current
    finish-Keeps b i none = record { at = λ s. refl }
    finish-Keeps b i (some c) = Keeps-bind (cancel_task-Keeps c c.revert_task) (λ _.
        Keeps-if (c.id == i) (Keeps-bind (revert_if-Keeps b c) (λ _. record { at = λ s. refl }))
          (record { at = λ s. refl }))

    resume-view :
        (c : Current P) (t : Task P) (s : Server P) → view (resume P c t s).world ≡ view s.world
    unfolding resume
    resume-view c sleeping s = refl
    resume-view c cancelled s = refl
    resume-view c (failed e) s = refl
    resume-view c (reverting []) s = refl
    resume-view c (reverting (h ∷ hs)) s = (revert-Keeps h c.user).at s.world

    -- An event that is not a 'change' leaves what `view` shows alone, an 'abort' and the revert task
    -- among them: what `post` has made of a request is never taken back.
    pub step-keeps :
        (s : Server P) (e : Event P) → IsSettling e → view (step P s e).world ≡ view s.world
    unfolding step change_cb do_revert
    step-keeps s (callback change i cs) h = absurd h
    step-keeps s (callback done i cs) h = (finish-Keeps false i s.current).at s
    step-keeps s (callback abort i cs) h = (finish-Keeps true i s.current).at s
    step-keeps s (callback unknown i cs) h = refl
    step-keeps s revert_task_runs h = elim (Option-cases s.current) [
      | inl e ↦ rw (e, do_revert) refl
      | inr (c, e) ↦ rw (e, do_revert) (resume-view c c.revert_task s)
    ]

    -- The same for any number of such events.
    pub run-keeps :
        (s : Server P) (es : List (Event P))
        → AllSettling es
        → view (run P s es).world ≡ view s.world
    unfolding run
    run-keeps s [] h = refl
    run-keeps s (e ∷ es) h = run-keeps (step P s e) es h.1 ∙ step-keeps s e h.0

    until_post-Keeps : (cs : List (Change P.Value)) → Keeps view (until_post P cs)
    until_post-Keeps cs = Keeps-bind (create_user-Keeps P view D.quiet cs) (λ u.
        Keeps-bind (pre-Keeps P view D.quiet u)
          (λ _. Keeps-bind (prepare-Keeps P view D.quiet cs u) (λ hs. apply_all-Keeps [] hs u)))

    refused_path :
        (cs : List (Change P.Value)) (w : P.World) (e : Exn)
        → (until_post P cs w).0 ≡ err e
        → run_change P cs w ≡ (err e, (until_post P cs w).1)
    unfolding run_change create_user
    refused_path cs w e h =
        let (u, w₁) = P.new_user cs w in
        elim (Result-cases (P.pre u w₁).0) [
          | inr (c, k) ↦
              let same : c ≡ e = ground (arith, rw k at h) in
              rw k (λ j. (err (same j), (P.pre u w₁).1))
          | inl (a, k) ↦ elim (Result-cases (prepare P cs u (P.pre u w₁).1).0) [
            | inr (c, l) ↦
                let same : c ≡ e = ground (arith, rw (k, l) at h) in
                rw (k, l) (λ j. (err (same j), (prepare P cs u (P.pre u w₁).1).1))
            | inl (hs, l) ↦ rw (k, l, rw (k, l) at h) refl
          ]
        ]

    -- A 'change' that is refused by a handler's `validate` or `apply`, or by the hooks before them,
    -- leaves what `view` shows alone and the server free.
    pub refused-keeps :
        (s : Server P) (i : ℕ) (cs : List (Change P.Value)) (e : Exn)
        → s.current ≡ none
        → (until_post P cs s.world).0 ≡ err e
        → ((change_cb P change i cs s).0 ≡ err e)
          × (view (change_cb P change i cs s).1.world ≡ view s.world)
          × ((change_cb P change i cs s).1.current ≡ none)
    unfolding change_cb handle_change on_world
    refused-keeps s i cs e free h =
        let failed_run = refused_path cs s.world e h in
        let kept = (until_post-Keeps cs).at s.world in
        (
          rw (free, change_cb, failed_run) refl,
          rw (free, change_cb, failed_run) kept,
          rw (free, change_cb, failed_run) refl,
        )
