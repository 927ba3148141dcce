-- ===== src/Core/Protocol.antt =====
-- Every event of src/lib/goldstone/lib/core.py is a step of the abstract transaction, under the
-- contract of the handlers.
use goldstone_mgmt.Base.{
  ◌≡◌, ◌≢◌, refl, sym, ap, ◌∙◌, Result, returns-cases, List, [], ◌∷◌, reverse, ok, err, Exn, arith,
  Result-cases, inl, inr, none, some, Bool-cases, true, Bool, if◌then◌else◌, ℕ, ◌==◌, nat_eq,
  ==_iff,
}
use goldstone_mgmt.Core.{
  Subclass, Change, Handler, Server, Task, sleeping, cancelled, reverting, failed, change, done,
  abort, unknown, run_change, revert_all, Event, callback, revert_task_runs, step, run, revert,
}
use goldstone_mgmt.Core.Contract.{Contract, Undoes}
use goldstone_mgmt.Base.Exec.{bind-ok}
use goldstone_mgmt.Core.Atomic.{run_change-IsPrepared}
use goldstone_mgmt.Core.Phase.{
  Phase, idle, prepared, expired, stranded, Follows, accept, refuse, stray, commit, roll_back,
  mismatch, busy, busy_reverting, ignore, expire, no_timer, revert_one, reverted, no_task, strand,
  stay_stranded, still_stranded, busy_stranded, cut_short, release, fail_expired, fail_stranded,
  Runs, finished, next, pending, current_path, task_path, IsWaiting, IsLive, Represents,
}
use mathlib.Core.Path.{subst₂, subst₃}

pub IsWaiting-IsLive : {P : Subclass} (t : Task P) → IsWaiting t → IsLive t
IsWaiting-IsLive sleeping h = tt
IsWaiting-IsLive cancelled h = tt
IsWaiting-IsLive (reverting rest) h = absurd h
IsWaiting-IsLive (failed e) h = absurd h

module _ (P : Subclass) {V : Type 0} (view : P.World → V) where
  abbrev pub Reached : Server P → Phase V → Event P → Type 0
  Reached s p e = (q : Phase V) × Follows P p e q × Represents P view (step P s e) q

  pub step-accepted :
      (b : Bool) (w : P.World) (i : ℕ) (cs : List (Change P.Value)) (r : P.User × List (Handler P))
      → (run_change P cs w).0 ≡ ok r
      → step P (record { current = none; stopped = b; world = w }) (callback change i cs) ≡ record {
        current = some (record { id = i; handlers = r.1; user = r.0; revert_task = sleeping });
        stopped = b;
        world = (run_change P cs w).1;
      }
  unfolding step
  step-accepted b w i cs r e = rw (e, step)

  step-done :
      (b : Bool) (w : P.World) (i : ℕ) (hs : List (Handler P)) (u : P.User) (t : Task P) (j : ℕ)
      (cs : List (Change P.Value))
      → IsLive t
      → step P (pending P i hs u t b w) (callback done j cs) ≡ (
          if i == j
          then record { current = none; stopped = b; world = w }
          else pending P i hs u cancelled true w)
  unfolding step pending
  step-done b w i hs u sleeping j cs k = ground arith
  step-done b w i hs u cancelled j cs k = ground arith
  step-done b w i hs u (reverting rest) j cs k = ground arith
  step-done b w i hs u (failed e) j cs k = absurd k

  -- The server after an 'abort' of the request that it holds, by what the rollback returned.
  abbrev aborted : Result (Unit {0}) → ℕ → List (Handler P) → P.User → Bool → P.World → Server P
  aborted (ok _) i hs u b w = record { current = none; stopped = b; world = w }
  aborted (err e) i hs u b w = pending P i hs u cancelled b w

  step-abort_live :
      (b : Bool) (w : P.World) (i : ℕ) (hs : List (Handler P)) (u : P.User) (t : Task P) (j : ℕ)
      (cs : List (Change P.Value))
      → IsLive t
      → step P (pending P i hs u t b w) (callback abort j cs) ≡ (
          if i == j
          then aborted (revert_all P (reverse hs) u w).0 i hs u b (revert_all P (reverse hs) u w).1
          else pending P i hs u cancelled true w)
  unfolding step pending
  step-abort_live b w i hs u sleeping j cs k = ground arith
  step-abort_live b w i hs u cancelled j cs k = ground arith
  step-abort_live b w i hs u (reverting rest) j cs k = ground arith
  step-abort_live b w i hs u (failed c) j cs k = absurd k

  pub step-abort :
      (b : Bool) (w : P.World) (i : ℕ) (hs : List (Handler P)) (u : P.User) (t : Task P) (j : ℕ)
      (cs : List (Change P.Value))
      → IsLive t
      → (revert_all P (reverse hs) u w).0 ≡ ok tt
      → step P (pending P i hs u t b w) (callback abort j cs) ≡ (
          if i == j
          then record { current = none; stopped = b; world = (revert_all P (reverse hs) u w).1 }
          else pending P i hs u cancelled true w)
  step-abort b w i hs u t j cs k e = step-abort_live b w i hs u t j cs k ∙ rw e refl

  pub step-refused :
      (b : Bool) (w : P.World) (i : ℕ) (cs : List (Change P.Value)) (c : Exn)
      → (run_change P cs w).0 ≡ err c
      → step P (record { current = none; stopped = b; world = w }) (callback change i cs)
        ≡ record { current = none; stopped = b; world = (run_change P cs w).1 }
  unfolding step
  step-refused b w i cs c e = rw (e, step)

  module _ (contract : Contract P view) where
    on_change :
        (b : Bool) (w : P.World) (i : ℕ) (cs : List (Change P.Value))
        → Reached
            (record { current = none; stopped = b; world = w })
            (idle (view w))
            (callback change i cs)
    on_change b w i cs =
        let left = run_change-IsPrepared P view contract cs w in
        elim (Result-cases (run_change P cs w).0) [
          | inl (r, e) ↦ (
            prepared i (view w) (view (run_change P cs w).1),
            accept,
            rw (step-accepted b w i cs r e) (_, refl, refl, tt, rw e at left, refl),
          )
          | inr (c, e) ↦
              (idle (view w), refuse, rw (step-refused b w i cs c e) (refl, rw e at left))
        ]

    on_idle :
        (b : Bool) (w : P.World) (e : Event P)
        → Reached (record { current = none; stopped = b; world = w }) (idle (view w)) e
    unfolding step
    on_idle b w (callback change i cs) = on_change b w i cs
    on_idle b w (callback done i cs) = (_, stray tt, (refl, refl))
    on_idle b w (callback abort i cs) = (_, stray tt, (refl, refl))
    on_idle b w (callback unknown i cs) = (_, ignore, (refl, refl))
    on_idle b w revert_task_runs = (_, no_task, (refl, refl))

    on_done :
        (b : Bool) (w : P.World) (v : V) (i : ℕ) (hs : List (Handler P)) (u : P.User) (t : Task P)
        (j : ℕ) (cs : List (Change P.Value))
        → IsLive t
        → Undoes P view (reverse hs) u v w
        → Reached (pending P i hs u t b w) (prepared i v (view w)) (callback done j cs)
    unfolding step pending
    on_done b w v i hs u t j cs k d = elim (Bool-cases (i == j)) [
      | inl e ↦ (
        idle (view w),
        commit ((==_iff i j).0 e),
        rw (step-done b w i hs u t j cs k, e) (refl, refl),
      )
      | inr e ↦ (
        prepared i v (view w),
        mismatch tt (λ p. cc ((==_iff i j).1 p)),
        rw (step-done b w i hs u t j cs k, e) (_, refl, refl, tt, d, refl),
      )
    ]

    on_abort :
        (b : Bool) (w : P.World) (v : V) (i : ℕ) (hs : List (Handler P)) (u : P.User) (t : Task P)
        (j : ℕ) (cs : List (Change P.Value))
        → IsLive t
        → Undoes P view (reverse hs) u v w
        → Reached (pending P i hs u t b w) (prepared i v (view w)) (callback abort j cs)
    unfolding step pending
    on_abort b w v i hs u t j cs k d = elim (Bool-cases (i == j)) [
      | inl e ↦ (
        idle v,
        roll_back ((==_iff i j).0 e),
        rw (step-abort b w i hs u t j cs k d.0, e) (refl, d.1),
      )
      | inr e ↦ (
        prepared i v (view w),
        mismatch tt (λ p. cc ((==_iff i j).1 p)),
        rw (step-abort b w i hs u t j cs k d.0, e) (_, refl, refl, tt, d, refl),
      )
    ]

    on_prepared :
        (b : Bool) (w : P.World) (v : V) (i : ℕ) (hs : List (Handler P)) (u : P.User) (t : Task P)
        (e : Event P)
        → IsWaiting t
        → Undoes P view (reverse hs) u v w
        → Reached (pending P i hs u t b w) (prepared i v (view w)) e
    unfolding step pending
    on_prepared b w v i hs u sleeping revert_task_runs t d =
        (expired i v, expire, (_, _, refl, refl, refl, d))
    on_prepared b w v i hs u cancelled revert_task_runs t d =
        (_, no_timer, (_, refl, refl, tt, d, refl))
    on_prepared b w v i hs u t (callback change j cs) k d = (_, busy, (_, refl, refl, k, d, refl))
    on_prepared b w v i hs u t (callback unknown j cs) k d =
        (_, ignore, (_, refl, refl, k, d, refl))
    on_prepared b w v i hs u t (callback done j cs) k d =
        on_done b w v i hs u t j cs (IsWaiting-IsLive t k) d
    on_prepared b w v i hs u t (callback abort j cs) k d =
        on_abort b w v i hs u t j cs (IsWaiting-IsLive t k) d
    on_prepared b w v i hs u (reverting rest) e k d = absurd k
    on_prepared b w v i hs u (failed x) e k d = absurd k

    -- A 'done' where no rollback is sure any more.
    cut_done :
        (b : Bool) (w : P.World) (i : ℕ) (hs : List (Handler P)) (u : P.User) (t : Task P) (j : ℕ)
        (cs : List (Change P.Value)) (p : Phase V)
        → IsLive t
        → ((v : V) → i ≡ j → Follows P p (callback done j cs) (idle v))
        → (i ≢ j → Follows P p (callback done j cs) (stranded i))
        → Reached (pending P i hs u t b w) p (callback done j cs)
    unfolding pending
    cut_done b w i hs u t j cs p live free other = elim (Bool-cases (i == j)) [
      | inl e ↦ (
        idle (view w),
        free (view w) ((==_iff i j).0 e),
        rw (step-done b w i hs u t j cs live, e) (refl, refl),
      )
      | inr e ↦ (
        stranded i,
        other (λ q. cc ((==_iff i j).1 q)),
        rw (step-done b w i hs u t j cs live, e) (_, refl, refl, refl),
      )
    ]

    -- An 'abort' where no rollback is sure any more.
    cut_abort :
        (b : Bool) (w : P.World) (i : ℕ) (hs : List (Handler P)) (u : P.User) (t : Task P) (j : ℕ)
        (cs : List (Change P.Value)) (p : Phase V)
        → IsLive t
        → ((v : V) → i ≡ j → Follows P p (callback abort j cs) (idle v))
        → (i ≢ j → Follows P p (callback abort j cs) (stranded i))
        → (i ≡ j → Follows P p (callback abort j cs) (stranded i))
        → Reached (pending P i hs u t b w) p (callback abort j cs)
    unfolding pending
    cut_abort b w i hs u t j cs p live free other fails = elim (Bool-cases (i == j)) [
      | inl e ↦
          let left = (revert_all P (reverse hs) u w).1 in
          elim (returns-cases (revert_all P (reverse hs) u w).0) [
            | inl r ↦ (
              idle (view left),
              free (view left) ((==_iff i j).0 e),
              rw (step-abort_live b w i hs u t j cs live, e, r) (refl, refl),
            )
            | inr (x, r) ↦ (
              stranded i,
              fails ((==_iff i j).0 e),
              rw (step-abort_live b w i hs u t j cs live, e, r) (_, refl, refl, refl),
            )
          ]
      | inr e ↦ (
        stranded i,
        other (λ q. cc ((==_iff i j).1 q)),
        rw (step-abort_live b w i hs u t j cs live, e) (_, refl, refl, refl),
      )
    ]

    on_expired :
        (b : Bool) (w : P.World) (v : V) (i : ℕ) (hs : List (Handler P)) (u : P.User)
        (rest : List (Handler P)) (e : Event P)
        → Undoes P view rest u v w
        → Reached (pending P i hs u (reverting rest) b w) (expired i v) e
    unfolding step pending revert_all
    on_expired b w v i hs u [] revert_task_runs d = (idle v, reverted, (refl, d.1))
    on_expired b w v i hs u (h ∷ rest) revert_task_runs d =
        let (_, ran, after) = bind-ok (revert P h u) (λ _. revert_all P rest u) w tt d.0 in
        (
          expired i v,
          revert_one,
          rw ran (
            _,
            rest,
            refl,
            refl,
            refl,
            (sym (ap (λ r. r.0) after) ∙ d.0, sym (ap (λ r. view r.1) after) ∙ d.1),
          ),
        )
    on_expired b w v i hs u rest (callback change j cs) d =
        (_, busy_reverting, (_, _, refl, refl, refl, d))
    on_expired b w v i hs u rest (callback unknown j cs) d =
        (_, ignore, (_, _, refl, refl, refl, d))
    on_expired b w v i hs u rest (callback done j cs) d =
        cut_done b w i hs u (reverting rest) j cs (expired i v) tt (λ v' q. cut_short tt q)
          (λ q. strand tt q)
    on_expired b w v i hs u rest (callback abort j cs) d =
        cut_abort b w i hs u (reverting rest) j cs (expired i v) tt (λ v' q. cut_short tt q)
          (λ q. strand tt q) (λ q. fail_expired q)

    on_stranded :
        (b : Bool) (w : P.World) (i : ℕ) (hs : List (Handler P)) (u : P.User) (e : Event P)
        → Reached (pending P i hs u cancelled b w) (stranded i) e
    unfolding step pending
    on_stranded b w i hs u revert_task_runs = (_, still_stranded, (_, refl, refl, refl))
    on_stranded b w i hs u (callback change j cs) = (_, busy_stranded, (_, refl, refl, refl))
    on_stranded b w i hs u (callback unknown j cs) = (_, ignore, (_, refl, refl, refl))
    on_stranded b w i hs u (callback done j cs) =
        cut_done b w i hs u cancelled j cs (stranded i) tt (λ v q. release tt q)
          (λ q. stay_stranded tt q)
    on_stranded b w i hs u (callback abort j cs) =
        cut_abort b w i hs u cancelled j cs (stranded i) tt (λ v q. release tt q)
          (λ q. stay_stranded tt q) (λ q. fail_stranded q)

    -- The refinement, for one event.
    pub step-Reached :
        (s : Server P) (p : Phase V) (e : Event P) → Represents P view s p → Reached s p e
    step-Reached s (idle v) e (free, shows) =
        subst₂ (λ t x. Reached t (idle x) e) (current_path P s free) shows
          (on_idle s.stopped s.world e)
    step-Reached s (prepared i v v') e (c, held, same, waits, d, shows) =
        unfold pending in
        subst₃ (λ t k x. Reached t (prepared k v x) e) (current_path P s held) same shows
          (on_prepared s.stopped s.world v c.id c.handlers c.user c.revert_task e waits d)
    step-Reached s (expired i v) e (c, rest, held, named, same, d) =
        subst₂ (λ t k. Reached t (expired k v) e) (task_path P s held same) named
          (on_expired s.stopped s.world v c.id c.handlers c.user rest e d)
    step-Reached s (stranded i) e (c, held, named, same) =
        subst₂ (λ t k. Reached t (stranded k) e) (task_path P s held same) named
          (on_stranded s.stopped s.world c.id c.handlers c.user e)

    -- Let the handlers keep the contract, and let a phase of the abstract transaction represent the
    -- server. Then after every sequence of callbacks and runs of the revert task, in any order, the
    -- server is represented by a phase that the abstract transaction reaches by the same events.
    pub run-Runs :
        (s : Server P) (p : Phase V) (es : List (Event P))
        → Represents P view s p
        → (q : Phase V) × Runs P p es q × Represents P view (run P s es) q
    unfolding run
    run-Runs s p [] h = (p, finished, h)
    run-Runs s p (e ∷ es) h =
        let (q, f, h') = step-Reached s p e h in
        let (r, g, k) = run-Runs (step P s e) q es h' in (r, next f g, k)
