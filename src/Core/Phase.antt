-- ===== src/Core/Phase.antt =====
-- The abstract transaction that src/lib/goldstone/lib/core.py carries out, and how a server stands
-- for its phases.
use goldstone_mgmt.Base.{
  ◌≡◌, sym, ◌∙◌, List, [], ◌∷◌, reverse, none, some, Bool, ℕ, Option, nat_eq, ◌≢◌,
}
use goldstone_mgmt.Core.{
  Subclass, Change, Handler, Server, Current, Task, sleeping, cancelled, reverting, failed,
  EventName, change, done, abort, unknown, Event, callback, revert_task_runs,
}
use goldstone_mgmt.Core.Contract.{Undoes}

-- The device shows `v` while it is idle. A prepared request goes back from its last value to its first
-- when it is aborted; an expired one goes back by itself. `stranded`: an event stopped the revert task
-- part of the way through the handlers, and the request is still held.
pub data Phase (V : Type 0) : Type 0 where
  idle : V → Phase V
  prepared : ℕ → V → V → Phase V
  expired : ℕ → V → Phase V
  stranded : ℕ → Phase V

abbrev pub Ends : EventName → Type 0
Ends done = Unit {0}
Ends abort = Unit {0}
Ends _ = ⊥

module _ (P : Subclass) {V : Type 0} where
  -- The protocol that the comment above `change_cb` describes.
  pub data Follows : Phase V → Event P → Phase V → Type 0 where
    accept :
        {v v' : V} {i : ℕ} {cs : List (Change P.Value)}
        → Follows (idle v) (callback change i cs) (prepared i v v')
    refuse :
        {v : V} {i : ℕ} {cs : List (Change P.Value)}
        → Follows (idle v) (callback change i cs) (idle v)
    stray :
        {v : V} {n : EventName} {i : ℕ} {cs : List (Change P.Value)}
        → Ends n
        → Follows (idle v) (callback n i cs) (idle v)
    commit :
        {v v' : V} {i j : ℕ} {cs : List (Change P.Value)}
        → i ≡ j
        → Follows (prepared i v v') (callback done j cs) (idle v')
    roll_back :
        {v v' : V} {i j : ℕ} {cs : List (Change P.Value)}
        → i ≡ j
        → Follows (prepared i v v') (callback abort j cs) (idle v)
    mismatch :
        {v v' : V} {n : EventName} {i j : ℕ} {cs : List (Change P.Value)}
        → Ends n
        → i ≢ j
        → Follows (prepared i v v') (callback n j cs) (prepared i v v')
    busy :
        {v v' : V} {i j : ℕ} {cs : List (Change P.Value)}
        → Follows (prepared i v v') (callback change j cs) (prepared i v v')
    busy_reverting :
        {v : V} {i j : ℕ} {cs : List (Change P.Value)}
        → Follows (expired i v) (callback change j cs) (expired i v)
    busy_stranded :
        {i j : ℕ} {cs : List (Change P.Value)}
        → Follows (stranded i) (callback change j cs) (stranded i)
    ignore :
        {p : Phase V} {j : ℕ} {cs : List (Change P.Value)} → Follows p (callback unknown j cs) p
    expire : {v v' : V} {i : ℕ} → Follows (prepared i v v') revert_task_runs (expired i v)
    no_timer : {v v' : V} {i : ℕ} → Follows (prepared i v v') revert_task_runs (prepared i v v')
    revert_one : {v : V} {i : ℕ} → Follows (expired i v) revert_task_runs (expired i v)
    reverted : {v : V} {i : ℕ} → Follows (expired i v) revert_task_runs (idle v)
    no_task : {v : V} → Follows (idle v) revert_task_runs (idle v)
    still_stranded : {i : ℕ} → Follows (stranded i) revert_task_runs (stranded i)
    strand :
        {v : V} {n : EventName} {i j : ℕ} {cs : List (Change P.Value)}
        → Ends n
        → i ≢ j
        → Follows (expired i v) (callback n j cs) (stranded i)
    stay_stranded :
        {n : EventName} {i j : ℕ} {cs : List (Change P.Value)}
        → Ends n
        → i ≢ j
        → Follows (stranded i) (callback n j cs) (stranded i)
    cut_short :
        {v v' : V} {n : EventName} {i j : ℕ} {cs : List (Change P.Value)}
        → Ends n
        → i ≡ j
        → Follows (expired i v) (callback n j cs) (idle v')
    release :
        {v : V} {n : EventName} {i j : ℕ} {cs : List (Change P.Value)}
        → Ends n
        → i ≡ j
        → Follows (stranded i) (callback n j cs) (idle v)
    fail_expired :
        {v : V} {i j : ℕ} {cs : List (Change P.Value)}
        → i ≡ j
        → Follows (expired i v) (callback abort j cs) (stranded i)
    fail_stranded :
        {i j : ℕ} {cs : List (Change P.Value)}
        → i ≡ j
        → Follows (stranded i) (callback abort j cs) (stranded i)

  pub data Runs : Phase V → List (Event P) → Phase V → Type 0 where
    finished : {p : Phase V} → Runs p [] p
    next :
        {p q r : Phase V} {e : Event P} {es : List (Event P)}
        → Follows p e q
        → Runs q es r
        → Runs p (e ∷ es) r

module _ (P : Subclass) where
  -- A server that holds a request.
  unfoldable pub pending : ℕ → List (Handler P) → P.User → Task P → Bool → P.World → Server P
  pending i hs u t b w = record {
    current = some (record { id = i; handlers = hs; user = u; revert_task = t });
    stopped = b;
    world = w;
  }

  pub current_path :
      (s : Server P) {o : Option (Current P)} → s.current ≡ o → record s { current = o } ≡ s
  current_path s e = λ i. record s { current = sym e i }

  pub task_path :
      (s : Server P) {c : Current P} {t : Task P}
      → s.current ≡ some c
      → c.revert_task ≡ t
      → pending c.id c.handlers c.user t s.stopped s.world ≡ s
  unfolding pending
  task_path s {c} held same = current_path s (held ∙ λ i. some (record c { revert_task = same i }))

abbrev pub IsWaiting : {P : Subclass} → Task P → Type 0
IsWaiting sleeping = Unit {0}
IsWaiting cancelled = Unit {0}
IsWaiting _ = ⊥

-- A task that has not ended by an exception.
abbrev pub IsLive : {P : Subclass} → Task P → Type 0
IsLive (failed e) = ⊥
IsLive _ = Unit {0}

module _ (P : Subclass) {V : Type 0} (view : P.World → V) where
  abbrev pub Represents : Server P → Phase V → Type 0
  Represents s (idle v) = (s.current ≡ none) × (view s.world ≡ v)
  Represents s (prepared i v v') =
      (c : Current P) × (s.current ≡ some c)
      × (c.id ≡ i)
      × IsWaiting c.revert_task
      × Undoes P view (reverse c.handlers) c.user v s.world
      × (view s.world ≡ v')
  Represents s (expired i v) =
      (c : Current P) × (rest : List (Handler P)) × (s.current ≡ some c)
      × (c.id ≡ i)
      × (c.revert_task ≡ reverting rest)
      × Undoes P view rest c.user v s.world
  Represents s (stranded i) =
      (c : Current P) × (s.current ≡ some c) × (c.id ≡ i) × (c.revert_task ≡ cancelled)
