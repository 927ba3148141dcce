-- ===== src/Core.antt =====
-- src/lib/goldstone/lib/core.py: the server that every model daemon extends.
-- The parent holds the definitions; the children prove what they guarantee.
pub mod Handlers
pub mod Contract
pub mod Keeps
pub mod Fresh
pub mod Undo
pub mod Atomic
pub mod Phase
pub mod Protocol
pub mod Recovery
pub mod Failures
pub mod Deferred
mod Tests
use goldstone_mgmt.Base.{
  ℕ, Bool, true, false, Option, none, some, List, [], ◌∷◌, reverse, Result, ok, err, Exn,
  internal_error, unsupported_error, if◌then◌else◌, ◌==◌, nat_eq,
}
use goldstone_mgmt.Base.Exec.{Exec, pure, raise, continue, ◌>>=◌, ◌>>◌}
use goldstone_mgmt.Base.Text.{Text}
use Handlers.{XpathStep, Class, no_op, sub, Branches, get_handler}

-- Change.type of server_connector/sysrepo.py
pub data ChangeType : Type 0 where
  created modified deleted : ChangeType

pub record Change (V : Type 0) : Type 0 where
  pub type : ChangeType
  pub xpath : Text
  pub value : V

abbrev pub is_deleted : ChangeType → Bool
is_deleted deleted = true
is_deleted _ = false

-- What a subclass of ServerBase and its ChangeHandler classes add, and libyang's `xpath_split`.
-- `World` is every object and device that they read or write; `User` and `Object` are references
-- to the `user` dict of a request and to a handler object.
pub record Subclass : Type 1 where
  pub HandlerClass : Type 0
  pub Value : Type 0
  pub World : Type 0
  pub User : Type 0
  pub Object : Type 0
  pub handlers : Branches HandlerClass
  pub xpath_split : Text → List XpathStep
  pub new_user : List (Change Value) → World → User × World
  pub pre : User → Exec World (Unit {0})
  pub post : User → Exec World (Unit {0})
  pub create : HandlerClass → Change Value → Exec World Object
  pub init : Object → User → Exec World (Unit {0})
  pub validate_object : Object → User → Exec World (Unit {0})
  pub apply_object : Object → User → Exec World (Unit {0})
  pub revert_object : Object → User → Exec World (Unit {0})

-- The events that sysrepo passes to `change_cb`.
pub data EventName : Type 0 where
  change done abort unknown : EventName

module _ (P : Subclass) where
  open P use {HandlerClass, Value, World, User, Object}

  -- A ChangeHandler of the base class does nothing; any other is an object of the subclass.
  pub data Handler : Type 0 where
    base_handler : Handler
    object : Object → Handler

  -- The task of `do_revert`: asleep for `revert_timeout`, part of the way through the handlers,
  -- ended by an exception, or cancelled. One that ends well clears `_current_handlers`.
  pub data Task : Type 0 where
    sleeping cancelled : Task
    reverting : List Handler → Task
    failed : Exn → Task

  -- `_current_handlers`
  pub record Current : Type 0 where
    pub id : ℕ
    pub handlers : List Handler
    pub user : User
    pub revert_task : Task

  pub record Server : Type 0 where
    pub current : Option Current
    pub stopped : Bool
    pub world : World

  -- cls(self, change)
  unfoldable pub make : Class HandlerClass → Change Value → Exec World Handler
  make no_op c = pure base_handler
  make (sub k) c = do o ← P.create k c; pure (object o)

  -- `_init`, where the class has one
  unfoldable pub init_handler : Handler → User → Exec World (Unit {0})
  init_handler base_handler u = pure tt
  init_handler (object o) u = P.init o u

  unfoldable pub validate : Handler → User → Exec World (Unit {0})
  validate base_handler u = pure tt
  validate (object o) u = P.validate_object o u

  unfoldable pub apply : Handler → User → Exec World (Unit {0})
  apply base_handler u = pure tt
  apply (object o) u = P.apply_object o u

  pub revert : Handler → User → Exec World (Unit {0})
  revert base_handler u = pure tt
  revert (object o) u = P.revert_object o u

  -- for done in ...: await call(done.revert, user)
  pub revert_all : List Handler → User → Exec World (Unit {0})
  revert_all [] u = pure tt
  revert_all (h ∷ hs) u = do revert h u; revert_all hs u

  -- the first loop of the 'change' event: a handler for each change, validated
  unfoldable pub prepare : List (Change Value) → User → Exec World (List Handler)
  prepare [] u = pure []
  prepare (c ∷ cs) u = elim (get_handler P.handlers (P.xpath_split c.xpath)) [
    | none ↦ if is_deleted c.type then prepare cs u else raise unsupported_error
    | some cls ↦ do h ← make cls c; init_handler h u; validate h u; hs ← prepare cs u; pure (h ∷ hs)
  ]

  unfoldable pub after_apply :
      List Handler → User → Result (Unit {0}) → Exec World (Unit {0}) → Exec World (Unit {0})
  after_apply before u (ok _) rest = rest
  after_apply before u (err e) rest = do revert_all before u; raise e

  -- the second loop: `before` holds the handlers that are applied, the last one first
  unfoldable pub apply_all : List Handler → List Handler → User → Exec World (Unit {0})
  unfolding after_apply
  apply_all before [] u w = (ok tt, w)
  apply_all before (h ∷ hs) u w =
      let (r, w') = apply h u w in after_apply before u r (apply_all (h ∷ before) hs u) w'

  pub on_world : {A : Type 0} → Exec World A → Exec Server A
  on_world m s = let (r, w) = m s.world in (r, record s { world = w })

  pub set_current : Option Current → Exec Server (Unit {0})
  set_current c s = (ok tt, record s { current = c })

  pub set_stop_event : Exec Server (Unit {0})
  set_stop_event s = (ok tt, record s { stopped = true })

  unfoldable pub create_user : List (Change Value) → Exec World User
  create_user cs w = let (u, w') = P.new_user cs w in (ok u, w')

  -- everything between the check of `_current_handlers` and the creation of the revert task
  unfoldable pub run_change : List (Change Value) → Exec World (User × List Handler)
  unfolding create_user
  run_change cs = do
    u ← create_user cs
    P.pre u
    hs ← prepare cs u
    apply_all [] hs u
    P.post u
    pure (u, hs)

  -- the 'change' event
  pub handle_change : ℕ → List (Change Value) → Option Current → Exec Server (Unit {0})
  unfolding on_world set_current
  handle_change req cs (some c) = raise internal_error
  handle_change req cs none = do
    r ← on_world (run_change cs)
    set_current (some (record { id = req; handlers = r.1; user = r.0; revert_task = sleeping }))

  -- revert_task.cancel(), then `await revert_task`: a task that had ended by an exception raises it
  pub cancel_task : Current → Task → Exec Server (Unit {0})
  cancel_task c (failed e) s = (err e, s)
  cancel_task c _ s = (ok tt, record s { current = some (record c { revert_task = cancelled }) })

  pub revert_if : Bool → Current → Exec Server (Unit {0})
  unfolding on_world
  revert_if true c = on_world (revert_all (reverse c.handlers) c.user)
  revert_if false c = pure tt

  -- the 'done' event, and the 'abort' event where the flag is set
  pub finish : Bool → ℕ → Option Current → Exec Server (Unit {0})
  unfolding set_stop_event set_current cancel_task revert_if
  finish aborts req none = do set_stop_event; raise internal_error
  finish aborts req (some c) = do
    cancel_task c c.revert_task
    if c.id == req
        then (do revert_if aborts c; set_current none)
        else (do set_stop_event; raise internal_error)

  pub change_cb : EventName → ℕ → List (Change Value) → Exec Server (Unit {0})
  unfolding handle_change finish
  change_cb unknown req cs s = (ok tt, s)
  change_cb change req cs s = handle_change req cs s.current s
  change_cb done req cs s = finish false req s.current s
  change_cb abort req cs s = finish true req s.current s

  pub task_after : List Handler → Result (Unit {0}) → Task
  task_after hs (ok _) = reverting hs
  task_after hs (err e) = failed e

  -- The event loop resumes `do_revert` where the task stands; each `revert` runs as one step, so no
  -- cancellation comes inside one.
  pub resume : Current → Task → Server → Server
  unfolding task_after
  resume c sleeping s = record s {
    current = some (record c { revert_task = reverting (reverse c.handlers) });
  }
  resume c cancelled s = s
  resume c (failed e) s = s
  resume c (reverting []) s = record s { current = none }
  resume c (reverting (h ∷ hs)) s =
      let (r, w) = revert h c.user s.world in
      record s { current = some (record c { revert_task = task_after hs r }); world = w }

  pub do_revert : Server → Server
  unfolding resume
  do_revert s = elim s.current [ none ↦ s | some c ↦ resume c c.revert_task s ]

  -- What may happen next: an event from sysrepo, or the event loop runs the revert task, its first
  -- time when `revert_timeout` has passed.
  pub data Event : Type 0 where
    callback : EventName → ℕ → List (Change Value) → Event
    revert_task_runs : Event

  pub step : Server → Event → Server
  unfolding change_cb do_revert
  step s (callback name req cs) = (change_cb name req cs s).1
  step s revert_task_runs = do_revert s

  pub run : Server → List Event → Server
  run s [] = s
  run s (e ∷ es) = run (step s e) es
