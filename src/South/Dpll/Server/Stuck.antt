-- ===== src/South/Dpll/Server/Stuck.antt =====
-- What `revert` of src/south/dpll/goldstone/south/dpll/dpll.py does to a DPLL server whose client
-- went away, with src/lib/goldstone/lib/core.py.
use goldstone_mgmt.Base.{
  ℕ, ◌≡◌, refl, ◌⊎◌, inl, inr, false, some, List, [], ◌∷◌, reverse, ok, err, attribute_error,
  internal_error, ◌==◌, text_eq, nat_eq, arith, sym,
}
use mathlib.Core.Path.{subst}
use goldstone_mgmt.Base.Dict
use goldstone_mgmt.Base.Text.{Text}
use goldstone_mgmt.Core.{
  Server, Current, Handler, object, sleeping, failed, Event, revert_task_runs, run, change_cb,
  change, done, abort, Change,
}
use goldstone_mgmt.Core.Handlers.{XpathStep}
use goldstone_mgmt.Core.Phase.{pending}
use goldstone_mgmt.Core.Failures.{failed_task_sticks, failed_revert_path}
use goldstone_mgmt.South.Dpll.{Taish, World, Attributes, tai_attr_names, revert_values}
use goldstone_mgmt.South.Dpll.Server.{revert, revert_attributes, load, dpll_server}

-- Two lists of values, one for each name, that differ at some name.
abbrev pub Differ : List Text → List Text → List Text → Type 0
Differ (n ∷ ns) (f ∷ fs) (t ∷ ts) = ((f == t) ≡ false) ⊎ Differ ns fs ts
Differ _ _ _ = ⊥

module _ (T : Taish) where
  revert_values-err :
      (ns fs ts : List Text) → Differ ns fs ts → revert_values T ns fs ts ≡ err attribute_error
  unfolding revert_values
  revert_values-err [] fs ts h = absurd h
  revert_values-err (n ∷ ns) [] ts h = absurd h
  revert_values-err (n ∷ ns) (f ∷ fs) [] h = absurd h
  revert_values-err (n ∷ ns) (f ∷ fs) (t ∷ ts) (inl e) = rw e refl
  revert_values-err (n ∷ ns) (f ∷ fs) (t ∷ ts) (inr h) =
      ground (arith, revert_values-err ns fs ts h)

  load-stored :
      (o : ℕ) (w : World T) (a : Attributes)
      → Dict.get w.objects o ≡ some a
      → load T o w ≡ (ok a, w)
  unfolding load
  load-stored o w a e = rw (e, load) refl

  revert_attributes-err :
      (a : Attributes) (original : List Text) (w : World T)
      → a.original_value ≡ some original
      → revert_values T (tai_attr_names a.handler_class) original a.value ≡ err attribute_error
      → revert_attributes T a a.original_value w ≡ (err attribute_error, w)
  unfolding revert_attributes
  revert_attributes-err a original w known stuck = rw known (rw (stuck, revert_attributes) refl)

  -- The handler has applied a change of some attribute.
  pub record HasChanged (o : ℕ) (w : World T) : Type 0 where
    pub attributes : Attributes
    pub stored : Dict.get w.objects o ≡ some attributes
    pub original : List Text
    pub known : attributes.original_value ≡ some original
    pub differs : Differ (tai_attr_names attributes.handler_class) original attributes.value

  -- `revert` of a handler that changed an attribute raises AttributeError and reverts nothing.
  pub revert-err : (o : ℕ) (w : World T) → HasChanged o w → revert T o w ≡ (err attribute_error, w)
  unfolding revert
  revert-err o w h =
      let stuck =
        revert_values-err (tai_attr_names h.attributes.handler_class) h.original h.attributes.value
          h.differs in
      rw
        (
          load-stored o w h.attributes h.stored,
          load,
          revert_attributes-err h.attributes h.original w h.known stuck,
        )
        refl

  module _ (xpath_split : Text → List XpathStep) where
    -- When the client of a request goes away after its last handler has changed an attribute, and
    -- the revert task has run twice, the server never changes again: every later 'change' is
    -- refused, and every 'done' or 'abort' raises the AttributeError of the task.
    pub timeout_sticks :
        (s : Server (dpll_server T xpath_split)) (c : Current (dpll_server T xpath_split)) (o : ℕ)
        (rest : List (Handler (dpll_server T xpath_split)))
        (events : List (Event (dpll_server T xpath_split))) (i : ℕ) (cs : List (Change Text))
        → s.current ≡ some c
        → c.revert_task ≡ sleeping
        → reverse c.handlers ≡ object o ∷ rest
        → HasChanged o s.world
        → let t = run (dpll_server T xpath_split) s (revert_task_runs ∷ revert_task_runs ∷ []) in
          (t.world ≡ s.world)
          × (run (dpll_server T xpath_split) t events ≡ t)
          × (change_cb (dpll_server T xpath_split) change i cs t ≡ (err internal_error, t))
          × (change_cb (dpll_server T xpath_split) done i cs t ≡ (err attribute_error, t))
          × (change_cb (dpll_server T xpath_split) abort i cs t ≡ (err attribute_error, t))
    timeout_sticks s c o rest events i cs held asleep last h =
        let P = dpll_server T xpath_split in
        let at =
          failed_revert_path P s c o rest attribute_error s.world held asleep last
            (revert-err o s.world h) in
        let left = pending P c.id c.handlers c.user (failed attribute_error) s.stopped s.world in
        let stuck =
          failed_task_sticks P left (record c { revert_task = failed attribute_error })
            attribute_error events i cs (unfold pending in refl) refl in
        subst
          (λ t.
            (t.world ≡ s.world)
            × (run P t events ≡ t)
            × (change_cb P change i cs t ≡ (err internal_error, t))
            × (change_cb P done i cs t ≡ (err attribute_error, t))
            × (change_cb P abort i cs t ≡ (err attribute_error, t)))
          (sym at) (unfold pending in refl, stuck.0, stuck.1, stuck.2, stuck.3)
