-- ===== src/Gnmi/Requests/Keeps.antt =====
-- The requests of src/north/gnmi/goldstone/north/gnmi/server.py only prepare changes.
use goldstone_mgmt.Base.{◌≡◌, inl, inr, [], ◌∷◌, Option, ◌∙◌, Result-cases}
use goldstone_mgmt.Base.Dict.{Dict}
use goldstone_mgmt.Base.Exec.{Exec}
use goldstone_mgmt.Base.Text.{Text}
use goldstone_mgmt.Base.Triple.{Triple, Triple-pure, Triple-bind}
use goldstone_mgmt.Telemetry.Path.Values.{Value, Items, nil, cons, scalar, obj, arr}
use goldstone_mgmt.Gnmi.Repository.{Repository, IsTransactional}
use goldstone_mgmt.Gnmi.Requests.{
  Operation, delete_operation, replace_operation, update_operation, Request, exec, set_items,
  set_value, set_leaves,
}

module _ (R : Repository) {V : Type 0} (view : R.State → V) where
  -- The device shows `v` before and after a call, also one that raises.
  abbrev pub Quiet : {A : Type 0} → V → Exec R.State A → Type 0
  Quiet v m = Triple (λ s. view s ≡ v) m (λ a s. view s ≡ v) (λ s. view s ≡ v)

  pub Quiet-of :
      {A : Type 0} (v : V) (m : Exec R.State A)
      → ((s : R.State) → view (m s).1 ≡ view s)
      → Quiet v m
  Quiet-of v m k = record {
    at = λ s h. elim (Result-cases (m s).0) [
      | inl (a, e) ↦ rw e (k s ∙ h)
      | inr (c, e) ↦ rw e (k s ∙ h)
    ];
  }

  module _ (laws : IsTransactional R view) where
    set_items-Quiet :
        (v : V) (path : Option Text) (vs : Items R.Scalar) → Quiet v (set_items R path vs)
    unfolding set_items
    set_items-Quiet v path nil = Triple-pure tt
    set_items-Quiet v path (cons x xs) =
        Triple-bind (Quiet-of v (R.set path x) (laws.set_keeps path x))
          λ _. set_items-Quiet v path xs

    set_value-Quiet :
        (v : V) (path : Option Text) (x : Value R.Scalar) → Quiet v (set_value R path x)
    unfolding set_value
    set_value-Quiet v path (arr xs) = set_items-Quiet v path xs
    set_value-Quiet v path (scalar x) =
        Quiet-of v (R.set path (scalar x)) (laws.set_keeps path (scalar x))
    set_value-Quiet v path (obj fs) =
        Quiet-of v (R.set path (obj fs)) (laws.set_keeps path (obj fs))

    set_leaves-Quiet :
        (v : V) (leaves : Dict (Option Text) (Value R.Scalar)) → Quiet v (set_leaves R leaves)
    unfolding set_leaves
    set_leaves-Quiet v [] = Triple-pure tt
    set_leaves-Quiet v ((p, x) ∷ leaves) =
        Triple-bind (set_value-Quiet v p x) λ _. set_leaves-Quiet v leaves

    pub exec-Quiet : (v : V) (op : Operation) (r : Request R) → Quiet v (exec R op r)
    unfolding exec
    exec-Quiet v delete_operation r = record { at = λ s h. laws.delete_keeps r.xpath s ∙ h }
    exec-Quiet v replace_operation r = record { at = λ s h. h }
    exec-Quiet v update_operation r = record {
      at = λ s h. elim (Result-cases (set_leaves R r.leaves s).0) [
        | inl (a, e) ↦ let q = (set_leaves-Quiet v r.leaves).at s h in rw e at q
        | inr (c, e) ↦ let q = (set_leaves-Quiet v r.leaves).at s h in rw e at q
      ];
    }
