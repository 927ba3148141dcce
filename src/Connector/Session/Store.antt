-- ===== src/Connector/Session/Store.antt =====
-- Which methods of the sessions of src/lib/goldstone/lib/connector/sysrepo.py leave the running
-- datastore alone.
use goldstone_mgmt.Base.{
  ◌≡◌, ◌∙◌, Bool, true, false, Option, none, some, List, [], ◌∷◌, Result, ok, arith, if◌then◌else◌,
  ◌==◌, text_eq,
}
use goldstone_mgmt.Base.Exec.{Exec}
use goldstone_mgmt.Base.Triple.{Keeps, Keeps-lift, Keeps-bind}
use goldstone_mgmt.Base.Text.{Text, codes}
use goldstone_mgmt.Connector.Session.{
  Sysrepo, Session, Value, list_value, text, single, wrap_result, wrap_sysrepo_error, get, get_body,
  set, set_body, set_node, replace_entries, delete, delete_entries, add_entries, new_session,
  difference,
}

module _ (S : Sysrepo) where
  -- what sysrepo documents: only `apply_changes` changes the datastore
  pub record OnlyApplies : Type 1 where
    pub Store : Type 0
    pub running : S.State → Store
    pub get_keeps :
        (h : S.Handle) (p : Text) (b : Bool) (s : S.State)
        → running (S.get_data h p b s).1 ≡ running s
    pub set_keeps :
        (h : S.Handle) (p : Text) (v : Value S.Data) (s : S.State)
        → running (S.set_item h p v s).1 ≡ running s
    pub delete_keeps :
        (h : S.Handle) (p : Text) (s : S.State) → running (S.delete_item h p s).1 ≡ running s
    pub discard_keeps : (h : S.Handle) (s : S.State) → running (S.discard_changes h s).1 ≡ running s
    pub start_keeps : (ds : Text) (s : S.State) → running (S.start_session ds s).1 ≡ running s

  module _ (L : OnlyApplies) where
    wrap_result-Keeps :
        {A : Type 0} (h : S.Handle) (r : Result A) → Keeps L.running (wrap_result S h r)
    unfolding wrap_result
    wrap_result-Keeps h r = record { at = λ s. grind (arith, L.discard_keeps h s) }

    wrap-Keeps :
        {A : Type 0} (h : S.Handle) {m : Exec S.State A}
        → Keeps L.running m
        → Keeps L.running (wrap_sysrepo_error S h m)
    unfolding wrap_sysrepo_error
    wrap-Keeps h {m} k = record { at = λ s. (wrap_result-Keeps h (m s).0).at (m s).1 ∙ k.at s }

    pub get-Keeps :
        (x : Session S) (p : Text) (d : S.Data) (b c o : Bool) → Keeps L.running (get S x p d b c o)
    unfolding get get_body
    get-Keeps x p d b c o = wrap-Keeps x.session (record { at = L.get_keeps x.session p b })

    pub delete-Keeps : (x : Session S) (p : Text) → Keeps L.running (delete S x p)
    unfolding delete
    delete-Keeps x p = wrap-Keeps x.session (record { at = L.delete_keeps x.session p })

    delete_entries-Keeps :
        (x : Session S) (p : Text) (vs : List Text) → Keeps L.running (delete_entries S x p vs)
    unfolding delete_entries
    delete_entries-Keeps x p [] = Keeps-lift (ok tt)
    delete_entries-Keeps x p (v ∷ vs) =
        Keeps-bind (delete-Keeps x _) (λ _. delete_entries-Keeps x p vs)

    item-Keeps :
        (x : Session S) (p : Text) (v : Value S.Data) → Keeps L.running (S.set_item x.session p v)
    item-Keeps x p v = record { at = L.set_keeps x.session p v }

    add_entries-Keeps :
        (x : Session S) (p : Text) (vs : List Text) → Keeps L.running (add_entries S x p vs)
    unfolding add_entries
    add_entries-Keeps x p [] = Keeps-lift (ok tt)
    add_entries-Keeps x p (v ∷ vs) = Keeps-bind (item-Keeps x p _) (λ _. add_entries-Keeps x p vs)

    replace_entries-Keeps :
        (x : Session S) (p : Text) (vs : List Text) → Keeps L.running (replace_entries S x p vs)
    unfolding replace_entries
    replace_entries-Keeps x p vs = Keeps-bind (get-Keeps x p _ false true false) (λ found.
        Keeps-bind (Keeps-lift (S.texts found)) (λ old.
          Keeps-bind (delete_entries-Keeps x p (S.iterate (difference old vs)))
            (λ _. add_entries-Keeps x p (S.iterate (difference vs old)))))

    set_node-Keeps :
        (x : Session S) (p : Text) (v : Value S.Data) (n : Option S.Node)
        → Keeps L.running (set_node S x p v n)
    unfolding set_node
    set_node-Keeps x p v none = Keeps-lift _
    set_node-Keeps x p (list_value vs) (some n) =
        elim (S.keyword n == codes "leaf-list")
          as (λ b.
            Keeps L.running
              (if b then replace_entries S x p vs else S.set_item x.session p (list_value vs))) [
                | true ↦ replace_entries-Keeps x p vs
                | false ↦ item-Keeps x p _
              ]
    set_node-Keeps x p (text v) (some n) = item-Keeps x p _
    set_node-Keeps x p (single v) (some n) = item-Keeps x p _

    pub set-Keeps : (x : Session S) (p : Text) (v : Value S.Data) → Keeps L.running (set S x p v)
    unfolding set set_body
    set-Keeps x p v = wrap-Keeps x.session (Keeps-bind (Keeps-lift _) (λ n. set_node-Keeps x p v n))

    pub new_session-Keeps : (ds : Text) → Keeps L.running (new_session S ds)
    unfolding new_session
    new_session-Keeps ds =
        Keeps-bind {m = S.start_session ds} (record { at = L.start_keeps ds })
          (λ h. Keeps-lift (ok (record { session = h; ds = ds })))
