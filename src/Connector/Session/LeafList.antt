-- ===== src/Connector/Session/LeafList.antt =====
-- Replacing a leaf-list: `set` of src/lib/goldstone/lib/connector/sysrepo.py with a list.
use goldstone_mgmt.Base.{
  ◌≡◌, ◌⊎◌, refl, sym, ap, ◌∙◌, Bool, true, false, not, ◌&&◌, ◌||◌, some, List, [], ◌∷◌, Result, ok,
  err, SysrepoClass, not_found, inval_arg, sysrepo_error, arith, inl, inr, if◌then◌else◌, ◌==◌,
  ==_iff, text_eq,
}
use goldstone_mgmt.Base.Exec.{lift, ◌>>◌, bind-ok}
use goldstone_mgmt.Base.Dict.{member}
use goldstone_mgmt.Base.Text.{Text, codes}
use goldstone_mgmt.Connector.Session.{
  Sysrepo, Session, list_value, text, wrap_result, wrap_sysrepo_error, find_node, difference,
  entry_path, delete, delete_entries, add_entries, get, get_body, read, strip_data, replace_entries,
  set_node, set_body, set,
}

difference-member :
    (xs w : List Text) (v : Text) → member (difference xs w) v ≡ (member xs v && not (member w v))
unfolding difference member
difference-member [] w v = refl
difference-member (x ∷ xs) w v = ground (arith, difference-member xs w v, ==_iff x v)

module _ (S : Sysrepo) where
  wrap_result-ok :
      {A : Type 0} (h : S.Handle) (r : Result A) (s : S.State) (a : A)
      → (wrap_result S h r s).0 ≡ ok a
      → (r ≡ ok a) × ((wrap_result S h r s).1 ≡ s)
  unfolding wrap_result
  wrap_result-ok h r s a k = ground arith

  -- what sysrepo and libyang document of a leaf-list that a session reads and changes
  pub record Entries (x : Session S) (xpath : Text) : Type 0 where
    pub has : S.State → Text → Bool
    pub read_members :
        (s : S.State) (d r : S.Data) (ts : List Text) (v : Text)
        → (S.get_data x.session xpath false s).0 ≡ ok d
        → S.xpath_get d xpath S.empty_list (x.ds == codes "operational") ≡ ok r
        → S.texts r ≡ ok ts
        → member ts v ≡ has s v
    pub absent_members :
        (s : S.State) (c : SysrepoClass) (v : Text)
        → (c ≡ not_found) ⊎ (c ≡ inval_arg)
        → (S.get_data x.session xpath false s).0 ≡ err (sysrepo_error c)
        → has s v ≡ false
    pub texts_empty : S.texts S.empty_list ≡ ok []
    pub read_keeps :
        (s : S.State) (v : Text) → has (S.get_data x.session xpath false s).1 v ≡ has s v
    pub set_adds :
        (s : S.State) (w v : Text)
        → (S.set_item x.session xpath (text w) s).0 ≡ ok tt
        → has (S.set_item x.session xpath (text w) s).1 v ≡ ((w == v) || has s v)
    pub delete_removes :
        (s : S.State) (w v : Text)
        → (S.delete_item x.session (entry_path xpath w) s).0 ≡ ok tt
        → has (S.delete_item x.session (entry_path xpath w) s).1 v
          ≡ (if w == v then false else has s v)
    pub iterate_members : (ws : List Text) (v : Text) → member (S.iterate ws) v ≡ member ws v

  module _ (x : Session S) (xpath : Text) (L : Entries x xpath) where
    delete_entries-has :
        (ws : List Text) (s : S.State) (v : Text)
        → (delete_entries S x xpath ws s).0 ≡ ok tt
        → L.has (delete_entries S x xpath ws s).1 v ≡ (if member ws v then false else L.has s v)
    unfolding delete_entries delete wrap_sysrepo_error member
    delete_entries-has [] s v h = refl
    delete_entries-has (w ∷ ws) s v h =
        let (a, deleted, path) = bind-ok (delete S x (entry_path xpath w)) _ s tt h in
        let done = wrap_result-ok x.session _ _ a deleted in
        let rest =
          delete_entries-has ws (delete S x (entry_path xpath w) s).1 v
            (sym (ap (λ p. p.0) path) ∙ h) in
        let one = L.delete_removes s w v done.0 in ground (arith, path, rest, one, done.1)

    add_entries-has :
        (ws : List Text) (s : S.State) (v : Text)
        → (add_entries S x xpath ws s).0 ≡ ok tt
        → L.has (add_entries S x xpath ws s).1 v ≡ (member ws v || L.has s v)
    unfolding add_entries member
    add_entries-has [] s v h = refl
    add_entries-has (w ∷ ws) s v h =
        let (a, added, path) = bind-ok (S.set_item x.session xpath (text w)) _ s tt h in
        let rest =
          add_entries-has ws (S.set_item x.session xpath (text w) s).1 v
            (sym (ap (λ p. p.0) path) ∙ h) in
        let one = L.set_adds s w v added in ground (arith, path, rest, one)

    read-has :
        (s : S.State) (q : Result S.Data) (r : S.Data) (ts : List Text) (v : Text)
        → (S.get_data x.session xpath false s).0 ≡ q
        → read S x.ds xpath S.empty_list true false q ≡ ok r
        → S.texts r ≡ ok ts
        → member ts v ≡ L.has s v
    unfolding read strip_data member
    read-has s (ok d) r ts v e h t = L.read_members s d r ts v e (ground (arith, h)) t
    read-has s (err (sysrepo_error not_found)) r ts v e h t =
        let gone = L.absent_members s not_found v (inl refl) e in
        ground (arith, h, t, gone, L.texts_empty)
    read-has s (err (sysrepo_error inval_arg)) r ts v e h t =
        let gone = L.absent_members s inval_arg v (inr refl) e in
        ground (arith, h, t, gone, L.texts_empty)
    read-has s (err c) r ts v e h t = absurd (ground (arith, h))

    get-has :
        (s : S.State) (r : S.Data) (ts : List Text) (v : Text)
        → (get S x xpath S.empty_list false true false s).0 ≡ ok r
        → S.texts r ≡ ok ts
        → (member ts v ≡ L.has s v)
          × (L.has (get S x xpath S.empty_list false true false s).1 v ≡ L.has s v)
    unfolding get wrap_sysrepo_error get_body read strip_data
    get-has s r ts v h t =
        let done = wrap_result-ok x.session _ _ r h in
        (read-has s _ r ts v refl done.0 t, rw (done.1) (L.read_keeps s v))

    replace_entries-has :
        (vs : List Text) (s : S.State) (v : Text)
        → (replace_entries S x xpath vs s).0 ≡ ok tt
        → L.has (replace_entries S x xpath vs s).1 v ≡ member vs v
    unfolding replace_entries
    replace_entries-has vs s v h =
        let (r, got, path) = bind-ok (get S x xpath S.empty_list false true false) _ s tt h in
        let s₁ = (get S x xpath S.empty_list false true false s).1 in
        let (old, kept, path₁) =
          bind-ok {A = List Text} (lift (S.texts r))
            (λ old.
              delete_entries S x xpath (S.iterate (difference old vs))
              >> add_entries S x xpath (S.iterate (difference vs old)))
            s₁ tt (sym (ap (λ p. p.0) path) ∙ h) in
        let (a, deleted, path₂) =
          bind-ok (delete_entries S x xpath (S.iterate (difference old vs))) _ s₁ tt
            (sym (ap (λ p. p.0) (path ∙ path₁)) ∙ h) in
        let s₂ = (delete_entries S x xpath (S.iterate (difference old vs)) s₁).1 in
        let added : (add_entries S x xpath (S.iterate (difference vs old)) s₂).0 ≡ ok tt =
          sym (ap (λ p. p.0) (path ∙ path₁ ∙ path₂)) ∙ h in
        let before = get-has s r old v got kept in
        let gone = delete_entries-has (S.iterate (difference old vs)) s₁ v deleted in
        let here = add_entries-has (S.iterate (difference vs old)) s₂ v added in
        ap (λ p. L.has p.1 v) (path ∙ path₁ ∙ path₂)
        ∙ ground (
          arith,
          before,
          gone,
          here,
          L.iterate_members (difference old vs) v,
          L.iterate_members (difference vs old) v,
          difference-member old vs v,
          difference-member vs old v,
        )

    -- A `set` that returns leaves a leaf-list with exactly the entries of the list that it was given.
    pub set-replaces :
        (n : S.Node) (vs : List Text) (s : S.State) (v : Text)
        → find_node S xpath ≡ ok (some n)
        → (S.keyword n == codes "leaf-list") ≡ true
        → (set S x xpath (list_value vs) s).0 ≡ ok tt
        → L.has (set S x xpath (list_value vs) s).1 v ≡ member vs v
    unfolding set wrap_sysrepo_error set_body set_node
    set-replaces n vs s v found kind h =
        let done = wrap_result-ok x.session _ _ tt h in
        let body : (set_body S x xpath (list_value vs) s ≡ replace_entries S x xpath vs s) =
          rw (found, set_body, set_node, kind) refl in
        rw (done.1, body) (replace_entries-has vs s v (sym (ap (λ p. p.0) body) ∙ done.0))
