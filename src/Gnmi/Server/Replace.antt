-- ===== src/Gnmi/Server/Replace.antt =====
-- What `gNMIServicer.Set` of src/north/gnmi/goldstone/north/gnmi/server.py does with a REPLACE.
use goldstone_mgmt.Base.{
  ℕ, suc, ◌≡◌, ◌≢◌, refl, ◌⊎◌, inl, inr, none, List, [], ◌∷◌, ◌++◌, ok, arith, Result-cases,
  returns-cases, Bool-cases, Option-cases,
}
use mathlib.Core.Path.{subst}
use goldstone_mgmt.Base.Exec.{Exec}
use goldstone_mgmt.Base.Triple.{Triple, Triple-bind}
use goldstone_mgmt.Gnmi.Paths.{PathElem}
use goldstone_mgmt.Gnmi.Repository.{Repository}
use goldstone_mgmt.Gnmi.Requests.{
  is_ok_status, replace_operation, update_operation, Request, value_request, exec,
}
use goldstone_mgmt.Gnmi.Requests.Replaces.{value_request-operation, exec-replace}
use goldstone_mgmt.Gnmi.Server.{
  Update, SetMessage, SetResponse, Progress, value_requests, delete_requests, collect_requests,
  collect_set_requests, exec_set_requests, exec_unless, apply_unless, discard_if, set_body,
  with_repository, after_stop, set,
}

module _ (R : Repository) where
  abbrev HasReplace : List (Request R) → Type 0
  HasReplace [] = ⊥
  HasReplace (r ∷ rs) = (r.operation ≡ replace_operation) ⊎ HasReplace rs

  HasReplace-right : (xs ys : List (Request R)) → HasReplace ys → HasReplace (xs ++ ys)
  HasReplace-right [] ys h = h
  HasReplace-right (x ∷ xs) ys h = inr (HasReplace-right xs ys h)

  HasReplace-left : (xs ys : List (Request R)) → HasReplace xs → HasReplace (xs ++ ys)
  HasReplace-left [] ys h = absurd h
  HasReplace-left (x ∷ xs) ys (inl e) = inl e
  HasReplace-left (x ∷ xs) ys (inr h) = inr (HasReplace-left xs ys h)

  -- A call that never returns without an error.
  abbrev Fails : Exec R.State (Progress R) → Type 0
  Fails m = Triple (λ s. Unit {0}) m (λ p s. p.error ≢ none) (λ s. Unit {0})

  anything :
      {A : Type 0} {P : R.State → Type 0} (m : Exec R.State A)
      → Triple P m (λ a s. Unit {0}) (λ s. Unit {0})
  anything m = record {
    at = λ s h. elim (Result-cases (m s).0) [ inl (a, e) ↦ rw e tt | inr (c, e) ↦ rw e tt ];
  }

  exec_set_requests-Fails :
      (i : ℕ) (rs : List (Request R)) → HasReplace rs → Fails (exec_set_requests R i rs)
  unfolding exec_set_requests
  exec_set_requests-Fails i [] h = absurd h
  exec_set_requests-Fails i (r ∷ rs) (inl e) = record {
    at = λ s _. rw (exec-replace R r.operation r s e) tt;
  }
  exec_set_requests-Fails i (r ∷ rs) (inr h) = Triple-bind (anything (exec R r.operation r)) λ code.
      elim (Bool-cases (is_ok_status code)) [
        | inl e ↦
            rw e (Triple-bind (exec_set_requests-Fails (suc i) rs h) λ p. record { at = λ s k. k })
        | inr e ↦ rw e (record { at = λ s _ k. ground (arith, k) })
      ]

  value_requests-HasReplace :
      (prefix : List PathElem) (us : List Update) (rs : List (Request R))
      → us ≢ []
      → value_requests R replace_operation prefix us ≡ ok rs
      → HasReplace rs
  unfolding value_requests
  value_requests-HasReplace prefix [] rs some_replace h = absurd (some_replace refl)
  value_requests-HasReplace prefix (u ∷ us) rs some_replace h =
      elim (Result-cases (value_request R replace_operation prefix u.path u.val)) [
        | inr (x, e) ↦ absurd (ground (arith, e, h))
        | inl (r, e) ↦ elim (Result-cases (value_requests R replace_operation prefix us)) [
          | inr (x, k) ↦ absurd (ground (arith, e, k, h))
          | inl (qs, k) ↦
              let all : r ∷ qs ≡ rs = ground (arith, e, k, h) in
              subst HasReplace all
                (inl (value_request-operation R replace_operation prefix u.path u.val r e))
        ]
      ]

  collect_requests-HasReplace :
      (m : SetMessage) (rs : List (Request R))
      → m.replace ≢ []
      → collect_requests R m ≡ ok rs
      → HasReplace rs
  unfolding collect_requests
  collect_requests-HasReplace m rs some_replace h =
      elim (Result-cases (value_requests R replace_operation m.prefix m.replace)) [
        | inr (x, e) ↦ absurd (ground (arith, e, h))
        | inl (replaces, e) ↦
            elim (Result-cases (value_requests R update_operation m.prefix m.update)) [
              | inr (x, k) ↦ absurd (ground (arith, e, k, h))
              | inl (updates, k) ↦
                  let all : delete_requests R m.prefix m.delete ++ replaces ++ updates ≡ rs =
                    ground (arith, e, k, h) in
                  subst HasReplace all (
                    HasReplace-left (delete_requests R m.prefix m.delete ++ replaces) updates (
                      HasReplace-right (delete_requests R m.prefix m.delete) replaces
                        (value_requests-HasReplace m.prefix m.replace replaces some_replace e)))
            ]
      ]

  collected-HasReplace :
      (m : SetMessage)
      → m.replace ≢ []
      → Triple
          (λ s. Unit {0})
          (collect_set_requests R m)
          (λ p s. HasReplace p.requests)
          (λ s. Unit {0})
  unfolding collect_set_requests
  collected-HasReplace m some_replace = record {
    at = λ s _. elim (Result-cases (collect_requests R m)) [
      | inl (rs, e) ↦ rw e (collect_requests-HasReplace m rs some_replace e)
      | inr (x, e) ↦ rw e tt
    ];
  }

  exec_unless-Fails :
      (p : Progress R)
      → Triple
          (λ s. HasReplace p.requests)
          (exec_unless R p.error p)
          (λ q s. q.error ≢ none)
          (λ s. Unit {0})
  unfolding exec_unless
  exec_unless-Fails p = elim (Option-cases p.error) [
    | inr (c, e) ↦ rw e (record { at = λ s h k. ground (arith, k) })
    | inl e ↦ rw e (record { at = λ s h. (exec_set_requests-Fails 0 p.requests h).at s tt })
  ]

  apply_unless-Fails :
      (p : Progress R)
      → Triple
          (λ s. p.error ≢ none)
          (apply_unless R p.error p)
          (λ q s. q.error ≢ none)
          (λ s. Unit {0})
  unfolding apply_unless
  apply_unless-Fails p = elim (Option-cases p.error) [
    | inr (c, e) ↦ rw e (record { at = λ s h. h })
    | inl e ↦ rw e (record { at = λ s h. absurd (h refl) })
  ]

  discard_if-Fails :
      (p : Progress R)
      → Triple
          (λ s. p.error ≢ none)
          (discard_if R p.error p)
          (λ q s. q.error ≢ none)
          (λ s. Unit {0})
  unfolding discard_if
  discard_if-Fails p = elim (Option-cases p.error) [
    | inr (c, e) ↦
        rw e (Triple-bind (anything R.discard) λ _. record { at = λ s _ k. ground (arith, k) })
    | inl e ↦ rw e (record { at = λ s h. absurd (h refl) })
  ]

  set_body-Fails : (m : SetMessage) → m.replace ≢ [] → Fails (set_body R m)
  unfolding set_body
  set_body-Fails m some_replace = Triple-bind (anything R.start) λ _.
      Triple-bind (collected-HasReplace m some_replace) λ p.
        Triple-bind (exec_unless-Fails p) λ q. Triple-bind (apply_unless-Fails q) discard_if-Fails

  -- `Set` never succeeds with a REPLACE in its message: it raises or responds with an error.
  pub replace_fails :
      (m : SetMessage) (w : R.State) (r : SetResponse)
      → m.replace ≢ []
      → (set R m w).0 ≡ ok r
      → r.error ≢ none
  unfolding set with_repository after_stop
  replace_fails m w r some_replace h =
      let body = (set_body-Fails m some_replace).at w tt in
      let w' = (set_body R m w).1 in
      elim (Result-cases (set_body R m w).0) [
        | inr (x, e) ↦ elim (returns-cases (R.stop w').0) [
          | inl k ↦ absurd (ground (arith, rw (e, k) at h))
          | inr (y, k) ↦ absurd (ground (arith, rw (e, k) at h))
        ]
        | inl (p, e) ↦ elim (returns-cases (R.stop w').0) [
          | inl k ↦
              let failed : p.error ≢ none = rw e at body in
              let result = rw (e, k) at h in λ t. failed (ground (arith, result, t))
          | inr (y, k) ↦ absurd (ground (arith, rw (e, k) at h))
        ]
      ]
