-- ===== src/Gnmi/Server/Set.antt =====
-- `gNMIServicer.Set` of src/north/gnmi/goldstone/north/gnmi/server.py: all or nothing.
use goldstone_mgmt.Base.{
  ◌≡◌, ◌≢◌, refl, ◌⊎◌, inl, inr, Option, none, some, List, Result, ok, err, Exn, apply_failed,
  arith, Result-cases, returns-cases, Option-cases, ◌∙◌,
}
use goldstone_mgmt.Base.Triple.{Triple, Triple-bind}
use goldstone_mgmt.Gnmi.Repository.{Repository, IsTransactional}
use goldstone_mgmt.Gnmi.Requests.{StatusCode, status_aborted, Operation}
use goldstone_mgmt.Gnmi.Requests.Keeps.{Quiet-of}
use goldstone_mgmt.Gnmi.Server.{
  SetMessage, SetResponse, Progress, collect_requests, collect_set_requests, applied,
  apply_set_requests, exec_unless, apply_unless, discard_if, set_body, results_of, after_stop,
  with_repository, set,
}
use goldstone_mgmt.Gnmi.Server.Atomic.{
  AllOk, NoneOk, IsProgress, aborted-NoneOk, failed_from-Marked, failed_from-AllOk,
  exec_set_requests-IsProgress,
}

module _ (R : Repository) {V : Type 0} (view : R.State → V) where
  -- What is known of the requests and of the repository, before and after `apply`.
  abbrev IsPending : V → Progress R → R.State → Type 0
  IsPending v p s = IsProgress R 0 p × (view s ≡ v)

  abbrev IsApplied : V → Progress R → R.State → Type 0
  IsApplied v p s = IsProgress R 0 p × (p.error ≢ none → view s ≡ v)

  -- The response of a call that found `v`: without an error all results are OK; with an error none
  -- is, and the repository shows `v`.
  abbrev pub Answers : Option StatusCode → List (Operation × StatusCode) → V → V → Type 0
  Answers none results v v' = AllOk results
  Answers (some c) results v v' = NoneOk results × (v' ≡ v)

  abbrev pub IsAtomic : Result SetResponse → V → V → Type 0
  IsAtomic (ok r) v v' = Answers r.error r.results v v'
  IsAtomic (err e) v v' = v' ≡ v

  module _ (laws : IsTransactional R view) where
    collect-IsPending :
        (v : V) (m : SetMessage)
        → Triple (λ s. view s ≡ v) (collect_set_requests R m) (IsPending v) (λ s. view s ≡ v)
    unfolding collect_set_requests
    collect-IsPending v m = record {
      at = λ s h. elim (Result-cases (collect_requests R m)) [
        | inr (e, k) ↦ rw k h
        | inl (rs, k) ↦ rw k (
          record {
            marked = failed_from-Marked R 0 rs;
            above = λ j t. omega arith;
            fine = λ t. failed_from-AllOk R 0 rs t;
          },
          h,
        )
      ];
    }

    exec_unless-IsPending :
        (v : V) (p : Progress R)
        → Triple (IsPending v p) (exec_unless R p.error p) (IsPending v) (λ s. view s ≡ v)
    unfolding exec_unless
    exec_unless-IsPending v p = elim (Option-cases p.error) [
      | inr (c, e) ↦ rw e (record { at = λ s h. h })
      | inl e ↦ rw e (record {
        at = λ s h. (exec_set_requests-IsProgress R view laws v 0 p.requests).at s h.1;
      })
    ]

    applied-err :
        (e : Exn) → (applied R (err e) ≡ ok (some status_aborted)) ⊎ (applied R (err e) ≡ err e)
    unfolding applied
    applied-err apply_failed = inl refl
    applied-err _ = inr refl

    apply_unless-IsApplied :
        (v : V) (p : Progress R)
        → Triple (IsPending v p) (apply_unless R p.error p) (IsApplied v) (λ s. view s ≡ v)
    unfolding apply_unless apply_set_requests
    apply_unless-IsApplied v p = elim (Option-cases p.error) [
      | inr (c, e) ↦ rw e (record { at = λ s h. (h.0, λ _. h.1) })
      | inl e ↦ rw e (record {
        at = λ s h. elim (returns-cases (R.apply s).0) [
          | inl k ↦ rw k (
            record { marked = h.0.marked; above = h.0.above; fine = λ t. h.0.fine refl },
            λ no. absurd (no refl),
          )
          | inr (x, k) ↦ rw k (elim (applied-err x) [
            | inr a ↦ rw a (laws.apply_fails s x k ∙ h.1)
            | inl a ↦ rw a (
              record {
                marked = h.0.marked;
                above = h.0.above;
                fine = λ t. absurd (ground (arith, t));
              },
              λ no. laws.apply_fails s x k ∙ h.1,
            )
          ])
        ];
      })
    ]

    discard_if-Answers :
        (v : V) (p : Progress R)
        → Triple
            (IsApplied v p)
            (discard_if R p.error p)
            (λ q s. Answers q.error (results_of R q.requests) v (view s))
            (λ s. view s ≡ v)
    unfolding discard_if
    discard_if-Answers v p = elim (Option-cases p.error) [
      | inl e ↦ rw e (record { at = λ s h. h.0.fine refl })
      | inr (c, e) ↦ rw e (record {
        at = λ s h.
            let back = laws.discard_keeps s ∙ h.1 λ t. ground (arith, t) in
            elim (returns-cases (R.discard s).0) [
              | inl k ↦ rw k (aborted-NoneOk R 0 p.error_requests p.requests h.0.marked, back)
              | inr (x, k) ↦ rw k back
            ];
      })
    ]

    set_body-Answers :
        (v : V) (m : SetMessage)
        → Triple
            (λ s. view s ≡ v)
            (set_body R m)
            (λ q s. Answers q.error (results_of R q.requests) v (view s))
            (λ s. view s ≡ v)
    unfolding set_body
    set_body-Answers v m = Triple-bind (Quiet-of R view v R.start laws.start_keeps) λ _.
        Triple-bind (collect-IsPending v m) λ p.
          Triple-bind (exec_unless-IsPending v p)
            λ q. Triple-bind (apply_unless-IsApplied v q) (discard_if-Answers v)

    -- Let `start`, `stop`, `set`, `delete`, `discard` and a failing `apply` leave what the repository
    -- shows, and let `stop` not raise. Then `Set` is all or nothing: with no error in its response
    -- every result is OK; with an error no result is OK and the repository shows what it showed
    -- before; and an exception leaves it so, too.
    pub set-IsAtomic :
        (m : SetMessage) (w : R.State) → IsAtomic (set R m w).0 (view w) (view (set R m w).1)
    unfolding set with_repository after_stop
    set-IsAtomic m w =
        let body = (set_body-Answers (view w) m).at w refl in
        let w' = (set_body R m w).1 in
        elim (Result-cases (set_body R m w).0) [
          | inl (p, e) ↦ rw (laws.stop_returns w', e, laws.stop_keeps w') (rw e at body)
          | inr (x, e) ↦ rw (laws.stop_returns w', e, laws.stop_keeps w') (rw e at body)
        ]
