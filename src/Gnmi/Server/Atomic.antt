-- ===== src/Gnmi/Server/Atomic.antt =====
-- `gNMIServicer.Set` of src/north/gnmi/goldstone/north/gnmi/server.py is one transaction.
use goldstone_mgmt.Base.{
  ℕ, suc, ◌≤◌, ◌<◌, ◌≡◌, refl, inl, inr, true, false, none, some, List, [], ◌∷◌, nat_eq, ==_iff,
  arith, Bool-cases,
}
use goldstone_mgmt.Base.Dict.{member}
use goldstone_mgmt.Base.Triple.{Triple, Triple-bind}
use goldstone_mgmt.Gnmi.Repository.{Repository, IsTransactional}
use goldstone_mgmt.Gnmi.Requests.{StatusCode, status_aborted, is_ok_status, Operation, Request}
use goldstone_mgmt.Gnmi.Requests.Keeps.{exec-Quiet}
use goldstone_mgmt.Gnmi.Server.{
  Progress, failed_from, error_of, exec_set_requests, set_status_code_aborted, results_of,
}

-- The status of every result is OK, or of none.
abbrev pub AllOk : List (Operation × StatusCode) → Type 0
AllOk [] = Unit
AllOk ((op, code) ∷ rs) = (is_ok_status code ≡ true) × AllOk rs

abbrev pub NoneOk : List (Operation × StatusCode) → Type 0
NoneOk [] = Unit
NoneOk ((op, code) ∷ rs) = (is_ok_status code ≡ false) × NoneOk rs

module _ (R : Repository) where
  -- The failed requests are among those whose status is not OK.
  abbrev pub Marked : ℕ → List ℕ → List (Request R) → Type 0
  Marked i failed [] = Unit
  Marked i failed (r ∷ rs) =
      (member failed i ≡ true → is_ok_status r.status ≡ false) × Marked (suc i) failed rs

  pub aborted-NoneOk :
      (i : ℕ) (failed : List ℕ) (rs : List (Request R))
      → Marked i failed rs
      → NoneOk (results_of R (set_status_code_aborted R i failed rs))
  unfolding set_status_code_aborted results_of
  aborted-NoneOk i failed [] h = tt
  aborted-NoneOk i failed (r ∷ rs) h = (
    elim (Bool-cases (member failed i)) [ inl e ↦ rw e (h.0 e) | inr e ↦ rw e refl ],
    aborted-NoneOk (suc i) failed rs h.1,
  )

  -- An earlier position marks nothing.
  Marked-earlier :
      (i j : ℕ) (failed : List ℕ) (rs : List (Request R))
      → i < j
      → Marked j failed rs
      → Marked j (i ∷ failed) rs
  Marked-earlier i j failed [] l h = tt
  Marked-earlier i j failed (r ∷ rs) l h = (
    λ m. h.0 (unfold member in ground (arith, l, m, ==_iff i j)),
    Marked-earlier i (suc j) failed rs (omega (arith, l)) h.1,
  )

  Marked-none : (j : ℕ) (rs : List (Request R)) → Marked j [] rs
  Marked-none j [] = tt
  Marked-none j (r ∷ rs) = (λ m. unfold member in absurd (ground arith), Marked-none (suc j) rs)

  failed_from-above :
      (i j : ℕ) (rs : List (Request R)) → member (failed_from R i rs) j ≡ true → i ≤ j
  unfolding failed_from member
  failed_from-above i j [] h = absurd (ground arith)
  failed_from-above i j (r ∷ rs) h = ground (arith, h, failed_from-above (suc i) j rs, ==_iff i j)

  pub failed_from-Marked : (i : ℕ) (rs : List (Request R)) → Marked i (failed_from R i rs) rs
  unfolding failed_from
  failed_from-Marked i [] = tt
  failed_from-Marked i (r ∷ rs) = elim (Bool-cases (is_ok_status r.status)) [
    | inl e ↦ rw e (
      λ m. let above = failed_from-above (suc i) i rs m in absurd (omega (arith, above)),
      failed_from-Marked (suc i) rs,
    )
    | inr e ↦ rw e (
      λ m. refl,
      Marked-earlier i (suc i) (failed_from R (suc i) rs) rs (omega arith)
          (failed_from-Marked (suc i) rs),
    )
  ]

  -- What the two loops over the requests return.
  pub record IsProgress (i : ℕ) (p : Progress R) : Type 0 where
    pub marked : Marked i p.error_requests p.requests
    pub above : (j : ℕ) → member p.error_requests j ≡ true → i ≤ j
    pub fine : p.error ≡ none → AllOk (results_of R p.requests)

  pub failed_from-AllOk :
      (i : ℕ) (rs : List (Request R))
      → error_of R (failed_from R i rs) ≡ none
      → AllOk (results_of R rs)
  unfolding failed_from error_of results_of
  failed_from-AllOk i [] h = tt
  failed_from-AllOk i (r ∷ rs) h = elim (Bool-cases (is_ok_status r.status)) [
    | inl e ↦ (e, failed_from-AllOk (suc i) rs (rw e at h))
    | inr e ↦ absurd (ground (arith, e, h))
  ]

  failed-IsProgress :
      (i : ℕ) (r : Request R) (rs : List (Request R)) (code : StatusCode)
      → is_ok_status code ≡ false
      → IsProgress i (record {
        requests = record r { status = code } ∷ rs;
        error_requests = i ∷ [];
        error = some status_aborted;
      })
  failed-IsProgress i r rs code e = record {
    marked = (λ m. e, Marked-earlier i (suc i) [] rs (omega arith) (Marked-none (suc i) rs));
    above = λ j m. unfold member in ground (arith, m, ==_iff i j);
    fine = λ k. absurd (ground (arith, k));
  }

  next-IsProgress :
      (i : ℕ) (r : Request R) (p : Progress R) (code : StatusCode)
      → is_ok_status code ≡ true
      → IsProgress (suc i) p
      → IsProgress i (record p { requests = record r { status = code } ∷ p.requests })
  unfolding results_of
  next-IsProgress i r p code e h = record {
    marked = (λ m. let later = h.above i m in absurd (omega (arith, later)), h.marked);
    above = λ j m. let later = h.above j m in omega (arith, later);
    fine = λ k. (e, h.fine k);
  }

  module _ {V : Type 0} (view : R.State → V) (laws : IsTransactional R view) where
    pub exec_set_requests-IsProgress :
        (v : V) (i : ℕ) (rs : List (Request R))
        → Triple
            (λ s. view s ≡ v)
            (exec_set_requests R i rs)
            (λ p s. IsProgress i p × (view s ≡ v))
            (λ s. view s ≡ v)
    unfolding exec_set_requests
    exec_set_requests-IsProgress v i [] = record {
      at = λ s h. (
        record {
          marked = tt;
          above = λ j m. unfold member in absurd (ground arith);
          fine = λ k. unfold results_of in tt;
        },
        h,
      );
    }
    exec_set_requests-IsProgress v i (r ∷ rs) =
        Triple-bind (exec-Quiet R view laws v r.operation r) λ code.
          elim (Bool-cases (is_ok_status code)) [
            | inl e ↦ rw e (
                Triple-bind (exec_set_requests-IsProgress v (suc i) rs)
                  λ p. record { at = λ s h. (next-IsProgress i r p code e h.0, h.1) })
            | inr e ↦ rw e (record { at = λ s h. (failed-IsProgress i r rs code e, h) })
          ]
