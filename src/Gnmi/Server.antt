-- ===== src/Gnmi/Server.antt =====
-- `gNMIServicer.Set` of src/north/gnmi/goldstone/north/gnmi/server.py. A request is named by its
-- position, since Python's `in` goes by identity there.
pub mod Atomic
pub mod Set
pub mod Replace
pub mod Tests
use goldstone_mgmt.Base.{
  ℕ, zero, suc, Bool, true, false, Option, none, some, List, [], ◌∷◌, ◌++◌, Result, ok, err, Exn,
  apply_failed, if◌then◌else◌, nat_eq,
}
use goldstone_mgmt.Base.Dict.{member}
use goldstone_mgmt.Base.Exec.{Exec, pure, raise, lift, ◌>>=◌, ◌>>◌}
use goldstone_mgmt.Gnmi.Paths.{PathElem}
use goldstone_mgmt.Gnmi.Repository.{Repository}
use goldstone_mgmt.Gnmi.Requests.{
  StatusCode, status_ok, status_aborted, is_ok_status, TypedValue, Operation, delete_operation,
  replace_operation, update_operation, Request, delete_request, value_request, exec,
}

-- gnmi_pb2.Update and gnmi_pb2.SetRequest
pub record Update : Type 0 where
  pub path : List PathElem
  pub val : TypedValue

pub record SetMessage : Type 0 where
  pub prefix : List PathElem
  pub delete : List (List PathElem)
  pub replace : List Update
  pub update : List Update

-- gnmi_pb2.SetResponse: the operations with their status, and the code of the error
pub record SetResponse : Type 0 where
  pub results : List (Operation × StatusCode)
  pub error : Option StatusCode

module _ (R : Repository) where
  pub delete_requests : List PathElem → List (List PathElem) → List (Request R)
  delete_requests prefix [] = []
  delete_requests prefix (path ∷ paths) =
      delete_request R prefix path ∷ delete_requests prefix paths

  pub value_requests : Operation → List PathElem → List Update → Result (List (Request R))
  value_requests op prefix [] = ok []
  value_requests op prefix (u ∷ us) = elim (value_request R op prefix u.path u.val) [
    | err e ↦ err e
    | ok r ↦ elim (value_requests op prefix us) [ err e ↦ err e | ok rs ↦ ok (r ∷ rs) ]
  ]

  -- the positions, from `i` on, of the requests whose status is not OK
  pub failed_from : ℕ → List (Request R) → List ℕ
  failed_from i [] = []
  failed_from i (r ∷ rs) =
      let rest = failed_from (suc i) rs in if is_ok_status r.status then rest else i ∷ rest

  pub error_of : List ℕ → Option StatusCode
  error_of [] = none
  error_of (i ∷ is) = some status_aborted

  -- the requests in the order of `_collect_set_requests`
  pub collect_requests : SetMessage → Result (List (Request R))
  unfolding delete_requests value_requests
  collect_requests m = elim (value_requests replace_operation m.prefix m.replace) [
    | err e ↦ err e
    | ok replaces ↦ elim (value_requests update_operation m.prefix m.update) [
      | err e ↦ err e
      | ok updates ↦ ok (delete_requests m.prefix m.delete ++ replaces ++ updates)
    ]
  ]

  -- The requests with their status, the failed ones, and the error.
  pub record Progress : Type 0 where
    pub requests : List (Request R)
    pub error_requests : List ℕ
    pub error : Option StatusCode

  -- `_collect_set_requests`
  pub collect_set_requests : SetMessage → Exec R.State Progress
  unfolding collect_requests failed_from error_of
  collect_set_requests m = do
    requests ← lift (collect_requests m)
    pure (record {
      requests = requests;
      error_requests = failed_from 0 requests;
      error = error_of (failed_from 0 requests);
    })

  -- `_exec_set_requests` from position `i` on: stops at the first request that fails
  pub exec_set_requests : ℕ → List (Request R) → Exec R.State Progress
  exec_set_requests i [] = pure (record { requests = []; error_requests = []; error = none })
  exec_set_requests i (r ∷ rs) = do
    code ← exec R r.operation r
    if is_ok_status code
        then (do
          rest ← exec_set_requests (suc i) rs
          pure (record rest { requests = record r { status = code } ∷ rest.requests }))
        else pure (record {
          requests = record r { status = code } ∷ rs;
          error_requests = i ∷ [];
          error = some status_aborted;
        })

  -- `_set_status_code_aborted` from position `i` on
  pub set_status_code_aborted : ℕ → List ℕ → List (Request R) → List (Request R)
  set_status_code_aborted i failed [] = []
  set_status_code_aborted i failed (r ∷ rs) =
      let rest = set_status_code_aborted (suc i) failed rs in
      (if member failed i then r else record r { status = status_aborted }) ∷ rest

  pub applied : Result (Unit {0}) → Result (Option StatusCode)
  applied (ok _) = ok none
  applied (err apply_failed) = ok (some status_aborted)
  applied (err e) = err e

  -- `_apply_set_requests`
  pub apply_set_requests : Exec R.State (Option StatusCode)
  unfolding applied
  apply_set_requests w = let (r, w') = R.apply w in (applied r, w')

  pub exec_unless : Option StatusCode → Progress → Exec R.State Progress
  unfolding exec_set_requests
  exec_unless none p = exec_set_requests 0 p.requests
  exec_unless (some c) p = pure p

  pub apply_unless : Option StatusCode → Progress → Exec R.State Progress
  unfolding apply_set_requests
  apply_unless none p = do error ← apply_set_requests; pure (record p { error = error })
  apply_unless (some c) p = pure p

  pub discard_if : Option StatusCode → Progress → Exec R.State Progress
  unfolding set_status_code_aborted
  discard_if none p = pure p
  discard_if (some c) p = do
    R.discard
    pure (record p { requests = set_status_code_aborted 0 p.error_requests p.requests })

  -- the body of the `with` statement
  pub set_body : SetMessage → Exec R.State Progress
  unfolding collect_set_requests exec_unless apply_unless discard_if
  set_body m = do
    R.start
    collected ← collect_set_requests m
    executed ← exec_unless collected.error collected
    applied ← apply_unless executed.error executed
    discard_if applied.error applied

  pub results_of : List (Request R) → List (Operation × StatusCode)
  results_of [] = []
  results_of (r ∷ rs) = (r.operation, r.status) ∷ results_of rs

  -- `__exit__` stops the repository, also after an exception.
  pub after_stop : {A : Type 0} → Result (Unit {0}) → Result A → Result A
  after_stop (ok _) r = r
  after_stop (err e) r = err e

  pub with_repository : {A : Type 0} → Exec R.State A → Exec R.State A
  unfolding after_stop
  with_repository m w = let (r, w') = m w in let (s, w'') = R.stop w' in (after_stop s r, w'')

  pub set : SetMessage → Exec R.State SetResponse
  unfolding set_body with_repository results_of
  set m = do
    p ← with_repository (set_body m)
    pure (record { results = results_of p.requests; error = p.error })
