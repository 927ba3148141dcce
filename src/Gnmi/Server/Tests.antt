-- ===== src/Gnmi/Server/Tests.antt =====
-- The theorems about `gNMIServicer.Set` of src/north/gnmi/goldstone/north/gnmi/server.py at a
-- repository that holds one number, with the prepared number beside it.
use goldstone_mgmt.Base.{
  ℕ, ◌≡◌, ◌≢◌, refl, Option, none, some, [], ◌∷◌, ok, err, value_error, apply_failed,
  repo_not_found, if◌then◌else◌, ◌==◌, nat_eq, text_eq, arith, Exn, ◌++◌,
}
use goldstone_mgmt.Base.Dict.{member}
use goldstone_mgmt.Base.Exec.{Exec}
use goldstone_mgmt.Base.Text.{Text, codes}
use goldstone_mgmt.Telemetry.Path.Values.{Value, scalar, arr, obj}
use goldstone_mgmt.Gnmi.Paths.{PathElem, parse_gnmi_path}
use goldstone_mgmt.Gnmi.Repository.{Repository, IsTransactional}
use goldstone_mgmt.Gnmi.Requests.{
  status_aborted, status_unimplemented, json_val, other_val, replace_operation, Request,
}
use goldstone_mgmt.Gnmi.Requests.Replaces.{value_request-other}
use goldstone_mgmt.Gnmi.Server.{
  SetMessage, set, set_body, with_repository, after_stop, results_of, collect_set_requests,
  collect_requests, delete_requests, value_requests, failed_from, error_of, exec_unless,
  apply_unless, discard_if, set_status_code_aborted,
}
use goldstone_mgmt.Gnmi.Server.Set.{IsAtomic, set-IsAtomic}
use goldstone_mgmt.Gnmi.Server.Replace.{replace_fails}

-- 9 is refused when it is applied.
abbrev pub apply : Exec (ℕ × ℕ) (Unit {0})
apply (running, prepared) =
    if prepared == 9 then (err apply_failed, (running, prepared)) else (ok tt, (prepared, prepared))

abbrev pub prepare : Option Text → Value ℕ → Exec (ℕ × ℕ) (Unit {0})
prepare path (scalar n) (running, prepared) = (ok tt, (running, n))
prepare path _ s = (err value_error, s)

abbrev pub numbers : Repository
numbers = record {
  Scalar = ℕ;
  py_none = 0;
  is_none = λ n. n == 0;
  str = λ v. [];
  loads = λ t.
      if t == codes "9"
      then ok (scalar 9)
      else if t == codes "7"
      then ok (scalar 7)
      else err value_error;
  State = ℕ × ℕ;
  start = λ s. (ok tt, s);
  stop = λ s. (ok tt, s);
  get = λ p s. (ok (scalar s.0), s);
  set = prepare;
  delete = λ p s. (err repo_not_found, s);
  apply = apply;
  discard = λ s. (ok tt, (s.0, s.0));
  get_list_keys = λ p. ok [];
}

abbrev running : ℕ × ℕ → ℕ
running s = s.0

prepare-running :
    (path : Option Text) (v : Value ℕ) (s : ℕ × ℕ) → running (prepare path v s).1 ≡ running s
prepare-running path (scalar n) s = refl
prepare-running path (arr xs) s = refl
prepare-running path (obj fs) s = refl

apply-running : (s : ℕ × ℕ) (e : Exn) → (apply s).0 ≡ err e → running (apply s).1 ≡ running s
apply-running s e h = ground (arith, h)

numbers-IsTransactional : IsTransactional numbers running
numbers-IsTransactional = record {
  start_keeps = λ s. refl;
  stop_returns = λ s. refl;
  stop_keeps = λ s. refl;
  set_keeps = prepare-running;
  delete_keeps = λ p s. refl;
  discard_keeps = λ s. refl;
  apply_fails = apply-running;
}

abbrev pub elem : PathElem
elem = record { name = codes "n"; key = [] }

abbrev updates : SetMessage
updates = record {
  prefix = [];
  delete = (elem ∷ []) ∷ [];
  replace = [];
  update =
      record { path = elem ∷ []; val = json_val (codes "7") }
      ∷ record { path = elem ∷ []; val = json_val (codes "9") }
      ∷ [];
}

set-IsAtomic_example :
    IsAtomic numbers running
      (set numbers updates (3, 3)).0
      3
      (running (set numbers updates (3, 3)).1)
set-IsAtomic_example = set-IsAtomic numbers running numbers-IsTransactional updates (3, 3)

abbrev replaces : SetMessage
replaces = record {
  prefix = [];
  delete = [];
  replace = record { path = elem ∷ []; val = other_val } ∷ [];
  update = [];
}

abbrev unparsed : Request numbers
unparsed = record {
  operation = replace_operation;
  xpath = parse_gnmi_path [] ++ parse_gnmi_path (elem ∷ []);
  status = status_unimplemented;
  leaves = [];
}

valued : value_requests numbers replace_operation [] replaces.replace ≡ ok (unparsed ∷ [])
unfolding value_requests
valued = rw (value_request-other numbers replace_operation [] (elem ∷ []), value_requests) refl

collected : collect_requests numbers replaces ≡ ok (unparsed ∷ [])
unfolding collect_requests
collected = rw (valued, collect_requests) (unfold value_requests delete_requests in refl)

refused :
    (set numbers replaces (3, 3)).0
    ≡ ok (record {
      results = (replace_operation, status_unimplemented) ∷ [];
      error = some status_aborted;
    })
unfolding set set_body with_repository after_stop results_of collect_set_requests failed_from
    error_of exec_unless apply_unless discard_if set_status_code_aborted member
refused = rw (collected, collect_set_requests) refl

replace_fails_example : some status_aborted ≢ none
replace_fails_example =
    replace_fails numbers replaces (3, 3)
      (record {
        results = (replace_operation, status_unimplemented) ∷ [];
        error = some status_aborted;
      })
      (λ h. absurd (ground (arith, h))) refused
