-- ===== src/Gnmi/Get/Answer.antt =====
-- What `Get` of src/north/gnmi/goldstone/north/gnmi/server.py answers.
use goldstone_mgmt.Base.{
  ◌≡◌, refl, inl, inr, false, Option, none, some, List, [], ◌∷◌, ◌++◌, Result, ok, err, Exn,
  Result-cases, value_error, repo_not_found,
}
use goldstone_mgmt.Base.Exec.{Exec, pure, ◌>>=◌}
use goldstone_mgmt.Telemetry.Path.Values.{Value}
use goldstone_mgmt.Gnmi.Paths.{PathElem, parse_gnmi_path}
use goldstone_mgmt.Gnmi.Repository.{Repository}
use goldstone_mgmt.Gnmi.Requests.{StatusCode, is_ok_status}
use goldstone_mgmt.Gnmi.Get.{
  read_status, GetRequest, GetResponse, after_read, exec_get, collect_get_requests,
  exec_get_requests, results_of_get, respond,
}

read_status-fails : (e : Exn) → is_ok_status (read_status e) ≡ false
unfolding read_status
read_status-fails repo_not_found = refl
read_status-fails value_error = refl
read_status-fails _ = refl

module _ (R : Repository) where
  -- Reading the paths one after the other.
  abbrev pub read_all : List PathElem → List (List PathElem) → Exec R.State (List (Value R.Scalar))
  read_all prefix [] = pure []
  read_all prefix (path ∷ paths) = do
    v ← R.get (parse_gnmi_path prefix ++ parse_gnmi_path path)
    vs ← read_all prefix paths
    pure (v ∷ vs)

  -- The values that were read, or the status code of the exception.
  abbrev pub answer : Result (List (Value R.Scalar)) → GetResponse R
  answer (ok vs) = record { notifications = vs; error = none }
  answer (err e) = record { notifications = []; error = some (read_status e) }

  -- The requests and the error that stand for the outcome of the reads.
  abbrev Gives : List (GetRequest R) × Option StatusCode → Result (List (Value R.Scalar)) → Type 0
  Gives p (ok vs) = (p.1 ≡ none) × (results_of_get R p.0 ≡ ok vs)
  Gives p (err e) = p.1 ≡ some (read_status e)

  abbrev Runs :
      Result (List (GetRequest R) × Option StatusCode) → Result (List (Value R.Scalar)) → Type 0
  Runs (ok p) r = Gives p r
  Runs (err e) r = ⊥

  exec-Runs :
      (prefix : List PathElem) (paths : List (List PathElem)) (w : R.State)
      → Runs
          (exec_get_requests R (collect_get_requests R prefix paths) w).0
          (read_all prefix paths w).0
        × ((exec_get_requests R (collect_get_requests R prefix paths) w).1
            ≡ (read_all prefix paths w).1)
  unfolding exec_get_requests collect_get_requests exec_get after_read results_of_get
  exec-Runs prefix [] w = ((refl, refl), refl)
  exec-Runs prefix (path ∷ paths) w =
      let xpath = parse_gnmi_path prefix ++ parse_gnmi_path path in
      elim (Result-cases (R.get xpath w).0) [
        | inr (x, e) ↦ rw (e, read_status-fails x) (refl, refl)
        | inl (v, e) ↦
            let w' = (R.get xpath w).1 in
            let (runs, same) = exec-Runs prefix paths w' in
            rw e
              (elim (Result-cases
                (exec_get_requests R (collect_get_requests R prefix paths) w').0) [
                  | inr (x, k) ↦ absurd (rw k at runs)
                  | inl (p, k) ↦ elim (Result-cases (read_all prefix paths w').0) [
                    | inr (y, l) ↦ let gives = rw (k, l) at runs in rw (k, l) (gives, same)
                    | inl (vs, l) ↦
                        let gives = rw (k, l) at runs in
                        rw (k, l) ((gives.0, rw gives.1 refl), same)
                  ]
                ])
      ]

  -- The requests of a Get are answered by the values that reading their paths one after the other
  -- gives; if a read raises, by an error with the status code of that exception and no values. The
  -- repository is left as those reads leave it.
  pub get_reads :
      (prefix : List PathElem) (paths : List (List PathElem)) (w : R.State)
      → (exec_get_requests R (collect_get_requests R prefix paths) >>= λ p. respond R p.0 p.1) w
        ≡ (ok (answer (read_all prefix paths w).0), (read_all prefix paths w).1)
  unfolding respond
  get_reads prefix paths w =
      let (runs, same) = exec-Runs prefix paths w in
      elim (Result-cases (exec_get_requests R (collect_get_requests R prefix paths) w).0) [
        | inr (x, k) ↦ absurd (rw k at runs)
        | inl (p, k) ↦ elim (Result-cases (read_all prefix paths w).0) [
          | inr (y, l) ↦ let gives = rw (k, l) at runs in rw (k, l, gives, same) refl
          | inl (vs, l) ↦
              let gives = rw (k, l) at runs in rw (k, l, gives.0, same) (rw gives.1 refl)
        ]
      ]
