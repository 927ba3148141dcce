-- ===== src/Gnmi/Get.antt =====
-- `gNMIServicer.Get` and GetRequest of src/north/gnmi/goldstone/north/gnmi/server.py, without the
-- timestamps and the texts of messages. A result stands for its JSON text.
pub mod Answer
pub mod Tests
use goldstone_mgmt.Base.{
  Bool, true, false, Option, none, some, List, [], ◌∷◌, ◌++◌, Result, ok, err, Exn, value_error,
  attribute_error, repo_not_found, if◌then◌else◌,
}
use goldstone_mgmt.Base.Exec.{Exec, pure, raise, lift, ◌>>=◌, ◌>>◌}
use goldstone_mgmt.Base.Text.{Text}
use goldstone_mgmt.Telemetry.Path.Values.{Value}
use goldstone_mgmt.Gnmi.Paths.{PathElem, parse_gnmi_path}
use goldstone_mgmt.Gnmi.Repository.{Repository}
use goldstone_mgmt.Gnmi.Requests.{
  StatusCode, status_ok, status_unknown, status_invalid_argument, status_not_found,
  status_unimplemented, is_ok_status,
}
use goldstone_mgmt.Gnmi.Server.{with_repository}

-- the status code that the exception of a read becomes
pub read_status : Exn → StatusCode
read_status repo_not_found = status_not_found
read_status value_error = status_invalid_argument
read_status e = status_unknown

module _ (R : Repository) where
  open R use {Scalar}

  pub record GetRequest : Type 0 where
    pub xpath : Text
    pub status : StatusCode
    pub result : Option (Value Scalar)

  pub record GetResponse : Type 0 where
    pub notifications : List (Value Scalar)
    pub error : Option StatusCode

  pub after_read : GetRequest → Result (Value Scalar) → GetRequest
  unfolding read_status
  after_read r (ok v) = record r { result = some v }
  after_read r (err e) = record r { status = read_status e }

  -- GetRequest.exec
  pub exec_get : GetRequest → Exec R.State GetRequest
  unfolding after_read
  exec_get r w = let (o, w') = R.get r.xpath w in (ok (after_read r o), w')

  -- `_collect_get_requests`
  pub collect_get_requests : List PathElem → List (List PathElem) → List GetRequest
  collect_get_requests prefix [] = []
  collect_get_requests prefix (path ∷ paths) =
      record {
        xpath = parse_gnmi_path prefix ++ parse_gnmi_path path;
        status = status_ok;
        result = none;
      }
      ∷ collect_get_requests prefix paths

  -- `_exec_get_requests`, with the requests as they are then
  pub exec_get_requests : List GetRequest → Exec R.State (List GetRequest × Option StatusCode)
  unfolding exec_get
  exec_get_requests [] = pure ([], none)
  exec_get_requests (r ∷ rs) = do
    done ← exec_get r
    if is_ok_status done.status
        then (do rest ← exec_get_requests rs; pure (done ∷ rest.0, rest.1))
        else pure (done ∷ rs, some done.status)

  -- r.json_result() of each request
  pub results_of_get : List GetRequest → Result (List (Value Scalar))
  results_of_get [] = ok []
  results_of_get (r ∷ rs) =
      let rest = results_of_get rs in
      elim r.result [
        | none ↦ err attribute_error
        | some v ↦ elim rest [ err e ↦ err e | ok vs ↦ ok (v ∷ vs) ]
      ]

  pub respond : List GetRequest → Option StatusCode → Exec R.State GetResponse
  unfolding results_of_get
  respond rs none = do
    vs ← lift (results_of_get rs)
    pure (record { notifications = vs; error = none })
  respond rs (some code) = pure (record { notifications = []; error = some code })

  -- `Get`; the flag says that the encoding of the request is supported.
  pub get : Bool → List PathElem → List (List PathElem) → Exec R.State GetResponse
  unfolding collect_get_requests exec_get_requests respond
  get false prefix paths = pure (record { notifications = []; error = some status_unimplemented })
  get true prefix paths = do
    p ← with_repository R (do R.start; exec_get_requests (collect_get_requests prefix paths))
    respond p.0 p.1
