-- ===== src/Gnmi/Requests/Replaces.antt =====
-- ReplaceRequest of src/north/gnmi/goldstone/north/gnmi/server.py.
use goldstone_mgmt.Base.{◌≡◌, refl, List, [], ◌++◌, Result, ok, err, type_error, arith}
use goldstone_mgmt.Gnmi.Paths.{PathElem, parse_gnmi_path}
use goldstone_mgmt.Base.Text.{Text}
use goldstone_mgmt.Gnmi.Repository.{Repository}
use goldstone_mgmt.Gnmi.Requests.{
  Operation, delete_operation, update_operation, replace_operation, TypedValue, other_val,
  status_unimplemented, parse_val_into_leaves, set_status, Request, Parsing, parsed_request,
  value_request, exec,
}

module _ (R : Repository) where
  parsed_request-operation :
      (op : Operation) (x : Text) (r : Result (Unit {0})) (p : Parsing R) (q : Request R)
      → parsed_request R op x r p ≡ ok q
      → q.operation ≡ op
  unfolding parsed_request
  parsed_request-operation op x (ok t) p q h = ground (arith, h)
  parsed_request-operation op x (err e) p q h = absurd (ground (arith, h))

  pub value_request-operation :
      (op : Operation) (prefix path : List PathElem) (val : TypedValue) (r : Request R)
      → value_request R op prefix path val ≡ ok r
      → r.operation ≡ op
  unfolding value_request
  value_request-operation op prefix path val r h = parsed_request-operation op _ _ _ r h

  pub exec-replace :
      (op : Operation) (r : Request R) (s : R.State)
      → op ≡ replace_operation
      → exec R op r s ≡ (err type_error, s)
  unfolding exec
  exec-replace delete_operation r s h = absurd (ground (arith, h))
  exec-replace replace_operation r s h = refl
  exec-replace update_operation r s h = absurd (ground (arith, h))

  pub value_request-other :
      (op : Operation) (prefix path : List PathElem)
      → value_request R op prefix path other_val
        ≡ ok (record {
          operation = op;
          xpath = parse_gnmi_path prefix ++ parse_gnmi_path path;
          status = status_unimplemented;
          leaves = [];
        })
  unfolding value_request parse_val_into_leaves set_status parsed_request
  value_request-other op prefix path = refl
