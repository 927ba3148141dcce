-- ===== src/Connector/Errors.antt =====
-- The exceptions of src/lib/goldstone/lib/errors.py and sysrepo's, and the two maps between them in
-- src/lib/goldstone/lib/connector/sysrepo.py and src/lib/goldstone/lib/server_connector/sysrepo.py.
use goldstone_mgmt.Base.{
  ◌≡◌, arith, Bool, true, false, Exn, SysrepoClass, base, inval_arg, nomem, not_found, internal,
  unsupported, refused_validation, operation_failed, unauthorized, locked, time_out, ly, sys,
  exists, callback_failed, callback_shelve, unlisted, connector_error, inval_arg_error, nomem_error,
  not_found_error, internal_error, unsupported_error, validation_failed_error,
  operation_failed_error, unauthorized_error, locked_error, time_out_error, ly_error, sys_error,
  exists_error, callback_failed_error, callback_shelve_error,
}

-- an instance of Error of lib/errors.py
unfoldable pub is_error : Exn → Bool
is_error connector_error = true
is_error inval_arg_error = true
is_error nomem_error = true
is_error not_found_error = true
is_error internal_error = true
is_error unsupported_error = true
is_error validation_failed_error = true
is_error operation_failed_error = true
is_error unauthorized_error = true
is_error locked_error = true
is_error time_out_error = true
is_error ly_error = true
is_error sys_error = true
is_error exists_error = true
is_error callback_failed_error = true
is_error callback_shelve_error = true
is_error _ = false

-- `_error_map` of connector/sysrepo.py with its default
unfoldable pub from_sysrepo : SysrepoClass → Exn
from_sysrepo base = connector_error
from_sysrepo inval_arg = inval_arg_error
from_sysrepo nomem = nomem_error
from_sysrepo not_found = not_found_error
from_sysrepo internal = internal_error
from_sysrepo unsupported = unsupported_error
from_sysrepo refused_validation = validation_failed_error
from_sysrepo operation_failed = operation_failed_error
from_sysrepo unauthorized = unauthorized_error
from_sysrepo locked = locked_error
from_sysrepo time_out = time_out_error
from_sysrepo ly = ly_error
from_sysrepo sys = sys_error
from_sysrepo exists = exists_error
from_sysrepo callback_failed = callback_failed_error
from_sysrepo callback_shelve = callback_shelve_error
from_sysrepo (unlisted n) = connector_error

-- convert2sysrepo
unfoldable pub convert2sysrepo : Exn → SysrepoClass
convert2sysrepo inval_arg_error = inval_arg
convert2sysrepo nomem_error = nomem
convert2sysrepo not_found_error = not_found
convert2sysrepo internal_error = internal
convert2sysrepo unsupported_error = unsupported
convert2sysrepo validation_failed_error = refused_validation
convert2sysrepo operation_failed_error = operation_failed
convert2sysrepo unauthorized_error = unauthorized
convert2sysrepo locked_error = locked
convert2sysrepo time_out_error = time_out
convert2sysrepo ly_error = ly
convert2sysrepo sys_error = sys
convert2sysrepo exists_error = exists
convert2sysrepo callback_failed_error = callback_failed
convert2sysrepo callback_shelve_error = callback_shelve
convert2sysrepo _ = base

-- An error of lib/errors.py that a server's callback raises and that reaches a client under the class
-- that `convert2sysrepo` gives it is the same error again there; and no class of sysrepo is turned
-- into anything but an error of lib/errors.py.
pub from_sysrepo-convert2sysrepo :
    (e : Exn) (c : SysrepoClass)
    → is_error e ≡ true
    → (from_sysrepo (convert2sysrepo e) ≡ e) × (is_error (from_sysrepo c) ≡ true)
unfolding is_error from_sysrepo convert2sysrepo
from_sysrepo-convert2sysrepo e c h = ground arith
