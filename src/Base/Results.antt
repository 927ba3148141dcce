-- ===== src/Base/Results.antt =====
-- Values that a call returns or the exception that it raises. The exceptions are those that the
-- modelled modules raise or catch.
use Prim.Native.Nat.{ℕ}
use Prim.Native.String.{String}
use mathlib.Core.Path.{◌≡◌, refl}
use mathlib.Core.Logic.{◌⊎◌, inl, inr}

-- The classes of sysrepo's exceptions, `Sysrepo{n}` for the names n of lib/errors.py; `base` is
-- SysrepoError itself and `unlisted` any other subclass.
pub data SysrepoClass : Type 0 where
  base inval_arg nomem not_found internal unsupported refused_validation operation_failed :
      SysrepoClass
  unauthorized locked time_out ly sys exists callback_failed callback_shelve : SysrepoClass
  unlisted : ℕ → SysrepoClass

-- lib/errors.py, telemetry/store.py, telemetry.py (`ValidationFailedError`), the sysrepo errors
-- raised by the handlers, gnmi/repo/repo.py, gnmi/server.py (`InvalidArgumentError`),
-- libyang's error, taish's TAIException and the built-in exceptions; `other` is any other.
-- `connector_error` is lib/errors.py's `Error` itself.
pub data Exn : Type 0 where
  internal_error unsupported_error inval_arg_error not_found_error : Exn
  libyang_error connector_error : Exn
  telemetry_not_exist subscription_exist subscription_not_exist : Exn
  validation_failed : String → Exn
  repo_not_found apply_failed invalid_argument : Exn
  key_error index_error attribute_error type_error value_error stop_iteration : Exn
  assertion_error name_error : Exn
  tai_exception validation_failed_error operation_failed_error unauthorized_error locked_error : Exn
  nomem_error time_out_error ly_error sys_error exists_error callback_failed_error
        callback_shelve_error :
      Exn
  sysrepo_error : SysrepoClass → Exn
  other : ℕ → Exn

pub data Result {ℓ} (A : Type ℓ) : Type ℓ where
  ok : A → Result A
  err : Exn → Result A

pub Result-cases {ℓ} :
    {A : Type ℓ} (r : Result A) → ((a : A) × (r ≡ ok a)) ⊎ ((e : Exn) × (r ≡ err e))
Result-cases (ok a) = inl (a, refl)
Result-cases (err e) = inr (e, refl)

-- For calls that return nothing.
pub returns-cases : (r : Result (Unit {0})) → (r ≡ ok tt) ⊎ ((e : Exn) × (r ≡ err e))
returns-cases (ok tt) = inl refl
returns-cases (err e) = inr (e, refl)
