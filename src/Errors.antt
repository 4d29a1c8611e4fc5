-- ===== src/Errors.antt =====
-- core/errors.py: `RbacError` and the functions that build one for each HTTP status; the codes of
-- core/api_contract.py and the message keys of core/i18n.py that they name. The other exceptions of
-- the modelled code are a `ValueError` and the `KeyError` of a dict that lacks an id.
pub mod Codes
use Codes.{
  BusinessCode, MessageKey, error_bad_request, error_unauthenticated, error_forbidden,
  error_not_found, error_conflict, error_stale_resource_version, error_service_unavailable,
}
use fastapi_templates_xtn.Prelude.{ℕ, String, Result}

pub record RbacError : Type 0 where
  pub status_code : ℕ
  pub business_code : BusinessCode
  pub message_key : MessageKey
  pub reason_code : String

pub data Error : Type 0 where
  rbac_error : RbacError → Error
  value_error : String → Error
  key_error : ℕ → Error

abbrev pub Outcome : Type 0 → Type 0
Outcome = Result Error

abbrev pub unauthenticated : String → Error
unauthenticated reason = rbac_error (record {
  status_code = 401;
  business_code = BusinessCode.invalid_authentication;
  message_key = error_unauthenticated;
  reason_code = reason;
})

abbrev pub not_found : String → Error
not_found reason = rbac_error (record {
  status_code = 404;
  business_code = BusinessCode.not_found;
  message_key = error_not_found;
  reason_code = reason;
})

abbrev pub forbidden : String → Error
forbidden reason = rbac_error (record {
  status_code = 403;
  business_code = BusinessCode.access_forbidden;
  message_key = error_forbidden;
  reason_code = reason;
})

abbrev pub conflict : String → Error
conflict reason = rbac_error (record {
  status_code = 409;
  business_code = BusinessCode.conflict;
  message_key = error_conflict;
  reason_code = reason;
})

abbrev pub stale_resource_version : String → Error
stale_resource_version reason = rbac_error (record {
  status_code = 409;
  business_code = BusinessCode.stale_resource_version;
  message_key = error_stale_resource_version;
  reason_code = reason;
})

abbrev pub unavailable : String → Error
unavailable reason = rbac_error (record {
  status_code = 503;
  business_code = BusinessCode.service_unavailable;
  message_key = error_service_unavailable;
  reason_code = reason;
})

abbrev pub invalid_request : String → Error
invalid_request reason = rbac_error (record {
  status_code = 400;
  business_code = BusinessCode.bad_request;
  message_key = error_bad_request;
  reason_code = reason;
})
