-- ===== src/Errors/Codes.antt =====
-- The codes of core/api_contract.py and the message keys of core/i18n.py that core/errors.py names.
pub data BusinessCode : Type 0 where
  bad_request invalid_authentication access_forbidden password_change_required not_found conflict
        stale_resource_version service_unavailable :
      BusinessCode

pub data MessageKey : Type 0 where
  error_bad_request error_unauthenticated error_forbidden error_password_change_required
        error_not_found error_conflict error_stale_resource_version error_service_unavailable
        error_password_same_as_user_name error_password_common_or_weak error_registration_closed
        error_user_name_taken :
      MessageKey
