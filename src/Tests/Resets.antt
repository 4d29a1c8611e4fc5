-- ===== src/Tests/Resets.antt =====
-- The completion of a reset and an operator's reset in the sample installation.
use fastapi_templates_xtn.Prelude.{refl, true, none, [], ◌∷◌, contains}
use fastapi_templates_xtn.Repository.Grants.{load_authority_snapshot_of}
use fastapi_templates_xtn.Domain.Snapshot.{build}
use fastapi_templates_xtn.Accounts.{Accounts}
use fastapi_templates_xtn.Accounts.Changes.{complete_password_reset}
use fastapi_templates_xtn.Accounts.Changes.Completed.{
  IsCompleted, complete_password_reset-IsCompleted,
}
use fastapi_templates_xtn.Accounts.Resets.{operator_reset_super_admin_password}
use fastapi_templates_xtn.Accounts.Resets.Operator.{
  IsOperatorReset, operator_reset_super_admin_password-IsOperatorReset,
}
use fastapi_templates_xtn.Tests.Samples.{sample_db}
use fastapi_templates_xtn.Tests.Platform.{sample_platform, sample_accounts, editor_row}

-- The editor has a temporary password.
abbrev reset_accounts : Accounts
reset_accounts = record {
  db = record sample_db { users = record editor_row { must_change_password = true } ∷ [] };
  events = [];
}

complete_password_reset_example :
    IsCompleted sample_platform "correct horse" "tidal wave 9" "request-7" 1 950 reset_accounts
      (complete_password_reset sample_platform none "editor" "correct horse" "tidal wave 9"
        "request-7" 1 950
        (λ a. a)
        reset_accounts).1
unfolding complete_password_reset contains
complete_password_reset_example =
    complete_password_reset-IsCompleted sample_platform none "editor" "correct horse" "tidal wave 9"
      "request-7" 1 950 (λ a. a) reset_accounts true refl

offline_reset_example :
    IsOperatorReset sample_platform 1 "tidal wave 9" "request-8" 1 950 sample_accounts
      (operator_reset_super_admin_password sample_platform 1 "tidal wave 9" "request-8" 1 950
        sample_accounts).1
unfolding operator_reset_super_admin_password contains load_authority_snapshot_of build
offline_reset_example =
    operator_reset_super_admin_password-IsOperatorReset sample_platform 1 "tidal wave 9" "request-8"
      1 950 sample_accounts true refl
