-- ===== src/Protocol/Reasons.antt =====
-- The closed reasons of stormpulse/protocol/reasons.py, with the text of each.
use storm_pulse.Base.{String}

pub data CancelReason : Type 0 where
  shutdown operator : CancelReason

pub data FailureReason : Type 0 where
  unknown_command forbidden validation_failed signoff_sealed restart_required exit_code :
      FailureReason
  timeout os_error agent_overloaded session_closing cancelled integration_failed : FailureReason
  admin_api_unconfigured not_configured not_found read_failed auth_failed config_invalid :
      FailureReason
  invalid_tier invalid_key_tier rollback_failed bucket_create_failed : FailureReason
  bucket_delete_failed bucket_info_failed bucket_not_empty bucket_read_failed : FailureReason
  bucket_not_found cors_rules_stale cors_rules_unreadable cors_update_failed : FailureReason
  clear_stalled collection_failed delete_rail_tripped account_key_create_failed : FailureReason
  admin_key_create_failed key_read_failed key_delete_failed new_key_create_failed : FailureReason
  new_key_read_failed new_key_permission_grant_failed new_key_alias_attach_failed : FailureReason
  old_key_read_failed old_key_delete_failed purge_key_mint_failed purge_key_grant_failed :
      FailureReason
  purge_alias_failed grant_failed grant_unconfirmed grant_not_present : FailureReason
  grant_still_present grant_revoke_failed grant_narrow_failed grant_absence_unconfirmed :
      FailureReason
  narrow_allow_failed narrow_deny_failed snapshot_read_failed strand_check_failed : FailureReason
  would_strand reap_failed persist_failed reload_failed usage_error rclone_error : FailureReason
  path_not_found retryable_error partial_failure fatal_error transfer_limit_exceeded : FailureReason
  duration_limit_exceeded unparseable_output restore_mismatch no_sample_object : FailureReason

unfoldable pub reason_text : FailureReason → String
reason_text unknown_command = "unknown_command"
reason_text forbidden = "forbidden"
reason_text validation_failed = "validation_failed"
reason_text signoff_sealed = "signoff_sealed"
reason_text restart_required = "restart_required"
reason_text exit_code = "exit_code"
reason_text timeout = "timeout"
reason_text os_error = "os_error"
reason_text agent_overloaded = "agent_overloaded"
reason_text session_closing = "session_closing"
reason_text cancelled = "cancelled"
reason_text integration_failed = "integration_failed"
reason_text admin_api_unconfigured = "admin_api_unconfigured"
reason_text not_configured = "not_configured"
reason_text not_found = "not_found"
reason_text read_failed = "read_failed"
reason_text auth_failed = "auth_failed"
reason_text config_invalid = "config_invalid"
reason_text invalid_tier = "invalid_tier"
reason_text invalid_key_tier = "invalid_key_tier"
reason_text rollback_failed = "rollback_failed"
reason_text bucket_create_failed = "bucket_create_failed"
reason_text bucket_delete_failed = "bucket_delete_failed"
reason_text bucket_info_failed = "bucket_info_failed"
reason_text bucket_not_empty = "bucket_not_empty"
reason_text bucket_read_failed = "bucket_read_failed"
reason_text bucket_not_found = "bucket_not_found"
reason_text cors_rules_stale = "cors_rules_stale"
reason_text cors_rules_unreadable = "cors_rules_unreadable"
reason_text cors_update_failed = "cors_update_failed"
reason_text clear_stalled = "clear_stalled"
reason_text collection_failed = "collection_failed"
reason_text delete_rail_tripped = "delete_rail_tripped"
reason_text account_key_create_failed = "account_key_create_failed"
reason_text admin_key_create_failed = "admin_key_create_failed"
reason_text key_read_failed = "key_read_failed"
reason_text key_delete_failed = "key_delete_failed"
reason_text new_key_create_failed = "new_key_create_failed"
reason_text new_key_read_failed = "new_key_read_failed"
reason_text new_key_permission_grant_failed = "new_key_permission_grant_failed"
reason_text new_key_alias_attach_failed = "new_key_alias_attach_failed"
reason_text old_key_read_failed = "old_key_read_failed"
reason_text old_key_delete_failed = "old_key_delete_failed"
reason_text purge_key_mint_failed = "purge_key_mint_failed"
reason_text purge_key_grant_failed = "purge_key_grant_failed"
reason_text purge_alias_failed = "purge_alias_failed"
reason_text grant_failed = "grant_failed"
reason_text grant_unconfirmed = "grant_unconfirmed"
reason_text grant_not_present = "grant_not_present"
reason_text grant_still_present = "grant_still_present"
reason_text grant_revoke_failed = "grant_revoke_failed"
reason_text grant_narrow_failed = "grant_narrow_failed"
reason_text grant_absence_unconfirmed = "grant_absence_unconfirmed"
reason_text narrow_allow_failed = "narrow_allow_failed"
reason_text narrow_deny_failed = "narrow_deny_failed"
reason_text snapshot_read_failed = "snapshot_read_failed"
reason_text strand_check_failed = "strand_check_failed"
reason_text would_strand = "would_strand"
reason_text reap_failed = "reap_failed"
reason_text persist_failed = "persist_failed"
reason_text reload_failed = "reload_failed"
reason_text usage_error = "usage_error"
reason_text rclone_error = "rclone_error"
reason_text path_not_found = "path_not_found"
reason_text retryable_error = "retryable_error"
reason_text partial_failure = "partial_failure"
reason_text fatal_error = "fatal_error"
reason_text transfer_limit_exceeded = "transfer_limit_exceeded"
reason_text duration_limit_exceeded = "duration_limit_exceeded"
reason_text unparseable_output = "unparseable_output"
reason_text restore_mismatch = "restore_mismatch"
reason_text no_sample_object = "no_sample_object"
