-- ===== src/Jobs/Outcome.antt =====
-- `JobOutcome` of stormpulse/commands/jobs.py and the result that reports it. `retry_after_s` is a
-- number of seconds: what the source refuses below 1 is 0 here.
use storm_pulse.Base.{
  leb, if◌then◌else◌, ◌==◌, string_eq, pair_eq, nat_eq, ℕ, String, ◌≡◌, refl, Bool, true, false,
  not, ◌&&◌, ◌||◌, Option, none, some, arith,
}
use storm_pulse.Base.Int.{ℤ}
use storm_pulse.Json.{Fields, end, field}
use storm_pulse.Protocol.Reasons.{FailureReason, reason_text}
use storm_pulse.Protocol.Results.{ResultError, CommandResult, IsSettled}
use storm_pulse.Commands.Spec.{is_some}

pub record JobOutcome : Type 0 where
  pub success : Bool
  pub exit_code : ℤ
  pub stdout : String
  pub stderr : String
  pub failure_reason : Option FailureReason
  pub extras : Fields
  pub error_code : Option String
  pub upstream_code : Option String
  pub retry_after_s : Option ℕ

abbrev retry_ok : Bool → Option ℕ → Bool
retry_ok success none = true
retry_ok success (some s) = not success && leb 1 s

-- `__post_init__`: false is the ValueError.
unfoldable pub outcome_ok : JobOutcome → Bool
outcome_ok o = retry_ok o.success o.retry_after_s

abbrev code_or_reason : Option FailureReason → String
code_or_reason none = "unspecified"
code_or_reason (some reason) = reason_text reason

abbrev code_or : Option String → Option FailureReason → String
code_or (some code) reason = if code == "" then code_or_reason reason else code
code_or none reason = code_or_reason reason

unfoldable pub finer_error : JobOutcome → Option ResultError
finer_error o =
    if o.success || (not (is_some o.error_code) && not (is_some o.upstream_code))
    then none
    else some (record {
      code = code_or o.error_code o.failure_reason;
      http_status = none;
      upstream_code = o.upstream_code;
      message = o.stderr;
    })

-- What a job's attempts add up to (`_Tally`).
pub record Tally : Type 0 where
  pub attempts : ℕ
  pub work_ms : ℕ
  pub concurrent : ℕ
  pub retries_exhausted : Bool

abbrev extras_of : Fields → Option Fields
extras_of end = none
extras_of (field k v fs) = some (field k v fs)

abbrev error_or : Bool → ResultError → Option ResultError → Option ResultError
error_or success derived (some e) = some e
error_or true derived none = none
error_or false derived none = some derived

-- the payload of `_send_result`, with the error that its construction derives
unfoldable pub job_result : String → String → String → JobOutcome → Tally → CommandResult
unfolding finer_error
job_result request_id command group o tally = record {
  request_id = request_id;
  command = command;
  group = group;
  success = o.success;
  exit_code = o.exit_code;
  stdout = o.stdout;
  stderr = o.stderr;
  duration_ms = tally.work_ms;
  sequence_id = none;
  failure_reason = o.failure_reason;
  result = extras_of o.extras;
  error =
      error_or o.success
        (record {
          code = code_or_reason o.failure_reason;
          http_status = none;
          upstream_code = none;
          message = o.stderr;
        })
        (finer_error o);
  step_index = none;
  attempts = tally.attempts;
  retries_exhausted = tally.retries_exhausted;
}

finer_error-success : (o : JobOutcome) → o.success ≡ true → finer_error o ≡ none
unfolding finer_error
finer_error-success o h = ground arith

error_or-false :
    (b : Bool) (d : ResultError) (e : Option ResultError)
    → b ≡ false
    → (r : ResultError) × (error_or b d e ≡ some r)
error_or-false true d e h = absurd (cc)
error_or-false false d (some e) h = (e, refl)
error_or-false false d none h = (d, refl)

-- The result of a job carries an error exactly on a failure, whatever the handler parsed.
pub job_result-IsSettled :
    (request_id command group : String) (o : JobOutcome) (tally : Tally)
    → IsSettled (job_result request_id command group o tally)
unfolding job_result
job_result-IsSettled request_id command group o tally = record {
  on_success = λ h. rw (finer_error-success o h, h) refl;
  on_failure = λ h. error_or-false o.success _ (finer_error o) h;
}
