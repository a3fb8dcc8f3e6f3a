-- ===== src/Protocol/Results.antt =====
-- `CommandResultPayload` and `ResultError` of stormpulse/protocol/payloads.py.
use storm_pulse.Base.{ℕ, String, Bool, true, false, Option, none, some, ◌≡◌, refl, arith}
use storm_pulse.Base.Int.{ℤ, negsuc}
use storm_pulse.Json.{Fields}
use storm_pulse.Protocol.Reasons.{FailureReason, reason_text}

pub record ResultError : Type 0 where
  pub code : String
  pub http_status : Option ℤ
  pub upstream_code : Option String
  pub message : String

pub record CommandResult : Type 0 where
  pub request_id : String
  pub command : String
  pub group : String
  pub success : Bool
  pub exit_code : ℤ
  pub stdout : String
  pub stderr : String
  pub duration_ms : ℕ
  pub sequence_id : Option String
  pub failure_reason : Option FailureReason
  pub result : Option Fields
  pub error : Option ResultError
  pub step_index : Option ℕ
  pub attempts : ℕ
  pub retries_exhausted : Bool

abbrev pub code_of : Option FailureReason → String
code_of none = "unspecified"
code_of (some reason) = reason_text reason

abbrev derived_error : CommandResult → ResultError
derived_error r = record {
  code = code_of r.failure_reason;
  http_status = none;
  upstream_code = none;
  message = r.stderr;
}

unfoldable pub settle : CommandResult → Bool → Option ResultError → Option CommandResult
settle r true (some e) = none
settle r true none = some r
settle r false (some e) = some r
settle r false none = some (record r { error = some (derived_error r) })

-- `__post_init__`: `none` is the ValueError. A reason is a member of the enum by its type here.
unfoldable pub post_init : CommandResult → Option CommandResult
unfolding settle
post_init r = settle r r.success r.error

-- `failed`: its arguments fit `__post_init__`, so the instance is written with the derived error.
unfoldable pub failed :
    String → String → String → FailureReason → String → Option String → Option ℕ → ℕ → CommandResult
failed request_id command group reason message sequence_id step_index duration_ms = record {
  request_id = request_id;
  command = command;
  group = group;
  success = false;
  exit_code = negsuc 0;
  stdout = "";
  stderr = message;
  duration_ms = duration_ms;
  sequence_id = sequence_id;
  failure_reason = some reason;
  result = none;
  error = some (record {
    code = reason_text reason;
    http_status = none;
    upstream_code = none;
    message = message;
  });
  step_index = step_index;
  attempts = 1;
  retries_exhausted = false;
}

-- An error rides on every failure and on no success.
pub record IsSettled (r : CommandResult) : Type 0 where
  pub on_success : r.success ≡ true → r.error ≡ none
  pub on_failure : r.success ≡ false → (e : ResultError) × (r.error ≡ some e)

settle-error :
    (r s : CommandResult) (b : Bool) (o : Option ResultError)
    → r.success ≡ b
    → r.error ≡ o
    → settle r b o ≡ some s
    → s.success ≡ false
    → (e : ResultError) × (s.error ≡ some e)
unfolding settle
settle-error r s true (some e) p q h k = absurd (ground arith)
settle-error r s true none p q h k = absurd (ground arith)
settle-error r s false (some e) p q h k = (e, ground arith)
settle-error r s false none p q h k = (derived_error r, ground arith)

settle-keeps :
    (r s : CommandResult) (b : Bool) (o : Option ResultError)
    → r.error ≡ o
    → settle r b o ≡ some s
    → (s.success ≡ r.success)
      × (s.failure_reason ≡ r.failure_reason)
      × ((e : ResultError) → r.error ≡ some e → s.error ≡ some e)
unfolding settle
settle-keeps r s true (some e) q h = absurd (cc)
settle-keeps r s true none q h = (ground arith, ground arith, λ e k. ground arith)
settle-keeps r s false (some e) q h = (ground arith, ground arith, λ e k. ground arith)
settle-keeps r s false none q h = (ground arith, ground arith, λ e k. ground arith)

settle-success :
    (r s : CommandResult) (b : Bool) (o : Option ResultError)
    → r.success ≡ b
    → r.error ≡ o
    → settle r b o ≡ some s
    → s.success ≡ true
    → s.error ≡ none
unfolding settle
settle-success r s true (some e) p q h k = absurd (cc)
settle-success r s true none p q h k = ground arith
settle-success r s false (some e) p q h k = absurd (ground arith)
settle-success r s false none p q h k = absurd (ground arith)

-- What construction returns has an error if and only if it failed, and keeps the verdict, the reason
-- and an error that was given.
pub post_init-IsSettled :
    (r s : CommandResult)
    → post_init r ≡ some s
    → IsSettled s
      × (s.success ≡ r.success)
      × (s.failure_reason ≡ r.failure_reason)
      × ((e : ResultError) → r.error ≡ some e → s.error ≡ some e)
unfolding post_init
post_init-IsSettled r s h =
    let (verdict, reason, given) = settle-keeps r s r.success r.error refl h in
    (
      record {
        on_success = settle-success r s r.success r.error refl refl h;
        on_failure = settle-error r s r.success r.error refl refl h;
      },
      verdict,
      reason,
      given,
    )

pub failed-IsSettled :
    (request_id command group : String) (reason : FailureReason) (message : String)
    (sequence_id : Option String) (step_index : Option ℕ) (duration_ms : ℕ)
    → IsSettled (failed request_id command group reason message sequence_id step_index duration_ms)
unfolding failed
failed-IsSettled request_id command group reason message sequence_id step_index duration_ms =
    record { on_success = λ h. cc; on_failure = λ h. (_, refl) }
