-- ===== src/Jobs/Tests.antt =====
-- Runs of the long-running commands (stormpulse/commands/jobs.py) on concrete inputs.
use storm_pulse.Base.{
  string_eq, pair_eq, nat_eq, ◌*◌, ◌≤◌, String, ◌≡◌, refl, true, false, none, some, [], ◌∷◌, arith,
}
use storm_pulse.Base.Dict
use storm_pulse.Base.Int.{pos}
use storm_pulse.Base.Totals.{total}
use storm_pulse.Auth.{second}
use storm_pulse.Json.{end}
use storm_pulse.Protocol.Reasons.{os_error}
use storm_pulse.Protocol.Results.{IsSettled}
use storm_pulse.Jobs.Outcome.{JobOutcome, Tally, outcome_ok, job_result, job_result-IsSettled}
use storm_pulse.Jobs.Attempts.{
  first_round, admits, grants, open_window, returned, Rounds, finished, run, first_round, attempt,
}
use storm_pulse.Jobs.Attempts.Ends.{IsTimed, Settles, run-Settles}
use storm_pulse.Jobs.Manager.{
  start, commit_result, enter_permit, is_running, quota_pending, quota_admission_open,
  should_shed_quota, Manager, new_manager, load, settle, close_admission,
}
use storm_pulse.Jobs.Manager.Steps.{Reach, here, next, accept, enter, commit, close, cancel_jobs}
use storm_pulse.Jobs.Manager.Invariant.{answered, holds}
use storm_pulse.Jobs.Manager.Invariant.Bounds.{Reach-limits}
use storm_pulse.Jobs.Manager.Invariant.Answered.{answered_once}

abbrev busy : JobOutcome
busy = record {
  success = false;
  exit_code = pos 1;
  stdout = "";
  stderr = "busy";
  failure_reason = some os_error;
  extras = end;
  error_code = some "busy";
  upstream_code = none;
  retry_after_s = some 2;
}

abbrev tally : Tally
tally = record { attempts = 2; work_ms = 0; concurrent = 1; retries_exhausted = true }

job_result-IsSettled_example : IsSettled (job_result "r1" "bucket_clear" "garage" busy tally)
job_result-IsSettled_example = job_result-IsSettled "r1" "bucket_clear" "garage" busy tally

abbrev message : String → String
message name = name

-- A handler that is always busy, tried every three seconds.
abbrev busy_rounds : Rounds
busy_rounds = record {
  handled = λ k. returned busy;
  opened_at = λ k. k * (3 * second);
  admitted_at = λ k. k * (3 * second);
  started_at = λ k. k * (3 * second);
  ended_at = λ k. k * (3 * second);
  granted_at = λ k. k * (3 * second);
  concurrent = λ k. 1;
  closing = λ k. false;
}

busy_rounds-IsTimed : IsTimed message busy_rounds
unfolding attempt outcome_ok
busy_rounds-IsTimed = record {
  admitted = λ k. omega arith;
  granted = λ k. omega arith;
  slept = λ k d h. ground (arith, h);
  valid = λ k. refl;
}

busy_run : run message busy_rounds 6 (first_round (some 5)) ≡ finished busy tally
unfolding run open_window grants admits attempt
busy_run = refl

run-Settles_example :
    Settles busy_rounds (some 5) (run message busy_rounds 6 (first_round (some 5)))
run-Settles_example = run-Settles message busy_rounds busy_rounds-IsTimed (some 5) 6 (omega arith)

-- A job is accepted, runs, sends its result; a second one is cancelled by the shutdown.
abbrev shut : (m : Manager) × Reach new_manager m
unfolding should_shed_quota quota_admission_open quota_pending start is_running enter_permit
    commit_result close_admission settle total Dict.get Dict.put
shut = (
  _,
  next
      (next
        (next
          (next
            (next (next here (accept "r1" "bucket_clear" _ refl refl))
              (enter "r1" 0 "bucket_clear" refl (omega arith)))
            (accept "r2" "garage_bucket_set_quota" _ refl refl))
          (commit "r1" 0 "bucket_clear" false refl refl))
        close)
      (cancel_jobs true refl refl),
)

Reach-limits_example :
    ((load shut.0).running ≡ total holds (shut.0).jobs)
    × ((load shut.0).running ≤ 6)
    × ((load shut.0).running ≤ (load shut.0).pending)
    × ((load shut.0).quota_pending ≤ 6)
    × ((load shut.0).quota_running ≤ (load shut.0).running)
Reach-limits_example = Reach-limits shut.0 shut.1

answered_once_example :
    (answered 0 (shut.0).sent ≤ 1) × ((shut.0).next ≤ 0 → answered 0 (shut.0).sent ≡ 0)
answered_once_example = answered_once shut.0 shut.1 0

-- The second job is owed its cancellation, the first is not.
shut_owed : (shut.0).owed ≡ ("r2", 1) ∷ []
unfolding should_shed_quota quota_admission_open quota_pending start is_running enter_permit
    commit_result close_admission settle total Dict.get Dict.put
shut_owed = refl
