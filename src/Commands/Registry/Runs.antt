-- ===== src/Commands/Registry/Runs.antt =====
-- A run of `execute_command` (stormpulse/commands/registry.py): what it may start and how it reports.
use storm_pulse.Base.{
  Bool-cases, ◌==◌, string_eq, pair_eq, nat_eq, keep_if, elem, ℕ, zero, suc, String, ◌≡◌, refl, ap,
  ◌≢◌, ◌↔◌, inl, inr, Bool, true, false, not, ◌&&◌, Option, none, some, List, [], ◌∷◌, arith,
}
use mathlib.Core.Path.{subst}
use storm_pulse.Base.Dict
use storm_pulse.Base.Dict.{Dict}
use storm_pulse.Base.Int.{pos, negsuc}
use storm_pulse.Base.Text.{is_flag}
use storm_pulse.Json.{Json}
use storm_pulse.Protocol.Reasons.{FailureReason, exit_code, timeout, not_found, os_error}
use storm_pulse.Protocol.Results.{ResultError, CommandResult, failed, IsSettled}
use storm_pulse.Commands.Spec.{CommandSpec, subprocess}
use storm_pulse.Commands.Params.{Checked, ok, err, validate_params}
use storm_pulse.Commands.Registry.{
  Lookup, found, command_error, get_command, refusal_by, strip_empty, resolve_command,
}
use storm_pulse.Commands.Registry.Execution.{
  after_run, Finish, exited, timed_out, file_not_found, os_failed, Execution, completed, Messages,
  report_finish, after_resolve, after_params, after_lookup, Host, execute_command, execute_spec,
}
use storm_pulse.Commands.Registry.Whitelist.{get_command-found}

-- A word that is neither empty nor a flag.
abbrev pub is_plain : String → Bool
is_plain a = not (is_flag a) && not (a == "")

-- Words that are neither empty nor a flag stay, all of them and in order.
pub strip_empty-plain :
    (argv : List String) → keep_if is_plain (strip_empty argv) ≡ keep_if is_plain argv
unfolding strip_empty
strip_empty-plain [] = refl
strip_empty-plain (a ∷ []) = refl
strip_empty-plain (a ∷ b ∷ argv) = elim (Bool-cases (is_flag a)) [
  | inl f ↦ elim (Bool-cases (b == "")) [
    | inl e ↦ ground (arith, f, e, strip_empty-plain argv)
    | inr e ↦ ground (arith, f, e, strip_empty-plain (b ∷ argv))
  ]
  | inr f ↦ ground (arith, f, strip_empty-plain (b ∷ argv))
]

-- An argv without an empty word stays as it is.
pub strip_empty-full : (argv : List String) → elem "" argv ≡ false → strip_empty argv ≡ argv
unfolding strip_empty
strip_empty-full [] h = refl
strip_empty-full (a ∷ []) h = refl
strip_empty-full (a ∷ b ∷ argv) h = ground (arith, strip_empty-full (b ∷ argv))

abbrev result_of : CommandResult → Execution → CommandResult
result_of d (completed r) = r
result_of d e = d

completed-eq : {r s : CommandResult} → completed r ≡ completed s → r ≡ s
completed-eq {r} h = ap (result_of r) h

-- What a finished process is reported as: a success is exit code 0 and nothing else, and the error is
-- there exactly on a failure.
pub record IsReport (finish : Finish) (r : CommandResult) : Type 0 where
  pub settled : IsSettled r
  pub verdict :
      (r.success ≡ true) ↔ ((out : String) × (errs : String) × (finish ≡ exited (pos 0) out errs))
  pub reason : (r.success ≡ false) ↔ ((f : FailureReason) × (r.failure_reason ≡ some f))

-- A report without an exit code tells of a failure for a reason.
failure-IsReport :
    (finish : Finish) (r : CommandResult) (f : FailureReason) (e : ResultError)
    → ((out errs : String) → finish ≢ exited (pos 0) out errs)
    → r.success ≡ false
    → r.failure_reason ≡ some f
    → r.error ≡ some e
    → IsReport finish r
failure-IsReport finish r f e other unsuccessful why has = record {
  settled = record { on_success = λ h. absurd (ground arith); on_failure = λ h. (e, has) };
  verdict = (λ h. absurd (ground arith), λ (out, errs, same). absurd (other out errs same));
  reason = (λ h. (f, why), λ h. unsuccessful);
}

module _ (texts : Messages) (request_id command : String) (sequence_id : Option String)
    (duration_ms : ℕ) (group : String) (seconds : ℕ) (argv : List String) where
  report_finish-IsReport :
      (finish : Finish)
      → IsReport finish
          (report_finish texts request_id command sequence_id duration_ms group seconds argv finish)
  unfolding report_finish failed
  report_finish-IsReport (exited (pos zero) out errs) = record {
    settled = record { on_success = λ h. refl; on_failure = λ h. absurd (cc) };
    verdict = (λ h. (out, errs, refl), λ h. refl);
    reason = (λ h. absurd (cc), λ h. absurd (cc));
  }
  report_finish-IsReport (exited (pos (suc n)) out errs) =
      failure-IsReport _ _ exit_code _ (λ o e h. cc) refl refl refl
  report_finish-IsReport (exited (negsuc n) out errs) =
      failure-IsReport _ _ exit_code _ (λ o e h. cc) refl refl refl
  report_finish-IsReport (timed_out out errs) =
      failure-IsReport _ _ timeout _ (λ o e h. cc) refl refl refl
  report_finish-IsReport file_not_found =
      failure-IsReport _ _ not_found _ (λ o e h. cc) refl refl refl
  report_finish-IsReport (os_failed message) =
      failure-IsReport _ _ os_error _ (λ o e h. cc) refl refl refl

-- What a run that came to a result did: `spec` is the registry's subprocess entry of the name, not
-- refused by its grant; the params passed its checks; the process is its own template filled in, under
-- its own timeout, and the result reports how that process ended.
pub record IsRun (host : Host) (name : String) (registry : Dict String CommandSpec)
    (runtime : Dict String Json) (r : CommandResult) : Type 0 where
  pub spec : CommandSpec
  pub params : Dict String Json
  pub argv : List String
  pub registered : Dict.get name registry ≡ some spec
  pub in_process : spec.mode ≡ subprocess
  pub granted : refusal_by host.grants spec.authorize ≡ none
  pub accepted : validate_params host.fullmatch host.dumps spec runtime ≡ ok params
  pub resolved : resolve_command (host.format params) spec.command ≡ some argv
  pub reported : (finish : Finish) × (host.run argv spec.timeout ≡ some finish) × IsReport finish r

after_run-completed :
    (report : Finish → CommandResult) (o : Option Finish) (r : CommandResult)
    → after_run report o ≡ completed r
    → (finish : Finish) × (o ≡ some finish) × (report finish ≡ r)
after_run-completed report none r h = absurd (cc)
after_run-completed report (some finish) r h = (finish, refl, completed-eq h)

after_resolve-completed :
    (run : List String → ℕ → Option Finish) (report : List String → Finish → CommandResult)
    (seconds : ℕ) (o : Option (List String)) (r : CommandResult)
    → after_resolve run report seconds o ≡ completed r
    → (argv : List String) × (o ≡ some argv)
      × (finish : Finish) × (run argv seconds ≡ some finish)
      × (report argv finish ≡ r)
after_resolve-completed run report seconds none r h = absurd (cc)
after_resolve-completed run report seconds (some argv) r h =
    let (finish, ran, same) = after_run-completed (report argv) (run argv seconds) r h in
    (argv, refl, finish, ran, same)

after_params-completed :
    (run : List String → ℕ → Option Finish) (report : List String → Finish → CommandResult)
    (seconds : ℕ) (resolve : Dict String Json → Option (List String))
    (c : Checked (Dict String Json)) (r : CommandResult)
    → after_params run report seconds resolve c ≡ completed r
    → (params : Dict String Json) × (argv : List String) × (c ≡ ok params)
      × (resolve params ≡ some argv)
      × (finish : Finish) × (run argv seconds ≡ some finish)
      × (report argv finish ≡ r)
after_params-completed run report seconds resolve (err e) r h = absurd (cc)
after_params-completed run report seconds resolve (ok params) r h =
    let (argv, e, finish, ran, k) =
      after_resolve-completed run report seconds (resolve params) r h in
    (params, argv, refl, e, finish, ran, k)

module _ (host : Host) (name request_id : String) (sequence_id : Option String) (duration_ms : ℕ)
    (registry : Dict String CommandSpec) (runtime : Dict String Json) where
  started :
      (l : Lookup) (r : CommandResult)
      → get_command host.grants name registry ≡ l
      → after_lookup (execute_spec host name request_id sequence_id duration_ms runtime) l
        ≡ completed r
      → IsRun host name registry runtime r
  unfolding execute_spec
  started (command_error why) r g h = absurd (cc)
  started (found spec) r g h =
      let (there, mode, free) = get_command-found host.grants name registry spec g in
      let (params, argv, valid, filled, finish, ran, report) =
        after_params-completed host.run
          (report_finish host.texts request_id name sequence_id duration_ms spec.group spec.timeout)
          spec.timeout (λ params. resolve_command (host.format params) spec.command)
          (validate_params host.fullmatch host.dumps spec runtime) r h in
      record {
        spec = spec;
        params = params;
        argv = argv;
        registered = there;
        in_process = mode;
        granted = free;
        accepted = valid;
        resolved = filled;
        reported = (
          finish,
          ran,
          subst (IsReport finish) report (
              report_finish-IsReport host.texts request_id name sequence_id duration_ms spec.group
                spec.timeout argv finish),
        );
      }

  -- A completed run started exactly what the registry has under the name: its own template filled in
  -- with params that passed its checks, under its own timeout, and not fenced by its grant. The
  -- result is a success exactly if the process exited with 0, carries an error exactly on a failure,
  -- and a reason exactly then.
  pub execute_command-IsRun :
      (r : CommandResult)
      → execute_command host name request_id sequence_id duration_ms registry runtime ≡ completed r
      → IsRun host name registry runtime r
  unfolding execute_command
  execute_command-IsRun r h = started (get_command host.grants name registry) r refl h
