-- ===== src/Dispatch/Sequence/Cleared.antt =====
-- What a sequence (stormpulse/agent/dispatch.py) may set in motion: steps of a checked batch, each
-- admitted in the world it meets; and how a batch that fails a check is answered.
use storm_pulse.Base.{
  Bool-cases, drop, All, ℕ, zero, suc, String, ◌≡◌, refl, sym, ap, inl, inr, Bool, true, false, not,
  ◌&&◌, Option, none, some, List, [], ◌∷◌, map, arith,
}
use storm_pulse.Protocol.Reasons.{FailureReason}
use storm_pulse.Protocol.Results.{CommandResult}
use storm_pulse.Auth.{sequence, Step}
use storm_pulse.Commands.Spec.{CommandSpec}
use storm_pulse.Commands.Registry.{Lookup, found, command_error, get_command}
use storm_pulse.Commands.Registry.Execution.{
  run_raised, Execution, completed, not_admitted, invalid_params, unknown_placeholder,
}
use storm_pulse.Signoff.Admission.{Emitted, Refusal, refusal_for, is_blocked_by_seal}
use storm_pulse.Signoff.Admission.Gate.{IsAdmitted, refusal_for-IsAdmitted}
use storm_pulse.Dispatch.{
  Effect, send, emitted, executes, Handled, done, protocol_error, raised, Agent, Texts, World,
  refuse_incompatible_command,
}
use storm_pulse.Dispatch.Single.{before}
use storm_pulse.Dispatch.Single.Effects.{effects_of, Acts, Acts-map, IsCompatible}
use storm_pulse.Dispatch.Single.Served.{refuse_by-IsCompatible}
use storm_pulse.Dispatch.Sequence.{
  sealed_in_sequence, first_sealed, names_of, stamp, stopping, step_failure, after_step,
  admitted_step, run_steps, first_invalid, refused_entry, after_seal, after_invalid, after_restart,
  sequence_session, handle_sequence,
}

-- Step `k` of the batch names the command, and is admitted in the world that it meets.
abbrev pub IsStep : Agent → (ℕ → World) → List Step → String → Type 0
IsStep agent worlds steps c =
    (k : ℕ) × (step : Step) × (rest : List Step) × (drop k steps ≡ step ∷ rest)
    × (step.command ≡ c)
    × IsAdmitted (worlds k).grants (worlds k).signoff agent.registry c

drop-next {ℓ} :
    {A : Type ℓ} (k : ℕ) (xs : List A) (y : A) (ys : List A)
    → drop k xs ≡ y ∷ ys
    → drop (suc k) xs ≡ ys
drop-next zero [] y ys h = absurd (ground (arith, h))
drop-next zero (x ∷ xs) y ys h = ap (drop 1) h
drop-next (suc k) [] y ys h = absurd (ground (arith, h))
drop-next (suc k) (x ∷ xs) y ys h = drop-next k xs y ys h

module _ (P : String → Type 0) where
  before-Acts :
      (es : List Effect) (h : Handled)
      → All (Acts P) es
      → All (Acts P) (effects_of h)
      → All (Acts P) (effects_of (before es h))
  before-Acts [] (done fs) p q = q
  before-Acts [] (protocol_error fs x) p q = q
  before-Acts [] (raised fs) p q = q
  before-Acts (e ∷ es) (done fs) p q = (p.0, before-Acts es (done fs) p.1 q)
  before-Acts (e ∷ es) (protocol_error fs x) p q = (p.0, before-Acts es (protocol_error fs x) p.1 q)
  before-Acts (e ∷ es) (raised fs) p q = (p.0, before-Acts es (raised fs) p.1 q)

  events-Acts : (events : List Emitted) → All (Acts P) (map emitted events)
  events-Acts [] = tt
  events-Acts (x ∷ events) = (tt, events-Acts events)

  stopping-Acts :
      (stop : Bool) (r : CommandResult) (rest : Handled)
      → All (Acts P) (effects_of rest)
      → All (Acts P) (effects_of (stopping stop r rest))
  stopping-Acts stop r rest h = elim (Bool-cases (stop && not r.success)) [
    | inl halt ↦ rw halt (tt, tt)
    | inr on ↦ rw on (before-Acts (send r ∷ []) rest (tt, tt) h)
  ]

  module _ (texts : Texts) (agent : Agent) (sequence_id ref : String) (stop : Bool) (k : ℕ)
      (world : World) where
    step_failure-Acts :
        (command : String) (reason : FailureReason) (message : String) (o : Option CommandSpec)
        (rest : Handled)
        → All (Acts P) (effects_of rest)
        → All (Acts P) (
            effects_of
              (step_failure texts agent sequence_id ref stop k world command reason message o rest))
    step_failure-Acts command reason message none rest h = tt
    step_failure-Acts command reason message (some spec) rest h = stopping-Acts stop _ rest h

    after_step-Acts :
        (command : String) (x : Execution) (rest : Handled)
        → All (Acts P) (effects_of rest)
        → All
            (Acts P)
            (effects_of (after_step texts agent sequence_id ref stop k world command x rest))
    after_step-Acts command (completed r) rest h = stopping-Acts stop _ rest h
    after_step-Acts command (not_admitted why) rest h = step_failure-Acts command why _ _ rest h
    after_step-Acts command (invalid_params e) rest h = step_failure-Acts command _ _ _ rest h
    after_step-Acts command unknown_placeholder rest h = tt
    after_step-Acts command run_raised rest h = tt

    admitted_step-Acts :
        (step : Step) (r : Refusal) (rest : Handled)
        → (r.0 ≡ none → P step.command)
        → All (Acts P) (effects_of rest)
        → All
            (Acts P)
            (effects_of (admitted_step texts agent sequence_id ref stop k world step r rest))
    admitted_step-Acts step (some r, events) rest holds h =
        before-Acts (map emitted events) (done (send (stamp sequence_id k r) ∷ []))
          (events-Acts events) (tt, tt)
    admitted_step-Acts step (none, events) rest holds h =
        before-Acts (map emitted events) _ (events-Acts events) (
          before-Acts (executes step.command ∷ []) _ (holds refl, tt)
            (after_step-Acts step.command _ rest h))

module _ (texts : Texts) (agent : Agent) (sequence_id ref : String) (stop : Bool)
    (worlds : ℕ → World) (batch : List Step) where
  run_steps-Acts :
      (k : ℕ) (steps : List Step)
      → drop k batch ≡ steps
      → All
          (Acts (IsStep agent worlds batch))
          (effects_of (run_steps texts agent sequence_id ref stop worlds k steps))
  unfolding run_steps
  run_steps-Acts k [] e = tt
  run_steps-Acts k (step ∷ steps) e =
      let w = worlds k in
      admitted_step-Acts (IsStep agent worlds batch) texts agent sequence_id ref stop k w step
        (refusal_for texts.words w.grants w.request_id ref w.signoff agent.registry step.command)
        (run_steps texts agent sequence_id ref stop worlds (suc k) steps)
        (λ h. (
          k,
          step,
          steps,
          e,
          refl,
          (refusal_for-IsAdmitted texts.words w.grants w.request_id ref w.signoff agent.registry
                step.command).0
              h,
        ))
        (run_steps-Acts (suc k) steps (drop-next k batch step steps e))

-- Every name of the batch is found, under its grant, and none of them is behind the seal.
pub record IsChecked (agent : Agent) (world : World) (steps : List Step) : Type 0 where
  pub compatible : IsCompatible agent.session
  pub known :
      All
        (λ name. (spec : CommandSpec) × (get_command world.grants name agent.registry ≡ found spec))
        (names_of steps)
  pub unblocked : is_blocked_by_seal world.signoff (names_of steps) ≡ false

module _ (texts : Texts) (agent : Agent) (sequence_id ref : String) where
  refused_entry-none :
      (world : World) (name : String) (k : ℕ) (l : Lookup) (later : Option CommandResult)
      → refused_entry texts agent sequence_id ref world name k l later ≡ none
      → ((spec : CommandSpec) × (l ≡ found spec)) × (later ≡ none)
  refused_entry-none world name k (found spec) later h = ((spec, refl), h)
  refused_entry-none world name k (command_error why) later h = absurd (cc h)

  first_invalid-none :
      (world : World) (k : ℕ) (names : List String)
      → first_invalid texts agent sequence_id ref world k names ≡ none
      → All
          (λ name.
            (spec : CommandSpec) × (get_command world.grants name agent.registry ≡ found spec))
          names
  unfolding first_invalid
  first_invalid-none world k [] h = tt
  first_invalid-none world k (name ∷ names) h =
      let (here, later) =
        refused_entry-none world name k (get_command world.grants name agent.registry) _ h in
      (here, first_invalid-none world (suc k) names later)

  module _ (stop : Bool) (world : World) (worlds : ℕ → World) (steps : List Step) where
    -- what the whole handler may set in motion
    abbrev pub IsTaken : String → Type 0
    IsTaken c = IsStep agent worlds steps c × IsChecked agent world steps

    sealed-Acts :
        (names : List String)
        → All (Acts IsTaken) (first_sealed texts agent sequence_id ref world (names_of steps) names)
    sealed-Acts [] = tt
    sealed-Acts (name ∷ names) = (tt, (tt, tt))

    after_seal-Acts :
        (b : Bool)
        → (b ≡ false → IsChecked agent world steps)
        → All
            (Acts IsTaken)
            (effects_of (after_seal texts agent sequence_id ref stop world worlds steps b))
    after_seal-Acts true checked = sealed-Acts (sealed_in_sequence (names_of steps))
    after_seal-Acts false checked =
        Acts-map (IsStep agent worlds steps) IsTaken (λ c h. (h, checked refl)) _
          (run_steps-Acts texts agent sequence_id ref stop worlds steps 0 steps refl)

    after_invalid-Acts :
        (o : Option CommandResult)
        → o ≡ first_invalid texts agent sequence_id ref world 0 (names_of steps)
        → IsCompatible agent.session
        → All
            (Acts IsTaken)
            (effects_of (after_invalid texts agent sequence_id ref stop world worlds steps o))
    after_invalid-Acts (some r) e compatible = (tt, tt)
    after_invalid-Acts none e compatible =
        after_seal-Acts (is_blocked_by_seal world.signoff (names_of steps)) (λ h. record {
          compatible = compatible;
          known = first_invalid-none world 0 (names_of steps) (sym e);
          unblocked = h;
        })

    after_restart-Acts :
        (o : Option String)
        → IsCompatible agent.session
        → All
            (Acts IsTaken)
            (effects_of (after_restart texts agent sequence_id ref stop world worlds steps o))
    after_restart-Acts (some name) compatible = (tt, tt)
    after_restart-Acts none compatible = after_invalid-Acts _ refl compatible

    session-Acts :
        (o : Option CommandResult)
        → (o ≡ none → IsCompatible agent.session)
        → All
            (Acts IsTaken)
            (effects_of (sequence_session texts agent sequence_id ref stop world worlds steps o))
    session-Acts (some r) compatible = (tt, tt)
    session-Acts none compatible = after_restart-Acts _ (compatible refl)

    pub handle_sequence-Acts :
        All
          (Acts IsTaken)
          (effects_of (handle_sequence texts agent sequence_id ref stop world worlds steps))
    unfolding handle_sequence refuse_incompatible_command
    handle_sequence-Acts =
        session-Acts _
          (refuse_by-IsCompatible texts agent ref (sequence sequence_id steps stop) agent.session)
