-- ===== src/Dispatch/Sequence/Steps.antt =====
-- A whole sequence (stormpulse/agent/dispatch.py): its stream of results from the first step on.
use storm_pulse.Base.{
  Bool-cases, string_eq, pair_eq, nat_eq, length, ℕ, suc, String, ◌≡◌, refl, inl, inr, Bool, false,
  Option, none, some, List, [], ◌∷◌, arith,
}
use storm_pulse.Base.Dict
use storm_pulse.Base.Dict.{Dict}
use storm_pulse.Protocol.Results.{CommandResult, failed}
use storm_pulse.Auth.{Step}
use storm_pulse.Commands.Spec.{CommandSpec}
use storm_pulse.Signoff.{SignoffState}
use storm_pulse.Signoff.Admission.{
  sealed_refusal_result, restart_pending_result, needs_restart_to_load, is_blocked_by_seal, Wording,
  Refusal, sealed, fence, fence_entry, fenced, ask_restart, restart_pending, or_refusal,
  refusal_for,
}
use storm_pulse.Dispatch.{Handled, send, done, Agent, Texts, World}
use storm_pulse.Dispatch.Sequence.{stamp, admitted_step, run_steps}
use storm_pulse.Dispatch.Sequence.Stream.{
  IsStreamed, emitted-IsStreamed, after_step-IsStreamed, executes-IsStreamed,
}

-- a refusal is a failure
abbrev Fails : Option CommandResult → Type 0
Fails none = Unit
Fails (some r) = r.success ≡ false

or_refusal-Fails : (a b : Refusal) → Fails a.0 → Fails b.0 → Fails (or_refusal a b).0
or_refusal-Fails (some r, events) b p q = p
or_refusal-Fails (none, events) b p q = q

module _ (words : Wording) (grants : String → Option String) (request_id ref : String) where
  sealed-Fails :
      (state : SignoffState) (registry : Dict String CommandSpec) (command : String)
      → Fails (sealed words grants request_id ref state registry command).0
  unfolding sealed sealed_refusal_result failed
  sealed-Fails state registry command =
      elim (Bool-cases (is_blocked_by_seal state (command ∷ []))) [
        | inl e ↦ rw e refl
        | inr e ↦ rw e tt
      ]

  fence-Fails :
      (command group : String) (o : Option String)
      → Fails (fence words grants request_id ref command group o).0
  unfolding failed
  fence-Fails command group none = tt
  fence-Fails command group (some why) = refl

  fence_entry-Fails :
      (command : String) (o : Option CommandSpec)
      → Fails (fence_entry words grants request_id ref command o).0
  fence_entry-Fails command none = tt
  fence_entry-Fails command (some spec) = fence-Fails command spec.group _

  ask_restart-Fails : (o : Option String) → Fails (ask_restart words grants request_id ref o).0
  unfolding restart_pending_result failed
  ask_restart-Fails none = tt
  ask_restart-Fails (some name) = refl

  refusal_for-Fails :
      (state : SignoffState) (registry : Dict String CommandSpec) (command : String)
      → Fails (refusal_for words grants request_id ref state registry command).0
  unfolding refusal_for fenced restart_pending
  refusal_for-Fails state registry command =
      or_refusal-Fails (sealed words grants request_id ref state registry command) _
        (sealed-Fails state registry command)
        (or_refusal-Fails
          (fence_entry words grants request_id ref command (Dict.get command registry))
          (ask_restart words grants request_id ref
            (needs_restart_to_load state registry (command ∷ [])))
          (fence_entry-Fails command (Dict.get command registry))
          (ask_restart-Fails (needs_restart_to_load state registry (command ∷ []))))

module _ (texts : Texts) (agent : Agent) (sequence_id ref : String) (stop : Bool) where
  admitted_step-IsStreamed :
      (k n : ℕ) (world : World) (step : Step) (r : Refusal) (rest : Handled)
      → Fails r.0
      → IsStreamed sequence_id stop (suc k) n rest
      → IsStreamed sequence_id stop k
          (suc n)
          (admitted_step texts agent sequence_id ref stop k world step r rest)
  unfolding stamp
  admitted_step-IsStreamed k n world step (some r, events) rest fails s =
      emitted-IsStreamed sequence_id stop k (suc n) events
        (done (send (stamp sequence_id k r) ∷ []))
        (record {
          stream = (refl, refl, (λ h. refl), tt);
          few = omega arith;
          complete = inr (rw fails refl);
        })
  admitted_step-IsStreamed k n world step (none, events) rest fails s =
      emitted-IsStreamed sequence_id stop k (suc n) events _ (
        executes-IsStreamed sequence_id stop k (suc n) step.command _
          (after_step-IsStreamed texts agent sequence_id ref stop k n world step.command _ rest s))

  pub run_steps-IsStreamed :
      (worlds : ℕ → World) (k : ℕ) (steps : List Step)
      → IsStreamed sequence_id stop k
          (length steps)
          (run_steps texts agent sequence_id ref stop worlds k steps)
  unfolding run_steps
  run_steps-IsStreamed worlds k [] = record { stream = tt; few = omega arith; complete = inl refl }
  run_steps-IsStreamed worlds k (step ∷ steps) =
      let w = worlds k in
      admitted_step-IsStreamed k (length steps) w step
        (refusal_for texts.words w.grants w.request_id ref w.signoff agent.registry step.command) _
        (refusal_for-Fails texts.words w.grants w.request_id ref w.signoff agent.registry
          step.command)
        (run_steps-IsStreamed worlds (suc k) steps)
