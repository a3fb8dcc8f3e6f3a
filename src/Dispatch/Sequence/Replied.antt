-- ===== src/Dispatch/Sequence/Replied.antt =====
-- How a sequence is answered (`handle_sequence` of the model, in `handle_command_sequence` of
-- stormpulse/agent/dispatch.py).
use storm_pulse.Base.{
  Bool-cases, string_eq, pair_eq, nat_eq, length, any, All, elem, ℕ, suc, String, ◌≡◌, refl, ◌≢◌,
  ◌⊎◌, inl, inr, Bool, true, false, ◌||◌, Option, none, some, List, [], ◌∷◌, arith,
}
use storm_pulse.Protocol.Results.{CommandResult, failed}
use storm_pulse.Auth.{sequence, Step}
use storm_pulse.Commands.Registry.{
  Lookup, found, command_error, get_command, sealed_commands, apply_block_command,
  verify_block_command,
}
use storm_pulse.Signoff.Admission.{
  restart_pending_result, sealed_refusal_result, is_blocked_by_seal, needs_restart_to_load,
}
use storm_pulse.Dispatch.{
  compatible, sequence_position, Effect, send, executes, Handled, done, Agent, Session, Texts,
  World, refuse_incompatible_command, refuse_by,
}
use storm_pulse.Dispatch.Single.Effects.{effects_of}
use storm_pulse.Dispatch.Sequence.{
  names_of, stamp, first_invalid, first_sealed, sealed_in_sequence, refused_entry, after_seal,
  after_invalid, after_restart, sequence_session, handle_sequence,
}
use storm_pulse.Dispatch.Sequence.Stream.{IsStreamed, results}
use storm_pulse.Dispatch.Sequence.Steps.{run_steps-IsStreamed}

abbrev pub Named : String → Effect → Type 0
Named sequence_id (send r) = (r.sequence_id ≡ some sequence_id) × (r.success ≡ false)
Named sequence_id (executes c) = ⊥
Named sequence_id x = Unit

-- A batch that fails a check: one failed result of the sequence, and nothing is executed.
pub record IsRefusedBatch (sequence_id : String) (h : Handled) : Type 0 where
  pub answered : results (effects_of h) ≡ 1
  pub named : All (Named sequence_id) (effects_of h)

-- Each result of the sequence in order, or the one of a refused batch.
abbrev pub IsReplied : String → Bool → ℕ → Handled → Type 0
IsReplied sequence_id stop n h = IsRefusedBatch sequence_id h ⊎ IsStreamed sequence_id stop 0 n h

abbrev IsReply : String → Option CommandResult → Type 0
IsReply sequence_id none = Unit
IsReply sequence_id (some r) = (r.sequence_id ≡ some sequence_id) × (r.success ≡ false)

one_reply :
    (sequence_id : String) (r : CommandResult)
    → r.sequence_id ≡ some sequence_id
    → r.success ≡ false
    → IsRefusedBatch sequence_id (done (send r ∷ []))
one_reply sequence_id r named fails = record { answered = refl; named = ((named, fails), tt) }

blocked-elem :
    (names : List String)
    → any (λ name. elem name sealed_commands) names ≡ true
    → (elem apply_block_command names || elem verify_block_command names) ≡ true
blocked-elem [] h = absurd (cc h)
blocked-elem (name ∷ names) h = ground (
  arith,
  h,
  blocked-elem names,
  string_eq.beq_iff apply_block_command name,
  string_eq.beq_iff name apply_block_command,
  string_eq.beq_iff verify_block_command name,
  string_eq.beq_iff name verify_block_command,
)

blocked-sealed :
    (names : List String)
    → any (λ name. elem name sealed_commands) names ≡ true
    → sealed_in_sequence names ≢ []
blocked-sealed names h = λ e. ground (arith, e, blocked-elem names h)

module _ (texts : Texts) (agent : Agent) (sequence_id ref : String) (stop : Bool) (world : World)
    (worlds : ℕ → World) (steps : List Step) where
  sealed-IsRefusedBatch :
      (names : List String)
      → names ≢ []
      → IsRefusedBatch sequence_id
          (done (first_sealed texts agent sequence_id ref world (names_of steps) names))
  unfolding stamp failed sealed_refusal_result
  sealed-IsRefusedBatch [] h = absurd (h refl)
  sealed-IsRefusedBatch (name ∷ names) h = record {
    answered = refl;
    named = (tt, ((refl, refl), tt));
  }

  after_seal-IsReplied :
      (b : Bool)
      → b ≡ is_blocked_by_seal world.signoff (names_of steps)
      → IsReplied sequence_id stop
          (length steps)
          (after_seal texts agent sequence_id ref stop world worlds steps b)
  unfolding is_blocked_by_seal
  after_seal-IsReplied true e = inl (
      sealed-IsRefusedBatch (sealed_in_sequence (names_of steps))
        (blocked-sealed (names_of steps) (ground (arith, e))))
  after_seal-IsReplied false e =
      inr (run_steps-IsStreamed texts agent sequence_id ref stop worlds 0 steps)

  refused_entry-IsReply :
      (k : ℕ) (name : String) (l : Lookup) (later : Option CommandResult)
      → IsReply sequence_id later
      → IsReply sequence_id (refused_entry texts agent sequence_id ref world name k l later)
  unfolding stamp failed
  refused_entry-IsReply k name (found spec) later h = h
  refused_entry-IsReply k name (command_error why) later h = (refl, refl)

  first_invalid-IsReply :
      (k : ℕ) (names : List String)
      → IsReply sequence_id (first_invalid texts agent sequence_id ref world k names)
  unfolding first_invalid
  first_invalid-IsReply k [] = tt
  first_invalid-IsReply k (name ∷ names) =
      refused_entry-IsReply k name (get_command world.grants name agent.registry) _
        (first_invalid-IsReply (suc k) names)

  after_invalid-IsReplied :
      (o : Option CommandResult)
      → IsReply sequence_id o
      → IsReplied sequence_id stop
          (length steps)
          (after_invalid texts agent sequence_id ref stop world worlds steps o)
  after_invalid-IsReplied (some r) h = inl (one_reply sequence_id r h.0 h.1)
  after_invalid-IsReplied none h = after_seal-IsReplied _ refl

  after_restart-IsReplied :
      (o : Option String)
      → IsReplied sequence_id stop
          (length steps)
          (after_restart texts agent sequence_id ref stop world worlds steps o)
  unfolding stamp restart_pending_result failed
  after_restart-IsReplied (some name) = inl (one_reply sequence_id _ refl refl)
  after_restart-IsReplied none =
      after_invalid-IsReplied _ (first_invalid-IsReply 0 (names_of steps))

  position_named :
      (batch : List Step)
      → (sequence_position (sequence sequence_id batch stop)).1.0 ≡ some sequence_id
  position_named [] = refl
  position_named (step ∷ batch) = refl

  session-IsReplied :
      (o : Option Session)
      → IsReplied sequence_id stop (length steps) (
          sequence_session texts agent sequence_id ref stop world worlds steps
            (refuse_by texts agent ref (sequence sequence_id steps stop) o))
  session-IsReplied none = inl (one_reply sequence_id _ (position_named steps) refl)
  session-IsReplied (some s) = elim (Bool-cases (compatible s)) [
    | inl fits ↦ rw fits (
        after_restart-IsReplied
          (needs_restart_to_load world.signoff agent.registry (names_of steps)))
    | inr differs ↦ rw differs (inl (one_reply sequence_id _ (position_named steps) refl))
  ]

  pub handle_sequence-IsReplied :
      IsReplied sequence_id stop
        (length steps)
        (handle_sequence texts agent sequence_id ref stop world worlds steps)
  unfolding handle_sequence refuse_incompatible_command
  handle_sequence-IsReplied = session-IsReplied agent.session
