-- ===== src/Dispatch/Sequence/Received.antt =====
-- A received sequence (`handle_command_sequence` of stormpulse/agent/dispatch.py) from its envelope on.
use storm_pulse.Base.{length, All, ℕ, String, ◌≡◌, refl, sym, Bool, List}
use storm_pulse.Json.{Json}
use storm_pulse.Protocol.Envelope.{Envelope}
use storm_pulse.Auth.{NonceStore, request, sequence, Step, Verdict, accepted, refused, malformed}
use storm_pulse.Auth.Verify.{IsAuthentic, verify_envelope-IsAuthentic}
use storm_pulse.Dispatch.{Handled, Agent, Texts, World, Clock, verify_payload}
use storm_pulse.Dispatch.Single.Effects.{effects_of, Acts, Acts-map}
use storm_pulse.Dispatch.Sequence.{sequence_verified, handle_command_sequence}
use storm_pulse.Dispatch.Sequence.Stream.{results}
use storm_pulse.Dispatch.Sequence.Cleared.{IsStep, IsChecked, IsTaken, handle_sequence-Acts}
use storm_pulse.Dispatch.Sequence.Replied.{IsReplied, handle_sequence-IsReplied}

module _ (hmac_hex : String → String → String) (dumps : Json → String) (texts : Texts)
    (agent : Agent) (world : World) (worlds : ℕ → World) (clock : Clock) (e : Envelope) where
  -- command `c` is a step of an authentic sequence that passed the checks of the batch
  abbrev pub IsOrdered : String → Type 0
  IsOrdered c =
      (store : NonceStore) × (sequence_id : String) × (steps : List Step) × (stop : Bool)
      × IsAuthentic hmac_hex dumps e agent.secret agent.nonce_store store
          (sequence sequence_id steps stop) agent.max_age clock.now clock.purged_at clock.stored_at
      × IsStep agent worlds steps c
      × IsChecked agent world steps

  sequence_verified-Acts :
      (v : NonceStore × Verdict)
      → v ≡ verify_payload hmac_hex dumps agent clock e
      → All (Acts IsOrdered) (effects_of (sequence_verified texts agent world worlds e v).1)
  unfolding verify_payload
  sequence_verified-Acts (store, refused why) h = (tt, tt)
  sequence_verified-Acts (store, malformed p) h = tt
  sequence_verified-Acts (store, accepted (request command params)) h = tt
  sequence_verified-Acts (store, accepted (sequence sequence_id steps stop)) h =
      let now = record agent { nonce_store = store } in
      Acts-map (IsTaken texts now sequence_id e.id stop world worlds steps) IsOrdered
        (λ c k. (
          store,
          sequence_id,
          steps,
          stop,
          verify_envelope-IsAuthentic hmac_hex dumps e agent.secret agent.nonce_store agent.max_age
              clock.now clock.purged_at clock.stored_at store (sequence sequence_id steps stop)
              (sym h),
          k.0,
          record { compatible = k.1.compatible; known = k.1.known; unblocked = k.1.unblocked },
        ))
        _ (handle_sequence-Acts texts now sequence_id e.id stop world worlds steps)

  -- A step is executed only if its envelope is authentic, the session is compatible, every name of the
  -- batch is in the registry and not refused by its grant, no name of the batch is a shell hatch while
  -- the agent is sealed, and the step is admitted once more in the world it meets.
  pub handle_command_sequence-Acts :
      All
        (Acts IsOrdered)
        (effects_of (handle_command_sequence hmac_hex dumps texts agent world worlds clock e).1)
  unfolding handle_command_sequence
  handle_command_sequence-Acts =
      sequence_verified-Acts (verify_payload hmac_hex dumps agent clock e) refl

module _ (hmac_hex : String → String → String) (dumps : Json → String) (texts : Texts)
    (agent : Agent) (world : World) (worlds : ℕ → World) (clock : Clock) (e : Envelope) where
  abbrev pub IsRepliedFor : Verdict → Handled → Type 0
  IsRepliedFor (accepted (sequence sequence_id steps stop)) h =
      IsReplied sequence_id stop (length steps) h
  IsRepliedFor v h = results (effects_of h) ≡ 0

  sequence_verified-IsRepliedFor :
      (v : NonceStore × Verdict)
      → IsRepliedFor v.1 (sequence_verified texts agent world worlds e v).1
  sequence_verified-IsRepliedFor (store, refused why) = refl
  sequence_verified-IsRepliedFor (store, malformed p) = refl
  sequence_verified-IsRepliedFor (store, accepted (request command params)) = refl
  sequence_verified-IsRepliedFor (store, accepted (sequence sequence_id steps stop)) =
      handle_sequence-IsReplied texts (record agent { nonce_store = store }) sequence_id e.id stop
        world worlds steps

  -- A verified sequence is answered by one failed result that names it, and executes nothing, or it
  -- streams its results: each names the sequence and has the index of its step, 0 and up without a
  -- gap; none follows a failure that stops the sequence; there are at most as many as steps, and
  -- fewer only where the last one is a failure or the handler raises. Without a verified envelope
  -- there is no result.
  pub handle_command_sequence-IsRepliedFor :
      IsRepliedFor
        (verify_payload hmac_hex dumps agent clock e).1
        (handle_command_sequence hmac_hex dumps texts agent world worlds clock e).1
  unfolding handle_command_sequence
  handle_command_sequence-IsRepliedFor =
      sequence_verified-IsRepliedFor (verify_payload hmac_hex dumps agent clock e)
