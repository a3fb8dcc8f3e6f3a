-- ===== src/Dispatch/Single/Covered.antt =====
-- What a single command request (stormpulse/agent/dispatch.py) may set in motion, and its answers.
use storm_pulse.Base.{All, String, ◌≡◌, refl, sym}
use storm_pulse.Json.{Json, Fields}
use storm_pulse.Protocol.Envelope.{Envelope}
use storm_pulse.Auth.{NonceStore, request, sequence, Verdict, accepted, refused, malformed}
use storm_pulse.Auth.Verify.{IsAuthentic, verify_envelope-IsAuthentic}
use storm_pulse.Dispatch.{Handled, Agent, Texts, World, Clock, verify_payload}
use storm_pulse.Dispatch.Single.{after_verify, handle_command_request}
use storm_pulse.Dispatch.Single.Effects.{effects_of, Acts, answers, IsAnswered, Acts-map}
use storm_pulse.Dispatch.Single.Served.{IsCleared, handle_request-IsServed}

module _ (hmac_hex : String → String → String) (dumps : Json → String) (texts : Texts)
    (agent : Agent) (world : World) (clock : Clock) (e : Envelope) where
  -- command `c` of an envelope that is authentic, for a cleared agent
  abbrev pub IsCommanded : String → Type 0
  IsCommanded c =
      (store : NonceStore) × (params : Fields) × IsAuthentic hmac_hex dumps e agent.secret
        agent.nonce_store store (request c params) agent.max_age clock.now clock.purged_at
        clock.stored_at
      × IsCleared agent world c

  after_verify-Acts :
      (v : NonceStore × Verdict)
      → v ≡ verify_payload hmac_hex dumps agent clock e
      → All (Acts IsCommanded) (effects_of (after_verify texts agent world e v).1)
  unfolding verify_payload
  after_verify-Acts (store, refused why) h = (tt, tt)
  after_verify-Acts (store, malformed p) h = tt
  after_verify-Acts (store, accepted (sequence i steps stop)) h = tt
  after_verify-Acts (store, accepted (request command params)) h =
      Acts-map (λ c. (c ≡ command) × IsCleared (record agent { nonce_store = store }) world c)
        IsCommanded
        (λ c k. (
          store,
          params,
          verify_envelope-IsAuthentic hmac_hex dumps e agent.secret agent.nonce_store agent.max_age
              clock.now clock.purged_at clock.stored_at store (request c params) (rw k.0 (sym h)),
          record { compatible = k.1.compatible; admitted = k.1.admitted },
        ))
        _
        (handle_request-IsServed texts (record agent { nonce_store = store }) world e.id command
          params).0

  -- A command is executed, collected for or accepted as a job only if its envelope is authentic, the
  -- session is compatible, and it is admitted: a shell hatch on an open agent that has it loaded, and
  -- no command against its grant. It is the command that the envelope names.
  pub handle_command_request-Acts :
      All
        (Acts IsCommanded)
        (effects_of (handle_command_request hmac_hex dumps texts agent world clock e).1)
  unfolding handle_command_request
  handle_command_request-Acts = after_verify-Acts (verify_payload hmac_hex dumps agent clock e) refl

  abbrev pub IsAnsweredFor : Verdict → Handled → Type 0
  IsAnsweredFor (accepted (request command params)) h = IsAnswered h
  IsAnsweredFor v h = answers (effects_of h) ≡ 0

  after_verify-IsAnsweredFor :
      (v : NonceStore × Verdict) → IsAnsweredFor v.1 (after_verify texts agent world e v).1
  after_verify-IsAnsweredFor (store, refused why) = refl
  after_verify-IsAnsweredFor (store, malformed p) = refl
  after_verify-IsAnsweredFor (store, accepted (sequence i steps stop)) = refl
  after_verify-IsAnsweredFor (store, accepted (request command params)) =
      (handle_request-IsServed texts (record agent { nonce_store = store }) world e.id command
        params).1

  -- A verified request has exactly one answer, a result or an accepted job, unless the handler raises,
  -- which is before any answer; an envelope that does not verify has no answer of the handler.
  pub handle_command_request-answers :
      IsAnsweredFor
        (verify_payload hmac_hex dumps agent clock e).1
        (handle_command_request hmac_hex dumps texts agent world clock e).1
  unfolding handle_command_request
  handle_command_request-answers =
      after_verify-IsAnsweredFor (verify_payload hmac_hex dumps agent clock e)
