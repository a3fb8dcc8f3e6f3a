-- ===== src/Auth/Tests.antt =====
-- Command authentication (stormpulse/auth.py) on a concrete command, with a MAC that depends on the key.
use storm_pulse.Base.{
  if◌then◌else◌, ◌==◌, string_eq, pair_eq, nat_eq, ℕ, ◌+◌, ◌-◌, ◌*◌, String, ◌≡◌, refl, ◌≢◌, some,
  [], ◌∷◌, arith,
}
use storm_pulse.Base.Dict
use storm_pulse.Base.Dict.{IsDict}
use storm_pulse.Base.Int.{pos}
use storm_pulse.Json.{Json, int, obj, str, Fields, end, field}
use storm_pulse.Protocol.Messages.{command_request}
use storm_pulse.Protocol.Codec.{
  decode, decode_fields, missing, check_scalar, decode_dict, decode_values,
}
use storm_pulse.Protocol.Envelope.{Envelope}
use storm_pulse.Auth.{
  second, purge, check_and_store, request, read_payload, is_hmac, sign_envelope, is_signed,
  verify_envelope, accepted, check_signed_values,
}
use storm_pulse.Auth.Secret.{
  IsKeyOf, load_hmac_secret, strip_left, strip_right, load_hmac_secret-IsKeyOf,
}
use storm_pulse.Auth.Verify.{
  IsAuthentic, OnlyAccepted, verify_envelope-IsAuthentic, verify_envelope-store,
}
use storm_pulse.Auth.Replay.{Attempt, verify, attempts, replay_refused, replay_accepted_when_due}

abbrev mac_a : String
mac_a = "aaaaaaaaaaaaaaaaaaaaaaaaaaaaaaaaaaaaaaaaaaaaaaaaaaaaaaaaaaaaaaaa"

abbrev hmac_hex : String → String → String
hmac_hex secret text = if secret == "key" then mac_a else ""

abbrev dumps : Json → String
dumps v = ""

abbrev pull_payload : Fields
pull_payload =
    field "command" (str "git_pull")
      (field "params" (obj end) (field "hmac" (str mac_a) (field "nonce" (str "n1") end)))

abbrev pull : ℕ → Envelope
pull ts = record {
  v = 2;
  type = command_request;
  id = "m1";
  ts = ts;
  agent_id = "a1";
  payload = pull_payload;
  received = some (field "v" (int (pos 2)) (field "payload" (obj pull_payload) end));
}

abbrev sent : ℕ
sent = 1000 * second

abbrev window : ℕ
window = 30 * second

accepts :
    verify_envelope hmac_hex dumps (pull sent) "key" [] window sent sent sent
    ≡ (("n1", sent) ∷ [], accepted (request "git_pull" end))
unfolding verify_envelope is_signed is_hmac sign_envelope check_signed_values check_and_store purge
    read_payload decode decode_fields missing check_scalar decode_dict decode_values Dict.get
    Dict.has Dict.put Dict.remove
accepts = refl

verify_envelope-IsAuthentic_example :
    IsAuthentic hmac_hex dumps
      (pull sent)
      "key"
      []
      (("n1", sent) ∷ [])
      (request "git_pull" end)
      window
      sent
      sent
      sent
verify_envelope-IsAuthentic_example =
    verify_envelope-IsAuthentic hmac_hex dumps (pull sent) "key" [] window sent sent sent
      (("n1", sent) ∷ []) (request "git_pull" end) accepts

verify_envelope-store_example :
    OnlyAccepted [] (verify_envelope hmac_hex dumps (pull sent) "other" [] window sent sent sent)
verify_envelope-store_example =
    verify_envelope-store hmac_hex dumps (pull sent) "other" [] window sent sent sent

abbrev attempt : ℕ → ℕ → Attempt
attempt now purged_at = record {
  envelope = pull sent;
  now = now;
  purged_at = purged_at;
  stored_at = purged_at;
}

replay_refused_example :
    (verify hmac_hex dumps "key" window
      (attempts hmac_hex dumps "key" window
        (("n1", sent) ∷ [])
        (attempt (sent + second) (sent + second) ∷ []))
      (attempt (sent + 2 * second) (sent + 2 * second))).1
    ≢ accepted (request "git_pull" end)
replay_refused_example =
    replay_refused hmac_hex dumps "key" window [] (("n1", sent) ∷ []) (attempt sent sent)
      (attempt (sent + 2 * second) (sent + 2 * second))
      (attempt (sent + second) (sent + second) ∷ []) (request "git_pull" end)
      (request "git_pull" end) refl accepts (omega arith) (omega arith, tt) (omega arith)

-- a frame dated 5 s ahead at its first call
early :
    verify hmac_hex dumps "key" window [] (attempt (sent - 5 * second) (sent - 5 * second))
    ≡ (("n1", sent - 5 * second) ∷ [], accepted (request "git_pull" end))
unfolding verify_envelope is_signed is_hmac sign_envelope check_signed_values check_and_store purge
    read_payload decode decode_fields missing check_scalar decode_dict decode_values Dict.get
    Dict.has Dict.put Dict.remove
early = refl

replay_accepted_when_due_example :
    (verify hmac_hex dumps "key" window
      (("n1", sent - 5 * second) ∷ [])
      (attempt (sent + window) (sent + window + 1))).1
    ≡ accepted (request "git_pull" end)
replay_accepted_when_due_example =
    replay_accepted_when_due hmac_hex dumps "key" window [] (("n1", sent - 5 * second) ∷ [])
      (attempt (sent - 5 * second) (sent - 5 * second))
      (attempt (sent + window) (sent + window + 1)) (request "git_pull" end) refl tt early
      (omega arith) (omega arith) (omega arith)

load_hmac_secret-IsKeyOf_example : IsKeyOf (32 ∷ 107 ∷ 32 ∷ 49 ∷ 10 ∷ []) (107 ∷ 32 ∷ 49 ∷ [])
load_hmac_secret-IsKeyOf_example =
    load_hmac_secret-IsKeyOf (32 ∷ 107 ∷ 32 ∷ 49 ∷ 10 ∷ []) (107 ∷ 32 ∷ 49 ∷ [])
      (unfold load_hmac_secret strip_left strip_right in refl)
