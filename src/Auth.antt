-- ===== src/Auth.antt =====
-- Command authentication (stormpulse/auth.py): the nonce store, the signed form of an envelope, and
-- `verify_envelope`. The MAC is HMAC-SHA256 of the Python library and the text is that of
-- `json.dumps`; both are parameters. Clock readings are microseconds; each call of `time.time` and of
-- `datetime.now` is an argument of its own.
use Prim.Native.Char.{code}
use storm_pulse.Base.{
  ltb, leb, if◌then◌else◌, ◌==◌, string_eq, pair_eq, nat_eq, ℕ, ◌+◌, ◌*◌, String, Bool, true, false,
  not, ◌&&◌, ◌||◌, Option, none, some, List, [], ◌∷◌,
}
use storm_pulse.Base.Dict
use storm_pulse.Base.Dict.{Dict}
use storm_pulse.Base.Int.{pos}
use storm_pulse.Base.Text.{text_length, all_chars}
use storm_pulse.Json.{
  Json, null, bool, int, float, str, arr, obj, Items, nil, cons, Fields, end, field, to_dict,
  of_dict,
}
use storm_pulse.Protocol.Messages.{MessageType, command_request, command_sequence}
use storm_pulse.Protocol.Codec.{
  Result, ok, err, ProtocolError, Ann, str_type, bool_type, any_type, dict_of, list_of, dataclass,
  Decls, decl, done, decode,
}
use storm_pulse.Protocol.Envelope.{Envelope}
pub mod Nonces
pub mod Signed
pub mod Passed
pub mod Verify
pub mod Replay
pub mod Secret
mod Tests

-- AuthError.REASONS
pub data AuthReason : Type 0 where
  secret_missing secret_empty wrong_type future_dated too_old : AuthReason
  bad_signature replayed_nonce unspecified : AuthReason

abbrev pub second : ℕ
second = 1_000_000

-- _CLOCK_SKEW_TOLERANCE_SECONDS, in microseconds
abbrev pub skew_tolerance : ℕ
skew_tolerance = 5 * second

-- the table seen_nonces: the nonce is its primary key, the value is seen_at
abbrev pub NonceStore : Type 0
NonceStore = Dict String ℕ

-- DELETE FROM seen_nonces WHERE seen_at < now - max_age - tolerance, the terms on the side of `+`
unfoldable pub purge : ℕ → ℕ → NonceStore → NonceStore
purge now max_age [] = []
purge now max_age ((nonce, seen_at) ∷ rows) =
    if ltb (seen_at + max_age + skew_tolerance) now
    then purge now max_age rows
    else (nonce, seen_at) ∷ purge now max_age rows

-- `none` is the AuthError "replayed_nonce": the transaction rolls back. `purged_at` and `stored_at`
-- are the two readings of the clock.
unfoldable pub check_and_store : NonceStore → String → ℕ → ℕ → ℕ → Option NonceStore
check_and_store store nonce max_age purged_at stored_at =
    let kept = purge purged_at max_age store in
    if Dict.has nonce kept then none else some (Dict.put nonce stored_at kept)

-- `_check_signed_values`: false is the ValueError. Keys are strings by the type of objects.
mutual
  pub check_signed_values : Json → Bool
  check_signed_values null = true
  check_signed_values (bool b) = true
  check_signed_values (int n) = true
  check_signed_values (float x) = false
  check_signed_values (str s) = true
  check_signed_values (arr xs) = check_signed_items xs
  check_signed_values (obj fs) = check_signed_fields fs

  pub check_signed_items : Items → Bool
  check_signed_items nil = true
  check_signed_items (cons v xs) = check_signed_values v && check_signed_items xs

  pub check_signed_fields : Fields → Bool
  check_signed_fields end = true
  check_signed_fields (field k v fs) = check_signed_values v && check_signed_fields fs

-- The two command payloads, as `from_dict` builds them.
pub record Step : Type 0 where
  pub command : String
  pub params : Fields

pub data CommandPayload : Type 0 where
  request : String → Fields → CommandPayload
  sequence : String → List Step → Bool → CommandPayload

abbrev pub step_decls : Decls
step_decls = decl "command" str_type true (decl "params" (dict_of any_type) true done)

abbrev pub request_decls : Decls
request_decls = decl "command" str_type true (
    decl "params" (dict_of any_type) true
      (decl "hmac" str_type true (decl "nonce" str_type true done)))

abbrev pub sequence_decls : Decls
sequence_decls = decl "sequence_id" str_type true (
    decl "steps" (list_of (dataclass step_decls)) true (
      decl "stop_on_failure" bool_type true
        (decl "hmac" str_type true (decl "nonce" str_type true done))))

abbrev pub str_of : Option Json → String
str_of (some (str s)) = s
str_of v = ""

abbrev pub fields_of : Option Json → Fields
fields_of (some (obj fs)) = fs
fields_of v = end

abbrev pub items_of : Option Json → Items
items_of (some (arr xs)) = xs
items_of v = nil

abbrev pub bool_of : Option Json → Bool
bool_of (some (bool b)) = b
bool_of v = false

abbrev pub step_of : Fields → Step
step_of fs = record {
  command = str_of (Dict.get "command" (to_dict fs));
  params = fields_of (Dict.get "params" (to_dict fs));
}

abbrev pub steps_of : Items → List Step
steps_of nil = []
steps_of (cons v xs) = step_of (fields_of (some v)) ∷ steps_of xs

-- The attributes of the built dataclass, and its nonce.
unfoldable pub read_payload : MessageType → Fields → CommandPayload × String
read_payload command_request fs = (
  request (str_of (Dict.get "command" (to_dict fs))) (fields_of (Dict.get "params" (to_dict fs))),
  str_of (Dict.get "nonce" (to_dict fs)),
)
read_payload t fs = (
  sequence (str_of (Dict.get "sequence_id" (to_dict fs)))
      (steps_of (items_of (Dict.get "steps" (to_dict fs))))
      (bool_of (Dict.get "stop_on_failure" (to_dict fs))),
  str_of (Dict.get "nonce" (to_dict fs)),
)

abbrev pub decls_for : MessageType → Decls
decls_for command_request = request_decls
decls_for t = sequence_decls

abbrev pub is_command : MessageType → Bool
is_command command_request = true
is_command command_sequence = true
is_command t = false

abbrev pub is_hex_digit : ℕ → Bool
is_hex_digit c = (leb b'0' c && leb c b'9') || (leb b'a' c && leb c b'f')

-- a str of 64 characters, all of "0123456789abcdef"
unfoldable pub is_hmac : Option Json → Bool
is_hmac (some (str s)) = text_length s == 64 && all_chars is_hex_digit s
is_hmac v = false

-- What `verify_envelope` comes to: a payload, an AuthError, or a ProtocolError of the payload.
pub data Verdict : Type 0 where
  accepted : CommandPayload → Verdict
  refused : AuthReason → Verdict
  malformed : ProtocolError → Verdict

abbrev pub signature_ok : Option String → String → Bool
signature_ok none expected = false
signature_ok (some computed) expected = computed == expected

-- the last step: the nonce of the checked payload
abbrev pub settle_nonce : NonceStore → CommandPayload × String → ℕ → ℕ → ℕ → NonceStore × Verdict
settle_nonce store payload max_age purged_at stored_at =
    elim (check_and_store store payload.1 max_age purged_at stored_at) [
      | none ↦ (store, refused replayed_nonce)
      | some store' ↦ (store', accepted payload.0)
    ]

abbrev pub settle_payload :
    NonceStore → MessageType → Result Json → ℕ → ℕ → ℕ → NonceStore × Verdict
settle_payload store type (err e) max_age purged_at stored_at = (store, malformed e)
settle_payload store type (ok built) max_age purged_at stored_at =
    settle_nonce store (read_payload type (fields_of (some built))) max_age purged_at stored_at

module _ (hmac_hex : String → String → String) (dumps : Json → String) where
  -- `sign_envelope`: `none` is the ValueError. The frame holds a payload object, as `from_json` checks.
  unfoldable pub sign_envelope : Fields → String → Option String
  unfolding check_signed_values
  sign_envelope frame secret =
      let payload = Dict.remove "hmac" (to_dict (fields_of (Dict.get "payload" (to_dict frame)))) in
      let signed = obj (of_dict (Dict.put "payload" (obj (of_dict payload)) (to_dict frame))) in
      if check_signed_values signed then some (hmac_hex secret (dumps signed)) else none

  -- the checks of the signature: a received frame, a well-formed hmac, and the MAC of the frame
  unfoldable pub is_signed : Envelope → String → Bool
  unfolding sign_envelope is_hmac
  is_signed e secret = elim e.received [
    | none ↦ false
    | some frame ↦
        is_hmac (Dict.get "hmac" (to_dict e.payload))
        && signature_ok (sign_envelope frame secret) (str_of (Dict.get "hmac" (to_dict e.payload)))
  ]

  unfoldable pub verify_envelope :
      Envelope → String → NonceStore → ℕ → ℕ → ℕ → ℕ → NonceStore × Verdict
  unfolding is_signed check_and_store read_payload decode
  verify_envelope e secret store max_age now purged_at stored_at =
      if not (is_command e.type)
      then (store, refused wrong_type)
      else if ltb (now + skew_tolerance) e.ts
      then (store, refused future_dated)
      else if ltb (e.ts + max_age) now
      then (store, refused too_old)
      else if not (is_signed e secret)
      then (store, refused bad_signature)
      else settle_payload store e.type (decode (dataclass (decls_for e.type)) (obj e.payload))
          max_age purged_at stored_at
