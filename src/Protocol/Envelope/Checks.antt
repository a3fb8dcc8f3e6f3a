-- ===== src/Protocol/Envelope/Checks.antt =====
-- What the envelope parser of stormpulse/protocol/envelope.py accepts, and what its refusals quote.
use storm_pulse.Base.{
  Bool-cases, ◌==◌, string_eq, pair_eq, nat_eq, all, ℕ, String, ◌≡◌, refl, sym, ap, ◌∙◌, ◌≢◌, inl,
  inr, true, Option, none, some, List, [], ◌∷◌, arith, eq_iff,
}
use Prim.Native.Nat.{zero, suc}
use mathlib.Core.Path.{subst}
use storm_pulse.Base.Dict
use storm_pulse.Base.Int.{pos}
use storm_pulse.Json.{Json, str, int, obj, Fields, to_dict}
use storm_pulse.Protocol.Messages.{MessageType, message_types, find_type, type_text}
use storm_pulse.Protocol.Codec.{bad, err, Result, ok, >>=-eq-ok, ok-injective, check_version}
use storm_pulse.Protocol.Envelope.{
  Loaded, loaded, not_json, loads_raised, Parsed, parsed, unparsed, parse_raised, parsed_or,
  from_loaded, Moment, Envelope, envelope_fields, parse_timestamp, message_type, required_str,
  required_dict, with_item, from_object, from_value, from_json, replace_z, known_or, moment_to_ts,
}

-- The envelope is the frame's: version 2, a type by its exact text, an id and an agent id that are not
-- empty, an aware timestamp, the payload object, and the frame itself for the MAC.
pub record IsParsed (fromisoformat : String → Option Moment) (frame : Fields) (e : Envelope)
    : Type 0 where
  pub version : (e.v ≡ 2) × (Dict.get "v" (to_dict frame) ≡ some (int (pos 2)))
  pub typed : Dict.get "type" (to_dict frame) ≡ some (str (type_text e.type))
  pub named : (Dict.get "id" (to_dict frame) ≡ some (str e.id)) × (e.id ≢ "")
  pub sender : (Dict.get "agent_id" (to_dict frame) ≡ some (str e.agent_id)) × (e.agent_id ≢ "")
  pub timed :
      (raw : String) × (Dict.get "ts" (to_dict frame) ≡ some (str raw))
      × (fromisoformat (replace_z raw) ≡ some (record { micros = e.ts; aware = true }))
  pub body : Dict.get "payload" (to_dict frame) ≡ some (obj e.payload)
  pub kept : e.received ≡ some frame

with_item-eq-ok {ℓ} :
    {A : Type ℓ} (o : Option Json) (f : Json → Result A) {a : A}
    → with_item o f ≡ ok a
    → (v : Json) × (o ≡ some v) × (f v ≡ ok a)
with_item-eq-ok none f h = absurd (cc)
with_item-eq-ok (some v) f h = (v, refl, h)

check_version-eq-ok : (v : Json) (n : ℕ) → check_version v ≡ ok n → (n ≡ 2) × (v ≡ int (pos 2))
unfolding check_version
check_version-eq-ok (int (pos (suc (suc zero)))) n h = (sym (ok-injective h), refl)
check_version-eq-ok v n h = absurd (cc)

find_type-some :
    (raw : String) (ts : List MessageType) (t : MessageType)
    → find_type raw ts ≡ some t
    → type_text t ≡ raw
unfolding find_type
find_type-some raw [] t h = absurd (cc)
find_type-some raw (u ∷ ts) t h = elim (Bool-cases (type_text u == raw)) [
  | inl e ↦ let k : some u ≡ some t = rw e at h in ground (arith, eq_iff (type_text u) raw)
  | inr e ↦ find_type-some raw ts t (rw e at h)
]

known_or-eq-ok :
    (raw : String) (o : Option MessageType) (t : MessageType) → known_or raw o ≡ ok t → o ≡ some t
known_or-eq-ok raw none t h = absurd (cc)
known_or-eq-ok raw (some u) t h = ap some (ok-injective h)

message_type-eq-ok : (v : Json) (t : MessageType) → message_type v ≡ ok t → v ≡ str (type_text t)
unfolding message_type
message_type-eq-ok (str raw) t h =
    ap str (sym (find_type-some raw message_types t (known_or-eq-ok raw _ t h)))
message_type-eq-ok v t h = absurd (cc)

moment_to_ts-eq-ok :
    (o : Option Moment) (n : ℕ)
    → moment_to_ts o ≡ ok n
    → o ≡ some (record { micros = n; aware = true })
moment_to_ts-eq-ok o n h = ground arith

parse_timestamp-eq-ok :
    (fromisoformat : String → Option Moment) (v : Json) (n : ℕ)
    → parse_timestamp fromisoformat v ≡ ok n
    → (raw : String) × (v ≡ str raw)
      × (fromisoformat (replace_z raw) ≡ some (record { micros = n; aware = true }))
unfolding parse_timestamp
parse_timestamp-eq-ok f (str raw) n h = (raw, refl, moment_to_ts-eq-ok (f (replace_z raw)) n h)
parse_timestamp-eq-ok f v n h = absurd (cc)

required_str-eq-ok : (v : Json) (s : String) → required_str v ≡ ok s → (v ≡ str s) × (s ≢ "")
unfolding required_str
required_str-eq-ok (str t) s h = elim (Bool-cases (t == "")) [
  | inl e ↦ absurd (let k = rw e at h in cc)
  | inr e ↦
      let k : t ≡ s = ok-injective (rw e at h) in
      (ap str k, λ q. let r : t ≡ "" = k ∙ q in ground (arith, eq_iff t ""))
]
required_str-eq-ok v s h = absurd (cc)

required_dict-eq-ok : (v : Json) (fs : Fields) → required_dict v ≡ ok fs → v ≡ obj fs
unfolding required_dict
required_dict-eq-ok (obj gs) fs h = ap obj (ok-injective h)
required_dict-eq-ok v fs h = absurd (cc)

from_object-eq-ok :
    (fromisoformat : String → Option Moment) (frame : Fields) (e : Envelope)
    → from_object fromisoformat frame ≡ ok e
    → IsParsed fromisoformat frame e
unfolding from_object
from_object-eq-ok f frame e h =
    let (v, p₁, h₁) = >>=-eq-ok (with_item (Dict.get "v" (to_dict frame)) check_version) _ h in
    let (t, p₂, h₂) = >>=-eq-ok (with_item (Dict.get "type" (to_dict frame)) message_type) _ h₁ in
    let (ts, p₃, h₃) =
      >>=-eq-ok (with_item (Dict.get "ts" (to_dict frame)) (parse_timestamp f)) _ h₂ in
    let (id, p₄, h₄) = >>=-eq-ok (with_item (Dict.get "id" (to_dict frame)) required_str) _ h₃ in
    let (sender, p₅, h₅) =
      >>=-eq-ok (with_item (Dict.get "agent_id" (to_dict frame)) required_str) _ h₄ in
    let (body, p₆, h₆) =
      >>=-eq-ok (with_item (Dict.get "payload" (to_dict frame)) required_dict) _ h₅ in
    let (v', g₁, c₁) = with_item-eq-ok (Dict.get "v" (to_dict frame)) check_version p₁ in
    let (t', g₂, c₂) = with_item-eq-ok (Dict.get "type" (to_dict frame)) message_type p₂ in
    let (ts', g₃, c₃) = with_item-eq-ok (Dict.get "ts" (to_dict frame)) (parse_timestamp f) p₃ in
    let (id', g₄, c₄) = with_item-eq-ok (Dict.get "id" (to_dict frame)) required_str p₄ in
    let (sender', g₅, c₅) = with_item-eq-ok (Dict.get "agent_id" (to_dict frame)) required_str p₅ in
    let (body', g₆, c₆) = with_item-eq-ok (Dict.get "payload" (to_dict frame)) required_dict p₆ in
    let (two, is_two) = check_version-eq-ok v' v c₁ in
    let (raw, is_raw, read) = parse_timestamp-eq-ok f ts' ts c₃ in
    let (is_id, id_some) = required_str-eq-ok id' id c₄ in
    let (is_sender, sender_some) = required_str-eq-ok sender' sender c₅ in
    subst (IsParsed f frame) (ok-injective h₆) (record {
      version = (two, g₁ ∙ ap some is_two);
      typed = g₂ ∙ ap some (message_type-eq-ok t' t c₂);
      named = (g₄ ∙ ap some is_id, id_some);
      sender = (g₅ ∙ ap some is_sender, sender_some);
      timed = (raw, g₃ ∙ ap some is_raw, read);
      body = g₆ ∙ ap some (required_dict-eq-ok body' body c₆);
      kept = refl;
    })

from_value-eq-ok :
    (fromisoformat : String → Option Moment) (v : Json) (e : Envelope)
    → from_value fromisoformat v ≡ ok e
    → (frame : Fields) × (v ≡ obj frame) × IsParsed fromisoformat frame e
unfolding from_value
from_value-eq-ok f (obj frame) e h =
    elim (Bool-cases (all (λ k. Dict.has k (to_dict frame)) envelope_fields)) [
      | inl q ↦ (frame, refl, from_object-eq-ok f frame e (rw q at h))
      | inr q ↦ absurd (let k = rw q at h in cc)
    ]
from_value-eq-ok f v e h = absurd (cc)

result_of : Parsed → Result Envelope
result_of (parsed e) = ok e
result_of (unparsed problem) = err problem
result_of parse_raised = err bad

parsed_or-ok : (r : Result Envelope) (e : Envelope) → parsed_or r ≡ parsed e → r ≡ ok e
parsed_or-ok (ok x) e h = unfold result_of in (ap result_of h)
parsed_or-ok (err problem) e h = absurd (cc)

from_loaded-parsed :
    (fromisoformat : String → Option Moment) (l : Loaded) (e : Envelope)
    → from_loaded fromisoformat l ≡ parsed e
    → (frame : Fields) × (l ≡ loaded (obj frame)) × IsParsed fromisoformat frame e
unfolding from_loaded
from_loaded-parsed f (loaded v) e h =
    let (frame, same, fine) = from_value-eq-ok f v e (parsed_or-ok _ e h) in
    (frame, ap loaded same, fine)
from_loaded-parsed f not_json e h = absurd (cc)
from_loaded-parsed f loads_raised e h = absurd (cc)

-- Whatever `Envelope.from_json` accepts is a JSON object whose fields the envelope carries unchanged,
-- at version 2, of a known type, with an id, a sender and an aware timestamp, beside the whole frame.
pub from_json-IsParsed :
    (loads : String → Loaded) (fromisoformat : String → Option Moment) (raw : String) (e : Envelope)
    → from_json loads fromisoformat raw ≡ parsed e
    → (frame : Fields) × (loads raw ≡ loaded (obj frame)) × IsParsed fromisoformat frame e
unfolding from_json
from_json-IsParsed loads f raw e h = from_loaded-parsed f (loads raw) e h
