-- ===== src/Auth/Verify.antt =====
-- What an accepted command is known to be, and what a refused one leaves (stormpulse/auth.py).
use storm_pulse.Base.{
  ltb, leb, if◌then◌else◌, Bool-cases, Option-cases, string_eq, pair_eq, nat_eq, ℕ, ◌+◌, ◌≤◌, ◌<◌,
  String, ◌≡◌, refl, ap, ◌⊎◌, inl, inr, Bool, true, false, not, some, arith,
}
use storm_pulse.Json.{Json, obj}
use storm_pulse.Protocol.Messages.{MessageType}
use storm_pulse.Protocol.Codec.{Result, ok, err, dataclass, decode}
use storm_pulse.Protocol.Envelope.{Envelope}
use storm_pulse.Base.{leb, string_eq, ◌<◌, Bool-cases, ap}
use storm_pulse.Base.Dict
use storm_pulse.Json.{str, Fields, to_dict}
use storm_pulse.Protocol.Messages.{command_request, command_sequence}
use mathlib.Core.Path.{subst}
use storm_pulse.Auth.{request, sequence, request_decls, sequence_decls}
use storm_pulse.Protocol.Codec.Carried.{decode-carried}
use storm_pulse.Auth.Nonces.{check_and_store-seen, check_and_store-new}
use storm_pulse.Auth.{
  NonceStore, check_and_store, skew_tolerance, CommandPayload, read_payload, decls_for, is_command,
  fields_of, is_signed, settle_payload, Verdict, accepted, refused, verify_envelope, wrong_type,
  future_dated, too_old, bad_signature,
}
use storm_pulse.Auth.Signed.{HasMac, is_signed-HasMac}
use storm_pulse.Auth.Passed.{verify_envelope-IsPassed}

-- `nonce` is new to the store, or was seen too long ago to be kept, and is in the store afterwards.
pub record IsNew (store store' : NonceStore) (nonce : String) (max_age purged_at stored_at : ℕ)
    : Type 0 where
  pub unseen : (s : ℕ) → Dict.get nonce store ≡ some s → s + max_age + 5_000_000 < purged_at
  pub seen : Dict.get nonce store' ≡ some stored_at

-- The payload carries the name of the command, or the id of the sequence.
abbrev pub IsNamedBy : Fields → CommandPayload → Type 0
IsNamedBy payload (request command params) =
    Dict.get "command" (to_dict payload) ≡ some (str command)
IsNamedBy payload (sequence sequence_id steps stop) =
    Dict.get "sequence_id" (to_dict payload) ≡ some (str sequence_id)

module _ (hmac_hex : String → String → String) (dumps : Json → String) where
  -- What is true of an accepted command.
  pub record IsAuthentic (e : Envelope) (secret : String) (store store' : NonceStore)
      (p : CommandPayload) (max_age now purged_at stored_at : ℕ) : Type 0 where
    pub typed : (e.type ≡ command_request) ⊎ (e.type ≡ command_sequence)
    pub not_early : e.ts ≤ now + 5_000_000
    pub not_late : now ≤ e.ts + max_age
    pub signed : HasMac hmac_hex dumps e secret
    pub named : IsNamedBy e.payload p
    pub built :
        (fs : Json) × (nonce : String) × (decode (dataclass (decls_for e.type)) (obj e.payload)
          ≡ ok fs)
        × (read_payload e.type (fields_of (some fs)) ≡ (p, nonce))
        × (Dict.get "nonce" (to_dict e.payload) ≡ some (str nonce))
        × IsNew store store' nonce max_age purged_at stored_at

-- Only an acceptance changes the store.
abbrev pub OnlyAccepted : NonceStore → NonceStore × Verdict → Type 0
OnlyAccepted store r = (r.0 ≡ store) ⊎ ((p : CommandPayload) × (r.1 ≡ accepted p))

settle_payload-store :
    (store : NonceStore) (type : MessageType) (r : Result Json) (max_age purged_at stored_at : ℕ)
    → OnlyAccepted store (settle_payload store type r max_age purged_at stored_at)
settle_payload-store store type (err e) max_age purged_at stored_at = inl refl
settle_payload-store store type (ok fs) max_age purged_at stored_at =
    let payload = read_payload type (fields_of (some fs)) in
    elim (Option-cases (check_and_store store payload.1 max_age purged_at stored_at)) [
      | inl h ↦ inl (ground arith)
      | inr (s, h) ↦ inr (payload.0, ground arith)
    ]

guarded_all {ℓ κ} :
    {A : Type ℓ} (P : A → Type κ) (a b c d : Bool) (w x y z r : A)
    → P w
    → P x
    → P y
    → P z
    → P r
    → P (if a then w else if b then x else if c then y else if d then z else r)
guarded_all P true b c d w x y z r pw px py pz pr = pw
guarded_all P false true c d w x y z r pw px py pz pr = px
guarded_all P false false true d w x y z r pw px py pz pr = py
guarded_all P false false false true w x y z r pw px py pz pr = pz
guarded_all P false false false false w x y z r pw px py pz pr = pr

is_command-typed :
    (t : MessageType) → is_command t ≡ true → (t ≡ command_request) ⊎ (t ≡ command_sequence)
is_command-typed command_request h = inl refl
is_command-typed command_sequence h = inr refl
is_command-typed t h = absurd (cc)

check_and_store-IsNew :
    (store store' : NonceStore) (nonce : String) (max_age purged_at stored_at : ℕ)
    → check_and_store store nonce max_age purged_at stored_at ≡ some store'
    → IsNew store store' nonce max_age purged_at stored_at
check_and_store-IsNew store store' nonce max_age purged_at stored_at h = record {
  unseen = λ s there. elim (Bool-cases (leb purged_at (s + max_age + skew_tolerance))) [
    | inl early ↦ absurd (
        let k =
          check_and_store-seen store nonce s max_age purged_at stored_at there
            (ground (arith, early)) in
        cc (k, h))
    | inr late ↦ ground (arith, late)
  ];
  seen = (check_and_store-new store store' nonce max_age purged_at stored_at h).1;
}

named-carried :
    (t : MessageType) (payload : Fields) (fs : Json)
    → is_command t ≡ true
    → decode (dataclass (decls_for t)) (obj payload) ≡ ok fs
    → IsNamedBy payload (read_payload t (fields_of (some fs))).0
unfolding read_payload
named-carried command_request payload fs h decoded =
    decode-carried "command" request_decls payload fs refl decoded
named-carried command_sequence payload fs h decoded =
    decode-carried "sequence_id" sequence_decls payload fs refl decoded
named-carried t payload fs h decoded = absurd (cc)

nonce-carried :
    (t : MessageType) (payload : Fields) (fs : Json)
    → is_command t ≡ true
    → decode (dataclass (decls_for t)) (obj payload) ≡ ok fs
    → Dict.get "nonce" (to_dict payload) ≡ some (str (read_payload t (fields_of (some fs))).1)
unfolding read_payload
nonce-carried command_request payload fs h decoded =
    decode-carried "nonce" request_decls payload fs refl decoded
nonce-carried command_sequence payload fs h decoded =
    decode-carried "nonce" sequence_decls payload fs refl decoded
nonce-carried t payload fs h decoded = absurd (cc)

module _ (hmac_hex : String → String → String) (dumps : Json → String) (e : Envelope)
    (secret : String) (store : NonceStore) (max_age now purged_at stored_at : ℕ) where
  -- A command is accepted only if it is a command, dated at most 5 s ahead and at most `max_age` ago,
  -- received, and its `hmac` is the MAC, under the secret, of the received frame without it; the
  -- payload decodes to the declared fields, is read off them, and carries the name of the command or the
  -- id of the sequence; and its `nonce` was not in the store,
  -- or there for longer than `max_age` and 5 s, and is in the new store.
  pub verify_envelope-IsAuthentic :
      (store' : NonceStore) (p : CommandPayload)
      → verify_envelope hmac_hex dumps e secret store max_age now purged_at stored_at
        ≡ (store', accepted p)
      → IsAuthentic hmac_hex dumps e secret store store' p max_age now purged_at stored_at
  verify_envelope-IsAuthentic store' p h =
      let a =
        verify_envelope-IsPassed hmac_hex dumps e secret store max_age now purged_at stored_at
          store' p h in
      let (fs, decoded, same, stored) = a.built in
      let nonce = (read_payload e.type (fields_of (some fs))).1 in
      record {
        typed = is_command-typed e.type a.typed;
        not_early = a.not_early;
        not_late = a.not_late;
        signed = is_signed-HasMac hmac_hex dumps e secret a.signed;
        named =
            subst (IsNamedBy e.payload) same (named-carried e.type e.payload fs a.typed decoded);
        built = (
          fs,
          nonce,
          decoded,
          ap (λ x. (x, nonce)) same,
          nonce-carried e.type e.payload fs a.typed decoded,
          check_and_store-IsNew store store' nonce max_age purged_at stored_at stored,
        );
      }

  -- A command that is not accepted leaves the nonce store as it was: forged or malformed input never
  -- enters it.
  pub verify_envelope-store :
      OnlyAccepted store
        (verify_envelope hmac_hex dumps e secret store max_age now purged_at stored_at)
  unfolding verify_envelope
  verify_envelope-store =
      guarded_all (OnlyAccepted store) (not (is_command e.type)) (ltb (now + skew_tolerance) e.ts)
        (ltb (e.ts + max_age) now) (not (is_signed hmac_hex dumps e secret))
        (store, refused wrong_type) (store, refused future_dated) (store, refused too_old)
        (store, refused bad_signature)
        (settle_payload store e.type (decode (dataclass (decls_for e.type)) (obj e.payload)) max_age
          purged_at stored_at)
        (inl refl) (inl refl) (inl refl) (inl refl)
        (settle_payload-store store e.type (decode (dataclass (decls_for e.type)) (obj e.payload))
          max_age purged_at stored_at)
