-- ===== src/Auth/Signed.antt =====
-- What the check of the signature in `verify_envelope` of stormpulse/auth.py establishes.
use storm_pulse.Base.{
  Bool-cases, string_eq, pair_eq, nat_eq, String, ◌≡◌, refl, sym, ap, inl, inr, true, false, ◌&&◌,
  Option, none, some, arith, eq_iff,
}
use storm_pulse.Json.{Json, obj}
use storm_pulse.Protocol.Envelope.{Envelope}
use storm_pulse.Base.{string_eq, Option, none, Bool-cases, eq_iff, ap, sym, ◌&&◌}
use storm_pulse.Base.Dict
use storm_pulse.Json.{str, Fields, to_dict, of_dict}
use storm_pulse.Auth.{
  is_hmac, signature_ok, sign_envelope, check_signed_values, str_of, fields_of, is_signed,
}

-- The frame as it is signed: the payload goes without its `hmac`, all else as received.
abbrev pub signed_form : Fields → Json
signed_form frame = obj (
    of_dict (
      Dict.put "payload"
        (obj
          (of_dict (Dict.remove "hmac" (to_dict (fields_of (Dict.get "payload" (to_dict frame)))))))
        (to_dict frame)))

module _ (hmac_hex : String → String → String) (dumps : Json → String) where
  -- The envelope was received, and its `hmac` is the MAC under the secret of the frame received.
  pub record HasMac (e : Envelope) (secret : String) : Type 0 where
    pub frame : Fields
    pub received : e.received ≡ some frame
    pub mac : String
    pub carried : Dict.get "hmac" (to_dict e.payload) ≡ some (str mac)
    pub computed : mac ≡ hmac_hex secret (dumps (signed_form frame))

is_hmac-str : (o : Option Json) → is_hmac o ≡ true → (mac : String) × (o ≡ some (str mac))
unfolding is_hmac
is_hmac-str (some (str s)) h = (s, refl)
is_hmac-str o h = absurd (cc)

signature_ok-some :
    (o : Option String) (expected : String) → signature_ok o expected ≡ true → o ≡ some expected
signature_ok-some none expected h = absurd (cc)
signature_ok-some (some computed) expected h = ap some ((eq_iff computed expected).0 h)

string_or : Option String → String
string_or none = ""
string_or (some s) = s

module _ (hmac_hex : String → String → String) (dumps : Json → String) where
  sign_envelope-some :
      (frame : Fields) (secret mac : String)
      → sign_envelope hmac_hex dumps frame secret ≡ some mac
      → mac ≡ hmac_hex secret (dumps (signed_form frame))
  unfolding sign_envelope
  sign_envelope-some frame secret mac h =
      elim (Bool-cases (check_signed_values (signed_form frame))) [
        | inl e ↦ sym (unfold string_or in (ap string_or (rw e at h)))
        | inr e ↦ absurd (let k = rw e at h in cc)
      ]

  pub is_signed-HasMac :
      (e : Envelope) (secret : String)
      → is_signed hmac_hex dumps e secret ≡ true
      → HasMac hmac_hex dumps e secret
  unfolding is_signed
  is_signed-HasMac e secret h = by_frame e.received refl h
    where
      by_frame :
          (o : Option Fields)
          → e.received ≡ o
          → (elim o [
            | none ↦ false
            | some frame ↦
                is_hmac (Dict.get "hmac" (to_dict e.payload))
                && signature_ok
                    (sign_envelope hmac_hex dumps frame secret)
                    (str_of (Dict.get "hmac" (to_dict e.payload)))
          ])
            ≡ true
          → HasMac hmac_hex dumps e secret
      by_frame none q k = absurd (cc)
      by_frame (some frame) q k =
          let form : is_hmac (Dict.get "hmac" (to_dict e.payload)) ≡ true = ground (arith, k) in
          let (mac, carried) = is_hmac-str (Dict.get "hmac" (to_dict e.payload)) form in
          let agrees : signature_ok (sign_envelope hmac_hex dumps frame secret)
                (str_of (Dict.get "hmac" (to_dict e.payload)))
              ≡ true =
            ground (arith, k) in
          record {
            frame = frame;
            received = q;
            mac = mac;
            carried = carried;
            computed = sign_envelope-some frame secret mac (
                signature_ok-some (sign_envelope hmac_hex dumps frame secret) mac
                  (rw carried at agrees));
          }
