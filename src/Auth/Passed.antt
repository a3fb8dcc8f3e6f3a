-- ===== src/Auth/Passed.antt =====
-- The checks of `verify_envelope` (stormpulse/auth.py) one after the other.
use storm_pulse.Base.{
  ltb, if◌then◌else◌, ℕ, ◌+◌, ◌≤◌, String, ◌≡◌, refl, Bool, true, false, not, some, arith,
}
use storm_pulse.Json.{Json, obj}
use storm_pulse.Protocol.Messages.{MessageType}
use storm_pulse.Protocol.Codec.{Result, ok, err, dataclass, decode}
use storm_pulse.Protocol.Envelope.{Envelope}
use storm_pulse.Base.{string_eq}
use storm_pulse.Auth.{
  NonceStore, check_and_store, skew_tolerance, CommandPayload, read_payload, decls_for, is_command,
  fields_of, is_signed, settle_nonce, settle_payload, Verdict, accepted, refused, verify_envelope,
  wrong_type, future_dated, too_old, bad_signature,
}

-- The five outcomes of a chain of four guards before a last step.
guarded {ℓ} :
    {A : Type ℓ} (a b c d : Bool) (w x y z r : A)
    → (P : A → Type 0) → ¬ P w
    → ¬ P x
    → ¬ P y
    → ¬ P z
    → P (if a then w else if b then x else if c then y else if d then z else r)
    → (a ≡ false) × (b ≡ false) × (c ≡ false) × (d ≡ false) × P r
guarded true b c d w x y z r P nw nx ny nz h = absurd (nw h)
guarded false true c d w x y z r P nw nx ny nz h = absurd (nx h)
guarded false false true d w x y z r P nw nx ny nz h = absurd (ny h)
guarded false false false true w x y z r P nw nx ny nz h = absurd (nz h)
guarded false false false false w x y z r P nw nx ny nz h = (refl, refl, refl, refl, h)

abbrev pub IsAcceptance : CommandPayload → NonceStore → NonceStore × Verdict → Type 0
IsAcceptance p store' r = (r.0 ≡ store') × (r.1 ≡ accepted p)

module _ (hmac_hex : String → String → String) (dumps : Json → String) where
  -- The checks of the code, one after the other, that an accepted command has passed.
  pub record IsPassed (e : Envelope) (secret : String) (store store' : NonceStore)
      (p : CommandPayload) (max_age now purged_at stored_at : ℕ) : Type 0 where
    pub typed : is_command e.type ≡ true
    pub not_early : e.ts ≤ now + skew_tolerance
    pub not_late : now ≤ e.ts + max_age
    pub signed : is_signed hmac_hex dumps e secret ≡ true
    pub built :
        (fs : Json) × (decode (dataclass (decls_for e.type)) (obj e.payload) ≡ ok fs)
        × ((read_payload e.type (fields_of (some fs))).0 ≡ p)
        × (check_and_store store
              (read_payload e.type (fields_of (some fs))).1
              max_age
              purged_at
              stored_at
            ≡ some store')

settle_nonce-accepted :
    (store store' : NonceStore) (payload : CommandPayload × String) (p : CommandPayload)
    (max_age purged_at stored_at : ℕ)
    → IsAcceptance p store' (settle_nonce store payload max_age purged_at stored_at)
    → (payload.0 ≡ p) × (check_and_store store payload.1 max_age purged_at stored_at ≡ some store')
settle_nonce-accepted store store' payload p max_age purged_at stored_at h = ground arith

settle_payload-accepted :
    (store store' : NonceStore) (type : MessageType) (r : Result Json) (p : CommandPayload)
    (max_age purged_at stored_at : ℕ)
    → IsAcceptance p store' (settle_payload store type r max_age purged_at stored_at)
    → (fs : Json) × (r ≡ ok fs)
      × ((read_payload type (fields_of (some fs))).0 ≡ p)
      × (check_and_store store
            (read_payload type (fields_of (some fs))).1
            max_age
            purged_at
            stored_at
          ≡ some store')
settle_payload-accepted store store' type (err e) p max_age purged_at stored_at h =
    absurd (ground arith)
settle_payload-accepted store store' type (ok fs) p max_age purged_at stored_at h =
    let (same, stored) =
      settle_nonce-accepted store store' (read_payload type (fields_of (some fs))) p max_age
        purged_at stored_at h in
    (fs, refl, same, stored)

module _ (hmac_hex : String → String → String) (dumps : Json → String) (e : Envelope)
    (secret : String) (store : NonceStore) (max_age now purged_at stored_at : ℕ) where
  pub verify_envelope-IsPassed :
      (store' : NonceStore) (p : CommandPayload)
      → verify_envelope hmac_hex dumps e secret store max_age now purged_at stored_at
        ≡ (store', accepted p)
      → IsPassed hmac_hex dumps e secret store store' p max_age now purged_at stored_at
  unfolding verify_envelope
  verify_envelope-IsPassed store' p h =
      let (typed, early, late, signed, rest) =
        guarded (not (is_command e.type)) (ltb (now + skew_tolerance) e.ts)
          (ltb (e.ts + max_age) now) (not (is_signed hmac_hex dumps e secret))
          (store, refused wrong_type) (store, refused future_dated) (store, refused too_old)
          (store, refused bad_signature)
          (settle_payload store e.type (decode (dataclass (decls_for e.type)) (obj e.payload))
            max_age purged_at stored_at)
          (IsAcceptance p store') (λ k. cc k.1) (λ k. cc k.1) (λ k. cc k.1) (λ k. cc k.1)
          (ground arith) in
      record {
        typed = ground arith;
        not_early = ground arith;
        not_late = ground arith;
        signed = ground arith;
        built =
            settle_payload-accepted store store' e.type
              (decode (dataclass (decls_for e.type)) (obj e.payload)) p max_age purged_at stored_at
              rest;
      }

  pub IsPassed-verify_envelope :
      (store' : NonceStore) (p : CommandPayload)
      → IsPassed hmac_hex dumps e secret store store' p max_age now purged_at stored_at
      → verify_envelope hmac_hex dumps e secret store max_age now purged_at stored_at
        ≡ (store', accepted p)
  unfolding verify_envelope
  IsPassed-verify_envelope store' p a =
      let (fs, decoded, same, stored) = a.built in
      ground (arith, a.typed, a.not_early, a.not_late, a.signed)
