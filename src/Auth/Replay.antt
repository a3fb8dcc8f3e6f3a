-- ===== src/Auth/Replay.antt =====
-- A command that was accepted once (stormpulse/auth.py): when it is accepted again, and when not.
use storm_pulse.Base.{
  string_eq, pair_eq, nat_eq, All, ℕ, ◌+◌, ◌≤◌, ◌<◌, String, ◌≡◌, sym, ◌∙◌, ◌≢◌, inl, inr, some,
  List, [], ◌∷◌, arith,
}
use storm_pulse.Base.Dict
use storm_pulse.Base.Dict.{Dict, IsDict}
use storm_pulse.Json.{Json}
use storm_pulse.Protocol.Codec.{ok-injective}
use storm_pulse.Protocol.Envelope.{Envelope}
use storm_pulse.Auth.{
  NonceStore, skew_tolerance, CommandPayload, read_payload, fields_of, Verdict, accepted,
  verify_envelope,
}
use storm_pulse.Auth.Nonces.{
  check_and_store-new, check_and_store-other, check_and_store-seen, check_and_store-due,
  check_and_store-IsDict,
}
use storm_pulse.Auth.Verify.{verify_envelope-store}
use storm_pulse.Auth.Passed.{verify_envelope-IsPassed, IsPassed-verify_envelope}

-- One call of `verify_envelope`, with the clock readings of its freshness test, purge and insert.
pub record Attempt : Type 0 where
  pub envelope : Envelope
  pub now : ℕ
  pub purged_at : ℕ
  pub stored_at : ℕ

module _ (hmac_hex : String → String → String) (dumps : Json → String) (secret : String)
    (max_age : ℕ) where
  abbrev pub verify : NonceStore → Attempt → NonceStore × Verdict
  verify store a =
      verify_envelope hmac_hex dumps a.envelope secret store max_age a.now a.purged_at a.stored_at

  -- the store after a sequence of calls, whatever their verdicts
  unfoldable pub attempts : NonceStore → List Attempt → NonceStore
  attempts store [] = store
  attempts store (a ∷ rest) = attempts (verify store a).0 rest

  verify-keeps :
      (store : NonceStore) (a : Attempt) (n : String) (s : ℕ)
      → Dict.get n store ≡ some s
      → a.purged_at ≤ s + max_age + skew_tolerance
      → Dict.get n (verify store a).0 ≡ some s
  verify-keeps store a n s h p =
      elim (verify_envelope-store hmac_hex dumps a.envelope secret store max_age a.now a.purged_at
        a.stored_at) [
          | inl same ↦ rw same h
          | inr (payload, q) ↦
              let (fs, decoded, same, stored) =
                (verify_envelope-IsPassed hmac_hex dumps a.envelope secret store max_age a.now
                  a.purged_at a.stored_at (verify store a).0 payload (ground (arith, q))).built in
              check_and_store-other store (verify store a).0
                (read_payload a.envelope.type (fields_of (some fs))).1 max_age a.purged_at
                a.stored_at stored n s h p
        ]

  attempts-keep :
      (bound : ℕ) (calls : List Attempt) (store : NonceStore) (n : String) (s : ℕ)
      → Dict.get n store ≡ some s
      → bound ≤ s + max_age + skew_tolerance
      → All (λ a. a.purged_at ≤ bound) calls
      → Dict.get n (attempts store calls) ≡ some s
  unfolding attempts
  attempts-keep bound [] store n s h p w = h
  attempts-keep bound (a ∷ rest) store n s h p (w, ws) =
      attempts-keep bound rest (verify store a).0 n s (verify-keeps store a n s h (omega arith)) p
        ws

  -- A command that was accepted, with its insert reading the clock no earlier than its freshness
  -- test, and comes again, after any calls whose purges read the clock no later than its own, is not
  -- accepted, if the time between its freshness test and its purge (purged_at - now)
  -- is at most 5 s less the time by which the first copy was dated ahead (ts - now, or 0).
  pub replay_refused :
      (store store' : NonceStore) (first again : Attempt) (between : List Attempt)
      (p q : CommandPayload)
      → again.envelope ≡ first.envelope
      → verify store first ≡ (store', accepted p)
      → first.now ≤ first.stored_at
      → All (λ a. a.purged_at ≤ again.purged_at) between
      → first.envelope.ts + again.purged_at ≤ first.now + again.now + skew_tolerance
      → (verify (attempts store' between) again).1 ≢ accepted q
  replay_refused store store' first again between p q same once clock ordered delay twice =
      let e = first.envelope in
      let (fs, decoded, _, stored) =
        (verify_envelope-IsPassed hmac_hex dumps e secret store max_age first.now first.purged_at
          first.stored_at store' p once).built in
      let later = attempts store' between in
      let store'' = (verify later again).0 in
      let a =
        verify_envelope-IsPassed hmac_hex dumps again.envelope secret later max_age again.now
          again.purged_at again.stored_at store'' q (ground (arith, twice)) in
      let (fs', decoded', _, stored') = a.built in
      let n = (read_payload e.type (fields_of (some fs))).1 in
      let late : again.now ≤ e.ts + max_age = rw same at a.not_late in
      let bound : again.purged_at ≤ first.stored_at + max_age + skew_tolerance = omega arith in
      let found =
        (check_and_store-new store store' n max_age first.purged_at first.stored_at stored).1 in
      let kept =
        attempts-keep again.purged_at between store' n first.stored_at found bound ordered in
      let seen =
        check_and_store-seen later n first.stored_at max_age again.purged_at again.stored_at kept
          bound in
      let same_fields : fs' ≡ fs = ok-injective (sym decoded' ∙ (rw same decoded)) in
      cc (seen, stored', same_fields, same)

  -- From a store without duplicate keys: a command that was accepted is accepted again by the next
  -- call, if it is still fresh and its nonce is due at the purge of that call.
  pub replay_accepted_when_due :
      (store store' : NonceStore) (first again : Attempt) (p : CommandPayload)
      → again.envelope ≡ first.envelope
      → IsDict store
      → verify store first ≡ (store', accepted p)
      → first.envelope.ts ≤ again.now + skew_tolerance
      → again.now ≤ first.envelope.ts + max_age
      → first.stored_at + max_age + skew_tolerance < again.purged_at
      → (verify store' again).1 ≡ accepted p
  replay_accepted_when_due store store' first again p same keys once early late due =
      let e = first.envelope in
      let a =
        verify_envelope-IsPassed hmac_hex dumps e secret store max_age first.now first.purged_at
          first.stored_at store' p once in
      let (fs, decoded, payload, stored) = a.built in
      let n = (read_payload e.type (fields_of (some fs))).1 in
      let found =
        (check_and_store-new store store' n max_age first.purged_at first.stored_at stored).1 in
      let keys' =
        check_and_store-IsDict store store' n max_age first.purged_at first.stored_at stored keys in
      let (store'', taken) =
        check_and_store-due store' n first.stored_at max_age again.purged_at again.stored_at keys'
          found due in
      let again_ok : verify_envelope hmac_hex dumps e secret store' max_age again.now
            again.purged_at again.stored_at
          ≡ (store'', accepted p) =
        IsPassed-verify_envelope hmac_hex dumps e secret store' max_age again.now again.purged_at
          again.stored_at store'' p
          (record {
            typed = a.typed;
            not_early = early;
            not_late = late;
            signed = a.signed;
            built = (fs, decoded, payload, taken);
          }) in
      rw (same, again_ok)
