-- ===== src/Events/Buffer/Ranges.antt =====
-- Which stamped numbers the buffer of stormpulse/events.py still holds: `holds_any` over a range.
use storm_pulse.Base.{
  ltb, leb, Bool-cases, string_eq, pair_eq, nat_eq, any, ℕ, ◌≤◌, ◌<◌, ◌≡◌, refl, ◌↔◌, inl, inr,
  false, ◌&&◌, Option, some, List, [], ◌∷◌, ◌++◌, arith,
}
use storm_pulse.Base.Dict
use storm_pulse.Base.Int.{pos}
use storm_pulse.Json.{Json, int}
use storm_pulse.Events.Buffer.{Event, EventBuffer, batches, holds_any, in_range}
use storm_pulse.Events.Buffer.Seqs.{is_seq, occurs, occurs-append, holds}

any-occurs :
    (lo hi n : ℕ) (es : List Event)
    → lo ≤ n
    → n < hi
    → any (λ e. in_range (lo, hi) (Dict.get "seq" e)) es ≡ false
    → occurs n es ≡ 0
unfolding occurs
any-occurs lo hi n [] p q h = refl
any-occurs lo hi n (e ∷ es) p q h = ground (arith, any-occurs lo hi n es)

in_range-none :
    (lo hi : ℕ) (o : Option Json)
    → ((n : ℕ) → lo ≤ n → n < hi → is_seq n o ≡ 0)
    → in_range (lo, hi) o ≡ false
in_range-none lo hi (some (int (pos m))) h = elim (Bool-cases (leb lo m && ltb m hi)) [
  | inl e ↦ ground (arith, h m)
  | inr e ↦ e
]
in_range-none lo hi _ h = refl

occurs-any :
    (lo hi : ℕ) (es : List Event)
    → ((n : ℕ) → lo ≤ n → n < hi → occurs n es ≡ 0)
    → any (λ e. in_range (lo, hi) (Dict.get "seq" e)) es ≡ false
unfolding occurs
occurs-any lo hi [] h = refl
occurs-any lo hi (e ∷ es) h =
    let first =
      in_range-none lo hi (Dict.get "seq" e) (λ n p q. let k = h n p q in omega (arith, k)) in
    let rest = occurs-any lo hi es (λ n p q. let k = h n p q in omega (arith, k)) in rw first rest

-- `holds_any` is false exactly when no event buffered or in flight carries a number of the range:
-- then every event of a segment read into the buffer is settled.
pub holds_any_iff :
    (b : EventBuffer) (lo hi : ℕ)
    → (holds_any b (lo, hi) ≡ false) ↔ ((n : ℕ) → lo ≤ n → n < hi → holds n b ≡ 0)
unfolding holds_any
holds_any_iff b lo hi = (
  λ h n p q. omega (
    arith,
    any-occurs lo hi n (b.buf ++ batches b.in_flight) p q h,
    occurs-append n b.buf (batches b.in_flight),
  ),
  λ h.
      occurs-any lo hi (b.buf ++ batches b.in_flight)
        (λ n p q. let k = h n p q in omega (arith, k, occurs-append n b.buf (batches b.in_flight))),
)
