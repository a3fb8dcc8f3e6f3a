-- ===== src/Events/Walk/Tally.antt =====
-- What the summary of a walk tells (stormpulse/events.py).
use storm_pulse.Base.{
  ltb, leb, if◌then◌else◌, Bool-cases, length, ℕ, suc, ◌+◌, ◌≤◌, String, ◌≡◌, refl, ap, ◌∙◌, ◌↔◌,
  inl, inr, Bool, true, false, ◌||◌, some, List, [], ◌∷◌, ◌++◌, arith,
}
use storm_pulse.Events.Buffer.{Event}
use storm_pulse.Events.Walk.{
  Walk, new_walk, is_failure, Call, call_fields, count, time_call, record_call, record_dropped,
  close, Happening, called, dropped_items, run_walk,
}

abbrev pub calls_of : List Happening → ℕ
calls_of [] = 0
calls_of (called c ∷ hs) = suc (calls_of hs)
calls_of (dropped_items n ∷ hs) = calls_of hs

abbrev pub failures_of : List Happening → ℕ
failures_of [] = 0
failures_of (called c ∷ hs) = if is_failure c.status then suc (failures_of hs) else failures_of hs
failures_of (dropped_items n ∷ hs) = failures_of hs

abbrev pub drops_of : List Happening → ℕ
drops_of [] = 0
drops_of (called c ∷ hs) = drops_of hs
drops_of (dropped_items n ∷ hs) = n + drops_of hs

abbrev pub slowest_of : ℕ → List Happening → ℕ
slowest_of ms [] = ms
slowest_of ms (called c ∷ hs) = slowest_of (if leb ms c.duration_ms then c.duration_ms else ms) hs
slowest_of ms (dropped_items n ∷ hs) = slowest_of ms hs

-- The totals `t` after `hs` on the totals `w`, and the events emitted on the way: one for each failure.
pub record IsTally (w t : Walk) (hs : List Happening) (emitted : List Event) : Type 0 where
  pub counted : t.calls ≡ w.calls + calls_of hs
  pub failed : t.failures ≡ w.failures + failures_of hs
  pub dropped_too : t.dropped ≡ w.dropped + drops_of hs
  pub read : t.items_read + t.failures + w.calls ≤ w.items_read + w.failures + t.calls
  pub slowest : t.slowest_ms ≡ slowest_of w.slowest_ms hs
  pub told : length emitted ≡ failures_of hs

-- What a call makes of the totals `w`.
record IsNext (w w' : Walk) (c : Call) : Type 0 where
  one_more : w'.calls ≡ w.calls + 1
  fails : w'.failures ≡ w.failures + (if is_failure c.status then 1 else 0)
  keeps : w'.dropped ≡ w.dropped
  reads : w'.items_read + w'.failures ≤ w.items_read + w.failures + 1
  times : w'.slowest_ms ≡ (if leb w.slowest_ms c.duration_ms then c.duration_ms else w.slowest_ms)

after_call : (w : Walk) (c : Call) → IsNext w (time_call (count w c) c) c
unfolding count time_call
after_call w c = record {
  one_more = ground arith;
  fails = ground arith;
  keeps = ground arith;
  reads = ground arith;
  times = ground arith;
}

tell :
    (f : Bool) (e : Event) (rest : List Event) (n : ℕ)
    → length rest ≡ n
    → length ((if f then e ∷ [] else []) ++ rest) ≡ (if f then suc n else n)
tell true e rest n h = omega (arith, h)
tell false e rest n h = h

fail_step :
    (f : Bool) (a b n : ℕ) → a ≡ b + (if f then 1 else 0) + n → a ≡ b + (if f then suc n else n)
fail_step true a b n h = omega (arith, h)
fail_step false a b n h = omega (arith, h)

next-IsTally :
    (w w' t : Walk) (c : Call) (hs : List Happening) (rest : List Event)
    → IsNext w w' c
    → IsTally w' t hs rest
    → IsTally w t (called c ∷ hs) ((if is_failure c.status then call_fields c ∷ [] else []) ++ rest)
next-IsTally w w' t c hs rest step v = record {
  counted = omega (arith, v.counted, step.one_more);
  failed =
      fail_step (is_failure c.status) t.failures w.failures (failures_of hs)
        (v.failed ∙ ap (λ n. n + failures_of hs) step.fails);
  dropped_too = omega (arith, v.dropped_too, step.keeps);
  read = omega (arith, v.read, step.one_more, step.reads);
  slowest = v.slowest ∙ ap (λ ms. slowest_of ms hs) step.times;
  told = tell (is_failure c.status) (call_fields c) rest (failures_of hs) v.told;
}

run_walk-IsTally_rec :
    (w : Walk) (hs : List Happening)
    → (t : Walk) × ((run_walk (some w) hs).0 ≡ some t) × IsTally w t hs (run_walk (some w) hs).1
unfolding run_walk record_call record_dropped
run_walk-IsTally_rec w [] = (
  w,
  refl,
  record {
    counted = omega arith;
    failed = omega arith;
    dropped_too = omega arith;
    read = omega arith;
    slowest = refl;
    told = omega arith;
  },
)
run_walk-IsTally_rec w (called c ∷ hs) =
    let w' = time_call (count w c) c in
    let (t, e, v) = run_walk-IsTally_rec w' hs in
    (t, e, next-IsTally w w' t c hs (run_walk (some w') hs).1 (after_call w c) v)
run_walk-IsTally_rec w (dropped_items n ∷ hs) =
    let (t, e, v) = run_walk-IsTally_rec (record w { dropped = w.dropped + n }) hs in
    (
      t,
      e,
      record {
        counted = v.counted;
        failed = v.failed;
        dropped_too = omega (arith, v.dropped_too);
        read = v.read;
        slowest = v.slowest;
        told = v.told;
      },
    )

-- The totals of a walk after any calls and drops in it count each call, failure and dropped item once,
-- hold the longest duration, and read at most as many items as calls succeeded; each failure emitted
-- one event on the way, a success none.
pub run_walk-IsTally :
    (item : String) (hs : List Happening)
    → (t : Walk) × ((run_walk (some (new_walk item)) hs).0 ≡ some t)
      × IsTally (new_walk item) t hs (run_walk (some (new_walk item)) hs).1
run_walk-IsTally item hs = run_walk-IsTally_rec (new_walk item) hs

-- The exit of a walk emits no summary exactly if the walk read nothing, dropped nothing and had no failure.
pub close-none :
    (w : Walk) (total_ms : ℕ)
    → (close w total_ms ≡ []) ↔ ((w.items_read ≡ 0) × (w.dropped ≡ 0) × (w.failures ≡ 0))
unfolding close
close-none w total_ms =
    elim (Bool-cases (ltb 0 w.items_read || ltb 0 w.dropped || ltb 0 w.failures)) [
      | inl e ↦ rw e (λ h. absurd (cc), λ h. absurd (ground (arith, e, h)))
      | inr e ↦ rw e (λ h. ground (arith, e), λ h. refl)
    ]
