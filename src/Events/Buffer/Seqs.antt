-- ===== src/Events/Buffer/Seqs.antt =====
-- The numbers stamped on events (stormpulse/events.py): none is given out twice.
use storm_pulse.Base.{
  if◌then◌else◌, ◌==◌, string_eq, pair_eq, nat_eq, length, take, drop, take-append-drop, ℕ, ◌+◌,
  ◌≤◌, ◌<◌, String, ◌≡◌, refl, ap, Option, some, List, [], ◌∷◌, ◌++◌, arith,
}
use storm_pulse.Base.Dict
use storm_pulse.Base.Dict.{Dict}
use storm_pulse.Base.Int.{pos}
use storm_pulse.Json.{Json, int}
use storm_pulse.Events.Buffer.{
  Event, EventBuffer, stamp, push, push_all, extend, batches, report, evict, send_out, drain, ack,
  nack, trim, requeue_unacked, dropped_event,
}
use storm_pulse.Events.Buffer.Ledger.{
  ack_call, nack_call, Call, extend_call, drain_call, requeue_call, Ledger, open_ledger, call,
  calls,
}

abbrev pub is_seq : ℕ → Option Json → ℕ
is_seq n (some (int (pos m))) = if m == n then 1 else 0
is_seq n _ = 0

-- How many of the events carry the number `n`.
unfoldable pub occurs : ℕ → List Event → ℕ
occurs n [] = 0
occurs n (e ∷ es) = is_seq n (Dict.get "seq" e) + occurs n es

seq-stamp : (n : ℕ) (e : Event) → Dict.get "seq" (stamp n e) ≡ some (int (pos n))
unfolding stamp
seq-stamp n e = Dict.get-put "seq" "seq" (int (pos n)) e

occurs-stamp :
    (n m : ℕ) (e : Event) → is_seq n (Dict.get "seq" (stamp m e)) ≡ (if m == n then 1 else 0)
occurs-stamp n m e = rw seq-stamp

pub occurs-append : (n : ℕ) (xs ys : List Event) → occurs n (xs ++ ys) ≡ occurs n xs + occurs n ys
unfolding occurs
occurs-append n [] ys = omega arith
occurs-append n (x ∷ xs) ys = omega (arith, occurs-append n xs ys)

-- How many events buffered or in flight carry the number `n`.
abbrev pub holds : ℕ → EventBuffer → ℕ
holds n b = occurs n b.buf + occurs n (batches b.in_flight)

holds-push :
    (n : ℕ) (b : EventBuffer) (e : Event)
    → (holds n (push b e) ≤ holds n b + (if b.seq + 1 == n then 1 else 0))
      × ((push b e).seq ≡ b.seq + 1)
unfolding push occurs
holds-push n b e =
    let s = stamp (b.seq + 1) e in
    ground (
      arith,
      occurs-stamp n (b.seq + 1) e,
      occurs-append n b.buf (s ∷ []),
      occurs-append n (drop 1 b.buf) (s ∷ []),
      occurs-append n (take 1 b.buf) (drop 1 b.buf),
      take-append-drop 1 b.buf,
    )

pub record HasUniqueSeqs (b : EventBuffer) : Type 0 where
  pub once : (n : ℕ) → holds n b ≤ 1
  pub below : (n : ℕ) → b.seq < n → holds n b ≡ 0

push-HasUniqueSeqs : (b : EventBuffer) (e : Event) → HasUniqueSeqs b → HasUniqueSeqs (push b e)
push-HasUniqueSeqs b e v = record {
  once = λ n. ground (arith, holds-push n b e, v.once n, v.below n);
  below = λ n h. ground (arith, holds-push n b e, v.once n, v.below n);
}

push_all-HasUniqueSeqs :
    (batch : List Event) (b : EventBuffer) → HasUniqueSeqs b → HasUniqueSeqs (push_all b batch)
unfolding push_all
push_all-HasUniqueSeqs [] b v = v
push_all-HasUniqueSeqs (e ∷ batch) b v =
    push_all-HasUniqueSeqs batch (push b e) (push-HasUniqueSeqs b e v)

report-HasUniqueSeqs :
    (b : EventBuffer) (now : String) → HasUniqueSeqs b → HasUniqueSeqs (report b now)
unfolding report occurs
report-HasUniqueSeqs b now v =
    let s = dropped_event now b.dropped b.undeclared in
    record {
      once = λ n. ground (arith, occurs-stamp n (b.seq + 1) s, v.once n, v.below n);
      below = λ n h. ground (arith, occurs-stamp n (b.seq + 1) s, v.once n, v.below n);
    }

occurs-evict :
    (n : ℕ) (d : Dict String (List Event)) (k : ℕ)
    → occurs n (batches (evict d k).0) ≤ occurs n (batches d)
unfolding evict batches
occurs-evict n [] k = omega arith
occurs-evict n ((i, c) ∷ d) k =
    ground (arith, occurs-append n c (batches d), occurs-evict n d (k + length c))

occurs-put :
    (n : ℕ) (i : String) (out : List Event) (d : Dict String (List Event))
    → occurs n (batches (Dict.put i out d)) ≤ occurs n (batches d) + occurs n out
unfolding batches Dict.put
occurs-put n i out [] = omega (arith, occurs-append n out [])
occurs-put n i out ((j, c) ∷ d) = ground (
  arith,
  occurs-append n c (batches d),
  occurs-append n out (batches d),
  occurs-append n c (batches (Dict.put i out d)),
  occurs-put n i out d,
)

occurs-remove :
    (n : ℕ) (i : String) (d : Dict String (List Event))
    → occurs n (batches (Dict.remove i d)) ≤ occurs n (batches d)
unfolding batches Dict.remove
occurs-remove n i [] = omega arith
occurs-remove n i ((j, c) ∷ d) = ground (
  arith,
  occurs-append n c (batches d),
  occurs-append n c (batches (Dict.remove i d)),
  occurs-remove n i d,
)

occurs-trim : (n max : ℕ) (xs : List Event) (k : ℕ) → occurs n (trim max xs k).0 ≤ occurs n xs
unfolding trim occurs
occurs-trim n max [] k = omega arith
occurs-trim n max (e ∷ xs) k = ground (arith, occurs-trim n max xs (k + 1))

holds-send_out :
    (n : ℕ) (b : EventBuffer) (i : String) (out : List Event)
    → (holds n (send_out b i out) ≤ holds n b + occurs n out) × ((send_out b i out).seq ≡ b.seq)
unfolding send_out
holds-send_out n b i [] = (omega arith, refl)
holds-send_out n b i (e ∷ out) = (
  omega (
    arith,
    occurs-evict n (Dict.put i (e ∷ out) b.in_flight) b.dropped,
    occurs-put n i (e ∷ out) b.in_flight,
  ),
  refl,
)

-- A method that adds no event to those held, and stamps none, keeps the numbers unique.
shrink-HasUniqueSeqs :
    (b c : EventBuffer)
    → ((n : ℕ) → holds n c ≤ holds n b)
    → c.seq ≡ b.seq
    → HasUniqueSeqs b
    → HasUniqueSeqs c
shrink-HasUniqueSeqs b c less e v = record {
  once = λ n. omega (arith, less n, v.once n);
  below = λ n h. let at_b : b.seq < n = omega (arith, e) in omega (arith, less n, v.below n at_b);
}

drain-HasUniqueSeqs :
    (b : EventBuffer) (i : String) (k : ℕ) (now : String)
    → HasUniqueSeqs b
    → HasUniqueSeqs (drain b i k now).0
unfolding drain
drain-HasUniqueSeqs b i k now v =
    let r = report b now in
    let cut : EventBuffer = record r { buf = drop k r.buf } in
    let less : (n : ℕ) → holds n (send_out cut i (take k r.buf)) ≤ holds n r = λ n.
      let split : occurs n (take k r.buf ++ drop k r.buf) ≡ occurs n r.buf =
        ap (occurs n) (take-append-drop k r.buf) in
      omega (
        arith,
        split,
        (holds-send_out n cut i (take k r.buf)).0,
        occurs-append n (take k r.buf) (drop k r.buf),
      ) in
    shrink-HasUniqueSeqs r (send_out cut i (take k r.buf)) less
      (holds-send_out 0 cut i (take k r.buf)).1 (report-HasUniqueSeqs b now v)

call-HasUniqueSeqs :
    (l : Ledger) (c : Call) → HasUniqueSeqs l.buffer → HasUniqueSeqs (call l c).buffer
unfolding call extend ack nack requeue_unacked batches occurs
call-HasUniqueSeqs l (extend_call batch k) v =
    push_all-HasUniqueSeqs batch _ (record { once = v.once; below = v.below })
call-HasUniqueSeqs l (drain_call i k now) v = drain-HasUniqueSeqs l.buffer i k now v
call-HasUniqueSeqs l (ack_call i) v =
    shrink-HasUniqueSeqs l.buffer _ (λ n. omega (arith, occurs-remove n i l.buffer.in_flight)) refl
      v
call-HasUniqueSeqs l (nack_call i) v =
    shrink-HasUniqueSeqs l.buffer _ (λ n. omega (arith, occurs-remove n i l.buffer.in_flight)) refl
      v
call-HasUniqueSeqs l requeue_call v =
    let b = l.buffer in
    shrink-HasUniqueSeqs b _
      (λ n. omega (
        arith,
        occurs-trim n b.max (batches b.in_flight ++ b.buf) b.dropped,
        occurs-append n (batches b.in_flight) b.buf,
      ))
      refl v

calls-HasUniqueSeqs :
    (l : Ledger) (cs : List Call) → HasUniqueSeqs l.buffer → HasUniqueSeqs (calls l cs).buffer
unfolding calls
calls-HasUniqueSeqs l [] v = v
calls-HasUniqueSeqs l (c ∷ cs) v = calls-HasUniqueSeqs (call l c) cs (call-HasUniqueSeqs l c v)

-- After any sequence of calls from an empty buffer no two events buffered or in flight carry the
-- same number, and none carries a number that was not yet given out.
pub seqs_are_unique : (max : ℕ) (cs : List Call) → HasUniqueSeqs (calls (open_ledger max) cs).buffer
seqs_are_unique max cs =
    calls-HasUniqueSeqs (open_ledger max) cs
      (unfold batches occurs in record { once = λ n. omega arith; below = λ n h. refl })
