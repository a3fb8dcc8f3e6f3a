-- ===== src/Logs/Pending/Flight.antt =====
-- No reader waits for an ACK that cannot come (stormpulse/agent/log_batches.py).
use storm_pulse.Base.{
  if◌then◌else◌, Bool-cases, ◌==◌, string_eq, pair_eq, nat_eq, length, any, keep_if, All, ℕ, ◌+◌,
  String, ◌≡◌, refl, sym, ap, ◌∙◌, inl, inr, Bool, true, false, not, ◌||◌, Option, none, some, List,
  [], ◌∷◌, arith, eq_iff,
}
use storm_pulse.Base.Dict
use storm_pulse.Base.Dict.{Dict, get-put}
use storm_pulse.Logs.Receipt.{Receipt}
use storm_pulse.Logs.Pending.{
  peek, receipt_of, Entry, PendingBatches, no_batches, add, set_released, pop, pop_entry, in_flight,
  is_stale, release_stale, prune_stale,
}

-- An ACK pops its batch, with the shipper's answer as `release`.
pub data Call : Type 0 where
  add_call : String → Receipt → ℕ → Call
  ack_call : String → Bool → Call
  prune_call : ℕ → Call

unfoldable pub call : PendingBatches → Call → PendingBatches
call p (add_call batch_id receipt now) = add p batch_id receipt now
call p (ack_call batch_id confirmed) = (pop p batch_id confirmed).0
call p (prune_call now) = (prune_stale p now).0

unfoldable pub calls : PendingBatches → List Call → PendingBatches
unfolding call
calls p [] = p
calls p (c ∷ cs) = calls (call p c) cs

-- A batch is added under an id that is not in flight (a fresh uuid).
abbrev pub IsFresh : PendingBatches → Call → Type 0
IsFresh p (add_call batch_id receipt now) = Dict.has batch_id p.entries ≡ false
IsFresh p c = Unit {0}

abbrev pub AllFresh : PendingBatches → List Call → Type 0
AllFresh p [] = Unit {0}
AllFresh p (c ∷ cs) = IsFresh p c × AllFresh (call p c) cs

abbrev is_of : String → Option Receipt → Bool
is_of group none = false
is_of group (some receipt) = receipt.group == group

-- Whether the last call about the group was the ACK of one of its batches, refused by the shipper.
abbrev pub is_refused : String → Bool → PendingBatches → Call → Bool
is_refused group before p (add_call batch_id receipt now) =
    if receipt.group == group then false else before
is_refused group before p (ack_call batch_id confirmed) =
    if is_of group (peek p batch_id) then not confirmed else before
is_refused group before p (prune_call now) = before

abbrev pub ends_refused : String → Bool → PendingBatches → List Call → Bool
ends_refused group before p [] = before
ends_refused group before p (c ∷ cs) =
    ends_refused group (is_refused group before p c) (call p c) cs

-- If the group's event is not set, the group has a batch in flight, whose ACK or pruning may set it, or
-- the last of its batches was refused.
abbrev pub IsAwake : String → Bool → PendingBatches → Type 0
IsAwake group refused p =
    Dict.get group p.released ≡ some false → (in_flight p group || refused) ≡ true

abbrev of_group : String → String × Entry → Bool
of_group group item = item.1.receipt.group == group

any-put :
    (f : String × Entry → Bool) (k : String) (v : Entry) (d : Dict String Entry)
    → Dict.has k d ≡ false
    → any f (Dict.put k v d) ≡ (any f d || f (k, v))
unfolding Dict.put Dict.has
any-put f k v [] h = ground arith
any-put f k v ((j, w) ∷ d) h = ground (arith, any-put f k v d)

entry_or : Entry → Option Entry → Entry
entry_or d none = d
entry_or d (some entry) = entry

some-eq : {a b : Entry} → some a ≡ some b → a ≡ b
unfolding entry_or
some-eq {a} h = ap (entry_or a) h

any-remove :
    (f : String × Entry → Bool) (k : String) (v : Entry) (d : Dict String Entry)
    → Dict.get k d ≡ some v
    → f (k, v) ≡ false
    → any f d ≡ true
    → any f (Dict.remove k d) ≡ true
unfolding Dict.get Dict.remove
any-remove f k v [] g p h = h
any-remove f k v ((j, w) ∷ d) g p h = elim (Bool-cases (j == k)) [
  | inl e ↦
      let q : f (j, w) ≡ false = rw ((eq_iff j k).0 e, some-eq (rw e at g)) p in
      rw e (ground (arith, h, q))
  | inr e ↦ rw e (ground (arith, any-remove f k v d (rw e at g) p))
]

module _ (group : String) (before : Bool) where
  add-IsAwake :
      (p : PendingBatches) (batch_id : String) (receipt : Receipt) (now : ℕ)
      → Dict.has batch_id p.entries ≡ false
      → IsAwake group before p
      → IsAwake group
          (if receipt.group == group then false else before)
          (add p batch_id receipt now)
  unfolding add in_flight
  add-IsAwake p batch_id receipt now fresh h g =
      rw
        (any-put (of_group group) batch_id (record { receipt = receipt; sent_at = now }) p.entries
          fresh)
        (ground (arith, get-put receipt.group group false p.released, g, h))

  -- a batch of another group leaves, whatever its shipper answers
  other-IsAwake :
      (p : PendingBatches) (batch_id : String) (confirmed : Bool) (entry : Entry)
      → Dict.get batch_id p.entries ≡ some entry
      → (entry.receipt.group == group) ≡ false
      → IsAwake group before p
      → IsAwake group before (pop_entry p batch_id confirmed (some entry)).0
  unfolding in_flight
  other-IsAwake p batch_id confirmed entry e other h g =
      elim (Bool-cases (any (of_group group) p.entries)) [
        | inl flies ↦ rw (any-remove (of_group group) batch_id entry p.entries e other flies) refl
        | inr none_flies ↦
            let same : Dict.get group p.released ≡ some false = elim (Bool-cases confirmed) [
              | inl agreed ↦
                  ground (
                    arith,
                    get-put entry.receipt.group group true p.released,
                    rw agreed at g,
                    other,
                  )
              | inr denied ↦ rw denied at g
            ] in
            let kept = h same in ground (arith, kept, none_flies)
      ]

  ack_entry-IsAwake :
      (p : PendingBatches) (batch_id : String) (confirmed : Bool) (o : Option Entry)
      → Dict.get batch_id p.entries ≡ o
      → IsAwake group before p
      → IsAwake group
          (if is_of group (receipt_of o) then not confirmed else before)
          (pop_entry p batch_id confirmed o).0
  ack_entry-IsAwake p batch_id confirmed none e h g = h g
  ack_entry-IsAwake p batch_id true (some entry) e h g =
      elim (Bool-cases (entry.receipt.group == group)) [
        | inl same ↦
            absurd (ground (arith, get-put entry.receipt.group group true p.released, g, same))
        | inr other ↦ rw other (other-IsAwake p batch_id true entry e other h g)
      ]
  ack_entry-IsAwake p batch_id false (some entry) e h g =
      elim (Bool-cases (entry.receipt.group == group)) [
        | inl same ↦ rw same (ground arith)
        | inr other ↦ rw other (other-IsAwake p batch_id false entry e other h g)
      ]

  ack-IsAwake :
      (p : PendingBatches) (batch_id : String) (confirmed : Bool)
      → IsAwake group before p
      → IsAwake group
          (if is_of group (peek p batch_id) then not confirmed else before)
          (pop p batch_id confirmed).0
  unfolding pop peek
  ack-IsAwake p batch_id confirmed h =
      ack_entry-IsAwake p batch_id confirmed (Dict.get batch_id p.entries) refl h

release_stale-false :
    (now ack_timeout : ℕ) (entries : Dict String Entry) (released : Dict String Bool)
    (group : String)
    → Dict.get group (release_stale now ack_timeout entries released) ≡ some false
    → (Dict.get group released ≡ some false)
      × (any (of_group group) (keep_if (λ item. not (is_stale now ack_timeout item.1)) entries)
          ≡ any (of_group group) entries)
unfolding release_stale
release_stale-false now ack_timeout [] released group h = (h, refl)
release_stale-false now ack_timeout ((batch_id, entry) ∷ entries) released group h =
    let (before, rest) =
      release_stale-false now ack_timeout entries
        (set_released (is_stale now ack_timeout entry) entry.receipt released) group h in
    elim (Bool-cases (is_stale now ack_timeout entry)) [
      | inl e ↦
          let put = get-put entry.receipt.group group true released in
          let now_set : (if entry.receipt.group == group
                then some true
                else Dict.get group released)
              ≡ some false =
            sym put ∙ (rw e at before) in
          (ground (arith, now_set), rw e (ground (arith, rest, now_set)))
      | inr e ↦ (rw e at before, rw e (ground (arith, rest)))
    ]

module _ (group : String) where
  prune-IsAwake :
      (before : Bool) (p : PendingBatches) (now : ℕ)
      → IsAwake group before p
      → IsAwake group before (prune_stale p now).0
  unfolding prune_stale in_flight
  prune-IsAwake before p now h g =
      let (unset, same) = release_stale-false now p.ack_timeout p.entries p.released group g in
      rw same (h unset)

  call-IsAwake :
      (before : Bool) (p : PendingBatches) (c : Call)
      → IsFresh p c
      → IsAwake group before p
      → IsAwake group (is_refused group before p c) (call p c)
  unfolding call
  call-IsAwake before p (add_call batch_id receipt now) f h =
      add-IsAwake group before p batch_id receipt now f h
  call-IsAwake before p (ack_call batch_id confirmed) f h =
      ack-IsAwake group before p batch_id confirmed h
  call-IsAwake before p (prune_call now) f h = prune-IsAwake before p now h

  calls-IsAwake_rec :
      (before : Bool) (p : PendingBatches) (cs : List Call)
      → AllFresh p cs
      → IsAwake group before p
      → IsAwake group (ends_refused group before p cs) (calls p cs)
  unfolding calls
  calls-IsAwake_rec before p [] f h = h
  calls-IsAwake_rec before p (c ∷ cs) f h =
      calls-IsAwake_rec (is_refused group before p c) (call p c) cs f.1
        (call-IsAwake before p c f.0 h)

-- After any adds under fresh ids, ACKs, confirmed or refused by their shipper, and prunings: a group
-- whose event is not set has a batch in flight, unless the last of its batches to be added or ACKed
-- was ACKed and refused by the shipper.
pub calls-IsAwake :
    (ack_timeout : ℕ) (group : String) (cs : List Call)
    → AllFresh (no_batches ack_timeout) cs
    → IsAwake group
        (ends_refused group false (no_batches ack_timeout) cs)
        (calls (no_batches ack_timeout) cs)
calls-IsAwake ack_timeout group cs f =
    calls-IsAwake_rec group false (no_batches ack_timeout) cs f
      (λ g. absurd (unfold Dict.get in (let t = g in cc)))

keep_if-split :
    (f : Entry → Bool) (d : Dict String Entry)
    → All (λ item. f item.1 ≡ false) (keep_if (λ item. not (f item.1)) d)
      × (length (keep_if (λ item. not (f item.1)) d) + length (keep_if (λ item. f item.1) d)
          ≡ length d)
keep_if-split f [] = (tt, omega arith)
keep_if-split f ((k, v) ∷ d) =
    let (kept, sum) = keep_if-split f d in
    elim (Bool-cases (f v)) [
      | inl e ↦ rw e (kept, omega (arith, sum))
      | inr e ↦ rw e ((e, kept), omega (arith, sum))
    ]

-- Pruning leaves only batches that are not past the timeout, and returns the number of those it dropped.
pub prune_stale_lem :
    (p : PendingBatches) (now : ℕ)
    → All (λ item. is_stale now p.ack_timeout item.1 ≡ false) (prune_stale p now).0.entries
      × (length (prune_stale p now).0.entries + (prune_stale p now).1 ≡ length p.entries)
unfolding prune_stale
prune_stale_lem p now = keep_if-split (is_stale now p.ack_timeout) p.entries
