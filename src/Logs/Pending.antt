-- ===== src/Logs/Pending.antt =====
-- `PendingBatches` of stormpulse/agent/log_batches.py. Times are readings of the monotonic clock. The
-- asyncio event of a group is whether it is set; `released` holds those made so far.
use storm_pulse.Base.{
  ltb, if◌then◌else◌, ◌==◌, string_eq, pair_eq, nat_eq, length, any, keep_if, ℕ, ◌+◌, String, Bool,
  true, false, not, Option, none, some, List, [], ◌∷◌, map,
}
use storm_pulse.Base.Dict
use storm_pulse.Base.Dict.{Dict}
use storm_pulse.Logs.Receipt.{Receipt}
pub mod Flight

pub record Entry : Type 0 where
  pub receipt : Receipt
  pub sent_at : ℕ

pub record PendingBatches : Type 0 where
  pub ack_timeout : ℕ
  pub entries : Dict String Entry
  pub released : Dict String Bool

abbrev pub no_batches : ℕ → PendingBatches
no_batches ack_timeout = record { ack_timeout = ack_timeout; entries = []; released = [] }

unfoldable pub add : PendingBatches → String → Receipt → ℕ → PendingBatches
add p batch_id receipt now = record p {
  entries = Dict.put batch_id (record { receipt = receipt; sent_at = now }) p.entries;
  released = Dict.put receipt.group false p.released;
}

abbrev pub set_released : Bool → Receipt → Dict String Bool → Dict String Bool
set_released release receipt released =
    if release then Dict.put receipt.group true released else released

abbrev pub pop_entry :
    PendingBatches → String → Bool → Option Entry → PendingBatches × Option Receipt
pop_entry p batch_id release none = (p, none)
pop_entry p batch_id release (some entry) = (
  record p {
    entries = Dict.remove batch_id p.entries;
    released = set_released release entry.receipt p.released;
  },
  some entry.receipt,
)

unfoldable pub pop : PendingBatches → String → Bool → PendingBatches × Option Receipt
pop p batch_id release = pop_entry p batch_id release (Dict.get batch_id p.entries)

unfoldable pub in_flight : PendingBatches → String → Bool
in_flight p group = any (λ item. item.1.receipt.group == group) p.entries

abbrev pub receipt_of : Option Entry → Option Receipt
receipt_of none = none
receipt_of (some entry) = some entry.receipt

unfoldable pub peek : PendingBatches → String → Option Receipt
peek p batch_id = receipt_of (Dict.get batch_id p.entries)

unfoldable pub receipts : PendingBatches → List Receipt
receipts p = map (λ item. item.1.receipt) p.entries

-- sent_at < now - ack_timeout, the terms on the side of `+`
abbrev pub is_stale : ℕ → ℕ → Entry → Bool
is_stale now ack_timeout entry = ltb (entry.sent_at + ack_timeout) now

-- the loop over the stale ids
unfoldable pub release_stale : ℕ → ℕ → Dict String Entry → Dict String Bool → Dict String Bool
release_stale now ack_timeout [] released = released
release_stale now ack_timeout ((batch_id, entry) ∷ entries) released =
    release_stale now ack_timeout entries
      (set_released (is_stale now ack_timeout entry) entry.receipt released)

unfoldable pub prune_stale : PendingBatches → ℕ → PendingBatches × ℕ
unfolding release_stale
prune_stale p now = (
  record p {
    entries = keep_if (λ item. not (is_stale now p.ack_timeout item.1)) p.entries;
    released = release_stale now p.ack_timeout p.entries p.released;
  },
  length (keep_if (λ item. is_stale now p.ack_timeout item.1) p.entries),
)
