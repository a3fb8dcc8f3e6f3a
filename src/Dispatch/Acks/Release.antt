-- ===== src/Dispatch/Acks/Release.antt =====
-- What an acknowledged batch (stormpulse/agent/acks.py) leaves in flight.
use storm_pulse.Base.{
  if◌then◌else◌, ◌==◌, string_eq, pair_eq, nat_eq, String, ◌≡◌, refl, Bool, true, false, ◌&&◌,
  Option, none, some,
}
use storm_pulse.Base.Dict
use storm_pulse.Base.Dict.{Dict}
use storm_pulse.Logs.Receipt.{Receipt}
use storm_pulse.Logs.Pending.{receipt_of, Entry, PendingBatches, peek, pop, set_released}
use storm_pulse.Dispatch.Acks.{
  Queues, Confirmation, is_confirmed, release_receipt, handle_log_batch_ack,
}

-- whether the receipt that was found is confirmed
abbrev pub confirmed_by : (Receipt → Confirmation) → Option Receipt → Bool
confirmed_by confirm none = false
confirmed_by confirm (some receipt) = is_confirmed (confirm receipt)

-- the queues when the batch is resolved: as the handler found them, or as the confirmation left them
abbrev pub met_by : (Queues → Queues) → Queues → Option Receipt → Queues
met_by meanwhile q none = q
met_by meanwhile q (some receipt) = meanwhile q

-- whether the batch that leaves flight, if there is one, is of `group` and was confirmed
abbrev pub releases : Bool → String → Option Receipt → Bool
releases confirmed group none = false
releases confirmed group (some receipt) = confirmed && receipt.group == group

-- Batch `i` is gone, the others stay; exactly the group of a confirmed batch is released.
pub record IsReleased (confirmed : Bool) (i : String) (p n : PendingBatches) : Type 0 where
  pub gone : Dict.get i n.entries ≡ none
  pub kept : (j : String) → (i == j) ≡ false → Dict.get j n.entries ≡ Dict.get j p.entries
  pub released :
      (group : String)
      → Dict.get group n.released
        ≡ (if releases confirmed group (peek p i) then some true else Dict.get group p.released)

get-set_released :
    (b : Bool) (receipt : Receipt) (released : Dict String Bool) (group : String)
    → Dict.get group (set_released b receipt released)
      ≡ (if b && receipt.group == group then some true else Dict.get group released)
get-set_released true receipt released group = Dict.get-put receipt.group group true released
get-set_released false receipt released group = refl

pop-IsReleased :
    (confirmed : Bool) (p : PendingBatches) (i : String) (o : Option Entry)
    → Dict.IsDict p.entries
    → Dict.get i p.entries ≡ o
    → IsReleased confirmed i p (pop p i confirmed).0
unfolding peek pop
pop-IsReleased confirmed p i none distinct h =
    rw h (record { gone = h; kept = λ j ne. refl; released = λ group. rw h refl })
pop-IsReleased confirmed p i (some entry) distinct h = rw h (record {
  gone = Dict.no_entry i (Dict.remove i p.entries) (Dict.has-remove_self i p.entries distinct);
  kept = λ j ne. Dict.get-remove_ne i j p.entries ne;
  released = λ group. rw h (get-set_released confirmed entry.receipt p.released group);
})

release-IsReleased :
    (confirm : Receipt → Confirmation) (meanwhile : Queues → Queues) (q : Queues) (i : String)
    (o : Option Entry)
    → Dict.get i q.pending.entries ≡ o
    → Dict.IsDict (met_by meanwhile q (receipt_of o)).pending.entries
    → IsReleased
        (confirmed_by confirm (receipt_of o))
        i
        (met_by meanwhile q (receipt_of o)).pending
        (release_receipt confirm meanwhile q i (receipt_of o)).0.pending
unfolding peek
release-IsReleased confirm meanwhile q i none h distinct = record {
  gone = h;
  kept = λ j ne. refl;
  released = λ group. rw h refl;
}
release-IsReleased confirm meanwhile q i (some entry) h distinct =
    pop-IsReleased (is_confirmed (confirm entry.receipt)) (meanwhile q).pending i _ distinct refl

-- With distinct ids in flight, and whatever the other tasks do while the shipper confirms: the batch of
-- the ACK is not in flight afterwards, whatever the shipper answers, and no other leaves; the waiter of
-- its group is released exactly if the batch was found, the shipper confirmed it and it is still in
-- flight when it is resolved, and no other group's is.
pub handle_log_batch_ack-IsReleased :
    (confirm : Receipt → Confirmation) (meanwhile : Queues → Queues) (q : Queues) (i : String)
    → Dict.IsDict (met_by meanwhile q (peek q.pending i)).pending.entries
    → IsReleased
        (confirmed_by confirm (peek q.pending i))
        i
        (met_by meanwhile q (peek q.pending i)).pending
        (handle_log_batch_ack confirm meanwhile q (some i)).0.pending
unfolding handle_log_batch_ack peek
handle_log_batch_ack-IsReleased confirm meanwhile q i distinct =
    release-IsReleased confirm meanwhile q i (Dict.get i q.pending.entries) refl distinct
