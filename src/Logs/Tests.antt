-- ===== src/Logs/Tests.antt =====
-- Log batches of stormpulse/agent/log_batches.py on a concrete run.
use storm_pulse.Base.{
  string_eq, pair_eq, nat_eq, ℕ, String, ◌≡◌, refl, true, false, some, List, [], ◌∷◌,
}
use storm_pulse.Base.Dict
use storm_pulse.Base.Int.{pos}
use storm_pulse.Logs.Positions.{
  set, set_docker_ts, set_cursor, checkpoint, get_docker_ts, get_cursor,
}
use storm_pulse.Logs.Positions.Cells.{
  Write, write_file, write_docker, write_journal, written_all, in_group, cells, cells-written_all,
}
use storm_pulse.Logs.Receipt.{FileGeneration, Receipt, offset}
use storm_pulse.Logs.Pending.{PendingBatches, no_batches, add, pop, prune_stale, release_stale}
use storm_pulse.Logs.Pending.Flight.{
  Call, add_call, ack_call, prune_call, call, calls, AllFresh, IsAwake, ends_refused, calls-IsAwake,
}

abbrev read_of : String → ℕ → ℕ → Receipt
read_of group start stop = record {
  group = group;
  source = "/var/log/app";
  generation = some (record { inode = 7; head_len = 2; head_digest = [] });
  from_position = offset (pos start);
  to_position = offset (pos stop);
}

abbrev run : List Call
run =
    add_call "b1" (read_of "app" 0 10) 1
    ∷ add_call "b2" (read_of "app" 10 20) 2
    ∷ add_call "b3" (read_of "web" 0 5) 3
    ∷ ack_call "b1" true
    ∷ ack_call "b2" false
    ∷ prune_call 33
    ∷ []

run-AllFresh : AllFresh (no_batches 30) run
unfolding call add pop prune_stale release_stale Dict.put Dict.has Dict.get Dict.remove
run-AllFresh = (refl, (refl, (refl, (tt, (tt, (tt, tt))))))

calls-IsAwake_example :
    IsAwake "web" (ends_refused "web" false (no_batches 30) run) (calls (no_batches 30) run)
calls-IsAwake_example = calls-IsAwake 30 "web" run run-AllFresh

abbrev two : PendingBatches
two = add (add (no_batches 30) "b1" (read_of "app" 0 10) 1) "b2" (read_of "web" 0 5) 9

abbrev head : FileGeneration
head = record { inode = 7; head_len = 2; head_digest = 1 ∷ [] }

abbrev writes : List Write
writes =
    write_file "app" "/var/log/app" (pos 20) 7 (some head) 1
    ∷ write_docker "web" "nginx" "2026-01-01" 2
    ∷ write_journal "app" "app.service" "c1" 3
    ∷ []

cells-written_all_example :
    cells "app" (written_all writes []) ≡ in_group "app" writes (cells "app" [])
cells-written_all_example = cells-written_all writes [] "app"

-- the checkpoint is there beside the cursor
writes_read : (cells "app" (written_all writes [])).checkpoint.position ≡ pos 20
unfolding set set_docker_ts set_cursor checkpoint get_docker_ts get_cursor Dict.get Dict.put
writes_read = refl
