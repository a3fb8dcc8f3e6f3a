-- ===== src/Events/Walk/Tests.antt =====
-- A walk of stormpulse/events.py on concrete calls.
use storm_pulse.Base.{◌≡◌, some, List, [], ◌∷◌}
use storm_pulse.Base.Int.{pos}
use storm_pulse.Json.{str}
use storm_pulse.Events.Walk.{Walk, new_walk, Call, Happening, called, dropped_items, run_walk}
use storm_pulse.Events.Walk.Tally.{IsTally, run_walk-IsTally}

abbrev ok_call : Call
ok_call = record {
  endpoint = "/bucket";
  duration_ms = 12;
  status = some (pos 200);
  fields = ("bucket_id", str "b1") ∷ [];
}

abbrev missing_call : Call
missing_call = record {
  endpoint = "/bucket";
  duration_ms = 5;
  status = some (pos 404);
  fields = [];
}

abbrev happenings : List Happening
happenings = called ok_call ∷ dropped_items 2 ∷ called missing_call ∷ []

run_walk-IsTally_example :
    (t : Walk) × ((run_walk (some (new_walk "bucket")) happenings).0 ≡ some t)
    × IsTally (new_walk "bucket") t happenings (run_walk (some (new_walk "bucket")) happenings).1
run_walk-IsTally_example = run_walk-IsTally "bucket" happenings

abbrev quiet : Walk
quiet = record (new_walk "bucket") { calls = 3 }
