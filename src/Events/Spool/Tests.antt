-- ===== src/Events/Spool/Tests.antt =====
-- A segment of two records (stormpulse/agent/event_spool.py), of which one is refused, and its tick.
use storm_pulse.Base.{
  if◌then◌else◌, ◌==◌, string_eq, pair_eq, nat_eq, length, String, ◌≡◌, refl, true, false, none,
  some, List, [], ◌∷◌,
}
use storm_pulse.Base.Dict
use storm_pulse.Base.Int.{pos}
use storm_pulse.Json.{Json, int, str, arr, obj, nil, end, field}
use storm_pulse.Events.Buffer.{new_buffer, push, push_all}
use storm_pulse.Events.Admit.{EventSource}
use storm_pulse.Events.Spool.Files.{name_eq, Node, named, Arrivals, settle_file}
use storm_pulse.Events.Spool.Others.{settle_file_leaves_others}
use storm_pulse.Events.Spool.Newest.{current, settle_file_keeps_newest}
use storm_pulse.Events.Spool.{Reader, Feeder, Spool, contents, parse, tick}

abbrev good : Json
good = obj (field "kind" (str "sale") (field "total" (int (pos 3)) end))

-- a value that is not a scalar
abbrev bad : Json
bad = obj (field "kind" (str "sale") (field "total" (arr nil) end))

abbrev source : EventSource
source = record { name = "shop"; kinds = ("sale", "total" ∷ []) ∷ []; spool_dir = "/spool" }

abbrev reader : Reader
reader = record {
  loads = λ line.
      if line == "header"
      then some (obj (field "schema" (int (pos 1)) end))
      else if line == "good"
      then some good
      else if line == "bad"
      then some bad
      else none;
  ts_match = λ s. true;
  now = "2026-01-01T00:00:00Z";
  registries = record {
    builtin = [];
    integration = (("shop", "sale"), "total" ∷ []) ∷ [];
    spool_dirs = [];
  };
  text_of = λ v. "";
}

abbrev lines : List String
lines = "header" ∷ "good" ∷ "" ∷ "bad" ∷ []

-- one record is admitted, the other is refused
parsed : (length (parse reader source lines).0 ≡ 1) × ((parse reader source lines).1 ≡ 1)
unfolding parse Dict.get Dict.remove
parsed = (refl, refl)

abbrev spool : Spool
spool = record {
  names = "a.jsonl" ∷ "b.jsonl" ∷ [];
  file = λ name. contents (1, 2) lines;
  faults = record { link = false; unlink = false; rename = false };
  arrivals = λ name. record { before_stat = none; before_rename = none; before_link = none };
}

abbrev feeder : Feeder
feeder = record { source = source; pending = []; stuck = []; files = [] }

-- both segments are read, and wait for their events
ticked : length (tick reader spool (new_buffer 4096, feeder)).1.pending ≡ 2
unfolding tick Dict.has push_all Dict.get Dict.remove push Dict.put
ticked = refl

abbrev old_file : Node
old_file = record { identity = (1, 2); is_directory = false }

abbrev new_file : Node
new_file = record { identity = (3, 4); is_directory = false }

-- the file that was read is replaced before it is renamed aside
abbrev replaced : Arrivals
replaced = record { before_stat = none; before_rename = some new_file; before_link = none }

settle_file_keeps_newest_example :
    current "a.jsonl"
      (settle_file spool.faults replaced "a.jsonl"
        (some (1, 2))
        ((named "a.jsonl", old_file) ∷ [])).0
    ≡ some new_file
settle_file_keeps_newest_example =
    settle_file_keeps_newest spool.faults replaced "a.jsonl" (some (1, 2)) new_file refl
      ((named "a.jsonl", old_file) ∷ []) (unfold Dict.has in (refl, tt)) refl

settle_file_leaves_others_example :
    Dict.get
      (named "b.jsonl")
      (settle_file spool.faults replaced "a.jsonl"
        (some (1, 2))
        ((named "a.jsonl", old_file) ∷ (named "b.jsonl", new_file) ∷ [])).0
    ≡ Dict.get (named "b.jsonl") ((named "a.jsonl", old_file) ∷ (named "b.jsonl", new_file) ∷ [])
settle_file_leaves_others_example =
    settle_file_leaves_others spool.faults replaced "a.jsonl" (some (1, 2)) (named "b.jsonl") refl
      refl ((named "a.jsonl", old_file) ∷ (named "b.jsonl", new_file) ∷ [])

-- the file that was read is deleted
settles :
    (settle_file spool.faults
      (spool.arrivals "a.jsonl")
      "a.jsonl"
      (some (1, 2))
      ((named "a.jsonl", old_file) ∷ [])).0
    ≡ []
unfolding settle_file Dict.get Dict.put Dict.remove
settles = refl
