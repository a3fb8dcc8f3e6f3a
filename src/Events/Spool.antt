-- ===== src/Events/Spool.antt =====
-- The feeder of event segments (stormpulse/agent/event_spool.py): what a segment's lines admit, and one
-- tick. The directory's listing and the reads come from outside; a segment is its lines.
use storm_pulse.Base.{
  ltb, leb, if◌then◌else◌, ◌==◌, string_eq, pair_eq, nat_eq, length, drop, all, keep_if, ℕ, ◌-◌,
  String, Bool, true, false, not, ◌&&◌, ◌||◌, Option, none, some, List, [], ◌∷◌,
}
use storm_pulse.Base.Dict
use storm_pulse.Base.Dict.{Dict}
use storm_pulse.Base.Int.{ℤ, pos}
use storm_pulse.Base.Text.{utf8_length, all_chars}
use storm_pulse.Json.{Json, null, bool, int, float, str, arr, obj, Fields, to_dict}
use storm_pulse.Events.Buffer.{Event, EventBuffer, extend, room, holds_any}
use storm_pulse.Events.Spool.Files.{
  name_eq, Identity, Node, Arrivals, named, Faults, Directory, settle_file,
}
use storm_pulse.Events.Admit.{Registries, EventSource, admit}
pub mod Files
pub mod Newest
pub mod Others
pub mod Ticks
mod Tests

abbrev pub max_segment_events : ℕ
max_segment_events = 500

abbrev pub max_record_bytes : ℕ
max_record_bytes = 1024

-- What a record's line is read with: `json.loads`, the pattern of timestamps, the clock, the registries
-- of declared events, and the text of a value.
pub record Reader : Type 0 where
  pub loads : String → Option Json
  pub ts_match : String → Bool
  pub now : String
  pub registries : Registries
  pub text_of : Json → String

abbrev pub is_blank : String → Bool
is_blank = all_chars (λ c. c == b' ' || (leb 9 c && leb c 13))

abbrev pub dict_of_json : Option Json → Option (Dict String Json)
dict_of_json (some (obj fs)) = some (to_dict fs)
dict_of_json v = none

-- `_record`
unfoldable pub record_of : Reader → String → Option (Dict String Json)
record_of r line =
    if ltb max_record_bytes (utf8_length line) then none else dict_of_json (r.loads line)

-- math.isfinite, of a float's repr
abbrev pub is_finite : String → Bool
is_finite x = not (x == "nan" || (x == "inf" || x == "-inf"))

-- `_scalar`
abbrev pub is_scalar : Json → Bool
is_scalar (bool b) = true
is_scalar (int n) = true
is_scalar (float x) = is_finite x
is_scalar (str s) = true
is_scalar v = false

-- `_valid_ts` and `ts or events.now_iso()`; `none` is a ts that is not valid
abbrev pub ts_of : Reader → Option Json → Option Json
ts_of r none = some (str r.now)
ts_of r (some null) = some (str r.now)
ts_of r (some (str s)) = if r.ts_match s then some (if s == "" then str r.now else str s) else none
ts_of r (some v) = none

abbrev pub admit_record :
    Reader → EventSource → Option Json → Option Json → Dict String Json → Option Event
admit_record r source (some (str kind)) (some ts) fields =
    if all (λ item. is_scalar item.1) fields
    then admit r.text_of r.registries
        (("ts", ts) ∷ ("source", str source.name) ∷ ("kind", str kind) ∷ []) fields
    else none
admit_record r source kind ts fields = none

abbrev pub event_from : Reader → EventSource → Option (Dict String Json) → Option Event
event_from r source none = none
event_from r source (some d) =
    admit_record r source (Dict.get "kind" d) (ts_of r (Dict.get "ts" (Dict.remove "kind" d)))
      (Dict.remove "ts" (Dict.remove "kind" d))

-- `_event`
unfoldable pub event : Reader → EventSource → String → Option Event
unfolding record_of admit
event r source line = event_from r source (record_of r line)

abbrev pub is_schema : Option Json → Bool
is_schema (some (int (pos n))) = n == 1
is_schema v = false

abbrev pub header_schema : Option (Dict String Json) → Bool
header_schema none = false
header_schema (some header) = is_schema (Dict.get "schema" header)

unfoldable pub header_ok : Reader → String → Bool
header_ok r line = header_schema (dict_of_json (r.loads line))

-- `_segment_problem`: true is a segment that is refused whole
unfoldable pub segment_problem : Reader → List String → Bool
unfolding header_ok
segment_problem r [] = true
segment_problem r (header ∷ records) =
    not (header_ok r header) || ltb max_segment_events (length records)

abbrev pub keep_some : Option Event → List Event → List Event
keep_some none es = es
keep_some (some e) es = e ∷ es

unfoldable pub admitted_events : Reader → EventSource → List String → List Event
unfolding event
admitted_events r source [] = []
admitted_events r source (line ∷ lines) =
    keep_some (event r source line) (admitted_events r source lines)

-- `_parse`, from the lines of the segment
unfoldable pub parse : Reader → EventSource → List String → List Event × ℕ
unfolding segment_problem admitted_events
parse r source raw_lines =
    let lines = keep_if (λ line. not (is_blank line)) raw_lines in
    let records = drop 1 lines in
    let admitted = admitted_events r source records in
    if segment_problem r lines
    then ([], length records)
    else (admitted, length records - length admitted)

-- How reading a segment's file ends.
pub data FileRead : Type 0 where
  unreadable : FileRead
  refused_file : Option Identity → FileRead
  contents : Identity → List String → FileRead

-- `_read`
unfoldable pub read : Reader → EventSource → FileRead → Option (Option Identity × List Event × ℕ)
unfolding parse
read r source unreadable = none
read r source (refused_file id) = some (id, [], 1)
read r source (contents id lines) = let p = parse r source lines in some (some id, p.0, p.1)

pub record Feeder : Type 0 where
  pub source : EventSource
  pub pending : Dict String (Option Identity × (ℕ × ℕ))
  pub stuck : Dict String Identity
  -- the directory that it feeds from
  pub files : Directory

-- What a tick meets: the sorted names of segments, the read of each, what the system refuses, and the
-- files that an emitter renames in while a name is settled.
pub record Spool : Type 0 where
  pub names : List String
  pub file : String → FileRead
  pub faults : Faults
  pub arrivals : String → Arrivals

-- `_identity`, against a parked one
abbrev pub same_identity : Option Node → Identity → Bool
same_identity none parked = false
same_identity (some node) parked = node.identity == parked

-- `_park`
abbrev pub park : String → Option Identity → Feeder → Feeder
park name none f = f
park name (some id) f = record f { stuck = Dict.put name id f.stuck }

abbrev pub park_if : Bool → String → Option Identity → Feeder → Feeder
park_if parks name id f = if parks then park name id f else f

-- `_settle`, with the parking of what it could not delete
unfoldable pub settle : Spool → String → Option Identity → Feeder → Feeder
unfolding settle_file
settle spool name id f =
    let r = settle_file spool.faults (spool.arrivals name) name id f.files in
    park_if r.1 name id (record f { files = r.0 })

-- the first loop of `tick`, over a copy of the pending items
unfoldable pub settle_all :
    Spool → EventBuffer → List (String × (Option Identity × (ℕ × ℕ))) → Feeder → Feeder
unfolding settle holds_any
settle_all spool b [] f = f
settle_all spool b ((name, (id, seqs)) ∷ items) f = settle_all spool b items (
    if holds_any b seqs
    then f
    else settle spool name id (record f { pending = Dict.remove name f.pending }))

abbrev pub unstick : Feeder → Dict String Identity
unstick f = keep_if (λ item. same_identity (Dict.get (named item.0) f.files) item.1) f.stuck

-- `_segments`: the names to read; a parked name whose file is another now is forgotten
unfoldable pub segments : Spool → Feeder → List String
segments spool f =
    keep_if (λ name. not (Dict.has name f.pending) && not (Dict.has name (unstick f))) spool.names

abbrev pub take_in :
    Spool
    → String
    → Option (Option Identity × List Event × ℕ)
    → EventBuffer × Feeder
    → EventBuffer × Feeder
take_in spool name none (b, f) = (b, f)
take_in spool name (some (id, admitted, refused)) (b, f) =
    let r = extend b admitted refused in
    (
      r.0,
      (if ltb r.1.0 r.1.1
          then record f { pending = Dict.put name (id, r.1) f.pending }
          else settle spool name id f),
    )

-- the second loop, which ends at the first name that finds no room
unfoldable pub read_all : Reader → Spool → List String → EventBuffer × Feeder → EventBuffer × Feeder
unfolding read settle extend
read_all r spool [] (b, f) = (b, f)
read_all r spool (name ∷ names) (b, f) =
    let rest =
      read_all r spool names (take_in spool name (read r f.source (spool.file name)) (b, f)) in
    if ltb (room b) max_segment_events then (b, f) else rest

unfoldable pub tick : Reader → Spool → EventBuffer × Feeder → EventBuffer × Feeder
unfolding settle_all segments read_all
tick r spool (b, f) =
    let settled = settle_all spool b f.pending f in
    let unstuck = record settled { stuck = unstick settled } in
    read_all r spool (segments spool settled) (b, unstuck)
