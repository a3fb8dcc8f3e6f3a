-- ===== src/Events/Walk.antt =====
-- Walks (stormpulse/events.py): the calls of one walk fold into its totals, and its exit into a summary.
-- What `emit` is called with is returned; its own work is in Admit.
use storm_pulse.Base.{
  ltb, leb, if◌then◌else◌, string_eq, pair_eq, nat_eq, ℕ, ◌+◌, String, Bool, true, false, not, ◌||◌,
  Option, none, some, List, [], ◌∷◌, ◌++◌,
}
use storm_pulse.Base.Dict
use storm_pulse.Base.Dict.{Dict}
use storm_pulse.Base.Int.{ℤ, pos, lt_int}
use storm_pulse.Json.{Json, null, int, str}
use storm_pulse.Events.Buffer.{Event}
use storm_pulse.Events.Admit.{is_truthy}
pub mod Tally
mod Tests

pub record Walk : Type 0 where
  pub item : String
  pub calls : ℕ
  pub items_read : ℕ
  pub dropped : ℕ
  pub failures : ℕ
  pub slowest_ms : ℕ
  pub slowest_endpoint : String

abbrev pub new_walk : String → Walk
new_walk item = record {
  item = item;
  calls = 0;
  items_read = 0;
  dropped = 0;
  failures = 0;
  slowest_ms = 0;
  slowest_endpoint = "";
}

abbrev pub is_failure : Option ℤ → Bool
is_failure none = true
is_failure (some status) = not (lt_int status (pos 400))

abbrev pub join : String → String → String
join String.[] t = t
join (String.◌∷◌ c s) t = String.◌∷◌ c (join s t)

-- A call as `record_call` gets it, without its kind and source.
pub record Call : Type 0 where
  pub endpoint : String
  pub duration_ms : ℕ
  pub status : Option ℤ
  pub fields : Event

abbrev pub status_value : Option ℤ → Json
status_value none = null
status_value (some status) = int status

-- what `emit` gets beside the kind and the source
abbrev pub call_fields : Call → Event
call_fields c =
    ("endpoint", str c.endpoint)
    ∷ ("duration_ms", int (pos c.duration_ms))
    ∷ ("status", status_value c.status)
    ∷ c.fields

abbrev pub has_item : Option Json → Bool
has_item none = false
has_item (some v) = is_truthy v

-- the counts of a call by whether it failed
unfoldable pub count : Walk → Call → Walk
count w c =
    if is_failure c.status
    then record w { calls = w.calls + 1; failures = w.failures + 1 }
    else if has_item (Dict.get (join w.item "_id") c.fields)
    then record w { calls = w.calls + 1; items_read = w.items_read + 1 }
    else record w { calls = w.calls + 1 }

unfoldable pub time_call : Walk → Call → Walk
time_call w c =
    if leb w.slowest_ms c.duration_ms
    then record w { slowest_ms = c.duration_ms; slowest_endpoint = c.endpoint }
    else w

-- The open walk after the call, and what it emits.
unfoldable pub record_call : Option Walk → Call → Option Walk × List Event
unfolding count time_call
record_call none c = (none, call_fields c ∷ [])
record_call (some w) c =
    (some (time_call (count w c) c), if is_failure c.status then call_fields c ∷ [] else [])

unfoldable pub record_dropped : Option Walk → ℕ → Option Walk
record_dropped none n = none
record_dropped (some w) n = some (record w { dropped = w.dropped + n })

abbrev pub summary : Walk → ℕ → Event
summary w total_ms =
    ("calls", int (pos w.calls))
    ∷ ("failures", int (pos w.failures))
    ∷ ("slowest_endpoint", str w.slowest_endpoint)
    ∷ ("slowest_ms", int (pos w.slowest_ms))
    ∷ ("total_ms", int (pos total_ms))
    ∷ (join w.item "s_read", int (pos w.items_read))
    ∷ (join w.item "s_dropped", int (pos w.dropped))
    ∷ []

-- `_WalkScope.__exit__` of the scope that opened the walk
unfoldable pub close : Walk → ℕ → List Event
close w total_ms =
    if ltb 0 w.items_read || ltb 0 w.dropped || ltb 0 w.failures
    then summary w total_ms ∷ []
    else []

-- What happens in a walk.
pub data Happening : Type 0 where
  called : Call → Happening
  dropped_items : ℕ → Happening

unfoldable pub run_walk : Option Walk → List Happening → Option Walk × List Event
unfolding record_call record_dropped
run_walk w [] = (w, [])
run_walk w (called c ∷ hs) =
    let (w', emitted) = record_call w c in
    let (w'', rest) = run_walk w' hs in (w'', emitted ++ rest)
run_walk w (dropped_items n ∷ hs) = run_walk (record_dropped w n) hs
