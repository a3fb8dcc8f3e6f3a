-- ===== src/Events/Admit/Tests.antt =====
-- The registries of stormpulse/events.py on concrete declarations.
use storm_pulse.Base.{string_eq, pair_eq, nat_eq, String, ◌≡◌, refl, some, [], ◌∷◌}
use storm_pulse.Base.Dict
use storm_pulse.Base.Int.{pos}
use storm_pulse.Json.{Json, null, int, str}
use storm_pulse.Events.Buffer.{Event, new_buffer}
use storm_pulse.Events.Admit.{Registries, EventSource, declare_integration_source, put_kinds, emit}
use storm_pulse.Events.Admit.Declared.{Emission, emit-Emission}

abbrev registries : Registries
registries = record {
  builtin = (("jobs", "done"), "status" ∷ "error" ∷ []) ∷ [];
  integration = [];
  spool_dirs = [];
}

abbrev text_of : Json → String
text_of v = "?"

abbrev fields : Event
fields = ("status", str "ok") ∷ ("error", int (pos 3)) ∷ ("extra", null) ∷ []

emit-Emission_example :
    Emission registries "jobs" "done"
      (new_buffer 4)
      (emit text_of registries (new_buffer 4) "2026-01-01" "job" "e1" "jobs" "done" fields)
emit-Emission_example =
    emit-Emission text_of registries (new_buffer 4) "2026-01-01" "job" "e1" "jobs" "done" fields

abbrev acme : EventSource
acme = record { name = "acme"; kinds = ("seen", "count" ∷ []) ∷ []; spool_dir = "/var/acme" }

abbrev with_acme : Registries
with_acme = record {
  builtin = registries.builtin;
  integration = (("acme", "seen"), "count" ∷ []) ∷ [];
  spool_dirs = ("/var/acme", "acme") ∷ [];
}

lets_in : declare_integration_source registries acme ≡ some with_acme
unfolding declare_integration_source put_kinds Dict.put Dict.has
lets_in = refl
