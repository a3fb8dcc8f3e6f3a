-- ===== src/Events/Admit/Sources.antt =====
-- How declarations change the registries of stormpulse/events.py.
use storm_pulse.Base.{
  if◌then◌else◌, Bool-cases, ◌==◌, string_eq, pair_eq, nat_eq, String, ◌≡◌, refl, ap, ◌∙◌, inl, inr,
  false, ◌||◌, Option, none, some, List, [], ◌∷◌, ◌++◌, arith, eq_iff,
}
use mathlib.Core.Path.{subst}
use storm_pulse.Base.Dict
use storm_pulse.Base.Dict.{Dict, get-put}
use storm_pulse.Events.Admit.{
  Registry, Registries, EventSource, or_empty, declare_event, taken, put_kinds,
  declare_integration_source, or_else, declared,
}

-- Declaring an event adds its fields to those that its source and kind have, and leaves every other
-- source and kind as it was.
pub declared-declare_event :
    (r : Registries) (source kind : String) (fields : List String) (key : String × String)
    → declared (declare_event r source kind fields) key ≡ (
        if (source, kind) == key
        then some (or_empty (Dict.get (source, kind) r.builtin) ++ fields)
        else declared r key)
unfolding declared declare_event
declared-declare_event r source kind fields key = elim (Bool-cases ((source, kind) == key)) [
  | inl e ↦
      rw
        (
          get-put (source, kind) key (or_empty (Dict.get (source, kind) r.builtin) ++ fields)
              r.builtin,
          e,
        )
        refl
  | inr e ↦
      rw
        (
          get-put (source, kind) key (or_empty (Dict.get (source, kind) r.builtin) ++ fields)
              r.builtin,
          e,
        )
        refl
]

get-put_kinds :
    (name : String) (kinds : Dict String (List String)) (d : Registry) (key : String × String)
    → (name == key.0) ≡ false
    → Dict.get key (put_kinds name kinds d) ≡ Dict.get key d
unfolding put_kinds
get-put_kinds name [] d key h = refl
get-put_kinds name ((kind, fields) ∷ kinds) d key h =
    get-put_kinds name kinds (Dict.put (name, kind) fields d) key h
    ∙ (get-put (name, kind) key fields d ∙ rw h refl)

not_taken :
    (name : String) (d : Registry) (key : String × String) (fields : List String)
    → taken name d ≡ false
    → Dict.get key d ≡ some fields
    → (name == key.0) ≡ false
unfolding Dict.get
not_taken name [] key fields h g = absurd (cc)
not_taken name (((s, k), fs) ∷ d) key fields h g = elim (Bool-cases ((s, k) == key)) [
  | inl e ↦ ground (arith, e, h, eq_iff s key.0, eq_iff name key.0, eq_iff s name)
  | inr e ↦ not_taken name d key fields (ground (arith, h)) (rw e at g)
]

registries_of : Registries → Option Registries → Registries
registries_of d none = d
registries_of d (some r) = r

some-eq : {r q : Registries} → some r ≡ some q → r ≡ q
unfolding registries_of
some-eq {r} h = ap (registries_of r) h

-- the registries with the source
abbrev let_in : Registries → EventSource → Registries
let_in r source = record {
  builtin = r.builtin;
  integration = put_kinds source.name source.kinds r.integration;
  spool_dirs = Dict.put source.spool_dir source.name r.spool_dirs;
}

or_else-put_kinds :
    (name : String) (kinds : Dict String (List String)) (d : Registry) (key : String × String)
    (o : Option (List String)) (fields : List String)
    → taken name d ≡ false
    → or_else o (Dict.get key d) ≡ some fields
    → or_else o (Dict.get key (put_kinds name kinds d)) ≡ some fields
or_else-put_kinds name kinds d key (some names) fields h g = g
or_else-put_kinds name kinds d key none fields h g =
    get-put_kinds name kinds d key (not_taken name d key fields h g) ∙ g

-- A source that is let in changes the shape of nothing that was declared before, built in or by
-- another integration, and takes a spool directory that was free.
pub declare_integration_source-keeps :
    (r r' : Registries) (source : EventSource) (key : String × String) (fields : List String)
    → declare_integration_source r source ≡ some r'
    → declared r key ≡ some fields
    → (declared r' key ≡ some fields) × (Dict.has source.spool_dir r.spool_dirs ≡ false)
unfolding declare_integration_source declared
declare_integration_source-keeps r r' source key fields h g =
    elim (Bool-cases (taken source.name r.builtin || taken source.name r.integration)) [
      | inl e ↦ absurd (let t = rw e at h in cc)
      | inr e ↦ elim (Bool-cases (Dict.has source.spool_dir r.spool_dirs)) [
        | inl k ↦ absurd (let t = rw (e, k) at h in cc)
        | inr k ↦
            let same : let_in r source ≡ r' = some-eq (rw (e, k) at h) in
            let kept =
              or_else-put_kinds source.name source.kinds r.integration key (Dict.get key r.builtin)
                fields (ground (arith, e)) g in
            (subst (λ q. declared q key ≡ some fields) same kept, k)
      ]
    ]
