-- ===== src/Events/Admit/Declared.antt =====
-- What the registry of stormpulse/events.py lets into the buffer.
use storm_pulse.Base.{
  Bool-cases, Option-cases, ◌==◌, string_eq, pair_eq, nat_eq, All, elem, ◌≤◌, String, ◌≡◌, refl, ap,
  ◌∙◌, ◌⊎◌, inl, inr, true, false, Option, none, some, List, [], ◌∷◌, eq_iff,
}
use storm_pulse.Base.Dict
use storm_pulse.Base.Dict.{Dict, get-put}
use storm_pulse.Base.Text.{text_length, text_length-take_chars-le}
use storm_pulse.Json.{Json, str}
use storm_pulse.Events.Buffer.{Event, EventBuffer, append, refuse}
use storm_pulse.Events.Admit.{
  max_error_chars, capped_fields, Registries, declared, is_elided, update, is_truthy, str_of,
  with_first, ref_or, put_truthy, text, capped, keep_declared, admit_as, admit, envelope, emit,
}

-- ENVELOPE_FIELDS
abbrev pub envelope_fields : List String
envelope_fields = "ts" ∷ "source" ∷ "kind" ∷ "seq" ∷ "trigger" ∷ "command_ref" ∷ []

abbrev pub IsShort : Json → Type 0
IsShort (str s) = text_length s ≤ max_error_chars
IsShort v = ⊥

-- A field of the envelope or a declared one; `error` and `reason` are texts of 500 characters at most.
abbrev pub Admissible : List String → String × Json → Type 0
Admissible names item =
    ((elem item.0 envelope_fields ≡ true) ⊎ (elem item.0 names ≡ true))
    × ((elem item.0 capped_fields ≡ false) ⊎ IsShort item.1)

get_or : Event → Option Event → Event
get_or d (some e) = e
get_or d none = d

some-eq : {a b : Event} → some a ≡ some b → a ≡ b
unfolding get_or
some-eq {a} k = ap (get_or a) k

with_first-some :
    (name : String) (v : Json) (o : Option Event) (kept : Event)
    → with_first name v o ≡ some kept
    → (rest : Event) × (o ≡ some rest) × ((name, v) ∷ rest ≡ kept)
with_first-some name v none kept h = absurd (cc)
with_first-some name v (some rest) kept h = (rest, refl, some-eq h)

put-All :
    (P : String × Json → Type 0) (k : String) (v : Json) (d : Event)
    → P (k, v)
    → All P d
    → All P (Dict.put k v d)
unfolding Dict.put
put-All P k v [] p h = (p, tt)
put-All P k v ((j, w) ∷ d) p h = elim (Bool-cases (j == k)) [
  | inl e ↦ rw e ((let same = (eq_iff j k).0 e in rw same p), h.1)
  | inr e ↦ rw e (h.0, put-All P k v d p h.1)
]

update-All :
    (P : String × Json → Type 0) (event d : Event) → All P event → All P d → All P (update event d)
update-All P event [] h k = h
update-All P event ((n, v) ∷ d) h k =
    update-All P (Dict.put n v event) d (put-All P n v event k.0 h) k.1

module _ (text_of : Json → String) where
  capped-IsShort :
      (name : String) (v : Json)
      → (elem name capped_fields ≡ false) ⊎ IsShort (capped text_of name v)
  capped-IsShort name v = elim (Bool-cases (elem name capped_fields)) [
    | inl e ↦ inr (rw e (text_length-take_chars-le max_error_chars (text text_of v)))
    | inr e ↦ inl e
  ]

  keep_declared-All :
      (names : List String) (fields kept : Event)
      → keep_declared text_of names fields ≡ some kept
      → All (Admissible names) kept
  unfolding keep_declared
  keep_declared-All names [] kept h = let e : [] ≡ kept = some-eq h in rw (← e) tt
  keep_declared-All names ((name, v) ∷ fields) kept h = elim (Bool-cases (is_elided v)) [
    | inl e ↦ keep_declared-All names fields kept (rw e at h)
    | inr e ↦ elim (Bool-cases (elem name names)) [
      | inr k ↦ absurd (let t = rw (e, k) at h in cc)
      | inl k ↦
          let (rest, tail, same) =
            with_first-some name (capped text_of name v) (keep_declared text_of names fields) kept
              (rw (e, k) at h) in
          rw (← same) (((inr k, capped-IsShort name v)), keep_declared-All names fields rest tail)
    ]
  ]

  admit_as-All :
      (o : Option (List String)) (event fields out : Event)
      → ((names : List String) → All (Admissible names) event)
      → admit_as text_of o event fields ≡ some out
      → (names : List String) × (o ≡ some names) × All (Admissible names) out
  admit_as-All none event fields out f h = absurd (cc)
  admit_as-All (some names) event fields out f h =
      elim (Option-cases (keep_declared text_of names fields)) [
        | inl e ↦ absurd (let t = rw (e, admit_as) at h in cc)
        | inr (kept, e) ↦
            let same : update event kept ≡ out = some-eq (rw (e, admit_as) at h) in
            (
              names,
              refl,
              rw (← same) (
                  update-All (Admissible names) event kept (f names)
                    (keep_declared-All names fields kept e)),
            )
      ]

  put_truthy-All :
      (P : String × Json → Type 0) (k : String) (v : Json) (event : Event)
      → P (k, v)
      → All P event
      → All P (put_truthy k v event)
  put_truthy-All P k v event p h = elim (Bool-cases (is_truthy v)) [
    | inl e ↦ rw e (put-All P k v event p h)
    | inr e ↦ rw e h
  ]

  envelope-All :
      (now trigger ref source kind : String) (fields : Event) (names : List String)
      → All (Admissible names) (envelope text_of now trigger ref source kind fields)
  unfolding envelope
  envelope-All now trigger ref source kind fields names =
      put_truthy-All (Admissible names) "command_ref" (ref_or (Dict.get "command_ref" fields) ref) _
        (inl refl, inl refl)
        (put_truthy-All (Admissible names) "trigger" (str trigger) _ (inl refl, inl refl)
          ((inl refl, inl refl), ((inl refl, inl refl), ((inl refl, inl refl), tt))))

-- What `emit` of this source and kind did to the buffer: it counted a refusal, or appended an event of
-- the fields that they declare.
pub data Emission (r : Registries) (source kind : String) (b b' : EventBuffer) : Type 0 where
  refused_whole : b' ≡ refuse b → Emission r source kind b b'
  appended :
      (event : Event) (names : List String)
      → b' ≡ append b event
      → declared r (source, kind) ≡ some names
      → All (Admissible names) event
      → Emission r source kind b b'

get-put_truthy :
    (j k : String) (v : Json) (event : Event)
    → (k == j) ≡ false
    → Dict.get j (put_truthy k v event) ≡ Dict.get j event
get-put_truthy j k v event other = elim (Bool-cases (is_truthy v)) [
  | inl e ↦ rw e (get-put k j v event ∙ (rw other refl))
  | inr e ↦ rw e refl
]

key-envelope :
    (text_of : Json → String) (now trigger ref source kind : String) (fields : Event)
    → (str_of (Dict.get "source" (envelope text_of now trigger ref source kind fields)) ≡ source)
      × (str_of (Dict.get "kind" (envelope text_of now trigger ref source kind fields)) ≡ kind)
unfolding envelope
key-envelope text_of now trigger ref source kind fields =
    let event : Event = ("ts", str now) ∷ ("source", str source) ∷ ("kind", str kind) ∷ [] in
    let tagged = put_truthy "trigger" (str trigger) event in
    let v = ref_or (Dict.get "command_ref" fields) ref in
    (
      ap str_of (
            get-put_truthy "source" "command_ref" v tagged refl
            ∙ get-put_truthy "source" "trigger" (str trigger) event refl)
          ∙ unfold Dict.get in refl,
      ap str_of (
            get-put_truthy "kind" "command_ref" v tagged refl
            ∙ get-put_truthy "kind" "trigger" (str trigger) event refl)
          ∙ unfold Dict.get in refl,
    )

-- An event that `emit` lets into the buffer carries nothing beyond the envelope but fields that its
-- source and kind declare, its `error` and `reason` texts of 500 characters at most; any other call
-- is counted as refused and adds no event.
pub emit-Emission :
    (text_of : Json → String) (r : Registries) (b : EventBuffer)
    (now trigger ref source kind : String) (fields : Event)
    → Emission r source kind b (emit text_of r b now trigger ref source kind fields)
unfolding emit admit
emit-Emission text_of r b now trigger ref source kind fields =
    let event = envelope text_of now trigger ref source kind fields in
    let key_is = key-envelope text_of now trigger ref source kind fields in
    let key : String × String =
      (str_of (Dict.get "source" event), str_of (Dict.get "kind" event)) in
    elim (Option-cases (admit text_of r event (Dict.remove "command_ref" fields))) [
      | inl e ↦ refused_whole (rw e refl)
      | inr (out, e) ↦
          let (names, there, fine) =
            admit_as-All text_of (declared r key) event (Dict.remove "command_ref" fields) out
              (envelope-All text_of now trigger ref source kind fields) e in
          appended out names (rw e refl) (rw (key_is.0, key_is.1) at there) fine
    ]
