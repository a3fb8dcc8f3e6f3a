-- ===== src/Commands/Schema/Sound.antt =====
-- What the checker of stormpulse/config/param_schema.py lets pass fits its shape.
use storm_pulse.Base.{
  Bool-cases, ◌==◌, string_eq, pair_eq, nat_eq, ℕ, ◌+◌, String, ◌≡◌, refl, inl, inr, Bool, true,
  false, Option, none, some, List, [], ◌∷◌, ◌++◌, arith, eq_iff,
}
use storm_pulse.Base.Dict
use storm_pulse.Base.Int.{ℤ, pos, not-lt_int}
use storm_pulse.Base.Text.{utf8_length}
use storm_pulse.Json.{
  Json, null, bool, int, str, arr, obj, Items, nil, cons, Fields, end, field, to_dict,
}
use storm_pulse.Commands.Schema.{
  Shape, object, array, string, integer, boolean, Keys, no_keys, key, Entries, no_entries, entries,
  Segment, at_key, Violation, Checker, or_first, nullable_else, first_missing, first_field,
  first_item, object_fields, object_violation, items_count, over, array_violation, below_bound,
  above_bound, integer_violation, boolean_violation, matches, string_violation, or_entries,
  schema_violation, key_violation, entry_violation,
}
use storm_pulse.Commands.Schema.Fits.{
  AllFields, AllItems, AtLeast, AtMost, Fits, FitsKey, FitsRule, IsArray, IsBoolean, IsInteger,
  IsObject, IsString, OrNull, Present,
}

or_first-none : (p q : Option Violation) → or_first p q ≡ none → (p ≡ none) × (q ≡ none)
or_first-none p q h = ground arith

nullable_else-none : (b : Bool) (p : List Segment) → nullable_else b p ≡ none → b ≡ true
nullable_else-none b p h = ground arith

not-over : (m : Option ℤ) (n : ℕ) → over m n ≡ false → AtMost (pos n) m
not-over none n h = tt
not-over (some m) n h = not-lt_int m (pos n) h

not-below : (n : ℤ) (m : Option ℤ) → below_bound n m ≡ false → AtLeast n m
not-below n none h = tt
not-below n (some m) h = not-lt_int n m h

not-above : (n : ℤ) (m : Option ℤ) → above_bound n m ≡ false → AtMost n m
not-above n none h = tt
not-above n (some m) h = not-lt_int m n h

first_missing-none : (ns : List String) (fs : Fields) → first_missing ns fs ≡ none → Present ns fs
unfolding first_missing
first_missing-none [] fs h = tt
first_missing-none (n ∷ ns) fs h = elim (Bool-cases (Dict.has n (to_dict fs))) [
  | inl e ↦ (e, first_missing-none ns fs (rw e at h))
  | inr e ↦ absurd (let k = rw e at h in cc)
]

first_item-none :
    (f : Checker) (P : Json → Type 0) (sound : (v : Json) (p : List Segment) → f v p ≡ none → P v)
    (i : ℕ) (xs : Items) (path : List Segment)
    → first_item f i xs path ≡ none
    → AllItems P xs
unfolding first_item
first_item-none f P sound i nil path h = tt
first_item-none f P sound i (cons v xs) path h =
    let (here, rest) = or_first-none _ _ h in
    (sound v _ here, first_item-none f P sound (i + 1) xs path rest)

first_field-none :
    (f : String → Checker) (P : String → Json → Type 0)
    (sound : (k : String) (v : Json) (p : List Segment) → f k v p ≡ none → P k v) (fs : Fields)
    (path : List Segment)
    → first_field f fs path ≡ none
    → AllFields P fs
unfolding first_field
first_field-none f P sound end path h = tt
first_field-none f P sound (field k v fs) path h =
    let (here, rest) = or_first-none _ _ h in
    (sound k v path here, first_field-none f P sound fs path rest)

object_fields-none :
    (o : Option String) (f : String → Checker) (fs : Fields) (path : List Segment)
    → object_fields o f fs path ≡ none
    → (o ≡ none) × (first_field f fs path ≡ none)
object_fields-none none f fs path h = (refl, h)
object_fields-none (some n) f fs path h = absurd (cc)

object_violation-none :
    (nullable : Bool) (required : List String) (f : String → Checker) (P : String → Json → Type 0)
    (sound : (k : String) (v : Json) (p : List Segment) → f k v p ≡ none → P k v) (v : Json)
    (path : List Segment)
    → object_violation nullable required f v path ≡ none
    → OrNull nullable (IsObject λ fs. Present required fs × AllFields P fs) v
unfolding object_violation
object_violation-none nullable required f P sound null path h = nullable_else-none nullable path h
object_violation-none nullable required f P sound (obj fs) path h =
    let (complete, fields) = object_fields-none (first_missing required fs) f fs path h in
    (first_missing-none required fs complete, first_field-none f P sound fs path fields)
object_violation-none nullable required f P sound v path h = absurd (cc)

array_violation-none :
    (nullable : Bool) (max_items : Option ℤ) (f : Checker) (P : Json → Type 0)
    (sound : (v : Json) (p : List Segment) → f v p ≡ none → P v) (v : Json) (path : List Segment)
    → array_violation nullable max_items f v path ≡ none
    → OrNull nullable (IsArray λ xs. AtMost (pos (items_count xs)) max_items × AllItems P xs) v
unfolding array_violation
array_violation-none nullable max_items f P sound null path h = nullable_else-none nullable path h
array_violation-none nullable max_items f P sound (arr xs) path h =
    elim (Bool-cases (over max_items (items_count xs))) [
      | inl e ↦ absurd (let k = rw e at h in cc)
      | inr e ↦
          (not-over max_items (items_count xs) e, first_item-none f P sound 0 xs path (rw e at h))
    ]
array_violation-none nullable max_items f P sound v path h = absurd (cc)

string_violation-none :
    (fullmatch : String → String → Bool) (nullable : Bool) (pattern : Option String)
    (max_bytes : Option ℤ) (v : Json) (path : List Segment)
    → string_violation fullmatch nullable pattern max_bytes v path ≡ none
    → OrNull nullable
        (IsString
          λ s. (matches fullmatch pattern s ≡ true) × AtMost (pos (utf8_length s)) max_bytes)
        v
unfolding string_violation
string_violation-none m nullable pattern max_bytes null path h = nullable_else-none nullable path h
string_violation-none m nullable pattern max_bytes (str s) path h =
    elim (Bool-cases (matches m pattern s)) [
      | inl e ↦ elim (Bool-cases (over max_bytes (utf8_length s))) [
        | inl k ↦ absurd (ground arith)
        | inr k ↦ (e, not-over max_bytes (utf8_length s) k)
      ]
      | inr e ↦ absurd (ground arith)
    ]
string_violation-none m nullable pattern max_bytes v path h = absurd (cc)

integer_violation-none :
    (nullable : Bool) (least greatest : Option ℤ) (v : Json) (path : List Segment)
    → integer_violation nullable least greatest v path ≡ none
    → OrNull nullable (IsInteger λ n. AtLeast n least × AtMost n greatest) v
unfolding integer_violation
integer_violation-none nullable least greatest null path h = nullable_else-none nullable path h
integer_violation-none nullable least greatest (int n) path h =
    elim (Bool-cases (below_bound n least)) [
      | inl e ↦ absurd (let k = rw e at h in cc)
      | inr e ↦ elim (Bool-cases (above_bound n greatest)) [
        | inl k ↦ absurd (let h' = rw (e, k) at h in cc)
        | inr k ↦ (not-below n least e, not-above n greatest k)
      ]
    ]
integer_violation-none nullable least greatest v path h = absurd (cc)

boolean_violation-none :
    (nullable : Bool) (v : Json) (path : List Segment)
    → boolean_violation nullable v path ≡ none
    → OrNull nullable IsBoolean v
unfolding boolean_violation
boolean_violation-none nullable null path h = nullable_else-none nullable path h
boolean_violation-none nullable (bool b) path h = tt
boolean_violation-none nullable v path h = absurd (cc)

module _ (fullmatch : String → String → Bool) where
  mutual
    unfolding schema_violation Fits

    schema_violation-Fits_rec :
        (s : Shape) (v : Json) (path : List Segment)
        → schema_violation fullmatch s v path ≡ none
        → Fits fullmatch s v
    schema_violation-Fits_rec (object nullable keys required rule) v path h =
        object_violation-none nullable required
          (λ name item p.
            or_entries (key_violation fullmatch keys name item p)
              (entry_violation fullmatch rule name item p))
          (λ name item. FitsKey fullmatch keys name item (FitsRule fullmatch rule name item))
          (λ name item p k. key-Fits keys rule name item p (entry-Fits rule name item p) k) v path h
    schema_violation-Fits_rec (array nullable items max_items) v path h =
        array_violation-none nullable max_items (schema_violation fullmatch items)
          (Fits fullmatch items) (schema_violation-Fits_rec items) v path h
    schema_violation-Fits_rec (string nullable pattern max_bytes) v path h =
        string_violation-none fullmatch nullable pattern max_bytes v path h
    schema_violation-Fits_rec (integer nullable least greatest) v path h =
        integer_violation-none nullable least greatest v path h
    schema_violation-Fits_rec (boolean nullable) v path h = boolean_violation-none nullable v path h

    key-Fits :
        (keys : Keys) (rule : Entries) (name : String) (item : Json) (path : List Segment)
        → (entry_violation fullmatch rule name item path ≡ none → FitsRule fullmatch rule name item)
        → or_entries
            (key_violation fullmatch keys name item path)
            (entry_violation fullmatch rule name item path)
          ≡ none
        → FitsKey fullmatch keys name item (FitsRule fullmatch rule name item)
    key-Fits no_keys rule name item path f h = f h
    key-Fits (key k shape keys) rule name item path f h = elim (Bool-cases (k == name)) [
      | inl e ↦ inl (
        (eq_iff k name).0 e,
        schema_violation-Fits_rec shape item (path ++ at_key name ∷ []) (rw e at h),
      )
      | inr e ↦
          inr (
            λ q. let t = (eq_iff k name).1 q in cc,
            key-Fits keys rule name item path f (rw e at h),
          )
    ]

    entry-Fits :
        (rule : Entries) (name : String) (item : Json) (path : List Segment)
        → entry_violation fullmatch rule name item path ≡ none
        → FitsRule fullmatch rule name item
    entry-Fits no_entries name item path h = absurd (cc)
    entry-Fits (entries pattern shape) name item path h =
        elim (Bool-cases (matches fullmatch pattern name)) [
          | inl e ↦ (e, schema_violation-Fits_rec shape item (path ++ at_key name ∷ []) (rw e at h))
          | inr e ↦ absurd (let k = rw e at h in cc)
        ]

  -- A value for which the checker reports nothing fits its shape, at every depth: kinds, nulls only
  -- where allowed, required keys, undeclared keys only by the entries rule, and every bound.
  pub schema_violation-Fits :
      (s : Shape) (v : Json) (path : List Segment)
      → schema_violation fullmatch s v path ≡ none
      → Fits fullmatch s v
  schema_violation-Fits s v path h = schema_violation-Fits_rec s v path h
