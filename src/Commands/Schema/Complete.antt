-- ===== src/Commands/Schema/Complete.antt =====
-- The checker of stormpulse/config/param_schema.py refuses nothing that fits its shape.
use storm_pulse.Base.{
  Bool-cases, ◌==◌, string_eq, pair_eq, nat_eq, ℕ, ◌+◌, String, ◌≡◌, refl, ◌↔◌, inl, inr, Bool,
  true, false, Option, none, some, List, [], ◌∷◌, ◌++◌, arith, eq_iff,
}
use storm_pulse.Base.Int.{ℤ, pos, le-not-lt_int}
use storm_pulse.Base.Text.{utf8_length}
use storm_pulse.Json.{Json, null, bool, int, str, arr, obj, Items, nil, cons, Fields, end, field}
use storm_pulse.Commands.Schema.{
  Shape, object, array, string, integer, boolean, Keys, no_keys, key, Entries, no_entries, entries,
  Segment, at_key, Violation, Checker, or_first, nullable_else, first_missing, first_field,
  first_item, object_violation, items_count, over, array_violation, below_bound, above_bound,
  integer_violation, boolean_violation, matches, string_violation, or_entries, schema_violation,
  key_violation, entry_violation,
}
use storm_pulse.Commands.Schema.Fits.{
  AtMost, AtLeast, AllItems, AllFields, Present, OrNull, IsObject, IsArray, IsString, IsInteger,
  IsBoolean, Fits, FitsKey, FitsRule,
}
use storm_pulse.Commands.Schema.Sound.{schema_violation-Fits}

nullable_else-ok : (b : Bool) (p : List Segment) → b ≡ true → nullable_else b p ≡ none
nullable_else-ok b p h = ground arith

or_first-ok : (p q : Option Violation) → p ≡ none → q ≡ none → or_first p q ≡ none
or_first-ok p q h k = ground arith

over-AtMost : (m : Option ℤ) (n : ℕ) → AtMost (pos n) m → over m n ≡ false
over-AtMost none n h = refl
over-AtMost (some m) n h = le-not-lt_int m (pos n) h

below-AtLeast : (n : ℤ) (m : Option ℤ) → AtLeast n m → below_bound n m ≡ false
below-AtLeast n none h = refl
below-AtLeast n (some m) h = le-not-lt_int n m h

above-AtMost : (n : ℤ) (m : Option ℤ) → AtMost n m → above_bound n m ≡ false
above-AtMost n none h = refl
above-AtMost n (some m) h = le-not-lt_int m n h

first_missing-Present :
    (ns : List String) (fs : Fields) → Present ns fs → first_missing ns fs ≡ none
unfolding first_missing
first_missing-Present [] fs h = refl
first_missing-Present (n ∷ ns) fs h = rw (h.0) (first_missing-Present ns fs h.1)

first_item-AllItems :
    (f : Checker) (P : Json → Type 0)
    (complete : (v : Json) (p : List Segment) → P v → f v p ≡ none) (i : ℕ) (xs : Items)
    (path : List Segment)
    → AllItems P xs
    → first_item f i xs path ≡ none
unfolding first_item
first_item-AllItems f P complete i nil path h = refl
first_item-AllItems f P complete i (cons v xs) path h =
    or_first-ok _ _ (complete v _ h.0) (first_item-AllItems f P complete (i + 1) xs path h.1)

first_field-AllFields :
    (f : String → Checker) (P : String → Json → Type 0)
    (complete : (k : String) (v : Json) (p : List Segment) → P k v → f k v p ≡ none) (fs : Fields)
    (path : List Segment)
    → AllFields P fs
    → first_field f fs path ≡ none
unfolding first_field
first_field-AllFields f P complete end path h = refl
first_field-AllFields f P complete (field k v fs) path h =
    or_first-ok _ _ (complete k v path h.0) (first_field-AllFields f P complete fs path h.1)

object_violation-ok :
    (nullable : Bool) (required : List String) (f : String → Checker) (P : String → Json → Type 0)
    (complete : (k : String) (v : Json) (p : List Segment) → P k v → f k v p ≡ none) (v : Json)
    (path : List Segment)
    → OrNull nullable (IsObject λ fs. Present required fs × AllFields P fs) v
    → object_violation nullable required f v path ≡ none
unfolding object_violation
object_violation-ok nullable required f P complete null path h = nullable_else-ok nullable path h
object_violation-ok nullable required f P complete (obj fs) path h =
    rw (first_missing-Present required fs h.0) (first_field-AllFields f P complete fs path h.1)
object_violation-ok nullable required f P complete v path h = absurd h

array_violation-ok :
    (nullable : Bool) (max_items : Option ℤ) (f : Checker) (P : Json → Type 0)
    (complete : (v : Json) (p : List Segment) → P v → f v p ≡ none) (v : Json) (path : List Segment)
    → OrNull nullable (IsArray λ xs. AtMost (pos (items_count xs)) max_items × AllItems P xs) v
    → array_violation nullable max_items f v path ≡ none
unfolding array_violation
array_violation-ok nullable max_items f P complete null path h = nullable_else-ok nullable path h
array_violation-ok nullable max_items f P complete (arr xs) path h =
    rw (over-AtMost max_items (items_count xs) h.0) (first_item-AllItems f P complete 0 xs path h.1)
array_violation-ok nullable max_items f P complete v path h = absurd h

string_violation-ok :
    (fullmatch : String → String → Bool) (nullable : Bool) (pattern : Option String)
    (max_bytes : Option ℤ) (v : Json) (path : List Segment)
    → OrNull nullable
        (IsString
          λ s. (matches fullmatch pattern s ≡ true) × AtMost (pos (utf8_length s)) max_bytes)
        v
    → string_violation fullmatch nullable pattern max_bytes v path ≡ none
unfolding string_violation
string_violation-ok m nullable pattern max_bytes null path h = nullable_else-ok nullable path h
string_violation-ok m nullable pattern max_bytes (str s) path h =
    rw (h.0, over-AtMost max_bytes (utf8_length s) h.1) refl
string_violation-ok m nullable pattern max_bytes v path h = absurd h

integer_violation-ok :
    (nullable : Bool) (least greatest : Option ℤ) (v : Json) (path : List Segment)
    → OrNull nullable (IsInteger λ n. AtLeast n least × AtMost n greatest) v
    → integer_violation nullable least greatest v path ≡ none
unfolding integer_violation
integer_violation-ok nullable least greatest null path h = nullable_else-ok nullable path h
integer_violation-ok nullable least greatest (int n) path h =
    rw (below-AtLeast n least h.0, above-AtMost n greatest h.1) refl
integer_violation-ok nullable least greatest v path h = absurd h

boolean_violation-ok :
    (nullable : Bool) (v : Json) (path : List Segment)
    → OrNull nullable IsBoolean v
    → boolean_violation nullable v path ≡ none
unfolding boolean_violation
boolean_violation-ok nullable null path h = nullable_else-ok nullable path h
boolean_violation-ok nullable (bool b) path h = refl
boolean_violation-ok nullable v path h = absurd h

module _ (fullmatch : String → String → Bool) where
  mutual
    unfolding schema_violation Fits

    of_shape :
        (s : Shape) (v : Json) (path : List Segment)
        → Fits fullmatch s v
        → schema_violation fullmatch s v path ≡ none
    of_shape (object nullable keys required rule) v path h =
        object_violation-ok nullable required
          (λ name item p.
            or_entries (key_violation fullmatch keys name item p)
              (entry_violation fullmatch rule name item p))
          (λ name item. FitsKey fullmatch keys name item (FitsRule fullmatch rule name item))
          (λ name item p k. of_keys keys rule name item p (of_rule rule name item p) k) v path h
    of_shape (array nullable items max_items) v path h =
        array_violation-ok nullable max_items (schema_violation fullmatch items)
          (Fits fullmatch items) (of_shape items) v path h
    of_shape (string nullable pattern max_bytes) v path h =
        string_violation-ok fullmatch nullable pattern max_bytes v path h
    of_shape (integer nullable least greatest) v path h =
        integer_violation-ok nullable least greatest v path h
    of_shape (boolean nullable) v path h = boolean_violation-ok nullable v path h

    of_keys :
        (keys : Keys) (rule : Entries) (name : String) (item : Json) (path : List Segment)
        → (FitsRule fullmatch rule name item → entry_violation fullmatch rule name item path ≡ none)
        → FitsKey fullmatch keys name item (FitsRule fullmatch rule name item)
        → or_entries
            (key_violation fullmatch keys name item path)
            (entry_violation fullmatch rule name item path)
          ≡ none
    of_keys no_keys rule name item path f h = f h
    of_keys (key k shape keys) rule name item path f (inl (same, fits)) =
        rw ((eq_iff k name).1 same) (of_shape shape item (path ++ at_key name ∷ []) fits)
    of_keys (key k shape keys) rule name item path f (inr (other, fits)) =
        elim (Bool-cases (k == name)) [
          | inl e ↦ absurd (other ((eq_iff k name).0 e))
          | inr e ↦ rw e (of_keys keys rule name item path f fits)
        ]

    of_rule :
        (rule : Entries) (name : String) (item : Json) (path : List Segment)
        → FitsRule fullmatch rule name item
        → entry_violation fullmatch rule name item path ≡ none
    of_rule no_entries name item path h = absurd h
    of_rule (entries pattern shape) name item path h =
        rw (h.0) (of_shape shape item (path ++ at_key name ∷ []) h.1)

  schema_violation_complete :
      (s : Shape) (v : Json) (path : List Segment)
      → Fits fullmatch s v
      → schema_violation fullmatch s v path ≡ none
  schema_violation_complete s v path h = of_shape s v path h

  -- The checker reports nothing exactly for a value that fits its shape at every depth: its kinds,
  -- nulls only where allowed, required keys, undeclared keys only by the entries rule, every bound.
  pub schema_violation_iff :
      (s : Shape) (v : Json) (path : List Segment)
      → (schema_violation fullmatch s v path ≡ none) ↔ Fits fullmatch s v
  schema_violation_iff s v path =
      (schema_violation-Fits fullmatch s v path, schema_violation_complete s v path)
