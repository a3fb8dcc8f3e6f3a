-- ===== src/Commands/Schema.antt =====
-- `schema_violation` of stormpulse/config/param_schema.py. A shape is the tree that
-- `schema_declaration_error` admits: the checks made at declaration are those of the type. A message
-- carries its path and the rule that failed. `fullmatch pattern text` is `re.fullmatch`.
use storm_pulse.Base.{
  if◌then◌else◌, ◌==◌, nat_eq, string_eq, pair_eq, ℕ, suc, ◌+◌, String, Bool, true, false, Option,
  none, some, List, [], ◌∷◌, ◌++◌,
}
use storm_pulse.Base.Dict
use storm_pulse.Base.Int.{ℤ, pos, lt_int}
use storm_pulse.Base.Text.{utf8_length}
use storm_pulse.Json.{
  Json, null, bool, int, str, arr, obj, Items, nil, cons, Fields, end, field, to_dict,
}
pub mod Fits
pub mod Sound
pub mod Complete

mutual
  -- the first field of each is `nullable`
  pub data Shape : Type 0 where
    object : Bool → Keys → List String → Entries → Shape
    array : Bool → Shape → Option ℤ → Shape
    string : Bool → Option String → Option ℤ → Shape
    integer : Bool → Option ℤ → Option ℤ → Shape
    boolean : Bool → Shape

  pub data Keys : Type 0 where
    no_keys : Keys
    key : String → Shape → Keys → Keys

  -- the rule for the keys that are not declared: a pattern, or none, and a shape
  pub data Entries : Type 0 where
    no_entries : Entries
    entries : Option String → Shape → Entries

pub data Segment : Type 0 where
  at_key : String → Segment
  at_index : ℕ → Segment

pub data Rule : Type 0 where
  expected_object expected_array expected_string expected_integer expected_boolean got_null : Rule
  missing_key unexpected_key key_mismatch : String → Rule
  too_many_items pattern_mismatch too_many_bytes below_min above_max : Rule

pub record Violation : Type 0 where
  pub path : List Segment
  pub rule : Rule

abbrev pub Checker : Type 0
Checker = Json → List Segment → Option Violation

abbrev pub violated : List Segment → Rule → Option Violation
violated path rule = some (record { path = path; rule = rule })

-- `_first`, of two
abbrev pub or_first : Option Violation → Option Violation → Option Violation
or_first (some p) q = some p
or_first none q = q

abbrev pub nullable_else : Bool → List Segment → Option Violation
nullable_else nullable path = if nullable then none else violated path got_null

unfoldable pub first_missing : List String → Fields → Option String
first_missing [] fs = none
first_missing (n ∷ ns) fs = if Dict.has n (to_dict fs) then first_missing ns fs else some n

unfoldable pub first_field : (String → Checker) → Fields → List Segment → Option Violation
first_field f end path = none
first_field f (field name item fs) path = or_first (f name item path) (first_field f fs path)

unfoldable pub first_item : Checker → ℕ → Items → List Segment → Option Violation
first_item f i nil path = none
first_item f i (cons item xs) path =
    or_first (f item (path ++ at_index i ∷ [])) (first_item f (i + 1) xs path)

abbrev pub object_fields :
    Option String → (String → Checker) → Fields → List Segment → Option Violation
object_fields (some n) f fs path = violated path (missing_key n)
object_fields none f fs path = first_field f fs path

unfoldable pub object_violation : Bool → List String → (String → Checker) → Checker
unfolding first_missing first_field
object_violation nullable required f null path = nullable_else nullable path
object_violation nullable required f (obj fs) path =
    object_fields (first_missing required fs) f fs path
object_violation nullable required f v path = violated path expected_object

abbrev pub items_count : Items → ℕ
items_count nil = 0
items_count (cons v xs) = suc (items_count xs)

abbrev pub over : Option ℤ → ℕ → Bool
over none n = false
over (some m) n = lt_int m (pos n)

unfoldable pub array_violation : Bool → Option ℤ → Checker → Checker
unfolding first_item
array_violation nullable max_items f null path = nullable_else nullable path
array_violation nullable max_items f (arr xs) path =
    if over max_items (items_count xs) then violated path too_many_items else first_item f 0 xs path
array_violation nullable max_items f v path = violated path expected_array

abbrev pub below_bound : ℤ → Option ℤ → Bool
below_bound n none = false
below_bound n (some m) = lt_int n m

abbrev pub above_bound : ℤ → Option ℤ → Bool
above_bound n none = false
above_bound n (some m) = lt_int m n

unfoldable pub integer_violation : Bool → Option ℤ → Option ℤ → Checker
integer_violation nullable least greatest null path = nullable_else nullable path
integer_violation nullable least greatest (int n) path =
    if below_bound n least
    then violated path below_min
    else if above_bound n greatest
    then violated path above_max
    else none
integer_violation nullable least greatest v path = violated path expected_integer

unfoldable pub boolean_violation : Bool → Checker
boolean_violation nullable null path = nullable_else nullable path
boolean_violation nullable (bool b) path = none
boolean_violation nullable v path = violated path expected_boolean

module _ (fullmatch : String → String → Bool) where
  abbrev pub matches : Option String → String → Bool
  matches none s = true
  matches (some pattern) s = fullmatch pattern s

unfoldable pub string_violation :
    (String → String → Bool) → Bool → Option String → Option ℤ → Checker
string_violation fullmatch nullable pattern max_bytes null path = nullable_else nullable path
string_violation fullmatch nullable pattern max_bytes (str s) path =
    if matches fullmatch pattern s
    then if over max_bytes (utf8_length s) then violated path too_many_bytes else none
    else violated path pattern_mismatch
string_violation fullmatch nullable pattern max_bytes v path = violated path expected_string

-- the checker of a name among the declared keys, else that of the entries rule
abbrev pub or_entries : Option (Option Violation) → Option Violation → Option Violation
or_entries (some found) rest = found
or_entries none rest = rest

module _ (fullmatch : String → String → Bool) where
  unfoldable mutual
    unfolding object_violation array_violation string_violation integer_violation boolean_violation

    pub schema_violation : Shape → Json → List Segment → Option Violation
    schema_violation (object nullable keys required rule) v path =
        object_violation nullable required
          (λ name item p.
            or_entries (key_violation keys name item p) (entry_violation rule name item p))
          v path
    schema_violation (array nullable items max_items) v path =
        array_violation nullable max_items (schema_violation items) v path
    schema_violation (string nullable pattern max_bytes) v path =
        string_violation fullmatch nullable pattern max_bytes v path
    schema_violation (integer nullable least greatest) v path =
        integer_violation nullable least greatest v path
    schema_violation (boolean nullable) v path = boolean_violation nullable v path

    -- `none` where the name is not declared
    pub key_violation : Keys → String → Json → List Segment → Option (Option Violation)
    key_violation no_keys name item path = none
    key_violation (key k shape keys) name item path =
        if k == name
        then some (schema_violation shape item (path ++ at_key name ∷ []))
        else key_violation keys name item path

    -- A refused key is told of at the path of its object.
    pub entry_violation : Entries → String → Json → List Segment → Option Violation
    entry_violation no_entries name item path = violated path (unexpected_key name)
    entry_violation (entries pattern shape) name item path =
        if matches fullmatch pattern name
        then schema_violation shape item (path ++ at_key name ∷ [])
        else violated path (key_mismatch name)
