-- ===== src/Commands/Schema/Fits.antt =====
-- The values that a shape of stormpulse/config/param_schema.py describes.
use storm_pulse.Base.{
  string_eq, pair_eq, nat_eq, String, ◌≡◌, ◌≢◌, ◌⊎◌, Bool, true, Option, none, some, List, [], ◌∷◌,
}
use storm_pulse.Base.Dict
use storm_pulse.Base.Int.{ℤ, pos, ◌≤ℤ◌}
use storm_pulse.Base.Text.{utf8_length}
use storm_pulse.Json.{
  Json, null, bool, int, str, arr, obj, Items, nil, cons, Fields, end, field, to_dict,
}
use storm_pulse.Commands.Schema.{
  Shape, object, array, string, integer, boolean, Keys, no_keys, key, Entries, no_entries, entries,
  items_count, matches,
}

abbrev pub AtMost : ℤ → Option ℤ → Type 0
AtMost n none = Unit {0}
AtMost n (some m) = n ≤ℤ m

abbrev pub AtLeast : ℤ → Option ℤ → Type 0
AtLeast n none = Unit {0}
AtLeast n (some m) = m ≤ℤ n

abbrev pub AllItems : (Json → Type 0) → Items → Type 0
AllItems P nil = Unit {0}
AllItems P (cons v xs) = P v × AllItems P xs

abbrev pub AllFields : (String → Json → Type 0) → Fields → Type 0
AllFields P end = Unit {0}
AllFields P (field k v fs) = P k v × AllFields P fs

abbrev pub Present : List String → Fields → Type 0
Present [] fs = Unit {0}
Present (n ∷ ns) fs = (Dict.has n (to_dict fs) ≡ true) × Present ns fs

-- The value is null where that is allowed, or of the kind and with the property named.
abbrev pub OrNull : Bool → (Json → Type 0) → Json → Type 0
OrNull nullable P null = nullable ≡ true
OrNull nullable P v = P v

abbrev pub IsObject : (Fields → Type 0) → Json → Type 0
IsObject P (obj fs) = P fs
IsObject P v = ⊥

abbrev pub IsArray : (Items → Type 0) → Json → Type 0
IsArray P (arr xs) = P xs
IsArray P v = ⊥

abbrev pub IsString : (String → Type 0) → Json → Type 0
IsString P (str s) = P s
IsString P v = ⊥

abbrev pub IsInteger : (ℤ → Type 0) → Json → Type 0
IsInteger P (int n) = P n
IsInteger P v = ⊥

abbrev pub IsBoolean : Json → Type 0
IsBoolean (bool b) = Unit {0}
IsBoolean v = ⊥

module _ (fullmatch : String → String → Bool) where
  unfoldable mutual
    pub Fits : Shape → Json → Type 0
    Fits (object nullable keys required rule) v =
        OrNull nullable
          (IsObject λ fs.
            Present required fs
            × AllFields (λ name item. FitsKey keys name item (FitsRule rule name item)) fs)
          v
    Fits (array nullable items max_items) v =
        OrNull nullable
          (IsArray λ xs. AtMost (pos (items_count xs)) max_items × AllItems (Fits items) xs) v
    Fits (string nullable pattern max_bytes) v =
        OrNull nullable
          (IsString
            λ s. (matches fullmatch pattern s ≡ true) × AtMost (pos (utf8_length s)) max_bytes)
          v
    Fits (integer nullable least greatest) v =
        OrNull nullable (IsInteger λ n. AtLeast n least × AtMost n greatest) v
    Fits (boolean nullable) v = OrNull nullable IsBoolean v

    -- The first declaration of the name decides, else the rule for other names does.
    pub FitsKey : Keys → String → Json → Type 0 → Type 0
    FitsKey no_keys name item rule = rule
    FitsKey (key k shape keys) name item rule =
        ((k ≡ name) × Fits shape item) ⊎ ((k ≢ name) × FitsKey keys name item rule)

    pub FitsRule : Entries → String → Json → Type 0
    FitsRule no_entries name item = ⊥
    FitsRule (entries pattern shape) name item =
        (matches fullmatch pattern name ≡ true) × Fits shape item
