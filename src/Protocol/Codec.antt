-- ===== src/Protocol/Codec.antt =====
-- The decoder of stormpulse/protocol/codec.py: one JSON value against one annotation. The result of
-- building a dataclass is the object of its decoded fields.
use storm_pulse.Base.{
  if◌then◌else◌, nat_eq, string_eq, pair_eq, ℕ, zero, suc, String, ◌≡◌, refl, ap, Bool, true, false,
  not, ◌&&◌, ◌||◌, Option, none, some,
}
use storm_pulse.Base.Dict
use storm_pulse.Base.Int.{pos}
use storm_pulse.Json.{
  Json, null, bool, int, float, str, arr, obj, Items, nil, cons, Fields, end, field, to_dict,
}
pub mod Types
pub mod Carried

-- ProtocolError.REASONS
pub data Reason : Type 0 where
  unsupported_version unknown_type bad_envelope duplicate_request : Reason

-- A ProtocolError: its reason and the refused frame's type, when one was readable.
pub record ProtocolError : Type 0 where
  pub reason : Reason
  pub msg_type : Option String

pub data Result {ℓ} (A : Type ℓ) : Type ℓ where
  ok : A → Result A
  err : ProtocolError → Result A

infixl 5 ◌>>=◌
abbrev pub ◌>>=◌ {ℓ κ} : {X : Type ℓ} {Y : Type κ} → Result X → (X → Result Y) → Result Y
err problem >>= rest = err problem
ok x >>= rest = rest x

pub >>=-eq-ok {ℓ κ} :
    {X : Type ℓ} {Y : Type κ} (r : Result X) (rest : X → Result Y) {y : Y}
    → (r >>= rest) ≡ ok y
    → (x : X) × (r ≡ ok x) × (rest x ≡ ok y)
>>=-eq-ok (err problem) rest h = absurd (cc)
>>=-eq-ok (ok x) rest h = (x, refl, h)

abbrev value_of {ℓ} : {A : Type ℓ} → A → Result A → A
value_of d (ok a) = a
value_of d (err e) = d

pub ok-injective {ℓ} : {A : Type ℓ} {a b : A} → ok a ≡ ok b → a ≡ b
ok-injective {a} h = ap (value_of a) h

abbrev pub bad : ProtocolError
bad = record { reason = bad_envelope; msg_type = none }

-- `type(v) is int and v in SPEAKS`, where SPEAKS is (2,)
unfoldable pub check_version : Json → Result ℕ
check_version (int (pos (suc (suc zero)))) = ok 2
check_version v = err (record { reason = unsupported_version; msg_type = none })

-- Annotations of payload fields.
mutual
  pub data Ann : Type 0 where
    any_type bool_type int_type float_type str_type : Ann
    union : Bool → Arms → Ann
    list_of : Ann → Ann
    dict_of : Ann → Ann
    dataclass : Decls → Ann

  -- the arms that are not None; there is one at least
  pub data Arms : Type 0 where
    last : Ann → Arms
    arm : Ann → Arms → Arms

  -- a field: its name, its annotation and whether it has no default
  pub data Decls : Type 0 where
    done : Decls
    decl : String → Ann → Bool → Decls → Decls

abbrev pub is_scalar : Ann → Json → Bool
is_scalar bool_type (bool b) = true
is_scalar int_type (int n) = true
is_scalar float_type (int n) = true
is_scalar float_type (float x) = true
is_scalar str_type (str s) = true
is_scalar _ _ = false

unfoldable pub check_scalar : Ann → Json → Result Json
check_scalar a v = if is_scalar a v then ok v else err bad

abbrev pub is_null : Json → Bool
is_null null = true
is_null _ = false

-- the loops over items, over the values of a dict (JSON keys are strings) and over arms
unfoldable pub decode_items : (Json → Result Json) → Items → Result Items
decode_items f nil = ok nil
decode_items f (cons v xs) = do w ← f v; ys ← decode_items f xs; ok (cons w ys)

unfoldable pub decode_values : (Json → Result Json) → Fields → Result Fields
decode_values f end = ok end
decode_values f (field k v fs) = do w ← f v; gs ← decode_values f fs; ok (field k w gs)

unfoldable pub decode_list : (Json → Result Json) → Json → Result Json
decode_list f (arr xs) = do ys ← decode_items f xs; ok (arr ys)
decode_list f v = err bad

unfoldable pub decode_dict : (Json → Result Json) → Json → Result Json
decode_dict f (obj fs) = do gs ← decode_values f fs; ok (obj gs)
decode_dict f v = err bad

-- `try: return first; except ProtocolError: continue`
abbrev pub or_else : Result Json → Result Json → Result Json
or_else (ok v) r = ok v
or_else (err e) r = r

-- required - data.keys()
unfoldable pub missing : Decls → Fields → Bool
missing done fs = false
missing (decl name a required ds) fs =
    (required && not (Dict.has name (to_dict fs))) || missing ds fs

-- one field of the dict comprehension of `_payload_from_dict`
abbrev pub take_field : String → Option Json → (Json → Result Json) → Result Fields → Result Fields
take_field name none f rest = rest
take_field name (some v) f rest = do w ← f v; ws ← rest; ok (field name w ws)

abbrev pub build : Bool → Result Fields → Result Json
build true r = err bad
build false r = do ws ← r; ok (obj ws)

unfoldable mutual
  unfolding check_scalar decode_list decode_dict missing

  pub decode : Ann → Json → Result Json
  decode any_type v = ok v
  decode (union nullable arms) v = if nullable && is_null v then ok v else decode_arms arms v
  decode (list_of a) v = decode_list (decode a) v
  decode (dict_of a) v = decode_dict (decode a) v
  decode (dataclass ds) (obj fs) = build (missing ds fs) (decode_fields ds fs)
  decode (dataclass ds) v = err bad
  decode a v = check_scalar a v

  pub decode_arms : Arms → Json → Result Json
  decode_arms (last a) v = decode a v
  decode_arms (arm a arms) v = or_else (decode a v) (decode_arms arms v)

  pub decode_fields : Decls → Fields → Result Fields
  decode_fields done fs = ok end
  decode_fields (decl name a required ds) fs =
      take_field name (Dict.get name (to_dict fs)) (decode a) (decode_fields ds fs)
