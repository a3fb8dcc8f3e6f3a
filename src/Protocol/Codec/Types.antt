-- ===== src/Protocol/Codec/Types.antt =====
-- What a decoded value looks like: the annotations of stormpulse/protocol/codec.py read as types.
use mathlib.Core.Path.{subst, ◌∙◌}
use storm_pulse.Base.{
  Bool-cases, string_eq, pair_eq, nat_eq, String, ◌≡◌, refl, sym, ◌⊎◌, inl, inr, Bool, true, false,
  not, ◌&&◌, ◌||◌, Option, none, some, arith,
}
use storm_pulse.Base.Dict
use storm_pulse.Json.{
  Json, null, bool, int, float, str, arr, obj, Items, nil, cons, Fields, end, field, to_dict,
}
use storm_pulse.Protocol.Codec.{
  Result, ok, err, >>=-eq-ok, ok-injective, Ann, any_type, bool_type, int_type, float_type,
  str_type, union, list_of, dict_of, dataclass, Arms, last, arm, Decls, done, decl, is_scalar,
  check_scalar, is_null, decode_items, decode_values, decode_list, decode_dict, or_else, missing,
  take_field, decode, decode_arms, decode_fields,
}

abbrev pub AllItems : (Json → Type 0) → Items → Type 0
AllItems P nil = Unit {0}
AllItems P (cons v xs) = P v × AllItems P xs

abbrev pub AllValues : (Json → Type 0) → Fields → Type 0
AllValues P end = Unit {0}
AllValues P (field k v fs) = P v × AllValues P fs

abbrev pub IsList : (Json → Type 0) → Json → Type 0
IsList P (arr xs) = AllItems P xs
IsList P v = ⊥

abbrev pub IsMap : (Json → Type 0) → Json → Type 0
IsMap P (obj fs) = AllValues P fs
IsMap P v = ⊥

abbrev pub IsObject : (Fields → Type 0) → Json → Type 0
IsObject P (obj fs) = P fs
IsObject P v = ⊥

abbrev pub IsBool : Json → Type 0
IsBool (bool b) = Unit {0}
IsBool v = ⊥

abbrev pub IsInt : Json → Type 0
IsInt (int n) = Unit {0}
IsInt v = ⊥

abbrev pub IsNumber : Json → Type 0
IsNumber (int n) = Unit {0}
IsNumber (float x) = Unit {0}
IsNumber v = ⊥

abbrev pub IsStr : Json → Type 0
IsStr (str s) = Unit {0}
IsStr v = ⊥

-- A dataclass has its declared fields in their order and no other; one with a default may be absent.
unfoldable mutual
  pub HasType : Ann → Json → Type 0
  HasType any_type v = Unit {0}
  HasType (union nullable arms) v = ((nullable ≡ true) × (v ≡ null)) ⊎ HasArm arms v
  HasType (list_of a) v = IsList (HasType a) v
  HasType (dict_of a) v = IsMap (HasType a) v
  HasType (dataclass ds) v = IsObject (HasFields ds) v
  HasType bool_type v = IsBool v
  HasType int_type v = IsInt v
  HasType float_type v = IsNumber v
  HasType str_type v = IsStr v

  pub HasArm : Arms → Json → Type 0
  HasArm (last a) v = HasType a v
  HasArm (arm a arms) v = HasType a v ⊎ HasArm arms v

  pub HasFields : Decls → Fields → Type 0
  HasFields done fs = fs ≡ end
  HasFields (decl name a required ds) fs =
      ((w : Json) × (ws : Fields) × (fs ≡ field name w ws) × HasType a w × HasFields ds ws)
      ⊎ ((required ≡ false) × HasFields ds fs)

module _ (f : Json → Result Json) (P : Json → Type 0)
    (sound : (v w : Json) → f v ≡ ok w → P w) where
  decode_items-All : (xs ys : Items) → decode_items f xs ≡ ok ys → AllItems P ys
  unfolding decode_items
  decode_items-All nil ys h = subst (AllItems P) (ok-injective h) tt
  decode_items-All (cons v xs) ys h =
      let (w, p, h') = >>=-eq-ok (f v) _ h in
      let (zs, q, e) = >>=-eq-ok (decode_items f xs) _ h' in
      subst (AllItems P) (ok-injective e) (sound v w p, decode_items-All xs zs q)

  decode_values-All : (fs gs : Fields) → decode_values f fs ≡ ok gs → AllValues P gs
  unfolding decode_values
  decode_values-All end gs h = subst (AllValues P) (ok-injective h) tt
  decode_values-All (field k v fs) gs h =
      let (w, p, h') = >>=-eq-ok (f v) _ h in
      let (zs, q, e) = >>=-eq-ok (decode_values f fs) _ h' in
      subst (AllValues P) (ok-injective e) (sound v w p, decode_values-All fs zs q)

  decode_list-IsList : (v w : Json) → decode_list f v ≡ ok w → IsList P w
  unfolding decode_list
  decode_list-IsList (arr xs) w h =
      let (ys, p, e) = >>=-eq-ok (decode_items f xs) _ h in
      subst (IsList P) (ok-injective e) (decode_items-All xs ys p)
  decode_list-IsList v w h = absurd (cc)

  decode_dict-IsMap : (v w : Json) → decode_dict f v ≡ ok w → IsMap P w
  unfolding decode_dict
  decode_dict-IsMap (obj fs) w h =
      let (gs, p, e) = >>=-eq-ok (decode_values f fs) _ h in
      subst (IsMap P) (ok-injective e) (decode_values-All fs gs p)
  decode_dict-IsMap v w h = absurd (cc)

check_scalar-eq-ok : (a : Ann) (v w : Json) → check_scalar a v ≡ ok w → is_scalar a w ≡ true
unfolding check_scalar
check_scalar-eq-ok a v w h = elim (Bool-cases (is_scalar a v)) [
  | inl e ↦ subst (λ x. is_scalar a x ≡ true) (ok-injective (rw e at h)) e
  | inr e ↦ absurd (let k = rw e at h in cc)
]

is_scalar-IsBool : (v : Json) → is_scalar bool_type v ≡ true → IsBool v
is_scalar-IsBool (bool b) h = tt
is_scalar-IsBool v h = absurd (cc)

is_scalar-IsInt : (v : Json) → is_scalar int_type v ≡ true → IsInt v
is_scalar-IsInt (int n) h = tt
is_scalar-IsInt v h = absurd (cc)

is_scalar-IsNumber : (v : Json) → is_scalar float_type v ≡ true → IsNumber v
is_scalar-IsNumber (int n) h = tt
is_scalar-IsNumber (float x) h = tt
is_scalar-IsNumber v h = absurd (cc)

is_scalar-IsStr : (v : Json) → is_scalar str_type v ≡ true → IsStr v
is_scalar-IsStr (str s) h = tt
is_scalar-IsStr v h = absurd (cc)

is_null-eq : (v : Json) → is_null v ≡ true → v ≡ null
is_null-eq null h = refl
is_null-eq v h = absurd (cc)

not-required :
    (required present rest : Bool)
    → present ≡ false
    → ((required && not present) || rest) ≡ false
    → required ≡ false
not-required required present rest p h = ground arith

rest-missing : (x rest : Bool) → (x || rest) ≡ false → rest ≡ false
rest-missing x rest h = ground arith

first_arm :
    {P Q : Type 0} (r s : Result Json) (w : Json)
    → (r ≡ ok w → P)
    → (s ≡ ok w → Q)
    → or_else r s ≡ ok w
    → P ⊎ Q
first_arm (ok v) s w f g h = inl (f h)
first_arm (err e) s w f g h = inr (g h)

-- One step of the loop over the declared fields.
field_type :
    (name : String) (required : Bool) (o : Option Json) (f : Json → Result Json)
    (rest : Result Fields) (ws : Fields) (P : Json → Type 0) (Q : Fields → Type 0)
    → ((v w : Json) → f v ≡ ok w → P w)
    → ((zs : Fields) → rest ≡ ok zs → Q zs)
    → (o ≡ none → required ≡ false)
    → take_field name o f rest ≡ ok ws
    → ((w : Json) × (zs : Fields) × (ws ≡ field name w zs) × P w × Q zs)
      ⊎ ((required ≡ false) × Q ws)
field_type name required none f rest ws P Q sound more absent h = inr (absent refl, more ws h)
field_type name required (some v) f rest ws P Q sound more absent h =
    let (w, p, h') = >>=-eq-ok (f v) _ h in
    let (zs, q, e) = >>=-eq-ok rest _ h' in
    inl (w, zs, sym (ok-injective e), sound v w p, more zs q)

mutual
  unfolding decode HasType

  decode-type : (a : Ann) (v w : Json) → decode a v ≡ ok w → HasType a w
  decode-type any_type v w h = tt
  decode-type bool_type v w h = is_scalar-IsBool w (check_scalar-eq-ok bool_type v w h)
  decode-type int_type v w h = is_scalar-IsInt w (check_scalar-eq-ok int_type v w h)
  decode-type float_type v w h = is_scalar-IsNumber w (check_scalar-eq-ok float_type v w h)
  decode-type str_type v w h = is_scalar-IsStr w (check_scalar-eq-ok str_type v w h)
  decode-type (union nullable arms) v w h = elim (Bool-cases (nullable && is_null v)) [
    | inl e ↦
        let both : (nullable ≡ true) × (is_null v ≡ true) = (ground arith, ground arith) in
        inl (both.0, sym (ok-injective (rw e at h)) ∙ is_null-eq v both.1)
    | inr e ↦ inr (decode_arms-type arms v w (rw e at h))
  ]
  decode-type (list_of a) v w h = decode_list-IsList (decode a) (HasType a) (decode-type a) v w h
  decode-type (dict_of a) v w h = decode_dict-IsMap (decode a) (HasType a) (decode-type a) v w h
  decode-type (dataclass ds) (obj fs) w h = elim (Bool-cases (missing ds fs)) [
    | inl e ↦ absurd (let k = rw e at h in cc)
    | inr e ↦
        let (ws, p, q) = >>=-eq-ok (decode_fields ds fs) _ (rw e at h) in
        subst (IsObject (HasFields ds)) (ok-injective q) (decode_fields-type ds fs ws e p)
  ]
  decode-type (dataclass ds) v w h = absurd (cc)

  decode_arms-type : (arms : Arms) (v w : Json) → decode_arms arms v ≡ ok w → HasArm arms w
  decode_arms-type (last a) v w h = decode-type a v w h
  decode_arms-type (arm a arms) v w h =
      first_arm (decode a v) (decode_arms arms v) w (decode-type a v w) (decode_arms-type arms v w)
        h

  decode_fields-type :
      (ds : Decls) (fs ws : Fields)
      → missing ds fs ≡ false
      → decode_fields ds fs ≡ ok ws
      → HasFields ds ws
  decode_fields-type done fs ws m h = sym (ok-injective h)
  decode_fields-type (decl name a required ds) fs ws m h =
      field_type name required (Dict.get name (to_dict fs)) (decode a) (decode_fields ds fs) ws
        (HasType a) (HasFields ds) (decode-type a)
        (λ zs. decode_fields-type ds fs zs (rest-missing _ _ m))
        (λ e. not-required required _ _ (Dict.no_entry-get name (to_dict fs) e) m) h

-- Whatever the decoder accepts has the declared type: scalars as declared (a bool is no int), every
-- item and value decoded, a dataclass with its declared fields alone, each of its declared type and
-- none without a default absent.
pub decode-HasType : (a : Ann) (v w : Json) → decode a v ≡ ok w → HasType a w
decode-HasType a v w h = decode-type a v w h
