-- ===== src/Protocol/Codec/Carried.antt =====
-- The texts that stormpulse/protocol/codec.py builds a dataclass with are those of its input.
use storm_pulse.Base.{
  if◌then◌else◌, Bool-cases, ◌==◌, string_eq, pair_eq, nat_eq, String, ◌≡◌, refl, sym, ap, ◌∙◌, ◌≢◌,
  inl, inr, Bool, true, false, not, ◌&&◌, ◌||◌, Option, none, some, arith, eq_iff,
}
use mathlib.Core.Path.{subst}
use storm_pulse.Base.Dict
use storm_pulse.Json.{Json, str, obj, Fields, field, to_dict}
use storm_pulse.Auth.{str_of, fields_of}
use storm_pulse.Protocol.Codec.{
  Result, ok, >>=-eq-ok, ok-injective, Ann, str_type, dataclass, Decls, done, decl, check_scalar,
  missing, take_field, decode, decode_fields,
}

abbrev pub is_str_type : Ann → Bool
is_str_type str_type = true
is_str_type a = false

-- The field is declared as a text without a default.
abbrev pub requires_str : String → Decls → Bool
requires_str name done = false
requires_str name (decl other a required ds) =
    if other == name then is_str_type a && required else requires_str name ds

decode-str :
    (a : Ann) (v w : Json)
    → is_str_type a ≡ true
    → decode a v ≡ ok w
    → (v ≡ w) × (w ≡ str (str_of (some w)))
unfolding decode check_scalar
decode-str str_type (str s) w h k = let e : str s ≡ w = ok-injective k in rw (← e) (refl, refl)
decode-str str_type v w h k = absurd (cc)
decode-str a v w h k = absurd (cc)

-- One step of the loop over the declared fields.
take_field-carried :
    (name other : String) (required : Bool) (a : Ann) (o : Option Json) (rest : Result Fields)
    (ws : Fields) (found : Option Json) (later : Bool)
    → (if other == name then is_str_type a && required else later) ≡ true
    → (other == name ≡ true → (o ≡ found) × (o ≢ none))
    → (later ≡ true
        → (zs : Fields) → rest ≡ ok zs
        → found ≡ some (str (str_of (Dict.get name (to_dict zs)))))
    → take_field other o (decode a) rest ≡ ok ws
    → found ≡ some (str (str_of (Dict.get name (to_dict ws))))
take_field-carried name other required a none rest ws found later r here more h =
    elim (Bool-cases (other == name)) [
      | inl same ↦ absurd ((here same).1 refl)
      | inr differs ↦ more (rw differs at r) ws h
    ]
take_field-carried name other required a (some v) rest ws found later r here more h =
    let (w, p, h') = >>=-eq-ok (decode a v) _ h in
    let (zs, q, e) = >>=-eq-ok rest _ h' in
    let built : field other w zs ≡ ws = ok-injective e in
    elim (Bool-cases (other == name)) [
      | inl same ↦
          let (kept, text) = decode-str a v w (ground (arith, r, same)) p in
          rw (← built) (unfold Dict.get in rw same (sym (here same).0 ∙ ap some (kept ∙ text)))
      | inr differs ↦ rw (← built) (unfold Dict.get in rw differs (more (rw differs at r) zs q))
    ]

not-absent :
    (other : String) (required rest : Bool) (fs : Fields)
    → required ≡ true
    → ((required && not (Dict.has other (to_dict fs))) || rest) ≡ false
    → Dict.get other (to_dict fs) ≢ none
not-absent other required rest fs r m gone =
    absurd (ground (arith, r, m, Dict.no_entry-get other (to_dict fs) gone))

rest-missing : (x rest : Bool) → (x || rest) ≡ false → rest ≡ false
rest-missing x rest h = ground arith

decode_fields-carried :
    (name : String) (ds : Decls) (fs ws : Fields)
    → requires_str name ds ≡ true
    → missing ds fs ≡ false
    → decode_fields ds fs ≡ ok ws
    → Dict.get name (to_dict fs) ≡ some (str (str_of (Dict.get name (to_dict ws))))
unfolding missing decode
decode_fields-carried name done fs ws r m h = absurd (cc)
decode_fields-carried name (decl other a required ds) fs ws r m h =
    take_field-carried name other required a (Dict.get other (to_dict fs)) (decode_fields ds fs) ws
      (Dict.get name (to_dict fs)) (requires_str name ds) r
      (λ same. (
        ap (λ k. Dict.get k (to_dict fs)) ((eq_iff other name).0 same),
        not-absent other required _ fs (ground (arith, r, same)) m,
      ))
      (λ later zs q. decode_fields-carried name ds fs zs later (rest-missing _ _ m) q) h

-- A text that a dataclass requires is in the built one what it is in the input.
pub decode-carried :
    (name : String) (ds : Decls) (fs : Fields) (built : Json)
    → requires_str name ds ≡ true
    → decode (dataclass ds) (obj fs) ≡ ok built
    → Dict.get name (to_dict fs)
      ≡ some (str (str_of (Dict.get name (to_dict (fields_of (some built))))))
unfolding decode
decode-carried name ds fs built r h = elim (Bool-cases (missing ds fs)) [
  | inl e ↦ absurd (let k = rw e at h in cc)
  | inr e ↦
      let (ws, p, q) = >>=-eq-ok (decode_fields ds fs) _ (rw e at h) in
      let same : obj ws ≡ built = ok-injective q in
      subst
        (λ b.
          Dict.get name (to_dict fs)
          ≡ some (str (str_of (Dict.get name (to_dict (fields_of (some b)))))))
        same (decode_fields-carried name ds fs ws r e p)
]
