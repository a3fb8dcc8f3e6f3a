-- ===== src/Commands/Params/Valid.antt =====
-- What `validate_params` of stormpulse/commands/registry.py returns.
use storm_pulse.Base.{
  if◌then◌else◌, Bool-cases, Option-cases, ◌==◌, string_eq, pair_eq, nat_eq, String, ◌≡◌, refl, sym,
  ap, ◌⊎◌, inl, inr, Bool, true, Option, none, some, List, [], ◌∷◌, arith, eq_iff,
}
use storm_pulse.Base.Dict
use storm_pulse.Base.Dict.{Dict, no_entry, get-keep_if}
use storm_pulse.Json.{Json}
use storm_pulse.Commands.Spec.{ParamDef, CommandSpec}
use storm_pulse.Commands.Params.{
  Problem, unknown_params, Checked, ok, err, param_problem, unknown_names, chosen, merge_one,
  merge_params, validate_params,
}

-- The value that a param takes: none where it is not declared.
abbrev pub pick : Option ParamDef → Option Json → Option Json
pick none given = none
pick (some pdef) given = chosen given pdef.default

abbrev merged_of : Dict String Json → Checked (Dict String Json) → Dict String Json
merged_of d (ok m) = m
merged_of d (err e) = d

ok-injective : {a b : Dict String Json} → ok a ≡ ok b → a ≡ b
ok-injective {a} h = ap (merged_of a) h

-- What one round of the loop that succeeds did.
merge_one-cases :
    (name : String) (o : Option Json) (problem : Json → Option Problem)
    (rest : Checked (Dict String Json)) (merged : Dict String Json)
    → merge_one name o problem rest ≡ ok merged
    → ((o ≡ none) × (rest ≡ ok merged))
      ⊎ ((v : Json) × (tail : Dict String Json) × (o ≡ some v)
          × (problem v ≡ none)
          × (rest ≡ ok tail)
          × (merged ≡ (name, v) ∷ tail))
merge_one-cases name none problem rest merged h = inl (refl, h)
merge_one-cases name (some v) problem (err e) merged h = elim (Option-cases (problem v)) [
  | inl k ↦ absurd (let t = rw (k, merge_one) at h in cc)
  | inr (p, k) ↦ absurd (let t = rw (k, merge_one) at h in cc)
]
merge_one-cases name (some v) problem (ok tail) merged h = elim (Option-cases (problem v)) [
  | inl k ↦ inr (v, tail, refl, k, refl, sym (ok-injective (rw (k, merge_one) at h)))
  | inr (p, k) ↦ absurd (let t = rw (k, merge_one) at h in cc)
]

module _ (fullmatch : String → String → Bool) (dumps : Json → String) where
  merge_params-get :
      (params : Dict String ParamDef) (runtime merged : Dict String Json) (k : String)
      → Dict.IsDict params
      → merge_params fullmatch dumps params runtime ≡ ok merged
      → Dict.get k merged ≡ pick (Dict.get k params) (Dict.get k runtime)
  unfolding merge_params Dict.get
  merge_params-get [] runtime merged k d h = let e : [] ≡ merged = ok-injective h in rw (← e) refl
  merge_params-get ((name, pdef) ∷ params) runtime merged k d h =
      elim (merge_one-cases name (chosen (Dict.get name runtime) pdef.default)
        (param_problem fullmatch dumps pdef) (merge_params fullmatch dumps params runtime) merged
        h) [
          | inl (skipped, rest) ↦
              let more = merge_params-get params runtime merged k d.1 rest in
              ground (arith, more, eq_iff name k, no_entry name params d.0)
          | inr (v, tail, given, fine, rest, e) ↦
              let more = merge_params-get params runtime tail k d.1 rest in
              rw e (ground (arith, more, given, eq_iff name k))
        ]

  merge_params-checked :
      (params : Dict String ParamDef) (runtime merged : Dict String Json) (k : String) (v : Json)
      → Dict.IsDict params
      → merge_params fullmatch dumps params runtime ≡ ok merged
      → Dict.get k merged ≡ some v
      → (pdef : ParamDef) × (Dict.get k params ≡ some pdef)
        × (param_problem fullmatch dumps pdef v ≡ none)
  unfolding merge_params Dict.get
  merge_params-checked [] runtime merged k v d h g =
      let e : [] ≡ merged = ok-injective h in absurd (let t = rw (← e) at g in cc)
  merge_params-checked ((name, pdef) ∷ params) runtime merged k v d h g =
      elim (merge_one-cases name (chosen (Dict.get name runtime) pdef.default)
        (param_problem fullmatch dumps pdef) (merge_params fullmatch dumps params runtime) merged
        h) [
          | inl (skipped, rest) ↦
              later merged (merge_params-checked params runtime merged k v d.1 rest) g
          | inr (w, tail, given, fine, rest, e) ↦ elim (Bool-cases (name == k)) [
            | inl same ↦ (pdef, rw same, ground (arith, e, g, same, fine))
            | inr other ↦
                later tail (merge_params-checked params runtime tail k v d.1 rest)
                  (ground (arith, e, g, other))
          ]
        ]
    where
      later :
          (m : Dict String Json)
          → (Dict.get k m ≡ some v
              → (q : ParamDef) × (Dict.get k params ≡ some q)
                × (param_problem fullmatch dumps q v ≡ none))
          → Dict.get k m ≡ some v
          → (q : ParamDef) × ((if name == k then some pdef else Dict.get k params) ≡ some q)
            × (param_problem fullmatch dumps q v ≡ none)
      later m f g' =
          let (q, there, fine) = f g' in
          (q, ground (arith, eq_iff name k, there, no_entry name params d.0), fine)

  unknown_names-known :
      (params : Dict String ParamDef) (runtime : Dict String Json) (k : String)
      → unknown_names params runtime ≡ []
      → Dict.has k runtime ≡ true
      → Dict.has k params ≡ true
  unfolding unknown_names Dict.has
  unknown_names-known params [] k h p = absurd (cc)
  unknown_names-known params ((name, v) ∷ runtime) k h p =
      elim (Bool-cases (Dict.has name params)) [
        | inl e ↦ ground (arith, eq_iff name k, unknown_names-known params runtime k)
        | inr e ↦ absurd (let t = rw e at h in cc)
      ]

  -- Exactly the declared params come out: each that is given with its given value, each that is not
  -- with its default if it has one. Every name given is declared, and every value that comes out
  -- passes the type, pattern, byte-cap and shape checks of its own declaration.
  pub record IsValidated (spec : CommandSpec) (runtime merged : Dict String Json) : Type 0 where
    pub declared : (k : String) → Dict.has k runtime ≡ true → Dict.has k spec.params ≡ true
    pub picked :
        (k : String) → Dict.get k merged ≡ pick (Dict.get k spec.params) (Dict.get k runtime)
    pub checked :
        (k : String) (v : Json)
        → Dict.get k merged ≡ some v
        → (pdef : ParamDef) × (Dict.get k spec.params ≡ some pdef)
          × (param_problem fullmatch dumps pdef v ≡ none)

module _ (fullmatch : String → String → Bool) (dumps : Json → String) where
  validated :
      (spec : CommandSpec) (runtime merged : Dict String Json) (unknown : List String)
      → unknown_names spec.params runtime ≡ unknown
      → Dict.IsDict spec.params
      → (elim unknown [
        | [] ↦ merge_params fullmatch dumps spec.params runtime
        | n ∷ ns ↦ err (unknown_params (n ∷ ns))
      ])
        ≡ ok merged
      → IsValidated fullmatch dumps spec runtime merged
  validated spec runtime merged [] u d h = record {
    declared = λ k. unknown_names-known fullmatch dumps spec.params runtime k u;
    picked = λ k. merge_params-get fullmatch dumps spec.params runtime merged k d h;
    checked = λ k v. merge_params-checked fullmatch dumps spec.params runtime merged k v d h;
  }
  validated spec runtime merged (n ∷ ns) u d h = absurd (cc)

  -- Params that `validate_params` accepts are validated: only declared names, given values and
  -- defaults as they are, and every value past the checks of its declaration.
  pub validate_params-IsValidated :
      (spec : CommandSpec) (runtime merged : Dict String Json)
      → Dict.IsDict spec.params
      → validate_params fullmatch dumps spec runtime ≡ ok merged
      → IsValidated fullmatch dumps spec runtime merged
  unfolding validate_params
  validate_params-IsValidated spec runtime merged d h =
      validated spec runtime merged (unknown_names spec.params runtime) refl d h
