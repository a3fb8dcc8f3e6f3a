-- ===== src/Commands/Params/Withheld.antt =====
-- What the messages of `validate_params` in stormpulse/commands/registry.py withhold.
use storm_pulse.Base.{
  ltb, if◌then◌else◌, Bool-cases, string_eq, pair_eq, nat_eq, ℕ, String, ◌≡◌, ap, ◌∙◌, inl, inr,
  Bool, true, not, Option, none, some, [],
}
use mathlib.Core.Path.{subst}
use storm_pulse.Base.Dict
use storm_pulse.Base.Dict.{Dict, no_entry, get-keep_if}
use storm_pulse.Json.{Json, str}
use storm_pulse.Commands.Schema.{Shape, Violation, schema_violation}
use storm_pulse.Commands.Spec.{ParamDef, CommandSpec}
use storm_pulse.Commands.Params.{
  Problem, no_match, no_fit, param_problem, or_else, pattern_problem, string_problem, cap_problem,
  fit_problem, schema_problem, is_secret, non_secret_params,
}

abbrev problem_of : Problem → Option Problem → Problem
problem_of d (some p) = p
problem_of d none = d

some-eq : {a b : Problem} → some a ≡ some b → a ≡ b
some-eq {a} h = ap (problem_of a) h

-- The message holds no value: neither the value refused nor where it breaks its shape.
abbrev pub Withheld : Problem → Type 0
Withheld (no_match (some v)) = ⊥
Withheld (no_fit (some v)) = ⊥
Withheld p = Unit {0}

module _ (fullmatch : String → String → Bool) (dumps : Json → String) (pdef : ParamDef)
    (secret : pdef.secret ≡ true) where
  string_problem-Withheld :
      (o : Option Shape) (v : Json) (p : Problem) → string_problem o v ≡ some p → Withheld p
  string_problem-Withheld none (str s) p h = absurd (cc)
  string_problem-Withheld none v p h = subst Withheld (some-eq h) tt
  string_problem-Withheld (some shape) v p h = absurd (cc)

  pattern_problem-Withheld :
      (o : Option String) (v : Json) (p : Problem)
      → pattern_problem fullmatch dumps pdef o v ≡ some p
      → Withheld p
  pattern_problem-Withheld none v p h = absurd (cc)
  pattern_problem-Withheld (some pattern) (str s) p h = elim (Bool-cases (fullmatch pattern s)) [
    | inl e ↦ absurd (let t = rw e at h in cc)
    | inr e ↦ subst Withheld (some-eq (rw (e, secret) at h)) tt
  ]
  pattern_problem-Withheld (some pattern) v p h = absurd (cc)

  cap_problem-Withheld :
      (o : Option ℕ) (n : ℕ) (p : Problem) → cap_problem o n ≡ some p → Withheld p
  cap_problem-Withheld none n p h = absurd (cc)
  cap_problem-Withheld (some limit) n p h = elim (Bool-cases (ltb limit n)) [
    | inl e ↦ subst Withheld (some-eq (rw e at h)) tt
    | inr e ↦ absurd (let t = rw e at h in cc)
  ]

  fit_problem-Withheld :
      (o : Option Violation) (p : Problem) → fit_problem pdef.secret o ≡ some p → Withheld p
  fit_problem-Withheld none p h = absurd (cc)
  fit_problem-Withheld (some w) p h = subst Withheld (some-eq (rw secret at h)) tt

  schema_problem-Withheld :
      (o : Option Shape) (v : Json) (p : Problem)
      → schema_problem fullmatch dumps pdef.secret o v ≡ some p
      → Withheld p
  schema_problem-Withheld none v p h = absurd (cc)
  schema_problem-Withheld (some shape) v p h =
      fit_problem-Withheld (schema_violation fullmatch shape v []) p h

  or_else-Withheld :
      (a b : Option Problem) (p : Problem)
      → (a ≡ some p → Withheld p)
      → (b ≡ some p → Withheld p)
      → or_else a b ≡ some p
      → Withheld p
  or_else-Withheld none b p f g h = g h
  or_else-Withheld (some a) b p f g h = f h

  -- What is said of a bad value of a secret param never holds the value, nor how it breaks its shape.
  pub param_problem-Withheld :
      (v : Json) (p : Problem) → param_problem fullmatch dumps pdef v ≡ some p → Withheld p
  unfolding param_problem
  param_problem-Withheld v p h =
      or_else-Withheld _ _ p
        (or_else-Withheld _ _ p (string_problem-Withheld pdef.schema v p)
          (pattern_problem-Withheld pdef.pattern v p))
        (or_else-Withheld _ _ p (cap_problem-Withheld pdef.max_bytes _ p)
          (schema_problem-Withheld pdef.schema v p))
        h

-- The event and log context of a command leaves out exactly the params declared secret.
pub get-non_secret_params :
    (spec : CommandSpec) (params : Dict String Json) (k : String)
    → Dict.get k (non_secret_params spec params)
      ≡ (if is_secret (Dict.get k spec.params) then none else Dict.get k params)
unfolding non_secret_params
get-non_secret_params spec params k =
    get-keep_if (λ name. not (is_secret (Dict.get name spec.params))) k params
    ∙ elim (Bool-cases (is_secret (Dict.get k spec.params))) [ inl e ↦ rw e | inr e ↦ rw e ]
