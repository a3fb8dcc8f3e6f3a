-- ===== src/Base/Tests.antt =====
-- Boolean tests, the conditional, and equality as an interface with the instances the model uses.
use Prim.Native.Nat.{ℕ, ◌≤◌, ◌<◌, compare, Ordering}
use Prim.Native.String.{String}
use mathlib.Core.Path.{◌≡◌, refl}
use mathlib.Core.Logic.{◌↔◌, ◌⊎◌, inl, inr}
use mathlib.Core.Bool.{Bool, true, false, ◌&&◌}
use mathlib.Core.Option.{Option, none, some}
use native.Mathlib.Omega.{arith}
use text.Mathlib.Text.{◌==◌ as str_eq}
use text.Mathlib.TextEquality.{eq_iff}

abbrev pub ltb : ℕ → ℕ → Bool
ltb a b = elim (compare a b) [ Ordering.lt ↦ true | _ ↦ false ]

abbrev pub leb : ℕ → ℕ → Bool
leb a b = elim (compare a b) [ Ordering.gt ↦ false | _ ↦ true ]

abbrev pub nat_beq : ℕ → ℕ → Bool
nat_beq a b = elim (compare a b) [ Ordering.eq ↦ true | _ ↦ false ]

infix 1 if◌then◌else◌
abbrev pub if◌then◌else◌ {ℓ} : {A : Type ℓ} → Bool → A → A → A
if true then x else y = x
if false then x else y = y

pub ltb→lt : (a b : ℕ) → ltb a b ≡ true → a < b
ltb→lt a b h = ground arith

pub lt→ltb : (a b : ℕ) → a < b → ltb a b ≡ true
lt→ltb a b h = ground arith

pub leb→le : (a b : ℕ) → leb a b ≡ true → a ≤ b
leb→le a b h = ground arith

pub ltb_false→le : (a b : ℕ) → ltb a b ≡ false → b ≤ a
ltb_false→le a b h = ground arith

pub ruleset tests = (arith, ltb→lt, lt→ltb, leb→le, ltb_false→le)

pub Bool-cases : (b : Bool) → (b ≡ true) ⊎ (b ≡ false)
Bool-cases true = inl refl
Bool-cases false = inr refl

pub Option-cases {ℓ} : {A : Type ℓ} (o : Option A) → (o ≡ none) ⊎ ((a : A) × (o ≡ some a))
Option-cases none = inl refl
Option-cases (some a) = inr (a, refl)

-- Python's `==` on a type of keys, with what makes it an equality.
pub record Eq {ℓ} (K : Type ℓ) : Type ℓ where
  pub beq : K → K → Bool
  pub beq_iff : (j k : K) → (beq j k ≡ true) ↔ (j ≡ k)

infix 50 ◌==◌
abbrev pub ◌==◌ {ℓ} : {K : Type ℓ} ⦃q : Eq K⦄ → K → K → Bool
◌==◌ ⦃q⦄ = q.beq

pub beq_refl {ℓ} : {K : Type ℓ} ⦃q : Eq K⦄ (k : K) → (k == k) ≡ true
beq_refl ⦃q⦄ k = (q.beq_iff k k).1 refl

instance abbrev pub string_eq : Eq String
string_eq = record { beq = str_eq; beq_iff = eq_iff }

abbrev pair_beq {ℓ κ} : {J : Type ℓ} {K : Type κ} → Eq J → Eq K → J × K → J × K → Bool
pair_beq qj qk p r = qj.beq p.0 r.0 && qk.beq p.1 r.1

pub pair_beq_iff {ℓ κ} :
    {J : Type ℓ} {K : Type κ} (qj : Eq J) (qk : Eq K) (p r : J × K)
    → (pair_beq qj qk p r ≡ true) ↔ (p ≡ r)
pair_beq_iff qj qk p r = ground (arith, qj.beq_iff p.0 r.0, qk.beq_iff p.1 r.1)

instance abbrev pub pair_eq {ℓ κ} : {J : Type ℓ} {K : Type κ} ⦃qj : Eq J⦄ ⦃qk : Eq K⦄ → Eq (J × K)
pair_eq ⦃qj⦄ ⦃qk⦄ = record { beq = pair_beq qj qk; beq_iff = pair_beq_iff qj qk }

pub nat_beq_iff : (a b : ℕ) → (nat_beq a b ≡ true) ↔ (a ≡ b)
nat_beq_iff a b = ground arith

instance abbrev pub nat_eq : Eq ℕ
nat_eq = record { beq = nat_beq; beq_iff = nat_beq_iff }
