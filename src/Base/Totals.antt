-- ===== src/Base/Totals.antt =====
-- Sums over the values of a dict, and facts of each entry from facts of each key.
use Prim.Native.Nat.{ℕ, ◌+◌, ◌≤◌}
use mathlib.Core.Path.{◌≡◌}
use mathlib.Core.Bool.{Bool, true, false}
use mathlib.Core.Option.{none, some}
use mathlib.Core.List.{[], ◌∷◌}
use native.Mathlib.Omega.{arith}
use storm_pulse.Base.Tests.{Eq}
use storm_pulse.Base.Dict.{Dict, get, put, remove}

abbrev pub bit : Bool → ℕ
bit true = 1
bit false = 0

module _ {κ ℓ} {K : Type κ} {V : Type ℓ} where
  -- sum(f(v) for v in d.values())
  unfoldable pub total : (V → ℕ) → Dict K V → ℕ
  total f [] = 0
  total f ((k, v) ∷ d) = f v + total f d

module _ {κ ℓ} {K : Type κ} {V : Type ℓ} ⦃e : Eq K⦄ (f : V → ℕ) where
  pub total-put :
      (k : K) (v w : V) (d : Dict K V)
      → get k d ≡ some w
      → total f (put k v d) + f w ≡ total f d + f v
  unfolding total get put
  total-put k v w [] h = absurd (ground arith)
  total-put k v w ((j, u) ∷ d) h = ground (arith, total-put k v w d)

  pub total-put-le : (k : K) (v : V) (d : Dict K V) → total f (put k v d) ≤ total f d + f v
  unfolding total put
  total-put-le k v [] = omega arith
  total-put-le k v ((j, u) ∷ d) = ground (arith, total-put-le k v d)

  pub total-put_new :
      (k : K) (v : V) (d : Dict K V) → get k d ≡ none → total f (put k v d) ≡ total f d + f v
  unfolding total get put
  total-put_new k v [] h = omega arith
  total-put_new k v ((j, u) ∷ d) h = ground (arith, total-put_new k v d)

  pub total-remove :
      (k : K) (w : V) (d : Dict K V) → get k d ≡ some w → total f (remove k d) + f w ≡ total f d
  unfolding total get remove
  total-remove k w [] h = absurd (ground arith)
  total-remove k w ((j, u) ∷ d) h = ground (arith, total-remove k w d)

  pub total-ge : (k : K) (w : V) (d : Dict K V) → get k d ≡ some w → f w ≤ total f d
  unfolding total get
  total-ge k w [] h = absurd (ground arith)
  total-ge k w ((j, u) ∷ d) h = ground (arith, total-ge k w d)

module _ {κ ℓ} {K : Type κ} {V : Type ℓ} where
  pub total_mono : (f g : V → ℕ) → ((v : V) → f v ≤ g v) → (d : Dict K V) → total f d ≤ total g d
  unfolding total
  total_mono f g le [] = omega arith
  total_mono f g le ((k, v) ∷ d) = omega (arith, le v, total_mono f g le d)
