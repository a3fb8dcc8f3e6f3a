-- ===== src/Base/Dict.antt =====
-- Python's `dict` as the list of its items in insertion order: an assignment to a key that is
-- there keeps the key's place, a new key goes to the end.
use mathlib.Core.Path.{◌≡◌, refl}
use mathlib.Core.Bool.{Bool, true, false, ◌||◌}
use mathlib.Core.Option.{Option, none, some}
use mathlib.Core.List.{List, [], ◌∷◌}
use native.Mathlib.Omega.{arith}
use mathlib.Core.Logic.{inl, inr}
use storm_pulse.Base.Tests.{Eq, beq_refl, ◌==◌, if◌then◌else◌, Bool-cases}
use storm_pulse.Base.Lists.{keep_if}

abbrev pub Dict {κ ℓ} : Type κ → Type ℓ → Type (κ ⊔ ℓ)
Dict K V = List (K × V)

module _ {κ ℓ} {K : Type κ} {V : Type ℓ} ⦃e : Eq K⦄ where
  -- d.get(k)
  unfoldable pub get : K → Dict K V → Option V
  get k [] = none
  get k ((j, v) ∷ d) = if j == k then some v else get k d

  -- k in d
  unfoldable pub has : K → Dict K V → Bool
  has k [] = false
  has k ((j, v) ∷ d) = j == k || has k d

  -- d[k] = v
  unfoldable pub put : K → V → Dict K V → Dict K V
  put k v [] = (k, v) ∷ []
  put k v ((j, w) ∷ d) = if j == k then (j, v) ∷ d else (j, w) ∷ put k v d

  -- d.pop(k, None), the dict that stays
  unfoldable pub remove : K → Dict K V → Dict K V
  remove k [] = []
  remove k ((j, v) ∷ d) = if j == k then d else (j, v) ∷ remove k d

  pub get-put :
      (k j : K) (v : V) (d : Dict K V) → get j (put k v d) ≡ (if k == j then some v else get j d)
  unfolding get put
  get-put k j v [] = refl
  get-put k j v ((i, w) ∷ d) =
      ground (arith, e.beq_iff k j, e.beq_iff i k, e.beq_iff i j, get-put k j v d)

  pub has-put : (k j : K) (v : V) (d : Dict K V) → has j (put k v d) ≡ (k == j || has j d)
  unfolding has put
  has-put k j v [] = refl
  has-put k j v ((i, w) ∷ d) =
      ground (arith, e.beq_iff k j, e.beq_iff i k, e.beq_iff i j, has-put k j v d)

  pub get-remove_ne : (k j : K) (d : Dict K V) → (k == j) ≡ false → get j (remove k d) ≡ get j d
  unfolding get remove
  get-remove_ne k j [] h = refl
  get-remove_ne k j ((i, w) ∷ d) h =
      ground (arith, e.beq_iff k j, e.beq_iff i k, e.beq_iff i j, get-remove_ne k j d h)

  pub has-get : (k : K) (v : V) (d : Dict K V) → get k d ≡ some v → has k d ≡ true
  unfolding has get
  has-get k v [] h = ground arith
  has-get k v ((i, w) ∷ d) h = ground (arith, has-get k v d)

  pub no_entry-get : (k : K) (d : Dict K V) → get k d ≡ none → has k d ≡ false
  unfolding has get
  no_entry-get k [] h = refl
  no_entry-get k ((i, w) ∷ d) h = ground (arith, no_entry-get k d)

  -- The keys are distinct: what a dict has by construction.
  abbrev pub IsDict : Dict K V → Type 0
  IsDict [] = Unit
  IsDict ((k, v) ∷ d) = (has k d ≡ false) × IsDict d

  pub put-IsDict : (k : K) (v : V) (d : Dict K V) → IsDict d → IsDict (put k v d)
  unfolding put has
  put-IsDict k v [] h = (refl, tt)
  put-IsDict k v ((i, w) ∷ d) h =
      ground (arith, e.beq_iff i k, e.beq_iff k i, has-put k i v d, put-IsDict k v d h.1)

  pub has-remove_le : (k j : K) (d : Dict K V) → has j d ≡ false → has j (remove k d) ≡ false
  unfolding remove has
  has-remove_le k j [] h = refl
  has-remove_le k j ((i, w) ∷ d) h = ground (arith, has-remove_le k j d)

  pub remove-IsDict : (k : K) (d : Dict K V) → IsDict d → IsDict (remove k d)
  unfolding remove
  remove-IsDict k [] h = h
  remove-IsDict k ((i, w) ∷ d) h = ground (arith, has-remove_le k i d, remove-IsDict k d h.1)

  pub has-remove_self : (k : K) (d : Dict K V) → IsDict d → has k (remove k d) ≡ false
  unfolding remove has
  has-remove_self k [] h = refl
  has-remove_self k ((i, w) ∷ d) h = ground (arith, e.beq_iff i k, has-remove_self k d h.1)

  pub no_entry : (k : K) (d : Dict K V) → has k d ≡ false → get k d ≡ none
  unfolding has get
  no_entry k [] h = refl
  no_entry k ((j, v) ∷ d) h = ground (arith, no_entry k d)

  -- {k: v for k, v in d.items() if p(k)}
  pub get-keep_if :
      (p : K → Bool) (k : K) (d : Dict K V)
      → get k (keep_if (λ item. p item.0) d) ≡ (if p k then get k d else none)
  unfolding get
  get-keep_if p k [] = ground arith
  get-keep_if p k ((j, v) ∷ d) = elim (Bool-cases (j == k)) [
    | inl h ↦
        let same = (e.beq_iff j k).0 h in rw same (ground (arith, get-keep_if p k d, e.beq_iff k k))
    | inr h ↦ ground (arith, get-keep_if p k d)
  ]

  pub get-cons :
      (k j : K) (v w : V) (d : Dict K V)
      → has k d ≡ false
      → get j d ≡ some w
      → get j ((k, v) ∷ d) ≡ some w
  unfolding get
  get-cons k j v w d h g = let found = has-get j w d g in ground (arith, e.beq_iff k j, h, found)

  pub get-head : (k : K) (v : V) (d : Dict K V) → get k ((k, v) ∷ d) ≡ some v
  unfolding get
  get-head k v d = rw (beq_refl k) refl
