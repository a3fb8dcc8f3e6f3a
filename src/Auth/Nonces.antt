-- ===== src/Auth/Nonces.antt =====
-- The nonce store of stormpulse/auth.py: what a purge drops and what `check_and_store` remembers.
use storm_pulse.Base.{
  Bool-cases, nat_eq, string_eq, pair_eq, ℕ, ◌+◌, ◌≤◌, ◌<◌, String, ◌≡◌, refl, inl, inr, false,
  none, some, [], ◌∷◌, arith, eq_iff,
}
use storm_pulse.Base.Dict
use storm_pulse.Base.Dict.{Dict, IsDict, put-IsDict, get-put, has-put, no_entry-get}
use storm_pulse.Auth.{NonceStore, purge, check_and_store, skew_tolerance}

-- A row that is not yet due stays, with its time.
pub get-purge :
    (now max_age : ℕ) (n : String) (s : ℕ) (rows : NonceStore)
    → Dict.get n rows ≡ some s
    → now ≤ s + max_age + skew_tolerance
    → Dict.get n (purge now max_age rows) ≡ some s
unfolding purge Dict.get
get-purge now max_age n s [] h p = absurd (cc)
get-purge now max_age n s ((m, t) ∷ rows) h p =
    ground (arith, eq_iff m n, get-purge now max_age n s rows)

has-purge :
    (now max_age : ℕ) (n : String) (rows : NonceStore)
    → Dict.has n rows ≡ false
    → Dict.has n (purge now max_age rows) ≡ false
unfolding purge Dict.has
has-purge now max_age n [] h = refl
has-purge now max_age n ((m, t) ∷ rows) h = ground (arith, has-purge now max_age n rows)

-- A row that is due is dropped.
pub has-purge_due :
    (now max_age : ℕ) (n : String) (s : ℕ) (rows : NonceStore)
    → IsDict rows
    → Dict.get n rows ≡ some s
    → s + max_age + skew_tolerance < now
    → Dict.has n (purge now max_age rows) ≡ false
unfolding purge Dict.get Dict.has
has-purge_due now max_age n s [] d h p = refl
has-purge_due now max_age n s ((m, t) ∷ rows) d h p =
    ground (arith, eq_iff m n, has-purge_due now max_age n s rows d.1, has-purge now max_age n rows)

pub purge-IsDict :
    (now max_age : ℕ) (rows : NonceStore) → IsDict rows → IsDict (purge now max_age rows)
unfolding purge
purge-IsDict now max_age [] d = d
purge-IsDict now max_age ((m, t) ∷ rows) d =
    ground (arith, has-purge now max_age m rows, purge-IsDict now max_age rows d.1)

module _ (store store' : NonceStore) (nonce : String) (max_age purged_at stored_at : ℕ)
    (done : check_and_store store nonce max_age purged_at stored_at ≡ some store') where
  -- A stored nonce was not among the rows that the purge left, and is found at its time.
  pub check_and_store-new :
      (Dict.has nonce (purge purged_at max_age store) ≡ false)
      × (Dict.get nonce store' ≡ some stored_at)
  unfolding check_and_store
  check_and_store-new = elim (Bool-cases (Dict.has nonce (purge purged_at max_age store))) [
    | inl e ↦ absurd (ground arith)
    | inr e ↦ (
      e,
      ground (
        arith,
        eq_iff nonce nonce,
        get-put nonce nonce stored_at (purge purged_at max_age store),
      ),
    )
  ]

  -- Every other nonce that is not due keeps its time.
  pub check_and_store-other :
      (n : String) (s : ℕ)
      → Dict.get n store ≡ some s
      → purged_at ≤ s + max_age + skew_tolerance
      → Dict.get n store' ≡ some s
  unfolding check_and_store
  check_and_store-other n s h p =
      let kept = get-purge purged_at max_age n s store h p in
      elim (Bool-cases (Dict.has nonce (purge purged_at max_age store))) [
        | inl e ↦ absurd (ground arith)
        | inr e ↦ ground (
          arith,
          kept,
          eq_iff nonce n,
          get-put nonce n stored_at (purge purged_at max_age store),
          Dict.has-get n s (purge purged_at max_age store) kept,
        )
      ]

  pub check_and_store-IsDict : IsDict store → IsDict store'
  unfolding check_and_store
  check_and_store-IsDict d = ground (
    arith,
    put-IsDict nonce stored_at (purge purged_at max_age store)
        (purge-IsDict purged_at max_age store d),
  )

-- A nonce that was seen and is not yet due is refused.
pub check_and_store-seen :
    (store : NonceStore) (nonce : String) (s max_age purged_at stored_at : ℕ)
    → Dict.get nonce store ≡ some s
    → purged_at ≤ s + max_age + skew_tolerance
    → check_and_store store nonce max_age purged_at stored_at ≡ none
unfolding check_and_store
check_and_store-seen store nonce s max_age purged_at stored_at h p = rw (
    Dict.has-get nonce s (purge purged_at max_age store)
      (get-purge purged_at max_age nonce s store h p))

-- A nonce that was seen and is due is taken again.
pub check_and_store-due :
    (store : NonceStore) (nonce : String) (s max_age purged_at stored_at : ℕ)
    → IsDict store
    → Dict.get nonce store ≡ some s
    → s + max_age + skew_tolerance < purged_at
    → (store' : NonceStore) × (check_and_store store nonce max_age purged_at stored_at
        ≡ some store')
unfolding check_and_store
check_and_store-due store nonce s max_age purged_at stored_at d h p = (
  Dict.put nonce stored_at (purge purged_at max_age store),
  rw (has-purge_due purged_at max_age nonce s store d h p),
)
