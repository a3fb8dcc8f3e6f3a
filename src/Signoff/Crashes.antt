-- ===== src/Signoff/Crashes.antt =====
-- The seal of stormpulse/signoff/__init__.py over histories, crashes included.
use storm_pulse.Base.{
  if◌then◌else◌, take, ℕ, zero, suc, String, ◌≡◌, refl, ◌∙◌, Bool, true, false, none, some, List,
  [], ◌∷◌,
}
use storm_pulse.Signoff.{
  SignoffState, is_sealed, apply_step, apply_steps, seal_steps, unseal_steps, write_marker,
  unlink_seal,
}

-- An operation of the operator, and how many of its file steps were made before the process ended.
pub data Act : Type 0 where
  seal_act : Act
  unseal_act : String → Act

unfoldable pub steps_made : SignoffState → Act → ℕ → SignoffState
unfolding apply_steps apply_step is_sealed
steps_made s seal_act n = apply_steps s (take n seal_steps)
steps_made s (unseal_act now) n = apply_steps s (take n (unseal_steps s now))

unfoldable pub history : SignoffState → List (Act × ℕ) → SignoffState
unfolding steps_made
history s [] = s
history s ((act, n) ∷ acts) = history (steps_made s act n) acts

abbrev pub is_sealing : Act → Bool
is_sealing seal_act = true
is_sealing (unseal_act now) = false

-- The seal by its latest operation that made a step at all.
abbrev pub stands : Bool → List (Act × ℕ) → Bool
stands sealed [] = sealed
stands sealed ((act, zero) ∷ acts) = stands sealed acts
stands sealed ((act, suc n) ∷ acts) = stands (is_sealing act) acts

take-nil : (n : ℕ) (s : SignoffState) → apply_steps s (take n []) ≡ s
unfolding apply_steps
take-nil zero s = refl
take-nil (suc n) s = refl

steps_made-none : (s : SignoffState) (act : Act) → steps_made s act 0 ≡ s
unfolding steps_made
steps_made-none s seal_act = refl
steps_made-none s (unseal_act now) = refl

opened :
    (s : SignoffState) (now : String) (n : ℕ) (sealed : Bool)
    → is_sealed s ≡ sealed
    → is_sealed
        (apply_steps s (take (suc n) (if sealed then write_marker now ∷ unlink_seal ∷ [] else [])))
      ≡ false
unfolding apply_steps apply_step is_sealed
opened s now zero true e = refl
opened s now (suc n) true e =
    rw (take-nil n (record { unsealed_at = some now; sealed_file = false })) refl
opened s now n false e = e

steps_made-some :
    (s : SignoffState) (act : Act) (n : ℕ) → is_sealed (steps_made s act (suc n)) ≡ is_sealing act
unfolding steps_made is_sealed
steps_made-some s seal_act zero = refl
steps_made-some s seal_act (suc n) =
    rw (take-nil n (record { unsealed_at = none; sealed_file = true })) refl
steps_made-some s (unseal_act now) n = opened s now n (is_sealed s) refl

-- Over any history of seals and unseals, each cut off after any number of its file steps, the agent is
-- sealed exactly as its latest operation that made a step says: no crash leaves a third state, and a
-- seal that has begun is in force.
pub history-is_sealed :
    (s : SignoffState) (acts : List (Act × ℕ))
    → is_sealed (history s acts) ≡ stands (is_sealed s) acts
unfolding history
history-is_sealed s [] = refl
history-is_sealed s ((act, zero) ∷ acts) =
    rw (history, steps_made-none s act) (history-is_sealed s acts)
history-is_sealed s ((act, suc n) ∷ acts) =
    history-is_sealed (steps_made s act (suc n)) acts ∙ rw (steps_made-some s act n) refl
