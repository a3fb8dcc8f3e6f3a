-- ===== src/Signoff.antt =====
-- The seal of stormpulse/signoff/__init__.py: two files beside the nonce store, changed step by step. A
-- missing directory is made on the way, which changes neither file.
use storm_pulse.Base.{
  if◌then◌else◌, String, Bool, true, false, not, Option, none, some, List, [], ◌∷◌,
}
use storm_pulse.Commands.Spec.{is_some}
pub mod Crashes
pub mod Admission
mod Tests

-- signoff.unsealed_at with its text, and whether signoff.sealed is there
pub record SignoffState : Type 0 where
  pub unsealed_at : Option String
  pub sealed_file : Bool

unfoldable pub is_sealed : SignoffState → Bool
is_sealed s = not (is_some s.unsealed_at)

pub data FileStep : Type 0 where
  unlink_marker touch_seal unlink_seal : FileStep
  write_marker : String → FileStep

unfoldable pub apply_step : SignoffState → FileStep → SignoffState
apply_step s unlink_marker = record s { unsealed_at = none }
apply_step s touch_seal = record s { sealed_file = true }
apply_step s unlink_seal = record s { sealed_file = false }
apply_step s (write_marker now) = record s { unsealed_at = some now }

unfoldable pub apply_steps : SignoffState → List FileStep → SignoffState
apply_steps s [] = s
apply_steps s (step ∷ steps) = apply_steps (apply_step s step) steps

-- the file operations of `seal`, in order
abbrev pub seal_steps : List FileStep
seal_steps = unlink_marker ∷ touch_seal ∷ []

-- the file operations of `unseal`, in order: none on an open agent
abbrev pub unseal_steps : SignoffState → String → List FileStep
unseal_steps s now = if is_sealed s then write_marker now ∷ unlink_seal ∷ [] else []

unfoldable pub seal : SignoffState → SignoffState × Bool
unfolding apply_steps apply_step
seal s = (apply_steps s seal_steps, not (is_sealed s))

unfoldable pub unseal : SignoffState → String → SignoffState × Bool
unfolding apply_steps apply_step is_sealed
unseal s now = (apply_steps s (unseal_steps s now), is_sealed s)
