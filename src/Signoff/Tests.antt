-- ===== src/Signoff/Tests.antt =====
-- The seal and the admission of stormpulse/signoff and stormpulse/agent on concrete histories.
use storm_pulse.Base.{
  if◌then◌else◌, ◌==◌, string_eq, pair_eq, nat_eq, elem, ℕ, String, ◌≡◌, refl, ◌↔◌, false, Option,
  none, some, List, [], ◌∷◌,
}
use storm_pulse.Base.Dict
use storm_pulse.Base.Dict.{Dict}
use storm_pulse.Commands.Spec.{CommandSpec, subprocess}
use storm_pulse.Commands.Registry.{apply_block_command, build_registry, update}
use storm_pulse.Signoff.{SignoffState, is_sealed}
use storm_pulse.Signoff.Crashes.{Act, seal_act, unseal_act, history, stands, history-is_sealed}
use storm_pulse.Signoff.Admission.{
  Wording, is_blocked_by_seal, needs_restart_to_load, first_unloaded, sealed, fenced,
  restart_pending, refusal_for,
}
use storm_pulse.Signoff.Admission.Gate.{IsAdmitted, refusal_for-IsAdmitted, hatch-is_sealed}

abbrev fresh : SignoffState
fresh = record { unsealed_at = none; sealed_file = false }

abbrev opened : SignoffState
opened = record { unsealed_at = some "2026-01-01"; sealed_file = false }

-- an unseal cut off after the marker, a seal cut off before its first step, and one cut off after it
abbrev acts : List (Act × ℕ)
acts =
    (unseal_act "2026-01-01", 1) ∷ (seal_act, 0) ∷ (unseal_act "2026-01-02", 2) ∷ (seal_act, 1) ∷ []

history-is_sealed_example : is_sealed (history fresh acts) ≡ stands (is_sealed fresh) acts
history-is_sealed_example = history-is_sealed fresh acts

abbrev words : Wording
words = record {
  sealed_text = "sealed";
  restart_text = "restart";
  fenced_text = λ command why. why;
}

-- the grant of "deploy" is withdrawn
abbrev grants : String → Option String
grants name = if name == "deploy" then some "revoked" else none

abbrev deploy : CommandSpec
deploy = record {
  group = "ext";
  command = "/bin/deploy" ∷ [];
  timeout = 30;
  mode = subprocess;
  sensitive_output = false;
  read_only = false;
  self_reconciling = false;
  handler = none;
  params = [];
  result = false;
  retry_window_s = none;
  authorize = some "deploy";
}

abbrev config : Dict String CommandSpec
config = ("deploy", deploy) ∷ []

refusal_for-IsAdmitted_example :
    ((refusal_for words grants "r1" "e1" fresh config apply_block_command).0 ≡ none)
    ↔ IsAdmitted grants fresh config apply_block_command
refusal_for-IsAdmitted_example =
    refusal_for-IsAdmitted words grants "r1" "e1" fresh config apply_block_command

hatch-is_sealed_example :
    (is_sealed opened ≡ false) × (false ≡ false) × (elem apply_block_command [] ≡ false)
hatch-is_sealed_example =
    hatch-is_sealed words grants "r1" "e1" opened config [] false apply_block_command
      (unfold Dict.has in (refl, tt)) refl
      (unfold refusal_for sealed fenced restart_pending is_blocked_by_seal is_sealed
          needs_restart_to_load first_unloaded build_registry update Dict.put Dict.get Dict.has in
        refl)
