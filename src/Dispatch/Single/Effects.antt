-- ===== src/Dispatch/Single/Effects.antt =====
-- What the handlers of a command (stormpulse/agent/dispatch.py) may set in motion, and their answers.
use storm_pulse.Base.{
  All, ℕ, ◌+◌, String, ◌≡◌, refl, ◌∙◌, true, Option, none, some, List, [], ◌∷◌, ◌++◌, map, arith,
}
use storm_pulse.Signoff.Admission.{Emitted}
use storm_pulse.Dispatch.{
  compatible, acknowledges_push, events_nacked, Effect, send, error_frame, emitted,
  signature_failure, executes, refreshes, starts_job, metrics_push, Handled, done, protocol_error,
  raised, Session,
}
use storm_pulse.Dispatch.Single.{before}

abbrev pub effects_of : Handled → List Effect
effects_of (done es) = es
effects_of (protocol_error es e) = es
effects_of (raised es) = es

-- `P` holds of each command that is executed, refreshed or accepted as a job.
abbrev pub Acts {ℓ} : (String → Type ℓ) → Effect → Type ℓ
Acts P (executes c) = P c
Acts P (refreshes c) = P c
Acts P (starts_job c) = P c
Acts P e = Unit

abbrev pub answer : Effect → ℕ
answer (send r) = 1
answer (starts_job c) = 1
answer e = 0

abbrev pub answers : List Effect → ℕ
answers [] = 0
answers (e ∷ es) = answer e + answers es

-- One result or one accepted job; where the handler raises instead, nothing before that.
abbrev pub IsAnswered : Handled → Type 0
IsAnswered (done es) = answers es ≡ 1
IsAnswered (protocol_error es e) = answers es ≡ 0
IsAnswered (raised es) = answers es ≡ 0

abbrev pub IsCompatible : Option Session → Type 0
IsCompatible none = ⊥
IsCompatible (some s) = compatible s ≡ true

-- both at once: `P` of what the handler does, and its answers
abbrev pub IsServed {ℓ} : (String → Type ℓ) → Handled → Type ℓ
IsServed P h = All (Acts P) (effects_of h) × IsAnswered h

Acts-emitted {ℓ} :
    (P : String → Type ℓ) (events : List Emitted) (es : List Effect)
    → All (Acts P) es
    → All (Acts P) (map emitted events ++ es)
Acts-emitted P [] es h = h
Acts-emitted P (e ∷ events) es h = (tt, Acts-emitted P events es h)

pub answers-emitted :
    (events : List Emitted) (es : List Effect) → answers (map emitted events ++ es) ≡ answers es
answers-emitted [] es = refl
answers-emitted (e ∷ events) es = omega (arith, answers-emitted events es)

pub emitted-IsServed {ℓ} :
    (P : String → Type ℓ) (events : List Emitted) (h : Handled)
    → IsServed P h
    → IsServed P (before (map emitted events) h)
emitted-IsServed P events (done es) s =
    (Acts-emitted P events es s.0, answers-emitted events es ∙ s.1)
emitted-IsServed P events (protocol_error es e) s =
    (Acts-emitted P events es s.0, answers-emitted events es ∙ s.1)
emitted-IsServed P events (raised es) s =
    (Acts-emitted P events es s.0, answers-emitted events es ∙ s.1)

act_mono {ℓ κ} :
    (P : String → Type ℓ) (Q : String → Type κ)
    → ((c : String) → P c → Q c)
    → (e : Effect) → Acts P e
    → Acts Q e
act_mono P Q f (executes c) h = f c h
act_mono P Q f (refreshes c) h = f c h
act_mono P Q f (starts_job c) h = f c h
act_mono P Q f (send r) h = tt
act_mono P Q f (error_frame why t) h = tt
act_mono P Q f (emitted x) h = tt
act_mono P Q f (signature_failure why t) h = tt
act_mono P Q f metrics_push h = tt
act_mono P Q f (acknowledges_push i) h = tt
act_mono P Q f (events_nacked i n) h = tt

pub Acts-map {ℓ κ} :
    (P : String → Type ℓ) (Q : String → Type κ)
    → ((c : String) → P c → Q c)
    → (es : List Effect) → All (Acts P) es
    → All (Acts Q) es
Acts-map P Q f [] h = tt
Acts-map P Q f (e ∷ es) h = (act_mono P Q f e h.0, Acts-map P Q f es h.1)
