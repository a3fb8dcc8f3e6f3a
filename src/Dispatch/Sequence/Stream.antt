-- ===== src/Dispatch/Sequence/Stream.antt =====
-- The results that a sequence streams (stormpulse/agent/dispatch.py): their order, and where they end.
use storm_pulse.Base.{
  if◌then◌else◌, Bool-cases, ◌==◌, string_eq, pair_eq, nat_eq, ℕ, suc, ◌≤◌, String, ◌≡◌, refl, ◌⊎◌,
  inl, inr, Bool, true, false, not, ◌&&◌, Option, none, some, List, [], ◌∷◌, ◌++◌, map, arith,
}
use storm_pulse.Protocol.Reasons.{FailureReason}
use storm_pulse.Protocol.Results.{CommandResult}
use storm_pulse.Commands.Spec.{CommandSpec}
use storm_pulse.Commands.Registry.Execution.{
  run_raised, Execution, completed, not_admitted, invalid_params, unknown_placeholder,
}
use storm_pulse.Signoff.Admission.{Emitted}
use storm_pulse.Dispatch.{
  acknowledges_push, events_nacked, Effect, send, error_frame, emitted, signature_failure, executes,
  refreshes, starts_job, metrics_push, Handled, done, protocol_error, raised, Agent, Texts, World,
}
use storm_pulse.Dispatch.Single.{before}
use storm_pulse.Dispatch.Single.Effects.{effects_of}
use storm_pulse.Dispatch.Sequence.{stamp, stopping, step_failure, after_step}

-- Each result carries the sequence's id and the next index; after a failure that stops there is none.
abbrev pub IsStream : String → Bool → ℕ → List Effect → Type 0
IsStream sequence_id stop k [] = Unit
IsStream sequence_id stop k (send r ∷ es) =
    (r.sequence_id ≡ some sequence_id)
    × (r.step_index ≡ some k)
    × ((stop && not r.success) ≡ true → es ≡ [])
    × IsStream sequence_id stop (suc k) es
IsStream sequence_id stop k (e ∷ es) = IsStream sequence_id stop k es

abbrev pub results : List Effect → ℕ
results [] = 0
results (send r ∷ es) = suc (results es)
results (e ∷ es) = results es

-- the last result is a failure
abbrev pub ends_in_failure : List Effect → Bool
ends_in_failure [] = false
ends_in_failure (send r ∷ es) = if results es == 0 then not r.success else ends_in_failure es
ends_in_failure (e ∷ es) = ends_in_failure es

-- Of `n` steps each has its result, or the last result is a failure.
abbrev pub IsComplete : ℕ → Handled → Type 0
IsComplete n (done es) = (results es ≡ n) ⊎ (ends_in_failure es ≡ true)
IsComplete n (protocol_error es e) = ⊥
IsComplete n (raised es) = Unit

pub record IsStreamed (sequence_id : String) (stop : Bool) (k n : ℕ) (h : Handled) : Type 0 where
  pub stream : IsStream sequence_id stop k (effects_of h)
  pub few : results (effects_of h) ≤ n
  pub complete : IsComplete n h

module _ (sequence_id : String) (stop : Bool) where
  pub emitted-IsStream :
      (k : ℕ) (events : List Emitted) (es : List Effect)
      → IsStream sequence_id stop k es
      → IsStream sequence_id stop k (map emitted events ++ es)
  emitted-IsStream k [] es h = h
  emitted-IsStream k (x ∷ events) es h = emitted-IsStream k events es h

pub results-emitted :
    (events : List Emitted) (es : List Effect) → results (map emitted events ++ es) ≡ results es
results-emitted [] es = refl
results-emitted (x ∷ events) es = results-emitted events es

pub ends-emitted :
    (events : List Emitted) (es : List Effect)
    → ends_in_failure (map emitted events ++ es) ≡ ends_in_failure es
ends-emitted [] es = refl
ends-emitted (x ∷ events) es = ends-emitted events es

ends-results : (es : List Effect) → ends_in_failure es ≡ true → 1 ≤ results es
ends-results [] h = absurd (ground (arith, h))
ends-results (send r ∷ es) h = omega arith
ends-results (error_frame why t ∷ es) h = ends-results es h
ends-results (emitted x ∷ es) h = ends-results es h
ends-results (signature_failure why t ∷ es) h = ends-results es h
ends-results (executes c ∷ es) h = ends-results es h
ends-results (refreshes c ∷ es) h = ends-results es h
ends-results (starts_job c ∷ es) h = ends-results es h
ends-results (metrics_push ∷ es) h = ends-results es h
ends-results (acknowledges_push i ∷ es) h = ends-results es h
ends-results (events_nacked i n ∷ es) h = ends-results es h

one_more :
    (n : ℕ) (r : CommandResult) (es : List Effect)
    → IsComplete n (done es)
    → IsComplete (suc n) (done (send r ∷ es))
one_more n r es (inl every) = inl (omega (arith, every))
one_more n r es (inr last) = inr (ground (arith, last, ends-results es last))

module _ (sequence_id : String) (stop : Bool) (k n : ℕ) where
  pub emitted-IsStreamed :
      (events : List Emitted) (h : Handled)
      → IsStreamed sequence_id stop k n h
      → IsStreamed sequence_id stop k n (before (map emitted events) h)
  emitted-IsStreamed events (done es) s = record {
    stream = emitted-IsStream sequence_id stop k events es s.stream;
    few = rw (results-emitted events es) s.few;
    complete = rw (results-emitted events es, ends-emitted events es) s.complete;
  }
  emitted-IsStreamed events (protocol_error es e) s = absurd s.complete
  emitted-IsStreamed events (raised es) s = record {
    stream = emitted-IsStream sequence_id stop k events es s.stream;
    few = rw (results-emitted events es) s.few;
    complete = tt;
  }

  sent-IsStreamed :
      (r : CommandResult) (h : Handled)
      → r.sequence_id ≡ some sequence_id
      → r.step_index ≡ some k
      → (stop && not r.success) ≡ false
      → IsStreamed sequence_id stop (suc k) n h
      → IsStreamed sequence_id stop k (suc n) (before (send r ∷ []) h)
  sent-IsStreamed r (done es) named numbered on s = record {
    stream = (named, numbered, (λ h. absurd (cc h)), s.stream);
    few = omega (arith, s.few);
    complete = one_more n r es s.complete;
  }
  sent-IsStreamed r (protocol_error es e) named numbered on s = absurd s.complete
  sent-IsStreamed r (raised es) named numbered on s = record {
    stream = (named, numbered, (λ h. absurd (cc h)), s.stream);
    few = omega (arith, s.few);
    complete = tt;
  }

  pub stopping-IsStreamed :
      (r : CommandResult) (rest : Handled)
      → IsStreamed sequence_id stop (suc k) n rest
      → IsStreamed sequence_id stop k (suc n) (stopping stop (stamp sequence_id k r) rest)
  unfolding stamp
  stopping-IsStreamed r rest s = elim (Bool-cases (stop && not r.success)) [
    | inl halt ↦ rw halt (record {
      stream = (refl, refl, (λ h. refl), tt);
      few = omega arith;
      complete = inr (ground (arith, halt));
    })
    | inr on ↦ rw on (sent-IsStreamed (stamp sequence_id k r) rest refl refl on s)
  ]

module _ (texts : Texts) (agent : Agent) (sequence_id ref : String) (stop : Bool) (k n : ℕ)
    (world : World) (command : String) where
  step_failure-IsStreamed :
      (reason : FailureReason) (message : String) (o : Option CommandSpec) (rest : Handled)
      → IsStreamed sequence_id stop (suc k) n rest
      → IsStreamed sequence_id stop k
          (suc n)
          (step_failure texts agent sequence_id ref stop k world command reason message o rest)
  step_failure-IsStreamed reason message none rest s = record {
    stream = tt;
    few = omega arith;
    complete = tt;
  }
  step_failure-IsStreamed reason message (some spec) rest s =
      stopping-IsStreamed sequence_id stop k n _ rest s

  pub after_step-IsStreamed :
      (x : Execution) (rest : Handled)
      → IsStreamed sequence_id stop (suc k) n rest
      → IsStreamed sequence_id stop k
          (suc n)
          (after_step texts agent sequence_id ref stop k world command x rest)
  after_step-IsStreamed (completed r) rest s = stopping-IsStreamed sequence_id stop k n r rest s
  after_step-IsStreamed (not_admitted why) rest s = step_failure-IsStreamed why _ _ rest s
  after_step-IsStreamed (invalid_params e) rest s = step_failure-IsStreamed _ _ _ rest s
  after_step-IsStreamed unknown_placeholder rest s = record {
    stream = tt;
    few = omega arith;
    complete = tt;
  }
  after_step-IsStreamed run_raised rest s = record { stream = tt; few = omega arith; complete = tt }

pub executes-IsStreamed :
    (sequence_id : String) (stop : Bool) (k n : ℕ) (command : String) (h : Handled)
    → IsStreamed sequence_id stop k n h
    → IsStreamed sequence_id stop k n (before (executes command ∷ []) h)
executes-IsStreamed sequence_id stop k n command (done es) s = record {
  stream = s.stream;
  few = s.few;
  complete = s.complete;
}
executes-IsStreamed sequence_id stop k n command (protocol_error es e) s = absurd s.complete
executes-IsStreamed sequence_id stop k n command (raised es) s = record {
  stream = s.stream;
  few = s.few;
  complete = s.complete;
}
