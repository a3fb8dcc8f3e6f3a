-- ===== src/Jobs/Manager/Invariant.antt =====
-- What every step of the manager keeps (stormpulse/commands/jobs.py).
use storm_pulse.Base.{
  ◌==◌, string_eq, pair_eq, nat_eq, elem, ℕ, ◌+◌, ◌≤◌, String, ◌≡◌, Bool, true, false, not, ◌&&◌,
  some, List, [], ◌∷◌,
}
use storm_pulse.Base.Dict
use storm_pulse.Base.Totals.{bit, total}
use storm_pulse.Jobs.Manager.{
  Phase, waiting, working, sending, finished, Task, Output, result, cancellation, overloaded,
  Manager, max_concurrent_jobs, quota_command, is_active, is_quota, quota_pending,
}
pub mod Moves
pub mod Bounds
pub mod Once
pub mod Shutdown
pub mod Answered

abbrev pub is_holding : Phase → Bool
is_holding working = true
is_holding sending = true
is_holding phase = false

abbrev pub holds : Task → ℕ
holds t = bit (is_holding t.phase)

abbrev pub quota_holds : Task → ℕ
quota_holds t = bit (is_holding t.phase && is_quota t)

abbrev pub quota_counts : Task → ℕ
quota_counts t = bit (is_active t && is_quota t)

abbrev pub counted_as : ℕ → Task → ℕ
counted_as i t = bit (t.ident == i)

abbrev pub is_before_result : Phase → Bool
is_before_result waiting = true
is_before_result working = true
is_before_result phase = false

-- task `i` may still commit a result, or be told of as cancelled
abbrev pub may_answer : ℕ → Task → ℕ
may_answer i t = bit (t.ident == i && is_before_result t.phase && not t.cancelled)

abbrev pub stale : Task → ℕ
stale t = bit (t.cancelled && is_active t)

abbrev pub answers : ℕ → Output → ℕ
answers i (result j r) = bit (j == i)
answers i (cancellation j r) = bit (j == i)
answers i (overloaded r) = 0

-- how many messages told, or are about to tell, how task `i` ended
abbrev pub answered : ℕ → List Output → ℕ
answered i [] = 0
answered i (o ∷ os) = answers i o + answered i os

abbrev pub due : ℕ → List (String × ℕ) → ℕ
due i [] = 0
due i ((r, j) ∷ owed) = bit (j == i) + due i owed

-- The permits: who holds one, and how many quota jobs are there.
pub record IsBounded (m : Manager) : Type 0 where
  pub permitted : m.permits + m.running ≡ max_concurrent_jobs
  pub held : m.running ≡ total holds m.jobs
  pub quota_held : m.quota_running ≡ total quota_holds m.jobs
  pub quota_limit : quota_pending m ≤ max_concurrent_jobs

-- The answers: no task has more than one.
pub record IsOnce (m : Manager) : Type 0 where
  pub distinct : Dict.IsDict m.jobs
  pub once : (i : ℕ) → answered i m.sent + due i m.owed + total (may_answer i) m.jobs ≤ 1
  pub fresh :
      (i : ℕ) → m.next ≤ i → answered i m.sent + due i m.owed + total (counted_as i) m.jobs ≡ 0
  pub unstale : m.settling ≡ false → total stale m.jobs ≡ 0
  pub closed : m.settling ≡ true → m.closing ≡ true
  pub paid : m.settling ≡ false → m.owed ≡ []
  pub marked :
      (r : String) (t : Task)
      → Dict.get r m.jobs ≡ some t
      → t.phase ≡ sending
      → elem r m.terminal_attempts ≡ true
