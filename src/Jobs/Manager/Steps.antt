-- ===== src/Jobs/Manager/Steps.antt =====
-- What may happen next to the jobs of a connection (stormpulse/commands/jobs.py): each step is what one
-- task, the dispatcher or `shutdown_all` does between two awaits, in any order the event loop chooses.
use storm_pulse.Base.{string_eq, pair_eq, nat_eq, ℕ, ◌≤◌, String, ◌≡◌, Bool, true, false, some}
use storm_pulse.Base.Dict
use storm_pulse.Jobs.Manager.{
  Phase, waiting, working, sending, finished, Task, Manager, accepted, should_shed_quota,
  reject_quota_overloaded, start, finish_job, enter_permit, leave_permit, commit_result, abandon,
  close_admission, settle, is_gathered, tell,
}

abbrev pub task : ℕ → String → Phase → Bool → Task
task ident command phase cancelled = record {
  ident = ident;
  command = command;
  phase = phase;
  cancelled = cancelled;
}

abbrev pub HasTask : Manager → String → Task → Type 0
HasTask m r t = Dict.get r m.jobs ≡ some t

pub data Step (m : Manager) : Manager → Type 0 where
  -- `dispatch_long_running` on a command that passed its own checks
  shed :
      (r command : String)
      → should_shed_quota command m ≡ true
      → Step m (reject_quota_overloaded r m)
  accept :
      (r command : String) (n : Manager)
      → should_shed_quota command m ≡ false
      → start r command m ≡ accepted n
      → Step m n
  -- the semaphore gives a permit, which an attempt follows
  enter :
      (r : String) (i : ℕ) (c : String)
      → HasTask m r (task i c waiting false)
      → 1 ≤ m.permits
      → Step m (enter_permit r (task i c waiting false) m)
  -- or, past the window, the terminal result at once
  enter_late :
      (r : String) (i : ℕ) (c : String)
      → HasTask m r (task i c waiting false)
      → 1 ≤ m.permits
      → Step m
          (commit_result r (task i c working false) (enter_permit r (task i c waiting false) m))
  -- an attempt asks to run again, and is granted it
  park :
      (r : String) (i : ℕ) (c : String)
      → HasTask m r (task i c working false)
      → m.closing ≡ false
      → Step m (leave_permit r (task i c working false) waiting m)
  -- or its outcome is terminal
  commit :
      (r : String) (i : ℕ) (c : String) (x : Bool)
      → HasTask m r (task i c working x)
      → m.closing ≡ false
      → Step m (commit_result r (task i c working x) m)
  -- or the task ends without a result: closing, cancelled or stopped by an exception
  stop :
      (r : String) (i : ℕ) (c : String) (x : Bool)
      → HasTask m r (task i c working x)
      → Step m (leave_permit r (task i c working x) finished m)
  cancelled_waiting :
      (r : String) (i : ℕ) (c : String)
      → HasTask m r (task i c waiting true)
      → Step m (abandon r (task i c waiting true) m)
  -- the send and the on_success hook are over, or cancelled
  end :
      (r : String) (i : ℕ) (c : String) (x : Bool)
      → HasTask m r (task i c sending x)
      → Step m (leave_permit r (task i c sending x) finished m)
  -- the callback of a task that is done, be it still the one of its request id or not
  reap :
      (r : String) (i : ℕ)
      → ((t : Task) → HasTask m r t → t.ident ≡ i → t.phase ≡ finished)
      → Step m (finish_job r i m)
  close : Step m (close_admission m)
  cancel_jobs :
      (has_reason : Bool) → m.closing ≡ true → m.settling ≡ false → Step m (settle has_reason m)
  report : m.settling ≡ true → is_gathered m ≡ true → Step m (tell m)

pub data Reach (m : Manager) : Manager → Type 0 where
  here : Reach m m
  next : {n o : Manager} → Reach m n → Step n o → Reach m o
