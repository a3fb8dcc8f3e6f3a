-- ===== src/Jobs/Manager.antt =====
-- `JobManager` of stormpulse/commands/jobs.py as the store that its tasks, the dispatcher and
-- `shutdown_all` share. `_jobs` and `_job_command`, which are set and popped together, are one dict of
-- tasks; what asyncio keeps of a task is its phase. `ident` tells the tasks of one request id apart.
use storm_pulse.Base.{
  ltb, if◌then◌else◌, ◌==◌, string_eq, pair_eq, nat_eq, keep_if, elem, ℕ, suc, ◌+◌, ◌-◌, String,
  Bool, true, false, not, ◌&&◌, Option, none, some, List, [], ◌∷◌,
}
use storm_pulse.Base.Dict
use storm_pulse.Base.Dict.{Dict}
use storm_pulse.Base.Totals.{bit, total}
pub mod Steps
pub mod Effects
pub mod Invariant

-- For a permit (new, or parked between attempts); holding one in an attempt; holding one with the
-- terminal result committed; done.
pub data Phase : Type 0 where
  waiting working sending finished : Phase

pub record Task : Type 0 where
  pub ident : ℕ
  pub command : String
  pub phase : Phase
  pub cancelled : Bool

-- The terminal messages given to `send`; what the task was for is its identity, or none was accepted.
pub data Output : Type 0 where
  result : ℕ → String → Output
  cancellation : ℕ → String → Output
  overloaded : String → Output

pub record Manager : Type 0 where
  pub jobs : Dict String Task
  pub permits : ℕ
  pub running : ℕ
  pub quota_running : ℕ
  pub quota_rejected : ℕ
  pub terminal_attempts : List String
  pub closing : Bool
  -- `_shutdown_lock`, and the cancellations its holder has still to send
  pub settling : Bool
  pub owed : List (String × ℕ)
  pub next : ℕ
  pub sent : List Output

abbrev pub max_concurrent_jobs : ℕ
max_concurrent_jobs = 6

abbrev pub quota_command : String
quota_command = "garage_bucket_set_quota"

abbrev pub new_manager : Manager
new_manager = record {
  jobs = [];
  permits = max_concurrent_jobs;
  running = 0;
  quota_running = 0;
  quota_rejected = 0;
  terminal_attempts = [];
  closing = false;
  settling = false;
  owed = [];
  next = 0;
  sent = [];
}

abbrev pub is_done : Phase → Bool
is_done finished = true
is_done phase = false

abbrev pub is_active : Task → Bool
is_active t = not (is_done t.phase)

abbrev pub is_quota : Task → Bool
is_quota t = t.command == quota_command

abbrev running_task : Option Task → Bool
running_task none = false
running_task (some t) = is_active t

unfoldable pub is_running : String → Manager → Bool
is_running request_id m = running_task (Dict.get request_id m.jobs)

unfoldable pub active_count : Manager → ℕ
active_count m = total (λ t. bit (is_active t)) m.jobs

unfoldable pub quota_pending : Manager → ℕ
quota_pending m = total (λ t. bit (is_active t && is_quota t)) m.jobs

-- The snapshot of the metrics push.
pub record Load : Type 0 where
  pub pending : ℕ
  pub running : ℕ
  pub quota_pending : ℕ
  pub quota_running : ℕ
  pub quota_rejected : ℕ

unfoldable pub load : Manager → Load
load m = record {
  pending = active_count m;
  running = m.running;
  quota_pending = quota_pending m;
  quota_running = m.quota_running;
  quota_rejected = m.quota_rejected;
}

unfoldable pub quota_admission_open : Manager → Bool
quota_admission_open m = not m.closing && ltb (quota_pending m) max_concurrent_jobs

unfoldable pub should_shed_quota : String → Manager → Bool
should_shed_quota command m = command == quota_command && not (quota_admission_open m)

unfoldable pub reject_quota_overloaded : String → Manager → Manager
reject_quota_overloaded request_id m = record m {
  quota_rejected = m.quota_rejected + 1;
  sent = overloaded request_id ∷ m.sent;
}

-- `start` raises JobManagerClosing, or ValueError on a request id that runs, or creates the task.
pub data Started : Type 0 where
  manager_closing already_running : Started
  accepted : Manager → Started

abbrev pub discard : String → List String → List String
discard request_id = keep_if (λ r. not (r == request_id))

abbrev pub new_task : String → Manager → Task
new_task command m = record {
  ident = m.next;
  command = command;
  phase = waiting;
  cancelled = false;
}

abbrev pub with_task : String → String → Manager → Manager
with_task request_id command m = record m {
  jobs = Dict.put request_id (new_task command m) m.jobs;
  terminal_attempts = discard request_id m.terminal_attempts;
  next = suc m.next;
}

unfoldable pub start : String → String → Manager → Started
unfolding is_running
start request_id command m =
    if m.closing
    then manager_closing
    else if is_running request_id m
    then already_running
    else accepted (with_task request_id command m)

abbrev pub without_task : String → Manager → Manager
without_task request_id m = record m {
  jobs = Dict.remove request_id m.jobs;
  terminal_attempts = discard request_id m.terminal_attempts;
}

abbrev reaped : String → ℕ → Option Task → Manager → Manager
reaped request_id ident none m = m
reaped request_id ident (some t) m = if t.ident == ident then without_task request_id m else m

-- `_finish_job`, the callback of a task that is done: `ident` is that task
unfoldable pub finish_job : String → ℕ → Manager → Manager
finish_job request_id ident m = reaped request_id ident (Dict.get request_id m.jobs) m

abbrev pub as_phase : Task → Phase → Task
as_phase t phase = record t { phase = phase }

-- `_permit`: entered and left by the task of a request
unfoldable pub enter_permit : String → Task → Manager → Manager
enter_permit request_id t m = record m {
  jobs = Dict.put request_id (as_phase t working) m.jobs;
  permits = m.permits - 1;
  running = m.running + 1;
  quota_running = m.quota_running + bit (is_quota t);
}

unfoldable pub leave_permit : String → Task → Phase → Manager → Manager
leave_permit request_id t phase m = record m {
  jobs = Dict.put request_id (as_phase t phase) m.jobs;
  permits = m.permits + 1;
  running = m.running - 1;
  quota_running = m.quota_running - bit (is_quota t);
}

-- `_send_result`, up to the send
unfoldable pub commit_result : String → Task → Manager → Manager
commit_result request_id t m = record m {
  jobs = Dict.put request_id (as_phase t sending) m.jobs;
  terminal_attempts = request_id ∷ discard request_id m.terminal_attempts;
  sent = result t.ident request_id ∷ m.sent;
}

-- A task cancelled before it had a permit again.
unfoldable pub abandon : String → Task → Manager → Manager
abandon request_id t m = record m { jobs = Dict.put request_id (as_phase t finished) m.jobs }

abbrev pub cancel : Task → Task
cancel t = if is_active t then record t { cancelled = true } else t

abbrev pub cancel_all : Dict String Task → Dict String Task
cancel_all [] = []
cancel_all ((r, t) ∷ jobs) = (r, cancel t) ∷ cancel_all jobs

-- the requests that `shutdown_all` tells of a cancellation
abbrev pub unresolved : List String → Dict String Task → List (String × ℕ)
unresolved attempted [] = []
unresolved attempted ((r, t) ∷ jobs) =
    let rest = unresolved attempted jobs in
    if is_active t && not (elem r attempted) then (r, t.ident) ∷ rest else rest

-- `shutdown_all` is three parts: before its lock, from the lock to `gather`, and after. `has_reason`
-- is whether it was given a reason, without which no cancellation is sent.
unfoldable pub close_admission : Manager → Manager
close_admission m = record m { closing = true }

unfoldable pub settle : Bool → Manager → Manager
settle has_reason m = record m {
  jobs = cancel_all m.jobs;
  settling = true;
  owed = if has_reason then unresolved m.terminal_attempts m.jobs else [];
}

-- what `gather` waits for
unfoldable pub is_gathered : Manager → Bool
is_gathered m = total (λ t. bit (t.cancelled && is_active t)) m.jobs == 0

abbrev pub tell_next : List (String × ℕ) → Manager → Manager
tell_next [] m = record m { settling = false }
tell_next ((r, ident) ∷ rest) m = record m { owed = rest; sent = cancellation ident r ∷ m.sent }

unfoldable pub tell : Manager → Manager
tell m = tell_next m.owed m
