-- ===== src/Jobs/Manager/Invariant/Bounds.antt =====
-- At most six jobs hold a permit, and at most six quota jobs are accepted (stormpulse/commands/jobs.py).
use storm_pulse.Jobs.Manager.Effects.{HasTask-enter, total-new, start-accepted, finish_job-cases}
use storm_pulse.Base.{
  string_eq, ℕ, ◌≤◌, String, ◌≡◌, refl, inl, inr, Bool, false, List, [], ◌∷◌, arith,
}
use storm_pulse.Base.Dict.{Dict}
use storm_pulse.Base.Totals.{bit, total_mono, total-remove, total}
use storm_pulse.Jobs.Manager.{
  is_active, active_count, load, close_admission, reject_quota_overloaded, new_manager, tell,
  without_task, new_task, quota_admission_open, cancel_all, tell_next, cancel, finish_job, settle,
  should_shed_quota, with_task, finished, sending, is_running, waiting, working, Task, Manager,
  quota_pending, enter_permit,
}
use storm_pulse.Jobs.Manager.Steps.{
  Step, shed, accept, enter, enter_late, park, commit, stop, cancelled_waiting, end, reap, close,
  cancel_jobs, report, task, HasTask, Reach, here, next,
}
use storm_pulse.Jobs.Manager.Invariant.{holds, quota_holds, quota_counts, IsBounded}
use storm_pulse.Jobs.Manager.Invariant.Moves.{
  abandon-Moves, commit-Moves, enter-Moves, leave-Moves, put-IsBounded,
}

accept-IsBounded :
    (m : Manager) (r c : String)
    → IsBounded m
    → should_shed_quota c m ≡ false
    → m.closing ≡ false
    → is_running r m ≡ false
    → IsBounded (with_task r c m)
unfolding quota_pending should_shed_quota quota_admission_open
accept-IsBounded m r c bounded kept running idle =
    let u = new_task c m in
    record {
      permitted = bounded.permitted;
      held = omega (arith, bounded.held, total-new holds (λ t h. ground (arith, h)) m r u idle);
      quota_held =
          omega (
            arith,
            bounded.quota_held,
            total-new quota_holds (λ t h. ground (arith, h)) m r u idle,
          );
      quota_limit = ground (
        arith,
        kept,
        running,
        bounded.quota_limit,
        total-new quota_counts (λ t h. ground (arith, h)) m r u idle,
      );
    }

without-IsBounded :
    (m : Manager) (r : String) (t : Task)
    → IsBounded m
    → HasTask m r t
    → t.phase ≡ finished
    → IsBounded (without_task r m)
unfolding quota_pending
without-IsBounded m r t bounded present over = record {
  permitted = bounded.permitted;
  held = ground (arith, over, bounded.held, total-remove holds r t m.jobs present);
  quota_held =
      ground (arith, over, bounded.quota_held, total-remove quota_holds r t m.jobs present);
  quota_limit =
      ground (arith, over, bounded.quota_limit, total-remove quota_counts r t m.jobs present);
}

reap-IsBounded :
    (m : Manager) (r : String) (i : ℕ)
    → IsBounded m
    → ((t : Task) → HasTask m r t → t.ident ≡ i → t.phase ≡ finished)
    → IsBounded (finish_job r i m)
reap-IsBounded m r i bounded done = elim (finish_job-cases m r i done) [
  | inl same ↦ rw same bounded
  | inr (t, present, over, e) ↦ rw e (without-IsBounded m r t bounded present over)
]

cancel_all-total :
    (f : Task → ℕ)
    → ((t : Task) → f (cancel t) ≡ f t)
    → (jobs : Dict String Task) → total f (cancel_all jobs) ≡ total f jobs
unfolding total
cancel_all-total f same [] = refl
cancel_all-total f same ((r, t) ∷ jobs) = omega (arith, same t, cancel_all-total f same jobs)

settle-IsBounded : (m : Manager) (b : Bool) → IsBounded m → IsBounded (settle b m)
unfolding settle quota_pending
settle-IsBounded m b bounded = record {
  permitted = bounded.permitted;
  held = omega (arith, bounded.held, cancel_all-total holds (λ t. ground arith) m.jobs);
  quota_held =
      omega (arith, bounded.quota_held, cancel_all-total quota_holds (λ t. ground arith) m.jobs);
  quota_limit =
      omega (arith, bounded.quota_limit, cancel_all-total quota_counts (λ t. ground arith) m.jobs);
}

tell-IsBounded :
    (m : Manager) (owed : List (String × ℕ)) → IsBounded m → IsBounded (tell_next owed m)
unfolding quota_pending
tell-IsBounded m [] bounded = record {
  permitted = bounded.permitted;
  held = bounded.held;
  quota_held = bounded.quota_held;
  quota_limit = bounded.quota_limit;
}
tell-IsBounded m (o ∷ owed) bounded = record {
  permitted = bounded.permitted;
  held = bounded.held;
  quota_held = bounded.quota_held;
  quota_limit = bounded.quota_limit;
}

report-IsBounded : (m : Manager) → IsBounded m → IsBounded (tell m)
unfolding tell
report-IsBounded m b = tell-IsBounded m m.owed b

Step-IsBounded : {m n : Manager} → Step m n → IsBounded m → IsBounded n
unfolding quota_pending reject_quota_overloaded close_admission
Step-IsBounded (shed r c h) b = record {
  permitted = b.permitted;
  held = b.held;
  quota_held = b.quota_held;
  quota_limit = b.quota_limit;
}
Step-IsBounded {m} (accept r c n kept h) b =
    let (e, running, idle) = start-accepted r c m n h in
    rw e (accept-IsBounded m r c b kept running idle)
Step-IsBounded {m} (enter r i c h free) b = put-IsBounded m _ r _ _ b h (enter-Moves m b r i c free)
Step-IsBounded {m} (enter_late r i c h free) b =
    let entered = put-IsBounded m _ r _ _ b h (enter-Moves m b r i c free) in
    put-IsBounded (enter_permit r (task i c waiting false) m) _ r _ _ entered
      (HasTask-enter m r i c) (commit-Moves _ entered r i c false)
Step-IsBounded {m} (park r i c h p) b =
    put-IsBounded m _ r _ _ b h (leave-Moves m b r i c false working waiting h refl refl)
Step-IsBounded {m} (commit r i c x h p) b = put-IsBounded m _ r _ _ b h (commit-Moves m b r i c x)
Step-IsBounded {m} (stop r i c x h) b =
    put-IsBounded m _ r _ _ b h (leave-Moves m b r i c x working finished h refl refl)
Step-IsBounded {m} (cancelled_waiting r i c h) b =
    put-IsBounded m _ r _ _ b h (abandon-Moves m b r i c)
Step-IsBounded {m} (end r i c x h) b =
    put-IsBounded m _ r _ _ b h (leave-Moves m b r i c x sending finished h refl refl)
Step-IsBounded {m} (reap r i done) b = reap-IsBounded m r i b done
Step-IsBounded {m} close b = record {
  permitted = b.permitted;
  held = b.held;
  quota_held = b.quota_held;
  quota_limit = b.quota_limit;
}
Step-IsBounded {m} (cancel_jobs has_reason p q) b = settle-IsBounded m has_reason b
Step-IsBounded {m} (report p q) b = report-IsBounded m b

new_manager-IsBounded : IsBounded new_manager
unfolding quota_pending total
new_manager-IsBounded = record {
  permitted = refl;
  held = refl;
  quota_held = refl;
  quota_limit = omega arith;
}

Reach-IsBounded : {m n : Manager} → IsBounded m → Reach m n → IsBounded n
Reach-IsBounded b here = b
Reach-IsBounded b (next reached step) = Step-IsBounded step (Reach-IsBounded b reached)

-- Whatever order the event loop runs the tasks, the dispatcher and the shutdown in, the load that the
-- metrics report has at most six jobs running, which are those that hold a permit and are no more
-- than the pending ones, at most six quota jobs pending, and no more quota jobs running than jobs.
pub Reach-limits :
    (m : Manager)
    → Reach new_manager m
    → ((load m).running ≡ total holds m.jobs)
      × ((load m).running ≤ 6)
      × ((load m).running ≤ (load m).pending)
      × ((load m).quota_pending ≤ 6)
      × ((load m).quota_running ≤ (load m).running)
unfolding load active_count
Reach-limits m reached =
    let b = Reach-IsBounded new_manager-IsBounded reached in
    let live = total_mono holds (λ t. bit (is_active t)) (λ t. ground arith) m.jobs in
    let quota = total_mono quota_holds holds (λ t. ground arith) m.jobs in
    (
      b.held,
      omega (arith, b.permitted),
      omega (arith, b.held, live),
      b.quota_limit,
      omega (arith, b.held, b.quota_held, quota),
    )
