-- ===== src/Jobs/Manager/Invariant/Answered.antt =====
-- Every step keeps that no task has two answers (stormpulse/commands/jobs.py).
use storm_pulse.Base.{
  string_eq, pair_eq, nat_eq, ℕ, ◌≤◌, String, ◌≡◌, refl, inl, inr, Bool, true, false, arith,
}
use storm_pulse.Base.Dict
use storm_pulse.Base.Totals.{total-ge, total}
use storm_pulse.Jobs.Manager.{
  close_admission, reject_quota_overloaded, commit_result, waiting, working, sending, finished,
  Manager, new_manager, enter_permit,
}
use storm_pulse.Jobs.Manager.Effects.{HasTask-enter, start-accepted, finish_job-cases}
use storm_pulse.Jobs.Manager.Steps.{
  Step, shed, accept, enter, enter_late, park, commit, stop, cancelled_waiting, end, reap, close,
  cancel_jobs, report, task, HasTask, Reach, here, next,
}
use storm_pulse.Jobs.Manager.Invariant.{stale, answered, IsOnce}
use storm_pulse.Jobs.Manager.Invariant.Once.{
  not_settling, put-IsOnce, accept-IsOnce, without-IsOnce, enter-Answers, leave-Answers,
  commit-Answers, abandon-Answers,
}
use storm_pulse.Jobs.Manager.Invariant.Shutdown.{settle-IsOnce, tell-IsOnce}

-- While the connection is not closing, no live task was cancelled.
commit-IsOnce :
    (m : Manager) (r : String) (i : ℕ) (c : String) (x : Bool)
    → IsOnce m
    → HasTask m r (task i c working x)
    → m.closing ≡ false
    → IsOnce (commit_result r (task i c working x) m)
commit-IsOnce m r i c true o h p =
    let calm = o.unstale (not_settling m o p) in
    absurd (ground (arith, calm, total-ge stale r (task i c working true) m.jobs h))
commit-IsOnce m r i c false o h p = put-IsOnce m _ r _ _ o h (commit-Answers m o r i c)

Step-IsOnce : {m n : Manager} → Step m n → IsOnce m → IsOnce n
unfolding reject_quota_overloaded close_admission
Step-IsOnce (shed r c h) o = record {
  distinct = o.distinct;
  once = λ i. omega (arith, o.once i);
  fresh = λ i p. omega (arith, o.fresh i p);
  unstale = o.unstale;
  closed = o.closed;
  paid = o.paid;
  marked = o.marked;
}
Step-IsOnce {m} (accept r c n kept h) o =
    let (e, running, idle) = start-accepted r c m n h in rw e (accept-IsOnce m r c o running idle)
Step-IsOnce {m} (enter r i c h free) o = put-IsOnce m _ r _ _ o h (enter-Answers m o r i c)
Step-IsOnce {m} (enter_late r i c h free) o =
    let entered = put-IsOnce m _ r _ _ o h (enter-Answers m o r i c) in
    put-IsOnce (enter_permit r (task i c waiting false) m) _ r _ _ entered (HasTask-enter m r i c)
      (commit-Answers _ entered r i c)
Step-IsOnce {m} (park r i c h p) o =
    put-IsOnce m _ r _ _ o h
      (leave-Answers m o r i c false working waiting (inr refl) (inr refl) (λ e. ground arith))
Step-IsOnce {m} (commit r i c x h p) o = commit-IsOnce m r i c x o h p
Step-IsOnce {m} (stop r i c x h) o =
    put-IsOnce m _ r _ _ o h
      (leave-Answers m o r i c x working finished (inl refl) (inl refl) (λ e. ground arith))
Step-IsOnce {m} (cancelled_waiting r i c h) o = put-IsOnce m _ r _ _ o h (abandon-Answers m o r i c)
Step-IsOnce {m} (end r i c x h) o =
    put-IsOnce m _ r _ _ o h
      (leave-Answers m o r i c x sending finished (inl refl) (inl refl) (λ e. ground arith))
Step-IsOnce {m} (reap r i done) o = elim (finish_job-cases m r i done) [
  | inl same ↦ rw same o
  | inr (t, present, over, e) ↦ rw e (without-IsOnce m r t o present)
]
Step-IsOnce {m} close o = record {
  distinct = o.distinct;
  once = o.once;
  fresh = o.fresh;
  unstale = o.unstale;
  closed = λ p. refl;
  paid = o.paid;
  marked = o.marked;
}
Step-IsOnce {m} (cancel_jobs has_reason p q) o = settle-IsOnce m has_reason o p q
Step-IsOnce {m} (report p q) o = tell-IsOnce m o p q

new_manager-IsOnce : IsOnce new_manager
unfolding total Dict.get
new_manager-IsOnce = record {
  distinct = tt;
  once = λ i. omega arith;
  fresh = λ i p. refl;
  unstale = λ p. refl;
  closed = λ p. absurd (cc p);
  paid = λ p. refl;
  marked = λ r t h p. absurd (ground (arith, h));
}

Reach-IsOnce : {m n : Manager} → IsOnce m → Reach m n → IsOnce n
Reach-IsOnce o here = o
Reach-IsOnce o (next reached step) = Step-IsOnce step (Reach-IsOnce o reached)

-- Whatever order the event loop runs the tasks, the dispatcher and the shutdown in: of each accepted
-- job at most one terminal message is sent, its result or its cancellation, never both nor two of one;
-- and there is none for a job that was not accepted.
pub answered_once :
    (m : Manager)
    → Reach new_manager m
    → (i : ℕ) → (answered i m.sent ≤ 1) × (m.next ≤ i → answered i m.sent ≡ 0)
answered_once m reached i =
    let o = Reach-IsOnce new_manager-IsOnce reached in
    (omega (arith, o.once i), λ p. omega (arith, o.fresh i p))
