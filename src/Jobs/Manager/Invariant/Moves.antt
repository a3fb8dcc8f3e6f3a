-- ===== src/Jobs/Manager/Invariant/Moves.antt =====
-- One task of the manager changes its phase (stormpulse/commands/jobs.py): the counters move with it.
use storm_pulse.Base.{
  string_eq, pair_eq, nat_eq, ℕ, ◌+◌, ◌≤◌, String, ◌≡◌, refl, Bool, true, false, arith,
}
use storm_pulse.Base.Dict
use storm_pulse.Base.Dict.{Dict}
use storm_pulse.Base.Totals.{total-put, total-ge}
use storm_pulse.Jobs.Manager.{
  finished, sending, commit_result, abandon, Phase, waiting, working, Task, Manager, quota_pending,
  enter_permit, leave_permit,
}
use storm_pulse.Jobs.Manager.Steps.{task, HasTask}
use storm_pulse.Jobs.Manager.Invariant.{holds, quota_holds, quota_counts, IsBounded, is_holding}

-- Task `t` becomes `u`: the counters move by what each of them counts for.
pub record Moves (m n : Manager) (r : String) (t u : Task) : Type 0 where
  pub jobs : n.jobs ≡ Dict.put r u m.jobs
  pub permitted : n.permits + n.running ≡ m.permits + m.running
  pub held : n.running + holds t ≡ m.running + holds u
  pub quota_held : n.quota_running + quota_holds t ≡ m.quota_running + quota_holds u
  pub quota_limit : quota_counts u ≤ quota_counts t

pub put-IsBounded :
    (m n : Manager) (r : String) (t u : Task)
    → IsBounded m
    → HasTask m r t
    → Moves m n r t u
    → IsBounded n
unfolding quota_pending
put-IsBounded m n r t u bounded h moves = record {
  permitted = omega (arith, moves.permitted, bounded.permitted);
  held = rw moves.jobs (omega (arith, moves.held, bounded.held, total-put holds r u t m.jobs h));
  quota_held =
      rw moves.jobs
        (omega (arith, moves.quota_held, bounded.quota_held, total-put quota_holds r u t m.jobs h));
  quota_limit = rw moves.jobs (
      omega (arith, moves.quota_limit, bounded.quota_limit, total-put quota_counts r u t m.jobs h));
}

module _ (m : Manager) (bounded : IsBounded m) (r : String) (i : ℕ) (c : String) where
  pub enter-Moves :
      1 ≤ m.permits
      → Moves m
          (enter_permit r (task i c waiting false) m)
          r
          (task i c waiting false)
          (task i c working false)
  unfolding enter_permit
  enter-Moves free = record {
    jobs = refl;
    permitted = ground arith;
    held = ground arith;
    quota_held = ground arith;
    quota_limit = ground arith;
  }

  pub leave-Moves :
      (x : Bool) (p q : Phase)
      → HasTask m r (task i c p x)
      → is_holding p ≡ true
      → is_holding q ≡ false
      → Moves m (leave_permit r (task i c p x) q m) r (task i c p x) (task i c q x)
  unfolding leave_permit
  leave-Moves x p q h hp hq =
      let one = total-ge holds r (task i c p x) m.jobs h in
      let quota = total-ge quota_holds r (task i c p x) m.jobs h in
      record {
        jobs = refl;
        permitted = ground (arith, bounded.held);
        held = ground (arith, bounded.held);
        quota_held = ground (arith, bounded.quota_held);
        quota_limit = ground arith;
      }

  pub commit-Moves :
      (x : Bool)
      → Moves m (commit_result r (task i c working x) m) r (task i c working x) (task i c sending x)
  unfolding commit_result
  commit-Moves x = record {
    jobs = refl;
    permitted = ground arith;
    held = ground arith;
    quota_held = ground arith;
    quota_limit = ground arith;
  }

  pub abandon-Moves :
      Moves m
        (abandon r (task i c waiting true) m)
        r
        (task i c waiting true)
        (task i c finished true)
  unfolding abandon
  abandon-Moves = record {
    jobs = refl;
    permitted = ground arith;
    held = ground arith;
    quota_held = ground arith;
    quota_limit = ground arith;
  }
