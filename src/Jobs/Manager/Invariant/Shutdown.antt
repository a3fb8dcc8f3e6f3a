-- ===== src/Jobs/Manager/Invariant/Shutdown.antt =====
-- What `shutdown_all` (stormpulse/commands/jobs.py) does to the answers of the tasks.
use storm_pulse.Base.{
  Bool-cases, ◌==◌, string_eq, pair_eq, nat_eq, elem, ℕ, ◌≤◌, String, ◌≡◌, refl, sym, ◌∙◌, inl, inr,
  Bool, true, false, some, List, [], ◌∷◌, arith,
}
use storm_pulse.Base.Dict
use storm_pulse.Base.Dict.{Dict}
use storm_pulse.Base.Totals.{total}
use storm_pulse.Jobs.Manager.{
  tell_next, is_gathered, unresolved, sending, Task, Manager, cancel_all, settle, tell,
}
use storm_pulse.Jobs.Manager.Invariant.{counted_as, may_answer, stale, due, IsOnce}

has-cancel_all :
    (r : String) (jobs : Dict String Task) → Dict.has r (cancel_all jobs) ≡ Dict.has r jobs
unfolding Dict.has
has-cancel_all r [] = refl
has-cancel_all r ((s, t) ∷ jobs) = ground (arith, has-cancel_all r jobs)

cancel_all-IsDict : (jobs : Dict String Task) → Dict.IsDict jobs → Dict.IsDict (cancel_all jobs)
cancel_all-IsDict [] h = h
cancel_all-IsDict ((s, t) ∷ jobs) h = (rw (has-cancel_all s jobs) h.0, cancel_all-IsDict jobs h.1)

get-cancel_all :
    (r : String) (v : Task) (jobs : Dict String Task)
    → Dict.get r (cancel_all jobs) ≡ some v
    → (t : Task) × (Dict.get r jobs ≡ some t) × (v.phase ≡ t.phase)
unfolding Dict.get
get-cancel_all r v [] h = absurd (ground (arith, h))
get-cancel_all r v ((s, t) ∷ jobs) h = elim (Bool-cases (s == r)) [
  | inl same ↦ (t, ground (arith, same), ground (arith, h, same))
  | inr other ↦
      let (t', g, p) = get-cancel_all r v jobs (ground (arith, h, other)) in
      (t', ground (arith, other, g), p)
]

-- A cancelled task answers no more, and what was not done is stale.
total-cancel_all-may_answer :
    (i : ℕ) (jobs : Dict String Task) → total (may_answer i) (cancel_all jobs) ≡ 0
unfolding total
total-cancel_all-may_answer i [] = refl
total-cancel_all-may_answer i ((s, t) ∷ jobs) = ground (arith, total-cancel_all-may_answer i jobs)

total-cancel_all-counted_as :
    (i : ℕ) (jobs : Dict String Task)
    → total (counted_as i) (cancel_all jobs) ≡ total (counted_as i) jobs
unfolding total
total-cancel_all-counted_as i [] = refl
total-cancel_all-counted_as i ((s, t) ∷ jobs) = ground (arith, total-cancel_all-counted_as i jobs)

-- Of the tasks that are told of as cancelled, each could have answered.
due-unresolved :
    (i : ℕ) (attempted : List String) (jobs : Dict String Task)
    → Dict.IsDict jobs
    → ((r : String) (t : Task)
        → Dict.get r jobs ≡ some t
        → t.phase ≡ sending
        → elem r attempted ≡ true)
    → total stale jobs ≡ 0
    → due i (unresolved attempted jobs) ≤ total (may_answer i) jobs
unfolding total
due-unresolved i attempted [] distinct marked calm = omega arith
due-unresolved i attempted ((r, t) ∷ jobs) distinct marked calm =
    let rest =
      due-unresolved i attempted jobs distinct.1
        (λ s u g p. marked s u (Dict.get-cons r s t u jobs distinct.0 g) p) (omega (arith, calm)) in
    let here = marked r t (Dict.get-head r t jobs) in ground (arith, rest, here, calm)

due-counted_as :
    (i : ℕ) (attempted : List String) (jobs : Dict String Task)
    → due i (unresolved attempted jobs) ≤ total (counted_as i) jobs
unfolding total
due-counted_as i attempted [] = omega arith
due-counted_as i attempted ((r, t) ∷ jobs) = ground (arith, due-counted_as i attempted jobs)

settle-due :
    (i : ℕ) (m : Manager) (has_reason : Bool)
    → IsOnce m
    → m.settling ≡ false
    → due i (settle has_reason m).owed ≤ total (may_answer i) m.jobs
unfolding settle
settle-due i m true o free =
    due-unresolved i m.terminal_attempts m.jobs o.distinct o.marked (o.unstale free)
settle-due i m false o free = omega arith

settle-due-counted_as :
    (i : ℕ) (m : Manager) (has_reason : Bool)
    → due i (settle has_reason m).owed ≤ total (counted_as i) m.jobs
unfolding settle
settle-due-counted_as i m true = due-counted_as i m.terminal_attempts m.jobs
settle-due-counted_as i m false = omega arith

pub settle-IsOnce :
    (m : Manager) (has_reason : Bool)
    → IsOnce m
    → m.closing ≡ true
    → m.settling ≡ false
    → IsOnce (settle has_reason m)
unfolding settle
settle-IsOnce m has_reason o shut free = record {
  distinct = cancel_all-IsDict m.jobs o.distinct;
  once = λ i.
      omega
        (arith, o.once i, total-cancel_all-may_answer i m.jobs, settle-due i m has_reason o free);
  fresh = λ i p. omega (
    arith,
    o.fresh i p,
    total-cancel_all-counted_as i m.jobs,
    settle-due-counted_as i m has_reason,
  );
  unstale = λ p. absurd (cc p);
  closed = λ p. shut;
  paid = λ p. absurd (cc p);
  marked =
      λ s v q p. let (t, g, same) = get-cancel_all s v m.jobs q in o.marked s t g (sym same ∙ p);
}

tell_next-IsOnce :
    (m : Manager) (owed : List (String × ℕ))
    → m.owed ≡ owed
    → IsOnce m
    → m.settling ≡ true
    → total stale m.jobs ≡ 0
    → IsOnce (tell_next owed m)
tell_next-IsOnce m [] e o held gathered = record {
  distinct = o.distinct;
  once = o.once;
  fresh = o.fresh;
  unstale = λ p. gathered;
  closed = λ p. absurd (cc p);
  paid = λ p. e;
  marked = o.marked;
}
tell_next-IsOnce m ((r, j) ∷ rest) e o held gathered = record {
  distinct = o.distinct;
  once = λ i. ground (arith, o.once i, e);
  fresh = λ i p. ground (arith, o.fresh i p, e);
  unstale = o.unstale;
  closed = o.closed;
  paid = λ p. absurd (cc p);
  marked = o.marked;
}

pub tell-IsOnce :
    (m : Manager) → IsOnce m → m.settling ≡ true → is_gathered m ≡ true → IsOnce (tell m)
unfolding tell is_gathered
tell-IsOnce m o held gathered = tell_next-IsOnce m m.owed refl o held (ground (arith, gathered))
