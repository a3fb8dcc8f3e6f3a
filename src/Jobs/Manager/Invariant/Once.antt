-- ===== src/Jobs/Manager/Invariant/Once.antt =====
-- No task has two answers (stormpulse/commands/jobs.py): a result, or that it was cancelled.
use storm_pulse.Base.{
  Bool-cases, ◌==◌, beq_refl, string_eq, pair_eq, nat_eq, elem, ℕ, ◌+◌, ◌≤◌, String, ◌≡◌, refl, sym,
  ap, ◌∙◌, ◌≢◌, ◌⊎◌, inl, inr, Bool, true, false, some, List, [], ◌∷◌, arith,
}
use storm_pulse.Base.Dict
use storm_pulse.Base.Dict.{Dict}
use storm_pulse.Base.Totals.{total-put-le, total-put, total-remove, total-ge, total_mono}
use storm_pulse.Jobs.Manager.{
  new_task, with_task, without_task, is_running, is_active, leave_permit, commit_result,
  enter_permit, abandon, Phase, waiting, working, sending, finished, Task, Manager, discard,
}
use storm_pulse.Jobs.Manager.Effects.{total-new}
use storm_pulse.Jobs.Manager.Steps.{task, HasTask}
use storm_pulse.Jobs.Manager.Invariant.{
  counted_as, may_answer, stale, answered, IsOnce, is_before_result,
}

-- Task `t` becomes `u`, which may answer at the price of what it may answer later.
pub record Answers (m n : Manager) (r : String) (t u : Task) : Type 0 where
  pub jobs : n.jobs ≡ Dict.put r u m.jobs
  pub ident : u.ident ≡ t.ident
  pub stale : stale u ≤ stale t
  pub next : n.next ≡ m.next
  pub settling : n.settling ≡ m.settling
  pub closing : n.closing ≡ m.closing
  pub owed : n.owed ≡ m.owed
  pub answer : (i : ℕ) → answered i n.sent + may_answer i u ≤ answered i m.sent + may_answer i t
  pub only : (i : ℕ) → answered i n.sent ≤ answered i m.sent + counted_as i t
  pub attempted :
      (s : String) → elem s m.terminal_attempts ≡ true → elem s n.terminal_attempts ≡ true
  pub marked : u.phase ≡ sending → elem r n.terminal_attempts ≡ true

put-marked :
    (jobs : Dict String Task) (r s : String) (u v : Task)
    → Dict.get s (Dict.put r u jobs) ≡ some v
    → ((r ≡ s) × (u ≡ v)) ⊎ (((r == s) ≡ false) × (Dict.get s jobs ≡ some v))
put-marked jobs r s u v h = ground (arith, h, Dict.get-put r s u jobs, string_eq.beq_iff r s)

pub put-IsOnce :
    (m n : Manager) (r : String) (t u : Task)
    → IsOnce m
    → HasTask m r t
    → Answers m n r t u
    → IsOnce n
put-IsOnce m n r t u o h a = record {
  distinct = rw a.jobs (Dict.put-IsDict r u m.jobs o.distinct);
  once = λ i.
      rw (a.jobs, a.owed)
        (omega (arith, o.once i, a.answer i, total-put (may_answer i) r u t m.jobs h));
  fresh = λ i p.
      rw (a.jobs, a.owed)
        (let old : m.next ≤ i = omega (arith, a.next) in
          let same : counted_as i u ≡ counted_as i t = rw a.ident refl in
          omega (
            arith,
            o.fresh i old,
            same,
            a.only i,
            total-ge (counted_as i) r t m.jobs h,
            total-put (counted_as i) r u t m.jobs h,
          ));
  unstale = λ p. rw a.jobs (
      let before : m.settling ≡ false = cc in
      omega (
        arith,
        o.unstale before,
        a.stale,
        total-ge stale r t m.jobs h,
        total-put stale r u t m.jobs h,
      ));
  closed = λ p. let before : m.settling ≡ true = cc in rw a.closing (o.closed before);
  paid = λ p. let before : m.settling ≡ false = cc in rw a.owed (o.paid before);
  marked = λ s v q p. elim (put-marked m.jobs r s u v (ap (Dict.get s) (sym a.jobs) ∙ q)) [
    | inl (same, e) ↦ rw (sym same) (a.marked (rw e p))
    | inr (other, old) ↦ a.attempted s (o.marked s v old p)
  ];
}

elem-discard :
    (r s : String) (xs : List String) → (r == s) ≡ false → elem s (discard r xs) ≡ elem s xs
elem-discard r s [] h = refl
elem-discard r s (x ∷ xs) h = ground (
  arith,
  elem-discard r s xs h,
  string_eq.beq_iff x r,
  string_eq.beq_iff x s,
  string_eq.beq_iff r s,
)

pub elem-cons-discard :
    (r s : String) (xs : List String) → elem s xs ≡ true → elem s (r ∷ discard r xs) ≡ true
elem-cons-discard r s xs h = ground (arith, elem-discard r s xs, h)

module _ (m : Manager) (o : IsOnce m) (r : String) (i : ℕ) (c : String) where
  pub enter-Answers :
      Answers m
        (enter_permit r (task i c waiting false) m)
        r
        (task i c waiting false)
        (task i c working false)
  unfolding enter_permit
  enter-Answers = record {
    jobs = refl;
    ident = refl;
    stale = omega arith;
    next = refl;
    settling = refl;
    closing = refl;
    owed = refl;
    answer = λ j. omega arith;
    only = λ j. omega arith;
    attempted = λ s h. h;
    marked = λ h. absurd (ground arith);
  }

  pub leave-Answers :
      (x : Bool) (p q : Phase)
      → is_before_result q ≡ false ⊎ (is_before_result p ≡ true)
      → (is_active (task i c q x) ≡ false) ⊎ (is_active (task i c p x) ≡ true)
      → q ≢ sending
      → Answers m (leave_permit r (task i c p x) q m) r (task i c p x) (task i c q x)
  unfolding leave_permit
  leave-Answers x p q h k ne = record {
    jobs = refl;
    ident = refl;
    stale = ground (arith, k);
    next = refl;
    settling = refl;
    closing = refl;
    owed = refl;
    answer = λ j. ground (arith, h);
    only = λ j. omega arith;
    attempted = λ s h. h;
    marked = λ h. absurd (ne h);
  }

  pub commit-Answers :
      Answers m
        (commit_result r (task i c working false) m)
        r
        (task i c working false)
        (task i c sending false)
  unfolding commit_result
  commit-Answers = record {
    jobs = refl;
    ident = refl;
    stale = omega arith;
    next = refl;
    settling = refl;
    closing = refl;
    owed = refl;
    answer = λ j. ground arith;
    only = λ j. ground arith;
    attempted = λ s h. elem-cons-discard r s m.terminal_attempts h;
    marked = λ h. ground (arith, beq_refl r);
  }

  pub abandon-Answers :
      Answers m
        (abandon r (task i c waiting true) m)
        r
        (task i c waiting true)
        (task i c finished true)
  unfolding abandon
  abandon-Answers = record {
    jobs = refl;
    ident = refl;
    stale = ground arith;
    next = refl;
    settling = refl;
    closing = refl;
    owed = refl;
    answer = λ j. ground arith;
    only = λ j. omega arith;
    attempted = λ s h. h;
    marked = λ h. absurd (ground arith);
  }

pub not_settling : (m : Manager) → IsOnce m → m.closing ≡ false → m.settling ≡ false
not_settling m o h = elim (Bool-cases m.settling) [ inl p ↦ absurd (cc (o.closed p)) | inr p ↦ p ]

pub accept-IsOnce :
    (m : Manager) (r c : String)
    → IsOnce m
    → m.closing ≡ false
    → is_running r m ≡ false
    → IsOnce (with_task r c m)
accept-IsOnce m r c o running idle =
    let u = new_task c m in
    let calm = not_settling m o running in
    record {
      distinct = Dict.put-IsDict r u m.jobs o.distinct;
      once = λ i.
          let grown = total-new (may_answer i) (λ t h. ground (arith, h)) m r u idle in
          elim (Bool-cases (m.next == i)) [
            | inl same ↦
                let none_yet = o.fresh i (ground (arith, same)) in
                ground (
                  arith,
                  total_mono (may_answer i) (counted_as i) (λ t. ground arith) m.jobs,
                  grown,
                  none_yet,
                )
            | inr other ↦ ground (arith, o.once i, grown, other)
          ];
      fresh = λ i p.
          ground (arith, o.fresh i (omega (arith, p)), total-put-le (counted_as i) r u m.jobs);
      unstale =
          λ p. omega (arith, o.unstale calm, total-new stale (λ t h. ground (arith, h)) m r u idle);
      closed = o.closed;
      paid = o.paid;
      marked = λ s v q p. elim (put-marked m.jobs r s u v q) [
        | inl (same, e) ↦ absurd (ground (arith, e, p))
        | inr (other, old) ↦ rw (elem-discard r s m.terminal_attempts other) (o.marked s v old p)
      ];
    }

get-remove-cases :
    (jobs : Dict String Task) (r s : String) (v : Task)
    → Dict.IsDict jobs
    → Dict.get s (Dict.remove r jobs) ≡ some v
    → ((r == s) ≡ false) × (Dict.get s jobs ≡ some v)
get-remove-cases jobs r s v distinct h = elim (Bool-cases (r == s)) [
  | inl same ↦
      let e = (string_eq.beq_iff r s).0 same in
      let gone = Dict.no_entry r (Dict.remove r jobs) (Dict.has-remove_self r jobs distinct) in
      absurd (ground (arith, h, e, gone))
  | inr other ↦ (other, ground (arith, h, Dict.get-remove_ne r s jobs other))
]

pub without-IsOnce :
    (m : Manager) (r : String) (t : Task) → IsOnce m → HasTask m r t → IsOnce (without_task r m)
without-IsOnce m r t o h = record {
  distinct = Dict.remove-IsDict r m.jobs o.distinct;
  once = λ i. omega (arith, o.once i, total-remove (may_answer i) r t m.jobs h);
  fresh = λ i p. omega (arith, o.fresh i p, total-remove (counted_as i) r t m.jobs h);
  unstale = λ p. omega (arith, o.unstale p, total-remove stale r t m.jobs h);
  closed = o.closed;
  paid = o.paid;
  marked = λ s v q p.
      let (other, old) = get-remove-cases m.jobs r s v o.distinct q in
      rw (elem-discard r s m.terminal_attempts other) (o.marked s v old p);
}
