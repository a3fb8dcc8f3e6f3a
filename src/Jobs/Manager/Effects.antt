-- ===== src/Jobs/Manager/Effects.antt =====
-- What the operations of the manager leave, by cases (stormpulse/commands/jobs.py).
use storm_pulse.Base.{
  Bool-cases, Option-cases, ◌==◌, beq_refl, string_eq, pair_eq, nat_eq, ℕ, ◌+◌, String, ◌≡◌, refl,
  ◌⊎◌, inl, inr, false, arith,
}
use storm_pulse.Base.Dict
use storm_pulse.Base.Totals.{total, total-put, total-put_new}
use storm_pulse.Jobs.Manager.{
  working, waiting, enter_permit, with_task, without_task, accepted, is_running, start, finish_job,
  Task, finished, Manager, is_active,
}
use storm_pulse.Jobs.Manager.Steps.{task, HasTask}

-- A request id that does not run has no task, or one that counts for nothing.
pub total-new :
    (f : Task → ℕ) (zero_done : (t : Task) → is_active t ≡ false → f t ≡ 0) (m : Manager)
    (r : String) (u : Task)
    → is_running r m ≡ false
    → total f (Dict.put r u m.jobs) ≡ total f m.jobs + f u
unfolding is_running
total-new f zero_done m r u h = elim (Option-cases (Dict.get r m.jobs)) [
  | inl absent ↦ total-put_new f r u m.jobs absent
  | inr (t, present) ↦
      let idle : is_active t ≡ false = ground (arith, h, present) in
      omega (arith, total-put f r u t m.jobs present, zero_done t idle)
]

pub start-accepted :
    (r c : String) (m n : Manager)
    → start r c m ≡ accepted n
    → (n ≡ with_task r c m) × (m.closing ≡ false) × (is_running r m ≡ false)
unfolding start
start-accepted r c m n h = ground (arith, h)

pub finish_job-cases :
    (m : Manager) (r : String) (i : ℕ)
    → ((t : Task) → HasTask m r t → t.ident ≡ i → t.phase ≡ finished)
    → (finish_job r i m ≡ m)
      ⊎ ((t : Task) × HasTask m r t × (t.phase ≡ finished) × (finish_job r i m ≡ without_task r m))
unfolding finish_job
finish_job-cases m r i done = elim (Option-cases (Dict.get r m.jobs)) [
  | inl absent ↦ inl (rw absent refl)
  | inr (t, present) ↦ elim (Bool-cases (t.ident == i)) [
    | inl same ↦ inr (t, present, done t present (ground (arith, same)), rw (present, same) refl)
    | inr other ↦ inl (rw (present, other) refl)
  ]
]

pub HasTask-enter :
    (m : Manager) (r : String) (i : ℕ) (c : String)
    → HasTask (enter_permit r (task i c waiting false) m) r (task i c working false)
unfolding enter_permit
HasTask-enter m r i c = rw (Dict.get-put r r (task i c working false) m.jobs, beq_refl r) refl
