-- ===== src/Events/Spool/Newest.antt =====
-- Settling a segment (`_settle` of stormpulse/agent/event_spool.py) loses no file but the one read.
use storm_pulse.Base.{
  if◌then◌else◌, Bool-cases, Option-cases, beq_refl, string_eq, pair_eq, nat_eq, String, ◌≡◌, refl,
  sym, ap, ◌∙◌, ◌⊎◌, inl, inr, Bool, true, false, ◌||◌, Option, none, some,
}
use storm_pulse.Base.Dict
use storm_pulse.Base.Dict.{Dict}
use storm_pulse.Events.Spool.Files.{
  Identity, Node, named, aside, name_eq, Directory, Faults, Arrivals, unlink_aside, link_back,
  put_back, arrive, matches_read, settle_aside, rename_aside, holds_directory, settle_named,
  after_put_back, settle_file,
}

-- The file that the name stands for: what it holds, or else what is set aside of it.
abbrev pub or_aside : Option Node → Option Node → Option Node
or_aside none old = old
or_aside (some node) old = some node

abbrev pub current : String → Directory → Option Node
current name d = or_aside (Dict.get (named name) d) (Dict.get (aside name) d)

-- The newest of the files that stood for the name, given the one at the start.
abbrev pub newest : Arrivals → Option Node → Option Node
newest arrivals first =
    or_aside arrivals.before_link
      (or_aside arrivals.before_rename (or_aside arrivals.before_stat first))

module _ (name : String) where
  current-arrive :
      (o : Option Node) (d : Directory)
      → current name (arrive name o d) ≡ or_aside o (current name d)
  current-arrive none d = refl
  current-arrive (some node) d =
      rw (Dict.get-put (named name) (named name) node d, beq_refl name) refl

  arrive-IsDict : (o : Option Node) (d : Directory) → Dict.IsDict d → Dict.IsDict (arrive name o d)
  arrive-IsDict none d h = h
  arrive-IsDict (some node) d h = Dict.put-IsDict (named name) node d h

  get-arrive :
      (o : Option Node) (d : Directory) (node : Node)
      → o ≡ some node
      → Dict.get (named name) (arrive name o d) ≡ some node
  get-arrive none d node h = absurd (cc)
  get-arrive (some new) d node h =
      Dict.get-put (named name) (named name) new d ∙ (rw (beq_refl name) h)

  get-remove_aside :
      (d : Directory) → Dict.get (named name) (Dict.remove (aside name) d) ≡ Dict.get (named name) d
  get-remove_aside d = Dict.get-remove_ne (aside name) (named name) d refl

  current-unlink_aside :
      (faults : Faults) (d : Directory) (node : Node)
      → Dict.get (named name) d ≡ some node
      → current name (unlink_aside faults name d).0 ≡ some node
  current-unlink_aside faults d node h = elim (Bool-cases faults.unlink) [
    | inl fails ↦ rw (fails, h) refl
    | inr works ↦ rw (works, get-remove_aside d, h) refl
  ]

  unlink_aside-IsDict :
      (faults : Faults) (d : Directory) → Dict.IsDict d → Dict.IsDict (unlink_aside faults name d).0
  unlink_aside-IsDict faults d h = elim (Bool-cases faults.unlink) [
    | inl fails ↦ rw fails h
    | inr works ↦ rw works (Dict.remove-IsDict (aside name) d h)
  ]

  link_back-current :
      (faults : Faults) (d : Directory) (o : Option Node)
      → Dict.get (aside name) d ≡ o
      → Dict.IsDict d
      → (current name (link_back faults name o d).0 ≡ current name d)
        × Dict.IsDict (link_back faults name o d).0
  link_back-current faults d none e h = (refl, h)
  link_back-current faults d (some node) e h = elim (Option-cases (Dict.get (named name) d)) [
    | inl g ↦
        let linked = Dict.put (named name) node d in
        elim (Bool-cases (faults.link || node.is_directory)) [
          | inl fails ↦ rw (Dict.no_entry-get (named name) d g, fails) (refl, h)
          | inr works ↦
              rw (Dict.no_entry-get (named name) d g, works)
                (
                  current-unlink_aside faults linked node
                        (Dict.get-put (named name) (named name) node d ∙ rw (beq_refl name) refl)
                      ∙ rw (g, e) refl,
                  unlink_aside-IsDict faults linked (Dict.put-IsDict (named name) node d h),
                )
        ]
    | inr (new, g) ↦
        rw (Dict.has-get (named name) new d g)
          (current-unlink_aside faults d new g ∙ rw g refl, unlink_aside-IsDict faults d h)
  ]

  put_back-current :
      (faults : Faults) (d : Directory)
      → Dict.IsDict d
      → (current name (put_back faults name d).0 ≡ current name d)
        × Dict.IsDict (put_back faults name d).0
  unfolding put_back
  put_back-current faults d h = link_back-current faults d (Dict.get (aside name) d) refl h

node_or : Node → Option Node → Node
node_or d none = d
node_or d (some node) = node

some-eq : {a b : Node} → some a ≡ some b → a ≡ b
some-eq {a} h = unfold node_or in (ap (node_or a) h)

pub either_way :
    (P : Directory × Bool → Type 0) (b : Bool) (x y : Directory × Bool)
    → (b ≡ true → P x)
    → (b ≡ false → P y)
    → P (if b then x else y)
either_way P true x y p q = p refl
either_way P false x y p q = q refl

or_aside-some :
    (o : Option Node) (old node : Node)
    → or_aside o (some old) ≡ some node
    → (o ≡ some node) ⊎ (old ≡ node)
or_aside-some none old node h = inr (some-eq h)
or_aside-some (some new) old node h = inl h

module _ (faults : Faults) (arrivals : Arrivals) (name : String) (id : Option Identity)
    (node : Node) (other : matches_read id node ≡ false) where
  -- The file stands for the name.
  abbrev Stands : Directory × Bool → Type 0
  Stands r = current name r.0 ≡ some node

  aside-Stands :
      (old : Node) (d : Directory)
      → Dict.IsDict d
      → Dict.get (named name) d ≡ none
      → Dict.get (aside name) d ≡ some old
      → or_aside arrivals.before_link (some old) ≡ some node
      → Stands (settle_aside faults name id old (arrive name arrivals.before_link d))
  aside-Stands old d h free there last =
      let met = arrive name arrivals.before_link d in
      let distinct = arrive-IsDict name arrivals.before_link d h in
      let stands : current name met ≡ some node =
        current-arrive name arrivals.before_link d
        ∙ ap (or_aside arrivals.before_link) (ap (λ o. or_aside o (Dict.get (aside name) d)) free)
        ∙ ap (or_aside arrivals.before_link) there
        ∙ last in
      let back = (put_back-current name faults met distinct).0 ∙ stands in
      either_way Stands (matches_read id old) _ _
        (λ matches.
          either_way Stands faults.unlink _ _ (λ fails. back)
            (λ works. elim (or_aside-some arrivals.before_link old node last) [
              | inl came ↦
                  rw (get-remove_aside name met, get-arrive name arrivals.before_link d node came)
                    refl
              | inr same ↦ absurd (cc (matches, same, other))
            ]))
        (λ differs. back)

  rename-Stands :
      (o : Option Node) (d : Directory)
      → Dict.get (named name) d ≡ o
      → Dict.IsDict d
      → or_aside arrivals.before_link (current name d) ≡ some node
      → Stands (rename_aside faults arrivals name id o d)
  rename-Stands none d g h last = current-arrive name arrivals.before_link d ∙ last
  rename-Stands (some old) d g h last =
      let gone = Dict.remove (named name) d in
      either_way Stands faults.rename _ _
        (λ fails. current-arrive name arrivals.before_link d ∙ last)
        (λ works.
          aside-Stands old (Dict.put (aside name) old gone)
            (Dict.put-IsDict (aside name) old gone (Dict.remove-IsDict (named name) d h))
            (Dict.get-put (aside name) (named name) old gone
              ∙ Dict.no_entry (named name) gone (Dict.has-remove_self (named name) d h))
            (Dict.get-put (aside name) (aside name) old gone ∙ rw (beq_refl name) refl)
            (ap (λ k. or_aside arrivals.before_link (or_aside k (Dict.get (aside name) d))) (sym g)
              ∙ last))

  named-Stands :
      (d : Directory)
      → Dict.IsDict d
      → or_aside arrivals.before_link (or_aside arrivals.before_rename (current name d)) ≡ some node
      → Stands (settle_named faults arrivals name id d)
  named-Stands d h last =
      let met = arrive name arrivals.before_rename d in
      let moved = current-arrive name arrivals.before_rename d in
      let last_met = ap (or_aside arrivals.before_link) moved ∙ last in
      either_way Stands (holds_directory (Dict.get (named name) d)) _ _
        (λ is. current-arrive name arrivals.before_link met ∙ last_met)
        (λ is_not.
          rename-Stands (Dict.get (named name) met) met refl
            (arrive-IsDict name arrivals.before_rename d h) last_met)

  put_back-Stands :
      (r : Directory × Bool)
      → Dict.IsDict r.0
      → newest arrivals (current name r.0) ≡ some node
      → Stands (after_put_back faults arrivals name id r)
  put_back-Stands (d, true) h last =
      named-Stands (arrive name arrivals.before_stat d)
        (arrive-IsDict name arrivals.before_stat d h)
        (ap (λ k. or_aside arrivals.before_link (or_aside arrivals.before_rename k))
            (current-arrive name arrivals.before_stat d)
          ∙ last)
  put_back-Stands (d, false) h last =
      let first = arrive name arrivals.before_stat d in
      let second = arrive name arrivals.before_rename first in
      current-arrive name arrivals.before_link second
      ∙ ap (or_aside arrivals.before_link) (current-arrive name arrivals.before_rename first)
      ∙ ap (λ k. or_aside arrivals.before_link (or_aside arrivals.before_rename k))
          (current-arrive name arrivals.before_stat d)
      ∙ last

  -- Of all the files that stand for a name while it is settled, the one at the start (under the name,
  -- or else set aside) and those that an emitter renames in at any moment, the newest is not deleted
  -- unless it is the file that was read: it is under the name afterwards, or set aside with nothing
  -- under the name. This holds whatever the system refuses, in a directory without duplicate names.
  pub settle_file_keeps_newest :
      (d : Directory)
      → Dict.IsDict d
      → newest arrivals (current name d) ≡ some node
      → current name (settle_file faults arrivals name id d).0 ≡ some node
  unfolding settle_file
  settle_file_keeps_newest d h last =
      let (same, distinct) = put_back-current name faults d h in
      put_back-Stands (put_back faults name d) distinct (ap (newest arrivals) same ∙ last)
