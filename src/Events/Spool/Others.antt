-- ===== src/Events/Spool/Others.antt =====
-- Settling a segment (`_settle` of stormpulse/agent/event_spool.py) touches no other name.
use storm_pulse.Base.{
  ◌==◌, string_eq, pair_eq, nat_eq, String, ◌≡◌, refl, ◌∙◌, Bool, true, false, ◌||◌, Option, none,
  some,
}
use storm_pulse.Base.Dict
use storm_pulse.Base.Dict.{Dict}
use storm_pulse.Events.Spool.Files.{
  Identity, Node, Name, named, aside, name_eq, Directory, Faults, Arrivals, unlink_aside, link_back,
  put_back, arrive, matches_read, settle_aside, rename_aside, holds_directory, settle_named,
  after_put_back, settle_file,
}
use storm_pulse.Events.Spool.Newest.{either_way}

module _ (faults : Faults) (arrivals : Arrivals) (name : String) (id : Option Identity) (m : Name)
    (not_named : (named name == m) ≡ false) (not_aside : (aside name == m) ≡ false) where
  put-other :
      (node : Node) (d : Directory) → Dict.get m (Dict.put (named name) node d) ≡ Dict.get m d
  put-other node d = Dict.get-put (named name) m node d ∙ (rw not_named refl)

  arrive-other : (o : Option Node) (d : Directory) → Dict.get m (arrive name o d) ≡ Dict.get m d
  arrive-other none d = refl
  arrive-other (some node) d = put-other node d

  remove-other : (d : Directory) → Dict.get m (Dict.remove (aside name) d) ≡ Dict.get m d
  remove-other d = Dict.get-remove_ne (aside name) m d not_aside

  -- What `d` holds under `m` is what it held.
  abbrev Same : Directory → Directory × Bool → Type 0
  Same d r = Dict.get m r.0 ≡ Dict.get m d

  unlink_aside-other : (d : Directory) → Same d (unlink_aside faults name d)
  unlink_aside-other d = either_way (Same d) faults.unlink _ _ (λ k. refl) (λ k. remove-other d)

  link_back-other : (o : Option Node) (d : Directory) → Same d (link_back faults name o d)
  link_back-other none d = refl
  link_back-other (some node) d =
      either_way (Same d) (Dict.has (named name) d) _ _ (λ k. unlink_aside-other d)
        (λ k.
          either_way (Same d) (faults.link || node.is_directory) _ _ (λ j. refl)
            (λ j. unlink_aside-other (Dict.put (named name) node d) ∙ put-other node d))

  put_back-other : (d : Directory) → Same d (put_back faults name d)
  unfolding put_back
  put_back-other d = link_back-other (Dict.get (aside name) d) d

  settle_aside-other : (node : Node) (d : Directory) → Same d (settle_aside faults name id node d)
  settle_aside-other node d =
      either_way (Same d) (matches_read id node) _ _
        (λ k. either_way (Same d) faults.unlink _ _ (λ j. put_back-other d) (λ j. remove-other d))
        (λ k. put_back-other d)

  rename_aside-other :
      (o : Option Node) (d : Directory) → Same d (rename_aside faults arrivals name id o d)
  rename_aside-other none d = arrive-other arrivals.before_link d
  rename_aside-other (some node) d =
      let gone = Dict.remove (named name) d in
      let moved = Dict.put (aside name) node gone in
      either_way (Same d) faults.rename _ _ (λ k. arrive-other arrivals.before_link d)
        (λ k.
          settle_aside-other node (arrive name arrivals.before_link moved)
          ∙ arrive-other arrivals.before_link moved
          ∙ Dict.get-put (aside name) m node gone
          ∙ rw not_aside (Dict.get-remove_ne (named name) m d not_named))

  settle_named-other : (d : Directory) → Same d (settle_named faults arrivals name id d)
  settle_named-other d =
      let met = arrive name arrivals.before_rename d in
      let same = arrive-other arrivals.before_rename d in
      either_way (Same d) (holds_directory (Dict.get (named name) d)) _ _
        (λ k. arrive-other arrivals.before_link met ∙ same)
        (λ k. rename_aside-other (Dict.get (named name) met) met ∙ same)

  after_put_back-other :
      (r : Directory × Bool) → Same r.0 (after_put_back faults arrivals name id r)
  after_put_back-other (d, true) =
      settle_named-other (arrive name arrivals.before_stat d) ∙ arrive-other arrivals.before_stat d
  after_put_back-other (d, false) =
      let first = arrive name arrivals.before_stat d in
      let second = arrive name arrivals.before_rename first in
      arrive-other arrivals.before_link second
      ∙ arrive-other arrivals.before_rename first
      ∙ arrive-other arrivals.before_stat d

  -- Settling a segment leaves what is held under any name but the segment's own and its aside's.
  pub settle_file_leaves_others :
      (d : Directory) → Dict.get m (settle_file faults arrivals name id d).0 ≡ Dict.get m d
  unfolding settle_file
  settle_file_leaves_others d = after_put_back-other (put_back faults name d) ∙ put_back-other d
