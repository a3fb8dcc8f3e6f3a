-- ===== src/Events/Spool/Files.antt =====
-- The file operations of a settled segment (`_settle` and `_put_back` of
-- stormpulse/agent/event_spool.py) on the spool's directory: a dict of what each name holds. Which
-- operations the system refuses, and the files that an emitter renames in meanwhile, come from outside.
use storm_pulse.Base.{
  if◌then◌else◌, Eq, ◌==◌, string_eq, pair_eq, nat_eq, ℕ, String, ◌≡◌, ◌↔◌, Bool, true, false, ◌||◌,
  Option, none, some, arith,
}
use storm_pulse.Base.Dict
use storm_pulse.Base.Dict.{Dict}

abbrev pub Identity : Type 0
Identity = ℕ × ℕ

pub record Node : Type 0 where
  pub identity : Identity
  pub is_directory : Bool

-- A segment under its name, or set aside under the private name of settling.
pub data Name : Type 0 where
  named aside : String → Name

abbrev name_beq : Name → Name → Bool
name_beq (named a) (named b) = a == b
name_beq (aside a) (aside b) = a == b
name_beq m n = false

pub name_beq_iff : (m n : Name) → (name_beq m n ≡ true) ↔ (m ≡ n)
name_beq_iff (named a) (named b) = ground (arith, string_eq.beq_iff a b)
name_beq_iff (aside a) (aside b) = ground (arith, string_eq.beq_iff a b)
name_beq_iff (named a) (aside b) = ground arith
name_beq_iff (aside a) (named b) = ground arith

instance abbrev pub name_eq : Eq Name
name_eq = record { beq = name_beq; beq_iff = name_beq_iff }

abbrev pub Directory : Type 0
Directory = Dict Name Node

-- the operations that fail with an OSError of their own
pub record Faults : Type 0 where
  pub link : Bool
  pub unlink : Bool
  pub rename : Bool

abbrev pub unlink_aside : Faults → String → Directory → Directory × Bool
unlink_aside faults name d =
    if faults.unlink then (d, false) else (Dict.remove (aside name) d, true)

abbrev pub link_back : Faults → String → Option Node → Directory → Directory × Bool
link_back faults name none d = (d, true)
link_back faults name (some node) d =
    if Dict.has (named name) d
    then unlink_aside faults name d
    else if faults.link || node.is_directory
    then (d, false)
    else unlink_aside faults name (Dict.put (named name) node d)

-- `_put_back`: true once nothing is left aside
unfoldable pub put_back : Faults → String → Directory → Directory × Bool
put_back faults name d = link_back faults name (Dict.get (aside name) d) d

-- What an emitter renames in under the name, at any moment, the last of several counting: before
-- `os.lstat` looks at the name, then before it is renamed aside, then before it is linked back or the
-- end. Between a link and an unlink of the aside the emitter's rename touches neither, and counts with
-- the next moment.
pub record Arrivals : Type 0 where
  pub before_stat : Option Node
  pub before_rename : Option Node
  pub before_link : Option Node

abbrev pub arrive : String → Option Node → Directory → Directory
arrive name none d = d
arrive name (some node) d = Dict.put (named name) node d

abbrev pub matches_read : Option Identity → Node → Bool
matches_read none node = false
matches_read (some id) node = node.identity == id

-- with the segment aside; the Boolean is whether it is parked
abbrev pub settle_aside : Faults → String → Option Identity → Node → Directory → Directory × Bool
settle_aside faults name id node d =
    if matches_read id node
    then if faults.unlink
      then ((put_back faults name d).0, true)
      else (Dict.remove (aside name) d, false)
    else ((put_back faults name d).0, false)

-- os.rename of what the name holds
abbrev pub rename_aside :
    Faults → Arrivals → String → Option Identity → Option Node → Directory → Directory × Bool
rename_aside faults arrivals name id none d = (arrive name arrivals.before_link d, false)
rename_aside faults arrivals name id (some node) d =
    if faults.rename
    then (arrive name arrivals.before_link d, true)
    else settle_aside faults name id node
        (arrive name arrivals.before_link (Dict.put (aside name) node (Dict.remove (named name) d)))

abbrev pub rename_next : Faults → Arrivals → String → Option Identity → Directory → Directory × Bool
rename_next faults arrivals name id d =
    rename_aside faults arrivals name id (Dict.get (named name) d) d

-- stat.S_ISDIR of what the name holds; nothing is no directory
abbrev pub holds_directory : Option Node → Bool
holds_directory none = false
holds_directory (some node) = node.is_directory

abbrev pub settle_named :
    Faults → Arrivals → String → Option Identity → Directory → Directory × Bool
settle_named faults arrivals name id d =
    if holds_directory (Dict.get (named name) d)
    then (arrive name arrivals.before_link (arrive name arrivals.before_rename d), true)
    else rename_next faults arrivals name id (arrive name arrivals.before_rename d)

abbrev pub after_put_back :
    Faults → Arrivals → String → Option Identity → Directory × Bool → Directory × Bool
after_put_back faults arrivals name id (d, false) = (
  arrive name arrivals.before_link
      (arrive name arrivals.before_rename (arrive name arrivals.before_stat d)),
  true,
)
after_put_back faults arrivals name id (d, true) =
    settle_named faults arrivals name id (arrive name arrivals.before_stat d)

-- `_settle`, and the directory once the moments of the arrivals have passed
unfoldable pub settle_file :
    Faults → Arrivals → String → Option Identity → Directory → Directory × Bool
unfolding put_back
settle_file faults arrivals name id d =
    after_put_back faults arrivals name id (put_back faults name d)
