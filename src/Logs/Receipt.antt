-- ===== src/Logs/Receipt.antt =====
-- `Receipt` and `holds_back` of stormpulse/logging/receipt.py.
use storm_pulse.Base.{
  if◌then◌else◌, ◌==◌, string_eq, pair_eq, nat_eq, ℕ, String, Bool, true, false, not, ◌&&◌, Option,
  some, List,
}
use storm_pulse.Base.Int.{ℤ, lt_int}

pub record FileGeneration : Type 0 where
  pub inode : ℕ
  pub head_len : ℕ
  pub head_digest : List ℕ

-- an offset in a file, or an opaque cursor or time
pub data Position : Type 0 where
  offset : ℤ → Position
  cursor : String → Position

pub record Receipt : Type 0 where
  pub group : String
  pub source : String
  pub generation : Option FileGeneration
  pub from_position : Position
  pub to_position : Position

abbrev pub other_inode : Option FileGeneration → Option FileGeneration → Bool
other_inode (some old) (some new) = not (old.inode == new.inode)
other_inode o n = false

abbrev pub starts_before : Position → Position → Bool
starts_before (offset start) (offset stop) = lt_int start stop
starts_before p q = true

unfoldable pub holds_back : Receipt → Receipt → Bool
holds_back pending read =
    if not (pending.group == read.group && pending.source == read.source)
    then false
    else if other_inode pending.generation read.generation
    then false
    else starts_before pending.from_position read.to_position
