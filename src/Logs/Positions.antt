-- ===== src/Logs/Positions.antt =====
-- `LogPositionStore` of stormpulse/logging/positions.py: the table log_positions as a dict of rows by
-- its primary key. The migration of old columns and values at opening is not modelled.
use storm_pulse.Base.{string_eq, pair_eq, nat_eq, ℕ, String, Option, none, some, List}
use storm_pulse.Base.Dict
use storm_pulse.Base.Dict.{Dict}
use storm_pulse.Base.Int.{ℤ, pos}
use storm_pulse.Logs.Receipt.{FileGeneration}
pub mod Cells

pub data SourceType : Type 0 where
  file docker journald : SourceType

pub record Row : Type 0 where
  pub source_type : SourceType
  pub file_path : Option String
  pub position : ℤ
  pub inode : Option ℕ
  pub last_ts : Option String
  pub cursor : Option String
  pub head_len : Option ℕ
  pub head_digest : Option (List ℕ)
  pub updated_at : ℕ

abbrev pub Store : Type 0
Store = Dict String Row

pub record Checkpoint : Type 0 where
  pub position : ℤ
  pub inode : Option ℕ
  pub generation : Option FileGeneration

-- what an INSERT leaves in the columns that it does not name; each names the source and the time
abbrev pub new_row : Row
new_row = record {
  source_type = file;
  file_path = none;
  position = pos 0;
  inode = none;
  last_ts = none;
  cursor = none;
  head_len = none;
  head_digest = none;
  updated_at = 0;
}

abbrev pub row_or_new : Option Row → Row
row_or_new none = new_row
row_or_new (some row) = row

-- INSERT ... ON CONFLICT(group_name) DO UPDATE: both give the named columns the same values
abbrev pub upsert : String → (Row → Row) → Store → Store
upsert group change s = Dict.put group (change (row_or_new (Dict.get group s))) s

abbrev pub generation_of : ℕ → Option ℕ → Option (List ℕ) → Option FileGeneration
generation_of i (some n) (some digest) =
    some (record { inode = i; head_len = n; head_digest = digest })
generation_of i n digest = none

abbrev pub row_checkpoint : ℤ → Option ℕ → Option ℕ → Option (List ℕ) → Checkpoint
row_checkpoint p none n digest = record { position = p; inode = none; generation = none }
row_checkpoint p (some i) n digest = record {
  position = p;
  inode = some i;
  generation = generation_of i n digest;
}

abbrev pub checkpoint_of : Option Row → Checkpoint
checkpoint_of none = record { position = pos 0; inode = none; generation = none }
checkpoint_of (some row) = row_checkpoint row.position row.inode row.head_len row.head_digest

unfoldable pub checkpoint : String → Store → Checkpoint
checkpoint group s = checkpoint_of (Dict.get group s)

abbrev pub get : String → Store → ℤ × Option ℕ
unfolding checkpoint
get group s = ((checkpoint group s).position, (checkpoint group s).inode)

abbrev pub head_len_of : Option FileGeneration → Option ℕ
head_len_of none = none
head_len_of (some g) = some g.head_len

abbrev pub head_digest_of : Option FileGeneration → Option (List ℕ)
head_digest_of none = none
head_digest_of (some g) = some g.head_digest

abbrev pub file_row : String → ℤ → ℕ → Option FileGeneration → ℕ → Row → Row
file_row path p i head now row = record row {
  source_type = file;
  file_path = some path;
  position = p;
  inode = some i;
  head_len = head_len_of head;
  head_digest = head_digest_of head;
  updated_at = now;
}

unfoldable pub set : String → String → ℤ → ℕ → Option FileGeneration → ℕ → Store → Store
set group path p i head now = upsert group (file_row path p i head now)

abbrev pub last_ts_of : Option Row → Option String
last_ts_of none = none
last_ts_of (some row) = row.last_ts

unfoldable pub get_docker_ts : String → Store → Option String
get_docker_ts group s = last_ts_of (Dict.get group s)

abbrev pub docker_row : String → String → ℕ → Row → Row
docker_row container ts now row = record row {
  source_type = docker;
  file_path = some container;
  last_ts = some ts;
  updated_at = now;
}

unfoldable pub set_docker_ts : String → String → String → ℕ → Store → Store
set_docker_ts group container ts now = upsert group (docker_row container ts now)

abbrev pub cursor_of : Option Row → Option String
cursor_of none = none
cursor_of (some row) = row.cursor

unfoldable pub get_cursor : String → Store → Option String
get_cursor group s = cursor_of (Dict.get group s)

abbrev pub journal_row : String → String → ℕ → Row → Row
journal_row unit c now row = record row {
  source_type = journald;
  file_path = some unit;
  cursor = some c;
  updated_at = now;
}

unfoldable pub set_cursor : String → String → String → ℕ → Store → Store
set_cursor group unit c now = upsert group (journal_row unit c now)
