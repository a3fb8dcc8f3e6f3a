-- ===== src/Logs/Positions/Cells.antt =====
-- The store of positions (stormpulse/logging/positions.py) is what it promises to be: for each group
-- three cells, of which a write changes one.
use storm_pulse.Base.{
  if◌then◌else◌, Bool-cases, ◌==◌, string_eq, pair_eq, nat_eq, ℕ, String, ◌≡◌, refl, ap, ◌∙◌, inl,
  inr, Option, none, some, List, [], ◌∷◌,
}
use storm_pulse.Base.Dict
use storm_pulse.Base.Dict.{Dict}
use storm_pulse.Base.Int.{ℤ}
use storm_pulse.Logs.Receipt.{FileGeneration}
use storm_pulse.Logs.Positions.{
  journal_row, file_row, docker_row, cursor_of, last_ts_of, checkpoint_of, Row, Store, Checkpoint,
  row_or_new, upsert, checkpoint, set, get_docker_ts, set_docker_ts, get_cursor, set_cursor,
}

pub data Write : Type 0 where
  write_file : String → String → ℤ → ℕ → Option FileGeneration → ℕ → Write
  write_docker write_journal : String → String → String → ℕ → Write

abbrev pub written : Write → Store → Store
unfolding set set_docker_ts set_cursor
written (write_file group path p i head now) = set group path p i head now
written (write_docker group container ts now) = set_docker_ts group container ts now
written (write_journal group unit c now) = set_cursor group unit c now

abbrev pub group_of : Write → String
group_of (write_file group path p i head now) = group
group_of (write_docker group container ts now) = group
group_of (write_journal group unit c now) = group

-- what the store answers for a group
pub record Cells : Type 0 where
  pub checkpoint : Checkpoint
  pub docker_ts : Option String
  pub cursor : Option String

abbrev pub cells_of : Option Row → Cells
cells_of o = record { checkpoint = checkpoint_of o; docker_ts = last_ts_of o; cursor = cursor_of o }

abbrev pub cells : String → Store → Cells
unfolding checkpoint get_docker_ts get_cursor
cells group s = record {
  checkpoint = checkpoint group s;
  docker_ts = get_docker_ts group s;
  cursor = get_cursor group s;
}

-- the head of the file, with the inode of the call
abbrev pub at_inode : ℕ → Option FileGeneration → Option FileGeneration
at_inode i none = none
at_inode i (some g) = some (record g { inode = i })

abbrev pub in_cells : Write → Cells → Cells
in_cells (write_file group path p i head now) c = record c {
  checkpoint = record { position = p; inode = some i; generation = at_inode i head };
}
in_cells (write_docker group container ts now) c = record c { docker_ts = some ts }
in_cells (write_journal group unit k now) c = record c { cursor = some k }

-- the abstract store: for one group, the writes of that group in turn
abbrev pub in_group : String → List Write → Cells → Cells
in_group j [] c = c
in_group j (w ∷ ws) c = in_group j ws (if group_of w == j then in_cells w c else c)

abbrev pub written_all : List Write → Store → Store
written_all [] s = s
written_all (w ∷ ws) s = written_all ws (written w s)

upsert-cells :
    (group : String) (change : Row → Row) (f : Cells → Cells)
    → ((o : Option Row) → cells_of (some (change (row_or_new o))) ≡ f (cells_of o))
    → (s : Store) (j : String)
    → cells_of (Dict.get j (upsert group change s))
      ≡ (if group == j then f (cells_of (Dict.get j s)) else cells_of (Dict.get j s))
upsert-cells group change f same s j = elim (Bool-cases (group == j)) [
  | inl e ↦
      let k : group ≡ j = (string_eq.beq_iff group j).0 e in
      rw (Dict.get-put group j (change (row_or_new (Dict.get group s))) s, e, k)
        (same (Dict.get j s))
  | inr e ↦ rw (Dict.get-put group j (change (row_or_new (Dict.get group s))) s, e) refl
]

file_row-cells :
    (path : String) (p : ℤ) (i : ℕ) (head : Option FileGeneration) (now : ℕ) (o : Option Row)
    → cells_of (some (file_row path p i head now (row_or_new o)))
      ≡ in_cells (write_file "" path p i head now) (cells_of o)
file_row-cells path p i none now none = refl
file_row-cells path p i none now (some row) = refl
file_row-cells path p i (some g) now none = refl
file_row-cells path p i (some g) now (some row) = refl

docker_row-cells :
    (container ts : String) (now : ℕ) (o : Option Row)
    → cells_of (some (docker_row container ts now (row_or_new o)))
      ≡ in_cells (write_docker "" container ts now) (cells_of o)
docker_row-cells container ts now none = refl
docker_row-cells container ts now (some row) = refl

journal_row-cells :
    (unit c : String) (now : ℕ) (o : Option Row)
    → cells_of (some (journal_row unit c now (row_or_new o)))
      ≡ in_cells (write_journal "" unit c now) (cells_of o)
journal_row-cells unit c now none = refl
journal_row-cells unit c now (some row) = refl

cells-written :
    (w : Write) (s : Store) (j : String)
    → cells j (written w s) ≡ (if group_of w == j then in_cells w (cells j s) else cells j s)
unfolding checkpoint get_docker_ts get_cursor set set_docker_ts set_cursor
cells-written (write_file group path p i head now) s j =
    upsert-cells group (file_row path p i head now) (in_cells (write_file group path p i head now))
      (file_row-cells path p i head now) s j
cells-written (write_docker group container ts now) s j =
    upsert-cells group (docker_row container ts now)
      (in_cells (write_docker group container ts now)) (docker_row-cells container ts now) s j
cells-written (write_journal group unit c now) s j =
    upsert-cells group (journal_row unit c now) (in_cells (write_journal group unit c now))
      (journal_row-cells unit c now) s j

-- After any writes, what the store answers for a group is what the writes of that group made of its
-- cells, in turn: a checkpoint is read back as it was written, with the inode of its write, and a
-- write changes neither another group nor the other two cells of its own.
pub cells-written_all :
    (ws : List Write) (s : Store) (j : String)
    → cells j (written_all ws s) ≡ in_group j ws (cells j s)
cells-written_all [] s j = refl
cells-written_all (w ∷ ws) s j =
    cells-written_all ws (written w s) j ∙ ap (in_group j ws) (cells-written w s j)
