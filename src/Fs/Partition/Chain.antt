-- ===== src/Fs/Partition/Chain.antt =====
-- The chain of logical partitions on the disk, and that the second loop reads all of it.
use finux.Prelude.{
  ℕ, zero, suc, ◌+◌, ◌≤◌, ◌<◌, ◌≡◌, ◌≢◌, refl, arith, false, true, ◌==◌, ==_iff, List, [], ◌∷◌,
  length, some, update,
}
use finux.Prelude.Bits.{u32}
use finux.Fs.{Loader, PartTable}
use finux.Fs.Partition.{entry_at, read_buf, read_chain}
use finux.Fs.Partition.Stored.{set_logical_lem}
use finux.Fs.Partition.Placed.{Placed, Placed-none, Placed-update}

module _ (stack : ℕ → ℕ) (disk : ℕ → ℕ → ℕ) (base : ℕ) where
  -- The two entries of the sector `lba` that the loop looks at.
  abbrev pub partition : (lba : ℕ) → PartTable
  partition lba = entry_at (read_buf stack lba disk) 0x1be

  abbrev pub link : (lba : ℕ) → PartTable
  link lba = entry_at (read_buf stack lba disk) 0x1ce

  -- The entries of the chain that starts in a sector: it ends in a sector whose first entry is
  -- empty, or whose second one is; else the second one gives the place of the next sector.
  pub data IsChain : (lba : ℕ) → List PartTable → Type 0 where
    empty : {lba : ℕ} → (partition lba).system_id ≡ 0 → IsChain lba []
    last :
        {lba : ℕ}
        → (partition lba).system_id ≢ 0
        → (link lba).system_id ≡ 0
        → IsChain lba (partition lba ∷ [])
    linked :
        {lba : ℕ} {entries : List PartTable}
        → (partition lba).system_id ≢ 0
        → (link lba).system_id ≢ 0
        → IsChain (u32 ((link lba).first_lba + base)) entries
        → IsChain lba (partition lba ∷ link lba ∷ entries)

module _ (stack : ℕ → ℕ) (s : Loader) (base : ℕ) where
  -- The loop stores the entries of a chain in `logical`, from `logic` on, when they have room there.
  pub read_chain-IsChain :
      (fuel logic lba : ℕ) (logical : ℕ → PartTable) (entries : List PartTable)
      → IsChain stack s.disk base lba entries
      → length entries < fuel
      → logic + length entries ≤ 10
      → 0 < logic
      → (logical 0).first_lba ≡ base
      → (after : ℕ → PartTable) × (read_chain stack fuel
            (read_buf stack lba s.disk)
            logic
            (record s { logical = logical })
          ≡ some (record s { logical = after }))
        × Placed entries logic logical after
  unfolding read_chain
  read_chain-IsChain zero logic lba logical entries chain enough room more same =
      absurd (omega (arith, enough))
  read_chain-IsChain (suc fuel) logic lba logical _ (empty none_here) enough room more same =
      let is_empty : ((partition stack s.disk base lba).system_id == 0) ≡ true =
        (==_iff _ _).1 none_here in
      (logical, rw is_empty refl, Placed-none logic logical)
  read_chain-IsChain (suc fuel) logic lba logical _ (last here no_link) enough room more same =
      let used : ((partition stack s.disk base lba).system_id == 0) ≡ false =
        ground (arith, here) in
      let is_empty : ((link stack s.disk base lba).system_id == 0) ≡ true =
        (==_iff _ _).1 no_link in
      (
        update logical logic (partition stack s.disk base lba),
        rw
            (
              used,
              set_logical_lem logic (partition stack s.disk base lba)
                  (record s { logical = logical }) (omega (arith, room)),
              is_empty,
            )
            refl,
        Placed-update (Placed-none (logic + 1) _),
      )
  read_chain-IsChain (suc fuel) logic lba logical _ (linked {entries} here next rest) enough room
        more same =
      let table = partition stack s.disk base lba in
      let link_entry = link stack s.disk base lba in
      let used : (table.system_id == 0) ≡ false = ground (arith, here) in
      let no_link : (link_entry.system_id == 0) ≡ false = ground (arith, next) in
      let now = update (update logical logic table) (logic + 1) link_entry in
      let first : (now 0).first_lba ≡ base = ground (arith, same) in
      let (after, reads, placed) =
        read_chain-IsChain fuel (logic + 2) (u32 (link_entry.first_lba + base)) now entries rest
          (omega (arith, enough)) (omega (arith, room)) (omega arith) first in
      let next_at : logic + 2 ≡ logic + 1 + 1 = omega arith in
      (
        after,
        rw
            (
              used,
              set_logical_lem logic table (record s { logical = logical }) (omega (arith, room)),
              no_link,
              set_logical_lem (logic + 1) link_entry
                  (record s { logical = update logical logic table }) (omega (arith, room)),
              first,
              reads,
            )
            refl,
        Placed-update (Placed-update (rw next_at at placed)),
      )
