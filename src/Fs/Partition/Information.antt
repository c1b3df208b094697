-- ===== src/Fs/Partition/Information.antt =====
-- What `get_part_information` makes of the tables on the disk.
use finux.Prelude.{
  ℕ, suc, ◌+◌, ◌≤◌, ◌<◌, ◌≡◌, ◌≢◌, refl, ◌∙◌, ap, arith, false, true, ◌==◌, ==_iff, List, ◌∷◌, ◌++◌,
  length, some, update,
}
use finux.Fs.{Loader, PartTable}
use finux.Fs.Partition.{entry_at, read_buf, read_primary, read_chain, get_part_information}
use finux.Fs.Partition.Stored.{set_logical_lem}
use finux.Fs.Partition.Placed.{Placed, Placed-append}
use finux.Fs.Partition.Primary.{
  IsTable, Reads, read_primary-Reads, read_primary-step, read_primary-stops, extended,
}
use finux.Fs.Partition.Chain.{IsChain, read_chain-IsChain}

module _ (stack : ℕ → ℕ) (s : Loader) where
  -- Sector 0, with what stands behind it on the stack.
  abbrev pub boot_sector : ℕ → ℕ
  boot_sector = read_buf stack 0 s.disk

  -- The arrays that the function leaves; the rest of the state is as before.
  pub record TablesRead (fuel : ℕ) (primary logical : List PartTable) : Type 0 where
    pub primary_after : ℕ → PartTable
    pub logical_after : ℕ → PartTable
    pub returns :
        get_part_information stack fuel s
        ≡ some (record s { primary = primary_after; logical = logical_after })
    pub placed : Placed primary 0 s.primary primary_after
    pub placed_logical : Placed logical 0 s.logical logical_after

  primary_loop :
      (entries : List PartTable)
      → IsTable boot_sector 5 0x1be entries
      → length entries ≤ 4
      → length (extended entries) ≤ 10
      → Reads boot_sector s entries 5 0 0x1be 0 s.primary s.logical
  primary_loop entries table room few =
      read_primary-Reads boot_sector s 5 0 0x1be 0 s.primary s.logical entries table (omega arith)
        (omega (arith, room)) (omega (arith, few))

  -- Let the first sector list `entries`, one of them at least for an extended partition, let a chain
  -- of `logical` entries start where the first of those says, let the fuel be more than their number,
  -- and let `primary`, of four entries, and `logical`, of ten, have room for all of them. Then `primary` holds the entries, and `logical` holds those of extended partitions, in
  -- their order, with the entries of the chain behind them. The rest is as before.
  pub get_part_information-TablesRead :
      (fuel : ℕ) (entries : List PartTable) (first : PartTable) (others logical : List PartTable)
      → IsTable boot_sector 5 0x1be entries
      → extended entries ≡ first ∷ others
      → IsChain stack s.disk first.first_lba first.first_lba logical
      → length logical < fuel
      → length entries ≤ 4
      → length (extended entries) + length logical ≤ 10
      → TablesRead fuel entries (extended entries ++ logical)
  unfolding get_part_information
  get_part_information-TablesRead fuel entries first others logical table has_extended chain enough
        room few =
      let r = primary_loop entries table room (omega (arith, few)) in
      let base : (r.logical_after 0).first_lba ≡ first.first_lba =
        let p : Placed (first ∷ others) 0 s.logical r.logical_after =
          rw has_extended at r.placed_extended in
        ap (λ t. t.first_lba) (p.inside 0 first (omega arith)) in
      let (after, reads, placed) =
        read_chain-IsChain stack (record s { primary = r.primary_after }) first.first_lba fuel
          (0 + length (extended entries)) first.first_lba r.logical_after logical chain enough
          (omega (arith, few)) (rw has_extended (omega arith)) base in
      record {
        primary_after = r.primary_after;
        logical_after = after;
        returns = rw (r.reads, base) reads;
        placed = r.placed;
        placed_logical = Placed-append r.placed_extended placed;
      }

  abbrev pub only_partition : PartTable
  only_partition = entry_at boot_sector 0x1be

  read_primary-only_partition :
      only_partition.system_id ≢ 0
      → only_partition.system_id ≢ 5
      → (entry_at boot_sector 0x1ce).system_id ≡ 0
      → read_primary boot_sector 5 0 0x1be 0 s
        ≡ some (0, record s { primary = update s.primary 0 only_partition })
  read_primary-only_partition here other behind =
      read_primary-step boot_sector s 4 0 0x1be 0 here other (omega arith) (omega arith)
      ∙ read_primary-stops boot_sector (record s { primary = update s.primary 0 only_partition }) 3
          1 0x1ce 0 behind

  read_chain-last :
      (fuel logic : ℕ) (buf : ℕ → ℕ) (before : Loader)
      → logic < 10
      → (entry_at buf 0x1be).system_id ≢ 0
      → (entry_at buf 0x1ce).system_id ≡ 0
      → read_chain stack (suc fuel) buf logic before
        ≡ some (record before { logical = update before.logical logic (entry_at buf 0x1be) })
  unfolding read_chain
  read_chain-last fuel logic buf before room here behind =
      let used : ((entry_at buf 0x1be).system_id == 0) ≡ false = ground (arith, here) in
      let ends : ((entry_at buf 0x1ce).system_id == 0) ≡ true = (==_iff _ _).1 behind in
      rw (used, set_logical_lem logic (entry_at buf 0x1be) before room, ends) refl

  -- When the first sector lists one partition, which is not an extended one, and `logical` is still
  -- zero, the second loop reads the first sector again and takes that partition for a logical one:
  -- it stands in `primary[0]` and in `logical[0]`.
  pub get_part_information-only_partition :
      (fuel : ℕ)
      → only_partition.system_id ≢ 0
      → only_partition.system_id ≢ 5
      → (entry_at boot_sector 0x1ce).system_id ≡ 0
      → (s.logical 0).first_lba ≡ 0
      → get_part_information stack (suc fuel) s
        ≡ some (record s {
          primary = update s.primary 0 only_partition;
          logical = update s.logical 0 only_partition;
        })
  unfolding get_part_information
  get_part_information-only_partition fuel here other behind zeroed =
      rw (read_primary-only_partition here other behind, zeroed)
        (read_chain-last fuel 0 boot_sector
          (record s { primary = update s.primary 0 only_partition }) (omega arith) here behind)
