-- ===== src/Fs/Alone.antt =====
-- A disk with one partition: what `get_part_information` and `make_fs` make of it together.
use finux.Prelude.{ℕ, suc, ◌+◌, ◌^◌, ◌<◌, ◌≡◌, ◌≢◌, arith, some, update}
use finux.Fs.{Loader, PartTable, word_at}
use finux.Fs.Partition.{entry_at, get_part_information}
use finux.Fs.Partition.Information.{
  boot_sector, only_partition, get_part_information-only_partition,
}
use finux.Fs.Format.{find_finux_part}
use finux.Fs.Format.Choice.{First, from_primary, find_finux_part-Chooses}
use finux.Fs.Format.Layout.{map_sectors}
use finux.Fs.Format.Made.{Made, make_fs-Made}

module _ (stack : ℕ → ℕ) (unset before : PartTable) (s : Loader) where
  abbrev only : PartTable
  only = only_partition stack s

  -- The tables after `get_part_information`.
  abbrev pub with_tables : Loader
  with_tables = record s { primary = update s.primary 0 only; logical = update s.logical 0 only }

  chosen :
      only.system_id ≡ 0xd → find_finux_part unset before with_tables ≡ some (only, only.first_lba)
  chosen finux =
      let is_first : First with_tables.primary 4 0 = record {
        low = omega arith;
        before = λ k low. absurd (omega arith);
        here = finux;
      } in
      find_finux_part-Chooses unset before with_tables _ (from_primary is_first)

  -- Let the first sector list one partition, of the system, and let `logical` be zero, as at the
  -- start. Then the file system is not made in the partition, but from twice its first sector on:
  -- with no magic number behind that sector and with sector numbers below 2^32, `make_fs` lays it out
  -- from there.
  pub make_fs-only_partition :
      (fuel : ℕ)
      → only.system_id ≡ 0xd
      → (entry_at (boot_sector stack s) 0x1ce).system_id ≡ 0
      → (s.logical 0).first_lba ≡ 0
      → only.first_lba + only.first_lba + 11 + map_sectors only < 2 ^ 32
      → only.sector_cnt < 2 ^ 32
      → word_at (s.disk (only.first_lba + only.first_lba + 1)) 0 ≢ 563855
      → (get_part_information stack (suc fuel) s ≡ some with_tables)
        × Made unset before with_tables only only.first_lba stack
  make_fs-only_partition fuel finux behind zeroed sectors small blank = (
    get_part_information-only_partition stack s fuel (omega (arith, finux)) (omega (arith, finux))
        behind zeroed,
    make_fs-Made unset before with_tables only only.first_lba stack
        (record { chosen = chosen finux; sectors = sectors; small = small }) blank,
  )
