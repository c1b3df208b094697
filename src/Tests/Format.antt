-- ===== src/Tests/Format.antt =====
-- Disks with one partition, with a chain of logical ones, and without a file system.
use finux.Prelude.{ℕ, ◌≡◌, refl, arith, ◌==◌, if◌then◌else◌, [], ◌∷◌, some, update}
use finux.Tests.Blank.{no_part, zeros, places, blank_loader}
use finux.Fs.{Loader, PartTable, get_super_block}
use finux.Fs.Partition.{entry_at}
use finux.Fs.Partition.Primary.{entry, end}
use finux.Fs.Partition.Chain.{last}
use finux.Fs.Partition.Information.{boot_sector, TablesRead, get_part_information-TablesRead}
use finux.Fs.Format.{find_part, find_finux_part, make_fs, new_super_block, made, found}
use finux.Fs.Format.Choice.{First, from_logical, find_finux_part-Chooses}
use finux.Fs.Format.Made.{InRange, make_fs-again}

abbrev loader : (ℕ → ℕ → ℕ) → (ℕ → PartTable) → (ℕ → PartTable) → Loader
loader disk primary logical = record (blank_loader disk) { primary = primary; logical = logical }

-- A partition of the system, an extended one from sector 100 on, and one logical partition in it.
abbrev chained : ℕ → ℕ → ℕ
chained l j =
    if l == 0
    then (if j == 450 then 13 else if j == 466 then 5 else if j == 470 then 100 else 0)
    else if l == 100
    then (if j == 450 then 13 else 0)
    else 0

abbrev start : (ℕ → ℕ → ℕ) → Loader
start disk = loader disk (λ i. no_part) (λ i. no_part)

get_part_information-TablesRead_example :
    TablesRead zeros
      (start chained)
      3
      (entry_at (boot_sector zeros (start chained)) 446
        ∷ entry_at (boot_sector zeros (start chained)) 462
        ∷ [])
      (entry_at (boot_sector zeros (start chained)) 462
        ∷ record { system_id = 13; first_lba = 0; sector_cnt = 0 }
        ∷ [])
get_part_information-TablesRead_example =
    get_part_information-TablesRead zeros (start chained) 3
      (entry_at (boot_sector zeros (start chained)) 446
        ∷ entry_at (boot_sector zeros (start chained)) 462
        ∷ [])
      (entry_at (boot_sector zeros (start chained)) 462) []
      (record { system_id = 13; first_lba = 0; sector_cnt = 0 } ∷ [])
      (entry (omega arith) (entry (omega arith) (end refl))) refl (last (omega arith) refl)
      (omega arith) (omega arith) (omega arith)

-- The second of two logical partitions is the system's.
abbrev two_logical : ℕ → PartTable
two_logical =
    update (update (λ i. no_part) 0 (record { system_id = 5; first_lba = 100; sector_cnt = 90 })) 1
      (record { system_id = 13; first_lba = 1; sector_cnt = 80 })

find_finux_part-Chooses_example :
    find_finux_part no_part no_part (loader chained (λ i. no_part) two_logical)
    ≡ some (record { system_id = 13; first_lba = 1; sector_cnt = 80 }, 100)
find_finux_part-Chooses_example =
    find_finux_part-Chooses no_part no_part (loader chained (λ i. no_part) two_logical)
      (some (record { system_id = 13; first_lba = 1; sector_cnt = 80 }, 100))
      (from_logical {p = 1} (λ k low. omega arith) (omega arith) second)
  where
    second : First two_logical 10 1
    second = record { low = omega arith; before = λ k low. ground (arith, low); here = refl }

-- A partition from sector 63 on, on a blank disk.
abbrev part : PartTable
part = record { system_id = 13; first_lba = 63; sector_cnt = 8192 }

abbrev blank : Loader
blank = loader (λ l. zeros) (update (λ i. no_part) 0 part) (λ i. no_part)

fits : InRange no_part no_part blank part 0
unfolding find_finux_part find_part
fits = record { chosen = refl; sectors = omega arith; small = omega arith }

make_fs-again_example :
    (after : Loader) × (make_fs zeros no_part no_part blank ≡ made after)
    × ((other_stack : ℕ → ℕ) → make_fs other_stack no_part no_part after ≡ found after)
    × ((get_super_block places after).super_block ≡ new_super_block part 63)
make_fs-again_example = make_fs-again no_part no_part blank part 0 zeros places fits (omega arith)
