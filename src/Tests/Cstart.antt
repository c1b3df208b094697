-- ===== src/Tests/Cstart.antt =====
-- Starts from a disk with one partition: with a kernel in its file system, and without a file system.
use finux.Prelude.{
  ℕ, ◌+◌, ◌-◌, ◌%◌, ◌<◌, ◌≡◌, ◌≢◌, refl, ◌∙◌, sym, arith, inl, inr, true, not, ◌==◌, ==_iff, leb,
  if◌then◌else◌, [], ◌∷◌, get_or, some, update,
}
use finux.Prelude.Table.{all_below, all_below_sound}
use finux.Display.{literal}
use finux.Strings.Compare.{IsString}
use finux.Tests.Blank.{no_part, zeros, places, blank_loader}
use finux.Fs.{Loader, loaded, PartTable, SuperBlock, read_super_block}
use finux.Fs.Find.{Finds, first}
use finux.Fs.Names.{Names, Names-Compares}
use finux.Fs.Image.{Fits}
use finux.Fs.Partition.{get_part_information}
use finux.Fs.Partition.Information.{get_part_information-only_partition}
use finux.Fs.Format.{find_part, find_finux_part, new_super_block, super_block_sector}
use finux.Fs.Format.Layout.{Formatted, super_at, new_super_block-super_at, super_sector-reads}
use finux.Fs.Format.Made.{InRange}
use finux.Cstart.{Stacks, formatted, loading, load_tables, start_kernel_from_disk}
use finux.Cstart.Loads.{Arranged, TablesLoaded, load_tables-TablesLoaded}
use finux.Cstart.Boots.{
  InMemory, IsVolume, found_at, looking, start_kernel_from_disk-InMemory,
  start_kernel_from_disk-formatted,
}

abbrev pub part : PartTable
part = record { system_id = 13; first_lba = 63; sector_cnt = 8192 }

abbrev pub stacks : Stacks
stacks = record { tables = zeros; super = zeros; unset = no_part; before = no_part }

abbrev pub name_at : ℕ → ℕ → ℕ
name_at place a = if leb place a then get_or (literal "vmFinux.core") (a - place) 0 else 0

abbrev pub table : ℕ → ℕ
table j = if j == 450 then 13 else if j == 454 then 63 else if j == 459 then 32 else 0

abbrev pub loader : (ℕ → ℕ → ℕ) → (ℕ → PartTable) → Loader
loader disk tables = record (blank_loader disk) {
  memory = name_at 7000;
  primary = tables;
  logical = tables;
}

abbrev with_part : ℕ → PartTable
with_part = update (λ i. no_part) 0 part

abbrev pub super_126 : SuperBlock
super_126 = super_at zeros part 126 (loader (λ l. zeros) (λ i. no_part))

-- The kernel has inode 1: 700 bytes in two sectors from 300 on.
abbrev pub volume : ℕ → ℕ → ℕ
volume l j =
    if l == 0
    then table j
    else if l == 127
    then super_block_sector zeros super_126 j
    else if l == 131
    then get_or (2 ∷ 0 ∷ 0 ∷ 0 ∷ 188 ∷ 2 ∷ 0 ∷ 0 ∷ 44 ∷ 1 ∷ 0 ∷ 0 ∷ 2 ∷ []) (j - 16) 0
    else if l == 135
    then (if j == 0 then 1 else name_at 4 j)
    else (l + j) % 256

abbrev before_tables : Loader
before_tables = loader volume (λ i. no_part)

abbrev after_tables : Loader
after_tables = loader volume with_part

reads_tables : get_part_information zeros 1 before_tables ≡ some after_tables
reads_tables =
    get_part_information-only_partition zeros before_tables 0 (omega arith) (omega arith) refl refl

in_range : InRange no_part no_part after_tables part 63
unfolding find_finux_part find_part
in_range = record { chosen = refl; sectors = omega arith; small = omega arith }

is_formatted : read_super_block (volume 127) ≡ new_super_block part 126
is_formatted =
    super_sector-reads zeros part 126 (loader (λ l. zeros) (λ i. no_part)) (omega arith)
      (omega arith)
    ∙ sym
        (new_super_block-super_at zeros part 126 (loader (λ l. zeros) (λ i. no_part)) (omega arith))

is_volume : IsVolume places stacks before_tables after_tables part 63
is_volume = record { in_range = in_range; formatted_at = is_formatted }

arranged : Arranged places
arranged = record {
  tmp_fits = omega arith;
  root_fits = omega arith;
  inode_fits = omega arith;
  root_tmp = inr (omega arith);
  inode_tmp = inr (omega arith);
  inode_root = inr (omega arith);
}

-- The addresses of the link listing, boot/obj.s: what is written behind the inodes reaches into the
-- root directory.
listed-Arranged :
    Arranged
      (record { tmp_buf = 0xcce0; root_area = 0xd5a0; inode_array = 0xcf20; kernel_name = 0xa8fe })
listed-Arranged = record {
  tmp_fits = omega arith;
  root_fits = omega arith;
  inode_fits = omega arith;
  root_tmp = inr (omega arith);
  inode_tmp = inr (omega arith);
  inode_root = inl (omega arith);
}

abbrev searched : Loader
searched = looking places stacks before_tables after_tables part 63

tables_loaded :
    TablesLoaded places part
      (found_at places stacks before_tables after_tables part 63)
      (load_tables places (found_at places stacks before_tables after_tables part 63))
tables_loaded =
    load_tables-TablesLoaded places (found_at places stacks before_tables after_tables part 63) part
      arranged (omega arith) is_formatted

name_kept : (i : ℕ) → searched.memory (7000 + i) ≡ name_at 7000 (7000 + i)
name_kept i =
    tables_loaded.others (7000 + i) (inr (omega arith)) (inr (omega arith)) (inr (omega arith))

bytes_all : all_below 12 (λ i. not (name_at 7000 (7000 + i) == 0)) ≡ true
unfolding all_below
bytes_all = refl

names_all : all_below 11 (λ i. name_at 7000 (7000 + i) == volume 135 (4 + i)) ≡ true
unfolding all_below
names_all = refl

name-IsString : IsString searched.memory 7000 12
name-IsString = record { bytes = bytes; end = name_kept 12; fits = omega arith }
  where
    bytes : (i : ℕ) → i < 12 → searched.memory (7000 + i) ≢ 0
    bytes i low =
        let some_byte =
          all_below_sound 12 (λ i. not (name_at 7000 (7000 + i) == 0)) i bytes_all low in
        rw (name_kept i) (ground (some_byte, arith))

entry_0-Names : Names places 7000 searched.memory 0
entry_0-Names i low =
    let at : 2000 + (4 + i) ≡ 2004 + i = omega arith in
    name_kept i
    ∙ (==_iff _ _).0
        (all_below_sound 11 (λ i. name_at 7000 (7000 + i) == volume 135 (4 + i)) i names_all low)
    ∙ sym (rw at at (tables_loaded.root (4 + i) (omega arith)))

finds : Finds places 12 7000 searched.memory (some 0)
finds =
    first (omega arith) (λ k low. absurd (omega arith))
      (Names-Compares places 7000 searched.memory 0 0 name-IsString entry_0-Names (omega arith)
        (tables_loaded.root 16 (omega arith)))

kernel-Fits :
    Fits places 12 4016
      (record { mode = 2; file_size = 700; file_start_sect = 300; file_sector_cnt = 2 })
kernel-Fits = record {
  lba = omega arith;
  image = omega arith;
  apart = inr (omega arith);
  size = omega arith;
  place = omega arith;
  kept = inl (omega arith);
  kept_tmp = inr (omega arith);
  enough = omega arith;
}

start_kernel_from_disk-InMemory_example :
    (after : Loader) × (start_kernel_from_disk places stacks 1 12 5 before_tables
      ≡ some (loading (loaded after)))
    × InMemory
        (record { mode = 2; file_size = 700; file_start_sect = 300; file_sector_cnt = 2 })
        5
        volume
        after
start_kernel_from_disk-InMemory_example =
    start_kernel_from_disk-InMemory places stacks before_tables after_tables part 63 1 12 5 0
      reads_tables is_volume arranged finds (omega arith) (omega arith) kernel-Fits (omega arith)

-- The same table on a disk that is blank otherwise.
abbrev blank : ℕ → ℕ → ℕ
blank l j = if l == 0 then table j else 0

reads_blank :
    get_part_information zeros 1 (loader blank (λ i. no_part)) ≡ some (loader blank with_part)
reads_blank =
    get_part_information-only_partition zeros (loader blank (λ i. no_part)) 0 (omega arith)
      (omega arith) refl refl

blank_in_range : InRange no_part no_part (loader blank with_part) part 63
unfolding find_finux_part find_part
blank_in_range = record { chosen = refl; sectors = omega arith; small = omega arith }

start_kernel_from_disk-formatted_example :
    (after : Loader) × (start_kernel_from_disk places stacks 1 12 5 (loader blank (λ i. no_part))
      ≡ some (formatted after))
    × Formatted part 126 blank after.disk
start_kernel_from_disk-formatted_example =
    start_kernel_from_disk-formatted places stacks (loader blank (λ i. no_part))
      (loader blank with_part) part 63 1 12 5 reads_blank blank_in_range (omega arith)
