-- ===== src/Fs/Format.antt =====
-- Making the file system, `make_fs` of boot/fs.c. What the locals hold before they are set, and what
-- stands in front of an array, are parameters.
pub mod Super
pub mod Layout
pub mod Choice
pub mod Made
use finux.Prelude.{
  ℕ, zero, suc, ◌+◌, ◌-◌, ◌*◌, ◌/◌, ◌%◌, not, ◌&&◌, ◌==◌, ltb, if◌then◌else◌, List, [], ◌∷◌, Option,
  none, some, update,
}
use finux.Prelude.Bits.{u32}
use finux.Fs.{
  primary_max_cnt, logic_max_cnt, Loader, PartTable, SuperBlock, Inode, word_at, word_bytes,
  sector_size, max_inode_cnt, inode_size, dir_entry_size,
}

abbrev pub finux_magic : ℕ
finux_magic = 563855

abbrev pub finux_sysid : ℕ
finux_sysid = 0xd

abbrev pub read_write : ℕ
read_write = 2

abbrev pub max_inode_sectors : ℕ
max_inode_sectors = (max_inode_cnt * inode_size + 511) / 512

-- `hd_write(lba, 1, buf)`
unfoldable pub write_sector : (lba : ℕ) → (ℕ → ℕ) → Loader → Loader
write_sector lba bytes s = record s { disk = update s.disk lba bytes }

abbrev pub zeros : ℕ → ℕ
zeros j = 0

-- `hd_write(start + i, 1, buf)` for the `left` rounds to go.
unfoldable pub write_zeros : (start left i : ℕ) → Loader → Loader
write_zeros start zero i s = s
write_zeros start (suc left) i s =
    write_zeros start left (i + 1) (write_sector (u32 (start + i)) zeros s)

-- Where the loops over the partitions stop: at the first one of the system, or behind the last.
unfoldable pub find_part : (left part : ℕ) → (ℕ → PartTable) → ℕ
find_part zero part table = part
find_part (suc left) part table =
    let rest = find_part left (part + 1) table in
    if (table part).system_id == finux_sysid then part else rest

-- The base for a logical partition; `logical[part-1]` is `before` for the first one.
abbrev pub logical_base : (before : PartTable) → (part : ℕ) → Loader → ℕ
logical_base before part s =
    let previous = if part == 0 then before else s.logical (part - 1) in
    let base = (s.logical 0).first_lba in
    if (previous.system_id == (s.logical 0).system_id) && not (part == 1)
    then u32 (base + previous.first_lba)
    else base

-- `Finux_part`, which is `unset` when nothing sets it, with `base_sector`; `none` is PANIC.
unfoldable pub find_finux_part : (unset before : PartTable) → Loader → Option (PartTable × ℕ)
find_finux_part unset before s =
    let prim = find_part primary_max_cnt 0 s.primary in
    let part = find_part logic_max_cnt 0 s.logical in
    if ltb prim primary_max_cnt
    then some (s.primary prim, (s.logical 0).first_lba)
    else if (s.logical 0).system_id == 0
    then some (unset, (s.logical 0).first_lba)
    else if ltb part logic_max_cnt
    then some (s.logical part, logical_base before part s)
    else none

-- The sectors of `size` bytes.
abbrev pub sectors_of : ℕ → ℕ
sectors_of size = size / 512 + (if size % 512 == 0 then 0 else 1)

-- `superblock`
unfoldable pub new_super_block : PartTable → (base_sector : ℕ) → SuperBlock
new_super_block part base_sector =
    let inode_map_start = u32 (base_sector + 2) in
    let sector_map_sectors = part.sector_cnt / 512 / 8 in
    let sector_map_start = u32 (inode_map_start + 1) in
    let inode_array_start = u32 (sector_map_start + sector_map_sectors) in
    let inode_sectors = sectors_of (max_inode_cnt * inode_size) in
    let root_start = u32 (inode_array_start + inode_sectors) in
    let root_sectors = sectors_of (inode_size * max_inode_cnt) in
    record {
      magic = finux_magic;
      inode_cnt = max_inode_cnt;
      sector_cnt = part.sector_cnt;
      inode_map_sectors = 1;
      inode_map_start = inode_map_start;
      sector_map_sectors = sector_map_sectors;
      sector_map_start = sector_map_start;
      inode_array_start = inode_array_start;
      first_data_sector = u32 (root_start + root_sectors);
      inode_sectors = inode_sectors;
      root_start = root_start;
      root_inode = 0;
      root_sectors = root_sectors;
      inode_size = inode_size;
      dir_ent_size = dir_entry_size;
    }

abbrev pub super_block_words : SuperBlock → List ℕ
super_block_words b =
    b.magic ∷ b.inode_cnt ∷ b.sector_cnt ∷ b.inode_map_sectors ∷ b.inode_map_start
    ∷ b.sector_map_sectors ∷ b.sector_map_start ∷ b.inode_array_start ∷ b.first_data_sector
    ∷ b.inode_sectors ∷ b.root_start ∷ b.root_inode ∷ b.root_sectors ∷ b.inode_size ∷ b.dir_ent_size
    ∷ []

-- The 512 bytes at `&superblock`: those behind the structure are what the stack holds.
abbrev pub super_block_sector : (stack : ℕ → ℕ) → SuperBlock → ℕ → ℕ
super_block_sector stack superblock j =
    if ltb j 60 then word_bytes (super_block_words superblock) j else stack j

-- `root_inode`
abbrev pub new_root_inode : SuperBlock → Inode
new_root_inode superblock = record {
  mode = read_write;
  file_size = u32 (superblock.root_sectors * 512);
  file_start_sect = superblock.root_start;
  file_sector_cnt = superblock.root_sectors;
}

-- The cleared buffer with an inode at its start.
abbrev pub inode_sector : Inode → ℕ → ℕ
inode_sector inode j =
    if ltb j inode_size
    then word_bytes
        (inode.mode ∷ inode.file_size ∷ inode.file_start_sect ∷ inode.file_sector_cnt ∷ []) j
    else 0

-- What `make_fs` writes.
unfoldable pub write_fs : (stack : ℕ → ℕ) → SuperBlock → (base_sector : ℕ) → Loader → Loader
write_fs stack superblock base_sector s =
    let s1 = write_sector (u32 (base_sector + 1)) (super_block_sector stack superblock) s in
    let s2 = write_zeros superblock.inode_array_start max_inode_sectors 0 s1 in
    let s3 =
      write_sector superblock.inode_array_start (inode_sector (new_root_inode superblock)) s2 in
    let s4 = write_sector superblock.inode_map_start (update zeros superblock.root_inode 1) s3 in
    let s5 = write_zeros superblock.sector_map_start superblock.sector_map_sectors 0 s4 in
    write_zeros superblock.root_start superblock.root_sectors 0 s5

-- How `make_fs` ends: it returns 1, it returns 0, or it panics.
pub data Making : Type 0 where
  made : Loader → Making
  found : Loader → Making
  no_partition : Making

-- What follows the choice of the partition.
unfoldable pub make_in : (stack : ℕ → ℕ) → Loader → Option (PartTable × ℕ) → Making
make_in stack s none = no_partition
make_in stack s (some (part, base)) =
    let base_sector = u32 (part.first_lba + base) in
    let s1 : Loader = record s { base_sector = base_sector } in
    let superblock = new_super_block part base_sector in
    if word_at (s.disk (u32 (base_sector + 1))) 0 == finux_magic
    then found s1
    else made (write_fs stack superblock base_sector s1)

unfoldable pub make_fs : (stack : ℕ → ℕ) → (unset before : PartTable) → Loader → Making
make_fs stack unset before s = make_in stack s (find_finux_part unset before s)
