-- ===== src/Cstart/Boots.antt =====
-- From the partition tables to the kernel in memory.
use finux.Prelude.{ℕ, ◌+◌, ◌*◌, ◌/◌, ◌%◌, ◌^◌, ◌<◌, ◌≡◌, ◌≢◌, refl, ◌∙◌, sym, ap, some, none}
use finux.MemInfo.{MemInfo, get_memory_info}
use finux.Fs.{
  Loader, LoaderGlobals, Loading, loaded, PartTable, Inode, read_inode, read_super_block, inode_of,
  word_at,
}
use finux.Fs.Find.{Finds}
use finux.Fs.Image.{Fits}
use finux.Fs.Kernel.{Boots, boots, loader_kernel-Boots}
use finux.Fs.Partition.{get_part_information}
use finux.Fs.Format.{new_super_block}
use finux.Fs.Format.Layout.{map_sectors, Formatted}
use finux.Fs.Format.Made.{InRange, make_fs-found, make_fs-Made, read_super_block-magic}
use finux.Cstart.{Stacks, formatted, loading, say, load_tables, start_kernel_from_disk}
use finux.Cstart.Loads.{
  Arranged, load_tables-TablesLoaded, TablesLoaded-inode_at, TablesLoaded-inode_of,
}

-- A file of the disk stands at 2M, and the kernel's `get_memory_info` reads its size and place.
pub record InMemory (file : Inode) (detect_count : ℕ) (disk : ℕ → ℕ → ℕ) (after : Loader)
    : Type 0 where
  pub image :
      (k j : ℕ)
      → k < file.file_sector_cnt
      → j < 512
      → after.memory (0x200000 + k * 512 + j) ≡ disk (file.file_start_sect + k) j
  pub info :
      (memory_info : MemInfo)
      → (get_memory_info (word_at after.memory) memory_info).kernel_info
        ≡ record { size = file.file_size; start = 0x200000; memory_map_cnt = detect_count }

module _ (globals : LoaderGlobals) (stacks : Stacks) (s s1 : Loader) (part : PartTable)
    (base : ℕ) where
  abbrev pub base_at : ℕ
  base_at = part.first_lba + base

  -- The state when `make_fs` has returned 0, and the one when the kernel is looked for.
  abbrev pub found_at : Loader
  found_at = record s1 { base_sector = base_at }

  abbrev pub looking : Loader
  looking = say "Loading kernle..." 8 (load_tables globals found_at)

  -- The inode on the disk of entry `e` of the root directory, and its number.
  abbrev pub number : ℕ → ℕ
  number e = word_at (s1.disk (base_at + map_sectors part + 7)) (e * 16)

  abbrev pub file : ℕ → Inode
  file e =
      read_inode (s1.disk (base_at + 3 + map_sectors part + number e / 32)) (number e % 32 * 16)

  -- Where that inode is loaded to.
  abbrev pub inode_place : ℕ → ℕ
  inode_place e = globals.inode_array + number e * 16

  InMemory-Boots :
      (detect_count : ℕ) (l : Loading) (e : ℕ) (f : Inode)
      → inode_of globals e looking.memory ≡ f
      → looking.disk ≡ s1.disk
      → Boots globals detect_count looking (some e) l
      → (after : Loader) × (l ≡ loaded after) × InMemory f detect_count s1.disk after
  InMemory-Boots detect_count _ e f same_file same_disk (boots {after} started) = (
    after,
    refl,
    record {
      image = λ k j low lj.
          let few : k < (inode_of globals e looking.memory).file_sector_cnt =
            rw (ap (λ i. i.file_sector_cnt) same_file) low in
          started.image k j few lj ∙ rw (same_disk, ap (λ i. i.file_start_sect) same_file) refl;
      info = λ memory_info. started.info memory_info ∙ rw (ap (λ i. i.file_size) same_file) refl;
    },
  )

  -- What the partition has to be: the one that `make_fs` chooses, with the super block of a file
  -- system that `make_fs` made.
  pub record IsVolume : Type 0 where
    pub in_range : InRange stacks.unset stacks.before s1 part base
    pub formatted_at : read_super_block (s1.disk (base_at + 1)) ≡ new_super_block part base_at

  -- Let the tables be read as `s1`, let the partition hold a file system that `make_fs` made, let
  -- the loader's buffers be arranged, and let the search in the loaded root directory find entry `e`
  -- of the first 32, with an inode number below 100 and an inode that the loop can load without
  -- writing over it, with fuel for its sectors. Then the
  -- loader starts the kernel: the sectors of that file of the disk stand from 2M on, and the kernel
  -- reads the file's size, its place and the number of memory ranges.
  pub start_kernel_from_disk-InMemory :
      (part_fuel fuel detect_count e : ℕ)
      → get_part_information stacks.tables part_fuel s ≡ some s1
      → IsVolume
      → Arranged globals
      → Finds globals fuel globals.kernel_name looking.memory (some e)
      → e < 32
      → number e < 100
      → Fits globals fuel (inode_place e) (file e)
      → detect_count < 2 ^ 32
      → (after : Loader) × (start_kernel_from_disk globals stacks part_fuel fuel detect_count s
          ≡ some (loading (loaded after)))
        × InMemory (file e) detect_count s1.disk after
  unfolding start_kernel_from_disk new_super_block
  start_kernel_from_disk-InMemory part_fuel fuel detect_count e tables volume arranged finds low
        small fits few =
      let tables_loaded =
        load_tables-TablesLoaded globals found_at part arranged volume.in_range.sectors
          volume.formatted_at in
      let same_place = TablesLoaded-inode_at globals e tables_loaded low in
      let same_file = TablesLoaded-inode_of globals e tables_loaded low small in
      let magic : word_at (s1.disk (base_at + 1)) 0 ≡ 563855 =
        read_super_block-magic _ _ volume.formatted_at in
      let is_found =
        make_fs-found stacks.unset stacks.before s1 part base stacks.super volume.in_range magic in
      let (l, loads, booted) =
        loader_kernel-Boots globals fuel detect_count looking (some e) finds
          (λ entry same.
            let at : e ≡ entry = ap (λ found. elim found [ none ↦ 0 | some x ↦ x ]) same in
            rw (sym at, same_file, same_place) fits)
          arranged.tmp_fits few in
      let (after, is_loaded, in_memory) =
        InMemory-Boots detect_count l e (file e) same_file tables_loaded.same_disk booted in
      (after, rw (tables, is_found, loads, is_loaded) refl, in_memory)

  -- When the tables are read as `s1` and the partition that is chosen has no magic number behind its
  -- first sector, the loader makes the file system and stops with a PANIC.
  pub start_kernel_from_disk-formatted :
      (part_fuel fuel detect_count : ℕ)
      → get_part_information stacks.tables part_fuel s ≡ some s1
      → InRange stacks.unset stacks.before s1 part base
      → word_at (s1.disk (base_at + 1)) 0 ≢ 563855
      → (after : Loader) × (start_kernel_from_disk globals stacks part_fuel fuel detect_count s
          ≡ some (formatted after))
        × Formatted part base_at s1.disk after.disk
  unfolding start_kernel_from_disk
  start_kernel_from_disk-formatted part_fuel fuel detect_count tables in_range blank =
      let is_made =
        make_fs-Made stacks.unset stacks.before s1 part base stacks.super in_range blank in
      (
        record s1 { base_sector = base_at; disk = is_made.disk },
        rw (tables, is_made.returns) refl,
        is_made.formatted,
      )
