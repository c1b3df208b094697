-- ===== src/Fs.antt =====
-- The file system of the loader, boot/fs.c with the structures of boot/fs.h: reading the super
-- block, the root directory and the inodes into memory, and loading the kernel. A disk is its
-- sectors of 512 bytes, memory is bytes at their addresses.
pub mod Load
pub mod Words
pub mod Find
pub mod Names
pub mod Tables
pub mod Image
pub mod Kernel
pub mod Partition
pub mod Format
pub mod Alone
use finux.Prelude.{
  ℕ, zero, suc, ◌+◌, ◌-◌, ◌*◌, ◌/◌, ◌%◌, ◌^◌, ◌&&◌, ◌==◌, ltb, leb, if◌then◌else◌, List, [], ◌∷◌,
  get_or, Option, none, some, ◌>>=◌,
}
use finux.Prelude.Bits.{u32, sub32}
use finux.MemInfo.{kernel_info_address}
use finux.Display.{Screen, literal, dis_str}
use finux.Strings.{memcpy, strcmp}

abbrev pub sector_size : ℕ
sector_size = 512

abbrev pub max_inode_cnt : ℕ
max_inode_cnt = 100

-- `sizeof(struct inode)` and `sizeof(struct dir_entry)`
abbrev pub inode_size : ℕ
inode_size = 16

abbrev pub dir_entry_size : ℕ
dir_entry_size = 16

abbrev pub kernel_load_address : ℕ
kernel_load_address = 0x200000

-- A little-endian word of 32 bits.
abbrev pub word_at : (ℕ → ℕ) → ℕ → ℕ
word_at bytes p = bytes p + bytes (p + 1) * 2 ^ 8 + bytes (p + 2) * 2 ^ 16 + bytes (p + 3) * 2 ^ 24

-- The bytes of a structure of words.
abbrev pub word_bytes : List ℕ → ℕ → ℕ
word_bytes words i = get_or words (i / 4) 0 / 2 ^ (8 * (i % 4)) % 2 ^ 8

-- `struct part_table`, the fields that are used.
pub record PartTable : Type 0 where
  pub system_id : ℕ
  pub first_lba : ℕ
  pub sector_cnt : ℕ

-- `struct super_block`
pub record SuperBlock : Type 0 where
  pub magic : ℕ
  pub inode_cnt : ℕ
  pub sector_cnt : ℕ
  pub inode_map_sectors : ℕ
  pub inode_map_start : ℕ
  pub sector_map_sectors : ℕ
  pub sector_map_start : ℕ
  pub inode_array_start : ℕ
  pub first_data_sector : ℕ
  pub inode_sectors : ℕ
  pub root_start : ℕ
  pub root_inode : ℕ
  pub root_sectors : ℕ
  pub inode_size : ℕ
  pub dir_ent_size : ℕ

unfoldable pub read_super_block : (ℕ → ℕ) → SuperBlock
read_super_block bytes = record {
  magic = word_at bytes 0;
  inode_cnt = word_at bytes 4;
  sector_cnt = word_at bytes 8;
  inode_map_sectors = word_at bytes 12;
  inode_map_start = word_at bytes 16;
  sector_map_sectors = word_at bytes 20;
  sector_map_start = word_at bytes 24;
  inode_array_start = word_at bytes 28;
  first_data_sector = word_at bytes 32;
  inode_sectors = word_at bytes 36;
  root_start = word_at bytes 40;
  root_inode = word_at bytes 44;
  root_sectors = word_at bytes 48;
  inode_size = word_at bytes 52;
  dir_ent_size = word_at bytes 56;
}

abbrev pub primary_max_cnt : ℕ
primary_max_cnt = 4

abbrev pub logic_max_cnt : ℕ
logic_max_cnt = 10

-- `struct inode`
pub record Inode : Type 0 where
  pub mode : ℕ
  pub file_size : ℕ
  pub file_start_sect : ℕ
  pub file_sector_cnt : ℕ

abbrev pub read_inode : (ℕ → ℕ) → ℕ → Inode
read_inode bytes p = record {
  mode = word_at bytes p;
  file_size = word_at bytes (p + 4);
  file_start_sect = word_at bytes (p + 8);
  file_sector_cnt = word_at bytes (p + 12);
}

-- The addresses of the globals, and of the file's name, that the linker chooses.
pub record LoaderGlobals : Type 0 where
  pub tmp_buf : ℕ
  pub root_area : ℕ
  pub inode_array : ℕ
  pub kernel_name : ℕ

pub record Loader : Type 0 where
  pub disk : ℕ → ℕ → ℕ
  pub memory : ℕ → ℕ
  pub screen : Screen
  pub primary : ℕ → PartTable
  pub logical : ℕ → PartTable
  pub base_sector : ℕ
  pub super_block : SuperBlock

-- What the search for the kernel leads to: the state with the kernel, or PANIC.
pub data Loading : Type 0 where
  loaded : Loader → Loading
  no_kernel : Loading

-- `hd_read(LBA, 1, buf)`
unfoldable pub read_sector : (lba buf : ℕ) → Loader → Loader
read_sector lba buf s = record s {
  memory = λ a. if leb buf a && ltb a (buf + sector_size) then s.disk lba (a - buf) else s.memory a;
}

-- `get_sector`
unfoldable pub get_sector : (lba buf : ℕ) → Loader → Loader
get_sector lba buf s = read_sector lba buf s

-- `dis_str(".", 0xc, row, i)`
abbrev pub dot : ℕ → ℕ → Screen → Screen
dot row i screen = (dis_str (literal ".") 0xc row i screen).1

-- `kernel_info` at 1M, three words.
abbrev pub write_kernel_info : (size start memory_map_count : ℕ) → (ℕ → ℕ) → ℕ → ℕ
write_kernel_info size start memory_map_count memory a =
    if leb kernel_info_address a && ltb a (kernel_info_address + 12)
    then word_bytes (size ∷ start ∷ memory_map_count ∷ []) (a - kernel_info_address)
    else memory a

module _ (globals : LoaderGlobals) where
  open globals use {tmp_buf, root_area, inode_array, kernel_name}

  unfoldable pub get_super_block : Loader → Loader
  get_super_block s =
      let s1 = get_sector (u32 (s.base_sector + 1)) tmp_buf s in
      record s1 { super_block = read_super_block (λ i. s1.memory (tmp_buf + i)) }

  -- One round of the three loops: a sector goes to `tmp_buf`, and from there to `dst`.
  unfoldable pub load_sector : (lba dst : ℕ) → Loader → Loader
  unfolding get_sector
  load_sector lba dst s =
      let s1 = get_sector lba tmp_buf s in
      record s1 { memory = (memcpy dst tmp_buf sector_size s1.memory).1 }

  -- The loops, with `left` rounds to go; `print` is what a round shows. The screen is not memory.
  unfoldable pub load_sectors :
      (print : ℕ → Screen → Screen) (start dst left i : ℕ) → Loader → Loader
  load_sectors print start dst zero i s = s
  load_sectors print start dst (suc left) i s = load_sectors print start dst left (i + 1) (
      load_sector (u32 (start + i)) (dst + i * sector_size)
        (record s { screen = print i s.screen }))

  unfoldable pub get_root_area : Loader → Loader
  get_root_area s =
      load_sectors (dot 7) s.super_block.root_start root_area (sub32 s.super_block.root_sectors 3) 0
        s

  unfoldable pub get_inode_array : Loader → Loader
  get_inode_array s =
      load_sectors (λ i screen. screen) s.super_block.inode_array_start inode_array
        s.super_block.inode_sectors 0 s

  -- `root_area[i].name`
  abbrev pub entry_name : ℕ → ℕ
  entry_name i = root_area + i * dir_entry_size + 4

  -- The loop of `find_file_in_root` with `left` rounds to go: an entry's number, or `none` for the
  -- null pointer. Outside stands `none` when the fuel of a `strcmp` has run out.
  unfoldable pub find_entry : (fuel filename left i : ℕ) → (ℕ → ℕ) → Option (Option ℕ)
  find_entry fuel filename zero i memory = some none
  find_entry fuel filename (suc left) i memory =
      let rest = find_entry fuel filename left (i + 1) memory in
      strcmp fuel filename (entry_name i) memory >>= λ order.
      if order == 0 then some (some i) else rest

  unfoldable pub find_file_in_root : (fuel filename : ℕ) → (ℕ → ℕ) → Option (Option ℕ)
  find_file_in_root fuel filename memory = find_entry fuel filename max_inode_cnt 0 memory

  -- `&inode_array[root_area[i].inode_num]`
  abbrev pub inode_at : ℕ → (ℕ → ℕ) → ℕ
  inode_at i memory = inode_array + word_at memory (root_area + i * dir_entry_size) * inode_size

  abbrev pub inode_of : ℕ → (ℕ → ℕ) → Inode
  inode_of i memory = read_inode memory (inode_at i memory)

  -- The loop of `loader_kernel` at round `i`; each round reads the inode again from its place.
  unfoldable pub load_image : (fuel kernel_inode i : ℕ) → Loader → Option Loader
  load_image zero kernel_inode i s = none
  load_image (suc fuel) kernel_inode i s =
      let inode = read_inode s.memory kernel_inode in
      let rest = load_image fuel kernel_inode (i + 1) (
        load_sector (u32 (inode.file_start_sect + i)) (kernel_load_address + i * sector_size)
          (record s { screen = dot 9 i s.screen })) in
      if ltb i inode.file_sector_cnt then rest else some s

  -- What follows the search: `none` when the fuel of the loop has run out.
  unfoldable pub load_kernel : (fuel detect_count entry : ℕ) → Loader → Option Loader
  load_kernel fuel detect_count entry s =
      let kernel_inode = inode_at entry s.memory in
      load_image fuel kernel_inode 0 s >>= λ s1.
      let inode = read_inode s1.memory kernel_inode in
      some (record s1 {
        memory = write_kernel_info inode.file_size kernel_load_address detect_count s1.memory;
      })

  abbrev pub with_entry : (fuel detect_count : ℕ) → Loader → Option ℕ → Option Loading
  with_entry fuel detect_count s none = some no_kernel
  with_entry fuel detect_count s (some entry) =
      load_kernel fuel detect_count entry s >>= λ s1. some (loaded s1)

  unfoldable pub loader_kernel : (fuel detect_count : ℕ) → Loader → Option Loading
  loader_kernel fuel detect_count s =
      find_file_in_root fuel kernel_name s.memory >>= λ entry. with_entry fuel detect_count s entry
