-- ===== src/Cstart.antt =====
-- The part of `Cstart`, boot/loader.c, that starts the kernel from the disk. What precedes it sets up
-- the devices, and what follows it is the jump to the kernel.
pub mod Loads
pub mod Boots
pub mod Sectors
pub mod Whole
use Prim.Native.String.{String}
use finux.Prelude.{ℕ, ◌+◌, ◌*◌, Option, none, some, ◌>>=◌}
use finux.Display.{literal, dis_str}
use finux.Fs.{
  Loader, LoaderGlobals, Loading, PartTable, get_super_block, get_inode_array, get_root_area,
  loader_kernel,
}
use finux.Fs.Partition.{get_part_information}
use finux.Fs.Format.{Making, made, found, no_partition, make_fs}

-- What the stack holds where the functions do not set it.
pub record Stacks : Type 0 where
  pub tables : ℕ → ℕ
  pub super : ℕ → ℕ
  pub unset : PartTable
  pub before : PartTable

-- How it ends: with a new file system or no partition it panics; else the kernel is loaded, or not.
pub data Start : Type 0 where
  formatted : Loader → Start
  no_file_system : Start
  loading : Loading → Start

-- `dis_str(text, 0xc, row, 0)`
abbrev pub say : String → ℕ → Loader → Loader
say text row s = record s { screen = (dis_str (literal text) 0xc row 0 s.screen).1 }

module _ (globals : LoaderGlobals) where
  unfoldable pub load_tables : Loader → Loader
  load_tables s =
      let s1 = get_super_block globals (say "Get super block..." 4 s) in
      let s2 = get_inode_array globals (say "Get inode array..." 5 s1) in
      get_root_area globals (say "Get root area..." 6 s2)

  -- What follows `make_fs`.
  abbrev pub after_make : (fuel detect_count : ℕ) → Making → Option Start
  after_make fuel detect_count (made s) = some (formatted s)
  after_make fuel detect_count (found s) =
      loader_kernel globals fuel detect_count (say "Loading kernle..." 8 (load_tables s)) >>= λ l.
      some (loading l)
  after_make fuel detect_count no_partition = some no_file_system

  unfoldable pub start_kernel_from_disk :
      (stacks : Stacks) → (part_fuel fuel detect_count : ℕ) → Loader → Option Start
  start_kernel_from_disk stacks part_fuel fuel detect_count s =
      get_part_information stacks.tables part_fuel s >>= λ s1.
      after_make fuel detect_count (make_fs stacks.super stacks.unset stacks.before s1)
