-- ===== src/Tests/Blank.antt =====
-- A loader before it has read anything, shared by the tests of the loader.
use finux.Prelude.{ℕ}
use finux.Fs.{Loader, LoaderGlobals, PartTable, SuperBlock}

abbrev pub zeros : ℕ → ℕ
zeros j = 0

abbrev pub no_part : PartTable
no_part = record { system_id = 0; first_lba = 0; sector_cnt = 0 }

abbrev pub no_super : SuperBlock
no_super = record {
  magic = 0;
  inode_cnt = 0;
  sector_cnt = 0;
  inode_map_sectors = 0;
  inode_map_start = 0;
  sector_map_sectors = 0;
  sector_map_start = 0;
  inode_array_start = 0;
  first_data_sector = 0;
  inode_sectors = 0;
  root_start = 0;
  root_inode = 0;
  root_sectors = 0;
  inode_size = 0;
  dir_ent_size = 0;
}

-- The places of the loader's arrays.
abbrev pub places : LoaderGlobals
places = record { tmp_buf = 1000; root_area = 2000; inode_array = 4000; kernel_name = 7000 }

abbrev pub blank_loader : (ℕ → ℕ → ℕ) → Loader
blank_loader disk = record {
  disk = disk;
  memory = zeros;
  screen = zeros;
  primary = λ i. no_part;
  logical = λ i. no_part;
  base_sector = 0;
  super_block = no_super;
}
