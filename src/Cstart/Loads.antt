-- ===== src/Cstart/Loads.antt =====
-- The tables in memory: the inode of an entry of the root directory is the one on the disk.
use finux.Prelude.{ℕ, ◌+◌, ◌*◌, ◌/◌, ◌%◌, ◌^◌, ◌≤◌, ◌<◌, ◌≡◌, ◌⊎◌, refl, ◌∙◌, ap, arith}
use finux.Fs.{
  Loader, LoaderGlobals, PartTable, read_inode, word_at, inode_at, inode_of, inode_size,
  read_super_block, get_super_block, get_inode_array, get_root_area, get_sector,
}
use finux.Prelude.Regions.{Apart}
use finux.Fs.Load.{read_sector-outside, read_sector-disk}
use finux.Fs.Words.{word_at-shift}
use finux.Fs.Tables.{
  get_inode_array-InodesLoaded, get_root_area-first_sector, get_root_area-disk, read_inode-shift,
}
use finux.Fs.Format.{new_super_block}
use finux.Fs.Format.Layout.{map_sectors, super_at, new_super_block-super_at}
use finux.Fs.Format.Made.{get_super_block_lem}
use finux.Cstart.{say, load_tables}

module _ (globals : LoaderGlobals) where
  open globals use {tmp_buf, root_area, inode_array}

  -- The three places that the tables are loaded to, with what is written behind the inodes. That may
  -- run into the root directory, which is loaded later.
  pub record Arranged : Type 0 where
    pub tmp_fits : tmp_buf + 512 < 2 ^ 32
    pub root_fits : root_area + 1600 < 2 ^ 32
    pub inode_fits : inode_array + 2048 < 2 ^ 32
    pub root_tmp : Apart root_area 1600 tmp_buf 512
    pub inode_tmp : Apart inode_array 2048 tmp_buf 512
    pub inode_root : Apart inode_array 1600 root_area 1600

  get_super_block-others :
      (s : Loader)
      → ((get_super_block globals s).disk ≡ s.disk)
        × ((a : ℕ)
            → (a < tmp_buf) ⊎ (tmp_buf + 512 ≤ a)
            → (get_super_block globals s).memory a ≡ s.memory a)
  unfolding get_super_block get_sector
  get_super_block-others s =
      (read_sector-disk _ tmp_buf s, λ a out. read_sector-outside _ tmp_buf a s out)

  -- The first sector of the root directory and the 100 inodes of the disk are in memory, and what is
  -- outside of the three places is as before.
  pub record TablesLoaded (part : PartTable) (s after : Loader) : Type 0 where
    pub root :
        (i : ℕ)
        → i < 512
        → after.memory (root_area + i) ≡ s.disk (s.base_sector + map_sectors part + 7) i
    pub inodes :
        (k : ℕ)
        → k < 100
        → read_inode after.memory (inode_array + k * 16)
          ≡ read_inode (s.disk (s.base_sector + 3 + map_sectors part + k / 32)) (k % 32 * 16)
    pub others :
        (a : ℕ)
        → (a < root_area) ⊎ (root_area + 512 ≤ a)
        → (a < inode_array) ⊎ (inode_array + 2048 ≤ a)
        → (a < tmp_buf) ⊎ (tmp_buf + 512 ≤ a)
        → after.memory a ≡ s.memory a
    pub same_disk : after.disk ≡ s.disk

  pub load_tables-TablesLoaded :
      (s : Loader) (part : PartTable)
      → Arranged
      → s.base_sector + 11 + map_sectors part < 2 ^ 32
      → read_super_block (s.disk (s.base_sector + 1)) ≡ new_super_block part s.base_sector
      → TablesLoaded part s (load_tables globals s)
  unfolding load_tables
  load_tables-TablesLoaded s part arranged fits formatted =
      let t1 = say "Get super block..." 4 s in
      let m = map_sectors part in
      let b = s.base_sector in
      let super : (get_super_block globals t1).super_block ≡ super_at (λ j. 0) part b s =
        get_super_block_lem globals t1 (omega arith)
        ∙ formatted
        ∙ new_super_block-super_at (λ j. 0) part b s fits in
      let t2 = say "Get inode array..." 5 (get_super_block globals t1) in
      let (disk2, kept1) = get_super_block-others t1 in
      let inode_start : t2.super_block.inode_array_start ≡ b + 3 + m =
        ap (λ c. c.inode_array_start) super in
      let inodes =
        get_inode_array-InodesLoaded globals t2 (ap (λ c. c.inode_sectors) super) (omega arith)
          arranged.tmp_fits arranged.inode_fits arranged.inode_tmp in
      let t3 = say "Get root area..." 6 (get_inode_array globals t2) in
      let super3 : t3.super_block ≡ super_at (λ j. 0) part b s = inodes.same_super_block ∙ super in
      let disk3 : t3.disk ≡ s.disk = inodes.same_disk ∙ disk2 in
      let root_start : t3.super_block.root_start ≡ b + m + 7 = ap (λ c. c.root_start) super3 in
      let (loaded, kept3) =
        get_root_area-first_sector globals t3 (ap (λ c. c.root_sectors) super3) (omega arith)
          arranged.tmp_fits (omega (arith, arranged.root_fits))
          (ground (arith, arranged.root_tmp)) in
      record {
        root = λ i low. loaded i low ∙ rw (root_start, disk3) refl;
        inodes = λ k low.
            read_inode-shift (get_root_area globals t3).memory t3.memory _ _ (λ j lj.
              kept3 (inode_array + k * 16 + j) (ground (arith, low, arranged.inode_root))
                (ground (arith, low, arranged.inode_tmp)))
            ∙ inodes.inodes k low
            ∙ rw (inode_start, disk2) refl;
        others = λ a out_root out_inode out_tmp.
            kept3 a out_root out_tmp ∙ inodes.others a out_inode out_tmp ∙ kept1 a out_tmp;
        same_disk = get_root_area-disk globals t3 ∙ disk3;
      }

  -- Entry `e` of the first sector of the root directory that was loaded has the inode number of the
  -- disk.
  pub TablesLoaded-inode_at :
      {s after : Loader} {part : PartTable} (e : ℕ)
      → TablesLoaded part s after
      → e < 32
      → inode_at globals e after.memory
        ≡ inode_array
          + word_at (s.disk (s.base_sector + map_sectors part + 7)) (e * 16) * inode_size
  TablesLoaded-inode_at {s} {after} {part} e loaded low =
      ap (λ n. inode_array + n * inode_size)
        (word_at-shift after.memory (s.disk (s.base_sector + map_sectors part + 7))
          (root_area + e * 16) (e * 16)
          (λ j lj.
            let at : root_area + e * 16 + j ≡ root_area + (e * 16 + j) = omega arith in
            rw at (loaded.root (e * 16 + j) (omega arith))))

  -- For a file system that `make_fs` made, that entry, with an inode number below 100, has the inode
  -- of the disk.
  pub TablesLoaded-inode_of :
      {s after : Loader} {part : PartTable} (e : ℕ)
      → TablesLoaded part s after
      → let n = word_at (s.disk (s.base_sector + map_sectors part + 7)) (e * 16) in
        e < 32
        → n < 100
        → inode_of globals e after.memory
          ≡ read_inode (s.disk (s.base_sector + 3 + map_sectors part + n / 32)) (n % 32 * 16)
  TablesLoaded-inode_of {s} {after} {part} e loaded low small =
      let n = word_at (s.disk (s.base_sector + map_sectors part + 7)) (e * 16) in
      ap (read_inode after.memory) (TablesLoaded-inode_at e loaded low) ∙ loaded.inodes n small
