-- ===== src/Fs/Format/Made.antt =====
-- What `make_fs` leaves for its later calls and for `get_super_block`.
use finux.Prelude.{
  ℕ, zero, suc, ◌+◌, ◌^◌, ◌<◌, ◌≡◌, ◌≢◌, refl, ◌∙◌, ap, arith, false, true, ◌==◌, ==_iff, some,
}
use finux.Prelude.Bits.{u32}
use finux.Fs.{
  Loader, LoaderGlobals, PartTable, SuperBlock, word_at, read_super_block, get_super_block,
  get_sector,
}
use finux.Fs.Load.{read_sector-inside}
use finux.Fs.Format.{
  write_sector, zeros, write_zeros, write_fs, new_super_block, find_finux_part, made, found,
  make_in, make_fs,
}
use finux.Fs.Format.Super.{read_super_block-same}
use finux.Fs.Format.Layout.{Formatted, write_fs-Formatted, map_sectors}

-- The writes change nothing but the disk.
abbrev OnDisk : (before after : Loader) → Type 0
OnDisk before after = after ≡ record before { disk = after.disk }

write_sector-OnDisk :
    (s t : Loader) (lba : ℕ) (bytes : ℕ → ℕ) → OnDisk s t → OnDisk s (write_sector lba bytes t)
unfolding write_sector
write_sector-OnDisk s t lba bytes same =
    let with_disk : Loader → Loader = λ u. record u { disk = (write_sector lba bytes t).disk } in
    ap with_disk same

write_zeros-OnDisk :
    (left start i : ℕ) (s t : Loader) → OnDisk s t → OnDisk s (write_zeros start left i t)
unfolding write_zeros
write_zeros-OnDisk zero start i s t same = same
write_zeros-OnDisk (suc left) start i s t same =
    write_zeros-OnDisk left start (i + 1) s (write_sector (u32 (start + i)) zeros t)
      (write_sector-OnDisk s t (u32 (start + i)) zeros same)

write_fs-OnDisk :
    (stack : ℕ → ℕ) (b : SuperBlock) (base_sector : ℕ) (s : Loader)
    → OnDisk s (write_fs stack b base_sector s)
unfolding write_fs
write_fs-OnDisk stack b base_sector s = write_zeros-OnDisk b.root_sectors b.root_start 0 s _ (
    write_zeros-OnDisk b.sector_map_sectors b.sector_map_start 0 s _ (
      write_sector-OnDisk s _ b.inode_map_start _ (
        write_sector-OnDisk s _ b.inode_array_start _ (
          write_zeros-OnDisk 4 b.inode_array_start 0 s _
            (write_sector-OnDisk s s (u32 (base_sector + 1)) _ refl)))))

pub read_super_block-magic :
    (b : SuperBlock) (f : ℕ → ℕ) → read_super_block f ≡ b → word_at f 0 ≡ b.magic
unfolding read_super_block
read_super_block-magic b f reads = ap (λ c. c.magic) reads

-- The super block of the partition, when the next sector has a number below 2^32.
pub get_super_block_lem :
    (globals : LoaderGlobals) (s : Loader)
    → s.base_sector + 1 < 2 ^ 32
    → (get_super_block globals s).super_block ≡ read_super_block (s.disk (s.base_sector + 1))
unfolding get_super_block get_sector
get_super_block_lem globals s fits =
    let next : u32 (s.base_sector + 1) ≡ s.base_sector + 1 = omega arith in
    rw next (
      read_super_block-same _ _
        (λ i low. read_sector-inside (s.base_sector + 1) globals.tmp_buf i s (omega arith)))

module _ (unset before : PartTable) (s : Loader) (part : PartTable) (base : ℕ) where
  abbrev pub base_at : ℕ
  base_at = part.first_lba + base

  -- The state after a first call that made the file system.
  pub record Made (stack : ℕ → ℕ) : Type 0 where
    pub disk : ℕ → ℕ → ℕ
    pub returns :
        make_fs stack unset before s ≡ made (record s { base_sector = base_at; disk = disk })
    pub formatted : Formatted part base_at s.disk disk

  -- The partition that is found has 32-bit fields, and the sectors of its file system have numbers
  -- below 2^32.
  pub record InRange : Type 0 where
    pub chosen : find_finux_part unset before s ≡ some (part, base)
    pub sectors : base_at + 11 + map_sectors part < 2 ^ 32
    pub small : part.sector_cnt < 2 ^ 32

  base_lem : InRange → u32 (part.first_lba + base) ≡ part.first_lba + base
  base_lem fits = omega (arith, fits.sectors)

  -- When a partition is found whose second sector does not start with the magic number, and its
  -- sectors have numbers below 2^32, `make_fs` returns 1 and leaves the layout on the disk: the
  -- super block, the inode map, the sector map, the inodes and the root directory, all cleared but
  -- for the root's inode and its bit, and no other sector is written.
  pub make_fs-Made :
      (stack : ℕ → ℕ) → InRange → word_at (s.disk (base_at + 1)) 0 ≢ 563855 → Made stack
  unfolding make_fs make_in
  make_fs-Made stack fits blank =
      let s1 : Loader = record s { base_sector = base_at } in
      let b = new_super_block part base_at in
      let next : u32 (base_at + 1) ≡ base_at + 1 = omega (arith, fits.sectors) in
      let no_magic : (word_at (s.disk (base_at + 1)) 0 == 563855) ≡ false = ground (arith, blank) in
      record {
        disk = (write_fs stack b base_at s1).disk;
        returns =
            rw (fits.chosen, base_lem fits, next, no_magic)
              (ap made (write_fs-OnDisk stack b base_at s1));
        formatted = write_fs-Formatted stack part base_at s1 fits.sectors fits.small;
      }

  -- A partition whose second sector starts with the magic number is left as it is.
  pub make_fs-found :
      (stack : ℕ → ℕ)
      → InRange
      → word_at (s.disk (base_at + 1)) 0 ≡ 563855
      → make_fs stack unset before s ≡ found (record s { base_sector = base_at })
  unfolding make_fs make_in
  make_fs-found stack fits magic =
      let next : u32 (base_at + 1) ≡ base_at + 1 = omega (arith, fits.sectors) in
      let is_magic : (word_at (s.disk (base_at + 1)) 0 == 563855) ≡ true = (==_iff _ _).1 magic in
      rw (fits.chosen, base_lem fits, next, is_magic) refl

-- The choice looks at the tables only.
find_finux_part-tables :
    (unset before : PartTable) (s : Loader) (base_sector : ℕ) (disk : ℕ → ℕ → ℕ)
    → find_finux_part unset before (record s { base_sector = base_sector; disk = disk })
      ≡ find_finux_part unset before s
unfolding find_finux_part
find_finux_part-tables unset before s base_sector disk = refl

module _ (unset before : PartTable) (s : Loader) (part : PartTable) (base : ℕ) where
  -- The state after a first call.
  made_state : {stack : ℕ → ℕ} → Made unset before s part base stack → Loader
  made_state first = record s { base_sector = base_at unset before s part base; disk = first.disk }

  second_call :
      (stack other_stack : ℕ → ℕ)
      → InRange unset before s part base
      → (first : Made unset before s part base stack)
      → make_fs other_stack unset before (made_state first) ≡ found (made_state first)
  unfolding made_state new_super_block
  second_call stack other_stack fits first =
      make_fs-found unset before (made_state first) part base other_stack
        (record {
          chosen = find_finux_part-tables unset before s _ first.disk ∙ fits.chosen;
          sectors = fits.sectors;
          small = fits.small;
        })
        (read_super_block-magic _ _ first.formatted.super_block)

  -- A call after one that made the file system finds it and changes nothing, whatever the stack
  -- holds, and `get_super_block` reads the super block that was written.
  pub make_fs-again :
      (stack : ℕ → ℕ) (globals : LoaderGlobals)
      → InRange unset before s part base
      → word_at (s.disk (part.first_lba + base + 1)) 0 ≢ 563855
      → (after : Loader) × (make_fs stack unset before s ≡ made after)
        × ((other_stack : ℕ → ℕ) → make_fs other_stack unset before after ≡ found after)
        × ((get_super_block globals after).super_block
            ≡ new_super_block part (part.first_lba + base))
  unfolding made_state
  make_fs-again stack globals fits blank =
      let first = make_fs-Made unset before s part base stack fits blank in
      (
        made_state first,
        first.returns,
        λ other_stack. second_call stack other_stack fits first,
        get_super_block_lem globals (made_state first) (omega (arith, fits.sectors))
            ∙ first.formatted.super_block,
      )
