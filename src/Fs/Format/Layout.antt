-- ===== src/Fs/Format/Layout.antt =====
-- The sectors of the file system that `make_fs` makes.
use finux.Prelude.{
  ℕ, zero, suc, ◌+◌, ◌/◌, ◌^◌, ◌≤◌, ◌<◌, ◌≡◌, ◌⊎◌, refl, ◌∙◌, sym, arith, false, ltb, leb, ◌&&◌,
  ◌==◌, if◌then◌else◌, update,
}
use finux.Prelude.Bits.{u32}
use finux.Fs.{Loader, PartTable, SuperBlock, read_super_block, read_inode}
use finux.Fs.Format.{
  write_sector, zeros, write_zeros, new_super_block, super_block_sector, inode_sector,
  new_root_inode, write_fs,
}
use finux.Fs.Format.Super.{read_super_block-words, read_inode-words}

write_zeros-disk :
    (start left i l : ℕ) (s : Loader)
    → start + i + left < 2 ^ 32
    → (write_zeros start left i s).disk l
      ≡ (if leb (start + i) l && ltb l (start + i + left) then zeros else s.disk l)
unfolding write_zeros write_sector
write_zeros-disk start zero i l s fits =
    let none_left : (leb (start + i) l && ltb l (start + i + 0)) ≡ false = ground arith in
    rw none_left refl
write_zeros-disk start (suc left) i l s fits =
    let here : u32 (start + i) ≡ start + i = omega arith in
    write_zeros-disk start left (i + 1) l (write_sector (u32 (start + i)) zeros s) (omega arith)
    ∙ ground (arith, here)

-- The numbers of the sectors, for a base below 2^32, and what `sector_map_sectors` comes to.
abbrev pub map_sectors : PartTable → ℕ
map_sectors part = part.sector_cnt / 512 / 8

-- The partition's super block stands behind its first sector, the two maps, the inodes, of which
-- the first is the root directory's, and the root directory behind it; they are cleared but for
-- the root's inode and its bit. No other sector is written.
pub record Formatted (part : PartTable) (base_sector : ℕ) (before after : ℕ → ℕ → ℕ) : Type 0 where
  pub super_block : read_super_block (after (base_sector + 1)) ≡ new_super_block part base_sector
  pub inode_map : after (base_sector + 2) ≡ update zeros 0 1
  pub sector_map : (k : ℕ) → k < map_sectors part → after (base_sector + 3 + k) ≡ zeros
  pub root_inode : read_inode (after (base_sector + 3 + map_sectors part)) 0 ≡ record {
    mode = 2;
    file_size = 2048;
    file_start_sect = base_sector + map_sectors part + 7;
    file_sector_cnt = 4;
  }
  pub other_inodes : (j : ℕ) → 16 ≤ j → after (base_sector + 3 + map_sectors part) j ≡ 0
  pub inodes : (k : ℕ) → 0 < k → k < 4 → after (base_sector + 3 + map_sectors part + k) ≡ zeros
  pub root : (k : ℕ) → k < 4 → after (base_sector + 7 + map_sectors part + k) ≡ zeros
  pub others :
      (l : ℕ) → (l ≤ base_sector) ⊎ (base_sector + 11 + map_sectors part ≤ l) → after l ≡ before l

module _ (stack : ℕ → ℕ) (part : PartTable) (base_sector : ℕ) (s : Loader) where
  -- The places without wrap.
  abbrev pub super_at : SuperBlock
  super_at =
      let m = map_sectors part in
      record {
        magic = 563855;
        inode_cnt = 100;
        sector_cnt = part.sector_cnt;
        inode_map_sectors = 1;
        inode_map_start = base_sector + 2;
        sector_map_sectors = m;
        sector_map_start = base_sector + 3;
        inode_array_start = base_sector + 3 + m;
        first_data_sector = base_sector + 11 + m;
        inode_sectors = 4;
        root_start = base_sector + m + 7;
        root_inode = 0;
        root_sectors = 4;
        inode_size = 16;
        dir_ent_size = 16;
      }

  pub new_super_block-super_at :
      base_sector + 11 + map_sectors part < 2 ^ 32 → new_super_block part base_sector ≡ super_at
  unfolding new_super_block
  new_super_block-super_at fits =
      let w1 : u32 (base_sector + 2) ≡ base_sector + 2 = omega arith in
      let w2 : u32 (base_sector + 2 + 1) ≡ base_sector + 3 = omega arith in
      let w3 : u32 (base_sector + 3 + map_sectors part) ≡ base_sector + 3 + map_sectors part =
        omega arith in
      let w4 : u32 (base_sector + 3 + map_sectors part + 4) ≡ base_sector + map_sectors part + 7 =
        omega arith in
      let w5 : u32 (base_sector + map_sectors part + 7 + 4) ≡ base_sector + 11 + map_sectors part =
        omega arith in
      rw (w1, w2, w3, w4, w5) refl

  -- What stands in a sector after all writes.
  abbrev sector_after : ℕ → ℕ → ℕ
  sector_after l =
      let m = map_sectors part in
      if leb (base_sector + m + 7) l && ltb l (base_sector + m + 11)
      then zeros
      else if leb (base_sector + 3) l && ltb l (base_sector + 3 + m)
      then zeros
      else if l == base_sector + 2
      then update zeros 0 1
      else if l == base_sector + 3 + m
      then inode_sector (new_root_inode super_at)
      else if leb (base_sector + 3 + m) l && ltb l (base_sector + 7 + m)
      then zeros
      else if l == base_sector + 1
      then super_block_sector stack super_at
      else s.disk l

  write_fs-sector_after :
      (l : ℕ)
      → base_sector + 11 + map_sectors part < 2 ^ 32
      → (write_fs stack super_at base_sector s).disk l ≡ sector_after l
  unfolding write_fs write_sector
  write_fs-sector_after l fits =
      let m = map_sectors part in
      let first : u32 (base_sector + 1) ≡ base_sector + 1 = omega arith in
      let s1 = write_sector (base_sector + 1) (super_block_sector stack super_at) s in
      let s2 = write_zeros (base_sector + 3 + m) 4 0 s1 in
      let s3 = write_sector (base_sector + 3 + m) (inode_sector (new_root_inode super_at)) s2 in
      let s4 = write_sector (base_sector + 2) (update zeros 0 1) s3 in
      let s5 = write_zeros (base_sector + 3) m 0 s4 in
      let d2 = write_zeros-disk (base_sector + 3 + m) 4 0 l s1 (omega arith) in
      let d5 = write_zeros-disk (base_sector + 3) m 0 l s4 (omega arith) in
      let d6 = write_zeros-disk (base_sector + m + 7) 4 0 l s5 (omega arith) in
      rw first (d6 ∙ rw (d5, d2) (ground arith))

  pub super_sector-reads :
      base_sector + 11 + map_sectors part < 2 ^ 32
      → part.sector_cnt < 2 ^ 32
      → read_super_block (super_block_sector stack super_at) ≡ super_at
  super_sector-reads fits small =
      read_super_block-words (super_block_sector stack super_at) super_at (λ i low. ground arith)
        (ground (arith, fits, small))

  root_sector-reads :
      base_sector + 11 + map_sectors part < 2 ^ 32
      → read_inode (inode_sector (new_root_inode super_at)) 0 ≡ new_root_inode super_at
  root_sector-reads fits =
      read_inode-words (inode_sector (new_root_inode super_at)) (new_root_inode super_at)
        (λ i low. ground arith) (ground (arith, fits))

  pub write_fs-Formatted :
      base_sector + 11 + map_sectors part < 2 ^ 32
      → part.sector_cnt < 2 ^ 32
      → Formatted part base_sector s.disk
          (write_fs stack (new_super_block part base_sector) base_sector s).disk
  write_fs-Formatted fits small =
      let m = map_sectors part in
      let at : (l : ℕ) → (write_fs stack super_at base_sector s).disk l ≡ sector_after l =
        λ l. write_fs-sector_after l fits in
      let same : new_super_block part base_sector ≡ super_at = new_super_block-super_at fits in
      let in_super : sector_after (base_sector + 1) ≡ super_block_sector stack super_at =
        ground arith in
      let in_root : sector_after (base_sector + 3 + m) ≡ inode_sector (new_root_inode super_at) =
        ground arith in
      rw same (record {
        super_block =
            rw (at (base_sector + 1), in_super) (super_sector-reads fits small ∙ sym same);
        inode_map = at (base_sector + 2) ∙ ground arith;
        sector_map = λ k low. at (base_sector + 3 + k) ∙ ground arith;
        root_inode = rw (at (base_sector + 3 + m), in_root) (root_sector-reads fits);
        other_inodes = λ j high. rw (at (base_sector + 3 + m), in_root) (ground arith);
        inodes = λ k more low. at (base_sector + 3 + m + k) ∙ ground arith;
        root = λ k low. at (base_sector + 7 + m + k) ∙ ground arith;
        others = λ l out. at l ∙ ground arith;
      })
