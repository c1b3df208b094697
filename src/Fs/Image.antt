-- ===== src/Fs/Image.antt =====
-- The loop that loads the kernel, when it does not write to the inode that it reads.
use finux.Prelude.{
  ℕ, zero, suc, ◌+◌, ◌*◌, ◌^◌, ◌≤◌, ◌<◌, ◌≡◌, refl, ◌∙◌, arith, true, false, ltb, some, ap,
}
use finux.Fs.{
  LoaderGlobals, Loader, Inode, read_inode, word_at, load_sector, load_sectors, dot, load_image,
}
use finux.Prelude.Regions.{Apart}
use finux.Fs.Load.{load_sector-Region}
use finux.Fs.Tables.{read_inode-shift}

module _ (globals : LoaderGlobals) where
  open globals use {tmp_buf}

  -- What the loop needs of the inode of the kernel, which stands at `kernel_inode`: its sectors have
  -- numbers below 2^32, their place from 2M on ends below 2^32 and leaves `tmp_buf` alone, the inode
  -- stands apart from both, and the fuel is more than the number of sectors.
  pub record Fits (fuel kernel_inode : ℕ) (inode : Inode) : Type 0 where
    pub lba : inode.file_start_sect + inode.file_sector_cnt < 2 ^ 32
    pub image : 0x200000 + inode.file_sector_cnt * 512 < 2 ^ 32
    pub apart : Apart 0x200000 (inode.file_sector_cnt * 512) tmp_buf 512
    pub size : inode.file_size < 2 ^ 32
    pub place : kernel_inode + 16 ≤ 2 ^ 32
    pub kept : Apart kernel_inode 16 0x200000 (inode.file_sector_cnt * 512)
    pub kept_tmp : Apart kernel_inode 16 tmp_buf 512
    pub enough : inode.file_sector_cnt < fuel

  -- One round leaves the inode alone.
  round-inode :
      (kernel_inode lba i : ℕ) (inode : Inode) (s : Loader)
      → read_inode s.memory kernel_inode ≡ inode
      → i < inode.file_sector_cnt
      → tmp_buf + 512 < 2 ^ 32
      → 0x200000 + inode.file_sector_cnt * 512 < 2 ^ 32
      → Apart 0x200000 (inode.file_sector_cnt * 512) tmp_buf 512
      → Apart kernel_inode 16 0x200000 (inode.file_sector_cnt * 512)
      → Apart kernel_inode 16 tmp_buf 512
      → read_inode (load_sector globals lba (0x200000 + i * 512) s).memory kernel_inode ≡ inode
  round-inode kernel_inode lba i inode s same low tmp image apart kept kept_tmp =
      let others =
        (load_sector-Region globals lba (0x200000 + i * 512) s tmp (omega arith)
          (ground arith)).1 in
      read_inode-shift (load_sector globals lba (0x200000 + i * 512) s).memory s.memory kernel_inode
        kernel_inode (λ j lj. others (kernel_inode + j) (ground arith) (ground arith))
      ∙ same

  -- Then the loop is the one whose inode is read once.
  pub load_image-load_sectors :
      (fuel kernel_inode left i : ℕ) (inode : Inode) (s : Loader)
      → read_inode s.memory kernel_inode ≡ inode
      → i + left ≡ inode.file_sector_cnt
      → left < fuel
      → tmp_buf + 512 < 2 ^ 32
      → 0x200000 + inode.file_sector_cnt * 512 < 2 ^ 32
      → Apart 0x200000 (inode.file_sector_cnt * 512) tmp_buf 512
      → Apart kernel_inode 16 0x200000 (inode.file_sector_cnt * 512)
      → Apart kernel_inode 16 tmp_buf 512
      → load_image globals fuel kernel_inode i s
        ≡ some (load_sectors globals (dot 9) inode.file_start_sect 0x200000 left i s)
  unfolding load_image load_sectors
  load_image-load_sectors zero kernel_inode left i inode s same rounds enough tmp image apart kept
        kept_tmp =
      absurd (omega (arith, enough))
  load_image-load_sectors (suc fuel) kernel_inode zero i inode s same rounds enough tmp image apart
        kept kept_tmp =
      let cnt : word_at s.memory (kernel_inode + 12) ≡ inode.file_sector_cnt =
        ap (λ n. n.file_sector_cnt) same in
      let ends : ltb i inode.file_sector_cnt ≡ false = ground (arith, rounds) in
      rw (load_image, cnt, ends) refl
  load_image-load_sectors (suc fuel) kernel_inode (suc left) i inode s same rounds enough tmp image
        apart kept kept_tmp =
      let low : i < inode.file_sector_cnt = omega (arith, rounds) in
      let goes_on : ltb i inode.file_sector_cnt ≡ true = ground (arith, low) in
      let s0 : Loader = record s { screen = dot 9 i s.screen } in
      let cnt : word_at s.memory (kernel_inode + 12) ≡ inode.file_sector_cnt =
        ap (λ n. n.file_sector_cnt) same in
      let start : word_at s.memory (kernel_inode + 8) ≡ inode.file_start_sect =
        ap (λ n. n.file_start_sect) same in
      rw (load_image, cnt, start, goes_on)
        (load_image-load_sectors fuel kernel_inode left (i + 1) inode _
          (round-inode kernel_inode _ i inode s0 same low tmp image apart kept kept_tmp)
          (omega (arith, rounds)) (omega (arith, enough)) tmp image apart kept kept_tmp)
