-- ===== src/Fs/Tables.antt =====
-- The inodes and the root directory in memory, for the four sectors each that `make_fs` gives them.
use finux.Prelude.{ℕ, ◌+◌, ◌*◌, ◌-◌, ◌/◌, ◌%◌, ◌^◌, ◌≤◌, ◌<◌, ◌≡◌, ◌⊎◌, refl, ap, arith}
use finux.Prelude.Bits.{sub32}
use finux.Fs.{
  Loader, LoaderGlobals, read_inode, word_at, load_sectors, dot, get_inode_array, get_root_area,
}
use finux.Prelude.Regions.{Apart}
use finux.Fs.Load.{load_sectors-Loaded, load_sectors-disk}
use finux.Fs.Words.{word_at-shift}

pub read_inode-shift :
    (f g : ℕ → ℕ) (p q : ℕ)
    → ((j : ℕ) → j < 16 → f (p + j) ≡ g (q + j))
    → read_inode f p ≡ read_inode g q
read_inode-shift f g p q same =
    let word : (k : ℕ) → k + 4 ≤ 16 → word_at f (p + k) ≡ word_at g (q + k) = λ k low.
      word_at-shift f g (p + k) (q + k) (λ j lj.
        let at_p : p + k + j ≡ p + (k + j) = omega arith in
        let at_q : q + k + j ≡ q + (k + j) = omega arith in
        rw (at_p, at_q) (same (k + j) (omega arith))) in
    let first = word_at-shift f g p q (λ j lj. same j (omega arith)) in
    rw (first, word 4 (omega arith), word 8 (omega arith), word 12 (omega arith)) refl

module _ (globals : LoaderGlobals) (s : Loader) where
  open globals use {tmp_buf, root_area, inode_array}

  four_inode_sectors :
      s.super_block.inode_sectors ≡ 4
      → get_inode_array globals s
        ≡ load_sectors globals
            (λ i screen. screen)
            s.super_block.inode_array_start
            inode_array
            4
            0
            s
  unfolding get_inode_array
  four_inode_sectors four =
      ap
        (λ n.
          load_sectors globals (λ i screen. screen) s.super_block.inode_array_start inode_array n 0
            s)
        four

  one_root_sector :
      s.super_block.root_sectors ≡ 4
      → get_root_area globals s
        ≡ load_sectors globals (dot 7) s.super_block.root_start root_area 1 0 s
  unfolding get_root_area
  one_root_sector four =
      ap (λ n. load_sectors globals (dot 7) s.super_block.root_start root_area (sub32 n 3) 0 s) four

  -- What the array holds, and what was written behind its 1600 bytes.
  pub record InodesLoaded (after : Loader) : Type 0 where
    pub inodes :
        (k : ℕ)
        → k < 100
        → read_inode after.memory (inode_array + k * 16)
          ≡ read_inode (s.disk (s.super_block.inode_array_start + k / 32)) (k % 32 * 16)
    pub behind :
        (i : ℕ)
        → 1600 ≤ i
        → i < 2048
        → after.memory (inode_array + i) ≡ s.disk (s.super_block.inode_array_start + 3) (i - 1536)
    pub others :
        (a : ℕ)
        → (a < inode_array) ⊎ (inode_array + 2048 ≤ a)
        → (a < tmp_buf) ⊎ (tmp_buf + 512 ≤ a)
        → after.memory a ≡ s.memory a
    pub same_disk : after.disk ≡ s.disk
    pub same_super_block : after.super_block ≡ s.super_block

  -- With four sectors of inodes, whose numbers are below 2^32, and with the array and the 448 bytes
  -- behind it below 2^32 and apart from `tmp_buf`: inode `k` of the array is inode `k` of the disk,
  -- and those 448 bytes behind the array of 100 inodes are overwritten with the rest of the
  -- fourth sector.
  pub get_inode_array-InodesLoaded :
      s.super_block.inode_sectors ≡ 4
      → s.super_block.inode_array_start + 4 < 2 ^ 32
      → tmp_buf + 512 < 2 ^ 32
      → inode_array + 2048 < 2 ^ 32
      → Apart inode_array 2048 tmp_buf 512
      → InodesLoaded (get_inode_array globals s)
  get_inode_array-InodesLoaded four lba tmp fits apart =
      let start = s.super_block.inode_array_start in
      let sectors =
        load_sectors-Loaded globals (λ i screen. screen) start inode_array 4 s lba tmp fits apart in
      let after = load_sectors globals (λ i screen. screen) start inode_array 4 0 s in
      let byte : (k j : ℕ)
          → k < 4
          → j < 512
          → (i : ℕ) → i ≡ k * 512 + j
          → after.memory (inode_array + i) ≡ s.disk (start + k) j =
        λ k j low lj i at.
          let e : inode_array + i ≡ inode_array + k * 512 + j = omega arith in
          rw e (sectors.inside k j low lj) in
      rw (four_inode_sectors four) (record {
        inodes = λ k low.
            read_inode-shift after.memory (s.disk (start + k / 32)) (inode_array + k * 16)
              (k % 32 * 16)
              (λ j lj.
                let e : inode_array + k * 16 + j ≡ inode_array + (k * 16 + j) = omega arith in
                rw e (
                  byte (k / 32) (k % 32 * 16 + j) (omega arith) (omega arith) (k * 16 + j)
                    (omega arith)));
        behind = λ i low high. byte 3 (i - 1536) (omega arith) (omega arith) i (omega arith);
        others = λ a out. sectors.outside a (ground (arith, out));
        same_disk = sectors.disk;
        same_super_block = sectors.super_block;
      })

  -- Of a root directory of four sectors only the first one is loaded: the first 32 of the 100
  -- entries come from it, and the bytes of the other 68 are as they were, when the sector has a
  -- number below 2^32 and the first 512 bytes of the area, below 2^32, are apart from `tmp_buf`.
  pub get_root_area-first_sector :
      s.super_block.root_sectors ≡ 4
      → s.super_block.root_start + 1 < 2 ^ 32
      → tmp_buf + 512 < 2 ^ 32
      → root_area + 512 < 2 ^ 32
      → Apart root_area 512 tmp_buf 512
      → ((i : ℕ)
          → i < 512
          → (get_root_area globals s).memory (root_area + i) ≡ s.disk s.super_block.root_start i)
        × ((a : ℕ)
            → (a < root_area) ⊎ (root_area + 512 ≤ a)
            → (a < tmp_buf) ⊎ (tmp_buf + 512 ≤ a)
            → (get_root_area globals s).memory a ≡ s.memory a)
  get_root_area-first_sector four lba tmp fits apart =
      let start = s.super_block.root_start in
      let sectors = load_sectors-Loaded globals (dot 7) start root_area 1 s lba tmp fits apart in
      rw (one_root_sector four) (
        λ i low.
            let e : root_area + 0 * 512 + i ≡ root_area + i = omega arith in
            let l : start + 0 ≡ start = omega arith in
            rw (e, l) at (sectors.inside 0 i (omega arith) low),
        λ a high out. sectors.outside a (ground (arith, high)) out,
      )

  pub get_root_area-disk : (get_root_area globals s).disk ≡ s.disk
  unfolding get_root_area
  get_root_area-disk = load_sectors-disk globals (dot 7) _ _ _ 0 s
