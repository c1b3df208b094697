-- ===== src/Fs/Kernel.antt =====
-- Loading the kernel, and what the kernel is told.
use finux.Prelude.{
  ℕ, ◌+◌, ◌-◌, ◌*◌, ◌^◌, ◌≤◌, ◌<◌, ◌≡◌, refl, ◌⊎◌, arith, ap, List, ltb, leb, ◌&&◌, Option, none,
  some, [], ◌∷◌, if◌then◌else◌,
}
use finux.MemInfo.{MemInfo, get_memory_info, read_kernel_info}
use finux.Fs.{
  LoaderGlobals, Loader, Loading, loaded, no_kernel, Inode, read_inode, inode_at, inode_of,
  load_sectors, dot, load_image, load_kernel, loader_kernel, write_kernel_info, word_at, word_bytes,
}
use finux.Fs.Load.{load_sectors-Loaded}
use finux.Fs.Tables.{read_inode-shift}
use finux.Fs.Image.{Fits, load_image-load_sectors}
use finux.Fs.Find.{Finds, find_file_in_root-Finds}
use finux.Fs.Words.{word_at-word_bytes}

write_kernel_info-bytes :
    (words : List ℕ) (memory : ℕ → ℕ) (i : ℕ)
    → i < 12
    → (if leb 0x100000 (0x100000 + i) && ltb (0x100000 + i) 0x10000c
        then word_bytes words (0x100000 + i - 0x100000)
        else memory (0x100000 + i))
      ≡ word_bytes words i
write_kernel_info-bytes words memory i low =
    let back : 0x100000 + i - 0x100000 ≡ i = omega arith in
    ground (arith, ap (word_bytes words) back)

-- The kernel reads the three words that the loader wrote.
write_kernel_info-info :
    (size detect_count : ℕ) (memory : ℕ → ℕ)
    → size < 2 ^ 32
    → detect_count < 2 ^ 32
    → read_kernel_info (word_at (write_kernel_info size 0x200000 detect_count memory)) 0x100000
      ≡ record { size = size; start = 0x200000; memory_map_cnt = detect_count }
write_kernel_info-info size detect_count memory small_size small_count =
    let words : List ℕ = size ∷ 0x200000 ∷ detect_count ∷ [] in
    let written = write_kernel_info size 0x200000 detect_count memory in
    let bytes = write_kernel_info-bytes words memory in
    let w0 =
      word_at-word_bytes written 0x100000 words 12 0 0x100000 bytes (omega arith) refl small_size in
    let w1 =
      word_at-word_bytes written 0x100000 words 12 1 0x100004 bytes (omega arith) refl
        (omega arith) in
    let w2 =
      word_at-word_bytes written 0x100000 words 12 2 0x100008 bytes (omega arith) refl
        small_count in
    rw (w0, w1, w2) refl

module _ (globals : LoaderGlobals) where
  open globals use {tmp_buf, inode_array, kernel_name}

  -- The kernel's image stands at 2M, and the information that the kernel reads at 1M.
  pub record Started (inode : Inode) (detect_count : ℕ) (before after : Loader) : Type 0 where
    pub image :
        (k j : ℕ)
        → k < inode.file_sector_cnt
        → j < 512
        → after.memory (0x200000 + k * 512 + j) ≡ before.disk (inode.file_start_sect + k) j
    pub info :
        (memory_info : MemInfo)
        → (get_memory_info (word_at after.memory) memory_info).kernel_info
          ≡ record { size = inode.file_size; start = 0x200000; memory_map_cnt = detect_count }
    pub others :
        (a : ℕ)
        → (a < 0x100000) ⊎ (0x10000c ≤ a)
        → (a < 0x200000) ⊎ (0x200000 + inode.file_sector_cnt * 512 ≤ a)
        → (a < tmp_buf) ⊎ (tmp_buf + 512 ≤ a)
        → after.memory a ≡ before.memory a

  load_kernel-Started :
      (fuel detect_count entry : ℕ) (s : Loader)
      → Fits globals fuel (inode_at globals entry s.memory) (inode_of globals entry s.memory)
      → tmp_buf + 512 < 2 ^ 32
      → detect_count < 2 ^ 32
      → (after : Loader) × (load_kernel globals fuel detect_count entry s ≡ some after)
        × Started (inode_of globals entry s.memory) detect_count s after
  unfolding load_kernel get_memory_info
  load_kernel-Started fuel detect_count entry s fits tmp count =
      let kernel_inode = inode_at globals entry s.memory in
      let inode = inode_of globals entry s.memory in
      let s1 =
        load_sectors globals (dot 9) inode.file_start_sect 0x200000 inode.file_sector_cnt 0 s in
      let sectors =
        load_sectors-Loaded globals (dot 9) inode.file_start_sect 0x200000 inode.file_sector_cnt s
          fits.lba tmp fits.image fits.apart in
      let loop : load_image globals fuel kernel_inode 0 s ≡ some s1 =
        load_image-load_sectors globals fuel kernel_inode inode.file_sector_cnt 0 inode s refl
          (omega arith) fits.enough tmp fits.image fits.apart fits.kept fits.kept_tmp in
      let same : read_inode s1.memory kernel_inode ≡ inode =
        read_inode-shift s1.memory s.memory kernel_inode kernel_inode (λ j lj.
          sectors.outside (kernel_inode + j) (ground (arith, fits.kept))
            (ground (arith, fits.kept_tmp))) in
      (
        record s1 { memory = write_kernel_info inode.file_size 0x200000 detect_count s1.memory },
        rw
            (
              loop,
              ap
                  (λ n. some (record s1 {
                    memory = write_kernel_info n.file_size 0x200000 detect_count s1.memory;
                  }))
                  same,
            )
            refl,
        record {
          image = λ k j low lj. ground (arith, sectors.inside k j low lj);
          info = λ memory_info.
              write_kernel_info-info inode.file_size detect_count s1.memory fits.size count;
          others =
              λ a info_out image_out tmp_out. ground (arith, sectors.outside a image_out tmp_out);
        },
      )

  -- What `loader_kernel` leads to, for what the search finds.
  pub data Boots (detect_count : ℕ) (s : Loader) : Option ℕ → Loading → Type 0 where
    boots :
        {entry : ℕ} {after : Loader}
        → Started (inode_of globals entry s.memory) detect_count s after
        → Boots detect_count s (some entry) (loaded after)
    panics : Boots detect_count s none no_kernel

  -- When the search finds an entry whose inode the loop can load without writing over it, with fuel
  -- for its sectors, the kernel's sectors stand from
  -- 2M on, `get_memory_info` of the kernel reads the size, the address and the number of memory
  -- ranges from what is written at 1M, and no other byte but those of `tmp_buf` is changed. When the
  -- search finds no entry the loader panics.
  pub loader_kernel-Boots :
      (fuel detect_count : ℕ) (s : Loader) (found : Option ℕ)
      → Finds globals fuel kernel_name s.memory found
      → ((entry : ℕ)
          → found ≡ some entry
          → Fits globals fuel (inode_at globals entry s.memory) (inode_of globals entry s.memory))
      → tmp_buf + 512 < 2 ^ 32
      → detect_count < 2 ^ 32
      → (loading : Loading) × (loader_kernel globals fuel detect_count s ≡ some loading)
        × Boots detect_count s found loading
  unfolding loader_kernel
  loader_kernel-Boots fuel detect_count s none finds fits tmp count = (
    no_kernel,
    rw (find_file_in_root-Finds globals fuel kernel_name s.memory none finds) refl,
    panics,
  )
  loader_kernel-Boots fuel detect_count s (some entry) finds fits tmp count =
      let found_entry =
        find_file_in_root-Finds globals fuel kernel_name s.memory (some entry) finds in
      let (after, loads, started) =
        load_kernel-Started fuel detect_count entry s (fits entry refl) tmp count in
      (loaded after, rw (found_entry, loads) refl, boots started)
