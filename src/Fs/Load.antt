-- ===== src/Fs/Load.antt =====
-- What the loops that load sectors leave in memory.
use finux.Prelude.{ℕ, zero, suc, ◌+◌, ◌-◌, ◌*◌, ◌^◌, ◌≤◌, ◌<◌, ◌≡◌, refl, ◌∙◌, ◌⊎◌, inl, arith, ap}
use finux.Prelude.Regions.{Apart}
use finux.Prelude.Bits.{u32}
use finux.Display.{Screen}
use finux.Strings.Copies.{memcpy-Region}
use finux.Fs.{LoaderGlobals, Loader, read_sector, load_sector, load_sectors}

pub read_sector-inside :
    (lba buf i : ℕ) (s : Loader) → i < 512 → (read_sector lba buf s).memory (buf + i) ≡ s.disk lba i
unfolding read_sector
read_sector-inside lba buf i s low =
    let back : buf + i - buf ≡ i = omega arith in ground (arith, ap (s.disk lba) back)

pub read_sector-outside :
    (lba buf a : ℕ) (s : Loader)
    → (a < buf) ⊎ (buf + 512 ≤ a)
    → (read_sector lba buf s).memory a ≡ s.memory a
unfolding read_sector
read_sector-outside lba buf a s out = ground arith

pub read_sector-disk : (lba buf : ℕ) (s : Loader) → (read_sector lba buf s).disk ≡ s.disk
unfolding read_sector
read_sector-disk lba buf s = refl

module _ (globals : LoaderGlobals) where
  open globals use {tmp_buf}

  -- `n` sectors from `start` on stand at `dst`, and only they and `tmp_buf` were written.
  pub record Loaded (start dst n : ℕ) (before after : Loader) : Type 0 where
    pub inside :
        (k j : ℕ) → k < n → j < 512 → after.memory (dst + k * 512 + j) ≡ before.disk (start + k) j
    pub outside :
        (a : ℕ)
        → (a < dst) ⊎ (dst + n * 512 ≤ a)
        → (a < tmp_buf) ⊎ (tmp_buf + 512 ≤ a)
        → after.memory a ≡ before.memory a
    pub disk : after.disk ≡ before.disk
    pub super_block : after.super_block ≡ before.super_block

  pub load_sector-Region :
      (lba dst : ℕ) (s : Loader)
      → tmp_buf + 512 < 2 ^ 32
      → dst + 512 < 2 ^ 32
      → Apart dst 512 tmp_buf 512
      → ((j : ℕ) → j < 512 → (load_sector globals lba dst s).memory (dst + j) ≡ s.disk lba j)
        × ((a : ℕ)
            → (a < dst) ⊎ (dst + 512 ≤ a)
            → (a < tmp_buf) ⊎ (tmp_buf + 512 ≤ a)
            → (load_sector globals lba dst s).memory a ≡ s.memory a)
  unfolding load_sector
  load_sector-Region lba dst s fits_tmp fits_dst apart =
      let s1 = read_sector lba tmp_buf s in
      let copied = (memcpy-Region dst tmp_buf 512 s1.memory fits_dst fits_tmp (ground arith)).1 in
      (
        λ j low. copied.inside j low ∙ read_sector-inside lba tmp_buf j s low,
        λ a out out_tmp. copied.outside a out ∙ read_sector-outside lba tmp_buf a s out_tmp,
      )

  load_sector-disk :
      (lba dst : ℕ) (s : Loader)
      → ((load_sector globals lba dst s).disk ≡ s.disk)
        × ((load_sector globals lba dst s).super_block ≡ s.super_block)
  unfolding load_sector read_sector
  load_sector-disk lba dst s = (refl, refl)

  -- One more sector in front, which the others and `tmp_buf` leave alone.
  Loaded-cons :
      {l d n : ℕ} {s s1 after : Loader}
      → Loaded (l + 1) (d + 512) n s1 after
      → Apart d 512 tmp_buf 512
      → ((j : ℕ) → j < 512 → s1.memory (d + j) ≡ s.disk l j)
      → ((a : ℕ)
          → (a < d) ⊎ (d + 512 ≤ a)
          → (a < tmp_buf) ⊎ (tmp_buf + 512 ≤ a)
          → s1.memory a ≡ s.memory a)
      → s1.disk ≡ s.disk
      → s1.super_block ≡ s.super_block
      → Loaded l d (suc n) s after
  Loaded-cons {l} {d} {n} {s} {s1} {after} rest apart first others same_disk same_super = record {
    inside = inside;
    outside =
        λ a out out_tmp. rest.outside a (ground arith) out_tmp ∙ others a (ground arith) out_tmp;
    disk = rest.disk ∙ same_disk;
    super_block = rest.super_block ∙ same_super;
  }
    where
      inside : (k j : ℕ) → k < suc n → j < 512 → after.memory (d + k * 512 + j) ≡ s.disk (l + k) j
      inside zero j low lj =
          let at : d + 0 * 512 + j ≡ d + j = omega arith in
          let at_l : l + 0 ≡ l = omega arith in
          rw (at, at_l) (rest.outside (d + j) (inl (omega arith)) (ground arith) ∙ first j lj)
      inside (suc k) j low lj =
          let at : d + 512 + k * 512 + j ≡ d + suc k * 512 + j = omega arith in
          let at_l : l + 1 + k ≡ l + suc k = omega arith in
          rw (at, at_l) at (rest.inside k j (omega arith) lj) ∙ ap (λ f. f (l + suc k) j) same_disk

  -- The loops, from round `i` on.
  load_sectors-rounds :
      (print : ℕ → Screen → Screen) (start dst left i : ℕ) (s : Loader)
      → start + i + left < 2 ^ 32
      → tmp_buf + 512 < 2 ^ 32
      → dst + (i + left) * 512 < 2 ^ 32
      → Apart dst ((i + left) * 512) tmp_buf 512
      → Loaded (start + i) (dst + i * 512) left s (load_sectors globals print start dst left i s)
  unfolding load_sectors
  load_sectors-rounds print start dst zero i s fits_lba fits_tmp fits apart = record {
    inside = λ k j low. absurd (omega (arith, low));
    outside = λ a out out_tmp. refl;
    disk = refl;
    super_block = refl;
  }
  load_sectors-rounds print start dst (suc left) i s fits_lba fits_tmp fits apart =
      let s0 : Loader = record s { screen = print i s.screen } in
      let here : u32 (start + i) ≡ start + i = omega arith in
      let next_l : start + (i + 1) ≡ start + i + 1 = omega arith in
      let next_d : dst + (i + 1) * 512 ≡ dst + i * 512 + 512 = omega arith in
      let s1 = load_sector globals (start + i) (dst + i * 512) s0 in
      let (first, others) =
        load_sector-Region (start + i) (dst + i * 512) s0 fits_tmp (omega arith) (ground arith) in
      let (same_disk, same_super) = load_sector-disk (start + i) (dst + i * 512) s0 in
      let rest =
        load_sectors-rounds print start dst left (i + 1) s1 (omega arith) fits_tmp (omega arith)
          (ground arith) in
      rw here
        (Loaded-cons (rw (next_l, next_d) at rest) (ground arith) first others same_disk same_super)

  -- From the first round on.
  pub load_sectors-Loaded :
      (print : ℕ → Screen → Screen) (start dst n : ℕ) (s : Loader)
      → start + n < 2 ^ 32
      → tmp_buf + 512 < 2 ^ 32
      → dst + n * 512 < 2 ^ 32
      → Apart dst (n * 512) tmp_buf 512
      → Loaded start dst n s (load_sectors globals print start dst n 0 s)
  load_sectors-Loaded print start dst n s fits_lba fits_tmp fits apart =
      let at_l : start + 0 ≡ start = omega arith in
      let at_d : dst + 0 * 512 ≡ dst = omega arith in
      rw (at_l, at_d) at
        (load_sectors-rounds print start dst n 0 s (omega arith) fits_tmp (omega arith)
          (ground arith))

  -- The disk stays as it is, whatever the places are.
  pub load_sectors-disk :
      (print : ℕ → Screen → Screen) (start dst left i : ℕ) (s : Loader)
      → (load_sectors globals print start dst left i s).disk ≡ s.disk
  unfolding load_sectors
  load_sectors-disk print start dst zero i s = refl
  load_sectors-disk print start dst (suc left) i s =
      load_sectors-disk print start dst left (i + 1) _ ∙ (load_sector-disk _ _ _).0
