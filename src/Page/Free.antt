-- ===== src/Page/Free.antt =====
-- `free_pages` undoes `get_pages`; and what happens when the first byte is full.
use mathlib.Core.Path.{fun_ext}
use finux.Prelude.{
  ℕ, zero, suc, ◌+◌, ◌-◌, ◌*◌, ◌/◌, ◌%◌, ◌≤◌, ◌<◌, ◌≡◌, ◌≢◌, ap, sym, ◌∙◌, arith, update,
  update-update, bit_and,
}
use finux.Prelude.Bits.{u8, sub32, ◌<<<◌, bit_clear}
use finux.Prelude.Int.{pos}
use finux.Page.{
  Pages, found, missed, got, map_base, page_size, page_index, select_mask, get_pages, free_pages,
  scan_byte, scan_map,
}
use finux.Page.Run.{
  run_mask, IsFree, mark, run_mask-lt, select_mask_lem, get_pages-first, scan_map-found,
  scan_map-missed,
}

page_index_lem : (n : ℕ) → page_index (map_base + n * page_size) ≡ pos n
page_index_lem n = ground arith

-- For pages that the first 4096 bits stand for, the byte is always the first.
free_pages_lem :
    (n p : ℕ) (s : Pages)
    → n < 4096
    → free_pages (map_base + n * page_size) p s ≡ record s {
      bit_map =
          update s.bit_map 0
            (bit_and (s.bit_map 0) (255 - u8 (select_mask p 0 <<< sub32 (8 - n % 8) p)));
    }
unfolding free_pages
free_pages_lem n p s h = let first : n / page_size ≡ 0 = omega arith in rw (page_index_lem n, first)

mask_back :
    (p j : ℕ)
    → j + p < 8
    → 0 < p
    → u8 (run_mask p 0 <<< sub32 (8 - (8 - j - p) % 8) p) ≡ run_mask p j
mask_back p j high some_page =
    let shift : sub32 (8 - (8 - j - p) % 8) p ≡ j = omega arith in
    rw shift (omega (arith, run_mask-lt p j (omega arith)))

update_self : (f : ℕ → ℕ) (a v : ℕ) → v ≡ f a → update f a v ≡ f
update_self f a v e = fun_ext λ q. ground arith

-- `free_pages` clears the bits that `get_pages` set, at the address that it returned.
free-mark :
    (p j : ℕ) (s : Pages)
    → j + p < 8
    → 0 < p
    → s.bit_map 0 < 256
    → IsFree s p j
    → free_pages (map_base + (8 - j - p) * page_size) p (mark p j s) ≡ s
free-mark p j s high some_page byte free =
    let old = bit_clear 8 (s.bit_map 0) (run_mask p j) byte (run_mask-lt p j (omega arith)) free in
    let same : update (mark p j s).bit_map 0 (bit_and ((mark p j s).bit_map 0) (255 - run_mask p j))
        ≡ s.bit_map =
      update-update s.bit_map 0 _ _ ∙ update_self s.bit_map 0 _ old in
    rw
      (
        free_pages_lem (8 - j - p) p (mark p j s) (omega arith),
        select_mask_lem p (omega arith),
        mask_back p j high some_page,
      )
      (ap (λ f. record s { bit_map = f }) same)

-- When the first byte of the map has a free run of `p` pages below its highest bit, `get_pages`
-- returns an address with which `free_pages` brings the allocator back to the state before. At
-- least one page is asked for, and the first byte is below 256.
pub free_pages-get_pages :
    (p j : ℕ) (s : Pages)
    → j + p < 8
    → 0 < p
    → 0 < s.page_bit_map_cnt
    → s.bit_map 0 < 256
    → IsFree s p j
    → ((b : ℕ) → b < j → bit_and (s.bit_map 0) (run_mask p b) ≢ 0)
    → (address : ℕ) × (s' : Pages) × (get_pages p s ≡ got address s')
      × (free_pages address p s' ≡ s)
free_pages-get_pages p j s high some_page some_byte byte free least = (
  map_base + (8 - j - p) * page_size,
  mark p j s,
  get_pages-first p j s high some_byte free least,
  free-mark p j s high some_page byte free,
)

scan_byte-full : (s : Pages) → s.bit_map 0 ≡ 255 → scan_byte 1 0 7 0 1 s ≡ missed 128
unfolding scan_byte
scan_byte-full s full = simp full

-- The second round: the mask is shifted out, and no bits are free for every byte.
scan_byte-shifted_out :
    (s : Pages) → s.bit_map 0 ≡ 255 → scan_byte 1 1 7 0 128 s ≡ found (map_base + 14 * page_size) s
unfolding scan_byte
scan_byte-shifted_out s full = simp full (
    ap (λ f. found (map_base + 14 * page_size) (record s { bit_map = f }))
      (update_self s.bit_map 0 255 (sym full)))

scan_map-full :
    (n : ℕ) (s : Pages)
    → s.bit_map 0 ≡ 255
    → 2 ≤ n
    → scan_map 1 n 0 1 s ≡ got (map_base + 14 * page_size) s
scan_map-full zero s full more = absurd (omega arith)
scan_map-full (suc zero) s full more = absurd (omega arith)
scan_map-full (suc (suc n)) s full more =
    scan_map-missed 1 (suc n) 0 1 s (scan_byte-full s full)
    ∙ scan_map-found 1 (suc n) 1 128 s (omega arith) (scan_byte-shifted_out s full)

-- When the first byte is full, a call for one page never looks at another byte: it returns the
-- fourteenth page behind the map and marks nothing, so that the next call returns it again.
pub get_pages-full :
    (s : Pages)
    → s.bit_map 0 ≡ 255
    → 2 ≤ s.page_bit_map_cnt
    → get_pages 1 s ≡ got (map_base + 14 * page_size) s
unfolding get_pages select_mask
get_pages-full s full more = scan_map-full s.page_bit_map_cnt s full more
