-- ===== src/Page/Run.antt =====
-- `get_pages` finds the first run of free bits in the first byte.
use finux.Prelude.{
  ℕ, zero, suc, ◌+◌, ◌-◌, ◌*◌, ◌^◌, ◌≤◌, ◌<◌, ◌≡◌, ◌≢◌, Bool, refl, true, false, ◌||◌, inl, inr,
  arith, ◌==◌, ltb, Bool-cases, update, bit_and, bit_or,
}
use finux.Prelude.Bits.{u8, ◌<<<◌}
use finux.Prelude.Table.{all_below, all_below_sound, all_pairs_sound}
use finux.Page.{
  Pages, got, found, missed, map_base, page_size, address_of, select_mask, scan_byte, scan_map,
  get_pages,
}

-- The bits of `p` pages from bit `j` up.
abbrev pub run_mask : ℕ → ℕ → ℕ
run_mask p j = (2 ^ p - 1) * 2 ^ j

abbrev pub IsFree : Pages → ℕ → ℕ → Type 0
IsFree s p j = bit_and (s.bit_map 0) (run_mask p j) ≡ 0

-- `s` with those bits set.
abbrev pub mark : ℕ → ℕ → Pages → Pages
mark p j s = record s { bit_map = update s.bit_map 0 (bit_or (s.bit_map 0) (run_mask p j)) }

mask_table : all_below 9 (λ p. select_mask p 0 == run_mask p 0) ≡ true
unfolding all_below select_mask
mask_table = refl

pub select_mask_lem : (p : ℕ) → p ≤ 8 → select_mask p 0 ≡ run_mask p 0
select_mask_lem p h =
    ground (arith, all_below_sound 9 (λ p. select_mask p 0 == run_mask p 0) p mask_table)

fits_table : all_below 9 (λ p. all_below 9 (λ j. ltb 8 (p + j) || ltb (run_mask p j) 256)) ≡ true
unfolding all_below
fits_table = refl

pub run_mask-lt : (p j : ℕ) → p + j ≤ 8 → run_mask p j < 256
run_mask-lt p j h =
    ground
      (arith, all_pairs_sound 9 9 (λ p j. ltb 8 (p + j) || ltb (run_mask p j) 256) p j fits_table)

abbrev next_mask : ℕ → ℕ → Bool
next_mask p j = ltb 7 (p + j) || (u8 (run_mask p j <<< 1) == run_mask p (j + 1))

shift_table : all_below 9 (λ p. all_below 9 (next_mask p)) ≡ true
unfolding all_below
shift_table = refl

run_mask-suc : (p j : ℕ) → p + j < 8 → u8 (run_mask p j <<< 1) ≡ run_mask p (j + 1)
run_mask-suc p j h = ground (arith, all_pairs_sound 9 9 next_mask p j shift_table)

scan_byte-found :
    (p i j left bytein : ℕ) (s : Pages)
    → bytein + left + p ≡ 8
    → bytein ≤ j
    → j < bytein + left
    → IsFree s p j
    → ((b : ℕ) → bytein ≤ b → b < j → bit_and (s.bit_map 0) (run_mask p b) ≢ 0)
    → scan_byte p i left bytein (run_mask p bytein) s ≡ found (address_of p i j) (mark p j s)
unfolding scan_byte
scan_byte-found p i j zero bytein s e low high free least = absurd (omega arith)
scan_byte-found p i j (suc left) bytein s e low high free least = elim (Bool-cases (bytein == j)) [
  | inl here ↦ let e : bytein ≡ j = ground arith in rw (e, free)
  | inr later ↦
      let ne : (bit_and (s.bit_map 0) (run_mask p bytein) == 0) ≡ false =
        ground (arith, least bytein) in
      rw ne (
        rw (run_mask-suc p bytein (omega arith)) (
          scan_byte-found p i j left (bytein + 1) s (omega arith) (ground arith) (omega arith) free
            (λ b lo hi. least b (omega arith) hi)))
]

pub scan_map-found :
    (p n i select : ℕ) (s : Pages) {a : ℕ} {s' : Pages}
    → 0 < n
    → scan_byte p i (8 - p) 0 select s ≡ found a s'
    → scan_map p n i select s ≡ got a s'
unfolding scan_map
scan_map-found p zero i select s some_byte h = absurd (omega arith)
scan_map-found p (suc n) i select s some_byte h = rw (scan_map, h)

pub scan_map-missed :
    (p n i select : ℕ) (s : Pages) {select' : ℕ}
    → scan_byte p i (8 - p) 0 select s ≡ missed select'
    → scan_map p (suc n) i select s ≡ scan_map p n (i + 1) select' s
unfolding scan_map
scan_map-missed p n i select s h = rw (scan_map, h)

-- A call for less than 8 pages, when the first byte of the map has a free run of that length below
-- its highest bit, takes the lowest such run, marks it and nothing else, and returns the address of
-- its pages.
pub get_pages-first :
    (p j : ℕ) (s : Pages)
    → j + p < 8
    → 0 < s.page_bit_map_cnt
    → IsFree s p j
    → ((b : ℕ) → b < j → bit_and (s.bit_map 0) (run_mask p b) ≢ 0)
    → get_pages p s ≡ got (map_base + (8 - j - p) * page_size) (mark p j s)
unfolding get_pages
get_pages-first p j s high some_byte free least =
    let small : ltb 8 p ≡ false = ground arith in
    let at : address_of p 0 j ≡ map_base + (8 - j - p) * page_size = omega arith in
    let here =
      scan_byte-found p 0 j (8 - p) 0 s (omega arith) (omega arith) (omega arith) free
        (λ b lo hi. least b hi) in
    rw (small, select_mask_lem p (omega arith))
      (scan_map-found p s.page_bit_map_cnt 0 (run_mask p 0) s some_byte (rw (← at) here))
