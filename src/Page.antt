-- ===== src/Page.antt =====
-- The page allocator of kernel/mm/page.c: one bit of the map at 5M for each page behind it.
pub mod Init
pub mod Run
pub mod Free
use finux.Prelude.{
  ℕ, zero, suc, ◌+◌, ◌-◌, ◌*◌, ◌/◌, ◌%◌, ◌^◌, Bool, true, false, ◌&&◌, ◌==◌, ltb, leb,
  if◌then◌else◌, update, bit_and, bit_or,
}
use finux.Prelude.Bits.{u8, u32, ◌<<<◌, ◌>>>◌, sub32}
use finux.Prelude.Int.{ℤ, pos, negsuc}
use finux.MemInfo.{E820Ards, MemInfo}

abbrev pub page_size : ℕ
page_size = 0x1000

-- `page_bit_map`
abbrev pub map_base : ℕ
map_base = 0x500000

-- The bytes behind `page_bit_map`, and the two counters.
pub record Pages : Type 0 where
  pub bit_map : ℕ → ℕ
  pub page_cnt : ℕ
  pub page_bit_map_cnt : ℕ

-- The first loop of `init_page_bit_map`, at entry `i` with `left` entries to go.
unfoldable pub longest : (ℕ → E820Ards) → ℕ → ℕ → ℕ → ℕ
longest map zero i lenth = lenth
longest map (suc left) i lenth =
    let entry = map i in
    longest map left (i + 1)
      (if entry.type == 1 && ltb lenth entry.lenthlow then entry.lenthlow else lenth)

-- The second loop.
unfoldable pub clear_map : ℕ → ℕ → (ℕ → ℕ) → ℕ → ℕ
clear_map zero i map = map
clear_map (suc left) i map = clear_map left (i + 1) (update map i 0)

unfoldable pub init_page_bit_map : MemInfo → Pages → Pages
init_page_bit_map info s =
    let lenth = sub32 (longest info.memory_map info.kernel_info.memory_map_cnt 0 0) map_base in
    let page_cnt = u32 (lenth + page_size - 1) / page_size in
    let page_bit_map_cnt = (page_cnt + 8 - 1) / 8 in
    record {
      bit_map = update (clear_map page_bit_map_cnt 0 s.bit_map) 0 (1 <<< 7);
      page_cnt = page_cnt;
      page_bit_map_cnt = page_bit_map_cnt;
    }

-- `select = (select << 1) | 1`, as often as there are pages.
unfoldable pub select_mask : ℕ → ℕ → ℕ
select_mask zero select = select
select_mask (suc n) select = select_mask n (u8 (bit_or (select <<< 1) 1))

-- What `get_pages` ends with: an address, 0 for none, or PANIC.
pub data Got : Type 0 where
  got : ℕ → Pages → Got
  panicked : Got

-- The inner loop either returns or leaves `select` shifted.
pub data Scan : Type 0 where
  found : ℕ → Pages → Scan
  missed : ℕ → Scan

-- The address that is returned at byte `i` and bit `bytein`.
abbrev pub address_of : ℕ → ℕ → ℕ → ℕ
address_of page_cnt i bytein = u32 (map_base + (i * 8 + (8 - bytein - page_cnt)) * page_size)

-- The inner loop with `left` rounds to go. `tmp_map` always points to the first byte.
unfoldable pub scan_byte : ℕ → ℕ → ℕ → ℕ → ℕ → Pages → Scan
scan_byte page_cnt i zero bytein select s = missed select
scan_byte page_cnt i (suc left) bytein select s =
    let rest = scan_byte page_cnt i left (bytein + 1) (u8 (select <<< 1)) s in
    if bit_and (s.bit_map 0) select == 0
    then found (address_of page_cnt i bytein)
        (record s { bit_map = update s.bit_map 0 (bit_or (s.bit_map 0) select) })
    else rest

-- The outer loop with `left` rounds to go. `bytein + page_cnt < 8` holds `8 - page_cnt` times.
unfoldable pub scan_map : ℕ → ℕ → ℕ → ℕ → Pages → Got
scan_map page_cnt zero i select s = got 0 s
scan_map page_cnt (suc left) i select s = elim (scan_byte page_cnt i (8 - page_cnt) 0 select s) [
  | found address s' ↦ got address s'
  | missed select' ↦ scan_map page_cnt left (i + 1) select' s
]

unfoldable pub get_pages : ℕ → Pages → Got
get_pages page_cnt s =
    if ltb 8 page_cnt
    then panicked
    else scan_map page_cnt s.page_bit_map_cnt 0 (select_mask page_cnt 0) s

-- `(address - page_bit_map) >> 12`, a signed difference of less than 2^31, rounded down.
abbrev pub page_index : ℕ → ℤ
page_index address =
    if leb map_base address
    then pos ((address - map_base) >>> 12)
    else negsuc ((map_base - address - 1) >>> 12)

-- Division by PAGE_SIZE rounds to zero; below the map the index is at least -0x500.
abbrev pub byte_offset : ℤ → ℕ
byte_offset (pos n) = n / page_size
byte_offset (negsuc n) = 0

-- `8 - index % 8 - page_cnt`, on unsigned int.
abbrev pub free_shift : ℤ → ℕ → ℕ
free_shift (pos n) page_cnt = sub32 (8 - n % 8) page_cnt
free_shift (negsuc n) page_cnt = sub32 (8 + (n + 1) % 8) page_cnt

unfoldable pub free_pages : ℕ → ℕ → Pages → Pages
free_pages address page_cnt s =
    let index = page_index address in
    let offset = byte_offset index in
    let select = 255 - u8 (select_mask page_cnt 0 <<< free_shift index page_cnt) in
    record s { bit_map = update s.bit_map offset (bit_and (s.bit_map offset) select) }
